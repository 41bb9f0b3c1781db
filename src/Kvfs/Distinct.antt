-- ===== src/Kvfs/Distinct.antt =====
-- Lists of nodes of hw4/kvfs.c whose names are distinct, under the changes that handlers make.
use os_assignments.Base.{
  ℕ, zero, suc, ◌≡◌, refl, false, none, some, List, [], ◌∷◌, ◌++◌, set, arith, if◌then◌else◌, Bytes,
  str_eq, str_eq_iff,
}
use os_assignments.Kvfs.State.{Fnode}
use os_assignments.Kvfs.Find.{find, remove_at, IsFirst, here, there, find-append}

abbrev pub Distinct : List Fnode → Type 0
Distinct [] = Unit
Distinct (f ∷ fs) = (find f.name fs ≡ none) × Distinct fs

pub find-remove_at_self :
    {name : Bytes} {xs : List Fnode} {j : ℕ} {f : Fnode}
    → IsFirst name xs j f
    → Distinct xs
    → find name (remove_at j xs) ≡ none
unfolding find remove_at
find-remove_at_self {name} (here {f} e) d = ground (arith, str_eq_iff f.name name)
find-remove_at_self (there e r) d = rw e (find-remove_at_self r d.1)

find-remove_at-none :
    (m : Bytes) (j : ℕ) (xs : List Fnode) → find m xs ≡ none → find m (remove_at j xs) ≡ none
unfolding find remove_at
find-remove_at-none m j [] h = refl
find-remove_at-none m zero (x ∷ xs) h = ground arith
find-remove_at-none m (suc j) (x ∷ xs) h = ground (arith, find-remove_at-none m j xs)

pub Distinct-remove_at : (j : ℕ) (xs : List Fnode) → Distinct xs → Distinct (remove_at j xs)
unfolding remove_at
Distinct-remove_at j [] d = d
Distinct-remove_at zero (x ∷ xs) d = d.1
Distinct-remove_at (suc j) (x ∷ xs) d =
    (find-remove_at-none x.name j xs d.0, Distinct-remove_at j xs d.1)

pub Distinct-append :
    (xs : List Fnode) (g : Fnode) → Distinct xs → find g.name xs ≡ none → Distinct (xs ++ (g ∷ []))
unfolding find
Distinct-append [] g d h = (refl, tt)
Distinct-append (x ∷ xs) g d h = (
  ground (arith, find-append x.name xs g, str_eq_iff g.name x.name, str_eq_iff x.name g.name),
  Distinct-append xs g d.1 (ground arith),
)

-- A node that takes a name no node has.
pub find-rename :
    {name : Bytes} {xs : List Fnode} {j : ℕ} {f : Fnode} (g : Fnode) (m : Bytes)
    → IsFirst name xs j f
    → Distinct xs
    → find g.name xs ≡ none
    → find m (set xs j g)
      ≡ (if str_eq g.name m then some g else if str_eq name m then none else find m xs)
unfolding find
find-rename {name} g m (here {f} e) d h =
    ground (arith, str_eq_iff f.name name, str_eq_iff name m, str_eq_iff f.name m)
find-rename {name} g m (there {g = k} e r) d h = ground (
  arith,
  find-rename g m r d.1,
  str_eq_iff k.name m,
  str_eq_iff k.name g.name,
  str_eq_iff g.name m,
  str_eq_iff k.name name,
  str_eq_iff name m,
)

find-set-none :
    (m : Bytes) (g : Fnode) (j : ℕ) (xs : List Fnode)
    → find m xs ≡ none
    → str_eq g.name m ≡ false
    → find m (set xs j g) ≡ none
unfolding find
find-set-none m g j [] h ne = refl
find-set-none m g zero (x ∷ xs) h ne = ground arith
find-set-none m g (suc j) (x ∷ xs) h ne = ground (arith, find-set-none m g j xs)

pub Distinct-rename :
    (g : Fnode) (j : ℕ) (xs : List Fnode)
    → Distinct xs
    → find g.name xs ≡ none
    → Distinct (set xs j g)
unfolding find
Distinct-rename g j [] d h = d
Distinct-rename g zero (x ∷ xs) d h = (ground arith, d.1)
Distinct-rename g (suc j) (x ∷ xs) d h = (
  find-set-none x.name g j xs d.0
      (ground (arith, str_eq_iff x.name g.name, str_eq_iff g.name x.name)),
  Distinct-rename g j xs d.1 (ground arith),
)
