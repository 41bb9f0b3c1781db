-- ===== src/Kvfs/Find.antt =====
-- What `lookup` of hw4/kvfs.c finds, against the plain view of the nodes as a dictionary by name.
use os_assignments.Base.{
  ℕ, zero, suc, ◌+◌, ◌≡◌, refl, inl, inr, true, false, Option, none, some, List, [], ◌∷◌, ◌++◌,
  get_elem?, set, arith, Bytes, str_eq, str_eq_iff, if◌then◌else◌, Bool-cases, ap, ◌∙◌,
}
use os_assignments.Kvfs.State.{Fnode, lookup_from}

-- The first node of that name.
unfoldable pub find : Bytes → List Fnode → Option Fnode
find name [] = none
find name (f ∷ fs) = if str_eq f.name name then some f else find name fs

-- The list without its item at `i`.
unfoldable pub remove_at : ℕ → List Fnode → List Fnode
remove_at i [] = []
remove_at zero (f ∷ fs) = fs
remove_at (suc i) (f ∷ fs) = f ∷ remove_at i fs

-- `f` is the first node of that name, at place `j`.
pub data IsFirst (name : Bytes) : List Fnode → ℕ → Fnode → Type 0 where
  here : {f : Fnode} {fs : List Fnode} → str_eq f.name name ≡ true → IsFirst name (f ∷ fs) zero f
  there :
      {g f : Fnode} {fs : List Fnode} {j : ℕ}
      → str_eq g.name name ≡ false
      → IsFirst name fs j f
      → IsFirst name (g ∷ fs) (suc j) f

-- What a successful search found, and where `lookup` says it is.
pub record Found (i : ℕ) (name : Bytes) (xs : List Fnode) (f : Fnode) : Type 0 where
  pub place : ℕ
  pub looked_up : lookup_from i name xs ≡ some (i + place)
  pub first : IsFirst name xs place f

pub find-Found :
    (i : ℕ) (name : Bytes) (xs : List Fnode) {f : Fnode} → find name xs ≡ some f → Found i name xs f
unfolding find lookup_from
find-Found i name [] h = cc
find-Found i name (g ∷ xs) {f} h = elim (Bool-cases (str_eq g.name name)) [
  | inl hit ↦
      let e' : some g ≡ some f = rw hit at h in
      let e : g ≡ f = cc in
      let hit' : str_eq f.name name ≡ true = rw e at hit in
      rw e (record { place = 0; looked_up = rw hit' (ap some (omega arith)); first = here hit' })
  | inr miss ↦
      let rest : find name xs ≡ some f = rw miss at h in
      let r = find-Found (i + 1) name xs rest in
      record {
        place = suc r.place;
        looked_up = rw miss (r.looked_up ∙ ap some (omega arith));
        first = there miss r.first;
      }
]

pub lookup_from-none :
    (i : ℕ) (name : Bytes) (xs : List Fnode) → find name xs ≡ none → lookup_from i name xs ≡ none
unfolding find lookup_from
lookup_from-none i name [] h = refl
lookup_from-none i name (g ∷ xs) h = ground (arith, lookup_from-none (i + 1) name xs)

pub name_of_first :
    {name : Bytes} {xs : List Fnode} {j : ℕ} {f : Fnode} → IsFirst name xs j f → f.name ≡ name
name_of_first {name} (here {f} e) = (str_eq_iff f.name name).0 e
name_of_first (there e r) = name_of_first r

pub get_elem?-first :
    {name : Bytes} {xs : List Fnode} {j : ℕ} {f : Fnode}
    → IsFirst name xs j f
    → get_elem? xs j ≡ some f
get_elem?-first (here e) = refl
get_elem?-first (there e r) = get_elem?-first r

-- A write to the node found changes the dictionary at that name only.
pub find-set :
    {name : Bytes} {xs : List Fnode} {j : ℕ} {f : Fnode} (g : Fnode) (m : Bytes)
    → IsFirst name xs j f
    → g.name ≡ name
    → find m (set xs j g) ≡ (if str_eq name m then some g else find m xs)
unfolding find
find-set {name} g m (here {f} e) same =
    ground
      (arith, str_eq_iff f.name name, str_eq_iff g.name m, str_eq_iff name m, str_eq_iff f.name m)
find-set {name} g m (there {g = k} e r) same =
    ground
      (arith, find-set g m r same, str_eq_iff k.name name, str_eq_iff k.name m, str_eq_iff name m)

-- Taking the node found out of the list changes nothing at other names.
pub find-remove_at :
    {name : Bytes} {xs : List Fnode} {j : ℕ} {f : Fnode} (m : Bytes)
    → IsFirst name xs j f
    → str_eq name m ≡ false
    → find m (remove_at j xs) ≡ find m xs
unfolding find remove_at
find-remove_at {name} m (here {f} e) ne =
    ground (arith, str_eq_iff f.name name, str_eq_iff f.name m, str_eq_iff name m)
find-remove_at m (there e r) ne = ground (arith, find-remove_at m r ne)

pub find-append :
    (m : Bytes) (xs : List Fnode) (g : Fnode)
    → find m (xs ++ (g ∷ []))
      ≡ elim (find m xs) [ none ↦ (if str_eq g.name m then some g else none) | some f ↦ some f ]
unfolding find
find-append m [] g = refl
find-append m (x ∷ xs) g = ground (arith, find-append m xs g)
