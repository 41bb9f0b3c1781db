-- ===== src/Shell/Adding.antt =====
-- `add_process` of hw1/shell.c on a well-linked list.
use os_assignments.Base.{
  ℕ, zero, suc, ◌<◌, ◌≡◌, ◌≢◌, refl, false, Option, some, List, [], ◌∷◌, ◌++◌, ◌==◌, arith, All,
  length, sym, subst,
}
use os_assignments.Shell.State.{Process, Shell, done, load, store, put}
use os_assignments.Shell.Jobs.{last_from, add_process}
use os_assignments.Shell.Linked.{Linked, load-at}

abbrev pub NotIn : ℕ → List ℕ → Type 0
NotIn a = All (λ x. a ≢ x)

abbrev pub Apart : List ℕ → Type 0
Apart [] = Unit
Apart (a ∷ xs) = NotIn a xs × Apart xs

-- The last address of a list with a first one.
unfoldable pub last_of : ℕ → List ℕ → ℕ
last_of a [] = a
last_of a (b ∷ xs) = last_of b xs

pub All-last_of : (P : ℕ → Type 0) (a : ℕ) (xs : List ℕ) → P a → All P xs → P (last_of a xs)
unfolding last_of
All-last_of P a [] h k = h
All-last_of P a (b ∷ xs) h k = All-last_of P b xs k.0 k.1

last_from-last_of :
    (fuel a : ℕ) (xs : List ℕ) (s : Shell)
    → Linked s.cell a (a ∷ xs)
    → length xs < fuel
    → last_from fuel a s ≡ done (last_of a xs) s
unfolding last_from last_of
last_from-last_of zero a xs s l f = absurd (omega arith)
last_from-last_of (suc k) a [] s (e, ne, (b, at_a, stop)) f = rw (load-at k a b s ne at_a, stop)
last_from-last_of (suc k) a (c ∷ xs) s (e, ne, (b, at_a, (e', ne', more))) f =
    let nonzero : (c == 0) ≡ false = ground arith in
    rw (load-at k a b s ne at_a, e', nonzero)
      (last_from-last_of k c xs s (refl, ne', more) (omega arith))

pub last_node :
    (cell : ℕ → Option Process) (a : ℕ) (xs : List ℕ)
    → Linked cell a (a ∷ xs)
    → (b : Process) × (cell (last_of a xs) ≡ some b)
unfolding last_of
last_node cell a [] (e, ne, (b, at_a, stop)) = (b, at_a)
last_node cell a (c ∷ xs) (e, ne, (b, at_a, (e', ne', more))) =
    last_node cell c xs (refl, ne', more)

-- The two stores of `add_process`.
abbrev pub appended : (ℕ → Option Process) → ℕ → Process → ℕ → Process → ℕ → Option Process
appended cell l bl p n =
    put (put cell l (some (record bl { next = p }))) p (some (record n { prev = l }))

pub Linked-appended :
    (cell : ℕ → Option Process) (a : ℕ) (xs : List ℕ) (l p : ℕ) (bl n : Process)
    → Linked cell a (a ∷ xs)
    → Apart (a ∷ xs)
    → NotIn p (a ∷ xs)
    → p ≢ 0
    → n.next ≡ 0
    → l ≡ last_of a xs
    → cell l ≡ some bl
    → Linked (appended cell l bl p n) a ((a ∷ xs) ++ (p ∷ []))
unfolding last_of
Linked-appended cell a [] l p bl n (e, ne, (b, at_a, stop)) ap' ni np end el at_l = (
  refl,
  ne,
  (record bl { next = p }, ground arith, (refl, np, (record n { prev = l }, ground arith, end))),
)
Linked-appended cell a (c ∷ xs) l p bl n (e, ne, (b, at_a, (e', ne', more))) ap' ni np end el at_l =
    let far : a ≢ last_of c xs = All-last_of (λ x. a ≢ x) c xs ap'.0.0 ap'.0.1 in
    (
      refl,
      ne,
      (
        b,
        ground arith,
        subst (λ (q : ℕ). Linked (appended cell l bl p n) q ((c ∷ xs) ++ (p ∷ []))) (sym e')
            (Linked-appended cell c xs l p bl n (refl, ne', more) ap'.1 ni.1 np end el at_l),
      ),
    )

-- `add_process` comes to those two stores.
pub add_process-appended :
    (fuel a p : ℕ) (xs : List ℕ) (bl n : Process) (s : Shell)
    → s.first_process ≡ a
    → Linked s.cell a (a ∷ xs)
    → NotIn p (a ∷ xs)
    → s.cell p ≡ some n
    → s.cell (last_of a xs) ≡ some bl
    → length xs < fuel
    → add_process fuel p s ≡ done tt (record s { cell = appended s.cell (last_of a xs) bl p n })
unfolding add_process load store
add_process-appended fuel a p xs bl n s first l ni at_p at_l f =
    let far : p ≢ last_of a xs = All-last_of (λ x. p ≢ x) a xs ni.0 ni.1 in
    let found =
      subst (λ (q : ℕ). last_from fuel q s ≡ done (last_of a xs) s) (sym first)
        (last_from-last_of fuel a xs s l f) in
    rw found (ground arith)

-- Adding a new process to a well-linked list with a first node puts it behind the last one: the
-- new list is well linked, its nodes are the old ones and the new one in order, and no node but
-- the last and the new one is written.
pub add_process-append :
    (fuel a p : ℕ) (xs : List ℕ) (n : Process) (s : Shell)
    → s.first_process ≡ a
    → Linked s.cell a (a ∷ xs)
    → Apart (a ∷ xs)
    → NotIn p (a ∷ xs)
    → p ≢ 0
    → s.cell p ≡ some n
    → n.next ≡ 0
    → length xs < fuel
    → (s' : Shell) × (add_process fuel p s ≡ done tt s')
      × Linked s'.cell s'.first_process ((a ∷ xs) ++ (p ∷ []))
      × ((x : ℕ) → x ≢ last_of a xs → x ≢ p → s'.cell x ≡ s.cell x)
add_process-append fuel a p xs n s first l ap' ni np at_p end f =
    let (bl, at_l) = last_node s.cell a xs l in
    let cell' = appended s.cell (last_of a xs) bl p n in
    (
      record s { cell = appended s.cell (last_of a xs) bl p n },
      add_process-appended fuel a p xs bl n s first l ni at_p at_l f,
      subst (λ (q : ℕ). Linked cell' q ((a ∷ xs) ++ (p ∷ []))) (sym first)
          (Linked-appended s.cell a xs (last_of a xs) p bl n l ap' ni np end refl at_l),
      λ x hx hp. ground arith,
    )
