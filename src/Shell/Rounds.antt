-- ===== src/Shell/Rounds.antt =====
-- The main loop of hw1/shell.c on a well-linked list of processes.
use os_assignments.Base.{
  ℕ, zero, suc, ◌+◌, ◌<◌, ◌≡◌, ◌≢◌, refl, sym, subst, ap, Bool, true, false, Option, some, List, [],
  ◌∷◌, ◌++◌, ◌==◌, arith, All, length, inl, inr, Bool-cases, ℤ, pos, ◌∙◌,
}
use os_assignments.Shell.State.{Process, Shell, done, store, put, ◌>>◌}
use os_assignments.Shell.Jobs.{pid_eq, add_process}
use os_assignments.Shell.Linked.{Linked, SomeCompleted, load-at, not_null}
use os_assignments.Shell.Adding.{
  NotIn, Apart, last_of, All-last_of, last_node, appended, Linked-appended, add_process-appended,
}
use os_assignments.Shell.Commands.{Message, messages, report_from, plist_from}
use os_assignments.Shell.Loop.{find_new}

-- Every process of the list was started.
abbrev pub AllStarted : (ℕ → Option Process) → List ℕ → Type 0
AllStarted cell = All (λ a. (b : Process) → cell a ≡ some b → pid_eq b.pid (pos 0) ≡ false)

pub some_eq : (b c : Process) → some b ≡ some c → b ≡ c
some_eq b c e = cc

Linked-some :
    (q p : ℕ) (xs : List ℕ) (cell : ℕ → Option Process)
    → Linked cell q (xs ++ (p ∷ []))
    → (q == 0) ≡ false
Linked-some q p [] cell l = ground arith
Linked-some q p (a ∷ xs) cell l = ground arith

-- A node that is changed in other fields than its link.
pub Linked-changed :
    (cell cell' : ℕ → Option Process) (q p : ℕ) (b b' : Process) (xs : List ℕ)
    → cell p ≡ some b
    → cell' p ≡ some b'
    → b'.next ≡ b.next
    → ((x : ℕ) → x ≢ p → cell' x ≡ cell x)
    → Linked cell q xs
    → Linked cell' q xs
Linked-changed cell cell' q p b b' [] at_p at_p' same other l = l
Linked-changed cell cell' q p b b' (a ∷ xs) at_p at_p' same other (e, ne, (c, at_a, rest)) =
    let more = Linked-changed cell cell' c.next p b b' xs at_p at_p' same other rest in
    elim (Bool-cases (a == p)) [
      | inl here ↦
          let e' : a ≡ p = ground arith in
          let step : c.next ≡ b'.next =
            ap (λ (r : Process). r.next)
              (some_eq c b (sym at_a ∙ subst (λ (r : ℕ). cell r ≡ some b) (sym e') at_p))
            ∙ sym same in
          (
            e,
            ne,
            (
              b',
              subst (λ (r : ℕ). cell' r ≡ some b') (sym e') at_p',
              subst (λ (r : ℕ). Linked cell' r xs) step more,
            ),
          )
      | inr off ↦ (e, ne, (c, other a (λ e'. absurd (ground arith)) ∙ at_a, more))
    ]

pub Linked-restored :
    (cell : ℕ → Option Process) (q p : ℕ) (b b' : Process) (xs : List ℕ)
    → cell p ≡ some b
    → b'.next ≡ b.next
    → Linked cell q xs
    → Linked (put cell p (some b')) q xs
Linked-restored cell q p b b' xs at_p same l =
    Linked-changed cell (put cell p (some b')) q p b b' xs at_p (ground arith) same
      (λ x off. ground arith) l

pub find_new-last :
    (fuel q p : ℕ) (xs : List ℕ) (s : Shell)
    → Linked s.cell q (xs ++ (p ∷ []))
    → AllStarted s.cell xs
    → length xs < fuel
    → find_new fuel q s ≡ done p s
unfolding find_new
find_new-last zero q p xs s l started f = absurd (omega arith)
find_new-last (suc k) q p [] s (e, ne, (b, at_p, stop)) started f =
    rw (e, load-at k p b s ne at_p, stop)
find_new-last (suc k) q p (a ∷ xs) s (e, ne, (b, at_a, rest)) started f =
    let more = find_new-last k b.next p xs s rest started.1 (omega arith) in
    let old = started.0 b at_a in
    let inner : (b.next == 0) ≡ false = Linked-some b.next p xs s.cell rest in
    rw (e, load-at k a b s ne at_a, inner, old) more

pub report_total :
    (fuel q : ℕ) (xs : List ℕ) (s : Shell)
    → Linked s.cell q xs
    → length xs < fuel
    → (ms : List (List Message)) × (report_from fuel q s ≡ done ms s)
unfolding report_from
report_total zero q xs s l f = absurd (omega arith)
report_total (suc k) q [] s l f = ([], rw l)
report_total (suc k) q (a ∷ xs) s (e, ne, (b, at_a, rest)) f =
    let (ms, run) = report_total k b.next xs s rest (omega arith) in
    (messages b ∷ ms, rw (e, not_null k a b s ne at_a, load-at k a b s ne at_a, run))

pub plist_total :
    (fuel q : ℕ) (xs : List ℕ) (s : Shell)
    → Linked s.cell q xs
    → length xs < fuel
    → (ps : List (ℤ × Bool)) × (plist_from fuel q s ≡ done ps s)
unfolding plist_from
plist_total zero q xs s l f = absurd (omega arith)
plist_total (suc k) q [] s l f = ([], rw l)
plist_total (suc k) q (a ∷ xs) s (e, ne, (b, at_a, rest)) f =
    let (ps, run) = plist_total k b.next xs s rest (omega arith) in
    ((b.pid, b.background) ∷ ps, rw (e, not_null k a b s ne at_a, load-at k a b s ne at_a, run))

pub SomeCompleted-last :
    (cell : ℕ → Option Process) (p : ℕ) (b : Process) (xs : List ℕ)
    → cell p ≡ some b
    → b.completed ≡ true
    → SomeCompleted cell (xs ++ (p ∷ []))
SomeCompleted-last cell p b [] at_p over = inl (b, at_p, over)
SomeCompleted-last cell p b (x ∷ xs) at_p over = inr (SomeCompleted-last cell p b xs at_p over)

-- A cell that is no node of the list.
Linked-fresh :
    (cell : ℕ → Option Process) (q p : ℕ) (n : Option Process) (xs : List ℕ)
    → NotIn p xs
    → Linked cell q xs
    → Linked (put cell p n) q xs
Linked-fresh cell q p n [] ni l = l
Linked-fresh cell q p n (a ∷ xs) ni (e, ne, (b, at_a, rest)) =
    (e, ne, (b, ground (arith, ni.0), Linked-fresh cell b.next p n xs ni.1 rest))

-- A change of the nodes' links alone keeps what holds of the processes.
pub AllNodes-kept :
    (P : ℤ → Bool → Type 0) (cell cell' : ℕ → Option Process) (p : ℕ) (xs : List ℕ)
    → NotIn p xs
    → ((x : ℕ) (b' : Process)
        → p ≢ x
        → cell' x ≡ some b'
        → (b : Process) × (cell x ≡ some b) × (b'.pid ≡ b.pid) × (b'.completed ≡ b.completed))
    → All (λ x. (b : Process) → cell x ≡ some b → P b.pid b.completed) xs
    → All (λ x. (b : Process) → cell' x ≡ some b → P b.pid b.completed) xs
AllNodes-kept P cell cell' p [] ni same holds = tt
AllNodes-kept P cell cell' p (x ∷ xs) ni same holds = (
  λ b' at_x.
      let (b, at_x', pid, completed) = same x b' ni.0 at_x in
      subst (λ (i : ℤ). P i b'.completed) (sym pid)
        (subst (λ (d : Bool). P b.pid d) (sym completed) (holds.0 b at_x')),
  AllNodes-kept P cell cell' p xs ni.1 same holds.1,
)

-- The heap with the new process behind the last one.
abbrev pub joined : Shell → ℕ → Process → ℕ → Process → Shell
joined s l bl p n = record s { cell = appended (put s.cell p (some n)) l bl p n }

appended-kept :
    (s : Shell) (l : ℕ) (bl : Process) (p : ℕ) (n : Process) (x : ℕ) (b' : Process)
    → p ≢ l
    → p ≢ x
    → put s.cell p (some n) l ≡ some bl
    → (joined s l bl p n).cell x ≡ some b'
    → (b : Process) × (s.cell x ≡ some b) × (b'.pid ≡ b.pid) × (b'.completed ≡ b.completed)
appended-kept s l bl p n x b' far off at_l at_x = elim (Bool-cases (x == l)) [
  | inl here ↦ (bl, ground arith, ground arith, ground arith)
  | inr other ↦ (b', ground arith, refl, refl)
]

module _ (fuel a p : ℕ) (xs : List ℕ) (n : Process) (s : Shell) (first : s.first_process ≡ a)
    (l : Linked s.cell a (a ∷ xs)) (ap' : Apart (a ∷ xs)) (ni : NotIn p (a ∷ xs)) (np : p ≢ 0)
    (end : n.next ≡ 0) (f : length xs + 2 < fuel) where
  -- The list behind `create_process` and `add_process`.
  pub round_added :
      (bl : Process) × ((do store p n; add_process fuel p) s
        ≡ done tt (joined s (last_of a xs) bl p n))
      × Linked (joined s (last_of a xs) bl p n).cell a ((a ∷ xs) ++ (p ∷ []))
      × ((P : ℤ → Bool → Type 0)
          → All (λ x. (b : Process) → s.cell x ≡ some b → P b.pid b.completed) (a ∷ xs)
          → All
              (λ x.
                (b : Process)
                → (joined s (last_of a xs) bl p n).cell x ≡ some b
                → P b.pid b.completed)
              (a ∷ xs))
      × ((joined s (last_of a xs) bl p n).cell p ≡ some (record n { prev = last_of a xs }))
  unfolding store
  round_added =
      let s1 : Shell = record s { cell = put s.cell p (some n) } in
      let l1 = Linked-fresh s.cell a p (some n) (a ∷ xs) ni l in
      let far : p ≢ last_of a xs = All-last_of (λ x. p ≢ x) a xs ni.0 ni.1 in
      let (bl, at_l) = last_node s1.cell a xs l1 in
      (
        bl,
        add_process-appended fuel a p xs bl n s1 first l1 ni (ground arith) at_l (omega arith),
        Linked-appended s1.cell a xs (last_of a xs) p bl n l1 ap' ni np end refl at_l,
        λ P.
            AllNodes-kept P s.cell (joined s (last_of a xs) bl p n).cell p (a ∷ xs) ni
              (λ x b' off at_x. appended-kept s (last_of a xs) bl p n x b' far off at_l at_x),
        ground arith,
      )
