-- ===== src/Shell/Waiting.antt =====
-- `num_active_proc` and `cmd_wait` of hw1/shell.c on a well-linked list of processes.
use os_assignments.Base.{
  ℕ, zero, suc, ◌+◌, ◌<◌, ◌≡◌, ◌≢◌, refl, ap, ◌∙◌, Bool, true, false, not, ◌||◌, Option, none, some,
  List, [], ◌∷◌, ◌==◌, if◌then◌else◌, arith, All, length, inl, inr, Bool-cases, Bytes, codes,
  str_eq, ℤ,
}
use os_assignments.Shell.State.{Process, Shell, done}
use os_assignments.Shell.Jobs.{counts, active_from, num_active_proc, find_pid, pid_eq}
use os_assignments.Shell.Linked.{Linked, load-at, not_null}
use os_assignments.Shell.Adding.{NotIn}

-- A process that `wait` waits for: neither stopped nor completed, and no `wait` itself.
abbrev pub is_waiting : List Bytes → Bool
is_waiting [] = false
is_waiting (name ∷ _) = not (str_eq (codes "wait") name)

abbrev pub is_active : Process → Bool
is_active b = if b.stopped || b.completed then false else is_waiting b.argv

abbrev pub weight : Option Process → ℕ
weight none = 0
weight (some b) = if is_active b then 1 else 0

-- How many of the processes at these addresses are active.
unfoldable pub active : (ℕ → Option Process) → List ℕ → ℕ
active cell [] = 0
active cell (x ∷ xs) = weight (cell x) + active cell xs

-- Every process has a command.
abbrev pub AllNamed : (ℕ → Option Process) → List ℕ → Type 0
AllNamed cell = All (λ a. (b : Process) → cell a ≡ some b → b.argv ≢ [])

named_words :
    (argv : List Bytes) → argv ≢ [] → (name : Bytes) × (args : List Bytes) × (argv ≡ name ∷ args)
named_words [] h = absurd (h refl)
named_words (name ∷ args) h = (name, args, refl)

counts-is_active : (b : Process) → b.argv ≢ [] → counts b ≡ some (is_active b)
unfolding counts
counts-is_active b named = let (name, args, words) = named_words b.argv named in ground arith

active_from-active :
    (fuel p n : ℕ) (xs : List ℕ) (s : Shell)
    → Linked s.cell p xs
    → NotIn s.first_process xs
    → AllNamed s.cell xs
    → length xs < fuel
    → active_from fuel p n s ≡ done (n + active s.cell xs) s
unfolding active_from active
active_from-active zero p n xs s l ni named f = absurd (omega arith)
active_from-active (suc k) p n [] s l ni named f = rw l (ap (λ (r : ℕ). done r s) (omega arith))
active_from-active (suc k) p n (a ∷ xs) s (e, ne, (b, at_a, rest)) ni named f =
    let next : ℕ = if is_active b then n + 1 else n in
    let later = active_from-active k b.next next xs s rest ni.1 named.1 (omega arith) in
    let other : (a == s.first_process) ≡ false = ground (arith, ni.0) in
    let total : next + active s.cell xs ≡ n + (weight (some b) + active s.cell xs) = ground arith in
    rw
      (
        e,
        not_null k a b s ne at_a,
        load-at k a b s ne at_a,
        other,
        counts-is_active b (named.0 b at_a),
        at_a,
      )
      (later ∙ ap (λ (r : ℕ). done r s) total)

pub num_active-active :
    (fuel : ℕ) (xs : List ℕ) (s : Shell)
    → Linked s.cell s.first_process (s.first_process ∷ xs)
    → NotIn s.first_process xs
    → AllNamed s.cell xs
    → length xs + 1 < fuel
    → num_active_proc fuel s ≡ done (active s.cell xs) s
unfolding num_active_proc active_from
num_active-active zero xs s l ni named f = absurd (omega arith)
num_active-active (suc k) xs s (e, ne, (b, at_a, rest)) ni named f =
    let a : ℕ = s.first_process in
    let later = active_from-active k b.next 0 xs s rest ni named (omega arith) in
    let same : (a == a) ≡ true = ground arith in
    rw (not_null k a b s ne at_a, load-at k a b s ne at_a, same)
      (later ∙ ap (λ (r : ℕ). done r s) (omega arith))

-- The process that has an id.
unfoldable pub first_with : (ℕ → Option Process) → ℤ → List ℕ → Option ℕ
first_with cell pid [] = none
first_with cell pid (x ∷ xs) = elim (cell x) [
  | none ↦ none
  | some b ↦ (let rest = first_with cell pid xs in if pid_eq b.pid pid then some x else rest)
]

pub find_pid-first_with :
    (fuel p : ℕ) (pid : ℤ) (xs : List ℕ) (s : Shell)
    → Linked s.cell p xs
    → length xs < fuel
    → find_pid fuel pid p s ≡ done (first_with s.cell pid xs) s
unfolding find_pid first_with
find_pid-first_with zero p pid xs s l f = absurd (omega arith)
find_pid-first_with (suc k) p pid [] s l f = rw l
find_pid-first_with (suc k) p pid (a ∷ xs) s (e, ne, (b, at_a, rest)) f =
    let later = find_pid-first_with k b.next pid xs s rest (omega arith) in
    elim (Bool-cases (pid_eq b.pid pid)) [
      | inl here ↦
          rw (e, not_null k a b s ne at_a, load-at k a b s ne at_a, here, first_with, at_a, here)
      | inr other ↦
          rw (e, not_null k a b s ne at_a, load-at k a b s ne at_a, other, first_with, at_a, other)
            later
    ]
