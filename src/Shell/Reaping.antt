-- ===== src/Shell/Reaping.antt =====
-- The loop of `cmd_wait` of hw1/shell.c: when it ends, and when it does not.
use os_assignments.Base.{
  ℕ, ◌+◌, ◌<◌, ◌≡◌, ◌≢◌, refl, sym, subst, ap, ◌∙◌, true, false, Option, some, List, [], ◌∷◌, ◌==◌,
  arith, All, length, inl, inr, ◌⊎◌, Bool-cases, Option-cases, ℤ, pos, negsuc,
}
use os_assignments.Shell.State.{
  Status, exited, signaled, stopped_by, Process, Shell, Run, done, blocked, load, store, put,
}
use os_assignments.Shell.Jobs.{marked, mark_process_status, cmd_wait, is_positive, num_active_proc}
use os_assignments.Shell.Linked.{Linked}
use os_assignments.Shell.Adding.{NotIn, Apart}
use os_assignments.Shell.Rounds.{some_eq, Linked-restored}
use os_assignments.Shell.Waiting.{
  is_active, active, AllNamed, num_active-active, first_with, find_pid-first_with,
}

abbrev pub In : ℕ → List ℕ → Type 0
In q [] = ⊥
In q (x ∷ xs) = (q ≡ x) ⊎ In q xs

In-apart : (q x : ℕ) (xs : List ℕ) → In q xs → NotIn x xs → x ≢ q
In-apart q x [] i ni = absurd i
In-apart q x (y ∷ xs) (inl e) ni = λ e'. ni.0 (e' ∙ e)
In-apart q x (y ∷ xs) (inr i) ni = In-apart q x xs i ni.1

pub marked_kept :
    (b : Process) (st : Status)
    → ((marked b st).pid ≡ b.pid)
      × ((marked b st).argv ≡ b.argv)
      × ((marked b st).next ≡ b.next)
      × (is_active (marked b st) ≡ false)
unfolding marked
marked_kept b (exited n) = (refl, refl, refl, ground arith)
marked_kept b (signaled n) = (refl, refl, refl, ground arith)
marked_kept b (stopped_by n) = (refl, refl, refl, refl)

-- The heap behind a report on the process at `q`.
abbrev pub reported : (ℕ → Option Process) → ℕ → Process → Status → ℕ → Option Process
reported cell q b st = put cell q (some (marked b st))

module _ (cell : ℕ → Option Process) (q : ℕ) (b : Process) (st : Status)
    (at_q : cell q ≡ some b) where
  first_with-reported :
      (pid : ℤ) (xs : List ℕ) → first_with (reported cell q b st) pid xs ≡ first_with cell pid xs
  unfolding first_with
  first_with-reported pid [] = refl
  first_with-reported pid (x ∷ xs) =
      let more = first_with-reported pid xs in
      elim (Bool-cases (x == q)) [
        | inl here ↦
            let e : x ≡ q = ground arith in
            let at_x : cell x ≡ some b = subst (λ (y : ℕ). cell y ≡ some b) (sym e) at_q in
            rw (first_with, here, at_x, (marked_kept b st).0, more)
        | inr other ↦ elim (Option-cases (cell x)) [
          | inl gone ↦ rw (first_with, other, gone)
          | inr (c, at_x) ↦ rw (first_with, other, at_x, more)
        ]
      ]

  active-apart : (xs : List ℕ) → NotIn q xs → active (reported cell q b st) xs ≡ active cell xs
  unfolding active
  active-apart [] ni = refl
  active-apart (x ∷ xs) ni =
      let other : (x == q) ≡ false = ground (arith, ni.0) in rw (other, active-apart xs ni.1)

  active-reported :
      (xs : List ℕ)
      → In q xs
      → Apart xs
      → is_active b ≡ true
      → active (reported cell q b st) xs + 1 ≡ active cell xs
  unfolding active
  active-reported [] i ap' on = absurd i
  active-reported (x ∷ xs) (inl e) ap' on =
      let here : (x == q) ≡ true = ground arith in
      let at_x : cell x ≡ some b = subst (λ (y : ℕ). cell y ≡ some b) e at_q in
      let rest = active-apart xs (subst (λ (y : ℕ). NotIn y xs) (sym e) ap'.0) in
      rw (here, at_x, (marked_kept b st).3, on, rest) (omega arith)
  active-reported (x ∷ xs) (inr i) ap' on =
      let off = In-apart q x xs i ap'.0 in
      let other : (x == q) ≡ false = ground (arith, off) in
      let rest = active-reported xs i ap'.1 on in rw other (omega (arith, rest))

  AllNamed-reported : (xs : List ℕ) → AllNamed cell xs → AllNamed (reported cell q b st) xs
  AllNamed-reported [] h = tt
  AllNamed-reported (x ∷ xs) h = (
    λ c at_x. elim (Bool-cases (x == q)) [
      | inl here ↦
          let at_x' : some (marked b st) ≡ some c = rw here at at_x in
          let e : x ≡ q = ground arith in
          let old : b.argv ≢ [] = h.0 b (subst (λ (y : ℕ). cell y ≡ some b) (sym e) at_q) in
          let words : b.argv ≡ c.argv =
            sym (marked_kept b st).1
            ∙ ap (λ (r : Process). r.argv) (some_eq (marked b st) c at_x') in
          λ none_left. old (words ∙ none_left)
      | inr other ↦ (let at_x' : cell x ≡ some c = rw other at at_x in h.0 c at_x')
    ],
    AllNamed-reported xs h.1,
  )

-- These results of `waitpid` report on the processes at these addresses, one after another, each of
-- which is active.
abbrev pub Reports : (ℕ → Option Process) → ℕ → List ℕ → List (ℤ × Status) → List ℕ → Type 0
Reports cell a xs [] [] = Unit
Reports cell a xs ((pid, st) ∷ waits) (q ∷ qs) =
    (is_positive pid ≡ true)
    × (first_with cell pid (a ∷ xs) ≡ some q)
    × In q xs
    × ((b : Process) × (cell q ≡ some b) × (is_active b ≡ true))
    × Reports cell a xs waits qs
Reports cell a xs _ _ = ⊥

Reports-reported :
    (cell : ℕ → Option Process) (a q : ℕ) (b : Process) (st : Status) (at_q : cell q ≡ some b)
    (xs : List ℕ) (waits : List (ℤ × Status)) (qs : List ℕ)
    → NotIn q qs
    → Reports cell a xs waits qs
    → Reports (reported cell q b st) a xs waits qs
Reports-reported cell a q b st at_q xs [] [] ni r = tt
Reports-reported cell a q b st at_q xs [] (q' ∷ qs) ni r = absurd r
Reports-reported cell a q b st at_q xs (w ∷ waits) [] ni r = absurd r
Reports-reported cell a q b st at_q xs ((pid, st') ∷ waits) (q' ∷ qs) ni
      (positive, found, i, (b', at_q', on), more) =
    let other : (q' == q) ≡ false = ground (arith, ni.0) in
    (
      positive,
      first_with-reported cell q b st at_q pid (a ∷ xs) ∙ found,
      i,
      (b', rw other at_q', on),
      Reports-reported cell a q b st at_q xs waits qs ni.1 more,
    )

load-some : (q : ℕ) (b : Process) (s : Shell) → s.cell q ≡ some b → load q s ≡ done b s
unfolding load
load-some q b s at_q = rw (load, at_q)

-- `mark_process_status` on the process that is reported.
pub mark-reported :
    (fuel q : ℕ) (pid : ℤ) (st : Status) (b : Process) (xs : List ℕ) (s : Shell)
    → Linked s.cell s.first_process (s.first_process ∷ xs)
    → length xs + 1 < fuel
    → is_positive pid ≡ true
    → first_with s.cell pid (s.first_process ∷ xs) ≡ some q
    → s.cell q ≡ some b
    → mark_process_status fuel pid st s ≡ done (pos 0) (record s { cell = reported s.cell q b st })
unfolding mark_process_status store
mark-reported fuel q pid st b xs s l f positive found at_q =
    let searched =
      find_pid-first_with fuel s.first_process pid (s.first_process ∷ xs) s l (omega arith) in
    rw (positive, searched, found, load-some q b s at_q)

wait_round :
    (fuel n : ℕ) (pid : ℤ) (st : Status) (waits : List (ℤ × Status)) (s s1 : Shell) {r : ℤ}
    {o : Run ℤ}
    → num_active_proc fuel s ≡ done n s
    → 0 < n
    → mark_process_status fuel pid st s ≡ done r s1
    → cmd_wait fuel waits s1 ≡ o
    → cmd_wait fuel ((pid, st) ∷ waits) s ≡ o
unfolding cmd_wait
wait_round fuel n pid st waits s s1 counted some_left reported_one later =
    let left : (n == 0) ≡ false = ground arith in rw (counted, left, reported_one) later

-- Where the results of `waitpid` report, one after another, on all the active processes, `wait` comes
-- to an end and returns 0; then no process is active, and the list is as well linked as before.
pub cmd_wait-ends :
    (fuel : ℕ) (waits : List (ℤ × Status)) (qs xs : List ℕ) (s : Shell)
    → Linked s.cell s.first_process (s.first_process ∷ xs)
    → Apart (s.first_process ∷ xs)
    → AllNamed s.cell xs
    → Apart qs
    → Reports s.cell s.first_process xs waits qs
    → active s.cell xs ≡ length qs
    → length xs + 1 < fuel
    → (s' : Shell) × (cmd_wait fuel waits s ≡ done (pos 0) s')
      × (active s'.cell xs ≡ 0)
      × Linked s'.cell s'.first_process (s'.first_process ∷ xs)
unfolding cmd_wait
cmd_wait-ends fuel [] [] xs s l ap' named aq r total f =
    let counted = num_active-active fuel xs s l ap'.0 named f in (s, rw (counted, total), total, l)
cmd_wait-ends fuel [] (q ∷ qs) xs s l ap' named aq r total f = absurd r
cmd_wait-ends fuel (w ∷ waits) [] xs s l ap' named aq r total f = absurd r
cmd_wait-ends fuel ((pid, st) ∷ waits) (q ∷ qs) xs s l ap' named aq
      (positive, found, i, (b, at_q, on), more) total f =
    let s1 : Shell = record s { cell = reported s.cell q b st } in
    let less = active-reported s.cell q b st at_q xs i ap'.1 on in
    let (s', ran, none_left, l') =
      cmd_wait-ends fuel waits qs xs s1
        (Linked-restored s.cell s.first_process q b (marked b st) (s.first_process ∷ xs) at_q
          (marked_kept b st).2 l)
        ap' (AllNamed-reported s.cell q b st at_q xs named) aq.1
        (Reports-reported s.cell s.first_process q b st at_q xs waits qs aq.0 more)
        (omega (arith, less)) f in
    let counted = num_active-active fuel xs s l ap'.0 named f in
    (
      s',
      wait_round fuel (active s.cell xs) pid st waits s s1 counted (omega arith)
          (mark-reported fuel q pid st b xs s l f positive found at_q) ran,
      none_left,
      l',
    )

-- As long as a process is active and `waitpid` fails, or reports on none, the loop of `wait` goes
-- on: it never returns, however many results there are.
pub cmd_wait-stuck :
    (fuel : ℕ) (waits : List (ℤ × Status)) (xs : List ℕ) (s : Shell)
    → Linked s.cell s.first_process (s.first_process ∷ xs)
    → NotIn s.first_process xs
    → AllNamed s.cell xs
    → 0 < active s.cell xs
    → All (λ w. is_positive w.0 ≡ false) waits
    → length xs + 1 < fuel
    → cmd_wait fuel waits s ≡ blocked
unfolding cmd_wait
cmd_wait-stuck fuel [] xs s l ni named some_left ws f =
    let left : (active s.cell xs == 0) ≡ false = ground arith in
    rw (num_active-active fuel xs s l ni named f, left)
cmd_wait-stuck fuel ((pid, st) ∷ waits) xs s l ni named some_left ws f =
    let unmarked : mark_process_status fuel pid st s ≡ done (negsuc 0) s =
      unfold mark_process_status in rw (ws.0) in
    wait_round fuel (active s.cell xs) pid st waits s s (num_active-active fuel xs s l ni named f)
      some_left unmarked (cmd_wait-stuck fuel waits xs s l ni named some_left ws.1 f)
