-- ===== src/Shell/Launching.antt =====
-- `launch_process` of hw1/process.c in the shell, for a process in the foreground.
use os_assignments.Base.{
  ℕ, ◌+◌, ◌<◌, ◌≡◌, ◌≢◌, refl, ap, ◌∙◌, Bool, true, false, ◌||◌, Option, some, List, [], ◌∷◌, ◌++◌,
  ◌==◌, if◌then◌else◌, arith, length, length-append, All, ℤ, pos,
}
use os_assignments.Shell.State.{
  Process, Shell, Status, exited, signaled, stopped_by, done, load, put, store,
}
use os_assignments.Shell.Jobs.{
  pid_eq, is_positive, launch_process, put_process_in_foreground, put_process_in_background,
  wait_for_process, mark_process_status, marked,
}
use os_assignments.Shell.Linked.{Linked, load-at}
use os_assignments.Shell.Adding.{NotIn}
use os_assignments.Shell.Rounds.{Linked-restored}
use os_assignments.Shell.Waiting.{first_with}
use os_assignments.Shell.Reaping.{reported, mark-reported}

-- No process at these addresses has the id.
abbrev pub NoneWith : (ℕ → Option Process) → ℤ → List ℕ → Type 0
NoneWith cell pid = All (λ x. (b : Process) → cell x ≡ some b → pid_eq b.pid pid ≡ false)

-- The heap behind the two stores of `launch_process` and `put_process_in_foreground`.
abbrev pub launched : (ℕ → Option Process) → ℕ → Process → ℤ → ℕ → Option Process
launched cell p b pid =
    put (put cell p (some (record b { pid = pid }))) p
      (some (record b { pid = pid; background = false }))

pid_eq_refl : (pid : ℤ) → is_positive pid ≡ true → pid_eq pid pid ≡ true
unfolding pid_eq
pid_eq_refl pid h = ground arith

first_with-launched :
    (cell : ℕ → Option Process) (p : ℕ) (b : Process) (pid : ℤ) (q : ℕ) (xs : List ℕ)
    → is_positive pid ≡ true
    → Linked (launched cell p b pid) q (xs ++ (p ∷ []))
    → NotIn p xs
    → NoneWith cell pid xs
    → first_with (launched cell p b pid) pid (xs ++ (p ∷ [])) ≡ some p
unfolding first_with
first_with-launched cell p b pid q [] positive l ni none_there =
    let here : (p == p) ≡ true = ground arith in rw (first_with, here, pid_eq_refl pid positive)
first_with-launched cell p b pid q (x ∷ xs) positive (e, ne, (c, at_x, rest)) ni none_there =
    let other : (x == p) ≡ false = ground (arith, ni.0) in
    let at_x' : cell x ≡ some c = rw other at at_x in
    rw (first_with, other, at_x', none_there.0 c at_x')
      (first_with-launched cell p b pid c.next xs positive rest ni.1 none_there.1)

-- A report ends the wait, whatever it says.
ends_wait : (b : Process) (st : Status) → ((marked b st).completed || (marked b st).stopped) ≡ true
unfolding marked
ends_wait b (exited n) = refl
ends_wait b (signaled n) = refl
ends_wait b (stopped_by n) = ground arith

load-put :
    (p : ℕ) (b : Process) (s : Shell)
    → load p (record s { cell = put s.cell p (some b) })
      ≡ done b (record s { cell = put s.cell p (some b) })
unfolding load
load-put p b s = let here : (p == p) ≡ true = ground arith in rw (load, here)

wait-reported :
    (fuel p : ℕ) (pid : ℤ) (st : Status) (waits : List (ℤ × Status)) (b : Process) (s : Shell)
    → mark_process_status fuel pid st s ≡ done (pos 0) (record s { cell = reported s.cell p b st })
    → wait_for_process fuel p ((pid, st) ∷ waits) s
      ≡ done tt (record s { cell = reported s.cell p b st })
unfolding wait_for_process
wait-reported fuel p pid st waits b s ran = rw (ran, load-put p (marked b st) s, ends_wait b st)

launch_front :
    (fuel p : ℕ) (pid : ℤ) (waits : List (ℤ × Status)) (b : Process) (s : Shell)
    → is_positive pid ≡ true
    → load p s ≡ done b s
    → b.background ≡ false
    → launch_process fuel p pid waits s
      ≡ put_process_in_foreground fuel p false waits
          (record s { cell = put s.cell p (some (record b { pid = pid })) })
unfolding launch_process store
launch_front fuel p pid waits b s positive loaded front =
    rw (positive, loaded)
      (ap
        (λ (t : Bool).
          (if t
              then put_process_in_background p false
              else put_process_in_foreground fuel p false waits)
            (record s { cell = put s.cell p (some (record b { pid = pid })) }))
        front)

-- `launch_process` in the shell of a process in the foreground, of which `waitpid` then reports.
pub launch-foreground :
    (fuel p : ℕ) (pid : ℤ) (st : Status) (waits : List (ℤ × Status)) (b : Process) (xs : List ℕ)
    (s : Shell)
    → is_positive pid ≡ true
    → p ≢ 0
    → s.cell p ≡ some b
    → b.background ≡ false
    → Linked s.cell s.first_process ((s.first_process ∷ xs) ++ (p ∷ []))
    → NotIn p (s.first_process ∷ xs)
    → NoneWith s.cell pid (s.first_process ∷ xs)
    → length xs + 2 < fuel
    → launch_process fuel p pid ((pid, st) ∷ waits) s
      ≡ done tt (record s {
        cell = reported (launched s.cell p b pid) p (record b { pid = pid; background = false }) st;
      })
unfolding put_process_in_foreground store
launch-foreground fuel p pid st waits b xs s positive np at_p front l ni none_there f =
    let b1 : Process = record b { pid = pid } in
    let b2 : Process = record b { pid = pid; background = false } in
    let s1 : Shell = record s { cell = put s.cell p (some b1) } in
    let s2 : Shell = record s { cell = launched s.cell p b pid } in
    let here : (p == p) ≡ true = ground arith in
    let at_p2 : s2.cell p ≡ some b2 = rw here in
    let l1 =
      Linked-restored s.cell s.first_process p b b1 ((s.first_process ∷ xs) ++ (p ∷ [])) at_p refl
        l in
    let l2 =
      Linked-restored s1.cell s.first_process p b1 b2 ((s.first_process ∷ xs) ++ (p ∷ [])) (rw here)
        refl l1 in
    let found =
      first_with-launched s.cell p b pid s.first_process (s.first_process ∷ xs) positive l2 ni
        none_there in
    let ran =
      mark-reported fuel p pid st b2 (xs ++ (p ∷ [])) s2 l2
        (omega (arith, length-append xs (p ∷ []))) positive found at_p2 in
    launch_front fuel p pid ((pid, st) ∷ waits) b s positive (load-at fuel p b s np at_p) front
    ∙ rw (load-put p b1 s, wait-reported fuel p pid st waits b2 s2 ran)
