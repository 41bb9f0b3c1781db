-- ===== src/Shell/Foreground.antt =====
-- A line of hw1/shell.c that runs a command in the foreground.
use os_assignments.Base.{
  ℕ, ◌+◌, ◌<◌, ◌≡◌, ◌≢◌, refl, sym, subst, ap, ◌∙◌, Bool, true, false, none, some, List, [], ◌∷◌,
  ◌++◌, ◌==◌, arith, length, length-append, All, Bytes, ℤ, pos,
}
use os_assignments.Shell.State.{Process, Shell, Status, exited, signaled, stopped_by, done, fault}
use os_assignments.Shell.Command.{Parsed, create_process, lookup}
use os_assignments.Shell.Jobs.{pid_eq, is_positive, launch_process, marked}
use os_assignments.Shell.Linked.{Linked, AllRunning, load-at, purge_use_after_free}
use os_assignments.Shell.Adding.{NotIn, Apart, last_of}
use os_assignments.Shell.Commands.{Terminal}
use os_assignments.Shell.Loop.{new_process, find_new, dispatch, interact, shell_round}
use os_assignments.Shell.Rounds.{
  AllStarted, joined, round_added, find_new-last, report_total, SomeCompleted-last, Linked-changed,
}
use os_assignments.Shell.Lines.{
  shell_round-parsed, interact-background, All-changed, positive-started,
}
use os_assignments.Shell.Reaping.{reported, marked_kept}
use os_assignments.Shell.Launching.{NoneWith, launched, launch-foreground}

-- What the report makes of the process.
abbrev pub IsOver : Status → Type 0
IsOver (exited n) = Unit
IsOver (signaled n) = Unit
IsOver (stopped_by n) = ⊥

over-completed : (b : Process) (st : Status) → IsOver st → (marked b st).completed ≡ true
unfolding marked
over-completed b (exited n) h = refl
over-completed b (signaled n) h = refl
over-completed b (stopped_by n) h = absurd h

stopped_completed : (b : Process) (n : ℕ) → (marked b (stopped_by n)).completed ≡ b.completed
unfolding marked
stopped_completed b n = refl

stopped_stopped : (b : Process) (n : ℕ) → (marked b (stopped_by n)).stopped ≡ true
unfolding marked
stopped_stopped b n = refl

interact-over :
    (fuel : ℕ) (env : Terminal) (p : ℕ) (b : Process) (name : Bytes) (args : List Bytes)
    (s s' : Shell) (xs : List ℕ)
    → find_new fuel s.first_process s ≡ done p s
    → p ≢ 0
    → s.cell p ≡ some b
    → b.argv ≡ name ∷ args
    → lookup (some name) ≡ none
    → launch_process fuel p env.forked env.waits s ≡ done tt s'
    → Linked s'.cell s'.first_process (xs ++ (p ∷ []))
    → (b' : Process) × (s'.cell p ≡ some b') × (b'.completed ≡ true)
    → length (xs ++ (p ∷ [])) < fuel
    → interact fuel env p s ≡ fault
unfolding interact dispatch
interact-over fuel env p b name args s s' xs found np at_p words unknown ran l (b', at_p', over) f =
    let (ms, told) = report_total fuel s'.first_process (xs ++ (p ∷ [])) s' l f in
    let faulted =
      purge_use_after_free fuel (xs ++ (p ∷ [])) s' l
        (SomeCompleted-last s'.cell p b' xs at_p' over) f in
    rw (found, load-at fuel p b s np at_p) (simp words (rw (unknown, ran, told, faulted)))

module _ (fuel a p : ℕ) (xs : List ℕ) (env : Terminal) (line name : Bytes) (args : List Bytes)
    (c : Parsed) (st : Status) (later : List (ℤ × Status)) (s : Shell)
    (parsed : create_process env.exists env.room env.path line ≡ some c)
    (words : c.argv ≡ name ∷ args) (unknown : lookup (some name) ≡ none)
    (front : c.background ≡ false) (forked : is_positive env.forked ≡ true)
    (waits : env.waits ≡ (env.forked, st) ∷ later) (tty : env.isatty ≡ true)
    (first : s.first_process ≡ a) (l : Linked s.cell a (a ∷ xs)) (ap' : Apart (a ∷ xs))
    (started : AllStarted s.cell (a ∷ xs)) (none_there : NoneWith s.cell env.forked (a ∷ xs))
    (ni : NotIn p (a ∷ xs)) (np : p ≢ 0) (f : length xs + 2 < fuel) where
  -- The round up to the report of the child, and what it keeps of the other processes.
  round_launched :
      (s1 : Shell) × (s2 : Shell) × (b : Process) × (b2 : Process) × (shell_round fuel env p line s
        ≡ interact fuel env p s1)
      × (find_new fuel s1.first_process s1 ≡ done p s1)
      × (s1.cell p ≡ some b)
      × (b.argv ≡ name ∷ args)
      × (launch_process fuel p env.forked env.waits s1 ≡ done tt s2)
      × (s2.first_process ≡ a)
      × Linked s2.cell s2.first_process ((a ∷ xs) ++ (p ∷ []))
      × (s2.cell p ≡ some (marked b2 st))
      × (b2.pid ≡ env.forked)
      × (b2.completed ≡ false)
      × ((P : ℤ → Bool → Type 0)
          → All (λ x. (d : Process) → s.cell x ≡ some d → P d.pid d.completed) (a ∷ xs)
          → P env.forked (marked b2 st).completed
          → All
              (λ x. (d : Process) → s2.cell x ≡ some d → P d.pid d.completed)
              ((a ∷ xs) ++ (p ∷ [])))
  round_launched =
      let n = new_process c in
      let (bl, added, l1, kept, at_p) = round_added fuel a p xs n s first l ap' ni np refl f in
      let s1 = joined s (last_of a xs) bl p n in
      let b : Process = record n { prev = last_of a xs } in
      let b2 : Process = record b { pid = env.forked; background = false } in
      let b3 = marked b2 st in
      let s2 : Shell = record s1 { cell = reported (launched s1.cell p b env.forked) p b2 st } in
      let zs = (a ∷ xs) ++ (p ∷ []) in
      let here : (p == p) ≡ true = ground arith in
      let at_first = λ (q : ℕ). Linked s1.cell q zs in
      let none1 = kept (λ i d. pid_eq i env.forked ≡ false) none_there in
      let started1 = kept (λ i d. pid_eq i (pos 0) ≡ false) started in
      let ran =
        launch-foreground fuel p env.forked st later b xs s1 forked np at_p front
          (subst (λ (q : ℕ). Linked s1.cell q ((q ∷ xs) ++ (p ∷ []))) (sym first) l1)
          (subst (λ (q : ℕ). NotIn p (q ∷ xs)) (sym first) ni)
          (subst (λ (q : ℕ). NoneWith s1.cell env.forked (q ∷ xs)) (sym first) none1) f in
      let l2 =
        Linked-changed s1.cell s2.cell a p b b3 zs at_p (rw here) (marked_kept b2 st).2
          (λ x off. ground arith) l1 in
      (
        s1,
        s2,
        b,
        b2,
        shell_round-parsed fuel env p line c s s1 parsed added tty,
        find_new-last fuel s1.first_process p (a ∷ xs) s1 (subst at_first (sym first) l1) started1
            (omega arith),
        at_p,
        words,
        subst (λ (w : List (ℤ × Status)). launch_process fuel p env.forked w s1 ≡ done tt s2)
            (sym waits) ran,
        first,
        subst (λ (q : ℕ). Linked s2.cell q zs) (sym first) l2,
        rw here,
        refl,
        refl,
        λ P all new.
            All-changed P s1.cell s2.cell p b3 (a ∷ xs) ni (λ x off. ground arith) (rw here)
              (subst (λ (i : ℤ). P i b3.completed) (sym (marked_kept b2 st).0) new) (kept P all),
      )

  -- A line typed at a terminal that runs a command in the foreground, where `fork` succeeds and
  -- `waitpid` then says that this process exited or was killed, on a well-linked list of processes
  -- that were all started, none of them with the new id: the round ends in an access to freed
  -- memory, since the purge frees the completed process and reads its link.
  pub foreground-faults : IsOver st → shell_round fuel env p line s ≡ fault
  foreground-faults over =
      let (s1, s2, b, b2, parsed', found, at_p, words', ran, first', l2, at_p2, _, _, _) =
        round_launched in
      parsed'
      ∙ interact-over fuel env p b name args s1 s2 (a ∷ xs) found np at_p words' unknown ran l2
          (marked b2 st, at_p2, over-completed b2 st over)
          (omega (arith, length-append xs (p ∷ [])))

  -- A line typed at a terminal that `create_process` makes a process of, with no access to memory
  -- that is not its own, and that runs a command in the foreground, where `fork` succeeds and `waitpid`
  -- then says that this process was stopped, on a list of processes, linked by `next`, that were all
  -- started, none of them completed or with the new id: the round comes to an end, and the list goes
  -- on with the new process behind the old ones: stopped, under its id, started and not completed.
  pub foreground-stopped :
      (n : ℕ)
      → st ≡ stopped_by n
      → AllRunning s.cell (a ∷ xs)
      → (s' : Shell) × (shell_round fuel env p line s ≡ done tt s')
        × Linked s'.cell s'.first_process ((a ∷ xs) ++ (p ∷ []))
        × AllStarted s'.cell ((a ∷ xs) ++ (p ∷ []))
        × AllRunning s'.cell ((a ∷ xs) ++ (p ∷ []))
        × ((b : Process) × (s'.cell p ≡ some b) × (b.stopped ≡ true) × (b.pid ≡ env.forked))
  foreground-stopped n stop running =
      let (s1, s2, b, b2, parsed', found, at_p, words', ran, first', l2, at_p2, pid, fresh, keeps) =
        round_launched in
      let still : (marked b2 st).completed ≡ false =
        ap (λ (r : Status). (marked b2 r).completed) stop ∙ stopped_completed b2 n ∙ fresh in
      let running2 = keeps (λ i d. d ≡ false) running still in
      (
        s2,
        parsed'
            ∙ interact-background fuel env p b name args s1 s2 ((a ∷ xs) ++ (p ∷ [])) found np at_p
                words' unknown ran l2 running2 (omega (arith, length-append xs (p ∷ []))),
        l2,
        keeps (λ i d. pid_eq i (pos 0) ≡ false) started (positive-started env.forked forked),
        running2,
        (
          marked b2 st,
          at_p2,
          ap (λ (r : Status). (marked b2 r).stopped) stop ∙ stopped_stopped b2 n,
          (marked_kept b2 st).0 ∙ pid,
        ),
      )
