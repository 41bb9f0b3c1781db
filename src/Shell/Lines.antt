-- ===== src/Shell/Lines.antt =====
-- One line read by hw1/shell.c, from the input to the list of processes.
use os_assignments.Base.{
  ℕ, ◌+◌, ◌<◌, ◌≡◌, ◌≢◌, refl, sym, subst, true, false, Option, none, some, List, [], ◌∷◌, ◌++◌,
  arith, length, length-append, Bytes, ℤ, pos, Bool, All, ◌∙◌,
}
use os_assignments.Shell.State.{Process, Shell, done, Status, load, put, store, ◌>>◌}
use os_assignments.Shell.Command.{Parsed, create_process, lookup}
use os_assignments.Shell.Jobs.{
  pid_eq, is_positive, launch_process, put_process_in_background, add_process,
}
use os_assignments.Shell.Linked.{Linked, AllRunning, load-at, purge_nothing}
use os_assignments.Shell.Adding.{NotIn, Apart, last_of}
use os_assignments.Shell.Commands.{Terminal}
use os_assignments.Shell.Loop.{new_process, find_new, dispatch, interact, shell_round}
use os_assignments.Shell.Rounds.{
  AllStarted, joined, round_added, find_new-last, report_total, Linked-changed, AllNodes-kept,
  some_eq,
}

-- A round on a line that was taken apart.
pub shell_round-parsed :
    (fuel : ℕ) (env : Terminal) (p : ℕ) (line : Bytes) (c : Parsed) (s s' : Shell)
    → create_process env.exists env.room env.path line ≡ some c
    → (do store p (new_process c); add_process fuel p) s ≡ done tt s'
    → env.isatty ≡ true
    → shell_round fuel env p line s ≡ interact fuel env p s'
unfolding shell_round store interact
shell_round-parsed fuel env p line c s s' parsed added tty =
    rw (parsed, shell_round) (rw (added, tty))

-- `launch_process` of a background process, in the shell.
launch-background :
    (fuel p : ℕ) (pid : ℤ) (waits : List (ℤ × Status)) (b : Process) (s : Shell)
    → is_positive pid ≡ true
    → s.cell p ≡ some b
    → b.background ≡ true
    → (s' : Shell) × (launch_process fuel p pid waits s ≡ done tt s')
      × (s'.first_process ≡ s.first_process)
      × (s'.cell p ≡ some (record b { pid = pid; background = true }))
      × ((x : ℕ) → x ≢ p → s'.cell x ≡ s.cell x)
unfolding launch_process put_process_in_background load store
launch-background fuel p pid waits b s positive at_p back =
    let b1 : Process = record b { pid = pid } in
    let b2 : Process = record b { pid = pid; background = true } in
    (
      record s { cell = put (put s.cell p (some b1)) p (some b2) },
      ground arith,
      refl,
      ground arith,
      λ x off. ground arith,
    )

-- The steps of `interact` for a command that is started in the background.
pub interact-background :
    (fuel : ℕ) (env : Terminal) (p : ℕ) (b : Process) (name : Bytes) (args : List Bytes)
    (s s' : Shell) (xs : List ℕ)
    → find_new fuel s.first_process s ≡ done p s
    → p ≢ 0
    → s.cell p ≡ some b
    → b.argv ≡ name ∷ args
    → lookup (some name) ≡ none
    → launch_process fuel p env.forked env.waits s ≡ done tt s'
    → Linked s'.cell s'.first_process xs
    → AllRunning s'.cell xs
    → length xs < fuel
    → interact fuel env p s ≡ done tt s'
unfolding interact dispatch
interact-background fuel env p b name args s s' xs found np at_p words unknown launched l running
      f =
    let (ms, reported) = report_total fuel s'.first_process xs s' l f in
    rw (found, load-at fuel p b s np at_p)
      (simp words (rw (unknown, launched, reported) (purge_nothing fuel xs s' l running f)))

pub All-snoc : (P : ℕ → Type 0) (xs : List ℕ) (p : ℕ) → All P xs → P p → All P (xs ++ (p ∷ []))
All-snoc P [] p all here = (here, tt)
All-snoc P (x ∷ xs) p all here = (all.0, All-snoc P xs p all.1 here)

-- A property of the processes' ids and `completed` fields, after a change at `p` alone.
pub All-changed :
    (P : ℤ → Bool → Type 0) (cell cell' : ℕ → Option Process) (p : ℕ) (b : Process) (xs : List ℕ)
    → NotIn p xs
    → ((x : ℕ) → x ≢ p → cell' x ≡ cell x)
    → cell' p ≡ some b
    → P b.pid b.completed
    → All (λ x. (c : Process) → cell x ≡ some c → P c.pid c.completed) xs
    → All (λ x. (c : Process) → cell' x ≡ some c → P c.pid c.completed) (xs ++ (p ∷ []))
All-changed P cell cell' p b xs ni other at_p here all =
    All-snoc (λ x. (c : Process) → cell' x ≡ some c → P c.pid c.completed) xs p
      (AllNodes-kept P cell cell' p xs ni
        (λ x c off at_x. (c, sym (other x (λ e. off (sym e))) ∙ at_x, refl, refl)) all)
      (λ c at_c. subst (λ (d : Process). P d.pid d.completed) (some_eq b c (sym at_p ∙ at_c)) here)

pub positive-started : (pid : ℤ) → is_positive pid ≡ true → pid_eq pid (pos 0) ≡ false
unfolding pid_eq
positive-started pid positive = ground arith

-- A line typed at a terminal that `create_process` makes a process of, with no access to memory
-- that is not its own, and that starts a command in the background, where `fork` succeeds: on a list of
-- processes, linked by `next`, that were all started and none of which is completed, the round comes
-- to an end, and the list is again such a list, with the new process behind the old ones. The new
-- one has the arguments of the line, the id that `fork` returned, and the last old one as its `prev`.
pub shell_round-background :
    (fuel a p : ℕ) (xs : List ℕ) (env : Terminal) (line name : Bytes) (args : List Bytes)
    (c : Parsed) (s : Shell)
    → create_process env.exists env.room env.path line ≡ some c
    → c.argv ≡ name ∷ args
    → lookup (some name) ≡ none
    → c.background ≡ true
    → is_positive env.forked ≡ true
    → env.isatty ≡ true
    → s.first_process ≡ a
    → Linked s.cell a (a ∷ xs)
    → Apart (a ∷ xs)
    → AllStarted s.cell (a ∷ xs)
    → AllRunning s.cell (a ∷ xs)
    → NotIn p (a ∷ xs)
    → p ≢ 0
    → length xs + 2 < fuel
    → (s' : Shell) × (shell_round fuel env p line s ≡ done tt s')
      × (s'.first_process ≡ a)
      × Linked s'.cell a ((a ∷ xs) ++ (p ∷ []))
      × AllStarted s'.cell ((a ∷ xs) ++ (p ∷ []))
      × AllRunning s'.cell ((a ∷ xs) ++ (p ∷ []))
      × (s'.cell p
          ≡ some
              (record (new_process c) { pid = env.forked; background = true; prev = last_of a xs }))
shell_round-background fuel a p xs env line name args c s parsed words unknown back forked tty first
      l ap' started running ni np f =
    let n = new_process c in
    let (bl, added, l', kept, at_p) = round_added fuel a p xs n s first l ap' ni np refl f in
    let s1 = joined s (last_of a xs) bl p n in
    let l1 = subst (λ (q : ℕ). Linked s1.cell q ((a ∷ xs) ++ (p ∷ []))) (sym first) l' in
    let b : Process = record n { prev = last_of a xs } in
    let (s2, launched, first2, at_p2, other) =
      launch-background fuel p env.forked env.waits b s1 forked at_p back in
    let b2 : Process = record b { pid = env.forked; background = true } in
    let l2 =
      Linked-changed s1.cell s2.cell a p b b2 ((a ∷ xs) ++ (p ∷ [])) at_p at_p2 refl other l' in
    let started1 = kept (λ i d. pid_eq i (pos 0) ≡ false) started in
    let running1 = kept (λ i d. d ≡ false) running in
    let running2 =
      All-changed (λ i d. d ≡ false) s1.cell s2.cell p b2 (a ∷ xs) ni other at_p2 refl running1 in
    let size : length ((a ∷ xs) ++ (p ∷ [])) < fuel = omega (arith, length-append xs (p ∷ [])) in
    (
      s2,
      shell_round-parsed fuel env p line c s s1 parsed added tty
          ∙ interact-background fuel env p b name args s1 s2 ((a ∷ xs) ++ (p ∷ []))
              (find_new-last fuel s1.first_process p (a ∷ xs) s1 l1 started1 (omega arith)) np at_p
              words unknown launched
              (subst (λ (q : ℕ). Linked s2.cell q ((a ∷ xs) ++ (p ∷ []))) (sym (first2 ∙ first)) l2)
              running2 size,
      first2 ∙ first,
      l2,
      All-changed (λ i d. pid_eq i (pos 0) ≡ false) s1.cell s2.cell p b2 (a ∷ xs) ni other at_p2
          (positive-started env.forked forked) started1,
      running2,
      at_p2,
    )
