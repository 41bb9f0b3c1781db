-- ===== src/Shell/Linked.antt =====
-- The process list of hw1: `add_process` and `purge_proc_list` on a well-linked list.
use os_assignments.Base.{
  ℕ, zero, suc, ◌<◌, ◌≡◌, ◌≢◌, inl, inr, true, false, Option, some, List, [], ◌∷◌, ◌==◌, arith, All,
  Bool-cases, ◌∙◌, length, ◌⊎◌,
}
use os_assignments.Shell.State.{Process, Shell, done, fault, load, store, free, Cmd, ◌>>=◌, ◌>>◌}
use os_assignments.Shell.Jobs.{unlink_process, purge_from, purge_proc_list}

-- From `p` the `next` fields lead through the nodes at these addresses to NULL.
abbrev pub Linked : (ℕ → Option Process) → ℕ → List ℕ → Type 0
Linked cell p [] = p ≡ 0
Linked cell p (a ∷ xs) =
    (p ≡ a) × (a ≢ 0) × ((b : Process) × (cell a ≡ some b) × Linked cell b.next xs)

abbrev pub AllRunning : (ℕ → Option Process) → List ℕ → Type 0
AllRunning cell = All (λ a. (b : Process) → cell a ≡ some b → b.completed ≡ false)

module _ (k a : ℕ) (b : Process) (s : Shell) (ne : a ≢ 0) (at_a : s.cell a ≡ some b) where
  pub load-at : load a s ≡ done b s
  unfolding load
  load-at = rw (at_a, load)

  pub not_null : (a == 0) ≡ false
  not_null = ground arith

  purge_step_running : b.completed ≡ false → purge_from (suc k) a s ≡ purge_from k b.next s
  unfolding purge_from
  purge_step_running run = rw (not_null, load-at, run, load-at)

purge_running :
    (fuel p : ℕ) (xs : List ℕ) (s : Shell)
    → Linked s.cell p xs
    → AllRunning s.cell xs
    → length xs < fuel
    → purge_from fuel p s ≡ done tt s
unfolding purge_from
purge_running zero p xs s l r f = absurd (omega arith)
purge_running (suc k) p [] s l r f = rw l
purge_running (suc k) p (a ∷ xs) s (e, ne, (b, at_a, rest)) r f = rw e (
    purge_step_running k a b s ne at_a (r.0 b at_a)
    ∙ purge_running k b.next xs s rest r.1 (omega arith))

-- A list with no completed process is left xs it is.
pub purge_nothing :
    (fuel : ℕ) (xs : List ℕ) (s : Shell)
    → Linked s.cell s.first_process xs
    → AllRunning s.cell xs
    → length xs < fuel
    → purge_proc_list fuel s ≡ done tt s
unfolding purge_proc_list
purge_nothing fuel xs s = purge_running fuel s.first_process xs s

-- Whatever the body of the loop does at a completed process, that process is freed, so the step of
-- the loop reads freed memory.
unlink_then_load :
    (p : ℕ) {A : Type 0} (k : Process → Cmd A) (s : Shell)
    → (do unlink_process p; b ← load p; k b) s ≡ fault
unfolding unlink_process load store free
unlink_then_load p k s = ground arith

-- Some node of the list is completed.
abbrev pub SomeCompleted : (ℕ → Option Process) → List ℕ → Type 0
SomeCompleted cell [] = ⊥
SomeCompleted cell (a ∷ xs) =
    ((b : Process) × (cell a ≡ some b) × (b.completed ≡ true)) ⊎ SomeCompleted cell xs

purge_step_completed :
    (k a : ℕ) (b : Process) (s : Shell)
    → a ≢ 0
    → s.cell a ≡ some b
    → b.completed ≡ true
    → purge_from (suc k) a s ≡ fault
unfolding purge_from
purge_step_completed k a b s ne at_a over =
    rw (not_null k a b s ne at_a, load-at k a b s ne at_a, over)
      (unlink_then_load a (λ b'. purge_from k b'.next) s)

purge_completed :
    (fuel p : ℕ) (xs : List ℕ) (s : Shell)
    → Linked s.cell p xs
    → SomeCompleted s.cell xs
    → length xs < fuel
    → purge_from fuel p s ≡ fault
purge_completed zero p xs s l c f = absurd (omega arith)
purge_completed (suc k) p [] s l c f = absurd c
purge_completed (suc k) p (a ∷ xs) s (e, ne, (b, at_a, rest)) (inl (b', at', over)) f =
    rw e (purge_step_completed k a b' s ne at' over)
purge_completed (suc k) p (a ∷ xs) s (e, ne, (b, at_a, rest)) (inr later) f =
    elim (Bool-cases b.completed) [
      | inl over ↦ rw e (purge_step_completed k a b s ne at_a over)
      | inr run ↦ rw e (
          purge_step_running k a b s ne at_a run
          ∙ purge_completed k b.next xs s rest later (omega arith))
    ]

-- With a completed process anywhere in the list, the loop comes to read a process that it has
-- freed, or goes through NULL.
pub purge_use_after_free :
    (fuel : ℕ) (xs : List ℕ) (s : Shell)
    → Linked s.cell s.first_process xs
    → SomeCompleted s.cell xs
    → length xs < fuel
    → purge_proc_list fuel s ≡ fault
unfolding purge_proc_list
purge_use_after_free fuel xs s = purge_completed fuel s.first_process xs s
