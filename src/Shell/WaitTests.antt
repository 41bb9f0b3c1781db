-- ===== src/Shell/WaitTests.antt =====
-- The theorems on `wait` of hw1/shell.c at concrete inputs.
use os_assignments.Base.{
  ◌≡◌, refl, inl, true, none, some, [], ◌∷◌, ◌==◌, if◌then◌else◌, arith, codes, pos, negsuc, str_eq,
}
use os_assignments.Shell.State.{Process, Shell, done, blocked, exited}
use os_assignments.Shell.Jobs.{first_node, pid_eq, cmd_wait}
use os_assignments.Shell.Linked.{Linked}
use os_assignments.Shell.Waiting.{active, is_active, AllNamed, first_with}
use os_assignments.Shell.Reaping.{cmd_wait-ends, cmd_wait-stuck}

abbrev job : Process
job = record first_node { argv = codes "/x" ∷ []; pid = pos 7; background = true; prev = 10 }

-- The first node at 10, and a process in the background at 20.
abbrev one_job : Shell
one_job = record {
  cell = λ a.
      if a == 10
      then some (record first_node { next = 20 })
      else if a == 20
      then some job
      else none;
  first_process = 10;
}

one_job-Linked : Linked one_job.cell 10 (10 ∷ 20 ∷ [])
one_job-Linked = (
  refl,
  (λ e. absurd (omega arith)),
  (_, refl, (refl, (λ e. absurd (omega arith)), (_, refl, refl))),
)

one_job-AllNamed : AllNamed one_job.cell (20 ∷ [])
one_job-AllNamed = (λ b at_b none_left. absurd (ground arith), tt)

one_active : active one_job.cell (20 ∷ []) ≡ 1
unfolding active str_eq
one_active = refl

job_on : is_active job ≡ true
unfolding str_eq
job_on = refl

job_found : first_with one_job.cell (pos 7) (10 ∷ 20 ∷ []) ≡ some 20
unfolding first_with pid_eq
job_found = refl

cmd_wait-ends_example :
    (s' : Shell) × (cmd_wait 3 ((pos 7, exited 0) ∷ []) one_job ≡ done (pos 0) s')
    × (active s'.cell (20 ∷ []) ≡ 0)
    × Linked s'.cell s'.first_process (s'.first_process ∷ 20 ∷ [])
cmd_wait-ends_example =
    cmd_wait-ends 3 ((pos 7, exited 0) ∷ []) (20 ∷ []) (20 ∷ []) one_job one_job-Linked
      (((λ e. absurd (omega arith)), tt), (tt, tt)) one_job-AllNamed (tt, tt)
      (refl, job_found, inl refl, (job, refl, job_on), tt) one_active (omega arith)

cmd_wait-stuck_example :
    cmd_wait 3 ((negsuc 0, exited 0) ∷ (negsuc 0, exited 0) ∷ []) one_job ≡ blocked
cmd_wait-stuck_example =
    cmd_wait-stuck 3 ((negsuc 0, exited 0) ∷ (negsuc 0, exited 0) ∷ []) (20 ∷ []) one_job
      one_job-Linked ((λ e. absurd (omega arith)), tt) one_job-AllNamed
      (rw one_active (omega arith)) (refl, (refl, tt)) (omega arith)
