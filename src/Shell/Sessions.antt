-- ===== src/Shell/Sessions.antt =====
-- Many lines read by hw1/shell.c, from `init_process_list` on.
use os_assignments.Base.{ℕ, ◌≡◌, ◌≢◌, none, some, List, [], ◌∷◌, Bytes, true}
use os_assignments.Shell.State.{Shell}
use os_assignments.Shell.Command.{Parsed, create_process, lookup}
use os_assignments.Shell.Jobs.{is_positive}
use os_assignments.Shell.Linked.{Linked, AllRunning}
use os_assignments.Shell.Commands.{Terminal}
use os_assignments.Shell.Rounds.{AllStarted}

-- A list of processes behind a first node, linked by `next`, all of them started and none completed.
pub record IsBusy (a : ℕ) (xs : List ℕ) (s : Shell) : Type 0 where
  pub first : s.first_process ≡ a
  pub linked : Linked s.cell a (a ∷ xs)
  pub started : AllStarted s.cell (a ∷ xs)
  pub running : AllRunning s.cell (a ∷ xs)

-- A line typed at a terminal that `create_process` makes a process of, with no access to memory
-- that is not its own, and that starts a command in the background.
pub record IsJob (job : Terminal × ℕ × Bytes) : Type 0 where
  pub command : Parsed
  pub name : Bytes
  pub args : List Bytes
  pub parsed : create_process job.0.exists job.0.room job.0.path job.2 ≡ some command
  pub words : command.argv ≡ name ∷ args
  pub unknown : lookup (some name) ≡ none
  pub back : command.background ≡ true
  pub forked : is_positive job.0.forked ≡ true
  pub tty : job.0.isatty ≡ true
  pub given : job.1 ≢ 0

abbrev pub addresses : List (Terminal × ℕ × Bytes) → List ℕ
addresses [] = []
addresses ((env, p, line) ∷ jobs) = p ∷ addresses jobs
