-- ===== src/Shell/FrontTests.antt =====
-- The theorems on commands in the foreground of hw1/shell.c at concrete inputs.
use os_assignments.Base.{
  ◌+◌, ◌≡◌, refl, true, false, none, some, [], ◌∷◌, ◌==◌, if◌then◌else◌, arith, codes, pos, str_eq,
}
use os_assignments.Shell.State.{Process, Shell, done, fault, exited, stopped_by}
use os_assignments.Shell.Tokens.{get_toks, strtok_all, tokens_from, emit}
use os_assignments.Shell.Command.{Parsed, create_process, lookup}
use os_assignments.Shell.Jobs.{first_node, pid_eq}
use os_assignments.Shell.Linked.{Linked, AllRunning}
use os_assignments.Shell.Commands.{Terminal}
use os_assignments.Shell.Loop.{shell_round}
use os_assignments.Shell.Rounds.{AllStarted}
use os_assignments.Shell.Launching.{NoneWith}
use os_assignments.Shell.Foreground.{foreground-faults, foreground-stopped}

abbrev ls_line : Parsed
ls_line = record {
  background = false;
  err_file = none;
  out_file = none;
  in_file = none;
  argv = codes "/x" ∷ [];
}

ls_line_parsed :
    create_process (λ f. false) (λ n. n + 24) (codes "/bin") (codes "/x\n") ≡ some ls_line
unfolding create_process get_toks strtok_all tokens_from emit str_eq
ls_line_parsed = refl

lookup_ls : lookup (some (codes "/x")) ≡ none
unfolding lookup str_eq
lookup_ls = refl

-- A terminal where the fork returns 7.
abbrev terminal : Terminal
terminal = record {
  exists = λ f. false;
  room = λ n. n + 24;
  path = codes "/bin";
  forked = pos 7;
  waits = (pos 7, exited 0) ∷ [];
  chdir = λ d. pos 0;
  strtol = λ t. pos 0;
  isatty = true;
}

abbrev fresh_shell : Shell
fresh_shell = record {
  cell = λ a. if a == 1000 then some first_node else none;
  first_process = 1000;
}

first_node-AllStarted : AllStarted fresh_shell.cell (1000 ∷ [])
unfolding pid_eq
first_node-AllStarted = (λ b at_b. ground arith, tt)

first_node-NoneWith : NoneWith fresh_shell.cell (pos 7) (1000 ∷ [])
unfolding pid_eq
first_node-NoneWith = (λ b at_b. ground arith, tt)

foreground-faults_example : shell_round 9 terminal 2000 (codes "/x\n") fresh_shell ≡ fault
foreground-faults_example =
    foreground-faults 9 1000 2000 [] terminal (codes "/x\n") (codes "/x") [] ls_line (exited 0) []
      fresh_shell ls_line_parsed refl lookup_ls refl refl refl refl refl
      (refl, (λ e. absurd (omega arith)), (first_node, refl, refl)) (tt, tt) first_node-AllStarted
      first_node-NoneWith ((λ e. absurd (omega arith)), tt) (λ e. absurd (omega arith))
      (omega arith) tt

abbrev stopping : Terminal
stopping = record terminal { waits = (pos 7, stopped_by 20) ∷ [] }

foreground-stopped_example :
    (s' : Shell) × (shell_round 9 stopping 2000 (codes "/x\n") fresh_shell ≡ done tt s')
    × Linked s'.cell s'.first_process (1000 ∷ 2000 ∷ [])
    × AllStarted s'.cell (1000 ∷ 2000 ∷ [])
    × AllRunning s'.cell (1000 ∷ 2000 ∷ [])
    × ((b : Process) × (s'.cell 2000 ≡ some b) × (b.stopped ≡ true) × (b.pid ≡ pos 7))
foreground-stopped_example =
    foreground-stopped 9 1000 2000 [] stopping (codes "/x\n") (codes "/x") [] ls_line
      (stopped_by 20) [] fresh_shell ls_line_parsed refl lookup_ls refl refl refl refl refl
      (refl, (λ e. absurd (omega arith)), (first_node, refl, refl)) (tt, tt) first_node-AllStarted
      first_node-NoneWith ((λ e. absurd (omega arith)), tt) (λ e. absurd (omega arith))
      (omega arith) 20 refl ((λ b at_b. ground arith), tt)
