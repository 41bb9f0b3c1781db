-- ===== src/Shell/Terminals.antt =====
-- hw1/shell.c: `init_shell`, and hw1/process.c: what the child of `launch_process` does. The results
-- of the system calls are given.
use os_assignments.Base.{
  ℕ, Bool, true, false, Option, none, some, List, [], ◌∷◌, ◌==◌, if◌then◌else◌, Bytes, ℤ, pos,
  negsuc,
}
use os_assignments.Base.Machine.{Outcome, done, exit, blocked, pure, ◌>>◌}
use os_assignments.Shell.Command.{Parsed}
use os_assignments.Shell.Jobs.{pid_eq}

-- The signals that either function sets, and any further one by its number.
pub data Signal : Type 0 where
  sigint sigquit sigtstp sigttin sigttou sigchld : Signal
  further : ℕ → Signal

-- The open files by descriptor; a file has a number of its own.
abbrev pub Files : Type 0
Files = ℕ → Option ℕ

-- What the kernel keeps for a process and its terminal: the ignored signals, which a fork and an
-- exec pass on, the open files, the process group, and the group in the terminal's foreground.
pub record Control : Type 0 where
  pub ignored : Signal → Bool
  pub files : Files
  pub group : ℤ
  pub foreground : ℤ

-- The variables that `init_shell` sets.
pub record Globals : Type 0 where
  pub shell_terminal : ℕ
  pub shell_is_interactive : Bool
  pub shell_pgid : Option ℤ

abbrev pub Cmd : Type 0 → Type 0
Cmd A = Control → Outcome Control A

unfoldable pub same_signal : Signal → Signal → Bool
same_signal sigint sigint = true
same_signal sigquit sigquit = true
same_signal sigtstp sigtstp = true
same_signal sigttin sigttin = true
same_signal sigttou sigttou = true
same_signal sigchld sigchld = true
same_signal _ _ = false

-- `signal(sig, SIG_IGN)` and `signal(sig, SIG_DFL)`
unfoldable pub set_signal : Signal → Bool → Cmd (Unit {0})
unfolding same_signal
set_signal sig ign c =
    done tt (record c { ignored = λ x. if same_signal sig x then ign else c.ignored x })

-- What the system gives `init_shell`: `isatty`, what `tcgetpgrp` and `getpgrp` return in each round
-- of the loop, `getpid`, and `setpgid`.
pub record Startup : Type 0 where
  pub isatty : Bool
  pub groups : List (ℤ × ℤ)
  pub getpid : ℤ
  pub setpgid : ℤ

abbrev pub is_negative : ℤ → Bool
is_negative (pos n) = false
is_negative (negsuc n) = true

-- `while (tcgetpgrp(..) != (shell_pgid = getpgrp())) kill(-shell_pgid, SIGTTIN)`
unfoldable pub wait_foreground : List (ℤ × ℤ) → Cmd (Unit {0})
wait_foreground [] = λ _. blocked
wait_foreground ((front, own) ∷ rest) =
    let again = wait_foreground rest in if pid_eq front own then pure tt else again

-- `setpgid(pid, pid)`, whose result is given, and `tcsetpgrp`.
unfoldable pub own_group : ℤ → ℤ → Cmd (Unit {0})
own_group pid result c = if is_negative result then exit 1 else done tt (record c { group = pid })

unfoldable pub take_terminal : ℤ → Cmd (Unit {0})
take_terminal pid c = done tt (record c { foreground = pid })

unfoldable pub ignore_signals : Cmd (Unit {0})
unfolding set_signal
ignore_signals = do
  set_signal sigint true
  set_signal sigquit true
  set_signal sigtstp true
  set_signal sigttin true
  set_signal sigttou true

unfoldable pub init_shell : Startup → Cmd Globals
init_shell env =
    if env.isatty
    then (do
      wait_foreground env.groups
      own_group env.getpid env.setpgid
      take_terminal env.getpid
      ignore_signals
      pure (record {
        shell_terminal = 0;
        shell_is_interactive = true;
        shell_pgid = some env.getpid;
      }))
    else (do
      ignore_signals
      pure (record { shell_terminal = 0; shell_is_interactive = false; shell_pgid = none }))

-- `dup2(fd, target)` and `close(fd)`; on a descriptor that is not open both only fail.
unfoldable pub dup2 : ℕ → ℕ → Cmd (Unit {0})
dup2 fd target c = elim (c.files fd) [
  | none ↦ done tt c
  | some f ↦ done tt (record c { files = λ x. if x == target then some f else c.files x })
]

unfoldable pub close_file : ℕ → Cmd (Unit {0})
close_file fd c = done tt (record c { files = λ x. if x == fd then none else c.files x })

-- One redirection of the child: a descriptor of -1 is only reported.
unfoldable pub redirect_to : ℤ → ℕ → Cmd (Unit {0})
unfolding dup2 close_file
redirect_to (negsuc n) target = pure tt
redirect_to (pos fd) target = if fd == target then pure tt else (do dup2 fd target; close_file fd)

-- The descriptors of a process.
pub record Streams : Type 0 where
  pub stdin : ℤ
  pub stdout : ℤ
  pub stderr : ℤ

-- What `open` returned for a redirection, or the standard descriptor.
abbrev pub descriptor : (Bytes → ℤ) → ℕ → Option Bytes → ℤ
descriptor open_file target none = pos target
descriptor open_file target (some name) = open_file name

unfoldable pub streams : (Bytes → ℤ) → (Bytes → ℤ) → Parsed → Streams
streams open_in open_out c = record {
  stdin = descriptor open_in 0 c.in_file;
  stdout = descriptor open_out 1 c.out_file;
  stderr = descriptor open_out 2 c.err_file;
}

unfoldable pub default_signals : Cmd (Unit {0})
unfolding set_signal
default_signals = do
  set_signal sigint false
  set_signal sigquit false
  set_signal sigtstp false
  set_signal sigttin false
  set_signal sigttou false
  set_signal sigchld false

-- The child up to `execv`; `pid` and `setpgid` are what `getpid` and `setpgid` return.
unfoldable pub child_setup : ℤ → ℤ → Streams → Cmd (Unit {0})
child_setup pid setpgid p = do
  own_group pid setpgid
  default_signals
  redirect_to p.stdin 0
  redirect_to p.stdout 1
  redirect_to p.stderr 2

-- The child: the program that runs in its place, or an exit. `execv` is whether the call succeeds.
unfoldable pub child : ℤ → ℤ → Streams → (List Bytes → Bool) → List Bytes → Cmd (List Bytes)
child pid setpgid p execv argv = do
  child_setup pid setpgid p
  if execv argv then pure argv else (λ _. exit 1)
