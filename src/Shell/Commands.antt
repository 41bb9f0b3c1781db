-- ===== src/Shell/Commands.antt =====
-- hw1/shell.c: the built-in commands, and the messages about the processes.
use os_assignments.Base.{
  ℕ, zero, suc, Bool, Option, none, some, List, [], ◌∷◌, ◌==◌, if◌then◌else◌, Bytes, codes, ℤ, pos,
}
use os_assignments.Shell.State.{Status, Process, exit, out_of_fuel, Cmd, pure, ◌>>=◌, ◌>>◌, load}
use os_assignments.Shell.Jobs.{cmd_fg, cmd_bg, cmd_wait}
use os_assignments.Shell.Command.{cmd_table}

-- What the system and the C library give: which files exist, how many bytes `malloc` really gives
-- for a size, PATH, the result of `fork`, those of the calls of `waitpid`, `chdir`, `strtol`,
-- and whether the input is a terminal.
pub record Terminal : Type 0 where
  pub exists : Bytes → Bool
  pub room : ℕ → ℕ
  pub path : Bytes
  pub forked : ℤ
  pub waits : List (ℤ × Status)
  pub chdir : Bytes → ℤ
  pub strtol : Bytes → ℤ
  pub isatty : Bool

-- `arg[0]`
abbrev pub first_argument : List Bytes → Option Bytes
first_argument [] = none
first_argument (arg ∷ _) = some arg

-- The strings of `cmd_table` that `cmd_help` prints.
abbrev pub docs : List Bytes
docs =
    codes "show this help menu"
    ∷ codes "quit the command shell"
    ∷ codes "change directory"
    ∷ codes "list processes"
    ∷ codes "put process in foreground"
    ∷ codes "put process in background"
    ∷ codes "wait for all background processes to complete"
    ∷ []

-- The lines of `cmd_help`, as the name and the text of each.
unfoldable pub help_lines : List Bytes → List Bytes → List (Bytes × Bytes)
help_lines [] texts = []
help_lines (name ∷ names) [] = []
help_lines (name ∷ names) (text ∷ texts) = (name, text) ∷ help_lines names texts

unfoldable pub cmd_help : List (Bytes × Bytes)
unfolding help_lines
cmd_help = help_lines cmd_table docs

-- The loop of `cmd_plist`, as what it prints of each process: its id, and `background`.
unfoldable pub plist_from : ℕ → ℕ → Cmd (List (ℤ × Bool))
plist_from zero q = λ _. out_of_fuel
plist_from (suc k) q =
    if q == 0
    then pure []
    else (do b ← load q; rest ← plist_from k b.next; pure ((b.pid, b.background) ∷ rest))

unfoldable pub cmd_plist : ℕ → Cmd (List (ℤ × Bool))
cmd_plist fuel h = plist_from fuel h.first_process h

unfoldable pub cmd_cd : Terminal → Option Bytes → ℤ
cmd_cd env none = env.chdir (codes "/home/vagrant")
cmd_cd env (some dir) = env.chdir dir

abbrev pub numeral : Terminal → Option Bytes → Option ℤ
numeral env none = none
numeral env (some arg) = some (env.strtol arg)

-- The call `cmd_table[fundex].fun(...)`.
unfoldable pub run_builtin : ℕ → Terminal → ℕ → List Bytes → Cmd ℤ
run_builtin fuel env fundex args =
    if fundex == 0
    then pure (pos 1)
    else if fundex == 1
    then (λ _. exit 0)
    else if fundex == 2
    then pure (cmd_cd env (first_argument args))
    else if fundex == 3
    then cmd_plist fuel >> pure (pos 0)
    else if fundex == 4
    then cmd_fg fuel (numeral env (first_argument args)) env.waits
    else if fundex == 5
    then cmd_bg fuel (numeral env (first_argument args))
    else cmd_wait fuel env.waits

-- What the loop over the processes prints.
pub data Message : Type 0 where
  bg_stopped fg_stopped bg_completed : ℤ → Message

unfoldable pub messages : Process → List Message
messages b =
    let ended =
      if b.completed then (if b.background then bg_completed b.pid ∷ [] else []) else [] in
    if b.stopped
    then (if b.background then bg_stopped b.pid else fg_stopped b.pid) ∷ ended
    else ended

unfoldable pub report_from : ℕ → ℕ → Cmd (List (List Message))
report_from zero q = λ _. out_of_fuel
report_from (suc k) q =
    if q == 0
    then pure []
    else (do b ← load q; rest ← report_from k b.next; pure (messages b ∷ rest))
