-- ===== src/Shell/Loop.antt =====
-- hw1/shell.c: the main loop of `shell`, line by line, and hw1/main.c.
use os_assignments.Base.{
  ℕ, zero, suc, true, false, Option, none, some, List, [], ◌∷◌, ◌==◌, if◌then◌else◌, Bytes, pos,
}
use os_assignments.Shell.State.{Process, fault, out_of_fuel, Cmd, pure, ◌>>=◌, ◌>>◌, load, store}
use os_assignments.Shell.Command.{Parsed, create_process, lookup}
use os_assignments.Shell.Jobs.{
  pid_eq, init_process_list, add_process, launch_process, purge_proc_list,
}
use os_assignments.Shell.Commands.{Terminal, first_argument, run_builtin, report_from}

-- The process that `create_process` fills in; its descriptors are not kept.
abbrev pub new_process : Parsed → Process
new_process c = record {
  argv = c.argv;
  pid = pos 0;
  completed = false;
  stopped = false;
  background = c.background;
  status = none;
  next = 0;
  prev = 0;
}

-- `while (next_p->next != NULL)`: the first process that was not started, or else the last one.
unfoldable pub find_new : ℕ → ℕ → Cmd ℕ
find_new zero q = λ _. out_of_fuel
find_new (suc k) q = do
  b ← load q
  let rest = find_new k b.next
  if b.next == 0 then pure q else if pid_eq b.pid (pos 0) then pure q else rest

-- `next_p->completed = 1`
unfoldable pub complete : ℕ → Cmd (Unit {0})
complete q = do b ← load q; store q (record b { completed = true })

-- What is done with the arguments of `next_p` at `q`; `p` is the new process.
unfoldable pub dispatch : ℕ → Terminal → ℕ → ℕ → List Bytes → Option ℕ → Cmd (Unit {0})
dispatch fuel env p q [] found = complete q
dispatch fuel env p q (name ∷ args) none = launch_process fuel p env.forked env.waits
dispatch fuel env p q (name ∷ args) (some fundex) = run_builtin fuel env fundex args >> complete q

-- The part of a round for an interactive shell.
unfoldable pub interact : ℕ → Terminal → ℕ → Cmd (Unit {0})
interact fuel env p h =
    (do
      q ← find_new fuel h.first_process
      b ← load q
      dispatch fuel env p q b.argv (lookup (first_argument b.argv))
      (λ h'. (report_from fuel h'.first_process >> purge_proc_list fuel) h'))
      h

-- A line that was read; `p` is the address that `malloc` gave the new process.
unfoldable pub shell_round : ℕ → Terminal → ℕ → Bytes → Cmd (Unit {0})
shell_round fuel env p line = elim (create_process env.exists env.room env.path line) [
  | none ↦ λ _. fault
  | some c ↦ do
    store p (new_process c)
    add_process fuel p
    if env.isatty then interact fuel env p else pure tt
]

-- The lines up to the end of the input, each with what the system gives then.
unfoldable pub shell_lines : ℕ → List (Terminal × ℕ × Bytes) → Cmd (Unit {0})
shell_lines fuel [] = pure tt
shell_lines fuel ((env, p, line) ∷ rest) = shell_round fuel env p line >> shell_lines fuel rest

-- `shell`, with the address of the first node; what `init_shell` does to the terminal is left out.
unfoldable pub shell : (ℕ → ℕ) → ℕ → ℕ → List (Terminal × ℕ × Bytes) → Cmd (Unit {0})
shell room fuel first lines = init_process_list room first >> shell_lines fuel lines

-- `main` of hw1/main.c.
unfoldable pub main : (ℕ → ℕ) → ℕ → ℕ → List (Terminal × ℕ × Bytes) → Cmd (Unit {0})
unfolding shell
main room fuel first lines = shell room fuel first lines
