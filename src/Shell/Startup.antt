-- ===== src/Shell/Startup.antt =====
-- The start of the shell: `init_shell` of hw1/shell.c.
use os_assignments.Base.{
  ◌≡◌, refl, Bool, true, false, some, List, [], ◌∷◌, if◌then◌else◌, ℤ, arith, ◌⊎◌, inl, inr, ap,
}
use mathlib.Core.Path.{fun_ext}
use os_assignments.Base.Machine.{done}
use os_assignments.Shell.Jobs.{pid_eq}
use os_assignments.Shell.Terminals.{
  same_signal, Signal, sigint, sigquit, sigtstp, sigttin, sigttou, sigchld, further, Control,
  Globals, Startup, set_signal, own_group, is_negative, init_shell, wait_foreground, take_terminal,
  ignore_signals,
}

-- In some round the shell's group has the terminal.
abbrev pub ComesForward : List (ℤ × ℤ) → Type 0
ComesForward [] = ⊥
ComesForward ((front, own) ∷ rest) = (pid_eq front own ≡ true) ⊎ ComesForward rest

wait_foreground-ends :
    (groups : List (ℤ × ℤ)) (c : Control)
    → ComesForward groups
    → wait_foreground groups c ≡ done tt c
unfolding wait_foreground
wait_foreground-ends [] c h = absurd h
wait_foreground-ends ((front, own) ∷ rest) c (inl now) = rw now
wait_foreground-ends ((front, own) ∷ rest) c (inr later) =
    ground (arith, wait_foreground-ends rest c later)

-- The five signals are ignored behind `ignore_signals`, and all others are as they were.
abbrev pub ignores : Control → Signal → Bool
ignores c sigchld = c.ignored sigchld
ignores c (further n) = c.ignored (further n)
ignores c _ = true

all_ignored :
    (c : Control) (sig : Signal)
    → (if same_signal sigttou sig
        then true
        else if same_signal sigttin sig
        then true
        else if same_signal sigtstp sig
        then true
        else if same_signal sigquit sig
        then true
        else if same_signal sigint sig
        then true
        else c.ignored sig)
      ≡ ignores c sig
unfolding same_signal
all_ignored c sigint = refl
all_ignored c sigquit = refl
all_ignored c sigtstp = refl
all_ignored c sigttin = refl
all_ignored c sigttou = refl
all_ignored c sigchld = refl
all_ignored c (further n) = refl

ignore_signals-ignores :
    (c : Control) → ignore_signals c ≡ done tt (record c { ignored = ignores c })
unfolding ignore_signals set_signal
ignore_signals-ignores c =
    ap (λ (g : Signal → Bool). done tt (record c { ignored = g })) (fun_ext (all_ignored c))

-- A shell at a terminal whose group comes to have the terminal ends its start-up: it is in a group
-- of its own, which has the terminal, and ignores the five signals of job control, and no other
-- that it did not ignore before.
pub init_shell-ready :
    (env : Startup) (c : Control)
    → env.isatty ≡ true
    → ComesForward env.groups
    → is_negative env.setpgid ≡ false
    → (g : Globals) × (c' : Control) × (init_shell env c ≡ done g c')
      × (g.shell_pgid ≡ some env.getpid)
      × (c'.group ≡ env.getpid)
      × (c'.foreground ≡ env.getpid)
      × (c'.ignored ≡ ignores c)
unfolding init_shell own_group take_terminal
init_shell-ready env c tty forward grouped =
    let c' : Control = record c { group = env.getpid; foreground = env.getpid } in
    (
      record { shell_terminal = 0; shell_is_interactive = true; shell_pgid = some env.getpid },
      record c' { ignored = ignores c },
      rw (
        init_shell,
        tty,
        wait_foreground-ends env.groups c forward,
        own_group,
        grouped,
        ignore_signals-ignores c',
      ),
      refl,
      refl,
      refl,
      refl,
    )
