-- ===== src/Shell/Redirections.antt =====
-- The program that the child of `launch_process` of hw1/process.c becomes.
use os_assignments.Base.{
  ℕ, ◌≤◌, ◌≡◌, ◌≢◌, refl, Bool, true, false, ◌||◌, none, some, List, ◌==◌, if◌then◌else◌, Bytes, ℤ,
  pos, negsuc, arith, ◌⊎◌, inl, inr, Bool-cases, ap,
}
use mathlib.Core.Path.{fun_ext}
use os_assignments.Base.Machine.{done}
use os_assignments.Shell.Terminals.{
  same_signal, Signal, sigint, sigquit, sigtstp, sigttin, sigttou, sigchld, further, Control,
  Streams, set_signal, default_signals, dup2, close_file, redirect_to, own_group, child_setup,
  child, is_negative,
}

-- What a redirection leaves, where `fd` is open.
abbrev redirected : ℕ → ℕ → Control → Control
redirected fd target c = record c {
  files = λ x.
      if fd == target
      then c.files x
      else if x == fd
      then none
      else if x == target
      then c.files fd
      else c.files x;
}

redirect_to-open :
    (fd target f : ℕ) (c : Control)
    → c.files fd ≡ some f
    → redirect_to (pos fd) target c ≡ done tt (redirected fd target c)
unfolding redirect_to dup2 close_file
redirect_to-open fd target f c at_fd = elim (Bool-cases (fd == target)) [
  | inl same ↦ rw same
  | inr other ↦ rw (redirect_to, other, dup2, at_fd)
]

-- The six signals are not ignored behind `default_signals`, and all others are as they were.
abbrev pub still_ignored : Control → Signal → Bool
still_ignored c (further n) = c.ignored (further n)
still_ignored c _ = false

abbrev defaulted : Control → Control
defaulted c = record c { ignored = still_ignored c }

all_default :
    (c : Control) (sig : Signal)
    → (if same_signal sigchld sig
        then false
        else if same_signal sigttou sig
        then false
        else if same_signal sigttin sig
        then false
        else if same_signal sigtstp sig
        then false
        else if same_signal sigquit sig
        then false
        else if same_signal sigint sig
        then false
        else c.ignored sig)
      ≡ still_ignored c sig
unfolding same_signal
all_default c sigint = refl
all_default c sigquit = refl
all_default c sigtstp = refl
all_default c sigttin = refl
all_default c sigttou = refl
all_default c sigchld = refl
all_default c (further n) = refl

default_signals-defaulted : (c : Control) → default_signals c ≡ done tt (defaulted c)
unfolding default_signals set_signal same_signal
default_signals-defaulted c =
    ap (λ (g : Signal → Bool). done tt (record c { ignored = g })) (fun_ext (all_default c))

-- A descriptor of a process: the standard one, or one that `open` gave.
abbrev pub IsStream : ℕ → ℕ → Type 0
IsStream fd target = (fd ≡ target) ⊎ (3 ≤ fd)

module _ (c : Control) (pid setpgid : ℤ) (grouped : is_negative setpgid ≡ false) where
  abbrev grouped_control : Control
  grouped_control = defaulted (record c { group = pid })

  child_setup-open :
      (i o e fi fo fe : ℕ)
      → IsStream i 0
      → IsStream o 1
      → IsStream e 2
      → i ≢ o
      → o ≢ e
      → i ≢ e
      → c.files i ≡ some fi
      → c.files o ≡ some fo
      → c.files e ≡ some fe
      → child_setup pid setpgid (record { stdin = pos i; stdout = pos o; stderr = pos e }) c
        ≡ done tt (redirected e 2 (redirected o 1 (redirected i 0 grouped_control)))
  unfolding child_setup own_group
  child_setup-open i o e fi fo fe si so se io oe ie at_i at_o at_e =
      let c0 = grouped_control in
      let c1 = redirected i 0 c0 in
      let c2 = redirected o 1 c1 in
      let at_o' : c1.files o ≡ some fo = ground arith in
      let at_e' : c2.files e ≡ some fe = ground arith in
      rw (
        child_setup,
        own_group,
        grouped,
        default_signals-defaulted (record c { group = pid }),
        redirect_to-open i 0 fi c0 at_i,
        redirect_to-open o 1 fo c1 at_o',
        redirect_to-open e 2 fe c2 at_e',
      )

  -- The command that the child runs has the files of the process's descriptors as its input, output
  -- and errors; the descriptors that `open` gave are closed, all other files stay open, the six
  -- signals that the code sets are not ignored and every other one just if the shell ignored it, and
  -- the child is in a group of its own. This is so if `setpgid` and `execv` succeed, and the
  -- descriptors are distinct, open, and the standard ones or from 3 on.
  pub child-streams :
      (execv : List Bytes → Bool) (argv : List Bytes) (i o e fi fo fe : ℕ)
      → execv argv ≡ true
      → IsStream i 0
      → IsStream o 1
      → IsStream e 2
      → i ≢ o
      → o ≢ e
      → i ≢ e
      → c.files i ≡ some fi
      → c.files o ≡ some fo
      → c.files e ≡ some fe
      → (c' : Control) × (child pid setpgid
            (record { stdin = pos i; stdout = pos o; stderr = pos e })
            execv
            argv
            c
          ≡ done argv c')
        × (c'.files 0 ≡ some fi)
        × (c'.files 1 ≡ some fo)
        × (c'.files 2 ≡ some fe)
        × ((x : ℕ)
            → 3 ≤ x
            → c'.files x ≡ (if x == i || (x == o || x == e) then none else c.files x))
        × ((sig : Signal) → c'.ignored sig ≡ still_ignored c sig)
        × (c'.group ≡ pid)
  unfolding child
  child-streams execv argv i o e fi fo fe runs si so se io oe ie at_i at_o at_e = (
    redirected e 2 (redirected o 1 (redirected i 0 grouped_control)),
    rw (child_setup-open i o e fi fo fe si so se io oe ie at_i at_o at_e, runs),
    ground arith,
    ground arith,
    ground arith,
    λ x big. ground arith,
    λ sig. refl,
    refl,
  )

-- A descriptor where nothing is redirected, or where `open` failed.
abbrev pub IsKept : ℤ → ℕ → Type 0
IsKept d target = (d ≡ pos target) ⊎ ((n : ℕ) × (d ≡ negsuc n))

redirect_to-kept :
    (d : ℤ) (target : ℕ) (c : Control) → IsKept d target → redirect_to d target c ≡ done tt c
unfolding redirect_to
redirect_to-kept d target c (inl e) =
    let same : (target == target) ≡ true = ground arith in rw (e, same)
redirect_to-kept d target c (inr (n, e)) = rw e

-- Where no descriptor is redirected, or the file of a redirection could not be opened, and `setpgid`
-- and `execv` succeed, the command runs all the same, on the open files that the shell has.
pub child_unopened :
    (pid setpgid : ℤ) (execv : List Bytes → Bool) (argv : List Bytes) (p : Streams) (c : Control)
    → is_negative setpgid ≡ false
    → execv argv ≡ true
    → IsKept p.stdin 0
    → IsKept p.stdout 1
    → IsKept p.stderr 2
    → (c' : Control) × (child pid setpgid p execv argv c ≡ done argv c') × (c'.files ≡ c.files)
unfolding child child_setup own_group
child_unopened pid setpgid execv argv p c grouped runs kin kout kerr =
    let c0 = defaulted (record c { group = pid }) in
    (
      c0,
      rw (
        child,
        child_setup,
        own_group,
        grouped,
        default_signals-defaulted (record c { group = pid }),
        redirect_to-kept p.stdin 0 c0 kin,
        redirect_to-kept p.stdout 1 c0 kout,
        redirect_to-kept p.stderr 2 c0 kerr,
        runs,
      ),
      refl,
    )
