-- ===== src/Shell/Quiet.antt =====
-- The lines of hw1/shell.c that only mark their process as completed.
use os_assignments.Base.{
  ℕ, ◌<◌, ◌≡◌, true, some, List, [], ◌∷◌, length, inl, inr, ◌⊎◌, Bytes, ℤ, pos,
}
use os_assignments.Shell.State.{Process, Shell, done, load, store, put}
use os_assignments.Shell.Command.{lookup}
use os_assignments.Shell.Linked.{Linked}
use os_assignments.Shell.Commands.{Terminal, first_argument, run_builtin, cmd_plist, cmd_cd}
use os_assignments.Shell.Loop.{complete, dispatch}
use os_assignments.Shell.Rounds.{plist_total}

-- The three built-in commands that leave the list alone.
run_builtin-quiet :
    (fuel : ℕ) (env : Terminal) (i q : ℕ) (args : List Bytes) (xs : List ℕ) (s : Shell)
    → (i ≡ 0) ⊎ ((i ≡ 2) ⊎ (i ≡ 3))
    → Linked s.cell s.first_process xs
    → length xs < fuel
    → (r : ℤ) × (run_builtin fuel env i args s ≡ done r s)
unfolding run_builtin cmd_plist
run_builtin-quiet fuel env i q args xs s (inl e) l f = (pos 1, rw e)
run_builtin-quiet fuel env i q args xs s (inr (inl e)) l f =
    (cmd_cd env (first_argument args), rw e)
run_builtin-quiet fuel env i q args xs s (inr (inr e)) l f =
    let (ps, run) = plist_total fuel s.first_process xs s l f in (pos 0, rw (e, run))

-- A line that `interact` only marks as completed: with no token, or one of those commands.
abbrev pub IsQuiet : List Bytes → Type 0
IsQuiet argv =
    (argv ≡ [])
    ⊎ ((i : ℕ) × (lookup (first_argument argv) ≡ some i) × ((i ≡ 0) ⊎ ((i ≡ 2) ⊎ (i ≡ 3))))

pub dispatch-quiet :
    (fuel : ℕ) (env : Terminal) (p : ℕ) (argv : List Bytes) (xs : List ℕ) (s s' : Shell)
    → IsQuiet argv
    → Linked s.cell s.first_process xs
    → length xs < fuel
    → complete p s ≡ done tt s'
    → dispatch fuel env p p argv (lookup (first_argument argv)) s ≡ done tt s'
unfolding dispatch
dispatch-quiet fuel env p [] xs s s' quiet l f run = run
dispatch-quiet fuel env p (name ∷ args) xs s s' (inl e) l f run = absurd (cc)
dispatch-quiet fuel env p (name ∷ args) xs s s' (inr (i, found, which)) l f run =
    let (r, ran) = run_builtin-quiet fuel env i p args xs s which l f in rw (found, ran, run)

pub complete_lem :
    (p : ℕ) (b : Process) (s : Shell)
    → load p s ≡ done b s
    → complete p s
      ≡ done tt (record s { cell = put s.cell p (some (record b { completed = true })) })
unfolding complete store
complete_lem p b s loaded = rw loaded
