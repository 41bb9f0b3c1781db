-- ===== src/Shell/ChildTests.antt =====
-- The theorems on the child of `launch_process` of hw1/process.c at concrete inputs.
use os_assignments.Base.{
  ℕ, ◌≤◌, ◌≡◌, refl, inl, inr, true, ◌||◌, none, some, [], ◌∷◌, ◌==◌, ltb, if◌then◌else◌, arith,
  codes, pos, negsuc,
}
use os_assignments.Base.Machine.{done}
use os_assignments.Shell.Terminals.{Control, Signal, child}
use os_assignments.Shell.Redirections.{still_ignored, child-streams, child_unopened}

-- A shell at a terminal, the file 100, that has opened the files 7 and 8.
abbrev two_open : Control
two_open = record {
  ignored = λ sig. true;
  files =
      λ x. if ltb x 3 then some 100 else if x == 3 then some 7 else if x == 4 then some 8 else none;
  group = pos 50;
  foreground = pos 50;
}

child-streams_example :
    (c' : Control) × (child
        (pos 60)
        (pos 0)
        (record { stdin = pos 3; stdout = pos 4; stderr = pos 2 })
        (λ argv. true)
        (codes "sort" ∷ [])
        two_open
      ≡ done (codes "sort" ∷ []) c')
    × (c'.files 0 ≡ some 7)
    × (c'.files 1 ≡ some 8)
    × (c'.files 2 ≡ some 100)
    × ((x : ℕ)
        → 3 ≤ x
        → c'.files x ≡ (if x == 3 || (x == 4 || x == 2) then none else two_open.files x))
    × ((sig : Signal) → c'.ignored sig ≡ still_ignored two_open sig)
    × (c'.group ≡ pos 60)
child-streams_example =
    child-streams two_open (pos 60) (pos 0) refl (λ argv. true) (codes "sort" ∷ []) 3 4 2 7 8 100
      refl (inr (omega arith)) (inr (omega arith)) (inl refl) (λ e. absurd (omega arith))
      (λ e. absurd (omega arith)) (λ e. absurd (omega arith)) refl refl refl

unopened_run :
    (c' : Control) × (child
        (pos 60)
        (pos 0)
        (record { stdin = negsuc 0; stdout = pos 1; stderr = pos 2 })
        (λ argv. true)
        (codes "sort" ∷ [])
        two_open
      ≡ done (codes "sort" ∷ []) c')
    × (c'.files ≡ two_open.files)
unopened_run =
    child_unopened (pos 60) (pos 0) (λ argv. true) (codes "sort" ∷ [])
      (record { stdin = negsuc 0; stdout = pos 1; stderr = pos 2 }) two_open refl refl
      (inr (0, refl)) (inl refl) (inl refl)
