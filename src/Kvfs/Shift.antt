-- ===== src/Kvfs/Shift.antt =====
-- The loop of `kvfs_unlink` in hw4/kvfs.c against the removal of one item of a list.
use os_assignments.Base.{
  ℕ, zero, suc, ◌+◌, ◌-◌, ◌<◌, ◌≡◌, refl, inl, inr, List, [], ◌∷◌, length, get_elem?, set, take,
  arith, ap, Option-cases,
}
use os_assignments.Kvfs.State.{Fnode}
use os_assignments.Kvfs.Handlers.{shift_loop}
use os_assignments.Kvfs.Find.{remove_at}

shift_loop-cons :
    (r i : ℕ) (x : Fnode) (xs : List Fnode) → shift_loop r (suc i) (x ∷ xs) ≡ x ∷ shift_loop r i xs
unfolding shift_loop
shift_loop-cons zero i x xs = refl
shift_loop-cons (suc r) i x xs = elim (Option-cases (get_elem? xs (suc i))) [
  | inl out ↦ rw (out, shift_loop)
  | inr (f, e) ↦ rw (e, shift_loop) (shift_loop-cons r (suc i) x (set xs i f))
]

shift_loop_head :
    (x : Fnode) (xs : List Fnode) → take (length xs) (shift_loop (length xs) 0 (x ∷ xs)) ≡ xs
shift_loop_head x [] = refl
shift_loop_head x (y ∷ ys) =
    let first : shift_loop (suc (length ys)) 0 (x ∷ y ∷ ys)
        ≡ y ∷ shift_loop (length ys) 0 (y ∷ ys) =
      unfold shift_loop in shift_loop-cons (length ys) 0 y (y ∷ ys) in
    rw first (ap (◌∷◌ y) (shift_loop_head y ys))

-- The loop and the `realloc` take out the node at `i` and keep the order of the others.
pub shift_loop-remove_at :
    (i : ℕ) (xs : List Fnode)
    → i < length xs
    → take (length xs - 1) (shift_loop (length xs - (i + 1)) i xs) ≡ remove_at i xs
unfolding remove_at
shift_loop-remove_at i [] h = absurd (omega arith)
shift_loop-remove_at zero (x ∷ xs) h =
    let e : suc (length xs) - 1 ≡ length xs = omega arith in rw e (shift_loop_head x xs)
shift_loop-remove_at (suc i) (x ∷ []) h = absurd (omega arith)
shift_loop-remove_at (suc i) (x ∷ y ∷ ys) h =
    let e : suc (suc (length ys)) - 1 ≡ suc (length ys) = omega arith in
    let r : suc (suc (length ys)) - (suc i + 1) ≡ suc (length ys) - (i + 1) = omega arith in
    let d : suc (length ys) - 1 ≡ length ys = omega arith in
    let ih = shift_loop-remove_at i (y ∷ ys) (omega arith) in
    rw (e, r, shift_loop-cons) (ap (◌∷◌ x) (rw d at ih))
