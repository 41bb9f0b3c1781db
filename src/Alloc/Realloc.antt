-- ===== src/Alloc/Realloc.antt =====
-- `mm_realloc` of hw3/mm_alloc.c as its callers see it.
use os_assignments.Base.{ℕ, ◌+◌, ◌<◌, ◌≤◌, ◌^◌, ◌≡◌, sym, subst, List, arith, ◌⊎◌, inl, inr, length}
use os_assignments.Alloc.State.{SBlock, Heap, block_size, done, load}
use os_assignments.Alloc.Ops.{mm_free, mm_realloc, get_block, data_of}
use os_assignments.Alloc.Blocks.{load-at}
use os_assignments.Alloc.Serving.{Unfit}
use os_assignments.Alloc.Spots.{Live, Spot-bounds}
use os_assignments.Alloc.Live.{IsHeap}
use os_assignments.Alloc.Cases.{Served}
use os_assignments.Alloc.Serves.{mm_malloc-Allocates}
use os_assignments.Alloc.Frees.{free_at}
use os_assignments.Alloc.Moving.{
  Moves, copied, h2, h2-IsHeap, old-Live, Moves-released, Spot-cell, mm_realloc-steps,
}

-- A call that returned a block in the place of the one at `p`.
abbrev pub Moved : ℕ → ℕ → Heap → List SBlock → ℕ → ℕ → Type 0
Moved fuel n h xs p m =
    (h' : Heap) × (xs' : List SBlock) × (p' : ℕ) × (m' : ℕ) × (mm_realloc fuel (p + block_size) n h
      ≡ done (p' + block_size) h')
    × (n ≤ m')
    × (m' ≤ n + block_size)
    × Moves h xs p m h' xs' p' m'

move :
    (fuel n p m : ℕ) (xs : List SBlock) (h : Heap)
    → IsHeap h xs
    → Live p m xs
    → m ≤ n
    → length xs + 1 < fuel
    → Served fuel n h xs
    → Moved fuel n h xs p m
move fuel n p m xs h i live le f (h1, xs1, p', m', run, a) =
    let (above, under) = Spot-bounds p m 0 h.cell h.brk 0 h.head 0 xs i.holds live in
    let at_ptr : get_block (p + block_size) ≡ p = omega arith in
    let live1 = old-Live h h1 xs xs1 n p m p' m' live le a in
    let i1 = a.heap in
    let (x, ne, cell, size) = Spot-cell p m 0 h1.cell h1.brk 0 h1.head 0 xs1 i1.holds live1 in
    let (h3, xs3, freed, r) =
      free_at fuel (p + block_size) p m xs1 (h2 h h1 xs xs1 n p m p' m' live le a) at_ptr
        (h2-IsHeap h h1 xs xs1 n p m p' m' live le a) live1 (omega (arith, a.count)) in
    (
      h3,
      xs3,
      p',
      m',
      mm_realloc-steps fuel (p + block_size) n p' x h h1 h3 run
          (subst (λ (q : ℕ). load q h1 ≡ done x h1) (sym at_ptr) (load-at h1 p x ne cell))
          (subst
            (λ (q : ℕ).
              mm_free fuel (p + block_size) (copied (p' + block_size) (data_of q) x.size h1)
              ≡ done tt h3)
            (sym at_ptr)
            (subst
              (λ (k : ℕ).
                mm_free fuel (p + block_size) (copied (p' + block_size) (data_of p) k h1)
                ≡ done tt h3)
              (sym size) freed)),
      a.enough,
      a.near,
      Moves-released h h1 xs xs1 n p m p' m' live le a h3 xs3 r,
    )

-- In a well-formed heap, `mm_realloc` of a block in use to a size in range that is no smaller than
-- it returns a block in its place, of as many bytes as asked for or up to 40 more, that has the old
-- one's bytes in front; the other blocks in use are the old ones, with their bytes. Or no free block
-- serves and the break cannot grow; then nothing is said of the call.
pub mm_realloc-Moves :
    (fuel n p m : ℕ) (xs : List SBlock) (h : Heap)
    → IsHeap h xs
    → Live p m xs
    → m ≤ n
    → n + block_size < 2 ^ 63
    → length xs + 1 < fuel
    → Moved fuel n h xs p m ⊎ (Unfit n xs × (h.limit < h.brk + (n + block_size)))
mm_realloc-Moves fuel n p m xs h i live le w f =
    elim (mm_malloc-Allocates fuel n h xs i w (omega arith)) [
      | inl served ↦ inl (move fuel n p m xs h i live le f served)
      | inr (_, unfit, full) ↦ inr (unfit, full)
    ]
