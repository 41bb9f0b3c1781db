-- ===== src/Alloc/Freed.antt =====
-- `release` of hw3/mm_alloc.c, and the blocks in use behind it.
use os_assignments.Base.{
  ℕ, ◌+◌, ◌≡◌, ◌≢◌, ◌↔◌, sym, true, false, List, ◌∷◌, ◌++◌, arith, ◌⊎◌, inl, inr, ◌==◌,
}
use os_assignments.Alloc.State.{SBlock, Heap, block_size, done, load, store}
use os_assignments.Alloc.Ops.{fusion, mm_free, release}
use os_assignments.Alloc.Blocks.{Holds}
use os_assignments.Alloc.Layout.{Chain-from}
use os_assignments.Alloc.Spots.{
  Live, Spot-either, Spot-front, Spot-behind, Spot-before, Spot-bounds,
}
use os_assignments.Alloc.Live.{Releases}

-- `release` where the block in front is not free, or there is none.
pub release-alone :
    (h H h1 : Heap) (p q : ℕ) (a x : SBlock)
    → load p h ≡ done x h
    → store p (record x { free = 1 }) h ≡ done tt H
    → (x.prev ≡ 0) ⊎ ((x.prev ≢ 0) × (load x.prev H ≡ done a H) × (a.free ≡ 0))
    → fusion p H ≡ done q h1
    → release p h ≡ done tt h1
unfolding release
release-alone h H h1 p q a x loaded stored (inl none_back) run =
    let no_back : (x.prev == 0) ≡ true = ground arith in rw (loaded, stored, no_back, run)
release-alone h H h1 p q a x loaded stored (inr (some_back, loaded_a, used)) run =
    let some_back' : (x.prev == 0) ≡ false = ground arith in
    let in_use : (a.free == 0) ≡ true = ground arith in
    rw (loaded, stored, some_back', loaded_a, in_use, run)

-- The blocks in use but for one, seen as those in front of it and those behind.
pub Live-release :
    (h : Heap) (ys : List SBlock) (x : SBlock) (zs xs' : List SBlock)
    → Holds h (ys ++ (x ∷ zs))
    → ((q k : ℕ) → Live q k xs' ↔ (Live q k ys ⊎ Live q k zs))
    → (q k : ℕ) → Live q k xs' ↔ (Live q k (ys ++ (x ∷ zs)) × (q ≢ x.ptr))
Live-release h ys x zs xs' holds same q k =
    let (back, low, (ne, at_x, own, pr, lowest, rest)) =
      Chain-from h.cell h.brk 0 h.head 0 ys x zs holds in
    (
      λ s. elim ((same q k).0 s) [
        | inl front ↦
            let before = Spot-before q k 0 h.cell h.brk 0 h.head 0 ys x zs holds front in
            (Spot-front q k 0 ys (x ∷ zs) front, λ e. omega arith)
        | inr after ↦
            let (above, under) =
              Spot-bounds q k 0 h.cell h.brk (x.ptr + (block_size + x.size)) x.next x.ptr zs rest
                after in
            (Spot-behind q k 0 ys (x ∷ zs) (inr after), λ e. omega arith)
      ],
      λ (s, off). (same q k).1 (elim (Spot-either q k 0 ys (x ∷ zs) s) [
        | inl front ↦ inl front
        | inr (inl (e, _, _)) ↦ absurd (off (sym e))
        | inr (inr after) ↦ inr after
      ]),
    )

-- A call that gave the block `x` back.
abbrev pub Freed : ℕ → ℕ → Heap → List SBlock → SBlock → Type 0
Freed fuel ptr h xs x =
    (h' : Heap) × (xs' : List SBlock) × (mm_free fuel ptr h ≡ done tt h')
    × Releases h xs x.ptr h' xs'
