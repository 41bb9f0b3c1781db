-- ===== src/Alloc/Live.antt =====
-- What the heap of hw3/mm_alloc.c promises its callers: blocks in use keep their place and bytes.
use os_assignments.Base.{
  ℕ, ◌+◌, ◌<◌, ◌≤◌, ◌^◌, ◌≡◌, ◌≢◌, ◌↔◌, List, ◌∷◌, ◌++◌, arith, ◌⊎◌, inl, inr, length,
}
use os_assignments.Alloc.State.{SBlock, Heap, block_size}
use os_assignments.Alloc.Blocks.{Holds}
use os_assignments.Alloc.Layout.{Chain-from}
use os_assignments.Alloc.Spots.{Live, Spot-bounds, Spot-place, Settled}

-- A heap with these blocks, no two neighbours of which are free; addresses stay below 2 ^ 63, and
-- the break is not at NULL.
pub record IsHeap (h : Heap) (xs : List SBlock) : Type 0 where
  pub holds : Holds h xs
  pub settled : Settled 0 xs
  pub below : h.brk ≤ h.limit
  pub bounded : h.limit < 2 ^ 63
  pub positive : 0 < h.brk

-- The data bytes of the block at `q` are the same in both heaps.
abbrev pub Keeps : Heap → Heap → ℕ → ℕ → Type 0
Keeps h h' q m = (a : ℕ) → q + block_size ≤ a → a < q + (block_size + m) → h'.byte a ≡ h.byte a

-- A call for `n` bytes that took the block at `p`, of `m` bytes, at most a header more: it was in
-- no use, and is now; the blocks in use are the old ones and this one; the old ones keep their
-- bytes.
pub record Allocates (h : Heap) (xs : List SBlock) (n : ℕ) (h' : Heap) (xs' : List SBlock) (p m : ℕ)
    : Type 0 where
  pub heap : IsHeap h' xs'
  pub enough : n ≤ m
  pub near : m ≤ n + block_size
  pub fresh : (k : ℕ) → Live p k xs → ⊥
  pub live : (q k : ℕ) → Live q k xs' ↔ (Live q k xs ⊎ ((q ≡ p) × (k ≡ m)))
  pub keeps : (q k : ℕ) → Live q k xs → Keeps h h' q k
  pub count : length xs' ≤ length xs + 1

-- A call that gave the block at `p` back: the blocks in use are the other old ones, and they keep
-- their bytes.
pub record Releases (h : Heap) (xs : List SBlock) (p : ℕ) (h' : Heap) (xs' : List SBlock)
    : Type 0 where
  pub heap : IsHeap h' xs'
  pub live : (q k : ℕ) → Live q k xs' ↔ (Live q k xs × (q ≢ p))
  pub keeps : (q k : ℕ) → Live q k xs → q ≢ p → Keeps h h' q k
  pub count : length xs' ≤ length xs

-- No byte outside of the addresses from `lo` to `hi` has changed.
abbrev pub Outside : Heap → Heap → ℕ → ℕ → Type 0
Outside h h' lo hi = (a : ℕ) → (a < lo) ⊎ (hi ≤ a) → h'.byte a ≡ h.byte a

module _ (h h' : Heap) (ys : List SBlock) (b : SBlock) (zs : List SBlock) where
  -- A block in use shares no byte with a free one.
  pub Live-beside :
      (q k : ℕ)
      → Holds h (ys ++ (b ∷ zs))
      → b.free ≢ 0
      → Live q k (ys ++ (b ∷ zs))
      → (q + (block_size + k) ≤ b.ptr) ⊎ (b.ptr + (block_size + b.size) ≤ q)
  Live-beside q k holds is_free s =
      elim (Spot-place q k 0 h.cell h.brk 0 h.head 0 ys b zs holds s) [
        | inl before ↦ inl before
        | inr (inl (_, _, used)) ↦ absurd (is_free used)
        | inr (inr after) ↦
            let (back, low, (ne, at_b, own, pr, lowest, rest)) =
              Chain-from h.cell h.brk 0 h.head 0 ys b zs holds in
            inr
              (Spot-bounds q k 0 h.cell h.brk (b.ptr + (block_size + b.size)) b.next b.ptr zs rest
                after).0
      ]

  pub Keeps-beside :
      (q k : ℕ)
      → Holds h (ys ++ (b ∷ zs))
      → b.free ≢ 0
      → Outside h h' b.ptr (b.ptr + (block_size + b.size))
      → Live q k (ys ++ (b ∷ zs))
      → Keeps h h' q k
  Keeps-beside q k holds is_free same s = elim (Live-beside q k holds is_free s) [
    | inl before ↦ λ a above under. same a (inl (omega arith))
    | inr after ↦ λ a above under. same a (inr (omega arith))
  ]

  pub fresh-beside :
      (k : ℕ) → Holds h (ys ++ (b ∷ zs)) → b.free ≢ 0 → Live b.ptr k (ys ++ (b ∷ zs)) → ⊥
  fresh-beside k holds is_free s = elim (Live-beside b.ptr k holds is_free s) [
    | inl before ↦ omega arith
    | inr after ↦ omega arith
  ]
