-- ===== src/Alloc/Settling.antt =====
-- `fusion` of hw3/mm_alloc.c on a free block, whatever comes behind it.
use os_assignments.Base.{
  ℕ, ◌+◌, ◌<◌, ◌≤◌, ◌≡◌, ◌↔◌, refl, sym, subst, true, false, List, [], ◌∷◌, ◌++◌, arith, inl, inr,
  length, ◌==◌,
}
use os_assignments.Alloc.State.{SBlock, Heap, block_size, word, done}
use os_assignments.Alloc.Ops.{fusion}
use os_assignments.Alloc.Blocks.{Holds, load-at}
use os_assignments.Alloc.Layout.{Chain-from, relinked, length-relinked}
use os_assignments.Alloc.Joining.{joined, fusion-join}
use os_assignments.Alloc.Spots.{
  Live, Spot-relinked, relinked-Spot, Spot-bounds, Spot-place, Settled, Settled-relinked,
}
use os_assignments.Alloc.Live.{Keeps}

-- `fusion` of `a` came to these blocks in its place.
abbrev pub Settles : Heap → List SBlock → SBlock → List SBlock → Type 0
Settles h ys a zs =
    (h' : Heap) × (ws : List SBlock) × (fusion a.ptr h ≡ done a.ptr h')
    × Holds h' (ys ++ ws)
    × Settled 0 ws
    × ((q k : ℕ) → Live q k ws ↔ Live q k zs)
    × ((q k : ℕ) → Live q k (ys ++ (a ∷ zs)) → Keeps h h' q k)
    × (length ws ≤ length zs + 1)
    × (h'.brk ≡ h.brk)
    × (h'.limit ≡ h.limit)

-- Nothing free comes behind the block.
abbrev pub UsedHead : List SBlock → Type 0
UsedHead [] = Unit
UsedHead (b ∷ zs) = b.free ≡ 0

pub fusion-stay :
    (ys : List SBlock) (a : SBlock) (zs : List SBlock) (h : Heap)
    → Holds h (ys ++ (a ∷ zs))
    → UsedHead zs
    → fusion a.ptr h ≡ done a.ptr h
unfolding fusion
fusion-stay ys a [] h holds used =
    let (back, low, (ne, at_a, own, pr, lowest, (stop, below))) =
      Chain-from h.cell h.brk 0 h.head 0 ys a [] holds in
    let some_start : (a.ptr == 0) ≡ false = ground arith in
    let last : (a.next == 0) ≡ true = ground arith in
    rw (some_start, load-at h a.ptr a ne at_a, last)
fusion-stay ys a (b ∷ zs) h holds used =
    let (back, low, (ne, at_a, own, pr, lowest, (ne', at_b, own', pr', low', rest))) =
      Chain-from h.cell h.brk 0 h.head 0 ys a (b ∷ zs) holds in
    let some_start : (a.ptr == 0) ≡ false = ground arith in
    let inner : (a.next == 0) ≡ false = ground arith in
    let in_use : (b.free == 0) ≡ true = ground arith in
    rw (some_start, load-at h a.ptr a ne at_a, inner, load-at h a.next b ne' at_b, in_use)

settle_stay :
    (ys : List SBlock) (a : SBlock) (zs : List SBlock) (h : Heap)
    → Holds h (ys ++ (a ∷ zs))
    → a.free ≡ 1
    → Settled 0 zs
    → UsedHead zs
    → Settled 1 zs
    → Settles h ys a zs
settle_stay ys a zs h holds is_free settled used settled' = (
  h,
  a ∷ zs,
  fusion-stay ys a zs h holds used,
  holds,
  (inr (is_free, refl), subst (λ (f : ℕ). Settled f zs) (sym is_free) settled'),
  λ q k. (λ s. elim s [ inl (_, _, used') ↦ absurd (omega arith) | inr after ↦ after ], λ s. inr s),
  λ q k s i above under. refl,
  omega arith,
  refl,
  refl,
)

settle_join :
    (ys : List SBlock) (a b : SBlock) (zs : List SBlock) (h : Heap)
    → Holds h (ys ++ (a ∷ b ∷ zs))
    → h.brk < word
    → a.free ≡ 1
    → b.free ≡ 1
    → Settled 1 zs
    → Settles h ys a (b ∷ zs)
settle_join ys a b zs h holds w is_free is_free' settled =
    let (h', run, held, zeros, same, brk, limit) =
      fusion-join ys a b zs h holds (λ e. absurd (omega arith)) w in
    let (back, low, (ne, at_a, own, pr, lowest, (ne', at_b, own', pr', low', rest))) =
      Chain-from h.cell h.brk 0 h.head 0 ys a (b ∷ zs) holds in
    (
      h',
      joined a b ∷ relinked a.ptr zs,
      run,
      held,
      (
        inr (is_free, refl),
        Settled-relinked a.free a.ptr zs (subst (λ (f : ℕ). Settled f zs) (sym is_free) settled),
      ),
      λ q k. (
        λ s. elim s [
          | inl (_, _, used) ↦ absurd (omega arith)
          | inr after ↦ inr (relinked-Spot q k 0 a.ptr zs after)
        ],
        λ s. elim s [
          | inl (_, _, used) ↦ absurd (omega arith)
          | inr after ↦ inr (Spot-relinked q k 0 a.ptr zs after)
        ],
      ),
      λ q k s. elim (Spot-place q k 0 h.cell h.brk 0 h.head 0 ys a (b ∷ zs) holds s) [
        | inl before ↦ λ i above under. same i (inl (omega arith))
        | inr (inl (_, _, used)) ↦ absurd (omega arith)
        | inr (inr (inl (_, _, used))) ↦ absurd (omega arith)
        | inr (inr (inr after)) ↦
            let (above', under') =
              Spot-bounds q k 0 h.cell h.brk (a.next + (block_size + b.size)) b.next a.next zs rest
                after in
            λ i above under. same i (inr (omega arith))
      ],
      omega (arith, length-relinked a.ptr zs),
      brk,
      limit,
    )

-- A free block in front of settled ones is fused with the next one if that is free.
pub settle :
    (ys : List SBlock) (a : SBlock) (zs : List SBlock) (h : Heap)
    → Holds h (ys ++ (a ∷ zs))
    → h.brk < word
    → a.free ≡ 1
    → Settled 0 zs
    → Settles h ys a zs
settle ys a [] h holds w is_free s = settle_stay ys a [] h holds is_free tt tt tt
settle ys a (b ∷ zs) h holds w is_free (inl used, s) =
    settle_stay ys a (b ∷ zs) h holds is_free (inl used, s) used (inl used, s)
settle ys a (b ∷ zs) h holds w is_free (inr (is_free', _), s) =
    settle_join ys a b zs h holds w is_free is_free' (subst (λ (f : ℕ). Settled f zs) is_free' s)
