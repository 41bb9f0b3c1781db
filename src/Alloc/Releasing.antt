-- ===== src/Alloc/Releasing.antt =====
-- `mm_free` of hw3/mm_alloc.c by the neighbours of the block.
use os_assignments.Base.{
  ℕ, ◌+◌, ◌<◌, ◌≤◌, ◌≡◌, ◌≢◌, ◌↔◌, refl, sym, subst, List, [], ◌∷◌, ◌++◌, arith, ◌⊎◌, ◌∙◌, inl, inr,
  length, length-append,
}
use os_assignments.Alloc.State.{SBlock, Heap, block_size, done, load, put}
use os_assignments.Alloc.Ops.{fusion, get_block}
use os_assignments.Alloc.Blocks.{Holds, load-at}
use os_assignments.Alloc.Layout.{Chain-from, Chain-marked, relinked, length-relinked}
use os_assignments.Alloc.Joining.{joined, fusion-join}
use os_assignments.Alloc.Freeing.{append-shift, mm_free-release, store-put, release-join}
use os_assignments.Alloc.Spots.{
  Live, Spot-either, Spot-front, Spot-behind, Spot-before, Spot-keep, Spot-relinked, relinked-Spot,
  Spot-bounds, Settled, Settled-used, Settled-relinked, Settled-from, Settled-behind, Settled-last,
}
use os_assignments.Alloc.Live.{IsHeap}
use os_assignments.Alloc.Settling.{settle}
use os_assignments.Alloc.Freed.{release-alone, Live-release, Freed}

module _ (fuel ptr : ℕ) (h : Heap) (x : SBlock) (zs : List SBlock) (at_ptr : get_block ptr ≡ x.ptr)
    (used : x.free ≡ 0) where
  abbrev marked : SBlock
  marked = record x { free = 1 }

  abbrev marked_heap : Heap
  marked_heap = record h { cell = put h.cell x.ptr marked }

  Live-marked :
      (ys : List SBlock) (q k : ℕ)
      → q ≢ x.ptr
      → Live q k (ys ++ (x ∷ zs))
      → Live q k (ys ++ (marked ∷ zs))
  Live-marked ys q k off =
      Spot-keep q k 0 ys (x ∷ zs) (marked ∷ zs)
        (λ s. elim s [ inl (e, _, _) ↦ absurd (off (sym e)) | inr after ↦ inr after ])

  -- With nothing to fuse in front of `x`.
  free_alone :
      (ys : List SBlock) (a : SBlock)
      → IsHeap h (ys ++ (x ∷ zs))
      → length (ys ++ (x ∷ zs)) < fuel
      → (x.prev ≡ 0)
        ⊎ ((x.prev ≢ 0) × (load x.prev marked_heap ≡ done a marked_heap) × (a.free ≡ 0))
      → ((ws : List SBlock) → Settled 0 ws → Settled 0 (ys ++ ws))
      → Freed fuel ptr h (ys ++ (x ∷ zs)) x
  free_alone ys a i f front settle_front =
      let held = Chain-marked h.cell h.brk 0 h.head 0 ys x zs 1 i.holds in
      let settled = Settled-used x.free zs (Settled-from 0 ys x zs i.settled) in
      let (h', ws, run, held', settled', live, keeps, count, brk, limit) =
        settle ys marked zs marked_heap held (omega arith) refl settled in
      let (back, low, (ne, at_x, own, pr, lowest, rest)) =
        Chain-from h.cell h.brk 0 h.head 0 ys x zs i.holds in
      (
        h',
        ys ++ ws,
        mm_free-release fuel ptr ys x zs h i.holds at_ptr (omega arith) f
            ∙ release-alone h marked_heap h' x.ptr x.ptr a x (load-at h x.ptr x ne at_x)
                (store-put h x.ptr marked) front run,
        record {
          heap = record {
            holds = held';
            settled = settle_front ws settled';
            below = omega arith;
            bounded = omega arith;
            positive = omega arith;
          };
          live = Live-release h ys x zs (ys ++ ws) i.holds (λ q k. (
            λ s. elim (Spot-either q k 0 ys ws s) [
              | inl s' ↦ inl s'
              | inr s' ↦ inr ((live q k).0 s')
            ],
            λ s. elim s [
              | inl s' ↦ Spot-front q k 0 ys ws s'
              | inr s' ↦ Spot-behind q k 0 ys ws ((live q k).1 s')
            ],
          ));
          keeps = λ q k s off. keeps q k (Live-marked ys q k off s);
          count = omega (arith, count, length-append ys ws, length-append ys (x ∷ zs));
        },
      )

  pub free_first : IsHeap h (x ∷ zs) → length (x ∷ zs) < fuel → Freed fuel ptr h (x ∷ zs) x
  free_first i f =
      let (ne, at_x, own, pr, lowest, rest) = i.holds in free_alone [] x i f (inl pr) (λ ws s. s)

  -- The marked heap's list with the block in front of `x` set apart.
  Holds-marked :
      (ys : List SBlock) (a : SBlock)
      → Holds h ((ys ++ (a ∷ [])) ++ (x ∷ zs))
      → Holds marked_heap (ys ++ (a ∷ marked ∷ zs))
  Holds-marked ys a holds =
      subst (Holds marked_heap) (append-shift ys a (marked ∷ zs))
        (Chain-marked h.cell h.brk 0 h.head 0 (ys ++ (a ∷ [])) x zs 1 holds)

  load-front :
      (ys : List SBlock) (a : SBlock)
      → Holds h ((ys ++ (a ∷ [])) ++ (x ∷ zs))
      → (x.prev ≡ a.ptr) × (a.ptr ≢ 0) × (load a.ptr marked_heap ≡ done a marked_heap)
  load-front ys a holds =
      let (back, low, (ne, at_a, own, pr, lowest, (ne', at_x, own', pr', low', rest))) =
        Chain-from marked_heap.cell h.brk 0 h.head 0 ys a (marked ∷ zs) (Holds-marked ys a holds) in
      (pr', ne, load-at marked_heap a.ptr a ne at_a)

  pub free_behind_used :
      (ys : List SBlock) (a : SBlock)
      → a.free ≡ 0
      → IsHeap h ((ys ++ (a ∷ [])) ++ (x ∷ zs))
      → length ((ys ++ (a ∷ [])) ++ (x ∷ zs)) < fuel
      → Freed fuel ptr h ((ys ++ (a ∷ [])) ++ (x ∷ zs)) x
  free_behind_used ys a in_use i f =
      let (pr, ne, loaded) = load-front ys a i.holds in
      free_alone (ys ++ (a ∷ [])) a i f
        (inr (
          subst (λ (q : ℕ). q ≢ 0) (sym pr) ne,
          subst (λ (q : ℕ). load q marked_heap ≡ done a marked_heap) (sym pr) loaded,
          in_use,
        ))
        (λ ws s. Settled-behind 0 ys a (x ∷ zs) ws in_use i.settled s)

  Live-front :
      (ys : List SBlock) (a : SBlock) (q k : ℕ)
      → a.free ≡ 1
      → Live q k (ys ++ (a ∷ [])) ↔ Live q k ys
  Live-front ys a q k is_free = (
    λ s. elim (Spot-either q k 0 ys (a ∷ []) s) [
      | inl s' ↦ s'
      | inr (inl (_, _, in_use)) ↦ absurd (omega arith)
      | inr (inr impossible) ↦ absurd impossible
    ],
    Spot-front q k 0 ys (a ∷ []),
  )

  -- A block in use other than `x` stands in front of the free block `a` or behind `x`.
  Live-sides :
      (ys : List SBlock) (a : SBlock) (q k : ℕ)
      → a.free ≡ 1
      → Holds h ((ys ++ (a ∷ [])) ++ (x ∷ zs))
      → q ≢ x.ptr
      → Live q k ((ys ++ (a ∷ [])) ++ (x ∷ zs))
      → (Live q k ys × (q + (block_size + k) ≤ a.ptr))
        ⊎ (Live q k zs × (x.ptr + (block_size + x.size) ≤ q))
  Live-sides ys a q k is_free holds off s =
      let us = ys ++ (a ∷ []) in
      let (back, low, (ne', at_x, own, pr', lowest, rest)) =
        Chain-from h.cell h.brk 0 h.head 0 us x zs holds in
      elim (Spot-either q k 0 us (x ∷ zs) s) [
        | inl s' ↦
            let front = (Live-front ys a q k is_free).0 s' in
            inl (
              front,
              Spot-before q k 0 marked_heap.cell h.brk 0 h.head 0 ys a (marked ∷ zs)
                  (Holds-marked ys a holds) front,
            )
        | inr (inl (e, _, _)) ↦ absurd (off (sym e))
        | inr (inr after) ↦ inr (
          after,
          (Spot-bounds q k 0 h.cell h.brk (x.ptr + (block_size + x.size)) x.next x.ptr zs rest
              after).0,
        )
      ]

  pub free_behind_free :
      (ys : List SBlock) (a : SBlock)
      → a.free ≡ 1
      → IsHeap h ((ys ++ (a ∷ [])) ++ (x ∷ zs))
      → length ((ys ++ (a ∷ [])) ++ (x ∷ zs)) < fuel
      → Freed fuel ptr h ((ys ++ (a ∷ [])) ++ (x ∷ zs)) x
  free_behind_free ys a is_free i f =
      let us = ys ++ (a ∷ []) in
      let H = marked_heap in
      let held = Holds-marked ys a i.holds in
      let (pr, ne, loaded) = load-front ys a i.holds in
      let (h1, run1, held1, zeros1, same1, brk1, limit1) =
        fusion-join ys a marked zs H held (λ e. absurd (omega arith)) (omega arith) in
      let settled = Settled-used x.free zs (Settled-from 0 us x zs i.settled) in
      let (h2, ws, run2, held2, settled2, live, keeps, count, brk2, limit2) =
        settle ys (joined a marked) (relinked a.ptr zs) h1 held1 (omega arith) is_free
          (Settled-relinked 0 a.ptr zs settled) in
      let (back, low, (ne', at_x, own, pr', lowest, rest)) =
        Chain-from h.cell h.brk 0 h.head 0 us x zs i.holds in
      (
        h2,
        ys ++ ws,
        mm_free-release fuel ptr us x zs h i.holds at_ptr (omega arith) f
            ∙ release-join h H h1 h2 x.ptr a x (load-at h x.ptr x ne' at_x)
                (store-put h x.ptr marked) (subst (λ (q : ℕ). q ≢ 0) (sym pr) ne)
                (subst (λ (q : ℕ). load q H ≡ done a H) (sym pr) loaded) (λ e. absurd (omega arith))
                (subst (λ (q : ℕ). fusion q H ≡ done q h1) (sym pr) run1)
                (subst (λ (q : ℕ). fusion q h1 ≡ done q h2) (sym pr) run2),
        record {
          heap = record {
            holds = held2;
            settled = Settled-last 0 ys a (x ∷ zs) ws is_free i.settled settled2;
            below = omega arith;
            bounded = omega arith;
            positive = omega arith;
          };
          live = Live-release h us x zs (ys ++ ws) i.holds (λ q k. (
            λ s. elim (Spot-either q k 0 ys ws s) [
              | inl s' ↦ inl ((Live-front ys a q k is_free).1 s')
              | inr s' ↦ inr (relinked-Spot q k 0 a.ptr zs ((live q k).0 s'))
            ],
            λ s. elim s [
              | inl s' ↦ Spot-front q k 0 ys ws ((Live-front ys a q k is_free).0 s')
              | inr s' ↦ Spot-behind q k 0 ys ws ((live q k).1 (Spot-relinked q k 0 a.ptr zs s'))
            ],
          ));
          keeps = λ q k s off. elim (Live-sides ys a q k is_free i.holds off s) [
            | inl (front, before) ↦
                let kept =
                  keeps q k (Spot-front q k 0 ys (joined a marked ∷ relinked a.ptr zs) front) in
                λ j above under. kept j above under ∙ same1 j (inl (omega arith))
            | inr (after, beyond) ↦
                let kept = keeps q k (
                  Spot-behind q k 0 ys (joined a marked ∷ relinked a.ptr zs)
                    (inr (Spot-relinked q k 0 a.ptr zs after))) in
                λ j above under. kept j above under ∙ same1 j (inr (omega arith))
          ];
          count = omega (
            arith,
            count,
            length-append ys ws,
            length-append ys (a ∷ []),
            length-append us (x ∷ zs),
            length-relinked a.ptr zs,
          );
        },
      )
