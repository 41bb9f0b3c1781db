-- ===== src/Alloc/Cases.antt =====
-- `mm_malloc` of hw3/mm_alloc.c by the block that serves, as its callers see it.
use os_assignments.Base.{
  ℕ, ◌+◌, ◌<◌, ◌≤◌, ◌^◌, ◌≡◌, refl, List, [], ◌∷◌, ◌++◌, arith, inl, inr, length, length-append,
}
use os_assignments.Alloc.State.{SBlock, Heap, block_size, done, put}
use os_assignments.Alloc.Ops.{mm_malloc}
use os_assignments.Alloc.Layout.{relinked, length-relinked}
use os_assignments.Alloc.Splitting.{front_of, rest_of}
use os_assignments.Alloc.Serving.{Unfit, mm_malloc-split, mm_malloc-whole}
use os_assignments.Alloc.Extending.{grown, mm_malloc-extend, mm_malloc-first}
use os_assignments.Alloc.Spots.{Spot-bounds, Settled-change}
use os_assignments.Alloc.Allocating.{
  Live-split, Settled-split, Live-whole, Settled-whole, Live-extend,
}
use os_assignments.Alloc.Live.{IsHeap, Allocates, Keeps-beside, fresh-beside}

-- A call that returned a block.
abbrev pub Served : ℕ → ℕ → Heap → List SBlock → Type 0
Served fuel n h xs =
    (h' : Heap) × (xs' : List SBlock) × (p : ℕ) × (m : ℕ) × (mm_malloc fuel n h
      ≡ done (p + block_size) h')
    × Allocates h xs n h' xs' p m

module _ (fuel n : ℕ) (h : Heap) where
  pub serve_split :
      (ys : List SBlock) (b : SBlock) (zs : List SBlock)
      → IsHeap h (ys ++ (b ∷ zs))
      → Unfit n ys
      → b.free ≡ 1
      → n + block_size < b.size
      → length (ys ++ (b ∷ zs)) < fuel
      → Served fuel n h (ys ++ (b ∷ zs))
  serve_split ys b zs i unfit is_free big f =
      let (h', run, holds, zeros, same, brk, limit) =
        mm_malloc-split fuel n ys b zs h i.holds unfit is_free big (omega arith) f in
      let new = b.ptr + n + block_size in
      (
        h',
        ys ++ (front_of n b ∷ rest_of n b ∷ relinked new zs),
        b.ptr,
        n,
        run,
        record {
          heap = record {
            holds = holds;
            settled = Settled-split n ys b zs is_free i.settled;
            below = omega arith;
            bounded = omega arith;
            positive = omega arith;
          };
          enough = omega arith;
          near = omega arith;
          fresh = λ k. fresh-beside h h' ys b zs k i.holds (λ e. absurd (omega arith));
          live = Live-split n ys b zs is_free;
          keeps = λ q k. Keeps-beside h h' ys b zs q k i.holds (λ e. absurd (omega arith)) same;
          count = omega (
            arith,
            length-append ys (front_of n b ∷ rest_of n b ∷ relinked new zs),
            length-append ys (b ∷ zs),
            length-relinked new zs,
          );
        },
      )

  pub serve_whole :
      (ys : List SBlock) (b : SBlock) (zs : List SBlock)
      → IsHeap h (ys ++ (b ∷ zs))
      → Unfit n ys
      → b.free ≡ 1
      → b.size ≡ n + block_size
      → length (ys ++ (b ∷ zs)) < fuel
      → Served fuel n h (ys ++ (b ∷ zs))
  serve_whole ys b zs i unfit is_free whole f =
      let (run, holds) =
        mm_malloc-whole fuel n ys b zs h i.holds unfit is_free whole (omega arith) f in
      (
        record h { cell = put h.cell b.ptr (record b { free = 0 }) },
        ys ++ (record b { free = 0 } ∷ zs),
        b.ptr,
        b.size,
        run,
        record {
          heap = record {
            holds = holds;
            settled = Settled-whole n ys b zs is_free i.settled;
            below = i.below;
            bounded = i.bounded;
            positive = i.positive;
          };
          enough = omega arith;
          near = omega arith;
          fresh = λ k. fresh-beside h h ys b zs k i.holds (λ e. absurd (omega arith));
          live = Live-whole n ys b zs is_free;
          keeps = λ q k s a above under. refl;
          count =
              omega
                (arith, length-append ys (record b { free = 0 } ∷ zs), length-append ys (b ∷ zs));
        },
      )

  pub serve_extend :
      (ys : List SBlock) (l : SBlock)
      → IsHeap h (ys ++ (l ∷ []))
      → Unfit n (ys ++ (l ∷ []))
      → n + block_size < 2 ^ 63
      → h.brk + (n + block_size) ≤ h.limit
      → length (ys ++ (l ∷ [])) < fuel
      → Served fuel n h (ys ++ (l ∷ []))
  serve_extend ys l i unfit w room f =
      let (h', run, holds, zeros, same, brk, limit) =
        mm_malloc-extend fuel n ys l h i.holds unfit w room (omega arith) f in
      (
        h',
        ys ++ (record l { next = h.brk } ∷ grown h.brk n l.ptr ∷ []),
        h.brk,
        n,
        run,
        record {
          heap = record {
            holds = holds;
            settled =
                Settled-change 0 ys (l ∷ []) (record l { next = h.brk } ∷ grown h.brk n l.ptr ∷ [])
                  (λ g (here, more). (here, (inl refl, tt))) i.settled;
            below = omega arith;
            bounded = omega arith;
            positive = omega arith;
          };
          enough = omega arith;
          near = omega arith;
          fresh = λ k s.
              let (above, under) =
                Spot-bounds h.brk k 0 h.cell h.brk 0 h.head 0 (ys ++ (l ∷ [])) i.holds s in
              omega arith;
          live = λ q k. Live-extend n h.brk q k ys l;
          keeps = λ q k s a above under.
              let (above', under') =
                Spot-bounds q k 0 h.cell h.brk 0 h.head 0 (ys ++ (l ∷ [])) i.holds s in
              same a (omega arith);
          count = omega (
            arith,
            length-append ys (record l { next = h.brk } ∷ grown h.brk n l.ptr ∷ []),
            length-append ys (l ∷ []),
          );
        },
      )

  pub serve_first :
      IsHeap h []
      → n + block_size < 2 ^ 63
      → h.brk + (n + block_size) ≤ h.limit
      → Served fuel n h []
  serve_first i w room =
      let (h', run, holds, brk, limit) =
        mm_malloc-first fuel n h i.holds w room (omega arith) i.positive in
      (
        h',
        grown h.brk n 0 ∷ [],
        h.brk,
        n,
        run,
        record {
          heap = record {
            holds = holds;
            settled = (inl refl, tt);
            below = omega arith;
            bounded = omega arith;
            positive = omega arith;
          };
          enough = omega arith;
          near = omega arith;
          fresh = λ k s. s;
          live = λ q k. (
            λ s. elim s [
              | inl (e, e', _) ↦ inr (omega arith, omega arith)
              | inr impossible ↦ absurd impossible
            ],
            λ s. elim s [
              | inl impossible ↦ absurd impossible
              | inr (e, e') ↦ inl (omega arith, omega arith, refl)
            ],
          );
          keeps = λ q k s. absurd s;
          count = omega arith;
        },
      )
