-- ===== src/Alloc/Joining.antt =====
-- `fusion` of hw3/mm_alloc.c on a block with a free one behind it.
use os_assignments.Base.{
  ℕ, ◌+◌, ◌<◌, ◌≤◌, ◌≡◌, ◌≢◌, refl, sym, subst, Option, some, List, [], ◌∷◌, ◌++◌, arith, ◌∙◌,
  false, ◌==◌, ◌⊎◌,
}
use os_assignments.Alloc.State.{
  store, memset_zero, SBlock, Heap, block_size, word, done, put, add64,
}
use os_assignments.Alloc.Ops.{fusion, fuse_next}
use os_assignments.Alloc.Blocks.{Chain, load-at, Holds}
use os_assignments.Alloc.Splitting.{wiped, zeroed}
use os_assignments.Alloc.Layout.{Chain-from, Chain-below, Chain-relinked, relinked}

-- The one block of two.
abbrev pub joined : SBlock → SBlock → SBlock
joined a b = record a { size = a.size + b.size + block_size; next = b.next }

-- The heap behind the fusion, where `cell` has the first header changed and the third one linked.
abbrev pub fused : Heap → SBlock → SBlock → (ℕ → Option SBlock) → Heap
fused h a b cell = record h {
  cell = wiped (a.ptr + block_size) (a.size + b.size + block_size) cell;
  byte = zeroed (a.ptr + block_size) (a.size + b.size + block_size) h.byte;
}

-- The change of the headers, as far as the list reads them.
pub record JoinAt (cell cell' : ℕ → Option SBlock) (a b : SBlock) : Type 0 where
  pub whole : cell' a.ptr ≡ some (joined a b)
  pub before : (q : ℕ) → q + block_size ≤ a.ptr → cell' q ≡ cell q
  pub after : (q : ℕ) → b.ptr + (block_size + b.size) ≤ q → q ≢ b.next → cell' q ≡ cell q
  pub third :
      (t : SBlock)
      → b.next ≢ 0
      → cell b.next ≡ some t
      → cell' b.next ≡ some (record t { prev = a.ptr })

Chain-join :
    (cell cell' : ℕ → Option SBlock) (top lo p back : ℕ) (ys : List SBlock) (a b : SBlock)
    (zs : List SBlock)
    → JoinAt cell cell' a b
    → Chain cell top lo p back (ys ++ (a ∷ b ∷ zs))
    → Chain cell' top lo p back (ys ++ (joined a b ∷ relinked a.ptr zs))
Chain-join cell cell' top lo p back [] a b zs c
      (ne, at_p, own, pr, low, (ne', at_b, own', pr', low', rest)) =
    (
      ne,
      subst (λ (q : ℕ). cell' q ≡ some (joined a b)) own c.whole,
      own,
      pr,
      low,
      subst
          (λ (q : ℕ).
            Chain cell' top (p + (block_size + (a.size + b.size + block_size))) b.next q
              (relinked a.ptr zs))
          own
          (Chain-relinked cell cell' top (b.ptr + (block_size + b.size)) b.next a.next
            (p + (block_size + (a.size + b.size + block_size))) a.ptr zs (omega arith) c.after
            c.third
            (subst (λ (q : ℕ). Chain cell top (q + (block_size + b.size)) b.next a.next zs)
              (sym own') rest)),
    )
Chain-join cell cell' top lo p back (x ∷ ys) a b zs c (ne, at_p, own, pr, low, rest) =
    let (back', low', here) =
      Chain-from cell top (p + (block_size + x.size)) x.next p ys a (b ∷ zs) rest in
    (
      ne,
      c.before p (omega arith) ∙ at_p,
      own,
      pr,
      low,
      Chain-join cell cell' top (p + (block_size + x.size)) x.next p ys a b zs c rest,
    )

module _ (h : Heap) (a b : SBlock) where
  JoinAt-fused :
      (cell : ℕ → Option SBlock)
      → cell a.ptr ≡ some (joined a b)
      → a.ptr + (block_size + a.size) ≤ b.ptr
      → ((q : ℕ) → q + block_size ≤ a.ptr → cell q ≡ h.cell q)
      → ((q : ℕ) → b.ptr + (block_size + b.size) ≤ q → q ≢ b.next → cell q ≡ h.cell q)
      → ((t : SBlock)
          → b.next ≢ 0
          → h.cell b.next ≡ some t
          → (cell b.next ≡ some (record t { prev = a.ptr }))
            × (b.ptr + (block_size + b.size) ≤ b.next))
      → JoinAt h.cell (fused h a b cell).cell a b
  JoinAt-fused cell at_a apart early late linked = record {
    whole = ground (arith, at_a);
    before = λ q le. let same = early q le in ground arith;
    after = λ q le off. let same = late q le off in ground arith;
    third = λ t ne at_t. let (same, above) = linked t ne at_t in ground arith;
  }

  module _ (ne : a.ptr ≢ 0) (at_a : h.cell a.ptr ≡ some a) (ne' : a.next ≢ 0)
      (at_b : h.cell a.next ≡ some b) (is_free : (b.free == 0) ≡ false)
      (room : a.size + b.size + block_size < word) where
    total_size : add64 (add64 a.size b.size) block_size ≡ a.size + b.size + block_size
    total_size = omega arith

    next_null : (a.next == 0) ≡ false
    next_null = ground arith

    start_null : (a.ptr == 0) ≡ false
    start_null = ground arith

    fusion-last :
        b.next ≡ 0 → fusion a.ptr h ≡ done a.ptr (fused h a b (put h.cell a.ptr (joined a b)))
    unfolding fusion fuse_next store memset_zero
    fusion-last last =
        rw
          (
            start_null,
            load-at h a.ptr a ne at_a,
            next_null,
            load-at h a.next b ne' at_b,
            is_free,
            load-at h a.ptr a ne at_a,
            last,
          )
          (simp total_size refl)

    fusion-inner :
        (t : SBlock)
        → b.next ≢ 0
        → b.next ≢ a.ptr
        → h.cell b.next ≡ some t
        → fusion a.ptr h
          ≡ done a.ptr
              (fused h a b (put (put h.cell a.ptr (joined a b)) b.next (record t { prev = a.ptr })))
    unfolding fusion fuse_next store memset_zero
    fusion-inner t inner apart at_t =
        let H = record h { cell = put h.cell a.ptr (joined a b) } in
        let inner' : (b.next == 0) ≡ false = ground arith in
        let t_there : H.cell b.next ≡ some t = ground (arith, at_t) in
        rw
          (
            start_null,
            load-at h a.ptr a ne at_a,
            next_null,
            load-at h a.next b ne' at_b,
            is_free,
            load-at h a.ptr a ne at_a,
            inner',
          )
          (simp total_size (rw (load-at H b.next t inner t_there) refl))

fusion-JoinAt :
    (h : Heap) (a b : SBlock) (zs : List SBlock) (lo back : ℕ)
    → b.free ≢ 0
    → h.brk < word
    → Chain h.cell h.brk lo a.ptr back (a ∷ b ∷ zs)
    → (cell : ℕ → Option SBlock) × (fusion a.ptr h ≡ done a.ptr (fused h a b cell))
      × JoinAt h.cell (fused h a b cell).cell a b
fusion-JoinAt h a b [] lo back free' w
      (ne, at_a, own, pr, low, (ne', at_b, own', pr', low', (stop, below))) =
    let cell = put h.cell a.ptr (joined a b) in
    (
      cell,
      fusion-last h a b ne at_a ne' at_b (ground arith) (omega arith) stop,
      JoinAt-fused h a b cell (ground arith) (omega arith) (λ q le. ground arith)
          (λ q le off. ground arith) (λ t inner at_t. absurd (inner stop)),
    )
fusion-JoinAt h a b (t ∷ zs) lo back free' w
      (
        ne,
        at_a,
        own,
        pr,
        low,
        (ne', at_b, own', pr', low', (ne'', at_t, own'', pr'', low'', rest)),
      ) =
    let below = Chain-below h.cell h.brk (b.next + (block_size + t.size)) t.next b.next zs rest in
    let cell = put (put h.cell a.ptr (joined a b)) b.next (record t { prev = a.ptr }) in
    (
      cell,
      fusion-inner h a b ne at_a ne' at_b (ground arith) (omega arith) t ne'' (omega arith) at_t,
      JoinAt-fused h a b cell (ground arith) (omega arith) (λ q le. ground arith)
          (λ q le off. ground arith) (λ t' inner at_t'. (ground arith, omega arith)),
    )

-- `fusion` of a block with a free one behind it returns the block. The list then has one block in
-- the place of the two, of both their sizes and the lost header; the bytes it got are 0, and the
-- bytes outside of it and the program break have not changed.
pub fusion-join :
    (ys : List SBlock) (a b : SBlock) (zs : List SBlock) (h : Heap)
    → Holds h (ys ++ (a ∷ b ∷ zs))
    → b.free ≢ 0
    → h.brk < word
    → (h' : Heap) × (fusion a.ptr h ≡ done a.ptr h')
      × Holds h' (ys ++ (joined a b ∷ relinked a.ptr zs))
      × ((q : ℕ)
          → a.ptr + block_size ≤ q
          → q < a.ptr + block_size + (joined a b).size
          → h'.byte q ≡ 0)
      × ((q : ℕ) → (q < a.ptr) ⊎ (b.ptr + (block_size + b.size) ≤ q) → h'.byte q ≡ h.byte q)
      × (h'.brk ≡ h.brk)
      × (h'.limit ≡ h.limit)
fusion-join ys a b zs h holds is_free w =
    let (back, low, here) = Chain-from h.cell h.brk 0 h.head 0 ys a (b ∷ zs) holds in
    let (ne, at_a, own, pr, lowest, (ne', at_b, own', pr', low', rest)) = here in
    let (cell, run, c) = fusion-JoinAt h a b zs 0 back is_free w here in
    (
      fused h a b cell,
      run,
      Chain-join h.cell (fused h a b cell).cell h.brk 0 h.head 0 ys a b zs c holds,
      λ q above under. ground arith,
      λ q out. ground arith,
      refl,
      refl,
    )
