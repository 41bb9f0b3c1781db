-- ===== src/Alloc/Serving.antt =====
-- `mm_malloc` of hw3/mm_alloc.c against the list of blocks.
use os_assignments.Base.{
  ℕ, ◌+◌, ◌<◌, ◌≤◌, ◌≡◌, ◌≢◌, refl, Option, some, List, [], ◌∷◌, ◌++◌, arith, ◌∙◌, length, false,
  true, All, ◌==◌, ◌⊎◌,
}
use os_assignments.Alloc.State.{store, SBlock, Heap, block_size, word, done, put}
use os_assignments.Alloc.Ops.{mm_malloc, take_pick, larger, data_of}
use os_assignments.Alloc.Blocks.{
  Chain, load-at, Holds, fits, first_fit, pick, scan-first_fit, not_null,
}
use os_assignments.Alloc.Splitting.{
  front_of, rest_of, cut, split_heap, split_last, split_inner, take_split,
}
use os_assignments.Alloc.Layout.{Chain-from, Chain-marked, Chain-below, Chain-cut, CutAt, relinked}

-- The heap that `mm_malloc` leaves, where `cell` is the headers with the block cut and the third
-- one linked.
abbrev pub taken : Heap → ℕ → SBlock → (ℕ → Option SBlock) → Heap
taken h s b cell =
    let H = split_heap h s b cell in
    record H { cell = put (put H.cell (b.ptr + s + block_size) (rest_of s b)) b.ptr (front_of s b) }

module _ (h : Heap) (s : ℕ) (b : SBlock) (big : s + block_size < b.size) where
  CutAt-taken :
      (cell : ℕ → Option SBlock)
      → ((a : ℕ) → a + block_size ≤ b.ptr → cell a ≡ h.cell a)
      → ((a : ℕ) → b.ptr + (block_size + b.size) ≤ a → a ≢ b.next → cell a ≡ h.cell a)
      → ((t : SBlock)
          → b.next ≢ 0
          → h.cell b.next ≡ some t
          → (cell b.next ≡ some (record t { prev = b.ptr + s + block_size }))
            × (b.ptr + (block_size + b.size) ≤ b.next))
      → CutAt h.cell (taken h s b cell).cell s b
  CutAt-taken cell early late linked = record {
    front = ground arith;
    behind = ground arith;
    before = λ a le. let same = early a le in ground arith;
    after = λ a le off. let same = late a le off in ground arith;
    third = λ t ne at_t. let (same, above) = linked t ne at_t in ground arith;
  }

-- None of these blocks serves a call for `size` bytes.
abbrev pub Unfit : ℕ → List SBlock → Type 0
Unfit size = All (λ x. fits size x ≡ false)

first_fit-here :
    (size : ℕ) (ys : List SBlock) (b : SBlock) (zs : List SBlock)
    → Unfit size ys
    → fits size b ≡ true
    → first_fit size (ys ++ (b ∷ zs)) ≡ some b
unfolding first_fit
first_fit-here size [] b zs u f = simp f refl
first_fit-here size (x ∷ ys) b zs u f = simp (u.0) (first_fit-here size ys b zs u.1 f)

-- `mm_malloc` on a list with a first block comes to what it does with the pick.
mm_malloc-pick :
    (fuel size : ℕ) (xs : List SBlock) (h : Heap) (b : SBlock)
    → Holds h xs
    → size + block_size < word
    → length xs < fuel
    → first_fit size xs ≡ some b
    → mm_malloc fuel size h ≡ take_pick size (pick size (some b) 0) h
unfolding mm_malloc first_fit pick
mm_malloc-pick fuel size [] h b holds w f e = cc
mm_malloc-pick fuel size (x ∷ xs) h b holds w f e =
    let some_head : (h.head == 0) ≡ false = not_null h h.head x holds.0 holds.1 in
    let found = scan-first_fit fuel size h.brk 0 h.head 0 h.head (x ∷ xs) h holds w f in
    rw (some_head, found, e)

-- `mm_malloc` behind the loop, on a larger block: with a block behind it, or without.
take-CutAt :
    (h : Heap) (s : ℕ) (b : SBlock) (zs : List SBlock) (lo back : ℕ)
    → s + block_size < b.size
    → h.brk < word
    → Chain h.cell h.brk lo b.ptr back (b ∷ zs)
    → (cell : ℕ → Option SBlock) × (take_pick s (larger b.ptr) h
        ≡ done (data_of b.ptr) (taken h s b cell))
      × CutAt h.cell (taken h s b cell).cell s b
take-CutAt h s b [] lo back big w (ne, at_b, own, pr, low, (stop, below)) =
    let cell = put h.cell b.ptr (cut s b) in
    let room : b.ptr + (block_size + b.size) < word = omega arith in
    (
      cell,
      take_split h s b ne at_b big room cell (ground arith)
          (split_last h s b ne at_b big room stop),
      CutAt-taken h s b big cell (λ a le. ground arith) (λ a le off. ground arith)
          (λ t some_next. absurd (some_next stop)),
    )
take-CutAt h s b (t ∷ zs) lo back big w
      (ne, at_b, own, pr, low, (ne', at_t, own', pr', low', rest)) =
    let below = Chain-below h.cell h.brk (b.next + (block_size + t.size)) t.next b.next zs rest in
    let room : b.ptr + (block_size + b.size) < word = omega arith in
    let linked = record t { prev = b.ptr + s + block_size } in
    let cell = put (put h.cell b.ptr (cut s b)) b.next linked in
    (
      cell,
      take_split h s b ne at_b big room cell (ground arith)
          (split_inner h s b ne at_b big room t ne' (omega arith) at_t),
      CutAt-taken h s b big cell (λ a le. ground arith) (λ a le off. ground arith)
          (λ t' some_next at_t'. (ground arith, low')),
    )

-- First fit by a larger block: where the blocks in front of `b` do not serve, and `b` is free with
-- more than `size` bytes and a header, `mm_malloc` returns the address behind the header of `b`.
-- The list then has `b` in two parts, the front one in use with `size` bytes and the rest free; its
-- bytes are 0, no byte outside of `b` has changed, and the break is where it was.
pub mm_malloc-split :
    (fuel size : ℕ) (ys : List SBlock) (b : SBlock) (zs : List SBlock) (h : Heap)
    → Holds h (ys ++ (b ∷ zs))
    → Unfit size ys
    → b.free ≡ 1
    → size + block_size < b.size
    → h.brk < word
    → length (ys ++ (b ∷ zs)) < fuel
    → (h' : Heap) × (mm_malloc fuel size h ≡ done (b.ptr + block_size) h')
      × Holds h'
          (ys ++ (front_of size b ∷ rest_of size b ∷ relinked (b.ptr + size + block_size) zs))
      × ((a : ℕ) → b.ptr + block_size ≤ a → a < b.ptr + block_size + size → h'.byte a ≡ 0)
      × ((a : ℕ) → (a < b.ptr) ⊎ (b.ptr + (block_size + b.size) ≤ a) → h'.byte a ≡ h.byte a)
      × (h'.brk ≡ h.brk)
      × (h'.limit ≡ h.limit)
unfolding pick
mm_malloc-split fuel size ys b zs h holds u is_free big w f =
    let (back, low, here) = Chain-from h.cell h.brk 0 h.head 0 ys b zs holds in
    let (ne, at_b, own, pr, lowest, rest) = here in
    let total = Chain-below h.cell h.brk (b.ptr + (block_size + b.size)) b.next b.ptr zs rest in
    let (cell, run, c) = take-CutAt h size b zs 0 back big w here in
    let fit = first_fit-here size ys b zs u (ground arith) in
    let differs : (b.size == size + block_size) ≡ false = ground arith in
    (
      taken h size b cell,
      mm_malloc-pick fuel size (ys ++ (b ∷ zs)) h b holds (omega arith) f fit ∙ rw differs run,
      Chain-cut h.cell (taken h size b cell).cell size h.brk b c 0 h.head 0 ys zs big holds,
      λ a above under. ground arith,
      λ a out. ground arith,
      refl,
      refl,
    )

-- First fit by a block of just `size` bytes and a header: `mm_malloc` returns the address behind
-- the header of `b`, which it takes whole. The list has `b` in use, and nothing else has changed.
pub mm_malloc-whole :
    (fuel size : ℕ) (ys : List SBlock) (b : SBlock) (zs : List SBlock) (h : Heap)
    → Holds h (ys ++ (b ∷ zs))
    → Unfit size ys
    → b.free ≡ 1
    → b.size ≡ size + block_size
    → h.brk < word
    → length (ys ++ (b ∷ zs)) < fuel
    → let h' = record h { cell = put h.cell b.ptr (record b { free = 0 }) } in
      (mm_malloc fuel size h ≡ done (b.ptr + block_size) h')
      × Holds h' (ys ++ (record b { free = 0 } ∷ zs))
unfolding pick take_pick store
mm_malloc-whole fuel size ys b zs h holds u is_free whole w f =
    let (back, low, (ne, at_b, own, pr, lowest, rest)) =
      Chain-from h.cell h.brk 0 h.head 0 ys b zs holds in
    let total = Chain-below h.cell h.brk (b.ptr + (block_size + b.size)) b.next b.ptr zs rest in
    let fit = first_fit-here size ys b zs u (ground arith) in
    let same : (b.size == size + block_size) ≡ true = ground arith in
    (
      mm_malloc-pick fuel size (ys ++ (b ∷ zs)) h b holds (omega arith) f fit
          ∙ rw (same, load-at h b.ptr b ne at_b),
      Chain-marked h.cell h.brk 0 h.head 0 ys b zs 0 holds,
    )
