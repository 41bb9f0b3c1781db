-- ===== src/Alloc/Refusals.antt =====
-- `mm_free` of hw3/mm_alloc.c on what is no block in use, and `mm_malloc` where `sbrk` fails.
use os_assignments.Base.{
  ℕ, ◌+◌, ◌<◌, ◌≡◌, ◌≢◌, refl, sym, subst, true, false, none, List, [], ◌∷◌, ◌==◌, leb, arith,
  length, All, ◌⊎◌, inl, inr, Bool-cases, ◌^◌,
}
use os_assignments.Alloc.State.{SBlock, Heap, block_size, add64, load, done, exit, sbrk}
use os_assignments.Alloc.Ops.{mm_malloc, mm_free, get_block, extend_heap, take_pick, owned}
use os_assignments.Alloc.Blocks.{
  Holds, Listed, Listed-cell, owned-Listed, owned-unlisted, first_fit, last_ptr, pick,
  scan-first_fit, load-at, not_null,
}

-- Some block stands at `q`, or none does.
find_block :
    (q : ℕ) (xs : List SBlock)
    → ((x : SBlock) × Listed x xs × (x.ptr ≡ q)) ⊎ All (λ b. q ≢ b.ptr) xs
find_block q [] = inr tt
find_block q (b ∷ xs) = elim (Bool-cases (b.ptr == q)) [
  | inl here ↦ inl (b, inl refl, ground arith)
  | inr off ↦ elim (find_block q xs) [
    | inl (x, listed, at_q) ↦ inl (x, inr listed, at_q)
    | inr apart ↦ inr (ground arith, apart)
  ]
]

All-Listed : (P : SBlock → Type 0) (x : SBlock) (xs : List SBlock) → All P xs → Listed x xs → P x
All-Listed P x [] a n = absurd n
All-Listed P x (b ∷ xs) a (inl e) = subst P (sym e) a.0
All-Listed P x (b ∷ xs) a (inr n) = All-Listed P x xs a.1 n

-- A pointer that is not behind the header of a block in use ends the program with status 1: one
-- that no block of the heap belongs to, and one whose block is free already.
pub mm_free_unowned :
    (fuel ptr : ℕ) (xs : List SBlock) (h : Heap)
    → Holds h xs
    → All (λ b. b.ptr ≡ get_block ptr → b.free ≡ 1) xs
    → length xs < fuel
    → mm_free fuel ptr h ≡ exit 1
unfolding mm_free
mm_free_unowned fuel ptr xs h holds unused f = elim (find_block (get_block ptr) xs) [
  | inr apart ↦ rw (owned-unlisted fuel (get_block ptr) h.brk 0 h.head 0 xs h holds apart f)
  | inl (x, listed, at_q) ↦
      let found =
        subst (λ (q : ℕ). owned fuel q h.head h ≡ done true h) at_q
          (owned-Listed fuel h.brk 0 h.head 0 x xs h holds listed f) in
      let (ne, cell, low) = Listed-cell h.cell h.brk 0 h.head 0 x xs holds listed in
      let loaded = subst (λ (q : ℕ). load q h ≡ done x h) at_q (load-at h x.ptr x ne cell) in
      let is_free = All-Listed (λ b. b.ptr ≡ get_block ptr → b.free ≡ 1) x xs unused listed at_q in
      rw (found, loaded, is_free)
]

-- `extend_heap` where the break cannot grow.
pub extend_heap_full :
    (last size : ℕ) (h : Heap)
    → size + block_size < 2 ^ 63
    → h.limit < h.brk + (size + block_size)
    → extend_heap last size h ≡ done 0 h
unfolding extend_heap sbrk
extend_heap_full last size h w full =
    let wrap : add64 size block_size ≡ size + block_size = omega arith in
    let positive : leb (2 ^ 63) (size + block_size) ≡ false = ground arith in
    let above : leb (h.brk + (size + block_size)) h.limit ≡ false = ground arith in
    rw (wrap, positive, above)

-- Where no free block fits and the break cannot grow, `mm_malloc` changes nothing and returns 40,
-- which is not NULL.
pub mm_malloc_full :
    (fuel size : ℕ) (xs : List SBlock) (h : Heap)
    → Holds h xs
    → first_fit size xs ≡ none
    → size + block_size < 2 ^ 63
    → h.limit < h.brk + (size + block_size)
    → length xs < fuel
    → mm_malloc fuel size h ≡ done 40 h
unfolding mm_malloc pick take_pick
mm_malloc_full fuel size [] h holds no_fit w full f =
    let empty : (h.head == 0) ≡ true = ground arith in rw (empty, extend_heap_full 0 size h w full)
mm_malloc_full fuel size (b ∷ xs) h holds no_fit w full f =
    let some_head : (h.head == 0) ≡ false = not_null h h.head b holds.0 holds.1 in
    let found = scan-first_fit fuel size h.brk 0 h.head 0 h.head (b ∷ xs) h holds (omega arith) f in
    rw (some_head, found, no_fit, extend_heap_full (last_ptr h.head (b ∷ xs)) size h w full)
