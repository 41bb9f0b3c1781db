-- ===== src/Alloc/Serves.antt =====
-- `mm_malloc` of hw3/mm_alloc.c as its callers see it.
use os_assignments.Base.{
  ℕ, ◌+◌, ◌<◌, ◌≤◌, ◌^◌, ◌≡◌, refl, sym, subst, ap, List, [], ◌∷◌, ◌++◌, arith, ◌⊎◌, inl, inr,
  length, true, Bool-cases, ltb, leb,
}
use os_assignments.Alloc.State.{SBlock, Heap, block_size, done}
use os_assignments.Alloc.Ops.{mm_malloc}
use os_assignments.Alloc.Blocks.{fits}
use os_assignments.Alloc.Serving.{Unfit}
use os_assignments.Alloc.Extending.{first_fit-Unfit}
use os_assignments.Alloc.Refusals.{mm_malloc_full}
use os_assignments.Alloc.Cases.{Served, serve_split, serve_whole, serve_extend, serve_first}
use os_assignments.Alloc.Live.{IsHeap}

-- The first block that serves, or that there is none.
find_fit :
    (n : ℕ) (xs : List SBlock)
    → ((ys : List SBlock) × (b : SBlock) × (zs : List SBlock) × (xs ≡ ys ++ (b ∷ zs))
        × Unfit n ys
        × (fits n b ≡ true))
      ⊎ Unfit n xs
find_fit n [] = inr tt
find_fit n (x ∷ xs) = elim (Bool-cases (fits n x)) [
  | inl here ↦ inl ([], x, xs, refl, tt, here)
  | inr off ↦ elim (find_fit n xs) [
    | inl (ys, b, zs, e, unfit, fit) ↦ inl (x ∷ ys, b, zs, ap (λ l. x ∷ l) e, (off, unfit), fit)
    | inr unfit ↦ inr (off, unfit)
  ]
]

last_block :
    (b : SBlock) (xs : List SBlock) → (ys : List SBlock) × (l : SBlock) × (b ∷ xs ≡ ys ++ (l ∷ []))
last_block b [] = ([], b, refl)
last_block b (x ∷ xs) = let (ys, l, e) = last_block x xs in (b ∷ ys, l, ap (λ zs. b ∷ zs) e)

module _ (fuel n : ℕ) (h : Heap) where
  serve_fit :
      (ys : List SBlock) (b : SBlock) (zs : List SBlock)
      → IsHeap h (ys ++ (b ∷ zs))
      → Unfit n ys
      → fits n b ≡ true
      → length (ys ++ (b ∷ zs)) < fuel
      → Served fuel n h (ys ++ (b ∷ zs))
  serve_fit ys b zs i unfit fit f =
      let is_free : b.free ≡ 1 = ground arith in
      let large : n + block_size ≤ b.size = ground arith in
      elim (Bool-cases (ltb (n + block_size) b.size)) [
        | inl above ↦ serve_split fuel n h ys b zs i unfit is_free (ground arith) f
        | inr equal ↦ serve_whole fuel n h ys b zs i unfit is_free (ground arith) f
      ]

  serve_grow :
      (xs : List SBlock)
      → IsHeap h xs
      → Unfit n xs
      → n + block_size < 2 ^ 63
      → h.brk + (n + block_size) ≤ h.limit
      → length xs < fuel
      → Served fuel n h xs
  serve_grow [] i unfit w room f = serve_first fuel n h i w room
  serve_grow (b ∷ xs) i unfit w room f =
      let (ys, l, e) = last_block b xs in
      subst (λ zs. IsHeap h zs → Unfit n zs → length zs < fuel → Served fuel n h zs) (sym e)
        (λ i' unfit' f'. serve_extend fuel n h ys l i' unfit' w room f') i unfit f

  -- In a well-formed heap, a call for a size that is in range comes to an end in one of two ways. It
  -- returns the address behind a header: the heap is well formed again, the block there has at least
  -- as many bytes, at most 40 more, and was in no use, the blocks in use are now the old ones and
  -- this one, and the old ones keep their bytes. Or no free block serves and the break cannot grow:
  -- then the heap is left as it was, and the result is 40.
  pub mm_malloc-Allocates :
      (xs : List SBlock)
      → IsHeap h xs
      → n + block_size < 2 ^ 63
      → length xs < fuel
      → Served fuel n h xs
        ⊎ ((mm_malloc fuel n h ≡ done 40 h) × Unfit n xs × (h.limit < h.brk + (n + block_size)))
  mm_malloc-Allocates xs i w f = elim (find_fit n xs) [
    | inl (ys, b, zs, e, unfit, fit) ↦ inl (
        subst (λ l. IsHeap h l → length l < fuel → Served fuel n h l) (sym e)
          (λ i' f'. serve_fit ys b zs i' unfit fit f') i f)
    | inr unfit ↦ elim (Bool-cases (leb (h.brk + (n + block_size)) h.limit)) [
      | inl room ↦ inl (serve_grow xs i unfit w (ground arith) f)
      | inr full ↦ inr (
        mm_malloc_full fuel n xs h i.holds (first_fit-Unfit n xs unfit) w (ground arith) f,
        unfit,
        ground arith,
      )
    ]
  ]
