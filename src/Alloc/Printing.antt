-- ===== src/Alloc/Printing.antt =====
-- The functions of hw3/mm_alloc.c that print the block list.
use os_assignments.Base.{
  ℕ, zero, suc, ◌+◌, ◌<◌, ◌≡◌, ◌∙◌, ap, ◌^◌, List, [], ◌∷◌, ◌==◌, ltb, if◌then◌else◌, arith, length,
}
use os_assignments.Alloc.State.{SBlock, Heap, Cmd, block_size, load, done, out_of_fuel, pure, ◌>>=◌}
use os_assignments.Alloc.Ops.{get_block, data_of}
use os_assignments.Alloc.Layout.{Chain-below}
use os_assignments.Alloc.Blocks.{Chain, Holds, load-at, not_null}

-- The loop of `find_max_block`, and the two numbers that are passed to `printf`.
unfoldable pub max_from : ℕ → ℕ → ℕ → ℕ → Cmd (ℕ × ℕ)
max_from zero iter maxsz i = λ _. out_of_fuel
max_from (suc k) iter maxsz i =
    if iter == 0
    then pure (maxsz, i)
    else (do b ← load iter; max_from k b.next (if ltb maxsz b.size then b.size else maxsz) (i + 1))

unfoldable pub find_max_block : ℕ → Cmd (ℕ × ℕ)
find_max_block fuel h = max_from fuel h.head 0 0 h

-- The fields that `print_blockmeta_by_address` prints, without the address of `data`.
unfoldable pub print_blockmeta_by_address : ℕ → Cmd SBlock
print_blockmeta_by_address p = load (get_block p)

-- The loop of `print_all_meta`, as the blocks that it prints.
unfoldable pub print_from : ℕ → ℕ → Cmd (List SBlock)
print_from zero iter = λ _. out_of_fuel
print_from (suc k) iter = if iter == 0 then pure [] else (do
  shown ← print_blockmeta_by_address (data_of iter)
  b ← load iter
  rest ← print_from k b.next
  pure (shown ∷ rest))

unfoldable pub print_all_meta : ℕ → Cmd (List SBlock)
print_all_meta fuel h = print_from fuel h.head h

-- The largest size of a block, and `m` where no block is larger.
unfoldable pub max_size : ℕ → List SBlock → ℕ
max_size m [] = m
max_size m (b ∷ xs) = max_size (if ltb m b.size then b.size else m) xs

max_from-Chain :
    (fuel m i top lo p back : ℕ) (xs : List SBlock) (h : Heap)
    → Chain h.cell top lo p back xs
    → length xs < fuel
    → max_from fuel p m i h ≡ done (max_size m xs, i + length xs) h
unfolding max_from max_size
max_from-Chain zero m i top lo p back xs h l f = absurd (omega arith)
max_from-Chain (suc k) m i top lo p back [] h l f = rw (l.0) (ground arith)
max_from-Chain (suc k) m i top lo p back (b ∷ xs) h (ne, at_p, own, pr, low, rest) f =
    let null = not_null h p b ne at_p in
    let loaded = load-at h p b ne at_p in
    let count : (i + 1) + length xs ≡ i + suc (length xs) = omega arith in
    rw (null, loaded)
      (max_from-Chain k (if ltb m b.size then b.size else m) (i + 1) top (p + (block_size + b.size))
          b.next p xs h rest (omega arith)
        ∙ ap (λ n. done (max_size (if ltb m b.size then b.size else m) xs, n) h) count)

print_from-Chain :
    (fuel top lo p back : ℕ) (xs : List SBlock) (h : Heap)
    → Chain h.cell top lo p back xs
    → top < 2 ^ 63
    → length xs < fuel
    → print_from fuel p h ≡ done xs h
unfolding print_from print_blockmeta_by_address
print_from-Chain zero top lo p back xs h l t f = absurd (omega arith)
print_from-Chain (suc k) top lo p back [] h l t f = rw (l.0)
print_from-Chain (suc k) top lo p back (b ∷ xs) h (ne, at_p, own, pr, low, rest) t f =
    let null = not_null h p b ne at_p in
    let loaded = load-at h p b ne at_p in
    let below = Chain-below h.cell top (p + (block_size + b.size)) b.next p xs rest in
    let back_again : get_block (data_of p) ≡ p = omega arith in
    let later =
      print_from-Chain k top (p + (block_size + b.size)) b.next p xs h rest t (omega arith) in
    rw (null, back_again, loaded, loaded, later)

-- On a heap with a block list `find_max_block` passes to `printf` the largest size, or 0, and
-- the number of the blocks.
pub find_max_block-Holds :
    (fuel : ℕ) (xs : List SBlock) (h : Heap)
    → Holds h xs
    → length xs < fuel
    → find_max_block fuel h ≡ done (max_size 0 xs, length xs) h
unfolding find_max_block
find_max_block-Holds fuel xs h holds f =
    max_from-Chain fuel 0 0 h.brk 0 h.head 0 xs h holds f
    ∙ ap (λ n. done (max_size 0 xs, n) h) (omega arith)

-- On a heap with a block list `print_all_meta` prints the blocks of the list in their order.
pub print_all_meta-Holds :
    (fuel : ℕ) (xs : List SBlock) (h : Heap)
    → Holds h xs
    → h.brk < 2 ^ 63
    → length xs < fuel
    → print_all_meta fuel h ≡ done xs h
unfolding print_all_meta
print_all_meta-Holds fuel xs h holds t f = print_from-Chain fuel h.brk 0 h.head 0 xs h holds t f
