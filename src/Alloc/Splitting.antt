-- ===== src/Alloc/Splitting.antt =====
-- `mm_malloc` of hw3/mm_alloc.c where it takes the front of a larger free block.
use os_assignments.Base.{
  ℕ, ◌+◌, ◌-◌, ◌<◌, ◌≡◌, ◌≢◌, refl, false, Option, none, some, ◌==◌, if◌then◌else◌, arith,
}
use os_assignments.Alloc.State.{
  SBlock, Heap, block_size, word, add64, sub64, store, memset_zero, put, overlaps, inside, done,
}
use os_assignments.Alloc.Ops.{larger, take_pick, split_block, data_of}
use os_assignments.Alloc.Blocks.{load-at}

-- The two blocks that a free block `b` becomes, the front one for `s` bytes.
abbrev pub front_of : ℕ → SBlock → SBlock
front_of s b = record b { size = s; next = b.ptr + s + block_size; free = 0 }

abbrev pub rest_of : ℕ → SBlock → SBlock
rest_of s b = record {
  size = b.size - s - block_size;
  next = b.next;
  prev = b.ptr;
  free = 1;
  ptr = b.ptr + s + block_size;
}

-- `memset` over the headers and over the bytes.
abbrev pub wiped : ℕ → ℕ → (ℕ → Option SBlock) → ℕ → Option SBlock
wiped p n cell a = if overlaps p n a then none else cell a

abbrev pub zeroed : ℕ → ℕ → (ℕ → ℕ) → ℕ → ℕ
zeroed p n byte a = if inside p n a then 0 else byte a

-- The heap behind `split_block`, where `cell` has the block's header cut and the third one linked.
abbrev pub split_heap : Heap → ℕ → SBlock → (ℕ → Option SBlock) → Heap
split_heap h s b cell =
    let new = b.ptr + s + block_size in
    let rest = rest_of s b in
    record h {
      cell = wiped (b.ptr + block_size) s (wiped (new + block_size) rest.size (put cell new rest));
      byte = zeroed (b.ptr + block_size) s (zeroed (new + block_size) rest.size h.byte);
    }

abbrev pub cut : ℕ → SBlock → SBlock
cut s b = record b { size = s; next = b.ptr + s + block_size }

module _ (h : Heap) (s : ℕ) (b : SBlock) (ne : b.ptr ≢ 0) (at_b : h.cell b.ptr ≡ some b)
    (big : s + block_size < b.size) (room : b.ptr + (block_size + b.size) < word) where
  abbrev new : ℕ
  new = b.ptr + s + block_size

  new_address : add64 (add64 b.ptr s) block_size ≡ new
  new_address = omega arith

  new_size : sub64 (sub64 b.size s) block_size ≡ b.size - s - block_size
  new_size = omega arith

  pub split_last :
      b.next ≡ 0 → split_block b.ptr s h ≡ done tt (split_heap h s b (put h.cell b.ptr (cut s b)))
  unfolding split_block store memset_zero
  split_last last = rw (load-at h b.ptr b ne at_b, last) (simp (new_address, new_size) refl)

  pub split_inner :
      (t : SBlock)
      → b.next ≢ 0
      → b.next ≢ b.ptr
      → h.cell b.next ≡ some t
      → split_block b.ptr s h
        ≡ done tt (
            split_heap h s b (
              put (put h.cell b.ptr (cut s b)) b.next (record t { prev = b.ptr + s + block_size })))
  unfolding split_block store memset_zero
  split_inner t inner apart at_t =
      let H = record h { cell = put h.cell b.ptr (cut s b) } in
      let inner' : (b.next == 0) ≡ false = ground arith in
      let t_there : H.cell b.next ≡ some t = ground (arith, at_t) in
      rw (load-at h b.ptr b ne at_b, inner')
        (simp (new_address, new_size) (rw (load-at H b.next t inner t_there) refl))

  pub take_split :
      (cell : ℕ → Option SBlock)
      → cell b.ptr ≡ some (cut s b)
      → split_block b.ptr s h ≡ done tt (split_heap h s b cell)
      → take_pick s (larger b.ptr) h
        ≡ done (data_of b.ptr) (record (split_heap h s b cell) {
          cell = put (put (split_heap h s b cell).cell new (rest_of s b)) b.ptr (front_of s b);
        })
  unfolding take_pick store
  take_split cell at_c run =
      let H = split_heap h s b cell in
      let K = record H { cell = put H.cell new (rest_of s b) } in
      let some_new : new ≢ 0 = omega arith in
      let cut_there : H.cell b.ptr ≡ some (cut s b) = ground (arith, at_c) in
      let rest_there : H.cell new ≡ some (rest_of s b) = ground arith in
      let cut_there' : K.cell b.ptr ≡ some (cut s b) = ground (arith, cut_there) in
      rw (
        run,
        load-at H b.ptr (cut s b) ne cut_there,
        load-at H new (rest_of s b) some_new rest_there,
        load-at K b.ptr (cut s b) ne cut_there',
      )
