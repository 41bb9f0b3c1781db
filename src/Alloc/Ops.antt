-- ===== src/Alloc/Ops.antt =====
-- The functions of hw3/mm_alloc.c. A loop over the list runs on fuel.
use os_assignments.Base.{ℕ, zero, suc, ◌+◌, Bool, true, false, ◌==◌, ltb, not, if◌then◌else◌}
use os_assignments.Alloc.State.{
  SBlock, done, exit, out_of_fuel, Cmd, pure, ◌>>=◌, ◌>>◌, add64, sub64, minus_one, load, store,
  memset_zero, memcpy, sbrk, block_size,
}

-- `get_block`
abbrev pub get_block : ℕ → ℕ
get_block p = sub64 p block_size

-- `b->data`
abbrev pub data_of : ℕ → ℕ
data_of b = b + block_size

unfoldable pub split_block : ℕ → ℕ → Cmd (Unit {0})
split_block b s = do
  blk ← load b
  let third = blk.next
  let new = add64 (add64 blk.ptr s) block_size
  let sb : SBlock = record {
    size = sub64 (sub64 blk.size s) block_size;
    next = blk.next;
    prev = blk.ptr;
    free = 1;
    ptr = new;
  }
  store b (record blk { size = s; next = new })
  (if third == 0 then pure tt else (do t ← load third; store third (record t { prev = new })))
  store new sb
  memset_zero (data_of new) sb.size
  memset_zero (data_of b) s

-- The link from the last block, or from `block_list_head`, to the new block at `p`; the result is
-- the new block's `prev`.
unfoldable pub link_last : ℕ → ℕ → Cmd ℕ
link_last last p =
    if last == 0
    then (λ h. done 0 (record h { head = p }))
    else (do l ← load last; store last (record l { next = p }); pure l.ptr)

unfoldable pub extend_heap : ℕ → ℕ → Cmd ℕ
extend_heap last s = do
  p ← sbrk (add64 s block_size)
  if p == minus_one then pure 0 else (do
    prev ← link_last last p
    store p (record { size = s; next = 0; prev = prev; free = 0; ptr = p })
    memset_zero (data_of p) s
    pure p)

-- What the loop of `mm_malloc` stops at.
pub data Pick : Type 0 where
  larger : ℕ → Pick
  exact : ℕ → Pick
  nothing : ℕ → Pick

-- The loop of `mm_malloc` up to its `break`, from `iter` on; `last` is `last_block`.
unfoldable pub scan : ℕ → ℕ → ℕ → ℕ → Cmd Pick
scan zero size iter last = λ _. out_of_fuel
scan (suc k) size iter last = if iter == 0 then pure (nothing last) else (do
  b ← load iter
  let rest = scan k size b.next iter
  if not (b.free == 1)
      then rest
      else if ltb (add64 size block_size) b.size
      then pure (larger iter)
      else if b.size == add64 size block_size
      then pure (exact iter)
      else rest)

-- The branches of the loop that found a block, and what follows the loop.
unfoldable pub take_pick : ℕ → Pick → Cmd ℕ
take_pick size (larger b) = do
  split_block b size
  blk ← load b
  n ← load blk.next
  store blk.next (record n { free = 1 })
  blk' ← load b
  store b (record blk' { free = 0 })
  pure (data_of b)
take_pick size (exact b) = do blk ← load b; store b (record blk { free = 0 }); pure (data_of b)
take_pick size (nothing last) = do sp ← extend_heap last size; pure (data_of sp)

unfoldable pub mm_malloc : ℕ → ℕ → Cmd ℕ
mm_malloc fuel size h =
    if h.head == 0
    then (do sp ← extend_heap 0 size; pure (data_of sp)) h
    else (do pick ← scan fuel size h.head h.head; take_pick size pick) h

-- The branch of `fusion` that joins `b` with the block `nb` at `next`.
unfoldable pub fuse_next : ℕ → SBlock → Cmd ℕ
fuse_next cur nb = do
  c ← load cur
  let size = add64 (add64 c.size nb.size) block_size
  store cur (record c { size = size; next = nb.next })
  (if nb.next == 0
      then pure tt
      else (do t ← load nb.next; store nb.next (record t { prev = c.ptr })))
  memset_zero (data_of cur) size
  pure cur

unfoldable pub fusion : ℕ → Cmd ℕ
fusion b = if b == 0 then pure 0 else (do
  blk ← load b
  if blk.next == 0
      then pure blk.ptr
      else (do nb ← load blk.next; if nb.free == 0 then pure blk.ptr else fuse_next blk.ptr nb))

-- The search of `mm_free` for the block in the list.
unfoldable pub owned : ℕ → ℕ → ℕ → Cmd Bool
owned zero sbp iter = λ _. out_of_fuel
owned (suc k) sbp iter =
    if iter == 0
    then pure false
    else if sbp == iter
    then pure true
    else (do b ← load iter; owned k sbp b.next)

-- `mm_free` behind its checks: the flag, and the fusions.
unfoldable pub release : ℕ → Cmd (Unit {0})
release sbp = do
  blk ← load sbp
  store sbp (record blk { free = 1 })
  if blk.prev == 0 then fusion sbp >> pure tt else (do
    pb ← load blk.prev
    if pb.free == 0
        then fusion sbp >> pure tt
        else (do n ← fusion blk.prev; if n == 0 then pure tt else fusion n >> pure tt))

unfoldable pub mm_free : ℕ → ℕ → Cmd (Unit {0})
mm_free fuel ptr h =
    (do
      found ← owned fuel (get_block ptr) h.head
      if not found then (λ _. exit 1) else (do
        blk ← load (get_block ptr)
        if blk.free == 1 then (λ _. exit 1) else release (get_block ptr)))
      h

unfoldable pub mm_realloc : ℕ → ℕ → ℕ → Cmd ℕ
mm_realloc fuel ptr size = do
  ptr1 ← mm_malloc fuel size
  (if ptr1 == 0 then pure tt else (do
    old ← load (get_block ptr)
    memcpy ptr1 (data_of (get_block ptr)) old.size
    mm_free fuel ptr))
  pure ptr1
