-- ===== src/Alloc/Extending.antt =====
-- `mm_malloc` of hw3/mm_alloc.c where no free block serves and the heap grows.
use os_assignments.Base.{
  ℕ, ◌+◌, ◌<◌, ◌≤◌, ◌^◌, ◌≡◌, refl, Option, none, some, List, [], ◌∷◌, ◌++◌, arith, length, false,
  true, ◌==◌, leb,
}
use os_assignments.Alloc.State.{
  store, sbrk, memset_zero, SBlock, Heap, block_size, done, put, add64, minus_one,
}
use os_assignments.Alloc.Ops.{mm_malloc, take_pick, extend_heap, link_last}
use os_assignments.Alloc.Blocks.{Chain, load-at, Holds, first_fit, last_ptr, pick, scan-first_fit}
use os_assignments.Alloc.Splitting.{wiped, zeroed}
use os_assignments.Alloc.Layout.{Chain-from}
use os_assignments.Alloc.Serving.{Unfit}

-- The block that `extend_heap` makes at the break.
abbrev pub grown : ℕ → ℕ → ℕ → SBlock
grown p size back = record { size = size; next = 0; prev = back; free = 0; ptr = p }

abbrev pub extended : Heap → ℕ → SBlock → Heap
extended h size l = record h {
  cell =
      wiped (h.brk + block_size) size
        (put (put h.cell l.ptr (record l { next = h.brk })) h.brk (grown h.brk size l.ptr));
  byte = zeroed (h.brk + block_size) size h.byte;
  brk = h.brk + (size + block_size);
}

pub first_fit-Unfit : (size : ℕ) (xs : List SBlock) → Unfit size xs → first_fit size xs ≡ none
unfolding first_fit
first_fit-Unfit size [] u = refl
first_fit-Unfit size (x ∷ xs) u = simp (u.0) (first_fit-Unfit size xs u.1)

last_ptr-append : (p : ℕ) (ys : List SBlock) (l : SBlock) → last_ptr p (ys ++ (l ∷ [])) ≡ l.ptr
unfolding last_ptr
last_ptr-append p [] l = refl
last_ptr-append p (y ∷ ys) l = last_ptr-append y.ptr ys l

head_not_null :
    (cell : ℕ → Option SBlock) (top lo p back : ℕ) (ys : List SBlock) (l : SBlock)
    → Chain cell top lo p back (ys ++ (l ∷ []))
    → (p == 0) ≡ false
head_not_null cell top lo p back [] l holds = ground (arith, holds.0)
head_not_null cell top lo p back (y ∷ ys) l holds = ground (arith, holds.0)

Chain-extended :
    (h : Heap) (size lo p back : ℕ) (ys : List SBlock) (l : SBlock)
    → Chain h.cell h.brk lo p back (ys ++ (l ∷ []))
    → Chain
        (extended h size l).cell
        (extended h size l).brk
        lo
        p
        back
        (ys ++ (record l { next = h.brk } ∷ grown h.brk size l.ptr ∷ []))
Chain-extended h size lo p back [] l (ne, at_p, own, pr, low, (stop, below)) = (
  ne,
  ground arith,
  own,
  pr,
  low,
  (omega arith, ground arith, refl, own, omega arith, (refl, omega arith)),
)
Chain-extended h size lo p back (x ∷ ys) l (ne, at_p, own, pr, low, rest) =
    let (back', low', (ne', at', own', pr', lowest, (stop, below))) =
      Chain-from h.cell h.brk (p + (block_size + x.size)) x.next p ys l [] rest in
    (
      ne,
      ground arith,
      own,
      pr,
      low,
      Chain-extended h size (p + (block_size + x.size)) x.next p ys l rest,
    )

extend_heap-extended :
    (h : Heap) (size : ℕ) (l : SBlock)
    → h.cell l.ptr ≡ some l
    → (l.ptr == 0) ≡ false
    → l.ptr + block_size ≤ h.brk
    → size + block_size < 2 ^ 63
    → h.brk + (size + block_size) ≤ h.limit
    → h.brk < minus_one
    → extend_heap l.ptr size h ≡ done h.brk (extended h size l)
unfolding extend_heap sbrk link_last store memset_zero
extend_heap-extended h size l at_l ne below w fit small =
    let wrap : add64 size block_size ≡ size + block_size = omega arith in
    let positive : leb (2 ^ 63) (size + block_size) ≡ false = ground arith in
    let inside' : leb (h.brk + (size + block_size)) h.limit ≡ true = ground arith in
    let got : (h.brk == minus_one) ≡ false = ground arith in
    let H = record h { brk = h.brk + (size + block_size) } in
    let loaded = load-at H l.ptr l (ground arith) at_l in
    rw (wrap, positive, inside', got, ne, loaded)

-- Where no block of the list serves and the break can grow, `mm_malloc` returns the address behind
-- a new header at the break. The list has the new block behind its last one, in use; its bytes are
-- 0, no byte below the old break has changed, and the break is behind the new block.
pub mm_malloc-extend :
    (fuel size : ℕ) (ys : List SBlock) (l : SBlock) (h : Heap)
    → Holds h (ys ++ (l ∷ []))
    → Unfit size (ys ++ (l ∷ []))
    → size + block_size < 2 ^ 63
    → h.brk + (size + block_size) ≤ h.limit
    → h.brk < minus_one
    → length (ys ++ (l ∷ [])) < fuel
    → (h' : Heap) × (mm_malloc fuel size h ≡ done (h.brk + block_size) h')
      × Holds h' (ys ++ (record l { next = h.brk } ∷ grown h.brk size l.ptr ∷ []))
      × ((a : ℕ) → h.brk + block_size ≤ a → a < h.brk + block_size + size → h'.byte a ≡ 0)
      × ((a : ℕ) → a < h.brk → h'.byte a ≡ h.byte a)
      × (h'.brk ≡ h.brk + (size + block_size))
      × (h'.limit ≡ h.limit)
unfolding mm_malloc pick take_pick
mm_malloc-extend fuel size ys l h holds u w fit small f =
    let (back, low, (ne, at_l, own, pr, lowest, (stop, below))) =
      Chain-from h.cell h.brk 0 h.head 0 ys l [] holds in
    let grow = extend_heap-extended h size l at_l (ground arith) (omega arith) w fit small in
    let found =
      scan-first_fit fuel size h.brk 0 h.head 0 h.head (ys ++ (l ∷ [])) h holds (omega arith) f in
    let no_fit = first_fit-Unfit size (ys ++ (l ∷ [])) u in
    let last = last_ptr-append h.head ys l in
    let some_head = head_not_null h.cell h.brk 0 h.head 0 ys l holds in
    (
      extended h size l,
      rw (some_head, found, no_fit, last, grow),
      Chain-extended h size 0 h.head 0 ys l holds,
      λ a above under. ground arith,
      λ a under. ground arith,
      refl,
      refl,
    )

-- The first block, at the break of an empty heap.
pub mm_malloc-first :
    (fuel size : ℕ) (h : Heap)
    → Holds h []
    → size + block_size < 2 ^ 63
    → h.brk + (size + block_size) ≤ h.limit
    → h.brk < minus_one
    → 0 < h.brk
    → (h' : Heap) × (mm_malloc fuel size h ≡ done (h.brk + block_size) h')
      × Holds h' (grown h.brk size 0 ∷ [])
      × (h'.brk ≡ h.brk + (size + block_size))
      × (h'.limit ≡ h.limit)
unfolding mm_malloc extend_heap sbrk link_last store memset_zero
mm_malloc-first fuel size h (empty, _) w fit small some_brk =
    let wrap : add64 size block_size ≡ size + block_size = omega arith in
    let positive : leb (2 ^ 63) (size + block_size) ≡ false = ground arith in
    let inside' : leb (h.brk + (size + block_size)) h.limit ≡ true = ground arith in
    let got : (h.brk == minus_one) ≡ false = ground arith in
    let no_head : (h.head == 0) ≡ true = ground arith in
    (
      record h {
        cell = wiped (h.brk + block_size) size (put h.cell h.brk (grown h.brk size 0));
        byte = zeroed (h.brk + block_size) size h.byte;
        brk = h.brk + (size + block_size);
        head = h.brk;
      },
      rw (no_head, wrap, positive, inside', got),
      (omega arith, ground arith, refl, refl, omega arith, (refl, omega arith)),
      refl,
      refl,
    )
