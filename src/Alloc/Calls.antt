-- ===== src/Alloc/Calls.antt =====
-- Any sequence of calls of `mm_malloc` and `mm_free` of hw3/mm_alloc.c.
use os_assignments.Base.{
  ℕ, suc, ◌+◌, ◌<◌, ◌≤◌, ◌^◌, ◌≡◌, refl, subst, List, [], ◌∷◌, arith, ◌⊎◌, inl, inr, length, All,
  ◌==◌, Bool-cases,
}
use os_assignments.Alloc.State.{SBlock, Heap, Run, block_size, done, exit}
use os_assignments.Alloc.Ops.{mm_malloc, mm_free, get_block}
use os_assignments.Alloc.Spots.{Live, Settled}
use os_assignments.Alloc.Live.{IsHeap}
use os_assignments.Alloc.Serves.{mm_malloc-Allocates}
use os_assignments.Alloc.Frees.{free_at}
use os_assignments.Alloc.Refusals.{mm_free_unowned}

-- A heap after that many calls, in any order, that came back; a size stays below 2 ^ 63 with its
-- header, and a pointer is anything. The start is a heap of no block.
pub data Reach (fuel : ℕ) : Heap → ℕ → Type 0 where
  start : (h : Heap) → h.head ≡ 0 → h.brk ≤ h.limit → h.limit < 2 ^ 63 → 0 < h.brk → Reach fuel h 0
  allocated :
      {h : Heap} {k : ℕ} (n r : ℕ) (h' : Heap)
      → Reach fuel h k
      → n + block_size < 2 ^ 63
      → mm_malloc fuel n h ≡ done r h'
      → Reach fuel h' (suc k)
  released :
      {h : Heap} {k : ℕ} (ptr : ℕ) (h' : Heap)
      → Reach fuel h k
      → mm_free fuel ptr h ≡ done tt h'
      → Reach fuel h' (suc k)

-- The heap that a run came to is the one.
done_state :
    {A : Type 0} (a b : A) (h h' : Heap) (r : Run A) → r ≡ done a h → r ≡ done b h' → h ≡ h'
done_state a b h h' r e e' = cc

-- Either a block in use stands at `q`, or none does.
Live-or_not :
    (q f : ℕ) (xs : List SBlock)
    → Settled f xs
    → ((m : ℕ) × Live q m xs) ⊎ All (λ b. b.ptr ≡ q → b.free ≡ 1) xs
Live-or_not q f [] s = inr tt
Live-or_not q f (b ∷ xs) (here, s) = elim (Live-or_not q b.free xs s) [
  | inl (m, behind) ↦ inl (m, inr behind)
  | inr none_behind ↦ elim here [
    | inr (is_free, _) ↦ inr (λ e. is_free, none_behind)
    | inl used ↦ elim (Bool-cases (b.ptr == q)) [
      | inl at_q ↦ inl (b.size, inl (ground arith, refl, used))
      | inr off ↦ inr (λ e. absurd (ground arith), none_behind)
    ]
  ]
]

-- Whatever pointer is given back in a well-formed heap.
free_any :
    (fuel ptr : ℕ) (xs : List SBlock) (h : Heap)
    → IsHeap h xs
    → length xs < fuel
    → ((h' : Heap) × (xs' : List SBlock) × (mm_free fuel ptr h ≡ done tt h')
        × IsHeap h' xs'
        × (length xs' ≤ length xs))
      ⊎ (mm_free fuel ptr h ≡ exit 1)
free_any fuel ptr xs h i f = elim (Live-or_not (get_block ptr) 0 xs i.settled) [
  | inl (m, s) ↦
      let (h', xs', run, r) = free_at fuel ptr (get_block ptr) m xs h refl i s f in
      inl (h', xs', run, r.heap, r.count)
  | inr unused ↦ inr (mm_free_unowned fuel ptr xs h i.holds unused f)
]

malloc_any :
    (fuel n : ℕ) (xs : List SBlock) (h : Heap)
    → IsHeap h xs
    → n + block_size < 2 ^ 63
    → length xs < fuel
    → (r : ℕ) × (h' : Heap) × (xs' : List SBlock) × (mm_malloc fuel n h ≡ done r h')
      × IsHeap h' xs'
      × (length xs' ≤ length xs + 1)
malloc_any fuel n xs h i w f = elim (mm_malloc-Allocates fuel n h xs i w f) [
  | inl (h', xs', p, m, run, a) ↦ (p + block_size, h', xs', run, a.heap, a.count)
  | inr (run, _, _) ↦ (40, h, xs, run, i, omega arith)
]

-- After any calls of `mm_malloc` for sizes in range and of `mm_free` for any pointers, from an empty
-- heap on and fewer than fuel, each of which came back: the heap is a chain of blocks one behind the other, below the break, linked both ways, in which no two
-- neighbours are free; and it has at most as many blocks as there were calls.
pub Reach-IsHeap :
    (fuel : ℕ) {h : Heap} {k : ℕ}
    → Reach fuel h k
    → k < fuel
    → (xs : List SBlock) × IsHeap h xs × (length xs ≤ k)
Reach-IsHeap fuel (start h empty below bounded positive) f = (
  [],
  record {
    holds = (empty, omega arith);
    settled = tt;
    below = below;
    bounded = bounded;
    positive = positive;
  },
  omega arith,
)
Reach-IsHeap fuel (allocated {h = h0} n r h' reach w run) f =
    let (xs, i, small) = Reach-IsHeap fuel reach (omega arith) in
    let (r'', h'', xs'', run'', i'', count) = malloc_any fuel n xs h0 i w (omega arith) in
    (
      xs'',
      subst (λ (g : Heap). IsHeap g xs'') (done_state r'' r h'' h' _ run'' run) i'',
      omega arith,
    )
Reach-IsHeap fuel (released {h = h0} ptr h' reach run) f =
    let (xs, i, small) = Reach-IsHeap fuel reach (omega arith) in
    elim (free_any fuel ptr xs h0 i (omega arith)) [
      | inl (h'', xs'', run'', i'', count) ↦ (
        xs'',
        subst (λ (g : Heap). IsHeap g xs'') (done_state tt tt h'' h' _ run'' run) i'',
        omega arith,
      )
      | inr ended ↦ absurd (cc)
    ]

-- After any calls of `mm_malloc` for sizes in range and of `mm_free` for any pointers, from an empty
-- heap on and fewer than fuel, each of which came back, the next one of either kind comes to an end:
-- `mm_malloc` of a size in range returns, and `mm_free` of any pointer returns or ends the program with status 1.
-- None of them faults or runs out of fuel.
pub Reach-ends :
    (fuel : ℕ) {h : Heap} {k : ℕ} (n ptr : ℕ)
    → Reach fuel h k
    → k < fuel
    → n + block_size < 2 ^ 63
    → ((r : ℕ) × (h' : Heap) × (mm_malloc fuel n h ≡ done r h'))
      × (((h' : Heap) × (mm_free fuel ptr h ≡ done tt h')) ⊎ (mm_free fuel ptr h ≡ exit 1))
Reach-ends fuel {h = h} n ptr reach f w =
    let (xs, i, small) = Reach-IsHeap fuel reach f in
    let (r, h', xs', run, i', count) = malloc_any fuel n xs h i w (omega arith) in
    (
      (r, h', run),
      elim (free_any fuel ptr xs h i (omega arith)) [
        | inl (h'', xs'', run', i'', count') ↦ inl (h'', run')
        | inr ended ↦ inr ended
      ],
    )
