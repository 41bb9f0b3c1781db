-- ===== src/Alloc/Coming.antt =====
-- Each call that a program of Alloc.Session may make of hw3/mm_alloc.c comes back.
use os_assignments.Base.{
  ℕ, ◌+◌, ◌<◌, ◌≤◌, ◌≡◌, ◌^◌, refl, sym, subst, List, arith, ◌⊎◌, inl, inr, length,
}
use os_assignments.Alloc.State.{SBlock, Heap, Run, block_size, done, exit}
use os_assignments.Base.Machine.{resume, fault, blocked, out_of_fuel}
use os_assignments.Alloc.Ops.{mm_malloc, mm_realloc, get_block}
use os_assignments.Alloc.Spots.{Live, Spot-bounds}
use os_assignments.Alloc.Live.{IsHeap}
use os_assignments.Alloc.Extending.{first_fit-Unfit}
use os_assignments.Alloc.Refusals.{mm_malloc_full}
use os_assignments.Alloc.Serves.{mm_malloc-Allocates}
use os_assignments.Alloc.Frees.{free_at}
use os_assignments.Alloc.Realloc.{mm_realloc-Moves}
use os_assignments.Alloc.Harness.{put_char, poked}
use os_assignments.Alloc.Session.{
  Call, ask, give_back, resize, write, run_call, Knows, size_at, after, IsPermitted, IsServed,
}
use os_assignments.Alloc.Agreeing.{
  Agrees, Agrees-asked, Agrees-returned, Agrees-moved, Agrees-wrote,
}

-- A call that comes back, to a heap that agrees with what the program then knows.
abbrev pub Comes : ℕ → Heap → Knows → List SBlock → Call → Type 0
Comes fuel h k xs call =
    (r : ℕ) × (h' : Heap) × (xs' : List SBlock) × (run_call fuel call h ≡ done r h')
    × Agrees h' (after call r k) xs'
    × (length xs' ≤ length xs + 1)

-- The bytes that a call asks the system for, with the header, are more than the break can grow by.
abbrev pub wanted : Call → ℕ
wanted (ask n) = n
wanted (resize ptr n) = n
wanted _ = 0

abbrev pub IsFull : Heap → Call → Type 0
IsFull h call = h.limit < h.brk + (wanted call + block_size)

get_block-at :
    (p m ptr : ℕ) {xs : List SBlock} {h : Heap}
    → IsHeap h xs
    → Live p m xs
    → ptr ≡ p + block_size
    → get_block ptr ≡ p
get_block-at p m ptr {xs} {h} i live e =
    let (above, under) = Spot-bounds p m 0 h.cell h.brk 0 h.head 0 xs i.holds live in
    let below = i.below in let bounded = i.bounded in omega arith

-- A run has one result and one last heap.
pub same_end :
    {a b : ℕ} {h h' : Heap} (o : Run ℕ) → o ≡ done a h → o ≡ done b h' → (a ≡ b) × (h ≡ h')
same_end o e e' = (cc, cc)

-- A run that goes on to return `r`.
ends_in :
    (r r' : ℕ) (h' : Heap) (o : Run (Unit {0})) → resume (λ _ t. done r t) o ≡ done r' h' → r' ≡ r
ends_in r r' h' (done u t) e = cc
ends_in r r' h' fault e = cc
ends_in r r' h' blocked e = cc
ends_in r r' h' out_of_fuel e = cc
ends_in r r' h' (exit n) e = cc

-- Where `mm_malloc` has no memory to give, `mm_realloc` returns what it returned, if at all.
realloc_full :
    (fuel ptr n r : ℕ) (h h' : Heap)
    → mm_malloc fuel n h ≡ done 40 h
    → mm_realloc fuel ptr n h ≡ done r h'
    → r ≡ 40
unfolding mm_realloc
realloc_full fuel ptr n r h h' run e = ends_in 40 r h' _ (simp run at e)

module _ (fuel : ℕ) (h : Heap) (k : Knows) (xs : List SBlock) (g : Agrees h k xs)
    (f : length xs + 1 < fuel) where
  come_ask :
      (n : ℕ)
      → n + block_size < 2 ^ 63
      → Comes fuel h k xs (ask n) ⊎ (IsFull h (ask n) × (run_call fuel (ask n) h ≡ done 40 h))
  unfolding run_call
  come_ask n w = elim (mm_malloc-Allocates fuel n h xs g.heap w (omega arith)) [
    | inl (h', xs', p, m, run, a) ↦
        inl (p + block_size, h', xs', run, Agrees-asked h h' k xs xs' g n p m a, a.count)
    | inr (run, unfit, full) ↦ inr (full, run)
  ]

  come_give_back : (ptr : ℕ) → IsPermitted (give_back ptr) k → Comes fuel h k xs (give_back ptr)
  unfolding run_call
  come_give_back ptr (n, owns) =
      let i = g.heap in
      let (p, m, at_ptr, live, le, ge) = g.backed ptr n owns in
      let at_p : get_block ptr ≡ p = get_block-at p m ptr i live at_ptr in
      let (h', xs', run, s) = free_at fuel ptr p m xs h at_p i live (omega arith) in
      (
        0,
        h',
        xs',
        rw run refl,
        Agrees-returned h h' k xs xs' g p ptr 0 at_ptr s,
        omega (arith, s.count),
      )

  come_resize :
      (ptr n : ℕ)
      → IsPermitted (resize ptr n) k
      → Comes fuel h k xs (resize ptr n)
        ⊎ (IsFull h (resize ptr n)
            × ((r : ℕ) (h' : Heap) → run_call fuel (resize ptr n) h ≡ done r h' → r ≡ 40))
  unfolding run_call
  come_resize ptr n (owns, grows, w) =
      let i = g.heap in
      let (p, m, at_ptr, live, le, ge) = g.backed ptr (size_at ptr k.blocks) owns in
      elim (mm_realloc-Moves fuel n p m xs h i live (omega arith) w f) [
        | inl (h', xs', p', m', run, enough, near, s) ↦ inl (
          p' + block_size,
          h',
          xs',
          subst (λ (q : ℕ). mm_realloc fuel q n h ≡ done (p' + block_size) h') (sym at_ptr) run,
          Agrees-moved h h' k xs xs' g p m p' m' ptr n at_ptr le enough near s,
          s.count,
        )
        | inr (unfit, full) ↦ inr (
          full,
          λ r h' e.
              realloc_full fuel ptr n r h h'
                (mm_malloc_full fuel n xs h i.holds (first_fit-Unfit n xs unfit) w full
                  (omega arith))
                e,
        )
      ]

  come_write : (a v : ℕ) → IsPermitted (write a v) k → Comes fuel h k xs (write a v)
  unfolding run_call put_char
  come_write a v here = (0, poked a v h, xs, refl, Agrees-wrote h k xs a v 0 g here, omega arith)

  -- Whatever a program may do comes back, or there is no memory for it.
  pub come_any :
      (call : Call)
      → IsPermitted call k
      → Comes fuel h k xs call
        ⊎ (IsFull h call
            × ((r : ℕ) (h' : Heap) → run_call fuel call h ≡ done r h' → IsServed call r → ⊥))
  come_any (ask n) w = elim (come_ask n w) [
    | inl came ↦ inl came
    | inr (full, run) ↦ inr (full, λ r h' e served. served (sym (same_end _ run e).0))
  ]
  come_any (give_back ptr) owns = inl (come_give_back ptr owns)
  come_any (resize ptr n) permitted = elim (come_resize ptr n permitted) [
    | inl came ↦ inl came
    | inr (full, ends) ↦ inr (full, λ r h' e served. served (ends r h' e))
  ]
  come_any (write a v) here = inl (come_write a v here)
