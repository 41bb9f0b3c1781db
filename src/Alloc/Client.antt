-- ===== src/Alloc/Client.antt =====
-- The program of hw3/mm_test.c as a client of the allocator.
use os_assignments.Base.{
  ℕ, ◌+◌, ◌<◌, ◌≤◌, ◌≡◌, ◌^◌, refl, List, [], ◌∷◌, arith, length, ◌∙◌, inl, inr, All,
}
use os_assignments.Alloc.State.{SBlock, Heap, block_size, done}
use os_assignments.Alloc.Ops.{mm_malloc}
use os_assignments.Alloc.Blocks.{Holds}
use os_assignments.Alloc.Extending.{grown, mm_malloc-first, mm_malloc-extend}
use os_assignments.Alloc.Spots.{Live, Settled}
use os_assignments.Alloc.Live.{IsHeap}
use os_assignments.Alloc.Realloc.{Moved, mm_realloc-Moves}
use os_assignments.Alloc.Printing.{print_all_meta-Holds}
use os_assignments.Alloc.Harness.{Printed, main, put_char, poked, get_char, char_at, size_of_char}
use os_assignments.Alloc.Filling.{poked-Holds, Letters, fill_chars-Letters}

-- A list of four blocks in use of 40 bytes, as the program prints it.
abbrev pub FourUsed : List SBlock → Type 0
FourUsed xs = (length xs ≡ 4) × All (λ x. (x.size ≡ 40) × (x.free ≡ 0)) xs

-- The blocks of four calls for 40 bytes, by their addresses.
abbrev blocks_at : ℕ → ℕ → ℕ → ℕ → List SBlock
blocks_at a b c d =
    record (grown a 40 0) { next = b }
    ∷ record (grown b 40 a) { next = c }
    ∷ record (grown c 40 b) { next = d }
    ∷ grown d 40 c
    ∷ []

blocks_at-FourUsed :
    (a b c d : ℕ)
    → Settled 0 (blocks_at a b c d) × Live d 40 (blocks_at a b c d) × FourUsed (blocks_at a b c d)
blocks_at-FourUsed a b c d = (
  (inl refl, (inl refl, (inl refl, (inl refl, tt)))),
  inr (inr (inr (inl (refl, refl, refl)))),
  (refl, ((refl, refl), ((refl, refl), ((refl, refl), ((refl, refl), tt))))),
)

-- The heap behind the four calls of `mm_malloc`.
abbrev FourBlocks : ℕ → Heap → Type 0
FourBlocks fuel h =
    (h1 : Heap) × (h2 : Heap) × (h3 : Heap) × (h4 : Heap) × (p0 : ℕ) × (p1 : ℕ) × (p2 : ℕ)
    × (p3 : ℕ) × (xs : List SBlock) × (mm_malloc fuel 40 h ≡ done (p0 + block_size) h1)
    × (mm_malloc fuel 40 (poked (p0 + block_size) 1 h1) ≡ done (p1 + block_size) h2)
    × (mm_malloc fuel 40 h2 ≡ done (p2 + block_size) h3)
    × (mm_malloc fuel 40 h3 ≡ done (p3 + block_size) h4)
    × Holds h4 xs
    × Settled 0 xs
    × Live p3 40 xs
    × FourUsed xs
    × (0 < h4.brk)
    × (h4.brk + 120 ≤ h4.limit)
    × (h4.limit ≡ h.limit)

four_blocks :
    (fuel : ℕ) (h : Heap)
    → h.head ≡ 0
    → 0 < h.brk
    → h.brk + 440 ≤ h.limit
    → h.limit < 2 ^ 63
    → 5 < fuel
    → FourBlocks fuel h
four_blocks fuel h empty some_brk room w f =
    let (h1, run1, holds1, brk1, limit1) =
      mm_malloc-first fuel 40 h (empty, omega arith) (omega arith) (omega arith) (omega arith)
        some_brk in
    let b1 = grown h.brk 40 0 in
    let h1' = poked (h.brk + block_size) 1 h1 in
    let holds1' =
      poked-Holds h.brk 40 (h.brk + block_size) 1 (b1 ∷ []) h1 holds1 (inl (refl, refl, refl))
        (omega arith) (omega arith) in
    let (h2, run2, holds2, zeros2, same2, brk2, limit2) =
      mm_malloc-extend fuel 40 [] b1 h1' holds1' (refl, tt) (omega arith) (omega arith)
        (omega arith) (omega arith) in
    let b1' = record b1 { next = h1.brk } in
    let b2 = grown h1.brk 40 h.brk in
    let (h3, run3, holds3, zeros3, same3, brk3, limit3) =
      mm_malloc-extend fuel 40 (b1' ∷ []) b2 h2 holds2 (refl, (refl, tt)) (omega arith)
        (omega arith) (omega arith) (omega arith) in
    let b2' = record b2 { next = h2.brk } in
    let b3 = grown h2.brk 40 h1.brk in
    let (h4, run4, holds4, zeros4, same4, brk4, limit4) =
      mm_malloc-extend fuel 40 (b1' ∷ b2' ∷ []) b3 h3 holds3 (refl, (refl, (refl, tt)))
        (omega arith) (omega arith) (omega arith) (omega arith) in
    let (settled, live, used) = blocks_at-FourUsed h.brk h1.brk h2.brk h3.brk in
    (
      h1,
      h2,
      h3,
      h4,
      h.brk,
      h1.brk,
      h2.brk,
      h3.brk,
      blocks_at h.brk h1.brk h2.brk h3.brk,
      run1,
      run2,
      run3,
      run4,
      holds4,
      settled,
      live,
      used,
      omega arith,
      omega arith,
      omega arith,
    )

-- What the program comes to: it prints the four blocks, then a well-formed heap, in which the letters
-- stand at the front of a block in use of at least 80 bytes.
abbrev pub Prints : ℕ → Heap → Type 0
Prints fuel h =
    (out : Printed) × (h' : Heap) × (p : ℕ) × (m : ℕ) × (main fuel h ≡ done out h')
    × FourUsed out.before
    × IsHeap h' out.after
    × Live p m out.after
    × (80 ≤ m)
    × Letters h' p 40

main-moves :
    (fuel : ℕ) (h h4 : Heap) (xs : List SBlock) (p : ℕ)
    → IsHeap h4 xs
    → Live p 40 xs
    → length xs ≡ 4
    → h4.brk + 120 ≤ h4.limit
    → 5 < fuel
    → Moved fuel 80 h4 xs p 40
main-moves fuel h h4 xs p i live four room f =
    elim (mm_realloc-Moves fuel 80 p 40 xs h4 i live (omega arith) (omega arith) (omega arith)) [
      | inl moved ↦ moved
      | inr (unfit, full) ↦ absurd (omega arith)
    ]

-- In a process that has no block yet, and whose break can grow by the 440 bytes of five blocks, the
-- program comes to its end with more than 5 of fuel. It prints four blocks in use of 40 bytes, and
-- then the blocks of a well-formed heap; in a block in use of at least 80 bytes stand the 40 letters
-- that the loop stored in the old array.
pub main-Prints :
    (fuel : ℕ) (h : Heap)
    → h.head ≡ 0
    → 0 < h.brk
    → h.brk + 440 ≤ h.limit
    → h.limit < 2 ^ 63
    → 5 < fuel
    → Prints fuel h
unfolding main put_char get_char
main-Prints fuel h empty some_brk room w f =
    let (
      h1, h2, h3, h4, p0, p1, p2, p3, xs, run1, run2, run3, run4, holds4, settled, live, used,
      some_brk4, room4, limit4,
    ) =
      four_blocks fuel h empty some_brk room w f in
    let shown = print_all_meta-Holds fuel xs h4 holds4 (omega arith) (omega (arith, used.0)) in
    let (h5, run5, holds5, letters, brk5, limit5) =
      fill_chars-Letters 40 0 p3 40 xs h4 holds4 live (omega arith)
        (λ j under. absurd (omega arith)) in
    let i : IsHeap h5 xs = record {
      holds = holds5;
      settled = settled;
      below = omega arith;
      bounded = omega arith;
      positive = omega arith;
    } in
    let (h6, xs', p', m', run6, large, near, a) =
      main-moves fuel h h5 xs p3 i live used.0 (omega arith) f in
    let i6 = a.heap in
    let shown' =
      print_all_meta-Holds fuel xs' h6 i6.holds (omega (arith, i6.below, i6.bounded))
        (omega (arith, a.count, used.0)) in
    (
      record {
        before = xs;
        after = xs';
        register_after = size_of_char (char_at (p3 + block_size + 40) h6);
      },
      h6,
      p',
      m',
      rw (run1, run2, run3, run4, shown, run5, run6, shown') refl,
      used,
      i6,
      (a.live p' m').1 (inr (refl, refl)),
      large,
      λ j under. a.moved j under ∙ letters j under,
    )
