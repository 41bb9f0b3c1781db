-- ===== src/Alloc/Agreeing.antt =====
-- What a program of Alloc.Session knows agrees with the heap of hw3/mm_alloc.c, call by call.
use os_assignments.Base.{
  ℕ, ◌+◌, ◌-◌, ◌<◌, ◌≤◌, ◌≡◌, ◌≢◌, refl, sym, subst, ap, true, none, some, List, ◌∷◌, arith, ◌∙◌,
  inl, inr, ◌==◌, ltb, Bool-cases,
}
use os_assignments.Alloc.State.{SBlock, Heap, block_size, inside}
use os_assignments.Alloc.Spots.{Live}
use os_assignments.Alloc.Live.{IsHeap, Allocates, Releases}
use os_assignments.Alloc.Moving.{Moves}
use os_assignments.Alloc.Harness.{poked}
use os_assignments.Alloc.Filling.{poked-Holds}
use os_assignments.Alloc.Session.{
  Owned, Knows, Owns, held, without, size_at, moved_to, after, ask, give_back, resize, write,
}
use os_assignments.Alloc.Owning.{
  Distinct, held-Owns, Owns-held, held-cons, Owns-without, Distinct-without, kept_some,
}

-- A block in use is behind the pointer `q`, with room for the `n` bytes asked for.
abbrev pub Backs : ℕ → ℕ → List SBlock → Type 0
Backs q n xs =
    (p : ℕ) × (m : ℕ) × (q ≡ p + block_size) × Live p m xs × (n ≤ m) × (m ≤ n + block_size)

some_inj : (v w : ℕ) → some v ≡ some w → v ≡ w
some_inj v w e = cc

none-some : (v : ℕ) → none ≡ some v → ⊥
none-some v e = cc

pub record Agrees (h : Heap) (k : Knows) (xs : List SBlock) : Type 0 where
  pub heap : IsHeap h xs
  pub backed : (q n : ℕ) → Owns q n k.blocks → Backs q n xs
  pub distinct : Distinct k.blocks
  pub reads : (a v : ℕ) → k.known a ≡ some v → (h.byte a ≡ v) × (held k.blocks a ≡ true)

module _ (h h' : Heap) (k : Knows) (xs xs' : List SBlock) (g : Agrees h k xs) where
  -- The program's own blocks keep their bytes in a new heap, if the blocks behind them do.
  held-keeps :
      (a : ℕ)
      → (q : ℕ) × (n : ℕ) × Owns q n k.blocks × (q ≤ a) × (a < q + n)
      → ((p m : ℕ)
          → Live p m xs
          → a < p + (block_size + m)
          → p + block_size ≤ a
          → h'.byte a ≡ h.byte a)
      → h'.byte a ≡ h.byte a
  held-keeps a (q, n, owns, above, under) same =
      let (p, m, at_q, live, le, ge) = g.backed q n owns in
      same p m live (omega arith) (omega arith)

  pub Agrees-asked :
      (n p m : ℕ) → Allocates h xs n h' xs' p m → Agrees h' (after (ask n) (p + block_size) k) xs'
  unfolding after
  Agrees-asked n p m a = record {
    heap = a.heap;
    backed = λ q n' owns. elim owns [
      | inl (e, e') ↦ (
        p,
        m,
        sym e,
        (a.live p m).1 (inr (refl, refl)),
        omega (arith, a.enough),
        omega (arith, a.near),
      )
      | inr old ↦
          let (p0, m0, at_q, live, le, ge) = g.backed q n' old in
          (p0, m0, at_q, (a.live p0 m0).1 (inl live), le, ge)
    ];
    distinct = (
      λ n' owns.
          let (p0, m0, at_q, live, le, ge) = g.backed (p + block_size) n' owns in
          a.fresh m0 (subst (λ (q : ℕ). Live q m0 xs) (omega arith) live),
      g.distinct,
    );
    reads = λ b v e.
        let (same, here) = g.reads b v e in
        (
          held-keeps b (held-Owns k.blocks b here)
                (λ p0 m0 live under above. a.keeps p0 m0 live b above under)
              ∙ same,
          held-cons (record { at = p + block_size; bytes = n }) k.blocks b here,
        );
  }

  -- What is left where the block at `p` went, if the others keep their bytes.
  module _ (p ptr : ℕ) (at_ptr : ptr ≡ p + block_size)
      (keeps : (q m : ℕ)
        → Live q m xs
        → q ≢ p
        → (a : ℕ) → q + block_size ≤ a
        → a < q + (block_size + m)
        → h'.byte a ≡ h.byte a) where
    left_backed :
        (q n : ℕ)
        → Owns q n (without ptr k.blocks)
        → (p0 : ℕ) × (m0 : ℕ) × (q ≡ p0 + block_size)
          × Live p0 m0 xs
          × (p0 ≢ p)
          × (n ≤ m0)
          × (m0 ≤ n + block_size)
    left_backed q n owns =
        let (old, off) = Owns-without ptr q n k.blocks owns in
        let (p0, m0, at_q, live, le, ge) = g.backed q n old in
        (p0, m0, at_q, live, (λ e. off (omega arith)), le, ge)

    left_reads :
        (a v : ℕ) → k.known a ≡ some v → held (without ptr k.blocks) a ≡ true → h'.byte a ≡ v
    left_reads a v was here =
        let (q, n, owns, above, under) = held-Owns (without ptr k.blocks) a here in
        let (p0, m0, at_q, live, off, le, ge) = left_backed q n owns in
        keeps p0 m0 live off a (omega arith) (omega arith) ∙ (g.reads a v was).0

  pub Agrees-returned :
      (p ptr r : ℕ)
      → ptr ≡ p + block_size
      → Releases h xs p h' xs'
      → Agrees h' (after (give_back ptr) r k) xs'
  unfolding after
  Agrees-returned p ptr r at_ptr s = record {
    heap = s.heap;
    backed = λ q n owns.
        let (p0, m0, at_q, live, off, le, ge) = left_backed p ptr at_ptr s.keeps q n owns in
        (p0, m0, at_q, (s.live p0 m0).1 (live, off), le, ge);
    distinct = Distinct-without ptr k.blocks g.distinct;
    reads = λ a v e.
        let (was, here) = kept_some (without ptr k.blocks) k.known a v e in
        (left_reads p ptr at_ptr s.keeps a v was here, here);
  }

  -- A byte that is known in the block moved to was known in the old one.
  moved_known :
      (r n q s a v : ℕ)
      → inside r n a ≡ true
      → moved_to r n q s (without q k.blocks) k.known a ≡ some v
      → (a - r < s) × (k.known (q + (a - r)) ≡ some v)
  moved_known r n q s a v here e = elim (Bool-cases (ltb (a - r) s)) [
    | inl small ↦ (ground arith, simp (here, small) at e)
    | inr large ↦ absurd (none-some v (simp (here, large) at e))
  ]

  pub Agrees-moved :
      (p m p' m' ptr n : ℕ)
      → ptr ≡ p + block_size
      → size_at ptr k.blocks ≤ m
      → n ≤ m'
      → m' ≤ n + block_size
      → Moves h xs p m h' xs' p' m'
      → Agrees h' (after (resize ptr n) (p' + block_size) k) xs'
  unfolding after
  Agrees-moved p m p' m' ptr n at_ptr le enough near s =
      let new : Owned = record { at = p' + block_size; bytes = n } in
      let left = without ptr k.blocks in
      record {
        heap = s.heap;
        backed = λ q n' owns. elim owns [
          | inl (e, e') ↦
              (p', m', sym e, (s.live p' m').1 (inr (refl, refl)), omega arith, omega arith)
          | inr old ↦
              let (p0, m0, at_q, live, off, le0, ge) = left_backed p ptr at_ptr s.keeps q n' old in
              (p0, m0, at_q, (s.live p0 m0).1 (inl (live, off)), le0, ge)
        ];
        distinct = (
          λ n' owns.
              let (p0, m0, at_q, live, off, le0, ge) =
                left_backed p ptr at_ptr s.keeps (p' + block_size) n' owns in
              s.fresh m0 (subst (λ (q : ℕ). Live q m0 xs) (omega arith) live),
          Distinct-without ptr k.blocks g.distinct,
        );
        reads = λ a v e. elim (Bool-cases (inside (p' + block_size) n a)) [
          | inl here ↦
              let (small, was) =
                moved_known (p' + block_size) n ptr (size_at ptr k.blocks) a v here e in
              let place : p' + block_size + (a - (p' + block_size)) ≡ a = ground arith in
              let source : ptr + (a - (p' + block_size))
                  ≡ p + block_size + (a - (p' + block_size)) =
                omega arith in
              (
                ap h'.byte (sym place)
                    ∙ s.moved (a - (p' + block_size)) (omega arith)
                    ∙ ap h.byte (sym source)
                    ∙ (g.reads (ptr + (a - (p' + block_size))) v was).0,
                Owns-held (new ∷ left) (p' + block_size) n a (inl (refl, refl)) (ground arith)
                    (ground arith),
              )
          | inr off ↦
              let (was, here) = kept_some left k.known a v (simp off at e) in
              (left_reads p ptr at_ptr s.keeps a v was here, held-cons new left a here)
        ];
      }

-- A byte that the program writes into a block of its own.
pub Agrees-wrote :
    (h : Heap) (k : Knows) (xs : List SBlock) (a v r : ℕ)
    → Agrees h k xs
    → held k.blocks a ≡ true
    → Agrees (poked a v h) (after (write a v) r k) xs
unfolding after
Agrees-wrote h k xs a v r g here =
    let i = g.heap in
    let (q, n, owns, above, under) = held-Owns k.blocks a here in
    let (p, m, at_q, live, le, ge) = g.backed q n owns in
    record {
      heap = record {
        holds = poked-Holds p m a v xs h i.holds live (omega arith) (omega arith);
        settled = i.settled;
        below = i.below;
        bounded = i.bounded;
        positive = i.positive;
      };
      backed = g.backed;
      distinct = g.distinct;
      reads = λ b w e. elim (Bool-cases (b == a)) [
        | inl same ↦ (
          rw same (some_inj v w (simp same at e)),
          subst (λ (c : ℕ). held k.blocks c ≡ true) (ground arith) here,
        )
        | inr off ↦ let (was, there) = g.reads b w (simp off at e) in (rw off was, there)
      ];
    }
