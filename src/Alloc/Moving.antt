-- ===== src/Alloc/Moving.antt =====
-- `mm_realloc` of hw3/mm_alloc.c to a size that is no smaller.
use os_assignments.Base.{
  ℕ, ◌+◌, ◌-◌, ◌<◌, ◌≤◌, ◌≡◌, ◌≢◌, ◌↔◌, refl, sym, subst, false, true, Option, some, List, [], ◌∷◌,
  arith, ◌⊎◌, ◌∙◌, inl, inr, length, ◌==◌, if◌then◌else◌,
}
use os_assignments.Alloc.State.{SBlock, Heap, block_size, done, load, memcpy, inside}
use os_assignments.Alloc.Ops.{mm_malloc, mm_free, mm_realloc, get_block, data_of}
use os_assignments.Alloc.Blocks.{Chain}
use os_assignments.Alloc.Splitting.{wiped}
use os_assignments.Alloc.Spots.{Spot, Live, Spots-apart}
use os_assignments.Alloc.Live.{IsHeap, Allocates, Releases, Keeps}

-- A change of cells that are no header of the list.
pub Chain-same :
    (cell cell' : ℕ → Option SBlock) (top lo p back : ℕ) (xs : List SBlock)
    → ((q m f : ℕ) → Spot q m f xs → cell' q ≡ cell q)
    → Chain cell top lo p back xs
    → Chain cell' top lo p back xs
Chain-same cell cell' top lo p back [] same l = l
Chain-same cell cell' top lo p back (b ∷ xs) same (ne, at_p, own, pr, low, rest) = (
  ne,
  same p b.size b.free (inl (own, refl, refl)) ∙ at_p,
  own,
  pr,
  low,
  Chain-same cell cell' top (p + (block_size + b.size)) b.next p xs (λ q m f s. same q m f (inr s))
      rest,
)

pub Spot-cell :
    (q m f : ℕ) (cell : ℕ → Option SBlock) (top lo p back : ℕ) (xs : List SBlock)
    → Chain cell top lo p back xs
    → Spot q m f xs
    → (x : SBlock) × (q ≢ 0) × (cell q ≡ some x) × (x.size ≡ m)
Spot-cell q m f cell top lo p back [] l s = absurd s
Spot-cell q m f cell top lo p back (b ∷ xs) (ne, at_p, own, pr, low, rest) (inl (e, e', _)) =
    let here : q ≡ p = sym e ∙ own in
    (
      b,
      subst (λ (a : ℕ). a ≢ 0) (sym here) ne,
      subst (λ (a : ℕ). cell a ≡ some b) (sym here) at_p,
      e',
    )
Spot-cell q m f cell top lo p back (b ∷ xs) (ne, at_p, own, pr, low, rest) (inr s) =
    Spot-cell q m f cell top (p + (block_size + b.size)) b.next p xs rest s

-- The heap behind a `memcpy`.
abbrev pub copied : ℕ → ℕ → ℕ → Heap → Heap
copied p q n h = record h {
  cell = wiped p n h.cell;
  byte = λ a. if inside p n a then h.byte (q + (a - p)) else h.byte a;
}

pub memcpy-copied : (p q n : ℕ) (h : Heap) → memcpy p q n h ≡ done tt (copied p q n h)
unfolding memcpy
memcpy-copied p q n h = refl

-- Copying into the data of a block touches no header.
copied-IsHeap :
    (p m n q : ℕ) (xs : List SBlock) (h : Heap)
    → IsHeap h xs
    → Live p m xs
    → n ≤ m
    → IsHeap (copied (p + block_size) q n h) xs
copied-IsHeap p m n q xs h i live le = record {
  holds =
      Chain-same h.cell (copied (p + block_size) q n h).cell h.brk 0 h.head 0 xs
        (λ a k f s. elim (Spots-apart a k f p m 0 h.cell h.brk 0 h.head 0 xs i.holds s live) [
          | inl (e, _, _) ↦ ground arith
          | inr (inl before) ↦ ground arith
          | inr (inr after) ↦ ground arith
        ])
        i.holds;
  settled = i.settled;
  below = i.below;
  bounded = i.bounded;
  positive = i.positive;
}

-- A block that was moved: at `p` with `m` bytes before, and at `p'` with `m'` bytes now. The blocks
-- in use are the other old ones, with their bytes, and the new one, which has the old one's.
pub record Moves (h : Heap) (xs : List SBlock) (p m : ℕ) (h' : Heap) (xs' : List SBlock) (p' m' : ℕ)
    : Type 0 where
  pub heap : IsHeap h' xs'
  pub live : (q k : ℕ) → Live q k xs' ↔ ((Live q k xs × (q ≢ p)) ⊎ ((q ≡ p') × (k ≡ m')))
  pub moved : (a : ℕ) → a < m → h'.byte (p' + block_size + a) ≡ h.byte (p + block_size + a)
  pub keeps : (q k : ℕ) → Live q k xs → q ≢ p → Keeps h h' q k
  pub count : length xs' ≤ length xs + 1
  pub fresh : (k : ℕ) → Live p' k xs → ⊥

module _ (h h1 : Heap) (xs xs1 : List SBlock) (n p m p' m' : ℕ) (live : Live p m xs) (le : m ≤ n)
    (a : Allocates h xs n h1 xs1 p' m') where
  abbrev pub h2 : Heap
  h2 = copied (p' + block_size) (p + block_size) m h1

  pub old-Live : Live p m xs1
  old-Live = (a.live p m).1 (inl live)

  new-Live : Live p' m' xs1
  new-Live = (a.live p' m').1 (inr (refl, refl))

  other : p' ≢ p
  other e = a.fresh m (subst (λ (q : ℕ). Live q m xs) (sym e) live)

  pub h2-IsHeap : IsHeap h2 xs1
  h2-IsHeap =
      copied-IsHeap p' m' m (p + block_size) xs1 h1 a.heap new-Live (omega (arith, a.enough))

  -- The copy changes the new block only.
  Keeps-copied : (q k : ℕ) → Live q k xs → Keeps h h2 q k
  Keeps-copied q k s =
      let s1 = (a.live q k).1 (inl s) in
      let i = a.heap in
      λ j above under.
        elim (Spots-apart q k 0 p' m' 0 h1.cell h1.brk 0 h1.head 0 xs1 i.holds s1 new-Live) [
          | inl (e, _, _) ↦ absurd (a.fresh k (subst (λ (r : ℕ). Live r k xs) e s))
          | inr (inl before) ↦
              let apart : inside (p' + block_size) m j ≡ false = ground arith in
              rw apart (a.keeps q k s j above under)
          | inr (inr after) ↦
              let fits' : m ≤ m' = omega (arith, a.enough) in
              let apart : inside (p' + block_size) m j ≡ false = ground arith in
              rw apart (a.keeps q k s j above under)
        ]

  moved-copied : (j : ℕ) → j < m → h2.byte (p' + block_size + j) ≡ h.byte (p + block_size + j)
  moved-copied j under =
      let within : inside (p' + block_size) m (p' + block_size + j) ≡ true = ground arith in
      let offset : p + block_size + (p' + block_size + j - (p' + block_size)) ≡ p + block_size + j =
        omega arith in
      rw (within, offset) (a.keeps p m live (p + block_size + j) (omega arith) (omega arith))

  pub Moves-released :
      (h3 : Heap) (xs3 : List SBlock) → Releases h2 xs1 p h3 xs3 → Moves h xs p m h3 xs3 p' m'
  Moves-released h3 xs3 r = record {
    heap = r.heap;
    live = λ q k. (
      λ s.
          let (s1, off) = (r.live q k).0 s in
          elim ((a.live q k).0 s1) [ inl old ↦ inl (old, off) | inr here ↦ inr here ],
      λ s. elim s [
        | inl (old, off) ↦ (r.live q k).1 ((a.live q k).1 (inl old), off)
        | inr (e, e') ↦
            (r.live q k).1 ((a.live q k).1 (inr (e, e')), subst (λ (t : ℕ). t ≢ p) (sym e) other)
      ],
    );
    moved = λ j under.
        let fits' : m ≤ m' = omega (arith, a.enough) in
        r.keeps p' m' new-Live other (p' + block_size + j) (omega arith) (omega arith)
        ∙ moved-copied j under;
    keeps = λ q k s off j above under.
        r.keeps q k ((a.live q k).1 (inl s)) off j above under ∙ Keeps-copied q k s j above under;
    count = omega (arith, r.count, a.count);
    fresh = a.fresh;
  }

-- The steps of `mm_realloc` behind a call of `mm_malloc` that returned a block.
pub mm_realloc-steps :
    (fuel ptr n p' : ℕ) (x : SBlock) (h h1 h3 : Heap)
    → mm_malloc fuel n h ≡ done (p' + block_size) h1
    → load (get_block ptr) h1 ≡ done x h1
    → mm_free fuel ptr (copied (p' + block_size) (data_of (get_block ptr)) x.size h1) ≡ done tt h3
    → mm_realloc fuel ptr n h ≡ done (p' + block_size) h3
unfolding mm_realloc
mm_realloc-steps fuel ptr n p' x h h1 h3 run loaded freed =
    let some_block : (p' + block_size == 0) ≡ false = ground arith in
    rw (
      run,
      some_block,
      loaded,
      memcpy-copied (p' + block_size) (data_of (get_block ptr)) x.size h1,
      freed,
    )
