-- ===== src/Alloc/Blocks.antt =====
-- The block list of hw3/mm_alloc.c: what it is for a heap to hold one, and the searches of
-- `mm_malloc` and `mm_free` on it.
use os_assignments.Base.{
  ℕ, zero, suc, ◌+◌, ◌<◌, ◌≤◌, ◌≡◌, ◌≢◌, Bool, true, false, ◌&&◌, Option, none, some, List, [], ◌∷◌,
  ◌==◌, leb, ltb, if◌then◌else◌, arith, length, All, ◌⊎◌, inl, inr, Bool-cases, ap,
}
use os_assignments.Alloc.State.{SBlock, Heap, block_size, word, load, done, add64}
use os_assignments.Alloc.Ops.{Pick, larger, exact, nothing, scan, owned}

-- The blocks from `p` on, which stand at addresses from `lo` to `top`, one behind the other and
-- without sharing a byte, each linked to the next and to the one in front of it, `back`.
abbrev pub Chain : (ℕ → Option SBlock) → ℕ → ℕ → ℕ → ℕ → List SBlock → Type 0
Chain cell top lo p back [] = (p ≡ 0) × (lo ≤ top)
Chain cell top lo p back (b ∷ xs) =
    (p ≢ 0)
    × (cell p ≡ some b)
    × (b.ptr ≡ p)
    × (b.prev ≡ back)
    × (lo ≤ p)
    × Chain cell top (p + (block_size + b.size)) b.next p xs

-- A heap with these blocks, all of them below the program break.
abbrev pub Holds : Heap → List SBlock → Type 0
Holds h xs = Chain h.cell h.brk 0 h.head 0 xs

-- A block that `mm_malloc` takes for `size` bytes.
abbrev pub fits : ℕ → SBlock → Bool
fits size b = b.free == 1 && leb (size + block_size) b.size

unfoldable pub first_fit : ℕ → List SBlock → Option SBlock
first_fit size [] = none
first_fit size (b ∷ xs) = if fits size b then some b else first_fit size xs

unfoldable pub last_ptr : ℕ → List SBlock → ℕ
last_ptr last [] = last
last_ptr last (b ∷ xs) = last_ptr b.ptr xs

unfoldable pub pick : ℕ → Option SBlock → ℕ → Pick
pick size none last = nothing last
pick size (some b) last = if b.size == size + block_size then exact b.ptr else larger b.ptr

module _ (h : Heap) (p : ℕ) (b : SBlock) (ne : p ≢ 0) (at_p : h.cell p ≡ some b) where
  pub load-at : load p h ≡ done b h
  unfolding load
  load-at = rw (at_p, load)

  pub not_null : (p == 0) ≡ false
  not_null = ground arith

-- The loop of `mm_malloc` goes over the whole list and comes to its first fit.
pub scan-first_fit :
    (fuel size top lo p back last : ℕ) (xs : List SBlock) (h : Heap)
    → Chain h.cell top lo p back xs
    → size + block_size < word
    → length xs < fuel
    → scan fuel size p last h ≡ done (pick size (first_fit size xs) (last_ptr last xs)) h
unfolding scan first_fit last_ptr pick
scan-first_fit zero size top lo p back last xs h l w f = absurd (omega arith)
scan-first_fit (suc k) size top lo p back last [] h l w f = rw (l.0)
scan-first_fit (suc k) size top lo p back last (b ∷ xs) h (ne, at_p, own, pr, low, rest) w f =
    let later =
      scan-first_fit k size top (p + (block_size + b.size)) b.next p p xs h rest w (omega arith) in
    let null = not_null h p b ne at_p in
    let loaded = load-at h p b ne at_p in
    let wrap : add64 size block_size ≡ size + block_size = omega arith in
    rw (null, loaded, wrap, own)
      (elim (Bool-cases (b.free == 1)) [
        | inl is_free ↦ elim (Bool-cases (leb (size + block_size) b.size)) [
          | inl big ↦ elim (Bool-cases (ltb (size + block_size) b.size)) [
            | inl above ↦
                let differs : (b.size == size + block_size) ≡ false = ground arith in
                rw (is_free, big, above, differs)
            | inr equal ↦
                let same : (b.size == size + block_size) ≡ true = ground arith in
                rw (is_free, big, equal, same)
          ]
          | inr small ↦
              let below : ltb (size + block_size) b.size ≡ false = ground arith in
              let differs : (b.size == size + block_size) ≡ false = ground arith in
              rw (is_free, small, below, differs) later
        ]
        | inr taken ↦ rw taken later
      ])

-- The search of `mm_free` finds the blocks' addresses and nothing else.
pub owned-unlisted :
    (fuel q top lo p back : ℕ) (xs : List SBlock) (h : Heap)
    → Chain h.cell top lo p back xs
    → All (λ b. q ≢ b.ptr) xs
    → length xs < fuel
    → owned fuel q p h ≡ done false h
unfolding owned
owned-unlisted zero q top lo p back xs h l n f = absurd (omega arith)
owned-unlisted (suc k) q top lo p back [] h l n f = rw (l.0)
owned-unlisted (suc k) q top lo p back (b ∷ xs) h (ne, at_p, own, pr, low, rest) n f =
    let later =
      owned-unlisted k q top (p + (block_size + b.size)) b.next p xs h rest n.1 (omega arith) in
    let null = not_null h p b ne at_p in
    let loaded = load-at h p b ne at_p in
    let other : (q == p) ≡ false = ground arith in rw (null, other, loaded) later

-- A block of the list.
abbrev pub Listed : SBlock → List SBlock → Type 0
Listed x [] = ⊥
Listed x (b ∷ xs) = (x ≡ b) ⊎ Listed x xs

pub owned-Listed :
    (fuel top lo p back : ℕ) (x : SBlock) (xs : List SBlock) (h : Heap)
    → Chain h.cell top lo p back xs
    → Listed x xs
    → length xs < fuel
    → owned fuel x.ptr p h ≡ done true h
unfolding owned
owned-Listed zero top lo p back x xs h l n f = absurd (omega arith)
owned-Listed (suc k) top lo p back x [] h l n f = absurd n
owned-Listed (suc k) top lo p back x (b ∷ xs) h (ne, at_p, own, pr, low, rest) (inl e) f =
    let null = not_null h p b ne at_p in
    let here : (x.ptr == p) ≡ true = ground (arith, ap SBlock.ptr e) in rw (null, here)
owned-Listed (suc k) top lo p back x (b ∷ xs) h (ne, at_p, own, pr, low, rest) (inr n) f =
    let null = not_null h p b ne at_p in
    let loaded = load-at h p b ne at_p in
    let later =
      owned-Listed k top (p + (block_size + b.size)) b.next p x xs h rest n (omega arith) in
    elim (Bool-cases (x.ptr == p)) [
      | inl here ↦ rw (null, here)
      | inr off ↦ rw (null, off, loaded) later
    ]

-- A listed block's header stands at its address, between the bounds.
pub Listed-cell :
    (cell : ℕ → Option SBlock) (top lo p back : ℕ) (x : SBlock) (xs : List SBlock)
    → Chain cell top lo p back xs
    → Listed x xs
    → (x.ptr ≢ 0) × (cell x.ptr ≡ some x) × (lo ≤ x.ptr)
Listed-cell cell top lo p back x [] l n = absurd n
Listed-cell cell top lo p back x (b ∷ xs) (ne, at_p, own, pr, low, rest) (inl e) =
    simp (e, own) (ne, at_p, low)
Listed-cell cell top lo p back x (b ∷ xs) (ne, at_p, own, pr, low, rest) (inr n) =
    let (a, c, d) = Listed-cell cell top (p + (block_size + b.size)) b.next p x xs rest n in
    (a, c, omega arith)
