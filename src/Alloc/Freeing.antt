-- ===== src/Alloc/Freeing.antt =====
-- `mm_free` of hw3/mm_alloc.c on a block in use between two free ones.
use os_assignments.Base.{
  ℕ, ◌<◌, ◌≡◌, ◌≢◌, refl, sym, subst, List, [], ◌∷◌, ◌++◌, arith, ◌∙◌, length, false, ◌==◌, inl,
  inr,
}
use os_assignments.Alloc.State.{load, store, SBlock, Heap, word, done, put}
use os_assignments.Alloc.Ops.{fusion, mm_free, release, get_block}
use os_assignments.Alloc.Blocks.{Holds, load-at, Listed, owned-Listed}
use os_assignments.Alloc.Layout.{Chain-from, Chain-marked, relinked}
use os_assignments.Alloc.Joining.{joined, fusion-join}

Listed-mid : (ys : List SBlock) (x : SBlock) (zs : List SBlock) → Listed x (ys ++ (x ∷ zs))
Listed-mid [] x zs = inl refl
Listed-mid (y ∷ ys) x zs = inr (Listed-mid ys x zs)

pub append-shift :
    (ys : List SBlock) (a : SBlock) (zs : List SBlock) → (ys ++ (a ∷ [])) ++ zs ≡ ys ++ (a ∷ zs)
append-shift [] a zs = refl
append-shift (y ∷ ys) a zs = simp (append-shift ys a zs) refl

-- `mm_free` of a block in use is what `release` does.
pub mm_free-release :
    (fuel ptr : ℕ) (ys : List SBlock) (x : SBlock) (zs : List SBlock) (h : Heap)
    → Holds h (ys ++ (x ∷ zs))
    → get_block ptr ≡ x.ptr
    → x.free ≢ 1
    → length (ys ++ (x ∷ zs)) < fuel
    → mm_free fuel ptr h ≡ release x.ptr h
unfolding mm_free
mm_free-release fuel ptr ys x zs h holds at_ptr used f =
    let found =
      owned-Listed fuel h.brk 0 h.head 0 x (ys ++ (x ∷ zs)) h holds (Listed-mid ys x zs) f in
    let (back, low, (ne, at_x, own, pr, lowest, rest)) =
      Chain-from h.cell h.brk 0 h.head 0 ys x zs holds in
    let in_use : (x.free == 1) ≡ false = ground arith in
    rw (at_ptr, found, load-at h x.ptr x ne at_x, in_use)

pub store-put :
    (h : Heap) (p : ℕ) (b : SBlock) → store p b h ≡ done tt (record h { cell = put h.cell p b })
unfolding store
store-put h p b = refl

-- `release` where the block in front is free, and two fusions succeed.
pub release-join :
    (h H h1 h2 : Heap) (p : ℕ) (a x : SBlock)
    → load p h ≡ done x h
    → store p (record x { free = 1 }) h ≡ done tt H
    → x.prev ≢ 0
    → load x.prev H ≡ done a H
    → a.free ≢ 0
    → fusion x.prev H ≡ done x.prev h1
    → fusion x.prev h1 ≡ done x.prev h2
    → release p h ≡ done tt h2
unfolding release
release-join h H h1 h2 p a x loaded stored some_back loaded_a free_a run1 run2 =
    let some_back' : (x.prev == 0) ≡ false = ground arith in
    let back_free : (a.free == 0) ≡ false = ground arith in
    rw (loaded, stored, some_back', loaded_a, back_free, run1, some_back', run2)

-- Freeing a block between two free ones leaves one free block of all three in the list, where the
-- first one was.
pub mm_free-join :
    (fuel ptr : ℕ) (ys : List SBlock) (a x b : SBlock) (zs : List SBlock) (h : Heap)
    → Holds h (ys ++ (a ∷ x ∷ b ∷ zs))
    → get_block ptr ≡ x.ptr
    → a.free ≢ 0
    → x.free ≢ 1
    → b.free ≢ 0
    → h.brk < word
    → length (ys ++ (a ∷ x ∷ b ∷ zs)) < fuel
    → (h' : Heap) × (mm_free fuel ptr h ≡ done tt h')
      × Holds h' (ys ++ (joined (joined a x) b ∷ relinked a.ptr zs))
mm_free-join fuel ptr ys a x b zs h holds at_ptr free_a used free_b w f =
    let marked : SBlock = record x { free = 1 } in
    let H = record h { cell = put h.cell x.ptr marked } in
    let shift = append-shift ys a (x ∷ b ∷ zs) in
    let holds' = subst (Holds h) (sym shift) holds in
    let first =
      mm_free-release fuel ptr (ys ++ (a ∷ [])) x (b ∷ zs) h holds' at_ptr used
        (subst (λ (l : List SBlock). length l < fuel) (sym shift) f) in
    let held =
      subst (Holds H) (append-shift ys a (marked ∷ b ∷ zs))
        (Chain-marked h.cell h.brk 0 h.head 0 (ys ++ (a ∷ [])) x (b ∷ zs) 1 holds') in
    let (back, low, (ne, at_a, own, pr, lowest, (ne', at_x', own', pr', low', rest))) =
      Chain-from H.cell h.brk 0 H.head 0 ys a (marked ∷ b ∷ zs) held in
    let (back', low'', (ne'', at_x, own'', pr'', lowest', rest')) =
      Chain-from h.cell h.brk 0 h.head 0 (ys ++ (a ∷ [])) x (b ∷ zs) holds' in
    let (h1, run1, held1, zero1, same1, brk1, limit1) =
      fusion-join ys a marked (b ∷ zs) H held (λ e. absurd (omega arith)) w in
    let (h2, run2, held2, zero2, same2, brk2, limit2) =
      fusion-join ys (joined a x) (record b { prev = a.ptr }) zs h1 held1 free_b (omega arith) in
    let back_is : a.ptr ≡ x.prev = sym pr' in
    (
      h2,
      first
          ∙ release-join h H h1 h2 x.ptr a x (load-at h x.ptr x ne'' at_x)
              (store-put h x.ptr marked) (subst (λ (q : ℕ). q ≢ 0) back_is ne)
              (subst (λ (q : ℕ). load q H ≡ done a H) back_is (load-at H a.ptr a ne at_a)) free_a
              (subst (λ (q : ℕ). fusion q H ≡ done q h1) back_is run1)
              (subst (λ (q : ℕ). fusion q h1 ≡ done q h2) back_is run2),
      held2,
    )
