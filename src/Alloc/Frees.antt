-- ===== src/Alloc/Frees.antt =====
-- `mm_free` of hw3/mm_alloc.c as its callers see it.
use os_assignments.Base.{
  ℕ, ◌+◌, ◌<◌, ◌≡◌, refl, sym, subst, ap, List, [], ◌∷◌, ◌++◌, arith, ◌⊎◌, ◌∙◌, inl, inr, length,
}
use os_assignments.Alloc.State.{SBlock, Heap, block_size, done}
use os_assignments.Alloc.Ops.{mm_free, get_block}
use os_assignments.Alloc.Spots.{Live, Spot-bounds, Settled}
use os_assignments.Alloc.Live.{IsHeap, Releases}
use os_assignments.Alloc.Releasing.{free_first, free_behind_used, free_behind_free}
use os_assignments.Alloc.Freed.{Freed}

-- A block in use, with the blocks around it.
find-Live :
    (p m : ℕ) (xs : List SBlock)
    → Live p m xs
    → (ys : List SBlock) × (x : SBlock) × (zs : List SBlock) × (xs ≡ ys ++ (x ∷ zs))
      × (x.ptr ≡ p)
      × (x.free ≡ 0)
find-Live p m [] s = absurd s
find-Live p m (x ∷ xs) (inl (e, _, used)) = ([], x, xs, refl, e, used)
find-Live p m (x ∷ xs) (inr s) =
    let (ys, y, zs, e, at_p, used) = find-Live p m xs s in
    (x ∷ ys, y, zs, ap (λ l. x ∷ l) e, at_p, used)

-- The front of a list, and its last block.
front_view :
    (ys : List SBlock) → (ys ≡ []) ⊎ ((us : List SBlock) × (a : SBlock) × (ys ≡ us ++ (a ∷ [])))
front_view [] = inl refl
front_view (y ∷ ys) = elim (front_view ys) [
  | inl e ↦ inr ([], y, ap (λ l. y ∷ l) e)
  | inr (us, a, e) ↦ inr (y ∷ us, a, ap (λ l. y ∷ l) e)
]

flag_of_last :
    (f : ℕ) (ys : List SBlock) (a : SBlock) (zs : List SBlock)
    → Settled f ((ys ++ (a ∷ [])) ++ zs)
    → (a.free ≡ 0) ⊎ (a.free ≡ 1)
flag_of_last f [] a zs (inl used, s) = inl used
flag_of_last f [] a zs (inr (is_free, _), s) = inr is_free
flag_of_last f (y ∷ ys) a zs (here, s) = flag_of_last y.free ys a zs s

free_anywhere :
    (fuel ptr : ℕ) (h : Heap) (ys : List SBlock) (x : SBlock) (zs : List SBlock)
    → get_block ptr ≡ x.ptr
    → x.free ≡ 0
    → IsHeap h (ys ++ (x ∷ zs))
    → length (ys ++ (x ∷ zs)) < fuel
    → Freed fuel ptr h (ys ++ (x ∷ zs)) x
free_anywhere fuel ptr h ys x zs at_ptr used i f = elim (front_view ys) [
  | inl e ↦
      subst
        (λ l.
          IsHeap h (l ++ (x ∷ zs))
          → length (l ++ (x ∷ zs)) < fuel
          → Freed fuel ptr h (l ++ (x ∷ zs)) x)
        (sym e) (free_first fuel ptr h x zs at_ptr used) i f
  | inr (us, a, e) ↦
      subst
        (λ l.
          IsHeap h (l ++ (x ∷ zs))
          → length (l ++ (x ∷ zs)) < fuel
          → Freed fuel ptr h (l ++ (x ∷ zs)) x)
        (sym e)
        (λ i' f'. elim (flag_of_last 0 us a (x ∷ zs) i'.settled) [
          | inl in_use ↦ free_behind_used fuel ptr h x zs at_ptr used us a in_use i' f'
          | inr is_free ↦ free_behind_free fuel ptr h x zs at_ptr used us a is_free i' f'
        ])
        i f
]

pub free_at :
    (fuel ptr p m : ℕ) (xs : List SBlock) (h : Heap)
    → get_block ptr ≡ p
    → IsHeap h xs
    → Live p m xs
    → length xs < fuel
    → (h' : Heap) × (xs' : List SBlock) × (mm_free fuel ptr h ≡ done tt h') × Releases h xs p h' xs'
free_at fuel ptr p m xs h at_ptr i s f =
    let (ys, x, zs, e, at_p, used) = find-Live p m xs s in
    let (h', xs', run, released) =
      subst (λ l. IsHeap h l → length l < fuel → Freed fuel ptr h l x) (sym e)
        (free_anywhere fuel ptr h ys x zs (at_ptr ∙ sym at_p) used) i f in
    (h', xs', run, subst (λ (q : ℕ). Releases h xs q h' xs') at_p released)

-- In a well-formed heap, `mm_free` of the address behind the header of a block in use comes to an
-- end. The heap is well formed again, with no two free blocks in a row; the blocks in use are the
-- other old ones, at their places and with their sizes, and they keep their bytes.
pub mm_free-Releases :
    (fuel p m : ℕ) (xs : List SBlock) (h : Heap)
    → IsHeap h xs
    → Live p m xs
    → length xs < fuel
    → (h' : Heap) × (xs' : List SBlock) × (mm_free fuel (p + block_size) h ≡ done tt h')
      × Releases h xs p h' xs'
mm_free-Releases fuel p m xs h i s f =
    let (above, under) = Spot-bounds p m 0 h.cell h.brk 0 h.head 0 xs i.holds s in
    free_at fuel (p + block_size) p m xs h (omega arith) i s f
