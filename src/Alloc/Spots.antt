-- ===== src/Alloc/Spots.antt =====
-- Where the blocks of hw3/mm_alloc.c stand in the list, and which of them are in use.
use os_assignments.Base.{
  ℕ, ◌+◌, ◌≤◌, ◌≡◌, refl, sym, subst, Option, List, [], ◌∷◌, ◌++◌, arith, ◌⊎◌, inl, inr,
}
use os_assignments.Alloc.State.{SBlock, block_size}
use os_assignments.Alloc.Blocks.{Chain}
use os_assignments.Alloc.Layout.{relinked, Chain-from, Chain-below}

abbrev pub IsBlock : ℕ → ℕ → ℕ → SBlock → Type 0
IsBlock q m f b = (b.ptr ≡ q) × (b.size ≡ m) × (b.free ≡ f)

-- A block of the list is at `q`, has `m` bytes and this `free` field.
abbrev pub Spot : ℕ → ℕ → ℕ → List SBlock → Type 0
Spot q m f [] = ⊥
Spot q m f (b ∷ xs) = IsBlock q m f b ⊎ Spot q m f xs

-- A block in use.
abbrev pub Live : ℕ → ℕ → List SBlock → Type 0
Live q m = Spot q m 0

module _ (q m f : ℕ) where
  pub Spot-behind : (ys zs : List SBlock) → Spot q m f zs → Spot q m f (ys ++ zs)
  Spot-behind [] zs s = s
  Spot-behind (y ∷ ys) zs s = inr (Spot-behind ys zs s)

  -- A change of the end of the list, which may lose the block or add it, as `P` says.
  pub Spot-change :
      (P : Type 0) (ys zs zs' : List SBlock)
      → (Spot q m f zs → Spot q m f zs' ⊎ P)
      → Spot q m f (ys ++ zs)
      → Spot q m f (ys ++ zs') ⊎ P
  Spot-change P [] zs zs' change s = change s
  Spot-change P (y ∷ ys) zs zs' change (inl e) = inl (inl e)
  Spot-change P (y ∷ ys) zs zs' change (inr s) = elim (Spot-change P ys zs zs' change s) [
    | inl s' ↦ inl (inr s')
    | inr p ↦ inr p
  ]

  pub Spot-keep :
      (ys zs zs' : List SBlock)
      → (Spot q m f zs → Spot q m f zs')
      → Spot q m f (ys ++ zs)
      → Spot q m f (ys ++ zs')
  Spot-keep [] zs zs' change s = change s
  Spot-keep (y ∷ ys) zs zs' change (inl e) = inl e
  Spot-keep (y ∷ ys) zs zs' change (inr s) = inr (Spot-keep ys zs zs' change s)

  pub Spot-relinked : (p : ℕ) (zs : List SBlock) → Spot q m f zs → Spot q m f (relinked p zs)
  Spot-relinked p [] s = elim s [ ]
  Spot-relinked p (z ∷ zs) s = s

  pub relinked-Spot : (p : ℕ) (zs : List SBlock) → Spot q m f (relinked p zs) → Spot q m f zs
  relinked-Spot p [] s = elim s [ ]
  relinked-Spot p (z ∷ zs) s = s

  pub Spot-bounds :
      (cell : ℕ → Option SBlock) (top lo p back : ℕ) (xs : List SBlock)
      → Chain cell top lo p back xs
      → Spot q m f xs
      → (lo ≤ q) × (q + (block_size + m) ≤ top)
  Spot-bounds cell top lo p back [] chain s = elim s [ ]
  Spot-bounds cell top lo p back (b ∷ xs) (ne, at_p, own, pr, low, rest) (inl (e, e', _)) =
      let below = Chain-below cell top (p + (block_size + b.size)) b.next p xs rest in
      (omega arith, omega arith)
  Spot-bounds cell top lo p back (b ∷ xs) (ne, at_p, own, pr, low, rest) (inr s) =
      let (above, below) = Spot-bounds cell top (p + (block_size + b.size)) b.next p xs rest s in
      (omega arith, below)

  pub Spot-either : (ys zs : List SBlock) → Spot q m f (ys ++ zs) → Spot q m f ys ⊎ Spot q m f zs
  Spot-either [] zs s = inr s
  Spot-either (y ∷ ys) zs (inl e) = inl (inl e)
  Spot-either (y ∷ ys) zs (inr s) = elim (Spot-either ys zs s) [
    | inl s' ↦ inl (inr s')
    | inr s' ↦ inr s'
  ]

  pub Spot-front : (ys zs : List SBlock) → Spot q m f ys → Spot q m f (ys ++ zs)
  Spot-front [] zs s = elim s [ ]
  Spot-front (y ∷ ys) zs (inl e) = inl e
  Spot-front (y ∷ ys) zs (inr s) = inr (Spot-front ys zs s)

  pub Spot-before :
      (cell : ℕ → Option SBlock) (top lo p back : ℕ) (ys : List SBlock) (b : SBlock)
      (zs : List SBlock)
      → Chain cell top lo p back (ys ++ (b ∷ zs))
      → Spot q m f ys
      → q + (block_size + m) ≤ b.ptr
  Spot-before cell top lo p back [] b zs chain s = elim s [ ]
  Spot-before cell top lo p back (y ∷ ys) b zs (ne, at_p, own, pr, low, rest) (inl (e, e', _)) =
      let (back', above, here) =
        Chain-from cell top (p + (block_size + y.size)) y.next p ys b zs rest in
      omega arith
  Spot-before cell top lo p back (y ∷ ys) b zs (ne, at_p, own, pr, low, rest) (inr s) =
      Spot-before cell top (p + (block_size + y.size)) y.next p ys b zs rest s

  -- A block stands in front of a given one, is that one, or comes behind it.
  pub Spot-place :
      (cell : ℕ → Option SBlock) (top lo p back : ℕ) (ys : List SBlock) (b : SBlock)
      (zs : List SBlock)
      → Chain cell top lo p back (ys ++ (b ∷ zs))
      → Spot q m f (ys ++ (b ∷ zs))
      → (q + (block_size + m) ≤ b.ptr) ⊎ (IsBlock q m f b ⊎ Spot q m f zs)
  Spot-place cell top lo p back [] b zs chain (inl e) = inr (inl e)
  Spot-place cell top lo p back [] b zs chain (inr s) = inr (inr s)
  Spot-place cell top lo p back (y ∷ ys) b zs (ne, at_p, own, pr, low, rest) (inl (e, e', _)) =
      let (back', above, here) =
        Chain-from cell top (p + (block_size + y.size)) y.next p ys b zs rest in
      inl (omega arith)
  Spot-place cell top lo p back (y ∷ ys) b zs (ne, at_p, own, pr, low, rest) (inr s) =
      Spot-place cell top (p + (block_size + y.size)) y.next p ys b zs rest s

-- Two blocks of a list at one address are one block, and others share no byte.
pub Spots-apart :
    (q m f q' m' f' : ℕ) (cell : ℕ → Option SBlock) (top lo p back : ℕ) (xs : List SBlock)
    → Chain cell top lo p back xs
    → Spot q m f xs
    → Spot q' m' f' xs
    → ((q ≡ q') × (m ≡ m') × (f ≡ f'))
      ⊎ ((q + (block_size + m) ≤ q') ⊎ (q' + (block_size + m') ≤ q))
Spots-apart q m f q' m' f' cell top lo p back [] chain s s' = elim s [ ]
Spots-apart q m f q' m' f' cell top lo p back (b ∷ xs) chain (inl e) (inl e') =
    inl (omega arith, omega arith, omega arith)
Spots-apart q m f q' m' f' cell top lo p back (b ∷ xs) (ne, at_p, own, pr, low, rest) (inl e)
      (inr s) =
    let (above, below) =
      Spot-bounds q' m' f' cell top (p + (block_size + b.size)) b.next p xs rest s in
    inr (inl (omega arith))
Spots-apart q m f q' m' f' cell top lo p back (b ∷ xs) (ne, at_p, own, pr, low, rest) (inr s)
      (inl e) =
    let (above, below) =
      Spot-bounds q m f cell top (p + (block_size + b.size)) b.next p xs rest s in
    inr (inr (omega arith))
Spots-apart q m f q' m' f' cell top lo p back (b ∷ xs) (ne, at_p, own, pr, low, rest) (inr s)
      (inr s') =
    Spots-apart q m f q' m' f' cell top (p + (block_size + b.size)) b.next p xs rest s s'

-- No two free blocks in a row behind a block with the field `f`, and the field is 0 or 1.
abbrev pub Settled : ℕ → List SBlock → Type 0
Settled f [] = Unit
Settled f (b ∷ xs) = ((b.free ≡ 0) ⊎ ((b.free ≡ 1) × (f ≡ 0))) × Settled b.free xs

pub Settled-change :
    (f : ℕ) (ys zs zs' : List SBlock)
    → ((g : ℕ) → Settled g zs → Settled g zs')
    → Settled f (ys ++ zs)
    → Settled f (ys ++ zs')
Settled-change f [] zs zs' change s = change f s
Settled-change f (y ∷ ys) zs zs' change (here, s) = (here, Settled-change y.free ys zs zs' change s)

-- The same where the block in front is in use.
pub Settled-used : (f : ℕ) (xs : List SBlock) → Settled f xs → Settled 0 xs
Settled-used f [] s = tt
Settled-used f (b ∷ xs) (inl used, s) = (inl used, s)
Settled-used f (b ∷ xs) (inr (is_free, _), s) = (inr (is_free, refl), s)

pub Settled-relinked : (f p : ℕ) (xs : List SBlock) → Settled f xs → Settled f (relinked p xs)
Settled-relinked f p [] s = s
Settled-relinked f p (b ∷ xs) s = s

pub Settled-from :
    (f : ℕ) (ys : List SBlock) (x : SBlock) (zs : List SBlock)
    → Settled f (ys ++ (x ∷ zs))
    → Settled x.free zs
Settled-from f [] x zs s = s.1
Settled-from f (y ∷ ys) x zs s = Settled-from y.free ys x zs s.1

-- A change behind a block in use.
pub Settled-behind :
    (f : ℕ) (ys : List SBlock) (a : SBlock) (zs ws : List SBlock)
    → a.free ≡ 0
    → Settled f ((ys ++ (a ∷ [])) ++ zs)
    → Settled 0 ws
    → Settled f ((ys ++ (a ∷ [])) ++ ws)
Settled-behind f [] a zs ws used (here, s) s' =
    (here, subst (λ (g : ℕ). Settled g ws) (sym used) s')
Settled-behind f (y ∷ ys) a zs ws used (here, s) s' =
    (here, Settled-behind y.free ys a zs ws used s s')

-- A change from a free block on.
pub Settled-last :
    (f : ℕ) (ys : List SBlock) (a : SBlock) (zs ws : List SBlock)
    → a.free ≡ 1
    → Settled f ((ys ++ (a ∷ [])) ++ zs)
    → Settled 0 ws
    → Settled f (ys ++ ws)
Settled-last f [] a zs ws is_free (inl used, s) s' = absurd (omega arith)
Settled-last f [] a zs ws is_free (inr (_, e), s) s' = subst (λ (g : ℕ). Settled g ws) (sym e) s'
Settled-last f (y ∷ ys) a zs ws is_free (here, s) s' =
    (here, Settled-last y.free ys a zs ws is_free s s')
