-- ===== src/Alloc/Layout.antt =====
-- The block list of hw3/mm_alloc.c under the change of some headers.
use os_assignments.Base.{
  ℕ, ◌+◌, ◌-◌, ◌<◌, ◌≤◌, ◌≡◌, ◌≢◌, refl, sym, subst, Option, some, List, [], ◌∷◌, ◌++◌, arith, ◌∙◌,
  length,
}
use os_assignments.Alloc.State.{SBlock, block_size, put}
use os_assignments.Alloc.Blocks.{Chain}
use os_assignments.Alloc.Splitting.{front_of, rest_of}

pub Chain-below :
    (cell : ℕ → Option SBlock) (top lo p back : ℕ) (xs : List SBlock)
    → Chain cell top lo p back xs
    → lo ≤ top
Chain-below cell top lo p back [] l = l.1
Chain-below cell top lo p back (b ∷ xs) (ne, at_p, own, pr, low, rest) =
    let more = Chain-below cell top (p + (block_size + b.size)) b.next p xs rest in omega arith

-- The part of the list from one of its blocks on.
pub Chain-from :
    (cell : ℕ → Option SBlock) (top lo p back : ℕ) (ys : List SBlock) (b : SBlock)
    (zs : List SBlock)
    → Chain cell top lo p back (ys ++ (b ∷ zs))
    → (back' : ℕ) × (lo ≤ b.ptr) × Chain cell top lo b.ptr back' (b ∷ zs)
Chain-from cell top lo p back [] b zs (ne, at_p, own, pr, low, rest) = (
  back,
  omega arith,
  subst (λ (q : ℕ). Chain cell top lo q back (b ∷ zs)) (sym own) (ne, at_p, own, pr, low, rest),
)
Chain-from cell top lo p back (x ∷ ys) b zs (ne, at_p, own, pr, low, rest) =
    let (back', low', (ne', at', own', pr', low'', rest')) =
      Chain-from cell top (p + (block_size + x.size)) x.next p ys b zs rest in
    (back', omega arith, (ne', at', own', pr', omega arith, rest'))

pub Chain-frame :
    (cell cell' : ℕ → Option SBlock) (top lo p back : ℕ) (xs : List SBlock)
    → ((a : ℕ) → lo ≤ a → cell' a ≡ cell a)
    → Chain cell top lo p back xs
    → Chain cell' top lo p back xs
Chain-frame cell cell' top lo p back [] same l = l
Chain-frame cell cell' top lo p back (b ∷ xs) same (ne, at_p, own, pr, low, rest) = (
  ne,
  same p low ∙ at_p,
  own,
  pr,
  low,
  Chain-frame cell cell' top (p + (block_size + b.size)) b.next p xs
      (λ a above. same a (omega arith)) rest,
)

-- The list behind a new block at `q`.
abbrev pub relinked : ℕ → List SBlock → List SBlock
relinked q [] = []
relinked q (c ∷ xs) = record c { prev = q } ∷ xs

pub Chain-relinked :
    (cell cell' : ℕ → Option SBlock) (top from next p lo q : ℕ) (zs : List SBlock)
    → lo ≤ from
    → ((a : ℕ) → from ≤ a → a ≢ next → cell' a ≡ cell a)
    → ((t : SBlock) → next ≢ 0 → cell next ≡ some t → cell' next ≡ some (record t { prev = q }))
    → Chain cell top from next p zs
    → Chain cell' top lo next q (relinked q zs)
Chain-relinked cell cell' top from next p lo q [] le after third (stop, low) = (stop, omega arith)
Chain-relinked cell cell' top from next p lo q (t ∷ zs) le after third
      (ne, at_t, own, pr, low, rest) =
    (
      ne,
      third t ne at_t,
      own,
      refl,
      omega arith,
      Chain-frame cell cell' top (next + (block_size + t.size)) t.next next zs
          (λ a above. after a (omega arith) (omega arith)) rest,
    )

-- The change of the headers where `b` is cut, as far as the list reads them.
pub record CutAt (cell cell' : ℕ → Option SBlock) (s : ℕ) (b : SBlock) : Type 0 where
  pub front : cell' b.ptr ≡ some (front_of s b)
  pub behind : cell' (b.ptr + s + block_size) ≡ some (rest_of s b)
  pub before : (a : ℕ) → a + block_size ≤ b.ptr → cell' a ≡ cell a
  pub after : (a : ℕ) → b.ptr + (block_size + b.size) ≤ a → a ≢ b.next → cell' a ≡ cell a
  pub third :
      (t : SBlock)
      → b.next ≢ 0
      → cell b.next ≡ some t
      → cell' b.next ≡ some (record t { prev = b.ptr + s + block_size })

module _ (cell cell' : ℕ → Option SBlock) (s top : ℕ) (b : SBlock) (c : CutAt cell cell' s b) where
  Chain-cut_here :
      (lo back : ℕ) (zs : List SBlock)
      → s + block_size < b.size
      → Chain cell top lo b.ptr back (b ∷ zs)
      → Chain cell' top lo b.ptr back
          (front_of s b ∷ rest_of s b ∷ relinked (b.ptr + s + block_size) zs)
  Chain-cut_here lo back zs big (ne, at_p, own, pr, low, rest) =
      let new = b.ptr + s + block_size in
      (
        ne,
        c.front,
        refl,
        pr,
        low,
        (
          omega arith,
          c.behind,
          refl,
          refl,
          omega arith,
          Chain-relinked cell cell' top (b.ptr + (block_size + b.size)) b.next b.ptr
              (new + (block_size + (b.size - s - block_size))) new zs (omega arith) c.after c.third
              rest,
        ),
      )

  -- Cutting a block of the list leaves a list with the two parts in its place.
  pub Chain-cut :
      (lo p back : ℕ) (ys zs : List SBlock)
      → s + block_size < b.size
      → Chain cell top lo p back (ys ++ (b ∷ zs))
      → Chain cell' top lo p back
          (ys ++ (front_of s b ∷ rest_of s b ∷ relinked (b.ptr + s + block_size) zs))
  Chain-cut lo p back [] zs big (ne, at_p, own, pr, low, rest) =
      let whole =
        subst (λ (q : ℕ). Chain cell top lo q back (b ∷ zs)) (sym own)
          (ne, at_p, own, pr, low, rest) in
      subst
        (λ (q : ℕ).
          Chain cell' top lo q back
            (front_of s b ∷ rest_of s b ∷ relinked (b.ptr + s + block_size) zs))
        own (Chain-cut_here lo back zs big whole)
  Chain-cut lo p back (x ∷ ys) zs big (ne, at_p, own, pr, low, rest) =
      let (back', low', here) =
        Chain-from cell top (p + (block_size + x.size)) x.next p ys b zs rest in
      (
        ne,
        c.before p (omega arith) ∙ at_p,
        own,
        pr,
        low,
        Chain-cut (p + (block_size + x.size)) x.next p ys zs big rest,
      )

-- Setting the `free` field of a block leaves the list as it is elsewhere.
pub Chain-marked :
    (cell : ℕ → Option SBlock) (top lo p back : ℕ) (ys : List SBlock) (b : SBlock)
    (zs : List SBlock) (mark : ℕ)
    → Chain cell top lo p back (ys ++ (b ∷ zs))
    → Chain
        (put cell b.ptr (record b { free = mark }))
        top
        lo
        p
        back
        (ys ++ (record b { free = mark } ∷ zs))
Chain-marked cell top lo p back [] b zs mark (ne, at_p, own, pr, low, rest) =
    let marked : SBlock = record b { free = mark } in
    (
      ne,
      ground arith,
      own,
      pr,
      low,
      Chain-frame cell (put cell b.ptr marked) top (p + (block_size + b.size)) b.next p zs
          (λ a above. ground arith) rest,
    )
Chain-marked cell top lo p back (x ∷ ys) b zs mark (ne, at_p, own, pr, low, rest) =
    let (back', low', here) =
      Chain-from cell top (p + (block_size + x.size)) x.next p ys b zs rest in
    (
      ne,
      ground arith,
      own,
      pr,
      low,
      Chain-marked cell top (p + (block_size + x.size)) x.next p ys b zs mark rest,
    )

pub length-relinked : (q : ℕ) (xs : List SBlock) → length (relinked q xs) ≡ length xs
length-relinked q [] = refl
length-relinked q (c ∷ xs) = refl
