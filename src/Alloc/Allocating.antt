-- ===== src/Alloc/Allocating.antt =====
-- The blocks in use where `mm_malloc` of hw3/mm_alloc.c changes the list.
use os_assignments.Base.{ℕ, ◌+◌, ◌≡◌, ◌↔◌, refl, subst, List, [], ◌∷◌, ◌++◌, arith, ◌⊎◌, inl, inr}
use os_assignments.Alloc.State.{SBlock, block_size}
use os_assignments.Alloc.Layout.{relinked}
use os_assignments.Alloc.Splitting.{front_of, rest_of}
use os_assignments.Alloc.Extending.{grown}
use os_assignments.Alloc.Spots.{
  Live, Spot-behind, Spot-change, Spot-keep, Spot-relinked, relinked-Spot, Settled, Settled-change,
  Settled-used, Settled-relinked,
}

module _ (n : ℕ) (ys : List SBlock) (b : SBlock) (zs : List SBlock) (is_free : b.free ≡ 1) where
  -- The blocks in use where `b` is cut.
  pub Live-split :
      (q k : ℕ)
      → Live q k (ys ++ (front_of n b ∷ rest_of n b ∷ relinked (b.ptr + n + block_size) zs))
        ↔ (Live q k (ys ++ (b ∷ zs)) ⊎ ((q ≡ b.ptr) × (k ≡ n)))
  Live-split q k =
      let new = b.ptr + n + block_size in
      (
        λ s.
            Spot-change q k 0 _ ys (front_of n b ∷ rest_of n b ∷ relinked new zs) (b ∷ zs)
              (λ s'. elim s' [
                | inl (e, e', _) ↦ inr (omega arith, omega arith)
                | inr (inl (_, _, used)) ↦ absurd (omega arith)
                | inr (inr after) ↦ inl (inr (relinked-Spot q k 0 new zs after))
              ])
              s,
        λ s. elim s [
          | inl old ↦
              Spot-keep q k 0 ys (b ∷ zs) (front_of n b ∷ rest_of n b ∷ relinked new zs)
                (λ s'. elim s' [
                  | inl (_, _, used) ↦ absurd (omega arith)
                  | inr after ↦ inr (inr (Spot-relinked q k 0 new zs after))
                ])
                old
          | inr (e, e') ↦
              Spot-behind q k 0 ys (front_of n b ∷ rest_of n b ∷ relinked new zs)
                (inl (omega arith, omega arith, refl))
        ],
      )

  pub Settled-split :
      Settled 0 (ys ++ (b ∷ zs))
      → Settled 0 (ys ++ (front_of n b ∷ rest_of n b ∷ relinked (b.ptr + n + block_size) zs))
  Settled-split =
      let new = b.ptr + n + block_size in
      Settled-change 0 ys (b ∷ zs) (front_of n b ∷ rest_of n b ∷ relinked new zs) (λ g (here, more).
        (
          inl refl,
          (
            inr (refl, refl),
            Settled-relinked 1 new zs (subst (λ (f : ℕ). Settled f zs) is_free more),
          ),
        ))

  -- The blocks in use where `b` is taken whole.
  pub Live-whole :
      (q k : ℕ)
      → Live q k (ys ++ (record b { free = 0 } ∷ zs))
        ↔ (Live q k (ys ++ (b ∷ zs)) ⊎ ((q ≡ b.ptr) × (k ≡ b.size)))
  Live-whole q k = (
    λ s.
        Spot-change q k 0 _ ys (record b { free = 0 } ∷ zs) (b ∷ zs)
          (λ s'. elim s' [
            | inl (e, e', _) ↦ inr (omega arith, omega arith)
            | inr after ↦ inl (inr after)
          ])
          s,
    λ s. elim s [
      | inl old ↦
          Spot-keep q k 0 ys (b ∷ zs) (record b { free = 0 } ∷ zs)
            (λ s'. elim s' [ inl (_, _, used) ↦ absurd (omega arith) | inr after ↦ inr after ]) old
      | inr (e, e') ↦
          Spot-behind q k 0 ys (record b { free = 0 } ∷ zs) (inl (omega arith, omega arith, refl))
    ],
  )

  pub Settled-whole : Settled 0 (ys ++ (b ∷ zs)) → Settled 0 (ys ++ (record b { free = 0 } ∷ zs))
  Settled-whole =
      Settled-change 0 ys (b ∷ zs) (record b { free = 0 } ∷ zs)
        (λ g (here, more). (inl refl, Settled-used b.free zs more))

-- The blocks in use where one is put behind the last.
pub Live-extend :
    (n brk q k : ℕ) (ys : List SBlock) (l : SBlock)
    → Live q k (ys ++ (record l { next = brk } ∷ grown brk n l.ptr ∷ []))
      ↔ (Live q k (ys ++ (l ∷ [])) ⊎ ((q ≡ brk) × (k ≡ n)))
Live-extend n brk q k ys l = (
  Spot-change q k 0 _ ys (record l { next = brk } ∷ grown brk n l.ptr ∷ []) (l ∷ []) (λ s'.
      elim s' [
        | inl here ↦ inl (inl here)
        | inr (inl (e, e', _)) ↦ inr (omega arith, omega arith)
        | inr (inr impossible) ↦ absurd impossible
      ]),
  λ s. elim s [
    | inl old ↦
        Spot-keep q k 0 ys (l ∷ []) (record l { next = brk } ∷ grown brk n l.ptr ∷ [])
          (λ s'. elim s' [ inl here ↦ inl here | inr impossible ↦ absurd impossible ]) old
    | inr (e, e') ↦
        Spot-behind q k 0 ys (record l { next = brk } ∷ grown brk n l.ptr ∷ [])
          (inr (inl (omega arith, omega arith, refl)))
  ],
)
