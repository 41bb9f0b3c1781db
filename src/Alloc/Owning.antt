-- ===== src/Alloc/Owning.antt =====
-- The blocks that a program of Alloc.Session owns.
use os_assignments.Base.{
  ℕ, ◌+◌, ◌<◌, ◌≤◌, ◌≡◌, ◌≢◌, refl, true, List, [], ◌∷◌, arith, inl, inr, ◌==◌, Bool-cases, some,
  Option,
}
use os_assignments.Alloc.State.{inside}
use os_assignments.Alloc.Session.{Owned, Owns, held, without, kept}

-- No two blocks of the list have the same address.
abbrev pub Distinct : List Owned → Type 0
Distinct [] = Unit
Distinct (o ∷ os) = ((n : ℕ) → Owns o.at n os → ⊥) × Distinct os

pub held-Owns :
    (os : List Owned) (a : ℕ)
    → held os a ≡ true
    → (q : ℕ) × (n : ℕ) × Owns q n os × (q ≤ a) × (a < q + n)
unfolding held
held-Owns [] a h = cc
held-Owns (o ∷ os) a h = elim (Bool-cases (inside o.at o.bytes a)) [
  | inl here ↦ (o.at, o.bytes, inl (refl, refl), ground arith, ground arith)
  | inr off ↦
      let (q, n, owns, above, under) = held-Owns os a (ground arith) in
      (q, n, inr owns, above, under)
]

pub Owns-held : (os : List Owned) (q n a : ℕ) → Owns q n os → q ≤ a → a < q + n → held os a ≡ true
unfolding held
Owns-held [] q n a owns above under = absurd owns
Owns-held (o ∷ os) q n a (inl e) above under = ground arith
Owns-held (o ∷ os) q n a (inr owns) above under =
    let later = Owns-held os q n a owns above under in ground arith

pub held-cons : (o : Owned) (os : List Owned) (a : ℕ) → held os a ≡ true → held (o ∷ os) a ≡ true
unfolding held
held-cons o os a h = ground arith

pub Owns-without : (q r n : ℕ) (os : List Owned) → Owns r n (without q os) → Owns r n os × (r ≢ q)
unfolding without
Owns-without q r n [] owns = absurd owns
Owns-without q r n (o ∷ os) owns = elim (Bool-cases (o.at == q)) [
  | inl here ↦ let (more, off) = Owns-without q r n os (simp here at owns) in (inr more, off)
  | inr other ↦ elim (simp other at owns) [
    | inl e ↦ (inl e, ground arith)
    | inr rest ↦ let (more, off) = Owns-without q r n os rest in (inr more, off)
  ]
]

pub Distinct-without : (q : ℕ) (os : List Owned) → Distinct os → Distinct (without q os)
unfolding without
Distinct-without q [] d = tt
Distinct-without q (o ∷ os) d = elim (Bool-cases (o.at == q)) [
  | inl here ↦ rw here (Distinct-without q os d.1)
  | inr other ↦
      rw other ((λ n owns. d.0 n (Owns-without q o.at n os owns).0), Distinct-without q os d.1)
]

-- What is still known was known, of a byte that is still held.
pub kept_some :
    (os : List Owned) (known : ℕ → Option ℕ) (a v : ℕ)
    → kept os known a ≡ some v
    → (known a ≡ some v) × (held os a ≡ true)
kept_some os known a v e = elim (Bool-cases (held os a)) [
  | inl here ↦ (simp here at e, here)
  | inr off ↦ cc
]
