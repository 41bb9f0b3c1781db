-- ===== src/Alloc/Keeping.antt =====
-- What hw3/mm_alloc.c promises a program over any number of calls.
use os_assignments.Base.{
  ℕ, ◌+◌, ◌<◌, ◌≤◌, ◌≡◌, ◌≢◌, refl, sym, subst, some, List, [], ◌∷◌, All, arith, ◌⊎◌, inl, inr,
  length,
}
use os_assignments.Alloc.State.{SBlock, Heap}
use os_assignments.Alloc.Spots.{Spots-apart}
use os_assignments.Alloc.Session.{Knows, Owned, Owns, after, Session, begins, goes_on}
use os_assignments.Alloc.Live.{IsHeap}
use os_assignments.Alloc.Owning.{Distinct}
use os_assignments.Alloc.Agreeing.{Agrees, Backs}
use os_assignments.Alloc.Coming.{same_end, come_any}

Session-Agrees :
    (fuel : ℕ) {h : Heap} {k : Knows} {c : ℕ}
    → Session fuel h k c
    → c < fuel
    → (xs : List SBlock) × Agrees h k xs × (length xs ≤ c)
Session-Agrees fuel (begins h empty below bounded positive) f = (
  [],
  record {
    heap = record {
      holds = (empty, omega arith);
      settled = tt;
      below = below;
      bounded = bounded;
      positive = positive;
    };
    backed = λ q n owns. absurd owns;
    distinct = tt;
    reads = λ a v e. cc;
  },
  omega arith,
)
Session-Agrees fuel (goes_on {h = h0} {k = k0} call r h' session permitted run served) f =
    let (xs, g, small) = Session-Agrees fuel session (omega arith) in
    elim (come_any fuel h0 k0 xs g (omega arith) call permitted) [
      | inl (r', h'', xs', run', g', count) ↦
          let (e, e') = same_end _ run' run in
          (
            xs',
            subst (λ (t : Heap). Agrees t (after call r k0) xs') e'
                (subst (λ (i : ℕ). Agrees h'' (after call i k0) xs') e g'),
            omega arith,
          )
      | inr (full, impossible) ↦ absurd (impossible r h' run served)
    ]

-- A program that asks for memory in sizes in range, gives back and writes to blocks of its own, and
-- moves one of its own only to a size in range that is larger by 40 bytes at least, from an empty
-- heap on, in any order, with fewer calls than fuel and as long as no call finds the memory full: a
-- byte that it wrote to a block which it still owns reads as it wrote it last, also where the block
-- was moved since.
pub Session-reads :
    (fuel : ℕ) {h : Heap} {k : Knows} {c : ℕ} (a v : ℕ)
    → Session fuel h k c
    → c < fuel
    → k.known a ≡ some v
    → h.byte a ≡ v
Session-reads fuel a v session f e =
    let (xs, g, small) = Session-Agrees fuel session f in (g.reads a v e).0

-- A block shares no byte with any of these, and has another address.
abbrev pub IsApart : Owned → List Owned → Type 0
IsApart o os = All (λ x. (o.at ≢ x.at) × ((o.at + o.bytes ≤ x.at) ⊎ (x.at + x.bytes ≤ o.at))) os

-- Each block is apart from all that stand behind it in the list.
abbrev pub AreApart : List Owned → Type 0
AreApart [] = Unit
AreApart (o ∷ os) = IsApart o os × AreApart os

module _ (h : Heap) (xs : List SBlock) (i : IsHeap h xs) where
  backed_apart :
      (q n q' n' : ℕ) → Backs q n xs → Backs q' n' xs → q ≢ q' → (q + n ≤ q') ⊎ (q' + n' ≤ q)
  backed_apart q n q' n' (p, m, at_q, live, le, ge) (p', m', at_q', live', le', ge') other =
      elim (Spots-apart p m 0 p' m' 0 h.cell h.brk 0 h.head 0 xs i.holds live live') [
        | inl (e, _, _) ↦ absurd (other (omega arith))
        | inr (inl before) ↦ inl (omega arith)
        | inr (inr behind) ↦ inr (omega arith)
      ]

  one-IsApart :
      (o : Owned) (os : List Owned)
      → Backs o.at o.bytes xs
      → ((q n : ℕ) → Owns q n os → Backs q n xs)
      → ((n : ℕ) → Owns o.at n os → ⊥)
      → IsApart o os
  one-IsApart o [] b bs d = tt
  one-IsApart o (x ∷ os) b bs d =
      let other : o.at ≢ x.at = λ e. d x.bytes (inl (sym e, refl)) in
      (
        (
          other,
          backed_apart o.at o.bytes x.at x.bytes b (bs x.at x.bytes (inl (refl, refl))) other,
        ),
        one-IsApart o os b (λ q n owns. bs q n (inr owns)) (λ n owns. d n (inr owns)),
      )

  all-AreApart :
      (os : List Owned) → ((q n : ℕ) → Owns q n os → Backs q n xs) → Distinct os → AreApart os
  all-AreApart [] bs d = tt
  all-AreApart (o ∷ os) bs d = (
    one-IsApart o os (bs o.at o.bytes (inl (refl, refl))) (λ q n owns. bs q n (inr owns)) d.0,
    all-AreApart os (λ q n owns. bs q n (inr owns)) d.1,
  )

-- After any calls of a program that asks for memory in sizes in range, gives back and writes to
-- blocks of its own, and moves one of its own only to a size in range that is larger by 40 bytes at
-- least, from an empty heap on, fewer than fuel and none of which found the memory full: the blocks
-- that the program owns have different addresses, and no two of them share a byte.
pub Session-apart :
    (fuel : ℕ) {h : Heap} {k : Knows} {c : ℕ} → Session fuel h k c → c < fuel → AreApart k.blocks
Session-apart fuel {h} {k} session f =
    let (xs, g, small) = Session-Agrees fuel session f in
    all-AreApart h xs g.heap k.blocks g.backed g.distinct
