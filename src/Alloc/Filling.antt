-- ===== src/Alloc/Filling.antt =====
-- What the program of hw3/mm_test.c writes into its arrays.
use os_assignments.Base.{
  ℕ, zero, suc, ◌+◌, ◌<◌, ◌≤◌, ◌≡◌, refl, List, arith, ◌==◌, inl, inr, Bool-cases,
}
use os_assignments.Alloc.State.{SBlock, Heap, block_size, done}
use os_assignments.Alloc.Blocks.{Holds}
use os_assignments.Alloc.Spots.{Live, Spots-apart}
use os_assignments.Alloc.Moving.{Chain-same}
use os_assignments.Alloc.Harness.{put_char, poked, fill_chars}

-- A byte written into the data of a block in use leaves the block list.
pub poked-Holds :
    (p m c v : ℕ) (xs : List SBlock) (h : Heap)
    → Holds h xs
    → Live p m xs
    → p + block_size ≤ c
    → c < p + block_size + m
    → Holds (poked c v h) xs
poked-Holds p m c v xs h holds live above under =
    Chain-same h.cell (poked c v h).cell h.brk 0 h.head 0 xs
      (λ a k f s. elim (Spots-apart a k f p m 0 h.cell h.brk 0 h.head 0 xs holds s live) [
        | inl (e, _, _) ↦ ground arith
        | inr (inl before) ↦ ground arith
        | inr (inr after) ↦ ground arith
      ])
      holds

-- The letters stand in front of the `n`-th byte.
abbrev pub Letters : Heap → ℕ → ℕ → Type 0
Letters h p n = (j : ℕ) → j < n → h.byte (p + block_size + j) ≡ 97

-- The loop over the data of a block in use leaves the block list and the break, and letters.
pub fill_chars-Letters :
    (k i p m : ℕ) (xs : List SBlock) (h : Heap)
    → Holds h xs
    → Live p m xs
    → i + k ≤ m
    → Letters h p i
    → (h' : Heap) × (fill_chars k i (p + block_size) h ≡ done tt h')
      × Holds h' xs
      × Letters h' p (i + k)
      × (h'.brk ≡ h.brk)
      × (h'.limit ≡ h.limit)
unfolding fill_chars put_char
fill_chars-Letters zero i p m xs h holds live le letters =
    (h, refl, holds, (λ j under. letters j (omega arith)), refl, refl)
fill_chars-Letters (suc k) i p m xs h holds live le letters =
    let h1 = poked (p + block_size + i) 97 h in
    let (h', run, holds', letters', brk, limit) =
      fill_chars-Letters k (i + 1) p m xs h1
        (poked-Holds p m (p + block_size + i) 97 xs h holds live (omega arith) (omega arith)) live
        (omega arith)
        (λ j under. elim (Bool-cases (p + block_size + j == p + block_size + i)) [
          | inl here ↦ rw here
          | inr off ↦ rw off (letters j (ground arith))
        ]) in
    (h', run, holds', (λ j under. letters' j (omega arith)), brk, limit)
