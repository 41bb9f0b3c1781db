-- ===== src/Alloc/Tests.antt =====
-- Runs of the model of hw3/mm_alloc.c, and its theorems at concrete inputs.
use os_assignments.Base.{ℕ, ◌<◌, ◌≤◌, ◌≡◌, refl, none, List, [], ◌∷◌, arith, ◌⊎◌, inl, inr, length}
use os_assignments.Alloc.Live.{IsHeap, Releases}
use os_assignments.Alloc.Cases.{Served}
use os_assignments.Alloc.Serves.{mm_malloc-Allocates}
use os_assignments.Alloc.Frees.{mm_free-Releases}
use os_assignments.Alloc.Realloc.{Moved, mm_realloc-Moves}
use os_assignments.Alloc.Calls.{Reach, start, allocated, Reach-IsHeap, Reach-ends}
use os_assignments.Alloc.State.{SBlock, Heap, done, exit, put, sbrk, store, memset_zero}
use os_assignments.Alloc.Ops.{mm_malloc, mm_free, extend_heap, link_last}
use os_assignments.Alloc.Blocks.{Holds}
use os_assignments.Alloc.Splitting.{front_of, rest_of, wiped, zeroed}
use os_assignments.Alloc.Refusals.{mm_free_unowned}
use os_assignments.Alloc.Serving.{Unfit, mm_malloc-split}
use os_assignments.Alloc.Extending.{grown}

-- A heap of a used block of 8 bytes at 1000 and a free one of 200 bytes behind it; the break
-- cannot grow.
abbrev used_block : SBlock
used_block = record { size = 8; next = 1048; prev = 0; free = 0; ptr = 1000 }

abbrev free_block : SBlock
free_block = record { size = 200; next = 0; prev = 1000; free = 1; ptr = 1048 }

abbrev two_blocks : Heap
two_blocks = record {
  cell = put (put (λ a. none) 1000 used_block) 1048 free_block;
  byte = λ a. 7;
  head = 1000;
  brk = 1288;
  limit = 1288;
}

two_blocks-Holds : Holds two_blocks (used_block ∷ free_block ∷ [])
two_blocks-Holds = (
  omega arith,
  refl,
  refl,
  refl,
  omega arith,
  (omega arith, refl, refl, refl, omega arith, (refl, omega arith)),
)

mm_malloc-split_example :
    (h' : Heap) × (mm_malloc 5 16 two_blocks ≡ done 1088 h')
    × Holds h' (used_block ∷ front_of 16 free_block ∷ rest_of 16 free_block ∷ [])
    × ((a : ℕ) → 1088 ≤ a → a < 1104 → h'.byte a ≡ 0)
    × ((a : ℕ) → (a < 1048) ⊎ (1288 ≤ a) → h'.byte a ≡ 7)
    × (h'.brk ≡ 1288)
    × (h'.limit ≡ 1288)
mm_malloc-split_example =
    mm_malloc-split 5 16 (used_block ∷ []) free_block [] two_blocks two_blocks-Holds (refl, tt) refl
      (omega arith) (omega arith) (omega arith)

-- The data of the free block is given back once more.
mm_free_unowned_example : mm_free 5 1088 two_blocks ≡ exit 1
mm_free_unowned_example =
    mm_free_unowned 5 1088 (used_block ∷ free_block ∷ []) two_blocks two_blocks-Holds
      (λ e. absurd (omega arith), (λ e. refl, tt)) (omega arith)

two_blocks-IsHeap : IsHeap two_blocks (used_block ∷ free_block ∷ [])
two_blocks-IsHeap = record {
  holds = two_blocks-Holds;
  settled = (inl refl, (inr (refl, refl), tt));
  below = omega arith;
  bounded = omega arith;
  positive = omega arith;
}

mm_malloc-Allocates_example :
    Served 5 16 two_blocks (used_block ∷ free_block ∷ [])
    ⊎ ((mm_malloc 5 16 two_blocks ≡ done 40 two_blocks)
        × Unfit 16 (used_block ∷ free_block ∷ [])
        × (1288 < 1344))
mm_malloc-Allocates_example =
    mm_malloc-Allocates 5 16 two_blocks (used_block ∷ free_block ∷ []) two_blocks-IsHeap
      (omega arith) (omega arith)

mm_free-Releases_example :
    (h' : Heap) × (xs' : List SBlock) × (mm_free 5 1040 two_blocks ≡ done tt h')
    × Releases two_blocks (used_block ∷ free_block ∷ []) 1000 h' xs'
mm_free-Releases_example =
    mm_free-Releases 5 1000 8 (used_block ∷ free_block ∷ []) two_blocks two_blocks-IsHeap
      (inl (refl, refl, refl)) (omega arith)

abbrev pub empty_heap : Heap
empty_heap = record { cell = λ a. none; byte = λ a. 7; head = 0; brk = 1000; limit = 5000 }

abbrev pub one_block : Heap
one_block = record {
  cell = wiped 1040 16 (put (λ a. none) 1000 (grown 1000 16 0));
  byte = zeroed 1040 16 (λ a. 7);
  head = 1000;
  brk = 1056;
  limit = 5000;
}

pub first_call : mm_malloc 5 16 empty_heap ≡ done 1040 one_block
unfolding mm_malloc extend_heap sbrk link_last store memset_zero
first_call = refl

one_block-Reach : Reach 5 one_block 1
one_block-Reach =
    allocated 16 1040 one_block (start empty_heap refl (omega arith) (omega arith) (omega arith))
      (omega arith) first_call

Reach-IsHeap_example : (xs : List SBlock) × IsHeap one_block xs × (length xs ≤ 1)
Reach-IsHeap_example = Reach-IsHeap 5 one_block-Reach (omega arith)

Reach-ends_example :
    ((r : ℕ) × (h' : Heap) × (mm_malloc 5 7 one_block ≡ done r h'))
    × (((h' : Heap) × (mm_free 5 1040 one_block ≡ done tt h'))
        ⊎ (mm_free 5 1040 one_block ≡ exit 1))
Reach-ends_example = Reach-ends 5 7 1040 one_block-Reach (omega arith) (omega arith)

mm_realloc-Moves_example :
    Moved 5 16 two_blocks (used_block ∷ free_block ∷ []) 1000 8
    ⊎ (Unfit 16 (used_block ∷ free_block ∷ []) × (1288 < 1344))
mm_realloc-Moves_example =
    mm_realloc-Moves 5 16 1000 8 (used_block ∷ free_block ∷ []) two_blocks two_blocks-IsHeap
      (inl (refl, refl, refl)) (omega arith) (omega arith) (omega arith)
