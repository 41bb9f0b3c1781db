-- ===== src/Alloc/ClientTests.antt =====
-- `mm_realloc` of hw3/mm_alloc.c to a smaller size, at concrete inputs, and a run of hw3/mm_test.c.
use os_assignments.Base.{ℕ, Option, refl, none, some, [], ◌∷◌, arith, ◌≡◌}
use os_assignments.Alloc.State.{
  SBlock, Heap, Run, done, fault, put, load, store, memset_zero, memcpy, sbrk,
}
use os_assignments.Alloc.Ops.{
  mm_realloc, mm_malloc, mm_free, owned, scan, take_pick, extend_heap, link_last, release, fusion,
  fuse_next, split_block,
}
use os_assignments.Base.Machine.{exit, blocked, out_of_fuel}
use os_assignments.Alloc.Printing.{print_all_meta, print_from, print_blockmeta_by_address}
use os_assignments.Alloc.Client.{Prints, main-Prints}
use os_assignments.Alloc.Harness.{Printed, main, put_char, get_char, fill_chars}

-- A free block of 48 bytes at 1000 and a used one of 60 bytes behind it.
abbrev free_front : SBlock
free_front = record { size = 48; next = 1088; prev = 0; free = 1; ptr = 1000 }

abbrev used_behind : SBlock
used_behind = record { size = 60; next = 0; prev = 1000; free = 0; ptr = 1088 }

abbrev shrinkable : Heap
shrinkable = record {
  cell = put (put (λ a. none) 1000 free_front) 1088 used_behind;
  byte = λ a. 7;
  head = 1000;
  brk = 1188;
  limit = 1188;
}

-- A process that has no block yet.
abbrev fresh_heap : Heap
fresh_heap = record { cell = λ a. none; byte = λ a. 0; head = 0; brk = 1000; limit = 9000 }

abbrev used40 : ℕ → ℕ → ℕ → SBlock
used40 next prev p = record { size = 40; next = next; prev = prev; free = 0; ptr = p }

abbrev printed : Run Printed → Option Printed
printed (done out h) = some out
printed fault = none
printed blocked = none
printed out_of_fuel = none
printed (exit status) = none

main-Prints_example : Prints 6 fresh_heap
main-Prints_example =
    main-Prints 6 fresh_heap refl (omega arith) (omega arith) (omega arith) (omega arith)

-- The program of hw3/mm_test.c comes to its end. The old array is free at its last line, which
-- prints the first byte of the header behind it: the size of the new array.
mm_test_run :
    printed (main 6 fresh_heap)
    ≡ some (record {
      before =
          used40 1080 0 1000
          ∷ used40 1160 1000 1080
          ∷ used40 1240 1080 1160
          ∷ used40 0 1160 1240
          ∷ [];
      after =
          used40 1080 0 1000
          ∷ used40 1160 1000 1080
          ∷ used40 1240 1080 1160
          ∷ record { size = 40; next = 1320; prev = 1160; free = 1; ptr = 1240 }
          ∷ record { size = 80; next = 0; prev = 1240; free = 0; ptr = 1320 }
          ∷ [];
      register_after = 80;
    })
unfolding main put_char get_char fill_chars mm_malloc mm_realloc mm_free owned scan take_pick
    extend_heap link_last release fusion fuse_next split_block print_all_meta print_from
    print_blockmeta_by_address load store memset_zero memcpy sbrk
mm_test_run = refl
