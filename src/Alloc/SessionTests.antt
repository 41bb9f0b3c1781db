-- ===== src/Alloc/SessionTests.antt =====
-- A session of a program with hw3/mm_alloc.c, and the theorems on sessions at it.
use os_assignments.Base.{◌≡◌, refl, none, some, [], ◌∷◌, arith, ◌==◌, if◌then◌else◌}
use os_assignments.Alloc.State.{Heap, done, put, sbrk, store, load, memset_zero}
use os_assignments.Alloc.Ops.{mm_malloc, scan, take_pick, extend_heap, link_last}
use os_assignments.Alloc.Splitting.{wiped, zeroed}
use os_assignments.Alloc.Extending.{grown}
use os_assignments.Alloc.Harness.{put_char, poked}
use os_assignments.Alloc.Session.{
  Knows, Session, begins, goes_on, ask, write, run_call, after, held,
}
use os_assignments.Alloc.Keeping.{AreApart, Session-reads, Session-apart}
use os_assignments.Alloc.Tests.{empty_heap, one_block, first_call}

abbrev nothing : Knows
nothing = record { blocks = []; known = λ a. none }

-- A block of 16 bytes at 1040, with a 9 as its second byte.
abbrev nine : Knows
nine = record {
  blocks = record { at = 1040; bytes = 16 } ∷ [];
  known = λ b. if b == 1041 then some 9 else none;
}

abbrev nine_heap : Heap
nine_heap = poked 1041 9 one_block

first_step : Session 5 one_block (after (ask 16) 1040 nothing) 1
unfolding run_call after
first_step =
    goes_on (ask 16) 1040 one_block
      (begins empty_heap refl (omega arith) (omega arith) (omega arith)) (omega arith) first_call
      (omega arith)

nine-Session : Session 5 nine_heap nine 2
unfolding run_call after held put_char
nine-Session = goes_on (write 1041 9) 0 nine_heap first_step refl refl tt

Session-reads_example : nine_heap.byte 1041 ≡ 9
Session-reads_example = Session-reads 5 1041 9 nine-Session (omega arith) refl

-- A second block, behind the first.
abbrev second_heap : Heap
second_heap = record {
  cell = wiped 1096 16 (
      put (put nine_heap.cell 1000 (record (grown 1000 16 0) { next = 1056 })) 1056
        (grown 1056 16 1000));
  byte = zeroed 1096 16 nine_heap.byte;
  head = 1000;
  brk = 1112;
  limit = 5000;
}

second_call : mm_malloc 5 16 nine_heap ≡ done 1096 second_heap
unfolding mm_malloc scan take_pick extend_heap sbrk link_last store load memset_zero
second_call = refl

second-Session : Session 5 second_heap (after (ask 16) 1096 nine) 3
unfolding run_call
second-Session =
    goes_on (ask 16) 1096 second_heap nine-Session (omega arith) second_call (omega arith)

Session-apart_example : AreApart (after (ask 16) 1096 nine).blocks
Session-apart_example = Session-apart 5 second-Session (omega arith)
