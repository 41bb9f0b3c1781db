-- ===== src/Alloc/Harness.antt =====
-- hw3/mm_test.c: a program that calls the allocator of hw3/mm_alloc.c and prints its list.
use os_assignments.Base.{ℕ, zero, suc, ◌+◌, ◌-◌, ◌%◌, ltb, none, some, List, ◌==◌, if◌then◌else◌}
use os_assignments.Alloc.State.{SBlock, Heap, Cmd, word, overlaps, done, pure, ◌>>=◌, ◌>>◌}
use os_assignments.Alloc.Ops.{mm_malloc, mm_realloc}
use os_assignments.Alloc.Printing.{print_all_meta}

-- The heap behind a byte written.
abbrev pub poked : ℕ → ℕ → Heap → Heap
poked p v h = record h {
  cell = λ a. if overlaps p 1 a then none else h.cell a;
  byte = λ a. if a == p then v else h.byte a;
}

-- `p[0] = v` for a `char *p`.
unfoldable pub put_char : ℕ → ℕ → Cmd (Unit {0})
put_char p v h = done tt (poked p v h)

-- `p[0]`. The first byte of a header is the lowest of its size, as on a little-endian machine.
abbrev pub char_at : ℕ → Heap → ℕ
char_at p h = elim (h.cell p) [ none ↦ h.byte p | some b ↦ b.size % 256 ]

-- A `char` as a `size_t`, with its sign.
abbrev pub size_of_char : ℕ → ℕ
size_of_char c = if ltb c 128 then c else word - 256 + c

unfoldable pub get_char : ℕ → Cmd ℕ
get_char p h = done (char_at p h) h

-- The loop that stores the letter, for `k` more values of `i`.
unfoldable pub fill_chars : ℕ → ℕ → ℕ → Cmd (Unit {0})
fill_chars zero i p = pure tt
fill_chars (suc k) i p = put_char (p + i) 97 >> fill_chars k (i + 1) p

-- What the program prints: the list twice, and the number behind the array.
pub record Printed : Type 0 where
  pub before : List SBlock
  pub after : List SBlock
  pub register_after : ℕ

unfoldable pub main : ℕ → Cmd Printed
main fuel = do
  data0 ← mm_malloc fuel 40
  put_char data0 1
  data1 ← mm_malloc fuel 40
  data2 ← mm_malloc fuel 40
  data3 ← mm_malloc fuel 40
  before ← print_all_meta fuel
  fill_chars 40 0 data3
  ptr ← mm_realloc fuel data3 80
  after ← print_all_meta fuel
  last ← get_char (data3 + 40)
  pure (record { before = before; after = after; register_after = size_of_char last })
