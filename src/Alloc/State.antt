-- ===== src/Alloc/State.antt =====
-- The memory of hw3/mm_alloc.c. A block's header (`struct s_block`, 40 bytes) is held as one cell
-- at its address, data bytes one by one; a write of bytes over a header destroys its cell. A header
-- that is not there is a fault to read; bytes are held for each address, also for those that the
-- system has not mapped.
use os_assignments.Base.{
  ℕ, ◌+◌, ◌-◌, ◌%◌, ◌^◌, Bool, ◌&&◌, Option, none, some, ◌==◌, ltb, leb, if◌then◌else◌,
}
use os_assignments.Base.Machine.{Outcome}
pub use os_assignments.Base.Machine.{done, fault, exit, out_of_fuel, pure, ◌>>=◌, ◌>>◌}

abbrev pub block_size : ℕ
block_size = 40

-- `struct s_block`. Addresses are numbers, and 0 is NULL.
pub record SBlock : Type 0 where
  pub size : ℕ
  pub next : ℕ
  pub prev : ℕ
  pub free : ℕ
  pub ptr : ℕ

-- Memory with `block_list_head`, the program break, and how far the system lets the break grow.
pub record Heap : Type 0 where
  pub cell : ℕ → Option SBlock
  pub byte : ℕ → ℕ
  pub head : ℕ
  pub brk : ℕ
  pub limit : ℕ

abbrev pub Run : Type 0 → Type 0
Run = Outcome Heap

abbrev pub Cmd : Type 0 → Type 0
Cmd A = Heap → Run A

-- `size_t` arithmetic.
abbrev pub word : ℕ
word = 2 ^ 64

abbrev pub add64 : ℕ → ℕ → ℕ
add64 a b = (a + b) % word

abbrev pub sub64 : ℕ → ℕ → ℕ
sub64 a b = (a + word - b) % word

-- `(void *) -1`, what `sbrk` returns where it fails.
abbrev pub minus_one : ℕ
minus_one = word - 1

unfoldable pub load : ℕ → Cmd SBlock
load p h = elim (h.cell p) [ none ↦ fault | some b ↦ done b h ]

abbrev pub put : (ℕ → Option SBlock) → ℕ → SBlock → ℕ → Option SBlock
put cell p b a = if a == p then some b else cell a

unfoldable pub store : ℕ → SBlock → Cmd (Unit {0})
store p b h = done tt (record h { cell = put h.cell p b })

-- Whether the header at `a` shares a byte with `n` bytes at `p`.
abbrev pub overlaps : ℕ → ℕ → ℕ → Bool
overlaps p n a = ltb p (a + block_size) && ltb a (p + n)

abbrev pub inside : ℕ → ℕ → ℕ → Bool
inside p n a = leb p a && ltb a (p + n)

-- `memset(p, 0, n)`
unfoldable pub memset_zero : ℕ → ℕ → Cmd (Unit {0})
memset_zero p n h = done tt (record h {
  cell = λ a. if overlaps p n a then none else h.cell a;
  byte = λ a. if inside p n a then 0 else h.byte a;
})

-- `memcpy(p, q, n)`
unfoldable pub memcpy : ℕ → ℕ → ℕ → Cmd (Unit {0})
memcpy p q n h = done tt (record h {
  cell = λ a. if overlaps p n a then none else h.cell a;
  byte = λ a. if inside p n a then h.byte (q + (a - p)) else h.byte a;
})

-- `sbrk(n)`. A request of 2 ^ 63 bytes or more is a negative increment, which would give memory
-- back under the blocks: a fault.
unfoldable pub sbrk : ℕ → Cmd ℕ
sbrk n h =
    if leb (2 ^ 63) n
    then fault
    else if leb (h.brk + n) h.limit
    then done h.brk (record h { brk = h.brk + n })
    else done minus_one h
