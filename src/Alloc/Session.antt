-- ===== src/Alloc/Session.antt =====
-- A program that uses hw3/mm_alloc.c, with what it knows of its memory.
use os_assignments.Base.{
  ℕ, suc, ◌+◌, ◌-◌, ◌<◌, ◌≤◌, ◌^◌, ◌≡◌, ◌≢◌, Bool, true, false, ◌||◌, Option, none, some, List, [],
  ◌∷◌, ◌==◌, ltb, if◌then◌else◌, ◌⊎◌,
}
use os_assignments.Alloc.State.{Heap, Cmd, block_size, done, pure, ◌>>◌, inside}
use os_assignments.Alloc.Ops.{mm_malloc, mm_free, mm_realloc}
use os_assignments.Alloc.Harness.{put_char}

-- The calls, and a byte written by the program itself.
pub data Call : Type 0 where
  ask : ℕ → Call
  give_back : ℕ → Call
  resize : ℕ → ℕ → Call
  write : ℕ → ℕ → Call

unfoldable pub run_call : ℕ → Call → Cmd ℕ
run_call fuel (ask n) = mm_malloc fuel n
run_call fuel (give_back ptr) = mm_free fuel ptr >> pure 0
run_call fuel (resize ptr n) = mm_realloc fuel ptr n
run_call fuel (write a v) = put_char a v >> pure 0

-- A pointer that a call returned, with the size asked for.
pub record Owned : Type 0 where
  pub at : ℕ
  pub bytes : ℕ

-- The blocks of the program, and what it last wrote to their bytes.
pub record Knows : Type 0 where
  pub blocks : List Owned
  pub known : ℕ → Option ℕ

abbrev pub Owns : ℕ → ℕ → List Owned → Type 0
Owns q n [] = ⊥
Owns q n (o ∷ os) = ((o.at ≡ q) × (o.bytes ≡ n)) ⊎ Owns q n os

-- Whether the byte at `a` is in one of the blocks.
unfoldable pub held : List Owned → ℕ → Bool
held [] a = false
held (o ∷ os) a = inside o.at o.bytes a || held os a

unfoldable pub without : ℕ → List Owned → List Owned
without q [] = []
without q (o ∷ os) = if o.at == q then without q os else o ∷ without q os

unfoldable pub size_at : ℕ → List Owned → ℕ
size_at q [] = 0
size_at q (o ∷ os) = if o.at == q then o.bytes else size_at q os

abbrev pub kept : List Owned → (ℕ → Option ℕ) → ℕ → Option ℕ
kept os known a = if held os a then known a else none

-- What a block at `r` of `n` bytes has of the one at `q`, whose first `s` bytes were moved.
abbrev pub moved_to : ℕ → ℕ → ℕ → ℕ → List Owned → (ℕ → Option ℕ) → ℕ → Option ℕ
moved_to r n q s os known a =
    if inside r n a then (if ltb (a - r) s then known (q + (a - r)) else none) else kept os known a

-- What the program knows after a call that returned `r`.
unfoldable pub after : Call → ℕ → Knows → Knows
after (ask n) r k = record { blocks = record { at = r; bytes = n } ∷ k.blocks; known = k.known }
after (give_back ptr) r k = record {
  blocks = without ptr k.blocks;
  known = kept (without ptr k.blocks) k.known;
}
after (resize ptr n) r k = record {
  blocks = record { at = r; bytes = n } ∷ without ptr k.blocks;
  known = moved_to r n ptr (size_at ptr k.blocks) (without ptr k.blocks) k.known;
}
after (write a v) r k = record k { known = λ b. if b == a then some v else k.known b }

-- A program gives back and moves only blocks of its own, and writes only to them; it asks for
-- sizes in range; and it moves a block only to a size that is larger by a header at least.
abbrev pub IsPermitted : Call → Knows → Type 0
IsPermitted (ask n) k = n + block_size < 2 ^ 63
IsPermitted (give_back ptr) k = (n : ℕ) × Owns ptr n k.blocks
IsPermitted (resize ptr n) k =
    Owns ptr (size_at ptr k.blocks) k.blocks
    × (size_at ptr k.blocks + block_size ≤ n)
    × (n + block_size < 2 ^ 63)
IsPermitted (write a v) k = held k.blocks a ≡ true

-- A pointer of 40 is what a call returns that found no memory.
abbrev pub IsServed : Call → ℕ → Type 0
IsServed (ask n) r = r ≢ 40
IsServed (resize ptr n) r = r ≢ 40
IsServed _ r = Unit

-- The heap and the program's knowledge after that many calls, in any order, from a heap without
-- blocks on.
pub data Session (fuel : ℕ) : Heap → Knows → ℕ → Type 0 where
  begins :
      (h : Heap)
      → h.head ≡ 0
      → h.brk ≤ h.limit
      → h.limit < 2 ^ 63
      → 0 < h.brk
      → Session fuel h (record { blocks = []; known = λ a. none }) 0
  goes_on :
      {h : Heap} {k : Knows} {c : ℕ} (call : Call) (r : ℕ) (h' : Heap)
      → Session fuel h k c
      → IsPermitted call k
      → run_call fuel call h ≡ done r h'
      → IsServed call r
      → Session fuel h' (after call r k) (suc c)
