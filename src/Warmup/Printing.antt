-- ===== src/Warmup/Printing.antt =====
-- hw0/map.c and hw0/main.c: what the two programs print, without the text around it. The addresses
-- and the limits are given.
use os_assignments.Base.{
  ℕ, zero, suc, ◌+◌, ◌-◌, ◌%◌, ◌^◌, ◌≡◌, refl, List, [], ◌∷◌, length, ltb, if◌then◌else◌, ℤ, pos,
  negsuc, arith,
}

-- `recur`: what the calls print, the number and the address of `j`, and the result. `stack` is the
-- address of `j` by the depth of the call.
unfoldable pub recur : (ℕ → ℕ) → ℕ → ℤ → List (ℤ × ℕ) × ℕ
recur stack depth (negsuc n) = ((negsuc n, stack depth) ∷ [], 0)
recur stack depth (pos zero) = ((pos 0, stack depth) ∷ [], 0)
recur stack depth (pos (suc n)) =
    let (lines, r) = recur stack (depth + 1) (pos n) in ((pos (suc n), stack depth) ∷ lines, r)

-- The addresses that `main` of map.c prints, in their order.
pub record Addresses : Type 0 where
  pub main_at : ℕ
  pub recur_at : ℕ
  pub i_at : ℕ
  pub stuff_at : ℕ
  pub buf1 : ℕ
  pub buf2 : ℕ

unfoldable pub map_main : Addresses → (ℕ → ℕ) → List ℕ × List (ℤ × ℕ)
unfolding recur
map_main a stack =
    (a.main_at ∷ a.recur_at ∷ a.i_at ∷ a.stuff_at ∷ a.buf1 ∷ a.buf2 ∷ [], (recur stack 0 (pos 3)).0)

-- `%d` of a number of 64 bits: the low 32, as a signed number.
unfoldable pub low_int : ℕ → ℤ
low_int x = let low = x % 2 ^ 32 in if ltb low (2 ^ 31) then pos low else negsuc (2 ^ 32 - low - 1)

-- `main` of main.c: the stack size, the processes, the open files.
unfoldable pub limits_main : ℕ → ℕ → ℕ → List ℤ
unfolding low_int
limits_main stack nproc nofile = low_int stack ∷ low_int nproc ∷ low_int nofile ∷ []

-- `recur` of a number that is not negative returns 0 after one line for each number down to 0.
pub recur-length :
    (stack : ℕ → ℕ) (depth n : ℕ)
    → (length (recur stack depth (pos n)).0 ≡ n + 1) × ((recur stack depth (pos n)).1 ≡ 0)
unfolding recur
recur-length stack depth zero = (refl, refl)
recur-length stack depth (suc n) =
    let (count, zero_out) = recur-length stack (depth + 1) n in (omega arith, zero_out)
