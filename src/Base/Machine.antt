-- ===== src/Base/Machine.antt =====
-- Commands over a state `S`, and what running one comes to.
use Prim.Native.Nat.{ℕ}

-- `done` is a result with the state left behind; `fault` an access outside of an array, through
-- NULL or to freed memory; `exit` an end of the process with a status; `blocked` a wait for what
-- never comes; `out_of_fuel` a loop that was given too few rounds.
pub data Outcome (S A : Type 0) : Type 0 where
  fault blocked out_of_fuel : Outcome S A
  exit : ℕ → Outcome S A
  done : A → S → Outcome S A

-- What follows a command is run on its result and its state, or not at all.
abbrev pub resume : {S A B : Type 0} → (A → S → Outcome S B) → Outcome S A → Outcome S B
resume next (done a s) = next a s
resume next (exit status) = exit status
resume next fault = fault
resume next blocked = blocked
resume next out_of_fuel = out_of_fuel

abbrev pub pure : {S A : Type 0} → A → S → Outcome S A
pure a s = done a s

infixl 5 ◌>>◌ ◌>>=◌
abbrev pub ◌>>=◌ : {S A B : Type 0} → (S → Outcome S A) → (A → S → Outcome S B) → S → Outcome S B
◌>>=◌ command next s = resume next (command s)

abbrev pub ◌>>◌ : {S A B : Type 0} → (S → Outcome S A) → (S → Outcome S B) → S → Outcome S B
◌>>◌ command next s = resume (λ _. next) (command s)
