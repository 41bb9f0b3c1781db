-- ===== src/Shell/State.antt =====
-- The processes of hw1/process.h on an explicit heap, and the calls to the system that are made.
use os_assignments.Base.{ℕ, Bool, Option, none, some, List, ◌==◌, if◌then◌else◌, Bytes, ℤ}
use os_assignments.Base.Machine.{Outcome}
pub use os_assignments.Base.Machine.{done, fault, blocked, exit, out_of_fuel, pure, ◌>>=◌, ◌>>◌}

-- What `status` says: the macros WIFSTOPPED and WIFSIGNALED.
pub data Status : Type 0 where
  exited signaled stopped_by : ℕ → Status

-- `struct process`. Addresses are numbers, and 0 is NULL; `argv` is the array up to its NULL.
pub record Process : Type 0 where
  pub argv : List Bytes
  pub pid : ℤ
  pub completed : Bool
  pub stopped : Bool
  pub background : Bool
  pub status : Option Status
  pub next : ℕ
  pub prev : ℕ

-- The heap and `first_process`.
pub record Shell : Type 0 where
  pub cell : ℕ → Option Process
  pub first_process : ℕ

abbrev pub Run : Type 0 → Type 0
Run = Outcome Shell

abbrev pub Cmd : Type 0 → Type 0
Cmd A = Shell → Run A

unfoldable pub load : ℕ → Cmd Process
load p h = elim (h.cell p) [ none ↦ fault | some b ↦ done b h ]

abbrev pub put : (ℕ → Option Process) → ℕ → Option Process → ℕ → Option Process
put cell p b a = if a == p then b else cell a

unfoldable pub store : ℕ → Process → Cmd (Unit {0})
store p b h = done tt (record h { cell = put h.cell p (some b) })

-- `free`
unfoldable pub free : ℕ → Cmd (Unit {0})
free p h = elim (h.cell p) [
  | none ↦ fault
  | some _ ↦ done tt (record h { cell = put h.cell p none })
]
