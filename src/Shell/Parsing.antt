-- ===== src/Shell/Parsing.antt =====
-- `create_process` of hw1/shell.c on a whole line.
use os_assignments.Base.{
  ℕ, ◌≡◌, Bool, false, Option, none, some, List, [], ◌∷◌, ◌++◌, ◌==◌, if◌then◌else◌, Bytes, codes,
}
use os_assignments.Shell.Tokens.{get_toks}
use os_assignments.Shell.Command.{Parsed, arguments}
use os_assignments.Shell.Redirecting.{part}

-- A line: a command and a space, the redirections in this order, each or none of them, and the
-- mark `&` for the background or none.
abbrev pub typed : Bytes → Option Bytes → Option Bytes → Option Bytes → Bytes
typed cmd inp out err =
    (((cmd ++ codes " ") ++ part (codes "<") inp) ++ part (codes ">") out) ++ part (codes "2>") err

abbrev pub mark : Bool → Bytes
mark background = if background then codes "&" else []

-- The last byte is not `&`.
abbrev Unmarked : Bytes → Type 0
Unmarked s = (ys : Bytes) × (d : ℕ) × (s ≡ ys ++ (d ∷ [])) × ((d == b'&') ≡ false)

-- The process with these files to open and these tokens.
abbrev parsed :
    (Bytes → Bool)
    → (ℕ → ℕ)
    → Bytes
    → Bool
    → Option Bytes
    → Option Bytes
    → Option Bytes
    → List Bytes
    → Option Parsed
parsed exists room path background err out inp toks = elim (arguments exists room path toks) [
  | none ↦ none
  | some argv ↦ some (record {
    background = background;
    err_file = err;
    out_file = out;
    in_file = inp;
    argv = argv;
  })
]

-- The process of what the three cuts gave.
abbrev filled :
    (Bytes → Bool)
    → (ℕ → ℕ)
    → Bytes
    → Bool
    → Option Bytes × Bytes
    → Option Bytes × Bytes
    → Option Bytes × Bytes
    → Option Parsed
filled exists room path background (err, l1) (out, l2) (inp, l3) =
    parsed exists room path background err out inp (get_toks l3)
