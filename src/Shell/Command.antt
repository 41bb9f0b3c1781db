-- ===== src/Shell/Command.antt =====
-- hw1/shell.c: `create_process`, `resolve_path` and `lookup`. A line is its bytes up to the NUL.
use os_assignments.Base.{
  ℕ, ◌+◌, leb, ltb, Bool, true, false, ◌||◌, ◌&&◌, Option, none, some, List, [], ◌∷◌, ◌++◌, ◌==◌,
  if◌then◌else◌, Bytes, codes, str_eq, length, replicate,
}
use os_assignments.Shell.Tokens.{get_toks, trimwhitespace, maxtoks}

-- The last byte but one made a space if it is `&`. `none`: the line is too short, and the byte in
-- front of the buffer is read.
unfoldable pub background_mark : Bytes → Option (Bool × Bytes)
background_mark [] = none
background_mark (c ∷ []) = none
background_mark (c ∷ d ∷ []) =
    if c == b'&' then some (true, b' ' ∷ d ∷ []) else some (false, c ∷ d ∷ [])
background_mark (c ∷ d ∷ e ∷ cs) = elim (background_mark (d ∷ e ∷ cs)) [
  | none ↦ none
  | some (mark, rest) ↦ some (mark, c ∷ rest)
]

-- The bytes from here on up to one of `stops` or a newline, and what is left.
unfoldable pub take_name : (ℕ → Bool) → Bytes → Bytes × Bytes
take_name stops [] = ([], [])
take_name stops (c ∷ cs) =
    let (name, rest) = take_name stops cs in
    if stops c || c == b'\n' then ([], c ∷ cs) else (c ∷ name, rest)

abbrev pub blanks : ℕ → Bytes
blanks n = replicate n b' '

-- Behind a redirection sign of `width` bytes: the file's name, and the line with both blanked.
unfoldable pub cut_name : (ℕ → Bool) → ℕ → Bytes → Bytes × Bytes
unfolding take_name trimwhitespace
cut_name stops width after =
    let (name, rest) = take_name stops after in
    (trimwhitespace name, blanks (width + length name) ++ rest)

-- `strstr` for a sign of one byte, and the code that follows it.
unfoldable pub redirect : ℕ → (ℕ → Bool) → Bytes → Option Bytes × Bytes
unfolding cut_name
redirect sign stops [] = (none, [])
redirect sign stops (c ∷ cs) =
    let (found, rest) = redirect sign stops cs in
    let (name, line) = cut_name stops 1 cs in
    if c == sign then (some name, line) else (found, c ∷ rest)

-- The same for the sign "2>".
unfoldable pub redirect_err : (ℕ → Bool) → Bytes → Option Bytes × Bytes
unfolding cut_name
redirect_err stops [] = (none, [])
redirect_err stops (c ∷ []) = (none, c ∷ [])
redirect_err stops (c ∷ d ∷ cs) =
    let (found, rest) = redirect_err stops (d ∷ cs) in
    let (name, line) = cut_name stops 2 cs in
    if c == b'2' && d == b'>' then (some name, line) else (found, c ∷ rest)

-- What `create_process` reads off a line: the files to open and the arguments.
pub record Parsed : Type 0 where
  pub background : Bool
  pub err_file : Option Bytes
  pub out_file : Option Bytes
  pub in_file : Option Bytes
  pub argv : List Bytes

-- `path` and `file` hold 1000 bytes each.
abbrev pub path_size : ℕ
path_size = 1000

-- `resolve_path` for a name that no directory of PATH has: the name itself. `none` is a `sprintf`
-- that runs out of `file`, and also a directory that has the name: then the result is the local
-- array `file`, which is gone when the caller reads it. `exists` is `fopen(file, "r")`.
unfoldable pub resolve_in : (Bytes → Bool) → List Bytes → Bytes → Option Bytes
resolve_in exists [] input = some input
resolve_in exists (dir ∷ dirs) input =
    let rest = resolve_in exists dirs input in
    let file = dir ++ (codes "/" ++ input) in
    if leb path_size (length file) then none else if exists file then none else rest

-- PATH is set; `none` is also a `strcpy` of it that runs out of `path`, and the loop over the
-- directories of a full token array, which has no NULL.
unfoldable pub resolve_path : (Bytes → Bool) → Bytes → Bytes → Option Bytes
unfolding resolve_in get_toks
resolve_path exists path input =
    let dirs = get_toks path in
    if leb path_size (length path) || leb maxtoks (length dirs)
    then none
    else resolve_in exists dirs input

-- Whether each argument, with its NUL, is within the memory that `malloc` gave for the bytes in
-- front of the NUL; `room` is how much that really is.
unfoldable pub all_fit : (ℕ → ℕ) → List Bytes → Bool
all_fit room [] = true
all_fit room (t ∷ ts) = ltb (length t) (room (length t)) && all_fit room ts

-- The first token is resolved, and all are copied. `none` is an access outside of an array: also
-- the count over a full token array.
unfoldable pub arguments : (Bytes → Bool) → (ℕ → ℕ) → Bytes → List Bytes → Option (List Bytes)
unfolding resolve_path all_fit
arguments exists room path [] = some []
arguments exists room path (t ∷ ts) =
    if leb maxtoks (length (t ∷ ts)) then none else elim (resolve_path exists path t) [
      | none ↦ none
      | some file ↦ if all_fit room (file ∷ ts) then some (file ∷ ts) else none
    ]

-- `none` is an access outside of `local_s`, which holds 1000 bytes, or one of `arguments`.
unfoldable pub create_process : (Bytes → Bool) → (ℕ → ℕ) → Bytes → Bytes → Option Parsed
unfolding background_mark redirect redirect_err arguments get_toks
create_process exists room path input =
    if leb 1000 (length input) then none else elim (background_mark input) [
      | none ↦ none
      | some (mark, line) ↦
          let (err, l1) = redirect_err (λ c. c == b'<' || c == b'>') line in
          let (out, l2) = redirect b'>' (λ c. c == b'<' || c == b'2') l1 in
          let (inp, l3) = redirect b'<' (λ c. c == b'>' || c == b'2') l2 in
          elim (arguments exists room path (get_toks l3)) [
            | none ↦ none
            | some argv ↦ some (record {
              background = mark;
              err_file = err;
              out_file = out;
              in_file = inp;
              argv = argv;
            })
          ]
    ]

-- The entries of `cmd_table`, in its order.
abbrev pub cmd_table : List Bytes
cmd_table =
    codes "?"
    ∷ codes "quit"
    ∷ codes "cd"
    ∷ codes "plist"
    ∷ codes "fg"
    ∷ codes "bg"
    ∷ codes "wait"
    ∷ []

unfoldable pub lookup_from : ℕ → List Bytes → Bytes → Option ℕ
lookup_from i [] cmd = none
lookup_from i (c ∷ cs) cmd =
    let rest = lookup_from (i + 1) cs cmd in if str_eq c cmd then some i else rest

-- `lookup`: `none` is the code's -1, also for a NULL argument.
unfoldable pub lookup : Option Bytes → Option ℕ
unfolding lookup_from
lookup none = none
lookup (some cmd) = lookup_from 0 cmd_table cmd
