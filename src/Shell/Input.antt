-- ===== src/Shell/Input.antt =====
-- hw1/io.c: `freadln` over the bytes that are left of a file.
use os_assignments.Base.{
  ℕ, zero, suc, ◌-◌, Option, none, some, List, [], ◌∷◌, ◌==◌, if◌then◌else◌, Bytes,
}

-- `fgets` with room for `n` more bytes: up to a newline, which is kept, and what is left.
unfoldable pub fgets_bytes : ℕ → Bytes → Bytes × Bytes
fgets_bytes zero cs = ([], cs)
fgets_bytes (suc n) [] = ([], [])
fgets_bytes (suc n) (c ∷ cs) =
    let (line, rest) = fgets_bytes n cs in if c == b'\n' then (c ∷ [], cs) else (c ∷ line, rest)

-- `strlen` and `strncpy`: the bytes in front of the NUL that comes first.
unfoldable pub to_nul : Bytes → Bytes
to_nul [] = []
to_nul (c ∷ cs) = let rest = to_nul cs in if c == 0 then [] else c ∷ rest

abbrev pub maxline : ℕ
maxline = 1024

-- The line as a fresh string, and what is left; `none` is NULL, at the end of the file.
unfoldable pub freadln : Bytes → Option (Bytes × Bytes)
freadln [] = none
freadln (c ∷ cs) = let (line, rest) = fgets_bytes (maxline - 1) (c ∷ cs) in some (to_nul line, rest)

-- `while ((s = freadln(stdin)))`, as the lines that it gets.
unfoldable pub read_lines : ℕ → Bytes → Option (List Bytes)
read_lines zero cs = none
read_lines (suc k) cs = elim (freadln cs) [
  | none ↦ some []
  | some (line, rest) ↦ elim (read_lines k rest) [ none ↦ none | some lines ↦ some (line ∷ lines) ]
]
