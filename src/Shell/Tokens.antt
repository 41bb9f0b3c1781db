-- ===== src/Shell/Tokens.antt =====
-- hw1/parse.c, and `trimwhitespace` of hw1/shell.c: text without its closing NUL.
use os_assignments.Base.{
  ℕ, zero, suc, ◌+◌, Bool, ◌||◌, ◌&&◌, Option, none, some, List, [], ◌∷◌, ◌++◌, ◌==◌, leb,
  if◌then◌else◌, take, Bytes,
}

abbrev pub maxtoks : ℕ
maxtoks = 100

-- A byte of TOKseparator, " \n:".
abbrev pub is_separator : ℕ → Bool
is_separator c = c == b' ' || (c == b'\n' || c == b':')

-- A byte of PIPEseparator, "|".
abbrev pub is_pipe : ℕ → Bool
is_pipe c = c == b'|'

-- A token in front of the others, if it has a byte.
unfoldable pub emit : Bytes → List Bytes → List Bytes
emit [] toks = toks
emit (c ∷ cs) toks = (c ∷ cs) ∷ toks

-- The token that the line starts with, perhaps empty, and the tokens behind it: what `strtok`
-- returns, call by call, until NULL.
unfoldable pub tokens_from : (ℕ → Bool) → Bytes → Bytes × List Bytes
tokens_from sep [] = ([], [])
tokens_from sep (c ∷ cs) =
    let (front, toks) = tokens_from sep cs in
    if sep c then ([], emit front toks) else (c ∷ front, toks)

unfoldable pub strtok_all : (ℕ → Bool) → Bytes → List Bytes
strtok_all sep line = let (front, toks) = tokens_from sep line in emit front toks

-- `getToks`: the filled places of the array.
unfoldable pub get_toks : Bytes → List Bytes
get_toks line = take maxtoks (strtok_all is_separator line)

-- The loop of `fprintTok`.
unfoldable pub print_toks : List Bytes → Bytes
print_toks [] = []
print_toks (t ∷ ts) = t ++ (b' ' ∷ print_toks ts)

-- `fprintTok`, as the bytes that it prints.
unfoldable pub fprint_tok : List Bytes → Bytes
unfolding print_toks
fprint_tok toks = print_toks (take maxtoks toks) ++ (b'\n' ∷ [])

-- The bytes up to the first separator, and those behind it.
unfoldable pub cut_at : (ℕ → Bool) → Bytes → Bytes × Bytes
cut_at sep [] = ([], [])
cut_at sep (c ∷ cs) =
    let (front, rest) = cut_at sep cs in if sep c then ([], cs) else (c ∷ front, rest)

-- One call of `strtok`: the next token and what is left behind its separator.
unfoldable pub first_token : (ℕ → Bool) → Bytes → Option (Bytes × Bytes)
unfolding cut_at
first_token sep [] = none
first_token sep (c ∷ cs) =
    let skip = first_token sep cs in if sep c then skip else some (cut_at sep (c ∷ cs))

-- `getPipes`: the first token ends at a separator of TOKseparator, the others at PIPEseparator.
unfoldable pub get_pipes : Bytes → List Bytes
unfolding first_token
get_pipes line = elim (first_token is_separator line) [
  | none ↦ []
  | some (tok, rest) ↦ take maxtoks (tok ∷ strtok_all is_pipe rest)
]

-- `isDirectTok`: the place of the first token that starts with `r`, or 0. `i` is the loop's
-- counter and the first argument the rounds left; a token has at least one byte.
unfoldable pub direct_from : ℕ → ℕ → List Bytes → ℕ → ℕ
direct_from zero i toks r = 0
direct_from (suc n) i [] r = 0
direct_from (suc n) i ([] ∷ toks) r = direct_from n (i + 1) toks r
direct_from (suc n) i ((c ∷ cs) ∷ toks) r =
    let next = direct_from n (i + 1) toks r in if c == r then i else next

unfoldable pub is_direct_tok : List Bytes → ℕ → ℕ
unfolding direct_from
is_direct_tok toks r = direct_from 99 0 toks r

-- `isspace` in the C locale.
abbrev pub is_space : ℕ → Bool
is_space c = c == b' ' || (leb 9 c && leb c 13)

unfoldable pub trim_front : Bytes → Bytes
trim_front [] = []
trim_front (c ∷ cs) = let rest = trim_front cs in if is_space c then rest else c ∷ cs

-- A byte in front of a trimmed tail: a space goes if nothing is left behind it.
unfoldable pub keep : ℕ → Bytes → Bytes
keep c [] = if is_space c then [] else c ∷ []
keep c (d ∷ ds) = c ∷ d ∷ ds

unfoldable pub trim_back : Bytes → Bytes
unfolding keep
trim_back [] = []
trim_back (c ∷ cs) = keep c (trim_back cs)

unfoldable pub trimwhitespace : Bytes → Bytes
unfolding trim_front trim_back
trimwhitespace str = trim_back (trim_front str)
