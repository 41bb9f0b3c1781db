-- ===== src/Warmup/Counting.antt =====
-- `wc` of hw0/wc.c.
use os_assignments.Base.{
  ℕ, suc, ◌+◌, ◌<◌, ◌≡◌, refl, Bool, true, false, Option, none, some, List, [], ◌∷◌, ltb,
  if◌then◌else◌, Bytes, length, All, arith, Bool-cases, inl, inr,
}
use os_assignments.Shell.Tokens.{is_space, tokens_from, strtok_all, emit}

-- `char str[10000]`
abbrev pub str_size : ℕ
str_size = 10000

-- What `fscanf(infile, "%s", str)` stores, call by call, until it returns EOF.
abbrev pub words : Bytes → List Bytes
words = strtok_all is_space

-- The loop: each call is counted, the last one too. `none` is a word that `str` cannot hold.
unfoldable pub wc_loop : List Bytes → ℕ → Option ℕ
wc_loop [] count = some (count + 1)
wc_loop (w ∷ ws) count =
    let rest = wc_loop ws (count + 1) in if ltb (length w) str_size then rest else none

-- The number that is printed; `infile` is NULL where there is no such file.
unfoldable pub wc : Option Bytes → Option ℕ
wc none = none
wc (some text) = wc_loop (words text) 0

-- The words that start in a text, where `after` says whether a space or nothing stands before it.
unfoldable pub word_starts : Bool → Bytes → ℕ
word_starts after [] = 0
word_starts after (c ∷ cs) =
    let blank = word_starts true cs in
    let inner = word_starts false cs in
    if is_space c then blank else if after then suc inner else inner

tokens-starts :
    (cs : Bytes)
    → (length (emit (tokens_from is_space cs).0 (tokens_from is_space cs).1) ≡ word_starts true cs)
      × (length (tokens_from is_space cs).1 ≡ word_starts false cs)
unfolding tokens_from word_starts emit
tokens-starts [] = (refl, refl)
tokens-starts (c ∷ cs) =
    let (first, rest) = tokens-starts cs in
    elim (Bool-cases (is_space c)) [
      | inl blank ↦ rw blank (first, first)
      | inr inner ↦ rw inner (omega (arith, rest), rest)
    ]

wc_loop-length :
    (ws : List Bytes) (count : ℕ)
    → All (λ w. length w < str_size) ws
    → wc_loop ws count ≡ some (count + (length ws + 1))
unfolding wc_loop
wc_loop-length [] count h = ground arith
wc_loop-length (w ∷ ws) count h =
    let fit : ltb (length w) str_size ≡ true = ground arith in
    rw (fit, wc_loop-length ws (count + 1) h.1) (ground arith)

-- For a text whose words fit the buffer, the program prints one more than the number of places
-- where a word starts, since it counts the call that meets the end of the file.
pub wc-word_starts :
    (text : Bytes)
    → All (λ w. length w < str_size) (words text)
    → wc (some text) ≡ some (word_starts true text + 1)
unfolding wc strtok_all
wc-word_starts text h =
    rw (wc_loop-length (words text) 0 h, wc) (ground (arith, (tokens-starts text).0))
