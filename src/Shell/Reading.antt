-- ===== src/Shell/Reading.antt =====
-- The lines that `freadln` of hw1/io.c gets from a file.
use os_assignments.Base.{
  ℕ, zero, suc, ◌+◌, ◌<◌, ◌≤◌, ◌≡◌, ◌≢◌, ◌∙◌, ◌⊎◌, refl, ap, false, some, List, [], ◌∷◌, ◌++◌, ◌==◌,
  Bytes, length, All, arith, Bool-cases, inl, inr, length-append,
}
use os_assignments.Shell.Input.{fgets_bytes, to_nul, maxline, freadln, read_lines}

abbrev pub concat : List Bytes → Bytes
concat [] = []
concat (l ∷ ls) = l ++ concat ls

-- No newline stands in front of the last byte.
unfoldable pub NoBreak : Bytes → Type 0
NoBreak [] = Unit
NoBreak (c ∷ []) = Unit
NoBreak (c ∷ d ∷ cs) = ((c == b'\n') ≡ false) × NoBreak (d ∷ cs)

-- The last byte is a newline.
unfoldable pub Ends : Bytes → Type 0
Ends [] = ⊥
Ends (c ∷ []) = c ≡ b'\n'
Ends (c ∷ d ∷ cs) = Ends (d ∷ cs)

-- A line has a byte, fits the buffer with its NUL, and has a newline only as its last byte.
abbrev pub IsLine : Bytes → Type 0
IsLine l = (0 < length l) × (length l < maxline) × NoBreak l

-- A line is cut off only behind a newline, or where the buffer is full.
abbrev pub IsCut : Bytes → Type 0
IsCut l = Ends l ⊎ (length l + 1 ≡ maxline)

-- All lines but the last one are.
abbrev pub AllCut : List Bytes → Type 0
AllCut [] = Unit
AllCut (l ∷ []) = Unit
AllCut (l ∷ m ∷ ls) = IsCut l × AllCut (m ∷ ls)

abbrev pub NoNul : Bytes → Type 0
NoNul cs = All (λ c. c ≢ 0) cs

to_nul-whole : (l : Bytes) → NoNul l → to_nul l ≡ l
unfolding to_nul
to_nul-whole [] h = refl
to_nul-whole (c ∷ l) h =
    let kept : (c == 0) ≡ false = ground (arith, h.0) in rw (kept, to_nul-whole l h.1) refl

-- The line and the rest are the input, the line is within the room, and longer than nothing.
fgets_bytes_lem :
    (n : ℕ) (cs : Bytes)
    → ((fgets_bytes n cs).0 ++ (fgets_bytes n cs).1 ≡ cs) × (length (fgets_bytes n cs).0 ≤ n)
unfolding fgets_bytes
fgets_bytes_lem zero cs = (refl, omega arith)
fgets_bytes_lem (suc n) [] = (refl, omega arith)
fgets_bytes_lem (suc n) (c ∷ cs) =
    let (whole, small) = fgets_bytes_lem n cs in
    elim (Bool-cases (c == b'\n')) [
      | inl newline ↦ rw newline (refl, omega arith)
      | inr other ↦ rw other (ap (λ l. c ∷ l) whole, omega arith)
    ]

-- A byte that is no newline, in front of a line.
NoBreak-cons : (c : ℕ) (l : Bytes) → (c == b'\n') ≡ false → NoBreak l → NoBreak (c ∷ l)
unfolding NoBreak
NoBreak-cons c [] e h = tt
NoBreak-cons c (d ∷ l) e h = (e, h)

Ends-cons : (c : ℕ) (l : Bytes) → Ends l → Ends (c ∷ l)
unfolding Ends
Ends-cons c [] h = absurd h
Ends-cons c (d ∷ l) h = h

-- Where the line stops: at its first newline, and else at the end of the input or of the room.
fgets_bytes-stops :
    (n : ℕ) (cs : Bytes)
    → NoBreak (fgets_bytes n cs).0
      × (((fgets_bytes n cs).1 ≡ [])
          ⊎ (Ends (fgets_bytes n cs).0 ⊎ (length (fgets_bytes n cs).0 ≡ n)))
unfolding fgets_bytes
fgets_bytes-stops zero cs = (unfold NoBreak in tt, inr (inr refl))
fgets_bytes-stops (suc n) [] = (unfold NoBreak in tt, inl refl)
fgets_bytes-stops (suc n) (c ∷ cs) =
    let (whole, stop) = fgets_bytes-stops n cs in
    elim (Bool-cases (c == b'\n')) [
      | inl newline ↦ rw newline (unfold NoBreak in tt, inr (inl (unfold Ends in ground arith)))
      | inr other ↦ rw other (
        NoBreak-cons c (fgets_bytes n cs).0 other whole,
        elim stop [
          | inl all ↦ inl all
          | inr (inl ends) ↦ inr (inl (Ends-cons c (fgets_bytes n cs).0 ends))
          | inr (inr full) ↦ inr (inr (omega arith))
        ],
      )
    ]

fgets_bytes_some : (n : ℕ) (c : ℕ) (cs : Bytes) → 0 < length (fgets_bytes (suc n) (c ∷ cs)).0
unfolding fgets_bytes
fgets_bytes_some n c cs = ground arith

fgets_bytes-NoNul :
    (n : ℕ) (cs : Bytes) → NoNul cs → NoNul (fgets_bytes n cs).0 × NoNul (fgets_bytes n cs).1
unfolding fgets_bytes
fgets_bytes-NoNul zero cs h = (tt, h)
fgets_bytes-NoNul (suc n) [] h = (tt, tt)
fgets_bytes-NoNul (suc n) (c ∷ cs) h =
    let (line, rest) = fgets_bytes-NoNul n cs h.1 in
    elim (Bool-cases (c == b'\n')) [
      | inl newline ↦ rw newline ((h.0, tt), h.1)
      | inr other ↦ rw other ((h.0, line), rest)
    ]

shorter :
    (k : ℕ) (line rest : Bytes) {cs : Bytes}
    → line ++ rest ≡ cs
    → length cs < suc k
    → 0 < length line
    → length rest < k
shorter k line rest whole h some_byte =
    omega (arith, ap (length {0}) whole, length-append line rest)

-- What one call gives, for a buffer of `n` and two more bytes.
one_line :
    (k n c : ℕ) (cs : Bytes)
    → NoNul (c ∷ cs)
    → length (c ∷ cs) < suc k
    → (line : Bytes) × (rest : Bytes) × (fgets_bytes (suc n) (c ∷ cs) ≡ (line, rest))
      × (to_nul line ≡ line)
      × (line ++ rest ≡ c ∷ cs)
      × (length rest < k)
      × NoNul rest
      × (0 < length line)
      × (length line < suc (suc n))
      × NoBreak line
      × ((rest ≡ []) ⊎ (Ends line ⊎ (length line ≡ suc n)))
one_line k n c cs h f =
    let (line, rest) = fgets_bytes (suc n) (c ∷ cs) in
    let (whole, small) = fgets_bytes_lem (suc n) (c ∷ cs) in
    let (line_nul, rest_nul) = fgets_bytes-NoNul (suc n) (c ∷ cs) h in
    let some_byte = fgets_bytes_some n c cs in
    (
      line,
      rest,
      refl,
      to_nul-whole line line_nul,
      whole,
      shorter k line rest whole f some_byte,
      rest_nul,
      some_byte,
      omega (arith, small),
      (fgets_bytes-stops (suc n) (c ∷ cs)).0,
      (fgets_bytes-stops (suc n) (c ∷ cs)).1,
    )

-- Lines behind a cut, where there are any only if bytes were left.
AllCut-cons :
    (line rest : Bytes) (lines : List Bytes)
    → (rest ≡ []) ⊎ (Ends line ⊎ (length line ≡ 1023))
    → concat lines ≡ rest
    → All IsLine lines
    → AllCut lines
    → AllCut (line ∷ lines)
AllCut-cons line rest [] stop all each cut = tt
AllCut-cons line rest (m ∷ ms) (inl none_left) all each cut =
    let none_there : length (m ++ concat ms) ≡ 0 = ap (length {0}) (all ∙ none_left) in
    absurd (omega (arith, length-append m (concat ms), each.0.0))
AllCut-cons line rest (m ∷ ms) (inr (inl ends)) all each cut = (inl ends, cut)
AllCut-cons line rest (m ∷ ms) (inr (inr full)) all each cut = (inr (omega arith), cut)

next_line :
    (k : ℕ) (cs : Bytes) {got line rest : Bytes} {lines : List Bytes}
    → freadln cs ≡ some (got, rest)
    → got ≡ line
    → read_lines k rest ≡ some lines
    → read_lines (suc k) cs ≡ some (line ∷ lines)
unfolding read_lines
next_line k cs read kept run = rw (read, read_lines, run, kept) refl

read_some :
    (c : ℕ) (cs : Bytes) {line rest : Bytes}
    → fgets_bytes 1023 (c ∷ cs) ≡ (line, rest)
    → freadln (c ∷ cs) ≡ some (to_nul line, rest)
unfolding freadln
read_some c cs got = ap (λ p. some (to_nul p.0, p.1)) got

-- For an input without a NUL byte, reading lines until NULL comes to an end in at most as many
-- calls as there are bytes, and one more; the lines, each with a byte at least and shorter than
-- the buffer, are together the whole input. A line has a newline only as its last byte, and each
-- line but the last ends with one or fills the buffer.
pub read_lines-concat :
    (fuel : ℕ) (cs : Bytes)
    → NoNul cs
    → length cs < fuel
    → (lines : List Bytes) × (read_lines fuel cs ≡ some lines)
      × (concat lines ≡ cs)
      × All IsLine lines
      × AllCut lines
unfolding read_lines freadln
read_lines-concat zero cs h f = absurd (omega arith)
read_lines-concat (suc k) [] h f = ([], refl, refl, tt, tt)
read_lines-concat (suc k) (c ∷ cs) h f =
    let (line, rest, got, kept, whole, less, nul, some_byte, small, whole_line, stop) =
      one_line k 1022 c cs h f in
    let (lines, run, all, each, cut) = read_lines-concat k rest nul less in
    (
      line ∷ lines,
      next_line k (c ∷ cs) (read_some c cs got) kept run,
      ap (λ l. line ++ l) all ∙ whole,
      ((some_byte, small, whole_line), each),
      AllCut-cons line rest lines stop all each cut,
    )
