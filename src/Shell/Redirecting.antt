-- ===== src/Shell/Redirecting.antt =====
-- The redirections of a line in `create_process` of hw1/shell.c, sign by sign.
use os_assignments.Base.{
  ℕ, zero, suc, ◌+◌, ◌≡◌, refl, sym, Bool, true, false, ◌||◌, ◌&&◌, Option, none, some, [], ◌∷◌,
  ◌++◌, ◌==◌, Bytes, codes, length, All, All-append, ap, append-nil, append_assoc, Bool-cases, inl,
  inr, arith,
}
use os_assignments.Shell.Tokens.{trimwhitespace}
use os_assignments.Shell.Command.{take_name, cut_name, redirect, redirect_err, blanks}
use os_assignments.Shell.Trim.{trim_end}

abbrev pub newline : Bytes
newline = b'\n' ∷ []

-- No byte of the text is `c`.
abbrev pub Without : ℕ → Bytes → Type 0
Without c = All (λ x. (x == c) ≡ false)

-- A redirection as it is typed: the sign and what stands behind it, or nothing.
abbrev pub part : Bytes → Option Bytes → Bytes
part sign none = []
part sign (some name) = sign ++ name

-- The file that it opens.
abbrev pub file_of : Option Bytes → Option Bytes
file_of none = none
file_of (some name) = some (trimwhitespace name)

-- Nothing, or a text without `c`.
abbrev pub Lacks : ℕ → Option Bytes → Type 0
Lacks c none = Unit
Lacks c (some name) = Without c name

-- Nothing, or a text that no sign, no digit 2, no `&` and no newline is in.
pub record IsName (name : Option Bytes) : Type 0 where
  pub no_in : Lacks b'<' name
  pub no_out : Lacks b'>' name
  pub no_two : Lacks b'2' name
  pub no_mark : Lacks b'&' name
  pub no_line : Lacks b'\n' name

pub Without-part :
    (c : ℕ) (front sign : Bytes) (name : Option Bytes)
    → Without c front
    → Without c sign
    → Lacks c name
    → Without c (front ++ part sign name)
Without-part c front sign none f s n = All-append (λ x. (x == c) ≡ false) front [] f tt
Without-part c front sign (some name) f s n =
    All-append (λ x. (x == c) ≡ false) front (sign ++ name) f
      (All-append (λ x. (x == c) ≡ false) sign name s n)

pub All-blanks {κ} : (P : ℕ → Type κ) (k : ℕ) → P b' ' → All P (blanks k)
All-blanks P zero h = tt
All-blanks P (suc k) h = (h, All-blanks P k h)

take_name_whole :
    (stops : ℕ → Bool) (s : Bytes)
    → All (λ c. stops c ≡ false) s
    → Without b'\n' s
    → take_name stops (s ++ newline) ≡ (s, newline)
unfolding take_name
take_name_whole stops [] h k = elim (Bool-cases (stops b'\n')) [
  | inl stop ↦ rw stop refl
  | inr go ↦ rw go refl
]
take_name_whole stops (c ∷ cs) h k = rw (h.0, k.0, take_name_whole stops cs h.1 k.1)

-- A name with spaces behind it, up to the end of the line.
cut_name_end :
    (stops : ℕ → Bool) (width : ℕ) (name : Bytes) (k : ℕ)
    → All (λ c. stops c ≡ false) name
    → stops b' ' ≡ false
    → Without b'\n' name
    → (j : ℕ) × (cut_name stops width (name ++ (blanks k ++ newline))
        ≡ (trimwhitespace name, blanks j ++ newline))
unfolding cut_name
cut_name_end stops width name k h sp nl =
    let all = All-append (λ c. stops c ≡ false) name (blanks k) h (All-blanks _ k sp) in
    let no_line = All-append (λ c. (c == b'\n') ≡ false) name (blanks k) nl (All-blanks _ k refl) in
    let taken = take_name_whole stops (name ++ blanks k) all no_line in
    (
      width + length (name ++ blanks k),
      rw (
        sym (append_assoc name (blanks k) newline),
        taken,
        trim_end name (blanks k) (All-blanks _ k refl),
      ),
    )

-- Nothing, or a text that the loop over it runs through.
abbrev pub Stopless : (ℕ → Bool) → Option Bytes → Type 0
Stopless stops none = Unit
Stopless stops (some name) = All (λ c. stops c ≡ false) name × Without b'\n' name

pub Stopless-Lacks :
    (a b : ℕ) (name : Option Bytes)
    → Lacks a name
    → Lacks b name
    → Lacks b'\n' name
    → Stopless (λ c. c == a || c == b) name
Stopless-Lacks a b none p q l = tt
Stopless-Lacks a b (some []) p q l = (tt, tt)
Stopless-Lacks a b (some (c ∷ cs)) p q l =
    let (rest, lines) = Stopless-Lacks a b (some cs) p.1 q.1 l.1 in
    ((rw (p.0, q.0) refl, rest), (l.0, lines))

module _ (sign : ℕ) (stops : ℕ → Bool) where
  redirect_absent : (xs : Bytes) → Without sign xs → redirect sign stops xs ≡ (none, xs)
  unfolding redirect
  redirect_absent [] h = refl
  redirect_absent (c ∷ cs) h = rw (h.0, redirect_absent cs h.1) refl

  redirect_skip :
      (xs ys : Bytes) (file : Option Bytes) (rest : Bytes)
      → Without sign xs
      → redirect sign stops ys ≡ (file, rest)
      → redirect sign stops (xs ++ ys) ≡ (file, xs ++ rest)
  unfolding redirect
  redirect_skip [] ys file rest h e = e
  redirect_skip (c ∷ cs) ys file rest h e = rw (h.0, redirect_skip cs ys file rest h.1 e) refl

  redirect_sign :
      (name : Bytes) (k : ℕ)
      → All (λ c. stops c ≡ false) name
      → stops b' ' ≡ false
      → Without b'\n' name
      → (j : ℕ) × (redirect sign stops (sign ∷ (name ++ (blanks k ++ newline)))
          ≡ (some (trimwhitespace name), blanks j ++ newline))
  unfolding redirect
  redirect_sign name k h sp nl =
      let (j, cut) = cut_name_end stops 1 name k h sp nl in
      let same : (sign == sign) ≡ true = ground arith in
      (j, rw same (ap (λ (c : Bytes × Bytes). (some c.0, c.1)) cut))

  -- A redirection with this sign, or none, behind a text without the sign and in front of spaces.
  pub redirect-part :
      (front : Bytes) (name : Option Bytes) (k : ℕ)
      → Without sign front
      → Stopless stops name
      → stops b' ' ≡ false
      → (b' ' == sign) ≡ false
      → (b'\n' == sign) ≡ false
      → (j : ℕ) × (redirect sign stops ((front ++ part (sign ∷ []) name) ++ (blanks k ++ newline))
          ≡ (file_of name, front ++ (blanks j ++ newline)))
  redirect-part front none k w h sp bl nl = (
    k,
    rw (append-nil front) (
        redirect_skip front (blanks k ++ newline) none (blanks k ++ newline) w (
          redirect_absent (blanks k ++ newline) (
            All-append (λ c. (c == sign) ≡ false) (blanks k) newline (All-blanks _ k bl)
              (nl, tt)))),
  )
  redirect-part front (some name) k w h sp bl nl =
      let (j, found) = redirect_sign name k h.0 sp h.1 in
      (
        j,
        rw (append_assoc front (sign ∷ name) (blanks k ++ newline)) (
            redirect_skip front (sign ∷ (name ++ (blanks k ++ newline)))
              (some (trimwhitespace name)) (blanks j ++ newline) w found),
      )

-- No sign "2>" starts in the text, and its last byte is not the digit.
pub Clear : Bytes → Type 0
Clear [] = Unit
Clear (c ∷ []) = (c == b'2') ≡ false
Clear (c ∷ d ∷ cs) = (((c == b'2') && (d == b'>')) ≡ false) × Clear (d ∷ cs)

pub Clear-append : (xs ys : Bytes) → Clear xs → Clear ys → Clear (xs ++ ys)
unfolding Clear
Clear-append [] ys h k = k
Clear-append (c ∷ []) [] h k = h
Clear-append (c ∷ []) (d ∷ ds) h k = (rw h refl, k)
Clear-append (c ∷ d ∷ cs) ys h k = (h.0, Clear-append (d ∷ cs) ys h.1 k)

pub Clear-Without : (xs : Bytes) → Without b'2' xs → Clear xs
unfolding Clear
Clear-Without [] h = tt
Clear-Without (c ∷ []) h = h.0
Clear-Without (c ∷ d ∷ cs) h = (rw h.0 refl, Clear-Without (d ∷ cs) h.1)

-- A command without `>`, and the space behind it.
pub Clear-command : (xs : Bytes) → Without b'>' xs → Clear (xs ++ (b' ' ∷ []))
unfolding Clear
Clear-command [] h = refl
Clear-command (c ∷ []) h = (ground arith, refl)
Clear-command (c ∷ d ∷ cs) h = (ground (arith, h.1.0), Clear-command (d ∷ cs) h.1)

module _ (stops : ℕ → Bool) where
  redirect_err_absent : (xs : Bytes) → Clear xs → redirect_err stops xs ≡ (none, xs)
  unfolding redirect_err Clear
  redirect_err_absent [] h = refl
  redirect_err_absent (c ∷ []) h = refl
  redirect_err_absent (c ∷ d ∷ cs) h = rw (h.0, redirect_err_absent (d ∷ cs) h.1) refl

  redirect_err_skip :
      (xs ys : Bytes) (file : Option Bytes) (rest : Bytes)
      → Clear xs
      → redirect_err stops ys ≡ (file, rest)
      → redirect_err stops (xs ++ ys) ≡ (file, xs ++ rest)
  unfolding redirect_err Clear
  redirect_err_skip [] ys file rest h e = e
  redirect_err_skip (c ∷ []) [] file rest h e = ap (λ (r : Option Bytes × Bytes). (r.0, c ∷ r.1)) e
  redirect_err_skip (c ∷ []) (d ∷ ds) file rest h e = rw (h, e) refl
  redirect_err_skip (c ∷ d ∷ cs) ys file rest h e =
      rw (h.0, redirect_err_skip (d ∷ cs) ys file rest h.1 e) refl

  redirect_err_sign :
      (name : Bytes) (k : ℕ)
      → All (λ c. stops c ≡ false) name
      → stops b' ' ≡ false
      → Without b'\n' name
      → (j : ℕ) × (redirect_err stops (b'2' ∷ b'>' ∷ (name ++ (blanks k ++ newline)))
          ≡ (some (trimwhitespace name), blanks j ++ newline))
  unfolding redirect_err
  redirect_err_sign name k h sp nl =
      let (j, cut) = cut_name_end stops 2 name k h sp nl in
      (j, ap (λ (c : Bytes × Bytes). (some c.0, c.1)) cut)

  -- The same for the sign "2>".
  pub redirect_err-part :
      (front : Bytes) (name : Option Bytes) (k : ℕ)
      → Clear front
      → Stopless stops name
      → stops b' ' ≡ false
      → (j : ℕ) × (redirect_err stops ((front ++ part (codes "2>") name) ++ (blanks k ++ newline))
          ≡ (file_of name, front ++ (blanks j ++ newline)))
  redirect_err-part front none k w h sp = (
    k,
    rw (append-nil front) (
        redirect_err_skip front (blanks k ++ newline) none (blanks k ++ newline) w (
          redirect_err_absent (blanks k ++ newline) (
            Clear-Without (blanks k ++ newline) (
              All-append (λ c. (c == b'2') ≡ false) (blanks k) newline (All-blanks _ k refl)
                (refl, tt))))),
  )
  redirect_err-part front (some name) k w h sp =
      let (j, found) = redirect_err_sign name k h.0 sp h.1 in
      (
        j,
        rw (append_assoc front (codes "2>" ++ name) (blanks k ++ newline)) (
            redirect_err_skip front (b'2' ∷ b'>' ∷ (name ++ (blanks k ++ newline)))
              (some (trimwhitespace name)) (blanks j ++ newline) w found),
      )
