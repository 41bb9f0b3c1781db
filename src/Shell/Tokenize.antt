-- ===== src/Shell/Tokenize.antt =====
-- `getToks` of hw1/parse.c against words and their separators.
use os_assignments.Base.{
  ℕ, zero, suc, ◌≤◌, ◌≡◌, ◌≢◌, refl, inl, inr, true, false, List, [], ◌∷◌, ◌++◌, arith, Bytes, All,
  Bool, Bool-cases, ap, ◌∙◌, length, take, take_all, length-take, append_assoc,
}
use os_assignments.Shell.Tokens.{
  emit, tokens_from, strtok_all, get_toks, is_separator, maxtoks, print_toks, fprint_tok,
}

-- A word: at least one byte, and no separator.
pub record IsWord (sep : ℕ → Bool) (t : Bytes) : Type 0 where
  pub some_byte : t ≢ []
  pub plain : All (λ c. sep c ≡ false) t

emit-All :
    (sep : ℕ → Bool) (t : Bytes) (toks : List Bytes)
    → All (λ c. sep c ≡ false) t
    → All (IsWord sep) toks
    → All (IsWord sep) (emit t toks)
unfolding emit
emit-All sep [] toks p h = h
emit-All sep (c ∷ cs) toks p h = (record { some_byte = λ e. cc; plain = p }, h)

tokens_from-All :
    (sep : ℕ → Bool) (line : Bytes)
    → All (λ c. sep c ≡ false) (tokens_from sep line).0 × All (IsWord sep) (tokens_from sep line).1
unfolding tokens_from
tokens_from-All sep [] = (tt, tt)
tokens_from-All sep (c ∷ cs) =
    let ih = tokens_from-All sep cs in
    let out = tokens_from sep cs in
    elim (Bool-cases (sep c)) [
      | inl cut ↦ rw cut (tt, emit-All sep out.0 out.1 ih.0 ih.1)
      | inr more ↦ rw more ((more, ih.0), ih.1)
    ]

All-take {ℓ} : {A : Type 0} (P : A → Type ℓ) (n : ℕ) (xs : List A) → All P xs → All P (take n xs)
All-take P zero xs h = tt
All-take P (suc n) [] h = tt
All-take P (suc n) (x ∷ xs) h = (h.0, All-take P n xs h.1)

-- Whatever the line, each token has a byte and no separator, and there are MAXTOKS at most.
pub get_toks-All :
    (line : Bytes) → All (IsWord is_separator) (get_toks line) × (length (get_toks line) ≤ maxtoks)
unfolding get_toks strtok_all
get_toks-All line =
    let out = tokens_from is_separator line in
    let h = tokens_from-All is_separator line in
    (
      All-take (IsWord is_separator) maxtoks (emit out.0 out.1)
          (emit-All is_separator out.0 out.1 h.0 h.1),
      omega (arith, length-take maxtoks (emit out.0 out.1)),
    )

-- A word of a line, with the separators behind it: one at least.
pub record Piece : Type 0 where
  pub word : Bytes
  pub cut : ℕ
  pub gap : Bytes

unfoldable pub spread : List Piece → Bytes
spread [] = []
spread (p ∷ ps) = p.word ++ (p.cut ∷ (p.gap ++ spread ps))

unfoldable pub words : List Piece → List Bytes
words [] = []
words (p ∷ ps) = p.word ∷ words ps

pub record IsPiece (sep : ℕ → Bool) (p : Piece) : Type 0 where
  pub is_word : IsWord sep p.word
  pub cuts : sep p.cut ≡ true
  pub gaps : All (λ c. sep c ≡ true) p.gap

module _ (sep : ℕ → Bool) where
  strtok_all_gap :
      (gap line : Bytes)
      → All (λ c. sep c ≡ true) gap
      → strtok_all sep (gap ++ line) ≡ strtok_all sep line
  unfolding strtok_all tokens_from emit
  strtok_all_gap [] line h = refl
  strtok_all_gap (c ∷ cs) line h = rw h.0 (strtok_all_gap cs line h.1)

  tokens_from_word :
      (t : Bytes) (c : ℕ) (line : Bytes)
      → All (λ c. sep c ≡ false) t
      → sep c ≡ true
      → tokens_from sep (t ++ (c ∷ line)) ≡ (t, strtok_all sep line)
  unfolding strtok_all tokens_from
  tokens_from_word [] c line h k = rw k
  tokens_from_word (x ∷ xs) c line h k = rw (h.0, tokens_from_word xs c line h.1 k)

  emit_word : (t : Bytes) (toks : List Bytes) → t ≢ [] → emit t toks ≡ t ∷ toks
  unfolding emit
  emit_word [] toks h = absurd (h refl)
  emit_word (c ∷ cs) toks h = refl

  strtok_all_word :
      (t : Bytes) (c : ℕ) (line : Bytes)
      → IsWord sep t
      → sep c ≡ true
      → strtok_all sep (t ++ (c ∷ line)) ≡ t ∷ strtok_all sep line
  unfolding strtok_all
  strtok_all_word t c line w k =
      rw (tokens_from_word t c line w.plain k) (emit_word t (strtok_all sep line) w.some_byte)

  strtok_all-spread :
      (ps : List Piece) → All (IsPiece sep) ps → strtok_all sep (spread ps) ≡ words ps
  unfolding spread words strtok_all tokens_from emit
  strtok_all-spread [] h = refl
  strtok_all-spread (p ∷ ps) h =
      strtok_all_word p.word p.cut (p.gap ++ spread ps) h.0.is_word h.0.cuts
      ∙ ap (◌∷◌ p.word) (strtok_all_gap p.gap (spread ps) h.0.gaps ∙ strtok_all-spread ps h.1)

-- A line of at most MAXTOKS words, each with separators behind it and perhaps some in front of the
-- first, is taken apart into exactly those words, in order.
pub get_toks-spread :
    (lead : Bytes) (ps : List Piece)
    → All (λ c. is_separator c ≡ true) lead
    → All (IsPiece is_separator) ps
    → length (words ps) ≤ maxtoks
    → get_toks (lead ++ spread ps) ≡ words ps
unfolding get_toks
get_toks-spread lead ps l h few =
    rw (strtok_all_gap is_separator lead (spread ps) l, strtok_all-spread is_separator ps h)
      (take_all maxtoks (words ps) few)

strtok_all-print_toks :
    (ts : List Bytes)
    → All (IsWord is_separator) ts
    → strtok_all is_separator (print_toks ts ++ (b'\n' ∷ [])) ≡ ts
unfolding print_toks
strtok_all-print_toks [] h = unfold strtok_all tokens_from emit in refl
strtok_all-print_toks (t ∷ ts) h = rw (append_assoc t (b' ' ∷ print_toks ts) (b'\n' ∷ [])) (
    strtok_all_word is_separator t b' ' (print_toks ts ++ (b'\n' ∷ [])) h.0 refl
    ∙ ap (◌∷◌ t) (strtok_all-print_toks ts h.1))

-- At most MAXTOKS words that are printed are read back as they were.
pub get_toks-fprint_tok :
    (toks : List Bytes)
    → All (IsWord is_separator) toks
    → length toks ≤ maxtoks
    → get_toks (fprint_tok toks) ≡ toks
unfolding get_toks fprint_tok
get_toks-fprint_tok toks h few =
    let whole = take_all maxtoks toks few in rw (whole, strtok_all-print_toks toks h, whole)

-- Whatever the line, printing its tokens gives a line with the same tokens.
pub get_toks-again : (line : Bytes) → get_toks (fprint_tok (get_toks line)) ≡ get_toks line
get_toks-again line =
    let (plain, few) = get_toks-All line in get_toks-fprint_tok (get_toks line) plain few
