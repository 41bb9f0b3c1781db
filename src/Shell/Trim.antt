-- ===== src/Shell/Trim.antt =====
-- `trimwhitespace` of hw1/shell.c.
use os_assignments.Base.{
  ℕ, ◌≡◌, refl, inl, inr, true, false, [], ◌∷◌, ◌++◌, Bytes, All, Bool-cases, ap, ◌∙◌,
}
use os_assignments.Shell.Tokens.{is_space, trim_front, keep, trim_back, trimwhitespace}

abbrev pub IsBlank : Bytes → Type 0
IsBlank = All (λ c. is_space c ≡ true)

trim_front_blank : (s : Bytes) → IsBlank s → trim_front s ≡ []
unfolding trim_front
trim_front_blank [] h = refl
trim_front_blank (c ∷ cs) h = rw h.0 (trim_front_blank cs h.1)

trim_back_blank : (s : Bytes) → IsBlank s → trim_back s ≡ []
unfolding trim_back
trim_back_blank [] h = refl
trim_back_blank (c ∷ cs) h = rw (trim_back_blank cs h.1, keep, h.0)

trim_back-append : (s after : Bytes) → IsBlank after → trim_back (s ++ after) ≡ trim_back s
unfolding trim_back
trim_back-append [] after h = trim_back_blank after h
trim_back-append (c ∷ cs) after h = ap (keep c) (trim_back-append cs after h)

trim_front-append : (before s : Bytes) → IsBlank before → trim_front (before ++ s) ≡ trim_front s
unfolding trim_front
trim_front-append [] s h = refl
trim_front-append (c ∷ cs) s h = rw h.0 (trim_front-append cs s h.1)

pub trim_end : (s after : Bytes) → IsBlank after → trimwhitespace (s ++ after) ≡ trimwhitespace s
unfolding trimwhitespace
trim_end [] after h = ap trim_back (trim_front_blank after h)
trim_end (c ∷ cs) after h = elim (Bool-cases (is_space c)) [
  | inl space ↦ rw space (trim_end cs after h)
  | inr solid ↦ rw solid (trim_back-append (c ∷ cs) after h)
]

keep_twice : (c : ℕ) (s : Bytes) → trim_back s ≡ s → trim_back (keep c s) ≡ keep c s
unfolding trim_back
keep_twice c [] h = elim (Bool-cases (is_space c)) [
  | inl space ↦ rw (space, keep)
  | inr solid ↦ rw (solid, keep) (rw (solid, keep))
]
keep_twice c (d ∷ ds) h = rw h

trim_back_twice : (s : Bytes) → trim_back (trim_back s) ≡ trim_back s
unfolding trim_back
trim_back_twice [] = refl
trim_back_twice (c ∷ cs) = keep_twice c (trim_back cs) (trim_back_twice cs)

keep-front : (c : ℕ) (s : Bytes) → is_space c ≡ false → trim_front (keep c s) ≡ keep c s
unfolding trim_front keep
keep-front c [] h = rw h (rw h)
keep-front c (d ∷ ds) h = rw h

trim_twice : (s : Bytes) → trim_front (trimwhitespace s) ≡ trimwhitespace s
unfolding trimwhitespace
trim_twice [] = refl
trim_twice (c ∷ cs) = elim (Bool-cases (is_space c)) [
  | inl space ↦ rw space (trim_twice cs)
  | inr solid ↦ rw solid (keep-front c (trim_back cs) solid)
]

-- White space around a text does not change the result, and trimming twice is trimming once.
pub trim_around :
    (before s after : Bytes)
    → IsBlank before
    → IsBlank after
    → (trimwhitespace (before ++ (s ++ after)) ≡ trimwhitespace s)
      × (trimwhitespace (trimwhitespace s) ≡ trimwhitespace s)
unfolding trimwhitespace
trim_around before s after h k = (
  ap trim_back (trim_front-append before (s ++ after) h) ∙ trim_end s after k,
  ap trim_back (trim_twice s) ∙ trim_back_twice (trim_front s),
)
