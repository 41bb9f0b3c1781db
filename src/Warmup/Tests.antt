-- ===== src/Warmup/Tests.antt =====
-- Runs of the model of hw0, and its theorem at a concrete input.
use os_assignments.Base.{[], ◌∷◌, ◌^◌, ◌-◌, pos, negsuc, ◌≡◌, refl, some, ◌+◌, true, arith, codes}
use os_assignments.Shell.Tokens.{strtok_all, tokens_from, emit}
use os_assignments.Warmup.Printing.{recur, low_int, limits_main}
use os_assignments.Warmup.Counting.{wc, word_starts, wc-word_starts}

wc-word_starts_example : wc (some (codes " ab c")) ≡ some (word_starts true (codes " ab c") + 1)
unfolding strtok_all tokens_from emit
wc-word_starts_example = wc-word_starts (codes " ab c") (omega arith)

two_words : word_starts true (codes " ab c") ≡ 2
unfolding word_starts
two_words = refl

-- A limit of 2 ^ 64 - 1, which says that there is none, is printed as -1, and one of 4 GiB as 0.
no_limit : limits_main (2 ^ 64 - 1) (2 ^ 32) 1024 ≡ negsuc 0 ∷ pos 0 ∷ pos 1024 ∷ []
unfolding limits_main low_int
no_limit = refl

four_calls :
    (recur (λ d. 900 - d) 0 (pos 3)).0
    ≡ (pos 3, 900) ∷ (pos 2, 899) ∷ (pos 1, 898) ∷ (pos 0, 897) ∷ []
unfolding recur
four_calls = refl
