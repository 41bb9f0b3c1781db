-- ===== src/Shell/Copying.antt =====
-- The arguments of a process in `create_process` of hw1/shell.c.
use os_assignments.Base.{
  ℕ, ◌<◌, ◌≡◌, refl, Bool, true, false, some, List, [], ◌∷◌, ◌++◌, leb, ltb, Bytes, codes, length,
  All, arith, take,
}
use os_assignments.Shell.Tokens.{maxtoks, get_toks}
use os_assignments.Shell.Command.{path_size, resolve_in, resolve_path, all_fit, arguments}

-- No directory has a file of the name, and the paths that are tried fit their array.
abbrev pub Absent : (Bytes → Bool) → List Bytes → Bytes → Type 0
Absent exists dirs name =
    All
      (λ dir.
        (exists (dir ++ (codes "/" ++ name)) ≡ false)
        × (length (dir ++ (codes "/" ++ name)) < path_size))
      dirs

-- Tokens that the code can copy: less than MAXTOKS, each with its NUL within the memory that
-- `malloc` gives for its bytes, and the first of them in no directory of PATH, which is short and
-- has less than MAXTOKS directories.
pub record IsCopied (exists : Bytes → Bool) (room : ℕ → ℕ) (path : Bytes) (toks : List Bytes)
    : Type 0 where
  pub few : length toks < maxtoks
  pub short_path : length path < path_size
  pub few_dirs : length (get_toks path) < maxtoks
  pub absent : All (Absent exists (get_toks path)) (take 1 toks)
  pub roomy : All (λ t. length t < room (length t)) toks

resolve_in-Absent :
    (exists : Bytes → Bool) (dirs : List Bytes) (name : Bytes)
    → Absent exists dirs name
    → resolve_in exists dirs name ≡ some name
unfolding resolve_in
resolve_in-Absent exists [] name h = refl
resolve_in-Absent exists (dir ∷ dirs) name h =
    let short : leb path_size (length (dir ++ (codes "/" ++ name))) ≡ false =
      ground (arith, h.0.1) in
    rw (short, h.0.0) (resolve_in-Absent exists dirs name h.1)

all_fit_lem :
    (room : ℕ → ℕ) (toks : List Bytes)
    → All (λ t. length t < room (length t)) toks
    → all_fit room toks ≡ true
unfolding all_fit
all_fit_lem room [] h = refl
all_fit_lem room (t ∷ ts) h =
    let fit : ltb (length t) (room (length t)) ≡ true = ground (arith, h.0) in
    rw (fit, all_fit_lem room ts h.1) refl

pub arguments-IsCopied :
    (exists : Bytes → Bool) (room : ℕ → ℕ) (path : Bytes) (toks : List Bytes)
    → IsCopied exists room path toks
    → arguments exists room path toks ≡ some toks
unfolding arguments resolve_path
arguments-IsCopied exists room path [] c = refl
arguments-IsCopied exists room path (t ∷ ts) c =
    let few : leb maxtoks (length (t ∷ ts)) ≡ false = ground (arith, c.few) in
    let short : leb path_size (length path) ≡ false = ground (arith, c.short_path) in
    let few_dirs : leb maxtoks (length (get_toks path)) ≡ false = ground (arith, c.few_dirs) in
    rw
      (
        few,
        short,
        few_dirs,
        resolve_in-Absent exists (get_toks path) t c.absent.0,
        all_fit_lem room (t ∷ ts) c.roomy,
      )
      refl
