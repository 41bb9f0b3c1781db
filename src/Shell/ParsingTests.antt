-- ===== src/Shell/ParsingTests.antt =====
-- Runs of `create_process` of hw1/shell.c, and its theorem at a concrete line.
use os_assignments.Base.{◌+◌, ◌≡◌, refl, false, none, some, [], ◌∷◌, Bytes, codes, str_eq}
use os_assignments.Shell.Tokens.{get_toks, strtok_all, tokens_from, emit, trimwhitespace}
use os_assignments.Shell.Command.{create_process}

abbrev name_o : Bytes
name_o = codes " o "

-- The digit ends the name, and is an argument then.
two_in_name :
    create_process (λ f. false) (λ n. n + 24) [] (codes "ls >o2\n")
    ≡ some (record {
      background = false;
      err_file = none;
      out_file = some (codes "o");
      in_file = none;
      argv = codes "ls" ∷ codes "2" ∷ [];
    })
unfolding create_process get_toks strtok_all tokens_from emit str_eq trimwhitespace
two_in_name = refl
