-- ===== src/Shell/Tests.antt =====
-- Runs of the model of hw1, and its theorems at concrete inputs.
use os_assignments.Base.{
  ◌+◌, ℕ, ◌≡◌, refl, true, false, none, some, [], ◌∷◌, ◌==◌, arith, Bytes, codes, str_eq, pos,
  if◌then◌else◌, All, List,
}
use os_assignments.Shell.Tokens.{
  get_toks, fprint_tok, get_pipes, is_direct_tok, strtok_all, tokens_from, emit,
}
use os_assignments.Shell.Command.{create_process, lookup}
use os_assignments.Shell.State.{Shell, done}
use os_assignments.Shell.Jobs.{first_node}
use os_assignments.Shell.Command.{Parsed}
use os_assignments.Shell.Commands.{Terminal}
use os_assignments.Shell.Loop.{shell_round, new_process}
use os_assignments.Shell.Adding.{last_of}
use os_assignments.Shell.Rounds.{AllStarted}
use os_assignments.Shell.Lines.{shell_round-background}
use os_assignments.Shell.Linked.{AllRunning}
use os_assignments.Shell.Jobs.{pid_eq}
use os_assignments.Shell.Tokenize
use os_assignments.Shell.Tokenize.{Piece, words, spread, get_toks-spread}
use os_assignments.Shell.Linked.{Linked}
use os_assignments.Shell.Input.{read_lines}
use os_assignments.Shell.Reading.{concat, IsLine, AllCut, read_lines-concat}

toks_of_line : get_toks (codes "ls  -l:x\n") ≡ codes "ls" ∷ codes "-l" ∷ codes "x" ∷ []
unfolding get_toks strtok_all tokens_from emit
toks_of_line = refl

pipes_of_line :
    get_pipes (codes "ls a|wc|cat") ≡ codes "ls" ∷ codes "a" ∷ codes "wc" ∷ codes "cat" ∷ []
unfolding get_pipes strtok_all tokens_from emit
pipes_of_line = refl

direct_of_line : is_direct_tok (codes "a" ∷ codes ">" ∷ codes "f" ∷ []) b'>' ≡ 1
unfolding is_direct_tok
direct_of_line = refl

-- The line `ls -l >o <i &`.
command_of_line :
    create_process (λ f. false) (λ n. n + 24) (codes "/usr/bin:/bin") (codes "ls -l >o <i &\n")
    ≡ some (record {
      background = true;
      err_file = none;
      out_file = some (codes "o");
      in_file = some (codes "i");
      argv = codes "ls" ∷ codes "-l" ∷ [];
    })
unfolding create_process get_toks strtok_all tokens_from emit str_eq
command_of_line = refl

-- A command that a directory of PATH has: the array with its path is gone.
found_in_path :
    create_process
      (λ f. str_eq f (codes "/bin/ls"))
      (λ n. n + 24)
      (codes "/usr/bin:/bin")
      (codes "ls\n")
    ≡ none
unfolding create_process get_toks strtok_all tokens_from emit str_eq
found_in_path = refl

-- A line that is a newline alone.
empty_line : create_process (λ f. true) (λ n. n + 24) [] (codes "\n") ≡ none
unfolding create_process
empty_line = refl

abbrev piece : Bytes → Piece
piece w = record { word = w; cut = b' '; gap = b'\n' ∷ [] }

get_toks-spread_example :
    get_toks (b' ' ∷ spread (piece (codes "ls") ∷ piece (codes "x") ∷ []))
    ≡ words (piece (codes "ls") ∷ piece (codes "x") ∷ [])
unfolding words
get_toks-spread_example =
    get_toks-spread (b' ' ∷ []) (piece (codes "ls") ∷ piece (codes "x") ∷ []) (refl, tt)
      (
        record {
          is_word = record { some_byte = λ e. cc; plain = (refl, (refl, tt)) };
          cuts = refl;
          gaps = (refl, tt);
        },
        (
          record {
            is_word = record { some_byte = λ e. cc; plain = (refl, tt) };
            cuts = refl;
            gaps = (refl, tt);
          },
          tt,
        ),
      )
      (omega arith)

-- A terminal where no file is found, and a fork that returns 7.
abbrev terminal : Terminal
terminal = record {
  exists = λ f. false;
  room = λ n. n + 24;
  path = codes "/bin";
  forked = pos 7;
  waits = [];
  chdir = λ d. pos 0;
  strtol = λ t. pos 0;
  isatty = true;
}

-- What `init_process_list` leaves.
abbrev fresh_shell : Shell
fresh_shell = record {
  cell = λ a. if a == 1000 then some first_node else none;
  first_process = 1000;
}

abbrev cd_line : Parsed
cd_line = record {
  background = false;
  err_file = none;
  out_file = none;
  in_file = none;
  argv = codes "cd" ∷ [];
}

abbrev sleep_line : Parsed
sleep_line = record {
  background = true;
  err_file = none;
  out_file = none;
  in_file = none;
  argv = codes "/x" ∷ codes "9" ∷ [];
}

sleep_line_parsed :
    create_process (λ f. false) (λ n. n + 24) (codes "/bin") (codes "/x 9 &\n") ≡ some sleep_line
unfolding create_process get_toks strtok_all tokens_from emit str_eq
sleep_line_parsed = refl

lookup_sleep : lookup (some (codes "/x")) ≡ none
unfolding lookup str_eq
lookup_sleep = refl

first_node-AllStarted : AllStarted fresh_shell.cell (1000 ∷ [])
unfolding pid_eq
first_node-AllStarted = (λ b at_b. ground arith, tt)

first_node-AllRunning : AllRunning fresh_shell.cell (1000 ∷ [])
first_node-AllRunning = (λ b at_b. ground arith, tt)

shell_round-background_example :
    (s' : Shell) × (shell_round 9 terminal 2000 (codes "/x 9 &\n") fresh_shell ≡ done tt s')
    × (s'.first_process ≡ 1000)
    × Linked s'.cell 1000 (1000 ∷ 2000 ∷ [])
    × AllStarted s'.cell (1000 ∷ 2000 ∷ [])
    × AllRunning s'.cell (1000 ∷ 2000 ∷ [])
    × (s'.cell 2000
        ≡ some (record (new_process sleep_line) {
          pid = terminal.forked;
          background = true;
          prev = last_of 1000 [];
        }))
shell_round-background_example =
    shell_round-background 9 1000 2000 [] terminal (codes "/x 9 &\n") (codes "/x") (codes "9" ∷ [])
      sleep_line fresh_shell sleep_line_parsed refl lookup_sleep refl refl refl refl
      (refl, λ e. absurd (omega arith), (first_node, refl, refl)) (tt, tt) first_node-AllStarted
      first_node-AllRunning (λ e. absurd (omega arith), tt) (λ e. absurd (omega arith))
      (omega arith)

read_lines-concat_example :
    (lines : List Bytes) × (read_lines 9 (codes "a\nb") ≡ some lines)
    × (concat lines ≡ codes "a\nb")
    × All IsLine lines
    × AllCut lines
read_lines-concat_example =
    read_lines-concat 9 (codes "a\nb")
      (
        (λ e. absurd (omega arith)),
        ((λ e. absurd (omega arith)), ((λ e. absurd (omega arith)), tt)),
      )
      (omega arith)

-- Two commands in the background, at addresses of their own.
abbrev two_jobs : List (Terminal × ℕ × Bytes)
two_jobs = (terminal, 2000, codes "/x 9 &\n") ∷ (terminal, 3000, codes "/x 9 &\n") ∷ []

get_toks-again_example :
    get_toks (fprint_tok (get_toks (codes "ls  -l:x\n"))) ≡ get_toks (codes "ls  -l:x\n")
get_toks-again_example = Tokenize.get_toks-again (codes "ls  -l:x\n")
