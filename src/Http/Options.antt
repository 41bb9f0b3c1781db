-- ===== src/Http/Options.antt =====
-- hw2/httpserver.c: the options that `main` reads.
use os_assignments.Base.{
  ℕ, zero, suc, ◌+◌, ◌-◌, ◌*◌, Bool, true, false, ◌&&◌, ◌||◌, Option, none, some, List, [], ◌∷◌,
  ◌==◌, leb, if◌then◌else◌, Bytes, codes, str_eq, ℤ, pos, negsuc,
}

pub data Handler : Type 0 where
  handle_files handle_proxy : Handler

-- The global variables. `allocated` says whether `server_files_directory` came from `malloc`.
pub record Config : Type 0 where
  pub server_port : ℤ
  pub server_files_directory : Bytes
  pub allocated : Bool
  pub server_proxy_hostname : Bytes
  pub server_proxy_port : ℤ
  pub request_handler : Handler

-- What the loop over the arguments comes to: a run, the usage text and `exit(EXIT_SUCCESS)`, or a
-- `free` of a pointer that `malloc` did not return.
pub data Started : Type 0 where
  serve : Config → Started
  exit_with_usage : Started
  invalid_free : Started

-- `strchr(s, ':')`: what stands before the first colon and behind it.
unfoldable pub split_colon : Bytes → Option (Bytes × Bytes)
split_colon [] = none
split_colon (c ∷ cs) =
    if c == b':'
    then some ([], cs)
    else elim (split_colon cs) [ none ↦ none | some (host, port) ↦ some (c ∷ host, port) ]

unfoldable pub digits : ℕ → Bytes → ℕ
digits acc [] = acc
digits acc (c ∷ cs) =
    let more = digits (10 * acc + (c - 48)) cs in if leb b'0' c && leb c b'9' then more else acc

abbrev negate : ℕ → ℤ
negate zero = pos 0
negate (suc n) = negsuc n

abbrev is_space : ℕ → Bool
is_space c = c == b' ' || (leb 9 c && leb c 13)

-- `atoi` of a number that fits an `int`.
unfoldable pub atoi : Bytes → ℤ
unfolding digits
atoi [] = pos 0
atoi (c ∷ cs) =
    let skip = atoi cs in
    if is_space c
    then skip
    else if c == b'-'
    then negate (digits 0 cs)
    else if c == b'+'
    then pos (digits 0 cs)
    else pos (digits 0 (c ∷ cs))

unfoldable pub set_files : Config → Bytes → Config
set_files c dir = record c {
  server_files_directory = dir;
  allocated = false;
  request_handler = handle_files;
}

unfoldable pub set_proxy : Config → Bytes → Config
unfolding split_colon atoi
set_proxy c target = elim (split_colon target) [
  | none ↦ record c {
    server_proxy_hostname = target;
    server_proxy_port = pos 80;
    request_handler = handle_proxy;
  }
  | some (host, port) ↦ record c {
    server_proxy_hostname = host;
    server_proxy_port = atoi port;
    request_handler = handle_proxy;
  }
]

-- The loop over `argv` from index 1 on. Only an option with its argument lets it go on.
unfoldable pub parse_options : Config → List Bytes → Started
unfolding set_files set_proxy atoi
parse_options c [] = serve c
parse_options c (option ∷ []) =
    if str_eq option (codes "--files")
    then (if c.allocated then exit_with_usage else invalid_free)
    else exit_with_usage
parse_options c (option ∷ argument ∷ rest) =
    let after_files = parse_options (set_files c argument) rest in
    let after_proxy = parse_options (set_proxy c argument) rest in
    let after_port = parse_options (record c { server_port = atoi argument }) rest in
    if str_eq option (codes "--files")
    then (if c.allocated then after_files else invalid_free)
    else if str_eq option (codes "--proxy")
    then after_proxy
    else if str_eq option (codes "--port")
    then after_port
    else exit_with_usage

-- The default settings; the directory is the working directory.
abbrev pub defaults : Bytes → Config
defaults cwd = record {
  server_port = pos 8000;
  server_files_directory = cwd;
  allocated = true;
  server_proxy_hostname = codes "inst.eecs.berkeley.edu";
  server_proxy_port = pos 80;
  request_handler = handle_files;
}

-- `main` up to `serve_forever`; the arguments are those behind the program's name.
unfoldable pub start : Bytes → List Bytes → Started
unfolding parse_options
start cwd args = parse_options (defaults cwd) args
