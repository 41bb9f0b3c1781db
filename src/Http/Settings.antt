-- ===== src/Http/Settings.antt =====
-- The options of hw2/httpserver.c as a list of settings.
use os_assignments.Base.{
  ℕ, ◌+◌, ◌≡◌, refl, sym, inl, inr, Bool, true, false, ◌&&◌, Option, none, some, List, [], ◌∷◌, leb,
  if◌then◌else◌, Bytes, codes, str_eq, ℤ, pos, Bool-cases, Option-cases, arith, ap,
}
use os_assignments.Http.Options.{
  Handler, handle_files, handle_proxy, Config, serve, invalid_free, split_colon, atoi, set_files,
  set_proxy, parse_options, defaults, start,
}

-- An option with its argument.
pub data Setting : Type 0 where
  files proxy port : Bytes → Setting

-- The arguments of the program that stand for these settings.
abbrev pub as_arguments : List Setting → List Bytes
as_arguments [] = []
as_arguments (files dir ∷ xs) = codes "--files" ∷ dir ∷ as_arguments xs
as_arguments (proxy target ∷ xs) = codes "--proxy" ∷ target ∷ as_arguments xs
as_arguments (port number ∷ xs) = codes "--port" ∷ number ∷ as_arguments xs

-- How many settings name a directory.
abbrev pub files_in : List Setting → ℕ
files_in [] = 0
files_in (files dir ∷ xs) = 1 + files_in xs
files_in (proxy target ∷ xs) = files_in xs
files_in (port number ∷ xs) = files_in xs

-- What the last setting says that says something of it, or else `a`.
abbrev pub latest : {A : Type 0} → (Setting → Option A) → A → List Setting → A
latest pick a [] = a
latest pick a (x ∷ xs) = latest pick (elim (pick x) [ none ↦ a | some b ↦ b ]) xs

abbrev pub port_of : Setting → Option ℤ
port_of (files dir) = none
port_of (proxy target) = none
port_of (port number) = some (atoi number)

abbrev pub directory_of : Setting → Option Bytes
directory_of (files dir) = some dir
directory_of (proxy target) = none
directory_of (port number) = none

-- The part in front of the first colon, and the number behind it; without a colon the whole text,
-- and 80.
abbrev host_in : Bytes → Option (Bytes × Bytes) → Bytes
host_in target none = target
host_in target (some (host, number)) = host

abbrev number_in : Option (Bytes × Bytes) → ℤ
number_in none = pos 80
number_in (some (host, number)) = atoi number

abbrev pub host_of : Setting → Option Bytes
host_of (files dir) = none
host_of (proxy target) = some (host_in target (split_colon target))
host_of (port number) = none

abbrev pub proxy_port_of : Setting → Option ℤ
proxy_port_of (files dir) = none
proxy_port_of (proxy target) = some (number_in (split_colon target))
proxy_port_of (port number) = none

abbrev pub handler_of : Setting → Option Handler
handler_of (files dir) = some handle_files
handler_of (proxy target) = some handle_proxy
handler_of (port number) = none

-- The settings on top of a configuration.
abbrev pub settled : Config → List Setting → Config
settled c xs = record {
  server_port = latest port_of c.server_port xs;
  server_files_directory = latest directory_of c.server_files_directory xs;
  allocated = c.allocated && leb (files_in xs) 0;
  server_proxy_hostname = latest host_of c.server_proxy_hostname xs;
  server_proxy_port = latest proxy_port_of c.server_proxy_port xs;
  request_handler = latest handler_of c.request_handler xs;
}

set_proxy_lem :
    (c : Config) (target : Bytes)
    → set_proxy c target ≡ record c {
      server_proxy_hostname = host_in target (split_colon target);
      server_proxy_port = number_in (split_colon target);
      request_handler = handle_proxy;
    }
unfolding set_proxy
set_proxy_lem c target = elim (Option-cases (split_colon target)) [
  | inl whole ↦ rw (set_proxy, whole) refl
  | inr (_, cut) ↦ rw (set_proxy, cut) refl
]

and_true : (b : Bool) → (b && true) ≡ b
and_true true = refl
and_true false = refl

settled_nil : (c : Config) → settled c [] ≡ c
settled_nil c = ap (λ (b : Bool). record c { allocated = b }) (and_true c.allocated)

none_fits : (b : Bool) → leb 0 (if b then 1 else 0) ≡ true
none_fits true = refl
none_fits false = refl

parse_options-settled :
    (c : Config) (xs : List Setting)
    → parse_options c (as_arguments xs) ≡ (
        if leb (files_in xs) (if c.allocated then 1 else 0)
        then serve (settled c xs)
        else invalid_free)
unfolding parse_options set_files str_eq
parse_options-settled c [] = rw (none_fits c.allocated) (ap serve (sym (settled_nil c)))
parse_options-settled c (files dir ∷ xs) =
    let n = files_in xs in
    let more : leb (1 + n) 0 ≡ false = ground arith in
    let one : leb (1 + n) 1 ≡ leb n 0 = ground arith in
    elim (Bool-cases c.allocated) [
      | inl allocated ↦ rw (allocated, parse_options-settled (set_files c dir) xs, one, more) refl
      | inr given ↦ rw (given, more) refl
    ]
parse_options-settled c (proxy target ∷ xs) = rw (set_proxy_lem c target) (
    parse_options-settled
      (record c {
        server_proxy_hostname = host_in target (split_colon target);
        server_proxy_port = number_in (split_colon target);
        request_handler = handle_proxy;
      })
      xs)
parse_options-settled c (port number ∷ xs) =
    parse_options-settled (record c { server_port = atoi number }) xs

-- The program with settings as its arguments, in any order and number. Where one of them at most
-- names a directory, it serves by the last setting of the port, of the directory, of the proxy with
-- its port, and by the kind of the last directory or proxy; what no setting says is the default.
-- Where more of them name a directory, it frees what `malloc` did not return.
pub start-settled :
    (cwd : Bytes) (xs : List Setting)
    → start cwd (as_arguments xs)
      ≡ (if leb (files_in xs) 1 then serve (settled (defaults cwd) xs) else invalid_free)
unfolding start
start-settled cwd xs = parse_options-settled (defaults cwd) xs
