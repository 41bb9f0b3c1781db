-- ===== src/Http/Request.antt =====
-- hw2/libhttp.c: `http_request_parse`.
use os_assignments.Base.{
  ℕ, Bool, ◌&&◌, not, Option, none, some, [], ◌∷◌, ◌==◌, leb, if◌then◌else◌, take, Bytes,
}

abbrev pub libhttp_request_max_size : ℕ
libhttp_request_max_size = 8192

-- `struct http_request`
pub record HttpRequest : Type 0 where
  pub method : Bytes
  pub path : Bytes

-- What a parse comes to; `fault` is a store in front of the buffer.
pub data Parsed : Type 0 where
  request : HttpRequest → Parsed
  null : Parsed
  fault : Parsed

-- `while (test(*read_end)) read_end++`: what is passed over, and what is left. The end of the list
-- is the closing NUL, at which every test of the parser fails.
unfoldable pub span : (ℕ → Bool) → Bytes → Bytes × Bytes
span test [] = ([], [])
span test (c ∷ cs) =
    let (seen, left) = span test cs in if test c then (c ∷ seen, left) else ([], c ∷ cs)

abbrev pub is_method : ℕ → Bool
is_method c = leb b'A' c && leb c b'Z'

abbrev pub is_path : ℕ → Bool
is_path c = not (c == 0) && (not (c == b' ') && not (c == b'\n'))

abbrev pub is_version : ℕ → Bool
is_version c = not (c == 0) && not (c == b'\n')

-- The rest of the request line: "if (*read_end != '\n') break".
unfoldable pub parse_version : Bytes → Bytes → Bytes × Bytes → Parsed
parse_version method path (_, []) = null
parse_version method path (_, c ∷ _) =
    if c == b'\n' then request (record { method = method; path = path }) else null

unfoldable pub parse_path : Bytes → Bytes × Bytes → Parsed
unfolding parse_version
parse_path method ([], rest) = null
parse_path method (c ∷ path, rest) = parse_version method (c ∷ path) (span is_version rest)

unfoldable pub parse_space : Bytes → Bytes → Parsed
unfolding parse_path
parse_space method [] = null
parse_space method (c ∷ rest) = if c == b' ' then parse_path method (span is_path rest) else null

unfoldable pub parse_method : Bytes × Bytes → Parsed
unfolding parse_space
parse_method ([], rest) = null
parse_method (c ∷ method, rest) = parse_space (c ∷ method) rest

-- `none` is a `read` that fails: the NUL then goes to `read_buffer[-1]`.
unfoldable pub http_request_parse : Option Bytes → Parsed
unfolding parse_method
http_request_parse none = fault
http_request_parse (some input) =
    parse_method (span is_method (take libhttp_request_max_size input))
