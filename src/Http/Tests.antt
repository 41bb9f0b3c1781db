-- ===== src/Http/Tests.antt =====
-- Runs of the model of hw2, and its theorems at concrete inputs.
use os_assignments.Base.{
  ◌≡◌, ◌↔◌, refl, true, none, some, List, [], ◌∷◌, ◌++◌, arith, take, Bytes, codes, str_eq, pos,
}
use os_assignments.Http.Request.{
  HttpRequest, request, null, span, http_request_parse, libhttp_request_max_size,
}
use os_assignments.Http.RequestLine.{IsRequestLine, parse_iff}
use os_assignments.Http.Files.{
  Files, regular, directory, other, index_html, sent, crash, handle_files_request,
}
use os_assignments.Http.Replies.{
  ok_head, file_response, regular-response, not_found-response, no_request-crash,
}
use os_assignments.Http.Directories.{directory-listing, directory-index, listing}
use os_assignments.Http.Proxy.{client_ready, remote_ready, relay_loop, relay_start}
use os_assignments.Http.Options.{serve, defaults, start, handle_proxy}
use os_assignments.Http.Settings.{files, proxy, port, as_arguments, settled, start-settled}
use os_assignments.Http.Relaying.{client_bytes, remote_bytes, relay_loop_open}

abbrev get_a : Bytes
get_a = codes "GET /a HTTP/1.0\nHost: x\n"

abbrev request_a : HttpRequest
request_a = record { method = codes "GET"; path = codes "/a" }

parse_a : http_request_parse (some get_a) ≡ request request_a
unfolding http_request_parse span
parse_a = refl

parse_junk : http_request_parse (some (codes "get /a\n")) ≡ null
unfolding http_request_parse span
parse_junk = refl

parse_iff_example :
    (http_request_parse (some get_a) ≡ request request_a)
    ↔ IsRequestLine (take libhttp_request_max_size get_a) request_a
parse_iff_example = parse_iff get_a request_a

abbrev with_file : Files
with_file = record {
  kind = λ _. regular;
  entries = λ _. none;
  contents = λ _. some (codes "hello");
}

abbrev without_file : Files
without_file = record { kind = λ _. other; entries = λ _. none; contents = λ _. none }

regular_run :
    handle_files_request with_file (codes "www") (some get_a)
    ≡ sent (file_response (codes "www/a") (codes "hello"))
regular_run =
    regular-response with_file (codes "www") get_a (codes "a") parse_a refl (omega arith) refl refl

not_found_run :
    handle_files_request without_file (codes "www") (some get_a)
    ≡ sent (
        ok_head (codes "text/html")
        ++ codes "<center><h1>http Error 404.</h1><hr><p>File not found.</p></center>")
not_found_run =
    not_found-response without_file (codes "www") get_a (codes "a") parse_a refl (omega arith) refl

no_request_run : handle_files_request with_file (codes "www") (some (codes "get /a\n")) ≡ crash
no_request_run = no_request-crash with_file (codes "www") (codes "get /a\n") parse_junk

relay_loop_open_example :
    ((relay_loop relay_start
        (client_ready (1 ∷ 2 ∷ []) (pos 1) ∷ remote_ready [] (pos 0) ∷ [])).socketsopen
      ≡ true)
    × ((relay_loop relay_start
          (client_ready (1 ∷ 2 ∷ []) (pos 1) ∷ remote_ready [] (pos 0) ∷ [])).to_remote
        ≡ client_bytes (client_ready (1 ∷ 2 ∷ []) (pos 1) ∷ remote_ready [] (pos 0) ∷ []))
    × ((relay_loop relay_start
          (client_ready (1 ∷ 2 ∷ []) (pos 1) ∷ remote_ready [] (pos 0) ∷ [])).to_client
        ≡ remote_bytes (client_ready (1 ∷ 2 ∷ []) (pos 1) ∷ remote_ready [] (pos 0) ∷ []))
relay_loop_open_example =
    relay_loop_open (client_ready (1 ∷ 2 ∷ []) (pos 1) ∷ remote_ready [] (pos 0) ∷ [])
      (refl, (refl, tt))

-- The options of the usage text.
usage_proxy :
    start (codes "/") (codes "--proxy" ∷ codes "h:90" ∷ codes "--port" ∷ codes "8000" ∷ [])
    ≡ serve (record (defaults (codes "/")) {
      server_proxy_hostname = codes "h";
      server_proxy_port = pos 90;
      request_handler = handle_proxy;
    })
unfolding start str_eq
usage_proxy = refl

-- A directory with these entries, where each file can be read.
abbrev with_directory : List Bytes → Files
with_directory names = record {
  kind = λ _. directory;
  entries = λ _. some names;
  contents = λ _. some (codes "hello");
}

directory-listing_example :
    handle_files_request (with_directory (codes "x" ∷ codes "y" ∷ [])) (codes "www") (some get_a)
    ≡ sent (ok_head (codes "text/html") ++ listing (codes "x" ∷ codes "y" ∷ []))
unfolding str_eq
directory-listing_example =
    directory-listing (with_directory (codes "x" ∷ codes "y" ∷ [])) (codes "www") get_a (codes "a")
      parse_a refl (omega arith) refl refl (refl, (refl, tt)) (refl, (refl, tt))

index_run :
    handle_files_request (with_directory (codes "x" ∷ index_html ∷ [])) (codes "www") (some get_a)
    ≡ sent (file_response (codes "www/a/index.html") (codes "hello"))
unfolding str_eq
index_run =
    directory-index (with_directory (codes "x" ∷ index_html ∷ [])) (codes "www") get_a (codes "a")
      parse_a refl (omega arith) refl refl (codes "x" ∷ []) [] (codes "hello") refl (refl, tt) tt
      refl refl

start-settled_example :
    start
      (codes "/")
      (as_arguments (proxy (codes "h:90") ∷ files (codes "www") ∷ port (codes "80") ∷ []))
    ≡ serve (
        settled
          (defaults (codes "/"))
          (proxy (codes "h:90") ∷ files (codes "www") ∷ port (codes "80") ∷ []))
start-settled_example =
    start-settled (codes "/") (proxy (codes "h:90") ∷ files (codes "www") ∷ port (codes "80") ∷ [])
