-- ===== src/Http/Files.antt =====
-- hw2/httpserver.c: `handle_files_request` and what it sends.
use os_assignments.Base.{
  ℕ, ◌+◌, Bool, true, false, Option, none, some, List, [], ◌∷◌, ◌++◌, length, ◌==◌, leb,
  if◌then◌else◌, Bytes, codes, str_eq,
}
use os_assignments.Http.Request.{Parsed, request, null, fault, http_request_parse}
use os_assignments.Http.Response.{
  http_start_response, http_send_header, http_end_headers, http_send_data, http_send_string,
  http_get_mime_type,
}

-- What `st_mode` says.
pub data Kind : Type 0 where
  directory regular other : Kind

-- The files that the server sees. Where `stat` fails, `kind` is what `st` happens to hold.
pub record Files : Type 0 where
  pub kind : Bytes → Kind
  pub entries : Bytes → Option (List Bytes)
  pub contents : Bytes → Option Bytes

-- The bytes sent, or an access out of bounds or through NULL.
pub data Sent : Type 0 where
  sent : Bytes → Sent
  crash : Sent

abbrev pub buffer_size : ℕ
buffer_size = 2048

-- `sprintf` into a buffer of that size, which has to hold the NUL too.
abbrev pub fits : Bytes → Bool
fits s = leb (length s + 1) buffer_size

unfoldable pub send_file_by_name : Files → Bytes → Bytes → Bytes
send_file_by_name fs fname out = elim (fs.contents fname) [
  | none ↦ out
  | some buffer ↦
      http_send_data
        (http_end_headers (
          http_send_header (http_start_response out 200) (codes "Content-type")
            (http_get_mime_type fname)))
        buffer
]

abbrev pub link_line : Bytes → Bytes
link_line name =
    codes "<br> <a href=\"http://192.168.162.162:8000/"
    ++ (name ++ (codes "\"> " ++ (name ++ codes " </a>")))

-- The loop over `readdir`.
unfoldable pub send_links : List Bytes → Bytes → Sent
send_links [] out = sent out
send_links (name ∷ names) out =
    let rest = send_links names (http_send_string out (link_line name)) in
    if fits (link_line name) then rest else crash

unfoldable pub html_headers : Bytes → Bytes
html_headers out =
    http_end_headers
      (http_send_header (http_start_response out 200) (codes "Content-type") (codes "text/html"))

-- A directory that cannot be opened is read through NULL.
unfoldable pub list_files_in_dir : Files → Bytes → Bytes → Sent
list_files_in_dir fs dir_name out =
    let opening =
      http_send_string
        (http_send_string (http_send_string (html_headers out) (codes "<!DOCTYPE html>\n"))
          (codes "<html>\n"))
        (codes "<body>\n") in
    elim (fs.entries dir_name) [
      | none ↦ crash
      | some names ↦ elim (send_links names opening) [
        | crash ↦ crash
        | sent body ↦
            sent (http_send_string (http_send_string body (codes "</body>\n")) (codes "</html>\n"))
      ]
    ]

unfoldable pub send_404 : Bytes → Bytes
send_404 out =
    http_send_string (html_headers out)
      (codes "<center><h1>http Error 404.</h1><hr><p>File not found.</p></center>")

abbrev pub index_html : Bytes
index_html = codes "index.html"

abbrev pub index_path : Bytes → Bytes
index_path working_path = working_path ++ (codes "/" ++ index_html)

-- The loop over the directory: each entry "index.html" is sent; `found` says if there was one.
unfoldable pub send_index : Files → Bytes → List Bytes → Bool → Bytes → Option (Bool × Bytes)
send_index fs working_path [] found out = some (found, out)
send_index fs working_path (name ∷ names) found out =
    let more =
      send_index fs working_path names true (send_file_by_name fs (index_path working_path) out) in
    let skip = send_index fs working_path names found out in
    if str_eq name index_html then (if fits (index_path working_path) then more else none) else skip

unfoldable pub serve_directory : Files → Bytes → Sent
serve_directory fs working_path = elim (fs.entries working_path) [
  | none ↦ crash
  | some names ↦ elim (send_index fs working_path names false []) [
    | none ↦ crash
    | some (found, out) ↦ if found then sent out else list_files_in_dir fs working_path out
  ]
]

unfoldable pub serve_kind : Files → Bytes → Kind → Sent
serve_kind fs working_path directory = serve_directory fs working_path
serve_kind fs working_path regular = sent (send_file_by_name fs working_path [])
serve_kind fs working_path other = sent (send_404 [])

-- The path of a request that was parsed: `request->path[0] == '/'`.
unfoldable pub serve_path : Files → Bytes → Bytes → Sent
serve_path fs server_files_directory [] = sent []
serve_path fs server_files_directory (c ∷ path) =
    if c == b'/'
    then (if fits (server_files_directory ++ (c ∷ path))
        then serve_kind fs (server_files_directory ++ (c ∷ path))
            (fs.kind (server_files_directory ++ (c ∷ path)))
        else crash)
    else sent []

unfoldable pub answer : Files → Bytes → Parsed → Sent
answer fs server_files_directory (request r) = serve_path fs server_files_directory r.path
answer fs server_files_directory null = crash
answer fs server_files_directory fault = crash

-- The bytes that one connection is sent.
unfoldable pub handle_files_request : Files → Bytes → Option Bytes → Sent
handle_files_request fs server_files_directory input =
    answer fs server_files_directory (http_request_parse input)
