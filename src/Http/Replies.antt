-- ===== src/Http/Replies.antt =====
-- What `handle_files_request` of hw2/httpserver.c sends, and the type that it gives a file.
use os_assignments.Base.{
  ℕ, ◌<◌, ◌≡◌, refl, true, false, none, some, [], ◌∷◌, ◌++◌, ◌==◌, ==-refl, arith, length, Bytes,
  codes, All, ap, ◌∙◌, append_assoc,
}
use os_assignments.Http.Request.{HttpRequest, request, null, http_request_parse}
use os_assignments.Http.Response.{
  http_start_response, http_send_header, http_end_headers, http_send_data, http_send_string,
  http_get_mime_type, strrchr, decimal, http_get_response_message,
}
use os_assignments.Http.Files.{
  regular, other, Files, sent, crash, send_file_by_name, serve_kind, serve_path,
  handle_files_request, send_404, fits, answer, buffer_size, html_headers,
}

-- The head of each response of the server.
abbrev pub ok_head : Bytes → Bytes
ok_head mime = codes "HTTP/1.0 200 OK\r\nContent-type: " ++ (mime ++ codes "\r\n\r\n")

-- A file's response: its head and its bytes.
abbrev pub file_response : Bytes → Bytes → Bytes
file_response name buffer = ok_head (http_get_mime_type name) ++ buffer

start_ok : (out : Bytes) → http_start_response out 200 ≡ out ++ codes "HTTP/1.0 200 OK\r\n"
unfolding http_start_response http_get_response_message decimal
start_ok out = refl

pub head_ok :
    (out mime : Bytes)
    → http_end_headers (http_send_header (http_start_response out 200) (codes "Content-type") mime)
      ≡ out ++ ok_head mime
unfolding http_send_header http_end_headers
head_ok out mime = simp (start_ok, append_assoc)

pub send_file-response :
    (fs : Files) (fname out : Bytes) {buffer : Bytes}
    → fs.contents fname ≡ some buffer
    → send_file_by_name fs fname out ≡ out ++ file_response fname buffer
unfolding send_file_by_name http_send_data
send_file-response fs fname out e =
    rw (send_file_by_name, e, http_send_data, head_ok)
      (append_assoc out (ok_head (http_get_mime_type fname)) _)

module _ (fs : Files) (dir input path : Bytes) {r : HttpRequest}
    (parsed : http_request_parse (some input) ≡ request r) (slash : r.path ≡ b'/' ∷ path)
    (room : length (dir ++ (b'/' ∷ path)) < buffer_size) where
  pub reaches_kind :
      handle_files_request fs dir (some input)
      ≡ serve_kind fs (dir ++ (b'/' ∷ path)) (fs.kind (dir ++ (b'/' ∷ path)))
  unfolding handle_files_request answer serve_path
  reaches_kind =
      let fit : fits (dir ++ (b'/' ∷ path)) ≡ true = ground arith in
      rw (handle_files_request, parsed, slash, serve_path, fit)

  -- A request for a regular file that can be read, below the server's directory and with a path
  -- that fits the buffer, is answered by the head for its type and its bytes, and nothing else.
  pub regular-response :
      {buffer : Bytes}
      → fs.kind (dir ++ (b'/' ∷ path)) ≡ regular
      → fs.contents (dir ++ (b'/' ∷ path)) ≡ some buffer
      → handle_files_request fs dir (some input)
        ≡ sent (file_response (dir ++ (b'/' ∷ path)) buffer)
  unfolding serve_kind
  regular-response k c =
      reaches_kind
      ∙ rw (k, serve_kind) (ap sent (send_file-response fs (dir ++ (b'/' ∷ path)) [] c))

  -- A request for what is neither a directory nor a regular file, such as a file that is not
  -- there, gets the error page, under the status line "HTTP/1.0 200 OK".
  pub not_found-response :
      fs.kind (dir ++ (b'/' ∷ path)) ≡ other
      → handle_files_request fs dir (some input)
        ≡ sent (
            ok_head (codes "text/html")
            ++ codes "<center><h1>http Error 404.</h1><hr><p>File not found.</p></center>")
  unfolding serve_kind send_404 html_headers http_send_string
  not_found-response k =
      reaches_kind
      ∙ rw (k, serve_kind, send_404, http_send_string, html_headers, http_send_data, head_ok)

-- Bytes that are no request line end the connection's process by a read through NULL.
pub no_request-crash :
    (fs : Files) (dir input : Bytes)
    → http_request_parse (some input) ≡ null
    → handle_files_request fs dir (some input) ≡ crash
unfolding handle_files_request answer
no_request-crash fs dir input e = rw (handle_files_request, e)

-- A byte that a text does not have.
abbrev pub Lacks : ℕ → Bytes → Type 0
Lacks c = All (λ x. (x == c) ≡ false)

strrchr-none : (s : Bytes) (c : ℕ) → Lacks c s → strrchr s c ≡ none
unfolding strrchr
strrchr-none [] c h = refl
strrchr-none (x ∷ xs) c h = rw (strrchr-none xs c h.1, h.0)

-- The text from the last `c` on: what stands before it does not matter.
pub strrchr-last :
    (before after : Bytes) (c : ℕ)
    → Lacks c after
    → strrchr (before ++ (c ∷ after)) c ≡ some (c ∷ after)
unfolding strrchr
strrchr-last [] after c h = rw (strrchr-none after c h, ==-refl c)
strrchr-last (x ∷ xs) after c h = rw (strrchr-last xs after c h)

-- The type of a file depends on what follows the last dot of its name only, and is "text/plain"
-- for a name with no dot.
pub mime_by_extension :
    (before before' extension plain : Bytes)
    → Lacks b'.' extension
    → Lacks b'.' plain
    → (http_get_mime_type (before ++ (b'.' ∷ extension))
        ≡ http_get_mime_type (before' ++ (b'.' ∷ extension)))
      × (http_get_mime_type plain ≡ codes "text/plain")
unfolding http_get_mime_type
mime_by_extension before before' extension plain h k = (
  rw (
    http_get_mime_type,
    strrchr-last before extension b'.' h,
    strrchr-last before' extension b'.' h,
  ),
  rw (http_get_mime_type, strrchr-none plain b'.' k),
)
