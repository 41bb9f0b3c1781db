-- ===== src/Http/Directories.antt =====
-- What hw2/httpserver.c answers where the path names a directory.
use os_assignments.Base.{
  ◌<◌, ◌≡◌, refl, true, false, some, List, [], ◌∷◌, ◌++◌, length, Bytes, codes, All, str_eq,
  str_eq_refl, ◌∙◌, append_assoc, append-nil,
}
use os_assignments.Http.Request.{HttpRequest, request, http_request_parse}
use os_assignments.Http.Response.{http_send_data, http_send_string}
use os_assignments.Http.Files.{
  directory, Files, sent, link_line, send_links, html_headers, list_files_in_dir, index_html,
  index_path, send_index, serve_directory, serve_kind, handle_files_request, fits, buffer_size,
}
use os_assignments.Http.Replies.{ok_head, head_ok, file_response, send_file-response, reaches_kind}

-- A line for each entry, in order.
abbrev pub links : List Bytes → Bytes
links [] = []
links (name ∷ names) = link_line name ++ links names

abbrev pub listing : List Bytes → Bytes
listing names =
    codes "<!DOCTYPE html>\n"
    ++ (codes "<html>\n"
        ++ (codes "<body>\n" ++ (links names ++ (codes "</body>\n" ++ codes "</html>\n"))))

abbrev pub AllFit : List Bytes → Type 0
AllFit = All (λ name. fits (link_line name) ≡ true)

abbrev pub NoIndex : List Bytes → Type 0
NoIndex = All (λ name. str_eq name index_html ≡ false)

send_links_lem :
    (names : List Bytes) (out : Bytes)
    → AllFit names
    → send_links names out ≡ sent (out ++ links names)
unfolding send_links http_send_string http_send_data
send_links_lem [] out f = simp append-nil
send_links_lem (name ∷ names) out f =
    rw (f.0, send_links_lem names (out ++ link_line name) f.1) (simp append_assoc)

html_headers_lem : (out : Bytes) → html_headers out ≡ out ++ ok_head (codes "text/html")
unfolding html_headers
html_headers_lem out = head_ok out (codes "text/html")

list_files-listing :
    (fs : Files) (dir : Bytes) {names : List Bytes}
    → fs.entries dir ≡ some names
    → AllFit names
    → list_files_in_dir fs dir [] ≡ sent (ok_head (codes "text/html") ++ listing names)
unfolding list_files_in_dir http_send_string http_send_data
list_files-listing fs dir {names} e f =
    rw (e, list_files_in_dir, send_links_lem names _ f) (simp (html_headers_lem, append_assoc))

send_index-none :
    (fs : Files) (dir : Bytes) (names : List Bytes) (out : Bytes) {found : _}
    → NoIndex names
    → send_index fs dir names found out ≡ some (found, out)
unfolding send_index
send_index-none fs dir [] out n = refl
send_index-none fs dir (name ∷ names) out n = rw n.0 (send_index-none fs dir names out n.1)

send_index-one :
    (fs : Files) (dir : Bytes) (before after : List Bytes) {buffer : Bytes}
    → NoIndex before
    → NoIndex after
    → fits (index_path dir) ≡ true
    → fs.contents (index_path dir) ≡ some buffer
    → send_index fs dir (before ++ (index_html ∷ after)) false []
      ≡ some (true, file_response (index_path dir) buffer)
unfolding send_index
send_index-one fs dir [] after n m f c =
    rw (str_eq_refl index_html, f, send_file-response fs (index_path dir) [] c)
      (send_index-none fs dir after (file_response (index_path dir) _) m)
send_index-one fs dir (name ∷ before) after n m f c =
    rw n.0 (send_index-one fs dir before after n.1 m f c)

module _ (fs : Files) (dir input path : Bytes) {r : HttpRequest} {names : List Bytes}
    (parsed : http_request_parse (some input) ≡ request r) (slash : r.path ≡ b'/' ∷ path)
    (room : length (dir ++ (b'/' ∷ path)) < buffer_size)
    (k : fs.kind (dir ++ (b'/' ∷ path)) ≡ directory)
    (opened : fs.entries (dir ++ (b'/' ∷ path)) ≡ some names) where
  -- A request for a directory that can be read and has no entry "index.html", where the server's
  -- directory with the path of the request fits its buffer of 2048 bytes, and the lines fit theirs:
  -- the answer is a page with a link for each entry, in the order of the directory.
  pub directory-listing :
      NoIndex names
      → AllFit names
      → handle_files_request fs dir (some input)
        ≡ sent (ok_head (codes "text/html") ++ listing names)
  unfolding serve_kind serve_directory
  directory-listing n f =
      let at = dir ++ (b'/' ∷ path) in
      reaches_kind fs dir input path parsed slash room
      ∙ rw (k, serve_kind, opened, serve_directory, send_index-none fs at names [] n)
          (list_files-listing fs at opened f)

  -- A request for a directory that can be read and has one entry "index.html", which can be read
  -- and whose path fits the buffer: the answer is that file and nothing else.
  pub directory-index :
      (before after : List Bytes) (buffer : Bytes)
      → names ≡ before ++ (index_html ∷ after)
      → NoIndex before
      → NoIndex after
      → fits (index_path (dir ++ (b'/' ∷ path))) ≡ true
      → fs.contents (index_path (dir ++ (b'/' ∷ path))) ≡ some buffer
      → handle_files_request fs dir (some input)
        ≡ sent (file_response (index_path (dir ++ (b'/' ∷ path))) buffer)
  unfolding serve_kind serve_directory
  directory-index before after buffer e n m f c =
      let at = dir ++ (b'/' ∷ path) in
      reaches_kind fs dir input path parsed slash room
      ∙ rw (k, serve_kind, opened, serve_directory, e, send_index-one fs at before after n m f c)
