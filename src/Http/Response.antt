-- ===== src/Http/Response.antt =====
-- hw2/libhttp.c: the response functions, as the bytes that they append to what was sent.
use os_assignments.Base.{
  ℕ, zero, suc, ◌+◌, ◌/◌, ◌%◌, ◌||◌, Option, none, some, [], ◌∷◌, ◌++◌, ◌==◌, ltb, if◌then◌else◌,
  Bytes, codes, str_eq,
}

unfoldable pub http_get_response_message : ℕ → Bytes
http_get_response_message status_code =
    if status_code == 100
    then codes "Continue"
    else if status_code == 200
    then codes "OK"
    else if status_code == 301
    then codes "Moved Permanently"
    else if status_code == 302
    then codes "Found"
    else if status_code == 304
    then codes "Not Modified"
    else if status_code == 400
    then codes "Bad Request"
    else if status_code == 401
    then codes "Unauthorized"
    else if status_code == 403
    then codes "Forbidden"
    else if status_code == 404
    then codes "Not Found"
    else if status_code == 405
    then codes "Method Not Allowed"
    else codes "Internal Server Error"

-- `%d` of a number of at most `fuel` digits.
unfoldable pub decimal : ℕ → ℕ → Bytes
decimal zero n = []
decimal (suc fuel) n =
    let front = decimal fuel (n / 10) in
    if ltb n 10 then (48 + n) ∷ [] else front ++ ((48 + n % 10) ∷ [])

-- An `int` has ten digits at most.
unfoldable pub http_start_response : Bytes → ℕ → Bytes
http_start_response sent status_code =
    sent
    ++ (codes "HTTP/1.0 "
        ++ (decimal 10 status_code
            ++ (codes " " ++ (http_get_response_message status_code ++ codes "\r\n"))))

unfoldable pub http_send_header : Bytes → Bytes → Bytes → Bytes
http_send_header sent key value = sent ++ (key ++ (codes ": " ++ (value ++ codes "\r\n")))

unfoldable pub http_end_headers : Bytes → Bytes
http_end_headers sent = sent ++ codes "\r\n"

unfoldable pub http_send_data : Bytes → Bytes → Bytes
http_send_data sent payload = sent ++ payload

unfoldable pub http_send_string : Bytes → Bytes → Bytes
unfolding http_send_data
http_send_string sent text = http_send_data sent text

-- `strrchr(s, c)`: the text from the last `c` on.
unfoldable pub strrchr : Bytes → ℕ → Option Bytes
strrchr [] c = none
strrchr (x ∷ xs) c = elim (strrchr xs c) [
  | some r ↦ some r
  | none ↦ if x == c then some (x ∷ xs) else none
]

unfoldable pub http_get_mime_type : Bytes → Bytes
http_get_mime_type file_name = elim (strrchr file_name b'.') [
  | none ↦ codes "text/plain"
  | some file_extension ↦
      if str_eq file_extension (codes ".html") || str_eq file_extension (codes ".htm")
      then codes "text/html"
      else if str_eq file_extension (codes ".jpg") || str_eq file_extension (codes ".jpeg")
      then codes "image/jpeg"
      else if str_eq file_extension (codes ".png")
      then codes "image/png"
      else if str_eq file_extension (codes ".css")
      then codes "text/css"
      else if str_eq file_extension (codes ".js")
      then codes "application/javascript"
      else if str_eq file_extension (codes ".pdf")
      then codes "application/pdf"
      else codes "text/plain"
]
