-- ===== src/Http/RequestLine.antt =====
-- `http_request_parse` of hw2/libhttp.c against the form of a request line.
use os_assignments.Base.{
  ℕ, ◌≡◌, ◌≢◌, ◌↔◌, refl, inl, inr, true, false, some, [], ◌∷◌, ◌++◌, ◌==◌, ==_iff, arith, take,
  Bytes, All, Bool, Bool-cases, ap, ◌∙◌, subst,
}
use os_assignments.Http.Request.{
  HttpRequest, request, null, span, is_method, is_path, is_version, parse_version, parse_path,
  parse_space, parse_method, http_request_parse, libhttp_request_max_size,
}

-- Every byte passes the test.
abbrev pub Passes : (ℕ → Bool) → Bytes → Type 0
Passes test = All (λ c. test c ≡ true)

-- The text does not go on with a byte that passes the test.
abbrev pub Stops : (ℕ → Bool) → Bytes → Type 0
Stops test [] = Unit
Stops test (c ∷ cs) = test c ≡ false

pub span-append :
    (test : ℕ → Bool) (seen left : Bytes)
    → Passes test seen
    → Stops test left
    → span test (seen ++ left) ≡ (seen, left)
unfolding span
span-append test [] [] p s = refl
span-append test [] (c ∷ cs) p s = rw s
span-append test (x ∷ seen) left p s = rw (p.0, span-append test seen left p.1 s)

-- What `span` gives, put together again.
pub record Spanned (test : ℕ → Bool) (text seen left : Bytes) : Type 0 where
  pub whole : text ≡ seen ++ left
  pub passes : Passes test seen
  pub stops : Stops test left

pub span-Spanned :
    (test : ℕ → Bool) (text : Bytes) → Spanned test text (span test text).0 (span test text).1
unfolding span
span-Spanned test [] = record { whole = refl; passes = tt; stops = tt }
span-Spanned test (c ∷ cs) =
    let ih = span-Spanned test cs in
    elim (Bool-cases (test c)) [
      | inl pass ↦
          rw pass
            (record { whole = ap (◌∷◌ c) ih.whole; passes = (pass, ih.passes); stops = ih.stops })
      | inr stop ↦ rw stop (record { whole = refl; passes = tt; stops = stop })
    ]

-- The bytes of a request line: the method, a space, the path, and whatever else up to the newline.
pub record IsRequestLine (text : Bytes) (r : HttpRequest) : Type 0 where
  pub version : Bytes
  pub rest : Bytes
  pub whole : text ≡ r.method ++ (b' ' ∷ (r.path ++ (version ++ (b'\n' ∷ rest))))
  pub method_some : r.method ≢ []
  pub path_some : r.path ≢ []
  pub method_upper : Passes is_method r.method
  pub path_plain : Passes is_path r.path
  pub version_plain : Passes is_version version
  pub version_apart : Stops is_path (version ++ (b'\n' ∷ rest))

parse_line :
    (m p : ℕ) (ms ps version rest : Bytes)
    → Passes is_method (m ∷ ms)
    → Passes is_path (p ∷ ps)
    → Passes is_version version
    → Stops is_path (version ++ (b'\n' ∷ rest))
    → parse_method (span is_method ((m ∷ ms) ++ (b' ' ∷ ((p ∷ ps) ++ (version ++ (b'\n' ∷ rest))))))
      ≡ request (record { method = m ∷ ms; path = p ∷ ps })
unfolding parse_method
parse_line m p ms ps version rest upper plain ver apart = rw (
  span-append is_method (m ∷ ms) (b' ' ∷ ((p ∷ ps) ++ (version ++ (b'\n' ∷ rest)))) upper refl,
  parse_method,
  span-append is_path (p ∷ ps) (version ++ (b'\n' ∷ rest)) plain apart,
  parse_path,
  span-append is_version version (b'\n' ∷ rest) ver refl,
)

parse_form :
    (method path version rest : Bytes)
    → method ≢ []
    → path ≢ []
    → Passes is_method method
    → Passes is_path path
    → Passes is_version version
    → Stops is_path (version ++ (b'\n' ∷ rest))
    → parse_method (span is_method (method ++ (b' ' ∷ (path ++ (version ++ (b'\n' ∷ rest))))))
      ≡ request (record { method = method; path = path })
parse_form [] path version rest ne ne' u p v a = absurd (ne refl)
parse_form (m ∷ ms) [] version rest ne ne' u p v a = absurd (ne' refl)
parse_form (m ∷ ms) (p ∷ ps) version rest ne ne' upper plain ver apart =
    parse_line m p ms ps version rest upper plain ver apart

version_sound :
    (method path seen left : Bytes) {r : HttpRequest}
    → parse_version method path (seen, left) ≡ request r
    → (rest : Bytes) × (left ≡ b'\n' ∷ rest) × (method ≡ r.method) × (path ≡ r.path)
unfolding parse_version
version_sound method path seen [] h = cc
version_sound method path seen (c ∷ cs) h = (cs, ground arith, ground arith, ground arith)

-- What a successful parse of the path, and of what follows it, says of the text there.
record PathPart (method seen left : Bytes) (r : HttpRequest) : Type 0 where
  version : Bytes
  rest : Bytes
  splits : left ≡ version ++ (b'\n' ∷ rest)
  version_plain : Passes is_version version
  same : record { method = method; path = seen } ≡ r
  some_path : seen ≢ []

path_sound :
    (method seen left : Bytes) {r : HttpRequest}
    → parse_path method (seen, left) ≡ request r
    → PathPart method seen left r
unfolding parse_path
path_sound method [] left h = cc
path_sound method (p ∷ ps) left h =
    let sp = span-Spanned is_version left in
    let out = span is_version left in
    let (rest, e, m, q) = version_sound method (p ∷ ps) out.0 out.1 h in
    record {
      version = out.0;
      rest = rest;
      splits = sp.whole ∙ ap (λ (t : Bytes). out.0 ++ t) e;
      version_plain = sp.passes;
      same = λ i. record { method = m i; path = q i };
      some_path = λ e'. cc;
    }

line_sound :
    (m : ℕ) (ms : Bytes) (space : Bytes) {r : HttpRequest}
    → Passes is_method (m ∷ ms)
    → parse_space (m ∷ ms) space ≡ request r
    → IsRequestLine ((m ∷ ms) ++ space) r
unfolding parse_space
line_sound m ms [] upper h = cc
line_sound m ms (c ∷ cs) upper h = elim (Bool-cases (c == b' ')) [
  | inr no_space ↦ let h' : null ≡ request _ = rw no_space at h in cc
  | inl space ↦
      let sp = span-Spanned is_path cs in
      let out = span is_path cs in
      let part = path_sound (m ∷ ms) out.0 out.1 (rw space at h) in
      let tail : cs ≡ out.0 ++ (part.version ++ (b'\n' ∷ part.rest)) =
        sp.whole ∙ ap (λ (t : Bytes). out.0 ++ t) part.splits in
      subst (IsRequestLine ((m ∷ ms) ++ (c ∷ cs))) part.same (record {
        version = part.version;
        rest = part.rest;
        whole =
            ap (λ (t : Bytes). (m ∷ ms) ++ (c ∷ t)) tail
            ∙ ap (λ (d : ℕ). (m ∷ ms) ++ (d ∷ (out.0 ++ (part.version ++ (b'\n' ∷ part.rest)))))
                ((==_iff c b' ').0 space);
        method_some = λ e. cc;
        path_some = part.some_path;
        method_upper = upper;
        path_plain = sp.passes;
        version_plain = part.version_plain;
        version_apart = rw part.splits at sp.stops;
      })
]

method_sound :
    (seen left : Bytes) {r : HttpRequest}
    → Passes is_method seen
    → parse_method (seen, left) ≡ request r
    → IsRequestLine (seen ++ left) r
unfolding parse_method
method_sound [] left upper h = cc
method_sound (m ∷ ms) left upper h = line_sound m ms left upper h

-- A request is parsed exactly if the bytes that one read delivers, cut at the buffer's size, start
-- with a request line, ended by a newline before any NUL; its method and path are then those of
-- the line.
pub parse_iff :
    (input : Bytes) (r : HttpRequest)
    → (http_request_parse (some input) ≡ request r)
      ↔ IsRequestLine (take libhttp_request_max_size input) r
unfolding http_request_parse
parse_iff input r =
    let text = take libhttp_request_max_size input in
    let sp = span-Spanned is_method text in
    (
      λ h.
          rw sp.whole
            (method_sound (span is_method text).0 (span is_method text).1 {r = r} sp.passes h),
      λ l. rw l.whole (
          parse_form r.method r.path l.version l.rest l.method_some l.path_some l.method_upper
            l.path_plain l.version_plain l.version_apart),
    )
