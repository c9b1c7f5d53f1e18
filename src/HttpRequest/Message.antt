-- ===== src/HttpRequest/Message.antt =====
-- server/HttpRequest.cpp: the parts of a message that is made of a start line, headers and a body.
use web_library.Base.{
  ◌+◌, ◌<◌, ◌^◌, List, [], ◌∷◌, ◌++◌, Bytes, codes, length, length-append, find, find_str, npos,
  size_of, add64, sub64, substr, drop, take-length, drop_after_two, Lacks, All, join, map, ok,
  find-append, ◌≡◌, ◌≢◌, refl, sym, ap, subst, ◌∙◌, arith, append_assoc,
}
use web_library.Utils.{to_lowercase_str}
use web_library.HttpHeaders
use web_library.HttpHeaders.{HttpHeaders, no_headers, extract_headers_from_str}
use web_library.HttpHeaders.Parse.{
  Header, IsHeader, header_line, header_section, first_value, store_all, extract-section,
  lookup-section,
}
use web_library.HttpQuery.{HttpQuery, no_query, parse_from_string}
use web_library.HttpRequest.{HttpRequest, crnl, crnlcrnl, extract_headers, new_request, get_header}
use web_library.HttpRequest.Lines.{IsLine, find_crnl, find_end}
use web_library.HttpRequest.Cuts.{start_line, version_of_line, substr_front, substr_tail}

-- A header with no line end in it.
abbrev pub IsMessageHeader : Header → Type 0
IsMessageHeader x = IsHeader x × Lacks b'\r' (header_line x)

abbrev pub message : Bytes → List Header → Bytes → Bytes
message line hs body = join crnl (line ∷ map header_line hs) ++ (crnlcrnl ++ body)

line-ne : (x : Header) → header_line x ≢ []
line-ne ([], value) = cc
line-ne (c ∷ name, value) = cc

pub headers-IsLine : (hs : List Header) → All IsMessageHeader hs → All IsLine (map header_line hs)
headers-IsLine [] h = tt
headers-IsLine (x ∷ hs) (g, h) = ((line-ne x, g.1), headers-IsLine hs h)

pub message-IsHeader : (hs : List Header) → All IsMessageHeader hs → All IsHeader hs
message-IsHeader [] h = tt
message-IsHeader (x ∷ hs) (g, h) = (g.0, message-IsHeader hs h)

pub message_shape :
    (line : Bytes) (x : Header) (hs : List Header) (body : Bytes)
    → message line (x ∷ hs) body ≡ line ++ (crnl ++ (header_section (x ∷ hs) ++ (crnlcrnl ++ body)))
message_shape line x hs body =
    append_assoc line (crnl ++ header_section (x ∷ hs)) (crnlcrnl ++ body)

-- The header section lies between the first "\r\n" and the first "\r\n\r\n".
pub section-message :
    (line : Bytes) (x : Header) (hs : List Header) (body : Bytes)
    → IsLine line
    → All IsMessageHeader (x ∷ hs)
    → length (message line (x ∷ hs) body) < 2 ^ 64
    → let raw = message line (x ∷ hs) body in
      let start = add64 (size_of (find_str crnl raw)) 2 in
      substr raw start (sub64 (size_of (find_str crnlcrnl raw)) start)
      ≡ ok (header_section (x ∷ hs))
unfolding substr
section-message line x hs body hl hh bound =
    let section = header_section (x ∷ hs) in
    let tail = crnlcrnl ++ body in
    let e = message_shape line x hs body in
    let ends = find_end line (map header_line (x ∷ hs)) body (hl, headers-IsLine (x ∷ hs) hh) in
    let starts = ap (find_str crnl) e ∙ find_crnl line (section ++ tail) hl.1 in
    let cut : drop (length line + 2) (message line (x ∷ hs) body) ≡ section ++ tail =
      ap (drop (length line + 2)) e ∙ drop_after_two line b'\r' b'\n' (section ++ tail) in
    ground (
      arith,
      starts,
      ends,
      cut,
      take-length section tail,
      length-append (line ++ (crnl ++ section)) tail,
      length-append line (crnl ++ section),
    )

pub extract_headers-message :
    (line : Bytes) (x : Header) (hs : List Header) (body : Bytes)
    → IsLine line
    → All IsMessageHeader (x ∷ hs)
    → length (message line (x ∷ hs) body) < 2 ^ 64
    → extract_headers (message line (x ∷ hs) body) ≡ ok (store_all (x ∷ hs) no_headers)
unfolding extract_headers
extract_headers-message line x hs body hl hh bound =
    rw (section-message line x hs body hl hh bound)
      (extract-section (x ∷ hs) (message-IsHeader (x ∷ hs) hh))

method_of_message :
    (method rest : Bytes)
    → Lacks 32 method
    → substr (method ++ 32 ∷ rest) 0 (size_of (find 32 (method ++ 32 ∷ rest))) ≡ ok method
method_of_message method rest h =
    rw (find-append 32 method rest h) (substr_front method (32 ∷ rest))

line_of_message :
    (line rest : Bytes)
    → Lacks b'\r' line
    → substr (line ++ (crnl ++ rest)) 0 (size_of (find_str crnl (line ++ (crnl ++ rest)))) ≡ ok line
line_of_message line rest h = rw (find_crnl line rest h) (substr_front line (crnl ++ rest))

-- A message with at least one header, whose headers are well-formed and whose start line ends in
-- " HTTP/" and the version, is accepted if the endpoint's template accepts it. The method, the version
-- and the body come out as they were put in, byte for byte, and the query as the template binds it. A
-- lookup of a header, by a name in any case, gives the value of the first header of that name; later ones
-- of the same name are not found, nor is any header of the name cookie. The method holds no space, the
-- version no "/", the start line is a line, and the message is shorter than 2^64 bytes.
pub new_request-message :
    (method target version : Bytes) (x : Header) (hs : List Header) (body : Bytes) (path : Bytes)
    (pnames : List Bytes) (q : HttpQuery)
    → Lacks 32 method
    → Lacks b'/' version
    → IsLine (start_line method target version)
    → All IsMessageHeader (x ∷ hs)
    → length (message (start_line method target version) (x ∷ hs) body) < 2 ^ 64
    → parse_from_string
        (message (start_line method target version) (x ∷ hs) body)
        pnames
        path
        no_query
      ≡ ok q
    → (r : HttpRequest) × (new_request
          (message (start_line method target version) (x ∷ hs) body)
          path
          pnames
        ≡ ok r)
      × (r.method ≡ method)
      × (r.version ≡ version)
      × (r.body ≡ body)
      × (r.query ≡ q)
      × ((name : Bytes) → get_header name r ≡ first_value (to_lowercase_str name) (x ∷ hs))
unfolding new_request get_header HttpHeaders.get_header
new_request-message method target version x hs body path pnames q hm hv hl hh bound hq =
    let line = start_line method target version in
    let raw = message line (x ∷ hs) body in
    let tail = header_section (x ∷ hs) ++ (crnlcrnl ++ body) in
    let r : HttpRequest = record {
      headers = store_all (x ∷ hs) no_headers;
      query = q;
      method = method;
      body = body;
      version = version;
    } in
    let shape = message_shape line x hs body in
    let short : length line < 2 ^ 64 =
      omega (arith, ap length shape, length-append line (crnl ++ tail)) in
    let the_method : substr raw 0 (size_of (find 32 raw)) ≡ ok method =
      subst (λ t. substr t 0 (size_of (find 32 t)) ≡ ok method)
        (sym (
          shape
          ∙ append_assoc method (32 ∷ (target ++ (codes " HTTP/" ++ version))) (crnl ++ tail)))
        (method_of_message method ((target ++ (codes " HTTP/" ++ version)) ++ (crnl ++ tail)) hm) in
    let the_body : substr raw (add64 (size_of (find_str crnlcrnl raw)) 4) npos ≡ ok body =
      rw (find_end line (map header_line (x ∷ hs)) body (hl, headers-IsLine (x ∷ hs) hh))
        (substr_tail (join crnl (line ∷ map header_line (x ∷ hs))) body bound) in
    let the_line : substr raw 0 (size_of (find_str crnl raw)) ≡ ok line =
      subst (λ t. substr t 0 (size_of (find_str crnl t)) ≡ ok line) (sym shape)
        (line_of_message line tail hl.1) in
    (
      r,
      rw
          (
            extract_headers-message line x hs body hl hh bound,
            hq,
            the_method,
            the_body,
            the_line,
            version_of_line method target version hv short,
          )
          refl,
      refl,
      refl,
      refl,
      refl,
      λ name. lookup-section (to_lowercase_str name) (x ∷ hs),
    )
