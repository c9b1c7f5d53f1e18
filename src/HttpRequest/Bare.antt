-- ===== src/HttpRequest/Bare.antt =====
-- server/HttpRequest.cpp: a message with no header, and when a body is read as JSON.
use web_library.Base.{
  ◌+◌, ◌-◌, ◌<◌, ◌^◌, List, [], ◌∷◌, ◌++◌, none, Bytes, codes, length, length-append, find,
  find_str, size_of, add64, sub64, substr, take, drop_after_two, take_all, Lacks, All, get_lines,
  ok, throw, header_parsing_error, lookup, contains, is_some, if◌then◌else◌, ◌≡◌, refl, ap, ◌∙◌,
  arith,
}
use web_library.Json.{JsonLib}
use web_library.Utils.{trim, to_lowercase_str}
use web_library.HttpHeaders
use web_library.HttpHeaders.{no_headers, extract_headers_from_str}
use web_library.HttpHeaders.Parse.{Header, first_value}
use web_library.HttpQuery.{HttpQuery, no_query, parse_from_string}
use web_library.HttpRequest.{HttpRequest, crnl, crnlcrnl, new_request, get_header, body_as_json}
use web_library.HttpRequest.Lines.{IsLine, find_crnl, find_end}
use web_library.HttpRequest.Message.{IsMessageHeader, message, new_request-message}
use web_library.HttpRequest.Cuts.{start_line, substr_ok}

pub extract_blank_line :
    (body : Bytes) → extract_headers_from_str (crnl ++ body) no_headers ≡ throw header_parsing_error
unfolding extract_headers_from_str get_lines trim find
extract_blank_line body = refl

-- The section that is cut out of a message with no header: its length wraps around, so it is all that
-- follows the start line.
pub section-bare :
    (line body : Bytes)
    → IsLine line
    → length (message line [] body) < 2 ^ 64
    → let raw = message line [] body in
      let start = add64 (size_of (find_str crnl raw)) 2 in
      substr raw start (sub64 (size_of (find_str crnlcrnl raw)) start) ≡ ok (crnl ++ body)
section-bare line body hl bound =
    let size = length-append line (crnlcrnl ++ body) in
    let start : add64 (length line) 2 ≡ length line + 2 = omega arith in
    let count : sub64 (length line) (length line + 2) ≡ 2 ^ 64 - 2 = omega arith in
    rw (find_crnl line (crnl ++ body) hl.1, find_end line [] body (hl, tt), start, count)
      (substr_ok (message line [] body) (length line + 2) (2 ^ 64 - 2) (omega arith)
        ∙ ap ok (
            ap (take (2 ^ 64 - 2)) (drop_after_two line b'\r' b'\n' (crnl ++ body))
            ∙ take_all (2 ^ 64 - 2) (crnl ++ body) (omega arith)))

-- A message with no header at all, whose start line is followed by an empty line, is refused as
-- ill-formed for every endpoint, although HTTP allows it.
pub new_request_no_headers :
    (line body path : Bytes) (pnames : List Bytes)
    → IsLine line
    → length (message line [] body) < 2 ^ 64
    → new_request (message line [] body) path pnames ≡ throw header_parsing_error
unfolding new_request
new_request_no_headers line body path pnames hl bound =
    rw (section-bare line body hl bound, extract_blank_line body) refl

-- For a message as in `new_request-message`, the body is read as JSON exactly if a header has the name
-- "application/json", in any case. What a Content-Type header says plays no part.
pub body_as_json-message :
    (json : JsonLib) (method target version : Bytes) (x : Header) (hs : List Header) (body : Bytes)
    (path : Bytes) (pnames : List Bytes) (q : HttpQuery)
    → Lacks 32 method
    → Lacks b'/' version
    → IsLine (start_line method target version)
    → All IsMessageHeader (x ∷ hs)
    → length (message (start_line method target version) (x ∷ hs) body) < 2 ^ 64
    → parse_from_string
        (message (start_line method target version) (x ∷ hs) body)
        pnames
        path
        no_query
      ≡ ok q
    → (r : HttpRequest) × (new_request
          (message (start_line method target version) (x ∷ hs) body)
          path
          pnames
        ≡ ok r)
      × (body_as_json json r ≡ (
          if is_some (first_value (codes "application/json") (x ∷ hs))
          then json.parse body
          else none))
unfolding body_as_json contains get_header HttpHeaders.get_header to_lowercase_str
body_as_json-message json method target version x hs body path pnames q hm hv hl hh bound hq =
    let (r, parsed, _, _, same, _, header) =
      new_request-message method target version x hs body path pnames q hm hv hl hh bound hq in
    let found : lookup (codes "application/json") r.headers.headers
        ≡ first_value (codes "application/json") (x ∷ hs) =
      header (codes "application/json") in
    (r, parsed, rw (found, same) refl)
