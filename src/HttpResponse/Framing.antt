-- ===== src/HttpResponse/Framing.antt =====
-- server/HttpResponse.cpp: a printed response as a message with a start line, headers and a body.
use web_library.Base.{
  List, [], ◌∷◌, ◌++◌, Bool, true, false, Bytes, codes, length, map, join, if◌then◌else◌, contains,
  print_nat, print_int, ◌≡◌, refl, sym, ap, ◌∙◌, append_assoc, Dict,
}
use web_library.HttpHeaders.Parse.{Header, header_line}
use web_library.HttpRequest.{crnl, crnlcrnl}
use web_library.HttpRequest.Message.{message}
use web_library.HttpResponse.{HttpResponse, content_length_name, print_headers, to_string}

abbrev pub status_line : HttpResponse → Bytes
status_line r =
    codes "HTTP/" ++ (r.http_version ++ (32 ∷ (print_int r.status_code ++ (32 ∷ r.status_message))))

-- The headers that are set, and Content-Length if it is not among them.
abbrev pub all_headers : HttpResponse → List Header
all_headers r =
    r.headers
    ++ (if contains content_length_name r.headers
        then []
        else (content_length_name, print_nat (length r.body)) ∷ [])

print_headers-append :
    (hs ks : Dict Bytes) → print_headers (hs ++ ks) ≡ print_headers hs ++ print_headers ks
unfolding print_headers
print_headers-append [] ks = refl
print_headers-append ((name, value) ∷ hs) ks = simp (print_headers-append hs ks, append_assoc)

print_headers-join :
    (line : Bytes) (hs : Dict Bytes) (body : Bytes)
    → (line ++ crnl) ++ (print_headers hs ++ (crnl ++ body)) ≡ message line hs body
unfolding print_headers
print_headers-join line [] body = append_assoc line crnl (crnl ++ body)
print_headers-join line ((name, value) ∷ hs) body =
    let line' = header_line (name, value) in
    let p = print_headers hs in
    let shape : (line ++ crnl)
          ++ ((name ++ (codes ": " ++ (value ++ (crnl ++ p)))) ++ (crnl ++ body))
        ≡ line ++ (crnl ++ ((line' ++ crnl) ++ (p ++ (crnl ++ body)))) =
      simp append_assoc in
    shape
    ∙ ap (λ t. line ++ (crnl ++ t)) (print_headers-join line' hs body)
    ∙ sym (append_assoc line (crnl ++ join crnl (line' ∷ map header_line hs)) (crnlcrnl ++ body))

length_header :
    (b : Bool) (n : Bytes)
    → (if b then [] else codes "Content-Length: " ++ (n ++ crnl))
      ≡ print_headers (if b then [] else (content_length_name, n) ∷ [])
unfolding print_headers
length_header true n = refl
length_header false n = refl

-- A response is printed as a status line, its headers, each on a line of its own, a blank line and the
-- body. Content-Length is added behind the headers if it is not among them, with the number of bytes of
-- the body.
pub to_string-message :
    (r : HttpResponse) → to_string r ≡ message (status_line r) (all_headers r) r.body
unfolding to_string
to_string-message r =
    let tail = crnl ++ r.body in
    let own = contains content_length_name r.headers in
    let size = print_nat (length r.body) in
    let more = if own then [] else (content_length_name, size) ∷ [] in
    let first : codes "HTTP/"
          ++ (r.http_version
              ++ (32 ∷ (print_int r.status_code ++ (32 ∷ (r.status_message ++ crnl)))))
        ≡ status_line r ++ crnl =
      simp append_assoc in
    let second : print_headers r.headers
          ++ ((if own then [] else codes "Content-Length: " ++ (size ++ crnl)) ++ tail)
        ≡ print_headers (all_headers r) ++ tail =
      ap (λ t. print_headers r.headers ++ (t ++ tail)) (length_header own size)
      ∙ sym (append_assoc (print_headers r.headers) (print_headers more) tail)
      ∙ ap (λ t. t ++ tail) (sym (print_headers-append r.headers more)) in
    (λ i. first i ++ second i) ∙ print_headers-join (status_line r) (all_headers r) r.body
