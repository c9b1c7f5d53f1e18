-- ===== src/HttpResponse/Read.antt =====
-- server/HttpResponse.cpp: a printed response, and the parser that the server has for requests.
use mathlib.Core.List.{reverse, reverse-append}
use web_library.Base.{
  ℕ, suc, ◌+◌, ◌<◌, ◌^◌, List, [], ◌∷◌, ◌++◌, Bool, true, false, some, Bytes, codes, length,
  length-append, drop, drop-length, map, join, All, All-append, Lacks, if◌then◌else◌, contains,
  print_nat, print_int, print_nat-AllDigits, AllDigits, is_digit, is_space, ℤ, pos, negsuc,
  find_str, lookup, subst, ok, ◌≡◌, refl, sym, ap, ◌∙◌, arith, append_assoc,
}
use web_library.Utils.{to_lowercase_str}
use web_library.Utils.Trim.{Starts}
use web_library.HttpHeaders.{HttpHeaders, get_header, no_headers}
use web_library.HttpHeaders.Parse.{Header, header_line, first_value, store_all, lookup-section}
use web_library.HttpRequest.{crnl, crnlcrnl, extract_headers}
use web_library.HttpRequest.Lines.{IsLine, find_end}
use web_library.HttpRequest.Message.{
  message, IsMessageHeader, extract_headers-message, headers-IsLine,
}
use web_library.HttpResponse.{HttpResponse, content_length_name, to_string}
use web_library.HttpResponse.Framing.{status_line, all_headers, to_string-message}

AllDigits-Lacks : (b : ℕ) (s : Bytes) → is_digit b ≡ false → AllDigits s → Lacks b s
AllDigits-Lacks b [] h d = tt
AllDigits-Lacks b (c ∷ s) h d = (λ e. ground (arith, ap is_digit e), AllDigits-Lacks b s h d.1)

AllDigits-Starts : (s : Bytes) → AllDigits s → Starts s
unfolding is_digit is_space
AllDigits-Starts [] d = tt
AllDigits-Starts (c ∷ s) d = ground arith

AllDigits-append : (s t : Bytes) → AllDigits s → AllDigits t → AllDigits (s ++ t)
AllDigits-append [] t d e = e
AllDigits-append (c ∷ s) t d e = (d.0, AllDigits-append s t d.1 e)

AllDigits-reverse : (s : Bytes) → AllDigits s → AllDigits (reverse s)
AllDigits-reverse [] d = tt
AllDigits-reverse (c ∷ s) d =
    rw (reverse-append (c ∷ []) s)
      (AllDigits-append (reverse s) (c ∷ []) (AllDigits-reverse s d.1) (d.0, tt))

length_is_header : (n : ℕ) → IsMessageHeader (content_length_name, print_nat n)
unfolding is_digit is_space
length_is_header n =
    let (d, ne) = print_nat-AllDigits n in
    let s = print_nat n in
    (
      (
        refl,
        omega arith,
        omega arith,
        ne,
        (AllDigits-Starts s d, AllDigits-Starts (reverse s) (AllDigits-reverse s d)),
        AllDigits-Lacks b'\n' s refl d,
      ),
      All-append _ (codes "Content-Length: ") s (omega arith) (AllDigits-Lacks b'\r' s refl d),
    )

print_int-Lacks : (z : ℤ) → Lacks b'\r' (print_int z)
unfolding print_int is_digit
print_int-Lacks (pos n) = AllDigits-Lacks b'\r' (print_nat n) refl (print_nat-AllDigits n).0
print_int-Lacks (negsuc n) =
    (omega arith, AllDigits-Lacks b'\r' (print_nat (suc n)) refl (print_nat-AllDigits (suc n)).0)

status_line-IsLine :
    (r : HttpResponse)
    → Lacks b'\r' r.http_version
    → Lacks b'\r' r.status_message
    → IsLine (status_line r)
status_line-IsLine r hv hm = (
  cc,
  All-append _ (codes "HTTP/") _ (omega arith) (
      All-append _ r.http_version _ hv (
        omega arith,
        All-append _ (print_int r.status_code) _ (print_int-Lacks r.status_code) (omega arith, hm),
      )),
)

length_header-good :
    (b : Bool) (n : ℕ)
    → All IsMessageHeader (if b then [] else (content_length_name, print_nat n) ∷ [])
length_header-good true n = tt
length_header-good false n = (length_is_header n, tt)

with_length :
    (own : List Header) (n : ℕ)
    → All IsMessageHeader own
    → let hs =
        own
        ++ (if contains content_length_name own
            then []
            else (content_length_name, print_nat n) ∷ []) in
      (x : Header) × (rest : List Header) × (hs ≡ x ∷ rest) × All IsMessageHeader (x ∷ rest)
unfolding contains lookup
with_length [] n h = ((content_length_name, print_nat n), [], refl, (length_is_header n, tt))
with_length (x ∷ own) n h =
    let b = contains content_length_name (x ∷ own) in
    (
      x,
      own ++ (if b then [] else (content_length_name, print_nat n) ∷ []),
      refl,
      (h.0, All-append _ own _ h.1 (length_header-good b n)),
    )

all_headers-good :
    (r : HttpResponse)
    → All IsMessageHeader r.headers
    → (x : Header) × (hs : List Header) × (all_headers r ≡ x ∷ hs) × All IsMessageHeader (x ∷ hs)
all_headers-good r h = with_length r.headers (length r.body) h

-- The printed response, taken as a message, is read back: the body is what follows the first empty
-- line, byte for byte, and the header section before it is parsed without an error. A lookup in what it
-- parses to, by a name in any case, then gives the value of the first of the response's headers that has
-- this name in any case, and none for the name cookie; Content-Length, unless it was set, is the last of
-- these headers, with the size of the body in decimal. The headers are well-formed, the version and the
-- status message hold no carriage return, and the print is shorter than 2^64 bytes.
pub to_string_read :
    (r : HttpResponse)
    → All IsMessageHeader r.headers
    → Lacks b'\r' r.http_version
    → Lacks b'\r' r.status_message
    → length (to_string r) < 2 ^ 64
    → (n : ℕ) × (h : HttpHeaders) × (find_str crnlcrnl (to_string r) ≡ some n)
      × (drop (n + 4) (to_string r) ≡ r.body)
      × (extract_headers (to_string r) ≡ ok h)
      × ((name : Bytes) → get_header name h ≡ first_value (to_lowercase_str name) (all_headers r))
unfolding get_header
to_string_read r hh hv hm bound =
    let (x, hs, shape, good) = all_headers-good r hh in
    let line = status_line r in
    let printed : to_string r ≡ message line (x ∷ hs) r.body =
      to_string-message r ∙ ap (λ t. message line t r.body) shape in
    let is_line = status_line-IsLine r hv hm in
    let front = join crnl (line ∷ map header_line (x ∷ hs)) in
    let bound' : length (message line (x ∷ hs) r.body) < 2 ^ 64 =
      subst (λ t. length t < 2 ^ 64) printed bound in
    let size : length (front ++ crnlcrnl) ≡ length front + 4 = length-append front crnlcrnl in
    (
      length front,
      store_all (x ∷ hs) no_headers,
      ap (find_str crnlcrnl) printed
          ∙ find_end line (map header_line (x ∷ hs)) r.body (is_line, headers-IsLine (x ∷ hs) good),
      ap (drop (length front + 4)) printed
          ∙ ap (λ k. drop k (message line (x ∷ hs) r.body)) (sym size)
          ∙ ap (drop (length (front ++ crnlcrnl))) (sym (append_assoc front crnlcrnl r.body))
          ∙ drop-length (front ++ crnlcrnl) r.body,
      ap extract_headers printed ∙ extract_headers-message line x hs r.body is_line good bound',
      λ name.
          lookup-section (to_lowercase_str name) (x ∷ hs)
          ∙ ap (first_value (to_lowercase_str name)) (sym shape),
    )
