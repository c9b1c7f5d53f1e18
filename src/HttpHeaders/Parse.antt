-- ===== src/HttpHeaders/Parse.antt =====
-- server/HttpHeaders.cpp: header sections that are printed line by line, and the parser.
use mathlib.Core.List.{reverse, reverse-append, reverse-reverse}
use web_library.Base.{
  suc, ◌+◌, List, [], ◌∷◌, ◌++◌, false, ◌&&◌, not, Option, none, some, Bytes, codes, length,
  is_empty, if◌then◌else◌, ok, get_lines, lookup, emplace, bytes_eq, lookup-emplace, or_else, map,
  join, ◌≡◌, ◌≢◌, refl, arith, All, All-append, sym, ap, ◌∙◌, Lacks, append_assoc, append-nil,
  length-append, find-append, take-length, drop_after_two, get_lines-append, get_lines-Lacks,
  is_space,
}
use web_library.Utils.{trim, to_lowercase_str}
use web_library.Utils.Trim.{IsBlank, IsTrimmed, Starts, trim-around}
use web_library.HttpHeaders.{
  HttpHeaders, no_headers, add_line, add_header, add_lines, extract_headers_from_str, get_header,
}

abbrev pub Header : Type 0
Header = Bytes × Bytes

-- The name does not begin with a space and holds no ':', the value is not empty and has no space at
-- its ends, and neither holds a newline.
abbrev pub IsHeader : Header → Type 0
IsHeader (name, value) =
    Starts name
    × Lacks b':' name
    × Lacks b'\n' name
    × (value ≢ [])
    × IsTrimmed value
    × Lacks b'\n' value

abbrev pub header_line : Header → Bytes
header_line (name, value) = name ++ (b':' ∷ 32 ∷ value)

abbrev pub header_section : List Header → Bytes
header_section hs = join (codes "\r\n") (map header_line hs)

-- What the parser makes of a header.
abbrev pub store : Header → HttpHeaders → HttpHeaders
store (name, value) h =
    if bytes_eq (to_lowercase_str name) (codes "cookie")
    then h
    else record h { headers = emplace (to_lowercase_str name) value h.headers }

abbrev pub store_all : List Header → HttpHeaders → HttpHeaders
store_all [] h = h
store_all (x ∷ hs) h = store_all hs (store x h)

line-Starts : (name value : Bytes) → Starts name → Starts (header_line (name, value))
unfolding is_space
line-Starts [] value h = refl
line-Starts (c ∷ name) value h = h

Starts-append : (s t : Bytes) → s ≢ [] → Starts s → Starts (s ++ t)
Starts-append [] t h k = absurd (h refl)
Starts-append (c ∷ s) t h k = k

reverse-ne-nil : (s : Bytes) → s ≢ [] → reverse s ≢ []
reverse-ne-nil s h e = h (sym (reverse-reverse s) ∙ ap reverse e)

line-IsTrimmed : (x : Header) → IsHeader x → IsTrimmed (header_line x)
line-IsTrimmed (name, value) (hs, hc, hn, ne, ht, hv) = (
  line-Starts name value hs,
  rw (← append_assoc name (codes ": ") value, reverse-append (name ++ codes ": ") value)
      (Starts-append (reverse value) (reverse (name ++ codes ": ")) (reverse-ne-nil value ne) ht.1),
)

add_header-print :
    (x : Header) (h : HttpHeaders) → IsHeader x → add_header (header_line x) h ≡ ok (store x h)
unfolding add_header
add_header-print (name, value) h (hs, hc, hn, ne, ht, hv) =
    let line = header_line (name, value) in
    let size : length line ≡ length name + suc (suc (length value)) =
      length-append name (b':' ∷ 32 ∷ value) in
    let whole : trim value ≡ value =
      ap trim (sym (append-nil value)) ∙ trim-around [] value [] tt tt ht in
    ground (
      arith,
      find-append b':' name (32 ∷ value) hc,
      take-length name (b':' ∷ 32 ∷ value),
      drop_after_two name b':' 32 value,
      size,
      whole,
    )

add_line-print :
    (x : Header) (r : Bytes) (h : HttpHeaders)
    → IsHeader x
    → IsBlank r
    → add_line (header_line x ++ r) h ≡ ok (store x h)
unfolding add_line
add_line-print x r h good blank =
    rw (trim-around [] (header_line x) r tt blank (line-IsTrimmed x good))
      (add_header-print x h good)

line-Lacks : (x : Header) → IsHeader x → Lacks b'\n' (header_line x)
line-Lacks (name, value) (_, _, hn, _, _, hv) =
    All-append _ name (b':' ∷ 32 ∷ value) hn (omega arith, (omega arith, hv))

get_lines-line : (x : Header) → IsHeader x → get_lines (header_line x) ≡ header_line x ∷ []
get_lines-line ([], value) h = get_lines-Lacks b':' (32 ∷ value) (line-Lacks ([], value) h)
get_lines-line (c ∷ name, value) h =
    get_lines-Lacks c (name ++ b':' ∷ 32 ∷ value) (line-Lacks (c ∷ name, value) h)

carriage_return-IsBlank : IsBlank (b'\r' ∷ [])
unfolding is_space
carriage_return-IsBlank = (refl, tt)

add_lines-print :
    (x : Header) (hs : List Header) (h : HttpHeaders)
    → All IsHeader (x ∷ hs)
    → add_lines (get_lines (header_section (x ∷ hs))) h ≡ ok (store_all (x ∷ hs) h)
unfolding add_lines
add_lines-print x [] h (good, _) =
    let e = add_line-print x [] h good tt in
    rw (get_lines-line x good, ← append-nil (header_line x), e) refl
add_lines-print x (y ∷ hs) h (good, more) =
    let rest = header_section (y ∷ hs) in
    let line = header_line x ++ b'\r' ∷ [] in
    let shape : header_section (x ∷ y ∷ hs) ≡ line ++ b'\n' ∷ rest =
      sym (append_assoc (header_line x) (b'\r' ∷ []) (b'\n' ∷ rest)) in
    rw
      (
        shape,
        get_lines-append line rest
            (All-append _ (header_line x) (b'\r' ∷ []) (line-Lacks x good) (omega arith, tt)),
        add_line-print x (b'\r' ∷ []) h good carriage_return-IsBlank,
      )
      (add_lines-print y hs (store x h) more)

-- The value of the first header with this lower-case name; none for "cookie".
abbrev pub first_value : Bytes → List Header → Option Bytes
first_value k [] = none
first_value k ((name, value) ∷ hs) =
    if bytes_eq (to_lowercase_str name) k && not (bytes_eq (to_lowercase_str name) (codes "cookie"))
    then some value
    else first_value k hs

lookup-store_all :
    (k : Bytes) (hs : List Header) (h : HttpHeaders)
    → lookup k (store_all hs h).headers ≡ or_else (lookup k h.headers) (first_value k hs)
lookup-store_all k [] h = ground arith
lookup-store_all k ((name, value) ∷ hs) h = ground (
  arith,
  lookup-store_all k hs (store (name, value) h),
  lookup-emplace (to_lowercase_str name) k value h.headers,
)

section_nonempty : (x : Header) (hs : List Header) → is_empty (header_section (x ∷ hs)) ≡ false
section_nonempty ([], value) [] = refl
section_nonempty (c ∷ name, value) [] = refl
section_nonempty ([], value) (y ∷ hs) = refl
section_nonempty (c ∷ name, value) (y ∷ hs) = refl

pub extract-section :
    (hs : List Header)
    → All IsHeader hs
    → extract_headers_from_str (header_section hs) no_headers ≡ ok (store_all hs no_headers)
unfolding extract_headers_from_str
extract-section [] good = refl
extract-section (x ∷ hs) good =
    rw (section_nonempty x hs, extract_headers_from_str) (add_lines-print x hs no_headers good)

pub lookup-section :
    (k : Bytes) (hs : List Header) → lookup k (store_all hs no_headers).headers ≡ first_value k hs
unfolding lookup
lookup-section k hs = lookup-store_all k hs no_headers

-- A section of headers, each printed as "name: value" and with a line end between each two, is parsed
-- without an error. A lookup, by a name in any case, then gives the value of the first header of that
-- name, and none for the name "cookie".
pub get_header-section :
    (hs : List Header) (query : Bytes)
    → All IsHeader hs
    → (h : HttpHeaders) × (extract_headers_from_str (header_section hs) no_headers ≡ ok h)
      × (get_header query h ≡ first_value (to_lowercase_str query) hs)
unfolding get_header
get_header-section hs query good =
    (store_all hs no_headers, extract-section hs good, lookup-section (to_lowercase_str query) hs)
