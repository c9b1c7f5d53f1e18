-- ===== src/HttpHeaders/Lookup.antt =====
-- server/HttpHeaders.cpp: what the parser stores, and what the lookups find of it.
use web_library.Base.{
  ◌+◌, List, [], ◌∷◌, none, some, Bytes, codes, take, drop, length, ltb, find, is_empty,
  if◌then◌else◌, ok, >>=-eq-ok, get_lines, Dict, lookup, emplace, bytes_eq, bytes_eq_iff,
  lookup-assign, ◌&&◌, ◌≡◌, refl, arith, All, Option-cases, Bool-cases, inl, inr, sym, ap, ◌∙◌,
}
use web_library.Utils.{trim, to_lowercase_str}
use web_library.Utils.Trim.{to_lowercase_str_idem}
use web_library.HttpHeaders.{
  HttpHeaders, no_headers, add_line, add_header, add_lines, extract_headers_from_str, get_header,
  get_cookie, set_header,
}

-- Every name is in lower case.
abbrev pub IsLower {ℓ} : {V : Type ℓ} → Dict V → Type 0
IsLower = All (λ entry. to_lowercase_str entry.0 ≡ entry.0)

emplace-IsLower :
    (k v : Bytes) (m : Dict Bytes) → to_lowercase_str k ≡ k → IsLower m → IsLower (emplace k v m)
unfolding emplace
emplace-IsLower k v [] hk h = (hk, tt)
emplace-IsLower k v ((j, w) ∷ m) hk h = elim (Bool-cases (bytes_eq j k)) [
  | inl e ↦ rw e h
  | inr e ↦ rw e (h.0, emplace-IsLower k v m hk h.1)
]

ok-injective : (h h' : HttpHeaders) → ok h ≡ ok h' → h ≡ h'
ok-injective h h' e = cc

add_line-keeps :
    (line : Bytes) (h : HttpHeaders) {h' : HttpHeaders}
    → add_line line h ≡ ok h'
    → IsLower h.headers
    → IsLower h'.headers × (h'.cookies ≡ h.cookies)
unfolding add_line add_header
add_line-keeps line h {h'} e low = elim (Option-cases (find b':' (trim line))) [
  | inl lost ↦ absurd (ground arith)
  | inr (pos, found) ↦ elim (Bool-cases (ltb (length (trim line)) (pos + 2))) [
    | inl short ↦ absurd (ground arith)
    | inr long ↦
        let name = to_lowercase_str (take pos (trim line)) in
        let value = trim (drop (pos + 2) (trim line)) in
        elim (Bool-cases (bytes_eq name (codes "cookie"))) [
          | inl c ↦ let same : h ≡ h' = ground arith in rw (← same) (low, refl)
          | inr c ↦
              let same : record h { headers = emplace name value h.headers } ≡ h' = ground arith in
              rw (← same) (
                emplace-IsLower name value h.headers (to_lowercase_str_idem (take pos (trim line)))
                    low,
                refl,
              )
        ]
  ]
]

add_lines-keeps :
    (lines : List Bytes) (h : HttpHeaders) {h' : HttpHeaders}
    → add_lines lines h ≡ ok h'
    → IsLower h.headers
    → IsLower h'.headers × (h'.cookies ≡ h.cookies)
unfolding add_lines
add_lines-keeps [] h e low = rw (sym (ok-injective h _ e)) (low, refl)
add_lines-keeps (line ∷ lines) h {h'} e low =
    let (mid, first, later) = >>=-eq-ok (add_line line h) (add_lines lines) e in
    let (low', same) = add_line-keeps line h first low in
    let (low'', same') = add_lines-keeps lines mid later low' in (low'', same' ∙ same)

parsed :
    (raw : Bytes) {h : HttpHeaders}
    → extract_headers_from_str raw no_headers ≡ ok h
    → IsLower h.headers × (h.cookies ≡ [])
unfolding extract_headers_from_str
parsed raw {h} e = elim (Bool-cases (is_empty raw)) [
  | inl empty ↦
      rw (← ok-injective no_headers h (rw (empty, extract_headers_from_str) at e)) (tt, refl)
  | inr full ↦
      add_lines-keeps (get_lines raw) no_headers (rw (full, extract_headers_from_str) at e) tt
]

-- Whatever headers are parsed, a Cookie header among them included, no cookie is stored: `get_cookie`
-- finds none under any name.
pub get_cookie-parsed :
    (raw name : Bytes) {h : HttpHeaders}
    → extract_headers_from_str raw no_headers ≡ ok h
    → get_cookie name h ≡ none
unfolding get_cookie lookup
get_cookie-parsed raw name e = rw ((parsed raw e).1) refl

-- `get_header` ignores the case of its argument, but `set_header` stores the name as it is given: a
-- value that is stored under a lower-case name is found under that name in any case and changes no
-- other lookup; a value stored under any other name is found by no lookup at all.
pub get_header-set_header :
    (name value query : Bytes) (h : HttpHeaders)
    → get_header query (set_header name value h) ≡ (
        if bytes_eq name (to_lowercase_str name) && bytes_eq name (to_lowercase_str query)
        then some value
        else get_header query h)
unfolding get_header set_header
get_header-set_header name value query h =
    let low : Bytes = to_lowercase_str query in
    ground (
      arith,
      lookup-assign name low value h.headers,
      bytes_eq_iff name low,
      bytes_eq_iff name (to_lowercase_str name),
      to_lowercase_str_idem query,
      λ (e : name ≡ low). ap to_lowercase_str e,
    )
