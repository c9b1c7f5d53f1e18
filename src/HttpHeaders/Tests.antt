-- ===== src/HttpHeaders/Tests.antt =====
-- server/HttpHeaders.cpp at header sections.
use web_library.Base.{
  [], ◌∷◌, ◌≡◌, refl, codes, ok, throw, undefined, Bytes, header_parsing_error, bytes_eq, get_lines,
  find, emplace, split,
}
use web_library.Utils.{to_lowercase_str, trim}
use web_library.Cookie.{cookie}
use web_library.HttpHeaders.{HttpHeaders, no_headers, extract_headers_from_str, parse_cookie}

abbrev stored : HttpHeaders
stored = record { headers = (codes "host", codes "x") ∷ []; cookies = [] }

abbrev section : Bytes
section = codes "Host: x\r\nCookie: a=1"

-- The value loses its first byte where no space stands behind the ':'.
header_tests :
    (extract_headers_from_str section no_headers ≡ ok stored)
    × (extract_headers_from_str (codes "Host:xy") no_headers
        ≡ ok (record { headers = (codes "host", codes "y") ∷ []; cookies = [] }))
    × (extract_headers_from_str (codes "Host:") no_headers ≡ undefined)
    × (extract_headers_from_str (codes "Host") no_headers ≡ throw header_parsing_error)
    × (parse_cookie (codes "a=1; B=2") no_headers ≡ record {
      headers = [];
      cookies =
          (codes "a", cookie (codes "a") (codes "1"))
          ∷ (codes "b", cookie (codes "B") (codes "2"))
          ∷ [];
    })
unfolding extract_headers_from_str get_lines find emplace trim to_lowercase_str bytes_eq
    parse_cookie split
header_tests = (refl, refl, refl, refl, refl)
