-- ===== src/HttpHeaders.antt =====
-- include/weblib/server/HttpHeaders.hpp and server/HttpHeaders.cpp: the headers and the cookies of a
-- request. Logging is left out.
pub mod Parse
pub mod Lookup
mod Tests
use web_library.Base.{
  ℕ, suc, ◌+◌, List, [], ◌∷◌, Bool, true, false, Option, none, some, Bytes, codes, take, drop,
  length, ltb, find, is_empty, if◌then◌else◌, Result, ok, throw, undefined, header_parsing_error,
  ◌>>=◌, map, split, get_lines, Dict, lookup, emplace, assign, bytes_eq,
}
use web_library.Consts.HeaderConsts
use web_library.Utils.{trim, to_lowercase_str}
use web_library.Cookie.{Cookie, cookie}

pub record HttpHeaders : Type 0 where
  pub headers : Dict Bytes
  pub cookies : Dict Cookie

abbrev pub no_headers : HttpHeaders
no_headers = record { headers = []; cookies = [] }

-- One cookie of `parse_cookie`, cut at its '=' signs.
add_cookie : List Bytes → HttpHeaders → HttpHeaders
add_cookie (name ∷ value ∷ []) h = record h {
  cookies = emplace (to_lowercase_str name) (cookie name value) h.cookies;
}
add_cookie _ h = h

add_cookies : List Bytes → HttpHeaders → HttpHeaders
add_cookies [] h = h
add_cookies (pair ∷ pairs) h = add_cookies pairs (add_cookie (split b'=' pair) h)

unfoldable pub parse_cookie : Bytes → HttpHeaders → HttpHeaders
unfolding add_cookies add_cookie
parse_cookie text h = add_cookies (map trim (split b';' text)) h

-- A trimmed header of `extract_headers_from_str`. The value begins two bytes behind the ':'; where
-- the header ends before that, the range of the std::string constructor is not valid. A header named
-- "cookie" is dropped: the branch for it is empty.
add_header : Bytes → HttpHeaders → Result HttpHeaders
add_header header h = elim (find b':' header) [
  | none ↦ throw header_parsing_error
  | some pos ↦
      if ltb (length header) (pos + 2)
      then undefined
      else (let lc_name = to_lowercase_str (take pos header) in
          let value = trim (drop (pos + 2) header) in
          ok (
            if bytes_eq lc_name HeaderConsts.cookie_header
            then h
            else record h { headers = emplace lc_name value h.headers }))
]

-- The loop over the lines, each of which loses its carriage return by `trim`.
add_line : Bytes → HttpHeaders → Result HttpHeaders
add_line line h = add_header (trim line) h

add_lines : List Bytes → HttpHeaders → Result HttpHeaders
add_lines [] h = ok h
add_lines (line ∷ lines) h = add_line line h >>= add_lines lines

unfoldable pub extract_headers_from_str : Bytes → HttpHeaders → Result HttpHeaders
unfolding add_lines add_line add_header
extract_headers_from_str raw_headers h =
    if is_empty raw_headers then ok h else add_lines (get_lines raw_headers) h

unfoldable pub get_header : Bytes → HttpHeaders → Option Bytes
get_header header_name h = lookup (to_lowercase_str header_name) h.headers

unfoldable pub get_cookie : Bytes → HttpHeaders → Option Cookie
get_cookie name h = lookup (to_lowercase_str name) h.cookies

unfoldable pub set_header : Bytes → Bytes → HttpHeaders → HttpHeaders
set_header name value h = record h { headers = assign name value h.headers }
