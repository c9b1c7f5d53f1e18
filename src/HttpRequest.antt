-- ===== src/HttpRequest.antt =====
-- include/weblib/server/HttpRequest.hpp and server/HttpRequest.cpp: a request and its parts.
pub mod Lines
pub mod Cuts
pub mod Message
pub mod Bare
mod Tests
use web_library.Base.{
  ℕ, ◌+◌, List, [], ◌∷◌, Option, none, some, Bytes, codes, npos, size_of, add64, sub64, find,
  find_str, find_last_of, if◌then◌else◌, Result, ok, throw, undefined, ◌>>=◌, substr, contains,
}
use web_library.Consts.HeaderConsts
use web_library.Consts.HttpConsts
use web_library.Json.{JsonLib}
use web_library.Cookie.{Cookie}
use web_library.RequestType.{RequestType, req_type_from_str}
use web_library.HttpHeaders.{HttpHeaders, no_headers, extract_headers_from_str}
use web_library.HttpQuery.{HttpQuery, Query, no_query, parse_from_string}
use web_library.HttpHeaders
use web_library.HttpQuery

pub record HttpRequest : Type 0 where
  pub headers : HttpHeaders
  pub query : HttpQuery
  pub method : Bytes
  pub body : Bytes
  pub version : Bytes

abbrev pub crnl : Bytes
crnl = HttpConsts.crnl

abbrev pub crnlcrnl : Bytes
crnlcrnl = HttpConsts.crnlcrnl

-- The positions are size_t, also where `find` gave npos.
unfoldable pub extract_headers : Bytes → Result HttpHeaders
extract_headers raw_http =
    let header_start_pos = add64 (size_of (find_str crnl raw_http)) 2 in
    let header_end_pos = size_of (find_str crnlcrnl raw_http) in
    substr raw_http header_start_pos (sub64 header_end_pos header_start_pos) >>= λ headers_section.
    extract_headers_from_str headers_section no_headers

unfoldable pub extract_queries : Bytes → Bytes → List Bytes → Result HttpQuery
extract_queries raw_http path pnames = parse_from_string raw_http pnames path no_query

-- The constructor HttpRequest(raw_http, path, pnames).
unfoldable pub new_request : Bytes → Bytes → List Bytes → Result HttpRequest
unfolding extract_headers extract_queries
new_request raw_http path pnames = do
  headers ← extract_headers raw_http
  query ← extract_queries raw_http path pnames
  method ← substr raw_http 0 (size_of (find 32 raw_http))
  body ← substr raw_http (add64 (size_of (find_str crnlcrnl raw_http)) 4) npos
  line ← substr raw_http 0 (size_of (find_str crnl raw_http))
  version ← substr line (add64 (size_of (find_last_of b'/' line)) 1) npos
  ok (record { headers = headers; query = query; method = method; body = body; version = version })

unfoldable pub get_query : Bytes → HttpRequest → Query
get_query query_name r = HttpQuery.get_query query_name r.query

unfoldable pub get_header : Bytes → HttpRequest → Option Bytes
get_header header_name r = HttpHeaders.get_header header_name r.headers

unfoldable pub get_cookie : Bytes → HttpRequest → Option Cookie
get_cookie name r = HttpHeaders.get_cookie name r.headers

unfoldable pub get_method : HttpRequest → RequestType
get_method r = req_type_from_str r.method

unfoldable pub set_header : Bytes → Bytes → HttpRequest → HttpRequest
set_header name value r = record r { headers = HttpHeaders.set_header name value r.headers }

-- The test is for a header whose name is "application/json".
unfoldable pub body_as_json : (json : JsonLib) → HttpRequest → Option json.Value
body_as_json json r =
    if contains HeaderConsts.content_type_app_json r.headers.headers
    then json.parse r.body
    else none
