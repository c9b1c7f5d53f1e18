-- ===== src/HttpRouter/Tests.antt =====
-- server/HttpRouter.cpp at requests to a small table of endpoints.
use web_library.Base.{
  ℕ, [], ◌∷◌, ◌++◌, ◌≡◌, ◌≢◌, ◌⊎◌, inl, inr, refl, codes, true, false, some, none, ok, throw, Bytes,
  Exception, runtime_error, header_parsing_error, what, All, arith, find, find_str, find_last_of,
  lookup, contains, emplace, bytes_eq, get_lines, substr, split, print_nat, print_int, stoi, pos,
}
use web_library.Json.{JsonLib, error_response}
use web_library.RequestType.{get, type_eq}
use web_library.Utils.{trim, to_lowercase_str}
use web_library.Socket.{Socket, sent}
use web_library.HttpRequest.{HttpRequest, new_request}
use web_library.HttpHeaders.{extract_headers_from_str}
use web_library.HttpQuery.{parse_from_string}
use web_library.HttpResponse.{
  new_response, set_status, set_body_json, set_content_type, to_string, respond,
}
use web_library.HttpHandle.{HttpHandle, Handler, has_method}
use web_library.HttpBinder.{HttpBinder, find_handle, match_path, split_path}
use web_library.HttpRouter.{forbidden, error_page, handle_request}
use web_library.HttpRouter.Branches.{Answered, handle_request-refused}
use web_library.HttpRouter.Failed.{error_bytes, says_header, handle_request-failed}
use web_library.Socket.{returned}

abbrev json : JsonLib
json = record { Value = Bytes; object = λ members. codes "{}"; write_string = λ v. v; parse = some }

abbrev client : Socket
client = record { wire = []; events = sent 1000 ∷ [] }

abbrev say_ok : Handler
say_ok req = respond (set_status (pos 200) new_response)

-- Two endpoints; the second has a filter that lets GET requests pass, and one that refuses all.
abbrev open_handle : HttpHandle
open_handle = record {
  methods = get ∷ [];
  filters = (λ req. ok true) ∷ [];
  parameters = [];
  path = codes "/a";
  handle = some say_ok;
}

abbrev closed_handle : HttpHandle
closed_handle = record {
  methods = get ∷ [];
  filters = (λ req. ok true) ∷ (λ req. ok false) ∷ [];
  parameters = [];
  path = codes "/b";
  handle = some say_ok;
}

abbrev table : HttpBinder
table = (codes "/a", open_handle) ∷ (codes "/b", closed_handle) ∷ []

abbrev request_a : Bytes
request_a = codes "GET /a HTTP/1.1\r\nHost: x\r\n\r\n"

abbrev request_b : Bytes
request_b = codes "GET /b HTTP/1.1\r\nHost: x\r\n\r\n"

abbrev parsed : HttpRequest
parsed = record {
  headers = record { headers = (codes "host", codes "x") ∷ []; cookies = [] };
  query = record { parameters = [] };
  method = codes "GET";
  body = [];
  version = codes "1.1";
}

handle_request-refused_example :
    Answered (forbidden json) client (handle_request json table (codes "/b") request_b get client)
unfolding find_handle has_method match_path split_path new_request substr bytes_eq find find_str
    find_last_of get_lines trim to_lowercase_str extract_headers_from_str emplace parse_from_string
    forbidden error_page new_response set_status set_body_json set_content_type error_response
    to_string contains lookup print_nat print_int type_eq split web_library.Base.assign
handle_request-refused_example =
    handle_request-refused json table (codes "/b") request_b get client closed_handle parsed
      ((λ req. ok true) ∷ []) (λ req. ok false) [] refl refl refl (refl, tt) refl
      ((tt, tt), omega arith)

handle_request-failed_example :
    let r = handle_request json table (codes "/a") (codes "GET /a HTTP/1.1\r\n\r\n") get client in
    (r.0 ≡ returned tt) × (r.1.wire ≡ error_bytes json (codes "Header is ill-formed"))
unfolding find_handle has_method match_path split_path new_request substr bytes_eq find find_str
    find_last_of get_lines trim to_lowercase_str extract_headers_from_str emplace parse_from_string
    contains lookup print_nat print_int type_eq split web_library.Base.assign
handle_request-failed_example =
    handle_request-failed json table (codes "/a") (codes "GET /a HTTP/1.1\r\n\r\n") get client
      open_handle header_parsing_error (codes "Header is ill-formed") refl (inl refl) says_header
      (tt, tt) (omega arith)
