-- ===== src/HttpResponse.antt =====
-- include/weblib/server/types.hpp, include/weblib/server/HttpResponse.hpp and server/HttpResponse.cpp:
-- a response, its print, and its way to the socket.
pub mod Status
pub mod Builder
pub mod Headers
pub mod Framing
pub mod Read
pub mod Respond
mod Tests
use web_library.Base.{
  ℕ, ◌+◌, List, [], ◌∷◌, ◌++◌, Bool, true, false, Bytes, codes, length, drop, take, ltb, ◌==◌,
  bytes_eq, if◌then◌else◌, Dict, contains, assign, erase, Result, ok, throw, runtime_error,
  writing_socket_error, ◌>>=◌, ℤ, pos, negsuc, print_int, print_nat,
}
use web_library.Consts.HttpConsts
use web_library.Consts.HeaderConsts
use web_library.Json.{JsonLib}
use web_library.Cookie.{Cookie}
use web_library.Cookie
use web_library.Socket.{
  Socket, SendEvent, sent, would_block, send_failed, Outcome, returned, thrown, waiting, M,
}

pub data HeaderType : Type 0 where
  content_type content_length cache_control expires set_cookie_header location server accept :
      HeaderType
  user_agent host accept_language : HeaderType

pub data ContentType : Type 0 where
  html json_type text xml css js jpeg png gif pdf csv form : ContentType

pub record HttpResponse : Type 0 where
  pub headers : Dict Bytes
  pub body : Bytes
  pub status_code : ℤ
  pub status_message : Bytes
  pub http_version : Bytes

abbrev pub content_type_name : Bytes
content_type_name = HeaderConsts.content_type

abbrev pub content_length_name : Bytes
content_length_name = HeaderConsts.content_length

abbrev pub set_cookie_name : Bytes
set_cookie_name = HeaderConsts.set_cookie

-- `HttpResponse{}`
unfoldable pub new_response : HttpResponse
new_response = record {
  headers = (content_type_name, HeaderConsts.content_type_text_plain) ∷ [];
  body = [];
  status_code = pos 200;
  status_message = HttpConsts.status_ok;
  http_version = HttpConsts.http_version;
}

print_headers : Dict Bytes → Bytes
print_headers [] = []
print_headers ((name, value) ∷ hs) =
    name ++ (codes ": " ++ (value ++ (codes "\r\n" ++ print_headers hs)))

unfoldable pub to_string : HttpResponse → Bytes
unfolding print_headers
to_string r =
    ((HttpConsts.http ++ codes "/")
      ++ (r.http_version
          ++ (32 ∷ (print_int r.status_code ++ (32 ∷ (r.status_message ++ codes "\r\n"))))))
    ++ (print_headers r.headers
        ++ ((if contains content_length_name r.headers
              then []
              else (HeaderConsts.content_length ++ codes ": ")
                ++ (print_nat (length r.body) ++ codes "\r\n"))
            ++ (codes "\r\n" ++ r.body)))

-- set_header(const std::string &, value)
unfoldable pub set_header : Bytes → Bytes → HttpResponse → Result HttpResponse
set_header name value r =
    if bytes_eq name set_cookie_name
    then throw (runtime_error (codes "Use add_cookie() instead!"))
    else ok (record r { headers = assign name value r.headers })

unfoldable pub set_cookie : Cookie → HttpResponse → Result HttpResponse
set_cookie c r = Cookie.to_string c >>= λ cookie_str.
    ok (record r { headers = assign set_cookie_name cookie_str r.headers })

unfoldable pub header_name : HeaderType → Bytes
header_name content_type = content_type_name
header_name content_length = content_length_name
header_name cache_control = HeaderConsts.cache_control
header_name expires = HeaderConsts.expires
header_name set_cookie_header = set_cookie_name
header_name location = HeaderConsts.location
header_name server = HeaderConsts.server
header_name accept = HeaderConsts.accept
header_name user_agent = HeaderConsts.user_agent
header_name host = HeaderConsts.host
header_name accept_language = HeaderConsts.accept_language

-- set_header(HeaderType, value); every value of the enumeration has its case
unfoldable pub set_header_type : HeaderType → Bytes → HttpResponse → HttpResponse
unfolding header_name
set_header_type header_type value r = record r {
  headers = assign (header_name header_type) value r.headers;
}

unfoldable pub remove_header : Bytes → HttpResponse → HttpResponse
remove_header name r = record r { headers = erase name r.headers }

unfoldable pub content_name : ContentType → Bytes
content_name html = HeaderConsts.content_type_text_html
content_name json_type = HeaderConsts.content_type_app_json
content_name text = HeaderConsts.content_type_text_plain
content_name xml = HeaderConsts.content_type_app_xml
content_name css = HeaderConsts.content_type_text_css
content_name js = HeaderConsts.content_type_app_javascript
content_name jpeg = HeaderConsts.content_type_image_jpeg
content_name png = HeaderConsts.content_type_image_png
content_name gif = HeaderConsts.content_type_image_gif
content_name pdf = HeaderConsts.content_type_app_pdf
content_name csv = HeaderConsts.content_type_text_csv
content_name form = HeaderConsts.content_type_app_encoded

unfoldable pub set_content_type : ContentType → HttpResponse → HttpResponse
unfolding content_name
set_content_type type r = record r {
  headers = assign content_type_name (content_name type) r.headers;
}

unfoldable pub set_body : Bytes → HttpResponse → HttpResponse
set_body new_body r = record r { body = new_body }

unfoldable pub set_body_json : (json : JsonLib) → json.Value → HttpResponse → HttpResponse
set_body_json json value r = record r { body = json.write_string value }

unfoldable pub status_text : ℕ → Bytes
status_text n =
    if n == 200
    then HttpConsts.status_ok
    else if n == 201
    then HttpConsts.status_created
    else if n == 204
    then HttpConsts.status_no_content
    else if n == 400
    then HttpConsts.status_bad_request
    else if n == 401
    then HttpConsts.status_unauthorized
    else if n == 403
    then HttpConsts.status_forbidden
    else if n == 404
    then HttpConsts.status_not_found
    else if n == 405
    then HttpConsts.status_method_not_allowed
    else if n == 500
    then HttpConsts.status_internal_server_error
    else if n == 502
    then HttpConsts.status_bad_gateway
    else if n == 503
    then HttpConsts.status_service_unavailable
    else if n == 504
    then HttpConsts.status_gateway_timeout
    else codes "Unknown"

abbrev pub status_message_of : ℤ → Bytes
status_message_of (pos n) = status_text n
status_message_of (negsuc n) = codes "Unknown"

unfoldable pub set_status : ℤ → HttpResponse → HttpResponse
unfolding status_text
set_status status_code r = record r {
  status_code = status_code;
  status_message = status_message_of status_code;
}

unfoldable pub set_version : Bytes → HttpResponse → HttpResponse
set_version http_ver r = record r { http_version = http_ver }

unfoldable pub set_custom_message : Bytes → HttpResponse → HttpResponse
set_custom_message msg r = record r { status_message = msg }

-- The loop of `respond`: what is written so far, and the events of the socket. It waits where the next
-- call of send() has not come back.
write_from : Bytes → ℕ → Bytes → List SendEvent → Outcome (Unit {0}) × Socket
write_from response total wire [] = (
  if ltb total (length response) then waiting else returned tt,
  record { wire = wire; events = [] },
)
write_from response total wire (e ∷ events) = elim (ltb total (length response)) [
  | true ↦ elim e [
    | sent n ↦ write_from response (total + n) (wire ++ take n (drop total response)) events
    | would_block true ↦ write_from response total wire events
    | would_block false ↦ (returned tt, record { wire = wire; events = events })
    | send_failed ↦ (thrown writing_socket_error, record { wire = wire; events = events })
  ]
  | false ↦ (returned tt, record { wire = wire; events = e ∷ events })
]

unfoldable pub respond : HttpResponse → M (Unit {0})
unfolding write_from
respond resp s = write_from (to_string resp) 0 s.wire s.events
