-- ===== src/HttpRequest/Tests.antt =====
-- server/HttpRequest.cpp at messages like those of tests/httprequest_test.cpp.
use web_library.Base.{
  ℕ, [], ◌∷◌, ◌≡◌, ◌≢◌, refl, codes, some, none, ok, throw, Bytes, All, List, arith, lacks_sound,
  header_parsing_error, is_some, if◌then◌else◌, find, find_str, emplace, split, lookup, is_space,
}
use web_library.Json.{JsonLib}
use web_library.Utils.{to_lowercase_str}
use web_library.HttpHeaders.Parse.{Header, first_value}
use web_library.HttpQuery.{HttpQuery, parse_from_string}
use web_library.HttpRequest.{HttpRequest, new_request, get_header}
use web_library.HttpRequest.Lines.{IsLine}
use web_library.HttpRequest.Message.{message, IsMessageHeader, new_request-message}
use web_library.HttpRequest.Cuts.{start_line}

abbrev line : Bytes
line = start_line (codes "POST") (codes "/dash/42?page=1") (codes "1.1")

abbrev json_type : Header
json_type = (codes "Content-Type", codes "application/json")

line-IsLine : IsLine line
line-IsLine = (λ e. cc, lacks_sound 13 line refl)

json_type-IsMessageHeader : All IsMessageHeader (json_type ∷ [])
unfolding is_space
json_type-IsMessageHeader = (
  (
    (
      refl,
      lacks_sound b':' json_type.0 refl,
      lacks_sound b'\n' json_type.0 refl,
      (λ e. cc),
      (refl, refl),
      lacks_sound b'\n' json_type.1 refl,
    ),
    lacks_sound b'\r' (codes "Content-Type: application/json") refl,
  ),
  tt,
)

abbrev query : HttpQuery
query = record { parameters = (codes "user", codes "42") ∷ (codes "page", codes "1") ∷ [] }

abbrev template : Bytes
template = codes "/dash/{user}?page={page}"

abbrev names : List Bytes
names = codes "user" ∷ codes "page" ∷ []

abbrev body : Bytes
body = codes "{}"

new_request-message_example :
    (r : HttpRequest) × (new_request (message line (json_type ∷ []) body) template names ≡ ok r)
    × (r.method ≡ codes "POST")
    × (r.version ≡ codes "1.1")
    × (r.body ≡ body)
    × (r.query ≡ query)
    × ((name : Bytes) → get_header name r ≡ first_value (to_lowercase_str name) (json_type ∷ []))
unfolding parse_from_string find find_str split emplace web_library.Base.bytes_eq
new_request-message_example =
    new_request-message (codes "POST") (codes "/dash/42?page=1") (codes "1.1") json_type [] body
      template names query (lacks_sound 32 (codes "POST") refl)
      (lacks_sound b'/' (codes "1.1") refl) line-IsLine json_type-IsMessageHeader (omega arith) refl

abbrev json : JsonLib
json = record { Value = Bytes; object = λ members. codes "{}"; write_string = λ v. v; parse = some }
