-- ===== src/HttpQuery/Tests.antt =====
-- server/HttpQuery.cpp at inputs like those of tests/httprequest_test.cpp, with the witnesses.
use web_library.Base.{
  [], ◌∷◌, ◌≡◌, refl, codes, throw, query_error, pos, find, find_str, lookup, emplace, split, stoi,
  bytes_eq, List, All, lacks_sound, lacks, true, Bytes, ◌++◌, arith, ok,
}
use web_library.Utils.{to_lowercase_str}
use web_library.HttpQuery.Parts.{
  Part, fixed, hole, Pair, hole_pair, IsPart, IsPair, IsQueryText, part_names, pair_names,
  template_text,
}
use web_library.HttpQuery.Parse.{
  before_version, values, first_assigned, get_query-parse_from_string,
}
use web_library.HttpQuery.{or_empty, HttpQuery, no_query, parse_from_string, get_query, as_int}

query_tests :
    (parse_from_string
        (codes "GET /dash/42?page=1&m=55 HTTP/1.1\r\n\r\n")
        (codes "user" ∷ codes "page" ∷ codes "m" ∷ [])
        (codes "/dash/{user}?page={page}&m={m}")
        no_query
      ≡ ok (record {
        parameters =
            (codes "user", codes "42") ∷ (codes "page", codes "1") ∷ (codes "m", codes "55") ∷ [];
      }))
    × (parse_from_string
          (codes "GET /42 HTTP/1.1\r\n\r\n")
          (codes "user" ∷ [])
          (codes "/{user}")
          no_query
        ≡ throw query_error)
    × (as_int (get_query (codes "USER") (record { parameters = (codes "user", codes "42") ∷ [] }))
        ≡ ok (pos 42))
    × (parse_from_string
          (codes "GET /aHTTP?x=1 HTTP/1.1\r\n\r\n")
          (codes "x" ∷ [])
          (codes "/a?x={x}")
          no_query
        ≡ throw query_error)
unfolding parse_from_string find find_str emplace split lookup stoi get_query as_int
    to_lowercase_str bytes_eq
query_tests = (refl, refl, refl, refl)

abbrev parts : List Part
parts = fixed (codes "dash") ∷ hole (codes "user") (codes "42") ∷ []

abbrev pairs : List Pair
pairs = hole_pair (codes "page") (codes "page") (codes "page") (codes "1") ∷ []

parts-IsPart : All IsPart parts
parts-IsPart = (
  (
    (lacks_sound b'/' (codes "dash") refl, lacks_sound b'?' (codes "dash") refl),
    lacks_sound b'{' (codes "dash") refl,
  ),
  (
    (
      (lacks_sound b'/' (codes "user") refl, lacks_sound b'?' (codes "user") refl),
      (lacks_sound b'/' (codes "42") refl, lacks_sound b'?' (codes "42") refl),
    ),
    tt,
  ),
)

is_word : (s : Bytes) → lacks b'&' s ≡ true → lacks b'=' s ≡ true → IsQueryText s
is_word s a b = (lacks_sound b'&' s a, lacks_sound b'=' s b)

pairs-IsPair : All IsPair pairs
pairs-IsPair =
    let page = is_word (codes "page") refl refl in
    ((page, page, page, is_word (codes "1") refl refl), tt)

get_query-parse_from_string_example :
    (q : HttpQuery) × (parse_from_string
        (before_version (codes "GET") parts pairs ++ codes "HTTP/1.1\r\n\r\n")
        (part_names parts ++ pair_names pairs)
        (b'/' ∷ template_text parts pairs)
        no_query
      ≡ ok q)
    × (get_query (codes "User") q ≡ record {
      content = or_empty (first_assigned (to_lowercase_str (codes "User")) (values parts pairs));
    })
unfolding find_str
get_query-parse_from_string_example =
    get_query-parse_from_string (codes "GET") parts pairs (codes "HTTP/1.1\r\n\r\n") (codes "User")
      (lacks_sound b'/' (codes "GET") refl) parts-IsPart pairs-IsPair (λ e. cc) (λ e. cc) refl
      (omega arith)
