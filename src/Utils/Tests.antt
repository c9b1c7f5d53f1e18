-- ===== src/Utils/Tests.antt =====
-- server/utils.cpp at the inputs of tests/utils_test.cpp and at others, with the witnesses.
use web_library.Base.{
  [], ◌∷◌, ◌≡◌, refl, codes, ok, throw, runtime_error, find, List, All, Bytes, map, ◌≢◌, ◌↔◌,
}
use web_library.Utils.Template.{Piece, byte, hole, render, blank, IsPiece, process_url_str_iff}
use web_library.Utils.RequestLine.{IsRequestLine, parse_request_line_iff}
use web_library.Utils.{
  ill_formed, process_url_str, extract_params, to_lowercase_str, trim, parse_request_line,
}

process_tests :
    (process_url_str (codes "/smth/{id}?name=pidor") ≡ ok (codes "/smth/{}?name=pidor"))
    × (process_url_str (codes "/smth/{}/{}?name={name}&x={fag}")
        ≡ ok (codes "/smth/{}/{}?name={}&x={}"))
    × (process_url_str (codes "/{id") ≡ throw (runtime_error (codes "Ill-formed template path")))
unfolding process_url_str find
process_tests = (refl, refl, refl)

extract_tests :
    (extract_params (codes "/smth/{id1}/{id2}?name={name}")
      ≡ codes "id1" ∷ codes "id2" ∷ codes "name" ∷ [])
    × (extract_params (codes "/}{a}") ≡ codes "a}" ∷ codes "a" ∷ [])
unfolding extract_params find
extract_tests = (refl, refl)

text_tests :
    (to_lowercase_str (codes "FuCk-Me") ≡ codes "fuck-me")
    × (trim (codes " a b \r") ≡ codes "a b")
    × (parse_request_line (codes "GET /a?b=c HTTP/1.1") ≡ ok (codes "GET", codes "/a?b=c"))
unfolding to_lowercase_str trim parse_request_line find
text_tests = (refl, refl, refl)

process_url_str_iff_example :
    ((process_url_str (codes "/{id}") ≡ ok (codes "/{}")) ↔ (
      (ps : List Piece) × All IsPiece ps
      × (codes "/{id}" ≡ render ps)
      × (codes "/{}" ≡ render (map blank ps))))
    × ((process_url_str (codes "/{id}") ≡ throw (runtime_error (codes "Ill-formed template path")))
        ↔ ((ps : List Piece) → All IsPiece ps → codes "/{id}" ≢ render ps))
process_url_str_iff_example = process_url_str_iff (codes "/{id}") (codes "/{}")

abbrev pieces : List Piece
pieces = byte b'/' ∷ hole (codes "id") ∷ byte b'/' ∷ hole [] ∷ []

parse_request_line_iff_example :
    ((parse_request_line (codes "GET /a HTTP/1.1") ≡ ok (codes "GET", codes "/a"))
      ↔ IsRequestLine (codes "GET /a HTTP/1.1") (codes "GET") (codes "/a"))
    × ((parse_request_line (codes "GET /a HTTP/1.1") ≡ ill_formed)
        ↔ ((m p : Bytes) → ¬ IsRequestLine (codes "GET /a HTTP/1.1") m p))
parse_request_line_iff_example =
    parse_request_line_iff (codes "GET /a HTTP/1.1") (codes "GET") (codes "/a")
