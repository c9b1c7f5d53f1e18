-- ===== src/HttpResponse/Tests.antt =====
-- server/HttpResponse.cpp at a response with a cookie.
use web_library.Base.{
  ℕ, [], ◌∷◌, ◌++◌, ◌≡◌, ◌+◌, refl, codes, ok, Bytes, All, arith, lacks_sound, take, drop, find_str,
  true, pos, some, contains, bytes_eq, print_nat, print_int, is_space,
}
use web_library.Utils.{to_lowercase_str}
use web_library.Socket.{Socket, sent, would_block, send_failed, returned}
use web_library.HttpHeaders.{HttpHeaders, get_header}
use web_library.HttpHeaders.Parse.{first_value}
use web_library.HttpRequest.{crnlcrnl, extract_headers}
use web_library.HttpRequest.Message.{IsMessageHeader}
use web_library.HttpResponse.{HttpResponse, to_string, respond}
use web_library.HttpResponse.Framing.{all_headers}
use web_library.HttpResponse.Read.{to_string_read}
use web_library.HttpResponse.Respond.{respond-prefix, respond-whole}

abbrev page : HttpResponse
page = record {
  headers = (codes "Content-Type", codes "text/plain") ∷ [];
  body = codes "hello";
  status_code = pos 200;
  status_message = codes "OK";
  http_version = codes "1.1";
}

to_string_tests :
    to_string page
    ≡ codes "HTTP/1.1 200 OK\r\nContent-Type: text/plain\r\nContent-Length: 5\r\n\r\nhello"
unfolding to_string print_nat print_int contains bytes_eq
to_string_tests = refl

page-IsMessageHeader : All IsMessageHeader page.headers
unfolding is_space
page-IsMessageHeader = (
  (
    (
      refl,
      lacks_sound b':' (codes "Content-Type") refl,
      lacks_sound b'\n' (codes "Content-Type") refl,
      (λ e. cc),
      (refl, refl),
      lacks_sound b'\n' (codes "text/plain") refl,
    ),
    lacks_sound b'\r' (codes "Content-Type: text/plain") refl,
  ),
  tt,
)

to_string_read_example :
    (n : ℕ) × (h : HttpHeaders) × (find_str crnlcrnl (to_string page) ≡ some n)
    × (drop (n + 4) (to_string page) ≡ codes "hello")
    × (extract_headers (to_string page) ≡ ok h)
    × ((name : Bytes) → get_header name h ≡ first_value (to_lowercase_str name) (all_headers page))
unfolding to_string print_nat print_int contains bytes_eq
to_string_read_example =
    to_string_read page page-IsMessageHeader (lacks_sound b'\r' (codes "1.1") refl)
      (lacks_sound b'\r' (codes "OK") refl) (omega arith)

-- The page in two pieces, with a wait between them.
abbrev slow : Socket
slow = record { wire = codes "x"; events = sent 10 ∷ would_block true ∷ sent 90 ∷ [] }

respond-whole_example :
    ((respond page slow).0 ≡ returned tt)
    × ((respond page slow).1.wire ≡ codes "x" ++ to_string page)
unfolding to_string print_nat print_int contains bytes_eq
respond-whole_example = respond-whole page slow (tt, (refl, (tt, tt))) (omega arith)

abbrev broken : Socket
broken = record { wire = []; events = sent 10 ∷ send_failed ∷ [] }

respond-prefix_example : (k : ℕ) × ((respond page broken).1.wire ≡ [] ++ take k (to_string page))
respond-prefix_example = respond-prefix page broken
