-- ===== src/HttpServer/Chunks/Calls.antt =====
-- server/HttpServer.cpp: the calls of `read_request` on one connection, against the counts of bytes.
use web_library.Base.{
  ◌^◌, ◌<◌, List, [], ◌∷◌, ◌++◌, true, false, Bytes, length, length-append, ltb, ℤ, ok, All, ◌≡◌,
  refl, sym, ap, ◌∙◌, arith, append_assoc, map,
}
use web_library.HttpHeaders.Parse.{Header}
use web_library.HttpRequest.Lines.{IsLine}
use web_library.HttpRequest.Message.{message, IsMessageHeader}
use web_library.HttpServer.{Client, ReadEvent, read_request}
use web_library.HttpServer.Read.{read_request-keeps, data_of, all_data, length_of}
use web_library.HttpServer.Chunks.{header_size, all_expected, answers, Reading}
use web_library.HttpServer.Chunks.Step.{read_step}

module _ (line : Bytes) (x : Header) (hs : List Header) (body : Bytes) (n : ℤ) (hl : IsLine line)
    (hh : All IsMessageHeader (x ∷ hs)) (bound : length (message line (x ∷ hs) body) < 2 ^ 64)
    (small : length body < 2 ^ 31) (len : length_of (x ∷ hs) ≡ ok n) where
  answers-Reading :
      (events : List ReadEvent) (c : Client) (rest : Bytes)
      → Reading line x hs body n (all_data events ++ rest) c
      → answers events c
        ≡ map ok (all_expected (header_size line (x ∷ hs)) n (length c.raw_http) events)
  answers-Reading [] c rest reading = refl
  answers-Reading (event ∷ events) c rest reading =
      let later = all_data events ++ rest in
      let reading' : Reading line x hs body n (data_of event ++ later) c = (
        sym (ap (λ t. c.raw_http ++ t) (append_assoc (data_of event) (all_data events) rest))
            ∙ reading.0,
        reading.1,
        reading.2,
      ) in
      let (same, next) = read_step line x hs body n hl hh bound small len event c later reading' in
      let more = answers-Reading events (read_request event c).1 rest next in
      let size =
        ap length (read_request-keeps event c) ∙ length-append c.raw_http (data_of event) in
      rw (same, more, size)

  pub begun :
      (c : Client) (rest : Bytes)
      → c.raw_http ≡ []
      → c.is_in_body ≡ false
      → rest ≡ message line (x ∷ hs) body
      → Reading line x hs body n rest c
  begun c rest fresh out whole =
      let short : ltb 0 (header_size line (x ∷ hs)) ≡ true = ground arith in
      (ap (λ t. t ++ rest) fresh ∙ whole, out ∙ rw (fresh, short) refl, λ e. absurd (cc))

  -- However the bytes of a message, or the first of them, are spread over reads, read_request answers each
  -- read as the counts of bytes tell. One that would block asks for more; one that finds the end of the
  -- stream or fails says so. Of those that give bytes, each that leaves the header section incomplete asks
  -- for more; the one that completes it ends the request if the Content-Length n is zero, and asks for more
  -- if not; and each later one ends it if at least n bytes have come behind the header section, and asks
  -- for more if not. The message has a header, its headers are well-formed, n is what the server takes for
  -- its Content-Length, it is below 2 ^ 64 bytes, with fewer than 2 ^ 31 behind the header section, and the
  -- client is one that has read nothing.
  pub answers-expected :
      (events : List ReadEvent) (c : Client) (rest : Bytes)
      → c.raw_http ≡ []
      → c.is_in_body ≡ false
      → all_data events ++ rest ≡ message line (x ∷ hs) body
      → answers events c ≡ map ok (all_expected (header_size line (x ∷ hs)) n 0 events)
  answers-expected events c rest fresh out whole =
      answers-Reading events c rest (begun c (all_data events ++ rest) fresh out whole)
      ∙ ap (λ t. map ok (all_expected (header_size line (x ∷ hs)) n (length t) events)) fresh
