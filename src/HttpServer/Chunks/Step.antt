-- ===== src/HttpServer/Chunks/Step.antt =====
-- server/HttpServer.cpp: one call of `read_request`, by how far the message has come.
use web_library.Base.{
  ℕ, ◌+◌, ◌-◌, ◌^◌, ◌<◌, List, [], ◌∷◌, ◌++◌, Bool, true, false, not, ◌&&◌, none, some, Bytes,
  length, length-append, ltb, ℤ, pos, negsuc, find_str, find_str_cut, append_split, if◌then◌else◌,
  ok, Bool-cases, All, ◌≡◌, refl, sym, ap, ◌∙◌, arith, append_assoc, inl, inr, join, map, subst,
  npos,
}
use web_library.HttpHeaders.Parse.{Header, header_line}
use web_library.HttpRequest.{crnl, crnlcrnl}
use web_library.HttpRequest.Lines.{IsLine, find_end}
use web_library.HttpRequest.Message.{message, IsMessageHeader, headers-IsLine}
use web_library.HttpServer.{
  Client, State, read_more, end_of_connection, ReadEvent, received, would_block, read_failed,
  leb_int, is_zero, with_length, at_header, in_body, after_read, read_request,
}
use web_library.HttpServer.Read.{data_of, length_of, at_message}
use web_library.HttpServer.Verdict.{body_size}
use web_library.HttpServer.Chunks.{header_size, Reading, Stepped, expected}

leb_int-zero : (n : ℤ) (m : ℕ) → is_zero n ≡ true → leb_int n (pos m) ≡ true
unfolding leb_int is_zero
leb_int-zero (pos n) m h = ground arith
leb_int-zero (negsuc n) m h = absurd (cc)

header_mode :
    (below none_left mode : Bool)
    → mode ≡ (not below && not none_left)
    → mode ≡ false
    → none_left ≡ false
    → below ≡ true
header_mode true none_left mode e out left = refl
header_mode false none_left mode e out left = absurd (ground arith)

module _ (line : Bytes) (x : Header) (hs : List Header) (body : Bytes) (n : ℤ) (hl : IsLine line)
    (hh : All IsMessageHeader (x ∷ hs)) (bound : length (message line (x ∷ hs) body) < 2 ^ 64)
    (small : length body < 2 ^ 31) (len : length_of (x ∷ hs) ≡ ok n) where
  stepped :
      (c : Client) (event : ReadEvent) (rest : Bytes) (state : State) (c' : Client)
      → read_request event c ≡ (ok state, c')
      → expected (header_size line (x ∷ hs)) n (length c.raw_http) event ≡ state
      → Reading line x hs body n rest c'
      → Stepped line x hs body n rest event c
  stepped c event rest state c' read same reading = (
    ap (λ t. t.0) read ∙ ap ok (sym same),
    subst (Reading line x hs body n rest) (sym (ap (λ t. t.1) read)) reading,
  )

  before_header :
      (c : Client) (d : ℕ) (ds rest : Bytes)
      → Reading line x hs body n (d ∷ ds ++ rest) c
      → ltb (length (c.raw_http ++ d ∷ ds)) (header_size line (x ∷ hs)) ≡ true
      → Stepped line x hs body n rest (received (d ∷ ds)) c
  unfolding read_request after_read at_header
  before_header c d ds rest (whole, mode, in_it) short =
      let size = length-append c.raw_http (d ∷ ds) in
      let raw = c.raw_http ++ d ∷ ds in
      let lines = headers-IsLine (x ∷ hs) hh in
      let whole' : raw ++ rest ≡ message line (x ∷ hs) body =
        append_assoc c.raw_http (d ∷ ds) rest ∙ whole in
      let place = length (join crnl (line ∷ map header_line (x ∷ hs))) in
      let found : find_str crnlcrnl (raw ++ rest) ≡ some place =
        ap (find_str crnlcrnl) whole' ∙ find_end line (map header_line (x ∷ hs)) body (hl, lines) in
      let lost : find_str crnlcrnl raw ≡ none =
        find_str_cut crnlcrnl raw rest place found (ground arith) in
      let out : c.is_in_body ≡ false = ground arith in
      let c' : Client = record c { raw_http = raw; header_end_pos = npos } in
      let step : read_request (received (d ∷ ds)) c ≡ (ok read_more, c') =
        rw (out, read_request, after_read, lost, at_header) refl in
      let short' : ltb (length c.raw_http + length (d ∷ ds)) (header_size line (x ∷ hs)) ≡ true =
        ap (λ t. ltb t (header_size line (x ∷ hs))) (sym size) ∙ short in
      stepped c (received (d ∷ ds)) rest read_more c' step (rw short' refl)
        (whole', out ∙ ground arith, λ e. absurd (cc))

  -- What has come of a message whose header section is complete.
  prefix :
      (raw rest : Bytes)
      → raw ++ rest ≡ message line (x ∷ hs) body
      → ltb (length raw) (header_size line (x ∷ hs)) ≡ false
      → (z : Bytes) × (raw ≡ message line (x ∷ hs) z) × (body ≡ z ++ rest)
  prefix raw rest whole long =
      let front = join crnl (line ∷ map header_line (x ∷ hs)) in
      let (z, shape, tail) =
        append_split (front ++ crnlcrnl) body raw rest
          (append_assoc front crnlcrnl body ∙ sym whole)
          (ground (arith, length-append front crnlcrnl)) in
      (z, shape ∙ append_assoc front crnlcrnl z, tail)

  joined :
      (a ds rest z : Bytes)
      → a ++ (ds ++ rest) ≡ message line (x ∷ hs) body
      → a ++ ds ≡ message line (x ∷ hs) z
      → message line (x ∷ hs) z ++ rest ≡ message line (x ∷ hs) body
  joined a ds rest z whole shape = ap (λ t. t ++ rest) (sym shape) ∙ append_assoc a ds rest ∙ whole

  message_size :
      (z : Bytes) → length (message line (x ∷ hs) z) ≡ header_size line (x ∷ hs) + length z
  message_size z =
      omega (arith, length-append (join crnl (line ∷ map header_line (x ∷ hs))) (crnlcrnl ++ z))

  at_end :
      (c : Client) (d : ℕ) (ds rest z : Bytes)
      → Reading line x hs body n (d ∷ ds ++ rest) c
      → c.is_in_body ≡ false
      → c.raw_http ++ d ∷ ds ≡ message line (x ∷ hs) z
      → body ≡ z ++ rest
      → Stepped line x hs body n rest (received (d ∷ ds)) c
  unfolding with_length
  at_end c d ds rest z (whole, mode, in_it) out shape tail =
      let h = header_size line (x ∷ hs) in
      let bound' : length (message line (x ∷ hs) z) < 2 ^ 64 =
        omega (arith, ap length tail, length-append z rest, message_size z, message_size body) in
      let (p, total, e) = at_message c d ds line x hs z out shape hl hh bound' in
      let place : p + 4 ≡ h = omega (arith, message_size z) in
      let count : length c.raw_http + length (d ∷ ds) ≡ h + length z =
        omega (arith, ap length shape, length-append c.raw_http (d ∷ ds), message_size z) in
      let long : ltb (h + length z) h ≡ false = ground arith in
      let c' : Client = record c {
        raw_http = message line (x ∷ hs) z;
        header_end_pos = p;
        content_length = n;
      } in
      let whole' = joined c.raw_http (d ∷ ds) rest z whole shape in
      elim (Bool-cases (is_zero n)) [
        | inl zero_length ↦
            stepped c (received (d ∷ ds)) rest end_of_connection c'
              (e ∙ rw (len, with_length, zero_length) refl)
              (rw (count, long, zero_length, leb_int-zero n (h + length z - h) zero_length)
                (ground arith))
              (whole', out ∙ rw zero_length (ground arith), λ h. absurd (cc))
        | inr more ↦
            let early =
              header_mode (ltb (length c.raw_http) h) (is_zero n) c.is_in_body mode out more in
            stepped c (received (d ∷ ds)) rest read_more (record c' { is_in_body = true })
              (e ∙ rw (len, with_length, more) refl) (rw (count, long, early, more) refl)
              (whole', rw (message_size z, long, more) refl, λ h. (place, refl))
      ]

  within :
      (c : Client) (d : ℕ) (ds rest z : Bytes)
      → Reading line x hs body n (d ∷ ds ++ rest) c
      → c.is_in_body ≡ true
      → c.raw_http ++ d ∷ ds ≡ message line (x ∷ hs) z
      → body ≡ z ++ rest
      → Stepped line x hs body n rest (received (d ∷ ds)) c
  unfolding read_request after_read
  within c d ds rest z (whole, mode, in_it) inside shape tail =
      let h = header_size line (x ∷ hs) in
      let (place, count) = in_it inside in
      let c1 : Client = record c { raw_http = c.raw_http ++ d ∷ ds } in
      let total : c.header_end_pos + (4 + length z) ≡ length c1.raw_http =
        omega (arith, ap length shape, message_size z) in
      let answer =
        body_size c1 (length z) total (omega (arith, ap length tail, length-append z rest)) in
      let seen : length c.raw_http + length (d ∷ ds) ≡ h + length z =
        omega (arith, ap length shape, length-append c.raw_http (d ∷ ds), message_size z) in
      let rest_of : h + length z - h ≡ length z = omega arith in
      let long : ltb (h + length z) h ≡ false = ground arith in
      let late : ltb (length c.raw_http) h ≡ false = ground arith in
      let more : is_zero n ≡ false = ground arith in
      stepped c (received (d ∷ ds)) rest
        (if leb_int n (pos (length z)) then end_of_connection else read_more)
        (record c1 { body_bytes_rd = pos (length z) })
        (ap (λ b. if b then in_body c1 else at_header (find_str crnlcrnl c1.raw_http) c1) inside
          ∙ answer
          ∙ ap
              (λ t. (
                ok (if leb_int t (pos (length z)) then end_of_connection else read_more),
                record c1 { body_bytes_rd = pos (length z) },
              ))
              count)
        (rw (seen, long, late, rest_of) refl)
        (
          append_assoc c.raw_http (d ∷ ds) rest ∙ whole,
          inside ∙ rw (shape, message_size z, long, more) refl,
          λ h. (place, count),
        )

  received_step :
      (c : Client) (d : ℕ) (ds rest : Bytes)
      → Reading line x hs body n (d ∷ ds ++ rest) c
      → Stepped line x hs body n rest (received (d ∷ ds)) c
  received_step c d ds rest reading =
      elim (Bool-cases (ltb (length (c.raw_http ++ d ∷ ds)) (header_size line (x ∷ hs)))) [
        | inl short ↦ before_header c d ds rest reading short
        | inr long ↦
            let raw = c.raw_http ++ d ∷ ds in
            let whole = append_assoc c.raw_http (d ∷ ds) rest ∙ reading.0 in
            let (z, shape, tail) = prefix raw rest whole long in
            elim (Bool-cases c.is_in_body) [
              | inl inside ↦ within c d ds rest z reading inside shape tail
              | inr out ↦ at_end c d ds rest z reading out shape tail
            ]
      ]

  pub read_step :
      (event : ReadEvent) (c : Client) (rest : Bytes)
      → Reading line x hs body n (data_of event ++ rest) c
      → Stepped line x hs body n rest event c
  unfolding read_request
  read_step (received []) c rest reading = (refl, reading)
  read_step (received (d ∷ ds)) c rest reading = received_step c d ds rest reading
  read_step would_block c rest reading = (refl, reading)
  read_step read_failed c rest reading = (refl, reading)
