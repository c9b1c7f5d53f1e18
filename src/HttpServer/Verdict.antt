-- ===== src/HttpServer/Verdict.antt =====
-- server/HttpServer.cpp: when `read_request` takes a request to be complete.
use web_library.Base.{
  ℕ, ◌+◌, ◌-◌, ◌^◌, ◌<◌, List, [], ◌∷◌, ◌++◌, true, false, Bytes, length, length-append, ltb, ℤ,
  pos, if◌then◌else◌, ok, throw, Exception, header_parsing_error, Bool-cases, All, ◌≡◌, refl, ap,
  arith, inl, inr,
}
use web_library.HttpHeaders.Parse.{Header}
use web_library.HttpRequest.{crnl}
use web_library.HttpRequest.Lines.{IsLine, find_crnl, find_end}
use web_library.HttpRequest.Message.{message, IsMessageHeader}
use web_library.HttpRequest.Bare.{section-bare, extract_blank_line}
use web_library.HttpServer.{
  Client, read_more, end_of_connection, received, to_int, leb_int, is_zero, read_content_length,
  with_length, at_header, in_body, after_read, read_request,
}
use web_library.HttpServer.Read.{length_of, at_message}

-- The read that completes the header section of a request with headers decides by the number n of its
-- Content-Length alone, zero where there is no such header or none that is a number: the request is
-- complete if n is zero, and otherwise more is to be read, even if the whole body has come with this
-- very read.
pub read_request-header :
    (c : Client) (d : ℕ) (ds line : Bytes) (x : Header) (hs : List Header) (body : Bytes) (n : ℤ)
    → c.is_in_body ≡ false
    → c.raw_http ++ d ∷ ds ≡ message line (x ∷ hs) body
    → IsLine line
    → All IsMessageHeader (x ∷ hs)
    → length (message line (x ∷ hs) body) < 2 ^ 64
    → length_of (x ∷ hs) ≡ ok n
    → (read_request (received (d ∷ ds)) c).0
      ≡ ok (if is_zero n then end_of_connection else read_more)
unfolding with_length
read_request-header c d ds line x hs body n out whole hl hh bound len =
    let (p, size, e) = at_message c d ds line x hs body out whole hl hh bound in
    elim (Bool-cases (is_zero n)) [
      | inl z ↦ rw (e, len, with_length, z) refl
      | inr z ↦ rw (e, len, with_length, z) refl
    ]

-- An exception of the number that follows Content-Length, other than std::invalid_argument, leaves
-- `read_request`.
pub read_request-out_of_range :
    (c : Client) (d : ℕ) (ds line : Bytes) (x : Header) (hs : List Header) (body : Bytes)
    (ex : Exception)
    → c.is_in_body ≡ false
    → c.raw_http ++ d ∷ ds ≡ message line (x ∷ hs) body
    → IsLine line
    → All IsMessageHeader (x ∷ hs)
    → length (message line (x ∷ hs) body) < 2 ^ 64
    → length_of (x ∷ hs) ≡ throw ex
    → (read_request (received (d ∷ ds)) c).0 ≡ throw ex
unfolding with_length
read_request-out_of_range c d ds line x hs body ex out whole hl hh bound len =
    let (p, size, e) = at_message c d ds line x hs body out whole hl hh bound in
    rw (e, len, with_length) refl

-- A request that has no header at all is refused with an exception as soon as the blank line has come.
pub read_request-no_headers :
    (c : Client) (d : ℕ) (ds line body : Bytes)
    → c.is_in_body ≡ false
    → c.raw_http ++ d ∷ ds ≡ message line [] body
    → IsLine line
    → length (message line [] body) < 2 ^ 64
    → (read_request (received (d ∷ ds)) c).0 ≡ throw header_parsing_error
unfolding read_request after_read at_header with_length read_content_length
read_request-no_headers c d ds line body out whole hl bound =
    let ends = find_end line [] body (hl, tt) in
    let starts = find_crnl line (crnl ++ body) hl.1 in
    let cut = section-bare line body hl bound in
    let cut' = rw (starts, ends) at cut in
    rw
      (
        out,
        read_request,
        after_read,
        whole,
        ends,
        at_header,
        starts,
        read_content_length,
        cut',
        extract_blank_line body,
        with_length,
      )
      refl

to_int_small : (n : ℕ) → n < 2 ^ 31 → to_int n ≡ pos n
unfolding to_int
to_int_small n h = ground arith

pub body_size :
    (c : Client) (size : ℕ)
    → c.header_end_pos + (4 + size) ≡ length c.raw_http
    → size < 2 ^ 31
    → in_body c ≡ (
      ok (if leb_int c.content_length (pos size) then end_of_connection else read_more),
      record c { body_bytes_rd = pos size },
    )
unfolding in_body
body_size c size total small =
    let inside : ltb (length c.raw_http) (c.header_end_pos + 4) ≡ false = ground arith in
    let count : length c.raw_http - (c.header_end_pos + 4) ≡ size = omega arith in
    rw (inside, in_body, count, to_int_small size small)
      (elim (Bool-cases (leb_int c.content_length (pos size))) [
        | inl e ↦ rw e refl
        | inr e ↦ rw e refl
      ])

-- After the header section, with a Content-Length n that is not zero, the next read that brings bytes
-- completes the request exactly if the bytes of the body that have come by then are at least n; below
-- 2 ^ 31 bytes of body. It compares numbers as int does, so a negative n is reached at once.
pub read_request-body :
    (c : Client) (d : ℕ) (ds : Bytes) (e : ℕ) (es line : Bytes) (x : Header) (hs : List Header)
    (body : Bytes) (n : ℤ)
    → c.is_in_body ≡ false
    → c.raw_http ++ d ∷ ds ≡ message line (x ∷ hs) body
    → IsLine line
    → All IsMessageHeader (x ∷ hs)
    → length (message line (x ∷ hs) body) < 2 ^ 64
    → length_of (x ∷ hs) ≡ ok n
    → is_zero n ≡ false
    → length (body ++ e ∷ es) < 2 ^ 31
    → (read_request (received (e ∷ es)) (read_request (received (d ∷ ds)) c).1).0
      ≡ ok (if leb_int n (pos (length (body ++ e ∷ es))) then end_of_connection else read_more)
unfolding with_length read_request after_read
read_request-body c d ds e es line x hs body n out whole hl hh bound len nonzero small =
    let (p, size, first) = at_message c d ds line x hs body out whole hl hh bound in
    let next : Client = record c {
      raw_http = message line (x ∷ hs) body ++ e ∷ es;
      header_end_pos = p;
      content_length = n;
      is_in_body = true;
    } in
    let total : p + (4 + length (body ++ e ∷ es)) ≡ length (message line (x ∷ hs) body ++ e ∷ es) =
      omega
        (arith, length-append body (e ∷ es), length-append (message line (x ∷ hs) body) (e ∷ es)) in
    rw (first, len, with_length, nonzero, read_request, after_read)
      (ap (λ t. t.0) (body_size next (length (body ++ e ∷ es)) total small))
