-- ===== src/HttpServer/Read.antt =====
-- server/HttpServer.cpp: `read_request`, on a request that arrives in pieces.
use web_library.Base.{
  ℕ, ◌+◌, ◌^◌, ◌<◌, List, [], ◌∷◌, ◌++◌, Bool, true, false, Option, none, some, Bytes, codes,
  length, length-append, ltb, ℤ, stoi, find_str, if◌then◌else◌, Result, ok, throw, undefined,
  Bool-cases, All, ◌≡◌, refl, sym, ap, ◌∙◌, arith, append_assoc, append-nil, inl, inr, join, map,
}
use web_library.Utils.{to_lowercase_str}
use web_library.HttpHeaders.{get_header}
use web_library.HttpHeaders.Parse.{
  Header, first_value, lookup-section, extract-section, header_section, header_line,
}
use web_library.HttpRequest.{crnl, crnlcrnl}
use web_library.HttpRequest.Lines.{IsLine, find_crnl, find_end}
use web_library.HttpRequest.Message.{
  message_shape, message, IsMessageHeader, section-message, headers-IsLine, message-IsHeader,
}
use web_library.HttpServer.{
  Client, ReadEvent, received, would_block, read_failed, catch_invalid, value_or_zero,
  read_content_length, with_length, at_header, in_body, after_read, read_request,
}

-- The bytes that a call of read() gives.
abbrev pub data_of : ReadEvent → Bytes
data_of (received s) = s
data_of would_block = []
data_of read_failed = []

with_length-keeps : (m : Result ℤ) (c : Client) → ((with_length m c).1.raw_http ≡ c.raw_http)
unfolding with_length
with_length-keeps (ok n) c = refl
with_length-keeps (throw e) c = refl
with_length-keeps undefined c = refl

at_header-keeps : (o : Option ℕ) (c : Client) → ((at_header o c).1.raw_http ≡ c.raw_http)
unfolding at_header
at_header-keeps none c = refl
at_header-keeps (some n) c =
    with_length-keeps (read_content_length c.raw_http n) (record c { header_end_pos = n })

in_body-keeps : (c : Client) → ((in_body c).1.raw_http ≡ c.raw_http)
unfolding in_body
in_body-keeps c = elim (Bool-cases (ltb (length c.raw_http) (c.header_end_pos + 4))) [
  | inl e ↦ rw (e, in_body) refl
  | inr e ↦ rw (e, in_body) refl
]

branch-keeps :
    (in_it : Bool) (c : Client)
    → ((if in_it then in_body c else at_header (find_str crnlcrnl c.raw_http) c).1.raw_http
        ≡ c.raw_http)
branch-keeps true c = in_body-keeps c
branch-keeps false c = at_header-keeps (find_str crnlcrnl c.raw_http) c

after_read-keeps : (c : Client) → ((after_read c).1.raw_http ≡ c.raw_http)
unfolding after_read
after_read-keeps c = branch-keeps c.is_in_body c

pub read_request-keeps :
    (event : ReadEvent) (c : Client)
    → ((read_request event c).1.raw_http ≡ c.raw_http ++ data_of event)
unfolding read_request
read_request-keeps (received []) c = sym (append-nil c.raw_http)
read_request-keeps (received (x ∷ s)) c =
    after_read-keeps (record c { raw_http = c.raw_http ++ x ∷ s })
read_request-keeps would_block c = sym (append-nil c.raw_http)
read_request-keeps read_failed c = sym (append-nil c.raw_http)

-- The client after these reads.
abbrev pub after_reads : List ReadEvent → Client → Client
after_reads [] c = c
after_reads (event ∷ events) c = after_reads events (read_request event c).1

abbrev pub all_data : List ReadEvent → Bytes
all_data [] = []
all_data (event ∷ events) = data_of event ++ all_data events

-- However the bytes of a connection are spread over the reads, and whatever each read comes to, the
-- client holds all bytes that came, in order, behind those that it held.
pub after_reads-raw_http :
    (events : List ReadEvent) (c : Client)
    → (after_reads events c).raw_http ≡ c.raw_http ++ all_data events
after_reads-raw_http [] c = sym (append-nil c.raw_http)
after_reads-raw_http (event ∷ events) c =
    after_reads-raw_http events (read_request event c).1
    ∙ ap (λ t. t ++ all_data events) (read_request-keeps event c)
    ∙ append_assoc c.raw_http (data_of event) (all_data events)

-- The number that the server takes for the length of the body.
abbrev pub length_of : List Header → Result ℤ
length_of hs =
    catch_invalid
      (stoi (value_or_zero (first_value (to_lowercase_str (codes "Content-Length")) hs)))

read_content_length-message :
    (line : Bytes) (x : Header) (hs : List Header) (body : Bytes)
    → IsLine line
    → All IsMessageHeader (x ∷ hs)
    → length (message line (x ∷ hs) body) < 2 ^ 64
    → (p : ℕ) × (find_str crnlcrnl (message line (x ∷ hs) body) ≡ some p)
      × (p + (4 + length body) ≡ length (message line (x ∷ hs) body))
      × (read_content_length (message line (x ∷ hs) body) p ≡ length_of (x ∷ hs))
unfolding read_content_length get_header
read_content_length-message line x hs body hl hh bound =
    let raw = message line (x ∷ hs) body in
    let front = join crnl (line ∷ map header_line (x ∷ hs)) in
    let rest = header_section (x ∷ hs) ++ (crnlcrnl ++ body) in
    let ends = find_end line (map header_line (x ∷ hs)) body (hl, headers-IsLine (x ∷ hs) hh) in
    let starts = ap (find_str crnl) (message_shape line x hs body) ∙ find_crnl line rest hl.1 in
    let cut = section-message line x hs body hl hh bound in
    let cut' = rw (starts, ends) at cut in
    (
      length front,
      ends,
      omega (arith, length-append front (crnlcrnl ++ body)),
      rw
          (
            starts,
            read_content_length,
            cut',
            extract-section (x ∷ hs) (message-IsHeader (x ∷ hs) hh),
            lookup-section (to_lowercase_str (codes "Content-Length")) (x ∷ hs),
          )
          refl,
    )

-- A client whose bytes, with the new ones, are a whole header section, a body being begun or not.
pub at_message :
    (c : Client) (d : ℕ) (ds line : Bytes) (x : Header) (hs : List Header) (body : Bytes)
    → c.is_in_body ≡ false
    → c.raw_http ++ d ∷ ds ≡ message line (x ∷ hs) body
    → IsLine line
    → All IsMessageHeader (x ∷ hs)
    → length (message line (x ∷ hs) body) < 2 ^ 64
    → (p : ℕ) × (p + (4 + length body) ≡ length (message line (x ∷ hs) body))
      × (read_request (received (d ∷ ds)) c
          ≡ with_length
              (length_of (x ∷ hs))
              (record c { raw_http = message line (x ∷ hs) body; header_end_pos = p }))
unfolding read_request after_read at_header
at_message c d ds line x hs body out whole hl hh bound =
    let (p, found, size, len) = read_content_length-message line x hs body hl hh bound in
    (p, size, rw (out, read_request, after_read, whole, found, at_header, len) refl)
