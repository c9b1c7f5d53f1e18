-- ===== src/HttpServer/Bounds.antt =====
-- server/HttpServer.cpp: `read_request` inside a body, whatever the bytes are.
mod Tests
use web_library.Base.{
  ℕ, zero, suc, ◌+◌, ◌-◌, ◌≤◌, List, [], ◌∷◌, ◌++◌, Bool, true, false, Option, none, some, Bytes,
  length, length-append, ltb, ℤ, find_str, starts_with, if◌then◌else◌, Result, ok, throw, undefined,
  Bool-cases, ◌≡◌, refl, sym, ap, ◌∙◌, arith, inl, inr, ◌&&◌, ◌==◌, Option-cases, found_later,
}
use mathlib.Core.Option.{map}
use web_library.HttpRequest.{crnlcrnl}
use web_library.HttpServer.{
  Client, new_client, State, read_more, connection_aborted, end_of_connection, connection_error,
  ReadEvent, received, would_block, read_failed, is_zero, to_int, leb_int, read_content_length,
  with_length, at_header, in_body, after_read, read_request,
}
use web_library.HttpServer.Read.{after_reads}

starts_with-length : (p s : Bytes) → starts_with p s ≡ true → length p ≤ length s
unfolding starts_with
starts_with-length [] s h = omega arith
starts_with-length (c ∷ p) [] h = absurd (cc)
starts_with-length (c ∷ p) (x ∷ s) h = ground (arith, starts_with-length p s)

found_now : (b : Bool) (o : Option ℕ) → (if b then some 0 else map suc o) ≡ some 0 → b ≡ true
found_now true o h = refl
found_now false none h = absurd (ground arith)
found_now false (some n) h = absurd (ground arith)

find_str-length : (p s : Bytes) (n : ℕ) → find_str p s ≡ some n → n + length p ≤ length s
unfolding find_str
find_str-length p [] n h = absurd (cc)
find_str-length p (x ∷ s) zero h =
    let at_once = found_now (starts_with p (x ∷ s)) (find_str p s) h in
    omega (arith, starts_with-length p (x ∷ s) at_once)
find_str-length p (x ∷ s) (suc n) h =
    let (off, found) = found_later (starts_with p (x ∷ s)) (find_str p s) n h in
    omega (arith, find_str-length p s n found)

-- The header section of a client in a body ends inside its bytes.
abbrev pub InBounds : Client → Type 0
InBounds c = c.is_in_body ≡ true → c.header_end_pos + 4 ≤ length c.raw_http

with_length-InBounds :
    (m : Result ℤ) (c : Client)
    → c.is_in_body ≡ false
    → c.header_end_pos + 4 ≤ length c.raw_http
    → InBounds (with_length m c).1
unfolding with_length
with_length-InBounds (ok n) c out fits = λ h. fits
with_length-InBounds (throw e) c out fits = λ h. fits
with_length-InBounds undefined c out fits = λ h. fits

at_header-InBounds :
    (c : Client) → c.is_in_body ≡ false → InBounds (at_header (find_str crnlcrnl c.raw_http) c).1
unfolding at_header
at_header-InBounds c out = elim (Option-cases (find_str crnlcrnl c.raw_http)) [
  | inl lost ↦ rw lost (λ h. absurd (cc))
  | inr (n, found) ↦
      rw (found, at_header)
        (with_length-InBounds (read_content_length c.raw_http n) (record c { header_end_pos = n })
          out (find_str-length crnlcrnl c.raw_http n found))
]

in_body-state :
    (c : Client)
    → c.header_end_pos + 4 ≤ length c.raw_http
    → ((state : State) × ((in_body c).0 ≡ ok state)) × InBounds (in_body c).1
unfolding in_body
in_body-state c fits =
    let n = to_int (length c.raw_http - (c.header_end_pos + 4)) in
    let inside : ltb (length c.raw_http) (c.header_end_pos + 4) ≡ false = ground arith in
    elim (Bool-cases (leb_int c.content_length n)) [
      | inl e ↦ rw (inside, in_body, e) ((end_of_connection, refl), λ h. fits)
      | inr e ↦ rw (inside, in_body, e) ((read_more, refl), λ h. fits)
    ]

either_bounds :
    (b : Bool) (x y : Result State × Client)
    → (b ≡ true → InBounds x.1)
    → (b ≡ false → InBounds y.1)
    → InBounds (if b then x else y).1
either_bounds true x y hx hy = hx refl
either_bounds false x y hx hy = hy refl

longer :
    (c : Client) (s : Bytes)
    → InBounds c
    → c.is_in_body ≡ true
    → c.header_end_pos + 4 ≤ length (c.raw_http ++ s)
longer c s h inside = let fits = h inside in omega (arith, length-append c.raw_http s)

read_request-InBounds :
    (event : ReadEvent) (c : Client) → InBounds c → InBounds (read_request event c).1
unfolding read_request after_read
read_request-InBounds (received []) c h = h
read_request-InBounds (received (d ∷ ds)) c h =
    let c1 : Client = record c { raw_http = c.raw_http ++ d ∷ ds } in
    either_bounds c.is_in_body (in_body c1) (at_header (find_str crnlcrnl c1.raw_http) c1)
      (λ inside. (in_body-state c1 (longer c (d ∷ ds) h inside)).1)
      (λ out. at_header-InBounds c1 out)
read_request-InBounds would_block c h = h
read_request-InBounds read_failed c h = h

after_reads-InBounds :
    (events : List ReadEvent) (c : Client) → InBounds c → InBounds (after_reads events c)
after_reads-InBounds [] c h = h
after_reads-InBounds (event ∷ events) c h =
    after_reads-InBounds events (read_request event c).1 (read_request-InBounds event c h)

in_body-read :
    (event : ReadEvent) (c : Client)
    → InBounds c
    → c.is_in_body ≡ true
    → (state : State) × ((read_request event c).0 ≡ ok state)
unfolding read_request after_read
in_body-read (received []) c h inside = (connection_aborted, refl)
in_body-read (received (d ∷ ds)) c h inside =
    let c1 : Client = record c { raw_http = c.raw_http ++ d ∷ ds } in
    let ((state, e), bounds) = in_body-state c1 (longer c (d ∷ ds) h inside) in
    (
      state,
      ap (λ b. (if b then in_body c1 else at_header (find_str crnlcrnl c1.raw_http) c1).0) inside
          ∙ e,
    )
in_body-read would_block c h inside = (read_more, refl)
in_body-read read_failed c h inside = (connection_error, refl)

-- Whatever bytes a client has sent, in whatever pieces, and whatever its reads came to: once its header
-- section was accepted and a body is awaited, each further read gives a state. It neither throws nor
-- takes a position behind the end of the bytes, which would be undefined.
pub read_request-after_reads :
    (fd : ℕ) (events : List ReadEvent) (event : ReadEvent)
    → (after_reads events (new_client fd)).is_in_body ≡ true
    → (state : State) × ((read_request event (after_reads events (new_client fd))).0 ≡ ok state)
read_request-after_reads fd events event inside =
    in_body-read event (after_reads events (new_client fd))
      (after_reads-InBounds events (new_client fd) (λ h. absurd (cc))) inside
