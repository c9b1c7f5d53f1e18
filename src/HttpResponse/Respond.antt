-- ===== src/HttpResponse/Respond.antt =====
-- server/HttpResponse.cpp: what `respond` puts on the wire.
use web_library.Base.{
  ℕ, ◌+◌, ◌≤◌, List, [], ◌∷◌, ◌++◌, true, false, Bytes, length, take, drop, take_all,
  take-append-take, ltb, All, Bool-cases, ◌≡◌, inl, inr, refl, sym, ap, ◌∙◌, arith, append_assoc,
  append-nil,
}
use web_library.Socket.{Socket, SendEvent, sent, would_block, send_failed, returned}
use web_library.HttpResponse.{HttpResponse, to_string, write_from, respond}

-- The bytes that the calls of send() accept, all told.
abbrev pub accepted : List SendEvent → ℕ
accepted [] = 0
accepted (sent n ∷ events) = n + accepted events
accepted (_ ∷ events) = accepted events

-- The connection is not lost: send() does not fail, and poll() does not time out.
abbrev pub IsAlive : SendEvent → Type 0
IsAlive (sent n) = Unit
IsAlive (would_block ready) = ready ≡ true
IsAlive send_failed = ⊥

module _ (response before : Bytes) where
  grown :
      (total n : ℕ) (wire : Bytes)
      → wire ≡ before ++ take total response
      → wire ++ take n (drop total response) ≡ before ++ take (total + n) response
  grown total n wire h =
      ap (λ t. t ++ take n (drop total response)) h
      ∙ append_assoc before (take total response) (take n (drop total response))
      ∙ ap (λ t. before ++ t) (take-append-take total n response)

  write_from-prefix :
      (total : ℕ) (wire : Bytes) (events : List SendEvent)
      → wire ≡ before ++ take total response
      → (k : ℕ) × ((write_from response total wire events).1.wire ≡ before ++ take k response)
  unfolding write_from
  write_from-prefix total wire [] h = (total, h)
  write_from-prefix total wire (sent n ∷ events) h =
      elim (Bool-cases (ltb total (length response))) [
        | inr done ↦ (total, rw (done, write_from) h)
        | inl more ↦
            rw (more, write_from)
              (write_from-prefix (total + n) (wire ++ take n (drop total response)) events
                (grown total n wire h))
      ]
  write_from-prefix total wire (would_block true ∷ events) h =
      elim (Bool-cases (ltb total (length response))) [
        | inr done ↦ (total, rw (done, write_from) h)
        | inl more ↦ rw (more, write_from) (write_from-prefix total wire events h)
      ]
  write_from-prefix total wire (would_block false ∷ events) h =
      elim (Bool-cases (ltb total (length response))) [
        | inr done ↦ (total, rw (done, write_from) h)
        | inl more ↦ rw (more, write_from) (total, h)
      ]
  write_from-prefix total wire (send_failed ∷ events) h =
      elim (Bool-cases (ltb total (length response))) [
        | inr done ↦ (total, rw (done, write_from) h)
        | inl more ↦ rw (more, write_from) (total, h)
      ]

  finished :
      (total : ℕ) (wire : Bytes)
      → wire ≡ before ++ take total response
      → ltb total (length response) ≡ false
      → wire ≡ before ++ response
  finished total wire h done =
      let all_out : length response ≤ total = ground arith in
      h ∙ ap (λ t. before ++ t) (take_all total response all_out)

  write_from-whole :
      (total : ℕ) (wire : Bytes) (events : List SendEvent)
      → wire ≡ before ++ take total response
      → All IsAlive events
      → length response ≤ total + accepted events
      → ((write_from response total wire events).0 ≡ returned tt)
        × ((write_from response total wire events).1.wire ≡ before ++ response)
  unfolding write_from
  write_from-whole total wire [] h alive enough =
      let done : length response ≤ total = omega arith in
      (ground arith, h ∙ ap (λ t. before ++ t) (take_all total response done))
  write_from-whole total wire (sent n ∷ events) h (alive, more_alive) enough =
      elim (Bool-cases (ltb total (length response))) [
        | inr done ↦ rw (done, write_from) (refl, finished total wire h done)
        | inl more ↦
            rw (more, write_from)
              (write_from-whole (total + n) (wire ++ take n (drop total response)) events
                (grown total n wire h) more_alive (omega arith))
      ]
  write_from-whole total wire (would_block true ∷ events) h (alive, more_alive) enough =
      elim (Bool-cases (ltb total (length response))) [
        | inr done ↦ rw (done, write_from) (refl, finished total wire h done)
        | inl more ↦ rw (more, write_from) (write_from-whole total wire events h more_alive enough)
      ]
  write_from-whole total wire (would_block false ∷ events) h (alive, more_alive) enough =
      elim (Bool-cases (ltb total (length response))) [
        | inr done ↦ rw (done, write_from) (refl, finished total wire h done)
        | inl more ↦ rw (more, write_from) (cc)
      ]
  write_from-whole total wire (send_failed ∷ events) h (alive, more_alive) enough = elim alive [ ]

-- Whatever the socket does, the bytes that `respond` adds to the wire are a prefix of the printed
-- response.
pub respond-prefix :
    (resp : HttpResponse) (s : Socket)
    → (k : ℕ) × ((respond resp s).1.wire ≡ s.wire ++ take k (to_string resp))
unfolding respond
respond-prefix resp s =
    write_from-prefix (to_string resp) s.wire 0 s.wire s.events (sym (append-nil s.wire))

-- If the connection is not lost and the calls of send() accept at least as many bytes as the response
-- has, however these are spread over the calls and the waits between them, `respond` returns and has
-- written the whole response, once.
pub respond-whole :
    (resp : HttpResponse) (s : Socket)
    → All IsAlive s.events
    → length (to_string resp) ≤ accepted s.events
    → ((respond resp s).0 ≡ returned tt) × ((respond resp s).1.wire ≡ s.wire ++ to_string resp)
unfolding respond
respond-whole resp s alive enough =
    write_from-whole (to_string resp) s.wire 0 s.wire s.events (sym (append-nil s.wire)) alive
      (omega arith)
