-- ===== src/HttpServer/Chunks.antt =====
-- server/HttpServer.cpp: `read_request`, call by call, against the counts of bytes that have come.
pub mod Step
pub mod Calls
pub mod Rounds
pub mod Once
use web_library.Base.{
  ℕ, ◌+◌, ◌-◌, ◌^◌, ◌<◌, List, [], ◌∷◌, ◌++◌, Bool, true, false, not, ◌&&◌, Option, none, some,
  Bytes, length, length-append, ltb, ℤ, pos, negsuc, find_str, find_str_cut, append_split,
  if◌then◌else◌, Result, ok, Bool-cases, All, ◌≡◌, refl, sym, ap, ◌∙◌, arith, append_assoc,
  append-nil, inl, inr, join, map, subst, npos,
}
use web_library.HttpHeaders.Parse.{Header, header_line}
use web_library.HttpRequest.{crnl, crnlcrnl}
use web_library.HttpRequest.Lines.{IsLine, find_end}
use web_library.HttpRequest.Message.{message, IsMessageHeader, headers-IsLine}
use web_library.HttpServer.{
  Client, State, read_more, connection_aborted, end_of_connection, connection_error, ReadEvent,
  received, would_block, read_failed, leb_int, is_zero, with_length, at_header, in_body, after_read,
  read_request,
}
use web_library.HttpServer.Read.{read_request-keeps, data_of, all_data, length_of, at_message}
use web_library.HttpServer.Verdict.{body_size}

-- The bytes of a message up to the end of its header section.
abbrev pub header_size : Bytes → List Header → ℕ
header_size line hs = length (join crnl (line ∷ map header_line hs)) + 4

-- The state that the counts of bytes give: `seen` bytes came before the read, `header` bytes are the
-- header section, and n is the Content-Length.
abbrev pub expected : ℕ → ℤ → ℕ → ReadEvent → State
expected header n seen (received []) = connection_aborted
expected header n seen (received (d ∷ ds)) =
    let total = seen + length (d ∷ ds) in
    if ltb total header
    then read_more
    else (if ltb seen header
        then (if is_zero n then end_of_connection else read_more)
        else (if leb_int n (pos (total - header)) then end_of_connection else read_more))
expected header n seen would_block = read_more
expected header n seen read_failed = connection_error

abbrev pub all_expected : ℕ → ℤ → ℕ → List ReadEvent → List State
all_expected header n seen [] = []
all_expected header n seen (event ∷ events) =
    expected header n seen event ∷ all_expected header n (seen + length (data_of event)) events

-- The states that the calls of read_request return, one for each read.
abbrev pub answers : List ReadEvent → Client → List (Result State)
answers [] c = []
answers (event ∷ events) c = (read_request event c).0 ∷ answers events (read_request event c).1

module _ (line : Bytes) (x : Header) (hs : List Header) (body : Bytes) (n : ℤ) where
  -- The client of a connection on which `rest` is still to come of a message.
  abbrev pub Reading : Bytes → Client → Type 0
  Reading rest c =
      (c.raw_http ++ rest ≡ message line (x ∷ hs) body)
      × (c.is_in_body
          ≡ (not (ltb (length c.raw_http) (header_size line (x ∷ hs))) && not (is_zero n)))
      × (c.is_in_body ≡ true
          → (c.header_end_pos + 4 ≡ header_size line (x ∷ hs)) × (c.content_length ≡ n))

  abbrev pub Stepped : Bytes → ReadEvent → Client → Type 0
  Stepped rest event c =
      ((read_request event c).0
        ≡ ok (expected (header_size line (x ∷ hs)) n (length c.raw_http) event))
      × Reading rest (read_request event c).1
