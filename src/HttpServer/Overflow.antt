-- ===== src/HttpServer/Overflow.antt =====
-- server/HttpServer.cpp: a Content-Length that is no int, and what it does to the event loop.
use web_library.Base.{
  ℕ, ◌^◌, ◌<◌, ◌≤◌, List, [], ◌∷◌, ◌++◌, true, false, some, Bytes, codes, length, ◌==◌, stoi,
  print_nat, stoi-print_nat_large, throw, out_of_range, All, ◌≡◌, refl, ap, ◌∙◌,
}
use web_library.Utils.{to_lowercase_str}
use web_library.HttpHeaders.Parse.{Header, first_value}
use web_library.HttpRequest.Lines.{IsLine}
use web_library.HttpRequest.Message.{message, IsMessageHeader}
use web_library.HttpServer.{
  Client, lookup_fd, received, read_request, catch_invalid, value_or_zero, AcceptEvent, ready,
  HttpServer, LoopEvent, polled, loop_from, event_loop,
}
use web_library.HttpServer.Read.{length_of}
use web_library.HttpServer.Serve.{idles}
use web_library.HttpServer.Switch.{run_round-throw}
use web_library.HttpServer.Verdict.{read_request-out_of_range}

length_of-large :
    (hs : List Header) (n : ℕ)
    → first_value (to_lowercase_str (codes "Content-Length")) hs ≡ some (print_nat n)
    → 2 ^ 31 ≤ n
    → length_of hs ≡ throw (out_of_range (codes "stoi"))
unfolding catch_invalid
length_of-large hs n asked large =
    ap (λ t. catch_invalid (stoi (value_or_zero t))) asked
    ∙ ap catch_invalid (stoi-print_nat_large n large)

-- If the Content-Length of a request is the decimal print of a number that is 2 ^ 31 or more, and poll()
-- reports the connection alone, at the read that completes the header section, then std::out_of_range
-- leaves the event loop of the running server: it ends, whatever other connections it has and whatever
-- would come behind. The request has a header, its headers are well-formed, it is below 2 ^ 64 bytes, and
-- its client is one that the server knows and that was not in the body yet.
pub event_loop-out_of_range :
    (line : Bytes) (x : Header) (hs : List Header) (body : Bytes) (n : ℕ) (before after : List ℕ)
    (fd : ℕ) (accept : AcceptEvent) (d : ℕ) (ds : Bytes) (c : Client) (events : List LoopEvent)
    (s : HttpServer)
    → IsLine line
    → All IsMessageHeader (x ∷ hs)
    → length (message line (x ∷ hs) body) < 2 ^ 64
    → first_value (to_lowercase_str (codes "Content-Length")) (x ∷ hs) ≡ some (print_nat n)
    → 2 ^ 31 ≤ n
    → c.is_in_body ≡ false
    → c.raw_http ++ d ∷ ds ≡ message line (x ∷ hs) body
    → s.is_running ≡ true
    → s.poll_fds ≡ before ++ fd ∷ after
    → (fd == s.m_listen_socket) ≡ false
    → lookup_fd fd s.m_active_clients ≡ some c
    → event_loop (polled (idles before ++ ready accept (received (d ∷ ds)) ∷ []) ∷ events) s
      ≡ throw (out_of_range (codes "stoi"))
unfolding event_loop loop_from
event_loop-out_of_range line x hs body n before after fd accept d ds c events s hl hh bound asked
      large out whole runs shape other known =
    let ex = out_of_range (codes "stoi") in
    let event = received (d ∷ ds) in
    let thrown_by_read =
      read_request-out_of_range c d ds line x hs body ex out whole hl hh bound
        (length_of-large (x ∷ hs) n asked large) in
    let thrown_by_round =
      run_round-throw s before after fd accept event c (read_request event c).1 ex shape other known
        (ap (λ t. (t, (read_request event c).1)) thrown_by_read) in
    rw (event_loop, loop_from, runs, thrown_by_round) refl
