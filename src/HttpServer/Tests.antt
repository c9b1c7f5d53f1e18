-- ===== src/HttpServer/Tests.antt =====
-- server/HttpServer.cpp at a request that arrives in two reads, and at rounds of the event loop.
use web_library.Base.{
  ◌++◌, print_nat, [], ◌∷◌, ◌≡◌, refl, codes, true, some, ok, throw, Bytes, All, out_of_range,
  header_parsing_error, bytes_eq, arith, lacks_sound, is_space, Lacks, ◌≢◌, All-append,
}
use web_library.Utils.{to_lowercase_str}
use web_library.Utils.Trim.{IsTrimmed}
use web_library.HttpHeaders.Parse.{Header}
use web_library.HttpRequest.Lines.{IsLine}
use web_library.HttpRequest.Message.{IsMessageHeader}
use web_library.HttpServer.{
  accept_failed, polled, event_loop, Client, new_client, received, would_block, read_request,
  accepted, ready, HttpServer, run_round, lookup_fd,
}
use web_library.HttpServer.Verdict.{read_request-no_headers}
use web_library.HttpServer.Overflow.{event_loop-out_of_range}
use web_library.HttpServer.Serve.{idles}
use web_library.HttpServer.Accept.{run_round-accept}

abbrev line : Bytes
line = codes "POST /a HTTP/1.1"

abbrev of_length : Bytes → Header
of_length value = (codes "Content-Length", value)

line-IsLine : IsLine line
line-IsLine = (λ e. cc, lacks_sound 13 line refl)

value-IsMessageHeader :
    (value : Bytes)
    → value ≢ []
    → IsTrimmed value
    → Lacks b'\n' value
    → Lacks b'\r' value
    → All IsMessageHeader (of_length value ∷ [])
unfolding is_space
value-IsMessageHeader value ne trimmed no_newline no_return = (
  (
    (
      refl,
      lacks_sound b':' (codes "Content-Length") refl,
      lacks_sound b'\n' (codes "Content-Length") refl,
      ne,
      trimmed,
      no_newline,
    ),
    All-append _ (codes "Content-Length: ") value
        (lacks_sound b'\r' (codes "Content-Length: ") refl) no_return,
  ),
  tt,
)

four : All IsMessageHeader (of_length (codes "4") ∷ [])
unfolding is_space
four =
    value-IsMessageHeader (codes "4") (λ e. cc) (refl, refl) (lacks_sound b'\n' (codes "4") refl)
      (lacks_sound b'\r' (codes "4") refl)

abbrev huge_value : Bytes
huge_value = codes "9999999999"

huge : All IsMessageHeader (of_length huge_value ∷ [])
unfolding is_space
huge =
    value-IsMessageHeader huge_value (λ e. cc) (refl, refl) (lacks_sound b'\n' huge_value refl)
      (lacks_sound b'\r' huge_value refl)

-- The rest of the request that a client has sent "P" of.
abbrev begun : Client
begun = record (new_client 7) { raw_http = codes "P" }

abbrev rest_four : Bytes
rest_four = codes "ST /a HTTP/1.1\r\nContent-Length: 4\r\n\r\nab"

abbrev rest_huge : Bytes
rest_huge = codes "ST /a HTTP/1.1\r\nContent-Length: 9999999999\r\n\r\n"

read_request-no_headers_example :
    (read_request (received (codes "OST /a HTTP/1.1\r\n\r\n")) begun).0 ≡ throw header_parsing_error
read_request-no_headers_example =
    read_request-no_headers begun b'O' (codes "ST /a HTTP/1.1\r\n\r\n") line [] refl refl
      line-IsLine (omega arith)

-- A server with one connection, that has one task.
abbrev server : HttpServer
server = record {
  m_listen_socket = 3;
  is_running = true;
  poll_fds = 3 ∷ 7 ∷ [];
  m_active_clients = (7, begun) ∷ [];
  tasks = 7 ∷ [];
}

-- The descriptor 7 is accepted again, and its old client is still there.
run_round-accept_example :
    (s' : HttpServer) × (run_round (ready (accepted 7) would_block ∷ []) server ≡ ok s')
    × (s'.poll_fds ≡ 3 ∷ 7 ∷ 7 ∷ [])
    × (s'.tasks ≡ 7 ∷ [])
    × (lookup_fd 7 s'.m_active_clients ≡ some begun)
unfolding lookup_fd
run_round-accept_example = run_round-accept server (7 ∷ []) 7 would_block refl

-- Two connections; the second one asks for too much.
abbrev two_connections : HttpServer
two_connections = record {
  m_listen_socket = 3;
  is_running = true;
  poll_fds = 3 ∷ 8 ∷ 7 ∷ [];
  m_active_clients = (8, new_client 8) ∷ (7, begun) ∷ [];
  tasks = [];
}

event_loop-out_of_range_example :
    event_loop
      (polled (idles (3 ∷ 8 ∷ []) ++ ready accept_failed (received (b'O' ∷ rest_huge)) ∷ []) ∷ [])
      two_connections
    ≡ throw (out_of_range (codes "stoi"))
unfolding bytes_eq to_lowercase_str print_nat lookup_fd
event_loop-out_of_range_example =
    event_loop-out_of_range line (of_length huge_value) [] [] 9999999999 (3 ∷ 8 ∷ []) [] 7
      accept_failed b'O' rest_huge begun [] two_connections line-IsLine huge (omega arith) refl
      (omega arith) refl refl refl refl refl refl
