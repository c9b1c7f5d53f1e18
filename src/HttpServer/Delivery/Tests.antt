-- ===== src/HttpServer/Delivery/Tests.antt =====
-- A request with a body that comes in four reads, and connections that send on or close.
use web_library.Base.{
  ℕ, List, [], ◌∷◌, ◌++◌, ◌==◌, ◌≡◌, ◌≢◌, inl, inr, refl, codes, true, false, some, none, ok, Bytes,
  All, arith, lacks_sound, pos, is_space, Lacks, Result,
}
use web_library.Json.{JsonLib}
use web_library.Socket.{Socket, sent, lift, try_catch}
use web_library.RequestType.{post, req_type_from_str}
use web_library.HttpHeaders.Parse.{Header}
use web_library.HttpRequest.{HttpRequest}
use web_library.HttpRequest.Lines.{IsLine}
use web_library.HttpRequest.Cuts.{start_line}
use web_library.HttpRequest.Message.{message, IsMessageHeader}
use web_library.HttpResponse.{HttpResponse, new_response, set_body, respond}
use web_library.HttpHandle.{Handler}
use web_library.HttpBinder.{HttpBinder, handle_for}
use web_library.HttpRouter.{handle_request}
use web_library.HttpServer.{
  Client, new_client, ReadEvent, received, would_block, accept_failed, ready, HttpServer, run_round,
  event_loop, handle_incoming_request, lookup_fd, State, read_more, end_of_connection,
}
use web_library.HttpServer.Read.{after_reads}
use web_library.HttpServer.Serve.{idles}
use web_library.HttpServer.Chunks.{answers}
use web_library.HttpServer.Chunks.Calls.{answers-expected}
use web_library.HttpServer.Chunks.Rounds.{rounds, Followed}
use web_library.HttpServer.Delivery.{event_loop_once}
use web_library.HttpServer.Repeat.{event_loop_repeats, run_round_closed}

abbrev pub json : JsonLib
json = record { Value = Bytes; object = λ members. codes "{}"; write_string = λ v. v; parse = some }

abbrev pub sock : Socket
sock = record { wire = []; events = sent 60 ∷ sent 1000 ∷ [] }

abbrev pub hello : HttpResponse
hello = set_body (codes "hello") new_response

abbrev pub say_hello : Handler
say_hello req = respond hello

abbrev pub table : HttpBinder
table = (codes "/b", handle_for (codes "/b") say_hello (post ∷ [])) ∷ []

abbrev pub table' : HttpBinder
table' =
    (codes "/b", handle_for (codes "/b") say_hello (post ∷ []))
    ∷ (codes "/a", handle_for (codes "/a") say_hello (post ∷ []))
    ∷ []

abbrev pub parsed : HttpRequest
parsed = record {
  headers = record { headers = (codes "content-length", codes "4") ∷ []; cookies = [] };
  query = record { parameters = [] };
  method = codes "POST";
  body = codes "abcd";
  version = codes "1.1";
}

abbrev pub four : Header
four = (codes "Content-Length", codes "4")

abbrev pub line : Bytes
line = start_line (codes "POST") (codes "/a") (codes "1.1")

pub line-IsLine : IsLine line
line-IsLine = (λ e. cc, lacks_sound 13 line refl)

pub four-IsMessageHeader : All IsMessageHeader (four ∷ [])
unfolding is_space
four-IsMessageHeader = (
  (
    (
      refl,
      lacks_sound b':' (codes "Content-Length") refl,
      lacks_sound b'\n' (codes "Content-Length") refl,
      (λ e. cc),
      (refl, refl),
      lacks_sound b'\n' (codes "4") refl,
    ),
    lacks_sound b'\r' (codes "Content-Length: 4") refl,
  ),
  tt,
)

abbrev server : HttpServer
server = record {
  m_listen_socket = 3;
  is_running = true;
  poll_fds = 3 ∷ 7 ∷ [];
  m_active_clients = (7, new_client 7) ∷ [];
  tasks = [];
}

abbrev pieces : List ReadEvent
pieces =
    received (codes "POST /a HTTP/1.1\r\nContent-L")
    ∷ received (codes "ength: 4\r\n\r\nab")
    ∷ would_block
    ∷ []

abbrev all_pieces : List ReadEvent
all_pieces = pieces ++ received (codes "cd") ∷ []

answers-expected_example :
    answers all_pieces (new_client 7)
    ≡ ok read_more ∷ ok read_more ∷ ok read_more ∷ ok end_of_connection ∷ []
unfolding web_library.HttpServer.catch_invalid web_library.Base.stoi web_library.Base.bytes_eq
    web_library.Utils.to_lowercase_str web_library.HttpServer.is_zero web_library.HttpServer.leb_int
answers-expected_example =
    answers-expected line four [] (codes "abcd") (pos 4) line-IsLine four-IsMessageHeader
      (omega arith) (omega arith) refl all_pieces (new_client 7) [] refl refl refl

event_loop_once_example :
    (s' : HttpServer) × (event_loop (rounds (3 ∷ []) 7 accept_failed all_pieces) server ≡ ok s')
    × Followed 7 (after_reads all_pieces (new_client 7)) (7 ∷ []) server s'
unfolding web_library.HttpServer.catch_invalid web_library.Base.stoi web_library.Base.bytes_eq
    web_library.Utils.to_lowercase_str lookup_fd
event_loop_once_example =
    event_loop_once line four [] (codes "abcd") (3 ∷ []) [] 7 accept_failed pieces b'c' (codes "d")
      server line-IsLine four-IsMessageHeader (omega arith) (omega arith) refl refl refl refl refl
      refl refl

abbrev host : Header
host = (codes "Host", codes "x")

host-IsMessageHeader : All IsMessageHeader (host ∷ [])
unfolding is_space
host-IsMessageHeader = (
  (
    (
      refl,
      lacks_sound b':' (codes "Host") refl,
      lacks_sound b'\n' (codes "Host") refl,
      (λ e. cc),
      (refl, refl),
      lacks_sound b'\n' (codes "x") refl,
    ),
    lacks_sound b'\r' (codes "Host: x") refl,
  ),
  tt,
)

-- A second request follows the first on its connection.
abbrev second : Bytes
second = codes "POST /b HTTP/1.1\r\nHost: x\r\n\r\n"

abbrev end_of_first : Bytes
end_of_first = codes "ost: x\r\n\r\n"

event_loop_repeats_example :
    (s' : HttpServer) × (event_loop
        (rounds (3 ∷ []) 7 accept_failed (
          received (codes "POST /a HTTP/1.1\r\n")
          ∷ received (b'H' ∷ end_of_first)
          ∷ received second
          ∷ []))
        server
      ≡ ok s')
    × (s'.tasks ≡ 7 ∷ 7 ∷ [])
    × ((handle_incoming_request json table' s'.m_active_clients 7).1
        ≡ try_catch
            (handle_request json table'
              (codes "/a")
              (message line (host ∷ []) second)
              (req_type_from_str (codes "POST")))
            (λ ex. lift (ok tt)))
unfolding web_library.HttpServer.catch_invalid web_library.Base.stoi web_library.Base.bytes_eq
    web_library.Utils.to_lowercase_str lookup_fd web_library.HttpServer.is_zero
event_loop_repeats_example =
    event_loop_repeats json table' (codes "POST") (codes "/a") (codes "1.1") host [] second (pos 0)
      (3 ∷ []) [] 7 accept_failed (received (codes "POST /a HTTP/1.1\r\n") ∷ []) b'H' end_of_first
      (received second ∷ []) server line-IsLine host-IsMessageHeader (omega arith) (omega arith)
      refl refl refl (omega arith) (omega arith) refl refl refl refl refl
      (lacks_sound 32 (codes "POST") refl) (lacks_sound 32 (codes "/a") refl)

-- A client whose request is complete, and queued.
abbrev complete : Client
complete = record (new_client 7) { raw_http = message line (host ∷ []) [] }

abbrev busy : HttpServer
busy = record server { m_active_clients = (7, complete) ∷ []; tasks = 7 ∷ [] }

run_round_closed_example :
    (s' : HttpServer) × (run_round (idles (3 ∷ []) ++ ready accept_failed (received []) ∷ []) busy
      ≡ ok s')
    × (s'.tasks ≡ 7 ∷ [])
    × ((handle_incoming_request json table' s'.m_active_clients 7).1 sock ≡ lift (ok tt) sock)
    × (lookup_fd 7 (handle_incoming_request json table' s'.m_active_clients 7).0
        ≡ some (new_client 0))
unfolding lookup_fd
run_round_closed_example =
    run_round_closed json table' busy (3 ∷ []) [] 7 accept_failed (received []) complete sock refl
      refl refl refl refl
