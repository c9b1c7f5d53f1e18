-- ===== src/HttpServer.antt =====
-- include/weblib/server/HttpServer.hpp and server/HttpServer.cpp: connections are read until a request
-- is complete, which is then a task for the thread pool. Logging is left out.
mod Clients
pub mod Read
pub mod Verdict
pub mod Overflow
pub mod Bounds
pub mod Chunks
pub mod Loop
pub mod Accept
pub mod Setup
pub mod Serve
pub mod Workers
pub mod Switch
pub mod Answer
pub mod Delivery
pub mod Repeat
pub mod Isolation
pub mod Mixed
mod Tests
unfoldable pub use Clients.*
use web_library.Base.{
  ◌||◌, ℕ, ◌+◌, ◌-◌, ◌%◌, ◌^◌, List, [], ◌∷◌, ◌++◌, Bool, true, false, Option, none, some, Bytes,
  codes, length, ltb, leb, ◌==◌, ℤ, pos, negsuc, stoi, npos, add64, sub64, find_str, substr,
  is_empty, if◌then◌else◌, Result, ok, throw, undefined, Exception, invalid_argument, runtime_error,
  socket_flags_error, ◌>>=◌,
}
use web_library.Json.{JsonLib}
use web_library.Socket.{M, lift, try_catch}
use web_library.HttpHeaders.{no_headers, extract_headers_from_str, get_header}
use web_library.HttpRequest.{crnl, crnlcrnl}
use web_library.HttpBinder.{HttpBinder}
use web_library.HttpRouter.{process_request}

-- Client::State
pub data State : Type 0 where
  read_more connection_aborted end_of_connection connection_error : State

-- What a call of read() does: it gives at most 4096 bytes, none at the end of the stream, or it would
-- block, or it fails.
pub data ReadEvent : Type 0 where
  received : Bytes → ReadEvent
  would_block read_failed : ReadEvent

-- The conversion of a std::ptrdiff_t to int.
unfoldable pub to_int : ℕ → ℤ
to_int n = let m = n % 2 ^ 32 in if ltb m (2 ^ 31) then pos m else negsuc (2 ^ 32 - 1 - m)

unfoldable pub leb_int : ℤ → ℤ → Bool
leb_int (pos m) (pos n) = leb m n
leb_int (pos m) (negsuc n) = false
leb_int (negsuc m) (pos n) = true
leb_int (negsuc m) (negsuc n) = leb n m

unfoldable pub is_zero : ℤ → Bool
is_zero (pos n) = n == 0
is_zero (negsuc n) = false

-- catch (const std::invalid_argument &ex)
unfoldable pub catch_invalid : Result ℤ → Result ℤ
catch_invalid (throw (invalid_argument s)) = ok (pos 0)
catch_invalid m = m

abbrev pub value_or_zero : Option Bytes → Bytes
value_or_zero none = codes "0"
value_or_zero (some value) = value

-- The value of Content-Length in the header section that ends at `header_end_pos`.
unfoldable pub read_content_length : Bytes → ℕ → Result ℤ
unfolding catch_invalid
read_content_length raw_http header_end_pos = elim (find_str crnl raw_http) [
  | none ↦ throw (runtime_error (codes "Http request is ill formed"))
  | some sline_end_pos ↦
      let headers_start_pos = add64 sline_end_pos 2 in
      substr raw_http headers_start_pos (sub64 header_end_pos headers_start_pos) >>= λ headers_s.
      (extract_headers_from_str headers_s no_headers >>= λ headers.
      catch_invalid (stoi (value_or_zero (get_header (codes "Content-Length") headers))))
]

pub with_length : Result ℤ → Client → Result State × Client
with_length (ok n) client = (
  if is_zero n then ok end_of_connection else ok read_more,
  record client { content_length = n; is_in_body = if is_zero n then client.is_in_body else true },
)
with_length (throw e) client = (throw e, client)
with_length undefined client = (undefined, client)

pub at_header : Option ℕ → Client → Result State × Client
at_header none client = (ok read_more, record client { header_end_pos = npos })
at_header (some n) client =
    with_length (read_content_length client.raw_http n) (record client { header_end_pos = n })

-- An iterator behind the end of the string is undefined.
pub in_body : Client → Result State × Client
in_body client =
    if ltb (length client.raw_http) (client.header_end_pos + 4)
    then (undefined, client)
    else (let n = to_int (length client.raw_http - (client.header_end_pos + 4)) in
        (
          if leb_int client.content_length n then ok end_of_connection else ok read_more,
          record client { body_bytes_rd = n },
        ))

after_read : Client → Result State × Client
after_read client =
    if client.is_in_body
    then in_body client
    else at_header (find_str crnlcrnl client.raw_http) client

-- The client is changed also where an exception is thrown.
unfoldable pub read_request : ReadEvent → Client → Result State × Client
unfolding after_read in_body at_header with_length
read_request (received []) client = (ok connection_aborted, client)
read_request (received (c ∷ s)) client =
    after_read (record client { raw_http = client.raw_http ++ c ∷ s })
read_request would_block client = (ok read_more, client)
read_request read_failed client = (ok connection_error, client)

-- A task of the thread pool, on the socket of the client: the table of clients as it leaves it, since
-- m_active_clients[client_socket] adds an entry where there is none, and what it does on the socket.
-- close() follows in any case.
unfoldable pub handle_incoming_request :
    JsonLib → HttpBinder → ClientMap → ℕ → ClientMap × M (Unit {0})
handle_incoming_request json m_handles m_active_clients client_socket =
    let client = client_at client_socket m_active_clients in
    (
      emplace_fd client_socket (new_client 0) m_active_clients,
      try_catch
          (if is_empty client.raw_http
            then lift (throw (runtime_error (codes "Request is empty")))
            else process_request json m_handles client.raw_http)
          (λ ex. lift (ok tt)),
    )

-- What a call of accept() and the two calls of fcntl() do.
pub data AcceptEvent : Type 0 where
  accepted : ℕ → AcceptEvent
  flags_failed accept_failed : AcceptEvent

-- What poll() reports of a descriptor: POLLIN or not, and what accept() or read() then does on it.
pub data Polled : Type 0 where
  idle : Polled
  ready : AcceptEvent → ReadEvent → Polled

-- The server between two calls of poll(). `tasks` are the calls of handle_incoming_request that were
-- handed to the thread pool, by their argument.
pub record HttpServer : Type 0 where
  pub m_listen_socket : ℕ
  pub is_running : Bool
  pub poll_fds : List ℕ
  pub m_active_clients : ClientMap
  pub tasks : List ℕ

-- The loop over poll_fds: `kept` stands before the entry i, `pushed` was added at the end.
pub record Round : Type 0 where
  pub kept : List ℕ
  pub pushed : List ℕ
  pub clients : ClientMap
  pub queued : List ℕ

pub keep : ℕ → Round → Round
keep fd r = record r { kept = r.kept ++ fd ∷ [] }

pub accept_client : AcceptEvent → Round → Result Round
accept_client (accepted client_socket) r = ok (record r {
  pushed = r.pushed ++ client_socket ∷ [];
  clients = emplace_fd client_socket (new_client client_socket) r.clients;
})
accept_client flags_failed r = throw socket_flags_error
accept_client accept_failed r = ok r

-- The switch on the state of the client.
pub after_request : State → ℕ → ℕ → Round → Round
after_request read_more fd client_fd r = keep fd r
after_request end_of_connection fd client_fd r =
    keep fd (record r { queued = r.queued ++ client_fd ∷ [] })
after_request connection_aborted fd client_fd r = record r {
  clients = erase_fd client_fd r.clients;
}
after_request connection_error fd client_fd r = record r { clients = erase_fd client_fd r.clients }

pub read_client : ℕ → ReadEvent → Round → Result Round
read_client fd event r =
    let answer = read_request event (client_at fd r.clients) in
    answer.0 >>= λ state.
    ok (after_request state fd answer.1.fd (record r { clients = assign_fd fd answer.1 r.clients }))

pub visit : ℕ → ℕ → Polled → Round → Result Round
visit listen_socket fd idle r = ok (keep fd r)
visit listen_socket fd (ready accept event) r =
    if fd == listen_socket then accept_client accept (keep fd r) else read_client fd event r

-- The events are those of poll_fds, in order; an entry that the round has pushed has none.
pub visit_all : ℕ → List ℕ → List Polled → Round → Result Round
visit_all listen_socket [] events r = ok r
visit_all listen_socket (fd ∷ fds) [] r = visit_all listen_socket fds [] (keep fd r)
visit_all listen_socket (fd ∷ fds) (event ∷ events) r =
    visit listen_socket fd event r >>= visit_all listen_socket fds events

pub start_round : HttpServer → Round
start_round s = record { kept = []; pushed = []; clients = s.m_active_clients; queued = s.tasks }

pub end_round : HttpServer → Round → HttpServer
end_round s r = record s {
  poll_fds = r.kept ++ r.pushed;
  m_active_clients = r.clients;
  tasks = r.queued;
}

unfoldable pub run_round : List Polled → HttpServer → Result HttpServer
unfolding visit_all visit accept_client read_client after_request start_round end_round keep
run_round events s =
    visit_all s.m_listen_socket s.poll_fds events (start_round s) >>= λ r. ok (end_round s r)

unfoldable pub stop_server : HttpServer → HttpServer
stop_server s = record s { is_running = false }

-- What event_loop meets: poll() returns or fails, or another thread stops the server, behind a round and
-- in front of the next test of the flag (`stopped`) or while poll() waits (`stopped_in_poll`).
pub data LoopEvent : Type 0 where
  polled : List Polled → LoopEvent
  poll_failed stopped stopped_in_poll : LoopEvent

-- The loop, from inside poll() or from its test on. A stop ends no wait of poll(): the round that it
-- reports is still run.
pub loop_from : Bool → List LoopEvent → HttpServer → Result HttpServer
unfolding run_round stop_server
loop_from in_poll [] s = ok s
loop_from in_poll (stopped ∷ events) s = loop_from in_poll events (stop_server s)
loop_from in_poll (polled reported ∷ events) s = elim (in_poll || s.is_running) [
  | false ↦ ok s
  | true ↦ run_round reported s >>= loop_from false events
]
loop_from in_poll (poll_failed ∷ events) s = elim (in_poll || s.is_running) [
  | false ↦ ok s
  | true ↦ throw (runtime_error [])
]
loop_from in_poll (stopped_in_poll ∷ events) s = elim (in_poll || s.is_running) [
  | false ↦ ok s
  | true ↦ loop_from true events (stop_server s)
]

-- With no event left, the loop waits in poll() or has ended.
unfoldable pub event_loop : List LoopEvent → HttpServer → Result HttpServer
unfolding loop_from
event_loop events s = loop_from false events s
