-- ===== src/HttpServer/Repeat.antt =====
-- server/HttpServer.cpp: a connection that sends on, or closes, after its request is complete.
use web_library.Base.{
  or_else, ℕ, ◌≤◌, ◌+◌, ◌^◌, ◌<◌, List, [], ◌∷◌, ◌++◌, Bool, true, false, not, Bytes, all, length,
  length-append, ltb, ◌==◌, ==_refl, ℤ, negsuc, pos, ok, none, some, All, Lacks, if◌then◌else◌,
  is_empty, ◌≡◌, refl, ap, ◌∙◌, arith, append-nil,
}
use web_library.Json.{JsonLib}
use web_library.Socket.{Socket, lift, try_catch}
use web_library.RequestType.{req_type_from_str}
use web_library.HttpHeaders.Parse.{Header}
use web_library.HttpRequest.Lines.{IsLine}
use web_library.HttpRequest.Cuts.{start_line}
use web_library.HttpRequest.Message.{message, IsMessageHeader}
use web_library.HttpBinder.{HttpBinder}
use web_library.HttpRouter.{handle_request}
use web_library.HttpServer.{
  lookup_fd-emplace_fd, Client, ClientMap, lookup_fd, client_at, new_client, connection_aborted,
  connection_error, ReadEvent, received, would_block, read_failed, State, read_request, is_zero,
  leb_int, handle_incoming_request, AcceptEvent, ready, HttpServer, run_round, event_loop,
}
use web_library.HttpServer.Read.{data_of, all_data, length_of, after_reads, after_reads-raw_http}
use web_library.HttpServer.Serve.{idles, client_at_known, task-message}
use web_library.HttpServer.Switch.{stored, is_gone, is_complete, run_round-Switched}
use web_library.HttpServer.Chunks.{header_size, expected, all_expected}
use web_library.HttpServer.Chunks.Rounds.{stays_open, tasks_for, rounds, event_loop-Followed}

-- The reads that give bytes, as tasks of the descriptor.
abbrev pub tasks_of_reads : ℕ → List ReadEvent → List ℕ
tasks_of_reads fd [] = []
tasks_of_reads fd (event ∷ events) =
    (if is_empty (data_of event) then [] else fd ∷ []) ++ tasks_of_reads fd events

complete_again :
    (header seen : ℕ) (n : ℤ) (event : ReadEvent)
    → ltb seen header ≡ false
    → is_zero n ≡ true
    → is_complete (expected header n seen event) ≡ not (is_empty (data_of event))
unfolding leb_int is_zero
complete_again header seen (negsuc n) event late zero_length = absurd (cc)
complete_again header seen (pos n) (received []) late zero_length = refl
complete_again header seen (pos n) (received (d ∷ ds)) late zero_length = ground arith
complete_again header seen (pos n) would_block late zero_length = refl
complete_again header seen (pos n) read_failed late zero_length = refl

either_way :
    (fd : ℕ) (b : Bool) (more : List ℕ)
    → (if not b then fd ∷ [] else []) ++ more ≡ (if b then [] else fd ∷ []) ++ more
either_way fd true more = refl
either_way fd false more = refl

later_tasks :
    (fd header seen : ℕ) (n : ℤ) (events : List ReadEvent)
    → ltb seen header ≡ false
    → is_zero n ≡ true
    → tasks_for fd (all_expected header n seen events) ≡ tasks_of_reads fd events
later_tasks fd header seen n [] late zero_length = refl
later_tasks fd header seen n (event ∷ events) late zero_length =
    let on : ltb (seen + length (data_of event)) header ≡ false = ground arith in
    rw
      (
        complete_again header seen n event late zero_length,
        later_tasks fd header (seen + length (data_of event)) n events on zero_length,
      )
      (either_way fd (is_empty (data_of event)) (tasks_of_reads fd events))

early :
    (header seen : ℕ) (n : ℤ) (event : ReadEvent)
    → seen + length (data_of event) < header
    → is_complete (expected header n seen event) ≡ false
early header seen n (received []) h = refl
early header seen n (received (d ∷ ds)) h = ground arith
early header seen n would_block h = refl
early header seen n read_failed h = refl

repeated_tasks :
    (fd header seen : ℕ) (n : ℤ) (events : List ReadEvent) (d : ℕ) (ds : Bytes)
    (more : List ReadEvent)
    → is_zero n ≡ true
    → seen + length (all_data events) < header
    → header ≤ seen + length (all_data events) + length (d ∷ ds)
    → tasks_for fd (all_expected header n seen (events ++ received (d ∷ ds) ∷ more))
      ≡ fd ∷ tasks_of_reads fd more
repeated_tasks fd header seen n [] d ds more zero_length below reached =
    let first : ltb seen header ≡ true = ground arith in
    let full : ltb (seen + length (d ∷ ds)) header ≡ false = ground arith in
    rw
      (
        full,
        first,
        zero_length,
        later_tasks fd header (seen + length (d ∷ ds)) n more full zero_length,
      )
      refl
repeated_tasks fd header seen n (event ∷ events) d ds more zero_length below reached =
    let size = length-append (data_of event) (all_data events) in
    rw
      (
        early header seen n event (omega arith),
        repeated_tasks fd header (seen + length (data_of event)) n events d ds more zero_length
            (omega arith) (omega arith),
      )
      refl

-- A connection that is new to a running server is reported alone, round by round, with reads that neither
-- fail nor find the end of the stream, and its bytes are a message whose Content-Length is zero, or absent,
-- or no number, and what follows it, which counts as its body. Then its descriptor is queued once at the
-- read that completes the header section, and once more for every later read that brings bytes. A task
-- of it that is begun behind these rounds does what the router does with the method and the target of the
-- first request and with all bytes that have come, so a second request that follows the first on the
-- connection is never routed. The message has a header, its headers are well-formed, and it is below
-- 2 ^ 64 bytes, with fewer than 2 ^ 31 behind the header section.
pub event_loop_repeats :
    (json : JsonLib) (m_handles : HttpBinder) (method target version : Bytes) (x : Header)
    (hs : List Header) (body : Bytes) (n : ℤ) (before after : List ℕ) (fd : ℕ)
    (accept : AcceptEvent) (events : List ReadEvent) (d : ℕ) (ds : Bytes) (more : List ReadEvent)
    (s : HttpServer)
    → IsLine (start_line method target version)
    → All IsMessageHeader (x ∷ hs)
    → length (message (start_line method target version) (x ∷ hs) body) < 2 ^ 64
    → length body < 2 ^ 31
    → length_of (x ∷ hs) ≡ ok n
    → is_zero n ≡ true
    → all_data (events ++ received (d ∷ ds) ∷ more)
      ≡ message (start_line method target version) (x ∷ hs) body
    → length (all_data events) < header_size (start_line method target version) (x ∷ hs)
    → header_size (start_line method target version) (x ∷ hs)
      ≤ length (all_data events) + length (d ∷ ds)
    → all stays_open (events ++ received (d ∷ ds) ∷ more) ≡ true
    → s.is_running ≡ true
    → s.poll_fds ≡ before ++ fd ∷ after
    → (fd == s.m_listen_socket) ≡ false
    → lookup_fd fd s.m_active_clients ≡ some (new_client fd)
    → Lacks 32 method
    → Lacks 32 target
    → (s' : HttpServer) × (event_loop
          (rounds before fd accept (events ++ received (d ∷ ds) ∷ more))
          s
        ≡ ok s')
      × (s'.tasks ≡ s.tasks ++ fd ∷ tasks_of_reads fd more)
      × ((handle_incoming_request json m_handles s'.m_active_clients fd).1
          ≡ try_catch
              (handle_request json m_handles target
                (message (start_line method target version) (x ∷ hs) body)
                (req_type_from_str method))
              (λ ex. lift (ok tt)))
event_loop_repeats json m method target version x hs body n before after fd accept events d ds more
      s hl hh bound small len zero_length whole below reached open_all runs shape other known hm
      ht =
    let line = start_line method target version in
    let all_events = events ++ received (d ∷ ds) ∷ more in
    let h = header_size line (x ∷ hs) in
    let tasks = repeated_tasks fd h 0 n events d ds more zero_length (omega arith) (omega arith) in
    let (s', ran, (queued, found, others, polls, running)) =
      event_loop-Followed line x hs body n hl hh bound small len before after fd accept all_events s
        (new_client fd) [] refl refl (append-nil (all_data all_events) ∙ whole) open_all runs shape
        other known refl in
    let held =
      ap (λ t. t.raw_http)
        (client_at_known fd (after_reads all_events (new_client fd)) s'.m_active_clients found)
      ∙ after_reads-raw_http all_events (new_client fd)
      ∙ whole in
    (
      s',
      ran,
      queued ∙ ap (λ t. s.tasks ++ t) tasks,
      task-message json m s'.m_active_clients fd method target version x hs body held hm ht,
    )

no_client :
    (json : JsonLib) (m_handles : HttpBinder) (clients : ClientMap) (fd : ℕ) (sock : Socket)
    → lookup_fd fd clients ≡ none
    → ((handle_incoming_request json m_handles clients fd).1 sock ≡ lift (ok tt) sock)
      × (lookup_fd fd (handle_incoming_request json m_handles clients fd).0 ≡ some (new_client 0))
unfolding handle_incoming_request client_at
no_client json m_handles clients fd sock lost =
    let made = lookup_fd-emplace_fd fd fd (new_client 0) clients in
    (
      rw (handle_incoming_request, client_at, lost) refl,
      made
          ∙ ap (λ t. or_else t (if fd == fd then some (new_client 0) else none)) lost
          ∙ ap (λ t. if t then some (new_client 0) else none) (==_refl fd),
    )

gone_round :
    (json : JsonLib) (m_handles : HttpBinder) (s : HttpServer) (before after : List ℕ) (fd : ℕ)
    (accept : AcceptEvent) (event : ReadEvent) (c : Client) (sock : Socket) (state : State)
    → is_gone state ≡ true
    → is_complete state ≡ false
    → s.poll_fds ≡ before ++ fd ∷ after
    → (fd == s.m_listen_socket) ≡ false
    → lookup_fd fd s.m_active_clients ≡ some c
    → c.fd ≡ fd
    → read_request event c ≡ (ok state, c)
    → (s' : HttpServer) × (run_round (idles before ++ ready accept event ∷ []) s ≡ ok s')
      × (s'.tasks ≡ s.tasks)
      × ((handle_incoming_request json m_handles s'.m_active_clients fd).1 sock ≡ lift (ok tt) sock)
      × (lookup_fd fd (handle_incoming_request json m_handles s'.m_active_clients fd).0
          ≡ some (new_client 0))
gone_round json m s before after fd accept event c sock state gone incomplete shape other known own
      read =
    let (s', ran, (polls, tasks, clients, listens, running)) =
      run_round-Switched s before after fd accept event c c state shape other known own read in
    let lost =
      clients fd
      ∙ ap (λ t. if t then stored state c else lookup_fd fd s.m_active_clients) (==_refl fd)
      ∙ ap (λ t. if t then none else some c) gone in
    (
      s',
      ran,
      tasks ∙ ap (λ t. if t then s.tasks ++ fd ∷ [] else s.tasks) incomplete,
      (no_client json m s'.m_active_clients fd sock lost).0,
      (no_client json m s'.m_active_clients fd sock lost).1,
    )

-- A round in which poll() reports one connection, known to the server, whose read finds the end of the
-- stream or fails, keeps all tasks; but a task of its descriptor that is begun behind this round writes
-- nothing and ends without an exception, whatever request the client held, and it puts an empty client
-- with the descriptor 0 into the table under the descriptor of the connection.
pub run_round_closed :
    (json : JsonLib) (m_handles : HttpBinder) (s : HttpServer) (before after : List ℕ) (fd : ℕ)
    (accept : AcceptEvent) (event : ReadEvent) (c : Client) (sock : Socket)
    → s.poll_fds ≡ before ++ fd ∷ after
    → (fd == s.m_listen_socket) ≡ false
    → lookup_fd fd s.m_active_clients ≡ some c
    → c.fd ≡ fd
    → stays_open event ≡ false
    → (s' : HttpServer) × (run_round (idles before ++ ready accept event ∷ []) s ≡ ok s')
      × (s'.tasks ≡ s.tasks)
      × ((handle_incoming_request json m_handles s'.m_active_clients fd).1 sock ≡ lift (ok tt) sock)
      × (lookup_fd fd (handle_incoming_request json m_handles s'.m_active_clients fd).0
          ≡ some (new_client 0))
unfolding read_request
run_round_closed json m s before after fd accept (received []) c sock shape other known own closes =
    gone_round json m s before after fd accept (received []) c sock connection_aborted refl refl
      shape other known own refl
run_round_closed json m s before after fd accept read_failed c sock shape other known own closes =
    gone_round json m s before after fd accept read_failed c sock connection_error refl refl shape
      other known own refl
run_round_closed json m s before after fd accept (received (d ∷ ds)) c sock shape other known own
      closes =
    absurd (cc)
run_round_closed json m s before after fd accept would_block c sock shape other known own closes =
    absurd (cc)
