-- ===== src/HttpServer/Delivery.antt =====
-- From the bytes of a connection, in whatever pieces they come (server/HttpServer.cpp), to the answer.
pub mod Tests
use web_library.Base.{
  ℕ, ◌+◌, ◌^◌, ◌<◌, List, [], ◌∷◌, ◌++◌, Bool, true, false, not, ◌&&◌, Bytes, any, all, lookup,
  length, length-append, ltb, ◌==◌, ℤ, pos, ok, Option, none, some, All, Lacks, if◌then◌else◌, ◌≡◌,
  refl, sym, ap, subst, ◌∙◌, arith, append_assoc, append-nil, join, map,
}
use web_library.Json.{JsonLib}
use web_library.Socket.{Socket}
use web_library.RequestType.{RequestType, type_eq, req_type_from_str}
use web_library.Utils.{process_url_str, extract_params}
use web_library.HttpHeaders.Parse.{Header, header_line}
use web_library.HttpRequest.{HttpRequest, new_request, crnl, crnlcrnl}
use web_library.HttpRequest.Lines.{IsLine}
use web_library.HttpRequest.Cuts.{start_line}
use web_library.HttpRequest.Message.{message, IsMessageHeader}
use web_library.HttpResponse.{HttpResponse, respond}
use web_library.HttpHandle.{Handler}
use web_library.HttpBinder.{HttpBinder, register_handler, match_path}
use web_library.HttpBinder.Find.{Refuses}
use web_library.HttpRouter.Branches.{Answered, CanTake}
use web_library.HttpServer.{
  Client, lookup_fd, new_client, ReadEvent, received, handle_incoming_request, AcceptEvent,
  HttpServer, event_loop,
}
use web_library.HttpServer.Read.{data_of, all_data, length_of, after_reads, after_reads-raw_http}
use web_library.HttpServer.Serve.{client_at_known}
use web_library.HttpServer.Chunks.{header_size, all_expected}
use web_library.HttpServer.Chunks.Rounds.{
  stays_open, tasks_for, rounds, Followed, event_loop-Followed,
}
use web_library.HttpServer.Chunks.Once.{tasks_once}
use web_library.HttpServer.Answer.{task-Answered}

pub all-append :
    {A : Type 0} (p : A → Bool) (xs ys : List A)
    → all p xs ≡ true
    → all p ys ≡ true
    → all p (xs ++ ys) ≡ true
all-append p [] ys h g = g
all-append p (x ∷ xs) ys h g = ground (arith, all-append p xs ys)

all_data-append : (xs ys : List ReadEvent) → all_data (xs ++ ys) ≡ all_data xs ++ all_data ys
all_data-append [] ys = refl
all_data-append (x ∷ xs) ys =
    ap (λ t. data_of x ++ t) (all_data-append xs ys)
    ∙ sym (append_assoc (data_of x) (all_data xs) (all_data ys))

-- The tasks of a connection whose reads end with the last byte of its message.
pub message_tasks :
    (line : Bytes) (x : Header) (hs : List Header) (body : Bytes) (fd : ℕ) (events : List ReadEvent)
    (d : ℕ) (ds : Bytes)
    → all_data (events ++ received (d ∷ ds) ∷ []) ≡ message line (x ∷ hs) body
    → all stays_open events ≡ true
    → tasks_for fd (
        all_expected
          (header_size line (x ∷ hs))
          (pos (length body))
          0
          (events ++ received (d ∷ ds) ∷ []))
      ≡ (if ltb (length (all_data events)) (header_size line (x ∷ hs)) && not (length body == 0)
          then []
          else fd ∷ [])
message_tasks line x hs body fd events d ds whole open_all =
    let h = header_size line (x ∷ hs) in
    let total : 0 + length (all_data events) + length (d ∷ ds) ≡ h + length body = omega (
      arith,
      ap length whole,
      ap length (all_data-append events (received (d ∷ ds) ∷ [])),
      length-append (all_data events) ((d ∷ ds) ++ []),
      length-append (d ∷ ds) [],
      length-append (join crnl (line ∷ map header_line (x ∷ hs))) (crnlcrnl ++ body),
    ) in
    let plain : 0 + length (all_data events) ≡ length (all_data events) = omega arith in
    tasks_once fd h (length body) events 0 d ds open_all total
    ∙ ap (λ t. if ltb t h && not (length body == 0) then [] else fd ∷ []) plain

-- A connection that is new to a running server is reported alone, round by round, while the bytes of one
-- message come in whatever pieces, with reads among them that would block; its last bytes come in the
-- last of these reads, and Content-Length is the number of bytes of its body. Then the rounds end
-- without an exception, and its descriptor is queued behind the tasks that are there: once, or never if
-- the message has a body and the last read is also the one that completes the header section. The client
-- has read the message; the other clients, the polled descriptors and the flag of the loop are as they
-- were. The message has a header, its headers are well-formed, and it is below 2 ^ 64 bytes, with a
-- body below 2 ^ 31.
pub event_loop_once :
    (line : Bytes) (x : Header) (hs : List Header) (body : Bytes) (before after : List ℕ) (fd : ℕ)
    (accept : AcceptEvent) (events : List ReadEvent) (d : ℕ) (ds : Bytes) (s : HttpServer)
    → IsLine line
    → All IsMessageHeader (x ∷ hs)
    → length (message line (x ∷ hs) body) < 2 ^ 64
    → length body < 2 ^ 31
    → length_of (x ∷ hs) ≡ ok (pos (length body))
    → all_data (events ++ received (d ∷ ds) ∷ []) ≡ message line (x ∷ hs) body
    → all stays_open events ≡ true
    → s.is_running ≡ true
    → s.poll_fds ≡ before ++ fd ∷ after
    → (fd == s.m_listen_socket) ≡ false
    → lookup_fd fd s.m_active_clients ≡ some (new_client fd)
    → (s' : HttpServer) × (event_loop (rounds before fd accept (events ++ received (d ∷ ds) ∷ [])) s
        ≡ ok s')
      × Followed fd
          (after_reads (events ++ received (d ∷ ds) ∷ []) (new_client fd))
          (if ltb (length (all_data events)) (header_size line (x ∷ hs)) && not (length body == 0)
            then []
            else fd ∷ [])
          s
          s'
event_loop_once line x hs body before after fd accept events d ds s hl hh bound small len whole
      open_all runs shape other known =
    let all_events = events ++ received (d ∷ ds) ∷ [] in
    let once = message_tasks line x hs body fd events d ds whole open_all in
    let (s', ran, followed) =
      event_loop-Followed line x hs body (pos (length body)) hl hh bound small len before after fd
        accept all_events s (new_client fd) [] refl refl (append-nil (all_data all_events) ∙ whole)
        (all-append stays_open events (received (d ∷ ds) ∷ []) open_all refl) runs shape other known
        refl in
    (
      s',
      ran,
      subst (λ t. Followed fd (after_reads all_events (new_client fd)) t s s') once followed,
    )

-- An endpoint that was registered without an error, under a processed name that was free, is asked for by
-- one connection that is new to a running server. The bytes of the request come in whatever pieces, over
-- rounds that report this connection alone: none of the reads fails or finds the end of the stream,
-- Content-Length is the number of bytes of the body, and if there is a body, the last read is not the one
-- that completes the header section. Its method is one of the endpoint's, its target matches the processed
-- name, every other endpoint refuses it, it can be parsed with the parameters of the name, and the
-- handler answers it with `resp`. Then the descriptor is handed to the pool once, behind the other tasks,
-- and the task writes exactly the printed `resp` to a socket that lasts and accepts that many bytes. The
-- request has a header and its headers are well-formed; it is below 2 ^ 64 bytes, with a body below 2 ^ 31.
pub event_loop-Answered :
    (json : JsonLib) (name : Bytes) (handler : Handler) (types : List RequestType)
    (m_handles : HttpBinder) {m_handles' : HttpBinder} {key : Bytes} (s : HttpServer)
    (before after : List ℕ) (fd : ℕ) (accept : AcceptEvent) (events : List ReadEvent) (d : ℕ)
    (ds method target version : Bytes) (x : Header) (hs : List Header) (body : Bytes)
    (req : HttpRequest) (resp : HttpResponse) (sock : Socket)
    → register_handler name handler types m_handles ≡ ok m_handles'
    → process_url_str name ≡ ok key
    → lookup key m_handles ≡ none
    → any (λ t. type_eq t (req_type_from_str method)) types ≡ true
    → match_path key target ≡ ok true
    → All (Refuses target (req_type_from_str method)) m_handles
    → IsLine (start_line method target version)
    → All IsMessageHeader (x ∷ hs)
    → length (message (start_line method target version) (x ∷ hs) body) < 2 ^ 64
    → length body < 2 ^ 31
    → length_of (x ∷ hs) ≡ ok (pos (length body))
    → all_data (events ++ received (d ∷ ds) ∷ [])
      ≡ message (start_line method target version) (x ∷ hs) body
    → all stays_open events ≡ true
    → (ltb (length (all_data events)) (header_size (start_line method target version) (x ∷ hs))
        && not (length body == 0))
      ≡ false
    → s.is_running ≡ true
    → s.poll_fds ≡ before ++ fd ∷ after
    → (fd == s.m_listen_socket) ≡ false
    → lookup_fd fd s.m_active_clients ≡ some (new_client fd)
    → Lacks 32 method
    → Lacks 32 target
    → new_request
        (message (start_line method target version) (x ∷ hs) body)
        name
        (extract_params name)
      ≡ ok req
    → handler req ≡ respond resp
    → CanTake resp sock
    → (s' : HttpServer) × (event_loop (rounds before fd accept (events ++ received (d ∷ ds) ∷ [])) s
        ≡ ok s')
      × (s'.tasks ≡ s.tasks ++ fd ∷ [])
      × Answered resp sock ((handle_incoming_request json m_handles' s'.m_active_clients fd).1 sock)
event_loop-Answered json name handler types m {m_handles' = m'} s before after fd accept events d ds
      method target version x hs body req resp sock registered processed free has fits others hl hh
      bound small len whole open_all apart runs shape other known hm ht read says room =
    let all_events = events ++ received (d ∷ ds) ∷ [] in
    let last = after_reads all_events (new_client fd) in
    let (s', ran, (tasks, found, apart_kept, polls, running)) =
      event_loop_once (start_line method target version) x hs body before after fd accept events d
        ds s hl hh bound small len whole open_all runs shape other known in
    let held =
      ap (λ t. t.raw_http) (client_at_known fd last s'.m_active_clients found)
      ∙ after_reads-raw_http all_events (new_client fd)
      ∙ whole in
    (
      s',
      ran,
      tasks ∙ ap (λ t. s.tasks ++ (if t then [] else fd ∷ [])) apart,
      task-Answered json name handler types m s'.m_active_clients fd method target version x hs body
          req resp sock registered processed free has fits others held hm ht read says room,
    )
