-- ===== src/HttpServer/Mixed/Request.antt =====
-- server/HttpServer.cpp: a request that is read in rounds which other connections share.
use web_library.Base.{
  ℕ, ◌+◌, ◌^◌, ◌<◌, List, [], ◌∷◌, ◌++◌, true, false, not, ◌&&◌, Bytes, any, all, lookup, length,
  length-append, ltb, ◌==◌, ℤ, pos, ok, none, some, All, Lacks, if◌then◌else◌, ◌≡◌, refl, sym, ap,
  ◌∙◌, append_assoc, append-nil,
}
use web_library.Json.{JsonLib}
use web_library.Socket.{Socket}
use web_library.RequestType.{RequestType, type_eq, req_type_from_str}
use web_library.Utils.{process_url_str, extract_params}
use web_library.HttpHeaders.Parse.{Header}
use web_library.HttpRequest.{HttpRequest, new_request}
use web_library.HttpRequest.Lines.{IsLine}
use web_library.HttpRequest.Cuts.{start_line}
use web_library.HttpRequest.Message.{message, IsMessageHeader}
use web_library.HttpResponse.{HttpResponse, respond}
use web_library.HttpHandle.{Handler}
use web_library.HttpBinder.{HttpBinder, register_handler, match_path}
use web_library.HttpBinder.Find.{Refuses}
use web_library.HttpRouter.Branches.{Answered, CanTake}
use web_library.HttpServer.{
  Client, lookup_fd, new_client, ReadEvent, received, read_request, handle_incoming_request,
  HttpServer,
}
use web_library.HttpServer.Read.{
  data_of, all_data, length_of, after_reads, after_reads-raw_http, read_request-keeps,
}
use web_library.HttpServer.Serve.{client_at_known}
use web_library.HttpServer.Switch.{read_request-fd}
use web_library.HttpServer.Chunks.{Reading, header_size, expected, all_expected}
use web_library.HttpServer.Chunks.Step.{read_step}
use web_library.HttpServer.Chunks.Calls.{begun}
use web_library.HttpServer.Chunks.Rounds.{stays_open, tasks_for, all_parts, expected_stays}
use web_library.HttpServer.Answer.{task-Answered}
use web_library.HttpServer.Delivery.{all-append, message_tasks}
use web_library.HttpServer.Isolation.{Owned, share, run_round-Untouched}
use web_library.HttpServer.Mixed.{
  own_task, run_round-Touched, run_round-m_listen_socket, Rounds, done, mine, others,
}

-- The client of the connection j after the rounds, and its tasks.
abbrev pub Followed : ℕ → Client → List ℕ → HttpServer → HttpServer → Type 0
Followed j c tasks s s' =
    (lookup_fd j s'.m_active_clients ≡ some c) × (share j s'.tasks ≡ share j s.tasks ++ tasks)

module _ (line : Bytes) (x : Header) (hs : List Header) (body : Bytes) (n : ℤ) (hl : IsLine line)
    (hh : All IsMessageHeader (x ∷ hs)) (bound : length (message line (x ∷ hs) body) < 2 ^ 64)
    (small : length body < 2 ^ 31) (len : length_of (x ∷ hs) ≡ ok n) (j : ℕ)
    (other : (j == 0) ≡ false) where
  Rounds-Reading :
      (events : List ReadEvent) (s s' : HttpServer) (c : Client) (rest : Bytes)
      → Rounds j events s s'
      → Reading line x hs body n (all_data events ++ rest) c
      → all stays_open events ≡ true
      → (j == s.m_listen_socket) ≡ false
      → Owned s.m_active_clients
      → lookup_fd j s.m_active_clients ≡ some c
      → c.fd ≡ j
      → Followed j
          (after_reads events c)
          (tasks_for j (all_expected (header_size line (x ∷ hs)) n (length c.raw_http) events))
          s
          s'
  Rounds-Reading events s s' c rest done reading open_all apart owned known own =
      (known, sym (append-nil (share j s.tasks)))
  Rounds-Reading events s s' c rest (others {s1 = s1} reported far ran later) reading open_all apart
        owned known own =
      let (same, shared, owned') = run_round-Untouched j reported s other owned far ran in
      let apart' = ap (λ t. j == t) (run_round-m_listen_socket reported s ran) ∙ apart in
      let (found, tasks) =
        Rounds-Reading events s1 s' c rest later reading open_all apart' owned' (same ∙ known)
          own in
      (
        found,
        tasks
            ∙ ap
                (λ t.
                  t
                  ++ tasks_for j
                      (all_expected (header_size line (x ∷ hs)) n (length c.raw_http) events))
                shared,
      )
  Rounds-Reading events s s' c rest
        (mine {event = event} {events = more} {s1 = s1} reported touched ran later) reading open_all
        apart owned known own =
      let after = all_data more ++ rest in
      let reading' : Reading line x hs body n (data_of event ++ after) c = (
        sym (ap (λ t. c.raw_http ++ t) (append_assoc (data_of event) (all_data more) rest))
            ∙ reading.0,
        reading.1,
        reading.2,
      ) in
      let (same, next) = read_step line x hs body n hl hh bound small len event c after reading' in
      let (stays_now, stays_on) = all_parts (stays_open event) (all stays_open more) open_all in
      let h = header_size line (x ∷ hs) in
      let state = expected h n (length c.raw_http) event in
      let c' = (read_request event c).1 in
      let (found, queued, owned', listens) =
        run_round-Touched j reported s c c' event state other apart owned touched known own
          (expected_stays h n (length c.raw_http) event stays_now) (ap (λ t. (t, c')) same) ran in
      let (last, tasks) =
        Rounds-Reading more s1 s' c' rest later next stays_on (ap (λ t. j == t) listens ∙ apart)
          owned' found (read_request-fd event c ∙ own) in
      let size : length c'.raw_http ≡ length c.raw_http + length (data_of event) =
        ap length (read_request-keeps event c) ∙ length-append c.raw_http (data_of event) in
      let tasks_from = λ (t : ℕ). tasks_for j (all_expected h n t more) in
      (
        last,
        tasks
            ∙ ap (λ t. t ++ tasks_from (length c'.raw_http)) queued
            ∙ append_assoc (share j s.tasks) (own_task j state) (tasks_from (length c'.raw_http))
            ∙ ap (λ t. share j s.tasks ++ (own_task j state ++ tasks_from t)) size,
      )

-- The request of a connection whose client is new.
pub Rounds-Answered :
    (json : JsonLib) (name : Bytes) (handler : Handler) (types : List RequestType)
    (m_handles : HttpBinder) {m_handles' : HttpBinder} {key : Bytes} (s s' : HttpServer) (j : ℕ)
    (events : List ReadEvent) (d : ℕ) (ds method target version : Bytes) (x : Header)
    (hs : List Header) (body : Bytes) (req : HttpRequest) (resp : HttpResponse) (sock : Socket)
    → register_handler name handler types m_handles ≡ ok m_handles'
    → process_url_str name ≡ ok key
    → lookup key m_handles ≡ none
    → any (λ t. type_eq t (req_type_from_str method)) types ≡ true
    → match_path key target ≡ ok true
    → All (Refuses target (req_type_from_str method)) m_handles
    → IsLine (start_line method target version)
    → All IsMessageHeader (x ∷ hs)
    → length (message (start_line method target version) (x ∷ hs) body) < 2 ^ 64
    → length body < 2 ^ 31
    → length_of (x ∷ hs) ≡ ok (pos (length body))
    → all_data (events ++ received (d ∷ ds) ∷ [])
      ≡ message (start_line method target version) (x ∷ hs) body
    → all stays_open events ≡ true
    → (ltb (length (all_data events)) (header_size (start_line method target version) (x ∷ hs))
        && not (length body == 0))
      ≡ false
    → (j == 0) ≡ false
    → (j == s.m_listen_socket) ≡ false
    → Owned s.m_active_clients
    → lookup_fd j s.m_active_clients ≡ some (new_client j)
    → Rounds j (events ++ received (d ∷ ds) ∷ []) s s'
    → Lacks 32 method
    → Lacks 32 target
    → new_request
        (message (start_line method target version) (x ∷ hs) body)
        name
        (extract_params name)
      ≡ ok req
    → handler req ≡ respond resp
    → CanTake resp sock
    → (share j s'.tasks ≡ share j s.tasks ++ j ∷ [])
      × Answered resp sock ((handle_incoming_request json m_handles' s'.m_active_clients j).1 sock)
Rounds-Answered json name handler types m {m_handles' = m'} s s' j events d ds method target version
      x hs body req resp sock registered processed free has fits refused hl hh bound small len whole
      open_all split other apart owned known ran hm ht read says room =
    let line = start_line method target version in
    let all_events = events ++ received (d ∷ ds) ∷ [] in
    let last = after_reads all_events (new_client j) in
    let n = pos (length body) in
    let reading =
      begun line x hs body n hl hh bound small len (new_client j) (all_data all_events ++ []) refl
        refl (append-nil (all_data all_events) ∙ whole) in
    let (found, tasks) =
      Rounds-Reading line x hs body n hl hh bound small len j other all_events s s' (new_client j)
        [] ran reading (all-append stays_open events (received (d ∷ ds) ∷ []) open_all refl) apart
        owned known refl in
    let held =
      ap (λ t. t.raw_http) (client_at_known j last s'.m_active_clients found)
      ∙ after_reads-raw_http all_events (new_client j)
      ∙ whole in
    (
      tasks
          ∙ ap (λ t. share j s.tasks ++ t)
              (message_tasks line x hs body j events d ds whole open_all
                ∙ ap (λ t. if t then [] else j ∷ []) split),
      task-Answered json name handler types m s'.m_active_clients j method target version x hs body
          req resp sock registered processed free has fits refused held hm ht read says room,
    )
