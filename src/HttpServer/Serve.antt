-- ===== src/HttpServer/Serve.antt =====
-- server/HttpServer.cpp: from the read that completes a request to the answer of the router.
use web_library.Base.{
  ℕ, ◌^◌, ◌<◌, List, [], ◌∷◌, ◌++◌, true, false, Bytes, codes, length, ◌==◌, ==_refl, ℤ, is_empty,
  if◌then◌else◌, ok, some, All, Lacks, ◌≡◌, refl, ap, ◌∙◌, append_assoc, append-nil, ◌>>=◌, join,
  map,
}
use web_library.Json.{JsonLib}
use web_library.Socket.{lift, try_catch}
use web_library.RequestType.{req_type_from_str}
use web_library.Utils.{parse_request_line}
use web_library.Utils.RequestLine.{parse_request_line-print}
use web_library.HttpHeaders.Parse.{Header, header_section, header_line}
use web_library.HttpRequest.{crnl, crnlcrnl}
use web_library.HttpRequest.Lines.{IsLine}
use web_library.HttpRequest.Cuts.{start_line}
use web_library.HttpRequest.Message.{message, IsMessageHeader, message_shape}
use web_library.HttpBinder.{HttpBinder}
use web_library.HttpRouter.{process_request, handle_request}
use web_library.HttpServer.{
  Client, ClientMap, lookup_fd, assign_fd, lookup_fd-assign_fd, client_at, end_of_connection,
  received, is_zero, with_length, read_request, handle_incoming_request, AcceptEvent, Polled, idle,
  ready, HttpServer, Round, keep, visit, visit_all, read_client, after_request, start_round,
  end_round, run_round,
}
use web_library.HttpServer.Read.{length_of, at_message}
use web_library.HttpServer.Accept.{visit_all-idle}

abbrev pub idles : List ℕ → List Polled
idles [] = []
idles (fd ∷ fds) = idle ∷ idles fds

pub visit_all-idles :
    (l : ℕ) (fds rest : List ℕ) (events : List Polled) (r : Round)
    → visit_all l (fds ++ rest) (idles fds ++ events) r
      ≡ visit_all l rest events (record r { kept = r.kept ++ fds })
unfolding visit_all visit keep
visit_all-idles l [] rest events r = rw (append-nil r.kept) refl
visit_all-idles l (fd ∷ fds) rest events r =
    visit_all-idles l fds rest events (keep fd r)
    ∙ ap (λ t. visit_all l rest events (record r { kept = t })) (append_assoc r.kept (fd ∷ []) fds)

pub client_at_known :
    (fd : ℕ) (c : Client) (m : ClientMap) → lookup_fd fd m ≡ some c → client_at fd m ≡ c
unfolding client_at
client_at_known fd c m h = rw (client_at, h) refl

client_at-assign_fd : (fd : ℕ) (c : Client) (m : ClientMap) → client_at fd (assign_fd fd c m) ≡ c
client_at-assign_fd fd c m =
    client_at_known fd c (assign_fd fd c m)
      (lookup_fd-assign_fd fd fd c m ∙ ap (λ t. if t then some c else lookup_fd fd m) (==_refl fd))

-- The request line of a message is read back.
parse-message :
    (method target version : Bytes) (x : Header) (hs : List Header) (body : Bytes)
    → Lacks 32 method
    → Lacks 32 target
    → parse_request_line (message (start_line method target version) (x ∷ hs) body)
      ≡ ok (method, target)
parse-message method target version x hs body hm ht =
    let tail = crnl ++ (header_section (x ∷ hs) ++ (crnlcrnl ++ body)) in
    let rest = (codes "HTTP/" ++ version) ++ tail in
    let shape : message (start_line method target version) (x ∷ hs) body
        ≡ method ++ 32 ∷ (target ++ 32 ∷ rest) =
      message_shape (start_line method target version) x hs body
      ∙ append_assoc method (32 ∷ (target ++ (codes " HTTP/" ++ version))) tail
      ∙ ap (λ t. method ++ 32 ∷ t) (append_assoc target (codes " HTTP/" ++ version) tail) in
    ap parse_request_line shape ∙ parse_request_line-print method target rest hm ht

process-message :
    (json : JsonLib) (m_handles : HttpBinder) (method target version : Bytes) (x : Header)
    (hs : List Header) (body : Bytes)
    → Lacks 32 method
    → Lacks 32 target
    → process_request json m_handles (message (start_line method target version) (x ∷ hs) body)
      ≡ handle_request json m_handles target
          (message (start_line method target version) (x ∷ hs) body)
          (req_type_from_str method)
unfolding process_request
process-message json m_handles method target version x hs body hm ht =
    rw (process_request, parse-message method target version x hs body hm ht) refl

is_empty_append : (s : Bytes) (d : ℕ) (ds : Bytes) → is_empty (s ++ d ∷ ds) ≡ false
is_empty_append [] d ds = refl
is_empty_append (x ∷ s) d ds = refl

task-raw :
    (json : JsonLib) (m_handles : HttpBinder) (clients : ClientMap) (fd : ℕ) (raw : Bytes)
    → (client_at fd clients).raw_http ≡ raw
    → is_empty raw ≡ false
    → (handle_incoming_request json m_handles clients fd).1
      ≡ try_catch (process_request json m_handles raw) (λ ex. lift (ok tt))
unfolding handle_incoming_request
task-raw json m_handles clients fd raw h filled = rw (handle_incoming_request, h, filled) refl

-- The task of a connection whose client holds a message.
pub task-message :
    (json : JsonLib) (m_handles : HttpBinder) (clients : ClientMap) (fd : ℕ)
    (method target version : Bytes) (x : Header) (hs : List Header) (body : Bytes)
    → (client_at fd clients).raw_http ≡ message (start_line method target version) (x ∷ hs) body
    → Lacks 32 method
    → Lacks 32 target
    → (handle_incoming_request json m_handles clients fd).1
      ≡ try_catch
          (handle_request json m_handles target
            (message (start_line method target version) (x ∷ hs) body)
            (req_type_from_str method))
          (λ ex. lift (ok tt))
task-message json m_handles clients fd method target version x hs body h hm ht =
    let line = start_line method target version in
    let raw = message line (x ∷ hs) body in
    let filled : is_empty raw ≡ false =
      is_empty_append (join crnl (line ∷ map header_line (x ∷ hs))) b'\r'
        (codes "\n\r\n" ++ body) in
    task-raw json m_handles clients fd raw h filled
    ∙ ap (λ t. try_catch t (λ ex. lift (ok tt)))
        (process-message json m_handles method target version x hs body hm ht)

-- A read that completes a request, in a round in which nothing else is reported.
visit_complete :
    (l fd : ℕ) (accept : AcceptEvent) (c c' : Client) (d : ℕ) (ds : Bytes) (r : Round)
    → (fd == l) ≡ false
    → lookup_fd fd r.clients ≡ some c
    → read_request (received (d ∷ ds)) c ≡ (ok end_of_connection, c')
    → c'.fd ≡ fd
    → visit l fd (ready accept (received (d ∷ ds))) r
      ≡ ok
          (keep fd (record r { clients = assign_fd fd c' r.clients; queued = r.queued ++ fd ∷ [] }))
unfolding visit read_client after_request
visit_complete l fd accept c c' d ds r other known complete own =
    rw
      (
        other,
        client_at_known fd c r.clients known,
        complete,
        own,
        visit,
        read_client,
        after_request,
      )
      refl

-- A round of the event loop in which poll() reports one connection, and the read on it completes a request
-- with headers and a Content-Length of zero or none: the descriptor is handed to the thread pool, behind
-- the tasks that are there, and the task does what the router does with the method, the target and the
-- bytes of that request; an exception of it is caught.
pub run_round-served :
    (json : JsonLib) (m_handles : HttpBinder) (s : HttpServer) (before after : List ℕ) (fd : ℕ)
    (accept : AcceptEvent) (c : Client) (d : ℕ) (ds method target version : Bytes) (x : Header)
    (hs : List Header) (body : Bytes) (n : ℤ)
    → s.poll_fds ≡ before ++ fd ∷ after
    → (fd == s.m_listen_socket) ≡ false
    → lookup_fd fd s.m_active_clients ≡ some c
    → c.fd ≡ fd
    → c.is_in_body ≡ false
    → c.raw_http ++ d ∷ ds ≡ message (start_line method target version) (x ∷ hs) body
    → Lacks 32 method
    → Lacks 32 target
    → IsLine (start_line method target version)
    → All IsMessageHeader (x ∷ hs)
    → length (message (start_line method target version) (x ∷ hs) body) < 2 ^ 64
    → length_of (x ∷ hs) ≡ ok n
    → is_zero n ≡ true
    → (s' : HttpServer) × (run_round (idles before ++ ready accept (received (d ∷ ds)) ∷ []) s
        ≡ ok s')
      × (s'.tasks ≡ s.tasks ++ fd ∷ [])
      × ((handle_incoming_request json m_handles s'.m_active_clients fd).1
          ≡ try_catch
              (handle_request json m_handles target
                (message (start_line method target version) (x ∷ hs) body)
                (req_type_from_str method))
              (λ ex. lift (ok tt)))
unfolding run_round start_round end_round with_length visit_all handle_incoming_request
    process_request keep
run_round-served json m_handles s before after fd accept c d ds method target version x hs body n
      shape other known own out whole hm ht hl hh bound len zero_length =
    let raw = message (start_line method target version) (x ∷ hs) body in
    let (p, size, e) =
      at_message c d ds (start_line method target version) x hs body out whole hl hh bound in
    let c' : Client = record c { raw_http = raw; header_end_pos = p; content_length = n } in
    let complete : read_request (received (d ∷ ds)) c ≡ (ok end_of_connection, c') =
      e ∙ rw (len, zero_length, with_length) refl in
    let event : Polled = ready accept (received (d ∷ ds)) in
    let l = s.m_listen_socket in
    let r1 : Round = record (start_round s) { kept = before } in
    let r2 : Round =
      keep fd
        (record r1 { clients = assign_fd fd c' s.m_active_clients; queued = s.tasks ++ fd ∷ [] }) in
    let r3 : Round = record r2 { kept = r2.kept ++ after } in
    let visited : visit l fd event r1 ≡ ok r2 =
      visit_complete l fd accept c c' d ds r1 other known complete own in
    let ran : visit_all l s.poll_fds (idles before ++ event ∷ []) (start_round s) ≡ ok r3 =
      ap (λ t. visit_all l t (idles before ++ event ∷ []) (start_round s)) shape
      ∙ visit_all-idles l before (fd ∷ after) (event ∷ []) (start_round s)
      ∙ ap (λ t. t >>= visit_all l after []) visited
      ∙ visit_all-idle l after r2 in
    let at_fd = client_at-assign_fd fd c' s.m_active_clients in
    let raw_at : (client_at fd (assign_fd fd c' s.m_active_clients)).raw_http ≡ raw =
      ap (λ t. t.raw_http) at_fd in
    (
      end_round s r3,
      ap (λ t. t >>= λ r. ok (end_round s r)) ran,
      refl,
      task-message json m_handles (assign_fd fd c' s.m_active_clients) fd method target version x hs
          body raw_at hm ht,
    )
