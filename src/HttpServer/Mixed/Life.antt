-- ===== src/HttpServer/Mixed/Life.antt =====
-- server/HttpServer.cpp: a connection from its accept() to the answer to its request, among others.
use web_library.Base.{
  ℕ, ◌^◌, ◌<◌, List, [], ◌∷◌, ◌++◌, true, false, not, ◌&&◌, Bytes, any, all, lookup, length, ltb,
  ◌==◌, ==_refl, pos, ok, none, some, or_else, >>=-eq-ok, All, Lacks, if◌then◌else◌, ◌⊎◌, inl, inr,
  ◌≡◌, refl, sym, ap, subst, ◌∙◌,
}
use web_library.Json.{JsonLib}
use web_library.Socket.{Socket}
use web_library.RequestType.{RequestType, type_eq, req_type_from_str}
use web_library.Utils.{process_url_str, extract_params}
use web_library.HttpHeaders.Parse.{Header}
use web_library.HttpRequest.{HttpRequest, new_request}
use web_library.HttpRequest.Lines.{IsLine}
use web_library.HttpRequest.Cuts.{start_line}
use web_library.HttpRequest.Message.{message, IsMessageHeader}
use web_library.HttpResponse.{HttpResponse, respond}
use web_library.HttpHandle.{Handler}
use web_library.HttpBinder.{HttpBinder, register_handler, match_path}
use web_library.HttpBinder.Find.{Refuses}
use web_library.HttpRouter.Branches.{Answered, CanTake}
use web_library.HttpServer.{
  new_client, lookup_fd, emplace_fd, lookup_fd-emplace_fd, ReadEvent, received, accepted, Polled,
  idle, ready, HttpServer, Round, keep, accept_client, visit, visit_all, start_round, end_round,
  run_round, handle_incoming_request,
}
use web_library.HttpServer.Read.{all_data, length_of}
use web_library.HttpServer.Loop.{ok_injective}
use web_library.HttpServer.Chunks.{header_size}
use web_library.HttpServer.Chunks.Rounds.{stays_open}
use web_library.HttpServer.Isolation.{
  Owned, Spares, Untouched, share, visit-Keeps, visit_all-Keeps, Owned-emplace_fd,
}
use web_library.HttpServer.Mixed.{Rounds}
use web_library.HttpServer.Mixed.Request.{Rounds-Answered}

-- The listening socket l accepts the connection j, and what else is reported leaves j alone.
abbrev pub Accepts : ℕ → ℕ → List ℕ → List Polled → Type 0
Accepts j l [] events = ⊥
Accepts j l (fd ∷ fds) [] = ⊥
Accepts j l (fd ∷ fds) (idle ∷ events) = Accepts j l fds events
Accepts j l (fd ∷ fds) (ready accept e ∷ events) =
    (((fd == l) ≡ true) × (accept ≡ accepted j) × Untouched j fds events)
    ⊎ (((fd == j) ≡ false) × Spares j accept × Accepts j l fds events)

-- The client of j is new, and its tasks are those that it had.
abbrev Begins : ℕ → Round → Round → Type 0
Begins j r r' =
    (lookup_fd j r'.clients ≡ some (new_client j))
    × (share j r'.queued ≡ share j r.queued)
    × Owned r'.clients

accepted-Begins :
    (j l fd : ℕ) (e : ReadEvent) (r : Round) {r' : Round}
    → visit l fd (ready (accepted j) e) r ≡ ok r'
    → (fd == l) ≡ true
    → lookup_fd j r.clients ≡ none
    → Owned r.clients
    → Begins j r r'
unfolding visit accept_client keep
accepted-Begins j l fd e r h at_l lost owned =
    let found : lookup_fd j (emplace_fd j (new_client j) r.clients) ≡ some (new_client j) =
      lookup_fd-emplace_fd j j (new_client j) r.clients
      ∙ ap (λ o. or_else o (if j == j then some (new_client j) else none)) lost
      ∙ ap (λ b. if b then some (new_client j) else none) (==_refl j) in
    subst (Begins j r) (ok_injective (rw (at_l, visit) at h))
      (found, refl, Owned-emplace_fd j r.clients owned)

visit_all-Accepts :
    (j l : ℕ) (fds : List ℕ) (events : List Polled) (r : Round) {r' : Round}
    → (j == 0) ≡ false
    → visit_all l fds events r ≡ ok r'
    → Accepts j l fds events
    → lookup_fd j r.clients ≡ none
    → Owned r.clients
    → Begins j r r'
unfolding visit_all visit keep
visit_all-Accepts j l [] events r other h accepts lost owned = absurd accepts
visit_all-Accepts j l (fd ∷ fds) [] r other h accepts lost owned = absurd accepts
visit_all-Accepts j l (fd ∷ fds) (idle ∷ events) r other h accepts lost owned =
    visit_all-Accepts j l fds events (keep fd r) other h accepts lost owned
visit_all-Accepts j l (fd ∷ fds) (ready accept e ∷ events) r other h (inl (at_l, this, far)) lost
      owned =
    let (mid, e1, e2) = >>=-eq-ok (visit l fd (ready accept e) r) _ h in
    let mine : visit l fd (ready (accepted j) e) r ≡ ok mid =
      sym (ap (λ t. visit l fd (ready t e) r) this) ∙ e1 in
    let (found, queued, owned') = accepted-Begins j l fd e r mine at_l lost owned in
    let (same, shared, owned'') = visit_all-Keeps j other l fds events mid e2 far owned' in
    (same ∙ found, shared ∙ queued, owned'')
visit_all-Accepts j l (fd ∷ fds) (ready accept e ∷ events) r other h (inr (away, spared, accepts))
      lost owned =
    let (mid, e1, e2) = >>=-eq-ok (visit l fd (ready accept e) r) _ h in
    let (same, shared, owned') = visit-Keeps j other l fd accept e r e1 away spared owned in
    let (found, queued, owned'') =
      visit_all-Accepts j l fds events mid other e2 accepts (same ∙ lost) owned' in
    (found, queued ∙ shared, owned'')

run_round-Accepts :
    (j : ℕ) (events : List Polled) (s : HttpServer) {s' : HttpServer}
    → (j == 0) ≡ false
    → Accepts j s.m_listen_socket s.poll_fds events
    → lookup_fd j s.m_active_clients ≡ none
    → Owned s.m_active_clients
    → run_round events s ≡ ok s'
    → (lookup_fd j s'.m_active_clients ≡ some (new_client j))
      × (share j s'.tasks ≡ share j s.tasks)
      × Owned s'.m_active_clients
      × (s'.m_listen_socket ≡ s.m_listen_socket)
unfolding run_round start_round end_round
run_round-Accepts j events s {s'} other accepts lost owned h =
    let (r, e, e') =
      >>=-eq-ok (visit_all s.m_listen_socket s.poll_fds events (start_round s)) _ h in
    let (found, queued, owned') =
      visit_all-Accepts j s.m_listen_socket s.poll_fds events (start_round s) other e accepts lost
        owned in
    subst
      (λ t.
        (lookup_fd j t.m_active_clients ≡ some (new_client j))
        × (share j t.tasks ≡ share j s.tasks)
        × Owned t.m_active_clients
        × (t.m_listen_socket ≡ s.m_listen_socket))
      (ok_injective e') (found, queued, owned', refl)

-- An endpoint that was registered without an error, under a processed name that was free, is asked for by
-- one connection, while others are accepted, read, answered and closed. In one round of the loop the
-- connection is accepted, on a descriptor j that has no client; in some of the later rounds it is read,
-- in the same round as others or not, and all other rounds leave it alone. Its request comes in whatever
-- pieces, and with it the reads end: none of them fails or finds the end of the stream, Content-Length is
-- the number of bytes of the body, and if there is a body, the last read is not the one that completes
-- the header section. The method is one of the endpoint's, the target matches the processed name, every
-- other endpoint refuses it, it can be parsed with the parameters of the name, and the handler answers it
-- with `resp`. Then, whatever the others sent, the descriptor has got one task more, and this task, begun
-- behind the rounds, writes exactly the printed `resp` to a socket that lasts and accepts that many bytes.
-- The rounds end without an exception; j is not 0 and not the listening socket; each client has the
-- descriptor it stands under, or 0. The request has a header and its headers are well-formed; it is below
-- 2 ^ 64 bytes, with a body below 2 ^ 31.
pub accepted-Answered :
    (json : JsonLib) (name : Bytes) (handler : Handler) (types : List RequestType)
    (m_handles : HttpBinder) {m_handles' : HttpBinder} {key : Bytes} (s0 s s' : HttpServer)
    (reported : List Polled) (j : ℕ) (events : List ReadEvent) (d : ℕ)
    (ds method target version : Bytes) (x : Header) (hs : List Header) (body : Bytes)
    (req : HttpRequest) (resp : HttpResponse) (sock : Socket)
    → register_handler name handler types m_handles ≡ ok m_handles'
    → process_url_str name ≡ ok key
    → lookup key m_handles ≡ none
    → any (λ t. type_eq t (req_type_from_str method)) types ≡ true
    → match_path key target ≡ ok true
    → All (Refuses target (req_type_from_str method)) m_handles
    → IsLine (start_line method target version)
    → All IsMessageHeader (x ∷ hs)
    → length (message (start_line method target version) (x ∷ hs) body) < 2 ^ 64
    → length body < 2 ^ 31
    → length_of (x ∷ hs) ≡ ok (pos (length body))
    → all_data (events ++ received (d ∷ ds) ∷ [])
      ≡ message (start_line method target version) (x ∷ hs) body
    → all stays_open events ≡ true
    → (ltb (length (all_data events)) (header_size (start_line method target version) (x ∷ hs))
        && not (length body == 0))
      ≡ false
    → (j == 0) ≡ false
    → (j == s0.m_listen_socket) ≡ false
    → Owned s0.m_active_clients
    → lookup_fd j s0.m_active_clients ≡ none
    → Accepts j s0.m_listen_socket s0.poll_fds reported
    → run_round reported s0 ≡ ok s
    → Rounds j (events ++ received (d ∷ ds) ∷ []) s s'
    → Lacks 32 method
    → Lacks 32 target
    → new_request
        (message (start_line method target version) (x ∷ hs) body)
        name
        (extract_params name)
      ≡ ok req
    → handler req ≡ respond resp
    → CanTake resp sock
    → (share j s'.tasks ≡ share j s0.tasks ++ j ∷ [])
      × Answered resp sock ((handle_incoming_request json m_handles' s'.m_active_clients j).1 sock)
accepted-Answered json name handler types m s0 s s' reported j events d ds method target version x
      hs body req resp sock registered processed free has fits refused hl hh bound small len whole
      open_all split other apart owned lost accepts ran later hm ht read says room =
    let (found, kept, owned', listens) =
      run_round-Accepts j reported s0 other accepts lost owned ran in
    let (tasks, answered) =
      Rounds-Answered json name handler types m s s' j events d ds method target version x hs body
        req resp sock registered processed free has fits refused hl hh bound small len whole
        open_all split other (ap (λ t. j == t) listens ∙ apart) owned' found later hm ht read says
        room in
    (tasks ∙ ap (λ t. t ++ j ∷ []) kept, answered)
