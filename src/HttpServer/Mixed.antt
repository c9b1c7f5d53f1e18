-- ===== src/HttpServer/Mixed.antt =====
-- server/HttpServer.cpp: the rounds of the event loop that read one connection, among any others.
pub mod Request
pub mod Life
mod Tests
use web_library.Base.{
  ℕ, List, [], ◌∷◌, ◌++◌, Bool, true, false, ◌==◌, ==_refl, ==_iff, Option, some, ok, >>=-eq-ok,
  if◌then◌else◌, ◌⊎◌, inl, inr, ◌≡◌, refl, sym, ap, subst, ◌∙◌, arith, append_assoc, append-nil,
}
use web_library.HttpServer.{
  Client, ClientMap, lookup_fd, assign_fd, lookup_fd-assign_fd, State, read_more,
  connection_aborted, end_of_connection, connection_error, ReadEvent, read_request, AcceptEvent,
  Polled, idle, ready, HttpServer, Round, keep, visit, visit_all, after_request, start_round,
  end_round, run_round,
}
use web_library.HttpServer.Loop.{ok_injective}
use web_library.HttpServer.Switch.{is_gone, is_complete, read_request-fd, visit-read}
use web_library.HttpServer.Isolation.{
  Owned, Spares, Untouched, share, share-append, visit-Keeps, visit_all-Keeps, Owned-assign_fd,
}

-- One read of the descriptor j is reported, with this event, and what else is reported leaves j alone.
abbrev pub Touched : ℕ → ReadEvent → List ℕ → List Polled → Type 0
Touched j event [] events = ⊥
Touched j event (fd ∷ fds) [] = ⊥
Touched j event (fd ∷ fds) (idle ∷ events) = Touched j event fds events
Touched j event (fd ∷ fds) (ready accept e ∷ events) =
    (((fd == j) ≡ false) × Spares j accept × Touched j event fds events)
    ⊎ ((fd ≡ j) × (e ≡ event) × Untouched j fds events)

abbrev pub own_task : ℕ → State → List ℕ
own_task j state = if is_complete state then j ∷ [] else []

-- What a step of a round that reads the descriptor j makes of it.
abbrev pub Reads : ℕ → State → Client → Round → Round → Type 0
Reads j state c' r r' =
    (lookup_fd j r'.clients ≡ some c')
    × (share j r'.queued ≡ share j r.queued ++ own_task j state)
    × Owned r'.clients

share_own : (j k : ℕ) (xs : List ℕ) → k ≡ j → share j (xs ++ k ∷ []) ≡ share j xs ++ j ∷ []
share_own j k xs h =
    share-append j xs (k ∷ [])
    ∙ ap (λ b. share j xs ++ ((if b then j ∷ [] else []) ++ [])) (ap (λ t. t == j) h ∙ ==_refl j)

module _ (j : ℕ) (c' : Client) (r : Round) where
  assigned : lookup_fd j (assign_fd j c' r.clients) ≡ some c'
  assigned =
      lookup_fd-assign_fd j j c' r.clients
      ∙ ap (λ b. if b then some c' else lookup_fd j r.clients) (==_refl j)

  after_request-Reads :
      (state : State)
      → is_gone state ≡ false
      → c'.fd ≡ j
      → Owned r.clients
      → Reads j state c' r
          (after_request state j c'.fd (record r { clients = assign_fd j c' r.clients }))
  unfolding after_request keep
  after_request-Reads read_more stays own owned = (
    assigned,
    sym (append-nil (share j r.queued)),
    Owned-assign_fd j c' r.clients owned (inl own),
  )
  after_request-Reads end_of_connection stays own owned =
      (assigned, share_own j c'.fd r.queued own, Owned-assign_fd j c' r.clients owned (inl own))
  after_request-Reads connection_aborted stays own owned = absurd (cc)
  after_request-Reads connection_error stays own owned = absurd (cc)

module _ (j l : ℕ) (other : (j == 0) ≡ false) (apart : (j == l) ≡ false) (c c' : Client)
    (event : ReadEvent) (state : State) (stays : is_gone state ≡ false) (own : c.fd ≡ j)
    (read : read_request event c ≡ (ok state, c')) where
  visit-Reads :
      (accept : AcceptEvent) (r : Round) {r' : Round}
      → visit l j (ready accept event) r ≡ ok r'
      → lookup_fd j r.clients ≡ some c
      → Owned r.clients
      → Reads j state c' r r'
  visit-Reads accept r {r'} h known owned =
      let own' : c'.fd ≡ j = sym (ap (λ t. t.1.fd) read) ∙ read_request-fd event c ∙ own in
      subst (Reads j state c' r)
        (ok_injective (sym (visit-read l j accept event c c' r (ok state) apart known read) ∙ h))
        (after_request-Reads j c' r state stays own' owned)

  visit_all-Touched :
      (fds : List ℕ) (events : List Polled) (r : Round) {r' : Round}
      → visit_all l fds events r ≡ ok r'
      → Touched j event fds events
      → lookup_fd j r.clients ≡ some c
      → Owned r.clients
      → Reads j state c' r r'
  unfolding visit_all visit keep
  visit_all-Touched [] events r h touched known owned = absurd touched
  visit_all-Touched (fd ∷ fds) [] r h touched known owned = absurd touched
  visit_all-Touched (fd ∷ fds) (idle ∷ events) r h touched known owned =
      visit_all-Touched fds events (keep fd r) h touched known owned
  visit_all-Touched (fd ∷ fds) (ready accept e ∷ events) r h (inl (away, spared, touched)) known
        owned =
      let (mid, e1, e2) = >>=-eq-ok (visit l fd (ready accept e) r) _ h in
      let (same, shared, owned') = visit-Keeps j other l fd accept e r e1 away spared owned in
      let (found, queued, owned'') =
        visit_all-Touched fds events mid e2 touched (same ∙ known) owned' in
      (found, queued ∙ ap (λ t. t ++ own_task j state) shared, owned'')
  visit_all-Touched (fd ∷ fds) (ready accept e ∷ events) r h (inr (here, this, far)) known owned =
      let (mid, e1, e2) = >>=-eq-ok (visit l fd (ready accept e) r) _ h in
      let mine : visit l j (ready accept event) r ≡ ok mid =
        sym (
          ap (λ t. visit l t (ready accept e) r) here ∙ ap (λ t. visit l j (ready accept t) r) this)
        ∙ e1 in
      let (found, queued, owned') = visit-Reads accept r mine known owned in
      let (same, shared, owned'') = visit_all-Keeps j other l fds events mid e2 far owned' in
      (same ∙ found, shared ∙ queued, owned'')

-- A round that reads the connection j, among others.
pub run_round-Touched :
    (j : ℕ) (events : List Polled) (s : HttpServer) {s' : HttpServer} (c c' : Client)
    (event : ReadEvent) (state : State)
    → (j == 0) ≡ false
    → (j == s.m_listen_socket) ≡ false
    → Owned s.m_active_clients
    → Touched j event s.poll_fds events
    → lookup_fd j s.m_active_clients ≡ some c
    → c.fd ≡ j
    → is_gone state ≡ false
    → read_request event c ≡ (ok state, c')
    → run_round events s ≡ ok s'
    → (lookup_fd j s'.m_active_clients ≡ some c')
      × (share j s'.tasks ≡ share j s.tasks ++ own_task j state)
      × Owned s'.m_active_clients
      × (s'.m_listen_socket ≡ s.m_listen_socket)
unfolding run_round start_round end_round
run_round-Touched j events s {s'} c c' event state other apart owned touched known own stays read
      h =
    let (r, e, e') =
      >>=-eq-ok (visit_all s.m_listen_socket s.poll_fds events (start_round s)) _ h in
    let (found, queued, owned') =
      visit_all-Touched j s.m_listen_socket other apart c c' event state stays own read s.poll_fds
        events (start_round s) e touched known owned in
    subst
      (λ t.
        (lookup_fd j t.m_active_clients ≡ some c')
        × (share j t.tasks ≡ share j s.tasks ++ own_task j state)
        × Owned t.m_active_clients
        × (t.m_listen_socket ≡ s.m_listen_socket))
      (ok_injective e') (found, queued, owned', refl)

pub run_round-m_listen_socket :
    (events : List Polled) (s : HttpServer) {s' : HttpServer}
    → run_round events s ≡ ok s'
    → s'.m_listen_socket ≡ s.m_listen_socket
unfolding run_round end_round
run_round-m_listen_socket events s {s'} h =
    let (r, e, e') =
      >>=-eq-ok (visit_all s.m_listen_socket s.poll_fds events (start_round s)) _ h in
    subst (λ t. t.m_listen_socket ≡ s.m_listen_socket) (ok_injective e') refl

-- Rounds of the event loop, one after another: in some of them the connection j is read, with these events
-- in their order, and the others leave it alone.
pub data Rounds (j : ℕ) : List ReadEvent → HttpServer → HttpServer → Type 0 where
  done : {s : HttpServer} → Rounds j [] s s
  mine :
      {event : ReadEvent} {events : List ReadEvent} {s s1 s2 : HttpServer}
      → (reported : List Polled) → Touched j event s.poll_fds reported
      → run_round reported s ≡ ok s1
      → Rounds j events s1 s2
      → Rounds j (event ∷ events) s s2
  others :
      {events : List ReadEvent} {s s1 s2 : HttpServer}
      → (reported : List Polled) → Untouched j s.poll_fds reported
      → run_round reported s ≡ ok s1
      → Rounds j events s1 s2
      → Rounds j events s s2
