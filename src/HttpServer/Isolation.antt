-- ===== src/HttpServer/Isolation.antt =====
-- server/HttpServer.cpp: what a round of the event loop does to the clients of the other connections.
mod Tests
use web_library.Base.{
  ℕ, List, [], ◌∷◌, ◌++◌, Bool, true, false, ◌==◌, ==_iff, Option, none, some, Option-cases,
  Bool-cases, Result, ok, throw, undefined, ◌>>=◌, >>=-eq-ok, if◌then◌else◌, or_else, ◌⊎◌, inl, inr,
  append_assoc, append-nil, ◌≡◌, refl, sym, ap, subst, ◌∙◌, arith,
}
use web_library.HttpServer.{
  Client, ClientMap, new_client, lookup_fd, assign_fd, erase_fd, emplace_fd, lookup_fd-assign_fd,
  lookup_fd-erase_fd, lookup_fd-emplace_fd, client_at, State, read_more, connection_aborted,
  end_of_connection, connection_error, ReadEvent, read_request, AcceptEvent, accepted, flags_failed,
  accept_failed, Polled, idle, ready, HttpServer, Round, keep, visit, visit_all, accept_client,
  read_client, after_request, start_round, end_round, run_round,
}
use web_library.HttpServer.Loop.{ok_injective}
use web_library.HttpServer.Switch.{read_request-fd}

-- Each client has the descriptor it stands under, or 0 where operator[] has made it.
abbrev pub Owned : ClientMap → Type 0
Owned m = (fd : ℕ) (c : Client) → lookup_fd fd m ≡ some c → (c.fd ≡ fd) ⊎ (c.fd ≡ 0)

-- No connection is accepted on the descriptor j.
abbrev pub Spares : ℕ → AcceptEvent → Type 0
Spares j (accepted k) = (k == j) ≡ false
Spares j _ = Unit

-- Nothing is reported of the descriptor j, and no connection is accepted on it.
abbrev pub Untouched : ℕ → List ℕ → List Polled → Type 0
Untouched j [] events = Unit
Untouched j (fd ∷ fds) [] = Unit
Untouched j (fd ∷ fds) (idle ∷ events) = Untouched j fds events
Untouched j (fd ∷ fds) (ready accept event ∷ events) =
    ((fd == j) ≡ false) × Spares j accept × Untouched j fds events

client_at-fd :
    (fd : ℕ) (m : ClientMap) → Owned m → ((client_at fd m).fd ≡ fd) ⊎ ((client_at fd m).fd ≡ 0)
unfolding client_at
client_at-fd fd m owned = elim (Option-cases (lookup_fd fd m)) [
  | inl lost ↦ inr (rw (client_at, lost) refl)
  | inr (c, found) ↦ rw (client_at, found) (owned fd c found)
]

pub Owned-assign_fd :
    (fd : ℕ) (c : Client) (m : ClientMap)
    → Owned m
    → (c.fd ≡ fd) ⊎ (c.fd ≡ 0)
    → Owned (assign_fd fd c m)
Owned-assign_fd fd c m owned mine j d found =
    let e = lookup_fd-assign_fd fd j c m in ground (arith, e, found, owned j d, ==_iff fd j, mine)

Owned-erase_fd : (fd : ℕ) (m : ClientMap) → Owned m → Owned (erase_fd fd m)
Owned-erase_fd fd m owned j d found =
    let e = lookup_fd-erase_fd fd j m in ground (arith, e, found, owned j d)

pub Owned-emplace_fd : (k : ℕ) (m : ClientMap) → Owned m → Owned (emplace_fd k (new_client k) m)
Owned-emplace_fd k m owned j d found =
    let e = lookup_fd-emplace_fd k j (new_client k) m in
    ground (arith, e, found, owned j d, ==_iff k j)

-- The tasks of the descriptor j.
abbrev pub share : ℕ → List ℕ → List ℕ
share j [] = []
share j (k ∷ ks) = (if k == j then j ∷ [] else []) ++ share j ks

pub share-append : (j : ℕ) (xs ys : List ℕ) → share j (xs ++ ys) ≡ share j xs ++ share j ys
share-append j [] ys = refl
share-append j (x ∷ xs) ys =
    ap (λ t. (if x == j then j ∷ [] else []) ++ t) (share-append j xs ys)
    ∙ sym (append_assoc (if x == j then j ∷ [] else []) (share j xs) (share j ys))

share_other : (j k : ℕ) (xs : List ℕ) → (k == j) ≡ false → share j (xs ++ k ∷ []) ≡ share j xs
share_other j k xs h =
    share-append j xs (k ∷ [])
    ∙ ap (λ b. share j xs ++ ((if b then j ∷ [] else []) ++ [])) h
    ∙ append-nil (share j xs)

-- What one step of a round keeps for the descriptor j.
abbrev pub Keeps : ℕ → Round → Round → Type 0
Keeps j r r' =
    (lookup_fd j r'.clients ≡ lookup_fd j r.clients)
    × (share j r'.queued ≡ share j r.queued)
    × Owned r'.clients

or_else-none : (o : Option Client) → or_else o none ≡ o
or_else-none none = refl
or_else-none (some c) = refl

Untouched-rest : (j : ℕ) (fds : List ℕ) → Untouched j fds []
Untouched-rest j [] = tt
Untouched-rest j (fd ∷ fds) = tt

module _ (j : ℕ) (other : (j == 0) ≡ false) where
  Keeps-erase_fd :
      (fd : ℕ) (r : Round)
      → (fd == j) ≡ false
      → Owned r.clients
      → Keeps j r (record r { clients = erase_fd fd r.clients })
  Keeps-erase_fd fd r apart owned =
      (lookup_fd-erase_fd fd j r.clients ∙ rw apart refl, refl, Owned-erase_fd fd r.clients owned)

  after_request-Keeps :
      (state : State) (fd client_fd : ℕ) (r : Round)
      → (client_fd == j) ≡ false
      → Owned r.clients
      → Keeps j r (after_request state fd client_fd r)
  unfolding after_request keep
  after_request-Keeps read_more fd client_fd r apart owned = (refl, refl, owned)
  after_request-Keeps end_of_connection fd client_fd r apart owned =
      (refl, share_other j client_fd r.queued apart, owned)
  after_request-Keeps connection_aborted fd client_fd r apart owned =
      Keeps-erase_fd client_fd r apart owned
  after_request-Keeps connection_error fd client_fd r apart owned =
      Keeps-erase_fd client_fd r apart owned

  read_client-Keeps :
      (fd : ℕ) (event : ReadEvent) (r : Round) {r' : Round}
      → read_client fd event r ≡ ok r'
      → (fd == j) ≡ false
      → Owned r.clients
      → Keeps j r r'
  unfolding read_client
  read_client-Keeps fd event r {r'} h apart owned =
      let c = client_at fd r.clients in
      let answer = read_request event c in
      let own = client_at-fd fd r.clients owned in
      let same_fd = read_request-fd event c in
      let mine : (answer.1.fd ≡ fd) ⊎ (answer.1.fd ≡ 0) = ground (arith, own, same_fd) in
      let away : (answer.1.fd == j) ≡ false =
        ground (arith, mine, apart, other, ==_iff answer.1.fd j, ==_iff fd j, ==_iff j 0) in
      let base : Round = record r { clients = assign_fd fd answer.1 r.clients } in
      let (state, e, e') = >>=-eq-ok answer.0 _ h in
      let same : after_request state fd answer.1.fd base ≡ r' = ok_injective e' in
      let (kept, shared, owned') =
        after_request-Keeps state fd answer.1.fd base away
          (Owned-assign_fd fd answer.1 r.clients owned mine) in
      subst (λ t. Keeps j r t) same
        (kept ∙ (lookup_fd-assign_fd fd j answer.1 r.clients ∙ rw apart refl), shared, owned')

  accept_client-Keeps :
      (event : AcceptEvent) (r : Round) {r' : Round}
      → accept_client event r ≡ ok r'
      → Spares j event
      → Owned r.clients
      → Keeps j r r'
  unfolding accept_client
  accept_client-Keeps (accepted k) r h apart owned =
      let same : lookup_fd j (emplace_fd k (new_client k) r.clients) ≡ lookup_fd j r.clients =
        lookup_fd-emplace_fd k j (new_client k) r.clients
        ∙ ap (λ b. or_else (lookup_fd j r.clients) (if b then some (new_client k) else none)) apart
        ∙ or_else-none (lookup_fd j r.clients) in
      subst (λ t. Keeps j r t) (ok_injective h) (same, refl, Owned-emplace_fd k r.clients owned)
  accept_client-Keeps flags_failed r h apart owned = cc
  accept_client-Keeps accept_failed r h apart owned =
      subst (λ t. Keeps j r t) (ok_injective h) (refl, refl, owned)

  pub visit-Keeps :
      (l fd : ℕ) (accept : AcceptEvent) (event : ReadEvent) (r : Round) {r' : Round}
      → visit l fd (ready accept event) r ≡ ok r'
      → (fd == j) ≡ false
      → Spares j accept
      → Owned r.clients
      → Keeps j r r'
  unfolding visit keep
  visit-Keeps l fd accept event r h apart spared owned = elim (Bool-cases (fd == l)) [
    | inl own ↦ accept_client-Keeps accept (keep fd r) (rw (own, visit) at h) spared owned
    | inr client ↦ read_client-Keeps fd event r (rw (client, visit) at h) apart owned
  ]

  pub visit_all-Keeps :
      (l : ℕ) (fds : List ℕ) (events : List Polled) (r : Round) {r' : Round}
      → visit_all l fds events r ≡ ok r'
      → Untouched j fds events
      → Owned r.clients
      → Keeps j r r'
  unfolding visit_all visit keep
  visit_all-Keeps l [] events r h far owned =
      subst (λ t. Keeps j r t) (ok_injective h) (refl, refl, owned)
  visit_all-Keeps l (fd ∷ fds) [] r h far owned =
      visit_all-Keeps l fds [] (keep fd r) h (Untouched-rest j fds) owned
  visit_all-Keeps l (fd ∷ fds) (idle ∷ events) r h far owned =
      visit_all-Keeps l fds events (keep fd r) h far owned
  visit_all-Keeps l (fd ∷ fds) (ready accept event ∷ events) r {r'} h (apart, spared, far) owned =
      let (mid, e, e') = >>=-eq-ok (visit l fd (ready accept event) r) _ h in
      let (first, shared, owned') = visit-Keeps l fd accept event r e apart spared owned in
      let (later, shared', owned'') = visit_all-Keeps l fds events mid e' far owned' in
      (later ∙ first, shared' ∙ shared, owned'')

-- A round of the event loop leaves the client and the tasks of a descriptor as they were, if poll()
-- reports nothing of that descriptor and no connection is accepted on it: reads on other connections,
-- their ends and their failures do not change them. This is so for every descriptor but 0, which a client
-- that operator[] has made has, in a table in which each client has the descriptor it stands under or 0;
-- and the round leaves the table such a one.
pub run_round-Untouched :
    (j : ℕ) (events : List Polled) (s : HttpServer) {s' : HttpServer}
    → (j == 0) ≡ false
    → Owned s.m_active_clients
    → Untouched j s.poll_fds events
    → run_round events s ≡ ok s'
    → (lookup_fd j s'.m_active_clients ≡ lookup_fd j s.m_active_clients)
      × (share j s'.tasks ≡ share j s.tasks)
      × Owned s'.m_active_clients
unfolding run_round start_round end_round
run_round-Untouched j events s {s'} other owned far h =
    let (r, e, e') =
      >>=-eq-ok (visit_all s.m_listen_socket s.poll_fds events (start_round s)) _ h in
    subst
      (λ t.
        (lookup_fd j t.m_active_clients ≡ lookup_fd j s.m_active_clients)
        × (share j t.tasks ≡ share j s.tasks)
        × Owned t.m_active_clients)
      (ok_injective e')
      (visit_all-Keeps j other s.m_listen_socket s.poll_fds events (start_round s) e far owned)
