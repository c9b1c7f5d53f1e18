-- ===== src/HttpServer/Accept.antt =====
-- server/HttpServer.cpp: the event loop over many rounds, and a connection that is accepted.
use web_library.Base.{
  Bool, ◌||◌, Exception, ◌≢◌, ℕ, List, [], ◌∷◌, ◌++◌, true, false, some, ◌==◌, ==_iff, or_else,
  Result, ok, throw, undefined, ◌>>=◌, >>=-eq-ok, Bool-cases, inl, inr, ◌≡◌, refl, sym, ap, subst,
  ◌∙◌, append_assoc, append-nil,
}
use web_library.HttpServer.{
  new_client, lookup_fd, emplace_fd, lookup_fd-emplace_fd, ReadEvent, accepted, Polled, idle, ready,
  HttpServer, Round, keep, accept_client, visit, visit_all, start_round, end_round, run_round,
  stop_server, LoopEvent, polled, poll_failed, stopped, stopped_in_poll, loop_from, event_loop,
}
use web_library.HttpServer.Loop.{
  Extends, Extends-trans, accept_client-Grows, visit_all-Grows, ok_injective,
}

-- The listening socket is the first that poll() is asked about, and none of these tasks is lost.
abbrev pub Listens : List ℕ → HttpServer → Type 0
Listens tasks s = Extends (s.m_listen_socket ∷ []) s.poll_fds × Extends tasks s.tasks

visit-listening :
    (fd : ℕ) (event : Polled) (r : Round) {r' : Round}
    → visit fd fd event r ≡ ok r'
    → Extends (r.kept ++ fd ∷ []) r'.kept
unfolding visit keep
visit-listening fd idle r h =
    subst (λ t. Extends (r.kept ++ fd ∷ []) t.kept) (ok_injective h)
      ([], sym (append-nil (r.kept ++ fd ∷ [])))
visit-listening fd (ready accept event) r h =
    let same : (fd == fd) ≡ true = (==_iff fd fd).1 refl in
    (accept_client-Grows accept (keep fd r) (rw (same, visit) at h)).0

visit_all-listening :
    (fd : ℕ) (fds : List ℕ) (events : List Polled) (r : Round) {r' : Round}
    → visit_all fd (fd ∷ fds) events r ≡ ok r'
    → Extends (r.kept ++ fd ∷ []) r'.kept
unfolding visit_all keep
visit_all-listening fd fds [] r h = (visit_all-Grows fd fds [] (keep fd r) h).0
visit_all-listening fd fds (event ∷ events) r {r'} h =
    let (mid, e, e') = >>=-eq-ok (visit fd fd event r) _ h in
    Extends-trans (r.kept ++ fd ∷ []) mid.kept r'.kept (visit-listening fd event r e)
      (visit_all-Grows fd fds events mid e').0

run_round-Listens :
    (reported : List Polled) (s : HttpServer) {s' : HttpServer} (tasks : List ℕ)
    → run_round reported s ≡ ok s'
    → Listens tasks s
    → Listens tasks s' × (s'.m_listen_socket ≡ s.m_listen_socket)
unfolding run_round start_round end_round
run_round-Listens reported s {s'} tasks h ((fds, shape), more) =
    let (r, e, e') =
      >>=-eq-ok (visit_all s.m_listen_socket s.poll_fds reported (start_round s)) _ h in
    let e1 = rw shape at e in
    let (k, first) = visit_all-listening s.m_listen_socket fds reported (start_round s) e1 in
    let grown = (visit_all-Grows s.m_listen_socket s.poll_fds reported (start_round s) e).1 in
    subst (λ t. Listens tasks t × (t.m_listen_socket ≡ s.m_listen_socket)) (ok_injective e')
      (
        (
          ((k ++ r.pushed), ap (λ t. t ++ r.pushed) first),
          Extends-trans tasks s.tasks r.queued more grown,
        ),
        refl,
      )

throw-ne-ok : {e : Exception} {s : HttpServer} → ◌≢◌ {A = Result HttpServer} (throw e) (ok s)
throw-ne-ok h = cc

loop_from-Listens :
    (in_poll : Bool) (events : List LoopEvent) (s : HttpServer) {s' : HttpServer} (tasks : List ℕ)
    → loop_from in_poll events s ≡ ok s'
    → Listens tasks s
    → Listens tasks s'
unfolding loop_from stop_server
loop_from-Listens b [] s tasks h good = subst (Listens tasks) (ok_injective h) good
loop_from-Listens b (stopped ∷ events) s tasks h good =
    loop_from-Listens b events (stop_server s) tasks h good
loop_from-Listens b (polled reported ∷ events) s tasks h good =
    elim (Bool-cases (b || s.is_running)) [
      | inr off ↦ subst (Listens tasks) (ok_injective (rw (off, loop_from) at h)) good
      | inl on ↦
          let h' = rw (on, loop_from) at h in
          let (mid, e, e') = >>=-eq-ok (run_round reported s) _ h' in
          loop_from-Listens false events mid tasks e' (run_round-Listens reported s tasks e good).0
    ]
loop_from-Listens b (poll_failed ∷ events) s tasks h good = elim (Bool-cases (b || s.is_running)) [
  | inr off ↦ subst (Listens tasks) (ok_injective (rw (off, loop_from) at h)) good
  | inl on ↦ absurd (throw-ne-ok (rw (on, loop_from) at h))
]
loop_from-Listens b (stopped_in_poll ∷ events) s tasks h good =
    elim (Bool-cases (b || s.is_running)) [
      | inr off ↦ subst (Listens tasks) (ok_injective (rw (off, loop_from) at h)) good
      | inl on ↦ loop_from-Listens true events (stop_server s) tasks (rw (on, loop_from) at h) good
    ]

-- However many rounds the event loop runs and whatever poll(), accept() and read() report in them: as
-- long as no exception ends it, the listening socket stays the first that is polled, and every request
-- that was handed to the thread pool stays handed over, in order, new ones behind it.
pub event_loop-Listens :
    (events : List LoopEvent) (s : HttpServer) {s' : HttpServer} (tasks : List ℕ)
    → event_loop events s ≡ ok s'
    → Listens tasks s
    → Listens tasks s'
unfolding event_loop
event_loop-Listens = loop_from-Listens false

loop_from-off :
    (events : List LoopEvent) (s : HttpServer)
    → loop_from false events (stop_server s) ≡ ok (stop_server s)
unfolding loop_from stop_server
loop_from-off [] s = refl
loop_from-off (polled reported ∷ events) s = refl
loop_from-off (poll_failed ∷ events) s = refl
loop_from-off (stopped ∷ events) s = loop_from-off events s
loop_from-off (stopped_in_poll ∷ events) s = refl

last_round :
    (m : Result Round) (events : List LoopEvent) (s : HttpServer)
    → ((m >>= λ r. ok (end_round (stop_server s) r)) >>= loop_from false events)
      ≡ (m >>= λ r. ok (end_round (stop_server s) r))
unfolding stop_server end_round
last_round (ok r) events s = loop_from-off events (end_round s r)
last_round (throw e) events s = refl
last_round undefined events s = refl

-- A stop that comes while poll() waits ends a running loop behind the round that poll() then reports:
-- this round is run like any other, and nothing that would come behind it has an effect.
pub event_loop-stopped_in_poll :
    (reported : List Polled) (events : List LoopEvent) (s : HttpServer)
    → s.is_running ≡ true
    → event_loop (stopped_in_poll ∷ polled reported ∷ events) s ≡ run_round reported (stop_server s)
unfolding event_loop loop_from run_round
event_loop-stopped_in_poll reported events s runs =
    let l = s.m_listen_socket in
    rw (runs, event_loop, loop_from)
      (last_round (visit_all l s.poll_fds reported (start_round (stop_server s))) events s)

pub visit_all-idle :
    (listen_socket : ℕ) (fds : List ℕ) (r : Round)
    → visit_all listen_socket fds [] r ≡ ok (record r { kept = r.kept ++ fds })
unfolding visit_all keep
visit_all-idle l [] r = rw (append-nil r.kept) refl
visit_all-idle l (fd ∷ fds) r =
    visit_all-idle l fds (keep fd r)
    ∙ ap (λ t. ok (record r { kept = t })) (append_assoc r.kept (fd ∷ []) fds)

-- A round that only accepts a connection polls its descriptor from then on. The client under the
-- descriptor is a new one only if there was none: the client of an earlier connection on the same
-- descriptor, with the bytes and the counts it has, stays.
pub run_round-accept :
    (s : HttpServer) (fds : List ℕ) (client_socket : ℕ) (event : ReadEvent)
    → s.poll_fds ≡ s.m_listen_socket ∷ fds
    → (s' : HttpServer) × (run_round (ready (accepted client_socket) event ∷ []) s ≡ ok s')
      × (s'.poll_fds ≡ s.poll_fds ++ client_socket ∷ [])
      × (s'.tasks ≡ s.tasks)
      × (lookup_fd client_socket s'.m_active_clients
          ≡ or_else (lookup_fd client_socket s.m_active_clients) (some (new_client client_socket)))
unfolding run_round visit_all visit accept_client keep start_round end_round
run_round-accept s fds client_socket event shape =
    let l = s.m_listen_socket in
    let same : (l == l) ≡ true = (==_iff l l).1 refl in
    let key : (client_socket == client_socket) ≡ true =
      (==_iff client_socket client_socket).1 refl in
    let r : Round = record {
      kept = l ∷ [];
      pushed = client_socket ∷ [];
      clients = emplace_fd client_socket (new_client client_socket) s.m_active_clients;
      queued = s.tasks;
    } in
    let found =
      lookup_fd-emplace_fd client_socket client_socket (new_client client_socket)
        s.m_active_clients in
    (
      end_round s (record r { kept = l ∷ fds }),
      rw (shape, run_round, visit_all, visit, same, visit_all-idle l fds r) refl,
      rw shape refl,
      refl,
      rw (found, key) refl,
    )
