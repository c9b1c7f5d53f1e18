-- ===== src/HttpServer/Switch.antt =====
-- server/HttpServer.cpp: a round of the event loop in which one connection is reported, by the state that
-- read_request returns.
mod Tests
use web_library.Base.{
  ℕ, List, [], ◌∷◌, ◌++◌, Bool, true, false, ◌==◌, ==_iff, Option, none, some, Result, ok, throw,
  undefined, ◌>>=◌, Exception, if◌then◌else◌, ℤ, Bool-cases, inl, inr, find_str, append_assoc,
  append-nil, ◌≡◌, refl, sym, ap, ◌∙◌, arith,
}
use web_library.HttpRequest.{crnlcrnl}
use web_library.HttpServer.{
  Client, ClientMap, lookup_fd, assign_fd, erase_fd, lookup_fd-assign_fd, lookup_fd-erase_fd,
  client_at, State, read_more, connection_aborted, end_of_connection, connection_error, ReadEvent,
  received, would_block, read_failed, read_request, read_content_length, with_length, at_header,
  in_body, after_read, AcceptEvent, Polled, idle, ready, HttpServer, Round, keep, visit, visit_all,
  read_client, after_request, start_round, end_round, run_round,
}
use web_library.HttpServer.Accept.{visit_all-idle}
use web_library.HttpServer.Serve.{idles, visit_all-idles, client_at_known}

-- The states after which the connection is closed to the loop.
abbrev pub is_gone : State → Bool
is_gone read_more = false
is_gone end_of_connection = false
is_gone connection_aborted = true
is_gone connection_error = true

abbrev pub is_complete : State → Bool
is_complete end_of_connection = true
is_complete _ = false

-- The client that is stored under a descriptor whose client is c' after the read.
abbrev pub stored : State → Client → Option Client
stored state c' = if is_gone state then none else some c'

module _ (l fd : ℕ) (accept : AcceptEvent) (event : ReadEvent) (c c' : Client) (r : Round) where
  pub visit-read :
      (answer : Result State)
      → (fd == l) ≡ false
      → lookup_fd fd r.clients ≡ some c
      → read_request event c ≡ (answer, c')
      → visit l fd (ready accept event) r ≡ (
          answer >>= λ state.
          ok (after_request state fd c'.fd (record r { clients = assign_fd fd c' r.clients })))
  unfolding visit read_client
  visit-read answer other known read =
      rw (other, client_at_known fd c r.clients known, read, visit, read_client) refl

abbrev round_after : State → ℕ → Client → List ℕ → Round → Round
round_after state fd c' after r =
    let next = after_request state fd c'.fd (record r { clients = assign_fd fd c' r.clients }) in
    record next { kept = next.kept ++ after }

rest_of_round :
    (l : ℕ) (after : List ℕ) (s : HttpServer) (f : State → Round) (answer : Result State)
    → (((answer >>= λ state. ok (f state)) >>= visit_all l after []) >>= λ r. ok (end_round s r))
      ≡ (answer >>= λ state. ok (end_round s (record (f state) { kept = (f state).kept ++ after })))
rest_of_round l after s f (ok state) =
    ap (λ t. t >>= λ r. ok (end_round s r)) (visit_all-idle l after (f state))
rest_of_round l after s f (throw e) = refl
rest_of_round l after s f undefined = refl

with_length-fd : (m : Result ℤ) (c : Client) → (with_length m c).1.fd ≡ c.fd
unfolding with_length
with_length-fd (ok n) c = refl
with_length-fd (throw e) c = refl
with_length-fd undefined c = refl

at_header-fd : (o : Option ℕ) (c : Client) → (at_header o c).1.fd ≡ c.fd
unfolding at_header
at_header-fd none c = refl
at_header-fd (some n) c =
    with_length-fd (read_content_length c.raw_http n) (record c { header_end_pos = n })

in_body-fd : (c : Client) → (in_body c).1.fd ≡ c.fd
unfolding in_body
in_body-fd c = ground arith

either-fd :
    (b : Bool) (x y : Result State × Client) (n : ℕ)
    → x.1.fd ≡ n
    → y.1.fd ≡ n
    → (if b then x else y).1.fd ≡ n
either-fd true x y n hx hy = hx
either-fd false x y n hx hy = hy

after_read-fd : (c : Client) → (after_read c).1.fd ≡ c.fd
unfolding after_read
after_read-fd c =
    either-fd c.is_in_body (in_body c) (at_header (find_str crnlcrnl c.raw_http) c) c.fd
      (in_body-fd c) (at_header-fd (find_str crnlcrnl c.raw_http) c)

pub read_request-fd : (event : ReadEvent) (c : Client) → (read_request event c).1.fd ≡ c.fd
unfolding read_request
read_request-fd (received []) c = refl
read_request-fd (received (d ∷ ds)) c = after_read-fd (record c { raw_http = c.raw_http ++ d ∷ ds })
read_request-fd would_block c = refl
read_request-fd read_failed c = refl

module _ (s : HttpServer) (before after : List ℕ) (fd : ℕ) (accept : AcceptEvent)
    (event : ReadEvent) (c c' : Client) where
  run_round-read :
      (answer : Result State)
      → s.poll_fds ≡ before ++ fd ∷ after
      → (fd == s.m_listen_socket) ≡ false
      → lookup_fd fd s.m_active_clients ≡ some c
      → read_request event c ≡ (answer, c')
      → run_round (idles before ++ ready accept event ∷ []) s ≡ (
          answer >>= λ state.
          ok (
            end_round s (round_after state fd c' after (record (start_round s) { kept = before }))))
  unfolding run_round visit_all start_round
  run_round-read answer shape other known read =
      let l = s.m_listen_socket in
      let events = idles before ++ ready accept event ∷ [] in
      let r1 : Round = record (start_round s) { kept = before } in
      let f : State → Round = λ state.
        after_request state fd c'.fd (record r1 { clients = assign_fd fd c' s.m_active_clients }) in
      ap (λ t. visit_all l t events (start_round s) >>= λ r. ok (end_round s r)) shape
      ∙ ap (λ t. t >>= λ r. ok (end_round s r))
          (visit_all-idles l before (fd ∷ after) (ready accept event ∷ []) (start_round s))
      ∙ ap (λ t. (t >>= visit_all l after []) >>= λ r. ok (end_round s r))
          (visit-read l fd accept event c c' r1 answer other known read)
      ∙ rest_of_round l after s f answer

  kept_fds : (xs ys : List ℕ) → ((before ++ xs) ++ ys) ++ [] ≡ before ++ (xs ++ ys)
  kept_fds xs ys = append-nil ((before ++ xs) ++ ys) ∙ append_assoc before xs ys

  abbrev pub Switched : State → HttpServer → Type 0
  Switched state s' =
      (s'.poll_fds ≡ (if is_gone state then before ++ after else s.poll_fds))
      × (s'.tasks ≡ (if is_complete state then s.tasks ++ fd ∷ [] else s.tasks))
      × ((j : ℕ)
          → lookup_fd j s'.m_active_clients
            ≡ (if fd == j then stored state c' else lookup_fd j s.m_active_clients))
      × (s'.m_listen_socket ≡ s.m_listen_socket)
      × (s'.is_running ≡ s.is_running)

  gone-lookup :
      (state : State) (j : ℕ)
      → is_gone state ≡ true
      → c'.fd ≡ fd
      → lookup_fd j (erase_fd c'.fd (assign_fd fd c' s.m_active_clients))
        ≡ (if fd == j then stored state c' else lookup_fd j s.m_active_clients)
  gone-lookup state j gone own =
      let erased = lookup_fd-erase_fd c'.fd j (assign_fd fd c' s.m_active_clients) in
      let assigned = lookup_fd-assign_fd fd j c' s.m_active_clients in
      ground (arith, erased, assigned)

  round_after-Switched :
      (state : State)
      → s.poll_fds ≡ before ++ fd ∷ after
      → c'.fd ≡ fd
      → Switched state
          (end_round s (round_after state fd c' after (record (start_round s) { kept = before })))
  unfolding after_request keep start_round end_round
  round_after-Switched read_more shape own = (
    kept_fds (fd ∷ []) after ∙ sym shape,
    refl,
    λ j. lookup_fd-assign_fd fd j c' s.m_active_clients,
    refl,
    refl,
  )
  round_after-Switched end_of_connection shape own = (
    kept_fds (fd ∷ []) after ∙ sym shape,
    ap (λ t. s.tasks ++ t ∷ []) own,
    λ j. lookup_fd-assign_fd fd j c' s.m_active_clients,
    refl,
    refl,
  )
  round_after-Switched connection_aborted shape own = (
    append-nil (before ++ after),
    refl,
    λ j. gone-lookup connection_aborted j refl own,
    refl,
    refl,
  )
  round_after-Switched connection_error shape own =
      (append-nil (before ++ after), refl, λ j. gone-lookup connection_error j refl own, refl, refl)

  -- A round of the event loop in which poll() reports one connection, known to the server, whose read gives
  -- the state `state` and the client c'. The connection is polled from then on as before, unless the peer
  -- has closed it or it fails: then it alone is removed, and its client with it. Its descriptor is a task
  -- for the pool exactly if the request is complete. Otherwise its client is c'. The other clients, all
  -- earlier tasks, the listening socket and the flag of the loop are as they were.
  pub run_round-Switched :
      (state : State)
      → s.poll_fds ≡ before ++ fd ∷ after
      → (fd == s.m_listen_socket) ≡ false
      → lookup_fd fd s.m_active_clients ≡ some c
      → c.fd ≡ fd
      → read_request event c ≡ (ok state, c')
      → (s' : HttpServer) × (run_round (idles before ++ ready accept event ∷ []) s ≡ ok s')
        × Switched state s'
  run_round-Switched state shape other known own read =
      let own' : c'.fd ≡ fd = sym (ap (λ t. t.1.fd) read) ∙ read_request-fd event c ∙ own in
      let r1 : Round = record (start_round s) { kept = before } in
      (
        end_round s (round_after state fd c' after r1),
        run_round-read (ok state) shape other known read,
        round_after-Switched state shape own',
      )

  -- An exception of the read leaves the round.
  pub run_round-throw :
      (e : Exception)
      → s.poll_fds ≡ before ++ fd ∷ after
      → (fd == s.m_listen_socket) ≡ false
      → lookup_fd fd s.m_active_clients ≡ some c
      → read_request event c ≡ (throw e, c')
      → run_round (idles before ++ ready accept event ∷ []) s ≡ throw e
  run_round-throw e shape other known read = run_round-read (throw e) shape other known read
