-- ===== src/HttpServer/Chunks/Rounds.antt =====
-- server/HttpServer.cpp: the rounds of `event_loop` that read the request of one connection.
use web_library.Base.{
  ℕ, ◌+◌, ◌^◌, ◌<◌, List, [], ◌∷◌, ◌++◌, Bool, true, false, Bytes, length, ◌==◌, ==_refl, ℤ, ok,
  Option, none, some, subst, length-append, all, ◌&&◌, if◌then◌else◌, All, ◌≡◌, refl, sym, ap, ◌∙◌,
  arith, append_assoc, append-nil,
}
use web_library.HttpHeaders.Parse.{Header}
use web_library.HttpRequest.Lines.{IsLine}
use web_library.HttpRequest.Message.{message, IsMessageHeader}
use web_library.HttpServer.{
  Client, lookup_fd, State, ReadEvent, received, would_block, read_failed, read_request,
  AcceptEvent, ready, HttpServer, Polled, run_round, LoopEvent, polled, loop_from, event_loop,
}
use web_library.HttpServer.Read.{data_of, all_data, length_of, after_reads, read_request-keeps}
use web_library.HttpServer.Serve.{idles}
use web_library.HttpServer.Switch.{
  stored, is_gone, is_complete, run_round-Switched, read_request-fd,
}
use web_library.HttpServer.Chunks.{header_size, expected, all_expected, Reading}
use web_library.HttpServer.Chunks.Step.{read_step}
use web_library.HttpServer.Chunks.Calls.{begun}

-- The read finds neither the end of the stream nor an error.
abbrev pub stays_open : ReadEvent → Bool
stays_open (received []) = false
stays_open (received (d ∷ ds)) = true
stays_open would_block = true
stays_open read_failed = false

-- The tasks that the states of a connection give.
abbrev pub tasks_for : ℕ → List State → List ℕ
tasks_for fd [] = []
tasks_for fd (state ∷ states) = (if is_complete state then fd ∷ [] else []) ++ tasks_for fd states

pub expected_stays :
    (header : ℕ) (n : ℤ) (seen : ℕ) (event : ReadEvent)
    → stays_open event ≡ true
    → is_gone (expected header n seen event) ≡ false
expected_stays header n seen (received []) h = absurd (cc)
expected_stays header n seen (received (d ∷ ds)) h = ground arith
expected_stays header n seen would_block h = refl
expected_stays header n seen read_failed h = absurd (cc)

-- The rounds in which poll() reports this connection alone.
abbrev pub rounds : List ℕ → ℕ → AcceptEvent → List ReadEvent → List LoopEvent
rounds before fd accept [] = []
rounds before fd accept (event ∷ events) =
    polled (idles before ++ ready accept event ∷ []) ∷ rounds before fd accept events

event_loop-polled :
    (reported : List Polled) (events : List LoopEvent) (s s1 : HttpServer)
    → s.is_running ≡ true
    → run_round reported s ≡ ok s1
    → event_loop (polled reported ∷ events) s ≡ event_loop events s1
unfolding event_loop loop_from
event_loop-polled reported events s s1 runs ran = rw (runs, event_loop, loop_from, ran) refl

-- What these rounds make of the server.
abbrev pub Followed : ℕ → Client → List ℕ → HttpServer → HttpServer → Type 0
Followed fd c tasks s s' =
    (s'.tasks ≡ s.tasks ++ tasks)
    × (lookup_fd fd s'.m_active_clients ≡ some c)
    × ((j : ℕ)
        → (fd == j) ≡ false
        → lookup_fd j s'.m_active_clients ≡ lookup_fd j s.m_active_clients)
    × (s'.poll_fds ≡ s.poll_fds)
    × (s'.is_running ≡ s.is_running)

queue_append :
    (b : Bool) (fd : ℕ) (queue more : List ℕ)
    → (if b then queue ++ fd ∷ [] else queue) ++ more
      ≡ queue ++ ((if b then fd ∷ [] else []) ++ more)
queue_append true fd queue more = append_assoc queue (fd ∷ []) more
queue_append false fd queue more = refl

Followed-step :
    (fd : ℕ) (state : State) (o : Option Client) (c2 : Client) (tasks : List ℕ)
    (s s1 s2 : HttpServer)
    → (s1.poll_fds ≡ s.poll_fds)
    → (s1.tasks ≡ (if is_complete state then s.tasks ++ fd ∷ [] else s.tasks))
    → ((j : ℕ)
        → lookup_fd j s1.m_active_clients ≡ (if fd == j then o else lookup_fd j s.m_active_clients))
    → s1.is_running ≡ s.is_running
    → Followed fd c2 tasks s1 s2
    → Followed fd c2 ((if is_complete state then fd ∷ [] else []) ++ tasks) s s2
Followed-step fd state o c2 tasks s s1 s2 polls queued clients running (q, k, others, p, r) = (
  q ∙ ap (λ t. t ++ tasks) queued ∙ queue_append (is_complete state) fd s.tasks tasks,
  k,
  λ j h. others j h ∙ clients j ∙ ap (λ t. if t then o else lookup_fd j s.m_active_clients) h,
  p ∙ polls,
  r ∙ running,
)

pub all_parts : (a b : Bool) → (a && b) ≡ true → (a ≡ true) × (b ≡ true)
all_parts true true h = (refl, refl)
all_parts true false h = absurd (cc)
all_parts false b h = absurd (cc)

module _ (line : Bytes) (x : Header) (hs : List Header) (body : Bytes) (n : ℤ) (hl : IsLine line)
    (hh : All IsMessageHeader (x ∷ hs)) (bound : length (message line (x ∷ hs) body) < 2 ^ 64)
    (small : length body < 2 ^ 31) (len : length_of (x ∷ hs) ≡ ok n) (before after : List ℕ)
    (fd : ℕ) (accept : AcceptEvent) where
  event_loop-Reading :
      (events : List ReadEvent) (s : HttpServer) (c : Client) (rest : Bytes)
      → Reading line x hs body n (all_data events ++ rest) c
      → all stays_open events ≡ true
      → s.is_running ≡ true
      → s.poll_fds ≡ before ++ fd ∷ after
      → (fd == s.m_listen_socket) ≡ false
      → lookup_fd fd s.m_active_clients ≡ some c
      → c.fd ≡ fd
      → (s' : HttpServer) × (event_loop (rounds before fd accept events) s ≡ ok s')
        × Followed fd
            (after_reads events c)
            (tasks_for fd (all_expected (header_size line (x ∷ hs)) n (length c.raw_http) events))
            s
            s'
  unfolding event_loop
  event_loop-Reading [] s c rest reading open_all runs shape other known own =
      (s, refl, (sym (append-nil s.tasks), known, (λ j h. refl), refl, refl))
  event_loop-Reading (event ∷ events) s c rest reading open_all runs shape other known own =
      let later = all_data events ++ rest in
      let reading' : Reading line x hs body n (data_of event ++ later) c = (
        sym (ap (λ t. c.raw_http ++ t) (append_assoc (data_of event) (all_data events) rest))
            ∙ reading.0,
        reading.1,
        reading.2,
      ) in
      let (same, next) = read_step line x hs body n hl hh bound small len event c later reading' in
      let c' = (read_request event c).1 in
      let state = expected (header_size line (x ∷ hs)) n (length c.raw_http) event in
      let (s1, ran, (polls, tasks, clients, listens, running)) =
        run_round-Switched s before after fd accept event c c' state shape other known own
          (ap (λ t. (t, c')) same) in
      let (stays_now, stays_on) = all_parts (stays_open event) (all stays_open events) open_all in
      let stays : is_gone state ≡ false =
        expected_stays (header_size line (x ∷ hs)) n (length c.raw_http) event stays_now in
      let polls' : s1.poll_fds ≡ s.poll_fds =
        polls ∙ ap (λ t. if t then before ++ after else s.poll_fds) stays in
      let known' : lookup_fd fd s1.m_active_clients ≡ some c' =
        clients fd
        ∙ ap (λ t. if t then stored state c' else lookup_fd fd s.m_active_clients) (==_refl fd)
        ∙ ap (λ t. if t then none else some c') stays in
      let size : length c'.raw_http ≡ length c.raw_http + length (data_of event) =
        ap length (read_request-keeps event c) ∙ length-append c.raw_http (data_of event) in
      let (s2, loops, followed) =
        event_loop-Reading events s1 c' rest next stays_on (running ∙ runs) (polls' ∙ shape)
          (ap (λ t. fd == t) listens ∙ other) known' (read_request-fd event c ∙ own) in
      let states = λ (t : ℕ). all_expected (header_size line (x ∷ hs)) n t events in
      let followed' =
        subst (λ t. Followed fd (after_reads events c') (tasks_for fd (states t)) s1 s2) size
          followed in
      (
        s2,
        event_loop-polled (idles before ++ ready accept event ∷ []) (rounds before fd accept events)
              s s1 runs ran
            ∙ loops,
        Followed-step fd state (stored state c') (after_reads events c')
            (tasks_for fd (states (length c.raw_http + length (data_of event)))) s s1 s2 polls'
            tasks clients running followed',
      )

  -- A running server follows a connection that has read nothing, round by round, each round reporting this
  -- connection alone, with a read that neither fails nor finds the end of the stream. The rounds end
  -- without an exception, with the descriptor queued behind the earlier tasks once for every read at which
  -- the counts of bytes end a request. The client is what the reads make of it; the other clients, the
  -- polled descriptors and the flag of the loop are as they were. The bytes are those of a message, or as
  -- many of them as have come: it has a header, its headers are well-formed, n is what the server takes for
  -- its Content-Length, and it is below 2 ^ 64 bytes, with fewer than 2 ^ 31 behind the header section.
  pub event_loop-Followed :
      (events : List ReadEvent) (s : HttpServer) (c : Client) (rest : Bytes)
      → c.raw_http ≡ []
      → c.is_in_body ≡ false
      → all_data events ++ rest ≡ message line (x ∷ hs) body
      → all stays_open events ≡ true
      → s.is_running ≡ true
      → s.poll_fds ≡ before ++ fd ∷ after
      → (fd == s.m_listen_socket) ≡ false
      → lookup_fd fd s.m_active_clients ≡ some c
      → c.fd ≡ fd
      → (s' : HttpServer) × (event_loop (rounds before fd accept events) s ≡ ok s')
        × Followed fd
            (after_reads events c)
            (tasks_for fd (all_expected (header_size line (x ∷ hs)) n 0 events))
            s
            s'
  event_loop-Followed events s c rest fresh out whole open_all runs shape other known own =
      let reading =
        begun line x hs body n hl hh bound small len c (all_data events ++ rest) fresh out whole in
      let (s', ran, followed) =
        event_loop-Reading events s c rest reading open_all runs shape other known own in
      (
        s',
        ran,
        subst
            (λ t.
              Followed fd (after_reads events c)
                (tasks_for fd (all_expected (header_size line (x ∷ hs)) n (length t) events)) s s')
            fresh followed,
      )
