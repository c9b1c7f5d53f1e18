-- ===== src/HttpServer/Workers.antt =====
-- server/HttpServer.cpp and include/weblib/server/ThreadPool.hpp: the event loop and the workers of the
-- pool that it hands its tasks to.
mod Tests
use web_library.Base.{
  ℕ, ◌+◌, ◌<◌, List, [], ◌∷◌, ◌++◌, Bool, true, false, length, length-append, >>=-eq-ok,
  append_assoc, append-nil, ok, ◌≡◌, ◌≢◌, refl, sym, ap, subst, ◌∙◌, arith,
}
use web_library.HttpServer.{HttpServer, Polled, run_round, start_round, end_round, visit_all}
use web_library.HttpServer.Loop.{Extends, Extends-trans, visit_all-Grows, ok_injective}
use web_library.ThreadPool.{
  ThreadPool, moved, new_pool, is_asleep, turn, wake, push_task, clear, stop, notify_all, Step,
  work, enqueue_wakes, enqueue_alone, clears, stops, notifies_all, wakes_alone, now, next, Reach,
}
use web_library.ThreadPool.Stop.{given, move-given}
use web_library.ThreadPool.Effort.{Turns}
use web_library.ThreadPool.Drain.{line_up, move-line_up, Reach-Drained}

pub record Workers : Type 0 where
  pub server : HttpServer
  pub pool : ThreadPool ℕ

-- While the server runs with a pool of n workers: the event loop runs a round; the next of the tasks that
-- its rounds have recorded is handed to the pool (enqueue_detach); a worker has its turn; or a wait ends by
-- itself. Neither clear nor the destructor of the pool is called.
pub data WorkersStep (n : ℕ) (x : Workers) : Workers → Type 0 where
  loops :
      (reported : List Polled) {s : HttpServer}
      → run_round reported x.server ≡ ok s
      → WorkersStep n x (record x { server = s })
  hands_over :
      (task : ℕ) (more : List ℕ) {q : ThreadPool ℕ}
      → x.server.tasks ≡ x.pool.submitted ++ task ∷ more
      → Step n x.pool q
      → q.submitted ≡ x.pool.submitted ++ task ∷ []
      → WorkersStep n x (record x { pool = q })
  works :
      (i : ℕ) {q : ThreadPool ℕ}
      → i < n
      → turn i x.pool ≡ moved q
      → WorkersStep n x (record x { pool = q })
  wakes :
      (i : ℕ)
      → i < n
      → is_asleep (x.pool.workers i) ≡ true
      → WorkersStep n x (record x { pool = wake i x.pool })

-- From a server that has handed over nothing, and a new pool.
pub data WorkersReach (n : ℕ) : Workers → Type 0 where
  begins : (s : HttpServer) → s.tasks ≡ [] → WorkersReach n (record { server = s; pool = new_pool })
  goes_on : {x y : Workers} → WorkersReach n x → WorkersStep n x y → WorkersReach n y

-- The pool is one that a pool of its kind reaches, it works, no task of it was dropped, and what it was
-- given are the first tasks of the server.
record Joined (n : ℕ) (x : Workers) : Type 0 where
  reached : Reach n x.pool
  on : x.pool.m_should_work ≡ true
  kept : line_up x.pool ≡ x.pool.submitted
  handed : Extends x.pool.submitted x.server.tasks

run_round-tasks :
    (reported : List Polled) (s : HttpServer) {s' : HttpServer}
    → run_round reported s ≡ ok s'
    → Extends s.tasks s'.tasks
unfolding run_round start_round end_round
run_round-tasks reported s {s'} h =
    let (r, e, e') =
      >>=-eq-ok (visit_all s.m_listen_socket s.poll_fds reported (start_round s)) _ h in
    subst (λ t. Extends s.tasks t.tasks) (ok_injective e')
      (visit_all-Grows s.m_listen_socket s.poll_fds reported (start_round s) e).1

grown-ne : (xs : List ℕ) (x : ℕ) → xs ≢ xs ++ x ∷ []
grown-ne xs x e = omega (arith, ap length e, length-append xs (x ∷ []))

-- A step that takes in a task keeps all others.
Step-kept :
    {n : ℕ} {p q : ThreadPool ℕ} (task : ℕ)
    → Step n p q
    → q.submitted ≡ p.submitted ++ task ∷ []
    → p.m_should_work ≡ true
    → line_up p ≡ p.submitted
    → (line_up q ≡ q.submitted) × (q.m_should_work ≡ true)
unfolding turn wake push_task clear stop notify_all
Step-kept {p} task (work i lt h) e on kept =
    absurd (grown-ne p.submitted task (sym (ap (λ t. t.1) (move-given i (p.workers i) p h)) ∙ e))
Step-kept {p} task (enqueue_wakes other i free lt sleeps) e on kept =
    (sym (append_assoc p.started p.m_tasks (other ∷ [])) ∙ ap (λ t. t ++ other ∷ []) kept, on)
Step-kept {p} task (enqueue_alone other free up) e on kept =
    (sym (append_assoc p.started p.m_tasks (other ∷ [])) ∙ ap (λ t. t ++ other ∷ []) kept, on)
Step-kept {p} task (clears free) e on kept = absurd (grown-ne p.submitted task e)
Step-kept {p} task stops e on kept = absurd (grown-ne p.submitted task e)
Step-kept {p} task (notifies_all off once) e on kept = absurd (grown-ne p.submitted task e)
Step-kept {p} task (wakes_alone i lt sleeps) e on kept = absurd (grown-ne p.submitted task e)

turn-kept :
    (i : ℕ) (p : ThreadPool ℕ) {q : ThreadPool ℕ}
    → turn i p ≡ moved q
    → (line_up q ≡ line_up p) × (given q ≡ given p)
unfolding turn
turn-kept i p h = (move-line_up i (p.workers i) p h, move-given i (p.workers i) p h)

WorkersStep-Joined : {n : ℕ} {x y : Workers} → WorkersStep n x y → Joined n x → Joined n y
unfolding wake
WorkersStep-Joined {x} (loops reported {s} h) j = record {
  reached = j.reached;
  on = j.on;
  kept = j.kept;
  handed =
      Extends-trans x.pool.submitted x.server.tasks s.tasks j.handed
        (run_round-tasks reported x.server h);
}
WorkersStep-Joined {x} (hands_over task more {q} e step grew) j =
    let (kept, on) = Step-kept task step grew j.on j.kept in
    record {
      reached = next j.reached step;
      on = on;
      kept = kept;
      handed = (
        more,
        e ∙ sym (append_assoc x.pool.submitted (task ∷ []) more) ∙ ap (λ t. t ++ more) (sym grew),
      );
    }
WorkersStep-Joined {x} (works i {q} lt h) j =
    let (same, free) = turn-kept i x.pool h in
    let submitted : q.submitted ≡ x.pool.submitted = ap (λ t. t.1) free in
    record {
      reached = next j.reached (work i lt h);
      on = ap (λ t. t.0) free ∙ j.on;
      kept = same ∙ j.kept ∙ sym submitted;
      handed = (j.handed.0, j.handed.1 ∙ ap (λ t. t ++ j.handed.0) (sym submitted));
    }
WorkersStep-Joined (wakes i lt sleeps) j = record {
  reached = next j.reached (wakes_alone i lt sleeps);
  on = j.on;
  kept = j.kept;
  handed = j.handed;
}

WorkersReach-Joined : {n : ℕ} {x : Workers} → WorkersReach n x → Joined n x
unfolding new_pool
WorkersReach-Joined (begins s none_yet) = record {
  reached = now;
  on = refl;
  kept = refl;
  handed = (s.tasks, refl);
}
WorkersReach-Joined (goes_on r step) = WorkersStep-Joined step (WorkersReach-Joined r)

-- However the rounds of the event loop, the hand-overs and the turns of the workers follow one another:
-- the complete requests that the server has recorded, in their order, are those that workers have begun,
-- in the order in which they were begun, then those that wait in the pool, then those that are still to
-- be handed over.
pub WorkersReach-tasks :
    {n : ℕ} {x : Workers}
    → WorkersReach n x
    → (more : List ℕ) × (x.server.tasks ≡ (x.pool.started ++ x.pool.m_tasks) ++ more)
WorkersReach-tasks r =
    let j = WorkersReach-Joined r in
    (j.handed.0, j.handed.1 ∙ ap (λ t. t ++ j.handed.0) (sym j.kept))

-- With at least one worker, once all complete requests are handed over, turns of the workers alone lead
-- to a pool in which each of them was begun, in their order.
pub WorkersReach-begun :
    {n : ℕ} {x : Workers}
    → WorkersReach n x
    → 0 < n
    → x.server.tasks ≡ x.pool.submitted
    → (k : ℕ) × ((q : ThreadPool ℕ) × (Turns n k x.pool q × (q.started ≡ x.server.tasks)))
WorkersReach-begun r many all_handed =
    let j = WorkersReach-Joined r in
    let (k, (q, (turns, (none_left, all)))) = Reach-Drained j.reached many j.on in
    (k, (q, (turns, all ∙ j.kept ∙ sym all_handed)))
