-- ===== src/ThreadPool.antt =====
-- include/weblib/server/ThreadPool.hpp: the workers of the pool and the threads that call it, a step at
-- a time. The steps of different threads follow one another in any order; what a thread does while it
-- holds m_mutex without a test in between is one step.
pub mod Inv
pub mod Places
pub mod Moves
pub mod Keep
pub mod Progress
pub mod Order
pub mod Begun
pub mod Stop
pub mod Sleeper
pub mod Effort
pub mod Drain
mod Tests
use web_library.Base.{
  ℕ, ◌<◌, ◌==◌, List, [], ◌∷◌, ◌++◌, Bool, true, false, not, ◌||◌, Option, none, some, is_empty,
  length, if◌then◌else◌, Result, ok, throw, undefined, Exception, ◌≡◌,
}

-- Where a worker stands in its loop.
pub data Pc (T : Type 0) : Type 0 where
  outside : Pc T  -- before the lock, with nothing held
  testing : Pc T  -- holds the mutex, before the predicate of the wait
  parking : Pc T  -- the predicate was false: before it blocks, with the mutex
  asleep : Pc T  -- blocks in m_condvar, without the mutex
  woken : Pc T  -- was notified, and has to lock again
  ready : Pc T  -- the predicate was true: before the test of m_should_work, with the mutex
  taking : Pc T  -- before the front of m_tasks is taken, with the mutex
  running : T → Pc T  -- runs the task
  finished : Pc T  -- has returned

-- `holder` is the worker that holds m_mutex. `notified` tells that the destructor is past notify_all,
-- `started` and `submitted` are the tasks that workers took, and that callers queued, so far.
pub record ThreadPool (T : Type 0) : Type 0 where
  pub m_tasks : List T
  pub m_should_work : Bool
  pub holder : Option ℕ
  pub workers : ℕ → Pc T
  pub notified : Bool
  pub started : List T
  pub submitted : List T

-- What a thread does when it has its turn: it moves, it waits, or its behaviour is not defined.
pub data Turn (T : Type 0) : Type 0 where
  moved : ThreadPool T → Turn T
  blocked : Turn T
  faulted : Turn T

-- The promise of `enqueue`, when its task is done. One that is destroyed unset is broken.
pub data Settled (A : Type 0) : Type 0 where
  value : A → Settled A
  failed : Exception → Settled A
  broken : Settled A

abbrev pub update : {A : Type 0} → (ℕ → A) → ℕ → A → ℕ → A
update f i a j = if i == j then a else f j

module _ {T : Type 0} where
  -- ThreadPool(): all workers begin their loops.
  unfoldable pub new_pool : ThreadPool T
  new_pool = record {
    m_tasks = [];
    m_should_work = true;
    holder = none;
    workers = λ i. outside;
    notified = false;
    started = [];
    submitted = [];
  }

  abbrev pub is_asleep : Pc T → Bool
  is_asleep asleep = true
  is_asleep _ = false

  unfoldable pub goto : ℕ → Pc T → ThreadPool T → ThreadPool T
  goto i next p = record p { workers = update p.workers i next }

  unfoldable pub unlock : ℕ → Pc T → ThreadPool T → ThreadPool T
  unlock i next p = record p { holder = none; workers = update p.workers i next }

  unfoldable pub lock : ℕ → Option ℕ → ThreadPool T → Turn T
  lock i none p = moved (record p { holder = some i; workers = update p.workers i testing })
  lock i (some j) p = blocked

  -- The predicate of the wait.
  unfoldable pub may_go : ThreadPool T → Bool
  may_go p = not (is_empty p.m_tasks) || not p.m_should_work

  -- front() and pop_front(), and the unlock behind them.
  unfoldable pub take_task : ℕ → List T → ThreadPool T → Turn T
  take_task i [] p = faulted
  take_task i (task ∷ tasks) p = moved (record p {
    m_tasks = tasks;
    holder = none;
    workers = update p.workers i (running task);
    started = p.started ++ task ∷ [];
  })

  unfoldable pub move : ℕ → Pc T → ThreadPool T → Turn T
  unfolding lock goto unlock take_task may_go
  move i outside p = lock i p.holder p
  move i testing p = moved (if may_go p then goto i ready p else goto i parking p)
  move i parking p = moved (unlock i asleep p)
  move i asleep p = blocked
  move i woken p = lock i p.holder p
  move i ready p = moved (if p.m_should_work then goto i taking p else unlock i finished p)
  move i taking p = take_task i p.m_tasks p
  move i (running task) p = moved (goto i outside p)
  move i finished p = blocked

  unfoldable pub turn : ℕ → ThreadPool T → Turn T
  unfolding move
  turn i p = move i (p.workers i) p

  -- A worker that blocks in m_condvar is notified.
  unfoldable pub wake : ℕ → ThreadPool T → ThreadPool T
  wake i p = record p { workers = update p.workers i woken }

  abbrev pub roused : Pc T → Pc T
  roused asleep = woken
  roused w = w

  -- enqueue_task(), up to the notification
  unfoldable pub push_task : T → ThreadPool T → ThreadPool T
  push_task task p = record p {
    m_tasks = p.m_tasks ++ task ∷ [];
    submitted = p.submitted ++ task ∷ [];
  }

  unfoldable pub clear : ThreadPool T → ThreadPool T
  clear p = record p { m_tasks = [] }

  unfoldable pub queue_size : ThreadPool T → ℕ
  queue_size p = length p.m_tasks

  -- The two statements of the destructor.
  unfoldable pub stop : ThreadPool T → ThreadPool T
  stop p = record p { m_should_work = false }

  unfoldable pub notify_all : ThreadPool T → ThreadPool T
  notify_all p = record p { workers = λ i. roused (p.workers i); notified = true }

-- The task of `enqueue` for a function that returns a value, and for one that returns none: the latter
-- never sets the promise.
unfoldable pub settle : {A : Type 0} → Result A → Option (Settled A)
settle (ok a) = some (value a)
settle (throw e) = some (failed e)
settle undefined = none

unfoldable pub settle_void : Result (Unit {0}) → Option (Settled (Unit {0}))
settle_void (ok a) = some broken
settle_void (throw e) = some (failed e)
settle_void undefined = none

-- The task of `enqueue_detach`: the value is dropped, and an exception is logged.
unfoldable pub settle_detached : {A : Type 0} → Result A → Option (Unit {0})
settle_detached (ok a) = some tt
settle_detached (throw e) = some tt
settle_detached undefined = none

-- One step of one thread, with n workers. A notification reaches one of the workers that block, if there
-- are any; a wait may also end by itself. The destructor stores the flag without the mutex. The steps end
-- with its body: the destruction of m_condvar, m_mutex and m_tasks behind it, which the program makes
-- before the workers are joined, has no step, and what a worker does from then on is undefined.
pub data Step {T : Type 0} (n : ℕ) (p : ThreadPool T) : ThreadPool T → Type 0 where
  work : (i : ℕ) {q : ThreadPool T} → i < n → turn i p ≡ moved q → Step n p q
  enqueue_wakes :
      (task : T) (i : ℕ)
      → p.holder ≡ none
      → i < n
      → is_asleep (p.workers i) ≡ true
      → Step n p (wake i (push_task task p))
  enqueue_alone :
      (task : T)
      → p.holder ≡ none
      → ((i : ℕ) → i < n → is_asleep (p.workers i) ≡ false)
      → Step n p (push_task task p)
  clears : p.holder ≡ none → Step n p (clear p)
  stops : Step n p (stop p)
  notifies_all : p.m_should_work ≡ false → p.notified ≡ false → Step n p (notify_all p)
  wakes_alone : (i : ℕ) → i < n → is_asleep (p.workers i) ≡ true → Step n p (wake i p)

-- The states behind a state.
pub data Later {T : Type 0} (n : ℕ) (p : ThreadPool T) : ThreadPool T → Type 0 where
  now : Later n p p
  next : {q r : ThreadPool T} → Later n p q → Step n q r → Later n p r

abbrev pub Reach : {T : Type 0} → ℕ → ThreadPool T → Type 0
Reach n p = Later n new_pool p
