-- ===== src/ThreadPool/Progress.antt =====
-- include/weblib/server/ThreadPool.hpp: exclusion and progress in the states that the pool reaches.
use web_library.Base.{
  ℕ, ◌<◌, List, [], ◌∷◌, true, false, Option, none, some, Option-cases, is_empty, inl, inr, ◌≡◌,
  ◌≢◌, refl, arith,
}
use web_library.ThreadPool.{
  Pc, outside, testing, parking, asleep, woken, ready, taking, running, finished, ThreadPool, moved,
  faulted, is_asleep, lock, take_task, move, turn, Reach,
}
use web_library.ThreadPool.Inv.{holds, Expects}
use web_library.ThreadPool.Keep.{Reach-Inv}

-- In the states that a pool with a worker reaches, two workers are never between the lock and the unlock
-- together.
pub mutual_exclusion :
    {T : Type 0} {n : ℕ} {p : ThreadPool T}
    → Reach n p
    → 0 < n
    → (i j : ℕ) → holds (p.workers i) ≡ true
    → holds (p.workers j) ≡ true
    → i ≡ j
mutual_exclusion r many i j hi hj =
    let v = Reach-Inv r many in ground (arith, v.locked i, v.locked j)

module _ {T : Type 0} where
  pub moved_lock :
      (i : ℕ) (o : Option ℕ) (p : ThreadPool T)
      → o ≡ none
      → (q : ThreadPool T) × (lock i o p ≡ moved q)
  unfolding lock
  moved_lock i none p free = (_, refl)
  moved_lock i (some j) p free = cc

  take_task_total :
      (i : ℕ) (tasks : List T) (p : ThreadPool T)
      → is_empty tasks ≡ false
      → (q : ThreadPool T) × (take_task i tasks p ≡ moved q)
  unfolding take_task
  take_task_total i [] p h = cc
  take_task_total i (task ∷ tasks) p h = (_, refl)

  -- A worker that holds the mutex can move.
  pub move-holds :
      (i : ℕ) (w : Pc T) (p : ThreadPool T)
      → holds w ≡ true
      → Expects p.m_tasks p.m_should_work w
      → (q : ThreadPool T) × (move i w p ≡ moved q)
  unfolding move
  move-holds i testing p h e = (_, refl)
  move-holds i parking p h e = (_, refl)
  move-holds i ready p h e = (_, refl)
  move-holds i taking p h e = take_task_total i p.m_tasks p e
  move-holds i outside p h e = cc
  move-holds i asleep p h e = cc
  move-holds i woken p h e = cc
  move-holds i (running task) p h e = cc
  move-holds i finished p h e = cc

  -- Where nobody holds the mutex, a worker that is awake can move, unless it has returned.
  move_free :
      (i : ℕ) (w : Pc T) (p : ThreadPool T)
      → p.holder ≡ none
      → is_asleep w ≡ false
      → Expects p.m_tasks p.m_should_work w
      → p.m_should_work ≡ true
      → (q : ThreadPool T) × (move i w p ≡ moved q)
  unfolding move
  move_free i outside p free h e on = moved_lock i p.holder p free
  move_free i testing p free h e on = (_, refl)
  move_free i parking p free h e on = (_, refl)
  move_free i asleep p free h e on = cc
  move_free i woken p free h e on = moved_lock i p.holder p free
  move_free i ready p free h e on = (_, refl)
  move_free i taking p free h e on = take_task_total i p.m_tasks p e
  move_free i (running task) p free h e on = (_, refl)
  move_free i finished p free h e on = cc

  move-ne-faulted :
      (i : ℕ) (w : Pc T) (p : ThreadPool T)
      → Expects p.m_tasks p.m_should_work w
      → move i w p ≢ faulted
  unfolding move lock
  move-ne-faulted i testing p e f = cc
  move-ne-faulted i parking p e f = cc
  move-ne-faulted i ready p e f = cc
  move-ne-faulted i taking p e f = let (q, h) = take_task_total i p.m_tasks p e in cc
  move-ne-faulted i outside p e f = ground arith
  move-ne-faulted i asleep p e f = cc
  move-ne-faulted i woken p e f = ground arith
  move-ne-faulted i (running task) p e f = cc
  move-ne-faulted i finished p e f = cc

-- In the states that a pool with a worker reaches, no worker takes the front of an empty queue, whatever
-- the other threads do between its test of the queue and this.
pub turn-ne-faulted :
    {T : Type 0} {n : ℕ} {p : ThreadPool T} → Reach n p → 0 < n → (i : ℕ) → turn i p ≢ faulted
unfolding turn
turn-ne-faulted {p} r many i = move-ne-faulted i (p.workers i) p ((Reach-Inv r many).expected i)

-- While the pool works and a task is queued, some worker can move: no task is left in the queue with all
-- workers blocked, neither in the condition variable nor at the mutex.
pub turn_progress :
    {T : Type 0} {n : ℕ} {p : ThreadPool T}
    → Reach n p
    → 0 < n
    → p.m_should_work ≡ true
    → is_empty p.m_tasks ≡ false
    → (i : ℕ) × (i < n) × ((q : ThreadPool T) × (turn i p ≡ moved q))
unfolding turn
turn_progress {n} {p} r many on queued =
    let v = Reach-Inv r many in
    elim (Option-cases p.holder) [
      | inr (i, e) ↦ (i, v.in_range i e, move-holds i (p.workers i) p (v.held i e) (v.expected i))
      | inl free ↦
          let (i, lt, up) = v.awake queued in
          (i, lt, move_free i (p.workers i) p free up (v.expected i) on)
    ]
