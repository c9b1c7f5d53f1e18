-- ===== src/ThreadPool/Stop.antt =====
-- include/weblib/server/ThreadPool.hpp: the pool behind the first statement of its destructor.
use web_library.Base.{
  Bool, ℕ, ◌+◌, ◌<◌, ◌≤◌, List, [], ◌∷◌, false, Option, none, some, length, ◌≡◌, refl, sym, ap, ◌∙◌,
  arith,
}
use web_library.ThreadPool.{
  Pc, outside, testing, parking, asleep, woken, ready, taking, running, finished, ThreadPool, moved,
  goto, unlock, lock, take_task, move, turn, wake, roused, push_task, clear, stop, notify_all, Step,
  work, enqueue_wakes, enqueue_alone, clears, stops, notifies_all, wakes_alone, Later, now, next,
  Reach,
}
use web_library.ThreadPool.Inv.{Inv}
use web_library.ThreadPool.Keep.{Later-Inv, Reach-Inv}
use web_library.ThreadPool.Begun.{
  takes, taker, begun, takes-roused, taker-update, move-begun, moved_injective,
}

module _ {T : Type 0} where
  wake-begun : (i : ℕ) (p : ThreadPool T) → begun (wake i p) ≤ begun p
  unfolding begun wake
  wake-begun i p = omega (arith, taker-update p.workers i woken p.holder refl)

  taker-roused : (f : ℕ → Pc T) (o : Option ℕ) → taker (λ i. roused (f i)) o ≡ taker f o
  taker-roused f none = refl
  taker-roused f (some i) = takes-roused (f i)

  notify_all-begun : (p : ThreadPool T) → begun (notify_all p) ≤ begun p
  unfolding begun notify_all
  notify_all-begun p = omega (arith, taker-roused p.workers p.holder)

  Step-begun :
      {n : ℕ} {p q : ThreadPool T}
      → Step n p q
      → Inv n p
      → p.m_should_work ≡ false
      → begun q ≤ begun p
  unfolding turn
  Step-begun {p} (work i lt h) v off = move-begun i (p.workers i) p v off refl h
  Step-begun {p} (enqueue_wakes task i free lt sleeps) v off =
      let e : begun (push_task task p) ≤ begun p =
        unfold begun in unfold push_task in omega arith in
      omega (arith, e, wake-begun i (push_task task p))
  Step-begun (enqueue_alone task free up) v off = unfold begun in unfold push_task in omega arith
  Step-begun (clears free) v off = unfold begun in unfold clear in omega arith
  Step-begun stops v off = unfold begun in unfold stop in omega arith
  Step-begun {p} (notifies_all down once) v off = notify_all-begun p
  Step-begun {p} (wakes_alone i lt sleeps) v off = wake-begun i p

  -- What the workers leave as it is.
  abbrev pub given : ThreadPool T → Bool × List T
  given p = (p.m_should_work, p.submitted)

  lock-given :
      (i : ℕ) (o : Option ℕ) (p : ThreadPool T) {q : ThreadPool T}
      → lock i o p ≡ moved q
      → given q ≡ given p
  unfolding lock
  lock-given i none p h = ap given (sym (moved_injective h))
  lock-given i (some j) p h = cc

  take_task-given :
      (i : ℕ) (tasks : List T) (p : ThreadPool T) {q : ThreadPool T}
      → take_task i tasks p ≡ moved q
      → given q ≡ given p
  unfolding take_task
  take_task-given i [] p h = cc
  take_task-given i (task ∷ rest) p h = ap given (sym (moved_injective h))

  pub move-given :
      (i : ℕ) (w : Pc T) (p : ThreadPool T) {q : ThreadPool T}
      → move i w p ≡ moved q
      → given q ≡ given p
  unfolding move goto unlock
  move-given i outside p h = lock-given i p.holder p h
  move-given i testing p h = ground arith
  move-given i parking p h = ap given (sym (moved_injective h))
  move-given i asleep p h = cc
  move-given i woken p h = lock-given i p.holder p h
  move-given i ready p h = ground arith
  move-given i taking p h = take_task-given i p.m_tasks p h
  move-given i (running task) p h = ap given (sym (moved_injective h))
  move-given i finished p h = cc

  pub move-off :
      (i : ℕ) (w : Pc T) (p : ThreadPool T) {q : ThreadPool T}
      → move i w p ≡ moved q
      → q.m_should_work ≡ p.m_should_work
  move-off i w p h = ap (λ t. t.0) (move-given i w p h)

  Step-off :
      {n : ℕ} {p q : ThreadPool T} → Step n p q → p.m_should_work ≡ false → q.m_should_work ≡ false
  unfolding turn wake push_task clear stop notify_all
  Step-off {p} (work i lt h) off = move-off i (p.workers i) p h ∙ off
  Step-off (enqueue_wakes task i free lt sleeps) off = off
  Step-off (enqueue_alone task free up) off = off
  Step-off (clears free) off = off
  Step-off stops off = refl
  Step-off (notifies_all down once) off = off
  Step-off (wakes_alone i lt sleeps) off = off

  Later-begun :
      {n : ℕ} {p q : ThreadPool T}
      → Later n p q
      → 0 < n
      → Inv n p
      → p.m_should_work ≡ false
      → (begun q ≤ begun p) × (q.m_should_work ≡ false)
  Later-begun now many v off = (omega arith, off)
  Later-begun (next {q} {r} l s) many v off =
      let (fewer, off') = Later-begun l many v off in
      (omega (arith, fewer, Step-begun s (Later-Inv l many v) off'), Step-off s off')

  takes-bound : (w : Pc T) → takes w ≤ 1
  takes-bound outside = omega arith
  takes-bound testing = omega arith
  takes-bound parking = omega arith
  takes-bound asleep = omega arith
  takes-bound woken = omega arith
  takes-bound ready = omega arith
  takes-bound taking = omega arith
  takes-bound (running task) = omega arith
  takes-bound finished = omega arith

  taker-bound : (f : ℕ → Pc T) (o : Option ℕ) → taker f o ≤ 1
  taker-bound f none = omega arith
  taker-bound f (some i) = takes-bound (f i)

-- Once the destructor of a pool with a worker has stored its flag, at most one more task is begun, however
-- many wait in the queue and whatever happens behind it.
pub started_after_stop :
    {T : Type 0} {n : ℕ} {p q : ThreadPool T}
    → Reach n p
    → 0 < n
    → p.m_should_work ≡ false
    → Later n p q
    → length q.started ≤ length p.started + 1
unfolding begun
started_after_stop {p} r many off l =
    let (fewer, still) = Later-begun l many (Reach-Inv r many) off in
    omega (arith, fewer, taker-bound p.workers p.holder)
