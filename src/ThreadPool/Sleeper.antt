-- ===== src/ThreadPool/Sleeper.antt =====
-- include/weblib/server/ThreadPool.hpp: the destructor, and a worker between its test and its wait.
use web_library.Base.{ℕ, ◌<◌, ==_refl, true, false, some, ◌≡◌, refl}
use web_library.ThreadPool.{
  outside, testing, asleep, parking, ThreadPool, moved, update, new_pool, goto, unlock, lock,
  may_go, move, turn, stop, notify_all, work, stops, notifies_all, now, next, Reach,
}

module _ {T : Type 0} (n i : ℕ) (lt : i < n) where
  abbrev at_test : ThreadPool T
  at_test = record (new_pool) { holder = some i; workers = update (λ j. outside) i testing }

  abbrev at_wait : ThreadPool T
  at_wait = goto i parking at_test

  abbrev left_behind : ThreadPool T
  left_behind = unlock i asleep (notify_all (stop at_wait))

  at_test-turn : turn i new_pool ≡ moved at_test
  unfolding turn move lock new_pool
  at_test-turn = refl

  at_wait-turn : turn i at_test ≡ moved at_wait
  unfolding turn move goto may_go new_pool
  at_wait-turn = rw (==_refl i) refl

  left_behind-turn : turn i (notify_all (stop at_wait)) ≡ moved left_behind
  unfolding turn move goto unlock notify_all stop new_pool
  left_behind-turn = rw (==_refl i) refl

  left_behind-Reach : Reach n left_behind
  unfolding stop notify_all goto new_pool
  left_behind-Reach =
      next
        (next (next (next (next now (work i lt at_test-turn)) (work i lt at_wait-turn)) stops)
          (notifies_all refl refl))
        (work i lt left_behind-turn)

-- For each worker there is a run of the pool in which the destructor has stored its flag and has notified
-- all, and the worker blocks in the condition variable: it had tested the flag before the store and
-- waits behind the notification, as the store is made without the mutex.
pub sleeper_left_behind :
    {T : Type 0} (n i : ℕ)
    → i < n
    → (p : ThreadPool T) × (Reach n p
        × ((p.m_should_work ≡ false) × ((p.notified ≡ true) × (p.workers i ≡ asleep))))
unfolding goto unlock notify_all stop new_pool
sleeper_left_behind n i lt =
    (left_behind n i lt, (left_behind-Reach n i lt, (refl, (refl, rw (==_refl i) refl))))
