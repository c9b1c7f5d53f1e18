-- ===== src/ThreadPool/Keep.antt =====
-- include/weblib/server/ThreadPool.hpp: every step keeps the invariant.
use web_library.Base.{ℕ, ◌<◌, ==_iff, [], ◌∷◌, ◌++◌, true, none, ◌≡◌, refl, sym, ◌∙◌, arith}
use web_library.ThreadPool.{
  woken, ThreadPool, new_pool, is_asleep, turn, wake, push_task, clear, stop, notify_all, Step,
  work, enqueue_wakes, enqueue_alone, clears, stops, notifies_all, wakes_alone, Later, now, next,
  Reach,
}
use web_library.ThreadPool.Inv.{Expects, Awake, Inv}
use web_library.ThreadPool.Places.{
  Expects-free, Expects-stop, Expects-roused, holds-roused, is_asleep-roused, asleep_free,
}
use web_library.ThreadPool.Moves.{update_lem, free-holds, move-Inv}

module _ {T : Type 0} where
  Inv-new : (n : ℕ) → Inv {T = T} n new_pool
  unfolding new_pool
  Inv-new n = record {
    locked = λ i h. cc;
    held = λ i h. cc;
    in_range = λ i h. cc;
    expected = λ i. tt;
    awake = λ h. cc;
  }

  push_task-Inv :
      {n : ℕ} {p : ThreadPool T} (task : T)
      → Inv n p
      → p.holder ≡ none
      → Awake n p
      → Inv n (push_task task p)
  unfolding push_task
  push_task-Inv {n} {p} task v free up = record {
    locked = v.locked;
    held = v.held;
    in_range = v.in_range;
    expected = λ j.
        Expects-free (p.workers j) p.m_tasks (p.m_tasks ++ task ∷ []) p.m_should_work
          (free-holds v free j) (v.expected j);
    awake = λ h. up;
  }

  wake-Inv :
      {n : ℕ} {p : ThreadPool T} (i : ℕ)
      → i < n
      → Inv n p
      → is_asleep (p.workers i) ≡ true
      → Inv n (wake i p)
  unfolding wake
  wake-Inv {n} {p} i lt v sleeps = record {
    locked = λ j h. ground (arith, v.locked j, ==_iff i j);
    held = λ j h. ground (arith, v.held j, asleep_free (p.workers i) sleeps, ==_iff i j);
    in_range = v.in_range;
    expected =
        λ j. update_lem (Expects p.m_tasks p.m_should_work) p.workers i woken j tt (v.expected j);
    awake = λ h. (i, lt, ground (arith, ==_iff i i));
  }

  clear-Inv : {n : ℕ} {p : ThreadPool T} → Inv n p → p.holder ≡ none → Inv n (clear p)
  unfolding clear
  clear-Inv {n} {p} v free = record {
    locked = v.locked;
    held = v.held;
    in_range = v.in_range;
    expected = λ j.
        Expects-free (p.workers j) p.m_tasks [] p.m_should_work (free-holds v free j)
          (v.expected j);
    awake = λ h. cc;
  }

  stop-Inv : {n : ℕ} {p : ThreadPool T} → Inv n p → Inv n (stop p)
  unfolding stop
  stop-Inv {n} {p} v = record {
    locked = v.locked;
    held = v.held;
    in_range = v.in_range;
    expected = λ j. Expects-stop (p.workers j) p.m_tasks p.m_should_work (v.expected j);
    awake = v.awake;
  }

  notify_all-Inv : {n : ℕ} {p : ThreadPool T} → Inv n p → Inv n (notify_all p)
  unfolding notify_all
  notify_all-Inv {n} {p} v = record {
    locked = λ j h. v.locked j (sym (holds-roused (p.workers j)) ∙ h);
    held = λ j h. holds-roused (p.workers j) ∙ v.held j h;
    in_range = v.in_range;
    expected = λ j. Expects-roused (p.workers j) p.m_tasks p.m_should_work (v.expected j);
    awake = λ h. let (j, lt, up) = v.awake h in (j, lt, is_asleep-roused (p.workers j));
  }

  -- Every step of a pool keeps the invariant.
  pub Step-Inv : {n : ℕ} {p q : ThreadPool T} → Step n p q → 0 < n → Inv n p → Inv n q
  unfolding turn wake push_task
  Step-Inv {n} {p} (work i lt h) many v = move-Inv i (p.workers i) lt v refl h
  Step-Inv {n} {p} (enqueue_wakes task i free lt sleeps) many v =
      push_task-Inv task (wake-Inv i lt v sleeps) free (i, lt, ground (arith, ==_iff i i))
  Step-Inv (enqueue_alone task free up) many v = push_task-Inv task v free (0, many, up 0 many)
  Step-Inv (clears free) many v = clear-Inv v free
  Step-Inv stops many v = stop-Inv v
  Step-Inv (notifies_all off once) many v = notify_all-Inv v
  Step-Inv (wakes_alone i lt sleeps) many v = wake-Inv i lt v sleeps

  pub Later-Inv : {n : ℕ} {p q : ThreadPool T} → Later n p q → 0 < n → Inv n p → Inv n q
  Later-Inv now many v = v
  Later-Inv (next l s) many v = Step-Inv s many (Later-Inv l many v)

  pub Reach-Inv : {n : ℕ} {p : ThreadPool T} → Reach n p → 0 < n → Inv n p
  Reach-Inv {n} r many = Later-Inv r many (Inv-new n)
