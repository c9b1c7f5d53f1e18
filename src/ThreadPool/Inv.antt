-- ===== src/ThreadPool/Inv.antt =====
-- include/weblib/server/ThreadPool.hpp: what the places of the workers say about the mutex, the queue
-- and the flag.
use web_library.Base.{ℕ, ◌<◌, List, Bool, true, false, not, some, is_empty, ◌||◌, ◌≡◌}
use web_library.ThreadPool.{Pc, testing, parking, ready, taking, finished, ThreadPool, is_asleep}

module _ {T : Type 0} where
  -- The worker holds m_mutex.
  abbrev pub holds : Pc T → Bool
  holds testing = true
  holds parking = true
  holds ready = true
  holds taking = true
  holds _ = false

  -- What the queue and the flag are, for a worker at this place.
  abbrev pub Expects : List T → Bool → Pc T → Type 0
  Expects tasks flag parking = is_empty tasks ≡ true
  Expects tasks flag ready = (not (is_empty tasks) || not flag) ≡ true
  Expects tasks flag taking = is_empty tasks ≡ false
  Expects tasks flag finished = flag ≡ false
  Expects tasks flag _ = Unit

  -- A worker that can move, or that waits for the mutex alone.
  abbrev pub Awake : ℕ → ThreadPool T → Type 0
  Awake n p = (i : ℕ) × (i < n) × (is_asleep (p.workers i) ≡ false)

  pub record Inv (n : ℕ) (p : ThreadPool T) : Type 0 where
    pub locked : (i : ℕ) → holds (p.workers i) ≡ true → p.holder ≡ some i
    pub held : (i : ℕ) → p.holder ≡ some i → holds (p.workers i) ≡ true
    pub in_range : (i : ℕ) → p.holder ≡ some i → i < n
    pub expected : (i : ℕ) → Expects p.m_tasks p.m_should_work (p.workers i)
    pub awake : is_empty p.m_tasks ≡ false → Awake n p
