-- ===== src/ThreadPool/Effort.antt =====
-- include/weblib/server/ThreadPool.hpp: the turns of the workers while no other thread acts on the pool.
use web_library.Base.{
  ℕ, zero, suc, ◌+◌, ◌*◌, ◌<◌, ◌≤◌, ◌==◌, ==_iff, List, [], ◌∷◌, false, Option, none, some, length,
  Bool-cases, inl, inr, ◌≡◌, refl, ap, subst, arith,
}
use web_library.ThreadPool.{
  Pc, outside, testing, parking, asleep, woken, ready, taking, running, finished, ThreadPool, moved,
  update, goto, unlock, lock, may_go, take_task, move, turn,
}
use web_library.ThreadPool.Begun.{moved_injective}

-- k turns of the first n workers, from one state to another.
pub data Turns {T : Type 0} (n : ℕ) : ℕ → ThreadPool T → ThreadPool T → Type 0 where
  still : {p : ThreadPool T} → Turns n 0 p p
  going :
      {k : ℕ} {p q r : ThreadPool T} (i : ℕ)
      → i < n
      → turn i p ≡ moved q
      → Turns n k q r
      → Turns n (suc k) p r

module _ {T : Type 0} where
  -- The turns that a worker has before it sleeps or returns, if it finds no task.
  abbrev rank : Pc T → ℕ
  rank outside = 4
  rank testing = 3
  rank parking = 1
  rank asleep = 0
  rank woken = 4
  rank ready = 2
  rank taking = 1
  rank (running task) = 5
  rank finished = 0

  ranks : ℕ → (ℕ → Pc T) → ℕ
  ranks zero f = 0
  ranks (suc n) f = ranks n f + rank (f n)

  pub potential : ℕ → ThreadPool T → ℕ
  potential n p = ranks n p.workers + 5 * length p.m_tasks

  rank-bound : (w : Pc T) → rank w ≤ 5
  rank-bound outside = omega arith
  rank-bound testing = omega arith
  rank-bound parking = omega arith
  rank-bound asleep = omega arith
  rank-bound woken = omega arith
  rank-bound ready = omega arith
  rank-bound taking = omega arith
  rank-bound (running task) = omega arith
  rank-bound finished = omega arith

  ranks-bound : (n : ℕ) (f : ℕ → Pc T) → ranks n f ≤ 5 * n
  unfolding ranks
  ranks-bound zero f = omega arith
  ranks-bound (suc n) f = omega (arith, ranks-bound n f, rank-bound (f n))

  ranks-above :
      (n : ℕ) (f : ℕ → Pc T) (i : ℕ) (w : Pc T) → n ≤ i → ranks n (update f i w) ≡ ranks n f
  unfolding ranks
  ranks-above zero f i w h = refl
  ranks-above (suc n) f i w h =
      let other : (i == n) ≡ false = ground (arith, ==_iff i n) in
      rw (other, ranks-above n f i w (omega arith)) refl

  ranks-update :
      (n : ℕ) (f : ℕ → Pc T) (i : ℕ) (w : Pc T)
      → i < n
      → ranks n (update f i w) + rank (f i) ≡ ranks n f + rank w
  unfolding ranks
  ranks-update zero f i w h = omega arith
  ranks-update (suc n) f i w h = elim (Bool-cases (i == n)) [
    | inl e ↦
        let same : i ≡ n = ground (arith, ==_iff i n) in
        rw (e, same) (omega (arith, ranks-above n f n w (omega arith)))
    | inr e ↦
        let below : i < n = ground (arith, ==_iff i n) in
        rw e (omega (arith, ranks-update n f i w below))
  ]

  goto-potential :
      (n i : ℕ) (w : Pc T) (p : ThreadPool T)
      → i < n
      → rank w < rank (p.workers i)
      → potential n (goto i w p) < potential n p
  unfolding potential goto
  goto-potential n i w p lt less = omega (arith, ranks-update n p.workers i w lt)

  unlock-potential :
      (n i : ℕ) (w : Pc T) (p : ThreadPool T)
      → i < n
      → rank w < rank (p.workers i)
      → potential n (unlock i w p) < potential n p
  unfolding potential unlock
  unlock-potential n i w p lt less = omega (arith, ranks-update n p.workers i w lt)

  lock-potential :
      (n i : ℕ) (o : Option ℕ) (p : ThreadPool T) {q : ThreadPool T}
      → i < n
      → rank (p.workers i) ≡ 4
      → lock i o p ≡ moved q
      → potential n q < potential n p
  unfolding potential lock
  lock-potential n i none p lt e h =
      subst (λ t. potential n t < potential n p) (moved_injective h)
        (omega (arith, ranks-update n p.workers i testing lt))
  lock-potential n i (some j) p lt e h = cc

  take_task-potential :
      (n i : ℕ) (tasks : List T) (p : ThreadPool T) {q : ThreadPool T}
      → i < n
      → p.workers i ≡ taking
      → p.m_tasks ≡ tasks
      → take_task i tasks p ≡ moved q
      → potential n q < potential n p
  unfolding potential take_task
  take_task-potential n i [] p lt at_w e h = cc
  take_task-potential n i (task ∷ behind) p lt at_w e h =
      let before : rank (p.workers i) ≡ 1 = ap rank at_w in
      let size : length p.m_tasks ≡ suc (length behind) = ap length e in
      subst (λ t. potential n t < potential n p) (moved_injective h)
        (omega (arith, ranks-update n p.workers i (running task) lt))

  move-potential :
      (n i : ℕ) (w : Pc T) (p : ThreadPool T) {q : ThreadPool T}
      → i < n
      → p.workers i ≡ w
      → move i w p ≡ moved q
      → potential n q < potential n p
  unfolding move potential
  move-potential n i outside p lt at_w h = lock-potential n i p.holder p lt (ap rank at_w) h
  move-potential n i testing p lt at_w h =
      let less : (w : Pc T) → rank w < 3 → potential n (goto i w p) < potential n p =
        λ w below. goto-potential n i w p lt (rw at_w below) in
      elim (Bool-cases (may_go p)) [
        | inl go ↦
            subst (λ t. potential n t < potential n p) (moved_injective (rw (go, move) at h))
              (less ready (omega arith))
        | inr stay ↦
            subst (λ t. potential n t < potential n p) (moved_injective (rw (stay, move) at h))
              (less parking (omega arith))
      ]
  move-potential n i parking p lt at_w h =
      subst (λ t. potential n t < potential n p) (moved_injective h)
        (unlock-potential n i asleep p lt (rw at_w (omega arith)))
  move-potential n i asleep p lt at_w h = cc
  move-potential n i woken p lt at_w h = lock-potential n i p.holder p lt (ap rank at_w) h
  move-potential n i ready p lt at_w h = elim (Bool-cases p.m_should_work) [
    | inl on ↦
        subst (λ t. potential n t < potential n p) (moved_injective (rw (on, move) at h))
          (goto-potential n i taking p lt (rw at_w (omega arith)))
    | inr off ↦
        subst (λ t. potential n t < potential n p) (moved_injective (rw (off, move) at h))
          (unlock-potential n i finished p lt (rw at_w (omega arith)))
  ]
  move-potential n i taking p lt at_w h = take_task-potential n i p.m_tasks p lt at_w refl h
  move-potential n i (running task) p lt at_w h =
      subst (λ t. potential n t < potential n p) (moved_injective h)
        (goto-potential n i outside p lt (rw at_w (omega arith)))
  move-potential n i finished p lt at_w h = cc

  -- Every turn of a worker costs some of the potential.
  pub turn-potential :
      (n i : ℕ) (p : ThreadPool T) {q : ThreadPool T}
      → i < n
      → turn i p ≡ moved q
      → potential n q < potential n p
  unfolding turn
  turn-potential n i p lt h = move-potential n i (p.workers i) p lt refl h

  pub potential-bound : (n : ℕ) (p : ThreadPool T) → potential n p ≤ 5 * (n + length p.m_tasks)
  unfolding potential
  potential-bound n p = omega (arith, ranks-bound n p.workers)
