-- ===== src/ThreadPool/Drain.antt =====
-- include/weblib/server/ThreadPool.hpp: how many turns the workers have, and what they do with the queue.
use web_library.Base.{
  ℕ, zero, suc, ◌+◌, ◌*◌, ◌<◌, ◌≤◌, List, [], ◌∷◌, ◌++◌, append_assoc, append-nil, true, Option,
  none, some, length, Bool-cases, inl, inr, ◌≡◌, ◌≢◌, refl, sym, ap, ◌∙◌, arith, is_empty,
}
use web_library.ThreadPool.{
  Pc, outside, testing, parking, asleep, woken, ready, taking, running, finished, ThreadPool, moved,
  goto, unlock, lock, take_task, move, turn, work, next, Reach,
}
use web_library.ThreadPool.Progress.{turn_progress}
use web_library.ThreadPool.Begun.{moved_injective}
use web_library.ThreadPool.Stop.{move-off}
use web_library.ThreadPool.Effort.{Turns, still, going, potential, turn-potential, potential-bound}

module _ {T : Type 0} where
  Turns-potential :
      {n k : ℕ} {p q : ThreadPool T} → Turns n k p q → k + potential n q ≤ potential n p
  Turns-potential still = omega arith
  Turns-potential (going {p} i lt h turns) =
      omega (arith, turn-potential _ i p lt h, Turns-potential turns)

  -- The tasks that were begun, and behind them those that wait.
  abbrev pub line_up : ThreadPool T → List T
  line_up p = p.started ++ p.m_tasks

  lock-line_up :
      (i : ℕ) (o : Option ℕ) (p : ThreadPool T) {q : ThreadPool T}
      → lock i o p ≡ moved q
      → line_up q ≡ line_up p
  unfolding lock
  lock-line_up i none p h = ap line_up (sym (moved_injective h))
  lock-line_up i (some j) p h = cc

  take_task-line_up :
      (i : ℕ) (tasks : List T) (p : ThreadPool T) {q : ThreadPool T}
      → p.m_tasks ≡ tasks
      → take_task i tasks p ≡ moved q
      → line_up q ≡ line_up p
  unfolding take_task
  take_task-line_up i [] p e h = cc
  take_task-line_up i (task ∷ behind) p e h =
      ap line_up (sym (moved_injective h))
      ∙ append_assoc p.started (task ∷ []) behind
      ∙ ap (λ t. p.started ++ t) (sym e)

  pub move-line_up :
      (i : ℕ) (w : Pc T) (p : ThreadPool T) {q : ThreadPool T}
      → move i w p ≡ moved q
      → line_up q ≡ line_up p
  unfolding move goto unlock
  move-line_up i outside p h = lock-line_up i p.holder p h
  move-line_up i testing p h = ground arith
  move-line_up i parking p h = ap line_up (sym (moved_injective h))
  move-line_up i asleep p h = cc
  move-line_up i woken p h = lock-line_up i p.holder p h
  move-line_up i ready p h = ground arith
  move-line_up i taking p h = take_task-line_up i p.m_tasks p refl h
  move-line_up i (running task) p h = ap line_up (sym (moved_injective h))
  move-line_up i finished p h = cc

  is_empty_sound : (tasks : List T) → is_empty tasks ≡ true → tasks ≡ []
  is_empty_sound [] h = refl
  is_empty_sound (task ∷ tasks) h = cc

  -- A state in which the queue is empty and each task that waited was begun, k turns from p.
  abbrev pub Drained : ℕ → ThreadPool T → Type 0
  Drained n p =
      (k : ℕ) × ((q : ThreadPool T) × (Turns n k p q
          × ((q.m_tasks ≡ []) × (q.started ≡ p.started ++ p.m_tasks))))

  idle-Drained : {n : ℕ} (p : ThreadPool T) → is_empty p.m_tasks ≡ true → Drained n p
  idle-Drained p idle =
      let none_left = is_empty_sound p.m_tasks idle in
      let same = ap (λ t. p.started ++ t) none_left ∙ append-nil p.started in
      (0, (p, (still, (none_left, sym same))))

  going-Drained :
      {n : ℕ} (i : ℕ) (p q : ThreadPool T) → i < n → turn i p ≡ moved q → Drained n q → Drained n p
  unfolding turn
  going-Drained i p q lt h (k, (r, (turns, (none_left, all)))) =
      (suc k, (r, (going i lt h turns, (none_left, all ∙ move-line_up i (p.workers i) p h))))

  drains :
      (fuel : ℕ) {n : ℕ} (p : ThreadPool T)
      → potential n p ≤ fuel
      → Reach n p
      → 0 < n
      → p.m_should_work ≡ true
      → Drained n p
  unfolding turn
  drains zero p enough r many on = elim (Bool-cases (is_empty p.m_tasks)) [
    | inl idle ↦ idle-Drained p idle
    | inr queued ↦
        let (i, lt, (q, h)) = turn_progress r many on queued in
        let less = turn-potential _ i p lt h in absurd (omega (arith, enough, less))
  ]
  drains (suc fuel) p enough r many on = elim (Bool-cases (is_empty p.m_tasks)) [
    | inl idle ↦ idle-Drained p idle
    | inr queued ↦
        let (i, lt, (q, h)) = turn_progress r many on queued in
        let less = turn-potential _ i p lt h in
        let fewer : potential _ q ≤ fuel = omega (arith, enough, less) in
        going-Drained i p q lt h
          (drains fuel q fewer (next r (work i lt h)) many (move-off i (p.workers i) p h ∙ on))
  ]

-- While no other thread acts on the pool, the workers have no more than five turns for each of them and
-- for each task in the queue, in whatever order they take them.
pub Turns-bound :
    {T : Type 0} {n k : ℕ} {p q : ThreadPool T} → Turns n k p q → k ≤ 5 * (n + length p.m_tasks)
Turns-bound {n} {p} turns = omega (arith, Turns-potential turns, potential-bound n p)

-- From each state that a working pool with a worker reaches, turns of the workers alone lead to one with
-- an empty queue, in which all tasks that waited were begun, in their order.
pub Reach-Drained :
    {T : Type 0} {n : ℕ} {p : ThreadPool T}
    → Reach n p
    → 0 < n
    → p.m_should_work ≡ true
    → Drained n p
Reach-Drained {n} {p} r many on = drains (potential n p) p (omega arith) r many on

-- From each state that a working pool with a worker reaches: a run of turns of the workers alone, in
-- whatever order, that cannot go on has emptied the queue and begun all tasks that waited, in their
-- order.
pub Turns-complete :
    {T : Type 0} {n k : ℕ} {p q : ThreadPool T}
    → Reach n p
    → 0 < n
    → p.m_should_work ≡ true
    → Turns n k p q
    → ((i : ℕ) → i < n → (r : ThreadPool T) → turn i q ≢ moved r)
    → (q.m_tasks ≡ []) × (q.started ≡ p.started ++ p.m_tasks)
unfolding turn
Turns-complete {p} r many on still stuck = elim (Bool-cases (is_empty p.m_tasks)) [
  | inl idle ↦
      let none_left = is_empty_sound p.m_tasks idle in
      (none_left, sym (ap (λ t. p.started ++ t) none_left ∙ append-nil p.started))
  | inr queued ↦ let (i, lt, (q, h)) = turn_progress r many on queued in absurd (stuck i lt q h)
]
Turns-complete r many on (going {p} i lt h turns) stuck =
    let (none_left, all) =
      Turns-complete (next r (work i lt h)) many (move-off i (p.workers i) p h ∙ on) turns stuck in
    (none_left, all ∙ move-line_up i (p.workers i) p h)
