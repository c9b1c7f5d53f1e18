-- ===== src/ThreadPool/Order.antt =====
-- include/weblib/server/ThreadPool.hpp: the pool as a queue, whatever its workers do.
use web_library.Base.{
  ℕ, List, [], ◌∷◌, ◌++◌, Option, none, some, ◌⊎◌, inl, inr, ◌≡◌, refl, ap, subst, append_assoc,
  append-nil, arith,
}
use web_library.ThreadPool.{
  Pc, outside, testing, parking, asleep, woken, ready, taking, running, finished, ThreadPool, moved,
  new_pool, goto, unlock, lock, take_task, move, turn, wake, push_task, clear, stop, notify_all,
  Step, work, enqueue_wakes, enqueue_alone, clears, stops, notifies_all, wakes_alone, now, next,
  Reach,
}

-- What a caller sees of the pool: the tasks that wait, and the tasks that were begun, each in order.
pub record Fifo (T : Type 0) : Type 0 where
  pub waiting : List T
  pub begun : List T
  pub given : List T

-- A task is given at the end of the queue, the first one that waits is begun, or the queue is emptied.
pub data FifoStep {T : Type 0} (s : Fifo T) : Fifo T → Type 0 where
  give :
      (task : T)
      → FifoStep s (record s { waiting = s.waiting ++ task ∷ []; given = s.given ++ task ∷ [] })
  begin :
      (task : T) (rest : List T)
      → s.waiting ≡ task ∷ rest
      → FifoStep s (record s { waiting = rest; begun = s.begun ++ task ∷ [] })
  drop_all : FifoStep s (record s { waiting = [] })

pub data FifoReach {T : Type 0} : Fifo T → Type 0 where
  start : FifoReach (record { waiting = []; begun = []; given = [] })
  later : {s t : Fifo T} → FifoReach s → FifoStep s t → FifoReach t

abbrev pub view : {T : Type 0} → ThreadPool T → Fifo T
view p = record { waiting = p.m_tasks; begun = p.started; given = p.submitted }

-- The first list is the second with some items left out.
pub data Subsequence {T : Type 0} : List T → List T → Type 0 where
  done : Subsequence [] []
  both : (x : T) {xs ys : List T} → Subsequence xs ys → Subsequence (x ∷ xs) (x ∷ ys)
  skip : (y : T) {xs ys : List T} → Subsequence xs ys → Subsequence xs (y ∷ ys)

module _ {T : Type 0} where
  Subsequence-snoc :
      {xs ys : List T} (x : T) → Subsequence xs ys → Subsequence (xs ++ x ∷ []) (ys ++ x ∷ [])
  Subsequence-snoc x done = both x done
  Subsequence-snoc x (both y s) = both y (Subsequence-snoc x s)
  Subsequence-snoc x (skip y s) = skip y (Subsequence-snoc x s)

  Subsequence-none : {xs ys : List T} → Subsequence xs ys → Subsequence [] ys
  Subsequence-none done = done
  Subsequence-none (both y s) = skip y (Subsequence-none s)
  Subsequence-none (skip y s) = skip y (Subsequence-none s)

  Subsequence-front :
      (xs zs : List T) {ws ys : List T} → ws ≡ xs ++ zs → Subsequence ws ys → Subsequence xs ys
  Subsequence-front [] zs e s = Subsequence-none s
  Subsequence-front (x ∷ xs) zs e done = cc
  Subsequence-front (x ∷ xs) zs e (both y {xs = ws} {ys = ys} s) =
      let head : y ≡ x = cc in
      let tail : ws ≡ xs ++ zs = cc in
      subst (λ t. Subsequence (t ∷ xs) (y ∷ ys)) head (both y (Subsequence-front xs zs tail s))
  Subsequence-front (x ∷ xs) zs e (skip y s) = skip y (Subsequence-front (x ∷ xs) zs e s)

  Fifo-order : {s : Fifo T} → FifoReach s → Subsequence (s.begun ++ s.waiting) s.given
  Fifo-order start = done
  Fifo-order (later {s} r (give task)) =
      rw (← append_assoc s.begun s.waiting (task ∷ [])) (Subsequence-snoc task (Fifo-order r))
  Fifo-order (later {s} r (begin task rest e)) =
      rw (append_assoc s.begun (task ∷ []) rest)
        (subst (λ t. Subsequence (s.begun ++ t) s.given) e (Fifo-order r))
  Fifo-order (later {s} r drop_all) =
      rw (append-nil s.begun) (Subsequence-front s.begun s.waiting refl (Fifo-order r))

  -- A step of the specification, or none.
  abbrev Sees : ThreadPool T → ThreadPool T → Type 0
  Sees p q = (view p ≡ view q) ⊎ FifoStep (view p) (view q)

  moved_injective : {p q : ThreadPool T} → moved p ≡ moved q → p ≡ q
  moved_injective e = cc

  lock-Sees :
      (i : ℕ) (o : Option ℕ) (p : ThreadPool T) {q : ThreadPool T}
      → lock i o p ≡ moved q
      → view p ≡ view q
  unfolding lock
  lock-Sees i none p h = ap view (moved_injective h)
  lock-Sees i (some j) p h = cc

  take_task-Sees :
      (i : ℕ) (tasks : List T) (p : ThreadPool T) {q : ThreadPool T}
      → p.m_tasks ≡ tasks
      → take_task i tasks p ≡ moved q
      → FifoStep (view p) (view q)
  unfolding take_task
  take_task-Sees i [] p e h = cc
  take_task-Sees i (task ∷ rest) p e h =
      subst (λ t. FifoStep (view p) (view t)) (moved_injective h) (begin task rest e)

  move-Sees :
      (i : ℕ) (w : Pc T) (p : ThreadPool T) {q : ThreadPool T} → move i w p ≡ moved q → Sees p q
  unfolding move goto unlock
  move-Sees i outside p h = inl (lock-Sees i p.holder p h)
  move-Sees i testing p h = inl (ground arith)
  move-Sees i parking p h = inl (ap view (moved_injective h))
  move-Sees i asleep p h = cc
  move-Sees i woken p h = inl (lock-Sees i p.holder p h)
  move-Sees i ready p h = inl (ground arith)
  move-Sees i taking p h = inr (take_task-Sees i p.m_tasks p refl h)
  move-Sees i (running task) p h = inl (ap view (moved_injective h))
  move-Sees i finished p h = cc

  Step-Sees : {n : ℕ} {p q : ThreadPool T} → Step n p q → Sees p q
  unfolding turn wake push_task clear stop notify_all
  Step-Sees {p} (work i lt h) = move-Sees i (p.workers i) p h
  Step-Sees (enqueue_wakes task i free lt sleeps) = inr (give task)
  Step-Sees (enqueue_alone task free up) = inr (give task)
  Step-Sees (clears free) = inr drop_all
  Step-Sees stops = inl refl
  Step-Sees (notifies_all off once) = inl refl
  Step-Sees (wakes_alone i lt sleeps) = inl refl

-- Whatever the workers, the callers, the destructor and spurious wake-ups do in any order, a caller sees
-- no more than a queue: tasks are given at its end, begun one at a time from its front, or dropped all.
pub Reach-refines : {T : Type 0} {n : ℕ} {p : ThreadPool T} → Reach n p → FifoReach (view p)
unfolding new_pool
Reach-refines now = start
Reach-refines (next r s) = elim (Step-Sees s) [
  | inl same ↦ subst FifoReach same (Reach-refines r)
  | inr step ↦ later (Reach-refines r) step
]

-- The tasks that were begun, in the order in which they were, and behind them those that wait are the
-- tasks that were submitted, in their order and each at most once, but for those that were dropped.
pub started_in_order :
    {T : Type 0} {n : ℕ} {p : ThreadPool T}
    → Reach n p
    → Subsequence (p.started ++ p.m_tasks) p.submitted
started_in_order r = Fifo-order (Reach-refines r)
