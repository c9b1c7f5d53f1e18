-- ===== src/ThreadPool/Moves.antt =====
-- include/weblib/server/ThreadPool.hpp: every move of a worker keeps the invariant.
use web_library.Base.{
  ℕ, ◌<◌, ◌==◌, ==_iff, List, [], ◌∷◌, Bool, true, false, none, is_empty, if◌then◌else◌, Bool-cases,
  Option-cases, ◌⊎◌, inl, inr, ◌≡◌, ◌≢◌, refl, subst, arith,
}
use web_library.ThreadPool.{
  Pc, outside, testing, parking, asleep, woken, ready, taking, running, finished, ThreadPool, Turn,
  moved, blocked, update, is_asleep, goto, unlock, lock, may_go, take_task, move,
}
use web_library.ThreadPool.Inv.{holds, Expects, Inv}
use web_library.ThreadPool.Places.{Expects-free}

module _ {T : Type 0} where
  moved_injective : {p q : ThreadPool T} → moved p ≡ moved q → p ≡ q
  moved_injective e = cc

  blocked-ne-moved : {p : ThreadPool T} → ◌≢◌ {A = Turn T} blocked (moved p)
  blocked-ne-moved h = cc

  pub update_lem :
      (P : Pc T → Type 0) (f : ℕ → Pc T) (i : ℕ) (w : Pc T) (j : ℕ)
      → P w
      → P (f j)
      → P (update f i w j)
  update_lem P f i w j new old = elim (Bool-cases (i == j)) [ inl e ↦ rw e new | inr e ↦ rw e old ]

  -- A worker that goes on with what it holds, and without a change of the queue.
  goto-Inv :
      {n : ℕ} {p : ThreadPool T} (i : ℕ) (w : Pc T)
      → i < n
      → Inv n p
      → holds w ≡ holds (p.workers i)
      → Expects p.m_tasks p.m_should_work w
      → is_asleep w ≡ false
      → Inv n (goto i w p)
  unfolding goto
  goto-Inv {n} {p} i w lt v same e up = record {
    locked = λ j h. ground (arith, v.locked j, v.locked i, ==_iff i j);
    held = λ j h. ground (arith, v.held j, v.held i, ==_iff i j);
    in_range = λ j h. ground (arith, v.in_range j);
    expected = λ j. update_lem (Expects p.m_tasks p.m_should_work) p.workers i w j e (v.expected j);
    awake = λ h. (i, lt, ground arith);
  }

  -- A worker that gives the mutex back. Where it falls asleep, the queue is empty.
  unlock-Inv :
      {n : ℕ} {p : ThreadPool T} (i : ℕ) (w : Pc T)
      → i < n
      → Inv n p
      → holds (p.workers i) ≡ true
      → holds w ≡ false
      → Expects p.m_tasks p.m_should_work w
      → (is_asleep w ≡ false) ⊎ (is_empty p.m_tasks ≡ true)
      → Inv n (unlock i w p)
  unfolding unlock
  unlock-Inv {n} {p} i w lt v had gives e up = record {
    locked = λ j h. ground (arith, v.locked j, v.locked i, ==_iff i j);
    held = λ j h. cc;
    in_range = λ j h. cc;
    expected = λ j. update_lem (Expects p.m_tasks p.m_should_work) p.workers i w j e (v.expected j);
    awake = λ h. (i, lt, ground arith);
  }

  lock-Inv :
      {n : ℕ} {p q : ThreadPool T} (i : ℕ) → i < n → Inv n p → lock i p.holder p ≡ moved q → Inv n q
  unfolding lock
  lock-Inv {n} {p} i lt v h = elim (Option-cases p.holder) [
    | inr (k, e) ↦ absurd (blocked-ne-moved (rw (e, lock) at h))
    | inl free ↦ subst (Inv n) (moved_injective (rw (free, lock) at h)) (record {
      locked = λ j h. ground (arith, v.locked j, ==_iff i j);
      held = λ j h. ground (arith, ==_iff i j);
      in_range = λ j h. ground arith;
      expected = λ j.
          update_lem (Expects p.m_tasks p.m_should_work) p.workers i testing j tt (v.expected j);
      awake = λ h. (i, lt, ground (arith, ==_iff i i));
    })
  ]

  -- While nobody holds the mutex, no worker holds it.
  pub free-holds :
      {n : ℕ} {p : ThreadPool T} → Inv n p → p.holder ≡ none → (i : ℕ) → holds (p.workers i) ≡ false
  free-holds {p} v free i = ground (arith, v.locked i)

  take_task-Inv :
      {n : ℕ} {p q : ThreadPool T} (i : ℕ) (tasks : List T)
      → i < n
      → Inv n p
      → holds (p.workers i) ≡ true
      → take_task i tasks p ≡ moved q
      → Inv n q
  unfolding take_task
  take_task-Inv i [] lt v had h = cc
  take_task-Inv {n} {p} i (task ∷ rest) lt v had h = subst (Inv n) (moved_injective h) (record {
    locked = λ j g. ground (arith, v.locked j, v.locked i, ==_iff i j);
    held = λ j g. cc;
    in_range = λ j g. cc;
    expected = λ j. elim (Bool-cases (i == j)) [
      | inl e ↦ rw e tt
      | inr e ↦
          let idle : holds (p.workers j) ≡ false =
            ground (arith, v.locked j, v.locked i, ==_iff i j) in
          rw e (Expects-free (p.workers j) p.m_tasks rest p.m_should_work idle (v.expected j))
    ];
    awake = λ g. (i, lt, ground (arith, ==_iff i i));
  })

  ready-Inv :
      {n : ℕ} {p q : ThreadPool T} (i : ℕ) (flag : Bool)
      → i < n
      → Inv n p
      → p.m_should_work ≡ flag
      → p.workers i ≡ ready
      → moved (if flag then goto i taking p else unlock i finished p) ≡ moved q
      → Inv n q
  ready-Inv {n} {p} i true lt v on at_w h =
      let go = subst (Expects p.m_tasks p.m_should_work) at_w (v.expected i) in
      subst (Inv n) (moved_injective h) (goto-Inv i taking lt v (rw at_w refl) (ground arith) refl)
  ready-Inv {n} {p} i false lt v off at_w h =
      subst (Inv n) (moved_injective h)
        (unlock-Inv i finished lt v (rw at_w refl) refl off (inl refl))

  pub move-Inv :
      {n : ℕ} {p q : ThreadPool T} (i : ℕ) (w : Pc T)
      → i < n
      → Inv n p
      → p.workers i ≡ w
      → move i w p ≡ moved q
      → Inv n q
  unfolding move may_go
  move-Inv i outside lt v at_w h = lock-Inv i lt v h
  move-Inv i woken lt v at_w h = lock-Inv i lt v h
  move-Inv {n} {p} i testing lt v at_w h = elim (Bool-cases (may_go p)) [
    | inl go ↦
        subst (Inv n) (moved_injective (rw (go, move) at h))
          (goto-Inv i ready lt v (rw at_w refl) go refl)
    | inr stay ↦
        subst (Inv n) (moved_injective (rw (stay, move) at h))
          (goto-Inv i parking lt v (rw at_w refl) (ground arith) refl)
  ]
  move-Inv {n} {p} i parking lt v at_w h =
      let none_left = subst (Expects p.m_tasks p.m_should_work) at_w (v.expected i) in
      subst (Inv n) (moved_injective h)
        (unlock-Inv i asleep lt v (rw at_w refl) refl tt (inr none_left))
  move-Inv i asleep lt v at_w h = absurd (blocked-ne-moved h)
  move-Inv i ready lt v at_w h = ready-Inv i _ lt v refl at_w h
  move-Inv {n} {p} i taking lt v at_w h = take_task-Inv i p.m_tasks lt v (rw at_w refl) h
  move-Inv {n} {p} i (running task) lt v at_w h =
      subst (Inv n) (moved_injective h) (goto-Inv i outside lt v (rw at_w refl) tt refl)
  move-Inv i finished lt v at_w h = absurd (blocked-ne-moved h)
