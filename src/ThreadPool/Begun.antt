-- ===== src/ThreadPool/Begun.antt =====
-- include/weblib/server/ThreadPool.hpp: the tasks that the workers begin, at each move of a worker.
use web_library.Base.{
  ℕ, ◌+◌, ◌≤◌, ◌==◌, ==_refl, List, [], ◌∷◌, Bool, true, false, Option, none, some, length,
  length-append, if◌then◌else◌, Bool-cases, inl, inr, ◌≡◌, refl, subst, arith,
}
use web_library.ThreadPool.{
  Pc, outside, testing, parking, asleep, woken, ready, taking, running, finished, ThreadPool, moved,
  update, goto, unlock, lock, may_go, take_task, move, roused,
}
use web_library.ThreadPool.Inv.{holds, Inv}

module _ {T : Type 0} where
  abbrev pub takes : Pc T → ℕ
  takes taking = 1
  takes _ = 0

  abbrev pub taker : (ℕ → Pc T) → Option ℕ → ℕ
  taker workers none = 0
  taker workers (some i) = takes (workers i)

  -- The tasks that were begun, and the one that the holder of the mutex is about to begin.
  unfoldable pub begun : ThreadPool T → ℕ
  begun p = length p.started + taker p.workers p.holder

  pub moved_injective : {p q : ThreadPool T} → moved p ≡ moved q → p ≡ q
  moved_injective e = cc

  takes-holds : (w : Pc T) → holds w ≡ false → takes w ≡ 0
  takes-holds outside h = refl
  takes-holds testing h = refl
  takes-holds parking h = refl
  takes-holds asleep h = refl
  takes-holds woken h = refl
  takes-holds ready h = refl
  takes-holds taking h = cc
  takes-holds (running task) h = refl
  takes-holds finished h = refl

  pub takes-roused : (w : Pc T) → takes (roused w) ≡ takes w
  takes-roused outside = refl
  takes-roused testing = refl
  takes-roused parking = refl
  takes-roused asleep = refl
  takes-roused woken = refl
  takes-roused ready = refl
  takes-roused taking = refl
  takes-roused (running task) = refl
  takes-roused finished = refl

  pub taker-update :
      (f : ℕ → Pc T) (i : ℕ) (w : Pc T) (o : Option ℕ)
      → takes w ≡ 0
      → taker (update f i w) o ≤ taker f o
  taker-update f i w none h = omega arith
  taker-update f i w (some j) h = elim (Bool-cases (i == j)) [
    | inl e ↦ rw e (omega arith)
    | inr e ↦ rw e (omega arith)
  ]

  goto-begun : (i : ℕ) (w : Pc T) (p : ThreadPool T) → takes w ≡ 0 → begun (goto i w p) ≤ begun p
  unfolding begun goto
  goto-begun i w p h = omega (arith, taker-update p.workers i w p.holder h)

  unlock-begun : (i : ℕ) (w : Pc T) (p : ThreadPool T) → begun (unlock i w p) ≤ begun p
  unfolding begun unlock
  unlock-begun i w p = omega arith

  lock-begun :
      (i : ℕ) (o : Option ℕ) (p : ThreadPool T) {q : ThreadPool T}
      → p.holder ≡ o
      → lock i o p ≡ moved q
      → begun q ≤ begun p
  unfolding begun lock
  lock-begun i none p e h =
      let same = moved_injective h in
      subst (λ t. begun t ≤ begun p) same (rw (==_refl i) (omega arith))
  lock-begun i (some j) p e h = cc

  take_task-begun :
      (i : ℕ) (tasks : List T) (p : ThreadPool T) {q : ThreadPool T}
      → p.holder ≡ some i
      → p.workers i ≡ taking
      → take_task i tasks p ≡ moved q
      → begun q ≤ begun p
  unfolding begun take_task
  take_task-begun i [] p held at_w h = cc
  take_task-begun i (task ∷ rest) p held at_w h =
      subst (λ t. begun t ≤ begun p) (moved_injective h)
        (rw (held, at_w) (omega (arith, length-append p.started (task ∷ []))))

  tested-begun :
      (i : ℕ) (go : Bool) (p : ThreadPool T) {q : ThreadPool T}
      → moved (if go then goto i ready p else goto i parking p) ≡ moved q
      → begun q ≤ begun p
  tested-begun i true p h =
      subst (λ t. begun t ≤ begun p) (moved_injective h) (goto-begun i ready p refl)
  tested-begun i false p h =
      subst (λ t. begun t ≤ begun p) (moved_injective h) (goto-begun i parking p refl)

  checked-begun :
      (i : ℕ) (flag : Bool) (p : ThreadPool T) {q : ThreadPool T}
      → flag ≡ false
      → moved (if flag then goto i taking p else unlock i finished p) ≡ moved q
      → begun q ≤ begun p
  checked-begun i true p off h = cc
  checked-begun i false p off h =
      subst (λ t. begun t ≤ begun p) (moved_injective h) (unlock-begun i finished p)

  -- Once the flag is down, no worker goes on to take a task.
  pub move-begun :
      {n : ℕ} (i : ℕ) (w : Pc T) (p : ThreadPool T) {q : ThreadPool T}
      → Inv n p
      → p.m_should_work ≡ false
      → p.workers i ≡ w
      → move i w p ≡ moved q
      → begun q ≤ begun p
  unfolding move
  move-begun i outside p v off at_w h = lock-begun i p.holder p refl h
  move-begun i testing p v off at_w h = tested-begun i (may_go p) p h
  move-begun i parking p v off at_w h =
      subst (λ t. begun t ≤ begun p) (moved_injective h) (unlock-begun i asleep p)
  move-begun i asleep p v off at_w h = cc
  move-begun i woken p v off at_w h = lock-begun i p.holder p refl h
  move-begun i ready p v off at_w h = checked-begun i p.m_should_work p off h
  move-begun i taking p v off at_w h =
      take_task-begun i p.m_tasks p (v.locked i (rw at_w refl)) at_w h
  move-begun i (running task) p v off at_w h =
      subst (λ t. begun t ≤ begun p) (moved_injective h) (goto-begun i outside p refl)
  move-begun i finished p v off at_w h = cc
