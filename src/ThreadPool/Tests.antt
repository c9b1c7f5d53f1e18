-- ===== src/ThreadPool/Tests.antt =====
-- include/weblib/server/ThreadPool.hpp at small pools that are given a task.
use web_library.Base.{
  ℕ, zero, suc, ◌<◌, ◌≤◌, ◌+◌, ◌*◌, List, [], ◌∷◌, ◌++◌, true, false, none, some, length, ◌≡◌, ◌≢◌,
  refl, arith, ok,
}
use web_library.ThreadPool.{
  outside, testing, parking, asleep, ready, taking, running, ThreadPool, moved, blocked, faulted,
  update, new_pool, goto, unlock, turn, push_task, clear, queue_size, stop, work, enqueue_alone,
  stops, now, next, Reach, value, broken, settle, settle_void,
}
use web_library.ThreadPool.Progress.{mutual_exclusion, turn-ne-faulted}
use web_library.ThreadPool.Order.{FifoReach, view, Reach-refines}
use web_library.ThreadPool.Stop.{started_after_stop}
use web_library.ThreadPool.Sleeper.{sleeper_left_behind}
use web_library.ThreadPool.Effort.{Turns, still, going}
use web_library.ThreadPool.Drain.{Turns-bound, Turns-complete}

abbrev none_begun : List ℕ
none_begun = []

abbrev seven : List ℕ
seven = 7 ∷ []

-- Task 7 is queued while all workers are awake, and worker 0 goes for it.
abbrev given : ThreadPool ℕ
given = push_task 7 new_pool

abbrev locked : ThreadPool ℕ
locked = record (given) { holder = some 0; workers = update (λ i. outside) 0 testing }

abbrev tested : ThreadPool ℕ
tested = goto 0 ready locked

abbrev checked : ThreadPool ℕ
checked = goto 0 taking tested

abbrev taken : ThreadPool ℕ
taken = record (checked) {
  m_tasks = [];
  holder = none;
  workers = update checked.workers 0 (running 7);
  started = 7 ∷ [];
}

given-Reach : Reach 1 given
unfolding new_pool
given-Reach = next now (enqueue_alone 7 refl (λ i lt. refl))

locked-turn : turn 0 given ≡ moved locked
unfolding turn push_task new_pool
locked-turn = refl

tested-turn : turn 0 locked ≡ moved tested
unfolding turn push_task new_pool
tested-turn = refl

checked-turn : turn 0 tested ≡ moved checked
unfolding turn push_task new_pool
checked-turn = refl

taken-turn : turn 0 checked ≡ moved taken
unfolding turn push_task new_pool
taken-turn = refl

checked-Reach : Reach 1 checked
checked-Reach =
    next
      (next (next given-Reach (work 0 (omega arith) locked-turn))
        (work 0 (omega arith) tested-turn))
      (work 0 (omega arith) checked-turn)

taken-Turns : Turns 1 4 given taken
taken-Turns = going 0 (omega arith) locked-turn (
    going 0 (omega arith) tested-turn
      (going 0 (omega arith) checked-turn (going 0 (omega arith) taken-turn still)))

mutual_exclusion_example : ◌≡◌ {A = ℕ} 0 0
unfolding goto
mutual_exclusion_example = mutual_exclusion checked-Reach (omega arith) 0 0 refl refl

turn-ne-faulted_example : turn 0 checked ≢ faulted
turn-ne-faulted_example = turn-ne-faulted checked-Reach (omega arith) 0

Reach-refines_example : FifoReach (view taken)
Reach-refines_example = Reach-refines (next checked-Reach (work 0 (omega arith) taken-turn))

-- The flag is stored while worker 0 is about to take task 7.
abbrev stopped_late : ThreadPool ℕ
stopped_late = stop checked

abbrev taken_late : ThreadPool ℕ
taken_late = stop taken

taken_late-turn : turn 0 stopped_late ≡ moved taken_late
unfolding turn stop push_task new_pool
taken_late-turn = refl

started_after_stop_example : length seven ≤ length none_begun + 1
unfolding stop goto push_task new_pool
started_after_stop_example =
    started_after_stop (next checked-Reach stops) (omega arith) refl
      (next now (work 0 (omega arith) taken_late-turn))

sleeper_left_behind_example :
    (p : ThreadPool ℕ) × (Reach 2 p
      × ((p.m_should_work ≡ false) × ((p.notified ≡ true) × (p.workers 1 ≡ asleep))))
sleeper_left_behind_example = sleeper_left_behind 2 1 (omega arith)

Turns-bound_example : 4 ≤ 5 * (1 + length given.m_tasks)
Turns-bound_example = Turns-bound taken-Turns

-- Worker 0 goes on until it sleeps.
abbrev back : ThreadPool ℕ
back = goto 0 outside taken

abbrev locked_again : ThreadPool ℕ
locked_again = record (back) { holder = some 0; workers = update back.workers 0 testing }

abbrev parked : ThreadPool ℕ
parked = goto 0 parking locked_again

abbrev at_rest : ThreadPool ℕ
at_rest = unlock 0 asleep parked

back-turn : turn 0 taken ≡ moved back
unfolding turn
back-turn = refl

locked_again-turn : turn 0 back ≡ moved locked_again
unfolding turn
locked_again-turn = refl

parked-turn : turn 0 locked_again ≡ moved parked
unfolding turn push_task new_pool
parked-turn = refl

at_rest-turn : turn 0 parked ≡ moved at_rest
unfolding turn
at_rest-turn = refl

at_rest-Turns : Turns 1 8 given at_rest
at_rest-Turns = going 0 (omega arith) locked-turn (
    going 0 (omega arith) tested-turn (
      going 0 (omega arith) checked-turn (
        going 0 (omega arith) taken-turn (
          going 0 (omega arith) back-turn (
            going 0 (omega arith) locked_again-turn
              (going 0 (omega arith) parked-turn (going 0 (omega arith) at_rest-turn still)))))))

at_rest-blocked : turn 0 at_rest ≡ blocked
unfolding turn
at_rest-blocked = refl

at_rest-stuck : (i : ℕ) → i < 1 → (r : ThreadPool ℕ) → turn i at_rest ≢ moved r
at_rest-stuck zero lt r h = let e = at_rest-blocked in cc
at_rest-stuck (suc i) lt r h = absurd (omega (arith, lt))

Turns-complete_example : (none_begun ≡ []) × (seven ≡ none_begun ++ seven)
unfolding push_task new_pool unlock goto
Turns-complete_example = Turns-complete given-Reach (omega arith) refl at_rest-Turns at_rest-stuck

queue_size_test : queue_size given ≡ 1
unfolding queue_size push_task new_pool
queue_size_test = refl

clear_test : queue_size (clear given) ≡ 0
unfolding queue_size clear
clear_test = refl

settle_test : settle {A = ℕ} (ok 3) ≡ some (value 3)
unfolding settle
settle_test = refl

settle_void_test : settle_void (ok tt) ≡ some broken
unfolding settle_void
settle_void_test = refl
