-- ===== src/ThreadPool/Places.antt =====
-- include/weblib/server/ThreadPool.hpp: what each place of a worker asks of the mutex and the queue.
use web_library.Base.{List, Bool, true, false, ◌≡◌, refl, arith}
use web_library.ThreadPool.{
  Pc, outside, testing, parking, asleep, woken, ready, taking, running, finished, is_asleep, roused,
}
use web_library.ThreadPool.Inv.{holds, Expects}

module _ {T : Type 0} where
  -- A worker without the mutex expects nothing of the queue.
  pub Expects-free :
      (w : Pc T) (tasks tasks' : List T) (flag : Bool)
      → holds w ≡ false
      → Expects tasks flag w
      → Expects tasks' flag w
  Expects-free outside tasks tasks' flag h e = tt
  Expects-free testing tasks tasks' flag h e = tt
  Expects-free parking tasks tasks' flag h e = cc
  Expects-free asleep tasks tasks' flag h e = tt
  Expects-free woken tasks tasks' flag h e = tt
  Expects-free ready tasks tasks' flag h e = cc
  Expects-free taking tasks tasks' flag h e = cc
  Expects-free (running task) tasks tasks' flag h e = tt
  Expects-free finished tasks tasks' flag h e = e

  -- The flag is only ever taken down.
  pub Expects-stop :
      (w : Pc T) (tasks : List T) (flag : Bool) → Expects tasks flag w → Expects tasks false w
  Expects-stop outside tasks flag e = tt
  Expects-stop testing tasks flag e = tt
  Expects-stop parking tasks flag e = e
  Expects-stop asleep tasks flag e = tt
  Expects-stop woken tasks flag e = tt
  Expects-stop ready tasks flag e = ground arith
  Expects-stop taking tasks flag e = e
  Expects-stop (running task) tasks flag e = tt
  Expects-stop finished tasks flag e = refl

  pub Expects-roused :
      (w : Pc T) (tasks : List T) (flag : Bool)
      → Expects tasks flag w
      → Expects tasks flag (roused w)
  Expects-roused outside tasks flag e = tt
  Expects-roused testing tasks flag e = tt
  Expects-roused parking tasks flag e = e
  Expects-roused asleep tasks flag e = tt
  Expects-roused woken tasks flag e = tt
  Expects-roused ready tasks flag e = e
  Expects-roused taking tasks flag e = e
  Expects-roused (running task) tasks flag e = tt
  Expects-roused finished tasks flag e = e

  pub holds-roused : (w : Pc T) → holds (roused w) ≡ holds w
  holds-roused outside = refl
  holds-roused testing = refl
  holds-roused parking = refl
  holds-roused asleep = refl
  holds-roused woken = refl
  holds-roused ready = refl
  holds-roused taking = refl
  holds-roused (running task) = refl
  holds-roused finished = refl

  pub is_asleep-roused : (w : Pc T) → is_asleep (roused w) ≡ false
  is_asleep-roused outside = refl
  is_asleep-roused testing = refl
  is_asleep-roused parking = refl
  is_asleep-roused asleep = refl
  is_asleep-roused woken = refl
  is_asleep-roused ready = refl
  is_asleep-roused taking = refl
  is_asleep-roused (running task) = refl
  is_asleep-roused finished = refl

  pub asleep_free : (w : Pc T) → is_asleep w ≡ true → holds w ≡ false
  asleep_free asleep h = refl
  asleep_free outside h = cc
  asleep_free testing h = cc
  asleep_free parking h = cc
  asleep_free woken h = cc
  asleep_free ready h = cc
  asleep_free taking h = cc
  asleep_free (running task) h = cc
  asleep_free finished h = cc
