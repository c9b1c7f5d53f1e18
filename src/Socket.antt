-- ===== src/Socket.antt =====
-- The connection that a response is written to, and code that writes to it: a state monad with the
-- outcomes of Base.Errors and one more, a thread that still waits for the socket.
use web_library.Base.{ℕ, List, Bool, Bytes, Exception, Result, ok, throw, undefined}

-- What the next call of send() does: it accepts some bytes, it would block and the poll() that follows
-- then reports the socket ready (`true`) or not, or it fails.
pub data SendEvent : Type 0 where
  sent : ℕ → SendEvent
  would_block : Bool → SendEvent
  send_failed : SendEvent

-- `wire` is what the peer was sent so far, `events` what the calls to come will do.
pub record Socket : Type 0 where
  pub wire : Bytes
  pub events : List SendEvent

pub data Outcome (A : Type 0) : Type 0 where
  returned : A → Outcome A
  thrown : Exception → Outcome A
  faulted : Outcome A
  waiting : Outcome A

abbrev pub M : Type 0 → Type 0
M A = Socket → Outcome A × Socket

abbrev pub continue_with : {A B : Type 0} → (A → M B) → Outcome A → M B
continue_with f (returned a) s = f a s
continue_with f (thrown e) s = (thrown e, s)
continue_with f faulted s = (faulted, s)
continue_with f waiting s = (waiting, s)

infixl 5 ◌>>=◌
abbrev pub ◌>>=◌ : {A B : Type 0} → M A → (A → M B) → M B
◌>>=◌ m f s = let r = m s in continue_with f r.0 r.1

abbrev pub outcome : {A : Type 0} → Result A → Outcome A
outcome (ok a) = returned a
outcome (throw e) = thrown e
outcome undefined = faulted

-- A computation that does not touch the socket.
abbrev pub lift : {A : Type 0} → Result A → M A
lift m s = (outcome m, s)

abbrev pub handle_error : {A : Type 0} → (Exception → M A) → Outcome A → M A
handle_error h (returned a) s = (returned a, s)
handle_error h (thrown e) s = h e s
handle_error h faulted s = (faulted, s)
handle_error h waiting s = (waiting, s)

-- try { m } catch (const std::exception &ex) { h(ex) }
abbrev pub try_catch : {A : Type 0} → M A → (Exception → M A) → M A
try_catch m h s = let r = m s in handle_error h r.0 r.1
