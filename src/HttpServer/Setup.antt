-- ===== src/HttpServer/Setup.antt =====
-- server/HttpServer.cpp: the listening socket, from server_setup to the event loop.
mod Tests
use web_library.Base.{
  ℕ, is_some, ◌-◌, ◌%◌, ◌/◌, ◌^◌, List, [], ◌∷◌, Bool, true, false, ◌&&◌, ◌||◌, Option, none, some,
  ℤ, pos, negsuc, if◌then◌else◌, Result, ok, throw, Exception, runtime_error, socket_creation_error,
  socket_flags_error, socket_bind_error, ◌>>=◌, ◌≡◌, refl, arith,
}
use web_library.HttpServer.{ClientMap, HttpServer, LoopEvent, event_loop}
use web_library.HttpServer.Loop.{Extends-refl}
use web_library.HttpServer.Accept.{Listens, event_loop-Listens}

-- What the calls of the operating system do: the descriptor that socket() gives, if it gives one, and
-- whether setsockopt(), bind() and listen() succeed.
pub record SocketCalls : Type 0 where
  pub socket : Option ℕ
  pub setsockopt : Bool
  pub bind : Bool
  pub listen : Bool

-- The members of the server that concern its own socket. No descriptor stands for -1; the port is as
-- it stands in memory, its high byte first.
pub record Listener : Type 0 where
  pub m_listen_socket : Option ℕ
  pub sin_port : List ℕ
  pub is_running : Bool

-- The conversion of an int to std::uint16_t.
abbrev pub to_uint16 : ℤ → ℕ
to_uint16 (pos n) = n % 2 ^ 16
to_uint16 (negsuc n) = 2 ^ 16 - 1 - n % 2 ^ 16

abbrev pub htons : ℤ → List ℕ
htons port = to_uint16 port / 256 ∷ to_uint16 port % 256 ∷ []

-- A call that fails ends server_setup with an exception.
abbrev pub check :
    {A : Type 0}
    → Bool
    → Exception
    → Listener
    → (Listener → Result A × Listener)
    → Result A × Listener
check true e l go_on = go_on l
check false e l go_on = (throw e, l)

abbrev pub bind_socket : SocketCalls → ℤ → ℕ → Listener → Result ℕ × Listener
bind_socket calls port fd l = check calls.setsockopt socket_flags_error l (λ l.
    check calls.bind socket_bind_error (record l { sin_port = htons port })
      (λ l. (ok fd, record l { is_running = true })))

-- The result is the descriptor that it leaves in m_listen_socket.
unfoldable pub server_setup : SocketCalls → ℤ → Listener → Result ℕ × Listener
server_setup calls port l = elim calls.socket [
  | none ↦ (throw socket_creation_error, record l { m_listen_socket = none })
  | some fd ↦ bind_socket calls port fd (record l { m_listen_socket = some fd })
]

-- event_loop() begins with the listening socket alone in poll_fds.
unfoldable pub listen_start :
    SocketCalls → ℤ → List LoopEvent → ClientMap → List ℕ → Listener → Result HttpServer
unfolding server_setup
listen_start calls port events clients tasks l = (server_setup calls port l).0 >>= λ fd.
    (if calls.listen
      then event_loop events (record {
        m_listen_socket = fd;
        is_running = (server_setup calls port l).1.is_running;
        poll_fds = fd ∷ [];
        m_active_clients = clients;
        tasks = tasks;
      })
      else throw (runtime_error []))

-- The calls in the order in which they are made, each with the exception for its failure.
abbrev pub calls_made : SocketCalls → List (Bool × Exception)
calls_made calls =
    (is_some calls.socket, socket_creation_error)
    ∷ (calls.setsockopt, socket_flags_error)
    ∷ (calls.bind, socket_bind_error)
    ∷ (calls.listen, runtime_error [])
    ∷ []

abbrev pub first_failure : List (Bool × Exception) → Option Exception
first_failure [] = none
first_failure ((true, e) ∷ calls) = first_failure calls
first_failure ((false, e) ∷ calls) = some e

abbrev calls_of : Option ℕ → Bool → Bool → Bool → SocketCalls
calls_of a b c d = record { socket = a; setsockopt = b; bind = c; listen = d }

setup_cases :
    (a : Option ℕ) (b c d : Bool) (port : ℤ) (l : Listener)
    → ((server_setup (calls_of a b c d) port l).1.m_listen_socket ≡ a)
      × ((server_setup (calls_of a b c d) port l).1.is_running
          ≡ (l.is_running || (is_some a && (b && c))))
unfolding server_setup
setup_cases none b c d port l = (refl, ground arith)
setup_cases (some fd) false c d port l = (refl, ground arith)
setup_cases (some fd) true false d port l = (refl, ground arith)
setup_cases (some fd) true true d port l = (refl, ground arith)

-- server_setup leaves what socket() gave in m_listen_socket, also where it throws, and the server runs
-- behind it exactly if it ran before or socket(), setsockopt() and bind() all succeed.
pub server_setup_lem :
    (calls : SocketCalls) (port : ℤ) (l : Listener)
    → ((server_setup calls port l).1.m_listen_socket ≡ calls.socket)
      × ((server_setup calls port l).1.is_running
          ≡ (l.is_running || (is_some calls.socket && (calls.setsockopt && calls.bind))))
server_setup_lem calls port l =
    setup_cases calls.socket calls.setsockopt calls.bind calls.listen port l

failed_cases :
    (a : Option ℕ) (b c d : Bool) (port : ℤ) (events : List LoopEvent) (clients : ClientMap)
    (tasks : List ℕ) (l : Listener) (e : Exception)
    → first_failure (calls_made (calls_of a b c d)) ≡ some e
    → listen_start (calls_of a b c d) port events clients tasks l ≡ throw e
unfolding listen_start server_setup
failed_cases none b c d port events clients tasks l e h = cc
failed_cases (some fd) false c d port events clients tasks l e h = cc
failed_cases (some fd) true false d port events clients tasks l e h = cc
failed_cases (some fd) true true false port events clients tasks l e h = cc
failed_cases (some fd) true true true port events clients tasks l e h = cc

-- If one of the four calls fails, listen_start throws the exception of the first one that does, and the
-- event loop is not entered.
pub listen_start-failed :
    (calls : SocketCalls) (port : ℤ) (events : List LoopEvent) (clients : ClientMap)
    (tasks : List ℕ) (l : Listener) (e : Exception)
    → first_failure (calls_made calls) ≡ some e
    → listen_start calls port events clients tasks l ≡ throw e
listen_start-failed calls = failed_cases calls.socket calls.setsockopt calls.bind calls.listen

Listens-cases :
    (a : Option ℕ) (b c d : Bool) (port : ℤ) (events : List LoopEvent) (clients : ClientMap)
    (tasks : List ℕ) (l : Listener) {s : HttpServer}
    → listen_start (calls_of a b c d) port events clients tasks l ≡ ok s
    → (first_failure (calls_made (calls_of a b c d)) ≡ none) × Listens tasks s
unfolding listen_start server_setup
Listens-cases none b c d port events clients tasks l h = cc
Listens-cases (some fd) false c d port events clients tasks l h = cc
Listens-cases (some fd) true false d port events clients tasks l h = cc
Listens-cases (some fd) true true false port events clients tasks l h = cc
Listens-cases (some fd) true true true port events clients tasks l h =
    (refl, event_loop-Listens events _ tasks h (Extends-refl (fd ∷ []), Extends-refl tasks))

-- If listen_start returns, all four calls have succeeded, the listening socket is the first that the
-- server polls, and the tasks that were handed over before are handed over still, in order.
pub listen_start-Listens :
    (calls : SocketCalls) (port : ℤ) (events : List LoopEvent) (clients : ClientMap)
    (tasks : List ℕ) (l : Listener) {s : HttpServer}
    → listen_start calls port events clients tasks l ≡ ok s
    → (first_failure (calls_made calls) ≡ none) × Listens tasks s
listen_start-Listens calls = Listens-cases calls.socket calls.setsockopt calls.bind calls.listen
