-- ===== src/Base/Errors.antt =====
-- The outcome of code that may throw. `undefined` stands for a run whose behaviour the C++ standard
-- leaves undefined (a read past the end of a buffer, the front of an empty vector): no `catch`
-- sees it.
use mathlib.Core.Option.{Option, none, some}
use mathlib.Core.Bool.{Bool, true, false}
use mathlib.Core.Path.{◌≡◌, refl}
use Prim.Native.Nat.{ℕ}
use web_library.Base.Tests.{ltb, if◌then◌else◌}
use web_library.Base.Lists.{length, take, drop}
use web_library.Base.Text.{Bytes, codes}

-- include/weblib/exceptions.hpp, and the standard library's exceptions that the code meets.
pub data Exception : Type 0 where
  empty_cookie filter_before_controller endpoint_already_set handle_not_set : Exception
  header_parsing_error socket_creation_error socket_flags_error : Exception
  socket_bind_error writing_socket_error reading_socket_error : Exception
  query_parsing_error : Bytes → Exception
  runtime_error : Bytes → Exception
  invalid_argument : Bytes → Exception
  out_of_range : Bytes → Exception

pub data Result {ℓ} (A : Type ℓ) : Type ℓ where
  ok : A → Result A
  throw : Exception → Result A
  undefined : Result A

infixl 5 ◌>>=◌
abbrev pub ◌>>=◌ {ℓ κ} : {A : Type ℓ} {B : Type κ} → Result A → (A → Result B) → Result B
undefined >>= next = undefined
throw e >>= next = throw e
ok value >>= next = next value

pub >>=-eq-ok {ℓ κ} :
    {A : Type ℓ} {B : Type κ} (run : Result A) (next : A → Result B) {result : B}
    → (run >>= next) ≡ ok result
    → (value : A) × (run ≡ ok value) × (next value ≡ ok result)
>>=-eq-ok undefined next both = cc
>>=-eq-ok (throw e) next both = cc
>>=-eq-ok (ok value) next both = (value, refl, both)

-- `query_parsing_error{}` and its message.
abbrev pub query_error : Exception
query_error = query_parsing_error (codes "Query parsing error")

unfoldable pub what : Exception → Bytes
what empty_cookie = codes "Cookie is not properly set up (name || value is empty)"
what filter_before_controller = codes "Filter is set before a controller"
what endpoint_already_set = codes "Endpoint is already set"
what handle_not_set = codes "Handle is not set"
what header_parsing_error = codes "Header is ill-formed"
what socket_creation_error = codes "Socket creation failed"
what socket_bind_error = codes "Failed to bind socket"
what reading_socket_error = codes "Reading from socket failed"
what writing_socket_error = codes "Writing to socket failed"
what socket_flags_error = codes "Could not set flags for socket"
what (query_parsing_error s) = s
what (runtime_error s) = s
what (invalid_argument s) = s
what (out_of_range s) = s

abbrev pub or_throw {ℓ} : {A : Type ℓ} → Exception → Option A → Result A
or_throw e none = throw e
or_throw e (some a) = ok a

abbrev pub guard : Bool → Exception → Result (Unit {0})
guard true e = ok tt
guard false e = throw e

infixl 5 ◌>>◌
abbrev pub ◌>>◌ {ℓ} : {B : Type ℓ} → Result (Unit {0}) → Result B → Result B
m >> k = m >>= λ _. k

-- s.substr(pos, n). The exception's text names the function; libstdc++ adds the two numbers to it.
unfoldable pub substr : Bytes → ℕ → ℕ → Result Bytes
substr s pos n =
    if ltb (length s) pos
    then throw (out_of_range (codes "basic_string::substr"))
    else ok (take n (drop pos s))
