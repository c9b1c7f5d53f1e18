-- ===== src/HttpHandle.antt =====
-- include/weblib/server/funcs.hpp, HttpHandle.hpp and server/HttpHandle.cpp: an endpoint. Its handler
-- and its filters are the application's functions.
use web_library.Base.{
  List, [], ◌∷◌, ◌++◌, Bool, true, false, Option, none, some, Bytes, any, if◌then◌else◌, Result, ok,
  throw, handle_not_set, ◌>>=◌,
}
use web_library.RequestType.{RequestType, type_eq}
use web_library.HttpRequest.{HttpRequest}
use web_library.Socket.{M, lift}

abbrev pub Handler : Type 0
Handler = HttpRequest → M (Unit {0})

abbrev pub Filter : Type 0
Filter = HttpRequest → Result Bool

pub record HttpHandle : Type 0 where
  pub methods : List RequestType
  pub filters : List Filter
  pub parameters : List Bytes
  pub path : Bytes
  pub handle : Option Handler

unfoldable pub new_handle : HttpHandle
new_handle = record { methods = []; filters = []; parameters = []; path = []; handle = none }

unfoldable pub add_filter : Filter → HttpHandle → HttpHandle
add_filter filter h = record h { filters = h.filters ++ filter ∷ [] }

unfoldable pub set_handle_method : Handler → HttpHandle → HttpHandle
set_handle_method handler h = record h { handle = some handler }

unfoldable pub add_http_method : RequestType → HttpHandle → HttpHandle
add_http_method method h = record h { methods = h.methods ++ method ∷ [] }

unfoldable pub set_parameters : List Bytes → HttpHandle → HttpHandle
set_parameters params h = record h { parameters = params }

unfoldable pub set_path : Bytes → HttpHandle → HttpHandle
set_path ep_name h = record h { path = ep_name }

unfoldable pub has_method : RequestType → HttpHandle → Bool
has_method type h = any (λ t. type_eq t type) h.methods

-- `operator()`; an empty std::function is `none`
unfoldable pub call : HttpHandle → Handler
call h req = elim h.handle [ none ↦ lift (throw handle_not_set) | some handler ↦ handler req ]

-- `any_of` stops at the first filter that refuses the request; a filter may throw.
unfoldable pub pass_all : List Filter → HttpRequest → Result Bool
pass_all [] request = ok true
pass_all (filter ∷ filters) request = filter request >>= λ passed.
    (let rest = pass_all filters request in if passed then rest else ok false)

unfoldable pub pass_middlewares : HttpRequest → HttpHandle → Result Bool
unfolding pass_all
pass_middlewares request h = pass_all h.filters request
