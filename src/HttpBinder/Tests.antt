-- ===== src/HttpBinder/Tests.antt =====
-- include/weblib/server/HttpBinder.hpp at small tables of endpoints.
use web_library.Base.{
  ℕ, [], ◌∷◌, ◌++◌, ◌≡◌, ◌≢◌, ◌↔◌, ◌⊎◌, inl, inr, refl, codes, true, false, some, none, ok, throw,
  undefined, Bytes, All, Result, bytes_eq, if◌then◌else◌, contains, lookup, find, emplace, ◌>>=◌,
  endpoint_already_set, filter_before_controller,
}
use web_library.RequestType.{get, post}
use web_library.Utils.{process_url_str}
use web_library.HttpHandle.{HttpHandle, Handler, Filter, has_method}
use web_library.Socket.{lift}
use web_library.HttpBinder.{
  HttpBinder, find_handle, match_path, split_path, parse_query, register_handler, handle_for,
}
use web_library.HttpBinder.Accepts.{Matches, match_path_iff}
use web_library.HttpBinder.Find.{here, there, Refuses, find_handle-none, find_handle_only}
use web_library.HttpBinder.Register.{register_handler-twice}

abbrev stub : Handler
stub req = lift (ok tt)

abbrev other_stub : Handler
other_stub req = lift (throw endpoint_already_set)

abbrev users : HttpHandle
users = handle_for (codes "/users/{id}") stub (get ∷ [])

abbrev items : HttpHandle
items = handle_for (codes "/items?page={page}") stub (get ∷ post ∷ [])

abbrev table : HttpBinder
table = (codes "/users/{}", users) ∷ (codes "/items?page={}", items) ∷ []

abbrev path : Bytes
path = codes "/items?page=2"

-- An empty pair in the query of a request is read past its end.
match_tests :
    (match_path (codes "/items?page={}") path ≡ ok true)
    × (match_path (codes "/items?page={}") (codes "/items") ≡ ok false)
    × (match_path (codes "/items") (codes "/items?page=2") ≡ ok true)
    × (match_path (codes "/items?page={}") (codes "/items?page=2&") ≡ undefined)
unfolding match_path split_path parse_query web_library.Base.split web_library.Base.find bytes_eq
    web_library.Base.emplace lookup
match_tests = (refl, refl, refl, refl)

match_path_iff_example :
    (match_path (codes "/items?page={}") path ≡ ok true) ↔ Matches (codes "/items?page={}") path
match_path_iff_example = match_path_iff (codes "/items?page={}") path

find_handle-none_example :
    (find_handle (codes "/nothing") get table ≡ ok none)
    ↔ All (Refuses (codes "/nothing") get) table
find_handle-none_example = find_handle-none (codes "/nothing") get table

find_handle_only_example : find_handle path get table ≡ ok (some items)
unfolding match_path has_method handle_for web_library.RequestType.type_eq split_path
    web_library.Base.split web_library.Base.find bytes_eq parse_query web_library.Base.emplace
    lookup
find_handle_only_example =
    find_handle_only path get table (codes "/items?page={}", items) (there here) (refl, refl)
      (inl (inr refl), (inr (refl, (refl, refl)), tt))

abbrev one_user : HttpBinder
one_user = (codes "/users/{}", users) ∷ []

register_handler-twice_example :
    register_handler (codes "/users/{id}") other_stub (post ∷ []) one_user ≡ (
      if bytes_eq (codes "/users/{}") (codes "/users/{id}")
      then throw endpoint_already_set
      else ok one_user)
unfolding register_handler process_url_str contains bytes_eq find emplace lookup
register_handler-twice_example =
    register_handler-twice (codes "/users/{id}") stub other_stub (get ∷ []) (post ∷ []) []
      {b' = one_user} {key = codes "/users/{}"} refl refl

abbrev pass : Filter
pass req = ok true
