-- ===== src/HttpRouter/Registered.antt =====
-- include/weblib/server/HttpBinder.hpp and server/HttpRouter.cpp: from a registration to the requests
-- that its handler answers.
mod Tests
use web_library.Base.{
  List, [], ◌∷◌, ◌++◌, append_assoc, Bool, true, false, Option, none, some, Bytes, any, bytes_eq,
  lookup, emplace, Result, ok, throw, All, ◌≡◌, refl, sym, ap, ◌∙◌, arith, if◌then◌else◌, ◌⊎◌, inl,
  inr, Bool-cases,
}
use web_library.Json.{JsonLib}
use web_library.RequestType.{RequestType, type_eq}
use web_library.Utils.{process_url_str, extract_params}
use web_library.Socket.{M, Socket, try_catch}
use web_library.HttpRequest.{HttpRequest, new_request}
use web_library.HttpResponse.{respond}
use web_library.HttpHandle.{HttpHandle, Handler, call, has_method, add_http_method}
use web_library.HttpBinder.{HttpBinder, handle_for, register_handler, find_handle, match_path}
use web_library.HttpBinder.Find.{Serves, Refuses, Entry, find_handle_skip, find_handle_hit}
use web_library.HttpBinder.Register.{registered, handle_for_lem, has_method-handle_for}
use web_library.HttpRouter.{handle_request, internal_error}
use web_library.HttpRouter.Branches.{Passes, handle_request-served}

pub emplace_absent :
    (k : Bytes) (v : HttpHandle) (m : HttpBinder)
    → lookup k m ≡ none
    → emplace k v m ≡ m ++ (k, v) ∷ []
unfolding lookup emplace
emplace_absent k v [] h = refl
emplace_absent k v ((j, u) ∷ m) h = elim (Bool-cases (bytes_eq j k)) [
  | inl e ↦ ground arith
  | inr e ↦ let rest = emplace_absent k v m (rw (e, lookup) at h) in ground arith
]

pub find_handle-append :
    (path : Bytes) (type : RequestType) (m rest : HttpBinder)
    → All (Refuses path type) m
    → find_handle path type (m ++ rest) ≡ find_handle path type rest
find_handle-append path type [] rest h = refl
find_handle-append path type (entry ∷ m) rest (refused, h) =
    find_handle_skip path type (m ++ rest) entry refused ∙ find_handle-append path type m rest h

-- An endpoint that is registered without an error, under a processed name that was free, is found for a
-- path that matches this name and a method it was registered for, if every other entry refuses the path.
pub register_handler-find_handle :
    (name : Bytes) (handler : Handler) (types : List RequestType) (m_handles : HttpBinder)
    {m_handles' : HttpBinder} {key : Bytes} (path : Bytes) (type : RequestType)
    → register_handler name handler types m_handles ≡ ok m_handles'
    → process_url_str name ≡ ok key
    → lookup key m_handles ≡ none
    → any (λ t. type_eq t type) types ≡ true
    → match_path key path ≡ ok true
    → All (Refuses path type) m_handles
    → find_handle path type m_handles' ≡ ok (some (handle_for name handler types))
register_handler-find_handle name handler types b {m_handles' = b'} {key} path type h e free has
      fits others =
    let handle = handle_for name handler types in
    let shape = (registered name handler types b h e).1 ∙ emplace_absent key handle b free in
    let method : has_method type handle ≡ true =
      has_method-handle_for name handler types type ∙ has in
    ap (λ t. find_handle path type t) shape
    ∙ find_handle-append path type b ((key, handle) ∷ []) others
    ∙ find_handle_hit path type [] (key, handle) (method, fits)

-- An endpoint that is registered without an error, under a processed name that was free, answers each
-- request with a method it was registered for and a path that matches this name, if every other entry
-- refuses that path: where the request can be parsed, with the holes of the name as its parameters, it
-- goes to the handler that was registered, and an exception of the handler is answered by the 500 page.
pub register_handler-handle_request :
    (json : JsonLib) (name : Bytes) (handler : Handler) (types : List RequestType)
    (m_handles : HttpBinder) {m_handles' : HttpBinder} {key : Bytes} (path raw_http : Bytes)
    (type : RequestType) (req : HttpRequest) (s : Socket)
    → register_handler name handler types m_handles ≡ ok m_handles'
    → process_url_str name ≡ ok key
    → lookup key m_handles ≡ none
    → any (λ t. type_eq t type) types ≡ true
    → match_path key path ≡ ok true
    → All (Refuses path type) m_handles
    → new_request raw_http name (extract_params name) ≡ ok req
    → handle_request json m_handles' path raw_http type s
      ≡ try_catch (handler req) (λ ex. respond (internal_error json ex)) s
unfolding call
register_handler-handle_request json name handler types b {m_handles' = b'} {key} path raw type req
      s h e free has fits others read =
    let handle = handle_for name handler types in
    let found =
      register_handler-find_handle name handler types b path type h e free has fits others in
    let known = handle_for_lem name handler types in
    let read' : new_request raw handle.path handle.parameters ≡ ok req = rw known read in
    let no_filters : All (Passes req) handle.filters = rw known tt in
    let called : call handle req ≡ handler req = ap (λ t. call t req) known in
    handle_request-served json b' path raw type s handle req found read' no_filters
    ∙ ap (λ t. try_catch t (λ ex. respond (internal_error json ex)) s) called
