-- ===== src/HttpRouter/Guarded.antt =====
-- include/weblib/server/HttpBinder.hpp and server/HttpRouter.cpp: from the registration of a handler and of
-- a filter to the requests that they decide on.
mod Tests
use web_library.Base.{
  List, [], ◌∷◌, ◌++◌, Bool, true, false, Option, none, some, Bytes, any, bytes_eq, bytes_eq_refl,
  lookup, assign, Result, ok, throw, undefined, Exception, All, ◌>>=◌, ◌≡◌, refl, sym, ap, ◌∙◌,
  arith, if◌then◌else◌, inl, inr, Bool-cases,
}
use web_library.Json.{JsonLib}
use web_library.RequestType.{RequestType, type_eq}
use web_library.Utils.{process_url_str, extract_params}
use web_library.Socket
use web_library.Socket.{M, Socket, lift, try_catch}
use web_library.HttpRequest.{HttpRequest, new_request}
use web_library.HttpResponse.{respond}
use web_library.HttpHandle.{
  HttpHandle, Handler, Filter, add_filter, call, has_method, pass_all, pass_middlewares,
}
use web_library.HttpBinder.{
  HttpBinder, handle_for, register_handler, register_filter, find_handle, match_path,
}
use web_library.HttpBinder.Find.{Refuses, find_handle_hit}
use web_library.HttpBinder.Register.{registered, handle_for_lem, has_method-handle_for}
use web_library.HttpServer.Loop.{ok_injective}
use web_library.HttpRouter.{handle_request, forbidden, internal_error}
use web_library.HttpRouter.Branches.{reached}
use web_library.HttpRouter.Registered.{emplace_absent, find_handle-append}

lookup_last :
    (k : Bytes) (v : HttpHandle) (m : HttpBinder)
    → lookup k m ≡ none
    → lookup k (m ++ (k, v) ∷ []) ≡ some v
unfolding lookup
lookup_last k v [] h = rw (bytes_eq_refl k) refl
lookup_last k v ((j, w) ∷ m) h = elim (Bool-cases (bytes_eq j k)) [
  | inl e ↦ absurd (ground arith)
  | inr e ↦ rw e (lookup_last k v m (rw (e, lookup) at h))
]

assign_last :
    (k : Bytes) (v u : HttpHandle) (m : HttpBinder)
    → lookup k m ≡ none
    → assign k u (m ++ (k, v) ∷ []) ≡ m ++ (k, u) ∷ []
unfolding assign lookup
assign_last k v u [] h = rw (bytes_eq_refl k) refl
assign_last k v u ((j, w) ∷ m) h = elim (Bool-cases (bytes_eq j k)) [
  | inl e ↦ absurd (ground arith)
  | inr e ↦ rw (e, assign_last k v u m (rw (e, lookup) at h)) refl
]

-- A filter that is registered for the endpoint that was registered last.
guarded :
    (name route : Bytes) (handler : Handler) (filter : Filter) (types : List RequestType)
    (b : HttpBinder) {b1 b2 : HttpBinder} {key : Bytes}
    → register_handler name handler types b ≡ ok b1
    → process_url_str name ≡ ok key
    → lookup key b ≡ none
    → register_filter route filter b1 ≡ ok b2
    → process_url_str route ≡ ok key
    → b2 ≡ b ++ (key, add_filter filter (handle_for name handler types)) ∷ []
unfolding register_filter
guarded name route handler filter types b {b1} {b2} {key} h e free g e' =
    let handle = handle_for name handler types in
    let shape : b1 ≡ b ++ (key, handle) ∷ [] =
      (registered name handler types b h e).1 ∙ emplace_absent key handle b free in
    let found : lookup key b1 ≡ some handle =
      ap (λ t. lookup key t) shape ∙ lookup_last key handle b free in
    let added : register_filter route filter b1 ≡ ok (assign key (add_filter filter handle) b1) =
      ground (arith, e', found) in
    sym (ok_injective (sym added ∙ g))
    ∙ ap (λ t. assign key (add_filter filter handle) t) shape
    ∙ assign_last key handle (add_filter filter handle) b free

one_filter : (m : Result Bool) → (m >>= λ passed. (if passed then ok true else ok false)) ≡ m
one_filter (ok true) = refl
one_filter (ok false) = refl
one_filter (throw e) = refl
one_filter undefined = refl

-- An endpoint that is registered without an error, under a processed name that was free, and then a filter
-- without an error, for a route with the same processed name: each request with a method of the endpoint
-- and a path that matches this name, if every other entry refuses that path and the request can be
-- parsed, is decided on by the filter. Where it lets the request pass, the handler answers; where it does
-- not, the 403 page; and an exception of the filter or the handler is answered by the 500 page.
pub register_filter-handle_request :
    (json : JsonLib) (name route : Bytes) (handler : Handler) (filter : Filter)
    (types : List RequestType) (m_handles : HttpBinder) {m1 m2 : HttpBinder} {key : Bytes}
    (path raw_http : Bytes) (type : RequestType) (req : HttpRequest) (s : Socket)
    → register_handler name handler types m_handles ≡ ok m1
    → process_url_str name ≡ ok key
    → lookup key m_handles ≡ none
    → register_filter route filter m1 ≡ ok m2
    → process_url_str route ≡ ok key
    → any (λ t. type_eq t type) types ≡ true
    → match_path key path ≡ ok true
    → All (Refuses path type) m_handles
    → new_request raw_http name (extract_params name) ≡ ok req
    → handle_request json m2 path raw_http type s
      ≡ try_catch
          (Socket.◌>>=◌
            (lift (filter req))
            λ passed. if passed then handler req else respond (forbidden json))
          (λ ex. respond (internal_error json ex))
          s
unfolding pass_middlewares pass_all call add_filter has_method
register_filter-handle_request json name route handler filter types b {m1} {m2} {key} path raw type
      req s h e free g e' has fits others read =
    let known = handle_for_lem name handler types in
    let handle = add_filter filter (handle_for name handler types) in
    let known' : handle
        ≡ add_filter filter (record {
          methods = types;
          filters = [];
          parameters = extract_params name;
          path = name;
          handle = some handler;
        }) =
      ap (add_filter filter) known in
    let method : has_method type handle ≡ true =
      has_method-handle_for name handler types type ∙ has in
    let found : find_handle path type m2 ≡ ok (some handle) =
      ap (λ t. find_handle path type t) (guarded name route handler filter types b h e free g e')
      ∙ find_handle-append path type b ((key, handle) ∷ []) others
      ∙ find_handle_hit path type [] (key, handle) (method, fits) in
    let read' : new_request raw handle.path handle.parameters ≡ ok req = rw known read in
    let asked : pass_middlewares req handle ≡ filter req =
      ap (pass_middlewares req) known' ∙ one_filter (filter req) in
    let called : call handle req ≡ handler req = ap (λ t. call t req) known' in
    reached json m2 path raw type s handle req found read' ∙ rw (asked, called) refl
