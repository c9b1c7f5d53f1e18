-- ===== src/HttpRouter/Branches.antt =====
-- server/HttpRouter.cpp: what a request is answered with, on each branch.
use web_library.Base.{
  List, [], ◌∷◌, ◌++◌, true, false, some, Bytes, length, ◌≤◌, ◌⊎◌, inl, inr, Result, ok, throw,
  Exception, All, ◌≡◌, ◌≢◌, refl, sym, subst, if◌then◌else◌,
}
use web_library.Base.{undefined, runtime_error, codes}
use web_library.Json.{JsonLib}
use web_library.RequestType.{RequestType, req_type_from_str}
use web_library.Utils.{parse_request_line, ill_formed}
use web_library.Utils.RequestLine.{IsRequestLine, parse_request_line_iff, parse_request_line_total}
use web_library.Socket.{M, Socket, Outcome, returned, thrown, try_catch, lift, handle_error, ◌>>=◌}
use web_library.HttpRequest.{HttpRequest, new_request}
use web_library.HttpResponse.{HttpResponse, to_string, respond}
use web_library.HttpResponse.Respond.{IsAlive, accepted, respond-whole}
use web_library.HttpHandle.{HttpHandle, Filter, pass_all, pass_middlewares, call}
use web_library.HttpBinder.{HttpBinder, find_handle}
use web_library.HttpBinder.Find.{Refuses, find_handle-none}
use web_library.HttpRouter.{
  forbidden, not_found, internal_error, run_handle, dispatch, handle_request, process_request,
}

-- The filter lets the request pass.
abbrev pub Passes : HttpRequest → Filter → Type 0
Passes req filter = filter req ≡ ok true

-- The outcome of a run that answers with `resp`, on a socket that accepts all of it.
abbrev pub Answered : HttpResponse → Socket → Outcome (Unit {0}) × Socket → Type 0
Answered resp s r = (r.0 ≡ returned tt) × (r.1.wire ≡ s.wire ++ to_string resp)

-- The connection lasts and accepts as many bytes as the response has.
abbrev pub CanTake : HttpResponse → Socket → Type 0
CanTake resp s = All IsAlive s.events × (length (to_string resp) ≤ accepted s.events)

pass_all-Passes :
    (req : HttpRequest) (fs : List Filter) → All (Passes req) fs → pass_all fs req ≡ ok true
unfolding pass_all
pass_all-Passes req [] h = refl
pass_all-Passes req (f ∷ fs) (p, h) = rw (p, pass_all-Passes req fs h, pass_all) refl

-- The filters behind the first that does not pass are not asked.
pub pass_all-stop :
    (req : HttpRequest) (fs : List Filter) (f : Filter) (rest : List Filter)
    → All (Passes req) fs
    → pass_all (fs ++ f ∷ rest) req ≡ pass_all (f ∷ rest) req
unfolding pass_all
pass_all-stop req [] f rest h = refl
pass_all-stop req (g ∷ fs) f rest (p, h) = rw (p, pass_all) (pass_all-stop req fs f rest h)

pub answered :
    (resp : HttpResponse) (s : Socket) → CanTake resp s → Answered resp s (respond resp s)
answered resp s (alive, enough) = respond-whole resp s alive enough

-- An answer that is written whole is not followed by an error page.
pub kept :
    (resp : HttpResponse) (h : Exception → M (Unit {0})) (s : Socket)
    (r : Outcome (Unit {0}) × Socket)
    → Answered resp s r
    → Answered resp s (handle_error h r.0 r.1)
kept resp h s (o, s') (e, w) =
    subst (λ o'. Answered resp s (handle_error h o' s')) (sym e) (refl, w)

Result-cases : {A : Type 0} (m : Result A) → ((a : A) × (m ≡ ok a)) ⊎ ((a : A) → m ≢ ok a)
Result-cases (ok a) = inl (a, refl)
Result-cases (throw e) = inr (λ a. cc)
Result-cases undefined = inr (λ a. cc)

module _ (json : JsonLib) where
  -- If every endpoint lacks the method or does not match the path, then the request is answered with the
  -- 404 page, on a connection that lasts and accepts as many bytes as the page has.
  pub handle_request-unknown :
      (m_handles : HttpBinder) (path raw_http : Bytes) (type : RequestType) (s : Socket)
      → All (Refuses path type) m_handles
      → CanTake (not_found json) s
      → Answered (not_found json) s (handle_request json m_handles path raw_http type s)
  unfolding handle_request
  handle_request-unknown m path raw type s refused room =
      let none_found = (find_handle-none path type m).1 refused in
      rw (none_found, handle_request, dispatch)
        (kept (not_found json) _ s (respond (not_found json) s) (answered (not_found json) s room))

  -- An endpoint was found, the request could be read, and its handler is run if `passed`.
  pub reached :
      (m : HttpBinder) (path raw : Bytes) (type : RequestType) (s : Socket) (handle : HttpHandle)
      (req : HttpRequest)
      → find_handle path type m ≡ ok (some handle)
      → new_request raw handle.path handle.parameters ≡ ok req
      → handle_request json m path raw type s
        ≡ try_catch
            (lift (pass_middlewares req handle) >>= λ passed.
              if passed then call handle req else respond (forbidden json))
            (λ ex. respond (internal_error json ex))
            s
  unfolding handle_request dispatch run_handle
  reached m path raw type s handle req found read =
      rw (found, handle_request, dispatch, run_handle, read) refl

  -- Where an endpoint is found, the request is well formed for it and all its filters let it pass, the
  -- outcome is that of the endpoint's handler; an exception of the handler is answered by the 500 page
  -- with the exception's text, behind what the handler has written.
  pub handle_request-served :
      (m_handles : HttpBinder) (path raw_http : Bytes) (type : RequestType) (s : Socket)
      (handle : HttpHandle) (req : HttpRequest)
      → find_handle path type m_handles ≡ ok (some handle)
      → new_request raw_http handle.path handle.parameters ≡ ok req
      → All (Passes req) handle.filters
      → handle_request json m_handles path raw_http type s
        ≡ try_catch (call handle req) (λ ex. respond (internal_error json ex)) s
  unfolding pass_middlewares
  handle_request-served m path raw type s handle req found read pass =
      let e = reached m path raw type s handle req found read in
      let p = pass_all-Passes req handle.filters pass in rw (e, pass_middlewares, p) refl

  -- Where a filter refuses the request and those in front of it let it pass, the answer is the 403 page,
  -- on a connection that takes it: neither the handler nor a filter behind this one has a say.
  pub handle_request-refused :
      (m_handles : HttpBinder) (path raw_http : Bytes) (type : RequestType) (s : Socket)
      (handle : HttpHandle) (req : HttpRequest) (before : List Filter) (filter : Filter)
      (after : List Filter)
      → find_handle path type m_handles ≡ ok (some handle)
      → new_request raw_http handle.path handle.parameters ≡ ok req
      → handle.filters ≡ before ++ filter ∷ after
      → All (Passes req) before
      → filter req ≡ ok false
      → CanTake (forbidden json) s
      → Answered (forbidden json) s (handle_request json m_handles path raw_http type s)
  unfolding pass_middlewares pass_all
  handle_request-refused m path raw type s handle req before f after found read all_f pass refused
        room =
      let e = reached m path raw type s handle req found read in
      let p = pass_all-stop req before f after pass in
      rw (e, pass_middlewares, all_f, p, pass_all, refused)
        (kept (forbidden json) _ s (respond (forbidden json) s) (answered (forbidden json) s room))

  parse_cases :
      (raw : Bytes)
      → ((method : Bytes) × (path : Bytes) × IsRequestLine raw method path
          × (parse_request_line raw ≡ ok (method, path)))
        ⊎ (((m p : Bytes) → ¬ IsRequestLine raw m p) × (parse_request_line raw ≡ ill_formed))
  parse_cases raw = elim (Result-cases (parse_request_line raw)) [
    | inl (r, e) ↦ inl (r.0, r.1, (parse_request_line_iff raw r.0 r.1).0.0 e, e)
    | inr none_ok ↦
        let bad = parse_request_line_total raw (λ m p e. none_ok (m, p) e) in
        inr ((parse_request_line_iff raw [] []).1.0 bad, bad)
  ]

  -- A text that begins with a method and a path, neither with a space in it and each followed by one,
  -- is handed on with this method and this path. Any other text is not answered: the exception leaves
  -- `process_request` with the socket as it was.
  pub process_request_total :
      (m_handles : HttpBinder) (raw_http : Bytes) (s : Socket)
      → ((method : Bytes) × (path : Bytes) × IsRequestLine raw_http method path
          × (process_request json m_handles raw_http s
              ≡ handle_request json m_handles path raw_http (req_type_from_str method) s))
        ⊎ (((method path : Bytes) → ¬ IsRequestLine raw_http method path)
            × (process_request json m_handles raw_http s
                ≡ (thrown (runtime_error (codes "HTTP request is ill-formed")), s)))
  unfolding process_request
  process_request_total m raw s = elim (parse_cases raw) [
    | inl (method, path, line, e) ↦ inl (method, path, line, rw (e, process_request) refl)
    | inr (bad, e) ↦ inr (bad, rw (e, process_request) refl)
  ]
