-- ===== src/HttpRouter/Failed.antt =====
-- server/HttpRouter.cpp: what a request is answered with that goes wrong before its handler has a turn.
use web_library.Base.{
  print_int, contains, lookup, bytes_eq, assign, List, [], ◌∷◌, ◌++◌, some, Bytes, codes, length,
  ◌≤◌, ◌⊎◌, inl, inr, ok, throw, Exception, All, ◌≡◌, refl, sym, ap, subst, ◌∙◌, empty_cookie,
  filter_before_controller, endpoint_already_set, handle_not_set, header_parsing_error,
  socket_creation_error, socket_flags_error, socket_bind_error, writing_socket_error,
  reading_socket_error, query_parsing_error, runtime_error, invalid_argument, out_of_range, what,
  print_nat, append_assoc,
}
use web_library.Json.{error_response, JsonLib}
use web_library.RequestType.{RequestType}
use web_library.Socket.{Socket, returned}
use web_library.HttpRequest.{HttpRequest, new_request}
use web_library.HttpResponse.{set_status, set_body_json, set_content_type, new_response, to_string}
use web_library.HttpResponse.Respond.{IsAlive, accepted}
use web_library.HttpHandle.{HttpHandle, Filter, pass_all, pass_middlewares}
use web_library.HttpBinder.{HttpBinder, find_handle}
use web_library.HttpRouter.{error_page, internal_error, run_handle, dispatch, handle_request}
use web_library.HttpRouter.Branches.{Passes, Answered, CanTake, answered, pass_all-stop, reached}

-- The text that an exception tells of itself.
pub data Says : Exception → Bytes → Type 0 where
  says_cookie : Says empty_cookie (codes "Cookie is not properly set up (name || value is empty)")
  says_filter : Says filter_before_controller (codes "Filter is set before a controller")
  says_endpoint : Says endpoint_already_set (codes "Endpoint is already set")
  says_handle : Says handle_not_set (codes "Handle is not set")
  says_header : Says header_parsing_error (codes "Header is ill-formed")
  says_socket : Says socket_creation_error (codes "Socket creation failed")
  says_flags : Says socket_flags_error (codes "Could not set flags for socket")
  says_bind : Says socket_bind_error (codes "Failed to bind socket")
  says_writing : Says writing_socket_error (codes "Writing to socket failed")
  says_reading : Says reading_socket_error (codes "Reading from socket failed")
  says_query : (text : Bytes) → Says (query_parsing_error text) text
  says_runtime : (text : Bytes) → Says (runtime_error text) text
  says_argument : (text : Bytes) → Says (invalid_argument text) text
  says_range : (text : Bytes) → Says (out_of_range text) text

Says-what : {ex : Exception} {text : Bytes} → Says ex text → what ex ≡ text
unfolding what
Says-what says_cookie = refl
Says-what says_filter = refl
Says-what says_endpoint = refl
Says-what says_handle = refl
Says-what says_header = refl
Says-what says_socket = refl
Says-what says_flags = refl
Says-what says_bind = refl
Says-what says_writing = refl
Says-what says_reading = refl
Says-what (says_query text) = refl
Says-what (says_runtime text) = refl
Says-what (says_argument text) = refl
Says-what (says_range text) = refl

module _ (json : JsonLib) where
  -- The bytes of a 500 response, whose body is an error in JSON with this text.
  abbrev pub error_bytes : Bytes → Bytes
  error_bytes text =
      let body = json.write_string (
        json.object (
          (codes "type", codes "Internal error")
          ∷ (codes "message", codes "Server internal error: " ++ text)
          ∷ [])) in
      codes "HTTP/1.1 500 Internal Server Error\r\nContent-Type: text/plain\r\nContent-Length: "
      ++ (print_nat (length body) ++ (codes "\r\n\r\n" ++ body))

  internal_error-error_bytes :
      (ex : Exception) → to_string (internal_error json ex) ≡ error_bytes (what ex)
  unfolding internal_error error_page error_response to_string print_int print_nat contains lookup
      bytes_eq assign set_status set_body_json set_content_type new_response
  internal_error-error_bytes ex =
      let body = (internal_error json ex).body in
      let front =
        codes
          "HTTP/1.1 500 Internal Server Error\r\nContent-Type: text/plain\r\nContent-Length: " in
      ap (λ t. front ++ t)
        (append_assoc (print_nat (length body)) (codes "\r\n") (codes "\r\n" ++ body))

  -- What goes wrong before the handler of an endpoint that was found has its turn, with `ex`: the parse of
  -- the request, or the first filter that does not let it pass.
  abbrev pub Fails : HttpHandle → Bytes → Exception → Type 0
  Fails handle raw ex =
      (new_request raw handle.path handle.parameters ≡ throw ex)
      ⊎ ((req : HttpRequest) × (before : List Filter) × (f : Filter) × (after : List Filter)
          × (new_request raw handle.path handle.parameters ≡ ok req)
          × (handle.filters ≡ before ++ f ∷ after)
          × All (Passes req) before
          × (f req ≡ throw ex))

  failed-Answered :
      (m_handles : HttpBinder) (path raw_http : Bytes) (type : RequestType) (s : Socket)
      (handle : HttpHandle) (ex : Exception)
      → find_handle path type m_handles ≡ ok (some handle)
      → Fails handle raw_http ex
      → CanTake (internal_error json ex) s
      → Answered (internal_error json ex) s (handle_request json m_handles path raw_http type s)
  unfolding handle_request dispatch run_handle pass_middlewares pass_all
  failed-Answered m path raw type s handle ex found why room =
      let page = answered (internal_error json ex) s room in
      elim why [
        | inl unread ↦ rw (found, handle_request, dispatch, run_handle, unread) page
        | inr (req, before, f, after, read, all_f, pass, bad) ↦
            let e = reached json m path raw type s handle req found read in
            let p = pass_all-stop req before f after pass in
            rw (e, pass_middlewares, all_f, p, pass_all, bad) page
      ]

  -- Where an endpoint is found, an exception of the parse of the request, or of the first of its filters
  -- that does not let the request pass, is answered with a 500 response, on a connection that lasts and
  -- takes all of it: the bytes are these of an error in JSON, of the type "Internal error", whose message
  -- ends in the text that the exception tells of itself. No handler has written anything.
  pub handle_request-failed :
      (m_handles : HttpBinder) (path raw_http : Bytes) (type : RequestType) (s : Socket)
      (handle : HttpHandle) (ex : Exception) (text : Bytes)
      → find_handle path type m_handles ≡ ok (some handle)
      → Fails handle raw_http ex
      → Says ex text
      → All IsAlive s.events
      → length (error_bytes text) ≤ accepted s.events
      → let r = handle_request json m_handles path raw_http type s in
        (r.0 ≡ returned tt) × (r.1.wire ≡ s.wire ++ error_bytes text)
  handle_request-failed m path raw type s handle ex text found why says alive enough =
      let bytes : to_string (internal_error json ex) ≡ error_bytes text =
        internal_error-error_bytes ex ∙ ap error_bytes (Says-what says) in
      let fits = subst (λ t. length t ≤ accepted s.events) (sym bytes) enough in
      let (done, written) = failed-Answered m path raw type s handle ex found why (alive, fits) in
      (done, written ∙ ap (λ t. s.wire ++ t) bytes)
