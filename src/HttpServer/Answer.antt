-- ===== src/HttpServer/Answer.antt =====
-- From a registration and the bytes of a connection (server/HttpServer.cpp) to the bytes of the answer.
use web_library.Base.{
  ℕ, ◌^◌, ◌<◌, List, [], ◌∷◌, ◌++◌, true, false, Bytes, any, lookup, length, ◌==◌, ℤ, ok, none,
  some, All, Lacks, Exception, ◌≡◌, sym, ap, subst, ◌∙◌,
}
use web_library.Json.{JsonLib}
use web_library.Socket.{M, Socket, lift, try_catch}
use web_library.RequestType.{RequestType, type_eq, req_type_from_str}
use web_library.Utils.{process_url_str, extract_params}
use web_library.HttpHeaders.Parse.{Header}
use web_library.HttpRequest.{HttpRequest, new_request}
use web_library.HttpRequest.Lines.{IsLine}
use web_library.HttpRequest.Cuts.{start_line}
use web_library.HttpRequest.Message.{message, IsMessageHeader}
use web_library.HttpResponse.{HttpResponse, respond}
use web_library.HttpHandle.{Handler}
use web_library.HttpBinder.{HttpBinder, register_handler, match_path}
use web_library.HttpBinder.Find.{Refuses}
use web_library.HttpRouter.{handle_request, internal_error}
use web_library.HttpRouter.Branches.{Answered, CanTake, kept, answered}
use web_library.HttpRouter.Registered.{register_handler-handle_request}
use web_library.HttpServer.{
  Client, ClientMap, client_at, lookup_fd, received, is_zero, handle_incoming_request, AcceptEvent,
  ready, HttpServer, run_round,
}
use web_library.HttpServer.Read.{length_of}
use web_library.HttpServer.Serve.{idles, run_round-served, task-message}

-- A response that is written whole under two handlers of exceptions.
answered_under :
    (resp : HttpResponse) (m : M (Unit {0})) (inner outer : Exception → M (Unit {0})) (s : Socket)
    → m s ≡ try_catch (respond resp) inner s
    → CanTake resp s
    → Answered resp s (try_catch m outer s)
answered_under resp m inner outer s e room =
    let written = kept resp inner s (respond resp s) (answered resp s room) in
    kept resp outer s (m s) (subst (Answered resp s) (sym e) written)

-- A task whose client holds a request to an endpoint that was registered.
pub task-Answered :
    (json : JsonLib) (name : Bytes) (handler : Handler) (types : List RequestType)
    (m_handles : HttpBinder) {m_handles' : HttpBinder} {key : Bytes} (clients : ClientMap) (fd : ℕ)
    (method target version : Bytes) (x : Header) (hs : List Header) (body : Bytes)
    (req : HttpRequest) (resp : HttpResponse) (sock : Socket)
    → register_handler name handler types m_handles ≡ ok m_handles'
    → process_url_str name ≡ ok key
    → lookup key m_handles ≡ none
    → any (λ t. type_eq t (req_type_from_str method)) types ≡ true
    → match_path key target ≡ ok true
    → All (Refuses target (req_type_from_str method)) m_handles
    → (client_at fd clients).raw_http ≡ message (start_line method target version) (x ∷ hs) body
    → Lacks 32 method
    → Lacks 32 target
    → new_request
        (message (start_line method target version) (x ∷ hs) body)
        name
        (extract_params name)
      ≡ ok req
    → handler req ≡ respond resp
    → CanTake resp sock
    → Answered resp sock ((handle_incoming_request json m_handles' clients fd).1 sock)
task-Answered json name handler types m {m_handles' = m'} clients fd method target version x hs body
      req resp sock registered processed free has fits others held hm ht read says room =
    let raw = message (start_line method target version) (x ∷ hs) body in
    let type = req_type_from_str method in
    let page : Exception → M (Unit {0}) = λ ex. respond (internal_error json ex) in
    let task = task-message json m' clients fd method target version x hs body held hm ht in
    let routed : handle_request json m' target raw type sock ≡ try_catch (respond resp) page sock =
      register_handler-handle_request json name handler types m target raw type req sock registered
        processed free has fits others read
      ∙ ap (λ t. try_catch t page sock) says in
    let written =
      answered_under resp (handle_request json m' target raw type) page (λ ex. lift (ok tt)) sock
        routed room in
    subst (Answered resp sock) (sym (ap (λ t. t sock) task)) written

-- An endpoint that was registered without an error, under a processed name that was free, is asked for by
-- one connection: a read completes a request with headers and a Content-Length of zero or none, its
-- method is one of the endpoint's, its target matches the processed name, every other endpoint refuses
-- it, and it can be parsed with the parameters of the name. If the handler answers this request with
-- `resp`, then the round hands the descriptor to the pool behind the other tasks, and the task writes
-- exactly the printed `resp` to a socket that lasts and accepts that many bytes.
pub run_round-Answered :
    (json : JsonLib) (name : Bytes) (handler : Handler) (types : List RequestType)
    (m_handles : HttpBinder) {m_handles' : HttpBinder} {key : Bytes} (s : HttpServer)
    (before after : List ℕ) (fd : ℕ) (accept : AcceptEvent) (c : Client) (d : ℕ)
    (ds method target version : Bytes) (x : Header) (hs : List Header) (body : Bytes) (n : ℤ)
    (req : HttpRequest) (resp : HttpResponse) (sock : Socket)
    → register_handler name handler types m_handles ≡ ok m_handles'
    → process_url_str name ≡ ok key
    → lookup key m_handles ≡ none
    → any (λ t. type_eq t (req_type_from_str method)) types ≡ true
    → match_path key target ≡ ok true
    → All (Refuses target (req_type_from_str method)) m_handles
    → s.poll_fds ≡ before ++ fd ∷ after
    → (fd == s.m_listen_socket) ≡ false
    → lookup_fd fd s.m_active_clients ≡ some c
    → c.fd ≡ fd
    → c.is_in_body ≡ false
    → c.raw_http ++ d ∷ ds ≡ message (start_line method target version) (x ∷ hs) body
    → Lacks 32 method
    → Lacks 32 target
    → IsLine (start_line method target version)
    → All IsMessageHeader (x ∷ hs)
    → length (message (start_line method target version) (x ∷ hs) body) < 2 ^ 64
    → length_of (x ∷ hs) ≡ ok n
    → is_zero n ≡ true
    → new_request
        (message (start_line method target version) (x ∷ hs) body)
        name
        (extract_params name)
      ≡ ok req
    → handler req ≡ respond resp
    → CanTake resp sock
    → (s' : HttpServer) × (run_round (idles before ++ ready accept (received (d ∷ ds)) ∷ []) s
        ≡ ok s')
      × (s'.tasks ≡ s.tasks ++ fd ∷ [])
      × Answered resp sock ((handle_incoming_request json m_handles' s'.m_active_clients fd).1 sock)
run_round-Answered json name handler types m {m_handles' = m'} s before after fd accept c d ds
      method target version x hs body n req resp sock registered processed free has fits others
      shape other known own out whole hm ht hl hh bound len zero_length read says room =
    let raw = message (start_line method target version) (x ∷ hs) body in
    let type = req_type_from_str method in
    let (s', ran, tasks, task) =
      run_round-served json m' s before after fd accept c d ds method target version x hs body n
        shape other known own out whole hm ht hl hh bound len zero_length in
    let page : Exception → M (Unit {0}) = λ ex. respond (internal_error json ex) in
    let routed : handle_request json m' target raw type sock ≡ try_catch (respond resp) page sock =
      register_handler-handle_request json name handler types m target raw type req sock registered
        processed free has fits others read
      ∙ ap (λ t. try_catch t page sock) says in
    let written =
      answered_under resp (handle_request json m' target raw type) page (λ ex. lift (ok tt)) sock
        routed room in
    (s', ran, tasks, subst (Answered resp sock) (sym (ap (λ t. t sock) task)) written)
