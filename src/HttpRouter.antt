-- ===== src/HttpRouter.antt =====
-- include/weblib/server/HttpRouter.hpp and server/HttpRouter.cpp: a request is routed to its endpoint,
-- and errors are answered.
pub mod Branches
pub mod Failed
pub mod Registered
pub mod Guarded
mod Tests
use web_library.Base.{
  List, [], ◌∷◌, ◌++◌, Bool, true, false, Option, none, some, Bytes, codes, if◌then◌else◌, Result,
  Exception, what, ℤ, pos, ℕ,
}
use web_library.Json.{JsonLib, error_response}
use web_library.Utils.{parse_request_line}
use web_library.RequestType.{RequestType, req_type_from_str}
use web_library.Socket.{M, ◌>>=◌, lift, try_catch}
use web_library.HttpRequest.{HttpRequest, new_request}
use web_library.HttpResponse.{HttpResponse, text, respond}
use web_library.HttpResponse.Builder
use web_library.HttpHandle.{HttpHandle, pass_middlewares, call}
use web_library.HttpBinder.{HttpBinder, find_handle}

module _ (json : JsonLib) where
  unfoldable pub error_page : ℕ → Bytes → Bytes → HttpResponse
  error_page status type message = Builder.build (
      Builder.set_content_type text (
        Builder.set_body_json json (error_response json type message)
          (Builder.set_status (pos status) Builder.new_builder)))

  unfoldable pub forbidden : HttpResponse
  unfolding error_page
  forbidden = error_page 403 (codes "Middleware") (codes "Access denied")

  unfoldable pub not_found : HttpResponse
  unfolding error_page
  not_found = error_page 404 (codes "Not found") (codes "No such handle")

  unfoldable pub internal_error : Exception → HttpResponse
  unfolding error_page
  internal_error ex =
      error_page 500 (codes "Internal error") (codes "Server internal error: " ++ what ex)

  -- The branch with a handle, from the construction of the request on.
  pub run_handle : HttpHandle → Bytes → M (Unit {0})
  run_handle handle raw_http = do
    req ← lift (new_request raw_http handle.path handle.parameters)
    passed ← lift (pass_middlewares req handle)
    if passed then call handle req else respond forbidden

  pub dispatch : Option HttpHandle → Bytes → M (Unit {0})
  dispatch none raw_http = respond not_found
  dispatch (some handle) raw_http = run_handle handle raw_http

  unfoldable pub handle_request : HttpBinder → Bytes → Bytes → RequestType → M (Unit {0})
  unfolding dispatch run_handle
  handle_request m_handles path raw_http request_type =
      try_catch
        (lift (find_handle path request_type m_handles) >>= λ handle. dispatch handle raw_http)
        (λ ex. respond (internal_error ex))

  unfoldable pub process_request : HttpBinder → Bytes → M (Unit {0})
  process_request m_handles raw_http = do
    (method, path) ← lift (parse_request_line raw_http)
    handle_request m_handles path raw_http (req_type_from_str method)
