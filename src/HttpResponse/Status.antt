-- ===== src/HttpResponse/Status.antt =====
-- include/weblib/server/HttpResponse.hpp: StatusCode, and the messages that set_status gives its codes.
use web_library.Base.{ℕ, Bytes, codes, pos, ◌≡◌, ◌≢◌, refl, arith}
use web_library.Consts.HttpConsts
use web_library.HttpResponse.{HttpResponse, set_status, status_text}

pub data StatusCode : Type 0 where
  ok created no_content bad_request unauthorized forbidden not_found method_not_allowed
        internal_server_error bad_gateway service_unavailable gateway_timeout :
      StatusCode

unfoldable pub code_of : StatusCode → ℕ
code_of ok = 200
code_of created = 201
code_of no_content = 204
code_of bad_request = 400
code_of unauthorized = 401
code_of forbidden = 403
code_of not_found = 404
code_of method_not_allowed = 405
code_of internal_server_error = 500
code_of bad_gateway = 502
code_of service_unavailable = 503
code_of gateway_timeout = 504

abbrev pub message_of : StatusCode → Bytes
message_of ok = HttpConsts.status_ok
message_of created = HttpConsts.status_created
message_of no_content = HttpConsts.status_no_content
message_of bad_request = HttpConsts.status_bad_request
message_of unauthorized = HttpConsts.status_unauthorized
message_of forbidden = HttpConsts.status_forbidden
message_of not_found = HttpConsts.status_not_found
message_of method_not_allowed = HttpConsts.status_method_not_allowed
message_of internal_server_error = HttpConsts.status_internal_server_error
message_of bad_gateway = HttpConsts.status_bad_gateway
message_of service_unavailable = HttpConsts.status_service_unavailable
message_of gateway_timeout = HttpConsts.status_gateway_timeout

-- Each code gets the message of its name.
pub set_status-code_of :
    (c : StatusCode) (r : HttpResponse)
    → (set_status (pos (code_of c)) r).status_message ≡ message_of c
unfolding set_status status_text code_of
set_status-code_of ok r = refl
set_status-code_of created r = refl
set_status-code_of no_content r = refl
set_status-code_of bad_request r = refl
set_status-code_of unauthorized r = refl
set_status-code_of forbidden r = refl
set_status-code_of not_found r = refl
set_status-code_of method_not_allowed r = refl
set_status-code_of internal_server_error r = refl
set_status-code_of bad_gateway r = refl
set_status-code_of service_unavailable r = refl
set_status-code_of gateway_timeout r = refl

-- A number that is no code gets "Unknown".
pub set_status_unknown :
    (n : ℕ) (r : HttpResponse)
    → ((c : StatusCode) → n ≢ code_of c)
    → (set_status (pos n) r).status_message ≡ codes "Unknown"
unfolding set_status status_text code_of
set_status_unknown n r other = ground (
  arith,
  other ok,
  other created,
  other no_content,
  other bad_request,
  other unauthorized,
  other forbidden,
  other not_found,
  other method_not_allowed,
  other internal_server_error,
  other bad_gateway,
  other service_unavailable,
  other gateway_timeout,
)
