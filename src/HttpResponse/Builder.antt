-- ===== src/HttpResponse/Builder.antt =====
-- include/weblib/server/HttpResponse.hpp: HttpResponseBuilder. Each setter returns the builder itself, so
-- that calls are chained.
use web_library.Base.{Bytes, ℤ}
use web_library.Json.{JsonLib}
use web_library.HttpResponse.{HttpResponse, ContentType, new_response}
use web_library.HttpResponse

pub record HttpResponseBuilder : Type 0 where
  pub resp : HttpResponse

abbrev pub new_builder : HttpResponseBuilder
new_builder = record { resp = new_response }

abbrev pub set_body_str : Bytes → HttpResponseBuilder → HttpResponseBuilder
set_body_str text b = record { resp = HttpResponse.set_body text b.resp }

abbrev pub set_body_json : (json : JsonLib) → json.Value → HttpResponseBuilder → HttpResponseBuilder
set_body_json json json_obj b = record { resp = HttpResponse.set_body_json json json_obj b.resp }

abbrev pub set_status : ℤ → HttpResponseBuilder → HttpResponseBuilder
set_status code b = record { resp = HttpResponse.set_status code b.resp }

abbrev pub set_content_type : ContentType → HttpResponseBuilder → HttpResponseBuilder
set_content_type type b = record { resp = HttpResponse.set_content_type type b.resp }

abbrev pub set_custom_message : Bytes → HttpResponseBuilder → HttpResponseBuilder
set_custom_message msg b = record { resp = HttpResponse.set_custom_message msg b.resp }

-- The response is moved out; the builder is not used any more.
abbrev pub build : HttpResponseBuilder → HttpResponse
build b = b.resp
