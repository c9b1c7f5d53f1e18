-- ===== src/HttpRouter/Registered/Tests.antt =====
-- server/HttpRouter.cpp at an endpoint that is registered beside another one.
use web_library.Base.{[], ◌∷◌, ◌≡◌, inl, inr, refl, codes, true, some, ok, Bytes}
use web_library.Json.{JsonLib}
use web_library.RequestType.{get, post}
use web_library.Socket.{Socket, sent, try_catch}
use web_library.HttpRequest.{HttpRequest, new_request}
use web_library.HttpResponse.{new_response, set_body, respond}
use web_library.HttpHandle.{Handler}
use web_library.HttpBinder.{HttpBinder, handle_for}
use web_library.HttpRouter.{handle_request, internal_error}
use web_library.HttpRouter.Registered.{register_handler-handle_request}

abbrev json : JsonLib
json = record { Value = Bytes; object = λ members. codes "{}"; write_string = λ v. v; parse = some }

abbrev client : Socket
client = record { wire = []; events = sent 1000 ∷ [] }

abbrev say_body : Handler
say_body req = respond (set_body req.body new_response)

abbrev table : HttpBinder
table = (codes "/a", handle_for (codes "/a") say_body (get ∷ [])) ∷ []

abbrev table' : HttpBinder
table' =
    (codes "/a", handle_for (codes "/a") say_body (get ∷ []))
    ∷ (codes "/b", handle_for (codes "/b") say_body (get ∷ post ∷ []))
    ∷ []

abbrev request : Bytes
request = codes "POST /b HTTP/1.1\r\nHost: x\r\n\r\nhi"

abbrev parsed : HttpRequest
parsed = record {
  headers = record { headers = (codes "host", codes "x") ∷ []; cookies = [] };
  query = record { parameters = [] };
  method = codes "POST";
  body = codes "hi";
  version = codes "1.1";
}

register_handler-handle_request_example :
    handle_request json table' (codes "/b") request post client
    ≡ try_catch (say_body parsed) (λ ex. respond (internal_error json ex)) client
unfolding web_library.HttpBinder.register_handler web_library.Base.contains
    web_library.Base.bytes_eq web_library.Utils.process_url_str web_library.Base.emplace
    web_library.RequestType.type_eq web_library.HttpBinder.match_path
    web_library.HttpBinder.split_path web_library.Base.split web_library.Base.find new_request
    web_library.Base.substr web_library.Base.find_str
    web_library.HttpHeaders.extract_headers_from_str web_library.Base.get_lines
    web_library.Utils.trim web_library.HttpQuery.parse_from_string web_library.Base.lookup
    web_library.Base.find_last_of handle_for web_library.Utils.extract_params
    web_library.Utils.to_lowercase_str
register_handler-handle_request_example =
    register_handler-handle_request json (codes "/b") say_body (get ∷ post ∷ []) table
      {m_handles' = table'} {key = codes "/b"} (codes "/b") request post parsed client refl refl
      refl refl refl (inr refl, tt) refl
