-- ===== src/HttpRouter/Guarded/Tests.antt =====
-- examples/CustomFilter2.hpp: MyFilter2 before an endpoint of its route.
use web_library.Base.{[], ◌∷◌, ◌≡◌, inl, inr, refl, codes, true, some, ok, Bytes, if◌then◌else◌}
use web_library.Json.{JsonLib}
use web_library.RequestType.{get, post}
use web_library.Socket
use web_library.Socket.{Socket, sent, lift, try_catch}
use web_library.HttpRequest.{HttpRequest, new_request}
use web_library.HttpResponse.{new_response, set_body, respond}
use web_library.HttpHandle.{Handler, add_filter}
use web_library.HttpBinder.{HttpBinder, handle_for}
use web_library.HttpRouter.{handle_request, forbidden, internal_error}
use web_library.HttpRouter.Guarded.{register_filter-handle_request}
use web_library.MyFilter.{do_filter}

abbrev json : JsonLib
json = record { Value = Bytes; object = λ members. codes "{}"; write_string = λ v. v; parse = some }

abbrev client : Socket
client = record { wire = []; events = sent 1000 ∷ [] }

abbrev say_body : Handler
say_body req = respond (set_body req.body new_response)

abbrev table : HttpBinder
table = (codes "/a", handle_for (codes "/a") say_body (get ∷ [])) ∷ []

abbrev table1 : HttpBinder
table1 =
    (codes "/a", handle_for (codes "/a") say_body (get ∷ []))
    ∷ (codes "/zov", handle_for (codes "/zov") say_body (post ∷ []))
    ∷ []

abbrev table2 : HttpBinder
table2 =
    (codes "/a", handle_for (codes "/a") say_body (get ∷ []))
    ∷ (codes "/zov", add_filter do_filter (handle_for (codes "/zov") say_body (post ∷ [])))
    ∷ []

abbrev request : Bytes
request = codes "POST /zov HTTP/1.1\r\nGoida: x\r\n\r\nhi"

abbrev parsed : HttpRequest
parsed = record {
  headers = record { headers = (codes "goida", codes "x") ∷ []; cookies = [] };
  query = record { parameters = [] };
  method = codes "POST";
  body = codes "hi";
  version = codes "1.1";
}

register_filter-handle_request_example :
    handle_request json table2 (codes "/zov") request post client
    ≡ try_catch
        (Socket.◌>>=◌
          (lift (do_filter parsed))
          λ passed. if passed then say_body parsed else respond (forbidden json))
        (λ ex. respond (internal_error json ex))
        client
unfolding web_library.HttpBinder.register_handler web_library.Base.contains
    web_library.Base.bytes_eq web_library.Utils.process_url_str web_library.Base.emplace
    web_library.RequestType.type_eq web_library.HttpBinder.match_path
    web_library.HttpBinder.split_path web_library.Base.split web_library.Base.find new_request
    web_library.Base.substr web_library.Base.find_str
    web_library.HttpHeaders.extract_headers_from_str web_library.Base.get_lines
    web_library.Utils.trim web_library.HttpQuery.parse_from_string web_library.Base.lookup
    web_library.Base.find_last_of handle_for web_library.Utils.extract_params
    web_library.Utils.to_lowercase_str web_library.HttpBinder.register_filter
    web_library.Base.assign
register_filter-handle_request_example =
    register_filter-handle_request json (codes "/zov") (codes "/zov") say_body do_filter (post ∷ [])
      table {m1 = table1} {m2 = table2} {key = codes "/zov"} (codes "/zov") request post parsed
      client refl refl refl refl refl refl refl (inr refl, tt) refl
