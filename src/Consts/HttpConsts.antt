-- ===== src/Consts/HttpConsts.antt =====
-- include/weblib/consts.hpp: the constants of HttpConsts.
use web_library.Base.{Bytes, codes}

abbrev pub http : Bytes
http = codes "HTTP"

abbrev pub http_version : Bytes
http_version = codes "1.1"

abbrev pub crnl : Bytes
crnl = codes "\r\n"

abbrev pub crnlcrnl : Bytes
crnlcrnl = codes "\r\n\r\n"

abbrev pub method_get : Bytes
method_get = codes "GET"

abbrev pub method_post : Bytes
method_post = codes "POST"

abbrev pub method_options : Bytes
method_options = codes "OPTIONS"

abbrev pub method_put : Bytes
method_put = codes "PUT"

abbrev pub method_delete : Bytes
method_delete = codes "DELETE"

abbrev pub status_ok : Bytes
status_ok = codes "OK"

abbrev pub status_created : Bytes
status_created = codes "Created"

abbrev pub status_no_content : Bytes
status_no_content = codes "No Content"

abbrev pub status_bad_request : Bytes
status_bad_request = codes "Bad Request"

abbrev pub status_unauthorized : Bytes
status_unauthorized = codes "Unauthorized"

abbrev pub status_forbidden : Bytes
status_forbidden = codes "Forbidden"

abbrev pub status_not_found : Bytes
status_not_found = codes "Not Found"

abbrev pub status_method_not_allowed : Bytes
status_method_not_allowed = codes "Method Not Allowed"

abbrev pub status_internal_server_error : Bytes
status_internal_server_error = codes "Internal Server Error"

abbrev pub status_bad_gateway : Bytes
status_bad_gateway = codes "Bad Gateway"

abbrev pub status_service_unavailable : Bytes
status_service_unavailable = codes "Service Unavailable"

abbrev pub status_gateway_timeout : Bytes
status_gateway_timeout = codes "Gateway Timeout"

abbrev pub status_unknown : Bytes
status_unknown = codes "Unknown status code, set msg manually"
