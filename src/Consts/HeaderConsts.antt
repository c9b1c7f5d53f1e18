-- ===== src/Consts/HeaderConsts.antt =====
-- include/weblib/consts.hpp: the constants of HeaderConsts.
use web_library.Base.{Bytes, codes}

abbrev pub cookie_header : Bytes
cookie_header = codes "cookie"

abbrev pub set_cookie : Bytes
set_cookie = codes "Set-Cookie"

abbrev pub content_length : Bytes
content_length = codes "Content-Length"

abbrev pub content_type : Bytes
content_type = codes "Content-Type"

abbrev pub content_type_text_html : Bytes
content_type_text_html = codes "text/html"

abbrev pub content_type_text_plain : Bytes
content_type_text_plain = codes "text/plain"

abbrev pub content_type_text_css : Bytes
content_type_text_css = codes "text/css"

abbrev pub content_type_text_csv : Bytes
content_type_text_csv = codes "text/csv"

abbrev pub content_type_app_json : Bytes
content_type_app_json = codes "application/json"

abbrev pub content_type_app_xml : Bytes
content_type_app_xml = codes "application/xml"

abbrev pub content_type_app_javascript : Bytes
content_type_app_javascript = codes "application/javascript"

abbrev pub content_type_app_encoded : Bytes
content_type_app_encoded = codes "application/x-www-form-urlencoded"

abbrev pub content_type_app_pdf : Bytes
content_type_app_pdf = codes "application/pdf"

abbrev pub content_type_image_gif : Bytes
content_type_image_gif = codes "image/gif"

abbrev pub content_type_image_jpeg : Bytes
content_type_image_jpeg = codes "image/jpeg"

abbrev pub content_type_image_png : Bytes
content_type_image_png = codes "image/png"

abbrev pub cache_control : Bytes
cache_control = codes "Cache-Control"

abbrev pub expires : Bytes
expires = codes "Expires"

abbrev pub location : Bytes
location = codes "Location"

abbrev pub server : Bytes
server = codes "Server"

abbrev pub accept : Bytes
accept = codes "Accept"

abbrev pub user_agent : Bytes
user_agent = codes "User-Agent"

abbrev pub host : Bytes
host = codes "Host"

abbrev pub accept_language : Bytes
accept_language = codes "Accept-Language"
