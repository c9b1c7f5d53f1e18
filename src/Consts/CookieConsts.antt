-- ===== src/Consts/CookieConsts.antt =====
-- include/weblib/consts.hpp: the constants of CookieConsts.
use web_library.Base.{Bytes, codes}

abbrev pub max_age : Bytes
max_age = codes "Max-Age"

abbrev pub secure : Bytes
secure = codes "Secure"

abbrev pub http_only : Bytes
http_only = codes "HttpOnly"

abbrev pub path : Bytes
path = codes "Path"

abbrev pub domain : Bytes
domain = codes "Domain"

abbrev pub same_site : Bytes
same_site = codes "SameSite"

abbrev pub same_site_lax : Bytes
same_site_lax = codes "Lax"

abbrev pub same_site_strict : Bytes
same_site_strict = codes "Strict"

abbrev pub same_site_none : Bytes
same_site_none = codes "None"
