-- ===== src/Cookie/Builder.antt =====
-- include/weblib/server/Cookie.hpp: CookieBuilder. Each setter returns the builder itself, so that calls
-- are chained.
use web_library.Base.{Bool, Bytes, ℤ, []}
use web_library.Cookie.{Cookie, SameSite, cookie}
use web_library.Cookie

pub record CookieBuilder : Type 0 where
  pub m_cookie : Cookie

abbrev pub new_builder : CookieBuilder
new_builder = record { m_cookie = cookie [] [] }

abbrev pub set_name : Bytes → CookieBuilder → CookieBuilder
set_name name b = record { m_cookie = Cookie.set_name name b.m_cookie }

abbrev pub set_value : Bytes → CookieBuilder → CookieBuilder
set_value new_val b = record { m_cookie = Cookie.set_value new_val b.m_cookie }

abbrev pub set_httponly : Bool → CookieBuilder → CookieBuilder
set_httponly val b = record { m_cookie = Cookie.set_httponly val b.m_cookie }

abbrev pub set_secure : Bool → CookieBuilder → CookieBuilder
set_secure val b = record { m_cookie = Cookie.set_secure val b.m_cookie }

abbrev pub set_max_age : ℤ → CookieBuilder → CookieBuilder
set_max_age new_max_age b = record { m_cookie = Cookie.set_max_age new_max_age b.m_cookie }

abbrev pub set_path : Bytes → CookieBuilder → CookieBuilder
set_path new_path b = record { m_cookie = Cookie.set_path new_path b.m_cookie }

abbrev pub set_domain : Bytes → CookieBuilder → CookieBuilder
set_domain new_domain b = record { m_cookie = Cookie.set_domain new_domain b.m_cookie }

abbrev pub set_samesite : SameSite → CookieBuilder → CookieBuilder
set_samesite new_rule b = record { m_cookie = Cookie.set_samesite new_rule b.m_cookie }

-- The cookie is moved out; the builder is not used any more.
abbrev pub build : CookieBuilder → Cookie
build b = b.m_cookie
