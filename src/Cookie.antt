-- ===== src/Cookie.antt =====
-- include/weblib/server/Cookie.hpp and server/Cookie.cpp: a cookie, its setters and its print.
pub mod Builder
pub mod Print
mod Tests
use web_library.Base.{
  ℕ, suc, ◌+◌, ◌-◌, List, [], ◌∷◌, ◌++◌, Bool, true, false, not, ◌||◌, Option, none, some, Bytes,
  codes, take, length, leb, sub64, find_last_of, is_empty, if◌then◌else◌, Result, ok, throw,
  empty_cookie, out_of_range, ℤ, print_int,
}
use web_library.Consts.CookieConsts
use mathlib.Core.Option

pub data SameSite : Type 0 where
  no_rule lax strict : SameSite

pub record Cookie : Type 0 where
  pub http_only : Bool
  pub secure : Bool
  pub max_age : Option ℤ
  pub path : Bytes
  pub domain : Bytes
  pub samesite : SameSite
  pub name : Bytes
  pub value : Bytes
  pub response_cookie : Bool

-- `Cookie{key, val}`; `Cookie{}` is `cookie [] []`.
unfoldable pub cookie : Bytes → Bytes → Cookie
cookie key val = record {
  http_only = false;
  secure = false;
  max_age = none;
  path = [];
  domain = [];
  samesite = no_rule;
  name = key;
  value = val;
  response_cookie = false;
}

unfoldable pub set_name : Bytes → Cookie → Cookie
set_name new_name c = record c { name = new_name }

unfoldable pub set_value : Bytes → Cookie → Cookie
set_value new_val c = record c { value = new_val }

unfoldable pub set_httponly : Bool → Cookie → Cookie
set_httponly val c = record c { http_only = val; response_cookie = true }

unfoldable pub set_secure : Bool → Cookie → Cookie
set_secure val c = record c { secure = val; response_cookie = true }

unfoldable pub set_max_age : ℤ → Cookie → Cookie
set_max_age new_max_age c = record c { max_age = some new_max_age; response_cookie = true }

unfoldable pub set_path : Bytes → Cookie → Cookie
set_path new_path c = record c { path = new_path; response_cookie = true }

unfoldable pub set_domain : Bytes → Cookie → Cookie
set_domain new_domain c = record c { domain = new_domain; response_cookie = true }

unfoldable pub set_samesite : SameSite → Cookie → Cookie
set_samesite new_rule c = record c { response_cookie = true; samesite = new_rule }

abbrev pub samesite_name : SameSite → Bytes
samesite_name lax = CookieConsts.same_site_lax
samesite_name strict = CookieConsts.same_site_strict
samesite_name no_rule = CookieConsts.same_site_none

abbrev max_age_part : Option ℤ → Bytes
max_age_part none = []
max_age_part (some n) = (CookieConsts.max_age ++ codes "=") ++ (print_int n ++ codes "; ")

-- What the code appends to `name=value; `, attribute by attribute.
attributes : Cookie → Bytes
attributes c =
    max_age_part c.max_age
    ++ ((if c.secure then CookieConsts.secure ++ codes "; " else [])
        ++ ((if c.http_only then CookieConsts.http_only ++ codes "; " else [])
            ++ ((if is_empty c.path
                  then []
                  else (CookieConsts.path ++ codes "=") ++ (c.path ++ codes "; "))
                ++ ((if is_empty c.domain
                      then []
                      else (CookieConsts.domain ++ codes "=") ++ (c.domain ++ codes "; "))
                    ++ ((CookieConsts.same_site ++ codes "=")
                        ++ samesite_name c.samesite
                        ++ codes "; ")))))

-- The cut at the end: `cookie.size() - 2` is computed in size_t, npos is past every size, and
-- `erase` throws at a position past the end.
cut_last : Bytes → Result Bytes
cut_last text = elim (find_last_of b';' text) [
  | none ↦ throw (out_of_range (codes "basic_string::erase"))
  | some col_pos ↦ ok (if leb (sub64 (length text) 2) col_pos then take col_pos text else text)
]

unfoldable pub to_string : Cookie → Result Bytes
unfolding attributes cut_last
to_string c =
    if is_empty c.name || is_empty c.value
    then throw empty_cookie
    else (let text = c.name ++ (b'=' ∷ c.value) in
        if not c.response_cookie then ok text else cut_last (text ++ (codes "; " ++ attributes c)))
