-- ===== src/Cookie/Tests.antt =====
-- server/Cookie.cpp at the inputs of tests/cookie_test.cpp, with the witness.
use web_library.Base.{
  [], ◌≡◌, refl, codes, true, ok, throw, empty_cookie, find_last_of, ◌∷◌, ◌++◌, ◌||◌, is_empty,
  join, if◌then◌else◌,
}
use web_library.Cookie.Print.{attribute_list, to_string-join}
use web_library.Cookie.{
  Cookie, cookie, set_name, set_value, set_httponly, set_path, set_samesite, set_secure, lax,
  to_string,
}

to_string_tests :
    (to_string (set_value (codes "234") (set_name (codes "Session-id") (cookie [] [])))
      ≡ ok (codes "Session-id=234"))
    × (to_string (set_value (codes "x") (cookie [] [])) ≡ throw empty_cookie)
    × (to_string
          (set_path (codes "/c") (set_httponly true (cookie (codes "Session-id") (codes "234"))))
        ≡ ok (codes "Session-id=234; HttpOnly; Path=/c; SameSite=None"))
    × (to_string (set_secure true (set_samesite lax (cookie (codes "Session-id") (codes "234"))))
        ≡ ok (codes "Session-id=234; Secure; SameSite=Lax"))
unfolding to_string cookie set_name set_value set_httponly set_path set_samesite set_secure
    find_last_of
to_string_tests = (refl, refl, refl, refl)

abbrev session : Cookie
session = set_path (codes "/c") (set_httponly true (cookie (codes "id") (codes "2")))

to_string-join_example : to_string session ≡ (
    if is_empty session.name || is_empty session.value
    then throw empty_cookie
    else ok (
        if session.response_cookie
        then join (codes "; ") ((session.name ++ b'=' ∷ session.value) ∷ attribute_list session)
        else session.name ++ b'=' ∷ session.value))
to_string-join_example = to_string-join session
