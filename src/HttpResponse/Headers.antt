-- ===== src/HttpResponse/Headers.antt =====
-- server/HttpResponse.cpp: the header operations of a response.
use web_library.Base.{[], ◌∷◌, Bytes, Dict, assign, bytes_eq_iff, ok, ◌>>=◌, >>=-eq-ok, ◌≡◌, arith}
use web_library.Cookie.{Cookie}
use web_library.Cookie
use web_library.HttpResponse.{HttpResponse, set_cookie, set_cookie_name}

assign-assign :
    (k : Bytes) (v w : Bytes) (m : Dict Bytes) → assign k w (assign k v m) ≡ assign k w m
unfolding assign
assign-assign k v w [] = ground (arith, bytes_eq_iff k k)
assign-assign k v w ((j, u) ∷ m) = ground (arith, bytes_eq_iff j k, assign-assign k v w m)

-- A response holds one cookie at most: once a second cookie is set, nothing is left of the first, and
-- the response is the same as if the first had never been set.
pub set_cookie-set_cookie :
    (first second : Cookie) (r : HttpResponse) {r' : HttpResponse}
    → set_cookie first r ≡ ok r'
    → set_cookie second r' ≡ set_cookie second r
unfolding set_cookie
set_cookie-set_cookie first second r {r'} h =
    let (text, printed, stored) = >>=-eq-ok (Cookie.to_string first) _ h in
    let made : record r { headers = assign set_cookie_name text r.headers } ≡ r' = cc in
    rw (← made) (λ i. Cookie.to_string second >>= λ cookie_str.
    ok (record r { headers = assign-assign set_cookie_name text cookie_str r.headers i }))
