-- ===== src/HttpQuery/Lookup.antt =====
-- server/HttpQuery.cpp: templates with no query, and the names that parameters are stored under.
use web_library.Base.{
  List, [], ◌∷◌, Bytes, find, find-Lacks, Lacks, ok, >>=-eq-ok, or_throw, contains, not, ◌&&◌,
  bytes_eq, bytes_eq_iff, lookup-emplace, ◌≡◌, ◌≢◌, ap, arith, if◌then◌else◌, query_error,
}
use web_library.Utils.{to_lowercase_str}
use web_library.Utils.Trim.{to_lowercase_str_idem}
use web_library.HttpQuery.{
  HttpQuery, Binding, bind_all, view, remove_first, put, parse_from_string, get_query,
}

bind_all-Lacks :
    (template path : Bytes) (b b' : Binding)
    → Lacks b'?' template
    → bind_all template path b ≢ ok b'
unfolding bind_all
bind_all-Lacks template path b b' h e = ground (arith, find-Lacks b'?' template h)

remove_first-Lacks : (t t' : Bytes) → remove_first t ≡ ok t' → Lacks b'?' t → Lacks b'?' t'
unfolding remove_first
remove_first-Lacks [] t' e h = cc
remove_first-Lacks (c ∷ t) t' e h = let same : t ≡ t' = cc in rw (← same) h.1

-- A template with no '?' cannot be bound: where an endpoint has at least one parameter, also if all of
-- them stand in the path, `parse_from_string` accepts no request for it.
pub parse_from_string_no_query :
    (raw : Bytes) (name : Bytes) (names : List Bytes) (template : Bytes) (q q' : HttpQuery)
    → Lacks b'?' template
    → parse_from_string raw (name ∷ names) template q ≢ ok q'
unfolding parse_from_string
parse_from_string_no_query raw name names template q q' h e =
    let (start, _, e1) = >>=-eq-ok (or_throw query_error (find b'/' raw)) _ e in
    let (path, _, e2) = >>=-eq-ok (view raw _ _) _ e1 in
    let (t, first, e3) = >>=-eq-ok (remove_first template) _ e2 in
    let (b, bound, _) = >>=-eq-ok (bind_all t path (name ∷ names, q)) _ e3 in
    bind_all-Lacks t path (name ∷ names, q) b (remove_first-Lacks template t first h) bound

-- `get_query` looks for the name in lower case, while the parameters are stored under the names of the
-- template as they are: what is bound to a name is found by the lookups of that name in any case if the
-- name is in lower case and was not bound before; otherwise, so for any name with an upper-case letter,
-- no lookup changes.
pub get_query-put :
    (name value query : Bytes) (q : HttpQuery)
    → get_query query (put name value q) ≡ (
        if bytes_eq name (to_lowercase_str name)
          && (bytes_eq name (to_lowercase_str query) && not (contains name q.parameters))
        then record { content = value }
        else get_query query q)
unfolding get_query contains
get_query-put name value query q =
    let low : Bytes = to_lowercase_str query in
    ground (
      arith,
      lookup-emplace name low value q.parameters,
      bytes_eq_iff name low,
      bytes_eq_iff name (to_lowercase_str name),
      ap to_lowercase_str {x = name} {y = low},
      to_lowercase_str_idem query,
    )
