-- ===== src/HttpBinder/Apart.antt =====
-- include/weblib/server/HttpBinder.hpp: patterns that `match_path` never matches with one path.
use web_library.Base.{
  ℕ, suc, List, [], ◌∷◌, Bool, true, false, ◌&&◌, ◌==◌, none, some, Bytes, drop, length, find,
  bytes_eq, bytes_eq_iff, if◌then◌else◌, Result, ok, zip, subst, Dict, lookup, ◌≡◌, refl, sym, ap,
  ◌∙◌, arith,
}
use web_library.HttpBinder.{
  split_path, parts_match, value_matches, params_match, path_of, query_of, match_queries,
  match_rest, match_path, parse_query,
}
use web_library.HttpBinder.Match.{
  QueriesMatch, QueryMatches, is_empty_iff, PartsMatch, ParamsMatch, match_path_split_iff,
}
use web_library.HttpBinder.Find.{In, here, there}

-- The parts of the path of a pattern or of a target.
abbrev pub parts : Bytes → List Bytes
parts text = split_path (path_of text (find b'?' text))

PartsMatch-length : (ps rs : List Bytes) → PartsMatch ps rs → length ps ≡ length rs
PartsMatch-length [] [] h = refl
PartsMatch-length [] (r ∷ rs) h = absurd h
PartsMatch-length (p ∷ ps) [] h = absurd h
PartsMatch-length (p ∷ ps) (r ∷ rs) h = ap suc (PartsMatch-length ps rs h.1)

-- Patterns with unequal numbers of parts.
pub apart_by_parts :
    (p q path : Bytes)
    → (length (parts q) == length (parts p)) ≡ false
    → match_path p path ≡ ok true
    → match_path q path ≡ ok false
unfolding match_path
apart_by_parts p q path unequal matched =
    let same =
      PartsMatch-length (parts p) (parts path) ((match_path_split_iff p path).0 matched).0 in
    let differs : (length (parts q) == length (parts path)) ≡ false =
      ap (λ t. length (parts q) == t) (sym same) ∙ unequal in
    rw (differs, match_path) refl

params_match_missing :
    (ps rs : Dict Bytes) (key value : Bytes)
    → In (key, value) ps
    → lookup key rs ≡ none
    → params_match ps rs ≡ false
unfolding params_match value_matches
params_match_missing [] rs key value i lost = elim i [ ]
params_match_missing ((k, v) ∷ ps) rs key value here lost = rw lost refl
params_match_missing ((k, v) ∷ ps) rs key value (there i) lost =
    ground (arith, params_match_missing ps rs key value i lost)

ok_same : {A : Type 0} {a b : A} → ok a ≡ ok b → a ≡ b
ok_same e = cc

refused : (b : Bool) (m : Result Bool) → m ≡ ok false → (if b then m else ok false) ≡ ok false
refused true m h = h
refused false m h = refl

-- Patterns with queries of which the second asks for a parameter that no target of the first has.
pub apart_by_key :
    (p q path : Bytes) (i j : ℕ) (ps qs : Dict Bytes) (key value : Bytes)
    → find b'?' p ≡ some i
    → find b'?' q ≡ some j
    → parse_query (drop (suc i) p) ≡ ok ps
    → parse_query (drop (suc j) q) ≡ ok qs
    → In (key, value) qs
    → ((rs : Dict Bytes) → length ps ≡ length rs → ParamsMatch ps rs → lookup key rs ≡ none)
    → match_path p path ≡ ok true
    → match_path q path ≡ ok false
unfolding match_path match_rest match_queries
apart_by_key p q path i j ps qs key value at_p at_q read_p read_q asked only matched =
    let rq = query_of path (find b'?' path) in
    let matches = (match_path_split_iff p path).0 matched in
    let query : QueriesMatch (drop (suc i) p) rq =
      subst (λ o. QueryMatches p o rq) at_p matches.1 in
    let (filled, (ps', rs, read_p', read, size, params)) = query in
    let same : ps' ≡ ps = ok_same (sym read_p' ∙ read_p) in
    let lost : lookup key rs ≡ none =
      only rs (ap length (sym same) ∙ size) (subst (λ t. ParamsMatch t rs) same params) in
    let missed = params_match_missing qs rs key value asked lost in
    let tested =
      length (parts q) == length (parts path) && parts_match (zip (parts q) (parts path)) in
    let rest : match_rest q (find b'?' q) rq ≡ ok false =
      rw (at_q, match_rest, match_queries, (is_empty_iff rq).1 filled, read_q, read, missed)
        (ground arith) in
    refused tested (match_rest q (find b'?' q) rq) rest

-- A map with two entries, under two keys, has no third key.
pub two_keys :
    (a b c : Bytes) (rs : Dict Bytes) (v w : Bytes)
    → bytes_eq a b ≡ false
    → bytes_eq a c ≡ false
    → bytes_eq b c ≡ false
    → 2 ≡ length rs
    → lookup a rs ≡ some v
    → lookup b rs ≡ some w
    → lookup c rs ≡ none
unfolding lookup
two_keys a b c [] v w ab ac bc size at_a at_b = absurd (cc)
two_keys a b c (r ∷ []) v w ab ac bc size at_a at_b = absurd (omega arith)
two_keys a b c ((k, x) ∷ (l, y) ∷ []) v w ab ac bc size at_a at_b = ground (
  arith,
  bytes_eq_iff k a,
  bytes_eq_iff k b,
  bytes_eq_iff k c,
  bytes_eq_iff l a,
  bytes_eq_iff l b,
  bytes_eq_iff l c,
  bytes_eq_iff a b,
  bytes_eq_iff a c,
  bytes_eq_iff b c,
)
two_keys a b c (r ∷ r' ∷ r'' ∷ rs) v w ab ac bc size at_a at_b = absurd (omega arith)
