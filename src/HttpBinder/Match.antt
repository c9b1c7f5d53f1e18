-- ===== src/HttpBinder/Match.antt =====
-- include/weblib/server/HttpBinder.hpp: `match_path` against a matching by parts and parameters.
use mathlib.Core.Bool.{false≢true}
use web_library.Base.{
  codes, ℕ, suc, List, [], ◌∷◌, Bool, true, false, ◌&&◌, ◌==◌, ==_refl, Option, none, some, Bytes,
  drop, length, find, is_empty, bytes_eq_iff, if◌then◌else◌, Result, ok, >>=-eq-ok, zip, Dict,
  lookup, All, Option-cases, Bool-cases, ◌≡◌, ◌≢◌, ◌↔◌, ◌⊎◌, inl, inr, refl, arith,
}
use web_library.HttpBinder.{
  wildcard, split_path, part_matches, parts_match, value_matches, params_match, path_of, query_of,
  match_queries, match_rest, match_path, parse_query,
}

-- Part by part, the pattern has a wildcard or the same text.
abbrev pub PartsMatch : List Bytes → List Bytes → Type 0
PartsMatch [] [] = Unit
PartsMatch (pp ∷ pps) (rp ∷ rps) = ((pp ≡ codes "{}") ⊎ (pp ≡ rp)) × PartsMatch pps rps
PartsMatch [] (rp ∷ rps) = ⊥
PartsMatch (pp ∷ pps) [] = ⊥

-- Each parameter of the pattern is given, and its value is a wildcard or the given one.
abbrev pub ParamsMatch : Dict Bytes → Dict Bytes → Type 0
ParamsMatch pattern_params path_params =
    All
      (λ param.
        (given : Bytes) × (lookup param.0 path_params ≡ some given)
        × ((param.1 ≡ codes "{}") ⊎ (given ≡ param.1)))
      pattern_params

-- A query is given, and both queries have as many parameters, which match.
abbrev pub QueriesMatch : Bytes → Bytes → Type 0
QueriesMatch pattern_query path_query =
    (path_query ≢ [])
    × ((pattern_params : Dict Bytes) × (path_params : Dict Bytes) × (parse_query pattern_query
          ≡ ok pattern_params)
        × (parse_query path_query ≡ ok path_params)
        × (length pattern_params ≡ length path_params)
        × ParamsMatch pattern_params path_params)

-- A pattern with no '?' asks nothing of the query.
abbrev pub QueryMatches : Bytes → Option ℕ → Bytes → Type 0
QueryMatches pattern none path_query = Unit
QueryMatches pattern (some pos) path_query = QueriesMatch (drop (suc pos) pattern) path_query

-- The pattern and the path, by what `split_path` and `parse_query` give for them.
abbrev pub SplitMatches : Bytes → Bytes → Type 0
SplitMatches pattern path =
    PartsMatch (split_path (path_of pattern (find b'?' pattern)))
      (split_path (path_of path (find b'?' path)))
    × QueryMatches pattern (find b'?' pattern) (query_of path (find b'?' path))

parts_match_iff :
    (pps rps : List Bytes)
    → ((length pps == length rps && parts_match (zip pps rps)) ≡ true) ↔ PartsMatch pps rps
unfolding parts_match part_matches
parts_match_iff [] [] = ground arith
parts_match_iff [] (rp ∷ rps) = ground arith
parts_match_iff (pp ∷ pps) [] = ground arith
parts_match_iff (pp ∷ pps) (rp ∷ rps) =
    ground (arith, parts_match_iff pps rps, bytes_eq_iff pp wildcard, bytes_eq_iff pp rp)

params_match_sound : (ps qs : Dict Bytes) → params_match ps qs ≡ true → ParamsMatch ps qs
unfolding params_match value_matches
params_match_sound [] qs h = tt
params_match_sound ((k, v) ∷ ps) qs h = elim (Option-cases (lookup k qs)) [
  | inl e ↦ absurd (ground arith)
  | inr (w, e) ↦ (
    (w, e, ground (arith, bytes_eq_iff v wildcard, bytes_eq_iff w v)),
    params_match_sound ps qs (ground arith),
  )
]

params_match_complete : (ps qs : Dict Bytes) → ParamsMatch ps qs → params_match ps qs ≡ true
unfolding params_match value_matches
params_match_complete [] qs h = refl
params_match_complete ((k, v) ∷ ps) qs ((w, e, m), h) =
    ground (arith, bytes_eq_iff v wildcard, bytes_eq_iff w v, params_match_complete ps qs h)

pub is_empty_iff : (s : Bytes) → (is_empty s ≡ false) ↔ (s ≢ [])
is_empty_iff [] = ground arith
is_empty_iff (c ∷ s) = ground arith

match_queries_sound : (pq rq : Bytes) → match_queries pq rq ≡ ok true → QueriesMatch pq rq
unfolding match_queries
match_queries_sound pq rq h = elim (Bool-cases (is_empty rq)) [
  | inl e ↦ absurd (ground arith)
  | inr e ↦
      let (ps, hp, rest) = >>=-eq-ok (parse_query pq) _ (rw (e, match_queries) at h) in
      let (qs, hq, same) = >>=-eq-ok (parse_query rq) _ rest in
      (
        (is_empty_iff rq).0 e,
        (ps, qs, hp, hq, ground arith, params_match_sound ps qs (ground arith)),
      )
]

match_queries_complete : (pq rq : Bytes) → QueriesMatch pq rq → match_queries pq rq ≡ ok true
unfolding match_queries
match_queries_complete pq rq (ne, (ps, qs, hp, hq, size, m)) =
    rw ((is_empty_iff rq).1 ne, hp, hq, size, ==_refl (length qs), params_match_complete ps qs m)
      refl

match_rest_iff :
    (pattern : Bytes) (o : Option ℕ) (rq : Bytes)
    → (match_rest pattern o rq ≡ ok true) ↔ QueryMatches pattern o rq
unfolding match_rest
match_rest_iff pattern none rq = (λ e. tt, λ t. refl)
match_rest_iff pattern (some pos) rq = (
  match_queries_sound (drop (suc pos) pattern) rq,
  match_queries_complete (drop (suc pos) pattern) rq,
)

if_iff :
    {P Q : Type 0} (b : Bool) (m : Result Bool)
    → (b ≡ true) ↔ P
    → (m ≡ ok true) ↔ Q
    → ((if b then m else ok false) ≡ ok true) ↔ (P × Q)
if_iff true m p q = (λ e. (p.0 refl, q.0 e), λ (x, y). q.1 y)
if_iff false m p q = (λ e. cc, λ (x, y). absurd (false≢true (p.1 x)))

-- `match_path` accepts exactly the paths that match the pattern by what `split_path` and `parse_query`
-- give for both.
pub match_path_split_iff :
    (pattern path : Bytes) → (match_path pattern path ≡ ok true) ↔ SplitMatches pattern path
unfolding match_path
match_path_split_iff pattern path =
    let pps = split_path (path_of pattern (find b'?' pattern)) in
    let rps = split_path (path_of path (find b'?' path)) in
    if_iff (length pps == length rps && parts_match (zip pps rps)) _ (parts_match_iff pps rps)
      (match_rest_iff pattern (find b'?' pattern) (query_of path (find b'?' path)))
