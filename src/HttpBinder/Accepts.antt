-- ===== src/HttpBinder/Accepts.antt =====
-- include/weblib/server/HttpBinder.hpp: the paths that `match_path` accepts, told without its helpers.
use web_library.Base.{
  take-length, drop_after, ℕ, suc, List, [], ◌∷◌, ◌++◌, Option, true, none, some, Bytes, Lacks,
  take, drop, length, find, find-Lacks, Lacks-find, find-append, find_split, Option-cases, Dict, ok,
  ◌≡◌, ◌≢◌, ◌↔◌, inl, inr, refl, sym, ap, subst, ◌∙◌,
}
use web_library.HttpBinder.{split_path, path_of, query_of, match_path}
use web_library.HttpBinder.Match.{PartsMatch, ParamsMatch, QueryMatches, match_path_split_iff}
use web_library.HttpBinder.Parts.{PartsOf, split_path_iff}
use web_library.HttpBinder.Query.{ParamsOf, parse_query_iff}

-- A text with the path in front of its first '?' and the query behind it, if it has one.
pub data Cut : Bytes → Bytes → Option Bytes → Type 0 where
  no_query : {text : Bytes} → Lacks b'?' text → Cut text text none
  with_query : {path query : Bytes} → Lacks b'?' path → Cut (path ++ b'?' ∷ query) path (some query)

-- A pattern with no query asks for none. Else a query is given that is not empty, with as many
-- parameters as the pattern's, and they match.
abbrev pub QueryFollows : Option Bytes → Option Bytes → Type 0
QueryFollows none given = Unit
QueryFollows (some query) none = ⊥
QueryFollows (some query) (some given) =
    (given ≢ [])
    × ((params : Dict Bytes) × (given_params : Dict Bytes) × ParamsOf query params
        × ParamsOf given given_params
        × (length params ≡ length given_params)
        × ParamsMatch params given_params)

abbrev pub PathFollows : Bytes → Bytes → Type 0
PathFollows pattern_path path_path =
    (pattern_parts : List Bytes) × (path_parts : List Bytes) × PartsOf pattern_path pattern_parts
    × PartsOf path_path path_parts
    × PartsMatch pattern_parts path_parts

abbrev pub Matches : Bytes → Bytes → Type 0
Matches pattern path =
    (pattern_path : Bytes) × (pattern_query : Option Bytes) × (path_path : Bytes)
    × (path_query : Option Bytes) × Cut pattern pattern_path pattern_query
    × Cut path path_path path_query
    × PathFollows pattern_path path_path
    × QueryFollows pattern_query path_query

abbrev behind : Bytes → Option ℕ → Option Bytes
behind text none = none
behind text (some n) = some (drop (suc n) text)

Cut-find :
    {text path : Bytes} {query : Option Bytes}
    → Cut text path query
    → (path_of text (find b'?' text) ≡ path) × (behind text (find b'?' text) ≡ query)
Cut-find (no_query {text} l) =
    let e = find-Lacks b'?' text l in (ap (path_of text) e, ap (behind text) e)
Cut-find (with_query {path} {query} l) =
    let e = find-append b'?' path query l in
    let text = path ++ b'?' ∷ query in
    (
      ap (path_of text) e ∙ take-length path (b'?' ∷ query),
      ap (behind text) e ∙ ap some (drop_after path b'?' query),
    )

find-Cut : (text : Bytes) → Cut text (path_of text (find b'?' text)) (behind text (find b'?' text))
find-Cut text = elim (Option-cases (find b'?' text)) [
  | inl e ↦ rw e (no_query (Lacks-find b'?' text e))
  | inr (n, e) ↦
      let (l, shape) = find_split b'?' text n e in
      let cut = with_query {path = take n text} {query = drop (suc n) text} l in
      rw e (subst (λ t. Cut t (take n text) (some (drop (suc n) text))) (sym shape) cut)
]

QueryFollows-sound :
    (pattern path : Bytes) (o o' : Option ℕ)
    → QueryMatches pattern o (query_of path o')
    → QueryFollows (behind pattern o) (behind path o')
QueryFollows-sound pattern path none o' h = tt
QueryFollows-sound pattern path (some n) none h = h.0 refl
QueryFollows-sound pattern path (some n) (some k) (ne, (ps, qs, hp, hq, size, params)) = (
  ne,
  (
    ps,
    qs,
    (parse_query_iff (drop (suc n) pattern) ps).0 hp,
    (parse_query_iff (drop (suc k) path) qs).0 hq,
    size,
    params,
  ),
)

QueryFollows-complete :
    (pattern path : Bytes) (o o' : Option ℕ)
    → QueryFollows (behind pattern o) (behind path o')
    → QueryMatches pattern o (query_of path o')
QueryFollows-complete pattern path none o' h = tt
QueryFollows-complete pattern path (some n) none h = absurd h
QueryFollows-complete pattern path (some n) (some k) (ne, (ps, qs, hp, hq, size, params)) = (
  ne,
  (
    ps,
    qs,
    (parse_query_iff (drop (suc n) pattern) ps).1 hp,
    (parse_query_iff (drop (suc k) path) qs).1 hq,
    size,
    params,
  ),
)

-- `match_path` accepts exactly the paths that match the pattern. Both are cut at their first '?' into a
-- path and a query. The parts of the path between the slashes, empty ones left out, are as many as the
-- pattern's, and each is the pattern's part or stands for a "{}". If the pattern has a query, so has the
-- path, it is not empty, both are pairs with a '&' between each two and none of them empty, the path's has
-- as many keys, and each key of the pattern's is given with the pattern's value or for a "{}"; the key of
-- a pair is what is in front of its first '=', the value what is behind its last one, a pair with no '='
-- is its own key and value, and of two pairs with one key the first counts.
pub match_path_iff :
    (pattern path : Bytes) → (match_path pattern path ≡ ok true) ↔ Matches pattern path
match_path_iff pattern path =
    let o = find b'?' pattern in
    let o' = find b'?' path in
    let both = match_path_split_iff pattern path in
    (
      λ h.
          let (parts, query) = both.0 h in
          (
            path_of pattern o,
            behind pattern o,
            path_of path o',
            behind path o',
            find-Cut pattern,
            find-Cut path,
            (
              split_path (path_of pattern o),
              split_path (path_of path o'),
              (split_path_iff (path_of pattern o) (split_path (path_of pattern o))).0 refl,
              (split_path_iff (path_of path o') (split_path (path_of path o'))).0 refl,
              parts,
            ),
            QueryFollows-sound pattern path o o' query,
          ),
      λ (pp, pq, rp, rq, cut, cut', (pps, rps, hp, hr, parts), query).
          let (ep, eq) = Cut-find cut in
          let (er, es) = Cut-find cut' in
          let sp = ap split_path ep ∙ (split_path_iff pp pps).1 hp in
          let sr = ap split_path er ∙ (split_path_iff rp rps).1 hr in
          let parts' : PartsMatch (split_path (path_of pattern o)) (split_path (path_of path o')) =
            rw (sp, sr) parts in
          let query' : QueryFollows (behind pattern o) (behind path o') = rw (eq, es) query in
          both.1 (parts', QueryFollows-complete pattern path o o' query'),
    )
