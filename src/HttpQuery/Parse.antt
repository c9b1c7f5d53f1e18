-- ===== src/HttpQuery/Parse.antt =====
-- server/HttpQuery.cpp: `parse_from_string` on request lines that are made from a template.
use web_library.Base.{
  ◌+◌, ◌<◌, ◌^◌, List, [], ◌∷◌, ◌++◌, Option, none, some, Bytes, codes, length, ==_refl, find_str,
  sub64, if◌then◌else◌, ok, ◌>>=◌, lookup, lookup-emplace, or_else, bytes_eq, All, All-append, map,
  join, Lacks, find-append, ◌≡◌, ◌≢◌, refl, sym, ap, ◌∙◌, arith, append_assoc, append-nil,
  length-append, take-length, drop_after,
}
use web_library.HttpQuery.{
  HttpQuery, no_query, put, view, bind_all, parse_from_string, get_query, or_empty,
}
use web_library.HttpQuery.Parts.{
  Part, Pair, in_template, in_path, pair_in_template, pair_in_path, part_names, pair_names,
  part_values, pair_values, store_values, store_values-append, IsPart, IsPair, split-join,
  Lacks-join, parts-Lacks, All-fst, pairs-Lacks, split_pairs, template_pair-ne, path_pair-ne,
  template_path-ne, template_text, target_text, zip-map,
}
use web_library.HttpQuery.Steps.{bind_path-parts, bind_query-pairs}
use web_library.Utils.{to_lowercase_str}

abbrev pub values : List Part → List Pair → List (Bytes × Bytes)
values ps kvs = part_values ps ++ pair_values kvs

bind_all-built :
    (ps : List Part) (kvs : List Pair) (names : List Bytes) (q : HttpQuery)
    → All IsPart ps
    → All IsPair kvs
    → join (codes "/") (map in_path ps) ≢ []
    → bind_all
        (template_text ps kvs)
        (target_text ps kvs)
        (part_names ps ++ (pair_names kvs ++ names), q)
      ≡ ok (names, store_values (values ps kvs) q)
unfolding bind_all
bind_all-built ps kvs names q hp hk ne =
    let (tps, pps) = parts-Lacks ps hp in
    let (t_slash, t_ques) = All-fst _ _ (map in_template ps) tps in
    let (p_slash, p_ques) = All-fst _ _ (map in_path ps) pps in
    let (t_amp, p_amp) = pairs-Lacks kvs hk in
    let t = join (codes "/") (map in_template ps) in
    let p = join (codes "/") (map in_path ps) in
    let tq = join (codes "&") (map pair_in_template kvs) in
    let pq = join (codes "&") (map pair_in_path kvs) in
    rw
      (
        find-append b'?' t tq (Lacks-join b'?' b'/' (map in_template ps) (omega arith) t_ques),
        find-append b'?' p pq (Lacks-join b'?' b'/' (map in_path ps) (omega arith) p_ques),
        take-length t (b'?' ∷ tq),
        take-length p (b'?' ∷ pq),
        drop_after t b'?' tq,
        drop_after p b'?' pq,
        split-join b'/' (map in_template ps) t_slash (template_path-ne ps ne),
        split-join b'/' (map in_path ps) p_slash ne,
        zip-map in_template in_path ps,
        ==_refl (length (map in_path ps)),
        bind_path-parts ps (pair_names kvs ++ names) q hp,
        split_pairs pair_in_template kvs t_amp template_pair-ne,
        split_pairs pair_in_path kvs p_amp path_pair-ne,
        zip-map pair_in_template pair_in_path kvs,
        ==_refl (length (map pair_in_path kvs)),
        bind_query-pairs kvs names (store_values (part_values ps) q) hk,
        store_values-append (part_values ps) (pair_values kvs) q,
      )
      refl

-- What stands in front of the first "HTTP": the method, a space, the target and a space.
abbrev pub before_version : Bytes → List Part → List Pair → Bytes
before_version method ps kvs = method ++ 32 ∷ b'/' ∷ (target_text ps kvs ++ 32 ∷ [])

-- The first match for `lookup` in a list of assignments.
abbrev pub first_assigned : Bytes → List (Bytes × Bytes) → Option Bytes
first_assigned k [] = none
first_assigned k ((name, value) ∷ vs) = if bytes_eq name k then some value else first_assigned k vs

lookup-store_values :
    (k : Bytes) (vs : List (Bytes × Bytes)) (q : HttpQuery)
    → lookup k (store_values vs q).parameters
      ≡ or_else (lookup k q.parameters) (first_assigned k vs)
lookup-store_values k [] q = ground arith
lookup-store_values k ((name, value) ∷ vs) q =
    ground
      (arith, lookup-store_values k vs (put name value q), lookup-emplace name k value q.parameters)

view_target :
    (front target rest : Bytes)
    → length (front ++ b'/' ∷ (target ++ 32 ∷ rest)) < 2 ^ 64
    → view
        (front ++ b'/' ∷ (target ++ 32 ∷ rest))
        (length front + 1)
        (sub64 (sub64 (length front + length target + 2) (length front)) 2)
      ≡ ok target
unfolding view
view_target front target rest bound = ground (
  arith,
  drop_after front b'/' (target ++ 32 ∷ rest),
  take-length target (32 ∷ rest),
  length-append front (b'/' ∷ (target ++ 32 ∷ rest)),
  length-append target (32 ∷ rest),
)

parse_step :
    (front target rest : Bytes) (names : List Bytes) (template : Bytes) (q : HttpQuery)
    → Lacks b'/' front
    → names ≢ []
    → find_str (codes "HTTP") (front ++ b'/' ∷ (target ++ 32 ∷ rest))
      ≡ some (length front + length target + 2)
    → length (front ++ b'/' ∷ (target ++ 32 ∷ rest)) < 2 ^ 64
    → parse_from_string (front ++ b'/' ∷ (target ++ 32 ∷ rest)) names (b'/' ∷ template) q
      ≡ (bind_all template target (names, q) >>= λ b. ok b.1)
unfolding parse_from_string
parse_step front target rest [] template q hf ne version bound = absurd (ne refl)
parse_step front target rest (name ∷ names) template q hf ne version bound =
    rw
      (
        find-append b'/' front (target ++ 32 ∷ rest) hf,
        version,
        view_target front target rest bound,
      )
      refl

parse_built :
    (method : Bytes) (ps : List Part) (kvs : List Pair) (rest : Bytes)
    → Lacks b'/' method
    → All IsPart ps
    → All IsPair kvs
    → join (codes "/") (map in_path ps) ≢ []
    → part_names ps ++ pair_names kvs ≢ []
    → find_str (codes "HTTP") (before_version method ps kvs ++ rest)
      ≡ some (length (before_version method ps kvs))
    → length (before_version method ps kvs ++ rest) < 2 ^ 64
    → parse_from_string
        (before_version method ps kvs ++ rest)
        (part_names ps ++ pair_names kvs)
        (b'/' ∷ template_text ps kvs)
        no_query
      ≡ ok (store_values (values ps kvs) no_query)
parse_built method ps kvs rest hm hp hk ne declared version bound =
    let front = method ++ 32 ∷ [] in
    let target = target_text ps kvs in
    let names = part_names ps ++ pair_names kvs in
    let tail = target ++ 32 ∷ rest in
    let shape : before_version method ps kvs ++ rest ≡ front ++ b'/' ∷ tail =
      append_assoc method (32 ∷ b'/' ∷ (target ++ 32 ∷ [])) rest
      ∙ ap (λ t. method ++ 32 ∷ b'/' ∷ t) (append_assoc target (32 ∷ []) rest)
      ∙ sym (append_assoc method (32 ∷ []) (b'/' ∷ tail)) in
    let size : length (before_version method ps kvs) ≡ length front + length target + 2 = omega (
      arith,
      length-append method (32 ∷ b'/' ∷ (target ++ 32 ∷ [])),
      length-append target (32 ∷ []),
      length-append method (32 ∷ []),
    ) in
    let bound' : length (front ++ b'/' ∷ tail) < 2 ^ 64 = rw (← shape) bound in
    let version' : find_str (codes "HTTP") (front ++ b'/' ∷ tail)
        ≡ some (length front + length target + 2) =
      ap (find_str (codes "HTTP")) (sym shape) ∙ version ∙ ap some size in
    let bind_names : bind_all (template_text ps kvs) target (names, no_query)
        ≡ ok ([], store_values (values ps kvs) no_query) =
      ap (λ t. bind_all (template_text ps kvs) target (part_names ps ++ t, no_query))
        (sym (append-nil (pair_names kvs)))
      ∙ bind_all-built ps kvs [] no_query hp hk ne in
    rw
      (
        shape,
        parse_step front target rest names (template_text ps kvs) no_query
            (All-append _ method (32 ∷ []) hm (omega arith, tt)) declared version' bound',
        bind_names,
      )
      refl

-- A request whose target is made from a template is parsed, if its first "HTTP" is that of the version.
-- A lookup then gives, for the lower-case form of the name that is asked for, the first value assigned
-- to it: a hole of the path or the query assigns the request's value to its name, and a fixed pair of
-- the query the request's value to the request's key; it gives the empty text if there is none. The
-- template's names are those that the endpoint declares, in their order; at least one is declared; the
-- part of the path is not empty; the parts and pairs hold none of the separators '/', '?', '&' and '='
-- that delimit them; no '{' stands in a fixed part or value of the template; the method holds no '/';
-- and the request is shorter than 2^64 bytes.
pub get_query-parse_from_string :
    (method : Bytes) (ps : List Part) (kvs : List Pair) (rest query : Bytes)
    → Lacks b'/' method
    → All IsPart ps
    → All IsPair kvs
    → join (codes "/") (map in_path ps) ≢ []
    → part_names ps ++ pair_names kvs ≢ []
    → find_str (codes "HTTP") (before_version method ps kvs ++ rest)
      ≡ some (length (before_version method ps kvs))
    → length (before_version method ps kvs ++ rest) < 2 ^ 64
    → (q : HttpQuery) × (parse_from_string
          (before_version method ps kvs ++ rest)
          (part_names ps ++ pair_names kvs)
          (b'/' ∷ template_text ps kvs)
          no_query
        ≡ ok q)
      × (get_query query q
          ≡ record { content = or_empty (first_assigned (to_lowercase_str query) (values ps kvs)) })
unfolding get_query lookup
get_query-parse_from_string method ps kvs rest query hm hp hk ne declared version bound = (
  store_values (values ps kvs) no_query,
  parse_built method ps kvs rest hm hp hk ne declared version bound,
  ap (λ (o : Option Bytes). record { content = or_empty o })
      (lookup-store_values (to_lowercase_str query) (values ps kvs) no_query),
)
