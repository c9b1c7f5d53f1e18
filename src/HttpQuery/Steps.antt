-- ===== src/HttpQuery/Steps.antt =====
-- server/HttpQuery.cpp: the two loops of `parse_from_string` over the parts of a template.
use web_library.Base.{
  List, [], ◌∷◌, ◌++◌, true, false, Bytes, find, ok, split, zip, All, map, Lacks, find-Lacks,
  fields-join, split-fields, ◌≡◌, refl,
}
use web_library.HttpQuery.{
  HttpQuery, put, bind_next, bind_arg, bind_path, key_value, bind_pair, bind_query, has_char,
}
use web_library.HttpQuery.Parts.{
  Part, fixed, hole, Pair, fixed_pair, hole_pair, braced, in_template, in_path, equation,
  pair_in_template, pair_in_path, part_names, pair_names, part_values, pair_values, store_values,
  IsPart, IsQueryText, IsPair, append-cons-ne-nil, braced-IsQueryText,
}

pub has_char-braced : (name : Bytes) → has_char b'{' (braced name) ≡ true
unfolding has_char find
has_char-braced name = refl

pub has_char-Lacks : (s : Bytes) → Lacks b'{' s → has_char b'{' s ≡ false
unfolding has_char
has_char-Lacks s h = rw (find-Lacks b'{' s h)

pub bind_path-parts :
    (ps : List Part) (names : List Bytes) (q : HttpQuery)
    → All IsPart ps
    → bind_path (zip (map in_template ps) (map in_path ps)) (part_names ps ++ names, q)
      ≡ ok (names, store_values (part_values ps) q)
unfolding bind_path bind_arg bind_next
bind_path-parts [] names q h = refl
bind_path-parts (fixed text ∷ ps) names q h =
    rw (has_char-Lacks text h.0.1, bind_path) (bind_path-parts ps names q h.1)
bind_path-parts (hole name value ∷ ps) names q h =
    rw (has_char-braced name, bind_path) (bind_path-parts ps names (put name value q) h.1)

pub split-equation :
    (k v : Bytes)
    → IsQueryText k
    → IsQueryText v
    → key_value (split b'=' (equation k v)) ≡ ok (k, v)
unfolding key_value
split-equation k v hk hv =
    rw
      (
        split-fields b'=' (equation k v) (append-cons-ne-nil k b'=' v),
        fields-join b'=' k (v ∷ []) (hk.1, (hv.1, tt)),
      )
      refl

pub bind_query-pairs :
    (ps : List Pair) (names : List Bytes) (q : HttpQuery)
    → All IsPair ps
    → bind_query (zip (map pair_in_template ps) (map pair_in_path ps)) (pair_names ps ++ names, q)
      ≡ ok (names, store_values (pair_values ps) q)
unfolding bind_query bind_pair bind_next
bind_query-pairs [] names q h = refl
bind_query-pairs (fixed_pair t_key t_value key value ∷ ps) names q ((a, b, c, d, e), h) =
    rw (split-equation t_key t_value a b, split-equation key value c d, has_char-Lacks t_value e)
      (bind_query-pairs ps names (put key value q) h)
bind_query-pairs (hole_pair t_key name key value ∷ ps) names q ((a, b, c, d), h) =
    rw
      (
        split-equation t_key (braced name) a (braced-IsQueryText name b),
        split-equation key value c d,
        has_char-braced name,
      )
      (bind_query-pairs ps names (put name value q) h)
