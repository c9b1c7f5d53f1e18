-- ===== src/HttpBinder/Query.antt =====
-- include/weblib/server/HttpBinder.hpp: `parse_query` against the parameters of a query, told without it.
use web_library.Base.{
  ℕ, List, [], ◌∷◌, ◌++◌, Bytes, Lacks, All, split, fields, fields-Lacks, fields-append,
  fields_snoc, join, join-fields, fields_nonempty, split-fields, ok, >>=-eq-ok, Dict, emplace,
  append_assoc, ◌≡◌, ◌≢◌, ◌↔◌, refl, sym, ap, subst, ◌∙◌,
}
use web_library.HttpBinder.{last, emplace_pair, emplace_pairs, parse_query}

-- A pair of a query, with its key and its value: the text in front of its first '=' and the text behind
-- its last one, or twice the whole text, which is not empty.
pub data PairOf : Bytes → Bytes → Bytes → Type 0 where
  no_equals : {text : Bytes} → text ≢ [] → Lacks b'=' text → PairOf text text text
  one_equals :
      {key value : Bytes}
      → Lacks b'=' key
      → Lacks b'=' value
      → PairOf (key ++ b'=' ∷ value) key value
  more_equals :
      {key value : Bytes} (middle : Bytes)
      → Lacks b'=' key
      → Lacks b'=' value
      → PairOf (key ++ b'=' ∷ (middle ++ b'=' ∷ value)) key value

-- The pairs of a query, in order, with a '&' between each two; an empty query has none.
pub data PairsOf : Bytes → List (Bytes × Bytes) → Type 0 where
  no_pair : PairsOf [] []
  last_pair :
      {text key value : Bytes}
      → Lacks b'&' text
      → PairOf text key value
      → PairsOf text ((key, value) ∷ [])
  pair_first :
      {text key value query : Bytes} {pairs : List (Bytes × Bytes)}
      → Lacks b'&' text
      → PairOf text key value
      → query ≢ []
      → PairsOf query pairs
      → PairsOf (text ++ b'&' ∷ query) ((key, value) ∷ pairs)

-- std::unordered_map::emplace of each pair: the first of a key stays.
abbrev pub entered : List (Bytes × Bytes) → Dict Bytes → Dict Bytes
entered [] params = params
entered ((key, value) ∷ pairs) params = entered pairs (emplace key value params)

abbrev pub ParamsOf : Bytes → Dict Bytes → Type 0
ParamsOf query params =
    (pairs : List (Bytes × Bytes)) × PairsOf query pairs × (params ≡ entered pairs [])

cut-ne-nil : (front : Bytes) (c : ℕ) (back : Bytes) → front ++ c ∷ back ≢ []
cut-ne-nil [] c back = λ e. cc
cut-ne-nil (x ∷ front) c back = λ e. cc

PairOf-ne : {text key value : Bytes} → PairOf text key value → text ≢ []
PairOf-ne (no_equals ne l) = ne
PairOf-ne (one_equals {key} {value} l l') = cut-ne-nil key b'=' value
PairOf-ne (more_equals {key} {value} m l l') = cut-ne-nil key b'=' (m ++ b'=' ∷ value)

last-snoc : (x : Bytes) (xs : List Bytes) (y : Bytes) → last x (xs ++ y ∷ []) ≡ y
unfolding last
last-snoc x [] y = refl
last-snoc x (z ∷ xs) y = last-snoc z xs y

PairOf-fields :
    {text key value : Bytes}
    → PairOf text key value
    → (rest : List Bytes) × (fields b'=' text ≡ key ∷ rest) × (last key rest ≡ value)
unfolding last
PairOf-fields (no_equals {text} ne l) = ([], fields-Lacks b'=' text l, refl)
PairOf-fields (one_equals {key} {value} l l') = (
  value ∷ [],
  fields-append b'=' key value l ∙ ap (λ t. key ∷ t) (fields-Lacks b'=' value l'),
  refl,
)
PairOf-fields (more_equals {key} {value} m l l') = (
  fields b'=' m ++ value ∷ [],
  fields-append b'=' key (m ++ b'=' ∷ value) l ∙ ap (λ t. key ∷ t) (fields_snoc b'=' m value l'),
  last-snoc key (fields b'=' m) value,
)

PairOf-emplace_pair :
    {text key value : Bytes} (params : Dict Bytes)
    → PairOf text key value
    → emplace_pair (split b'=' text) params ≡ ok (emplace key value params)
unfolding emplace_pair
PairOf-emplace_pair {text} {key} {value} params h =
    let (rest, e, at_end) = PairOf-fields h in
    rw (split-fields b'=' text (PairOf-ne h), e, emplace_pair, at_end) refl

PairsOf-emplace_pairs :
    {query : Bytes} {pairs : List (Bytes × Bytes)} (params : Dict Bytes)
    → PairsOf query pairs
    → emplace_pairs (split b'&' query) params ≡ ok (entered pairs params)
unfolding emplace_pairs split
PairsOf-emplace_pairs params no_pair = refl
PairsOf-emplace_pairs params (last_pair {text} l h) =
    rw
      (
        split-fields b'&' text (PairOf-ne h),
        fields-Lacks b'&' text l,
        emplace_pairs,
        PairOf-emplace_pair params h,
      )
      refl
PairsOf-emplace_pairs params (pair_first {text} {key} {value} {query} l h ne more) =
    let filled = cut-ne-nil text b'&' query in
    let ih = PairsOf-emplace_pairs (emplace key value params) more in
    let ih' = rw (split-fields b'&' query ne) at ih in
    rw
      (
        split-fields b'&' (text ++ b'&' ∷ query) filled,
        fields-append b'&' text query l,
        emplace_pairs,
        PairOf-emplace_pair params h,
      )
      ih'

-- The text in front of the last separator.
join-last :
    (c : ℕ) (x y : Bytes) (ys : List Bytes)
    → (front : Bytes) × (join (c ∷ []) (x ∷ y ∷ ys) ≡ front ++ c ∷ last y ys)
unfolding last
join-last c x y [] = (x, refl)
join-last c x y (z ∷ ys) =
    let (front, e) = join-last c y z ys in
    (x ++ c ∷ front, ap (λ t. x ++ c ∷ t) e ∙ sym (append_assoc x (c ∷ front) (c ∷ last z ys)))

last-Lacks : (c : ℕ) (x : Bytes) (xs : List Bytes) → All (Lacks c) (x ∷ xs) → Lacks c (last x xs)
unfolding last
last-Lacks c x [] h = h.0
last-Lacks c x (y ∷ xs) h = last-Lacks c y xs h.1

join-PairOf :
    (key : Bytes) (rest : List Bytes)
    → All (Lacks b'=') (key ∷ rest)
    → join (b'=' ∷ []) (key ∷ rest) ≢ []
    → PairOf (join (b'=' ∷ []) (key ∷ rest)) key (last key rest)
unfolding last
join-PairOf key [] h ne = no_equals ne h.0
join-PairOf key (value ∷ []) h ne = one_equals h.0 h.1.0
join-PairOf key (x ∷ y ∷ rest) h ne =
    let (front, e) = join-last b'=' x y rest in
    subst (λ t. PairOf (key ++ b'=' ∷ t) key (last y rest)) (sym e)
      (more_equals front h.0 (last-Lacks b'=' y rest h.1.1))

emplace_pair-PairOf :
    (text : Bytes) (params : Dict Bytes) {params' : Dict Bytes}
    → emplace_pair (split b'=' text) params ≡ ok params'
    → (key : Bytes) × (value : Bytes) × PairOf text key value × (params' ≡ emplace key value params)
unfolding emplace_pair split
emplace_pair-PairOf [] params h = absurd (cc)
emplace_pair-PairOf (c ∷ text) params {params'} h =
    let (key, rest, e) = fields_nonempty b'=' (c ∷ text) in
    let (joined, good) = join-fields b'=' (c ∷ text) in
    let whole : join (b'=' ∷ []) (key ∷ rest) ≡ c ∷ text = ap (join (b'=' ∷ [])) (sym e) ∙ joined in
    let filled : join (b'=' ∷ []) (key ∷ rest) ≢ [] = λ none_left. cc in
    let pair = join-PairOf key rest (subst (All (Lacks b'=')) e good) filled in
    let h' : ok (emplace key (last key rest) params) ≡ ok params' =
      ap (λ t. emplace_pair t params) (sym e) ∙ h in
    (key, last key rest, subst (λ t. PairOf t key (last key rest)) whole pair, cc)

emplace_pairs-PairsOf :
    (p : Bytes) (ps : List Bytes) (params : Dict Bytes) {params' : Dict Bytes}
    → All (Lacks b'&') (p ∷ ps)
    → emplace_pairs (p ∷ ps) params ≡ ok params'
    → (pairs : List (Bytes × Bytes)) × PairsOf (join (b'&' ∷ []) (p ∷ ps)) pairs
      × (params' ≡ entered pairs params)
      × (join (b'&' ∷ []) (p ∷ ps) ≢ [])
unfolding emplace_pairs
emplace_pairs-PairsOf p [] params good h =
    let (mid, first, more) = >>=-eq-ok (emplace_pair (split b'=' p) params) _ h in
    let (key, value, pair, put) = emplace_pair-PairOf p params first in
    ((key, value) ∷ [], last_pair good.0 pair, cc, PairOf-ne pair)
emplace_pairs-PairsOf p (q ∷ ps) params {params'} good h =
    let (mid, first, more) = >>=-eq-ok (emplace_pair (split b'=' p) params) _ h in
    let (key, value, pair, put) = emplace_pair-PairOf p params first in
    let (pairs, read, collected, filled) = emplace_pairs-PairsOf q ps mid good.1 more in
    let query = join (b'&' ∷ []) (q ∷ ps) in
    (
      (key, value) ∷ pairs,
      pair_first good.0 pair filled read,
      collected ∙ ap (entered pairs) put,
      cut-ne-nil p b'&' query,
    )

parse_query-ParamsOf :
    (query : Bytes) (params : Dict Bytes) → parse_query query ≡ ok params → ParamsOf query params
unfolding parse_query split emplace_pairs
parse_query-ParamsOf [] params h = ([], no_pair, cc)
parse_query-ParamsOf (c ∷ query) params h =
    let (p, ps, e) = fields_nonempty b'&' (c ∷ query) in
    let (joined, good) = join-fields b'&' (c ∷ query) in
    let whole : join (b'&' ∷ []) (p ∷ ps) ≡ c ∷ query = ap (join (b'&' ∷ [])) (sym e) ∙ joined in
    let h' : emplace_pairs (p ∷ ps) [] ≡ ok params = ap (λ t. emplace_pairs t []) (sym e) ∙ h in
    let (pairs, read, collected, filled) =
      emplace_pairs-PairsOf p ps [] (subst (All (Lacks b'&')) e good) h' in
    (pairs, subst (λ t. PairsOf t pairs) whole read, collected)

-- `parse_query` gives the parameters of its query, where the query has them: with an empty pair it does
-- not.
pub parse_query_iff :
    (query : Bytes) (params : Dict Bytes) → (parse_query query ≡ ok params) ↔ ParamsOf query params
unfolding parse_query
parse_query_iff query params = (
  parse_query-ParamsOf query params,
  λ (pairs, read, collected). PairsOf-emplace_pairs [] read ∙ ap ok (sym collected),
)
