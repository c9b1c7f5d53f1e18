-- ===== src/HttpQuery/Parts.antt =====
-- Templates of endpoints and targets of requests, part by part, with the names and values in them.
use web_library.Base.{
  ℕ, suc, List, [], ◌∷◌, ◌++◌, Bytes, codes, length, split, All, All-append, map, join, Lacks,
  fields-join, split-fields, ◌≡◌, ◌≢◌, refl, ap, ◌∙◌, arith,
}
use web_library.HttpQuery.{HttpQuery, put}

-- A part of a path: a text that stands in the template too, or a hole with its name and its value.
pub data Part : Type 0 where
  fixed : Bytes → Part
  hole : Bytes → Bytes → Part

-- A pair of a query: a key of the template and a key of the request, with a value or a hole.
pub data Pair : Type 0 where
  fixed_pair : Bytes → Bytes → Bytes → Bytes → Pair
  hole_pair : Bytes → Bytes → Bytes → Bytes → Pair

abbrev pub braced : Bytes → Bytes
braced name = b'{' ∷ (name ++ b'}' ∷ [])

abbrev pub in_template : Part → Bytes
in_template (fixed text) = text
in_template (hole name value) = braced name

abbrev pub in_path : Part → Bytes
in_path (fixed text) = text
in_path (hole name value) = value

abbrev pub equation : Bytes → Bytes → Bytes
equation k v = k ++ b'=' ∷ v

abbrev pub pair_in_template : Pair → Bytes
pair_in_template (fixed_pair t_key t_value key value) = equation t_key t_value
pair_in_template (hole_pair t_key name key value) = equation t_key (braced name)

abbrev pub pair_in_path : Pair → Bytes
pair_in_path (fixed_pair t_key t_value key value) = equation key value
pair_in_path (hole_pair t_key name key value) = equation key value

abbrev pub part_names : List Part → List Bytes
part_names [] = []
part_names (fixed text ∷ ps) = part_names ps
part_names (hole name value ∷ ps) = name ∷ part_names ps

abbrev pub pair_names : List Pair → List Bytes
pair_names [] = []
pair_names (fixed_pair t_key t_value key value ∷ ps) = pair_names ps
pair_names (hole_pair t_key name key value ∷ ps) = name ∷ pair_names ps

-- What each part and pair assigns, in their order: a hole its value to its name, a fixed pair of the
-- query the request's value to the request's key.
abbrev pub part_values : List Part → List (Bytes × Bytes)
part_values [] = []
part_values (fixed text ∷ ps) = part_values ps
part_values (hole name value ∷ ps) = (name, value) ∷ part_values ps

abbrev pub pair_values : List Pair → List (Bytes × Bytes)
pair_values [] = []
pair_values (fixed_pair t_key t_value key value ∷ ps) = (key, value) ∷ pair_values ps
pair_values (hole_pair t_key name key value ∷ ps) = (name, value) ∷ pair_values ps

abbrev pub store_values : List (Bytes × Bytes) → HttpQuery → HttpQuery
store_values [] q = q
store_values ((name, value) ∷ values) q = store_values values (put name value q)

pub store_values-append :
    (xs ys : List (Bytes × Bytes)) (q : HttpQuery)
    → store_values (xs ++ ys) q ≡ store_values ys (store_values xs q)
store_values-append [] ys q = refl
store_values-append ((n, v) ∷ xs) ys q = store_values-append xs ys (put n v q)

-- Neither separator of the path, and for a fixed part no '{'.
abbrev pub IsPathText : Bytes → Type 0
IsPathText s = Lacks b'/' s × Lacks b'?' s

abbrev pub IsPart : Part → Type 0
IsPart (fixed text) = IsPathText text × Lacks b'{' text
IsPart (hole name value) = IsPathText name × IsPathText value

abbrev pub IsQueryText : Bytes → Type 0
IsQueryText s = Lacks b'&' s × Lacks b'=' s

abbrev pub IsPair : Pair → Type 0
IsPair (fixed_pair t_key t_value key value) =
    IsQueryText t_key
    × IsQueryText t_value
    × IsQueryText key
    × IsQueryText value
    × Lacks b'{' t_value
IsPair (hole_pair t_key name key value) =
    IsQueryText t_key × IsQueryText name × IsQueryText key × IsQueryText value

pub append-cons-ne-nil : (s : Bytes) (c : ℕ) (t : Bytes) → s ++ c ∷ t ≢ []
append-cons-ne-nil [] c t = cc
append-cons-ne-nil (x ∷ s) c t = cc

pub braced-IsQueryText : (name : Bytes) → IsQueryText name → IsQueryText (braced name)
braced-IsQueryText name (a, b) = (
  (omega arith, All-append _ name (b'}' ∷ []) a (omega arith, tt)),
  (omega arith, All-append _ name (b'}' ∷ []) b (omega arith, tt)),
)

pub split-join :
    (c : ℕ) (ps : List Bytes)
    → All (Lacks c) ps
    → join (c ∷ []) ps ≢ []
    → split c (join (c ∷ []) ps) ≡ ps
split-join c [] h ne = absurd (ne refl)
split-join c (p ∷ ps) h ne = split-fields c (join (c ∷ []) (p ∷ ps)) ne ∙ fields-join c p ps h

pub Lacks-join : (c d : ℕ) (ps : List Bytes) → d ≢ c → All (Lacks c) ps → Lacks c (join (d ∷ []) ps)
Lacks-join c d [] ne h = tt
Lacks-join c d (p ∷ []) ne h = h.0
Lacks-join c d (p ∷ q ∷ ps) ne h =
    All-append _ p (d ∷ join (d ∷ []) (q ∷ ps)) h.0 (ne, Lacks-join c d (q ∷ ps) ne h.1)

pub braced-IsPathText : (name : Bytes) → IsPathText name → IsPathText (braced name)
braced-IsPathText name (a, b) = (
  (omega arith, All-append _ name (b'}' ∷ []) a (omega arith, tt)),
  (omega arith, All-append _ name (b'}' ∷ []) b (omega arith, tt)),
)

pub parts-Lacks :
    (ps : List Part)
    → All IsPart ps
    → All IsPathText (map in_template ps) × All IsPathText (map in_path ps)
parts-Lacks [] h = (tt, tt)
parts-Lacks (fixed text ∷ ps) (g, h) = let (a, b) = parts-Lacks ps h in ((g.0, a), (g.0, b))
parts-Lacks (hole name value ∷ ps) (g, h) =
    let (a, b) = parts-Lacks ps h in ((braced-IsPathText name g.0, a), (g.1, b))

pub All-fst :
    (P Q : Bytes → Type 0) (ps : List Bytes) → All (λ p. P p × Q p) ps → All P ps × All Q ps
All-fst P Q [] h = (tt, tt)
All-fst P Q (p ∷ ps) ((a, b), h) = let (x, y) = All-fst P Q ps h in ((a, x), (b, y))

pub equation-Lacks : (k v : Bytes) → IsQueryText k → IsQueryText v → Lacks b'&' (equation k v)
equation-Lacks k v hk hv = All-append _ k (b'=' ∷ v) hk.0 (omega arith, hv.0)

pub pairs-Lacks :
    (ps : List Pair)
    → All IsPair ps
    → All (Lacks b'&') (map pair_in_template ps) × All (Lacks b'&') (map pair_in_path ps)
pairs-Lacks [] h = (tt, tt)
pairs-Lacks (fixed_pair t_key t_value key value ∷ ps) ((a, b, c, d, e), h) =
    let (x, y) = pairs-Lacks ps h in
    ((equation-Lacks t_key t_value a b, x), (equation-Lacks key value c d, y))
pairs-Lacks (hole_pair t_key name key value ∷ ps) ((a, b, c, d), h) =
    let (x, y) = pairs-Lacks ps h in
    (
      (equation-Lacks t_key (braced name) a (braced-IsQueryText name b), x),
      (equation-Lacks key value c d, y),
    )

pub split_pairs :
    (f : Pair → Bytes) (ps : List Pair)
    → All (Lacks b'&') (map f ps)
    → ((p : Pair) → f p ≢ [])
    → split b'&' (join (b'&' ∷ []) (map f ps)) ≡ map f ps
unfolding split
split_pairs f [] h ne = refl
split_pairs f (p ∷ []) h ne = split-join b'&' (f p ∷ []) h (ne p)
split_pairs f (p ∷ q ∷ ps) h ne =
    split-join b'&' (map f (p ∷ q ∷ ps)) h
      (append-cons-ne-nil (f p) b'&' (join (b'&' ∷ []) (map f (q ∷ ps))))

pub template_pair-ne : (p : Pair) → pair_in_template p ≢ []
template_pair-ne (fixed_pair t_key t_value key value) = append-cons-ne-nil t_key b'=' t_value
template_pair-ne (hole_pair t_key name key value) = append-cons-ne-nil t_key b'=' (braced name)

pub path_pair-ne : (p : Pair) → pair_in_path p ≢ []
path_pair-ne (fixed_pair t_key t_value key value) = append-cons-ne-nil key b'=' value
path_pair-ne (hole_pair t_key name key value) = append-cons-ne-nil key b'=' value

pub template_path-ne :
    (ps : List Part)
    → join (codes "/") (map in_path ps) ≢ []
    → join (codes "/") (map in_template ps) ≢ []
template_path-ne [] h = h
template_path-ne (fixed text ∷ []) h = h
template_path-ne (hole name value ∷ []) h = cc
template_path-ne (p ∷ q ∷ ps) h =
    append-cons-ne-nil (in_template p) b'/' (join (codes "/") (map in_template (q ∷ ps)))

-- A template and the target of a request, behind the first '/'.
abbrev pub template_text : List Part → List Pair → Bytes
template_text ps kvs =
    join (codes "/") (map in_template ps) ++ b'?' ∷ join (codes "&") (map pair_in_template kvs)

abbrev pub target_text : List Part → List Pair → Bytes
target_text ps kvs =
    join (codes "/") (map in_path ps) ++ b'?' ∷ join (codes "&") (map pair_in_path kvs)

pub zip-map {ℓ} :
    {A : Type ℓ} (f g : A → Bytes) (xs : List A) → length (map f xs) ≡ length (map g xs)
zip-map f g [] = refl
zip-map f g (x ∷ xs) = ap suc (zip-map f g xs)
