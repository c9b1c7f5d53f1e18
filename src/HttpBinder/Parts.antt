-- ===== src/HttpBinder/Parts.antt =====
-- include/weblib/server/HttpBinder.hpp: `split_path` against the parts of a path, told without it.
use web_library.Base.{
  List, [], ◌∷◌, ◌++◌, Bytes, Lacks, All, split, fields, fields-Lacks, fields-append, join,
  join-fields, fields_nonempty, ◌≡◌, ◌≢◌, ◌↔◌, refl, sym, ap, subst, ◌∙◌,
}
use web_library.HttpBinder.{drop_empty, split_path}

-- The parts of a path: the texts between its slashes that are not empty, in order.
pub data PartsOf : Bytes → List Bytes → Type 0 where
  ends : PartsOf [] []
  slash : {path : Bytes} {parts : List Bytes} → PartsOf path parts → PartsOf (b'/' ∷ path) parts
  last_part : {part : Bytes} → part ≢ [] → Lacks b'/' part → PartsOf part (part ∷ [])
  part_first :
      {part path : Bytes} {parts : List Bytes}
      → part ≢ []
      → Lacks b'/' part
      → PartsOf path parts
      → PartsOf (part ++ b'/' ∷ path) (part ∷ parts)

split_path-fields : (s : Bytes) → split_path s ≡ drop_empty (fields b'/' s)
unfolding split_path drop_empty split fields
split_path-fields [] = refl
split_path-fields (x ∷ s) = refl

drop_empty-cons : (p : Bytes) (ps : List Bytes) → p ≢ [] → drop_empty (p ∷ ps) ≡ p ∷ drop_empty ps
unfolding drop_empty
drop_empty-cons [] ps h = absurd (h refl)
drop_empty-cons (x ∷ p) ps h = refl

PartsOf-drop_empty :
    {path : Bytes} {parts : List Bytes} → PartsOf path parts → drop_empty (fields b'/' path) ≡ parts
unfolding drop_empty fields
PartsOf-drop_empty ends = refl
PartsOf-drop_empty (slash h) = PartsOf-drop_empty h
PartsOf-drop_empty (last_part {part} ne l) =
    rw (fields-Lacks b'/' part l) (drop_empty-cons part [] ne)
PartsOf-drop_empty (part_first {part} {path} ne l h) =
    rw (fields-append b'/' part path l)
      (drop_empty-cons part (fields b'/' path) ne ∙ ap (λ t. part ∷ t) (PartsOf-drop_empty h))

join-PartsOf :
    (p : Bytes) (ps : List Bytes)
    → All (Lacks b'/') (p ∷ ps)
    → PartsOf (join (b'/' ∷ []) (p ∷ ps)) (drop_empty (p ∷ ps))
unfolding drop_empty
join-PartsOf [] [] h = ends
join-PartsOf (x ∷ p) [] h = last_part (λ e. cc) h.0
join-PartsOf [] (q ∷ ps) h = slash (join-PartsOf q ps h.1)
join-PartsOf (x ∷ p) (q ∷ ps) h = part_first (λ e. cc) h.0 (join-PartsOf q ps h.1)

-- `split_path` gives the parts of its path, and nothing else is the parts of it.
pub split_path_iff :
    (path : Bytes) (parts : List Bytes) → (split_path path ≡ parts) ↔ PartsOf path parts
split_path_iff path parts =
    let (p, ps, e) = fields_nonempty b'/' path in
    let (joined, good) = join-fields b'/' path in
    let whole : join (b'/' ∷ []) (p ∷ ps) ≡ path = ap (join (b'/' ∷ [])) (sym e) ∙ joined in
    let found : PartsOf path (drop_empty (p ∷ ps)) =
      subst (λ t. PartsOf t (drop_empty (p ∷ ps))) whole
        (join-PartsOf p ps (subst (All (Lacks b'/')) e good)) in
    let same : split_path path ≡ drop_empty (p ∷ ps) = split_path-fields path ∙ ap drop_empty e in
    (
      λ h. subst (PartsOf path) (sym same ∙ h) found,
      λ h. split_path-fields path ∙ PartsOf-drop_empty h,
    )
