-- ===== src/Utils/Template.antt =====
-- server/utils.cpp: `process_url_str` against the template language that it reads: single bytes, and
-- holes with a name in braces.
use web_library.Base.{
  ℕ, zero, suc, ◌≤◌, List, [], ◌∷◌, ◌++◌, ◌≡◌, ◌≢◌, refl, sym, ap, ◌∙◌, arith, Bytes, codes, find,
  find-append, find_split, Lacks, take, drop, length, length-append, length-drop_le, ==_iff, ◌↔◌,
  drop_after, ok, Option-cases, inl, inr, throw, Exception, runtime_error, All, map, append_assoc,
  append-nil, Bool-cases, ◌==◌, Result,
}
use web_library.Utils.{open_brace, close_brace, process_from, process_url_str}

pub data Piece : Type 0 where
  byte : ℕ → Piece
  hole : Bytes → Piece

abbrev pub show : Piece → Bytes
show (byte c) = c ∷ []
show (hole name) = open_brace ∷ (name ++ close_brace ∷ [])

-- The text of a template.
abbrev pub render : List Piece → Bytes
render [] = []
render (p ∷ ps) = show p ++ render ps

-- Every hole with its name left out.
abbrev pub blank : Piece → Piece
blank (byte c) = byte c
blank (hole name) = hole []

abbrev pub names : List Piece → List Bytes
names [] = []
names (byte c ∷ ps) = names ps
names (hole name ∷ ps) = name ∷ names ps

-- A byte is no '{', and a name holds no '}'.
abbrev pub IsPiece : Piece → Type 0
IsPiece (byte c) = c ≢ open_brace
IsPiece (hole name) = Lacks close_brace name

-- Moreover no '}' stands outside a hole.
abbrev pub IsStrict : Piece → Type 0
IsStrict (byte c) = (c ≢ open_brace) × (c ≢ close_brace)
IsStrict (hole name) = Lacks close_brace name

pub render-hole :
    (name : Bytes) (ps : List Piece)
    → render (hole name ∷ ps) ≡ open_brace ∷ (name ++ close_brace ∷ render ps)
render-hole name ps = ap (λ t. open_brace ∷ t) (append_assoc name (close_brace ∷ []) (render ps))

process_from-render :
    (fuel : ℕ) (ps : List Piece) (out : Bytes)
    → All IsPiece ps
    → length (render ps) ≤ fuel
    → process_from fuel (render ps) out ≡ ok (out ++ render (map blank ps))
unfolding process_from
process_from-render zero [] out h k = rw append-nil
process_from-render (suc fuel) [] out h k = rw append-nil
process_from-render zero (byte c ∷ ps) out h k = absurd (omega arith)
process_from-render zero (hole name ∷ ps) out h k = absurd (omega arith)
process_from-render (suc fuel) (byte c ∷ ps) out h k = ground (
  arith,
  process_from-render fuel ps (out ++ c ∷ []) h.1,
  append_assoc out (c ∷ []) (render (map blank ps)),
)
process_from-render (suc fuel) (hole name ∷ ps) out h k =
    let e : (name ++ close_brace ∷ []) ++ render ps ≡ name ++ close_brace ∷ render ps =
      append_assoc name (close_brace ∷ []) (render ps) in
    rw e (
      ground (
        arith,
        find-append close_brace name (render ps) h.0,
        drop_after name close_brace (render ps),
        process_from-render fuel ps (out ++ codes "{}") h.1,
        ap length e,
        length-append name (close_brace ∷ render ps),
        append_assoc out (codes "{}") (render (map blank ps)),
      ))

-- A template comes out with its holes emptied.
pub process_url_str-render :
    (ps : List Piece) → All IsPiece ps → process_url_str (render ps) ≡ ok (render (map blank ps))
unfolding process_url_str
process_url_str-render ps h = process_from-render (length (render ps)) ps [] h (omega arith)

process_from_sound :
    (fuel : ℕ) (rest out : Bytes) {v : Bytes}
    → length rest ≤ fuel
    → process_from fuel rest out ≡ ok v
    → (ps : List Piece) × All IsPiece ps × (rest ≡ render ps) × (v ≡ out ++ render (map blank ps))
unfolding process_from
process_from_sound zero [] out k h = ([], tt, refl, rw append-nil (ground arith))
process_from_sound zero (c ∷ rest) out k h = absurd (omega arith)
process_from_sound (suc fuel) [] out k h = ([], tt, refl, rw append-nil (ground arith))
process_from_sound (suc fuel) (c ∷ rest) out {v} k h = elim (Bool-cases (c == open_brace)) [
  | inr plain ↦
      let h' : process_from fuel rest (out ++ c ∷ []) ≡ ok v = ground arith in
      let (ps, good, shape, result) =
        process_from_sound fuel rest (out ++ c ∷ []) (omega arith) h' in
      (
        byte c ∷ ps,
        (ground arith, good),
        ap (λ t. c ∷ t) shape,
        result ∙ append_assoc out (c ∷ []) (render (map blank ps)),
      )
  | inl brace ↦ elim (Option-cases (find close_brace rest)) [
    | inl e ↦ ground arith
    | inr (n, e) ↦
        let next : Bytes = drop (suc n) rest in
        let h' : process_from fuel next (out ++ codes "{}") ≡ ok v = ground arith in
        let (ps, good, shape, result) =
          process_from_sound fuel (drop (suc n) rest) (out ++ codes "{}")
            (omega (arith, length-drop_le (suc n) rest)) h' in
        let (hn, split) = find_split close_brace rest n e in
        (
          hole (take n rest) ∷ ps,
          (hn, good),
          cc (render-hole (take n rest) ps, (==_iff c open_brace).0 brace),
          result ∙ append_assoc out (codes "{}") (render (map blank ps)),
        )
  ]
]

process_url_str_sound :
    (url : Bytes) {v : Bytes}
    → process_url_str url ≡ ok v
    → (ps : List Piece) × All IsPiece ps × (url ≡ render ps) × (v ≡ render (map blank ps))
unfolding process_url_str
process_url_str_sound url h = process_from_sound (length url) url [] (omega arith) h

process_from_total :
    (fuel : ℕ) (rest out : Bytes)
    → ((w : Bytes) → process_from fuel rest out ≢ ok w)
    → process_from fuel rest out ≡ throw (runtime_error (codes "Ill-formed template path"))
unfolding process_from
process_from_total zero rest out h = absurd (h out refl)
process_from_total (suc fuel) [] out h = absurd (h out refl)
process_from_total (suc fuel) (c ∷ rest) out h = elim (Bool-cases (c == open_brace)) [
  | inr plain ↦
      rw (plain, process_from)
        (process_from_total fuel rest (out ++ c ∷ []) (λ w e. h w (rw (plain, process_from) e)))
  | inl brace ↦ elim (Option-cases (find close_brace rest)) [
    | inl e ↦ ground arith
    | inr (n, e) ↦
        rw (brace, process_from, e)
          (process_from_total fuel (drop (suc n) rest) (out ++ codes "{}")
            (λ w e'. h w (rw (brace, process_from, e) e')))
  ]
]

process_url_str_total :
    (url : Bytes)
    → ((w : Bytes) → process_url_str url ≢ ok w)
    → process_url_str url ≡ throw (runtime_error (codes "Ill-formed template path"))
unfolding process_url_str
process_url_str_total url h = process_from_total (length url) url [] h

throw-ne-ok : (x : Exception) (v : Bytes) → ◌≢◌ {A = Result Bytes} (throw x) (ok v)
throw-ne-ok x v e = cc

-- `process_url_str` accepts exactly the templates, texts in which each '{' is followed by a '}', and
-- returns the template with the names of its holes left out. It throws exactly for the other texts.
pub process_url_str_iff :
    (url v : Bytes)
    → ((process_url_str url ≡ ok v)
        ↔ ((ps : List Piece) × All IsPiece ps × (url ≡ render ps) × (v ≡ render (map blank ps))))
      × ((process_url_str url ≡ throw (runtime_error (codes "Ill-formed template path")))
          ↔ ((ps : List Piece) → All IsPiece ps → url ≢ render ps))
process_url_str_iff url v = (
  (
    λ e. process_url_str_sound url e,
    λ (ps, good, shape, result). rw (shape, result) (process_url_str-render ps good),
  ),
  (
    λ e ps good shape.
        throw-ne-ok _ _ (sym e ∙ ap process_url_str shape ∙ process_url_str-render ps good),
    λ none.
        process_url_str_total url
          (λ w e. let (ps, good, shape, _) = process_url_str_sound url e in none ps good shape),
  ),
)

map-blank :
    (ps : List Piece)
    → All IsPiece ps
    → All IsPiece (map blank ps) × (map blank (map blank ps) ≡ map blank ps)
map-blank [] h = (tt, refl)
map-blank (byte c ∷ ps) h = let (a, e) = map-blank ps h.1 in ((h.0, a), ap (λ t. byte c ∷ t) e)
map-blank (hole name ∷ ps) h = let (a, e) = map-blank ps h.1 in ((tt, a), ap (λ t. hole [] ∷ t) e)

-- A route that is stored in its processed form is processed to itself.
pub process_url_str_idem : (url v : Bytes) → process_url_str url ≡ ok v → process_url_str v ≡ ok v
process_url_str_idem url v h =
    let (ps, good, _, result) = process_url_str_sound url h in
    let (good', same) = map-blank ps good in
    rw result (process_url_str-render (map blank ps) good' ∙ ap (λ t. ok (render t)) same)
