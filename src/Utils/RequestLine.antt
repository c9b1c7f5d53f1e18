-- ===== src/Utils/RequestLine.antt =====
-- server/utils.cpp: `parse_request_line` against the shape of a request line.
use web_library.Base.{
  suc, ◌∷◌, ◌++◌, ◌≡◌, sym, ap, ◌∙◌, arith, Bytes, find, find-append, find_split, Lacks, take, drop,
  take-length, drop_after, ok, Option-cases, inl, inr, ◌↔◌, ◌≢◌,
}
use web_library.Utils.{parse_request_line, ill_formed}

-- A method and a path with no space in them, each followed by a space, are read back, whatever
-- follows them.
pub parse_request_line-print :
    (method path rest : Bytes)
    → Lacks 32 method
    → Lacks 32 path
    → parse_request_line (method ++ 32 ∷ (path ++ 32 ∷ rest)) ≡ ok (method, path)
unfolding parse_request_line
parse_request_line-print method path rest hm hp = ground (
  arith,
  find-append 32 method (path ++ 32 ∷ rest) hm,
  find-append 32 path rest hp,
  take-length method (32 ∷ (path ++ 32 ∷ rest)),
  take-length path (32 ∷ rest),
  drop_after method 32 (path ++ 32 ∷ rest),
)

-- What is accepted has that shape.
pub parse_request_line_sound :
    (raw : Bytes) {method path : Bytes}
    → parse_request_line raw ≡ ok (method, path)
    → (rest : Bytes) × Lacks 32 method × Lacks 32 path × (raw ≡ method ++ 32 ∷ (path ++ 32 ∷ rest))
unfolding parse_request_line
parse_request_line_sound raw {method} {path} h = elim (Option-cases (find 32 raw)) [
  | inl e ↦ ground arith
  | inr (n, e) ↦ elim (Option-cases (find 32 (drop (suc n) raw))) [
    | inl e' ↦ ground arith
    | inr (m, e') ↦
        let (hm, sm) = find_split 32 raw n e in
        let (hp, sp) = find_split 32 (drop (suc n) raw) m e' in
        let em : take n raw ≡ method = ground arith in
        let ep : take m (drop (suc n) raw) ≡ path = ground arith in
        (
          drop (suc m) (drop (suc n) raw),
          rw (← em) hm,
          rw (← ep) hp,
          sm ∙ (λ i. em i ++ 32 ∷ (sp ∙ (λ j. ep j ++ 32 ∷ drop (suc m) (drop (suc n) raw))) i),
        )
  ]
]

pub parse_request_line_total :
    (raw : Bytes)
    → ((m p : Bytes) → parse_request_line raw ≢ ok (m, p))
    → parse_request_line raw ≡ ill_formed
unfolding parse_request_line
parse_request_line_total raw h = elim (Option-cases (find 32 raw)) [
  | inl e ↦ ground arith
  | inr (n, e) ↦ elim (Option-cases (find 32 (drop (suc n) raw))) [
    | inl e' ↦ ground arith
    | inr (m, e') ↦ absurd (h (take n raw) (take m (drop (suc n) raw)) (ground arith))
  ]
]

ill_formed-ne-ok : (m p : Bytes) → ill_formed {A = Bytes × Bytes} ≢ ok (m, p)
ill_formed-ne-ok m p e = cc

-- A request line: a method and a path with no space in them, each followed by a space.
abbrev pub IsRequestLine : Bytes → Bytes → Bytes → Type 0
IsRequestLine raw method path =
    (rest : Bytes) × Lacks 32 method × Lacks 32 path × (raw ≡ method ++ 32 ∷ (path ++ 32 ∷ rest))

-- `parse_request_line` accepts exactly the texts that begin with a method and a path, neither with
-- a space in it and each followed by one, and returns these two. It throws exactly for the texts that
-- do not begin so.
pub parse_request_line_iff :
    (raw method path : Bytes)
    → ((parse_request_line raw ≡ ok (method, path)) ↔ IsRequestLine raw method path)
      × ((parse_request_line raw ≡ ill_formed) ↔ ((m p : Bytes) → ¬ IsRequestLine raw m p))
parse_request_line_iff raw method path = (
  (
    λ e. parse_request_line_sound raw e,
    λ (rest, hm, hp, e). rw e (parse_request_line-print method path rest hm hp),
  ),
  (
    λ e m p (rest, hm, hp, shape).
        ill_formed-ne-ok m p
          (sym e ∙ ap parse_request_line shape ∙ parse_request_line-print m p rest hm hp),
    λ none. parse_request_line_total raw (λ m p e. none m p (parse_request_line_sound raw e)),
  ),
)
