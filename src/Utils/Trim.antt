-- ===== src/Utils/Trim.antt =====
-- server/utils.cpp: what `trim` removes, and what it leaves.
use mathlib.Core.List.{reverse, reverse-append, reverse-reverse}
use web_library.Base.{
  ℕ, true, false, [], ◌∷◌, ◌++◌, ◌≡◌, inl, inr, refl, sym, ap, ◌∙◌, arith, Bytes, All, All-append,
  is_space, append-nil, Bool-cases, ◌≢◌,
}
use web_library.Utils.{drop_spaces, trim_l, trim_r, trim, to_lower, to_lowercase_str}

abbrev pub IsBlank : Bytes → Type 0
IsBlank = All (λ c. is_space c ≡ true)

-- The first byte, if there is one, is no space.
abbrev pub Starts : Bytes → Type 0
Starts [] = Unit
Starts (c ∷ s) = is_space c ≡ false

-- No space at either end.
abbrev pub IsTrimmed : Bytes → Type 0
IsTrimmed s = Starts s × Starts (reverse s)

drop_spaces_split :
    (s : Bytes) → (l : Bytes) × IsBlank l × (s ≡ l ++ drop_spaces s) × Starts (drop_spaces s)
unfolding drop_spaces
drop_spaces_split [] = ([], tt, refl, tt)
drop_spaces_split (c ∷ s) = elim (Bool-cases (is_space c)) [
  | inl e ↦
      let (l, blank, split, starts) = drop_spaces_split s in
      rw e (c ∷ l, (e, blank), ap (λ t. c ∷ t) split, starts)
  | inr e ↦ rw e ([], tt, refl, e)
]

drop_spaces-append : (l s : Bytes) → IsBlank l → Starts s → drop_spaces (l ++ s) ≡ drop_spaces s
unfolding drop_spaces
drop_spaces-append [] s h k = refl
drop_spaces-append (c ∷ l) s h k = rw (h.0) (drop_spaces-append l s h.1 k)

drop_spaces-Starts : (s : Bytes) → Starts s → drop_spaces s ≡ s
unfolding drop_spaces
drop_spaces-Starts [] h = refl
drop_spaces-Starts (c ∷ s) h = rw h

reverse-IsBlank : (s : Bytes) → IsBlank s → IsBlank (reverse s)
reverse-IsBlank [] h = tt
reverse-IsBlank (c ∷ s) h =
    rw (reverse-append (c ∷ []) s)
      (All-append _ (reverse s) (c ∷ []) (reverse-IsBlank s h.1) (h.0, tt))

drop_blank : (l : Bytes) → IsBlank l → drop_spaces l ≡ []
unfolding drop_spaces
drop_blank [] h = refl
drop_blank (c ∷ l) h = rw (h.0) (drop_blank l h.1)

Starts-append : (s t : Bytes) → Starts (s ++ t) → Starts s
Starts-append [] t h = tt
Starts-append (c ∷ s) t h = h

trim_l-around : (l s r : Bytes) → IsBlank l → Starts s → s ≢ [] → trim_l (l ++ (s ++ r)) ≡ s ++ r
unfolding trim_l
trim_l-around l [] r hl hs h = absurd (h refl)
trim_l-around l (c ∷ s) r hl hs h =
    drop_spaces-append l (c ∷ s ++ r) hl hs ∙ drop_spaces-Starts (c ∷ s ++ r) hs

trim_r-around : (s r : Bytes) → IsBlank r → Starts (reverse s) → trim_r (s ++ r) ≡ s
unfolding trim_r
trim_r-around s r hr hs =
    rw
      (
        reverse-append s r,
        drop_spaces-append (reverse r) (reverse s) (reverse-IsBlank r hr) hs,
        drop_spaces-Starts (reverse s) hs,
      )
      (reverse-reverse s)

trim_blank : (s : Bytes) → IsBlank s → trim s ≡ []
unfolding trim trim_l trim_r
trim_blank s h = rw (drop_blank s h) refl

-- Spaces around a text that has none at its ends are what `trim` removes: the text comes out.
pub trim-around : (l s r : Bytes) → IsBlank l → IsBlank r → IsTrimmed s → trim (l ++ (s ++ r)) ≡ s
trim-around l [] r hl hr h = trim_blank (l ++ r) (All-append _ l r hl hr)
trim-around l (c ∷ s) r hl hr h =
    unfold trim in rw (trim_l-around l (c ∷ s) r hl h.0 cc) (trim_r-around (c ∷ s) r hr h.1)

trim_r_split :
    (s : Bytes) → (r : Bytes) × IsBlank r × (s ≡ trim_r s ++ r) × Starts (reverse (trim_r s))
unfolding trim_r
trim_r_split s =
    let (l, blank, split, starts) = drop_spaces_split (reverse s) in
    (
      reverse l,
      reverse-IsBlank l blank,
      sym (reverse-reverse s) ∙ ap reverse split ∙ reverse-append l (drop_spaces (reverse s)),
      rw (reverse-reverse (drop_spaces (reverse s))) starts,
    )

-- For every text: `trim` cuts spaces off both ends and nothing else, and leaves no space at an end.
pub trim_splits :
    (s : Bytes)
    → (l : Bytes) × (r : Bytes) × IsBlank l
      × IsBlank r
      × (s ≡ l ++ (trim s ++ r))
      × IsTrimmed (trim s)
trim_splits s =
    let (l, hl, split, starts) = drop_spaces_split s in
    let (r, hr, split', ends) = trim_r_split (drop_spaces s) in
    unfold trim trim_l in
    (
      l,
      r,
      hl,
      hr,
      split ∙ ap (λ t. l ++ t) split',
      (Starts-append (trim_r (drop_spaces s)) r (rw (← split') starts), ends),
    )

-- Trimming twice is trimming once.
pub trim_idem : (s : Bytes) → trim (trim s) ≡ trim s
trim_idem s =
    let (_, _, _, _, _, trimmed) = trim_splits s in
    ap trim (sym (append-nil (trim s))) ∙ trim-around [] (trim s) [] tt tt trimmed

to_lower_idem : (c : ℕ) → to_lower (to_lower c) ≡ to_lower c
unfolding to_lower
to_lower_idem c = ground arith

-- A lower-case text stays as it is.
pub to_lowercase_str_idem : (s : Bytes) → to_lowercase_str (to_lowercase_str s) ≡ to_lowercase_str s
unfolding to_lowercase_str
to_lowercase_str_idem [] = refl
to_lowercase_str_idem (c ∷ s) = cc (to_lower_idem c, to_lowercase_str_idem s)
