-- ===== src/Base/Split.antt =====
-- std::views::split, std::getline and their inverse, joining by a separator.
use Prim.Native.Nat.{ℕ}
use mathlib.Core.Path.{◌≡◌, refl, sym, ap, ◌∙◌}
use mathlib.Core.Logic.{◌≢◌, inl, inr}
use mathlib.Core.List.{List, [], ◌∷◌, ◌++◌}
use native.Mathlib.Omega.{arith}
use web_library.Base.Tests.{◌==◌, ==_iff, ==_refl, Bool-cases, if◌then◌else◌}
use web_library.Base.Lists.{All}
use web_library.Base.Text.{Bytes, Lacks}

-- A byte put in front of the first part.
abbrev pub cons_first : ℕ → List Bytes → List Bytes
cons_first x [] = (x ∷ []) ∷ []
cons_first x (p ∷ ps) = (x ∷ p) ∷ ps

-- The parts between the separators; there is one more of them than separators.
unfoldable pub fields : ℕ → Bytes → List Bytes
fields c [] = [] ∷ []
fields c (x ∷ xs) = let rest = fields c xs in if x == c then [] ∷ rest else cons_first x rest

-- s | std::views::split(c): an empty text has no part at all
unfoldable pub split : ℕ → Bytes → List Bytes
unfolding fields
split c [] = []
split c (x ∷ xs) = fields c (x ∷ xs)

-- The lines that std::getline reads: nothing follows a newline at the end.
unfoldable pub get_lines : Bytes → List Bytes
get_lines [] = []
get_lines (x ∷ xs) = let rest = get_lines xs in if x == b'\n' then [] ∷ rest else cons_first x rest

-- The parts with the separator between each two.
abbrev pub join : Bytes → List Bytes → Bytes
join sep [] = []
join sep (p ∷ []) = p
join sep (p ∷ q ∷ ps) = p ++ (sep ++ join sep (q ∷ ps))

pub fields-Lacks : (c : ℕ) (p : Bytes) → Lacks c p → fields c p ≡ p ∷ []
unfolding fields
fields-Lacks c [] h = refl
fields-Lacks c (x ∷ p) h = ground (arith, fields-Lacks c p h.1)

pub fields-append :
    (c : ℕ) (p rest : Bytes) → Lacks c p → fields c (p ++ c ∷ rest) ≡ p ∷ fields c rest
unfolding fields
fields-append c [] rest h = ground arith
fields-append c (x ∷ p) rest h = ground (arith, fields-append c p rest h.1)

pub get_lines-Lacks : (x : ℕ) (p : Bytes) → Lacks b'\n' (x ∷ p) → get_lines (x ∷ p) ≡ (x ∷ p) ∷ []
unfolding get_lines
get_lines-Lacks x [] h = ground arith
get_lines-Lacks x (y ∷ p) h = ground (arith, get_lines-Lacks y p h.1)

pub get_lines-append :
    (p rest : Bytes) → Lacks b'\n' p → get_lines (p ++ b'\n' ∷ rest) ≡ p ∷ get_lines rest
unfolding get_lines
get_lines-append [] rest h = refl
get_lines-append (x ∷ p) rest h = ground (arith, get_lines-append p rest h.1)

-- A join of at least one part, none of which holds the separator, has these parts.
pub fields-join :
    (c : ℕ) (p : Bytes) (ps : List Bytes)
    → All (Lacks c) (p ∷ ps)
    → fields c (join (c ∷ []) (p ∷ ps)) ≡ p ∷ ps
fields-join c p [] h = fields-Lacks c p h.0
fields-join c p (q ∷ ps) h =
    rw (fields-append c p (join (c ∷ []) (q ∷ ps)) h.0) (ap (λ t. p ∷ t) (fields-join c q ps h.1))

-- `split` differs from `fields` on the empty text alone.
pub split-fields : (c : ℕ) (s : Bytes) → s ≢ [] → split c s ≡ fields c s
unfolding split
split-fields c [] h = absurd (h refl)
split-fields c (x ∷ s) h = refl

pub fields_nonempty : (c : ℕ) (s : Bytes) → (p : Bytes) × (ps : List Bytes) × (fields c s ≡ p ∷ ps)
unfolding fields
fields_nonempty c [] = ([], [], refl)
fields_nonempty c (x ∷ s) =
    let (p, ps, e) = fields_nonempty c s in
    elim (Bool-cases (x == c)) [
      | inl same ↦ ([], p ∷ ps, rw (fields, same, e) refl)
      | inr other ↦ (x ∷ p, ps, rw (fields, other, e) refl)
    ]

join-cons_first :
    (x : ℕ) (sep p : Bytes) (ps : List Bytes)
    → join sep (cons_first x (p ∷ ps)) ≡ x ∷ join sep (p ∷ ps)
join-cons_first x sep p [] = refl
join-cons_first x sep p (q ∷ ps) = refl

-- The parts, joined by the separator, are the text, and none of them holds it.
pub join-fields :
    (c : ℕ) (s : Bytes) → (join (c ∷ []) (fields c s) ≡ s) × All (Lacks c) (fields c s)
unfolding fields
join-fields c [] = (refl, (tt, tt))
join-fields c (x ∷ s) =
    let (p, ps, e) = fields_nonempty c s in
    let (joined, good) = join-fields c s in
    let joined' = rw e at joined in
    let good' = rw e at good in
    elim (Bool-cases (x == c)) [
      | inl same ↦ (
        rw (fields, same, e)
            (ap (λ t. c ∷ t) joined' ∙ ap (λ t. t ∷ s) (sym ((==_iff x c).0 same))),
        rw (fields, same, e) (tt, good'),
      )
      | inr other ↦ (
        rw (fields, other, e) (join-cons_first x (c ∷ []) p ps ∙ ap (λ t. x ∷ t) joined'),
        rw (fields, other, e) ((ground (arith, ==_iff x c), good'.0), good'.1),
      )
    ]

-- What is behind a last separator is the last part.
pub fields_snoc : (c : ℕ) (s p : Bytes) → Lacks c p → fields c (s ++ c ∷ p) ≡ fields c s ++ p ∷ []
unfolding fields
fields_snoc c [] p h = rw (fields, ==_refl c, fields-Lacks c p h) refl
fields_snoc c (x ∷ s) p h =
    let (q, qs, e) = fields_nonempty c s in
    elim (Bool-cases (x == c)) [
      | inl same ↦ rw (fields, same, fields_snoc c s p h) refl
      | inr other ↦ rw (fields, other, fields_snoc c s p h, e) refl
    ]
