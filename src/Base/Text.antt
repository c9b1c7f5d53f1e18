-- ===== src/Base/Text.antt =====
-- Byte strings, and the operations of std::string and std::string_view that the code uses.
-- A position is a size_t; `find` gives `none` where the code tests its result against npos at once,
-- and `size_of` turns it into the number that the code computes with where it does not.
use Prim.Native.Nat.{ℕ, zero, suc, ◌+◌, ◌-◌, ◌^◌, ◌%◌}
use Prim.Native.Char.{code}
use Prim.Native.String.{String}
use mathlib.Core.Path.{◌≡◌, refl, ap}
use mathlib.Core.Logic.{◌≢◌, ◌↔◌}
use mathlib.Core.Bool.{Bool, true, false, ◌&&◌}
use mathlib.Core.Option
use mathlib.Core.Option.{Option, none, some}
use mathlib.Core.List.{List, [], ◌∷◌, ◌++◌}
use native.Mathlib.Omega.{arith}
use web_library.Base.Tests.{◌==◌, if◌then◌else◌}
use web_library.Base.Lists.{length, take, drop, All}

abbrev pub Bytes : Type 0
Bytes = List ℕ

-- The code points of a literal; these are its bytes, since the code's literals are ASCII.
abbrev pub codes : String → Bytes
codes String.[] = []
codes (String.◌∷◌ c s) = code c ∷ codes s

unfoldable pub bytes_eq : Bytes → Bytes → Bool
bytes_eq [] [] = true
bytes_eq [] (y ∷ ys) = false
bytes_eq (x ∷ xs) [] = false
bytes_eq (x ∷ xs) (y ∷ ys) = x == y && bytes_eq xs ys

pub bytes_eq_sound : (a b : Bytes) → bytes_eq a b ≡ true → a ≡ b
unfolding bytes_eq
bytes_eq_sound [] [] h = refl
bytes_eq_sound [] (y ∷ ys) h = cc
bytes_eq_sound (x ∷ xs) [] h = cc
bytes_eq_sound (x ∷ xs) (y ∷ ys) h = ground (arith, bytes_eq_sound xs ys)

pub bytes_eq_refl : (a : Bytes) → bytes_eq a a ≡ true
unfolding bytes_eq
bytes_eq_refl [] = refl
bytes_eq_refl (x ∷ xs) = ground (arith, bytes_eq_refl xs)

pub bytes_eq_iff : (a b : Bytes) → (bytes_eq a b ≡ true) ↔ (a ≡ b)
bytes_eq_iff a b = (bytes_eq_sound a b, λ e. rw e (bytes_eq_refl b))

abbrev pub npos : ℕ
npos = 2 ^ 64 - 1

abbrev pub size_of : Option ℕ → ℕ
size_of none = npos
size_of (some n) = n

-- a + b and a - b in size_t
abbrev pub add64 : ℕ → ℕ → ℕ
add64 a b = (a + b) % 2 ^ 64

abbrev pub sub64 : ℕ → ℕ → ℕ
sub64 a b = (a + 2 ^ 64 - b) % 2 ^ 64

-- s.find_last_of(c)
unfoldable pub find_last_of : ℕ → Bytes → Option ℕ
find_last_of c [] = none
find_last_of c (x ∷ xs) = elim (find_last_of c xs) [
  | some n ↦ some (suc n)
  | none ↦ if x == c then some 0 else none
]

-- s.find(c)
unfoldable pub find : ℕ → Bytes → Option ℕ
find c [] = none
find c (x ∷ xs) = if x == c then some 0 else Option.map suc (find c xs)

unfoldable pub starts_with : Bytes → Bytes → Bool
starts_with [] s = true
starts_with (p ∷ ps) [] = false
starts_with (p ∷ ps) (x ∷ xs) = p == x && starts_with ps xs

-- s.find(p), for a p that is not empty
unfoldable pub find_str : Bytes → Bytes → Option ℕ
unfolding starts_with
find_str p [] = none
find_str p (x ∷ xs) = if starts_with p (x ∷ xs) then some 0 else Option.map suc (find_str p xs)

abbrev pub Lacks : ℕ → Bytes → Type 0
Lacks b = All (λ c. c ≢ b)

pub find-Lacks : (c : ℕ) (s : Bytes) → Lacks c s → find c s ≡ none
unfolding find
find-Lacks c [] h = refl
find-Lacks c (x ∷ xs) h = ground (arith, find-Lacks c xs h.1)

pub Lacks-find : (c : ℕ) (s : Bytes) → find c s ≡ none → Lacks c s
unfolding find
Lacks-find c [] h = tt
Lacks-find c (x ∷ xs) h = (ground arith, Lacks-find c xs (ground arith))

pub find-append : (c : ℕ) (p s : Bytes) → Lacks c p → find c (p ++ c ∷ s) ≡ some (length p)
unfolding find
find-append c [] s h = ground arith
find-append c (x ∷ p) s h = ground (arith, find-append c p s h.1)

-- A found character splits the text at its first place.
pub find_split :
    (c : ℕ) (s : Bytes) (n : ℕ)
    → find c s ≡ some n
    → Lacks c (take n s) × (s ≡ take n s ++ c ∷ drop (suc n) s)
unfolding find
find_split c [] n h = cc
find_split c (x ∷ xs) zero h = (tt, ground arith)
find_split c (x ∷ xs) (suc n) h =
    let rest : find c xs ≡ some n = ground arith in
    let ih = find_split c xs n rest in ((ground arith, ih.0), ap (λ t. x ∷ t) ih.1)
