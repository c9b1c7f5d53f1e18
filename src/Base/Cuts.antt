-- ===== src/Base/Cuts.antt =====
-- Where `find_str` finds a text in a prefix of what it was searched in.
use Prim.Native.Nat.{ℕ, zero, suc, ◌+◌, ◌≤◌, ◌<◌}
use mathlib.Core.Path.{◌≡◌, refl}
use mathlib.Core.Bool.{Bool, true, false}
use mathlib.Core.Option
use mathlib.Core.Option.{Option, none, some}
use mathlib.Core.List.{List, [], ◌∷◌, ◌++◌}
use native.Mathlib.Omega.{arith}
use web_library.Base.Tests.{if◌then◌else◌}
use web_library.Base.Lists.{length}
use web_library.Base.Text.{Bytes, starts_with, find_str}

starts_with_short : (p a : Bytes) → length a < length p → starts_with p a ≡ false
unfolding starts_with
starts_with_short [] a h = absurd (omega arith)
starts_with_short (c ∷ p) [] h = refl
starts_with_short (c ∷ p) (x ∷ a) h = ground (arith, starts_with_short p a (omega arith))

find_str_short : (p a : Bytes) → length a < length p → find_str p a ≡ none
unfolding find_str
find_str_short p [] h = refl
find_str_short p (x ∷ a) h =
    ground (arith, starts_with_short p (x ∷ a) h, find_str_short p a (omega arith))

starts_with_cut : (p a b : Bytes) → starts_with p (a ++ b) ≡ false → starts_with p a ≡ false
unfolding starts_with
starts_with_cut [] a b h = h
starts_with_cut (c ∷ p) [] b h = refl
starts_with_cut (c ∷ p) (x ∷ a) b h = ground (arith, starts_with_cut p a b)

pub found_later :
    (b : Bool) (o : Option ℕ) (k : ℕ)
    → (if b then some 0 else Option.map suc o) ≡ some (suc k)
    → (b ≡ false) × (o ≡ some k)
found_later true o k h = ground arith
found_later false none k h = ground arith
found_later false (some n) k h = (refl, ground arith)

-- A text that stands at place k is not found in a prefix that ends before it does.
pub find_str_cut :
    (p a b : Bytes) (k : ℕ)
    → find_str p (a ++ b) ≡ some k
    → length a < k + length p
    → find_str p a ≡ none
unfolding find_str
find_str_cut p [] b k found short = refl
find_str_cut p (x ∷ a) b zero found short = find_str_short p (x ∷ a) (omega arith)
find_str_cut p (x ∷ a) b (suc k) found short =
    let (off, found') = found_later (starts_with p (x ∷ a ++ b)) (find_str p (a ++ b)) k found in
    rw (starts_with_cut p (x ∷ a) b off, find_str_cut p a b k found' (omega arith)) refl

module _ {ℓ} {A : Type ℓ} where
  -- Of two cuts of one list, the longer goes on where the shorter ends.
  pub append_split :
      (xs ys a b : List A)
      → xs ++ ys ≡ a ++ b
      → length xs ≤ length a
      → (z : List A) × (a ≡ xs ++ z) × (ys ≡ z ++ b)
  append_split [] ys a b e h = (a, refl, e)
  append_split (x ∷ xs) ys [] b e h = absurd (omega arith)
  append_split (x ∷ xs) ys (y ∷ a) b e h =
      let rest : xs ++ ys ≡ a ++ b = cc in
      let (z, ea, ey) = append_split xs ys a b rest (omega arith) in (z, (cc), ey)
