-- ===== src/Base/Int.antt =====
-- A C++ int, and its decimal print and parse: std::to_string and std::stoi.
use Prim.Native.Nat.{ℕ, zero, suc, ◌+◌, ◌-◌, ◌*◌, ◌/◌, ◌%◌, ◌^◌, ◌<◌, ◌≤◌}
use mathlib.Core.Bool.{Bool, true, false, ◌&&◌, ◌||◌}
use mathlib.Core.Path.{◌≡◌, refl}
use mathlib.Core.Logic.{◌≢◌}
use native.Mathlib.Omega.{arith}
use mathlib.Core.List.{[], ◌∷◌}
use web_library.Base.Tests.{◌==◌, ltb, leb, if◌then◌else◌}
use web_library.Base.Text.{Bytes, codes}
use web_library.Base.Errors.{Result, ok, throw, invalid_argument, out_of_range}

-- `negsuc n` is -(n + 1).
pub data ℤ : Type 0 where
  pos : ℕ → ℤ
  negsuc : ℕ → ℤ

-- The digits of n in front of `out`; the first argument is the number of rounds left.
unfoldable pub digits : ℕ → ℕ → Bytes → Bytes
digits zero n out = out
digits (suc f) n out =
    let out' = (b'0' + n % 10) ∷ out in
    let rest = digits f (n / 10) out' in if ltb n 10 then out' else rest

-- Decimal print of an unsigned number: n has at most n + 1 digits.
unfoldable pub print_nat : ℕ → Bytes
unfolding digits
print_nat n = digits (suc n) n []

-- std::to_string(int)
unfoldable pub print_int : ℤ → Bytes
unfolding print_nat
print_int (pos n) = print_nat n
print_int (negsuc n) = b'-' ∷ print_nat (suc n)

unfoldable pub is_space : ℕ → Bool
is_space c = c == 32 || (leb 9 c && leb c 13)

unfoldable pub is_digit : ℕ → Bool
is_digit c = leb b'0' c && leb c b'9'

skip_spaces : Bytes → Bytes
skip_spaces [] = []
skip_spaces (c ∷ s) = if is_space c then skip_spaces s else c ∷ s

-- The number that the digits at the front spell behind `n`.
unfoldable pub magnitude : ℕ → Bytes → ℕ
magnitude n [] = n
magnitude n (c ∷ s) =
    let longer = magnitude (n * 10 + (c - b'0')) s in if is_digit c then longer else n

negate : ℕ → ℤ
negate zero = pos 0
negate (suc n) = negsuc n

-- The value lies in -limit, …, limit - 1.
in_range : ℕ → Bool → Bytes → ℕ → Result ℤ
in_range limit true name n = if leb n limit then ok (negate n) else throw (out_of_range name)
in_range limit false name n = if ltb n limit then ok (pos n) else throw (out_of_range name)

from_digits : ℕ → Bool → Bytes → Bytes → Result ℤ
from_digits limit minus name [] = throw (invalid_argument name)
from_digits limit minus name (c ∷ s) =
    if is_digit c
    then in_range limit minus name (magnitude 0 (c ∷ s))
    else throw (invalid_argument name)

from_sign : ℕ → Bytes → Bytes → Result ℤ
from_sign limit name [] = throw (invalid_argument name)
from_sign limit name (c ∷ s) =
    if c == b'-'
    then from_digits limit true name s
    else if c == b'+'
    then from_digits limit false name s
    else from_digits limit false name (c ∷ s)

-- std::stoi and std::stoll: spaces, a sign and digits at the front are read, what follows is ignored.
-- The text of the exception is the function's name, as in libstdc++.
unfoldable pub stoi : Bytes → Result ℤ
unfolding is_space is_digit skip_spaces magnitude negate in_range from_digits from_sign
stoi s = from_sign (2 ^ 31) (codes "stoi") (skip_spaces s)

unfoldable pub stoll : Bytes → Result ℤ
unfolding is_space is_digit skip_spaces magnitude negate in_range from_digits from_sign
stoll s = from_sign (2 ^ 63) (codes "stoll") (skip_spaces s)

magnitude-digits : (f n : ℕ) (out : Bytes) → n < f → magnitude 0 (digits f n out) ≡ magnitude n out
unfolding digits magnitude is_digit
magnitude-digits zero n out h = absurd (omega arith)
magnitude-digits (suc f) n out h =
    ground (arith, magnitude-digits f (n / 10) ((b'0' + n % 10) ∷ out))

abbrev pub AllDigits : Bytes → Type 0
AllDigits [] = Unit
AllDigits (c ∷ s) = (is_digit c ≡ true) × AllDigits s

digits-AllDigits : (f n : ℕ) (out : Bytes) → AllDigits out → AllDigits (digits f n out)
unfolding digits is_digit
digits-AllDigits zero n out h = h
digits-AllDigits (suc f) n out h =
    let first : is_digit (b'0' + n % 10) ≡ true = ground arith in
    ground (arith, digits-AllDigits f (n / 10) ((b'0' + n % 10) ∷ out) (first, h))

digits-ne-nil : (f n c : ℕ) (out : Bytes) → digits f n (c ∷ out) ≢ []
unfolding digits
digits-ne-nil zero n c out = cc
digits-ne-nil (suc f) n c out = ground (arith, digits-ne-nil f (n / 10) (b'0' + n % 10) (c ∷ out))

-- A decimal print is one or more digits.
pub print_nat-AllDigits : (n : ℕ) → AllDigits (print_nat n) × (print_nat n ≢ [])
unfolding print_nat
print_nat-AllDigits n =
    (digits-AllDigits (suc n) n [] tt, ground (arith, digits-ne-nil n (n / 10) (b'0' + n % 10) []))

pub magnitude-print_nat : (n : ℕ) → magnitude 0 (print_nat n) ≡ n
unfolding print_nat magnitude
magnitude-print_nat n = magnitude-digits (suc n) n [] (omega arith)

stoi_digits :
    (s : Bytes)
    → AllDigits s
    → s ≢ []
    → stoi s ≡ (
        if ltb (magnitude 0 s) (2 ^ 31)
        then ok (pos (magnitude 0 s))
        else throw (out_of_range (codes "stoi")))
unfolding stoi is_space is_digit
stoi_digits [] h ne = absurd (ne refl)
stoi_digits (c ∷ s) h ne =
    let digit : is_digit c ≡ true = h.0 in
    let no_space : is_space c ≡ false = ground arith in
    let no_minus : (c == b'-') ≡ false = ground arith in
    let no_plus : (c == b'+') ≡ false = ground arith in
    rw (stoi, skip_spaces, no_space, from_sign, no_minus, no_plus, from_digits, digit, in_range)
      refl

-- The print of a number that an int does not hold is out of the range of std::stoi.
pub stoi-print_nat_large :
    (n : ℕ) → 2 ^ 31 ≤ n → stoi (print_nat n) ≡ throw (out_of_range (codes "stoi"))
stoi-print_nat_large n large =
    let (all_digits, filled) = print_nat-AllDigits n in
    let beyond : ltb n (2 ^ 31) ≡ false = ground arith in
    rw (stoi_digits (print_nat n) all_digits filled, magnitude-print_nat n, beyond) refl
