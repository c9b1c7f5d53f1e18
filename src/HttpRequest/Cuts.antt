-- ===== src/HttpRequest/Cuts.antt =====
-- server/HttpRequest.cpp: the pieces that the calls of `substr` cut out of a message.
use web_library.Base.{
  ℕ, suc, ◌+◌, ◌<◌, ◌≤◌, ◌^◌, [], ◌∷◌, ◌++◌, none, some, Bytes, codes, length, length-append,
  find_last_of, npos, size_of, add64, substr, take, drop, take-length, drop_after, drop-length,
  take_all, Lacks, ok, ◌≡◌, refl, sym, ap, ◌∙◌, arith, append_assoc,
}
use web_library.HttpRequest.{crnlcrnl}

-- A start line with a method, a target and a version.
abbrev pub start_line : Bytes → Bytes → Bytes → Bytes
start_line method target version = method ++ 32 ∷ (target ++ (codes " HTTP/" ++ version))

find_last_of-Lacks : (c : ℕ) (v : Bytes) → Lacks c v → find_last_of c v ≡ none
unfolding find_last_of
find_last_of-Lacks c [] h = refl
find_last_of-Lacks c (x ∷ v) h = ground (arith, find_last_of-Lacks c v h.1)

find_last_of-append :
    (c : ℕ) (a v : Bytes) → Lacks c v → find_last_of c (a ++ c ∷ v) ≡ some (length a)
unfolding find_last_of
find_last_of-append c [] v h = ground (arith, find_last_of-Lacks c v h)
find_last_of-append c (x ∷ a) v h = rw (find_last_of-append c a v h)

pub substr_ok : (s : Bytes) (pos n : ℕ) → pos ≤ length s → substr s pos n ≡ ok (take n (drop pos s))
unfolding substr
substr_ok s pos n h = ground arith

pub substr_from :
    (s : Bytes) (pos : ℕ) (rest : Bytes)
    → drop pos s ≡ rest
    → pos + length rest ≡ length s
    → length s < 2 ^ 64
    → substr s pos npos ≡ ok rest
substr_from s pos rest cut size bound =
    let short : length rest ≤ npos = omega arith in
    substr_ok s pos npos (omega arith) ∙ ap ok (ap (take npos) cut ∙ take_all npos rest short)

version_after :
    (front version line : Bytes)
    → Lacks b'/' version
    → line ≡ front ++ b'/' ∷ version
    → length line < 2 ^ 64
    → substr line (add64 (size_of (find_last_of b'/' line)) 1) npos ≡ ok version
version_after front version line hv e bound =
    let place = ap (find_last_of b'/') e ∙ find_last_of-append b'/' front version hv in
    let size = ap length e ∙ length-append front (b'/' ∷ version) in
    let start : add64 (length front) 1 ≡ suc (length front) = omega arith in
    rw (place, start)
      (substr_from line (suc (length front)) version
        (ap (drop (suc (length front))) e ∙ drop_after front b'/' version) (omega arith) bound)

-- What is behind the last '/' of the start line.
pub version_of_line :
    (method target version : Bytes)
    → Lacks b'/' version
    → length (start_line method target version) < 2 ^ 64
    → substr
        (start_line method target version)
        (add64 (size_of (find_last_of b'/' (start_line method target version))) 1)
        npos
      ≡ ok version
version_of_line method target version hv bound =
    version_after (method ++ 32 ∷ (target ++ codes " HTTP")) version
      (start_line method target version) hv
      (ap (λ t. method ++ 32 ∷ t) (sym (append_assoc target (codes " HTTP") (b'/' ∷ version)))
        ∙ sym (append_assoc method (32 ∷ (target ++ codes " HTTP")) (b'/' ∷ version)))
      bound

pub substr_front : (front rest : Bytes) → substr (front ++ rest) 0 (length front) ≡ ok front
unfolding substr
substr_front front rest = ground (arith, take-length front rest)

pub substr_tail :
    (front rest : Bytes)
    → length (front ++ (crnlcrnl ++ rest)) < 2 ^ 64
    → substr (front ++ (crnlcrnl ++ rest)) (add64 (length front) 4) npos ≡ ok rest
substr_tail front rest bound =
    let size = length-append front (crnlcrnl ++ rest) in
    let start : add64 (length front) 4 ≡ length (front ++ crnlcrnl) =
      omega (arith, length-append front crnlcrnl) in
    rw start (
      substr_from (front ++ (crnlcrnl ++ rest)) (length (front ++ crnlcrnl)) rest
        (ap (drop (length (front ++ crnlcrnl))) (sym (append_assoc front crnlcrnl rest))
          ∙ drop-length (front ++ crnlcrnl) rest)
        (omega (arith, length-append front crnlcrnl)) bound)
