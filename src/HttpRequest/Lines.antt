-- ===== src/HttpRequest/Lines.antt =====
-- Where the first line of a message ends, and where its header ends: `find` of "\r\n" and "\r\n\r\n" in
-- a text made of lines.
use web_library.Base.{
  ℕ, ◌+◌, List, [], ◌∷◌, ◌++◌, Option, none, some, Bytes, codes, length, length-append, find_str,
  Lacks, All, join, ◌≡◌, ◌≢◌, refl, ap, arith, append_assoc,
}
use web_library.HttpRequest.{crnl, crnlcrnl}

abbrev shift : ℕ → Option ℕ → Option ℕ
shift n none = none
shift n (some m) = some (n + m)

shift-zero : (o : Option ℕ) → o ≡ shift 0 o
shift-zero none = refl
shift-zero (some m) = ap some (omega arith)

-- A text with no carriage return in front of another one is skipped by a search that begins with one.
find_str-skip :
    (p a s : Bytes)
    → Lacks b'\r' a
    → find_str (b'\r' ∷ p) (a ++ s) ≡ shift (length a) (find_str (b'\r' ∷ p) s)
unfolding find_str
find_str-skip p [] s h = shift-zero (find_str (b'\r' ∷ p) s)
find_str-skip p (x ∷ a) s h = ground (arith, find_str-skip p a s h.1)

-- A line of a message: not empty, and with no carriage return.
abbrev pub IsLine : Bytes → Type 0
IsLine line = (line ≢ []) × Lacks b'\r' line

pub find_crnl :
    (line rest : Bytes)
    → Lacks b'\r' line
    → find_str crnl (line ++ (crnl ++ rest)) ≡ some (length line)
unfolding find_str
find_crnl line rest h =
    rw (find_str-skip (b'\n' ∷ []) line (crnl ++ rest) h) (ap some (omega arith))

find_single_crnl :
    (x : ℕ) (s : Bytes)
    → x ≢ b'\r'
    → find_str crnlcrnl (crnl ++ x ∷ s) ≡ shift 2 (find_str crnlcrnl (x ∷ s))
unfolding find_str
find_single_crnl x s h = ground arith

join_first :
    (x : ℕ) (p : Bytes) (lines : List Bytes) → (t : Bytes) × (join crnl ((x ∷ p) ∷ lines) ≡ x ∷ t)
join_first x p [] = (p, refl)
join_first x p (l ∷ lines) = (p ++ (crnl ++ join crnl (l ∷ lines)), refl)

find_between :
    (next : Bytes) (lines : List Bytes) (tail : Bytes)
    → IsLine next
    → find_str crnlcrnl (crnl ++ (join crnl (next ∷ lines) ++ tail))
      ≡ shift 2 (find_str crnlcrnl (join crnl (next ∷ lines) ++ tail))
find_between [] lines tail h = absurd (h.0 refl)
find_between (x ∷ p) lines tail h =
    let (t, e) = join_first x p lines in rw e (find_single_crnl x (t ++ tail) h.1.0)

pub find_end :
    (line : Bytes) (lines : List Bytes) (body : Bytes)
    → All IsLine (line ∷ lines)
    → find_str crnlcrnl (join crnl (line ∷ lines) ++ (crnlcrnl ++ body))
      ≡ some (length (join crnl (line ∷ lines)))
unfolding find_str
find_end line [] body h =
    rw (find_str-skip (codes "\n\r\n") line (crnlcrnl ++ body) h.0.1) (ap some (omega arith))
find_end line (next ∷ lines) body h =
    let rest : Bytes = join crnl (next ∷ lines) in
    rw
      (
        append_assoc line (crnl ++ rest) (crnlcrnl ++ body),
        find_str-skip (codes "\n\r\n") line (crnl ++ (rest ++ (crnlcrnl ++ body))) h.0.1,
        find_between next lines (crnlcrnl ++ body) h.1.0,
        find_end next lines body h.1,
      )
      (ap some (omega (arith, length-append line (crnl ++ rest))))
