-- ===== src/Utils.antt =====
-- server/utils.cpp: the string helpers. A loop over a string is a function of the part of it that
-- is still to be read, and its fuel is the length of that part, since each round reads a byte.
pub mod Trim
pub mod Template
pub mod Params
pub mod RequestLine
mod Tests
use mathlib.Core.List.{reverse}
use mathlib.Core.Option
use web_library.Base.{
  ℕ, zero, suc, ◌+◌, ◌-◌, true, false, List, [], ◌∷◌, ◌++◌, map, Option, none, some, Bytes, codes,
  find, take, drop, length, sub64, leb, ◌&&◌, ◌==◌, if◌then◌else◌, is_space, Result, ok, throw,
  runtime_error,
}

abbrev pub open_brace : ℕ
open_brace = b'{'

abbrev pub close_brace : ℕ
close_brace = b'}'

-- The loop of `process_url_str`; `rest` is url from idx on.
process_from : ℕ → Bytes → Bytes → Result Bytes
process_from zero rest result = ok result
process_from (suc fuel) [] result = ok result
process_from (suc fuel) (c ∷ rest) result = elim (c == open_brace) [
  | true ↦ elim (find close_brace rest) [
    | none ↦ throw (runtime_error (codes "Ill-formed template path"))
    | some n ↦ process_from fuel (drop (suc n) rest) (result ++ codes "{}")
  ]
  | false ↦ process_from fuel rest (result ++ c ∷ [])
]

unfoldable pub process_url_str : Bytes → Result Bytes
unfolding process_from
process_url_str url = process_from (length url) url []

-- std::ranges::find_if with !isspace, and the erasure up to there.
drop_spaces : Bytes → Bytes
drop_spaces [] = []
drop_spaces (c ∷ s) = if is_space c then drop_spaces s else c ∷ s

-- The test is isspace of a plain char, which is taken to be unsigned: where char is signed, it is
-- undefined for a byte from 128 on, at which the search from the end arrives.
unfoldable pub trim_r : Bytes → Bytes
unfolding drop_spaces is_space
trim_r s = reverse (drop_spaces (reverse s))

unfoldable pub trim_l : Bytes → Bytes
unfolding drop_spaces is_space
trim_l s = drop_spaces s

unfoldable pub trim : Bytes → Bytes
unfolding trim_r trim_l
trim s = trim_r (trim_l s)

-- std::tolower in the "C" locale
unfoldable pub to_lower : ℕ → ℕ
to_lower c = if leb b'A' c && leb c b'Z' then c + 32 else c

unfoldable pub to_lowercase_str : Bytes → Bytes
unfolding to_lower
to_lowercase_str s = map to_lower s

-- The loop of `extract_params`; url loses its front in each round. If the first '}' stands before
-- the first '{', the length wraps around, and `substr` takes all there is.
extract_from : ℕ → Bytes → List Bytes → List Bytes
extract_from zero url key_names = key_names
extract_from (suc fuel) url key_names = elim (find open_brace url) [
  | none ↦ key_names
  | some start_pos ↦ elim (find close_brace url) [
    | none ↦ key_names
    | some end_pos ↦
        extract_from fuel (drop (suc end_pos) url)
          (key_names ++ take (sub64 (sub64 end_pos start_pos) 1) (drop (suc start_pos) url) ∷ [])
  ]
]

unfoldable pub extract_params : Bytes → List Bytes
unfolding extract_from
extract_params url = extract_from (length url) url []

abbrev pub ill_formed {ℓ} : {A : Type ℓ} → Result A
ill_formed = throw (runtime_error (codes "HTTP request is ill-formed"))

-- The second `find` starts behind the first space, so its place is never before it.
unfoldable pub parse_request_line : Bytes → Result (Bytes × Bytes)
parse_request_line raw_http = elim (find 32 raw_http) [
  | none ↦ ill_formed
  | some space_after_method ↦
      let method = take space_after_method raw_http in
      elim (Option.map (λ n. suc space_after_method + n)
        (find 32 (drop (suc space_after_method) raw_http))) [
          | none ↦ ill_formed
          | some space_after_path ↦ ok (
            method,
            take (space_after_path - space_after_method - 1)
                (drop (suc space_after_method) raw_http),
          )
        ]
]
