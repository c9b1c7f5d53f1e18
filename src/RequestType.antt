-- ===== src/RequestType.antt =====
-- include/weblib/server/RequestType.hpp: the HTTP methods, and their names.
mod Tests
use web_library.Base.{
  ◌↔◌, ap, ◌∙◌, ◌≡◌, ◌⊎◌, inl, inr, refl, sym, arith, Bytes, codes, bytes_eq, bytes_eq_iff,
  if◌then◌else◌, Bool, true, false, ◌≢◌, Bool-cases,
}
use web_library.Consts.HttpConsts

pub data RequestType : Type 0 where
  post get put delete options : RequestType

-- The last branch of the code, for a value outside the enumeration, is not reached.
unfoldable pub req_type_to_str : RequestType → Bytes
req_type_to_str get = HttpConsts.method_get
req_type_to_str post = HttpConsts.method_post
req_type_to_str options = HttpConsts.method_options
req_type_to_str put = HttpConsts.method_put
req_type_to_str delete = HttpConsts.method_delete

unfoldable pub req_type_from_str : Bytes → RequestType
req_type_from_str str =
    if bytes_eq str (HttpConsts.method_get)
    then get
    else if bytes_eq str (HttpConsts.method_post)
    then post
    else if bytes_eq str (HttpConsts.method_options)
    then options
    else if bytes_eq str (HttpConsts.method_put)
    then put
    else if bytes_eq str (HttpConsts.method_delete)
    then delete
    else get

-- `==` on the enumeration
unfoldable pub type_eq : RequestType → RequestType → Bool
type_eq post post = true
type_eq get get = true
type_eq put put = true
type_eq delete delete = true
type_eq options options = true
type_eq _ _ = false

pub type_eq_refl : (t : RequestType) → type_eq t t ≡ true
unfolding type_eq
type_eq_refl post = refl
type_eq_refl get = refl
type_eq_refl put = refl
type_eq_refl delete = refl
type_eq_refl options = refl

to_str-from_str : (t : RequestType) → req_type_from_str (req_type_to_str t) ≡ t
unfolding req_type_from_str req_type_to_str bytes_eq
to_str-from_str post = refl
to_str-from_str get = refl
to_str-from_str put = refl
to_str-from_str delete = refl
to_str-from_str options = refl

get-or-not : (t : RequestType) → (t ≡ get) ⊎ (t ≢ get)
get-or-not get = inl refl
get-or-not post = inr cc
get-or-not put = inr cc
get-or-not delete = inr cc
get-or-not options = inr cc

from_str-cases :
    (s : Bytes) → (req_type_to_str (req_type_from_str s) ≡ s) ⊎ (req_type_from_str s ≡ get)
unfolding req_type_from_str req_type_to_str
from_str-cases s = ground (
  arith,
  bytes_eq_iff s (HttpConsts.method_get),
  bytes_eq_iff s (HttpConsts.method_post),
  bytes_eq_iff s (HttpConsts.method_options),
  bytes_eq_iff s (HttpConsts.method_put),
  bytes_eq_iff s (HttpConsts.method_delete),
)

reads_as_get :
    (s : Bytes) → ((u : RequestType) → u ≢ get → s ≢ req_type_to_str u) → req_type_from_str s ≡ get
reads_as_get s h = elim (from_str-cases s) [
  | inr e ↦ e
  | inl e ↦ elim (get-or-not (req_type_from_str s)) [
    | inl g ↦ g
    | inr ne ↦ absurd (h (req_type_from_str s) ne (sym e))
  ]
]

-- A method is read back from its name, and a text reads as GET exactly if it is not the name of
-- another method.
pub req_type_round_trip :
    (t : RequestType) (s : Bytes)
    → (req_type_from_str (req_type_to_str t) ≡ t)
      × ((req_type_from_str s ≡ get) ↔ ((u : RequestType) → u ≢ get → s ≢ req_type_to_str u))
req_type_round_trip t s = (
  to_str-from_str t,
  (
    λ e u ne shape. ne (sym (to_str-from_str u) ∙ ap req_type_from_str (sym shape) ∙ e),
    λ h. reads_as_get s h,
  ),
)
