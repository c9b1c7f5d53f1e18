-- ===== src/HttpBinder/Tables.antt =====
-- include/weblib/server/HttpBinder.hpp: the tables that registrations make.
mod Tests
use web_library.Base.{
  List, [], ◌∷◌, Bytes, some, none, Result, ok, throw, lookup, contains, emplace, assign, All,
  Unique, emplace-Unique, assign-Unique, All-emplace, All-assign, All-lookup, Option-cases,
  >>=-eq-ok, Bool-cases, inl, inr, ◌≡◌, refl, sym, ap, subst, ◌∙◌, arith,
}
use web_library.RequestType.{RequestType}
use web_library.Utils.{process_url_str, extract_params}
use web_library.HttpHandle.{HttpHandle, Handler, Filter, add_filter}
use web_library.HttpBinder.{HttpBinder, handle_for, register_handler, register_filter}
use web_library.HttpBinder.Find.{Entry}
use web_library.HttpBinder.Register.{throw-ne-ok, ok_injective, handle_for_lem}

-- Registrations that succeeded, one after another, on the table that is empty at first.
pub data Made : HttpBinder → Type 0 where
  at_first : Made []
  by_handler :
      {b b' : HttpBinder} (name : Bytes) (handler : Handler) (types : List RequestType)
      → register_handler name handler types b ≡ ok b'
      → Made b
      → Made b'
  by_filter :
      {b b' : HttpBinder} (route : Bytes) (filter : Filter)
      → register_filter route filter b ≡ ok b'
      → Made b
      → Made b'

-- The handle stands under the processed form of its path, has the parameters of its path, and a handler.
abbrev pub WellFormed : Entry → Type 0
WellFormed (key, h) =
    (process_url_str h.path ≡ ok key)
    × (h.parameters ≡ extract_params h.path)
    × ((handler : Handler) × (h.handle ≡ some handler))

handle_for-WellFormed :
    (key name : Bytes) (handler : Handler) (types : List RequestType)
    → process_url_str name ≡ ok key
    → WellFormed (key, handle_for name handler types)
handle_for-WellFormed key name handler types e =
    subst (λ h. WellFormed (key, h)) (sym (handle_for_lem name handler types))
      (e, refl, (handler, refl))

add_filter-WellFormed :
    (key : Bytes) (filter : Filter) (h : HttpHandle)
    → WellFormed (key, h)
    → WellFormed (key, add_filter filter h)
unfolding add_filter
add_filter-WellFormed key filter h good = good

handler_stored :
    (name : Bytes) (handler : Handler) (types : List RequestType) (b : HttpBinder) {b' : HttpBinder}
    → register_handler name handler types b ≡ ok b'
    → (key : Bytes) × (process_url_str name ≡ ok key)
      × (b' ≡ emplace key (handle_for name handler types) b)
unfolding register_handler
handler_stored name handler types b {b'} h = elim (Bool-cases (contains name b)) [
  | inl taken ↦ absurd (throw-ne-ok (rw (taken, register_handler) at h))
  | inr free ↦
      let (key, e, stored) =
        >>=-eq-ok (process_url_str name) _ (rw (free, register_handler) at h) in
      (key, e, sym (ok_injective stored))
]

filter_stored :
    (route : Bytes) (filter : Filter) (b : HttpBinder) {b' : HttpBinder}
    → register_filter route filter b ≡ ok b'
    → (key : Bytes) × (handle : HttpHandle) × (lookup key b ≡ some handle)
      × (b' ≡ assign key (add_filter filter handle) b)
unfolding register_filter
filter_stored route filter b {b'} h =
    let (key, e, h') = >>=-eq-ok (process_url_str route) _ h in
    elim (Option-cases (lookup key b)) [
      | inl lost ↦ absurd (ground arith)
      | inr (handle, found) ↦ (key, handle, found, ground (arith, found))
    ]

-- In every table that registrations of handlers and of filters make, one after another from the empty one
-- and each without an error, no key stands twice, and each handle stands under the processed form of its
-- path, has the names of the path's holes as its parameters, and has a handler, so that a call of it does
-- not find its function missing.
pub Made-WellFormed : (b : HttpBinder) → Made b → Unique b × All WellFormed b
Made-WellFormed b at_first = (tt, tt)
Made-WellFormed b (by_handler {b = b0} name handler types h made) =
    let (key, e, shape) = handler_stored name handler types b0 h in
    let (unique, good) = Made-WellFormed b0 made in
    let handle = handle_for name handler types in
    subst (λ t. Unique t × All WellFormed t) (sym shape)
      (
        emplace-Unique key handle b0 unique,
        All-emplace WellFormed key handle b0 (handle_for-WellFormed key name handler types e) good,
      )
Made-WellFormed b (by_filter {b = b0} route filter h made) =
    let (key, handle, found, shape) = filter_stored route filter b0 h in
    let (unique, good) = Made-WellFormed b0 made in
    let guarded = add_filter filter handle in
    subst (λ t. Unique t × All WellFormed t) (sym shape)
      (
        assign-Unique key guarded b0 unique,
        All-assign WellFormed key guarded b0
            (add_filter-WellFormed key filter handle
              (All-lookup WellFormed key handle b0 good found))
            good,
      )
