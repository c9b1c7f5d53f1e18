-- ===== src/HttpBinder/Register.antt =====
-- include/weblib/server/HttpBinder.hpp: what a registration adds to the table.
use web_library.Base.{
  ◌++◌, any, append_assoc, append-nil, Exception, List, [], ◌∷◌, true, false, Option, none, some,
  Bytes, if◌then◌else◌, Result, ok, throw, endpoint_already_set, filter_before_controller, ◌>>=◌,
  Bool-cases, Option-cases, lookup, contains, emplace, or_else, bytes_eq, bytes_eq_iff,
  lookup-emplace, lookup-assign, ◌≡◌, ◌≢◌, ◌⊎◌, inl, inr, refl, sym, ap, ◌∙◌, arith,
}
use mathlib.Core.Option
use web_library.RequestType.{RequestType, type_eq}
use web_library.Utils.{process_url_str, extract_params}
use web_library.HttpHandle.{
  HttpHandle, Handler, Filter, add_filter, new_handle, add_http_method, set_handle_method,
  set_parameters, set_path, has_method,
}
use web_library.HttpBinder.{HttpBinder, add_methods, handle_for, register_handler, register_filter}

pub ok_injective : {A : Type 0} {a b : A} → ok a ≡ ok b → a ≡ b
ok_injective e = cc

pub throw-ne-ok : {e : Exception} {b : HttpBinder} → ◌≢◌ {A = Result HttpBinder} (throw e) (ok b)
throw-ne-ok h = cc

some_else :
    (o : Option HttpHandle) (v : HttpHandle) {p : Option HttpHandle}
    → p ≡ or_else o (some v)
    → (w : HttpHandle) × (p ≡ some w)
some_else none v h = (v, h)
some_else (some w) v h = (w, h)

-- What a registration that succeeds has found and done.
pub registered :
    (name : Bytes) (handler : Handler) (types : List RequestType) (b : HttpBinder) {b' : HttpBinder}
    {key : Bytes}
    → register_handler name handler types b ≡ ok b'
    → process_url_str name ≡ ok key
    → (contains name b ≡ false) × (b' ≡ emplace key (handle_for name handler types) b)
unfolding register_handler
registered name handler types b {b'} {key} h e = elim (Bool-cases (contains name b)) [
  | inl there ↦ absurd (throw-ne-ok (rw (there, register_handler) at h))
  | inr free ↦ (free, sym (ok_injective (rw (free, e, register_handler) at h)))
]

-- A registration that succeeds adds the endpoint under its processed name, unless there is one with this
-- processed name already: that one stays. All other entries are as before.
pub register_handler-lookup :
    (name : Bytes) (handler : Handler) (types : List RequestType) (b : HttpBinder) {b' : HttpBinder}
    {key : Bytes} (j : Bytes)
    → register_handler name handler types b ≡ ok b'
    → process_url_str name ≡ ok key
    → lookup j b'
      ≡ or_else (lookup j b) (if bytes_eq key j then some (handle_for name handler types) else none)
register_handler-lookup name handler types b {b'} {key} j h e =
    rw (registered name handler types b h e).1
      (lookup-emplace key j (handle_for name handler types) b)

emplace_present :
    (k : Bytes) (v w : HttpHandle) (m : HttpBinder) → lookup k m ≡ some w → emplace k v m ≡ m
unfolding lookup emplace
emplace_present k v w [] h = cc
emplace_present k v w ((j, u) ∷ m) h = elim (Bool-cases (bytes_eq j k)) [
  | inl e ↦ ground arith
  | inr e ↦ let rest = emplace_present k v w m (rw (e, lookup) at h) in ground arith
]

-- A second registration of the same name is refused exactly if the name is its own processed form, that
-- is, if it has no named hole. Any other name is registered again without an error and without an
-- effect: the new handler and its methods are dropped.
pub register_handler-twice :
    (name : Bytes) (handler handler' : Handler) (types types' : List RequestType) (b : HttpBinder)
    {b' : HttpBinder} {key : Bytes}
    → register_handler name handler types b ≡ ok b'
    → process_url_str name ≡ ok key
    → register_handler name handler' types' b'
      ≡ (if bytes_eq key name then throw endpoint_already_set else ok b')
unfolding register_handler contains
register_handler-twice name handler handler' types types' b {b'} {key} h e =
    let (free, shape) = registered name handler types b h e in
    let own = register_handler-lookup name handler types b name h e in
    let stored = register_handler-lookup name handler types b key h e in
    let same : bytes_eq key key ≡ true = (bytes_eq_iff key key).1 refl in
    let (w, present) =
      some_else (lookup key b) (handle_for name handler types) (rw same at stored) in
    let kept = emplace_present key (handle_for name handler' types') w b' present in
    ground (arith, own, e, kept, free)

-- The entry under a key, in terms of the entry under j where the two are the same.
at_key :
    (key j : Bytes) (filter : Filter) (handle : HttpHandle) (b : HttpBinder)
    → (bytes_eq key j ≡ true) ⊎ (bytes_eq key j ≡ false)
    → lookup key b ≡ some handle
    → (if bytes_eq key j then some (add_filter filter handle) else lookup j b)
      ≡ (if bytes_eq key j then Option.map (add_filter filter) (lookup j b) else lookup j b)
at_key key j filter handle b (inl e) found =
    let same : lookup j b ≡ some handle =
      ap (λ t. lookup t b) (sym ((bytes_eq_iff key j).0 e)) ∙ found in
    rw (e, same) refl
at_key key j filter handle b (inr e) found = rw e refl

-- A filter is added behind the others of the endpoint with the processed route, and to no other; where
-- there is no such endpoint, it is refused.
pub register_filter-lookup :
    (route : Bytes) (filter : Filter) (b : HttpBinder) (key j : Bytes)
    → process_url_str route ≡ ok key
    → (register_filter route filter b >>= λ b'. ok (lookup j b')) ≡ (
        if contains key b
        then ok (if bytes_eq key j then Option.map (add_filter filter) (lookup j b) else lookup j b)
        else throw filter_before_controller)
unfolding register_filter contains
register_filter-lookup route filter b key j e = elim (Option-cases (lookup key b)) [
  | inl lost ↦ ground arith
  | inr (handle, found) ↦
      let after = lookup-assign key j (add_filter filter handle) b in
      let added = after ∙ at_key key j filter handle b (Bool-cases (bytes_eq key j)) found in
      ground (arith, added)
]

add_methods_lem :
    (types : List RequestType) (h : HttpHandle)
    → add_methods types h ≡ record h { methods = h.methods ++ types }
unfolding add_methods add_http_method
add_methods_lem [] h = rw (append-nil h.methods) refl
add_methods_lem (type ∷ types) h =
    add_methods_lem types (add_http_method type h)
    ∙ ap (λ t. record h { methods = t }) (append_assoc h.methods (type ∷ []) types)

-- What register_handler stores.
pub handle_for_lem :
    (name : Bytes) (handler : Handler) (types : List RequestType)
    → handle_for name handler types ≡ record {
      methods = types;
      filters = [];
      parameters = extract_params name;
      path = name;
      handle = some handler;
    }
unfolding handle_for new_handle set_handle_method set_parameters set_path
handle_for_lem name handler types =
    ap (λ t. set_path name (set_parameters (extract_params name) (set_handle_method handler t)))
      (add_methods_lem types new_handle)

pub has_method-handle_for :
    (name : Bytes) (handler : Handler) (types : List RequestType) (type : RequestType)
    → has_method type (handle_for name handler types) ≡ any (λ t. type_eq t type) types
unfolding has_method
has_method-handle_for name handler types type =
    ap (λ h. any (λ t. type_eq t type) h.methods) (handle_for_lem name handler types)
