-- ===== src/HttpBinder/Find.antt =====
-- include/weblib/server/HttpBinder.hpp: `find_handle`, whatever the order in which the table is
-- iterated.
use web_library.Base.{
  List, [], ◌∷◌, Bool, true, false, none, some, Bytes, Result, ok, throw, undefined, >>=-eq-ok, All,
  Bool-cases, ◌≡◌, ◌≢◌, ◌↔◌, ◌⊎◌, inl, inr, refl, ap, subst, ◌∙◌, arith,
}
use web_library.RequestType.{RequestType}
use web_library.HttpHandle.{HttpHandle, has_method}
use web_library.HttpBinder.{HttpBinder, find_handle, match_path}

pub data In {A : Type 0} (x : A) : List A → Type 0 where
  here : {xs : List A} → In x (x ∷ xs)
  there : {y : A} {xs : List A} → In x xs → In x (y ∷ xs)

abbrev pub Entry : Type 0
Entry = Bytes × HttpHandle

abbrev pub Serves : Bytes → RequestType → Entry → Type 0
Serves path type (pattern, handle) =
    (has_method type handle ≡ true) × (match_path pattern path ≡ ok true)

abbrev pub Refuses : Bytes → RequestType → Entry → Type 0
Refuses path type (pattern, handle) =
    (has_method type handle ≡ false) ⊎ (match_path pattern path ≡ ok false)

-- What a call of `match_path` can come to.
data Verdict (m : Result Bool) : Type 0 where
  matched : m ≡ ok true → Verdict m
  missed : m ≡ ok false → Verdict m
  failed : ((b : Bool) → m ≢ ok b) → Verdict m

verdict : (m : Result Bool) → Verdict m
verdict (ok true) = matched refl
verdict (ok false) = missed refl
verdict (throw e) = failed (λ b. cc)
verdict undefined = failed (λ b. cc)

module _ (path : Bytes) (type : RequestType) where
  -- A handle that is found stands in the table, has the method, and its pattern matches the path.
  pub find_handle_sound :
      (m_handles : HttpBinder) {handle : HttpHandle}
      → find_handle path type m_handles ≡ ok (some handle)
      → (pattern : Bytes) × In (pattern, handle) m_handles × Serves path type (pattern, handle)
  unfolding find_handle
  find_handle_sound [] h = cc
  find_handle_sound ((pattern, handle') ∷ m) {handle} h =
      elim (Bool-cases (has_method type handle')) [
        | inr other ↦
            let (p, i, s) = find_handle_sound m {handle = handle} (rw (other, find_handle) at h) in
            (p, there i, s)
        | inl same ↦ elim (verdict (match_path pattern path)) [
          | matched e ↦
              let found : handle' ≡ handle = ground arith in
              subst
                (λ x. (p : Bytes) × In (p, x) ((pattern, handle') ∷ m) × Serves path type (p, x))
                found (pattern, here, (same, e))
          | missed e ↦
              let (p, i, s) =
                find_handle_sound m {handle = handle} (rw (same, e, find_handle) at h) in
              (p, there i, s)
          | failed f ↦
              let (b, e, _) = >>=-eq-ok (match_path pattern path) _ (rw (same, find_handle) at h) in
              absurd (f b e)
        ]
      ]

  -- No handle is found exactly if every entry of the table lacks the method or does not match the path:
  -- an entry that fits is never missed, wherever it stands in the iteration.
  pub find_handle-none :
      (m_handles : HttpBinder)
      → (find_handle path type m_handles ≡ ok none) ↔ All (Refuses path type) m_handles
  unfolding find_handle
  find_handle-none [] = (λ e. tt, λ t. refl)
  find_handle-none ((pattern, handle) ∷ m) = ground (arith, find_handle-none m)

  pub find_handle_skip :
      (m : HttpBinder) (other : Entry)
      → Refuses path type other
      → find_handle path type (other ∷ m) ≡ find_handle path type m
  unfolding find_handle
  find_handle_skip m (pattern, handle) h = ground arith

  pub find_handle_hit :
      (m : HttpBinder) (e : Entry)
      → Serves path type e
      → find_handle path type (e ∷ m) ≡ ok (some e.1)
  unfolding find_handle
  find_handle_hit m (pattern, handle) (a, b) = rw (a, b, find_handle) refl

  -- Where the entries that have the method and match the path all hold one handle, and every other entry
  -- refuses the path, that handle is found, whatever the order of the iteration.
  pub find_handle_only :
      (m_handles : HttpBinder) (e : Entry)
      → In e m_handles
      → Serves path type e
      → All
          (λ other. Refuses path type other ⊎ ((other.1 ≡ e.1) × Serves path type other))
          m_handles
      → find_handle path type m_handles ≡ ok (some e.1)
  find_handle_only [] e i s h = elim i [ ]
  find_handle_only (o ∷ m) e here s h = find_handle_hit m o s
  find_handle_only (o ∷ m) e (there i) s h = elim (h.0) [
    | inl refused ↦ find_handle_skip m o refused ∙ find_handle_only m e i s h.1
    | inr (same, served) ↦ find_handle_hit m o served ∙ ap (λ x. ok (some x)) same
  ]
