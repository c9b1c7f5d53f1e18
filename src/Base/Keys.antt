-- ===== src/Base/Keys.antt =====
-- std::unordered_map<std::string, V>: a key stands once, and what holds of all entries.
use mathlib.Core.Path.{◌≡◌, refl, sym, subst}
use mathlib.Core.Logic.{inl, inr}
use mathlib.Core.Option.{none, some}
use mathlib.Core.List.{[], ◌∷◌}
use native.Mathlib.Omega.{arith}
use web_library.Base.Tests.{Bool-cases}
use web_library.Base.Lists.{All}
use web_library.Base.Text.{Bytes, bytes_eq, bytes_eq_iff}
use web_library.Base.Maps.{Dict, lookup, emplace, assign, lookup-emplace, lookup-assign}

module _ {ℓ} {V : Type ℓ} where
  -- No key stands twice.
  abbrev pub Unique : Dict V → Type ℓ
  Unique [] = Unit
  Unique ((k, v) ∷ m) = (lookup k m ≡ none) × Unique m

module _ {ℓ} {V : Type ℓ} where
  pub emplace-Unique : (k : Bytes) (v : V) (m : Dict V) → Unique m → Unique (emplace k v m)
  unfolding emplace lookup
  emplace-Unique k v [] h = (refl, tt)
  emplace-Unique k v ((j, w) ∷ m) (lost, h) = elim (Bool-cases (bytes_eq j k)) [
    | inl e ↦ rw e (lost, h)
    | inr e ↦
        let kept : lookup j (emplace k v m) ≡ none =
          ground (arith, lookup-emplace k j v m, lost, bytes_eq_iff k j, bytes_eq_iff j k, e) in
        rw e (kept, emplace-Unique k v m h)
  ]

  pub assign-Unique : (k : Bytes) (v : V) (m : Dict V) → Unique m → Unique (assign k v m)
  unfolding assign lookup
  assign-Unique k v [] h = (refl, tt)
  assign-Unique k v ((j, w) ∷ m) (lost, h) = elim (Bool-cases (bytes_eq j k)) [
    | inl e ↦ rw e (lost, h)
    | inr e ↦
        let kept : lookup j (assign k v m) ≡ none =
          ground (arith, lookup-assign k j v m, lost, bytes_eq_iff k j, bytes_eq_iff j k, e) in
        rw e (kept, assign-Unique k v m h)
  ]

some_injective {ℓ} : {A : Type ℓ} {a b : A} → some a ≡ some b → a ≡ b
some_injective e = cc

module _ {ℓ κ} {V : Type ℓ} (P : Bytes × V → Type κ) where
  pub All-emplace : (k : Bytes) (v : V) (m : Dict V) → P (k, v) → All P m → All P (emplace k v m)
  unfolding emplace
  All-emplace k v [] p h = (p, tt)
  All-emplace k v ((j, w) ∷ m) p (q, h) = elim (Bool-cases (bytes_eq j k)) [
    | inl e ↦ rw e (q, h)
    | inr e ↦ rw e (q, All-emplace k v m p h)
  ]

  pub All-assign : (k : Bytes) (v : V) (m : Dict V) → P (k, v) → All P m → All P (assign k v m)
  unfolding assign
  All-assign k v [] p h = (p, tt)
  All-assign k v ((j, w) ∷ m) p (q, h) = elim (Bool-cases (bytes_eq j k)) [
    | inl e ↦ rw e (subst (λ t. P (t, v)) (sym ((bytes_eq_iff j k).0 e)) p, h)
    | inr e ↦ rw e (q, All-assign k v m p h)
  ]

  pub All-lookup : (k : Bytes) (v : V) (m : Dict V) → All P m → lookup k m ≡ some v → P (k, v)
  unfolding lookup
  All-lookup k v [] h found = absurd (cc)
  All-lookup k v ((j, w) ∷ m) (q, h) found = elim (Bool-cases (bytes_eq j k)) [
    | inl e ↦
        let same : w ≡ v = some_injective (rw (e, lookup) at found) in
        subst (λ t. P (k, t)) same (subst (λ t. P (t, w)) ((bytes_eq_iff j k).0 e) q)
    | inr e ↦ All-lookup k v m h (rw (e, lookup) at found)
  ]
