-- ===== src/Prelude/Maps.antt =====
-- `HashMap`, as an association list: one entry for each key. The order of `values` is one of those
-- that Rust leaves open.
use mathlib.Core.Path.{◌≡◌, refl, ◌∙◌}
use mathlib.Core.Logic.{◌≢◌, inl, inr}
use mathlib.Core.Bool.{Bool}
use mathlib.Core.Option.{Option, none, some}
use mathlib.Core.List.{List, [], ◌∷◌, map}
use native.Mathlib.Omega.{arith}
use agentchat.Prelude.Tests.{if◌then◌else◌, is_some, Option-cases}
use agentchat.Prelude.Equality.{Equality, ◌==◌, ==_iff, ==_refl}

abbrev pub HashMap {ℓ κ} : Type ℓ → Type κ → Type (ℓ ⊔ κ)
HashMap K V = List (K × V)

-- `option.map(f)` and `option.unwrap_or(d)`.
abbrev pub changed {ℓ} : {V : Type ℓ} → (V → V) → Option V → Option V
changed f none = none
changed f (some v) = some (f v)

abbrev pub unwrap_or {ℓ} : {A : Type ℓ} → A → Option A → A
unwrap_or d none = d
unwrap_or d (some a) = a

module _ {ℓ κ} {K : Type ℓ} {V : Type κ} ⦃e : Equality K⦄ where
  unfoldable pub lookup : HashMap K V → K → Option V
  lookup [] k = none
  lookup ((j, v) ∷ m) k = let rest = lookup m k in if j == k then some v else rest

  unfoldable pub insert : HashMap K V → K → V → HashMap K V
  insert [] k v = (k, v) ∷ []
  insert ((j, w) ∷ m) k v = let rest = insert m k v in if j == k then (j, v) ∷ m else (j, w) ∷ rest

  unfoldable pub erase : HashMap K V → K → HashMap K V
  erase [] k = []
  erase ((j, w) ∷ m) k = let rest = erase m k in if j == k then rest else (j, w) ∷ rest

  -- `contains_key`.
  unfoldable pub contains_key : HashMap K V → K → Bool
  unfolding lookup
  contains_key m k = is_some (lookup m k)

  -- `if let Some(v) = map.get_mut(k) { *v = f(v) }`.
  unfoldable pub modify : HashMap K V → K → (V → V) → HashMap K V
  unfolding lookup insert
  modify m k f = elim (lookup m k) [ none ↦ m | some v ↦ insert m k (f v) ]

  abbrev pub values : HashMap K V → List V
  values m = map (λ p. p.1) m

  pub lookup-insert_self : (m : HashMap K V) (k : K) (v : V) → lookup (insert m k v) k ≡ some v
  unfolding lookup insert
  lookup-insert_self [] k v = ground (arith, ==_refl k)
  lookup-insert_self ((j, w) ∷ m) k v = ground (arith, lookup-insert_self m k v)

  pub lookup-insert_ne :
      (m : HashMap K V) (j k : K) (v : V) → j ≢ k → lookup (insert m j v) k ≡ lookup m k
  unfolding lookup insert
  lookup-insert_ne [] j k v h = ground (arith, ==_iff j k)
  lookup-insert_ne ((i, w) ∷ m) j k v h =
      ground (arith, ==_iff i j, ==_iff i k, ==_iff j k, lookup-insert_ne m j k v h)

  pub lookup-erase_self : (m : HashMap K V) (k : K) → lookup (erase m k) k ≡ none
  unfolding lookup erase
  lookup-erase_self [] k = refl
  lookup-erase_self ((j, w) ∷ m) k = ground (arith, lookup-erase_self m k)

  pub lookup-erase_ne : (m : HashMap K V) (j k : K) → j ≢ k → lookup (erase m j) k ≡ lookup m k
  unfolding lookup erase
  lookup-erase_ne [] j k h = refl
  lookup-erase_ne ((i, w) ∷ m) j k h =
      ground (arith, ==_iff i j, ==_iff i k, lookup-erase_ne m j k h)

  -- A map as a function, read after a write.
  pub lookup-insert :
      (m : HashMap K V) (j k : K) (v : V)
      → lookup (insert m j v) k ≡ (if j == k then some v else lookup m k)
  unfolding lookup insert
  lookup-insert [] j k v = ground (arith, ==_iff j k)
  lookup-insert ((i, w) ∷ m) j k v =
      ground (arith, ==_iff i j, ==_iff i k, ==_iff j k, lookup-insert m j k v)

  pub lookup-erase :
      (m : HashMap K V) (j k : K) → lookup (erase m j) k ≡ (if j == k then none else lookup m k)
  unfolding lookup erase
  lookup-erase [] j k = ground arith
  lookup-erase ((i, w) ∷ m) j k =
      ground (arith, ==_iff i j, ==_iff i k, ==_iff j k, lookup-erase m j k)

  pub lookup-modify :
      (m : HashMap K V) (j k : K) (f : V → V)
      → lookup (modify m j f) k ≡ (if j == k then changed f (lookup m k) else lookup m k)
  unfolding modify
  lookup-modify m j k f = elim (Option-cases (lookup m j)) [
    | inl e ↦ rw (e, modify) (kept e)
    | inr (v, e) ↦ rw (e, modify) (lookup-insert m j k (f v) ∙ written v e)
  ]
    where
      kept :
          lookup m j ≡ none → lookup m k ≡ (if j == k then changed f (lookup m k) else lookup m k)
      kept missing = ground (arith, ==_iff j k)

      written :
          (v : V)
          → lookup m j ≡ some v
          → (if j == k then some (f v) else lookup m k)
            ≡ (if j == k then changed f (lookup m k) else lookup m k)
      written v found = ground (arith, ==_iff j k)
