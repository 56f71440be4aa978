-- ===== src/Prelude/Firsts.antt =====
-- The first element of each kind, by a test and without a set.
use mathlib.Core.Path.{◌≡◌, refl, sym, ap, ◌∙◌}
use mathlib.Core.Logic.{inl, inr}
use mathlib.Core.Bool.{Bool, true, not}
use mathlib.Core.List.{List, [], ◌∷◌}
use native.Mathlib.Omega.{arith}
use agentchat.Prelude.Tests.{Bool-cases}
use agentchat.Prelude.Equality.{Equality, ◌==◌, ==_iff}
use agentchat.Prelude.Lists.{contains, filter}
use agentchat.Prelude.Unique.{unique_from, unique_old, unique_new}

module _ {ℓ} {A : Type ℓ} where
  -- The elements that are the same as none before them, said from the other end: each drops its likes
  -- from what follows.
  abbrev pub firsts : (A → A → Bool) → List A → List A
  firsts same [] = []
  firsts same (x ∷ xs) = x ∷ filter (λ y. not (same y x)) (firsts same xs)

module _ {ℓ κ} {A : Type ℓ} {K : Type κ} ⦃e : Equality K⦄ (key : A → K) (same : A → A → Bool)
    (same_key : (x y : A) → same x y ≡ (key x == key y)) where
  filter-seen :
      (seen : List K) (x : A) (xs : List A)
      → contains seen (key x) ≡ true
      → filter (λ y. not (contains seen (key y))) (filter (λ y. not (same y x)) xs)
        ≡ filter (λ y. not (contains seen (key y))) xs
  filter-seen seen x [] h = refl
  filter-seen seen x (y ∷ ys) h = ground (
    arith,
    h,
    filter-seen seen x ys h,
    same_key y x,
    ==_iff (key y) (key x),
    ap (contains seen) {x = key y} {y = key x},
  )

  filter-new :
      (seen : List K) (x : A) (xs : List A)
      → filter (λ y. not (contains seen (key y))) (filter (λ y. not (same y x)) xs)
        ≡ filter (λ y. not (contains (key x ∷ seen) (key y))) xs
  unfolding contains
  filter-new seen x [] = refl
  filter-new seen x (y ∷ ys) =
      ground
        (arith, filter-new seen x ys, same_key y x, ==_iff (key y) (key x), ==_iff (key x) (key y))

  unique_from-seen :
      (seen : List K) (xs : List A)
      → unique_from key seen xs ≡ filter (λ y. not (contains seen (key y))) (firsts same xs)
  unique_from-seen seen [] = unfold unique_from in refl
  unique_from-seen seen (x ∷ xs) = elim (Bool-cases (contains seen (key x))) [
    | inl h ↦
        rw (unique_old key seen x xs h, h)
          (unique_from-seen seen xs ∙ sym (filter-seen seen x (firsts same xs) h))
    | inr h ↦
        rw (unique_new key seen x xs h, h)
          (ap (λ t. x ∷ t)
            (unique_from-seen (key x ∷ seen) xs ∙ sym (filter-new seen x (firsts same xs))))
  ]

  none_seen : (xs : List A) → filter (λ y. not (contains [] (key y))) xs ≡ xs
  unfolding contains
  none_seen [] = refl
  none_seen (x ∷ xs) = ap (λ t. x ∷ t) (none_seen xs)

  -- What the loop with the set keeps.
  pub unique_from-firsts : (xs : List A) → unique_from key [] xs ≡ firsts same xs
  unique_from-firsts xs = unique_from-seen [] xs ∙ none_seen (firsts same xs)
