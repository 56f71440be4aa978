-- ===== src/Prelude/Split.antt =====
-- A filtered list split in two by exclusive tests, and filters of filters.
use mathlib.Core.Path.{◌≡◌, refl, ap}
use mathlib.Core.Logic.{inl, inr}
use mathlib.Core.Bool.{Bool, true, false, ◌||◌, ◌&&◌}
use mathlib.Core.List.{List, [], ◌∷◌, ◌++◌, Perm, perm_middle}
use mathlib.Core.List.Perm
use Prim.Native.Nat.{◌+◌}
use native.Mathlib.Omega.{arith}
use agentchat.Prelude.Tests.{Bool-cases}
use agentchat.Prelude.Lists.{filter, length}

-- Two tests that never hold together, and hold together as often as a third.
pub record SplitsInto {ℓ} {A : Type ℓ} (p q r : A → Bool) : Type ℓ where
  pub either : (x : A) → r x ≡ (p x || q x)
  pub never_both : (x : A) → (p x && q x) ≡ false

module _ {ℓ} {A : Type ℓ} where
  filter_yes :
      (p : A → Bool) (x : A) (xs : List A) → p x ≡ true → filter p (x ∷ xs) ≡ x ∷ filter p xs
  filter_yes p x xs h = rw h

  filter_no : (p : A → Bool) (x : A) (xs : List A) → p x ≡ false → filter p (x ∷ xs) ≡ filter p xs
  filter_no p x xs h = rw h

  pub filter_split-perm :
      (p q r : A → Bool) (xs : List A)
      → SplitsInto p q r
      → Perm (filter p xs ++ filter q xs) (filter r xs)
  filter_split-perm p q r [] s = Perm.refl []
  filter_split-perm p q r (x ∷ xs) s =
      let ih = filter_split-perm p q r xs s in
      elim (Bool-cases (p x)) [
        | inl e ↦
            rw
              (
                filter_yes p x xs e,
                filter_no q x xs (ground (arith, s.never_both x)),
                filter_yes r x xs (ground (arith, s.either x)),
              )
              (Perm.cons x ih)
        | inr e ↦ elim (Bool-cases (q x)) [
          | inl k ↦
              rw
                (
                  filter_no p x xs e,
                  filter_yes q x xs k,
                  filter_yes r x xs (ground (arith, s.either x)),
                )
                (Perm.trans (perm_middle (filter p xs) (filter q xs)) (Perm.cons x ih))
          | inr k ↦
              rw
                (
                  filter_no p x xs e,
                  filter_no q x xs k,
                  filter_no r x xs (ground (arith, s.either x)),
                )
                ih
        ]
      ]

  pub length-filter_split :
      (p q r : A → Bool) (xs : List A)
      → SplitsInto p q r
      → length (filter p xs) + length (filter q xs) ≡ length (filter r xs)
  length-filter_split p q r [] s = omega arith
  length-filter_split p q r (x ∷ xs) s =
      ground (arith, length-filter_split p q r xs s, s.either x, s.never_both x)

  pub filter-filter :
      (p q : A → Bool) (xs : List A) → filter p (filter q xs) ≡ filter (λ x. q x && p x) xs
  filter-filter p q [] = refl
  filter-filter p q (x ∷ xs) = ground (arith, filter-filter p q xs)

  pub filter_all : (xs : List A) → filter (λ _. true) xs ≡ xs
  filter_all [] = refl
  filter_all (x ∷ xs) = ap (λ t. x ∷ t) (filter_all xs)
