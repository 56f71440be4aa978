-- ===== src/Prelude/Unique.antt =====
-- `filter(|x| seen.insert(key(x)))`: the first element of each key, in order. The set `seen` is a
-- `BTreeSet` that only `insert` reads, so the model keeps its members in a list.
use Prim.Native.Nat.{◌≤◌}
use mathlib.Core.Path.{◌≡◌, refl, sym, ap, ◌∙◌}
use mathlib.Core.Logic.{inl, inr}
use mathlib.Core.Bool.{true, false, ◌||◌, ◌&&◌, not}
use mathlib.Core.List.{List, [], ◌∷◌, ◌++◌, map, Memᴰ}
use native.Mathlib.Omega.{arith}
use agentchat.Prelude.Tests.{Bool-cases}
use agentchat.Prelude.Equality.{Equality, ◌==◌, ==_iff, ==_refl}
use agentchat.Prelude.Lists.{length, contains, filter}

module _ {ℓ} {K : Type ℓ} ⦃e : Equality K⦄ where
  pub contains-append :
      (xs ys : List K) (k : K) → contains (xs ++ ys) k ≡ (contains xs k || contains ys k)
  unfolding contains
  contains-append [] ys k = refl
  contains-append (x ∷ xs) ys k = ground (arith, contains-append xs ys k)

  pub contains→mem : (xs : List K) (k : K) → contains xs k ≡ true → Memᴰ k xs
  unfolding contains
  contains→mem [] k h = cc
  contains→mem (x ∷ xs) k h = elim (Bool-cases (x == k)) [
    | inl hit ↦ Memᴰ.head (sym ((==_iff x k).0 hit))
    | inr miss ↦ Memᴰ.tail (contains→mem xs k (ground arith))
  ]

  pub mem→contains : {k : K} {xs : List K} → Memᴰ k xs → contains xs k ≡ true
  unfolding contains
  mem→contains {k} (Memᴰ.head {x = x} p) = ground (arith, (==_iff x k).1 (sym p))
  mem→contains {k} (Memᴰ.tail m) = ground (arith, mem→contains m)

  -- No key twice.
  abbrev pub Distinct : List K → Type 0
  Distinct [] = Unit
  Distinct (k ∷ ks) = (contains ks k ≡ false) × Distinct ks

module _ {ℓ κ} {A : Type ℓ} {K : Type κ} ⦃e : Equality K⦄ (key : A → K) where
  unfoldable pub unique_from : List K → List A → List A
  unique_from seen [] = []
  unique_from seen (x ∷ xs) = elim (contains seen (key x)) [
    | true ↦ unique_from seen xs
    | false ↦ x ∷ unique_from (key x ∷ seen) xs
  ]

  unique_cases {μ} :
      (P : List A → Type μ) (seen : List K) (x : A) (xs : List A)
      → (contains seen (key x) ≡ true → P (unique_from seen xs))
      → (contains seen (key x) ≡ false → P (x ∷ unique_from (key x ∷ seen) xs))
      → P (unique_from seen (x ∷ xs))
  unfolding unique_from
  unique_cases P seen x xs old new = elim (Bool-cases (contains seen (key x))) [
    | inl h ↦ rw (h, unique_from) (old h)
    | inr h ↦ rw (h, unique_from) (new h)
  ]

  pub unique_old :
      (seen : List K) (x : A) (xs : List A)
      → contains seen (key x) ≡ true
      → unique_from seen (x ∷ xs) ≡ unique_from seen xs
  unfolding unique_from
  unique_old seen x xs h = rw (h, unique_from)

  pub unique_new :
      (seen : List K) (x : A) (xs : List A)
      → contains seen (key x) ≡ false
      → unique_from seen (x ∷ xs) ≡ x ∷ unique_from (key x ∷ seen) xs
  unfolding unique_from
  unique_new seen x xs h = rw (h, unique_from)

  mem_tail :
      {a x : A} {xs ys : List A} → (Memᴰ a xs → Memᴰ a ys) → Memᴰ a (x ∷ xs) → Memᴰ a (x ∷ ys)
  mem_tail f (Memᴰ.head p) = Memᴰ.head p
  mem_tail f (Memᴰ.tail m) = Memᴰ.tail (f m)

  -- The kept elements are elements of the input.
  pub mem-unique_from :
      (seen : List K) (xs : List A) {a : A} → Memᴰ a (unique_from seen xs) → Memᴰ a xs
  unfolding unique_from
  mem-unique_from seen [] m = m
  mem-unique_from seen (x ∷ xs) {a} m =
      unique_cases (λ ys. Memᴰ a ys → Memᴰ a (x ∷ xs)) seen x xs
        (λ _ n. Memᴰ.tail (mem-unique_from seen xs n))
        (λ _. mem_tail (λ n. mem-unique_from (key x ∷ seen) xs n)) m

  -- The keys kept are the unseen keys of the input.
  pub contains-unique_from :
      (seen : List K) (xs : List A) (k : K)
      → contains (map key (unique_from seen xs)) k
        ≡ (contains (map key xs) k && not (contains seen k))
  unfolding unique_from contains
  contains-unique_from seen [] k = refl
  contains-unique_from seen (x ∷ xs) k = ground (
    arith,
    ==_iff (key x) k,
    contains-unique_from seen xs k,
    contains-unique_from (key x ∷ seen) xs k,
  )

  pub unique_from-Distinct :
      (seen : List K) (xs : List A) → Distinct (map key (unique_from seen xs))
  unfolding unique_from contains
  unique_from-Distinct seen [] = tt
  unique_from-Distinct seen (x ∷ xs) =
      unique_cases (λ ys. Distinct (map key ys)) seen x xs (λ _. unique_from-Distinct seen xs)
        (λ _. (fresh, unique_from-Distinct (key x ∷ seen) xs))
    where
      fresh : contains (map key (unique_from (key x ∷ seen) xs)) (key x) ≡ false
      fresh = ground (arith, ==_refl (key x), contains-unique_from (key x ∷ seen) xs (key x))

  pub length-unique_from-le :
      (seen : List K) (xs : List A) → length (unique_from seen xs) ≤ length xs
  unfolding unique_from
  length-unique_from-le seen [] = omega arith
  length-unique_from-le seen (x ∷ xs) =
      ground (arith, length-unique_from-le seen xs, length-unique_from-le (key x ∷ seen) xs)

  -- The set is read by its membership alone.
  pub unique_from-eq :
      (s t : List K) (xs : List A)
      → ((k : K) → contains s k ≡ contains t k)
      → unique_from s xs ≡ unique_from t xs
  unfolding unique_from contains
  unique_from-eq s t [] h = refl
  unique_from-eq s t (x ∷ xs) h = ground (
    arith,
    h (key x),
    unique_from-eq s t xs h,
    unique_from-eq (key x ∷ s) (key x ∷ t) xs (λ k. ap (λ b. key x == k || b) (h k)),
  )

  -- Two inputs one after the other: the second is taken against the keys of both the set and the
  -- first.
  pub unique_from-append :
      (seen : List K) (xs ys : List A)
      → unique_from seen (xs ++ ys) ≡ unique_from seen xs ++ unique_from (map key xs ++ seen) ys
  unique_from-append seen [] ys = unfold unique_from in refl
  unique_from-append seen (x ∷ xs) ys = elim (Bool-cases (contains seen (key x))) [
    | inl h ↦
        rw (unique_old seen x (xs ++ ys) h, unique_old seen x xs h)
          (unique_from-append seen xs ys
            ∙ ap (λ t. unique_from seen xs ++ t)
                (unique_from-eq (map key xs ++ seen) (key x ∷ (map key xs ++ seen)) ys (again h)))
    | inr h ↦
        rw (unique_new seen x (xs ++ ys) h, unique_new seen x xs h)
          (ap (λ t. x ∷ t)
            (unique_from-append (key x ∷ seen) xs ys
              ∙ ap (λ t. unique_from (key x ∷ seen) xs ++ t)
                  (unique_from-eq (map key xs ++ key x ∷ seen) (key x ∷ (map key xs ++ seen)) ys
                    moved)))
  ]
    where
      again :
          contains seen (key x) ≡ true
          → (k : K) → contains (map key xs ++ seen) k ≡ contains (key x ∷ (map key xs ++ seen)) k
      again h k =
          unfold contains in ground (arith, ==_iff (key x) k, contains-append (map key xs) seen k)

      moved :
          (k : K)
          → contains (map key xs ++ key x ∷ seen) k ≡ contains (key x ∷ (map key xs ++ seen)) k
      moved k =
          unfold contains in
          ground (
            arith,
            contains-append (map key xs) (key x ∷ seen) k,
            contains-append (map key xs) seen k,
          )

  -- Two filters, one that drops what an earlier set holds, one that keeps first occurrences, are one.
  pub unique_from-filter :
      (old seen : List K) (xs : List A)
      → unique_from seen (filter (λ x. not (contains old (key x))) xs)
        ≡ unique_from (seen ++ old) xs
  unfolding unique_from contains
  unique_from-filter old seen [] = refl
  unique_from-filter old seen (x ∷ xs) = ground (
    arith,
    contains-append seen old (key x),
    unique_from-filter old seen xs,
    unique_from-filter old (key x ∷ seen) xs,
  )
