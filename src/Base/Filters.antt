-- ===== src/Base/Filters.antt =====
-- Filters of lists, and what they keep of membership and of distinctness.
use Prim.Native.Nat.{◌≤◌}
use mathlib.Core.Path.{◌≡◌, refl, ap}
use mathlib.Core.Logic.{inl, inr}
use mathlib.Core.Bool.{Bool, true, false, ◌&&◌, not}
use mathlib.Core.List.{List, [], ◌∷◌, ◌++◌}
use native.Mathlib.Omega.{arith}
use dbextractors.Base.Tests.{Bool-cases}
use dbextractors.Base.Lists.{keep, length}
use dbextractors.Base.Equality.{Eq, ◌==◌, contains, NodupList, contains-append, beq_refl}

module _ {ℓ} {A : Type ℓ} ⦃e : Eq A⦄ (p : A → Bool) where
  pub contains-keep : (t : A) (xs : List A) → contains t (keep p xs) ≡ (contains t xs && p t)
  contains-keep t [] = refl
  contains-keep t (x ∷ xs) = elim (Bool-cases (x == t)) [
    | inl same ↦ ground (arith, contains-keep t xs, ap p ((e.eq_test_iff x t).0 same))
    | inr other ↦ ground (arith, contains-keep t xs)
  ]

  pub keep-NodupList : (xs : List A) → NodupList xs → NodupList (keep p xs)
  keep-NodupList [] n = tt
  keep-NodupList (x ∷ xs) (fresh, n) = ground (arith, contains-keep x xs, keep-NodupList xs)

  pub keep_every : (xs : List A) → ((t : A) → contains t xs ≡ true → p t ≡ true) → keep p xs ≡ xs
  keep_every [] h = refl
  keep_every (x ∷ xs) h =
      let hx : p x ≡ true = h x (rw beq_refl refl) in
      rw (hx, keep_every xs (λ t k. h t (ground arith))) refl

  pub keep_no : (xs : List A) → ((t : A) → contains t xs ≡ true → p t ≡ false) → keep p xs ≡ []
  keep_no [] h = refl
  keep_no (x ∷ xs) h =
      let hx : p x ≡ false = h x (rw beq_refl refl) in
      rw hx (keep_no xs (λ t k. h t (ground arith)))

module _ {ℓ} {A : Type ℓ} ⦃e : Eq A⦄ where
  pub append-NodupList :
      (xs ys : List A)
      → NodupList xs
      → NodupList ys
      → ((t : A) → contains t ys ≡ true → contains t xs ≡ false)
      → NodupList (xs ++ ys)
  append-NodupList [] ys n m h = m
  append-NodupList (x ∷ xs) ys (fresh, n) m h = (
    ground (arith, contains-append x xs ys, h x, beq_refl x),
    append-NodupList xs ys n m (λ t k. ground (arith, h t k)),
  )

  -- `drop_duplicates`: the first of each.
  abbrev pub distinct : List A → List A
  distinct [] = []
  distinct (x ∷ xs) = x ∷ keep (λ y. not (x == y)) (distinct xs)

module _ {ℓ} {A : Type ℓ} ⦃e : Eq A⦄ where
  pub contains-distinct : (a : A) (xs : List A) → contains a (distinct xs) ≡ contains a xs
  contains-distinct a [] = refl
  contains-distinct a (x ∷ xs) =
      ground (arith, contains-distinct a xs, contains-keep (λ y. not (x == y)) a (distinct xs))

  pub distinct-NodupList : (xs : List A) → NodupList (distinct xs)
  distinct-NodupList [] = tt
  distinct-NodupList (x ∷ xs) = (
    ground (arith, contains-keep (λ y. not (x == y)) x (distinct xs), beq_refl x),
    keep-NodupList (λ y. not (x == y)) (distinct xs) (distinct-NodupList xs),
  )

-- A filter that keeps as many elements as there are keeps each.
module _ {ℓ} {A : Type ℓ} ⦃e : Eq A⦄ (p : A → Bool) where
  length-keep : (xs : List A) → length (keep p xs) ≤ length xs
  length-keep [] = omega arith
  length-keep (x ∷ xs) = ground (arith, length-keep xs)

  pub keep_all_of :
      (xs : List A) → length xs ≤ length (keep p xs) → (a : A) → contains a xs ≡ true → p a ≡ true
  keep_all_of [] h a k = absurd cc
  keep_all_of (x ∷ xs) h a k = elim (Bool-cases (x == a)) [
    | inl same ↦ rw (← (e.eq_test_iff x a).0 same) (ground (arith, length-keep xs))
    | inr other ↦ keep_all_of xs (ground (arith, length-keep xs)) a (ground arith)
  ]
