-- ===== src/Strategies/HashDiff/Download/Upserted.antt =====
-- What an upsert of rows with different keys leaves.
use dbextractors.Base.{
  ℕ, ◌≡◌, refl, ap, false, ◌||◌, [], ◌∷◌, arith, nat_eq, nat_eq_iff, nat_Eq, if◌then◌else◌, inl,
  inr, Bool-cases,
}
use dbextractors.Target.Table.{Table, find, put, put_all, has_key, has_duplicate}
use dbextractors.Target.Table.Laws.{find-put}

module _ {V : Type 0} where
  pub has_key-put :
      (j k : ℕ) (v : V) (t : Table V) → has_key j (put k v t) ≡ (nat_eq k j || has_key j t)
  unfolding put
  has_key-put j k v [] = ground arith
  has_key-put j k v ((i, w) ∷ t) = elim (Bool-cases (nat_eq i k)) [
    | inl same ↦
        let is : i ≡ k = (nat_eq_iff i k).0 same in
        let known : nat_eq i j ≡ nat_eq k j = ap (λ n. nat_eq n j) is in ground arith
    | inr other ↦ ground (arith, has_key-put j k v t)
  ]

  has_duplicate-put :
      (k : ℕ) (v : V) (t : Table V) → has_duplicate t ≡ false → has_duplicate (put k v t) ≡ false
  unfolding put has_duplicate
  has_duplicate-put k v [] h = refl
  has_duplicate-put k v ((i, w) ∷ t) h = elim (Bool-cases (nat_eq i k)) [
    | inl same ↦
        let is : i ≡ k = (nat_eq_iff i k).0 same in
        let known : has_key i t ≡ has_key k t = ap (λ n. has_key n t) is in ground arith
    | inr other ↦
        let back : nat_eq k i ≡ false = ground arith in
        ground (arith, has_key-put i k v t, has_duplicate-put k v t)
  ]

  pub has_duplicate-put_all :
      (t rows : Table V) → has_duplicate t ≡ false → has_duplicate (put_all t rows) ≡ false
  unfolding put_all
  has_duplicate-put_all t [] h = h
  has_duplicate-put_all t ((k, v) ∷ rows) h =
      has_duplicate-put_all (put k v t) rows (has_duplicate-put k v t h)

  -- An upsert of rows with different keys.
  pub find-put_all :
      (j : ℕ) (t rows : Table V)
      → has_duplicate rows ≡ false
      → find j (put_all t rows) ≡ (if has_key j rows then find j rows else find j t)
  unfolding put_all has_duplicate find
  find-put_all j t [] h = refl
  find-put_all j t ((k, v) ∷ rows) h = elim (Bool-cases (nat_eq k j)) [
    | inl same ↦
        let is : k ≡ j = (nat_eq_iff k j).0 same in
        let known : has_key k rows ≡ has_key j rows = ap (λ n. has_key n rows) is in
        ground (arith, find-put_all j (put k v t) rows, find-put j k v t)
    | inr other ↦ ground (arith, find-put_all j (put k v t) rows, find-put j k v t)
  ]
