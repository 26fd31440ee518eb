-- ===== src/Strategies/HashDiff/Download/Fetched.antt =====
-- What the staging table holds after the loop over the batches of keys.
use dbextractors.Base.{
  ℕ, ◌≡◌, refl, ap, true, false, ◌&&◌, ◌||◌, Option, none, some, List, [], ◌∷◌, ◌++◌, arith,
  flatten, nat_eq, nat_eq_iff, nat_Eq, if◌then◌else◌, inl, inr, Bool-cases, beq_refl,
}
use dbextractors.Target.Table.{Table, find, has_key, has_duplicate}
use dbextractors.Strategies.HashDiff.Download.{in_keys, read_keys, fetch}

in_keys-append :
    (k : ℕ) (xs ys : List (Option ℕ)) → in_keys k (xs ++ ys) ≡ (in_keys k xs || in_keys k ys)
in_keys-append k [] ys = refl
in_keys-append k (x ∷ xs) ys = ground (arith, in_keys-append k xs ys)

-- No key stands in the list twice.
abbrev pub NoRepeat : List (Option ℕ) → Type 0
NoRepeat [] = Unit
NoRepeat (none ∷ keys) = NoRepeat keys
NoRepeat (some k ∷ keys) = (in_keys k keys ≡ false) × NoRepeat keys

NoRepeat-later : (xs ys : List (Option ℕ)) → NoRepeat (xs ++ ys) → NoRepeat ys
NoRepeat-later [] ys n = n
NoRepeat-later (none ∷ xs) ys n = NoRepeat-later xs ys n
NoRepeat-later (some k ∷ xs) ys (_, n) = NoRepeat-later xs ys n

NoRepeat-apart :
    (xs ys : List (Option ℕ)) (k : ℕ)
    → NoRepeat (xs ++ ys)
    → in_keys k xs ≡ true
    → in_keys k ys ≡ false
NoRepeat-apart [] ys k n h = absurd cc
NoRepeat-apart (none ∷ xs) ys k n h = NoRepeat-apart xs ys k n h
NoRepeat-apart (some j ∷ xs) ys k (fresh, n) h = elim (Bool-cases (nat_eq j k)) [
  | inl same ↦
      let is : j ≡ k = (nat_eq_iff j k).0 same in
      let none_later = in_keys-append j xs ys in rw (← is) (ground arith)
  | inr other ↦ NoRepeat-apart xs ys k n (ground arith)
]

module _ {V : Type 0} where
  has_key-append : (k : ℕ) (xs ys : Table V) → has_key k (xs ++ ys) ≡ (has_key k xs || has_key k ys)
  has_key-append k [] ys = refl
  has_key-append k ((j, v) ∷ xs) ys = ground (arith, has_key-append k xs ys)

  find-append :
      (k : ℕ) (xs ys : Table V)
      → find k (xs ++ ys) ≡ (if has_key k xs then find k xs else find k ys)
  unfolding find
  find-append k [] ys = refl
  find-append k ((j, v) ∷ xs) ys = ground (arith, find-append k xs ys)

  pub find_no_key : (k : ℕ) (xs : Table V) → has_key k xs ≡ false → find k xs ≡ none
  unfolding find
  find_no_key k [] h = refl
  find_no_key k ((j, v) ∷ xs) h = ground (arith, find_no_key k xs)

  has_key-read_keys :
      (k : ℕ) (keys : List (Option ℕ)) (s : Table V)
      → has_key k (read_keys keys s) ≡ (in_keys k keys && has_key k s)
  has_key-read_keys k keys [] = ground arith
  has_key-read_keys k keys ((j, v) ∷ s) = elim (Bool-cases (nat_eq j k)) [
    | inl same ↦
        let is : j ≡ k = (nat_eq_iff j k).0 same in
        let known : in_keys j keys ≡ in_keys k keys = ap (λ i. in_keys i keys) is in
        ground (arith, has_key-read_keys k keys s)
    | inr other ↦ ground (arith, has_key-read_keys k keys s)
  ]

  find-read_keys :
      (k : ℕ) (keys : List (Option ℕ)) (s : Table V)
      → find k (read_keys keys s) ≡ (if in_keys k keys then find k s else none)
  unfolding find
  find-read_keys k keys [] = ground arith
  find-read_keys k keys ((j, v) ∷ s) = elim (Bool-cases (nat_eq j k)) [
    | inl same ↦
        let is : j ≡ k = (nat_eq_iff j k).0 same in
        let known : in_keys j keys ≡ in_keys k keys = ap (λ i. in_keys i keys) is in
        ground (arith, find-read_keys k keys s)
    | inr other ↦ ground (arith, find-read_keys k keys s)
  ]

  pub has_key-fetch :
      (k : ℕ) (batches : List (List (Option ℕ))) (s : Table V)
      → has_key k (fetch batches s) ≡ (in_keys k (flatten batches) && has_key k s)
  unfolding fetch
  has_key-fetch k [] s = refl
  has_key-fetch k (keys ∷ batches) s = ground (
    arith,
    has_key-append k (read_keys keys s) (fetch batches s),
    has_key-read_keys k keys s,
    has_key-fetch k batches s,
    in_keys-append k keys (flatten batches),
  )

  pub find-fetch :
      (k : ℕ) (batches : List (List (Option ℕ))) (s : Table V)
      → find k (fetch batches s) ≡ (if in_keys k (flatten batches) then find k s else none)
  unfolding fetch
  find-fetch k [] s = unfold find in refl
  find-fetch k (keys ∷ batches) s = ground (
    arith,
    find-append k (read_keys keys s) (fetch batches s),
    has_key-read_keys k keys s,
    find-read_keys k keys s,
    find-fetch k batches s,
    in_keys-append k keys (flatten batches),
    find_no_key k s,
  )

  has_duplicate-append :
      (xs ys : Table V)
      → has_duplicate xs ≡ false
      → has_duplicate ys ≡ false
      → ((k : ℕ) → has_key k xs ≡ true → has_key k ys ≡ false)
      → has_duplicate (xs ++ ys) ≡ false
  unfolding has_duplicate
  has_duplicate-append [] ys a b h = b
  has_duplicate-append ((k, v) ∷ xs) ys a b h =
      let rest = has_duplicate-append xs ys (ground arith) b (λ j m. h j (ground arith)) in
      let apart = h k (ground (arith, beq_refl k)) in ground (arith, has_key-append k xs ys)

  has_duplicate-read_keys :
      (keys : List (Option ℕ)) (s : Table V)
      → has_duplicate s ≡ false
      → has_duplicate (read_keys keys s) ≡ false
  unfolding has_duplicate
  has_duplicate-read_keys keys [] h = refl
  has_duplicate-read_keys keys ((k, v) ∷ s) h =
      ground (arith, has_duplicate-read_keys keys s, has_key-read_keys k keys s)

  -- The upsert meets no key twice.
  pub has_duplicate-fetch :
      (batches : List (List (Option ℕ))) (s : Table V)
      → NoRepeat (flatten batches)
      → has_duplicate s ≡ false
      → has_duplicate (fetch batches s) ≡ false
  unfolding fetch
  has_duplicate-fetch [] s n h = unfold has_duplicate in refl
  has_duplicate-fetch (keys ∷ batches) s n h =
      has_duplicate-append (read_keys keys s) (fetch batches s) (has_duplicate-read_keys keys s h)
        (has_duplicate-fetch batches s (NoRepeat-later keys (flatten batches) n) h)
        (λ k m.
          let here = has_key-read_keys k keys s in
          let apart = NoRepeat-apart keys (flatten batches) k n (ground arith) in
          ground (arith, has_key-fetch k batches s))
