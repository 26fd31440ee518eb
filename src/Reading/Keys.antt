-- ===== src/Reading/Keys.antt =====
-- Rows in ascending order of their keys, and the rows above a key.
use Prim.Native.Nat.{max}
use dbextractors.Base.{ℕ, ◌≤◌, ◌<◌, ◌≡◌, refl, List, [], ◌∷◌, ◌++◌, All, arith, ltb, keep}
use native.Mathlib.Nat.{le_refl}
use dbextractors.Base.{
  All-map, All-append, All-append_left, All-append_right, ◌∙◌, keep-append, Bool-cases, inl, inr,
}
use dbextractors.Reading.{max_key}

module _ {Row : Type 0} (key : Row → ℕ) where
  -- The result of the query restricted to `pk > k`.
  abbrev pub above : ℕ → List Row → List Row
  above k = keep (λ r. ltb k (key r))

  abbrev pub Less : List Row → List Row → Type 0
  Less xs ys = All (λ x. All (λ y. key x < key y) ys) xs

  abbrev pub Ascending : List Row → Type 0
  Ascending [] = Unit
  Ascending (x ∷ xs) = All (λ y. key x < key y) xs × Ascending xs

module _ {Row : Type 0} (key : Row → ℕ) where
  above_none : (k : ℕ) (xs : List Row) → All (λ x. key x ≤ k) xs → above key k xs ≡ []
  above_none k [] h = refl
  above_none k (x ∷ xs) (hx, h) = ground (arith, above_none k xs h)

  above_every : (k : ℕ) (xs : List Row) → All (λ x. k < key x) xs → above key k xs ≡ xs
  above_every k [] h = refl
  above_every k (x ∷ xs) (hx, h) = ground (arith, above_every k xs h)

  max_key-bound : (xs : List Row) → All (λ x. key x ≤ max_key key xs) xs
  max_key-bound [] = tt
  max_key-bound (x ∷ []) = (le_refl (key x), tt)
  max_key-bound (x ∷ y ∷ xs) =
      let m = max_key key (y ∷ xs) in
      (omega arith, All-map (λ z (h : key z ≤ m). omega arith) (y ∷ xs) (max_key-bound (y ∷ xs)))

  -- What is above every row of a list is above its greatest key.
  max_key-lt :
      (x : Row) (xs ys : List Row)
      → Less key (x ∷ xs) ys
      → All (λ y. max_key key (x ∷ xs) < key y) ys
  max_key-lt x [] ys (h, _) = h
  max_key-lt x (z ∷ xs) ys (h, hs) = both ys h (max_key-lt z xs ys hs)
    where
      both :
          (ys : List Row)
          → All (λ y. key x < key y) ys
          → All (λ y. max_key key (z ∷ xs) < key y) ys
          → All (λ y. max (key x) (max_key key (z ∷ xs)) < key y) ys
      both [] _ _ = tt
      both (y ∷ ys) (a, as') (b, bs) = (omega arith, both ys as' bs)

  Less-le :
      (xs : List Row) (y : Row) (ys : List Row) (m : ℕ)
      → key y ≤ m
      → Less key xs (y ∷ ys)
      → All (λ x. key x ≤ m) xs
  Less-le xs y ys m h l =
      All-map (λ x (p : All (λ z. key x < key z) (y ∷ ys)). omega (arith, p.0)) xs l

  Ascending-append :
      (xs ys : List Row)
      → Ascending key (xs ++ ys)
      → Ascending key xs × Ascending key ys × Less key xs ys
  Ascending-append [] ys h = (tt, h, tt)
  Ascending-append (x ∷ xs) ys (hx, h) =
      let (left, right, l) = Ascending-append xs ys h in
      let P : Row → Type 0 = λ y. key x < key y in
      ((All-append_left P xs ys hx, left), right, (All-append_right P xs ys hx, l))

  -- In an ascending table, what is above the greatest key of a batch is what follows the batch.
  pub above-max_key :
      (old : List Row) (x : Row) (xs rest : List Row)
      → Ascending key ((old ++ x ∷ xs) ++ rest)
      → above key (max_key key (x ∷ xs)) ((old ++ x ∷ xs) ++ rest) ≡ rest
  above-max_key old x xs rest h =
      let (left, _, l) = Ascending-append (old ++ x ∷ xs) rest h in
      let (_, _, l') = Ascending-append old (x ∷ xs) left in
      let m = max_key key (x ∷ xs) in
      let bound = max_key-bound (x ∷ xs) in
      let below : All (λ r. key r ≤ m) (old ++ x ∷ xs) =
        All-append (λ r. key r ≤ m) old (x ∷ xs) (Less-le old x xs m bound.0 l') bound in
      let P : Row → Type 0 = λ r. All (λ y. key r < key y) rest in
      let greater = max_key-lt x xs rest (All-append_right P old (x ∷ xs) l) in
      keep-append (λ r. ltb m (key r)) (old ++ x ∷ xs) rest
      ∙ rw (above_none m (old ++ x ∷ xs) below) (above_every m rest greater)

  pub max_key-ge : (x : Row) (xs : List Row) → key x ≤ max_key key (x ∷ xs)
  max_key-ge x xs = (max_key-bound (x ∷ xs)).0

  pub above-above :
      (k m : ℕ) (xs : List Row) → k ≤ m → above key m (above key k xs) ≡ above key m xs
  above-above k m [] h = refl
  above-above k m (x ∷ xs) h = ground (arith, above-above k m xs h)

  pub above-gt : (k : ℕ) (xs : List Row) → All (λ x. k < key x) (above key k xs)
  above-gt k [] = tt
  above-gt k (x ∷ xs) = elim (Bool-cases (ltb k (key x))) [
    | inl more ↦ rw more (ground arith, above-gt k xs)
    | inr less ↦ rw less (above-gt k xs)
  ]

  All-above : (P : Row → Type 0) (k : ℕ) (xs : List Row) → All P xs → All P (above key k xs)
  All-above P k [] h = tt
  All-above P k (x ∷ xs) (hx, h) = elim (Bool-cases (ltb k (key x))) [
    | inl more ↦ rw more (hx, All-above P k xs h)
    | inr less ↦ rw less (All-above P k xs h)
  ]

  pub above-Ascending : (k : ℕ) (xs : List Row) → Ascending key xs → Ascending key (above key k xs)
  above-Ascending k [] h = tt
  above-Ascending k (x ∷ xs) (hx, h) = elim (Bool-cases (ltb k (key x))) [
    | inl more ↦ rw more (All-above (λ y. key x < key y) k xs hx, above-Ascending k xs h)
    | inr less ↦ rw less (above-Ascending k xs h)
  ]
