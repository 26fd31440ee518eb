-- ===== src/Target/Snapshot/Batches.antt =====
-- How `changed_keys` cuts its cursor into batches.
use Prim.Native.Nat.{max}
use dbextractors.Base.{
  ℕ, ◌+◌, ◌≤◌, ◌<◌, ◌≡◌, refl, ap, ◌∙◌, List, [], ◌∷◌, ◌++◌, arith, leb, length, flatten, All,
  append_assoc, length-append, Bool-cases, inl, inr,
}
use dbextractors.Target.Snapshot.{fill_batches}

abbrev pub IsBatch : {A : Type 0} → ℕ → List A → Type 0
IsBatch size b = (0 < length b) × (length b ≤ max 1 size)

module _ {A : Type 0} (size : ℕ) where
  abbrev Cuts : List A → List (List A) → Type 0
  Cuts keys batches = (flatten batches ≡ keys) × All (λ b. IsBatch size b) batches

  pub fill_batches-Cuts :
      (cursor batch : List A)
      → length batch < max 1 size
      → Cuts (batch ++ cursor) (fill_batches size cursor batch)
  unfolding fill_batches
  fill_batches-Cuts [] [] small = (refl, tt)
  fill_batches-Cuts [] (b ∷ batch) small = (refl, ((omega arith, omega arith), tt))
  fill_batches-Cuts (key ∷ cursor) batch small =
      let n : length (batch ++ key ∷ []) ≡ length batch + 1 = length-append batch (key ∷ []) in
      elim (Bool-cases (leb size (length (batch ++ key ∷ [])))) [
        | inl full ↦
            let (whole, sizes) = fill_batches-Cuts cursor [] (omega arith) in
            rw full (
              ap (λ t. (batch ++ key ∷ []) ++ t) whole ∙ append_assoc batch (key ∷ []) cursor,
              ((omega (arith, n), omega (arith, n)), sizes),
            )
        | inr room ↦
            let short : length (batch ++ key ∷ []) < max 1 size = ground arith in
            let (whole, sizes) = fill_batches-Cuts cursor (batch ++ key ∷ []) short in
            rw room (whole ∙ append_assoc batch (key ∷ []) cursor, sizes)
      ]
