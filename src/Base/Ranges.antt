-- ===== src/Base/Ranges.antt =====
-- Python's `range(start, stop, step)` and the slice `xs[start:stop]`, as the loops over pieces of a
-- list use them. A step of 0 is the caller's to refuse.
use dbextractors.Base.{ℕ, zero, suc, ◌+◌, ◌-◌, ◌≤◌, ◌<◌, ◌≡◌, sym, inl, inr}
use dbextractors.Base.{List, [], ◌∷◌, map, arith, ltb, if◌then◌else◌, Bool-cases}
use dbextractors.Base.{All, length, take, drop, flatten, take-append-drop, drop-drop, drop_all}
use dbextractors.Base.{length-take, length-drop}

-- The fuel bounds the number of steps: `stop - start` is enough for a positive step.
pub range_from : ℕ → ℕ → ℕ → ℕ → List ℕ
range_from zero start stop step = []
range_from (suc fuel) start stop step =
    let rest = range_from fuel (start + step) stop step in
    if ltb start stop then start ∷ rest else []

unfoldable pub range : ℕ → ℕ → ℕ → List ℕ
unfolding range_from
range start stop step = range_from (stop - start) start stop step

unfoldable pub slice {ℓ} : {A : Type ℓ} → ℕ → ℕ → List A → List A
slice start stop xs = take (stop - start) (drop start xs)

module _ {ℓ} {A : Type ℓ} (xs : List A) (size : ℕ) (positive : 0 < size) where
  pieces-from :
      (fuel start : ℕ)
      → length xs ≤ start + fuel
      → flatten (map (λ idx. slice idx (idx + size) xs) (range_from fuel start (length xs) size))
        ≡ drop start xs
  unfolding range_from slice
  pieces-from zero start h = sym (drop_all start xs (omega arith))
  pieces-from (suc fuel) start h = elim (Bool-cases (ltb start (length xs))) [
    | inl more ↦
        rw (more, pieces-from fuel (start + size) (ground arith), ← drop-drop start size xs)
          (let e : start + size - start ≡ size = omega arith in
            rw e (take-append-drop size (drop start xs)))
    | inr done ↦ rw done (sym (drop_all start xs (ground arith)))
  ]

  -- The consecutive slices of a list, put together, are the list.
  pub flatten-slices :
      flatten (map (λ idx. slice idx (idx + size) xs) (range 0 (length xs) size)) ≡ xs
  unfolding range
  flatten-slices = pieces-from (length xs - 0) 0 (omega arith)

  sizes-from :
      (fuel start : ℕ)
      → All
          (λ piece. (0 < length piece) × (length piece ≤ size))
          (map (λ idx. slice idx (idx + size) xs) (range_from fuel start (length xs) size))
  unfolding range_from slice
  sizes-from zero start = tt
  sizes-from (suc fuel) start = elim (Bool-cases (ltb start (length xs))) [
    | inl more ↦ rw more (
      ground (arith, length-take (start + size - start) (drop start xs), length-drop start xs),
      sizes-from fuel (start + size),
    )
    | inr done ↦ rw done tt
  ]

  -- No slice is empty, and none is longer than the size.
  pub slices_sizes :
      All
        (λ piece. (0 < length piece) × (length piece ≤ size))
        (map (λ idx. slice idx (idx + size) xs) (range 0 (length xs) size))
  unfolding range
  slices_sizes = sizes-from (length xs - 0) 0
