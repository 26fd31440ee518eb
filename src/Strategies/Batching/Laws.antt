-- ===== src/Strategies/Batching/Laws.antt =====
-- What a batch size is bounded by, and that the chunks of a list are the list.
use dbextractors.Base.{
  ℕ, ◌+◌, ◌*◌, ◌≤◌, ◌<◌, ◌≡◌, refl, ◌⊎◌, some, List, All, flatten, length, arith,
}
use Prim.Native.Nat.{min, max}
use native.Mathlib.Nat.{div-mul-le_self, le_trans, mul-le-mul_right}
use native.Mathlib.Decide.{dec_le}
use dbextractors.Base.{inl, inr, false, ◌||◌, nat_eq, leb, map}
use dbextractors.Base.{Option}
use dbextractors.Base.Ranges.{range, slice, flatten-slices, slices_sizes}
use dbextractors.Strategies.Batching.{
  SizeEstimate, chunked_list, resolve_batch_size, configured, target_batch_size, min_batch_size,
}

-- With a positive size there are chunks. Put together in order they are the list, none of them is
-- empty and none is longer than the size.
pub chunked_list_partition {ℓ} :
    {A : Type ℓ} (items : List A) (size : ℕ)
    → 0 < size
    → (chunks : List (List A)) × (chunked_list items size ≡ some chunks)
      × (flatten chunks ≡ items)
      × All (λ chunk. (0 < length chunk) × (length chunk ≤ size)) chunks
unfolding chunked_list
chunked_list_partition items size positive =
    let open_test : nat_eq size 0 ≡ false = ground arith in
    (
      map (λ idx. slice idx (idx + size) items) (range 0 (length items) size),
      rw open_test refl,
      flatten-slices items size positive,
      slices_sizes items size positive,
    )

-- The batch size before and after it is scaled down to a share `q` of the estimate.
scaled_bounds :
    (c q size total : ℕ)
    → q * size ≤ total
    → let batch = max min_batch_size (min c q) in
      (min_batch_size ≤ batch)
      × ((batch ≤ c) ⊎ (batch ≡ min_batch_size))
      × ((batch * size ≤ total) ⊎ (batch ≡ min_batch_size))
scaled_bounds c q size total h = elim (dec_le (min c q) min_batch_size) [
  | yes small ↦ (omega arith, inr (omega arith), inr (omega arith))
  | no large ↦ (
    omega arith,
    inl (omega arith),
    inl (
        let e : max min_batch_size (min c q) ≡ min c q = omega arith in
        let m : min c q ≤ q = omega arith in rw e (le_trans (mul-le-mul_right size m) h)),
  )
]

-- A batch is never larger than the configured size and the floor of 1000 rows allow. Where the
-- estimate is over the target of 400 MB, a batch is the floor, or its share of the estimated
-- size stays within the target.
pub resolve_batch_size_bounds :
    (setting legacy : Option ℕ) (estimate : SizeEstimate)
    → 0 < estimate.rows
    → target_batch_size < estimate.size
    → let batch = resolve_batch_size setting legacy (some estimate) in
      (min_batch_size ≤ batch)
      × ((batch ≤ configured setting legacy) ⊎ (batch ≡ min_batch_size))
      × ((batch * estimate.size ≤ estimate.rows * target_batch_size) ⊎ (batch ≡ min_batch_size))
unfolding resolve_batch_size
resolve_batch_size_bounds setting legacy estimate present large =
    let open_test : (nat_eq estimate.rows 0 || leb estimate.size target_batch_size) ≡ false =
      ground arith in
    rw open_test (
      scaled_bounds _ _ estimate.size _
        (div-mul-le_self (estimate.rows * target_batch_size) estimate.size))
