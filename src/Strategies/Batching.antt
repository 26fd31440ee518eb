-- ===== src/Strategies/Batching.antt =====
-- `chunked_list` and `resolve_batch_size` of src/dbextractors/core/strategies/base.py.
-- A size in MB has two decimals (the dialects round it so), and is kept in hundredths. The division
-- is exact; the source's is a float's.
pub mod Laws
use Prim.Native.Nat.{min, max}
use dbextractors.Base.{ℕ, zero, ◌+◌, ◌*◌, ◌/◌, Bool, ◌||◌, Option, none, some, List, map}
use dbextractors.Base.{leb, nat_eq, if◌then◌else◌, length}
use dbextractors.Base.Ranges.{range, slice}

abbrev pub default_batch_size : ℕ
default_batch_size = 10000

-- `TARGET_BATCH_MB`, in hundredths of a MB.
abbrev pub target_batch_size : ℕ
target_batch_size = 40000

abbrev pub min_batch_size : ℕ
min_batch_size = 1000

-- `None` stands for the ValueError of `range` with a step of 0.
unfoldable pub chunked_list {ℓ} : {A : Type ℓ} → List A → ℕ → Option (List (List A))
unfolding range slice
chunked_list items size =
    if nat_eq size 0
    then none
    else some (map (λ idx. slice idx (idx + size) items) (range 0 (length items) size))

pub record SizeEstimate : Type 0 where
  pub rows : ℕ
  pub size : ℕ

-- `a or b` on a setting that may be absent, where 0 counts as absent.
abbrev pub truthy_or : Option ℕ → ℕ → ℕ
truthy_or none d = d
truthy_or (some n) d = if nat_eq n 0 then d else n

-- The batch size before the estimate is looked at.
abbrev pub configured : Option ℕ → Option ℕ → ℕ
configured batch_size legacy = truthy_or batch_size (truthy_or legacy default_batch_size)

unfoldable pub resolve_batch_size : Option ℕ → Option ℕ → Option SizeEstimate → ℕ
resolve_batch_size setting legacy none = configured setting legacy
resolve_batch_size setting legacy (some estimate) =
    let batch_size = configured setting legacy in
    if nat_eq estimate.rows 0 || leb estimate.size target_batch_size
    then batch_size
    else max min_batch_size (min batch_size (estimate.rows * target_batch_size / estimate.size))
