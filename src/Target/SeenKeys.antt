-- ===== src/Target/SeenKeys.antt =====
-- `SeenKeys.filter_new` of src/dbextractors/core/target_pg.py: the keys that earlier batches had, in a
-- temporary table. A key is its text. `null_text` is the text that pandas makes of a missing value.
pub mod Laws
pub mod Batches
pub mod Nulls
pub mod Rows
use dbextractors.Base.{
  ℕ, ◌-◌, Bool, true, false, ◌||◌, not, Option, none, some, List, [], ◌∷◌, ◌++◌, Eq, contains, keep,
  distinct, length, is_empty, nat_eq, or_else, if◌then◌else◌,
}

-- `batch_df[pk].dropna().astype(str)`
abbrev pub key_texts : {R K : Type 0} → (R → Option K) → List R → List K
key_texts key [] = []
key_texts key (r ∷ rows) = elim (key r) [
  | none ↦ key_texts key rows
  | some k ↦ k ∷ key_texts key rows
]

module _ {R K : Type 0} ⦃e : Eq K⦄ (key : R → Option K) (null_text : K) where
  -- The answer for a batch, and the table of keys after it. `has_column` says whether the batch has
  -- the key's column. The INSERT brings back the keys that the table did not have.
  unfoldable pub filter_new : Bool → List R → List K → List R × List K
  filter_new has_column batch_df seen =
      let keys = key_texts key batch_df in
      let unique_keys = distinct keys in
      let fresh = keep (λ k. not (contains k seen)) unique_keys in
      let removed = length unique_keys - length fresh in
      if not has_column || is_empty batch_df
      then (batch_df, seen)
      else if is_empty keys
      then (batch_df, seen)
      else if nat_eq removed 0
      then (batch_df, seen ++ fresh)
      else (keep (λ r. contains (or_else (key r) null_text) fresh) batch_df, seen ++ fresh)

  -- The batches of a read, one after the other.
  unfoldable pub filter_batches : List (List R) → List K → List (List R) × List K
  filter_batches [] seen = ([], seen)
  filter_batches (batch ∷ batches) seen =
      let (out, seen') = filter_new true batch seen in
      let (outs, seen'') = filter_batches batches seen' in (out ∷ outs, seen'')
