-- ===== src/Target/Snapshot.antt =====
-- `SourceHashSnapshot` of src/dbextractors/core/target_pg.py: the keys and hashes of the source in a
-- temporary table, and their comparison with the target. A key is the text that both sides are
-- compared by; both tables may hold NULL.
pub mod Batches
pub mod Counts
use dbextractors.Base.{
  ℕ, zero, ◌+◌, Bool, true, false, ◌&&◌, ◌||◌, not, Option, none, some, List, [], ◌∷◌, ◌++◌, map,
  Eq, keep, leb, length, is_empty, is_some, is_none, if◌then◌else◌,
}
use dbextractors.Target.Sql.{sql_eq, is_distinct, count}

pub record Entry (K H : Type 0) : Type 0 where
  pub key : Option K
  pub hash : Option H

-- The answer of `diff`.
pub record Difference : Type 0 where
  pub added : ℕ
  pub changed : ℕ
  pub matched : ℕ
  pub source_rows : ℕ

module _ {A : Type 0} where
  -- The loop of `changed_keys` over the cursor, with the batch that it is filling.
  unfoldable pub fill_batches : ℕ → List A → List A → List (List A)
  fill_batches batch_size [] batch = if is_empty batch then [] else batch ∷ []
  fill_batches batch_size (key ∷ cursor) batch =
      let batch' = batch ++ key ∷ [] in
      let full = leb batch_size (length batch') in
      let rest = fill_batches batch_size cursor (if full then [] else batch') in
      if full then batch' ∷ rest else rest

module _ {K H : Type 0} where
  -- `add`: a batch of the scan, its keys already as text.
  unfoldable pub add : List (Entry K H) → List (Entry K H) → List (Entry K H)
  add df table = table ++ df

module _ {K H : Type 0} ⦃k : Eq K⦄ where
  -- `s LEFT JOIN t ON t.pk::text = s.pk`
  abbrev pub joined : Entry K H → List (Entry K H) → List (Entry K H × Option (Entry K H))
  joined s [] = (s, none) ∷ []
  joined s (t ∷ matches) = map (λ m. (s, some m)) (t ∷ matches)

  unfoldable pub left_join :
      List (Entry K H) → List (Entry K H) → List (Entry K H × Option (Entry K H))
  left_join [] target = []
  left_join (s ∷ snapshot) target =
      joined s (keep (λ t. sql_eq t.key s.key) target) ++ left_join snapshot target

module _ {K H : Type 0} where
  -- `t.pk IS NULL`: no row was joined, or one without a key.
  unfoldable pub is_added : Entry K H × Option (Entry K H) → Bool
  is_added (s, none) = true
  is_added (s, some t) = is_none t.key

module _ {K H : Type 0} ⦃h : Eq H⦄ where
  -- `t.hash IS DISTINCT FROM s.hash`
  unfoldable pub differs : Entry K H × Option (Entry K H) → Bool
  differs (s, none) = is_distinct none s.hash
  differs (s, some t) = is_distinct t.hash s.hash

module _ {K H : Type 0} ⦃k : Eq K⦄ ⦃h : Eq H⦄ where
  unfoldable pub diff : List (Entry K H) → List (Entry K H) → Difference
  diff snapshot target =
      let rows = left_join snapshot target in
      record {
        added = count is_added rows;
        changed = count (λ r. not (is_added r) && differs r) rows;
        matched = count (λ r. not (is_added r) && not (differs r)) rows;
        source_rows = length rows;
      }

  -- The rows of the query of `changed_keys`.
  unfoldable pub changed_cursor : List (Entry K H) → List (Entry K H) → List (Option K)
  changed_cursor snapshot target =
      map (λ r. (r.0).key) (keep (λ r. is_added r || differs r) (left_join snapshot target))

  unfoldable pub changed_keys : ℕ → List (Entry K H) → List (Entry K H) → List (List (Option K))
  changed_keys batch_size snapshot target =
      fill_batches batch_size (changed_cursor snapshot target) []
