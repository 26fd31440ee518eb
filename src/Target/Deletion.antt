-- ===== src/Target/Deletion.antt =====
-- `mark_deleted_in_source` of src/dbextractors/core/target_pg.py: two UPDATEs of the target.
pub mod Laws
use dbextractors.Base.{
  ℕ, ◌+◌, Bool, true, false, ◌&&◌, ◌||◌, not, Option, none, some, List, [], ◌∷◌, Text, text_Eq, Eq,
  is_empty,
}
use dbextractors.Target.Sql.{sql_eq, is_true, is_false, update}

-- A row of the target: its key, its `_source`, `_deleted_in_source` and `_timestamp`, and the rest.
pub record Row (K S V : Type 0) : Type 0 where
  pub key : Option K
  pub source : Option Text
  pub deleted : Option Bool
  pub timestamp : S
  pub value : V

-- `tgt._source = label`, which is asked where the label is neither `None` nor empty.
unfoldable pub in_source : Option Text → Option Text → Bool
in_source none source = true
in_source (some []) source = true
in_source (some (c ∷ label)) source = sql_eq source (some (c ∷ label))

module _ {K : Type 0} ⦃e : Eq K⦄ where
  -- Whether the table of live keys has the row's key.
  unfoldable pub is_live : List (Option K) → Option K → Bool
  is_live [] k = false
  is_live (l ∷ live) k = sql_eq l k || is_live live k

module _ {K S V : Type 0} ⦃e : Eq K⦄ where
  -- The condition of each of the two UPDATEs.
  unfoldable pub to_revive : List (Option K) → Option Text → Row K S V → Bool
  to_revive live label r = is_live live r.key && (is_true r.deleted && in_source label r.source)

  unfoldable pub to_mark : List (Option K) → Option Text → Row K S V → Bool
  to_mark live label r =
      is_false r.deleted && (in_source label r.source && not (is_live live r.key))

  -- The two UPDATEs.
  unfoldable pub revive :
      List (Option K) → Option Text → S → List (Row K S V) → List (Row K S V) × ℕ
  unfolding to_revive
  revive live label now rows =
      update (to_revive live label) (λ r. record r { deleted = some false; timestamp = now }) rows

  unfoldable pub mark : List (Option K) → Option Text → S → List (Row K S V) → List (Row K S V) × ℕ
  unfolding to_mark
  mark live label now rows =
      update (to_mark live label) (λ r. record r { deleted = some true; timestamp = now }) rows

  -- `now` is the value of `timestamp_expr`, which is one within a transaction. The result has the
  -- number of rows that the two statements touched.
  unfoldable pub mark_deleted_in_source :
      List (Option K) → Option Text → S → List (Row K S V) → List (Row K S V) × ℕ
  unfolding revive mark
  mark_deleted_in_source live label now rows =
      let (rows', revived) = revive live label now rows in
      let (rows'', deleted) = mark live label now rows' in (rows'', revived + deleted)
