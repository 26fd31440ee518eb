-- ===== src/Target/Shadow/Laws.antt =====
-- What a swap that succeeds leaves.
use dbextractors.Base.{
  ℕ, ◌≡◌, Bool, true, false, Option, none, some, [], arith, text_Eq, contains, length, inl, inr,
  Bool-cases,
}
use dbextractors.Partitioning.{PartitionSpec}
use dbextractors.Partitioning.Catalog.{
  Catalogue, Outcome, ok, value_error, name_taken, create_failed,
}
use dbextractors.Target.Shadow.{
  Stored, Database, swapped, Outside, partitions_for, replace_rows, replace_after, swap_into,
  parent_of, swap_open, swap_shadow_table,
}

-- What the new target is like but for its rows: a target that was there keeps its columns and its
-- kind; a new one is partitioned exactly if that is configured.
abbrev pub shape :
    {Row : Type 0} → Option PartitionSpec → Stored Row → Option (Stored Row) → Stored Row
shape spec shadow (some t) = t
shape none shadow none = shadow
shape (some s) shadow none = record {
  columns = shadow.columns;
  rows = [];
  partition_key = some s.column;
}

pub record IsSwapped {Row : Type 0} (spec : Option PartitionSpec) (shadow : Stored Row)
    (before : Option (Stored Row)) (after : Database Row) (count : ℕ) : Type 0 where
  pub target_is : after.target ≡ some (record (shape spec shadow before) { rows = shadow.rows })
  pub count_is : count ≡ length shadow.rows

module _ {Row : Type 0} (o : Outside Row) where
  replace_rows-target :
      (insert_fails : Bool) (shadow t : Stored Row) (cat : Catalogue) (db : Database Row) (n : ℕ)
      → replace_rows o insert_fails shadow t cat ≡ swapped db n
      → (db.target ≡ some (record t { rows = shadow.rows })) × (n ≡ length shadow.rows)
  replace_rows-target insert_fails shadow t cat db n e = ground arith

  swap_into-target :
      (insert_fails : Bool) (spec : Option PartitionSpec) (shadow t : Stored Row) (cat : Catalogue)
      (db : Database Row) (n : ℕ)
      → swap_into o insert_fails spec shadow t cat ≡ swapped db n
      → (db.target ≡ some (record t { rows = shadow.rows })) × (n ≡ length shadow.rows)
  unfolding swap_into
  swap_into-target insert_fails spec shadow t cat db n e =
      after (partitions_for o spec t shadow.rows cat) e
    where
      after :
          (c : Outcome Catalogue)
          → replace_after o insert_fails shadow t c ≡ swapped db n
          → (db.target ≡ some (record t { rows = shadow.rows })) × (n ≡ length shadow.rows)
      after (ok cat') h = replace_rows-target insert_fails shadow t cat' db n h
      after value_error h = absurd (ground arith)
      after (name_taken m) h = absurd (ground arith)
      after (create_failed m) h = absurd (ground arith)

  open_cases :
      (insert_fails : Bool) (spec : Option PartitionSpec) (shadow : Stored Row)
      (before : Option (Stored Row)) (cat : Catalogue) (db : Database Row) (n : ℕ)
      → swap_open o insert_fails spec shadow before cat ≡ swapped db n
      → IsSwapped spec shadow before db n
  unfolding swap_open
  open_cases insert_fails spec shadow (some t) cat db n e =
      let (rows, count) = swap_into-target insert_fails spec shadow t cat db n e in
      record { target_is = rows; count_is = count }
  open_cases insert_fails none shadow none cat db n e = record {
    target_is = ground arith;
    count_is = ground arith;
  }
  open_cases insert_fails (some s) shadow none cat db n e =
      elim (Bool-cases (contains s.column shadow.columns)) [
        | inl there ↦
            let (rows, count) =
              swap_into-target insert_fails (some s) shadow (parent_of o shadow s) cat db n
                (ground arith) in
            record { target_is = rows; count_is = count }
        | inr gone ↦ absurd (ground arith)
      ]

  pub swap_shadow_table-IsSwapped :
      (autocommit insert_fails : Bool) (spec : Option PartitionSpec) (shadow : Stored Row)
      (db db' : Database Row) (n : ℕ)
      → swap_shadow_table o autocommit insert_fails spec shadow db ≡ swapped db' n
      → IsSwapped spec shadow db.target db' n
  unfolding swap_shadow_table
  swap_shadow_table-IsSwapped true insert_fails spec shadow db db' n e = absurd (ground arith)
  swap_shadow_table-IsSwapped false insert_fails spec shadow db db' n e =
      open_cases insert_fails spec shadow db.target db.catalogue db' n e
