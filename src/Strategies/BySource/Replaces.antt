-- ===== src/Strategies/BySource/Replaces.antt =====
-- The replacement of a slice that nothing stops.
use dbextractors.Base.{
  ◌≡◌, refl, ap, ℕ, Bool, true, false, Option, some, List, [], ◌∷◌, ◌++◌, arith, Text, text_Eq,
  length, all, suc, map, ltb, Bool-cases, inl, inr, ◌⊎◌,
}
use dbextractors.Naming.Unicode.{Unicode}
use dbextractors.Dates.{Date}
use dbextractors.Partitioning.Catalog.{Relation, Catalogue}
use dbextractors.Reading.{Batch}
use dbextractors.Target.Slices.{Labelled, Slices, Store, cut_slice, replace_source_slice}
use dbextractors.Target.Slices.Cuts.{slice, HasOwnPartition}
use dbextractors.Strategies.BySource.{SourceFaults, Staged, stage}
use dbextractors.Strategies.BySource.{label_row, with_batch}
use dbextractors.Target.Slices.{
  ensure_partition, from_outcome, accepted, has_place, holds, delete, truncate,
}
use dbextractors.Target.Slices.Cuts.{found_accepts, ensure_partition-IsFound}
use dbextractors.Partitioning.Catalog.{ok}

-- Nothing fails.
abbrev pub no_faults : SourceFaults
no_faults = record {
  read_fails = false;
  estimate_fails = false;
  create_fails = false;
  batch_fails = λ n. false;
  replace_fails = false;
  cut_fails = false;
  write_fails = false;
  index_fails = false;
  layout_fails = false;
  undo_fails = false;
}

module _ {Row : Type 0} where
  pub stage_all :
      (label : Text) (n : ℕ) (batches : List (Batch Row)) (s : Staged Row)
      → (s' : Staged Row) × (stage no_faults (some label) n batches s ≡ some s')
  unfolding stage
  stage_all label n [] s = (s, refl)
  stage_all label n (batch ∷ batches) s =
      stage_all label (suc n) batches (with_batch (some label) batch s)

  all_placed :
      (target label : Text) (cat : Catalogue) (rows : List Row)
      → accepted target cat (some label) ≡ true
      → all (λ row. has_place target cat row.source) (map (label_row (some label)) rows) ≡ true
  all_placed target label cat [] h = refl
  all_placed target label cat (r ∷ rows) h = rw h (all_placed target label cat rows h)

  pub slice-holds :
      (label : Text) (rows : List (Labelled Row))
      → ltb 0 (length (slice label rows)) ≡ true
      → holds label rows ≡ true
  slice-holds label [] h = absurd (ground arith)
  slice-holds label (r ∷ rows) h = ground (arith, slice-holds label rows)

module _ (label : Text) (target : Text) (refuses : Catalogue → Relation → Bool) (u : Unicode)
    (digest : Text → Text) (fromisoformat : Text → Option Date) where
  -- PostgreSQL grants the partition that the target needs, if it is partitioned.
  abbrev pub IsGranted : Bool → Catalogue → Type 0
  IsGranted partitioned cat =
      (partitioned ≡ false)
      ⊎ ((made : Catalogue × Text) × (ensure_partition target refuses u digest fromisoformat cat
              label
            ≡ ok made))

  module _ {Row : Type 0} where
    abbrev replacement : List Row → Store Row → Option (Store Row × ℕ)
    replacement rows db =
        replace_source_slice target refuses u digest fromisoformat false (some label)
          (map (label_row (some label)) rows) db

    plain_replaces :
        (t : Slices Row) (rows : List Row) (db : Store Row)
        → t.partitioned ≡ false
        → db.target ≡ some t
        → (made : Store Row × ℕ) × (replacement rows db ≡ some made)
    unfolding replace_source_slice cut_slice
    plain_replaces t rows db plain there =
        let staged = map (label_row (some label)) rows in
        let db' : Store Row = record db {
          target = some (record t { rows = delete (some label) t.rows ++ staged });
          catalogue = db.catalogue;
        } in
        ((db', length staged), ground arith)

    part_replaces :
        (t : Slices Row) (rows : List Row) (db : Store Row) (cat : Catalogue) (part : Text)
        → HasOwnPartition target u digest fromisoformat label db.catalogue
        → t.partitioned ≡ true
        → ensure_partition target refuses u digest fromisoformat db.catalogue label ≡ ok (cat, part)
        → db.target ≡ some t
        → (made : Store Row × ℕ) × (replacement rows db ≡ some made)
    unfolding replace_source_slice cut_slice
    part_replaces t rows db cat part own parts granted there =
        let f =
          ensure_partition-IsFound target refuses u digest fromisoformat label part db.catalogue cat
            own granted in
        let placed =
          all_placed target label cat rows
            (found_accepts target part label cat f.table f.found f.child f.bounded) in
        let staged = map (label_row (some label)) rows in
        let db' : Store Row = record db {
          target = some (record t { rows = truncate target cat part t.rows ++ staged });
          catalogue = cat;
        } in
        let made_is : from_outcome
              (ensure_partition target refuses u digest fromisoformat db.catalogue label)
            ≡ some (cat, part) =
          ap from_outcome granted in
        ((db', length staged), ground arith)

    pub replaces :
        (t : Slices Row) (rows : List Row) (db : Store Row)
        → HasOwnPartition target u digest fromisoformat label db.catalogue
        → IsGranted t.partitioned db.catalogue
        → db.target ≡ some t
        → (made : Store Row × ℕ) × (replacement rows db ≡ some made)
    replaces t rows db own (inl plain) there = plain_replaces t rows db plain there
    replaces t rows db own (inr (made, granted)) there = elim (Bool-cases t.partitioned) [
      | inl parts ↦ part_replaces t rows db made.0 made.1 own parts granted there
      | inr plain ↦ plain_replaces t rows db plain there
    ]
