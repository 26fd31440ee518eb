-- ===== src/Tests/Full.antt =====
-- Full loads of a small table.
use dbextractors.Base.{
  ℕ, ◌≡◌, refl, true, false, Option, none, some, List, [], ◌∷◌, arith, All, codes, nat_eq, take,
  drop, take-append-drop, append-nil, if◌then◌else◌, inl, inr, Bool-cases, nat_Eq,
}
use dbextractors.Reading.{
  Kind, Failure, dbapi, Batch, Stream, Outcome, finished, read_with_resume, is_temporary_error,
}
use dbextractors.Reading.Resume.{query, IsFaithful, rows_of}
use dbextractors.Reading.Recovery.{HasKeys}
use dbextractors.Naming.Unicode.{ascii}
use dbextractors.Partitioning.{list_mode}
use dbextractors.Partitioning.Spec.{effective_spec}
use dbextractors.Target.SeenKeys.{filter_new}
use dbextractors.Target.Shadow.{
  Stored, Database, Outside, partitions_for, swap_into, swap_open, swap_shadow_table,
}
use dbextractors.Strategies.Full.{
  skipped, rows_estimated, Settings, returned, run, load_full, write_batch, write_batches,
  empty_target,
}
use dbextractors.Strategies.Full.Ends.{Explained}
use dbextractors.Strategies.Full.Outcomes.{run-Explained}
use dbextractors.Strategies.Full.Complete.{no_faults}
use dbextractors.Strategies.Full.Recovered.{known_key, run-recovers}

abbrev id : ℕ → ℕ
id x = x

abbrev table : List ℕ
table = 1 ∷ 2 ∷ 3 ∷ 4 ∷ []

abbrev ask : Option ℕ → Option ℕ
ask after = after

-- No batch where there is no row.
abbrev batches : List ℕ → List (Batch ℕ)
batches [] = []
batches (r ∷ rows) = record { has_key = true; rows = r ∷ rows } ∷ []

-- The first attempt brings two rows and breaks.
abbrev source : ℕ → Option ℕ → Stream ℕ
source attempt after =
    let q = query id true true table after in
    if nat_eq attempt 1
    then record { batches = batches (take 2 q); failure = some (dbapi Kind.operational true) }
    else record { batches = batches q; failure = none }

batches-rows_of : (rows : List ℕ) → rows_of (batches rows) ≡ rows
batches-rows_of [] = refl
batches-rows_of (r ∷ rows) = append-nil (r ∷ rows)

batches_columns : (rows : List ℕ) → All (λ b. b.has_key ≡ true) (batches rows)
batches_columns [] = tt
batches_columns (r ∷ rows) = (refl, tt)

batches-HasKeys : (rows : List ℕ) → All HasKeys (batches rows)
batches-HasKeys [] = tt
batches-HasKeys (r ∷ rows) = ((refl, refl), tt)

source-IsFaithful : IsFaithful id ask source true true 5 table
source-IsFaithful attempt after = elim (Bool-cases (nat_eq attempt 1)) [
  | inl first ↦
      let q = query id true true table after in
      rw first (record {
        rest = drop 2 q;
        prefix = rw (batches-rows_of (take 2 q)) (take-append-drop 2 q);
        complete = λ h. cc;
        columns = batches_columns (take 2 q);
      })
  | inr later ↦
      let q = query id true true table after in
      rw later (record {
        rest = [];
        prefix = rw (batches-rows_of q) (append-nil q);
        complete = λ h. refl;
        columns = batches_columns q;
      })
]

source-HasKeys : (attempt : ℕ) (sql : Option ℕ) → All HasKeys (source attempt sql).batches
source-HasKeys attempt sql = elim (Bool-cases (nat_eq attempt 1)) [
  | inl first ↦ rw first (batches-HasKeys (take 2 (query id true true table sql)))
  | inr later ↦ rw later (batches-HasKeys (query id true true table sql))
]

source_temporary :
    (attempt : ℕ) (sql : Option ℕ) (err : Failure)
    → (source attempt sql).failure ≡ some err
    → is_temporary_error err ≡ true
unfolding is_temporary_error
source_temporary attempt sql err h = ground arith

abbrev outside : Outside ℕ
outside = record {
  name = codes "orders";
  distinct_values = λ spec rows. [];
  refuses = λ cat r. false;
  unicode = ascii;
  digest = λ s. [];
  fromisoformat = λ s. none;
}

abbrev settings : Settings
settings = record {
  has_pk = true;
  pk_known = true;
  empty_rows_ok = false;
  spec = none;
  new_columns = codes "id" ∷ [];
}

abbrev stored : Stored ℕ
stored = record { columns = codes "id" ∷ []; rows = 9 ∷ []; partition_key = none }

abbrev database : Database ℕ
database = record { target = some stored; catalogue = [] }

abbrev loaded_database : Database ℕ
loaded_database = record { target = some (record stored { rows = table }); catalogue = [] }

run-recovers_example :
    run
      (known_key id)
      0
      outside
      settings
      no_faults
      skipped
      (read_with_resume id ask source true 5)
      database
    ≡ returned 4 4 true loaded_database
run-recovers_example =
    run-recovers id ask source 5 table (omega arith) source-IsFaithful source-HasKeys
      source_temporary 2 (λ sql. refl) (omega arith) (omega arith) 0 outside settings skipped stored
      database refl refl refl refl refl

-- Two batches that have a key in common.
abbrev overlapping : List (Batch ℕ) × Outcome
overlapping = (
  record { has_key = true; rows = 1 ∷ 2 ∷ [] } ∷ record { has_key = true; rows = 2 ∷ 3 ∷ [] } ∷ [],
  finished,
)

run-Explained_example :
    Explained
      (known_key id)
      0
      outside
      settings
      no_faults
      (rows_estimated 4)
      overlapping
      database
      (run (known_key id) 0 outside settings no_faults (rows_estimated 4) overlapping database)
run-Explained_example =
    run-Explained (known_key id) 0 outside settings no_faults (rows_estimated 4) overlapping
      database

overlapping_test :
    run (known_key id) 0 outside settings no_faults (rows_estimated 4) overlapping database
    ≡ returned 4 3 true
        (record { target = some (record stored { rows = 1 ∷ 2 ∷ 3 ∷ [] }); catalogue = [] })
unfolding run load_full write_batches write_batch filter_new effective_spec swap_shadow_table
    swap_open swap_into partitions_for
overlapping_test = refl

-- One empty batch, as a driver sends it for an empty result, empties the target.
empty_batch_test :
    run
      (known_key id)
      0
      outside
      settings
      no_faults
      skipped
      (record { has_key = true; rows = [] } ∷ [], finished)
      database
    ≡ returned 0 0 false (record { target = some (record stored { rows = [] }); catalogue = [] })
unfolding run load_full write_batches write_batch filter_new effective_spec swap_shadow_table
    swap_open swap_into partitions_for
empty_batch_test = refl

abbrev partitioned : Settings
partitioned = record settings {
  empty_rows_ok = true;
  spec = some (record { column = codes "id"; mode = list_mode; default_partition = true });
}

-- A new target of an empty source is not partitioned, whatever is configured.
empty_source_test :
    run
      (known_key id)
      0
      outside
      partitioned
      no_faults
      (rows_estimated 0)
      ([], finished)
      (record { target = none; catalogue = [] })
    ≡ returned 0 0 false (record {
      target = some (record { columns = codes "id" ∷ []; rows = []; partition_key = none });
      catalogue = [];
    })
unfolding run empty_target swap_shadow_table swap_open
empty_source_test = refl
