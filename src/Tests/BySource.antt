-- ===== src/Tests/BySource.antt =====
-- Runs for one source of a table of two.
use dbextractors.Base.{
  ℕ, ◌≡◌, refl, sym, ap, subst, true, false, Bool, Option, none, some, List, [], ◌∷◌, arith, Text,
  codes, text_Eq, inr,
}
use dbextractors.Naming.Unicode.{ascii}
use dbextractors.Dates.{Date}
use dbextractors.Partitioning.{list_mode}
use dbextractors.Partitioning.Names.{
  text_value, partition_ref, partition_suffix, slug, slug_runs, fit,
}
use dbextractors.Naming.Mapping.{strip_left, strip_right}
use dbextractors.Partitioning.Catalog.{
  Relation, Catalogue, one_value, relation, ensure_partition_for, partition_exists, ok,
}
use dbextractors.Reading.{Batch, Outcome, finished}
use dbextractors.Target.Slices.{
  Labelled, Store, stored_fingerprint, put_fingerprint, ensure_partition, cut_slice, truncate,
}
use dbextractors.Target.Slices.Cuts.{rows_of, others, HasOwnPartition}
use dbextractors.Strategies.Fingerprint.{FingerprintParts, part_text, fingerprint_key}
use dbextractors.Strategies.Fingerprint.Parts.{fingerprint_key_injective}
use dbextractors.Strategies.BySource.{
  SourceSettings, Session, session_of, returned, can_skip, resolve_partitioning, validate,
  finish_source, finish_index,
}
use dbextractors.Strategies.BySource.Run.{skipped, run_by_source, run_after, load, empty_source}
use dbextractors.Strategies.BySource.Safety.{run-others}
use dbextractors.Strategies.BySource.Accounted.{Accounted, load_result}
use dbextractors.Strategies.BySource.Outcomes.{run-Accounted}
use dbextractors.Strategies.BySource.Uncommitted.{run-uncommitted}
use dbextractors.Strategies.BySource.Replaces.{no_faults}
use dbextractors.Strategies.BySource.Loads.{Loaded, run_loads}
use dbextractors.Strategies.BySource.Once.{run_loads_once}

abbrev table : Text
table = codes "t"

abbrev label : Text
label = codes "a"

abbrev refuses : Catalogue → Relation → Bool
refuses cat r = false

abbrev digest : Text → Text
digest s = []

abbrev no_dates : Text → Option Date
no_dates s = none

abbrev settings : SourceSettings
settings = record {
  supported = true;
  source_label = some label;
  partition_by_source = true;
  spec = none;
  force_reload = false;
  empty_rows_ok = false;
  is_last_source = false;
  pk_known = true;
}

abbrev row : Text → ℕ → Labelled ℕ
row source n = record { source = some source; values = n }

abbrev partition : Text → Text → Relation
partition name source = record {
  name = name;
  parent = some table;
  bounds = one_value (text_value source);
}

-- A partitioned target with one row of each source.
abbrev db : Store ℕ
db = record {
  target =
      some (record {
        partitioned = true;
        rows = row label 1 ∷ row (codes "b") 2 ∷ [];
        indexed = false;
      });
  catalogue = partition (codes "t__a") label ∷ partition (codes "t__b") (codes "b") ∷ [];
  fingerprints = [];
}

abbrev read : List (Batch ℕ) × Outcome
read = (record { has_key = true; rows = 3 ∷ 4 ∷ [] } ∷ [], finished)

named : partition_ref ascii digest no_dates table list_mode (text_value label) ≡ some (codes "t__a")
unfolding partition_ref partition_suffix slug slug_runs strip_left strip_right fit
named = refl

found_first :
    (r : Relation)
    → relation (codes "t__a") db.catalogue ≡ some r
    → partition (codes "t__a") label ≡ r
unfolding relation
found_first r h = ground arith

own : HasOwnPartition table ascii digest no_dates label db.catalogue
own = record {
  own = λ part r is found.
      let name : codes "t__a" ≡ part = ground (arith, named) in
      sym (
        ap (λ (x : Relation). x.bounds)
          (found_first r (subst (λ n. relation n db.catalogue ≡ some r) (sym name) found)));
}

run-others_example :
    others label (
      rows_of
        (session_of (
          run_by_source table refuses ascii digest no_dates settings no_faults
            (some (codes "m"))
            2
            read
            db)).committed)
    ≡ others label (rows_of db)
run-others_example =
    run-others table refuses ascii digest no_dates settings no_faults (some (codes "m")) 2 read
      label db refl own

run-Accounted_example : Accounted label (some (codes "m")) 2 read db (
    run_by_source table refuses ascii digest no_dates settings no_faults
      (some (codes "m"))
      2
      read
      db)
run-Accounted_example =
    run-Accounted label table refuses ascii digest no_dates settings no_faults (some (codes "m")) 2
      read db refl own

valid : validate settings ≡ true
unfolding validate
valid = refl

unskipped :
    (can_skip settings no_faults (some (codes "m")) (record { working = db; committed = db })).0
    ≡ false
unfolding can_skip stored_fingerprint
unskipped = refl

granted :
    ensure_partition table refuses ascii digest no_dates db.catalogue label
    ≡ ok (db.catalogue, codes "t__a")
unfolding ensure_partition ensure_partition_for partition_ref partition_suffix slug slug_runs
    strip_left strip_right fit partition_exists relation
granted = refl

run_loads_example :
    Loaded label table refuses ascii digest no_dates settings (some (codes "m")) 2 read db
run_loads_example =
    run_loads label table refuses ascii digest no_dates settings (some (codes "m")) 2 read db refl
      valid unskipped refl refl refl own (inr ((db.catalogue, codes "t__a"), granted))

run_loads_once_example :
    (s : Session ℕ) × ((run_by_source table refuses ascii digest no_dates settings no_faults
          (some (codes "m"))
          2
          read
          db
        ≡ returned (load_result 2) s)
      × (run_by_source table refuses ascii digest no_dates settings no_faults
            (some (codes "m"))
            2
            ([], finished)
            s.committed
          ≡ returned skipped (record { working = s.committed; committed = s.committed })))
run_loads_once_example =
    run_loads_once label table refuses ascii digest no_dates settings (codes "m") 2 2 read
      ([], finished) db refl valid refl unskipped refl refl refl own
      (inr ((db.catalogue, codes "t__a"), granted))

run-uncommitted_example :
    (session_of (
      run_by_source table refuses ascii digest no_dates settings no_faults none 0 read
        db)).committed
    ≡ db
run-uncommitted_example =
    run-uncommitted table refuses ascii digest no_dates settings no_faults db
      (record { partitioned = true; rows = row label 1 ∷ row (codes "b") 2 ∷ []; indexed = false })
      read refl refl

abbrev counted : Option Text → FingerprintParts
counted max_id = record {
  count = 12;
  max_id = max_id;
  max_ts = none;
  agg = some (codes "1.500000");
}

same_key : fingerprint_key (counted none) ≡ fingerprint_key (counted (some []))
unfolding fingerprint_key
same_key = refl

fingerprint_key_injective_example :
    ((counted none).count ≡ (counted (some [])).count)
    × (part_text none ≡ part_text (some []))
    × (part_text (counted none).max_ts ≡ part_text (counted (some [])).max_ts)
    × (part_text (counted none).agg ≡ part_text (counted (some [])).agg)
fingerprint_key_injective_example =
    fingerprint_key_injective (counted none) (counted (some [])) tt tt tt tt same_key

-- Two labels with one name of a partition: the run for the empty "a_1" empties what "a-1" has.
abbrev shared : Store ℕ
shared = record {
  target = some (record { partitioned = true; rows = row (codes "a-1") 7 ∷ []; indexed = false });
  catalogue = partition (codes "t__a_1") (codes "a-1") ∷ [];
  fingerprints = [];
}

neighbour_emptied :
    rows_of
      (session_of (
        run_by_source table refuses ascii digest no_dates
          (record settings { source_label = some (codes "a_1") })
          no_faults
          (some (codes "m"))
          0
          read
          shared)).committed
    ≡ []
unfolding run_by_source validate can_skip run_after load resolve_partitioning empty_source cut_slice
    ensure_partition ensure_partition_for partition_ref partition_suffix slug slug_runs strip_left
    strip_right fit partition_exists relation truncate stored_fingerprint put_fingerprint
    finish_source finish_index
neighbour_emptied = refl
