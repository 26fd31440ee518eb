-- ===== src/Tests/Watermark.antt =====
-- A load of three rows above the watermark 1 that fails after its first checkpoint, and its retry.
use dbextractors.Base.{Option, length, ℕ, ◌≡◌, refl, true, false, some, List, [], ◌∷◌, arith}
use dbextractors.Target.Table.{Table, put_all, max_pk, upsert_from_staging}
use dbextractors.Reading.Keys.{above}
use dbextractors.Strategies.Watermark.{
  Event, goes_well, exhausted, broken, Load, running, raised, checkpoint_rows, flush, load_batch,
  load_new_rows,
}
use dbextractors.Strategies.Watermark.Loading.{rows_of}
use dbextractors.Strategies.Watermark.Checkpoints.{Leaves, loses_commit, load_new_rows-Leaves}
use dbextractors.Strategies.Watermark.Retry.{pk, retry_completes}
use dbextractors.Strategies.Watermark.Run.{
  KeySettings, nothing_new, loaded, run_above, run_watermark,
}
use dbextractors.Strategies.Watermark.Run.Again.{run_watermark_again}

abbrev source : Table ℕ
source = (1, 10) ∷ (2, 20) ∷ (3, 30) ∷ (4, 40) ∷ []

abbrev target : Table ℕ
target = (1, 10) ∷ []

abbrev event : Table ℕ → Event ℕ
event rows = record { batch = rows; copy_fails = false; fate = goes_well; create_fails = false }

-- Two rows arrive and are committed by a checkpoint, then the source breaks.
abbrev first : List (Event ℕ)
first = event ((2, 20) ∷ []) ∷ event ((3, 30) ∷ []) ∷ []

abbrev after_first : Load ℕ
after_first = record {
  committed = (1, 10) ∷ (2, 20) ∷ (3, 30) ∷ [];
  current = (1, 10) ∷ (2, 20) ∷ (3, 30) ∷ [];
  staging = [];
  staged = 0;
  rows_read = 2;
  rows_written = 2;
  checkpoints = 1;
}

first_raised : load_new_rows true (some 2) first broken target ≡ raised after_first
unfolding load_new_rows load_batch flush upsert_from_staging checkpoint_rows
first_raised = refl

abbrev second : List (Event ℕ)
second = event ((4, 40) ∷ []) ∷ []

abbrev after_second : Load ℕ
after_second = record {
  committed = source;
  current = source;
  staging = [];
  staged = 1;
  rows_read = 1;
  rows_written = 1;
  checkpoints = 0;
}

second_done :
    load_new_rows true (some 2) second (exhausted goes_well) after_first.committed
    ≡ running after_second
unfolding load_new_rows load_batch flush upsert_from_staging checkpoint_rows
second_done = refl

load_new_rows-Leaves_example :
    Leaves
      (loses_commit first broken)
      target
      (rows_of first)
      (load_new_rows true (some 2) first broken target)
load_new_rows-Leaves_example = load_new_rows-Leaves true (some 2) first broken target

retry_completes_example : source ≡ put_all target (above pk 1 source)
retry_completes_example =
    retry_completes source ((4, 40) ∷ []) target 1 3 (some 2) first broken after_first (some 2)
      second (exhausted goes_well) after_second (omega arith) (unfold max_pk in refl) refl
      first_raised (unfold max_pk in refl) refl second_done

abbrev keyed : KeySettings
keyed = record {
  has_pk = true;
  pk_known = true;
  has_unique_index = true;
  pk_in_source = true;
  checkpoint_setting = some 2;
}

-- The delta above any watermark, in one batch.
abbrev delta : ℕ → List (Event ℕ)
delta w = event (above pk w source) ∷ []

abbrev counted : ℕ → Option ℕ
counted w = some (length (above pk w source))

abbrev after_run : Load ℕ
after_run = record {
  committed = source;
  current = source;
  staging = [];
  staged = 0;
  rows_read = 3;
  rows_written = 3;
  checkpoints = 1;
}

run_test :
    run_watermark keyed counted delta (λ w. exhausted goes_well) (some target)
    ≡ loaded (running after_run)
unfolding run_watermark run_above load_new_rows load_batch flush upsert_from_staging checkpoint_rows
    max_pk
run_test = refl

target_watermark : max_pk target ≡ some 1
unfolding max_pk
target_watermark = refl

run_watermark_again_example :
    (after_run.committed ≡ put_all target (above pk 1 source))
    × (run_watermark keyed counted delta (λ w. exhausted goes_well) (some after_run.committed)
        ≡ nothing_new)
run_watermark_again_example =
    run_watermark_again keyed counted delta (λ w. exhausted goes_well) source target 1 after_run
      (omega arith) (λ n. refl) target_watermark refl run_test
