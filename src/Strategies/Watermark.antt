-- ===== src/Strategies/Watermark.antt =====
-- `IdWatermarkStrategy._load_new_rows` and `_checkpoint_rows` of
-- src/dbextractors/core/strategies/id_watermark.py, over a target that is not partitioned.
-- A batch stands as `_prepare` returns it, rows with their keys. What may fail at a batch is an
-- input: the write of the batch, the upsert, the drop and the commit after it, the new staging table,
-- and the source itself.
pub mod Loading
pub mod Batches
pub mod Checkpoints
pub mod Retry
pub mod Run
use dbextractors.Base.{ℕ, zero, ◌+◌, Bool, true, false, ◌&&◌, not, Option, none, some}
use dbextractors.Base.{List, [], ◌∷◌, ◌++◌, leb, ltb, nat_eq, if◌then◌else◌, is_empty, length}
use dbextractors.Target.Table.{Table, upsert_from_staging}

abbrev pub default_checkpoint_rows : ℕ
default_checkpoint_rows = 5000000

-- `_checkpoint_rows` of a setting that is absent (`none`) or a whole number that is not negative.
unfoldable pub checkpoint_rows : Option ℕ → Option ℕ
checkpoint_rows none = some default_checkpoint_rows
checkpoint_rows (some value) = if ltb 0 value then some value else none

-- Checkpoints are off where the read is not ordered by the key.
abbrev pub effective_checkpoint : Bool → Option ℕ → Option ℕ
effective_checkpoint pk_in_source setting = if pk_in_source then checkpoint_rows setting else none

-- `checkpoint_rows and staged >= checkpoint_rows`
abbrev pub due : Option ℕ → ℕ → Bool
due none staged = false
due (some rows) staged = not (nat_eq rows 0) && leb rows staged

-- What becomes of an upsert: it goes well, or it fails, or what follows it, the drop of the staging
-- table or the commit, fails.
pub data Fate : Type 0 where
  goes_well upsert_fails commit_fails : Fate

pub record Event {ℓ} (V : Type ℓ) : Type ℓ where
  pub batch : Table V
  pub copy_fails : Bool
  pub fate : Fate
  pub create_fails : Bool

-- How the source's stream ends: exhausted, with the fate of the last upsert, or with an exception.
pub data Ending : Type 0 where
  exhausted : Fate → Ending
  broken : Ending

-- `committed` is what another session sees of the target, `current` what this transaction sees.
pub record Load {ℓ} (V : Type ℓ) : Type ℓ where
  pub committed : Table V
  pub current : Table V
  pub staging : Table V
  pub staged : ℕ
  pub rows_read : ℕ
  pub rows_written : ℕ
  pub checkpoints : ℕ

-- A load goes on or has ended well, or has raised after the clean-up of its `except` block.
pub data Status {ℓ} (V : Type ℓ) : Type ℓ where
  running : Load V → Status V
  raised : Load V → Status V

module _ {ℓ} {V : Type ℓ} where
  abbrev pub begin : Table V → Load V
  begin t = record {
    committed = t;
    current = t;
    staging = [];
    staged = 0;
    rows_read = 0;
    rows_written = 0;
    checkpoints = 0;
  }

  abbrev pub state_of : Status V → Load V
  state_of (running s) = s
  state_of (raised s) = s

  -- `conn.rollback()`, then the staging table is dropped.
  abbrev rollback : Load V → Load V
  rollback s = record s { current = s.committed; staging = [] }

  -- The upsert out of the staging table, which is counted at once, the drop of that table, and the
  -- commit.
  unfoldable pub flush : Fate → Load V → Status V
  flush fate s = elim (upsert_from_staging s.staging s.current) [
    | none ↦ raised (rollback s)
    | some t ↦ elim fate [
      | upsert_fails ↦ raised (rollback s)
      | commit_fails ↦
          raised (rollback (record s { rows_written = s.rows_written + length s.staging }))
      | goes_well ↦ running (record s {
        committed = t;
        current = t;
        staging = [];
        rows_written = s.rows_written + length s.staging;
      })
    ]
  ]

  -- The end of a checkpoint that is committed, with a new staging table.
  abbrev next_checkpoint : Bool → Status V → Status V
  next_checkpoint create_fails (running s) =
      let next : Load V = record s { staged = 0; checkpoints = s.checkpoints + 1 } in
      if create_fails then raised (rollback next) else running next
  next_checkpoint create_fails (raised s) = raised s

  -- One turn of the loop over the batches.
  unfoldable pub load_batch : Option ℕ → Event V → Load V → Status V
  load_batch cp e s =
      let read : Load V = record s { rows_read = s.rows_read + length e.batch } in
      let copied : Load V = record read {
        staging = s.staging ++ e.batch;
        staged = s.staged + length e.batch;
      } in
      if is_empty e.batch
      then running read
      else if e.copy_fails
      then raised (rollback read)
      else if due cp copied.staged
      then next_checkpoint e.create_fails (flush e.fate copied)
      else running copied

  -- What follows the loop.
  abbrev finish : Ending → Load V → Status V
  finish (exhausted fate) s = flush fate s
  finish broken s = raised (rollback s)

  unfoldable pub load_rows : Option ℕ → List (Event V) → Ending → Load V → Status V
  unfolding load_batch
  load_rows cp [] ending s = finish ending s
  load_rows cp (e ∷ events) ending s = elim (load_batch cp e s) [
    | raised s' ↦ raised s'
    | running s' ↦ load_rows cp events ending s'
  ]

  -- `_load_new_rows` over a target that holds `t`.
  unfoldable pub load_new_rows : Bool → Option ℕ → List (Event V) → Ending → Table V → Status V
  unfolding load_rows
  load_new_rows pk_in_source setting events ending t =
      load_rows (effective_checkpoint pk_in_source setting) events ending (begin t)
