-- ===== src/Reading.antt =====
-- src/dbextractors/core/reading.py: a stream of batches that survives a dropped connection.
-- The source database and its driver are parameters: `iter_batches` gives, for the number of the
-- attempt and the query, the batches that arrive and the exception that ends them, if any. Logging
-- and the wait between two attempts do not change what is read and are left out.
pub mod Keys
pub mod Steps
pub mod Resume
pub mod Recovery
use Prim.Native.Nat.{max}
use dbextractors.Base.{ℕ, zero, suc, ◌+◌, Bool, true, false, ◌&&◌, not, Option, none, some}
use dbextractors.Base.{List, [], ◌∷◌, ◌++◌, leb, if◌then◌else◌, is_empty, is_some}

-- SQLAlchemy's exceptions: the DBAPI errors by class, with `connection_invalidated`, and all others.
pub data Kind : Type 0 where
  operational interface internal programming data_error integrity : Kind

pub data Failure : Type 0 where
  dbapi : Kind → Bool → Failure
  other : Failure

abbrev pub connection_kind : Kind → Bool
connection_kind operational = true
connection_kind interface = true
connection_kind internal = true
connection_kind _ = false

unfoldable pub is_temporary_error : Failure → Bool
is_temporary_error (dbapi kind invalidated) = if invalidated then true else connection_kind kind
is_temporary_error other = false

-- `columns` says whether the key column is among the batch's.
pub record Batch (Row : Type 0) : Type 0 where
  pub has_key : Bool
  pub rows : List Row

pub record Stream (Row : Type 0) : Type 0 where
  pub batches : List (Batch Row)
  pub failure : Option Failure

-- The three variables of the generator.
pub record Progress : Type 0 where
  pub last_key : Option ℕ
  pub saw_row : Bool
  pub yielded_any : Bool

abbrev pub start : Progress
start = record { last_key = none; saw_row = false; yielded_any = false }

pub data Outcome : Type 0 where
  finished : Outcome
  failed : Failure → Outcome

pub data Reason : Type 0 where
  not_a_connection_error out_of_attempts no_key_captured : Reason

unfoldable pub why_cannot_resume : Failure → Progress → ℕ → ℕ → Option Reason
unfolding is_temporary_error
why_cannot_resume err p attempt attempts =
    if not (is_temporary_error err)
    then some not_a_connection_error
    else if leb attempts attempt
    then some out_of_attempts
    else if p.saw_row
    then none
    else if not p.yielded_any
    then none
    else some no_key_captured

module _ {Row : Type 0} (key : Row → ℕ) where
  -- `batch[pk].max()`, which is only asked of a batch that has rows.
  abbrev pub max_key : List Row → ℕ
  max_key [] = 0
  max_key (r ∷ []) = key r
  max_key (r ∷ s ∷ rows) = max (key r) (max_key (s ∷ rows))

  -- What one batch does to the variables. `pk_in_batch` says whether a key column is named.
  unfoldable pub observe : Bool → Batch Row → Progress → Progress
  observe pk_in_batch b p =
      if pk_in_batch && not (is_empty b.rows) && b.has_key
      then record { last_key = some (max_key b.rows); saw_row = true; yielded_any = true }
      else record p { yielded_any = true }

  unfoldable pub track : Bool → List (Batch Row) → Progress → Progress
  unfolding observe
  track pk_in_batch [] p = p
  track pk_in_batch (b ∷ bs) p = track pk_in_batch bs (observe pk_in_batch b p)

  module _ {Sql : Type 0} (build_sql : Option ℕ → Sql) (iter_batches : ℕ → Sql → Stream Row)
      (pk_in_batch : Bool) (attempts : ℕ) where
    -- The loop over the attempts, with the attempts that are left: what was yielded, in order, and
    -- how the generator ended.
    unfoldable pub read_loop : ℕ → ℕ → Progress → List (Batch Row) × Outcome
    unfolding track why_cannot_resume
    read_loop zero attempt p = ([], finished)
    read_loop (suc left) attempt p =
        let stream = iter_batches attempt (build_sql (if p.saw_row then p.last_key else none)) in
        let p' = track pk_in_batch stream.batches p in
        elim stream.failure [
          | none ↦ (stream.batches, finished)
          | some err ↦ elim (why_cannot_resume err p' attempt attempts) [
            | some reason ↦ (stream.batches, failed err)
            | none ↦
                let (more, outcome) = read_loop left (attempt + 1) p' in
                (stream.batches ++ more, outcome)
          ]
        ]

    unfoldable pub read_with_resume : List (Batch Row) × Outcome
    unfolding read_loop
    read_with_resume = read_loop attempts 1 start
