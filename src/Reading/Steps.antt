-- ===== src/Reading/Steps.antt =====
-- The three ways in which one attempt of `read_loop` ends.
use dbextractors.Base.{ℕ, suc, ◌+◌, ◌≡◌, Bool, Option, none, some, List, ◌++◌, arith, if◌then◌else◌}
use dbextractors.Reading.{
  Failure, Batch, Stream, Progress, Reason, Outcome, finished, failed, why_cannot_resume, track,
  read_loop,
}

module _ {Row Sql : Type 0} (key : Row → ℕ) (build_sql : Option ℕ → Sql)
    (iter_batches : ℕ → Sql → Stream Row) (pk : Bool) (attempts : ℕ) where
  abbrev pub loop : ℕ → ℕ → Progress → List (Batch Row) × Outcome
  loop = read_loop key build_sql iter_batches pk attempts

  -- The stream of one attempt, and the variables after it.
  abbrev pub stream : ℕ → Progress → Stream Row
  stream attempt p = iter_batches attempt (build_sql (if p.saw_row then p.last_key else none))

  abbrev pub after : ℕ → Progress → Progress
  after attempt p = track key pk (stream attempt p).batches p

  module _ (left attempt : ℕ) (p : Progress) where
    pub loop_finished :
        (stream attempt p).failure ≡ none
        → loop (suc left) attempt p ≡ ((stream attempt p).batches, finished)
    unfolding read_loop
    loop_finished h = ground arith

    pub loop_failed :
        (err : Failure) (reason : Reason)
        → (stream attempt p).failure ≡ some err
        → why_cannot_resume err (after attempt p) attempt attempts ≡ some reason
        → loop (suc left) attempt p ≡ ((stream attempt p).batches, failed err)
    unfolding read_loop
    loop_failed err reason h k = ground arith

    pub loop_resumed :
        (err : Failure)
        → (stream attempt p).failure ≡ some err
        → why_cannot_resume err (after attempt p) attempt attempts ≡ none
        → loop (suc left) attempt p ≡ (
          (stream attempt p).batches ++ (loop left (attempt + 1) (after attempt p)).0,
          (loop left (attempt + 1) (after attempt p)).1,
        )
    unfolding read_loop
    loop_resumed err h k = ground arith
