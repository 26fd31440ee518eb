-- ===== src/Reading/Recovery.antt =====
-- When `read_with_resume` survives the failures of its source.
use dbextractors.Base.{ℕ, zero, suc, ◌+◌, ◌≤◌, ◌<◌, ◌≡◌, refl, true, false}
use dbextractors.Base.{Option, none, some, List, [], ◌∷◌, arith, All, inl, inr, ◌⊎◌}
use dbextractors.Base.{Option-cases, is_empty, if◌then◌else◌}
use native.Mathlib.Decide.{dec_lt}
use dbextractors.Reading.{
  Failure, Batch, Stream, Progress, start, finished, why_cannot_resume, observe, track, read_loop,
  read_with_resume, is_temporary_error,
}
use dbextractors.Reading.Steps.{after, stream, loop_finished, loop_resumed}

-- A batch with rows, and with the key among its columns.
abbrev pub HasKeys : {Row : Type 0} → Batch Row → Type 0
HasKeys b = (b.has_key ≡ true) × (is_empty b.rows ≡ false)

-- Nothing was handed over without a key that the read could go on from.
abbrev IsCovered : Progress → Type 0
IsCovered p = (p.saw_row ≡ true) ⊎ (p.yielded_any ≡ false)

track-IsCovered :
    {Row : Type 0} (key : Row → ℕ) (bs : List (Batch Row)) (p : Progress)
    → All HasKeys bs
    → IsCovered p
    → IsCovered (track key true bs p)
unfolding track
track-IsCovered key [] p h c = c
track-IsCovered key (b ∷ bs) p ((k, e), h) c =
    track-IsCovered key bs (observe key true b p) h (ground arith)

resumes :
    (err : Failure) (p : Progress) (attempt attempts : ℕ)
    → is_temporary_error err ≡ true
    → attempt < attempts
    → IsCovered p
    → why_cannot_resume err p attempt attempts ≡ none
unfolding why_cannot_resume
resumes err p attempt attempts t h c = ground arith

module _ {Row Sql : Type 0} (key : Row → ℕ) (build_sql : Option ℕ → Sql)
    (iter_batches : ℕ → Sql → Stream Row) (attempts : ℕ)
    (keyed : (attempt : ℕ) (sql : Sql) → All HasKeys (iter_batches attempt sql).batches)
    (temporary : (attempt : ℕ) (sql : Sql) (err : Failure)
      → (iter_batches attempt sql).failure ≡ some err
      → is_temporary_error err ≡ true)
    (good : ℕ) (recovered : (sql : Sql) → (iter_batches good sql).failure ≡ none) where
  -- An attempt that fails stands before the good one.
  not_yet :
      (attempt : ℕ) (sql : Sql) (err : Failure)
      → (iter_batches attempt sql).failure ≡ some err
      → attempt ≤ good
      → attempt < good
  not_yet attempt sql err failure before = elim (dec_lt attempt good) [
    | yes less ↦ less
    | no full ↦ let e : attempt ≡ good = omega arith in cc (rw e at failure, recovered sql)
  ]

  loop-recovers :
      (left attempt : ℕ) (p : Progress)
      → attempt + left ≡ attempts + 1
      → attempt ≤ good
      → good ≤ attempts
      → IsCovered p
      → (read_loop key build_sql iter_batches true attempts left attempt p).1 ≡ finished
  loop-recovers zero attempt p count before within c = absurd (omega arith)
  loop-recovers (suc left) attempt p count before within c =
      elim (Option-cases (stream key build_sql iter_batches true attempts attempt p).failure) [
        | inl fin ↦
            rw (loop_finished key build_sql iter_batches true attempts left attempt p fin) refl
        | inr (err, failure) ↦
            let sql = build_sql (if p.saw_row then p.last_key else none) in
            let p' = after key build_sql iter_batches true attempts attempt p in
            let c' =
              track-IsCovered key (iter_batches attempt sql).batches p (keyed attempt sql) c in
            let more : attempt < good = not_yet attempt sql err failure before in
            let go =
              resumes err p' attempt attempts (temporary attempt sql err failure) (omega arith)
                c' in
            rw (loop_resumed key build_sql iter_batches true attempts left attempt p err failure go)
              (loop-recovers left (attempt + 1) p' (omega arith) (omega arith) within c')
      ]

  -- A read that may go on from a key, over a source that fails only with connection errors and sends
  -- no empty batch, finishes if one of the attempts that it has meets no failure.
  pub read_recovers :
      0 < good
      → good ≤ attempts
      → (read_with_resume key build_sql iter_batches true attempts).1 ≡ finished
  unfolding read_with_resume
  read_recovers positive within =
      loop-recovers attempts 1 start (omega arith) positive within (inr refl)
