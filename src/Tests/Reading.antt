-- ===== src/Tests/Reading.antt =====
-- A read of five rows whose connection drops after two.
use dbextractors.Base.{
  ℕ, ◌≡◌, refl, true, Option, none, some, List, [], ◌∷◌, arith, inl, inr, Bool-cases,
}
use dbextractors.Base.{take, drop, nat_eq, if◌then◌else◌, take-append-drop, append-nil, ◌++◌, All}
use dbextractors.Reading.{
  Batch, Stream, Kind, dbapi, Failure, Outcome, finished, read_with_resume, is_temporary_error,
}
use dbextractors.Reading.Resume.{query, rows_of, IsFaithful, read-prefix, read-finished}
use dbextractors.Reading.Recovery.{HasKeys, read_recovers}

abbrev id : ℕ → ℕ
id x = x

abbrev table : List ℕ
table = 1 ∷ 2 ∷ 3 ∷ 4 ∷ 5 ∷ []

abbrev ask : Option ℕ → Option ℕ
ask after = after

abbrev batch : List ℕ → Batch ℕ
batch rows = record { has_key = true; rows = rows }

-- The first attempt brings two rows and breaks, the others bring everything.
abbrev source : ℕ → Option ℕ → Stream ℕ
source attempt after =
    let q = query id true true table after in
    if nat_eq attempt 1
    then record { batches = batch (take 2 q) ∷ []; failure = some (dbapi Kind.operational true) }
    else record { batches = batch q ∷ []; failure = none }

source-IsFaithful : IsFaithful id ask source true true 5 table
source-IsFaithful attempt after = elim (Bool-cases (nat_eq attempt 1)) [
  | inl first ↦ rw first (record {
    rest = drop 2 (query id true true table after);
    prefix = rw append-nil (take-append-drop 2 (query id true true table after));
    complete = λ h. cc;
    columns = (refl, tt);
  })
  | inr later ↦
      rw later
        (record { rest = []; prefix = simp append-nil; complete = λ h. refl; columns = (refl, tt) })
]

abbrev run : List (Batch ℕ) × Outcome
run = read_with_resume id ask source true 5

run_test : run ≡ (batch (1 ∷ 2 ∷ []) ∷ batch (3 ∷ 4 ∷ 5 ∷ []) ∷ [], finished)
unfolding read_with_resume
run_test = refl

read-prefix_example : (later : List ℕ) × (rows_of run.0 ++ later ≡ table)
read-prefix_example =
    read-prefix id ask source true true 5 table (λ _. omega arith) source-IsFaithful

read-finished_example : rows_of run.0 ≡ table
unfolding read_with_resume
read-finished_example =
    read-finished id ask source true true 5 table (λ _. omega arith) source-IsFaithful refl

-- A source without empty batches, which fails once.
abbrev keyed_source : ℕ → Option ℕ → Stream ℕ
keyed_source attempt after =
    if nat_eq attempt 1
    then record { batches = batch (1 ∷ []) ∷ []; failure = some (dbapi Kind.interface true) }
    else record { batches = batch (2 ∷ []) ∷ []; failure = none }

keyed_source-HasKeys :
    (attempt : ℕ) (sql : Option ℕ) → All HasKeys (keyed_source attempt sql).batches
keyed_source-HasKeys attempt sql = ground arith

keyed_source_temporary :
    (attempt : ℕ) (sql : Option ℕ) (err : Failure)
    → (keyed_source attempt sql).failure ≡ some err
    → is_temporary_error err ≡ true
unfolding is_temporary_error
keyed_source_temporary attempt sql err h = ground arith

read_recovers_example : (read_with_resume id ask keyed_source true 3).1 ≡ finished
read_recovers_example =
    read_recovers id ask keyed_source 3 keyed_source-HasKeys keyed_source_temporary 2 (λ sql. refl)
      (omega arith) (omega arith)
