-- ===== src/Reading/Resume.antt =====
-- What `read_with_resume` hands over: rows of the table in order, none twice and none left out.
use dbextractors.Base.{
  ℕ, zero, suc, ◌+◌, ◌<◌, ◌≡◌, refl, sym, ap, subst, ◌∙◌, Bool, true, false, ◌&&◌,
}
use dbextractors.Base.{Option, none, some, List, [], ◌∷◌, ◌++◌, arith, All, if◌then◌else◌, inl, inr}
use dbextractors.Base.{append_assoc, append-nil, Bool-cases, Option-cases, nat_eq}
use native.Mathlib.Decide.{dec_lt}
use dbextractors.Reading.{
  Failure, Batch, Stream, Progress, start, Outcome, finished, why_cannot_resume, max_key, observe,
  track, read_loop, read_with_resume,
}
use dbextractors.Reading.Steps.{loop, stream, after, loop_finished, loop_failed, loop_resumed}
use dbextractors.Reading.Keys.{above, Ascending, above-max_key}

abbrev pub rows_of : {Row : Type 0} → List (Batch Row) → List Row
rows_of [] = []
rows_of (b ∷ bs) = b.rows ++ rows_of bs

rows_of-append :
    {Row : Type 0} (bs cs : List (Batch Row)) → rows_of (bs ++ cs) ≡ rows_of bs ++ rows_of cs
rows_of-append [] cs = refl
rows_of-append (b ∷ bs) cs = simp (rows_of-append bs cs, append_assoc)

-- A stream that brings a result from its start: all of it, unless an exception ends it. `has` says
-- whether the key column is among the columns of the query.
pub record Delivers {Row : Type 0} (has : Bool) (result : List Row) (s : Stream Row) : Type 0 where
  pub rest : List Row
  pub prefix : rows_of s.batches ++ rest ≡ result
  pub complete : s.failure ≡ none → rest ≡ []
  pub columns : All (λ b. b.has_key ≡ has) s.batches

module _ {Row : Type 0} (key : Row → ℕ) (pk has : Bool) (table : List Row) where
  -- The rows that the query asks for, all of them or those above the last key.
  abbrev pub query : Option ℕ → List Row
  query none = table
  query (some k) = above key k table

  -- Where a read may go on from: `rem` is what is still to be handed over.
  record CanResume (p : Progress) (rem : List Row) : Type 0 where
    resume : p.saw_row ≡ true → query p.last_key ≡ rem
    restart : p.saw_row ≡ false → p.yielded_any ≡ false → table ≡ rem
    keyed : p.saw_row ≡ true → (pk && has) ≡ true

  module _ (ordered : pk ≡ true → Ascending key table) where
    capture-resume :
        (old : List Row) (x : Row) (xs rem : List Row)
        → pk ≡ true
        → table ≡ old ++ ((x ∷ xs) ++ rem)
        → above key (max_key key (x ∷ xs)) table ≡ rem
    capture-resume old x xs rem is_pk e =
        let e' : table ≡ (old ++ x ∷ xs) ++ rem = e ∙ sym (append_assoc old (x ∷ xs) rem) in
        rw e' (above-max_key key old x xs rem (rw e' at (ordered is_pk)))

    observe-CanResume :
        (old rows rem : List Row) (p : Progress)
        → table ≡ old ++ (rows ++ rem)
        → CanResume p (rows ++ rem)
        → CanResume (observe key pk (record { has_key = has; rows = rows }) p) rem
    unfolding observe
    observe-CanResume old [] rem p e c = ground (arith, c.resume, c.restart, c.keyed)
    observe-CanResume old (x ∷ xs) rem p e c = elim (Bool-cases (pk && has)) [
      | inl both ↦
          let is_pk : pk ≡ true = ground arith in
          let test : (pk && true && has) ≡ true = ground arith in
          rw test (record {
            resume = λ _. capture-resume old x xs rem is_pk e;
            restart = λ h. cc;
            keyed = λ _. both;
          })
      | inr never ↦ ground (arith, c.keyed)
    ]

    track-CanResume :
        (bs : List (Batch Row)) (old rem : List Row) (p : Progress)
        → table ≡ old ++ (rows_of bs ++ rem)
        → All (λ b. b.has_key ≡ has) bs
        → CanResume p (rows_of bs ++ rem)
        → CanResume (track key pk bs p) rem
    unfolding track
    track-CanResume [] old rem p e cols c = c
    track-CanResume (b ∷ bs) old rem p e (col, cols) c =
        let e' : table ≡ old ++ (b.rows ++ (rows_of bs ++ rem)) =
          e ∙ ap (λ t. old ++ t) (append_assoc b.rows (rows_of bs) rem) in
        let c' : CanResume p (b.rows ++ (rows_of bs ++ rem)) = rw (← append_assoc) c in
        track-CanResume bs (old ++ b.rows) rem (observe key pk b p)
          (e' ∙ sym (append_assoc old b.rows (rows_of bs ++ rem))) cols
          (subst
            (λ h.
              CanResume (observe key pk (record { has_key = h; rows = b.rows }) p)
                (rows_of bs ++ rem))
            (sym col) (observe-CanResume old b.rows (rows_of bs ++ rem) p e' c'))

  -- The query of the next attempt asks for what is still to be handed over.
  next-query :
      (err : Failure) (p : Progress) (attempt attempts : ℕ) (rem : List Row)
      → CanResume p rem
      → why_cannot_resume err p attempt attempts ≡ none
      → (query (if p.saw_row then p.last_key else none) ≡ rem) × (attempt < attempts)
  unfolding why_cannot_resume
  next-query err p attempt attempts rem c e = ground (arith, c.resume, c.restart)

module _ {Row Sql : Type 0} (key : Row → ℕ) (build_sql : Option ℕ → Sql)
    (iter_batches : ℕ → Sql → Stream Row) (pk has : Bool) (attempts : ℕ) (table : List Row) where
  -- The source answers every query from its start, in the table's order, and the table does not
  -- change between the attempts.
  abbrev pub IsFaithful : Type 0
  IsFaithful =
      (attempt : ℕ) (after : Option ℕ)
      → Delivers has (query key pk has table after) (iter_batches attempt (build_sql after))

  abbrev at_loop : ℕ → ℕ → Progress → List (Batch Row) × Outcome
  at_loop = loop key build_sql iter_batches pk attempts

  -- What was yielded is the start of what was to come, and all of it where the loop finishes.
  record Hands (rem : List Row) (r : List (Batch Row) × Outcome) : Type 0 where
    later : List Row
    split : rows_of r.0 ++ later ≡ rem
    whole : r.1 ≡ finished → later ≡ []

  module _ (ordered : pk ≡ true → Ascending key table) (faithful : IsFaithful) where
    loop-Hands :
        (left attempt : ℕ) (p : Progress) (old rem : List Row)
        → attempt + left ≡ attempts + 1
        → 0 < left
        → table ≡ old ++ rem
        → CanResume key pk has table p rem
        → query key pk has table (if p.saw_row then p.last_key else none) ≡ rem
        → Hands rem (at_loop left attempt p)
    loop-Hands zero attempt p old rem count pos e c q = absurd (omega arith)
    loop-Hands (suc left) attempt p old rem count pos e c q = elim (Option-cases s.failure) [
      | inl fin ↦
          rw (loop_finished key build_sql iter_batches pk attempts left attempt p fin)
            (record { later = d.rest; split = d.prefix ∙ q; whole = λ _. d.complete fin })
      | inr (err, failure) ↦ elim (Option-cases (why_cannot_resume err p' attempt attempts)) [
        | inr (reason, stop) ↦
            rw
              (loop_failed key build_sql iter_batches pk attempts left attempt p err reason failure
                stop)
              (record { later = d.rest; split = d.prefix ∙ q; whole = λ h. cc })
        | inl go ↦
            let (q', more) = next-query key pk has table err p' attempt attempts d.rest c' go in
            let ih =
              loop-Hands left (attempt + 1) p' (old ++ rows_of s.batches) d.rest (omega arith)
                (omega arith) e' c' q' in
            let b = s.batches in
            let bs = (at_loop left (attempt + 1) p').0 in
            rw (loop_resumed key build_sql iter_batches pk attempts left attempt p err failure go)
              (record {
                later = ih.later;
                split =
                    rw rows_of-append
                      (append_assoc (rows_of b) (rows_of bs) ih.later ∙ rw ih.split (d.prefix ∙ q));
                whole = ih.whole;
              })
      ]
    ]
      where
        s : Stream Row
        s = stream key build_sql iter_batches pk attempts attempt p

        d : Delivers has (query key pk has table (if p.saw_row then p.last_key else none)) s
        d = faithful attempt (if p.saw_row then p.last_key else none)

        p' : Progress
        p' = after key build_sql iter_batches pk attempts attempt p

        e'' : table ≡ old ++ (rows_of s.batches ++ d.rest)
        e'' = e ∙ ap (λ t. old ++ t) (sym (d.prefix ∙ q))

        e' : table ≡ (old ++ rows_of s.batches) ++ d.rest
        e' = e'' ∙ sym (append_assoc old (rows_of s.batches) d.rest)

        c' : CanResume key pk has table p' d.rest
        c' =
            track-CanResume key pk has table ordered s.batches old d.rest p e'' d.columns
              (rw (d.prefix, q) c)

    from_start : 0 < attempts → Hands table (at_loop attempts 1 start)
    from_start some_left =
        loop-Hands attempts 1 start [] table (omega arith) some_left refl
          (record { resume = λ h. cc; restart = λ _ _. refl; keyed = λ h. cc }) refl

    -- Whatever fails and whenever, the rows of the yielded batches are the start of the table, in its
    -- order: no row is handed over twice, and none is skipped between two others. The key column
    -- must be the table's order where one is named.
    pub read-prefix :
        (later : List Row) × (rows_of (read_with_resume key build_sql iter_batches pk attempts).0
            ++ later
          ≡ table)
    unfolding read_with_resume
    read-prefix = elim (dec_lt 0 attempts) [
      | yes some_left ↦ let h = from_start some_left in (h.later, h.split)
      | no none_left ↦ let e : attempts ≡ 0 = omega arith in (table, rw (e, read_loop) refl)
    ]

    -- A read that finishes with no exception has handed over the whole table, except that with 0
    -- attempts it finishes and has handed over nothing.
    pub read-finished :
        (read_with_resume key build_sql iter_batches pk attempts).1 ≡ finished
        → rows_of (read_with_resume key build_sql iter_batches pk attempts).0
          ≡ (if nat_eq attempts 0 then [] else table)
    unfolding read_with_resume
    read-finished done = elim (dec_lt 0 attempts) [
      | yes some_left ↦
          let h = from_start some_left in
          let test : nat_eq attempts 0 ≡ false = ground arith in
          rw test (sym (append-nil _) ∙ rw (h.whole done) at h.split)
      | no none_left ↦ let e : attempts ≡ 0 = omega arith in rw (e, read_loop) refl
    ]
