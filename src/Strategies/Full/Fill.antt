-- ===== src/Strategies/Full/Fill.antt =====
-- What the loop over the batches leaves in the shadow.
use dbextractors.Base.{
  ℕ, suc, ◌+◌, ◌≡◌, refl, sym, ap, subst, ◌∙◌, Bool, true, Option, some, List, [], ◌∷◌, ◌++◌,
  append_assoc, append-nil, arith, Eq, length, length-append, is_empty, map, flatten, Bool-cases,
  inl, inr,
}
use dbextractors.Reading.{Batch}
use dbextractors.Target.SeenKeys.{filter_new, filter_batches}
use dbextractors.Strategies.Full.{
  Faults, FullLoad, LoopStatus, running, broken, new_rows, shadow_rows, write_batch, write_batches,
}

module _ {Row : Type 0} where
  abbrev pub row_count : List (Batch Row) → ℕ
  row_count [] = 0
  row_count (batch ∷ batches) = length batch.rows + row_count batches

  abbrev pub batch_rows : Batch Row → List Row
  batch_rows b = b.rows

module _ {Row K : Type 0} ⦃e : Eq K⦄ (key : Row → Option K) (null_text : K) where
  -- The rows of the batches that are to be written.
  abbrev pub deliver : Bool → List (Batch Row) → List K → List Row
  deliver has_pk [] seen = []
  deliver has_pk (batch ∷ batches) seen =
      (new_rows key null_text has_pk batch.rows seen).0
      ++ deliver has_pk batches (new_rows key null_text has_pk batch.rows seen).1

  -- What a turn that does not break does.
  record IsLoaded (has_pk : Bool) (batch : Batch Row) (s s' : FullLoad Row K) : Type 0 where
    shadow_is :
        s'.shadow
        ≡ some (shadow_rows s.shadow ++ (new_rows key null_text has_pk batch.rows s.seen).0)
    seen_is : s'.seen ≡ (new_rows key null_text has_pk batch.rows s.seen).1
    read_is : s'.rows_read ≡ s.rows_read + length batch.rows
    written_is :
        s'.rows_written
        ≡ s.rows_written + length (new_rows key null_text has_pk batch.rows s.seen).0

  empty_is : (rows : List Row) → is_empty rows ≡ true → rows ≡ []
  empty_is [] h = refl
  empty_is (r ∷ rows) h = absurd (ground arith)

  write_batch-IsLoaded :
      (has_pk : Bool) (faults : Faults) (n : ℕ) (batch : Batch Row) (s s' : FullLoad Row K)
      → write_batch key null_text has_pk faults n batch s ≡ running s'
      → IsLoaded has_pk batch s s'
  unfolding write_batch
  write_batch-IsLoaded has_pk faults n batch s s' h =
      let export = (new_rows key null_text has_pk batch.rows s.seen).0 in
      let rows = shadow_rows s.shadow in
      elim (Bool-cases (is_empty export)) [
        | inl none_new ↦
            let nothing : export ≡ [] = empty_is export none_new in
            let same : rows ++ export ≡ rows = rw nothing (append-nil rows) in
            let count : length export ≡ 0 = ap length nothing in
            let kept : some rows ≡ s'.shadow = ground arith in
            record {
              shadow_is = sym kept ∙ ap some (sym same);
              seen_is = ground arith;
              read_is = ground arith;
              written_is = ground arith;
            }
        | inr some_new ↦ record {
          shadow_is = ground arith;
          seen_is = ground arith;
          read_is = ground arith;
          written_is = ground arith;
        }
      ]

  batches_step :
      (has_pk : Bool) (faults : Faults) (n : ℕ) (batch : Batch Row) (batches : List (Batch Row))
      (s s'' : FullLoad Row K)
      → write_batches key null_text has_pk faults n (batch ∷ batches) s ≡ running s''
      → (s' : FullLoad Row K) × ((write_batch key null_text has_pk faults n batch s ≡ running s')
          × (write_batches key null_text has_pk faults (suc n) batches s' ≡ running s''))
  unfolding write_batches
  batches_step has_pk faults n batch batches s s'' h =
      split (write_batch key null_text has_pk faults n batch s) refl
    where
      split :
          (r : LoopStatus Row K)
          → write_batch key null_text has_pk faults n batch s ≡ r
          → (s' : FullLoad Row K) × ((write_batch key null_text has_pk faults n batch s
                ≡ running s')
              × (write_batches key null_text has_pk faults (suc n) batches s' ≡ running s''))
      split broken e = absurd (ground arith)
      split (running s') e = (s', (e, ground arith))

  -- The shadow after the batches: there is none before the first.
  abbrev pub filled : Bool → List (Batch Row) → FullLoad Row K → Option (List Row)
  filled has_pk [] s = s.shadow
  filled has_pk (batch ∷ batches) s =
      some (shadow_rows s.shadow ++ deliver has_pk (batch ∷ batches) s.seen)

  -- What batches that do not break the loop do.
  pub record IsFilled (has_pk : Bool) (batches : List (Batch Row)) (s s' : FullLoad Row K)
      : Type 0 where
    pub filled_is : s'.shadow ≡ filled has_pk batches s
    pub all_read : s'.rows_read ≡ s.rows_read + row_count batches
    pub all_written : s'.rows_written ≡ s.rows_written + length (deliver has_pk batches s.seen)

  filled_step :
      (has_pk : Bool) (batch : Batch Row) (batches : List (Batch Row)) (s s' : FullLoad Row K)
      → IsLoaded has_pk batch s s'
      → filled has_pk batches s' ≡ filled has_pk (batch ∷ batches) s
  filled_step has_pk batch [] s s' l =
      l.shadow_is ∙ ap (λ rows. some (shadow_rows s.shadow ++ rows)) (sym (append-nil _))
  filled_step has_pk batch (next ∷ batches) s s' l =
      let out = (new_rows key null_text has_pk batch.rows s.seen).0 in
      let rows = shadow_rows s.shadow in
      ap some (rw (l.shadow_is, l.seen_is) (append_assoc rows out _))

  nothing_loaded :
      (has_pk : Bool) (faults : Faults) (n : ℕ) (s s' : FullLoad Row K)
      → write_batches key null_text has_pk faults n [] s ≡ running s'
      → s ≡ s'
  unfolding write_batches
  nothing_loaded has_pk faults n s s' h = ground arith

  pub write_batches-IsFilled :
      (has_pk : Bool) (faults : Faults) (n : ℕ) (batches : List (Batch Row)) (s s' : FullLoad Row K)
      → write_batches key null_text has_pk faults n batches s ≡ running s'
      → IsFilled has_pk batches s s'
  write_batches-IsFilled has_pk faults n [] s s' h =
      let same : s ≡ s' = nothing_loaded has_pk faults n s s' h in
      subst (λ x. IsFilled has_pk [] s x) same
        record { filled_is = refl; all_read = omega arith; all_written = omega arith }
  write_batches-IsFilled has_pk faults n (batch ∷ batches) s s'' h =
      let (s', (first, later)) = batches_step has_pk faults n batch batches s s'' h in
      let l = write_batch-IsLoaded has_pk faults n batch s s' first in
      let f = write_batches-IsFilled has_pk faults (suc n) batches s' s'' later in
      let out = (new_rows key null_text has_pk batch.rows s.seen).0 in
      let rest = deliver has_pk batches (new_rows key null_text has_pk batch.rows s.seen).1 in
      let split = length-append out rest in
      let more : s''.rows_written ≡ s'.rows_written + length rest =
        rw (← l.seen_is) f.all_written in
      record {
        filled_is = f.filled_is ∙ filled_step has_pk batch batches s s' l;
        all_read = omega (arith, f.all_read, l.read_is);
        all_written = omega (arith, more, l.written_is, split);
      }

  -- What is written is what SeenKeys hands on.
  pub deliver-filter_batches :
      (batches : List (Batch Row)) (seen : List K)
      → deliver true batches seen
        ≡ flatten (filter_batches key null_text (map batch_rows batches) seen).0
  unfolding filter_batches
  deliver-filter_batches [] seen = refl
  deliver-filter_batches (batch ∷ batches) seen =
      ap (λ rows. (filter_new key null_text true batch.rows seen).0 ++ rows)
        (deliver-filter_batches batches (filter_new key null_text true batch.rows seen).1)
