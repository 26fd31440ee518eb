-- ===== src/Strategies/Watermark/Batches.antt =====
-- What one turn of the loop over the batches keeps.
use dbextractors.Base.{ℕ, ◌+◌, ◌≡◌, sym, ap, ◌∙◌, Bool, true, false, Option}
use dbextractors.Base.{
  [], ◌∷◌, ◌++◌, arith, length, inl, inr, length-append, append_assoc, append-nil, Bool-cases,
}
use dbextractors.Target.Table.{Table}
use dbextractors.Strategies.Watermark.{Fate, Load, flush, load_batch, due}
use dbextractors.Strategies.Watermark.Loading.{
  IsLoading, After, is_lost, rollback-IsPartial, flush-AfterFlush, next_checkpoint-After,
}

module _ {ℓ} {V : Type ℓ} where
  copied-IsLoading :
      (t seen batch : Table V) (s : Load V) (staged : ℕ)
      → IsLoading t seen s
      → IsLoading t (seen ++ batch) (record s {
        staging = s.staging ++ batch;
        staged = staged;
        rows_read = s.rows_read + length batch;
      })
  copied-IsLoading t seen batch s staged l = record {
    written = l.written;
    target = l.target;
    clean = l.clean;
    split = sym (append_assoc l.written s.staging batch) ∙ ap (λ x. x ++ batch) l.split;
    counted = l.counted;
    read = rw (l.read) (sym (length-append seen batch));
  }

  pub load_batch-After :
      (lost : Bool) (cp : Option ℕ) (batch : Table V) (copy_fails : Bool) (fate : Fate)
      (create_fails : Bool) (t seen more : Table V) (s : Load V)
      → (is_lost fate ≡ true → lost ≡ true)
      → IsLoading t seen s
      → After lost t (seen ++ batch) ((seen ++ batch) ++ more) (
          load_batch cp
            (record {
              batch = batch;
              copy_fails = copy_fails;
              fate = fate;
              create_fails = create_fails;
            })
            s)
  unfolding load_batch
  load_batch-After lost cp [] copy_fails fate create_fails t seen more s h l = record {
    written = l.written;
    target = l.target;
    clean = l.clean;
    split = rw append-nil l.split;
    counted = l.counted;
    read = rw append-nil (omega (arith, l.read));
  }
  load_batch-After lost cp (row ∷ rows) true fate create_fails t seen more s h l =
      let p = rollback-IsPartial lost t seen ((row ∷ rows) ++ more) s l in
      rw append_assoc (record {
        written = p.written;
        rest = p.rest;
        target = p.target;
        split = p.split;
        rolled = p.rolled;
        after = p.after;
        rolled_split = p.rolled_split;
        counted = p.counted;
        none_rolled = p.none_rolled;
      })
  load_batch-After lost cp (row ∷ rows) false fate create_fails t seen more s h l =
      let staged = s.staged + length (row ∷ rows) in
      let copied : Load V = record s {
        staging = s.staging ++ (row ∷ rows);
        staged = staged;
        rows_read = s.rows_read + length (row ∷ rows);
      } in
      let l' = copied-IsLoading t seen (row ∷ rows) s staged l in
      elim (Bool-cases (due cp staged)) [
        | inl yes_due ↦ rw yes_due (
            next_checkpoint-After lost create_fails t (seen ++ (row ∷ rows)) more
              (flush fate copied) (flush-AfterFlush lost fate t (seen ++ (row ∷ rows)) copied h l'))
        | inr not_due ↦ rw not_due l'
      ]
