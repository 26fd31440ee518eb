-- ===== src/Strategies/Watermark/Checkpoints.antt =====
-- What a load leaves in the target, with any checkpoints and any failures.
use dbextractors.Base.{ℕ, ◌≡◌, refl, sym, ◌∙◌, Bool, true, false, ◌||◌, Option, arith}
use dbextractors.Base.{List, [], ◌∷◌, ◌++◌, length, append_assoc, append-nil}
use dbextractors.Target.Table.{Table, put_all}
use dbextractors.Strategies.Watermark.{
  Event, Ending, exhausted, broken, Load, Status, running, raised, begin, flush, load_batch,
  load_rows, load_new_rows, finish, effective_checkpoint,
}
use dbextractors.Strategies.Watermark.Loading.{
  rows_of, IsLoading, IsPartial, is_lost, After, AfterFlush, rollback-IsPartial, flush-AfterFlush,
}
use dbextractors.Strategies.Watermark.Batches.{load_batch-After}

module _ {ℓ} {V : Type ℓ} where
  -- Whether the drop or the commit fails after an upsert, at a checkpoint or at the end.
  abbrev pub loses_commit : List (Event V) → Ending → Bool
  loses_commit [] (exhausted fate) = is_lost fate
  loses_commit [] broken = false
  loses_commit (e ∷ events) ending = is_lost e.fate || loses_commit events ending

  -- What the whole load leaves: all of the delta, or the start of it.
  abbrev pub Leaves : Bool → Table V → Table V → Status V → Type ℓ
  Leaves lost t delta (running s) =
      (s.committed ≡ put_all t delta)
      × (s.rows_written ≡ length delta)
      × (s.rows_read ≡ length delta)
      × (s.staging ≡ [])
  Leaves lost t delta (raised s) = IsPartial lost t delta s

  AfterFlush-Leaves :
      (lost : Bool) (t seen : Table V) (st : Status V)
      → AfterFlush lost t seen st
      → Leaves lost t seen st
  AfterFlush-Leaves lost t seen (running s) (l, empty) =
      let all : l.written ≡ seen = sym (append-nil l.written) ∙ rw (← empty) l.split in
      (rw (← all) l.target, rw (← all) l.counted, l.read, empty)
  AfterFlush-Leaves lost t seen (raised s) l = l

  finish-Leaves :
      (lost : Bool) (ending : Ending) (t seen : Table V) (s : Load V)
      → (loses_commit [] ending ≡ true → lost ≡ true)
      → IsLoading t seen s
      → Leaves lost t seen (finish ending s)
  finish-Leaves lost (exhausted fate) t seen s h l =
      AfterFlush-Leaves lost t seen (flush fate s) (flush-AfterFlush lost fate t seen s h l)
  finish-Leaves lost broken t seen s h l =
      rw (← append-nil seen) (rollback-IsPartial lost t seen [] s l)

  load_rows-Leaves :
      (lost : Bool) (cp : Option ℕ) (events : List (Event V)) (ending : Ending) (t seen : Table V)
      (s : Load V)
      → (loses_commit events ending ≡ true → lost ≡ true)
      → IsLoading t seen s
      → Leaves lost t (seen ++ rows_of events) (load_rows cp events ending s)
  unfolding load_rows
  load_rows-Leaves lost cp [] ending t seen s h l =
      rw append-nil (finish-Leaves lost ending t seen s h l)
  load_rows-Leaves lost cp (e ∷ events) ending t seen s h l = rw (← append_assoc) (
      go
        (λ seen' s' l'.
          load_rows-Leaves lost cp events ending t seen' s' (λ k. h (ground arith)) l')
        (load_batch cp e s)
        (load_batch-After lost cp e.batch e.copy_fails e.fate e.create_fails t seen (rows_of events)
          s (λ k. h (ground arith)) l))
    where
      go :
          ((seen' : Table V) (s' : Load V)
            → IsLoading t seen' s'
            → Leaves lost t (seen' ++ rows_of events) (load_rows cp events ending s'))
          → (st : Status V)
          → After lost t (seen ++ e.batch) ((seen ++ e.batch) ++ rows_of events) st
          → Leaves lost t
              ((seen ++ e.batch) ++ rows_of events)
              (elim st [ raised s' ↦ raised s' | running s' ↦ load_rows cp events ending s' ])
      go rest (raised s') p = p
      go rest (running s') l' = rest (seen ++ e.batch) s' l'

  -- Whatever the checkpoints and whatever fails: a load that ends well has upserted the whole delta
  -- in order, has counted its rows, and leaves no staged row behind; a load that raises leaves the
  -- target with a start of the delta upserted, and has counted the rows of that start and, only if the
  -- drop of the staging table or the commit failed after an upsert, those that it rolled back, which
  -- follow the start.
  pub load_new_rows-Leaves :
      (pk_in_source : Bool) (setting : Option ℕ) (events : List (Event V)) (ending : Ending)
      (t : Table V)
      → Leaves
          (loses_commit events ending)
          t
          (rows_of events)
          (load_new_rows pk_in_source setting events ending t)
  unfolding load_new_rows
  load_new_rows-Leaves pk_in_source setting events ending t =
      load_rows-Leaves (loses_commit events ending) (effective_checkpoint pk_in_source setting)
        events ending t [] (begin t) (λ h. h)
        (record {
          written = [];
          target = unfold put_all in refl;
          clean = refl;
          split = refl;
          counted = refl;
          read = refl;
        })
