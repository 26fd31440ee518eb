-- ===== src/Strategies/Watermark/Loading.antt =====
-- What each step of a load keeps: the target holds the start of what was seen, staging the rest.
use dbextractors.Base.{◌+◌, ◌≡◌, refl, sym, ap, subst, ◌∙◌, Bool, true, false, none, some}
use dbextractors.Base.{
  List, [], ◌∷◌, ◌++◌, arith, length, inl, inr, length-append, append_assoc, append-nil,
  Option-cases,
}
use dbextractors.Target.Table.{Table, put_all, upsert_from_staging}
use dbextractors.Target.Table.Laws.{put_all-append}
use dbextractors.Strategies.Watermark.{
  Event, Fate, goes_well, upsert_fails, commit_fails, Load, Status, running, raised, rollback,
  flush, next_checkpoint,
}

-- Whether what follows an upsert fails.
abbrev pub is_lost : Fate → Bool
is_lost goes_well = false
is_lost upsert_fails = false
is_lost commit_fails = true

module _ {ℓ} {V : Type ℓ} where
  -- All rows of the batches, in order.
  abbrev pub rows_of : List (Event V) → Table V
  rows_of [] = []
  rows_of (e ∷ events) = e.batch ++ rows_of events

  -- After `seen` rows of the delta the rows `written` are in the target, the others in staging.
  pub record IsLoading (t seen : Table V) (s : Load V) : Type ℓ where
    pub written : Table V
    pub target : s.committed ≡ put_all t written
    pub clean : s.current ≡ s.committed
    pub split : written ++ s.staging ≡ seen
    pub counted : s.rows_written ≡ length written
    pub read : s.rows_read ≡ length seen

  -- What a load that raised leaves: the start of the delta is written. `rolled` are rows that were
  -- upserted, and counted, and then rolled back; without a commit that fails, `lost`, there are none.
  pub record IsPartial (lost : Bool) (t delta : Table V) (s : Load V) : Type ℓ where
    pub written : Table V
    pub rest : Table V
    pub target : s.committed ≡ put_all t written
    pub split : written ++ rest ≡ delta
    pub rolled : Table V
    pub after : Table V
    pub rolled_split : rolled ++ after ≡ rest
    pub counted : s.rows_written ≡ length written + length rolled
    pub none_rolled : lost ≡ false → rolled ≡ []

  -- A load that goes on has seen all of `seen`, one that raised has written the start of `delta`.
  abbrev pub After : Bool → Table V → Table V → Table V → Status V → Type ℓ
  After lost t seen delta (running s) = IsLoading t seen s
  After lost t seen delta (raised s) = IsPartial lost t delta s

  IsPartial-append :
      (lost : Bool) (t delta more : Table V) (s : Load V)
      → IsPartial lost t delta s
      → IsPartial lost t (delta ++ more) s
  IsPartial-append lost t delta more s l = record {
    written = l.written;
    rest = l.rest ++ more;
    target = l.target;
    split = sym (append_assoc l.written l.rest more) ∙ ap (λ x. x ++ more) l.split;
    rolled = l.rolled;
    after = l.after ++ more;
    rolled_split = sym (append_assoc l.rolled l.after more) ∙ ap (λ x. x ++ more) l.rolled_split;
    counted = l.counted;
    none_rolled = l.none_rolled;
  }

  upsert_lem :
      (staging t t' : Table V) → upsert_from_staging staging t ≡ some t' → t' ≡ put_all t staging
  unfolding upsert_from_staging
  upsert_lem staging t t' h = ground arith

  -- A flush that goes well has written all that was seen.
  abbrev pub AfterFlush : Bool → Table V → Table V → Status V → Type ℓ
  AfterFlush lost t seen (running s) = IsLoading t seen s × (s.staging ≡ [])
  AfterFlush lost t seen (raised s) = IsPartial lost t seen s

  pub rollback-IsPartial :
      (lost : Bool) (t seen more : Table V) (s : Load V)
      → IsLoading t seen s
      → IsPartial lost t (seen ++ more) (rollback s)
  rollback-IsPartial lost t seen more s l = record {
    written = l.written;
    rest = s.staging ++ more;
    target = l.target;
    split = sym (append_assoc l.written s.staging more) ∙ ap (λ x. x ++ more) l.split;
    rolled = [];
    after = s.staging ++ more;
    rolled_split = refl;
    counted = omega (arith, l.counted);
    none_rolled = λ h. refl;
  }

  -- An upsert that is counted and then rolled back.
  lost-IsPartial :
      (lost : Bool) (t seen : Table V) (s : Load V)
      → lost ≡ true
      → IsLoading t seen s
      → IsPartial lost t seen
          (rollback (record s { rows_written = s.rows_written + length s.staging }))
  lost-IsPartial lost t seen s is_true l = record {
    written = l.written;
    rest = s.staging;
    target = l.target;
    split = l.split;
    rolled = s.staging;
    after = [];
    rolled_split = append-nil s.staging;
    counted = omega (arith, l.counted);
    none_rolled = λ h. absurd (ground arith);
  }

  upserted-IsLoading :
      (t seen t' : Table V) (s : Load V)
      → upsert_from_staging s.staging s.current ≡ some t'
      → IsLoading t seen s
      → IsLoading t seen (record s {
        committed = t';
        current = t';
        staging = [];
        rows_written = s.rows_written + length s.staging;
      })
  upserted-IsLoading t seen t' s upserted l = record {
    written = seen;
    target =
        upsert_lem s.staging s.current t' upserted
        ∙ rw (l.clean, l.target, ← put_all-append, l.split) refl;
    clean = refl;
    split = append-nil seen;
    counted = rw (l.counted, ← l.split) (sym (length-append l.written s.staging));
    read = l.read;
  }

  flush_refused :
      (fate : Fate) (s : Load V)
      → upsert_from_staging s.staging s.current ≡ none
      → flush fate s ≡ raised (rollback s)
  unfolding flush
  flush_refused fate s no_upsert = ground arith

  abbrev flushed : Fate → Table V → Load V → Status V
  flushed upsert_fails t s = raised (rollback s)
  flushed commit_fails t s =
      raised (rollback (record s { rows_written = s.rows_written + length s.staging }))
  flushed goes_well t s = running (record s {
    committed = t;
    current = t;
    staging = [];
    rows_written = s.rows_written + length s.staging;
  })

  flush_upserted :
      (fate : Fate) (t : Table V) (s : Load V)
      → upsert_from_staging s.staging s.current ≡ some t
      → flush fate s ≡ flushed fate t s
  unfolding flush
  flush_upserted upsert_fails t s upserted = ground arith
  flush_upserted commit_fails t s upserted = ground arith
  flush_upserted goes_well t s upserted = ground arith

  flushed-AfterFlush :
      (lost : Bool) (fate : Fate) (t seen t' : Table V) (s : Load V)
      → (is_lost fate ≡ true → lost ≡ true)
      → upsert_from_staging s.staging s.current ≡ some t'
      → IsLoading t seen s
      → AfterFlush lost t seen (flushed fate t' s)
  flushed-AfterFlush lost upsert_fails t seen t' s h upserted l =
      rw (← append-nil seen) (rollback-IsPartial lost t seen [] s l)
  flushed-AfterFlush lost commit_fails t seen t' s h upserted l =
      lost-IsPartial lost t seen s (h refl) l
  flushed-AfterFlush lost goes_well t seen t' s h upserted l =
      (upserted-IsLoading t seen t' s upserted l, refl)

  pub flush-AfterFlush :
      (lost : Bool) (fate : Fate) (t seen : Table V) (s : Load V)
      → (is_lost fate ≡ true → lost ≡ true)
      → IsLoading t seen s
      → AfterFlush lost t seen (flush fate s)
  flush-AfterFlush lost fate t seen s h l =
      elim (Option-cases (upsert_from_staging s.staging s.current)) [
        | inl no_upsert ↦
            subst (AfterFlush lost t seen) (sym (flush_refused fate s no_upsert))
              (rw (← append-nil seen) (rollback-IsPartial lost t seen [] s l))
        | inr (t', upserted) ↦
            subst (AfterFlush lost t seen) (sym (flush_upserted fate t' s upserted))
              (flushed-AfterFlush lost fate t seen t' s h upserted l)
      ]

  pub next_checkpoint-After :
      (lost create_fails : Bool) (t seen more : Table V) (st : Status V)
      → AfterFlush lost t seen st
      → After lost t seen (seen ++ more) (next_checkpoint create_fails st)
  next_checkpoint-After lost false t seen more (running s) (l, _) = record {
    written = l.written;
    target = l.target;
    clean = l.clean;
    split = l.split;
    counted = l.counted;
    read = l.read;
  }
  next_checkpoint-After lost true t seen more (running s) (l, _) =
      let p = rollback-IsPartial lost t seen more s l in
      record {
        written = p.written;
        rest = p.rest;
        target = p.target;
        split = p.split;
        rolled = p.rolled;
        after = p.after;
        rolled_split = p.rolled_split;
        counted = p.counted;
        none_rolled = p.none_rolled;
      }
  next_checkpoint-After lost create_fails t seen more (raised s) l =
      IsPartial-append lost t seen more s l
