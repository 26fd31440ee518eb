-- ===== src/Strategies/Watermark/Run/Again.antt =====
-- A run that succeeds leaves nothing for the next.
use Prim.Native.Nat.{max}
use dbextractors.Base.{
  ℕ, ◌≡◌, ap, ◌∙◌, false, ◌||◌, not, Option, some, List, [], ◌∷◌, append-nil, arith, length, nat_eq,
  inl, inr, Bool-cases, Option-cases,
}
use dbextractors.Reading.{max_key}
use dbextractors.Reading.Keys.{above, Ascending}
use dbextractors.Target.Table.{Table, put_all, max_pk}
use dbextractors.Strategies.Watermark.{Event, Ending, Load, Status, running, load_new_rows}
use dbextractors.Strategies.Watermark.Loading.{rows_of}
use dbextractors.Strategies.Watermark.Retry.{pk, max_pk-put_all, above_written, complete}
use dbextractors.Strategies.Watermark.Run.{
  KeySettings, nothing_new, loaded, run_above, run_watermark,
}

module _ {V : Type 0} (k : KeySettings) (estimate : ℕ → Option ℕ) (events : ℕ → List (Event V))
    (ending : ℕ → Ending) where
  -- The settings let a run begin.
  record Begins : Type 0 where
    with_key : (not k.has_pk || not k.pk_known) ≡ false
    with_index : not k.has_unique_index ≡ false

  run_above_loaded :
      (t : Table V) (w : ℕ) (r : Status V)
      → run_above k estimate events ending t w ≡ loaded r
      → (not k.has_unique_index ≡ false)
        × (load_new_rows k.pk_in_source k.checkpoint_setting (events w) (ending w) t ≡ r)
  unfolding run_above
  run_above_loaded t w r e = elim (Bool-cases (not k.has_unique_index)) [
    | inl gone ↦ absurd (ground arith)
    | inr there ↦ elim (Option-cases (estimate w)) [
      | inl failed ↦ absurd (ground arith)
      | inr (rows, estimated) ↦ elim (Bool-cases (nat_eq rows 0)) [
        | inl nothing ↦ absurd (ground arith)
        | inr some_rows ↦ (there, ground arith)
      ]
    ]
  ]

  run_loaded :
      (t : Table V) (w : ℕ) (r : Status V)
      → max_pk t ≡ some w
      → run_watermark k estimate events ending (some t) ≡ loaded r
      → Begins × (load_new_rows k.pk_in_source k.checkpoint_setting (events w) (ending w) t ≡ r)
  unfolding run_watermark
  run_loaded t w r old e = elim (Bool-cases (not k.has_pk || not k.pk_known)) [
    | inl bad ↦ absurd (ground arith)
    | inr fine ↦
        let (index, load) = run_above_loaded t w r (ground arith) in
        (record { with_key = fine; with_index = index }, load)
  ]

  run_nothing :
      (t : Table V) (w : ℕ)
      → Begins
      → max_pk t ≡ some w
      → estimate w ≡ some 0
      → run_watermark k estimate events ending (some t) ≡ nothing_new
  unfolding run_watermark run_above
  run_nothing t w b old e = let key = b.with_key in let index = b.with_index in ground arith

  max_pk_kept :
      (t rows : Table V) (w : ℕ)
      → max_pk t ≡ some w
      → (w' : ℕ) × (max_pk (put_all t rows) ≡ some w')
  max_pk_kept t [] w old = (w, unfold put_all in old)
  max_pk_kept t (x ∷ rows) w old = (max w (max_key pk (x ∷ rows)), max_pk-put_all t w x rows old)

  -- Take a source ordered by its key that does not change between the runs, whose size above a
  -- watermark is estimated exactly and of which a read brings the rows above the watermark. After a run
  -- that loads and ends well over a target with the watermark `w`, the target is what the upsert of all
  -- rows above `w` makes of it, whatever the checkpoints, and another run finds nothing new.
  pub run_watermark_again :
      (source t : Table V) (w : ℕ) (s : Load V)
      → Ascending pk source
      → ((n : ℕ) → estimate n ≡ some (length (above pk n source)))
      → max_pk t ≡ some w
      → rows_of (events w) ≡ above pk w source
      → run_watermark k estimate events ending (some t) ≡ loaded (running s)
      → (s.committed ≡ put_all t (above pk w source))
        × (run_watermark k estimate events ending (some s.committed) ≡ nothing_new)
  run_watermark_again source t w s asc exact old read done =
      let (b, load) = run_loaded t w (running s) old done in
      let delta = above pk w source in
      let whole : s.committed ≡ put_all t delta =
        complete k.pk_in_source k.checkpoint_setting (events w) (ending w) t s load
        ∙ ap (put_all t) read in
      let (w', new) = max_pk_kept t delta w old in
      let nothing : above pk w' source ≡ [] =
        above_written t w w' source delta [] asc old (append-nil delta) new in
      (
        whole,
        run_nothing s.committed w' b (rw whole new)
            (exact w' ∙ ap (λ rows. some (length rows)) nothing),
      )
