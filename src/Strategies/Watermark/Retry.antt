-- ===== src/Strategies/Watermark/Retry.antt =====
-- A load that fails, and the run after it, which starts at the watermark that the failed one left.
use Prim.Native.Nat.{max}
use dbextractors.Base.{
  ℕ, ◌<◌, ◌≡◌, refl, sym, ap, subst, ◌∙◌, Bool, true, Option, some, List, [], ◌∷◌, ◌++◌, arith,
}
use dbextractors.Base.{append_assoc}
use mathlib.Core.Option.{some-injective}
use dbextractors.Reading.{max_key}
use dbextractors.Reading.Keys.{
  above, Ascending, above-max_key, above-above, above-gt, above-Ascending, max_key-ge,
}
use dbextractors.Target.Table.{Table, put, put_all, max_pk}
use dbextractors.Target.Table.Laws.{max_pk-put, put_all-append}
use dbextractors.Strategies.Watermark.{Event, Ending, running, raised, Load, load_new_rows}
use dbextractors.Strategies.Watermark.Loading.{rows_of, IsPartial}
use dbextractors.Strategies.Watermark.Checkpoints.{Leaves, loses_commit, load_new_rows-Leaves}

module _ {V : Type 0} where
  abbrev pub pk : ℕ × V → ℕ
  pk (k, _) = k

  pub max_pk-put_all :
      (t : Table V) (w : ℕ) (x : ℕ × V) (rows : Table V)
      → max_pk t ≡ some w
      → max_pk (put_all t (x ∷ rows)) ≡ some (max w (max_key pk (x ∷ rows)))
  unfolding put_all
  max_pk-put_all t w (k, v) [] h = max_pk-put k v t ∙ rw h refl
  max_pk-put_all t w (k, v) (y ∷ rows) h =
      max_pk-put_all (put k v t) (max w k) y rows (max_pk-put k v t ∙ rw h refl)
      ∙ ap some (omega arith)

  -- Where the watermark stands once the start of a delta is written, the rest of it is above.
  pub above_written :
      (t : Table V) (w w' : ℕ) (source written rest : Table V)
      → Ascending pk source
      → max_pk t ≡ some w
      → written ++ rest ≡ above pk w source
      → max_pk (put_all t written) ≡ some w'
      → above pk w' source ≡ rest
  unfolding put_all
  above_written t w w' source [] rest ordered old split new =
      let e : w ≡ w' = some-injective w w' (sym old ∙ new) in rw (← e, ← split) refl
  above_written t w w' source (x ∷ xs) rest ordered old split new =
      let m = max_key pk (x ∷ xs) in
      let e : max w m ≡ w' =
        some-injective (max w m) w' (sym (max_pk-put_all t w x xs old) ∙ new) in
      let above_w : w < pk x = (rw (← split) at (above-gt pk w source)).0 in
      let e' : w' ≡ m = omega (arith, max_key-ge pk x xs) in
      let up = above-above pk w w' source (omega arith) in
      let asc = rw (← split) at (above-Ascending pk w source ordered) in
      sym up
      ∙ ap (λ n. above pk n (above pk w source)) e'
      ∙ rw (← split) (above-max_key pk [] x xs rest asc)

  -- The state of a load that raised holds the start of its delta.
  partial :
      (pk_in_source : Bool) (setting : Option ℕ) (events : List (Event V)) (ending : Ending)
      (t : Table V) (s : Load V)
      → load_new_rows pk_in_source setting events ending t ≡ raised s
      → IsPartial (loses_commit events ending) t (rows_of events) s
  partial pk_in_source setting events ending t s h =
      subst (Leaves (loses_commit events ending) t (rows_of events)) h
        (load_new_rows-Leaves pk_in_source setting events ending t)

  pub complete :
      (pk_in_source : Bool) (setting : Option ℕ) (events : List (Event V)) (ending : Ending)
      (t : Table V) (s : Load V)
      → load_new_rows pk_in_source setting events ending t ≡ running s
      → s.committed ≡ put_all t (rows_of events)
  complete pk_in_source setting events ending t s h =
      (subst (Leaves (loses_commit events ending) t (rows_of events)) h
        (load_new_rows-Leaves pk_in_source setting events ending t)).0

  -- Take a source ordered by its key, and a target with the watermark `w`. A first load has been
  -- handed a start of the rows above `w` and raised. A second load, of the rows above the watermark
  -- `w'` that the first one left, ends well. Then the target is what one load of all rows above `w`
  -- makes of it: the second load read exactly what the first had not committed.
  pub retry_completes :
      (source unread t : Table V) (w w' : ℕ) (setting : Option ℕ) (events : List (Event V))
      (ending : Ending) (s : Load V) (setting' : Option ℕ) (events' : List (Event V))
      (ending' : Ending) (s' : Load V)
      → Ascending pk source
      → max_pk t ≡ some w
      → rows_of events ++ unread ≡ above pk w source
      → load_new_rows true setting events ending t ≡ raised s
      → max_pk s.committed ≡ some w'
      → rows_of events' ≡ above pk w' source
      → load_new_rows true setting' events' ending' s.committed ≡ running s'
      → s'.committed ≡ put_all t (above pk w source)
  retry_completes source unread t w w' setting events ending s setting' events' ending' s' asc old
        read failed new read' done =
      let p = partial true setting events ending t s failed in
      let split : p.written ++ (p.rest ++ unread) ≡ above pk w source =
        sym (append_assoc p.written p.rest unread) ∙ rw p.split read in
      let rest =
        above_written t w w' source p.written (p.rest ++ unread) asc old split
          (rw (← p.target) new) in
      complete true setting' events' ending' s.committed s' done
      ∙ rw (read', rest, p.target, ← put_all-append, split) refl
