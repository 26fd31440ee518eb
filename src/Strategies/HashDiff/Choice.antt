-- ===== src/Strategies/HashDiff/Choice.antt =====
-- When a load goes by the difference.
use dbextractors.Base.{
  ◌+◌, ◌*◌, ◌<◌, ◌≤◌, ◌≡◌, ◌⊎◌, refl, Bool, true, false, none, some, List, [], ◌∷◌, ◌++◌, Eq, arith,
  inl, inr, flatten, append_assoc, append-nil, length, is_none, sym, ap, ◌∙◌, Option-cases,
}
use mathlib.Core.Option.{some-injective}
use dbextractors.Target.Sql.{count}
use dbextractors.Target.Snapshot.{Entry, Difference, add, diff}
use dbextractors.Strategies.HashDiff.{
  Situation, TargetHashState, Fallback, Checked, refused, passed, apply, reseed_mismatch_ratio,
  reseed_reason, precheck, scan, choose,
}

Checked-cases :
    (c : Checked) → ((r : Fallback) × (c ≡ refused r)) ⊎ ((st : TargetHashState) × (c ≡ passed st))
Checked-cases (refused r) = inl (r, refl)
Checked-cases (passed st) = inr (st, refl)

reseed_none :
    (d : Difference) (st : TargetHashState)
    → 0 < st.rows
    → reseed_reason d st ≡ none
    → ((0 < d.matched) ⊎ (100 * d.changed < reseed_mismatch_ratio * st.rows))
      × ((d.added + d.changed < st.rows) ⊎ (st.null_hashes ≡ 0))
unfolding reseed_reason
reseed_none d st some_rows e = ground arith

module _ {K H : Type 0} where
  scan_whole :
      (batches : List (List (Entry K H))) (snapshot : List (Entry K H))
      → scan batches false snapshot ≡ some (snapshot ++ flatten batches)
  unfolding scan add
  scan_whole [] snapshot = ap some (sym (append-nil snapshot))
  scan_whole (batch ∷ batches) snapshot =
      scan_whole batches (snapshot ++ batch)
      ∙ ap some (append_assoc snapshot batch (flatten batches))

  scan_broken :
      (batches : List (List (Entry K H))) (snapshot : List (Entry K H))
      → scan batches true snapshot ≡ none
  unfolding scan
  scan_broken [] snapshot = refl
  scan_broken (batch ∷ batches) snapshot = scan_broken batches (add batch snapshot)

  scan-snapshot :
      (batches : List (List (Entry K H))) (fails : Bool) (snapshot : List (Entry K H))
      → scan batches fails [] ≡ some snapshot
      → (fails ≡ false) × (snapshot ≡ flatten batches)
  scan-snapshot batches true snapshot e =
      let broken : none ≡ some snapshot = sym (scan_broken batches []) ∙ e in absurd cc
  scan-snapshot batches false snapshot e =
      (refl, some-injective snapshot (flatten batches) (sym e ∙ scan_whole batches []))

module _ {K H : Type 0} where
  count_le : (p : Entry K H → Bool) (rows : List (Entry K H)) → count p rows ≤ length rows
  count_le p [] = omega arith
  count_le p (r ∷ rows) = ground (arith, count_le p rows)

  precheck_passed :
      (s : Situation) (target : List (Entry K H)) (st : TargetHashState)
      → precheck s target ≡ passed st
      → (st.rows ≡ length target)
        × (st.null_hashes ≡ count (λ t. is_none t.hash) target)
        × (count (λ t. is_none t.hash) target < length target)
  unfolding precheck
  precheck_passed s target st e = ground (arith, count_le (λ t. is_none t.hash) target)

module _ {K H : Type 0} ⦃k : Eq K⦄ ⦃h : Eq H⦄ (s : Situation) (batches : List (List (Entry K H)))
    (fails : Bool) (target : List (Entry K H)) where
  -- The way through `choose` that ends with the difference.
  record Applied (d : Difference) : Type 0 where
    state : TargetHashState
    checked : precheck s target ≡ passed state
    snapshot : List (Entry K H)
    scanned : scan batches fails [] ≡ some snapshot
    kept : reseed_reason (diff snapshot target) state ≡ none
    same : d ≡ diff snapshot target

  choose-Applied : (d : Difference) → choose s batches fails target ≡ apply d → Applied d
  unfolding choose
  choose-Applied d e = elim (Checked-cases (precheck s target)) [
    | inl (r, bad) ↦ absurd (ground arith)
    | inr (st, good) ↦ elim (Option-cases (scan batches fails [])) [
      | inl broken ↦ absurd (ground arith)
      | inr (snap, whole) ↦ elim (Option-cases (reseed_reason (diff snap target) st)) [
        | inr (r, reseed) ↦ absurd (ground arith)
        | inl kept ↦ record {
          state = st;
          checked = good;
          snapshot = snap;
          scanned = whole;
          kept = kept;
          same = ground arith;
        }
      ]
    ]
  ]

  -- A load goes by the difference only after a scan that did not break, and by the difference of
  -- all that the scan brought. The target then has a hash on some row. Some hash matches, or fewer
  -- than 95 % of as many rows as the target has are changed; and fewer rows are to be fetched than the
  -- target has, or none of its rows lacks a hash.
  pub choose_apply :
      (d : Difference)
      → choose s batches fails target ≡ apply d
      → (fails ≡ false)
        × (d ≡ diff (flatten batches) target)
        × (count (λ t. is_none t.hash) target < length target)
        × ((0 < d.matched) ⊎ (100 * d.changed < reseed_mismatch_ratio * length target))
        × ((d.added + d.changed < length target) ⊎ (count (λ t. is_none t.hash) target ≡ 0))
  choose_apply d e =
      let p = choose-Applied d e in
      let (whole, all) = scan-snapshot batches fails p.snapshot p.scanned in
      let (rows, nulls, hashed) = precheck_passed s target p.state p.checked in
      let (drift, fetch) = reseed_none d p.state (omega (arith, rows, hashed)) (rw p.same p.kept) in
      (whole, p.same ∙ rw all refl, hashed, rw (← rows) drift, rw (← rows, ← nulls) fetch)
