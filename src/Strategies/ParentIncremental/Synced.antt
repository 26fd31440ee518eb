-- ===== src/Strategies/ParentIncremental/Synced.antt =====
-- A window that is replaced with the target's copy of the parents up to date.
use dbextractors.Base.{
  ◌≡◌, refl, ap, subst, ◌∙◌, ℕ, Bool, false, Option, some, List, [], ◌∷◌, arith, Eq, ◌==◌, contains,
  keep, if◌then◌else◌, Bool-cases, Option-cases, inl, inr,
}
use dbextractors.Reading.{Batch, Outcome}
use dbextractors.Strategies.ParentIncremental.{
  ParentRow, ChildRow, WindowSettings, WindowFaults, replaced, window_ids, parent_keys,
  source_where, admitted, run_parent,
}
use dbextractors.Strategies.ParentIncremental.Windows.{
  of_parent, batch_rows, is_touched, run_parent-of_parent,
}

module _ {J K V : Type 0} ⦃ej : Eq J⦄ ⦃ek : Eq K⦄
    (where_clause : Option (ChildRow J K V → Bool)) where
  -- What a query above the cutoff brings of a parent.
  window_of_parent :
      (cutoff : ℕ) (parents : List (ParentRow K)) (source : List (ChildRow J K V)) (p : K)
      → of_parent p (keep (source_where where_clause cutoff parents) source) ≡ (
          if contains p (window_ids cutoff parents)
          then of_parent p (keep (admitted where_clause) source)
          else [])
  unfolding source_where
  window_of_parent cutoff parents [] p =
      elim (Bool-cases (contains p (window_ids cutoff parents))) [
        | inl within ↦ ground arith
        | inr outside ↦ ground arith
      ]
  window_of_parent cutoff parents (r ∷ source) p =
      let ih = window_of_parent cutoff parents source p in
      elim (Bool-cases (admitted where_clause r)) [
        | inl fits ↦ elim (Option-cases r.parent) [
          | inl orphan ↦ ground arith
          | inr (k, of_k) ↦ elim (Bool-cases (k == p)) [
            | inl same ↦ let is = (ek.eq_test_iff k p).0 same in ground arith
            | inr other ↦ elim (Bool-cases (contains k (window_ids cutoff parents))) [
              | inl within ↦ ground arith
              | inr outside ↦ ground arith
            ]
          ]
        ]
        | inr unfit ↦ ground arith
      ]

  -- What is read has only parents of the window.
  read_in_window :
      (cutoff : ℕ) (parents : List (ParentRow K)) (source : List (ChildRow J K V)) (p : K)
      → contains p (window_ids cutoff parents) ≡ false
      → contains p (parent_keys (keep (source_where where_clause cutoff parents) source)) ≡ false
  unfolding source_where
  read_in_window cutoff parents [] p h = refl
  read_in_window cutoff parents (r ∷ source) p h =
      let ih = read_in_window cutoff parents source p h in
      elim (Bool-cases (admitted where_clause r)) [
        | inr unfit ↦ ground arith
        | inl fits ↦ elim (Option-cases r.parent) [
          | inl orphan ↦ ground arith
          | inr (k, of_k) ↦ elim (Bool-cases (contains k (window_ids cutoff parents))) [
            | inr outside ↦ ground arith
            | inl within ↦ elim (Bool-cases (k == p)) [
              | inl same ↦
                  let is = (ek.eq_test_iff k p).0 same in
                  let both = ap (λ x. contains x (window_ids cutoff parents)) is in
                  absurd (ground arith)
              | inr other ↦ ground arith
            ]
          ]
        ]
      ]

  -- Where a run replaces the window, the target's copy of the parents is the source's, what was read
  -- is what the whole condition, with the configured one, admits of the source's rows, and on every
  -- parent outside the window the target agreed with the source's rows that the configured condition
  -- admits, it then agrees with those on every parent, also on one all of whose rows are gone.
  pub run_parent_synced :
      (settings : WindowSettings) (faults : WindowFaults) (cutoff : ℕ) (estimate : Option ℕ)
      (read : List (Batch (ChildRow J K V)) × Outcome) (parents : List (ParentRow K))
      (rows source : List (ChildRow J K V)) (n m d : ℕ) (rows' : List (ChildRow J K V))
      → run_parent settings faults cutoff estimate read (some parents) (some rows)
        ≡ replaced n m d rows'
      → batch_rows read.0 ≡ keep (source_where where_clause cutoff parents) source
      → ((p : K)
          → contains p (window_ids cutoff parents) ≡ false
          → of_parent p rows ≡ of_parent p (keep (admitted where_clause) source))
      → (p : K) → of_parent p rows' ≡ of_parent p (keep (admitted where_clause) source)
  run_parent_synced settings faults cutoff estimate read parents rows source n m d rows' h brought
        agreed p =
      let (_, (_, (_, is))) =
        run_parent-of_parent settings faults cutoff estimate read parents rows n m d rows' p h in
      let is' : of_parent p rows' ≡ (
          if is_touched cutoff parents (keep (source_where where_clause cutoff parents) source) p
          then of_parent p (keep (source_where where_clause cutoff parents) source)
          else of_parent p rows) =
        subst
          (λ l.
            of_parent p rows'
            ≡ (if is_touched cutoff parents l p then of_parent p l else of_parent p rows))
          brought is in
      let new_rows = window_of_parent cutoff parents source p in
      elim (Bool-cases (contains p (window_ids cutoff parents))) [
        | inl within ↦ is' ∙ ground arith
        | inr outside ↦
            let none_read = read_in_window cutoff parents source p outside in
            let kept = agreed p outside in is' ∙ ground arith
      ]
