-- ===== src/Target/SeenKeys/Rows.antt =====
-- The rows of a batch that `filter_new` hands on, those without a key included.
use dbextractors.Base.{
  ◌≡◌, refl, sym, Bool, true, false, ◌&&◌, ◌||◌, not, Option, none, some, List, [], ◌∷◌, Eq,
  contains, keep, all, distinct, is_empty, or_else, arith, inl, inr, Bool-cases, Option-cases,
  beq_refl,
}
use dbextractors.Target.SeenKeys.{key_texts, filter_new}
use dbextractors.Target.SeenKeys.Laws.{fresh_lem}
use dbextractors.Target.SeenKeys.Nulls.{removed_all, all_empty, of_all}

module _ {R K : Type 0} ⦃e : Eq K⦄ (key : R → Option K) (null_text : K) where
  -- A row with a key stays where no earlier batch had the key. A row without one stays where no key
  -- of its batch was in an earlier one, or where the text of a missing value is a key that is new.
  abbrev pub stays : (K → Bool) → List R → R → Bool
  stays earlier batch r = elim (key r) [
    | none ↦
        all (λ k. not (earlier k)) (key_texts key batch)
        || (contains null_text (key_texts key batch) && not (earlier null_text))
    | some k ↦ not (earlier k)
  ]

  all_stay :
      (earlier : K → Bool) (batch rows : List R)
      → all (λ k. not (earlier k)) (key_texts key batch) ≡ true
      → ((k : K) → contains k (key_texts key rows) ≡ true → earlier k ≡ false)
      → keep (stays earlier batch) rows ≡ rows
  all_stay earlier batch [] h new = refl
  all_stay earlier batch (r ∷ rows) h new = elim (Option-cases (key r)) [
    | inl no_key ↦
        let rest = all_stay earlier batch rows h (λ k m. new k (ground arith)) in ground arith
    | inr (k, a_key) ↦
        let rest = all_stay earlier batch rows h (λ j m. new j (ground arith)) in
        let here : earlier k ≡ false = new k (ground (arith, beq_refl k)) in ground arith
  ]

  by_fresh_stays :
      (seen fresh : List K) (batch rows : List R)
      → all (λ k. not (contains k seen)) (key_texts key batch) ≡ false
      → ((k : K) → contains k fresh ≡ (contains k (key_texts key batch) && not (contains k seen)))
      → ((k : K) → contains k (key_texts key rows) ≡ true → contains k (key_texts key batch) ≡ true)
      → keep (λ r. contains (or_else (key r) null_text) fresh) rows
        ≡ keep (stays (λ k. contains k seen) batch) rows
  by_fresh_stays seen fresh batch [] h f known = refl
  by_fresh_stays seen fresh batch (r ∷ rows) h f known = elim (Option-cases (key r)) [
    | inl no_key ↦
        let rest = by_fresh_stays seen fresh batch rows h f (λ k m. known k (ground arith)) in
        let here = f null_text in ground arith
    | inr (k, a_key) ↦
        let rest = by_fresh_stays seen fresh batch rows h f (λ j m. known j (ground arith)) in
        let there : contains k (key_texts key batch) ≡ true =
          known k (ground (arith, beq_refl k)) in
        let here = f k in ground arith
  ]

  unseen_stay :
      (seen : List K) (batch : List R)
      → all (λ k. not (contains k seen)) (key_texts key batch) ≡ true
      → keep (stays (λ k. contains k seen) batch) batch ≡ batch
  unseen_stay seen batch unseen =
      all_stay (λ k. contains k seen) batch batch unseen
        (λ k m.
          let new = of_all (λ j. not (contains j seen)) (key_texts key batch) unseen k m in
          ground arith)

  pub filter_new-stays :
      (batch : List R) (seen : List K)
      → (filter_new key null_text true batch seen).0
        ≡ keep (stays (λ k. contains k seen) batch) batch
  unfolding filter_new
  filter_new-stays [] seen = refl
  filter_new-stays (r ∷ rows) seen =
      let keys = key_texts key (r ∷ rows) in
      let fresh = keep (λ j. not (contains j seen)) (distinct keys) in
      elim (Bool-cases (is_empty keys)) [
        | inl empty ↦
            rw (empty) (
              sym (unseen_stay seen (r ∷ rows) (all_empty (λ j. not (contains j seen)) keys empty)))
        | inr some_keys ↦ elim (Bool-cases (all (λ j. not (contains j seen)) keys)) [
          | inl unseen ↦
              rw (some_keys, removed_all key null_text seen keys, unseen)
                (sym (unseen_stay seen (r ∷ rows) unseen))
          | inr some_seen ↦
              rw (some_keys, removed_all key null_text seen keys, some_seen)
                (by_fresh_stays seen fresh (r ∷ rows) (r ∷ rows) some_seen (fresh_lem key seen keys)
                  (λ k m. m))
        ]
      ]
