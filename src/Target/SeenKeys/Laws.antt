-- ===== src/Target/SeenKeys/Laws.antt =====
-- What `filter_new` keeps of a batch, and that no key comes in two batches.
use dbextractors.Base.{
  ◌-◌, ◌≡◌, refl, ap, ◌∙◌, Bool, true, false, ◌||◌, ◌&&◌, not, Option, none, some, List, [], ◌∷◌,
  ◌++◌, Eq, contains, keep, distinct, length, is_empty, nat_eq, or_else, arith, inl, inr,
  Bool-cases, contains-append, contains-keep, contains-distinct, keep_all_of, beq_refl,
  Option-cases,
}
use dbextractors.Target.SeenKeys.{key_texts, filter_new}

module _ {R K : Type 0} ⦃e : Eq K⦄ (key : R → Option K) where
  -- A row whose key is known and not among the seen ones.
  abbrev pub is_new : List K → R → Bool
  is_new seen r = elim (key r) [ none ↦ false | some k ↦ not (contains k seen) ]

  abbrev pub has_key : R → Bool
  has_key r = elim (key r) [ none ↦ false | some k ↦ true ]

  -- A batch none of whose keys was seen.
  none_seen :
      (seen : List K) (rows : List R)
      → ((k : K) → contains k (key_texts key rows) ≡ true → contains k seen ≡ false)
      → keep has_key rows ≡ keep (is_new seen) rows
  none_seen seen [] h = refl
  none_seen seen (r ∷ rows) h = elim (Option-cases (key r)) [
    | inl no_key ↦ let rest = none_seen seen rows (λ k m. h k (ground arith)) in ground arith
    | inr (k, a_key) ↦
        let rest = none_seen seen rows (λ j m. h j (ground arith)) in
        let new : contains k seen ≡ false = h k (ground (arith, beq_refl k)) in ground arith
  ]

  -- The filter by the keys that the INSERT brought back.
  by_fresh :
      (null_text : K) (all_keys seen fresh : List K) (rows : List R)
      → ((k : K) → contains k fresh ≡ (contains k all_keys && not (contains k seen)))
      → ((k : K) → contains k (key_texts key rows) ≡ true → contains k all_keys ≡ true)
      → keep has_key (keep (λ r. contains (or_else (key r) null_text) fresh) rows)
        ≡ keep (is_new seen) rows
  by_fresh null_text all_keys seen fresh [] f h = refl
  by_fresh null_text all_keys seen fresh (r ∷ rows) f h = elim (Option-cases (key r)) [
    | inl no_key ↦
        let rest = by_fresh null_text all_keys seen fresh rows f (λ k m. h k (ground arith)) in
        ground arith
    | inr (k, a_key) ↦
        let rest = by_fresh null_text all_keys seen fresh rows f (λ j m. h j (ground arith)) in
        let known : contains k all_keys ≡ true = h k (ground (arith, beq_refl k)) in
        let here = f k in ground arith
  ]

  pub fresh_lem :
      (seen keys : List K) (k : K)
      → contains k (keep (λ j. not (contains j seen)) (distinct keys))
        ≡ (contains k keys && not (contains k seen))
  fresh_lem seen keys k =
      contains-keep (λ j. not (contains j seen)) k (distinct keys)
      ∙ ap (λ b. b && not (contains k seen)) (contains-distinct k keys)

  -- Where nothing was removed, no key was seen.
  pub kept_all :
      (seen keys : List K)
      → length (distinct keys) - length (keep (λ j. not (contains j seen)) (distinct keys)) ≡ 0
      → (k : K) → contains k keys ≡ true
      → contains k seen ≡ false
  kept_all seen keys h k m =
      let new =
        keep_all_of (λ j. not (contains j seen)) (distinct keys) (omega arith) k
          (contains-distinct k keys ∙ m) in
      ground arith

  no_keys :
      (seen keys : List K)
      → is_empty keys ≡ true
      → (k : K) → contains k keys ≡ true
      → contains k seen ≡ false
  no_keys seen [] h k m = absurd cc
  no_keys seen (x ∷ keys) h k m = absurd cc

  unchanged :
      (seen keys : List K) (k : K)
      → is_empty keys ≡ true
      → contains k seen ≡ (contains k seen || contains k keys)
  unchanged seen [] k h = ground arith
  unchanged seen (x ∷ keys) k h = absurd cc

  grown :
      (seen keys : List K) (k : K)
      → contains k (seen ++ keep (λ j. not (contains j seen)) (distinct keys))
        ≡ (contains k seen || contains k keys)
  grown seen keys k = ground (
    arith,
    contains-append k seen (keep (λ j. not (contains j seen)) (distinct keys)),
    fresh_lem seen keys k,
  )

  module _ (null_text : K) where
    -- Of the rows that have a key, a batch with the key's column keeps those whose key no earlier
    -- batch had, in order and with their repetitions; and the batch's keys become seen, no others.
    pub filter_new-is_new :
        (batch : List R) (seen : List K)
        → (keep has_key (filter_new key null_text true batch seen).0 ≡ keep (is_new seen) batch)
          × ((k : K)
              → contains k (filter_new key null_text true batch seen).1
                ≡ (contains k seen || contains k (key_texts key batch)))
    unfolding filter_new
    filter_new-is_new [] seen = (refl, λ k. ground arith)
    filter_new-is_new (r ∷ rows) seen =
        let keys = key_texts key (r ∷ rows) in
        let fresh = keep (λ j. not (contains j seen)) (distinct keys) in
        elim (Bool-cases (is_empty keys)) [
          | inl empty ↦ rw empty (
            none_seen seen (r ∷ rows) (no_keys seen keys empty),
            λ k. unchanged seen keys k empty,
          )
          | inr some_keys ↦ elim (Bool-cases (nat_eq (length (distinct keys) - length fresh) 0)) [
            | inl same ↦
                rw (some_keys, same)
                  (none_seen seen (r ∷ rows) (kept_all seen keys (ground arith)), grown seen keys)
            | inr fewer ↦
                rw (some_keys, fewer)
                  (
                    by_fresh null_text keys seen fresh (r ∷ rows) (fresh_lem seen keys) (λ k m. m),
                    grown seen keys,
                  )
          ]
        ]
