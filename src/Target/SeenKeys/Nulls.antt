-- ===== src/Target/SeenKeys/Nulls.antt =====
-- What `filter_new` does with rows whose key is missing.
use dbextractors.Base.{
  ◌-◌, ◌≡◌, refl, sym, ◌∙◌, Bool, true, false, not, Option, List, [], ◌∷◌, Eq, contains, keep, all,
  distinct, length, is_empty, nat_eq, or_else, if◌then◌else◌, arith, inl, inr, Bool-cases,
  Option-cases, beq_refl, ◌==◌, keep_every, contains-distinct,
}
use dbextractors.Target.SeenKeys.{key_texts, filter_new}
use dbextractors.Target.SeenKeys.Laws.{has_key, kept_all, fresh_lem}

module _ {K : Type 0} ⦃e : Eq K⦄ (p : K → Bool) where
  all_of : (keys : List K) → ((k : K) → contains k keys ≡ true → p k ≡ true) → all p keys ≡ true
  all_of [] h = refl
  all_of (x ∷ keys) h =
      let here : p x ≡ true = h x (rw beq_refl refl) in
      rw here (all_of keys (λ k m. h k (ground arith)))

  pub of_all : (keys : List K) → all p keys ≡ true → (k : K) → contains k keys ≡ true → p k ≡ true
  of_all [] h k m = absurd cc
  of_all (x ∷ keys) h k m = elim (Bool-cases (x == k)) [
    | inl same ↦ rw (← (e.eq_test_iff x k).0 same) (ground arith)
    | inr other ↦ of_all keys (ground arith) k (ground arith)
  ]

  pub all_empty : (keys : List K) → is_empty keys ≡ true → all p keys ≡ true
  all_empty [] h = refl
  all_empty (x ∷ keys) h = absurd cc

module _ {R K : Type 0} ⦃e : Eq K⦄ (key : R → Option K) (null_text : K) where
  no_nulls :
      (fresh : List K) (rows : List R)
      → contains null_text fresh ≡ false
      → keep
          (λ r. not (has_key key r))
          (keep (λ r. contains (or_else (key r) null_text) fresh) rows)
        ≡ []
  no_nulls fresh [] h = refl
  no_nulls fresh (r ∷ rows) h = elim (Option-cases (key r)) [
    | inl no_key ↦ let rest = no_nulls fresh rows h in ground arith
    | inr (k, a_key) ↦ let rest = no_nulls fresh rows h in ground arith
  ]

  -- Nothing was removed exactly where no key of the batch was seen.
  pub removed_all :
      (seen keys : List K)
      → nat_eq
          (length (distinct keys) - length (keep (λ j. not (contains j seen)) (distinct keys)))
          0
        ≡ all (λ j. not (contains j seen)) keys
  removed_all seen keys = elim (Bool-cases (all (λ j. not (contains j seen)) keys)) [
    | inl unseen ↦
        let same =
          keep_every (λ j. not (contains j seen)) (distinct keys)
            (λ k m.
              of_all (λ j. not (contains j seen)) keys unseen k
                (sym (contains-distinct k keys) ∙ m)) in
        rw (unseen, same) (ground arith)
    | inr some_seen ↦
        elim (Bool-cases (
          nat_eq
            (length (distinct keys) - length (keep (λ j. not (contains j seen)) (distinct keys)))
            0)) [
              | inl zero_removed ↦
                  let unseen =
                    all_of (λ j. not (contains j seen)) keys
                      (λ k m. let new = kept_all key seen keys (ground arith) k m in rw new refl) in
                  absurd (ground arith)
              | inr fewer ↦ fewer ∙ sym some_seen
            ]
  ]

  -- Rows without a key are all kept where no key of their batch was seen, and are all dropped where
  -- one was, unless the text of a missing value is itself a key of the batch.
  pub filter_new_nulls :
      (batch : List R) (seen : List K)
      → contains null_text (key_texts key batch) ≡ false
      → keep (λ r. not (has_key key r)) (filter_new key null_text true batch seen).0 ≡ (
          if all (λ j. not (contains j seen)) (key_texts key batch)
          then keep (λ r. not (has_key key r)) batch
          else [])
  unfolding filter_new
  filter_new_nulls [] seen h = refl
  filter_new_nulls (r ∷ rows) seen h =
      let keys = key_texts key (r ∷ rows) in
      let fresh = keep (λ j. not (contains j seen)) (distinct keys) in
      elim (Bool-cases (is_empty keys)) [
        | inl empty ↦ rw (empty, all_empty (λ j. not (contains j seen)) keys empty) refl
        | inr some_keys ↦ elim (Bool-cases (all (λ j. not (contains j seen)) keys)) [
          | inl unseen ↦ rw (some_keys, removed_all seen keys, unseen) refl
          | inr some_seen ↦
              rw (some_keys, removed_all seen keys, some_seen)
                (no_nulls fresh (r ∷ rows) (fresh_lem key seen keys null_text ∙ rw h refl))
        ]
      ]
