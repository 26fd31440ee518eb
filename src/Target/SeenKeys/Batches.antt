-- ===== src/Target/SeenKeys/Batches.antt =====
-- The batches of a whole read, filtered one after the other: no key is handed on twice.
use dbextractors.Base.{
  ◌≡◌, refl, sym, ap, ◌∙◌, true, ◌&&◌, not, Option, List, [], ◌∷◌, ◌++◌, Eq, contains, keep, arith,
  inl, inr, Option-cases, flatten, contains-append, contains-keep, NodupList, keep-NodupList,
  append-NodupList, All,
}
use dbextractors.Target.SeenKeys.{key_texts, filter_new, filter_batches}
use dbextractors.Target.SeenKeys.Laws.{is_new, has_key, filter_new-is_new}

module _ {R K : Type 0} ⦃e : Eq K⦄ (key : R → Option K) where
  abbrev keys : List R → List K
  keys = key_texts key

  pub keys-append : (rows more : List R) → keys (rows ++ more) ≡ keys rows ++ keys more
  keys-append [] more = refl
  keys-append (r ∷ rows) more = elim (Option-cases (key r)) [
    | inl no_key ↦ let rest = keys-append rows more in ground arith
    | inr (k, a_key) ↦ let rest = keys-append rows more in ground arith
  ]

  keys_known : (rows : List R) → keys (keep (has_key key) rows) ≡ keys rows
  keys_known [] = refl
  keys_known (r ∷ rows) = elim (Option-cases (key r)) [
    | inl no_key ↦ let rest = keys_known rows in ground arith
    | inr (k, a_key) ↦ let rest = keys_known rows in ground arith
  ]

  keys_new :
      (seen : List K) (rows : List R)
      → keys (keep (is_new key seen) rows) ≡ keep (λ k. not (contains k seen)) (keys rows)
  keys_new seen [] = refl
  keys_new seen (r ∷ rows) = elim (Option-cases (key r)) [
    | inl no_key ↦ let rest = keys_new seen rows in ground arith
    | inr (k, a_key) ↦ let rest = keys_new seen rows in ground arith
  ]

  module _ (null_text : K) where
    keys_out :
        (batch : List R) (seen : List K)
        → keys (filter_new key null_text true batch seen).0
          ≡ keep (λ k. not (contains k seen)) (keys batch)
    keys_out batch seen =
        let (rows, _) = filter_new-is_new key null_text batch seen in
        sym (keys_known (filter_new key null_text true batch seen).0)
        ∙ ap keys rows
        ∙ keys_new seen batch

    abbrev outs : List (List R) → List K → List (List R)
    outs batches seen = (filter_batches key null_text batches seen).0

    abbrev seen_after : List R → List K → List K
    seen_after batch seen = (filter_new key null_text true batch seen).1

    outs_step :
        (batch : List R) (batches : List (List R)) (seen : List K)
        → outs (batch ∷ batches) seen
          ≡ (filter_new key null_text true batch seen).0 ∷ outs batches (seen_after batch seen)
    unfolding filter_batches
    outs_step batch batches seen = refl

    step_keys :
        (batch : List R) (batches : List (List R)) (seen : List K)
        → keys (flatten (outs (batch ∷ batches) seen))
          ≡ keep (λ k. not (contains k seen)) (keys batch)
            ++ keys (flatten (outs batches (seen_after batch seen)))
    step_keys batch batches seen = rw outs_step (
        keys-append (filter_new key null_text true batch seen).0
          (flatten (outs batches (seen_after batch seen)))
        ∙ ap (λ t. t ++ keys (flatten (outs batches (seen_after batch seen))))
            (keys_out batch seen))

    pub filter_batches-contains :
        (batches : List (List R)) (seen : List K) (k : K)
        → contains k (key_texts key (flatten (filter_batches key null_text batches seen).0))
          ≡ (contains k (key_texts key (flatten batches)) && not (contains k seen))
    filter_batches-contains [] seen k = unfold filter_batches in refl
    filter_batches-contains (batch ∷ batches) seen k =
        let kept = keep (λ j. not (contains j seen)) (keys batch) in
        let later = keys (flatten (outs batches (seen_after batch seen))) in
        let rest = filter_batches-contains batches (seen_after batch seen) k in
        let grew = (filter_new-is_new key null_text batch seen).1 k in
        rw (step_keys batch batches seen, keys-append)
          (ground (
            arith,
            contains-append k kept later,
            contains-append k (keys batch) (keys (flatten batches)),
            contains-keep (λ j. not (contains j seen)) k (keys batch),
            rest,
            grew,
          ))

    -- Where no batch has a key twice, a whole read hands on no key twice, whatever the batches repeat
    -- of one another.
    pub filter_batches-NodupList :
        (batches : List (List R)) (seen : List K)
        → All (λ batch. NodupList (key_texts key batch)) batches
        → NodupList (key_texts key (flatten (filter_batches key null_text batches seen).0))
    filter_batches-NodupList [] seen h = unfold filter_batches in tt
    filter_batches-NodupList (batch ∷ batches) seen (n, h) =
        let kept = keep (λ j. not (contains j seen)) (keys batch) in
        let later = keys (flatten (outs batches (seen_after batch seen))) in
        rw (step_keys batch batches seen) (
          append-NodupList kept later (keep-NodupList (λ j. not (contains j seen)) (keys batch) n)
            (filter_batches-NodupList batches (seen_after batch seen) h)
            (λ k m. ground (
              arith,
              filter_batches-contains batches (seen_after batch seen) k,
              (filter_new-is_new key null_text batch seen).1 k,
              contains-keep (λ j. not (contains j seen)) k (keys batch),
            )))
