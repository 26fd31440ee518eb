-- ===== src/Strategies/Full/Fresh.antt =====
-- Rows whose keys are all different are all written.
use dbextractors.Base.{
  ◌-◌, ◌≡◌, refl, sym, subst, ◌∙◌, true, false, not, Option, List, [], ◌∷◌, ◌++◌, arith, Eq,
  contains, contains-append, contains-distinct, keep, keep_every, distinct, NodupList, length, inl,
  inr, Bool-cases, ◌==◌,
}
use dbextractors.Reading.{Batch}
use dbextractors.Reading.Resume.{rows_of}
use dbextractors.Target.SeenKeys.{key_texts, filter_new}
use dbextractors.Target.SeenKeys.Laws.{filter_new-is_new}
use dbextractors.Target.SeenKeys.Batches.{keys-append}
use dbextractors.Strategies.Full.Fill.{deliver}

module _ {K : Type 0} ⦃e : Eq K⦄ where
  nodup_tail : (xs ys : List K) → NodupList (xs ++ ys) → NodupList ys
  nodup_tail [] ys n = n
  nodup_tail (x ∷ xs) ys (fresh, n) = nodup_tail xs ys n

  nodup_apart :
      (xs ys : List K)
      → NodupList (xs ++ ys)
      → (k : K) → contains k ys ≡ true
      → contains k xs ≡ false
  nodup_apart [] ys n k m = refl
  nodup_apart (x ∷ xs) ys (fresh, n) k m = elim (Bool-cases (x == k)) [
    | inl same ↦
        let is : x ≡ k = (e.eq_test_iff x k).0 same in
        let both = contains-append x xs ys in
        let there : contains x ys ≡ true = rw is m in absurd (ground arith)
    | inr other ↦ ground (arith, nodup_apart xs ys n k m)
  ]

module _ {Row K : Type 0} ⦃e : Eq K⦄ (key : Row → Option K) (null_text : K) where
  -- A batch none of whose keys was seen is handed on whole.
  filter_new_all :
      (batch : List Row) (seen : List K)
      → ((k : K) → contains k (key_texts key batch) ≡ true → contains k seen ≡ false)
      → (filter_new key null_text true batch seen).0 ≡ batch
  unfolding filter_new
  filter_new_all batch seen h =
      let keys = key_texts key batch in
      let all : keep (λ k. not (contains k seen)) (distinct keys) ≡ distinct keys =
        keep_every (λ k. not (contains k seen)) (distinct keys)
          (λ k m. let new = h k (sym (contains-distinct k keys) ∙ m) in ground arith) in
      let none_removed : length (distinct keys)
            - length (keep (λ k. not (contains k seen)) (distinct keys))
          ≡ 0 =
        rw all (omega arith) in
      ground arith

  pub deliver_all :
      (batches : List (Batch Row)) (seen : List K)
      → NodupList (key_texts key (rows_of batches))
      → ((k : K) → contains k (key_texts key (rows_of batches)) ≡ true → contains k seen ≡ false)
      → deliver key null_text true batches seen ≡ rows_of batches
  deliver_all [] seen n h = refl
  deliver_all (batch ∷ batches) seen n h =
      let keys = key_texts key batch.rows in
      let later = key_texts key (rows_of batches) in
      let split : key_texts key (rows_of (batch ∷ batches)) ≡ keys ++ later =
        keys-append key batch.rows (rows_of batches) in
      let n' : NodupList (keys ++ later) = subst NodupList split n in
      let seen' = (filter_new key null_text true batch.rows seen).1 in
      let here : (filter_new key null_text true batch.rows seen).0 ≡ batch.rows =
        filter_new_all batch.rows seen
          (λ k m. h k (rw split (ground (arith, contains-append k keys later)))) in
      let rest = deliver_all batches seen' (nodup_tail keys later n') (λ k m.
        let apart = nodup_apart keys later n' k m in
        let before = h k (rw split (ground (arith, contains-append k keys later))) in
        (filter_new-is_new key null_text batch.rows seen).1 k ∙ ground arith) in
      rw (here, rest) refl
