-- ===== src/Strategies/Full/Expected.antt =====
-- The rows that a full load is to write, by what the batches have.
use dbextractors.Base.{
  ◌≡◌, refl, sym, ap, ◌∙◌, fun_ext, Bool, true, false, ◌||◌, Option, List, [], ◌∷◌, ◌++◌, Eq,
  contains, keep, contains-append,
}
use dbextractors.Reading.{Batch}
use dbextractors.Target.SeenKeys.{key_texts, filter_new}
use dbextractors.Target.SeenKeys.Laws.{filter_new-is_new}
use dbextractors.Target.SeenKeys.Rows.{stays, filter_new-stays}
use dbextractors.Strategies.Full.Fill.{deliver}

module _ {Row K : Type 0} ⦃e : Eq K⦄ (key : Row → Option K) (null_text : K) where
  -- Of each batch the rows that stay, with the keys of the batches before it.
  abbrev pub staying : List K → List (Batch Row) → List Row
  staying earlier [] = []
  staying earlier (batch ∷ batches) =
      keep (stays key null_text (λ k. contains k earlier) batch.rows) batch.rows
      ++ staying (earlier ++ key_texts key batch.rows) batches

  -- Without a primary key nothing is left out.
  abbrev pub expected : Bool → List (Batch Row) → List Row
  expected true batches = staying [] batches
  expected false [] = []
  expected false (batch ∷ batches) = batch.rows ++ expected false batches

  deliver-staying :
      (batches : List (Batch Row)) (seen earlier : List K)
      → ((k : K) → contains k seen ≡ contains k earlier)
      → deliver key null_text true batches seen ≡ staying earlier batches
  deliver-staying [] seen earlier same = refl
  deliver-staying (batch ∷ batches) seen earlier same =
      let seen' = (filter_new key null_text true batch.rows seen).1 in
      let first =
        filter_new-stays key null_text batch.rows seen
        ∙ ap (λ f. keep (stays key null_text f batch.rows) batch.rows) (fun_ext same) in
      let rest = deliver-staying batches seen' (earlier ++ key_texts key batch.rows) (λ k.
        (filter_new-is_new key null_text batch.rows seen).1 k
        ∙ ap (λ b. b || contains k (key_texts key batch.rows)) (same k)
        ∙ sym (contains-append k earlier (key_texts key batch.rows))) in
      ap (λ rows. rows ++ deliver key null_text true batches seen') first
      ∙ ap
          (λ rows.
            keep (stays key null_text (λ k. contains k earlier) batch.rows) batch.rows ++ rows)
          rest

  pub deliver-expected :
      (has_pk : Bool) (batches : List (Batch Row))
      → deliver key null_text has_pk batches [] ≡ expected has_pk batches
  deliver-expected true batches = deliver-staying batches [] [] (λ k. refl)
  deliver-expected false batches = without_keys batches []
    where
      without_keys :
          (batches : List (Batch Row)) (seen : List K)
          → deliver key null_text false batches seen ≡ expected false batches
      without_keys [] seen = refl
      without_keys (batch ∷ batches) seen =
          ap (λ rows. batch.rows ++ rows) (without_keys batches seen)
