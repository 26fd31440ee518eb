-- ===== src/Strategies/Abra/Again.antt =====
-- A second run over a source that does not change.
use dbextractors.Base.{
  ◌≡◌, refl, ap, subst, ◌∙◌, Bool, true, false, some, List, [], ◌∷◌, arith, Text, text_Eq, contains,
  contains-keep, keep, keep_no, is_empty, beq_refl, Bool-cases, inl, inr,
}
use dbextractors.Naming.Unicode.{Unicode}
use dbextractors.Strategies.Abra.{AbraSettings, reads, validate_abra, run_abra}
use dbextractors.Strategies.Abra.Window.{
  is_new, abra_where-is_new, held_not_new, fewer_held, admits, run_reads, reads_run,
}

still_there :
    (keys more : List Text)
    → is_empty keys ≡ false
    → ((k : Text) → contains k keys ≡ true → contains k more ≡ true)
    → is_empty more ≡ false
still_there [] more h within = absurd (ground arith)
still_there (x ∷ keys) [] h within =
    let held = within x (ground (arith, beq_refl x)) in absurd (ground arith)
still_there (x ∷ keys) (y ∷ more) h within = refl

module _ (u : Unicode) (settings : AbraSettings) (suffixes : List Text) (admitted : Text → Bool)
    (source keys found more : List Text) where
  none_left :
      keep (admits u settings suffixes admitted keys) source ≡ found
      → ((k : Text) → contains k keys ≡ true → contains k more ≡ true)
      → ((k : Text) → contains k found ≡ true → contains k more ≡ true)
      → (key : Text) → contains key source ≡ true
      → admits u settings suffixes admitted more key ≡ false
  none_left found_is within stored key there =
      elim (Bool-cases (admits u settings suffixes admitted more key)) [
        | inr refused ↦ refused
        | inl passes ↦
            let wanted : admitted key ≡ true = ground arith in
            let fresh : is_new suffixes more key ≡ true =
              ground (arith, abra_where-is_new suffixes more key) in
            let before = fewer_held suffixes keys more key within fresh in
            let was : admits u settings suffixes admitted keys key ≡ true =
              ground (arith, abra_where-is_new suffixes keys key) in
            let read : contains key (keep (admits u settings suffixes admitted keys) source)
                ≡ true =
              ground (arith, contains-keep (admits u settings suffixes admitted keys) key source) in
            let held = stored key (subst (λ l. contains key l ≡ true) found_is read) in
            let never = held_not_new suffixes more key held in absurd (ground arith)
      ]

  -- After a run that reads, once the target has its old keys and all that were read, another run over
  -- the same source with the same settings reads nothing.
  pub run_abra_again :
      validate_abra u settings ≡ some suffixes
      → run_abra u settings admitted source (some keys) ≡ reads found
      → ((k : Text) → contains k keys ≡ true → contains k more ≡ true)
      → ((k : Text) → contains k found ≡ true → contains k more ≡ true)
      → run_abra u settings admitted source (some more) ≡ reads []
  run_abra_again valid first within stored =
      let (something, (there, found_is)) =
        run_reads u settings suffixes admitted source keys found valid first in
      reads_run u settings suffixes admitted source more valid
        (still_there keys more something within) there
      ∙ ap reads (
          keep_no (admits u settings suffixes admitted more) source
            (none_left found_is within stored))
