-- ===== src/Strategies/Fingerprint/Parts.antt =====
-- A fingerprint determines its parts.
use dbextractors.Base.{◌≡◌, refl, ap, ◌∙◌, false, [], ◌∷◌, ◌++◌, arith, Text, All, nat_eq}
use dbextractors.Base.Decimal.{decimal, decimal_injective, decimal_avoids}
use dbextractors.Strategies.Fingerprint.{FingerprintParts, bar, part_text, fingerprint_key}

-- The part_text has no bar.
abbrev pub HasNoBar : Text → Type 0
HasNoBar s = All (λ c. nat_eq c bar ≡ false) s

-- What stands before the first bar, and what after it.
cut_at_bar :
    (s t rest rest' : Text)
    → HasNoBar s
    → HasNoBar t
    → s ++ bar ∷ rest ≡ t ++ bar ∷ rest'
    → (s ≡ t) × (rest ≡ rest')
cut_at_bar [] [] rest rest' h k e = (refl, ground arith)
cut_at_bar [] (d ∷ t) rest rest' h (d_is, k) e = absurd (ground arith)
cut_at_bar (c ∷ s) [] rest rest' (c_is, h) k e = absurd (ground arith)
cut_at_bar (c ∷ s) (d ∷ t) rest rest' (_, h) (_, k) e =
    let (same, more) = cut_at_bar s t rest rest' h k (ground arith) in
    let head : c ≡ d = ground arith in (ap (λ x. x ∷ s) head ∙ ap (λ x. d ∷ x) same, more)

-- Two answers have one fingerprint only where all their parts agree, an empty part_text and a missing one
-- taken as one, if neither maximum of either answer has a bar in it.
pub fingerprint_key_injective :
    (a b : FingerprintParts)
    → HasNoBar (part_text a.max_id)
    → HasNoBar (part_text b.max_id)
    → HasNoBar (part_text a.max_ts)
    → HasNoBar (part_text b.max_ts)
    → fingerprint_key a ≡ fingerprint_key b
    → (a.count ≡ b.count)
      × (part_text a.max_id ≡ part_text b.max_id)
      × (part_text a.max_ts ≡ part_text b.max_ts)
      × (part_text a.agg ≡ part_text b.agg)
unfolding fingerprint_key
fingerprint_key_injective a b id_a id_b ts_a ts_b e =
    let (count, after_count) =
      cut_at_bar (decimal a.count) (decimal b.count) _ _
        (decimal_avoids bar a.count a.count (omega arith))
        (decimal_avoids bar b.count b.count (omega arith)) e in
    let (max_id, after_id) =
      cut_at_bar (part_text a.max_id) (part_text b.max_id) _ _ id_a id_b after_count in
    let (max_ts, agg) =
      cut_at_bar (part_text a.max_ts) (part_text b.max_ts) _ _ ts_a ts_b after_id in
    (decimal_injective a.count b.count count, max_id, max_ts, agg)
