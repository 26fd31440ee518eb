-- ===== src/Partitioning/Catalog/Periodic.antt =====
-- Partitions by periods of tables with short names.
use dbextractors.Base.{
  ◌≤◌, ◌≡◌, sym, subst, ◌∙◌, Option, some, ◌++◌, arith, Text, inl, inr, length, codes, Option-cases,
}
use dbextractors.Naming.Unicode.{Unicode}
use dbextractors.Dates.{Date, IsDate}
use dbextractors.Partitioning.{
  RangeMode, range_day, range_month, range_year, range_mode, period_start, period_bounds,
}
use dbextractors.Partitioning.Names.{
  Value, day_of, str, period_suffix, partition_suffix, partition_ref, default_ref, default_suffix,
}
use dbextractors.Partitioning.Names.Suffix.{period_suffix-period_start}
use dbextractors.Partitioning.Catalog.{
  period, catch_all, Bounds, Relation, Catalogue, relation, bounds_for,
}
use dbextractors.Partitioning.Catalog.Lookup.{append-cancel, fit_whole, relation_cases}
use dbextractors.Partitioning.Catalog.Steps.{IsAdded}

-- The name of a date's partition, where it is not shortened.
abbrev pub period_name : Text → RangeMode → Date → Text
period_name target mode t = target ++ codes "__" ++ period_suffix mode (period_start mode t)

suffix_length : (mode : RangeMode) (t : Date) → length (period_suffix mode t) ≤ 10
unfolding period_suffix
suffix_length range_day t = omega arith
suffix_length range_month t = omega arith
suffix_length range_year t = omega arith

suffix_default : (mode : RangeMode) (t : Date) → ¬ (period_suffix mode t ≡ default_suffix)
unfolding period_suffix
suffix_default range_day t e = ground arith
suffix_default range_month t e = ground arith
suffix_default range_year t e = ground arith

bounds_by_start :
    (mode : RangeMode) (s t : Date)
    → period_start mode s ≡ period_start mode t
    → period_bounds mode s ≡ period_bounds mode t
unfolding period_bounds
bounds_by_start mode s t e = ground arith

module _ (target : Text) (short : length target ≤ 51) where
  pub default_name :
      (digest : Text → Text) → default_ref digest target ≡ target ++ codes "__" ++ default_suffix
  unfolding default_ref
  default_name digest = fit_whole digest target default_suffix default_suffix (omega (arith, short))

  module _ (u : Unicode) (digest : Text → Text) (fromisoformat : Text → Option Date)
      (mode : RangeMode) where
    pub ref_name :
        (value : Value) (t : Date)
        → day_of fromisoformat value ≡ some t
        → partition_ref u digest fromisoformat target (range_mode mode) value
          ≡ some (period_name target mode t)
    unfolding partition_ref partition_suffix
    ref_name value t e =
        let suffix = period_suffix mode (period_start mode t) in
        let whole =
          fit_whole digest target suffix (str value)
            (omega (arith, short, suffix_length mode (period_start mode t))) in
        ground arith

    pub bounds_period :
        (value : Value) (t : Date) (b : Bounds)
        → day_of fromisoformat value ≡ some t
        → bounds_for fromisoformat (range_mode mode) value ≡ some b
        → (p : Date × Date) × ((period_bounds mode t ≡ some p) × (b ≡ period p.0 p.1))
    unfolding bounds_for
    bounds_period value t b e h = elim (Option-cases (period_bounds mode t)) [
      | inl outside ↦ absurd (ground arith)
      | inr (p, bounded) ↦ (p, (bounded, ground arith))
    ]

-- The table is bounded by the date's period.
abbrev pub BoundsPeriod : RangeMode → Date → Bounds → Type 0
BoundsPeriod mode t bounds =
    (p : Date × Date) × ((period_bounds mode t ≡ some p) × (bounds ≡ period p.0 p.1))

-- What the target's partitions are named says what they hold.
pub record IsConsistent (target : Text) (mode : RangeMode) (cat : Catalogue) : Type 0 where
  pub named :
      (t : Date) (r : Relation)
      → IsDate t
      → relation (period_name target mode t) cat ≡ some r
      → r.parent ≡ some target
      → BoundsPeriod mode t r.bounds

module _ (target : Text) (mode : RangeMode) where
  name_start :
      (s t : Date)
      → IsDate s
      → IsDate t
      → period_name target mode s ≡ period_name target mode t
      → period_bounds mode s ≡ period_bounds mode t
  name_start s t vs vt e =
      bounds_by_start mode s t
        ((period_suffix-period_start mode s t vs vt).0 (append-cancel (target ++ codes "__") _ _ e))

  pub added-IsConsistent :
      (s : Date) (bounds : Bounds) (cat cat' : Catalogue)
      → IsDate s
      → BoundsPeriod mode s bounds
      → IsAdded target (period_name target mode s) bounds cat cat'
      → IsConsistent target mode cat
      → IsConsistent target mode cat'
  added-IsConsistent s bounds cat cat' vs (p, (bounded, is)) a c =
      subst (λ k. IsConsistent target mode k) (sym a.added)
        record {
          named = λ t r vt found child.
              let new : Relation = record {
                name = period_name target mode s;
                parent = some target;
                bounds = bounds;
              } in
              elim (relation_cases (period_name target mode t) new cat) [
                | inl (same, new_found) ↦
                    let r_new : bounds ≡ r.bounds = ground arith in
                    (p, (sym (name_start s t vs vt same) ∙ bounded, sym r_new ∙ is))
                | inr before ↦ c.named t r vt (sym before ∙ found) child
              ];
        }

  pub default-IsConsistent :
      (name : Text) (cat cat' : Catalogue)
      → name ≡ target ++ codes "__" ++ default_suffix
      → IsAdded target name catch_all cat cat'
      → IsConsistent target mode cat
      → IsConsistent target mode cat'
  default-IsConsistent name cat cat' is a c =
      subst (λ k. IsConsistent target mode k) (sym a.added)
        record {
          named = λ t r vt found child.
              elim (relation_cases (period_name target mode t)
                (record { name = name; parent = some target; bounds = catch_all }) cat) [
                  | inl (same, new_found) ↦ absurd (
                      suffix_default mode (period_start mode t)
                        (append-cancel (target ++ codes "__") _ _ (sym same ∙ is)))
                  | inr before ↦ c.named t r vt (sym before ∙ found) child
                ];
        }
