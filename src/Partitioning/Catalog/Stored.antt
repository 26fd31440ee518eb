-- ===== src/Partitioning/Catalog/Stored.antt =====
-- Where a run over periods leaves each value.
use dbextractors.Base.{
  ◌≤◌, ◌≡◌, sym, subst, ◌∙◌, Bool, Option, some, List, [], ◌∷◌, Text, inl, inr, length, All,
}
use mathlib.Core.List.{Forall₂}
use mathlib.Core.Option.{some-injective}
use dbextractors.Naming.Unicode.{Unicode}
use dbextractors.Dates.{Date, IsDate}
use dbextractors.Partitioning.Periods.{IsPeriod, period_bounds-IsPeriod}
use dbextractors.Partitioning.Catalog.Runs.{run_parts, ensure_partitions_from_table-NamesPartition}
use dbextractors.Partitioning.{RangeMode, range_mode}
use dbextractors.Partitioning.Names.{Value, day_of, default_ref}
use dbextractors.Partitioning.Catalog.{
  period, Relation, Catalogue, relation, ok, ensure_partition_for, ensure_default_partition,
  ensure_each, ensure_partitions_from_table,
}
use dbextractors.Partitioning.Catalog.Steps.{IsAdded, ensure_cases, default_cases}
use dbextractors.Partitioning.Catalog.Ensured.{NamesPartition, each_parts, each_nil}
use dbextractors.Partitioning.Catalog.Periodic.{
  period_name, default_name, ref_name, bounds_period, IsConsistent, added-IsConsistent,
  default-IsConsistent,
}

-- The value has a day.
pub record IsDated (fromisoformat : Text → Option Date) (value : Value) : Type 0 where
  pub day : Date
  pub day_is : day_of fromisoformat value ≡ some day
  pub date_is : IsDate day

-- A table of the catalogue that is a partition of the target for a range of days with the value's.
pub record IsStored (target : Text) (mode : RangeMode) (fromisoformat : Text → Option Date)
    (cat : Catalogue) (value : Value) : Type 0 where
  pub day : Date
  pub day_is : day_of fromisoformat value ≡ some day
  pub table : Relation
  pub found : relation (period_name target mode day) cat ≡ some table
  pub child : table.parent ≡ some target
  pub start : Date
  pub end : Date
  pub bounded : table.bounds ≡ period start end
  pub holds : IsPeriod mode day start end

module _ (target : Text) (short : length target ≤ 51) (refuses : Catalogue → Relation → Bool)
    (u : Unicode) (digest : Text → Text) (fromisoformat : Text → Option Date)
    (mode : RangeMode) where
  one-IsConsistent :
      (cat cat' : Catalogue) (value : Value) (part : Text)
      → IsDated fromisoformat value
      → ensure_partition_for target refuses u digest fromisoformat (range_mode mode) cat value
        ≡ ok (cat', part)
      → IsConsistent target mode cat
      → IsConsistent target mode cat'
  one-IsConsistent cat cat' value part d e c =
      let (named, how) =
        ensure_cases target refuses u digest fromisoformat (range_mode mode) cat cat' value part
          e in
      let name = ref_name target short u digest fromisoformat mode value d.day d.day_is in
      let part_name : part ≡ period_name target mode d.day =
        some-injective _ _ (sym named ∙ name) in
      elim how [
        | inl (same, p) ↦ subst (λ k. IsConsistent target mode k) (sym same) c
        | inr (b, (bounded, a)) ↦
            added-IsConsistent target mode d.day b cat cat' d.date_is
              (bounds_period target short u digest fromisoformat mode value d.day b d.day_is
                bounded)
              (subst (λ n. IsAdded target n b cat cat') part_name a) c
      ]

  each-IsConsistent :
      (cat cat' : Catalogue) (values : List Value) (parts : List Text)
      → All (IsDated fromisoformat) values
      → ensure_each target refuses u digest fromisoformat (range_mode mode) cat values
        ≡ ok (cat', parts)
      → IsConsistent target mode cat
      → IsConsistent target mode cat'
  each-IsConsistent cat cat' [] parts d e c =
      let (same, _) =
        each_nil target refuses u digest fromisoformat (range_mode mode) cat cat' parts e in
      subst (λ k. IsConsistent target mode k) same c
  each-IsConsistent cat cat' (value ∷ values) parts (d, ds) e c =
      let (made, (rest, (first, (later, _)))) =
        each_parts target refuses u digest fromisoformat (range_mode mode) cat cat' value values
          parts e in
      each-IsConsistent made.0 cat' values rest ds later
        (one-IsConsistent cat made.0 value made.1 d first c)

  first-IsConsistent :
      (wanted : Bool) (cat cat' : Catalogue)
      → ensure_default_partition target refuses u digest fromisoformat wanted cat ≡ ok cat'
      → IsConsistent target mode cat
      → IsConsistent target mode cat'
  first-IsConsistent wanted cat cat' e c =
      elim (default_cases target refuses u digest fromisoformat wanted cat cat' e) [
        | inl (_, same) ↦ subst (λ k. IsConsistent target mode k) (sym same) c
        | inr (_, a) ↦
            default-IsConsistent target mode (default_ref digest target) cat cat'
              (default_name target short digest) a c
      ]

  one-IsStored :
      (cat : Catalogue) (value : Value) (part : Text)
      → IsConsistent target mode cat
      → IsDated fromisoformat value
      → NamesPartition target refuses u digest fromisoformat (range_mode mode) cat value part
      → IsStored target mode fromisoformat cat value
  one-IsStored cat value part c d (named, p) =
      let name = ref_name target short u digest fromisoformat mode value d.day d.day_is in
      let part_name : part ≡ period_name target mode d.day =
        some-injective _ _ (sym named ∙ name) in
      let found : relation (period_name target mode d.day) cat ≡ some p.table =
        subst (λ n. relation n cat ≡ some p.table) part_name p.found in
      let (range, (bounded, is)) = c.named d.day p.table d.date_is found p.child in
      record {
        day = d.day;
        day_is = d.day_is;
        table = p.table;
        found = found;
        child = p.child;
        start = range.0;
        end = range.1;
        bounded = is;
        holds = period_bounds-IsPeriod mode d.day range.0 range.1 d.date_is bounded;
      }

  All-IsStored :
      (cat : Catalogue) (values : List Value) (parts : List Text)
      → IsConsistent target mode cat
      → All (IsDated fromisoformat) values
      → Forall₂
          (NamesPartition target refuses u digest fromisoformat (range_mode mode) cat)
          values
          parts
      → All (IsStored target mode fromisoformat cat) values
  All-IsStored cat [] parts c ds ps = tt
  All-IsStored cat (value ∷ values) (part ∷ parts) c (d, ds) (Forall₂.cons p ps) =
      (one-IsStored cat value part c d p, All-IsStored cat values parts c ds ps)
  All-IsStored cat (value ∷ values) [] c ds ps = elim ps [ ]

  -- In a catalogue where every table with a period's name that is a partition of the target is bounded
  -- by that period, a run that succeeds over values with days leaves the catalogue so, and every value
  -- lies in a partition of the target whose range of days holds it.
  pub ensure_partitions_from_table-IsStored :
      (wanted : Bool) (cat cat' : Catalogue) (values : List Value) (parts : List Text)
      → All (IsDated fromisoformat) values
      → IsConsistent target mode cat
      → ensure_partitions_from_table target refuses u digest fromisoformat
          (range_mode mode)
          wanted
          cat
          values
        ≡ ok (cat', parts)
      → IsConsistent target mode cat' × All (IsStored target mode fromisoformat cat') values
  ensure_partitions_from_table-IsStored wanted cat cat' values parts ds c e =
      let (first, (default_made, each_made)) =
        run_parts target refuses u digest fromisoformat (range_mode mode) wanted cat cat' values
          parts e in
      let c' =
        each-IsConsistent first cat' values parts ds each_made
          (first-IsConsistent wanted cat first default_made c) in
      let (_, (all, _)) =
        ensure_partitions_from_table-NamesPartition target refuses u digest fromisoformat
          (range_mode mode) wanted cat cat' values parts e in
      (c', All-IsStored cat' values parts c' ds all)
