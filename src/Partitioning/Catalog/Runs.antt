-- ===== src/Partitioning/Catalog/Runs.antt =====
-- What `ensure_partitions_from_table` leaves in the catalogue.
use dbextractors.Base.{
  ◌≡◌, refl, sym, subst, Bool, true, false, Option, List, arith, Text, inl, inr, ◌⊎◌,
}
use mathlib.Core.List.{Forall₂}
use dbextractors.Naming.Unicode.{Unicode}
use dbextractors.Dates.{Date}
use dbextractors.Partitioning.{Mode}
use dbextractors.Partitioning.Names.{Value, default_ref}
use dbextractors.Partitioning.Catalog.{
  catch_all, Relation, Catalogue, ok, ensure_default_partition, ensure_each,
  ensure_partitions_from_table,
}
use dbextractors.Partitioning.Catalog.Steps.{
  IsPartition, and_then_ok, exists_partition, default_cases,
}
use dbextractors.Partitioning.Catalog.Ensured.{
  IsKept, IsKept-refl, IsKept-trans, IsPartition-kept, added-IsKept, added-IsPartition,
  NamesPartition, each_ensured, each_again,
}

module _ (target : Text) (refuses : Catalogue → Relation → Bool) (u : Unicode)
    (digest : Text → Text) (fromisoformat : Text → Option Date) where
  default_ensured :
      (wanted : Bool) (cat cat' : Catalogue)
      → ensure_default_partition target refuses u digest fromisoformat wanted cat ≡ ok cat'
      → IsKept cat cat' × ((wanted ≡ false) ⊎ IsPartition target (default_ref digest target) cat')
  default_ensured wanted cat cat' e =
      let name = default_ref digest target in
      elim (default_cases target refuses u digest fromisoformat wanted cat cat' e) [
        | inl (there, same) ↦
            subst (λ c. IsKept cat c × ((wanted ≡ false) ⊎ IsPartition target name c)) (sym same)
              (IsKept-refl cat, there)
        | inr (_, a) ↦ (
          added-IsKept target name catch_all cat cat' a,
          inr (added-IsPartition target name catch_all cat cat' a),
        )
      ]

  default_again :
      (wanted : Bool) (cat : Catalogue)
      → (wanted ≡ false) ⊎ IsPartition target (default_ref digest target) cat
      → ensure_default_partition target refuses u digest fromisoformat wanted cat ≡ ok cat
  unfolding ensure_default_partition
  default_again wanted cat (inl unwanted) = rw unwanted refl
  default_again false cat (inr p) = refl
  default_again true cat (inr p) =
      rw (exists_partition target cat (default_ref digest target) p) refl

  pub run_parts :
      (mode : Mode) (wanted : Bool) (cat cat' : Catalogue) (values : List Value) (parts : List Text)
      → ensure_partitions_from_table target refuses u digest fromisoformat mode wanted cat values
        ≡ ok (cat', parts)
      → (first : Catalogue) × ((ensure_default_partition target refuses u digest fromisoformat
              wanted cat
            ≡ ok first)
          × (ensure_each target refuses u digest fromisoformat mode first values
              ≡ ok (cat', parts)))
  unfolding ensure_partitions_from_table
  run_parts mode wanted cat cat' values parts e =
      and_then_ok (ensure_default_partition target refuses u digest fromisoformat wanted cat)
        (λ c. ensure_each target refuses u digest fromisoformat mode c values) (cat', parts) e

  -- A run that succeeds has kept every table as it was, and has returned, for each value in order, the
  -- name of a table that is now a partition of the target; the partition for all else, if wanted, is
  -- there too.
  pub ensure_partitions_from_table-NamesPartition :
      (mode : Mode) (wanted : Bool) (cat cat' : Catalogue) (values : List Value) (parts : List Text)
      → ensure_partitions_from_table target refuses u digest fromisoformat mode wanted cat values
        ≡ ok (cat', parts)
      → IsKept cat cat'
        × (Forall₂ (NamesPartition target refuses u digest fromisoformat mode cat') values parts
            × ((wanted ≡ false) ⊎ IsPartition target (default_ref digest target) cat'))
  ensure_partitions_from_table-NamesPartition mode wanted cat cat' values parts e =
      let (first, (default_made, each_made)) = run_parts mode wanted cat cat' values parts e in
      let (kept, there) = default_ensured wanted cat first default_made in
      let (kept', all) =
        each_ensured target refuses u digest fromisoformat mode first cat' values parts each_made in
      (
        IsKept-trans cat first cat' kept kept',
        (
          all,
          elim there [
            | inl unwanted ↦ inl unwanted
            | inr p ↦ inr (IsPartition-kept target (default_ref digest target) first cat' p kept')
          ],
        ),
      )

  again_step :
      (mode : Mode) (wanted : Bool) (cat : Catalogue) (values : List Value) (parts : List Text)
      → ensure_default_partition target refuses u digest fromisoformat wanted cat ≡ ok cat
      → ensure_each target refuses u digest fromisoformat mode cat values ≡ ok (cat, parts)
      → ensure_partitions_from_table target refuses u digest fromisoformat mode wanted cat values
        ≡ ok (cat, parts)
  unfolding ensure_partitions_from_table
  again_step mode wanted cat values parts first later = ground arith

-- After a run that succeeds, another one with the same values succeeds as well, whatever PostgreSQL
-- would then refuse: it creates nothing and returns the same names.
pub ensure_partitions_from_table_again :
    (target : Text) (refuses refuses' : Catalogue → Relation → Bool) (u : Unicode)
    (digest : Text → Text) (fromisoformat : Text → Option Date) (mode : Mode) (wanted : Bool)
    (cat cat' : Catalogue) (values : List Value) (parts : List Text)
    → ensure_partitions_from_table target refuses u digest fromisoformat mode wanted cat values
      ≡ ok (cat', parts)
    → ensure_partitions_from_table target refuses' u digest fromisoformat mode wanted cat' values
      ≡ ok (cat', parts)
ensure_partitions_from_table_again target refuses refuses' u digest fromisoformat mode wanted cat
      cat' values parts e =
    let (_, (all, there)) =
      ensure_partitions_from_table-NamesPartition target refuses u digest fromisoformat mode wanted
        cat cat' values parts e in
    again_step target refuses' u digest fromisoformat mode wanted cat' values parts
      (default_again target refuses' u digest fromisoformat wanted cat' there)
      (each_again target refuses' u digest fromisoformat mode cat' values parts all)

-- A run that succeeds has kept every table as it was, and has returned, for each value in order, the
-- name of a table that is now a partition of the target; the partition for all else, if wanted, is
-- there too. Another run with the same values then creates nothing and returns the same names,
-- whatever PostgreSQL would then refuse.
pub ensure_partitions_from_table_lem :
    (target : Text) (refuses refuses' : Catalogue → Relation → Bool) (u : Unicode)
    (digest : Text → Text) (fromisoformat : Text → Option Date) (mode : Mode) (wanted : Bool)
    (cat cat' : Catalogue) (values : List Value) (parts : List Text)
    → ensure_partitions_from_table target refuses u digest fromisoformat mode wanted cat values
      ≡ ok (cat', parts)
    → IsKept cat cat'
      × (Forall₂ (NamesPartition target refuses u digest fromisoformat mode cat') values parts
          × (((wanted ≡ false) ⊎ IsPartition target (default_ref digest target) cat')
              × (ensure_partitions_from_table target refuses' u digest fromisoformat mode wanted
                    cat' values
                  ≡ ok (cat', parts))))
ensure_partitions_from_table_lem target refuses refuses' u digest fromisoformat mode wanted cat cat'
      values parts e =
    let (kept, (all, there)) =
      ensure_partitions_from_table-NamesPartition target refuses u digest fromisoformat mode wanted
        cat cat' values parts e in
    (
      kept,
      (
        all,
        (
          there,
          ensure_partitions_from_table_again target refuses refuses' u digest fromisoformat mode
              wanted cat cat' values parts e,
        ),
      ),
    )
