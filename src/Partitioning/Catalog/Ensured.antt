-- ===== src/Partitioning/Catalog/Ensured.antt =====
-- What a run's partitions are, whatever the partitioning.
use dbextractors.Base.{
  ◌≡◌, refl, sym, ap, subst, ◌∙◌, Bool, true, Option, some, List, [], ◌∷◌, arith, Text, inl, inr,
}
use mathlib.Core.List.{Forall₂}
use dbextractors.Naming.Unicode.{Unicode}
use dbextractors.Dates.{Date}
use dbextractors.Partitioning.{Mode}
use dbextractors.Partitioning.Names.{Value, partition_ref}
use dbextractors.Partitioning.Catalog.{
  Bounds, Relation, Catalogue, relation, ok, and_then, partition_exists, ensure_partition_for,
  ensure_each,
}
use dbextractors.Partitioning.Catalog.Lookup.{relation_head, relation_kept}
use dbextractors.Partitioning.Catalog.Steps.{
  IsPartition, IsAdded, and_then_ok, exists_partition, ensure_cases,
}

-- Every table that `cat` has is in `cat'` as it was.
pub record IsKept (cat cat' : Catalogue) : Type 0 where
  pub keeps : (n : Text) (r : Relation) → relation n cat ≡ some r → relation n cat' ≡ some r

pub IsKept-refl : (cat : Catalogue) → IsKept cat cat
IsKept-refl cat = record { keeps = λ n r e. e }

pub IsKept-trans : (a b c : Catalogue) → IsKept a b → IsKept b c → IsKept a c
IsKept-trans a b c h k = record { keeps = λ n r e. k.keeps n r (h.keeps n r e) }

module _ (target : Text) where
  pub IsPartition-kept :
      (part : Text) (cat cat' : Catalogue)
      → IsPartition target part cat
      → IsKept cat cat'
      → IsPartition target part cat'
  IsPartition-kept part cat cat' p k = record {
    table = p.table;
    found = k.keeps part p.table p.found;
    child = p.child;
  }

  pub added-IsKept :
      (part : Text) (bounds : Bounds) (cat cat' : Catalogue)
      → IsAdded target part bounds cat cat'
      → IsKept cat cat'
  added-IsKept part bounds cat cat' a = record {
    keeps = λ n r e.
        subst (λ c. relation n c ≡ some r) (sym a.added) (relation_kept n _ r cat a.free e);
  }

  pub added-IsPartition :
      (part : Text) (bounds : Bounds) (cat cat' : Catalogue)
      → IsAdded target part bounds cat cat'
      → IsPartition target part cat'
  added-IsPartition part bounds cat cat' a =
      subst (λ c. IsPartition target part c) (sym a.added)
        record {
          table = record { name = part; parent = some target; bounds = bounds };
          found = relation_head (record { name = part; parent = some target; bounds = bounds }) cat;
          child = refl;
        }

  module _ (refuses : Catalogue → Relation → Bool) (u : Unicode) (digest : Text → Text)
      (fromisoformat : Text → Option Date) (mode : Mode) where
    -- The tables stay, and there is a partition of the value's name.
    pub ensured :
        (cat cat' : Catalogue) (value : Value) (part : Text)
        → ensure_partition_for target refuses u digest fromisoformat mode cat value
          ≡ ok (cat', part)
        → IsKept cat cat' × IsPartition target part cat'
    ensured cat cat' value part e =
        let (named, how) =
          ensure_cases target refuses u digest fromisoformat mode cat cat' value part e in
        elim how [
          | inl (same, p) ↦ (
            subst (λ c. IsKept cat c) (sym same) (IsKept-refl cat),
            subst (λ c. IsPartition target part c) (sym same) p,
          )
          | inr (b, (bounded, a)) ↦
              (added-IsKept part b cat cat' a, added-IsPartition part b cat cat' a)
        ]

    -- A value that has its partition needs nothing new.
    nothing_new :
        (cat : Catalogue) (value : Value) (part : Text)
        → partition_ref u digest fromisoformat target mode value ≡ some part
        → partition_exists target cat part ≡ ok true
        → ensure_partition_for target refuses u digest fromisoformat mode cat value ≡ ok (cat, part)
    unfolding ensure_partition_for
    nothing_new cat value part named there = ground arith

    each_step :
        (cat cat' : Catalogue) (value : Value) (values : List Value) (part : Text)
        (parts : List Text)
        → ensure_partition_for target refuses u digest fromisoformat mode cat value
          ≡ ok (cat', part)
        → (cat'' : Catalogue)
        → ensure_each target refuses u digest fromisoformat mode cat' values ≡ ok (cat'', parts)
        → ensure_each target refuses u digest fromisoformat mode cat (value ∷ values)
          ≡ ok (cat'', part ∷ parts)
    unfolding ensure_each
    each_step cat cat' value values part parts first cat'' later = ground arith

    -- The value's partition, by its name.
    abbrev pub NamesPartition : Catalogue → Value → Text → Type 0
    NamesPartition cat value part =
        (partition_ref u digest fromisoformat target mode value ≡ some part)
        × IsPartition target part cat

    pub each_parts :
        (cat cat' : Catalogue) (value : Value) (values : List Value) (parts : List Text)
        → ensure_each target refuses u digest fromisoformat mode cat (value ∷ values)
          ≡ ok (cat', parts)
        → (made : Catalogue × Text) × ((rest : List Text) × ((ensure_partition_for target refuses u
                  digest fromisoformat mode cat value
                ≡ ok made)
              × ((ensure_each target refuses u digest fromisoformat mode made.0 values
                    ≡ ok (cat', rest))
                  × (parts ≡ made.1 ∷ rest))))
    unfolding ensure_each
    each_parts cat cat' value values parts e =
        let (made, (first, e')) =
          and_then_ok (ensure_partition_for target refuses u digest fromisoformat mode cat value)
            (λ made.
              and_then (ensure_each target refuses u digest fromisoformat mode made.0 values)
                (λ rest. ok (rest.0, made.1 ∷ rest.1)))
            (cat', parts) e in
        let (more, (later, last)) =
          and_then_ok (ensure_each target refuses u digest fromisoformat mode made.0 values)
            (λ rest. ok (rest.0, made.1 ∷ rest.1)) (cat', parts) e' in
        let same : more.0 ≡ cat' = ground arith in
        let all : made.1 ∷ more.1 ≡ parts = ground arith in
        (made, (more.1, (first, (later ∙ ap (λ c. ok (c, more.1)) same, sym all))))

    pub each_nil :
        (cat cat' : Catalogue) (parts : List Text)
        → ensure_each target refuses u digest fromisoformat mode cat [] ≡ ok (cat', parts)
        → (cat ≡ cat') × ([] ≡ parts)
    unfolding ensure_each
    each_nil cat cat' parts e = ground arith

    pub each_ensured :
        (cat cat' : Catalogue) (values : List Value) (parts : List Text)
        → ensure_each target refuses u digest fromisoformat mode cat values ≡ ok (cat', parts)
        → IsKept cat cat' × Forall₂ (NamesPartition cat') values parts
    each_ensured cat cat' [] parts e =
        let (same, none_made) = each_nil cat cat' parts e in
        (
          subst (λ c. IsKept cat c) same (IsKept-refl cat),
          subst (λ l. Forall₂ (NamesPartition cat') [] l) none_made Forall₂.nil,
        )
    each_ensured cat cat' (value ∷ values) parts e =
        let (made, (rest, (first, (later, all)))) = each_parts cat cat' value values parts e in
        let (named, how) =
          ensure_cases target refuses u digest fromisoformat mode cat made.0 value made.1 first in
        let (kept, p) = ensured cat made.0 value made.1 first in
        let (kept', ps) = each_ensured made.0 cat' values rest later in
        (
          IsKept-trans cat made.0 cat' kept kept',
          subst (λ l. Forall₂ (NamesPartition cat') (value ∷ values) l) (sym all)
              (Forall₂.cons (named, IsPartition-kept made.1 made.0 cat' p kept') ps),
        )

    -- Values that have their partitions need nothing new.
    pub each_again :
        (cat : Catalogue) (values : List Value) (parts : List Text)
        → Forall₂ (NamesPartition cat) values parts
        → ensure_each target refuses u digest fromisoformat mode cat values ≡ ok (cat, parts)
    each_again cat [] [] Forall₂.nil = unfold ensure_each in refl
    each_again cat [] (part ∷ parts) ps = elim ps [ ]
    each_again cat (value ∷ values) [] ps = elim ps [ ]
    each_again cat (value ∷ values) (part ∷ parts) (Forall₂.cons (named, p) ps) =
        each_step cat cat value values part parts
          (nothing_new cat value part named (exists_partition target cat part p)) cat
          (each_again cat values parts ps)
