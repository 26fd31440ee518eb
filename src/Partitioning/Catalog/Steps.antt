-- ===== src/Partitioning/Catalog/Steps.antt =====
-- What a call that succeeds has done: found a partition of the target, or added one.
use dbextractors.Base.{
  ◌≡◌, refl, sym, ap, subst, ◌∙◌, Bool, true, false, Option, none, some, ◌∷◌, arith, Text, text_Eq,
  text_beq_iff, ◌==◌, inl, inr, ◌⊎◌, Bool-cases, Option-cases, beq_refl,
}
use dbextractors.Naming.Unicode.{Unicode}
use dbextractors.Dates.{Date}
use dbextractors.Partitioning.{Mode}
use dbextractors.Partitioning.Names.{Value, partition_ref, default_ref}
use dbextractors.Partitioning.Catalog.{
  Bounds, catch_all, Relation, Catalogue, relation, Outcome, ok, value_error, name_taken,
  create_failed, and_then, partition_exists, create, bounds_for, create_for, create_default,
  ensure_partition_for, ensure_default_partition,
}

-- The table is a partition of the target.
pub record IsPartition (target part : Text) (cat : Catalogue) : Type 0 where
  pub table : Relation
  pub found : relation part cat ≡ some table
  pub child : table.parent ≡ some target

-- The new table, whose name was free.
pub record IsAdded (target part : Text) (bounds : Bounds) (cat cat' : Catalogue) : Type 0 where
  pub free : relation part cat ≡ none
  pub added : cat' ≡ record { name = part; parent = some target; bounds = bounds } ∷ cat

-- A chain that succeeds has first succeeded in its first part.
pub and_then_ok :
    {A B : Type 0} (x : Outcome A) (f : A → Outcome B) (c : B)
    → and_then x f ≡ ok c
    → (a : A) × ((x ≡ ok a) × (f a ≡ ok c))
and_then_ok (ok a) f c e = (a, (refl, e))
and_then_ok value_error f c e = absurd (ground arith)
and_then_ok (name_taken n) f c e = absurd (ground arith)
and_then_ok (create_failed n) f c e = absurd (ground arith)

module _ (target : Text) where
  exists_cases :
      (cat : Catalogue) (part : Text) (exists : Bool)
      → partition_exists target cat part ≡ ok exists
      → ((exists ≡ true) × IsPartition target part cat)
        ⊎ ((exists ≡ false) × (relation part cat ≡ none))
  unfolding partition_exists
  exists_cases cat part exists e = elim (Option-cases (relation part cat)) [
    | inl free ↦ inr (ground arith, free)
    | inr (r, found) ↦ elim (Option-cases r.parent) [
      | inl ordinary ↦ absurd (ground arith)
      | inr (p, parent) ↦ elim (Bool-cases (p == target)) [
        | inl same ↦
            let ours : r.parent ≡ some target = parent ∙ ap some ((text_beq_iff p target).0 same) in
            inl (ground arith, record { table = r; found = found; child = ours })
        | inr other ↦ absurd (ground arith)
      ]
    ]
  ]

  pub exists_partition :
      (cat : Catalogue) (part : Text)
      → IsPartition target part cat
      → partition_exists target cat part ≡ ok true
  unfolding partition_exists
  exists_partition cat part p =
      let found = p.found in let child = p.child in let ours = beq_refl target in ground arith

  module _ (refuses : Catalogue → Relation → Bool) where
    create-IsAdded :
        (cat cat' : Catalogue) (part part' : Text) (bounds : Bounds)
        → relation part cat ≡ none
        → create target refuses cat part bounds ≡ ok (cat', part')
        → (part' ≡ part) × IsAdded target part bounds cat cat'
    unfolding create
    create-IsAdded cat cat' part part' bounds free e = ground arith

    module _ (u : Unicode) (digest : Text → Text) (fromisoformat : Text → Option Date) where
      create_for_cases :
          (mode : Mode) (cat cat' : Catalogue) (value : Value) (name part : Text)
          → relation name cat ≡ none
          → create_for target refuses u digest fromisoformat mode cat value name false
            ≡ ok (cat', part)
          → (part ≡ name)
            × ((b : Bounds) × ((bounds_for fromisoformat mode value ≡ some b)
                  × IsAdded target name b cat cat'))
      create_for_cases mode cat cat' value name part free e =
          elim (Option-cases (bounds_for fromisoformat mode value)) [
            | inl outside ↦ absurd (ground arith)
            | inr (b, bounded) ↦
                let (same, a) = create-IsAdded cat cat' name part b free (ground arith) in
                (same, (b, (bounded, a)))
          ]

      pub ensure_cases :
          (mode : Mode) (cat cat' : Catalogue) (value : Value) (part : Text)
          → ensure_partition_for target refuses u digest fromisoformat mode cat value
            ≡ ok (cat', part)
          → (partition_ref u digest fromisoformat target mode value ≡ some part)
            × (((cat' ≡ cat) × IsPartition target part cat)
                ⊎ ((b : Bounds) × ((bounds_for fromisoformat mode value ≡ some b)
                      × IsAdded target part b cat cat')))
      unfolding ensure_partition_for
      ensure_cases mode cat cat' value part e =
          elim (Option-cases (partition_ref u digest fromisoformat target mode value)) [
            | inl none_of ↦ absurd (ground arith)
            | inr (name, named) ↦
                let (exists, (tested, made)) =
                  and_then_ok (partition_exists target cat name)
                    (λ x. create_for target refuses u digest fromisoformat mode cat value name x)
                    (cat', part) (ground arith) in
                elim (exists_cases cat name exists tested) [
                  | inl (is, p) ↦
                      let kept : cat ≡ cat' = ground arith in
                      let part_name : name ≡ part = ground arith in
                      (
                        named ∙ ap some part_name,
                        inl (sym kept, subst (λ n. IsPartition target n cat) part_name p),
                      )
                  | inr (is, free) ↦
                      let (part_name, (b, (bounded, a))) =
                        create_for_cases mode cat cat' value name part free (ground arith) in
                      (
                        named ∙ ap some (sym part_name),
                        inr (
                          b,
                          (bounded, subst (λ n. IsAdded target n b cat cat') (sym part_name) a),
                        ),
                      )
                ]
          ]

      default_created :
          (cat cat' : Catalogue)
          → relation (default_ref digest target) cat ≡ none
          → create_default target refuses u digest fromisoformat cat false ≡ ok cat'
          → IsAdded target (default_ref digest target) catch_all cat cat'
      default_created cat cat' free e =
          let name = default_ref digest target in
          let (made, (created, same)) =
            and_then_ok (create target refuses cat name catch_all) (λ made. ok made.0) cat' e in
          let (_, a) = create-IsAdded cat made.0 name made.1 catch_all free created in
          let last : made.0 ≡ cat' = ground arith in
          subst (λ c. IsAdded target name catch_all cat c) last a

      -- Where it is wanted, the partition for all else is there.
      pub default_cases :
          (wanted : Bool) (cat cat' : Catalogue)
          → ensure_default_partition target refuses u digest fromisoformat wanted cat ≡ ok cat'
          → (((wanted ≡ false) ⊎ IsPartition target (default_ref digest target) cat) × (cat' ≡ cat))
            ⊎ ((wanted ≡ true) × IsAdded target (default_ref digest target) catch_all cat cat')
      unfolding ensure_default_partition
      default_cases false cat cat' e = inl (inl refl, ground arith)
      default_cases true cat cat' e =
          let name = default_ref digest target in
          let (exists, (tested, made)) =
            and_then_ok (partition_exists target cat name)
              (λ x. create_default target refuses u digest fromisoformat cat x) cat' e in
          elim (exists_cases cat name exists tested) [
            | inl (is, p) ↦ inl (inr p, ground arith)
            | inr (is, free) ↦ inr (refl, default_created cat cat' free (ground arith))
          ]
