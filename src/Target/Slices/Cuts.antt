-- ===== src/Target/Slices/Cuts.antt =====
-- What the statements do to the rows of one source and to those of the others.
use dbextractors.Base.{
  ◌≡◌, refl, sym, ap, subst, ◌∙◌, ℕ, Bool, true, ◌&&◌, ◌||◌, not, Option, none, some, List, [], ◌∷◌,
  ◌++◌, arith, Text, text_Eq, ◌==◌, keep, all, length, Bool-cases, Option-cases, inl, inr, beq_refl,
}
use dbextractors.Naming.Unicode.{Unicode}
use dbextractors.Dates.{Date}
use dbextractors.Partitioning.{list_mode}
use dbextractors.Partitioning.Names.{text_value, partition_ref}
use dbextractors.Partitioning.Catalog.{
  Bounds, one_value, Relation, Catalogue, relation, Outcome, ok, value_error, name_taken,
  create_failed, is_child_of, bounds_for,
}
use dbextractors.Partitioning.Catalog.Lookup.{relation_head}
use dbextractors.Partitioning.Catalog.Steps.{ensure_cases}
use dbextractors.Target.Slices.{
  Labelled, Slices, Store, names_source, accepted, lies_in, has_place, from_outcome, truncate,
  delete, ensure_partition, cut_slice, replace_source_slice,
}

module _ {Row : Type 0} where
  abbrev pub rows_of : Store Row → List (Labelled Row)
  rows_of db = elim db.target [ none ↦ [] | some t ↦ t.rows ]

  -- The rows of a source, and those that are not its.
  abbrev pub slice : Text → List (Labelled Row) → List (Labelled Row)
  slice label rows = keep (λ row. names_source label row.source) rows

  abbrev pub others : Text → List (Labelled Row) → List (Labelled Row)
  others label rows = keep (λ row. not (names_source label row.source)) rows

  pub others_again :
      (label : Text) (rows : List (Labelled Row))
      → others label (others label rows) ≡ others label rows
  others_again label [] = refl
  others_again label (r ∷ rows) = ground (arith, others_again label rows)

  pub slice-others :
      (label : Text) (rows : List (Labelled Row)) → slice label (others label rows) ≡ []
  slice-others label [] = refl
  slice-others label (r ∷ rows) = ground (arith, slice-others label rows)

  pub slice-delete :
      (label : Text) (rows : List (Labelled Row)) → slice label (delete (some label) rows) ≡ []
  slice-delete label rows = slice-others label rows

-- The table that has the name of the label's partition, if there is one, is bounded by the label.
pub record HasOwnPartition (target : Text) (u : Unicode) (digest : Text → Text)
    (fromisoformat : Text → Option Date) (label : Text) (cat : Catalogue) : Type 0 where
  pub own :
      (part : Text) (r : Relation)
      → partition_ref u digest fromisoformat target list_mode (text_value label) ≡ some part
      → relation part cat ≡ some r
      → r.bounds ≡ one_value (text_value label)

pub from_outcome-some : {A : Type 0} (x : Outcome A) (a : A) → from_outcome x ≡ some a → x ≡ ok a
from_outcome-some (ok b) a h = ground arith
from_outcome-some value_error a h = absurd (ground arith)
from_outcome-some (name_taken n) a h = absurd (ground arith)
from_outcome-some (create_failed n) a h = absurd (ground arith)

-- A partition that is found in the catalogue accepts its label.
pub found_accepts :
    (target part label : Text) (cat : Catalogue) (r : Relation)
    → relation part cat ≡ some r
    → r.parent ≡ some target
    → r.bounds ≡ one_value (text_value label)
    → accepted target cat (some label) ≡ true
unfolding relation
found_accepts target part label [] r h p b = absurd (ground arith)
found_accepts target part label (q ∷ cat) r h p b = elim (Bool-cases (q.name == part)) [
  | inl same ↦
      let it : q ≡ r = ground arith in
      let child : is_child_of target q.parent ≡ true =
        ap (λ x. is_child_of target x.parent) it
        ∙ ap (λ x. is_child_of target x) p
        ∙ beq_refl target in
      let bound : q.bounds ≡ one_value (text_value label) = ap (λ x. x.bounds) it ∙ b in
      rw (child, bound, beq_refl label) refl
  | inr other ↦ let rest = found_accepts target part label cat r (ground arith) p b in ground arith
]

module _ (target : Text) (refuses : Catalogue → Relation → Bool) (u : Unicode)
    (digest : Text → Text) (fromisoformat : Text → Option Date) where
  -- The partition that a label then has.
  pub record IsFound (label part : Text) (cat : Catalogue) : Type 0 where
    pub table : Relation
    pub found : relation part cat ≡ some table
    pub child : table.parent ≡ some target
    pub bounded : table.bounds ≡ one_value (text_value label)

  list_bounds :
      (label : Text) (b : Bounds)
      → bounds_for fromisoformat list_mode (text_value label) ≡ some b
      → b ≡ one_value (text_value label)
  unfolding bounds_for
  list_bounds label b h = ground arith

  pub ensure_partition-IsFound :
      (label part : Text) (cat cat' : Catalogue)
      → HasOwnPartition target u digest fromisoformat label cat
      → ensure_partition target refuses u digest fromisoformat cat label ≡ ok (cat', part)
      → IsFound label part cat'
  unfolding ensure_partition
  ensure_partition-IsFound label part cat cat' own h =
      let (named, how) =
        ensure_cases target refuses u digest fromisoformat list_mode cat cat' (text_value label)
          part h in
      elim how [
        | inl (same, p) ↦
            subst (λ c. IsFound label part c) (sym same)
              record {
                table = p.table;
                found = p.found;
                child = p.child;
                bounded = own.own part p.table named p.found;
              }
        | inr (b, (is, a)) ↦
            subst (λ c. IsFound label part c) (sym a.added)
              record {
                table = record { name = part; parent = some target; bounds = b };
                found =
                    relation_head (record { name = part; parent = some target; bounds = b }) cat;
                child = refl;
                bounded = list_bounds label b is;
              }
      ]

  module _ {Row : Type 0} where
    truncated :
        (part : Text) (cat : Catalogue) (r : Relation) (rows : List (Labelled Row))
        → relation part cat ≡ some r
        → truncate target cat part rows
          ≡ keep (λ row. not (lies_in target cat r.bounds row.source)) rows
    unfolding truncate
    truncated part cat r rows h = ground arith

    truncate-delete :
        (label part : Text) (cat : Catalogue) (rows : List (Labelled Row))
        → IsFound label part cat
        → truncate target cat part rows ≡ delete (some label) rows
    truncate-delete label part cat rows f =
        truncated part cat f.table rows f.found
        ∙ ap (λ b. keep (λ row. not (lies_in target cat b row.source)) rows) f.bounded

    -- The cut leaves what DELETE would.
    pub cut_slice-delete :
        (label : Text) (cat cat' : Catalogue) (t : Slices Row) (rows : List (Labelled Row))
        → HasOwnPartition target u digest fromisoformat label cat
        → cut_slice target refuses u digest fromisoformat (some label) cat t ≡ some (cat', rows)
        → rows ≡ delete (some label) t.rows
    unfolding cut_slice
    cut_slice-delete label cat cat' t rows own h = elim (Bool-cases t.partitioned) [
      | inr plain ↦ ground arith
      | inl parts ↦
          elim (Option-cases
            (from_outcome (ensure_partition target refuses u digest fromisoformat cat label))) [
              | inl bad ↦ absurd (ground arith)
              | inr (made, good) ↦
                  let f =
                    ensure_partition-IsFound label made.1 cat made.0 own
                      (from_outcome-some _ made good) in
                  let cut : truncate target made.0 made.1 t.rows ≡ rows = ground arith in
                  sym cut ∙ truncate-delete label made.1 made.0 t.rows f
            ]
    ]

    -- What the call does that succeeds.
    pub record IsReplaced (label : Option Text) (staged : List (Labelled Row)) (db db' : Store Row)
        (n : ℕ) : Type 0 where
      pub table : Slices Row
      pub rows : List (Labelled Row)
      pub there : db.target ≡ some table
      pub cut :
          cut_slice target refuses u digest fromisoformat label db.catalogue table
          ≡ some (db'.catalogue, rows)
      pub target_is : db'.target ≡ some (record table { rows = rows ++ staged })
      pub marks_are : db'.fingerprints ≡ db.fingerprints
      pub count : n ≡ length staged

    pub replace_source_slice-IsReplaced :
        (fails : Bool) (label : Option Text) (staged : List (Labelled Row)) (db db' : Store Row)
        (n : ℕ)
        → replace_source_slice target refuses u digest fromisoformat fails label staged db
          ≡ some (db', n)
        → IsReplaced label staged db db' n
    unfolding replace_source_slice
    replace_source_slice-IsReplaced fails label staged db db' n e = elim (Option-cases db.target) [
      | inl missing ↦ absurd (ground arith)
      | inr (t, there) ↦
          elim (Option-cases
            (cut_slice target refuses u digest fromisoformat label db.catalogue t)) [
              | inl bad ↦ absurd (ground arith)
              | inr ((cat, rows), good) ↦
                  elim (Bool-cases (
                    fails
                    || (t.partitioned
                        && not (all (λ row. has_place target cat row.source) staged)))) [
                          | inl refused ↦ absurd (ground arith)
                          | inr accepted ↦
                              let new : Store Row = record db {
                                target = some (record t { rows = rows ++ staged });
                                catalogue = cat;
                              } in
                              let is : new ≡ db' = ground arith in
                              let counted : length staged ≡ n = ground arith in
                              record {
                                table = t;
                                rows = rows;
                                there = there;
                                cut = good ∙ ap (λ (x : Store Row). some (x.catalogue, rows)) is;
                                target_is = sym (ap (λ (x : Store Row). x.target) is);
                                marks_are = sym (ap (λ (x : Store Row). x.fingerprints) is);
                                count = sym counted;
                              }
                        ]
            ]
    ]
