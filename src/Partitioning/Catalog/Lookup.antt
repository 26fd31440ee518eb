-- ===== src/Partitioning/Catalog/Lookup.antt =====
-- Names of short tables, and what a new table changes in the catalogue.
use dbextractors.Base.{
  ◌+◌, ◌≤◌, ◌≡◌, refl, ap, ◌∙◌, false, none, some, List, [], ◌∷◌, ◌++◌, arith, Text, text_Eq,
  text_beq_iff, ◌==◌, length, length-append, codes, ltb, inl, inr, Bool-cases, ◌⊎◌, beq_refl,
}
use dbextractors.Partitioning.Names.{fit, max_identifier_length}
use dbextractors.Partitioning.Catalog.{Relation, Catalogue, relation}

abbrev rest : {A : Type 0} → List A → List A
rest [] = []
rest (x ∷ xs) = xs

pub append-cancel : {A : Type 0} (xs ys zs : List A) → xs ++ ys ≡ xs ++ zs → ys ≡ zs
append-cancel [] ys zs e = e
append-cancel (x ∷ xs) ys zs e = append-cancel xs ys zs (ap rest e)

module _ (digest : Text → Text) (table suffix seed : Text) where
  -- A name that fits is not shortened.
  pub fit_whole :
      length table + length suffix ≤ 61
      → fit digest table suffix seed ≡ table ++ codes "__" ++ suffix
  unfolding fit
  fit_whole h =
      let all = length-append (table ++ codes "__") suffix in
      let first = length-append table (codes "__") in
      let whole : ltb max_identifier_length (length (table ++ codes "__" ++ suffix)) ≡ false =
        ground (arith, all, first) in
      rw whole refl

-- A new table is found by its name; what is found by another is as before.
pub relation_cases :
    (n : Text) (r : Relation) (cat : Catalogue)
    → ((r.name ≡ n) × (relation n (r ∷ cat) ≡ some r)) ⊎ (relation n (r ∷ cat) ≡ relation n cat)
unfolding relation
relation_cases n r cat = elim (Bool-cases (r.name == n)) [
  | inl same ↦ inl ((text_beq_iff r.name n).0 same, rw same refl)
  | inr other ↦ inr (rw other refl)
]

pub relation_head : (r : Relation) (cat : Catalogue) → relation r.name (r ∷ cat) ≡ some r
unfolding relation
relation_head r cat = rw (beq_refl r.name) refl

-- A table whose name is free replaces no other.
pub relation_kept :
    (n : Text) (r r' : Relation) (cat : Catalogue)
    → relation r.name cat ≡ none
    → relation n cat ≡ some r'
    → relation n (r ∷ cat) ≡ some r'
relation_kept n r r' cat free e = elim (relation_cases n r cat) [
  | inl (same, _) ↦ let e' : relation r.name cat ≡ some r' = rw same e in ground arith
  | inr before ↦ before ∙ e
]
