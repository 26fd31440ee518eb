-- ===== src/Naming/Columns/Answer.antt =====
-- What `target_column_names` answers, with the generated columns.
use dbextractors.Base.{
  ◌≡◌, refl, sym, subst, ◌∙◌, true, false, Option, none, some, List, [], ◌∷◌, ◌++◌, map, arith, inl,
  inr, append_assoc, append-nil,
}
use dbextractors.Base.{
  Text, text_Eq, text_beq_iff, contains, NodupList, contains-append, beq_refl, if◌then◌else◌,
  is_empty, is_some, Bool-cases, ◌==◌,
}
use dbextractors.Naming.Unicode.{Unicode}
use dbextractors.Naming.Mapping.{create_column_mapping, normalise}
use dbextractors.Naming.Reserved.{clean_column_name}
use dbextractors.Naming.Columns.{
  get, Columns, no_columns, Named, named, column_name_collision, key_error, add, add_sources,
  add_generated, hash_names, generate, continue, target_column_names,
}
use dbextractors.Naming.Columns.Distinct.{
  IsConsistent, Collides, add-IsConsistent, target_of, SourcesAnswer, add_sources-answer,
  get-create_column_mapping,
}

module _ (u : Unicode) where
  abbrev clean : Text → Text
  clean n = clean_column_name u false n

  -- A list of names that grew by some of the asked ones, and has them all.
  pub record Extends (names before after : List Text) : Type 0 where
    pub more : List Text
    pub grown : after ≡ before ++ more
    pub asked : (m : Text) → contains m more ≡ true → contains m (map clean names) ≡ true
    pub present : (m : Text) → contains m (map clean names) ≡ true → contains m after ≡ true

  skip-Extends :
      (name : Text) (names before after : List Text)
      → contains (clean name) before ≡ true
      → Extends names before after
      → Extends (name ∷ names) before after
  skip-Extends name names before after h x = record {
    more = x.more;
    grown = x.grown;
    asked = λ m k. ground (arith, x.asked m);
    present = λ m k. elim (Bool-cases (clean name == m)) [
      | inl same ↦
          rw (← (text_beq_iff (clean name) m).0 same) (rw (x.grown, contains-append) (rw h refl))
      | inr other ↦ x.present m (ground arith)
    ];
  }

  grow-Extends :
      (name : Text) (names : List Text) (cols : Columns) (after : List Text)
      → Extends names (add (clean name) name cols).ordered after
      → Extends (name ∷ names) cols.ordered after
  unfolding add
  grow-Extends name names cols after x = record {
    more = clean name ∷ x.more;
    grown = x.grown ∙ append_assoc cols.ordered (clean name ∷ []) x.more;
    asked = λ m k. ground (arith, x.asked m);
    present = λ m k. elim (Bool-cases (clean name == m)) [
      | inl same ↦
          rw (← (text_beq_iff (clean name) m).0 same)
            (rw (x.grown, contains-append, contains-append) (ground (arith, beq_refl (clean name))))
      | inr other ↦ x.present m (ground arith)
    ];
  }

  add_generated_there :
      (name : Text) (names : List Text) (cols : Columns)
      → is_some (get (clean name) cols.origin) ≡ true
      → add_generated u (name ∷ names) cols ≡ add_generated u names cols
  unfolding add_generated
  add_generated_there name names cols h = rw h refl

  add_generated_fresh :
      (name : Text) (names : List Text) (cols : Columns)
      → is_some (get (clean name) cols.origin) ≡ false
      → add_generated u (name ∷ names) cols ≡ add_generated u names (add (clean name) name cols)
  unfolding add_generated
  add_generated_fresh name names cols h = rw h refl

  abbrev Grows : List Text → Columns → Columns → Type 0
  Grows names before after = Extends names before.ordered after.ordered × IsConsistent after

  add_generated-Grows :
      (names : List Text) (cols : Columns)
      → IsConsistent cols
      → Grows names cols (add_generated u names cols)
  add_generated-Grows [] cols c =
      unfold add_generated in
      (record { more = []; grown = sym (append-nil _); asked = λ m k. cc; present = λ m k. cc }, c)
  add_generated-Grows (name ∷ names) cols c =
      elim (Bool-cases (is_some (get (clean name) cols.origin))) [
        | inl there ↦
            let (x, c') = add_generated-Grows names cols c in
            subst (Grows (name ∷ names) cols) (sym (add_generated_there name names cols there))
              (skip-Extends name names _ _ (sym (c.known (clean name)) ∙ there) x, c')
        | inr fresh ↦
            let (x, c') =
              add_generated-Grows names (add (clean name) name cols)
                (add-IsConsistent (clean name) name cols c fresh) in
            subst (Grows (name ∷ names) cols) (sym (add_generated_fresh name names cols fresh))
              (grow-Extends name names cols _ x, c')
      ]

  -- The generated columns that a call asks for, by their names before the cleaning.
  abbrev pub generated : Option Text → List Text → List Text
  generated none metadata = metadata
  generated (some h) metadata = if is_empty h then metadata else normalise u h ∷ metadata

  hash_names-generated :
      (cols : Columns) (hash : Option Text) (metadata : List Text)
      → generate u metadata cols (hash_names u hash)
        ≡ named (add_generated u (generated hash metadata) cols).ordered
  unfolding hash_names create_column_mapping
  hash_names-generated cols none metadata = refl
  hash_names-generated cols (some []) metadata = refl
  hash_names-generated cols (some (c ∷ h)) metadata = rw (beq_refl (c ∷ h)) refl

  -- The names of an answer, or why there are none.
  abbrev pub Answers : List Text → List Text → Named (List Text) → Type 0
  Answers src asked (named names) =
      NodupList names
      × Extends asked (map (target_of u) src) names
      × NodupList (map (target_of u) src)
  Answers src asked (column_name_collision p s t) = Collides u src p s t
  Answers src asked (key_error s) = ⊥

  continue-Answers :
      (src : List Text) (hash : Option Text) (metadata : List Text) (r : Named Columns)
      → SourcesAnswer u src r
      → Answers src
          (generated hash metadata)
          (continue u r (λ cols. generate u metadata cols (hash_names u hash)))
  continue-Answers src hash metadata (named cols) (c, o) =
      rw (hash_names-generated cols hash metadata) (
        let (x, c') = add_generated-Grows (generated hash metadata) cols c in
        (c'.distinct, rw (← o) x, rw (← o) c.distinct))
  continue-Answers src hash metadata (column_name_collision p s t) a = a
  continue-Answers src hash metadata (key_error s) a = a

  -- The names of the target's columns: no name twice, the sources' names first and in their order,
  -- then the generated columns that the sources do not have, and all of these; and this whenever the
  -- sources' names differ. A collision is the first repetition of
  -- a name: it names a source, an earlier one, and the name that they share, and those before that
  -- source have different names; and it is answered only where the sources' names do not differ. No
  -- lookup of a name fails.
  pub target_column_names-Answers :
      (src : List Text) (hash : Option Text) (metadata : List Text)
      → Answers src (generated hash metadata) (target_column_names u src hash metadata)
  unfolding target_column_names
  target_column_names-Answers src hash metadata =
      continue-Answers src hash metadata
        (add_sources u (create_column_mapping u src) src no_columns)
        (add_sources-answer u (create_column_mapping u src) src [] src no_columns
          (λ s h. get-create_column_mapping u s src h) refl
          (record { known = λ t. refl; distinct = tt }) (λ t p h. cc) refl)
