-- ===== src/Naming/Columns/Distinct.antt =====
-- The loop of `target_column_names` over the sources: every name once, or the two that collide.
use dbextractors.Base.{
  ◌≡◌, refl, sym, ap, subst, ◌∙◌, true, false, none, some, List, [], ◌∷◌, ◌++◌, map, arith, inl,
  inr, append_assoc, append-nil,
}
use dbextractors.Base.{
  Text, text_Eq, text_beq_iff, contains, NodupList, NodupList-snoc, contains-append, beq_refl,
  is_some, Option-cases, Bool-cases, ◌==◌,
}
use dbextractors.Naming.Unicode.{Unicode}
use dbextractors.Naming.Mapping.{create_column_mapping, normalise}
use dbextractors.Naming.Reserved.{clean_column_name}
use dbextractors.Naming.Columns.{
  Dictionary, get, Columns, Named, named, column_name_collision, key_error, add, add_sources,
}

-- The origins know exactly the names in order, and no name is there twice.
pub record IsConsistent (cols : Columns) : Type 0 where
  pub known : (t : Text) → is_some (get t cols.origin) ≡ contains t cols.ordered
  pub distinct : NodupList cols.ordered

add-known :
    (target name t : Text) (d : Dictionary) (xs : List Text)
    → is_some (get t d) ≡ contains t xs
    → is_some (get t ((target, name) ∷ d)) ≡ contains t (xs ++ target ∷ [])
add-known target name t d xs h = ground (arith, contains-append t xs (target ∷ []))

pub add-IsConsistent :
    (target name : Text) (cols : Columns)
    → IsConsistent cols
    → is_some (get target cols.origin) ≡ false
    → IsConsistent (add target name cols)
unfolding add
add-IsConsistent target name cols c fresh = record {
  known = λ t. add-known target name t cols.origin cols.ordered (c.known t);
  distinct = NodupList-snoc cols.ordered target c.distinct (sym (c.known target) ∙ fresh);
}

-- A name that comes again after a list that has it.
twice-NodupList :
    (t : Text) (xs ys : List Text) → contains t xs ≡ true → NodupList (xs ++ t ∷ ys) → ⊥
twice-NodupList t [] ys h n = absurd cc
twice-NodupList t (x ∷ xs) ys h (fresh, n) = ground (
  arith,
  twice-NodupList t xs ys,
  contains-append x xs (t ∷ ys),
  text_beq_iff x t,
  text_beq_iff t x,
)

module _ (u : Unicode) where
  -- The name of a source column in the target.
  abbrev pub target_of : Text → Text
  target_of s = clean_column_name u false (normalise u s)

  pub get-create_column_mapping :
      (s : Text) (src : List Text)
      → contains s src ≡ true
      → get s (create_column_mapping u src) ≡ some (normalise u s)
  unfolding create_column_mapping
  get-create_column_mapping s [] h = absurd cc
  get-create_column_mapping s (c ∷ src) h = elim (Bool-cases (c == s)) [
    | inl same ↦ rw same (ap (λ x. some (normalise u x)) ((text_beq_iff c s).0 same))
    | inr other ↦ rw other (get-create_column_mapping s src (ground arith))
  ]

  -- The origins of the sources that were looked at.
  abbrev HasSources : List Text → Columns → Type 0
  HasSources done cols =
      (t p : Text) → get t cols.origin ≡ some p → (target_of p ≡ t) × (contains p done ≡ true)

  add-HasSources :
      (done : List Text) (s : Text) (cols : Columns)
      → HasSources done cols
      → HasSources (done ++ s ∷ []) (add (target_of s) s cols)
  unfolding add
  add-HasSources done s cols h t p e = ground (
    arith,
    h t p,
    contains-append p done (s ∷ []),
    text_beq_iff (target_of s) t,
    text_beq_iff s p,
  )

  -- The first repetition of a name: `s` has the name of `p`, which stands before it, and all before
  -- `s` have different names.
  pub record Collides (src : List Text) (p s t : Text) : Type 0 where
    pub done : List Text
    pub rest : List Text
    pub split : src ≡ done ++ s ∷ rest
    pub earlier : contains p done ≡ true
    pub first : NodupList (map target_of done)
    pub name_of_p : target_of p ≡ t
    pub name_of_s : target_of s ≡ t
    pub twice : NodupList (map target_of src) → ⊥

  -- What the loop over the sources answers, with those done before.
  abbrev pub SourcesAnswer : List Text → Named Columns → Type 0
  SourcesAnswer src (named cols) = IsConsistent cols × (cols.ordered ≡ map target_of src)
  SourcesAnswer src (column_name_collision p s t) = Collides src p s t
  SourcesAnswer src (key_error s) = ⊥

  map_target-snoc :
      (done : List Text) (s : Text) (rest : List Text)
      → map target_of (done ++ s ∷ rest) ≡ map target_of done ++ target_of s ∷ map target_of rest
  map_target-snoc [] s rest = refl
  map_target-snoc (d ∷ done) s rest = ap (λ x. target_of d ∷ x) (map_target-snoc done s rest)

  add_sources_fresh :
      (mapping : Dictionary) (s name : Text) (rest : List Text) (cols : Columns)
      → get s mapping ≡ some name
      → get (clean_column_name u false name) cols.origin ≡ none
      → add_sources u mapping (s ∷ rest) cols
        ≡ add_sources u mapping rest (add (clean_column_name u false name) s cols)
  unfolding add_sources
  add_sources_fresh mapping s name rest cols e f = ground arith

  add_sources_clash :
      (mapping : Dictionary) (s p name : Text) (rest : List Text) (cols : Columns)
      → get s mapping ≡ some name
      → get (clean_column_name u false name) cols.origin ≡ some p
      → add_sources u mapping (s ∷ rest) cols
        ≡ column_name_collision p s (clean_column_name u false name)
  unfolding add_sources
  add_sources_clash mapping s p name rest cols e f = ground arith

  pub add_sources-answer :
      (mapping : Dictionary) (src done rest : List Text) (cols : Columns)
      → ((s : Text) → contains s src ≡ true → get s mapping ≡ some (normalise u s))
      → src ≡ done ++ rest
      → IsConsistent cols
      → HasSources done cols
      → cols.ordered ≡ map target_of done
      → SourcesAnswer src (add_sources u mapping rest cols)
  unfolding add_sources
  add_sources-answer mapping src done [] cols m e c h o =
      (c, o ∙ ap (λ x. map target_of x) (sym (e ∙ append-nil done)))
  add_sources-answer mapping src done (s ∷ rest) cols m e c h o =
      elim (Option-cases (get (target_of s) cols.origin)) [
        | inl fresh ↦
            subst (SourcesAnswer src)
              (sym (add_sources_fresh mapping s (normalise u s) rest cols (m s in_src) fresh))
              (add_sources-answer mapping src (done ++ s ∷ []) rest (add (target_of s) s cols) m
                (e ∙ sym (append_assoc done (s ∷ []) rest))
                (add-IsConsistent (target_of s) s cols c (rw fresh refl))
                (add-HasSources done s cols h)
                (unfold add in ap (λ x. x ++ target_of s ∷ []) o ∙ sym (map_target-snoc done s [])))
        | inr (p, clash) ↦
            let known : contains (target_of s) (map target_of done) ≡ true =
              rw (← o) (sym (c.known (target_of s)) ∙ rw clash refl) in
            subst (SourcesAnswer src)
              (sym (add_sources_clash mapping s p (normalise u s) rest cols (m s in_src) clash))
              (record {
                done = done;
                rest = rest;
                split = e;
                earlier = (h (target_of s) p clash).1;
                first = rw (← o) c.distinct;
                name_of_p = (h (target_of s) p clash).0;
                name_of_s = refl;
                twice =
                    rw (e, map_target-snoc)
                      (twice-NodupList (target_of s) (map target_of done) (map target_of rest)
                        known);
              })
      ]
    where
      in_src : contains s src ≡ true
      in_src = rw (e, contains-append) (ground (arith, beq_refl s))
