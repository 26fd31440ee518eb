-- ===== src/Strategies/HashDiff/Download/Cursor.antt =====
-- The keys that are fetched are those of the rows that the target has not, or with another hash.
use dbextractors.Base.{
  ℕ, ◌≡◌, refl, ap, ◌∙◌, Bool, true, false, ◌||◌, Option, none, some, List, [], ◌∷◌, ◌++◌, arith,
  keep, map, nat_eq, nat_eq_iff, nat_Eq, Eq, if◌then◌else◌, inl, inr, Bool-cases, Option-cases,
}
use dbextractors.Target.Sql.{sql_eq, is_distinct}
use dbextractors.Target.Table.{Table, find, has_key, has_duplicate}
use dbextractors.Target.Snapshot.{Entry, joined, left_join, is_added, differs, changed_cursor}
use dbextractors.Strategies.HashDiff.Download.{Hashed, entries, in_keys}
use dbextractors.Strategies.HashDiff.Download.Fetched.{NoRepeat}

module _ {H : Type 0} ⦃h : Eq H⦄ where
  abbrev fetched_row : Entry ℕ H × Option (Entry ℕ H) → Bool
  fetched_row r = is_added r || differs r

  abbrev cursor_keys : List (Entry ℕ H × Option (Entry ℕ H)) → List (Option ℕ)
  cursor_keys rows = map (λ r. (r.0).key) (keep fetched_row rows)

  cursor_keys-append :
      (xs ys : List (Entry ℕ H × Option (Entry ℕ H)))
      → cursor_keys (xs ++ ys) ≡ cursor_keys xs ++ cursor_keys ys
  cursor_keys-append [] ys = refl
  cursor_keys-append (x ∷ xs) ys = ground (arith, cursor_keys-append xs ys)

module _ {H D : Type 0} ⦃h : Eq H⦄ where
  -- The row is not in the table, or with another hash.
  abbrev pub stale : Table (Hashed H D) → ℕ × Hashed H D → Bool
  stale t (k, r) = elim (find k t) [ none ↦ true | some r' ↦ is_distinct r'.hash r.hash ]

  no_match :
      (k : ℕ) (t : Table (Hashed H D))
      → has_key k t ≡ false
      → keep (λ x. sql_eq x.key (some k)) (entries t) ≡ []
  no_match k [] e = refl
  no_match k ((j, r) ∷ t) e = ground (arith, no_match k t)

  -- One entry matches where the table has the key once.
  matches :
      (k : ℕ) (t : Table (Hashed H D))
      → has_duplicate t ≡ false
      → keep (λ x. sql_eq x.key (some k)) (entries t)
        ≡ elim (find k t) [ none ↦ [] | some r ↦ record { key = some k; hash = r.hash } ∷ [] ]
  unfolding find has_duplicate
  matches k [] e = refl
  matches k ((j, r) ∷ t) e = elim (Bool-cases (nat_eq j k)) [
    | inl same ↦
        let is : j ≡ k = (nat_eq_iff j k).0 same in
        let later : has_key k t ≡ false = rw (← is) (ground arith) in
        let rest = no_match k t later in
        rw (same, rest) (ap (λ n. record { key = some n; hash = r.hash } ∷ []) is)
    | inr other ↦ ground (arith, matches k t)
  ]

  -- The rows that the LEFT JOIN gives for one row of the source.
  one_row :
      (k : ℕ) (r : Hashed H D) (t : Table (Hashed H D))
      → has_duplicate t ≡ false
      → cursor_keys (
          joined
            (record { key = some k; hash = r.hash })
            (keep (λ x. sql_eq x.key (some k)) (entries t)))
        ≡ (if stale t (k, r) then some k ∷ [] else [])
  unfolding is_added differs
  one_row k r t u = elim (Option-cases (find k t)) [
    | inl absent ↦
        let m : keep (λ x. sql_eq x.key (some k)) (entries t) ≡ [] =
          matches k t u ∙ rw absent refl in
        rw m (ground arith)
    | inr (r', there) ↦
        let m : keep (λ x. sql_eq x.key (some k)) (entries t)
            ≡ record { key = some k; hash = r'.hash } ∷ [] =
          matches k t u ∙ rw there refl in
        rw m (ground arith)
  ]

  pub stale_keys :
      (s t : Table (Hashed H D))
      → has_duplicate t ≡ false
      → changed_cursor (entries s) (entries t) ≡ map (λ r. some r.0) (keep (stale t) s)
  unfolding changed_cursor left_join
  stale_keys [] t u = refl
  stale_keys ((k, r) ∷ s) t u =
      let rest = stale_keys s t u in
      cursor_keys-append
        (joined (record { key = some k; hash = r.hash })
          (keep (λ x. sql_eq x.key (some k)) (entries t)))
        (left_join (entries s) (entries t))
      ∙ rw (one_row k r t u, rest) (ground arith)

  -- The keys of different rows are different.
  pub in_stale :
      (k : ℕ) (s t : Table (Hashed H D))
      → has_key k s ≡ false
      → in_keys k (map (λ r. some r.0) (keep (stale t) s)) ≡ false
  in_stale k [] t e = refl
  in_stale k ((j, r) ∷ s) t e = ground (arith, in_stale k s t)

  pub stale-NoRepeat :
      (s t : Table (Hashed H D))
      → has_duplicate s ≡ false
      → NoRepeat (map (λ r. some r.0) (keep (stale t) s))
  unfolding has_duplicate
  stale-NoRepeat [] t e = tt
  stale-NoRepeat ((k, r) ∷ s) t e = elim (Bool-cases (stale t (k, r))) [
    | inl old ↦ rw old (in_stale k s t (ground arith), stale-NoRepeat s t (ground arith))
    | inr fine ↦ rw fine (stale-NoRepeat s t (ground arith))
  ]
