-- ===== src/Target/Snapshot/Counts.antt =====
-- What the counts of `diff` say of the two tables and of the keys that `changed_keys` brings.
use dbextractors.Base.{
  ℕ, ◌+◌, ◌≡◌, refl, Bool, true, false, ◌&&◌, ◌||◌, not, Option, none, some, List, [], ◌∷◌, ◌++◌,
  map, arith, Eq, keep, is_none, length, flatten, All, inl, inr, Bool-cases,
}
use dbextractors.Target.Sql.{sql_eq, is_distinct, count}
use dbextractors.Target.Snapshot.{
  Entry, joined, left_join, is_added, differs, diff, changed_cursor, changed_keys,
}
use dbextractors.Target.Snapshot.Batches.{IsBatch, fill_batches-Cuts}

module _ {R : Type 0} (new other : R → Bool) where
  count_parts :
      (rows : List R)
      → count new rows
          + count (λ r. not (new r) && other r) rows
          + count (λ r. not (new r) && not (other r)) rows
        ≡ length rows
  count_parts [] = omega arith
  count_parts (r ∷ rows) = ground (arith, count_parts rows)

  count_kept :
      {B : Type 0} (f : R → B) (rows : List R)
      → length (map f (keep (λ r. new r || other r) rows))
        ≡ count new rows + count (λ r. not (new r) && other r) rows
  count_kept f [] = omega arith
  count_kept f (r ∷ rows) = ground (arith, count_kept f rows)

module _ {R : Type 0} (p : R → Bool) where
  count-append : (xs ys : List R) → count p (xs ++ ys) ≡ count p xs + count p ys
  count-append [] ys = omega arith
  count-append (x ∷ xs) ys = ground (arith, count-append xs ys)

  count_none : (x : R) (xs : List R) → count p (x ∷ xs) ≡ 0 → p x ≡ false
  count_none x xs h = ground arith

module _ {K H : Type 0} ⦃k : Eq K⦄ ⦃h : Eq H⦄ where
  abbrev brought : ℕ → List (Entry K H) → List (Entry K H) → List (Option K)
  brought batch_size snapshot target = flatten (changed_keys batch_size snapshot target)

  -- The three counts partition the joined rows, and the batches of keys bring one key for each added
  -- and each changed row: none of them is empty, none longer than the batch size or 1.
  pub changed_keys-diff :
      (batch_size : ℕ) (snapshot target : List (Entry K H))
      → let d = diff snapshot target in
        (d.added + d.changed + d.matched ≡ d.source_rows)
        × (length (flatten (changed_keys batch_size snapshot target)) ≡ d.added + d.changed)
        × All (λ b. IsBatch batch_size b) (changed_keys batch_size snapshot target)
  unfolding diff changed_keys changed_cursor
  changed_keys-diff batch_size snapshot target =
      let rows = left_join snapshot target in
      let (whole, sizes) =
        fill_batches-Cuts batch_size (changed_cursor snapshot target) [] (omega arith) in
      (
        count_parts is_added differs rows,
        rw whole (count_kept is_added differs (λ r. (r.0).key) rows),
        sizes,
      )

  -- The target has a row of this key, with this hash or with none where this is none.
  abbrev pub holds : List (Entry K H) → Entry K H → Bool
  holds [] s = false
  holds (t ∷ target) s = (sql_eq t.key s.key && not (is_distinct t.hash s.hash)) || holds target s

  abbrev is_changed : Entry K H × Option (Entry K H) → Bool
  is_changed r = not (is_added r) && differs r

  -- A matching row that is neither added nor changed.
  matching_holds :
      (s t : Entry K H)
      → sql_eq t.key s.key ≡ true
      → is_changed (s, some t) ≡ false
      → is_distinct t.hash s.hash ≡ false
  unfolding is_added differs
  matching_holds s t same unchanged = go t.key s.key same unchanged
    where
      go :
          (a b : Option K)
          → sql_eq a b ≡ true
          → (not (is_none a) && is_distinct t.hash s.hash) ≡ false
          → is_distinct t.hash s.hash ≡ false
      go none b e f = absurd cc
      go (some x) b e f = f

  joined-holds :
      (s : Entry K H) (target : List (Entry K H))
      → count is_added (joined s (keep (λ t. sql_eq t.key s.key) target)) ≡ 0
      → count is_changed (joined s (keep (λ t. sql_eq t.key s.key) target)) ≡ 0
      → holds target s ≡ true
  joined-holds s [] a c = absurd (unfold is_added in omega (arith, a))
  joined-holds s (t ∷ target) a c = elim (Bool-cases (sql_eq t.key s.key)) [
    | inl same ↦
        rw (same, matching_holds s t same (count_none is_changed (s, some t) _ (rw same at c))) refl
    | inr other ↦ rw other (joined-holds s target (rw other at a) (rw other at c))
  ]

  every_held :
      (snapshot target : List (Entry K H))
      → count is_added (left_join snapshot target) ≡ 0
      → count is_changed (left_join snapshot target) ≡ 0
      → All (λ s. holds target s ≡ true) snapshot
  unfolding left_join
  every_held [] target a c = tt
  every_held (s ∷ snapshot) target a c =
      let xs = joined s (keep (λ t. sql_eq t.key s.key) target) in
      let a' = count-append is_added xs (left_join snapshot target) in
      let c' = count-append is_changed xs (left_join snapshot target) in
      (
        joined-holds s target (omega (arith, a, a')) (omega (arith, c, c')),
        every_held snapshot target (omega (arith, a, a')) (omega (arith, c, c')),
      )

  -- Where the difference has nothing to download, the target has every source row's key and hash.
  pub diff-holds :
      (snapshot target : List (Entry K H))
      → (diff snapshot target).added ≡ 0
      → (diff snapshot target).changed ≡ 0
      → All (λ s. holds target s ≡ true) snapshot
  unfolding diff
  diff-holds snapshot target no_added no_changed = every_held snapshot target no_added no_changed
