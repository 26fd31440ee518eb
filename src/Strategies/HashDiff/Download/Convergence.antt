-- ===== src/Strategies/HashDiff/Download/Convergence.antt =====
-- After the changes are applied, no difference is left.
use dbextractors.Base.{
  ℕ, ◌+◌, ◌≡◌, refl, sym, ap, subst, ◌∙◌, true, false, ◌&&◌, ◌||◌, not, Option, none, some, List,
  [], ◌∷◌, arith, keep, flatten, map, nat_eq, nat_eq_iff, nat_Eq, Eq, if◌then◌else◌, inl, inr,
  Bool-cases, beq_refl, All, All-map, length,
}
use dbextractors.Target.Sql.{is_distinct, count}
use dbextractors.Target.Table.{Table, find, put_all, has_key, has_duplicate, upsert_from_staging}
use dbextractors.Target.Snapshot.{diff, changed_cursor, changed_keys, fill_batches}
use dbextractors.Target.Snapshot.Batches.{fill_batches-Cuts}
use dbextractors.Target.Snapshot.Counts.{changed_keys-diff}
use dbextractors.Strategies.HashDiff.Download.{
  Hashed, entries, in_keys, fetch, download, apply_changes,
}
use dbextractors.Strategies.HashDiff.Download.Fetched.{
  NoRepeat, find_no_key, has_key-fetch, find-fetch, has_duplicate-fetch,
}
use dbextractors.Strategies.HashDiff.Download.Upserted.{has_duplicate-put_all, find-put_all}
use dbextractors.Strategies.HashDiff.Download.Cursor.{stale, stale_keys, stale-NoRepeat}

no_length : {A : Type 0} (xs : List A) → length xs ≡ 0 → xs ≡ []
no_length [] h = refl
no_length (x ∷ xs) h = absurd (ground arith)

module _ {V : Type 0} where
  not_shadowed :
      (k : ℕ) (v : V) (s : Table V) (x : ℕ × V)
      → has_key k s ≡ false
      → find x.0 s ≡ some x.1
      → find x.0 ((k, v) ∷ s) ≡ some x.1
  unfolding find
  not_shadowed k v s x fresh e = elim (Bool-cases (nat_eq k x.0)) [
    | inl same ↦
        let is : k ≡ x.0 = (nat_eq_iff k x.0).0 same in
        let gone : find x.0 s ≡ none =
          find_no_key x.0 s (subst (λ n. has_key n s ≡ false) is fresh) in
        absurd (ground arith)
    | inr other ↦ rw other e
  ]

  -- Each row of a table with different keys is found in it by its key.
  own_rows : (s : Table V) → has_duplicate s ≡ false → All (λ r. find r.0 s ≡ some r.1) s
  unfolding has_duplicate
  own_rows [] u = tt
  own_rows ((k, v) ∷ s) u = (
    unfold find in rw (beq_refl k) refl,
    All-map (λ x e. not_shadowed k v s x (ground arith) e) s (own_rows s (ground arith)),
  )

module _ {H : Type 0} ⦃h : Eq H⦄ where
  same_hash : (a : Option H) → is_distinct a a ≡ false
  same_hash none = refl
  same_hash (some x) = ground (arith, beq_refl x)

module _ {H D : Type 0} ⦃h : Eq H⦄ where
  abbrev pub stale_of : Table (Hashed H D) → Table (Hashed H D) → List (Option ℕ)
  stale_of s t = map (λ r. some r.0) (keep (stale t) s)

  -- The key of a stale row is fetched.
  stale_fetched :
      (s t : Table (Hashed H D))
      → All (λ r. (not (stale t r) || in_keys r.0 (stale_of s t)) ≡ true) s
  stale_fetched [] t = tt
  stale_fetched ((k, r) ∷ s) t =
      (ground (arith, beq_refl k), All-map (λ x e. ground arith) s (stale_fetched s t))

  All-both :
      (P Q : ℕ × Hashed H D → Type 0) (s : Table (Hashed H D))
      → All P s
      → All Q s
      → All (λ r. P r × Q r) s
  All-both P Q [] p q = tt
  All-both P Q (r ∷ s) (pr, p) (qr, q) = ((pr, qr), All-both P Q s p q)

  none_stale : (s t : Table (Hashed H D)) → All (λ r. stale t r ≡ false) s → keep (stale t) s ≡ []
  none_stale [] t a = refl
  none_stale (r ∷ s) t (f, a) = ground (arith, none_stale s t)

  -- One key is fetched for each row that the difference counts.
  counted :
      (s t : Table (Hashed H D))
      → (diff (entries s) (entries t)).added + (diff (entries s) (entries t)).changed
        ≡ length (changed_cursor (entries s) (entries t))
  unfolding changed_keys
  counted s t =
      let (_, count, _) = changed_keys-diff 1 (entries s) (entries t) in
      let (whole, _) =
        fill_batches-Cuts 1 (changed_cursor (entries s) (entries t)) [] (omega arith) in
      sym count ∙ ap length whole

  nothing_fetched :
      (batch_size : ℕ) (s t : Table (Hashed H D))
      → changed_cursor (entries s) (entries t) ≡ []
      → put_all t (fetch (changed_keys batch_size (entries s) (entries t)) s) ≡ t
  unfolding changed_keys fill_batches fetch put_all
  nothing_fetched batch_size s t e = rw e refl

  module _ (batch_size : ℕ) (source target : Table (Hashed H D))
      (unique : has_duplicate source ≡ false) (keyed : has_duplicate target ≡ false) where
    abbrev batches : List (List (Option ℕ))
    batches = changed_keys batch_size (entries source) (entries target)

    abbrev staging : Table (Hashed H D)
    staging = fetch batches source

    abbrev after : Table (Hashed H D)
    after = put_all target staging

    batches_keys : flatten batches ≡ stale_of source target
    unfolding changed_keys
    batches_keys =
        (fill_batches-Cuts batch_size (changed_cursor (entries source) (entries target)) []
          (omega arith)).0
        ∙ stale_keys source target keyed

    staging_unique : has_duplicate staging ≡ false
    staging_unique =
        has_duplicate-fetch batches source
          (subst NoRepeat (sym batches_keys) (stale-NoRepeat source target unique)) unique

    download-after : download batch_size source target ≡ some after
    unfolding download upsert_from_staging
    download-after = rw staging_unique refl

    find-after :
        (k : ℕ)
        → find k after ≡ (
            if in_keys k (stale_of source target) && has_key k source
            then find k source
            else find k target)
    find-after k =
        let f = find-put_all k target staging staging_unique in
        let g = find-fetch k batches source in
        let g' = has_key-fetch k batches source in
        let same : in_keys k (flatten batches) ≡ in_keys k (stale_of source target) =
          ap (in_keys k) batches_keys in
        ground arith

    -- No row of the source is stale any more.
    settled :
        (r : ℕ × Hashed H D)
        → ((not (stale target r) || in_keys r.0 (stale_of source target)) ≡ true)
          × (find r.0 source ≡ some r.1)
        → stale after r ≡ false
    settled (k, r) (fetched, own) =
        let f = find-after k in
        let same = same_hash r.hash in
        elim (Bool-cases (has_key k source)) [
          | inl there ↦ elim (Bool-cases (in_keys k (stale_of source target))) [
            | inl brought ↦ let new : find k after ≡ some r = ground arith in ground arith
            | inr left ↦
                let old : find k after ≡ find k target = ground arith in
                let fine : stale target (k, r) ≡ false = ground arith in ground arith
          ]
          | inr gone ↦ let nothing = find_no_key k source gone in absurd (ground arith)
        ]

    settled-All : All (λ r. stale after r ≡ false) source
    settled-All = All-map settled source (
        All-both (λ r. (not (stale target r) || in_keys r.0 (stale_of source target)) ≡ true)
          (λ r. find r.0 source ≡ some r.1) source (stale_fetched source target)
          (own_rows source unique))

    -- Nothing is left to fetch.
    cursor_after : changed_cursor (entries source) (entries after) ≡ []
    cursor_after =
        stale_keys source after (has_duplicate-put_all target staging keyed)
        ∙ ap (map (λ r. some r.0)) (none_stale source after settled-All)

    apply_changes-after : apply_changes batch_size source target ≡ some after
    unfolding apply_changes
    apply_changes-after =
        let d = diff (entries source) (entries target) in
        elim (Bool-cases (nat_eq (d.added + d.changed) 0)) [
          | inl nothing ↦
              let none_fetched =
                no_length (changed_cursor (entries source) (entries target))
                  (sym (counted source target) ∙ (nat_eq_iff (d.added + d.changed) 0).0 nothing) in
              rw nothing (ap some (sym (nothing_fetched batch_size source target none_fetched)))
          | inr more ↦ rw more download-after
        ]

    -- Where the source and the target have each key once, the changes are applied without an exception:
    -- a row of the source that the target has not, or with another hash, is afterwards in the target
    -- as the source has it, and every other key of the target is as before. A second difference then
    -- counts no added and no changed row, and its query brings no key.
    pub apply_changes-diff :
        (t : Table (Hashed H D)) × ((apply_changes batch_size source target ≡ some t)
          × (((k : ℕ)
                → find k t ≡ (
                    if in_keys k (stale_of source target) && has_key k source
                    then find k source
                    else find k target))
              × (((diff (entries source) (entries t)).added
                      + (diff (entries source) (entries t)).changed
                    ≡ 0)
                  × (changed_cursor (entries source) (entries t) ≡ []))))
    apply_changes-diff = (
      after,
      (
        apply_changes-after,
        (find-after, (counted source after ∙ ap length cursor_after, cursor_after)),
      ),
    )
