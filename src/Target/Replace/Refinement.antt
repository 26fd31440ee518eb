-- ===== src/Target/Replace/Refinement.antt =====
-- Over staged rows with distinct keys, `replace_by_key` does what the upsert does.
use dbextractors.Base.{
  ℕ, ◌≡◌, refl, sym, subst, ◌∙◌, Bool, true, false, ◌&&◌, not, Option, none, some, [], ◌∷◌, ◌++◌,
  arith, keep, leb, length, nat_eq, nat_eq_iff, if◌then◌else◌, Bool-cases, Option-cases, inl, inr,
}
use dbextractors.Target.Table.{
  Table, find, put, put_all, has_key, has_duplicate, upsert_from_staging,
}
use dbextractors.Target.Table.Laws.{find-put}
use dbextractors.Target.Replace.{key_range, to_delete, delete_staged, replace_by_key}

module _ {ℓ} {V : Type ℓ} where
  -- The first of two tables that has the key.
  abbrev first_of : Option V → Option V → Option V
  first_of none b = b
  first_of (some a) b = some a

  find-append : (j : ℕ) (s t : Table V) → find j (s ++ t) ≡ first_of (find j s) (find j t)
  unfolding find
  find-append j [] t = refl
  find-append j ((k, v) ∷ s) t = ground (arith, find-append j s t)

  find_absent : (j : ℕ) (s : Table V) → has_key j s ≡ false → find j s ≡ none
  unfolding find
  find_absent j [] h = refl
  find_absent j ((k, v) ∷ s) h = ground (arith, find_absent j s)

  find_present :
      (j : ℕ) (s : Table V) (o : Option V) → has_key j s ≡ true → first_of (find j s) o ≡ find j s
  unfolding find
  find_present j [] o h = absurd cc
  find_present j ((k, v) ∷ s) o h = ground (arith, find_present j s o)

  find-put_all :
      (j : ℕ) (t staging : Table V)
      → has_duplicate staging ≡ false
      → find j (put_all t staging) ≡ first_of (find j staging) (find j t)
  unfolding put_all has_duplicate find
  find-put_all j t [] d = refl
  find-put_all j t ((k, v) ∷ rows) d =
      let rest = find-put_all j (put k v t) rows (ground arith) in
      elim (Bool-cases (nat_eq k j)) [
        | inl same ↦
            let fresh : has_key k rows ≡ false = ground arith in
            let absent = find_absent j rows (rw (← (nat_eq_iff k j).0 same) fresh) in
            rest ∙ rw (find-put, absent, same) refl
        | inr other ↦ rest ∙ rw (find-put, other) refl
      ]

  range_none : (j : ℕ) (staging : Table V) → key_range staging ≡ none → has_key j staging ≡ false
  unfolding key_range
  range_none j [] e = refl
  range_none j ((k, v) ∷ staging) e = elim (Option-cases (key_range staging)) [
    | inl empty ↦ absurd (ground arith)
    | inr (range, some_range) ↦ absurd (ground arith)
  ]

  -- Every staged key lies in the range.
  in_range :
      (j lo hi : ℕ) (staging : Table V)
      → has_key j staging ≡ true
      → key_range staging ≡ some (lo, hi)
      → (leb lo j && leb j hi) ≡ true
  unfolding key_range
  in_range j lo hi [] h e = absurd cc
  in_range j lo hi ((k, v) ∷ staging) h e = elim (Option-cases (key_range staging)) [
    | inl empty ↦ ground (arith, range_none j staging empty)
    | inr ((a, b), range) ↦ ground (arith, in_range j a b staging)
  ]

  -- The DELETE takes away exactly the rows whose key is staged.
  find-keep :
      (j : ℕ) (p : ℕ × V → Bool) (b : Bool) (t : Table V)
      → ((v : V) → p (j, v) ≡ b)
      → find j (keep p t) ≡ (if b then find j t else none)
  unfolding find
  find-keep j p b [] h = ground arith
  find-keep j p b ((k, v) ∷ t) h = elim (Bool-cases (nat_eq k j)) [
    | inl same ↦
        let at : p (k, v) ≡ b = subst (λ i. p (i, v) ≡ b) (sym ((nat_eq_iff k j).0 same)) (h v) in
        let rest = find-keep j p b t h in ground arith
    | inr other ↦ let rest = find-keep j p b t h in ground arith
  ]

  swapped : (b : Bool) (o : Option V) → (if not b then o else none) ≡ (if b then none else o)
  swapped true o = refl
  swapped false o = refl

  delete_nothing : (staging t : Table V) → key_range staging ≡ none → delete_staged staging t ≡ t
  unfolding delete_staged
  delete_nothing staging t e = ground arith

  delete_range :
      (staging t : Table V) (low high : ℕ)
      → key_range staging ≡ some (low, high)
      → delete_staged staging t ≡ keep (λ row. not (to_delete staging low high row)) t
  unfolding delete_staged
  delete_range staging t low high e = ground arith

  find-delete_staged :
      (j : ℕ) (staging t : Table V)
      → find j (delete_staged staging t) ≡ (if has_key j staging then none else find j t)
  find-delete_staged j staging t = elim (Option-cases (key_range staging)) [
    | inl empty ↦ rw (delete_nothing staging t empty, range_none j staging empty) refl
    | inr ((low, high), range) ↦ rw (delete_range staging t low high range) (
        find-keep j (λ row. not (to_delete staging low high row)) (not (has_key j staging)) t
          (λ v. ground (arith, in_range j low high staging))
        ∙ swapped (has_key j staging) (find j t))
  ]

  none_last : (a : Option V) → first_of a none ≡ a
  none_last none = refl
  none_last (some v) = refl

  deleted_first :
      (j : ℕ) (staging t : Table V)
      → first_of (if has_key j staging then none else find j t) (find j staging)
        ≡ first_of (find j staging) (find j t)
  deleted_first j staging t = elim (Bool-cases (has_key j staging)) [
    | inl staged ↦ rw staged (sym (find_present j staging (find j t) staged))
    | inr other ↦ rw (other, find_absent j staging other) (none_last (find j t))
  ]

  -- Where the upsert does not fail, `replace_by_key` outside autocommit does not, counts the staged
  -- rows, and leaves under every key what the upsert leaves.
  pub replace_by_key-upsert :
      (staging t t' : Table V)
      → upsert_from_staging staging t ≡ some t'
      → (out : Table V) × (replace_by_key false staging t ≡ some (out, length staging))
        × ((j : ℕ) → find j out ≡ find j t')
  unfolding replace_by_key upsert_from_staging
  replace_by_key-upsert staging t t' h =
      let distinct : has_duplicate staging ≡ false = ground arith in
      let same : put_all t staging ≡ t' = ground arith in
      (
        delete_staged staging t ++ staging,
        refl,
        λ j.
            find-append j (delete_staged staging t) staging
            ∙ rw (find-delete_staged, ← same, find-put_all j t staging distinct)
                (deleted_first j staging t),
      )
