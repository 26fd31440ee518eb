-- ===== src/Target/Sql.antt =====
-- What the statements of src/dbextractors/core/target_pg.py use of SQL: NULL in comparisons, and an
-- UPDATE with its row count.
use dbextractors.Base.{ℕ, ◌+◌, Bool, true, false, Option, none, some, List, [], ◌∷◌}
use dbextractors.Base.{Eq, ◌==◌, not, if◌then◌else◌}

-- `a = b` in a WHERE: NULL equals nothing.
abbrev pub sql_eq {ℓ} : {A : Type ℓ} ⦃e : Eq A⦄ → Option A → Option A → Bool
sql_eq none b = false
sql_eq (some a) none = false
sql_eq (some a) (some b) = a == b

-- `a IS DISTINCT FROM b`: NULL is one more value.
abbrev pub is_distinct {ℓ} : {A : Type ℓ} ⦃e : Eq A⦄ → Option A → Option A → Bool
is_distinct none none = false
is_distinct none (some b) = true
is_distinct (some a) none = true
is_distinct (some a) (some b) = not (a == b)

-- `col IS TRUE` and `col IS FALSE`
abbrev pub is_true : Option Bool → Bool
is_true (some true) = true
is_true _ = false

abbrev pub is_false : Option Bool → Bool
is_false (some false) = true
is_false _ = false

module _ {ℓ} {R : Type ℓ} where
  -- The rows after an UPDATE, and how many it touched.
  abbrev pub update : (R → Bool) → (R → R) → List R → List R × ℕ
  update test change [] = ([], 0)
  update test change (r ∷ rows) =
      let (rows', n) = update test change rows in
      if test r then (change r ∷ rows', n + 1) else (r ∷ rows', n)

  abbrev pub count : (R → Bool) → List R → ℕ
  count test [] = 0
  count test (r ∷ rows) = if test r then count test rows + 1 else count test rows
