-- ===== src/Target/Table/Laws.antt =====
-- Laws of upserts, and the key that `MAX` finds after them.
use Prim.Native.Nat.{max}
use dbextractors.Base.{ℕ, ◌≡◌, refl, Option, none, some, [], ◌∷◌, ◌++◌, arith, nat_eq}
use dbextractors.Base.{if◌then◌else◌}
use dbextractors.Target.Table.{Table, find, put, put_all, max_pk}

abbrev pub join_max : Option ℕ → ℕ → ℕ
join_max none k = k
join_max (some m) k = max m k

module _ {ℓ} {V : Type ℓ} where
  pub find-put :
      (j k : ℕ) (v : V) (t : Table V)
      → find j (put k v t) ≡ (if nat_eq k j then some v else find j t)
  unfolding find put
  find-put j k v [] = refl
  find-put j k v ((i, w) ∷ t) = ground (arith, find-put j k v t)

  pub put_all-append : (t xs ys : Table V) → put_all t (xs ++ ys) ≡ put_all (put_all t xs) ys
  unfolding put_all
  put_all-append t [] ys = refl
  put_all-append t ((k, v) ∷ xs) ys = put_all-append (put k v t) xs ys

  pub max_pk-put : (k : ℕ) (v : V) (t : Table V) → max_pk (put k v t) ≡ some (join_max (max_pk t) k)
  unfolding max_pk put
  max_pk-put k v [] = refl
  max_pk-put k v ((j, w) ∷ t) = ground (arith, max_pk-put k v t)
