-- ===== src/Base/Equality.antt =====
-- Text as code points, and Python's `==` and `in`, through an interface with instances.
use Prim.Native.Nat.{ℕ}
use Prim.Native.Char.{code}
use Prim.Native.String.{String}
use mathlib.Core.Path.{◌≡◌, refl}
use mathlib.Core.Logic.{◌↔◌}
use mathlib.Core.Bool.{Bool, true, false, ◌&&◌, ◌||◌}
use mathlib.Core.List.{List, [], ◌∷◌, ◌++◌}
use native.Mathlib.Omega.{arith}
use dbextractors.Base.Tests.{nat_eq, nat_eq_iff}

-- A text by its code points, where the program walks its characters.
abbrev pub Text : Type 0
Text = List ℕ

abbrev pub codes : String → Text
codes String.[] = []
codes (String.◌∷◌ c s) = code c ∷ codes s

abbrev pub text_beq : Text → Text → Bool
text_beq [] [] = true
text_beq [] (b ∷ t) = false
text_beq (a ∷ s) [] = false
text_beq (a ∷ s) (b ∷ t) = nat_eq a b && text_beq s t

pub text_beq_iff : (s t : Text) → (text_beq s t ≡ true) ↔ (s ≡ t)
text_beq_iff [] [] = (λ h. refl, λ h. refl)
text_beq_iff [] (b ∷ t) = ground arith
text_beq_iff (a ∷ s) [] = ground arith
text_beq_iff (a ∷ s) (b ∷ t) = ground (arith, text_beq_iff s t)

-- A type whose equality is decided by a test.
pub record Eq {ℓ} (E : Type ℓ) : Type ℓ where
  pub eq_test : E → E → Bool
  pub eq_test_iff : (x y : E) → (eq_test x y ≡ true) ↔ (x ≡ y)

instance abbrev pub text_Eq : Eq Text
text_Eq = record { eq_test = text_beq; eq_test_iff = text_beq_iff }

instance abbrev pub nat_Eq : Eq ℕ
nat_Eq = record { eq_test = nat_eq; eq_test_iff = nat_eq_iff }

infix 50 ◌==◌
abbrev pub ◌==◌ {ℓ} : {E : Type ℓ} ⦃d : Eq E⦄ → E → E → Bool
◌==◌ ⦃d⦄ x y = d.eq_test x y

module _ {ℓ} {A : Type ℓ} ⦃e : Eq A⦄ where
  -- `a in xs`
  abbrev pub contains : A → List A → Bool
  contains a [] = false
  contains a (x ∷ xs) = x == a || contains a xs

  abbrev pub NodupList : List A → Type 0
  NodupList [] = Unit
  NodupList (x ∷ xs) = (contains x xs ≡ false) × NodupList xs

module _ {ℓ} {A : Type ℓ} ⦃e : Eq A⦄ where
  pub beq_refl : (a : A) → (a == a) ≡ true
  beq_refl a = (e.eq_test_iff a a).1 refl

  pub contains-append :
      (a : A) (xs ys : List A) → contains a (xs ++ ys) ≡ (contains a xs || contains a ys)
  contains-append a [] ys = refl
  contains-append a (x ∷ xs) ys = ground (arith, contains-append a xs ys)

  pub NodupList-snoc :
      (xs : List A) (a : A) → NodupList xs → contains a xs ≡ false → NodupList (xs ++ a ∷ [])
  NodupList-snoc [] a h n = (refl, tt)
  NodupList-snoc (x ∷ xs) a (fresh, h) n = (
    ground (arith, contains-append x xs (a ∷ []), e.eq_test_iff a x, e.eq_test_iff x a),
    NodupList-snoc xs a h (ground arith),
  )
