-- ===== src/Base/Decimal.antt =====
-- Python's `str` of a number that is not negative.
use Prim.Native.Nat.{ℕ, zero, suc, ◌+◌, ◌*◌, ◌/◌, ◌%◌, ◌-◌, ◌≤◌, ◌<◌}
use mathlib.Core.Path.{◌≡◌, refl, sym, ap, ◌∙◌}
use mathlib.Core.Logic.{inl, inr}
use mathlib.Core.Bool.{false}
use mathlib.Core.List.{[], ◌∷◌, ◌++◌}
use native.Mathlib.Omega.{arith}
use dbextractors.Base.Tests.{ltb, nat_eq, if◌then◌else◌, Bool-cases}
use dbextractors.Base.Lists.{All, All-append}
use dbextractors.Base.Equality.{Text}

-- The fuel bounds the number of digits; the number itself is enough.
unfoldable pub digits : ℕ → ℕ → Text
digits zero n = (b'0' + n % 10) ∷ []
digits (suc fuel) n =
    let rest = digits fuel (n / 10) in
    if ltb n 10 then (b'0' + n) ∷ [] else rest ++ (b'0' + n % 10) ∷ []

abbrev pub decimal : ℕ → Text
decimal n = digits n n

-- The number that the digits stand for.
abbrev pub read_digits : ℕ → Text → ℕ
read_digits acc [] = acc
read_digits acc (c ∷ s) = read_digits (acc * 10 + (c - b'0')) s

read_digits-snoc :
    (acc c : ℕ) (s : Text) → read_digits acc (s ++ c ∷ []) ≡ read_digits acc s * 10 + (c - b'0')
read_digits-snoc acc c [] = refl
read_digits-snoc acc c (d ∷ s) = read_digits-snoc (acc * 10 + (d - b'0')) c s

read_digits-digits : (fuel n : ℕ) → n ≤ fuel → read_digits 0 (digits fuel n) ≡ n
unfolding digits
read_digits-digits zero n h = omega arith
read_digits-digits (suc fuel) n h = elim (Bool-cases (ltb n 10)) [
  | inl small ↦ rw small (omega arith)
  | inr large ↦
      let ih = read_digits-digits fuel (n / 10) (ground arith) in
      let step = read_digits-snoc 0 (b'0' + n % 10) (digits fuel (n / 10)) in
      rw large (step ∙ ground (arith, ih))
]

pub decimal_injective : (n m : ℕ) → decimal n ≡ decimal m → n ≡ m
decimal_injective n m h =
    sym (read_digits-digits n n (omega arith))
    ∙ ap (read_digits 0) h
    ∙ read_digits-digits m m (omega arith)

-- No digit is the character.
pub decimal_avoids : (c fuel n : ℕ) → 57 < c → All (λ d. nat_eq d c ≡ false) (digits fuel n)
unfolding digits
decimal_avoids c zero n h = (ground arith, tt)
decimal_avoids c (suc fuel) n h = elim (Bool-cases (ltb n 10)) [
  | inl small ↦ rw small (ground arith, tt)
  | inr large ↦ rw large (
      All-append (λ d. nat_eq d c ≡ false) (digits fuel (n / 10)) _
        (decimal_avoids c fuel (n / 10) h) (ground arith, tt))
]
