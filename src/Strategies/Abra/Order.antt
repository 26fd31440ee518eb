-- ===== src/Strategies/Abra/Order.antt =====
-- The order of reversed counters is that of the numbers that they stand for.
use dbextractors.Base.{
  ℕ, ◌+◌, ◌-◌, ◌*◌, ◌≡◌, refl, sym, ◌∙◌, Bool, true, ◌&&◌, ◌||◌, [], ◌∷◌, ◌++◌, arith, Text,
  text_beq, text_Eq, length, length-append, take, take, leb, ltb, nat_eq, All, if◌then◌else◌,
}
use dbextractors.Strategies.Abra.{reverse, bytes_lt, abra_counter, abra_counter_length}

-- `0-9` and `A-Z`, as digits to the base 36.
abbrev pub is_digit36 : ℕ → Bool
is_digit36 c = (leb b'0' c && leb c b'9') || (leb b'A' c && leb c b'Z')

abbrev digit36 : ℕ → ℕ
digit36 c = if leb c b'9' then c - b'0' else c - 55

-- The number of a counter, whose least significant digit comes first.
abbrev pub number : Text → ℕ
number [] = 0
number (c ∷ s) = digit36 c + number s * 36

digit36_order :
    (a b : ℕ)
    → is_digit36 a ≡ true
    → is_digit36 b ≡ true
    → (ltb a b ≡ ltb (digit36 a) (digit36 b)) × (nat_eq a b ≡ nat_eq (digit36 a) (digit36 b))
digit36_order a b h k = (ground arith, ground arith)

digit36_small : (a : ℕ) → is_digit36 a ≡ true → ltb (digit36 a) 36 ≡ true
digit36_small a h = ground arith

bytes_lt-snoc :
    (s t : Text) (a b : ℕ)
    → length s ≡ length t
    → bytes_lt (s ++ a ∷ []) (t ++ b ∷ []) ≡ (bytes_lt s t || (text_beq s t && ltb a b))
unfolding bytes_lt
bytes_lt-snoc [] [] a b h = ground arith
bytes_lt-snoc [] (d ∷ t) a b h = absurd (omega arith)
bytes_lt-snoc (c ∷ s) [] a b h = absurd (omega arith)
bytes_lt-snoc (c ∷ s) (d ∷ t) a b h = ground (arith, bytes_lt-snoc s t a b (omega arith))

text_beq-snoc :
    (s t : Text) (a b : ℕ)
    → length s ≡ length t
    → text_beq (s ++ a ∷ []) (t ++ b ∷ []) ≡ (text_beq s t && nat_eq a b)
text_beq-snoc [] [] a b h = ground arith
text_beq-snoc [] (d ∷ t) a b h = absurd (omega arith)
text_beq-snoc (c ∷ s) [] a b h = absurd (omega arith)
text_beq-snoc (c ∷ s) (d ∷ t) a b h = ground (arith, text_beq-snoc s t a b (omega arith))

length-reverse : (s : Text) → length (reverse s) ≡ length s
unfolding reverse
length-reverse [] = refl
length-reverse (c ∷ s) = omega (arith, length-append (reverse s) (c ∷ []), length-reverse s)

-- Two digits before two numbers.
step_order :
    (a b m n : ℕ)
    → ltb a 36 ≡ true
    → ltb b 36 ≡ true
    → ((ltb m n || (nat_eq m n && ltb a b)) ≡ ltb (a + m * 36) (b + n * 36))
      × ((nat_eq m n && nat_eq a b) ≡ nat_eq (a + m * 36) (b + n * 36))
step_order a b m n h k = (ground arith, ground arith)

pub reverse_order :
    (s t : Text)
    → length s ≡ length t
    → All (λ c. is_digit36 c ≡ true) s
    → All (λ c. is_digit36 c ≡ true) t
    → (bytes_lt (reverse s) (reverse t) ≡ ltb (number s) (number t))
      × (text_beq (reverse s) (reverse t) ≡ nat_eq (number s) (number t))
unfolding reverse bytes_lt
reverse_order [] [] e h k = (refl, refl)
reverse_order [] (d ∷ t) e h k = absurd (omega arith)
reverse_order (c ∷ s) [] e h k = absurd (omega arith)
reverse_order (c ∷ s) (d ∷ t) e (hc, h) (hd, k) =
    let same : length s ≡ length t = omega arith in
    let lengths : length (reverse s) ≡ length (reverse t) =
      length-reverse s ∙ same ∙ sym (length-reverse t) in
    let (lt, eq) = reverse_order s t same h k in
    let (digit_lt, digit_eq) = digit36_order c d hc hd in
    let (all_lt, all_eq) =
      step_order (digit36 c) (digit36 d) (number s) (number t) (digit36_small c hc)
        (digit36_small d hd) in
    (
      bytes_lt-snoc (reverse s) (reverse t) c d lengths ∙ rw (lt, eq, digit_lt) all_lt,
      text_beq-snoc (reverse s) (reverse t) c d lengths ∙ rw (eq, digit_eq) all_eq,
    )

-- The reversed counters of two IDs compare as the numbers do that the counters stand for, if both
-- counters are whole and have only digits to the base 36.
pub abra_counter_order :
    (a b : Text)
    → length (take abra_counter_length a) ≡ abra_counter_length
    → length (take abra_counter_length b) ≡ abra_counter_length
    → All (λ c. is_digit36 c ≡ true) (take abra_counter_length a)
    → All (λ c. is_digit36 c ≡ true) (take abra_counter_length b)
    → bytes_lt (abra_counter a) (abra_counter b)
      ≡ ltb (number (take abra_counter_length a)) (number (take abra_counter_length b))
unfolding abra_counter
abra_counter_order a b whole_a whole_b digits_a digits_b =
    (reverse_order (take abra_counter_length a) (take abra_counter_length b) (whole_a ∙ sym whole_b)
      digits_a digits_b).0
