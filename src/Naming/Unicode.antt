-- ===== src/Naming/Unicode.antt =====
-- What the naming uses of Python's character database: the case mappings of `str` and the classes of
-- `re`. A character is its code point. `str.lower` is a mapping of whole texts (a final sigma is
-- lowered in its own way), `str.upper` goes character by character and may give several.
use dbextractors.Base.{ℕ, ◌+◌, ◌-◌, ◌≡◌, refl, Bool, true, false, ◌&&◌, ◌||◌, [], ◌∷◌, map, arith}
use dbextractors.Base.{Text, leb, nat_eq, if◌then◌else◌}

pub record Unicode : Type 0 where
  pub lower : Text → Text
  pub upper_char : ℕ → Text
  pub is_space : ℕ → Bool
  pub is_word : ℕ → Bool
  pub is_digit : ℕ → Bool

abbrev pub underscore : ℕ
underscore = b'_'

-- What the database says of the underscore, and that no white space is a word's character.
pub record IsStandard (u : Unicode) : Type 0 where
  pub word_underscore : u.is_word underscore ≡ true
  pub upper_underscore : u.upper_char underscore ≡ underscore ∷ []
  pub space_not_word : (c : ℕ) → u.is_space c ≡ true → u.is_word c ≡ false
  pub digit_word : (c : ℕ) → u.is_digit c ≡ true → u.is_word c ≡ true

abbrev between : ℕ → ℕ → ℕ → Bool
between lo hi c = leb lo c && leb c hi

-- The database on ASCII.
abbrev pub ascii : Unicode
ascii = record {
  lower = map (λ c. if between b'A' b'Z' c then c + 32 else c);
  upper_char = λ c. (if between b'a' b'z' c then c - 32 else c) ∷ [];
  is_space = λ c. nat_eq c 32 || between 9 13 c || between 28 31 c;
  is_word = λ c. between b'a' b'z' c || between b'A' b'Z' c || between b'0' b'9' c || nat_eq c b'_';
  is_digit = between b'0' b'9';
}

pub ascii-IsStandard : IsStandard ascii
ascii-IsStandard = record {
  word_underscore = refl;
  upper_underscore = refl;
  space_not_word = λ c h. ground arith;
  digit_word = λ c h. ground arith;
}
