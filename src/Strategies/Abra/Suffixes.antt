-- ===== src/Strategies/Abra/Suffixes.antt =====
-- What `abra_id_suffixes` accepts.
use dbextractors.Base.{
  ◌≡◌, refl, sym, ap, ◌∙◌, Bool, true, false, ◌&&◌, not, Option, none, some, List, [], ◌∷◌, ◌++◌,
  arith, append_assoc, append-nil, Text, text_Eq, text_beq_iff, ◌==◌, contains, contains-append,
  keep, distinct, is_empty, if◌then◌else◌, Bool-cases, inl, inr,
}
use dbextractors.Naming.Unicode.{Unicode}
use dbextractors.Strategies.Abra.{
  SuffixValue, suffix_text, not_a_text, SuffixSetting, no_suffixes, not_a_list, one_suffix,
  suffix_list, is_blank, collect_suffixes, abra_id_suffixes,
}

module _ {A : Type 0} where
  keep-keep : (p q : A → Bool) (xs : List A) → keep p (keep q xs) ≡ keep (λ x. q x && p x) xs
  keep-keep p q [] = refl
  keep-keep p q (x ∷ xs) = ground (arith, keep-keep p q xs)

  keep_same : (p q : A → Bool) (xs : List A) → ((x : A) → p x ≡ q x) → keep p xs ≡ keep q xs
  keep_same p q [] h = refl
  keep_same p q (x ∷ xs) h = ground (arith, keep_same p q xs h, h x)

-- The setting as a list.
abbrev pub values_of : SuffixSetting → List SuffixValue
values_of no_suffixes = []
values_of not_a_list = []
values_of (one_suffix value) = suffix_text value ∷ []
values_of (suffix_list values) = values

abbrev pub texts : List SuffixValue → List Text
texts [] = []
texts (suffix_text s ∷ values) = s ∷ texts values
texts (not_a_text ∷ values) = texts values

-- All are strings, and none is blank.
abbrev pub all_given : Unicode → List SuffixValue → Bool
all_given u [] = true
all_given u (suffix_text s ∷ values) = not (is_blank u s) && all_given u values
all_given u (not_a_text ∷ values) = false

abbrev fresh : List Text → Text → Bool
fresh out s = not (contains s out)

abbrev collected : Unicode → List SuffixValue → List Text → Option (List Text)
collected u values out =
    if all_given u values then some (out ++ keep (fresh out) (distinct (texts values))) else none

fresh_snoc :
    (s : Text) (out : List Text) (x : Text)
    → fresh (out ++ s ∷ []) x ≡ (not (s == x) && fresh out x)
fresh_snoc s out x = ground (arith, contains-append x out (s ∷ []))

new_value :
    (s : Text) (out xs : List Text)
    → contains s out ≡ false
    → (out ++ s ∷ []) ++ keep (fresh (out ++ s ∷ [])) xs
      ≡ out ++ keep (fresh out) (s ∷ keep (λ y. not (s == y)) xs)
new_value s out xs unseen =
    let same =
      keep_same (fresh (out ++ s ∷ [])) (λ x. not (s == x) && fresh out x) xs (fresh_snoc s out)
      ∙ sym (keep-keep (fresh out) (λ y. not (s == y)) xs) in
    append_assoc out (s ∷ []) (keep (fresh (out ++ s ∷ [])) xs) ∙ rw (unseen, same) refl

old_value :
    (s : Text) (out xs : List Text)
    → contains s out ≡ true
    → keep (fresh out) xs ≡ keep (fresh out) (s ∷ keep (λ y. not (s == y)) xs)
old_value s out xs seen =
    let every : (x : Text) → fresh out x ≡ (not (s == x) && fresh out x) = λ x.
      elim (Bool-cases (s == x)) [
        | inr other ↦ ground arith
        | inl same ↦
            let is = (text_beq_iff s x).0 same in
            let there = ap (λ y. contains y out) is in ground arith
      ] in
    let same =
      keep_same (fresh out) (λ x. not (s == x) && fresh out x) xs every
      ∙ sym (keep-keep (fresh out) (λ y. not (s == y)) xs) in
    same ∙ rw seen refl

collect_suffixes_lem :
    (u : Unicode) (values : List SuffixValue) (out : List Text)
    → collect_suffixes u values out ≡ collected u values out
unfolding collect_suffixes
collect_suffixes_lem u [] out = ap some (sym (append-nil out))
collect_suffixes_lem u (not_a_text ∷ values) out = refl
collect_suffixes_lem u (suffix_text s ∷ values) out = elim (Bool-cases (is_blank u s)) [
  | inl blank ↦ rw blank refl
  | inr given ↦ elim (Bool-cases (contains s out)) [
    | inl seen ↦
        let ih = collect_suffixes_lem u values out in
        let same = old_value s out (distinct (texts values)) seen in ground arith
    | inr unseen ↦
        let ih = collect_suffixes_lem u values (out ++ s ∷ []) in
        let same = new_value s out (distinct (texts values)) unseen in ground arith
  ]
]

keep_all : (xs : List Text) → keep (fresh []) xs ≡ xs
keep_all [] = refl
keep_all (x ∷ xs) = ap (λ l. x ∷ l) (keep_all xs)

-- A setting is accepted if it has an entry, and only strings that are not blank; the answer is then
-- its strings, the first of each. All other settings are refused.
pub abra_id_suffixes_lem :
    (u : Unicode) (setting : SuffixSetting)
    → abra_id_suffixes u setting ≡ (
        if not (is_empty (values_of setting)) && all_given u (values_of setting)
        then some (distinct (texts (values_of setting)))
        else none)
unfolding abra_id_suffixes
abra_id_suffixes_lem u no_suffixes = refl
abra_id_suffixes_lem u not_a_list = refl
abra_id_suffixes_lem u (one_suffix s) =
    let all = keep_all (distinct (texts (suffix_text s ∷ []))) in
    collect_suffixes_lem u (suffix_text s ∷ []) [] ∙ rw all refl
abra_id_suffixes_lem u (suffix_list []) = refl
abra_id_suffixes_lem u (suffix_list (value ∷ values)) =
    let all = keep_all (distinct (texts (value ∷ values))) in
    collect_suffixes_lem u (value ∷ values) [] ∙ rw all refl
