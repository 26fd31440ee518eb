-- ===== src/Strategies/Abra/Window.antt =====
-- The rows that the condition admits, without the watermarks.
use dbextractors.Base.{
  ◌≡◌, refl, sym, subst, Bool, true, false, ◌&&◌, ◌||◌, not, some, List, [], ◌∷◌, arith, Text,
  text_Eq, text_beq_iff, ◌==◌, contains, keep, all, is_empty, beq_refl, if◌then◌else◌, Bool-cases,
  Option-cases, inl, inr,
}
use dbextractors.Naming.Unicode.{Unicode}
use dbextractors.Strategies.Abra.{
  bytes_lt, abra_counter, abra_suffix, max_counter, watermarks, above, abra_where, AbraSettings,
  reads, validate_abra, run_abra,
}

bytes_lt_irrefl : (s : Text) → bytes_lt s s ≡ false
unfolding bytes_lt
bytes_lt_irrefl [] = refl
bytes_lt_irrefl (c ∷ s) = ground (arith, bytes_lt_irrefl s)

bytes_lt_trans : (a b c : Text) → bytes_lt a b ≡ true → bytes_lt b c ≡ true → bytes_lt a c ≡ true
unfolding bytes_lt
bytes_lt_trans a b [] h k = absurd (ground arith)
bytes_lt_trans a [] (z ∷ c) h k = absurd (ground arith)
bytes_lt_trans [] (y ∷ b) (z ∷ c) h k = refl
bytes_lt_trans (x ∷ a) (y ∷ b) (z ∷ c) h k = ground (arith, bytes_lt_trans a b c)

bytes_lt_split : (a b c : Text) → bytes_lt a c ≡ true → bytes_lt a b ≡ false → bytes_lt b c ≡ true
unfolding bytes_lt
bytes_lt_split a b [] h k = absurd (ground arith)
bytes_lt_split a [] (z ∷ c) h k = refl
bytes_lt_split [] (y ∷ b) (z ∷ c) h k = absurd (ground arith)
bytes_lt_split (x ∷ a) (y ∷ b) (z ∷ c) h k = ground (arith, bytes_lt_split a b c)

-- The key is above another one, where they have one suffix.
abbrev pub is_above : Text → Text → Bool
is_above key other =
    not (abra_suffix other == abra_suffix key) || bytes_lt (abra_counter other) (abra_counter key)

-- The suffix is asked for, and the key is above all keys of the target.
abbrev pub is_new : List Text → List Text → Text → Bool
is_new suffixes keys key = contains (abra_suffix key) suffixes && all (is_above key) keys

later_above :
    (best counter c : Text)
    → bytes_lt (if bytes_lt best counter then counter else best) c
      ≡ (bytes_lt counter c && bytes_lt best c)
later_above best counter c =
    ground (arith, bytes_lt_trans best counter c, bytes_lt_split best counter c)

above_max :
    (key : Text) (keys : List Text)
    → above (max_counter (abra_suffix key) keys) (abra_counter key) ≡ all (is_above key) keys
unfolding max_counter
above_max key [] = refl
above_max key (other ∷ keys) = elim (Bool-cases (abra_suffix other == abra_suffix key)) [
  | inr differs ↦ rw differs (above_max key keys)
  | inl same ↦ elim (Option-cases (max_counter (abra_suffix key) keys)) [
    | inl first ↦ ground (arith, above_max key keys)
    | inr (best, known) ↦
        let later = later_above best (abra_counter other) (abra_counter key) in
        ground (arith, above_max key keys)
  ]
]

where_step :
    (suffix : Text) (suffixes keys : List Text) (key : Text)
    → abra_where (watermarks suffixes keys) key ≡ is_new suffixes keys key
    → abra_where (watermarks (suffix ∷ suffixes) keys) key ≡ is_new (suffix ∷ suffixes) keys key
unfolding abra_where watermarks
where_step suffix suffixes keys key rest = elim (Bool-cases (abra_suffix key == suffix)) [
  | inr differs ↦
      let other : (suffix == abra_suffix key) ≡ false =
        ground
          (arith, text_beq_iff suffix (abra_suffix key), text_beq_iff (abra_suffix key) suffix) in
      ground arith
  | inl same ↦
      let is : abra_suffix key ≡ suffix = (text_beq_iff (abra_suffix key) suffix).0 same in
      let marked : above (max_counter suffix keys) (abra_counter key) ≡ all (is_above key) keys =
        subst (λ s. above (max_counter s keys) (abra_counter key) ≡ all (is_above key) keys) is
          (above_max key keys) in
      let here : (suffix == abra_suffix key) ≡ true =
        (text_beq_iff suffix (abra_suffix key)).1 (sym is) in
      ground arith
]

-- The condition that is built from the highest counters of the target admits exactly the keys with
-- one of the suffixes whose counter is above that of every key of the target with the same suffix.
pub abra_where-is_new :
    (suffixes keys : List Text) (key : Text)
    → abra_where (watermarks suffixes keys) key ≡ is_new suffixes keys key
abra_where-is_new [] keys key = unfold abra_where watermarks in refl
abra_where-is_new (suffix ∷ suffixes) keys key =
    where_step suffix suffixes keys key (abra_where-is_new suffixes keys key)

not_above_itself : (key : Text) → is_above key key ≡ false
not_above_itself key =
    ground (arith, beq_refl (abra_suffix key), bytes_lt_irrefl (abra_counter key))

all-contains :
    (p : Text → Bool) (keys : List Text) (key : Text)
    → all p keys ≡ true
    → contains key keys ≡ true
    → p key ≡ true
all-contains p [] key h k = absurd (ground arith)
all-contains p (x ∷ keys) key h k = elim (Bool-cases (x == key)) [
  | inl same ↦ subst (λ y. p y ≡ true) ((text_beq_iff x key).0 same) (ground arith)
  | inr other ↦ all-contains p keys key (ground arith) (ground arith)
]

contains-all :
    (p : Text → Bool) (keys : List Text)
    → ((key : Text) → contains key keys ≡ true → p key ≡ true)
    → all p keys ≡ true
contains-all p [] h = refl
contains-all p (x ∷ keys) h =
    let here : p x ≡ true = h x (ground (arith, beq_refl x)) in
    let rest = contains-all p keys (λ key k. h key (ground arith)) in ground arith

-- A key that the target has is not admitted.
pub held_not_new :
    (suffixes keys : List Text) (key : Text)
    → contains key keys ≡ true
    → is_new suffixes keys key ≡ false
held_not_new suffixes keys key held = elim (Bool-cases (all (is_above key) keys)) [
  | inr some_not ↦ ground arith
  | inl every ↦
      let self = all-contains (is_above key) keys key every held in
      let never = not_above_itself key in absurd (ground arith)
]

-- With fewer keys in the target no fewer are admitted.
pub fewer_held :
    (suffixes keys more : List Text) (key : Text)
    → ((k : Text) → contains k keys ≡ true → contains k more ≡ true)
    → is_new suffixes more key ≡ true
    → is_new suffixes keys key ≡ true
fewer_held suffixes keys more key within h =
    let wanted : contains (abra_suffix key) suffixes ≡ true = ground arith in
    let every : all (is_above key) more ≡ true = ground arith in
    let fewer =
      contains-all (is_above key) keys
        (λ k held. all-contains (is_above key) more k every (within k held)) in
    ground arith

module _ (u : Unicode) (settings : AbraSettings) (suffixes : List Text) where
  abbrev pub admits : (Text → Bool) → List Text → Text → Bool
  admits admitted keys key = abra_where (watermarks suffixes keys) key && admitted key

  -- What an ending with a read tells.
  pub run_reads :
      (admitted : Text → Bool) (source keys found : List Text)
      → validate_abra u settings ≡ some suffixes
      → run_abra u settings admitted source (some keys) ≡ reads found
      → (is_empty keys ≡ false)
        × ((settings.has_unique_index ≡ true) × (keep (admits admitted keys) source ≡ found))
  unfolding run_abra
  run_reads admitted source keys found valid h = elim (Bool-cases (is_empty keys)) [
    | inl nothing ↦ absurd (ground arith)
    | inr something ↦ elim (Bool-cases settings.has_unique_index) [
      | inr missing ↦ absurd (ground arith)
      | inl there ↦ (something, (there, ground arith))
    ]
  ]

  pub reads_run :
      (admitted : Text → Bool) (source keys : List Text)
      → validate_abra u settings ≡ some suffixes
      → is_empty keys ≡ false
      → settings.has_unique_index ≡ true
      → run_abra u settings admitted source (some keys) ≡ reads (keep (admits admitted keys) source)
  unfolding run_abra
  reads_run admitted source keys valid something there = ground arith
