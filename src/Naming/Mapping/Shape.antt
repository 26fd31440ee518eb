-- ===== src/Naming/Mapping/Shape.antt =====
-- The shape of the names that `create_column_mapping` makes.
use dbextractors.Base.{ℕ, ◌≡◌, refl, Bool, true, false, ◌&&◌, not, [], ◌∷◌, arith}
use dbextractors.Base.{Text, nat_eq, if◌then◌else◌, is_empty, keep, all}
use dbextractors.Naming.Unicode.{Unicode, IsStandard, underscore}
use dbextractors.Naming.Mapping.{
  collapse, strip_left, strip_right, spaces_to_underscore, is_kept, normalise,
}

abbrev is_underscore : ℕ → Bool
is_underscore c = nat_eq c underscore

abbrev heads : Text → Bool
heads [] = false
heads (c ∷ s) = is_underscore c

abbrev ends : Text → Bool
ends [] = false
ends (c ∷ s) = if is_empty s then is_underscore c else ends s

-- No underscore stands next to another.
abbrev single : Text → Bool
single [] = true
single (c ∷ s) = not (is_underscore c && heads s) && single s

collapse-single :
    (in_run : Bool) (s : Text)
    → (single (collapse in_run s) ≡ true) × ((in_run && heads (collapse in_run s)) ≡ false)
unfolding collapse
collapse-single in_run [] = ground arith
collapse-single in_run (c ∷ s) = ground (arith, collapse-single (nat_eq c underscore) s)

strip_left-single : (s : Text) → single s ≡ true → single (strip_left s) ≡ true
unfolding strip_left
strip_left-single [] h = refl
strip_left-single (c ∷ s) h = ground (arith, strip_left-single s)

strip_left-heads : (s : Text) → heads (strip_left s) ≡ false
unfolding strip_left
strip_left-heads [] = refl
strip_left-heads (c ∷ s) = ground (arith, strip_left-heads s)

strip_right-heads : (s : Text) → heads s ≡ false → heads (strip_right s) ≡ false
unfolding strip_right
strip_right-heads [] h = refl
strip_right-heads (c ∷ s) h = ground arith

strip_right-single : (s : Text) → single s ≡ true → single (strip_right s) ≡ true
unfolding strip_right
strip_right-single [] h = refl
strip_right-single (c ∷ s) h = ground (arith, strip_right-single s, strip_right-heads s)

strip_right-ends : (s : Text) → ends (strip_right s) ≡ false
unfolding strip_right
strip_right-ends [] = refl
strip_right-ends (c ∷ s) = ground (arith, strip_right-ends s)

module _ (p : ℕ → Bool) where
  collapse-all : (in_run : Bool) (s : Text) → all p s ≡ true → all p (collapse in_run s) ≡ true
  unfolding collapse
  collapse-all in_run [] h = refl
  collapse-all in_run (c ∷ s) h = ground (arith, collapse-all (nat_eq c underscore) s)

  strip_left-all : (s : Text) → all p s ≡ true → all p (strip_left s) ≡ true
  unfolding strip_left
  strip_left-all [] h = refl
  strip_left-all (c ∷ s) h = ground (arith, strip_left-all s)

  strip_right-all : (s : Text) → all p s ≡ true → all p (strip_right s) ≡ true
  unfolding strip_right
  strip_right-all [] h = refl
  strip_right-all (c ∷ s) h = ground (arith, strip_right-all s)

  keep-all : (s : Text) → all p (keep p s) ≡ true
  keep-all [] = refl
  keep-all (c ∷ s) = ground (arith, keep-all s)

  keep_id : (s : Text) → all p s ≡ true → keep p s ≡ s
  keep_id [] h = refl
  keep_id (c ∷ s) h = ground (arith, keep_id s)

-- What a pass leaves alone.
collapse_id :
    (in_run : Bool) (s : Text)
    → single s ≡ true
    → (in_run && heads s) ≡ false
    → collapse in_run s ≡ s
unfolding collapse
collapse_id in_run [] h k = refl
collapse_id in_run (c ∷ s) h k = ground (arith, collapse_id (nat_eq c underscore) s)

strip_left_id : (s : Text) → heads s ≡ false → strip_left s ≡ s
unfolding strip_left
strip_left_id [] h = refl
strip_left_id (c ∷ s) h = ground arith

strip_right_id : (s : Text) → ends s ≡ false → strip_right s ≡ s
unfolding strip_right
strip_right_id [] h = refl
strip_right_id (c ∷ []) h = ground arith
strip_right_id (c ∷ d ∷ s) h = ground (arith, strip_right_id (d ∷ s))

-- The shape of a normalised name.
pub record IsNormal (u : Unicode) (s : Text) : Type 0 where
  pub kept : all (is_kept u) s ≡ true
  pub single_underscores : single s ≡ true
  pub no_underscore_first : heads s ≡ false
  pub no_underscore_last : ends s ≡ false

module _ (u : Unicode) where
  -- A normalised name has only letters, digits and underscores, no two underscores in a row, and
  -- none at either end.
  pub normalise-IsNormal : (col : Text) → IsNormal u (normalise u col)
  unfolding normalise
  normalise-IsNormal col =
      let kept = keep (is_kept u) (spaces_to_underscore u false (u.lower col)) in
      let collapsed = collapse false kept in
      let left = strip_left collapsed in
      record {
        kept = strip_right-all (is_kept u) left (
            strip_left-all (is_kept u) collapsed (
              collapse-all (is_kept u) false kept
                (keep-all (is_kept u) (spaces_to_underscore u false (u.lower col)))));
        single_underscores =
            strip_right-single left (strip_left-single collapsed (collapse-single false kept).0);
        no_underscore_first = strip_right-heads left (strip_left-heads collapsed);
        no_underscore_last = strip_right-ends left;
      }

  module _ (standard : IsStandard u) where
    spaces_id :
        (in_run : Bool) (s : Text) → all (is_kept u) s ≡ true → spaces_to_underscore u in_run s ≡ s
    unfolding spaces_to_underscore
    spaces_id in_run [] h = refl
    spaces_id in_run (c ∷ s) h = ground (
      arith,
      spaces_id (u.is_space c) s,
      standard.space_not_word c,
      standard.digit_word c,
      standard.word_underscore,
    )

    -- A name that is normal, and that lowering leaves alone, is its own mapping; so the mapping of a
    -- normalised name is that name, if lowering leaves it alone.
    pub normalise_fixed : (s : Text) → IsNormal u s → u.lower s ≡ s → normalise u s ≡ s
    unfolding normalise
    normalise_fixed s n low =
        rw (low, spaces_id false s n.kept, keep_id (is_kept u) s n.kept)
          (rw (collapse_id false s n.single_underscores refl, strip_left_id s n.no_underscore_first)
            (strip_right_id s n.no_underscore_last))
