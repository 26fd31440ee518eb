-- ===== src/Target/CsvReader/Ending.antt =====
-- A driver that reads until a read returns nothing comes to its end.
use dbextractors.Base.{
  ℕ, zero, suc, ◌+◌, ◌*◌, ◌≤◌, ◌≡◌, refl, sym, ap, ◌∙◌, some, List, [], ◌∷◌, arith, length,
  length-append, take, take_all, flatten,
}
use dbextractors.Target.CsvReader.{fresh, read, reads}
use dbextractors.Target.CsvReader.Refinement.{
  remaining, IsValid, read-remaining, reads-remaining, reads_deliver, total,
}

-- The reads of one size.
abbrev pub repeated : ℕ → ℕ → List ℕ
repeated zero size = []
repeated (suc n) size = size ∷ repeated n size

total-repeated : (n size : ℕ) → total (repeated n size) ≡ n * size
total-repeated zero size = omega arith
total-repeated (suc n) size =
    let step : suc n * size ≡ size + n * size = ground arith in
    ap (λ k. size + k) (total-repeated n size) ∙ sym step

module _ {ℓ} {A : Type ℓ} where
  no_length : (xs : List A) → length xs ≡ 0 → xs ≡ []
  no_length [] h = refl
  no_length (x ∷ xs) h = absurd (omega arith)

  take_none : (n : ℕ) → take {A = A} n [] ≡ []
  take_none zero = refl
  take_none (suc n) = refl

  -- Reads of one size, so many that their sizes sum up to the length of the text, have brought the
  -- whole text, and the next read returns nothing: a driver that reads until then stops there at the
  -- latest.
  pub reads_end :
      (chunks : List (List A)) (n size : ℕ)
      → length (flatten chunks) ≤ n * size
      → (flatten (reads (repeated n size) (fresh chunks)).0 ≡ flatten chunks)
        × ((read (some size) (reads (repeated n size) (fresh chunks)).1).0 ≡ [])
  reads_end chunks n size enough =
      let sizes = repeated n size in
      let v : IsValid (fresh chunks) = record { within = omega arith; finished = λ x. cc } in
      let (whole, v') = reads-remaining sizes (fresh chunks) v in
      let all : flatten (reads sizes (fresh chunks)).0 ≡ flatten chunks =
        reads_deliver chunks sizes
        ∙ take_all (total sizes) (flatten chunks) (omega (arith, total-repeated n size, enough)) in
      let r' = (reads sizes (fresh chunks)).1 in
      let lengths = ap length whole in
      let split = length-append (flatten (reads sizes (fresh chunks)).0) (remaining r') in
      let same = ap length all in
      let text : length (remaining (fresh chunks)) ≡ length (flatten chunks) = refl in
      let left : remaining r' ≡ [] =
        no_length (remaining r') (omega (arith, lengths, split, same)) in
      let (out, _, _) = read-remaining size r' v' in
      (all, out ∙ ap (take size) left ∙ take_none size)
