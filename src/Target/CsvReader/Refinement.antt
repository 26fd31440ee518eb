-- ===== src/Target/CsvReader/Refinement.antt =====
-- A reader refines the text that is still to be read: each read takes a prefix off it.
use dbextractors.Base.{ℕ, ◌+◌, ◌≤◌, ◌≡◌, refl, true, false, some, List, [], ◌∷◌, ◌++◌, arith}
use dbextractors.Base.{
  length, take, drop, flatten, sym, ◌∙◌, inl, inr, ◌⊎◌, Bool-cases, append_assoc,
}
use dbextractors.Base.{take-append, drop-append, drop-drop, append-nil, ltb, leb, ap, drop_all}
use dbextractors.Base.{zero, suc, ◌<◌, length-drop, length-take, drop-length-take, take-append-drop}
use dbextractors.Target.CsvReader.{Reader, fresh, compact, needs_more, fill, read, reads, release}

abbrev pub total : List ℕ → ℕ
total [] = 0
total (size ∷ sizes) = size + total sizes

module _ {ℓ} {A : Type ℓ} where
  -- The text that the reader still has to hand out.
  abbrev pub remaining : Reader A → List A
  remaining r = drop r.offset r.buffer ++ flatten r.chunks

  pub record IsValid (r : Reader A) : Type ℓ where
    pub within : r.offset ≤ length r.buffer
    pub finished : r.exhausted ≡ true → r.chunks ≡ []

  -- `compact` is the same whether or not its test passes.
  compact_lem :
      (r : Reader A) → compact r ≡ record r { buffer = drop r.offset r.buffer; offset = 0 }
  unfolding compact
  compact_lem r = elim (Bool-cases (ltb 0 r.offset)) [
    | inl moved ↦ rw moved
    | inr still ↦
        let e : r.offset ≡ 0 = ground arith in
        rw still (λ i. record r { buffer = ap (λ k. drop k r.buffer) (sym e) i; offset = e i })
  ]

  needs_more-cases :
      (size : ℕ) (r : Reader A) → (needs_more size r ≡ true) ⊎ (needs_more size r ≡ false)
  needs_more-cases size r = Bool-cases (needs_more size r)

  -- What one turn of the loop of `fill` makes of the reader.
  abbrev refilled : List A → List (List A) → Reader A → Reader A
  refilled c cs r = record r { chunks = cs; buffer = drop r.offset r.buffer ++ c; offset = 0 }

  refilled-remaining :
      (c : List A) (cs : List (List A)) (r : Reader A)
      → r.chunks ≡ c ∷ cs
      → remaining (refilled c cs r) ≡ remaining r
  refilled-remaining c cs r e = rw (e, append_assoc)

  -- After `fill` nothing is lost, and the buffer holds enough or nothing is left to fetch.
  record IsFilled (size : ℕ) (r r' : Reader A) : Type ℓ where
    same : remaining r' ≡ remaining r
    valid : IsValid r'
    enough : (r'.offset + size ≤ length r'.buffer) ⊎ (r'.chunks ≡ [])

  fill-IsFilled :
      (size : ℕ) (cs : List (List A)) (r : Reader A)
      → r.chunks ≡ cs
      → IsValid r
      → IsFilled size r (fill size cs r)
  unfolding fill
  fill-IsFilled size [] r e v = elim (needs_more-cases size r) [
    | inl more ↦
        rw (more, compact_lem r)
          (record {
            same = rw (e);
            valid = record { within = omega arith; finished = λ _. refl };
            enough = inr refl;
          })
    | inr plenty ↦ rw plenty (record { same = refl; valid = v; enough = inr e })
  ]
  fill-IsFilled size (c ∷ cs) r e v = elim (needs_more-cases size r) [
    | inl more ↦
        rw (more, compact_lem r)
          (let ih =
              fill-IsFilled size cs (refilled c cs r) refl
                (record { within = omega arith; finished = λ x. cc (v.finished x) }) in
            record {
              same = ih.same ∙ refilled-remaining c cs r e;
              valid = ih.valid;
              enough = ih.enough;
            })
    | inr plenty ↦
        rw plenty (record { same = refl; valid = v; enough = inl (ground (arith, v.finished)) })
  ]

  release-remaining : (r : Reader A) → remaining (release r) ≡ remaining r
  release-remaining r = elim (Bool-cases (leb (length r.buffer) r.offset)) [
    | inl empty ↦ rw (empty, drop_all r.offset r.buffer (ground arith)) refl
    | inr more ↦ rw more refl
  ]

  release-IsValid : (r : Reader A) → IsValid r → IsValid (release r)
  release-IsValid r v = ground arith

  -- What is handed out of a buffer that is filled, and what is left after it.
  module _ (size : ℕ) (r r' : Reader A) (f : IsFilled size r r') where
    abbrev window : List A
    window = drop r'.offset r'.buffer

    take-filled : take size window ≡ take size (remaining r)
    take-filled = elim f.enough [
      | inl h ↦
          let long : size ≤ length window = omega (arith, length-drop r'.offset r'.buffer) in
          sym (take-append size window (flatten r'.chunks) long) ∙ ap (take size) f.same
      | inr h ↦
          let all : remaining r' ≡ window = rw (h, append-nil) in ap (take size) (sym all ∙ f.same)
    ]

    drop-filled :
        drop (r'.offset + length (take size window)) r'.buffer ++ flatten r'.chunks
        ≡ drop size (remaining r)
    drop-filled =
        rw
          (
            ← drop-drop r'.offset (length (take size window)) r'.buffer,
            drop-length-take size window,
          )
          (elim f.enough [
            | inl h ↦
                let long : size ≤ length window = omega (arith, length-drop r'.offset r'.buffer) in
                sym (drop-append size window (flatten r'.chunks) long) ∙ ap (drop size) f.same
            | inr h ↦
                let all : remaining r' ≡ window = rw (h, append-nil) in
                rw (h, append-nil) (ap (drop size) (sym all ∙ f.same))
          ])

    -- The reader before `release`.
    abbrev handed : Reader A
    handed = record r' { offset = r'.offset + length (take size window) }

    handed-IsValid : IsValid handed
    handed-IsValid = record {
      within =
          omega (arith, f.valid.within, length-take size window, length-drop r'.offset r'.buffer);
      finished = f.valid.finished;
    }

  -- A read of `size` takes that many characters off the front of what is left, or all of it.
  pub read-remaining :
      (size : ℕ) (r : Reader A)
      → IsValid r
      → let (out, r') = read (some size) r in
        (out ≡ take size (remaining r)) × (remaining r' ≡ drop size (remaining r)) × IsValid r'
  unfolding read
  read-remaining size r v =
      let f = fill-IsFilled size r.chunks r refl v in
      let r' = fill size r.chunks r in
      (
        take-filled size r r' f,
        release-remaining (handed size r r' f) ∙ drop-filled size r r' f,
        release-IsValid (handed size r r' f) (handed-IsValid size r r' f),
      )

  -- However the driver cuts its reads, what they returned and what is left make up the text that
  -- was left before them.
  pub reads-remaining :
      (sizes : List ℕ) (r : Reader A)
      → IsValid r
      → let (outs, r') = reads sizes r in (flatten outs ++ remaining r' ≡ remaining r) × IsValid r'
  unfolding reads
  reads-remaining [] r v = (refl, v)
  reads-remaining (size ∷ sizes) r v =
      let (out, left, v') = read-remaining size r v in
      let (whole, v'') = reads-remaining sizes (read (some size) r).1 v' in
      (
        append_assoc (read (some size) r).0 (flatten (reads sizes (read (some size) r).1).0)
              (remaining (reads (size ∷ sizes) r).1)
            ∙ rw (whole, out, left) (take-append-drop size (remaining r)),
        v'',
      )

  take-eq-nil : (size : ℕ) (xs : List A) → 0 < size → take size xs ≡ [] → xs ≡ []
  take-eq-nil zero xs p e = elim p [ ]
  take-eq-nil (suc size) [] p e = refl
  take-eq-nil (suc size) (x ∷ xs) p e = cc

  -- A driver that reads until a read of a positive size returns nothing has received the whole text,
  -- whatever the sizes of its reads and however the text was cut into chunks.
  pub reads_complete :
      (chunks : List (List A)) (sizes : List ℕ) (size : ℕ)
      → 0 < size
      → (read (some size) (reads sizes (fresh chunks)).1).0 ≡ []
      → flatten (reads sizes (fresh chunks)).0 ≡ flatten chunks
  reads_complete chunks sizes size positive last =
      let v : IsValid (fresh chunks) = record { within = omega arith; finished = λ x. cc } in
      let (whole, v') = reads-remaining sizes (fresh chunks) v in
      let (out, _, _) = read-remaining size (reads sizes (fresh chunks)).1 v' in
      let nothing = take-eq-nil size _ positive (sym out ∙ last) in
      sym (append-nil _) ∙ rw nothing at whole

  take_nil : (n : ℕ) → take {A = A} n [] ≡ []
  take_nil zero = refl
  take_nil (suc n) = refl

  take-add : (a b : ℕ) (xs : List A) → take (a + b) xs ≡ take a xs ++ take b (drop a xs)
  take-add zero b xs = let e : 0 + b ≡ b = omega arith in ap (λ n. take n xs) e
  take-add (suc a) b [] = take_nil (suc a + b) ∙ sym (take_nil b)
  take-add (suc a) b (x ∷ xs) =
      let e : suc a + b ≡ suc (a + b) = omega arith in
      ap (λ n. take n (x ∷ xs)) e ∙ ap (λ t. x ∷ t) (take-add a b xs)

  reads-take :
      (sizes : List ℕ) (r : Reader A)
      → IsValid r
      → flatten (reads sizes r).0 ≡ take (total sizes) (remaining r)
  unfolding reads
  reads-take [] r v = refl
  reads-take (size ∷ sizes) r v =
      let (out, left, v') = read-remaining size r v in
      rw (out, reads-take sizes (read (some size) r).1 v', left)
        (sym (take-add size (total sizes) (remaining r)))

  -- Reads from a new reader together return as many characters of the text as their sizes sum up
  -- to, or all of it: in order, none twice and none left out.
  pub reads_deliver :
      (chunks : List (List A)) (sizes : List ℕ)
      → flatten (reads sizes (fresh chunks)).0 ≡ take (total sizes) (flatten chunks)
  reads_deliver chunks sizes =
      reads-take sizes (fresh chunks) (record { within = omega arith; finished = λ x. cc })
