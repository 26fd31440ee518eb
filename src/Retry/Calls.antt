-- ===== src/Retry/Calls.antt =====
-- Which calls `with_retry` makes, and what it ends with.
use dbextractors.Base.{
  ℕ, zero, suc, ◌+◌, ◌<◌, ◌≤◌, ◌≡◌, ◌⊎◌, refl, sym, subst, true, false, List, [], ◌∷◌, arith,
  length, nat_eq, inl, inr, Bool-cases,
}
use native.Mathlib.Decide.{dec_lt}
use dbextractors.Retry.{
  Call, answer, exception, Ended, returned, raised, returned_none, delay_after, retry_loop,
  with_retry,
}

module _ {A E : Type 0} (fn : ℕ → Call A E) (jittered : ℕ → ℕ → ℕ)
    (attempts base_delay max_delay : ℕ) where
  -- One wait after each failed call but the last, each as long as its attempt says.
  abbrev pub Waits : ℕ → List ℕ → Type 0
  Waits attempt [] = Unit
  Waits attempt (d ∷ delays) =
      ((err : E) × (fn attempt ≡ exception err))
      × (d ≡ delay_after fn jittered attempts base_delay max_delay attempt)
      × Waits (attempt + 1) delays

  -- The call that ends the loop comes after the waits, and is one of the allowed ones. Without a call
  -- there is no wait either.
  abbrev pub EndsWith : ℕ → Ended A E → Type 0
  EndsWith last (returned a) = (fn last ≡ answer a) × (last ≤ attempts)
  EndsWith last (raised err) = (fn last ≡ exception err) × (last ≡ attempts)
  EndsWith last returned_none = (attempts ≡ 0) × (last ≡ 1)

  abbrev Explained : ℕ → List ℕ × Ended A E → Type 0
  Explained attempt (delays, ended) =
      Waits attempt delays × EndsWith (attempt + length delays) ended

  abbrev at_loop : ℕ → ℕ → List ℕ × Ended A E
  at_loop = retry_loop fn jittered attempts base_delay max_delay

  loop_answer :
      (left attempt : ℕ) (a : A)
      → fn attempt ≡ answer a
      → at_loop (suc left) attempt ≡ ([], returned a)
  unfolding retry_loop
  loop_answer left attempt a e = ground arith

  loop_raise :
      (left attempt : ℕ) (err : E)
      → fn attempt ≡ exception err
      → nat_eq attempt attempts ≡ true
      → at_loop (suc left) attempt ≡ ([], raised err)
  unfolding retry_loop
  loop_raise left attempt err e last = ground arith

  loop_again :
      (left attempt : ℕ) (err : E)
      → fn attempt ≡ exception err
      → nat_eq attempt attempts ≡ false
      → at_loop (suc left) attempt ≡ (
        delay_after fn jittered attempts base_delay max_delay attempt
            ∷ (at_loop left (attempt + 1)).0,
        (at_loop left (attempt + 1)).1,
      )
  unfolding retry_loop
  loop_again left attempt err e other = ground arith

  Call-cases : (c : Call A E) → ((a : A) × (c ≡ answer a)) ⊎ ((err : E) × (c ≡ exception err))
  Call-cases (answer a) = inl (a, refl)
  Call-cases (exception err) = inr (err, refl)

  retry_loop-Explained :
      (left attempt : ℕ)
      → attempt + left ≡ attempts + 1
      → 0 < left
      → Explained attempt (at_loop left attempt)
  retry_loop-Explained zero attempt count some_left = absurd (omega arith)
  retry_loop-Explained (suc left) attempt count some_left = elim (Call-cases (fn attempt)) [
    | inl (a, e) ↦
        let here : attempt + 0 ≡ attempt = omega arith in
        subst (Explained attempt) (sym (loop_answer left attempt a e))
          (tt, (rw here e, ground (arith, here)))
    | inr (err, e) ↦ elim (Bool-cases (nat_eq attempt attempts)) [
      | inl last ↦
          let here : attempt + 0 ≡ attempt = omega arith in
          subst (Explained attempt) (sym (loop_raise left attempt err e last))
            (tt, (rw here e, ground arith))
      | inr other ↦
          let (waits, end) = retry_loop-Explained left (attempt + 1) (omega arith) (ground arith) in
          let shift : attempt + suc (length (at_loop left (attempt + 1)).0)
              ≡ (attempt + 1) + length (at_loop left (attempt + 1)).0 =
            omega arith in
          subst (Explained attempt) (sym (loop_again left attempt err e other)) (
            ((err, e), refl, waits),
            subst (λ n. EndsWith n (at_loop left (attempt + 1)).1) (sym shift) end,
          )
    ]
  ]

  -- Every call before the last one failed and was followed by its wait, a wait that doubles up to the
  -- largest. The call after these waits is at most the last allowed one and gave the answer, or it is
  -- the last allowed one and its exception is let through, or, with 0 attempts and no wait, the answer
  -- is `None`. With 0 attempts it can only be the last, as no call is then allowed.
  pub with_retry-Explained :
      let (delays, ended) = with_retry fn jittered attempts base_delay max_delay in
      Waits 1 delays × EndsWith (1 + length delays) ended
  unfolding with_retry retry_loop
  with_retry-Explained = elim (dec_lt 0 attempts) [
    | yes some_left ↦ retry_loop-Explained attempts 1 (omega arith) some_left
    | no none_left ↦ let e : attempts ≡ 0 = omega arith in rw (e, retry_loop) (tt, (refl, refl))
  ]
