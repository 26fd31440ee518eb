-- ===== src/Retry.antt =====
-- `with_retry` of src/dbextractors/core/retry.py: calls until one succeeds, with growing waits. The
-- function that is called answers by the number of the call. `jittered` is the random factor, which
-- may depend on the attempt. Log messages are left out.
pub mod Calls
use Prim.Native.Nat.{min}
use dbextractors.Base.{ℕ, zero, suc, ◌+◌, ◌-◌, ◌*◌, ◌^◌, List, [], ◌∷◌, nat_eq, if◌then◌else◌}

pub data Call (A E : Type 0) : Type 0 where
  answer : A → Call A E
  exception : E → Call A E

-- How `with_retry` ends: with the answer, with the last exception, or with Python's `None`.
pub data Ended (A E : Type 0) : Type 0 where
  returned : A → Ended A E
  raised : E → Ended A E
  returned_none : Ended A E

module _ {A E : Type 0} (fn : ℕ → Call A E) (jittered : ℕ → ℕ → ℕ)
    (attempts base_delay max_delay : ℕ) where
  -- The wait after a failed attempt.
  unfoldable pub delay_after : ℕ → ℕ
  delay_after attempt = jittered attempt (min max_delay (base_delay * 2 ^ (attempt - 1)))

  -- The loop, with the attempts that are left: the waits, in order, and how it ends.
  unfoldable pub retry_loop : ℕ → ℕ → List ℕ × Ended A E
  retry_loop zero attempt = ([], returned_none)
  retry_loop (suc left) attempt =
      let (delays, ended) = retry_loop left (attempt + 1) in
      elim (fn attempt) [
        | answer a ↦ ([], returned a)
        | exception err ↦
            if nat_eq attempt attempts
            then ([], raised err)
            else (delay_after attempt ∷ delays, ended)
      ]

  unfoldable pub with_retry : List ℕ × Ended A E
  with_retry = retry_loop attempts 1
