-- ===== src/Tests/Retry.antt =====
-- A function that fails twice and then answers.
use dbextractors.Base.{ℕ, ◌+◌, ◌≡◌, refl, [], ◌∷◌, length, leb, if◌then◌else◌}
use dbextractors.Retry.{Call, answer, exception, returned, with_retry, retry_loop, delay_after}
use dbextractors.Retry.Calls.{Waits, EndsWith, with_retry-Explained}

abbrev third_time : ℕ → Call ℕ ℕ
third_time n = if leb 3 n then answer 7 else exception n

abbrev no_jitter : ℕ → ℕ → ℕ
no_jitter attempt delay = delay

with_retry_test : with_retry third_time no_jitter 5 2 30 ≡ (2 ∷ 4 ∷ [], returned 7)
unfolding with_retry retry_loop delay_after
with_retry_test = refl

with_retry-Explained_example :
    let (delays, ended) = with_retry third_time no_jitter 5 2 30 in
    Waits third_time no_jitter 5 2 30 1 delays
    × EndsWith third_time no_jitter 5 2 30 (1 + length delays) ended
with_retry-Explained_example = with_retry-Explained third_time no_jitter 5 2 30
