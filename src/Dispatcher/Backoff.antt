-- ===== src/Dispatcher/Backoff.antt =====
-- The delay before a retry.
use job_searching_assistant.Prelude.{ℕ, zero, suc, ◌*◌, ◌-◌, ◌^◌, ◌≤◌, ◌≡◌, min, arith}
use native.Mathlib.Nat.{one-le-pow, pow-suc}
use job_searching_assistant.Dispatcher.{retry_delay}

sub_one : (n : ℕ) → suc n - 1 ≡ n
sub_one n = omega arith

pow_pos : (n : ℕ) → 1 ≤ 2 ^ n
pow_pos n = one-le-pow n 2 (omega arith)

-- With a positive base delay the delay before a retry is between 1 and 300 seconds.
pub retry_delay-bounds :
    (retry_seconds attempt : ℕ)
    → 1 ≤ retry_seconds
    → (1 ≤ retry_delay retry_seconds attempt) × (retry_delay retry_seconds attempt ≤ 300)
unfolding retry_delay
retry_delay-bounds retry_seconds attempt h = grind (arith, pow_pos (attempt - 1))

-- From the first attempt on, each further attempt doubles the delay, up to 300 seconds.
pub retry_delay-suc :
    (retry_seconds attempt : ℕ)
    → 1 ≤ attempt
    → retry_delay retry_seconds (suc attempt) ≡ min (2 * retry_delay retry_seconds attempt) 300
unfolding retry_delay
retry_delay-suc retry_seconds zero h = absurd (omega arith)
retry_delay-suc retry_seconds (suc n) h = rw (sub_one (suc n), sub_one n, pow-suc) (grind arith)
