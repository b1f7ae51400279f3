-- ===== src/Coordination/RateLimit.antt =====
-- workers/coordination.py: the rate limit of a domain. A counter of Redis is an interface; time is in
-- whole seconds.
use job_searching_assistant.Prelude.{
  ℕ, suc, ◌+◌, ◌-◌, ◌/◌, ◌%◌, ◌≤◌, min, max, ◌≡◌, ap, ◌∙◌, Bool, false, ◌||◌, List, [], ◌∷◌, String,
  arith, ltb, leb, nat_beq, if◌then◌else◌, Result, ok, raise, ◌>>=◌, length, All, inl, inr,
  Bool-cases,
}
use Prim.Native.String.{◌++◌ as str_append}

-- INCR and EXPIRE of one server.
pub record RedisCounters : Type 1 where
  pub Store : Type 0
  pub incr : String → Store → ℕ × Store
  pub expire : String → ℕ → Store → Store

-- What the documentation says of a counter: an absent key counts as 0, and setting a time to live
-- does not change the value.
pub record IsCounting (redis : RedisCounters) : Type 0 where
  pub value : String → redis.Store → ℕ
  pub incr-answer : (name : String) (s : redis.Store) → (redis.incr name s).0 ≡ value name s + 1
  pub incr-value :
      (name : String) (s : redis.Store) → value name (redis.incr name s).1 ≡ value name s + 1
  pub expire-value :
      (name : String) (seconds : ℕ) (s : redis.Store)
      → value name (redis.expire name seconds s) ≡ value name s

pub record RateLimitDecision : Type 0 where
  pub is_allowed : Bool
  pub current_count : ℕ
  pub limit : ℕ
  pub retry_after_seconds : ℕ

pub data RateLimitError : Type 0 where
  not_positive : RateLimitError  -- ValueError

-- `casefold`, and the text of a number, are parameters.
module _ (redis : RedisCounters) (namespace : String) (casefold : String → String)
    (number_text : ℕ → String) where
  abbrev pub rate_key : String → ℕ → String
  rate_key domain window_number = str_append namespace (
      str_append ":rate:"
        (str_append (casefold domain) (str_append ":" (number_text window_number))))

  -- The decision of the answer to INCR, and the time to live of a new counter.
  abbrev pub decided :
      (key : String) (limit window_seconds now : ℕ)
      → ℕ × redis.Store
      → RateLimitDecision × redis.Store
  decided key limit window_seconds now (current_count, s) = (
    record {
      is_allowed = leb current_count limit;
      current_count = current_count;
      limit = limit;
      retry_after_seconds = max (window_seconds - now % window_seconds) 1;
    },
    if nat_beq current_count 1 then redis.expire key (window_seconds + 1) s else s,
  )

  unfoldable pub check_domain_rate_limit :
      (domain : String) (limit window_seconds now : ℕ)
      → redis.Store
      → Result RateLimitError (RateLimitDecision × redis.Store)
  check_domain_rate_limit domain limit window_seconds now s =
      if ltb limit 1 || ltb window_seconds 1
      then raise not_positive
      else (let key = rate_key domain (now / window_seconds) in
          ok (decided key limit window_seconds now (redis.incr key s)))

  -- Checks at some times, one after the other, with the number of those that were allowed.
  unfoldable pub check_all :
      (domain : String) (limit window_seconds : ℕ) → List ℕ → redis.Store → Result RateLimitError ℕ
  unfolding check_domain_rate_limit
  check_all domain limit window_seconds [] s = ok 0
  check_all domain limit window_seconds (now ∷ times) s =
      check_domain_rate_limit domain limit window_seconds now s >>= λ d.
      check_all domain limit window_seconds times d.1 >>= λ n.
      ok ((if d.0.is_allowed then 1 else 0) + n)

  module _ (counting : IsCounting redis) where
    open counting use {value, incr-answer, incr-value, expire-value}

    set-value :
        (key : String) (seconds current_count n : ℕ) (s : redis.Store)
        → value key s ≡ n
        → value key (if nat_beq current_count 1 then redis.expire key seconds s else s) ≡ n
    set-value key seconds current_count n s h = elim (Bool-cases (nat_beq current_count 1)) [
      | inl first ↦ rw first (expire-value key seconds s ∙ h)
      | inr later ↦ rw later h
    ]

    decided-value :
        (key : String) (limit window_seconds now : ℕ) (s : redis.Store)
        → let d = decided key limit window_seconds now (redis.incr key s) in
          (value key d.1 ≡ value key s + 1) × (d.0.is_allowed ≡ leb (value key s + 1) limit)
    decided-value key limit window_seconds now s =
        let e = incr-answer key s in
        let g = incr-value key s in
        (set-value key (window_seconds + 1) (redis.incr key s).0 _ _ g, ap (λ n. leb n limit) e)

    none_asked : (n : ℕ) → 0 ≡ min 0 n
    none_asked n = omega arith

    counted :
        (allowed : Bool) (limit count checks : ℕ)
        → allowed ≡ leb (count + 1) limit
        → (if allowed then 1 else 0) + min checks (limit - (count + 1))
          ≡ min (suc checks) (limit - count)
    counted allowed limit count checks h = rw h (ground arith)

    positive-tests :
        (limit window : ℕ) → 1 ≤ limit → 1 ≤ window → (ltb limit 1 || ltb window 1) ≡ false
    positive-tests limit window h k = ground arith

    -- In one window of a domain, of any number of checks as many are allowed as the limit leaves
    -- after those that were counted before: a window lets no more than the limit through, and
    -- refuses no check that it has room for.
    pub check_all-allowed :
        (domain : String) (limit window_seconds number : ℕ) (times : List ℕ) (s : redis.Store)
        → 1 ≤ limit
        → 1 ≤ window_seconds
        → All (λ t. t / window_seconds ≡ number) times
        → check_all domain limit window_seconds times s
          ≡ ok (min (length times) (limit - value (rate_key domain number) s))
    unfolding check_all check_domain_rate_limit
    check_all-allowed domain limit window number [] s h k same =
        ap ok (none_asked (limit - value (rate_key domain number) s))
    check_all-allowed domain limit window number (now ∷ times) s h k same =
        let key = rate_key domain number in
        let (after, allowed) = decided-value key limit window now s in
        let d = decided key limit window now (redis.incr key s) in
        let rest = check_all-allowed domain limit window number times d.1 h k same.1 in
        rw (positive-tests limit window h k) (
          rw same.0 (
            ap (λ m. m >>= λ n. ok ((if d.0.is_allowed then 1 else 0) + n)) rest
            ∙ ap ok (
                ap (λ v. (if d.0.is_allowed then 1 else 0) + min (length times) (limit - v)) after
                ∙ counted d.0.is_allowed limit (value key s) (length times) allowed)))
