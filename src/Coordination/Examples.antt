-- ===== src/Coordination/Examples.antt =====
-- Concrete stores for the leases and the counters: functions from keys, without expiry.
use job_searching_assistant.Prelude.{
  ◌+◌, ◌-◌, min, [], ◌∷◌, ℕ, ◌≡◌, ◌≢◌, refl, Bool, true, false, Option, some, none, String, arith,
  ◌==◌, string_eq, if◌then◌else◌, ok, beq_refl,
}
use job_searching_assistant.Coordination.RateLimit.{
  RedisCounters, IsCounting, check_all, check_all-allowed,
}
use job_searching_assistant.Coordination.{
  Redis, IsRedis, WorkerLease, acquire_lease, release_lease, acquire_lease-exclusive,
}

abbrev Keys : Type 0
Keys = String → Option String

abbrev write : String → Option String → Keys → Keys
write name value s k = if k == name then value else s k

abbrev set_absent : (name value : String) → Option String → Keys → Bool × Keys
set_absent name value none s = (true, write name (some value) s)
set_absent name value (some old) s = (false, s)

abbrev del_present : (name : String) → Option String → Keys → ℕ × Keys
del_present name none s = (0, s)
del_present name (some old) s = (1, write name none s)

abbrev keys : Redis
keys = record {
  Store = Keys;
  get = λ name s. s name;
  set_nx = λ name value ex s. set_absent name value (s name) s;
  del = λ name s. del_present name (s name) s;
  expire = λ name seconds s. (1, s);
}

written : (name : String) (value : Option String) (s : Keys) → write name value s name ≡ value
written name value s = rw (beq_refl name) refl

keys-IsRedis : IsRedis keys
keys-IsRedis = record {
  set_nx-absent = λ name value ex s h. rw h (refl, written name (some value) s);
  set_nx-present = λ name value old ex s h. rw h refl;
  del-present = λ name old s h. rw h (refl, written name none s);
}

abbrev no_keys : Keys
no_keys k = none

tokens_differ : ◌≢◌ {A = String} "b" "a"
tokens_differ e = let h : false ≡ true = (string_eq.agrees "b" "a").1 e in cc

acquire_lease-exclusive_example :
    (lease : WorkerLease) × (s' : Keys) × (s'' : Keys) × (acquire_lease keys "recruitment" "a"
        "task" 120 no_keys
      ≡ ok (some lease, s'))
    × (acquire_lease keys "recruitment" "b" "task" 120 s' ≡ ok (none, s'))
    × (release_lease keys "recruitment" (record lease { owner_token = "b" }) s' ≡ (false, s'))
    × (release_lease keys "recruitment" lease s' ≡ (true, s''))
    × (s'' "recruitment:lease:task" ≡ none)
acquire_lease-exclusive_example =
    acquire_lease-exclusive keys keys-IsRedis "recruitment" "a" "b" "task" 120 120 no_keys
      (omega arith) (omega arith) tokens_differ refl

-- Counters as a function from keys.
abbrev Counts : Type 0
Counts = String → ℕ

abbrev counters : RedisCounters
counters = record {
  Store = Counts;
  incr = λ name s. (s name + 1, λ k. if k == name then s name + 1 else s k);
  expire = λ name seconds s. s;
}

counters-IsCounting : IsCounting counters
counters-IsCounting = record {
  value = λ name s. s name;
  incr-answer = λ name s. refl;
  incr-value = λ name s. rw (beq_refl name) refl;
  expire-value = λ name seconds s. refl;
}

abbrev as_is : String → String
as_is s = s

abbrev one_window : ℕ → String
one_window n = "0"

abbrev no_counts : Counts
no_counts k = 0

check_all-allowed_example :
    check_all counters "recruitment" as_is one_window "example.com" 2 60
      (1 ∷ 20 ∷ 59 ∷ [])
      no_counts
    ≡ ok (min 3 (2 - 0))
unfolding counters-IsCounting
check_all-allowed_example =
    check_all-allowed counters "recruitment" as_is one_window counters-IsCounting "example.com" 2 60
      0 (1 ∷ 20 ∷ 59 ∷ []) no_counts (omega arith) (omega arith) (refl, (refl, (refl, tt)))
