-- ===== src/Coordination.antt =====
-- workers/coordination.py: the leases of RedisCoordinator. The Redis commands that it uses are an
-- interface; the two scripts are run as written, each at once. `token` is the generated owner token.
-- RateLimit has the rate limit of a domain.
pub mod RateLimit
mod Examples
use job_searching_assistant.Prelude.{
  ℕ, ◌≤◌, ◌≡◌, ◌≢◌, refl, sym, ap, ◌∙◌, subst, ◌⊎◌, inl, inr, Bool, true, false, Option, some, none,
  String, arith, ltb, nat_beq, ◌==◌, string_eq, if◌then◌else◌, Result, ok, raise, Bool-cases,
  Option-cases, some-injective, beq_refl,
}
use Prim.Native.String.{◌++◌ as str_append}

-- SET with NX and EX, GET, DEL and EXPIRE. A key that has expired is absent for all of them.
pub record Redis : Type 1 where
  pub Store : Type 0
  pub get : (name : String) → Store → Option String
  pub set_nx : (name value : String) (ex : ℕ) → Store → Bool × Store
  pub del : (name : String) → Store → ℕ × Store
  pub expire : (name seconds : String) → Store → ℕ × Store

-- What the documentation of these commands says of one key.
pub record IsRedis (redis : Redis) : Type 0 where
  pub set_nx-absent :
      (name value : String) (ex : ℕ) (s : redis.Store)
      → redis.get name s ≡ none
      → ((redis.set_nx name value ex s).0 ≡ true)
        × (redis.get name (redis.set_nx name value ex s).1 ≡ some value)
  pub set_nx-present :
      (name value old : String) (ex : ℕ) (s : redis.Store)
      → redis.get name s ≡ some old
      → redis.set_nx name value ex s ≡ (false, s)
  pub del-present :
      (name old : String) (s : redis.Store)
      → redis.get name s ≡ some old
      → ((redis.del name s).0 ≡ 1) × (redis.get name (redis.del name s).1 ≡ none)

pub record WorkerLease : Type 0 where
  pub resource_key : String
  pub owner_token : String
  pub expires_in_seconds : ℕ

pub data LeaseError : Type 0 where
  bad_seconds : LeaseError  -- ValueError

-- RedisCoordinator._lease_key
abbrev pub lease_key : (namespace resource : String) → String
lease_key namespace resource = str_append namespace (str_append ":lease:" resource)

module _ (redis : Redis) (namespace : String) where
  open redis use {Store, get, set_nx, del, expire}

  abbrev granted : (token resource : String) (lease_seconds : ℕ) → Bool → Option WorkerLease
  granted token resource lease_seconds false = none
  granted token resource lease_seconds true =
      some (record {
        resource_key = resource;
        owner_token = token;
        expires_in_seconds = lease_seconds;
      })

  -- RedisCoordinator.acquire_lease
  unfoldable pub acquire_lease :
      (token resource : String) (lease_seconds : ℕ)
      → Store
      → Result LeaseError (Option WorkerLease × Store)
  acquire_lease token resource lease_seconds s =
      if ltb lease_seconds 1
      then raise bad_seconds
      else ok (
        granted token resource lease_seconds
            (set_nx (lease_key namespace resource) token lease_seconds s).0,
        (set_nx (lease_key namespace resource) token lease_seconds s).1,
      )

  -- `redis.call('get', KEYS[1]) == ARGV[1]`
  unfoldable pub is_owner : WorkerLease → Store → Bool
  is_owner lease s = elim (get (lease_key namespace lease.resource_key) s) [
    | none ↦ false
    | some token ↦ token == lease.owner_token
  ]

  -- RedisCoordinator.release_lease with _RELEASE_SCRIPT.
  unfoldable pub release_lease : WorkerLease → Store → Bool × Store
  unfolding is_owner
  release_lease lease s =
      if is_owner lease s
      then (let (deleted, s') = del (lease_key namespace lease.resource_key) s in
          (nat_beq deleted 1, s'))
      else (false, s)

  -- RedisCoordinator.renew_lease with _RENEW_SCRIPT. `seconds` spells the lease's seconds.
  unfoldable pub renew_lease : (seconds : ℕ → String) → WorkerLease → Store → Bool × Store
  unfolding is_owner
  renew_lease seconds lease s =
      if is_owner lease s
      then (let (renewed, s') =
            expire (lease_key namespace lease.resource_key) (seconds lease.expires_in_seconds) s in
          (nat_beq renewed 1, s'))
      else (false, s)

module _ (redis : Redis) (laws : IsRedis redis) (namespace : String) where
  open redis use {Store, get, set_nx}

  acquire_lease-free :
      (token resource : String) (seconds : ℕ) (s : Store)
      → ltb seconds 1 ≡ false
      → get (lease_key namespace resource) s ≡ none
      → (s' : Store) × (acquire_lease redis namespace token resource seconds s
          ≡ ok (granted redis namespace token resource seconds true, s'))
        × (get (lease_key namespace resource) s' ≡ some token)
  unfolding acquire_lease
  acquire_lease-free token resource seconds s pos absent =
      let (did, stored) =
        laws.set_nx-absent (lease_key namespace resource) token seconds s absent in
      (
        (set_nx (lease_key namespace resource) token seconds s).1,
        rw (pos, acquire_lease, did) refl,
        stored,
      )

  acquire_lease-taken :
      (token resource old : String) (seconds : ℕ) (s : Store)
      → ltb seconds 1 ≡ false
      → get (lease_key namespace resource) s ≡ some old
      → acquire_lease redis namespace token resource seconds s ≡ ok (none, s)
  unfolding acquire_lease
  acquire_lease-taken token resource old seconds s pos present =
      rw
        (
          pos,
          acquire_lease,
          laws.set_nx-present (lease_key namespace resource) token old seconds s present,
        )
        refl

  -- A stored lease is released by its owner and by nobody else.
  release_lease-owner :
      (lease : WorkerLease) (s : Store)
      → get (lease_key namespace lease.resource_key) s ≡ some lease.owner_token
      → (s' : Store) × (release_lease redis namespace lease s ≡ (true, s'))
        × (get (lease_key namespace lease.resource_key) s' ≡ none)
  unfolding release_lease is_owner
  release_lease-owner lease s held =
      let (did, gone) =
        laws.del-present (lease_key namespace lease.resource_key) lease.owner_token s held in
      (
        (redis.del (lease_key namespace lease.resource_key) s).1,
        rw (held, release_lease, is_owner, beq_refl lease.owner_token, did) refl,
        gone,
      )

  release_lease-other :
      (lease : WorkerLease) (token : String) (s : Store)
      → get (lease_key namespace lease.resource_key) s ≡ some token
      → token ≢ lease.owner_token
      → release_lease redis namespace lease s ≡ (false, s)
  unfolding release_lease is_owner
  release_lease-other lease token s held other = elim (Bool-cases (token == lease.owner_token)) [
    | inl same ↦ absurd (other ((string_eq.agrees token lease.owner_token).0 same))
    | inr differs ↦ rw (held, release_lease, is_owner, differs) refl
  ]

  -- With a store that behaves as Redis documents: when a resource is free, a worker gets its lease;
  -- then another worker gets none and changes nothing, a lease with another token does not release
  -- it, and its own release succeeds and frees the resource.
  pub acquire_lease-exclusive :
      (token token' resource : String) (seconds seconds' : ℕ) (s : Store)
      → 1 ≤ seconds
      → 1 ≤ seconds'
      → token' ≢ token
      → get (lease_key namespace resource) s ≡ none
      → (lease : WorkerLease) × (s' : Store) × (s'' : Store) × (acquire_lease redis namespace token
            resource seconds s
          ≡ ok (some lease, s'))
        × (acquire_lease redis namespace token' resource seconds' s' ≡ ok (none, s'))
        × (release_lease redis namespace (record lease { owner_token = token' }) s' ≡ (false, s'))
        × (release_lease redis namespace lease s' ≡ (true, s''))
        × (get (lease_key namespace resource) s'' ≡ none)
  acquire_lease-exclusive token token' resource seconds seconds' s pos pos' other absent =
      let lease : WorkerLease = record {
        resource_key = resource;
        owner_token = token;
        expires_in_seconds = seconds;
      } in
      let (s', acquired, held) =
        acquire_lease-free token resource seconds s (ground arith) absent in
      let (s'', released, free) = release_lease-owner lease s' held in
      (
        lease,
        s',
        s'',
        acquired,
        acquire_lease-taken token' resource token seconds' s' (ground arith) held,
        release_lease-other (record lease { owner_token = token' }) token s' held
            (λ e. other (sym e)),
        released,
        free,
      )
