-- ===== src/BrowserSession/Verified.antt =====
-- What a stored READY state stands for.
use job_searching_assistant.Prelude.{
  ℕ, ◌≡◌, refl, sym, ◌∙◌, inl, inr, subst, ap, ◌≢◌, Bool, true, false, ◌||◌, ◌&&◌, if◌then◌else◌,
  not, Option, some, none, List, [], ◌∷◌, String, arith, ◌==◌, string_eq, pair_eq, All, All-append,
  mem-All, ok, is_some, Bool-cases, Option-cases, ok-injective,
}
use mathlib.Core.List.{Memᴰ}
use job_searching_assistant.Prelude.Table.{
  find, put-All, find-key, find-append_ne, find-put_ne, find-mem, HasUniqueKeys, HasUniqueKeys-put,
  HasUniqueKeys-append,
}
use job_searching_assistant.BrowserSession.{
  BrowserSessionState, disconnected, ready, session_eq, session_beq_iff, BrowserSessionEvent,
  verified_live, session_target,
}
use job_searching_assistant.BrowserSession.Service.{
  SiteKey, BrowserSessionRow, BrowserSessionStateRow, SessionDb, SessionSnapshot, state_key,
  current, marked, applied_row, stored_row, apply,
}
use job_searching_assistant.BrowserSession.Outcomes.{
  applied, applied_row-key, applied_row-state, find-stored_row, apply-ok, apply-refused,
}

-- READY stands for a session that the site has confirmed.
abbrev pub IsVerified : BrowserSessionStateRow → Type 0
IsVerified row = (not (row.state == ready) || is_some row.last_verified_at) ≡ true

ready_target :
    (state target : BrowserSessionState) (event : BrowserSessionEvent)
    → session_target state event ≡ some target
    → (target == ready) ≡ true
    → event ≡ verified_live
unfolding session_target
ready_target disconnected target event h r = ground arith
ready_target state target event h r = ground arith

live_row-IsVerified :
    (key : SiteKey) (target : BrowserSessionState) (error : Option String) (now : ℕ)
    (old : Option BrowserSessionStateRow)
    → IsVerified (applied_row key target verified_live error now old)
unfolding applied_row marked
live_row-IsVerified key target error now none = ground arith
live_row-IsVerified key target error now (some row) = ground arith

applied_row-IsVerified :
    (key : SiteKey) (state target : BrowserSessionState) (event : BrowserSessionEvent)
    (error : Option String) (now : ℕ) (old : Option BrowserSessionStateRow)
    → session_target state event ≡ some target
    → IsVerified (applied_row key target event error now old)
applied_row-IsVerified key state target event error now old h =
    elim (Bool-cases (target == ready)) [
      | inr other ↦ rw (applied_row-state key target event error now old, other) refl
      | inl is_ready ↦
          rw (ready_target state target event h is_ready)
            (live_row-IsVerified key target error now old)
    ]

-- The events that were applied, the latest first, each with its time.
abbrev pub History : Type 0
History = List (SiteKey × BrowserSessionEvent × ℕ)

abbrev pub is_live : BrowserSessionEvent → Bool
is_live verified_live = true
is_live _ = false

-- When the site was last found to accept the session.
abbrev pub last_accepted : SiteKey → History → Option ℕ
last_accepted key [] = none
last_accepted key ((k, event, now) ∷ history) =
    if k == key && is_live event then some now else last_accepted key history

-- The tables of states that applied events lead to, whatever credentials are stored meanwhile. The
-- service writes states by `apply` only.
pub data Reachable : List BrowserSessionStateRow → History → Type 0 where
  start : Reachable [] []
  applies :
      {rows : List BrowserSessionStateRow} {history : History} (stored : List BrowserSessionRow)
      (key : SiteKey) (event : BrowserSessionEvent) (error : Option String) (now : ℕ)
      (snapshot : SessionSnapshot) (db' : SessionDb)
      → Reachable rows history
      → apply key event error now (record { stored = stored; states = rows }) ≡ ok (snapshot, db')
      → Reachable db'.states ((key, event, now) ∷ history)

stored_row-All :
    (old : Option BrowserSessionStateRow) (row : BrowserSessionStateRow) (db : SessionDb)
    → All IsVerified db.states
    → IsVerified row
    → All IsVerified (stored_row old row db).states
stored_row-All (some old) row db a v = put-All state_key IsVerified row db.states a v
stored_row-All none row db a v = All-append IsVerified db.states (row ∷ []) a (v, tt)

applied-All :
    (key : SiteKey) (event : BrowserSessionEvent) (error : Option String) (now : ℕ) (db : SessionDb)
    (target : BrowserSessionState)
    → session_target (current key db).state event ≡ some target
    → All IsVerified db.states
    → All IsVerified (applied key event error now db target).states
applied-All key event error now db target h a =
    stored_row-All (find state_key key db.states)
      (applied_row key target event error now (find state_key key db.states)) db a
      (applied_row-IsVerified key (current key db).state target event error now
        (find state_key key db.states) h)

time_of : Option BrowserSessionStateRow → Option ℕ
time_of none = none
time_of (some row) = row.last_verified_at

-- Every row has the time of the history.
abbrev Tracks : List BrowserSessionStateRow → History → Type 0
Tracks rows history =
    HasUniqueKeys state_key rows
    × ((key : SiteKey) → time_of (find state_key key rows) ≡ last_accepted key history)

written_time :
    (key : SiteKey) (target : BrowserSessionState) (event : BrowserSessionEvent)
    (error : Option String) (now : ℕ) (old : Option BrowserSessionStateRow)
    → (applied_row key target event error now old).last_verified_at
      ≡ (if is_live event then some now else time_of old)
unfolding applied_row marked time_of
written_time key target verified_live error now none = refl
written_time key target verified_live error now (some row) = refl
written_time key target event error now none = ground arith
written_time key target event error now (some row) = ground arith

module _ (key : SiteKey) (row : BrowserSessionStateRow) (db : SessionDb)
    (own : state_key row ≡ key) where
  stored-other :
      (old : Option BrowserSessionStateRow) (k : SiteKey)
      → state_key row ≢ k
      → find state_key k (stored_row old row db).states ≡ find state_key k db.states
  stored-other none k other = find-append_ne state_key k db.states row other
  stored-other (some r) k other = find-put_ne state_key k row db.states other

  stored-HasUniqueKeys :
      (old : Option BrowserSessionStateRow)
      → find state_key key db.states ≡ old
      → HasUniqueKeys state_key db.states
      → HasUniqueKeys state_key (stored_row old row db).states
  stored-HasUniqueKeys none h u =
      HasUniqueKeys-append state_key db.states row u
        (subst (λ k. find state_key k db.states ≡ none) (sym own) h)
  stored-HasUniqueKeys (some r) h u = HasUniqueKeys-put state_key row db.states u

applied-Tracks :
    (key : SiteKey) (event : BrowserSessionEvent) (error : Option String) (now : ℕ) (db : SessionDb)
    (target : BrowserSessionState) (history : History)
    → Tracks db.states history
    → Tracks (applied key event error now db target).states ((key, event, now) ∷ history)
unfolding time_of
applied-Tracks key event error now db target history (unique, times) =
    let old = find state_key key db.states in
    let row = applied_row key target event error now old in
    let own =
      applied_row-key key target event error now old
        (λ r e. find-key state_key key db.states r e) in
    (
      stored-HasUniqueKeys key row db own old refl unique,
      λ k. elim (Bool-cases (key == k)) [
        | inl hit ↦
            let same = (pair_eq.agrees key k).0 hit in
            rw hit (
              subst
                (λ i.
                  time_of (find state_key i (stored_row old row db).states)
                  ≡ (if is_live event then some now else last_accepted i history))
                same
                (ap time_of (find-stored_row key target event error now db old refl)
                  ∙ written_time key target event error now old
                  ∙ ap (λ t. if is_live event then some now else t) (times key)))
        | inr miss ↦
            let other : state_key row ≢ k = λ e. cc ((pair_eq.agrees key k).1 (sym own ∙ e)) in
            rw miss (ap time_of (stored-other key row db own old k other) ∙ times k)
      ],
    )

Reachable-parts :
    {rows : List BrowserSessionStateRow} {history : History}
    → Reachable rows history
    → All IsVerified rows × Tracks rows history
unfolding time_of find
Reachable-parts start = (tt, (tt, λ key. refl))
Reachable-parts (applies {rows} {history} stored key event error now snapshot db' r e) =
    let db : SessionDb = record { stored = stored; states = rows } in
    let (verified, tracks) = Reachable-parts r in
    elim (Option-cases (session_target (current key db).state event)) [
      | inl refused ↦ cc (apply-refused key event error now db refused)
      | inr (target, allowed) ↦
          let same : (
            current key (applied key event error now db target),
            applied key event error now db target,
          )
              ≡ (snapshot, db') =
            ok-injective (sym (apply-ok key event error now db target allowed) ∙ e) in
          subst
            (λ (p : SessionSnapshot × SessionDb).
              All IsVerified p.1.states × Tracks p.1.states ((key, event, now) ∷ history))
            same
            (
              applied-All key event error now db target allowed verified,
              applied-Tracks key event error now db target history tracks,
            )
    ]

present : (o : Option ℕ) → is_some o ≡ true → (t : ℕ) × (o ≡ some t)
present none h = cc
present (some t) h = (t, refl)

-- In every table of states that the service's events lead to, a row that is READY has a time, and
-- it is the time of the last probe of its user and site that found the session accepted.
pub Reachable-IsVerified :
    {rows : List BrowserSessionStateRow} {history : History} {row : BrowserSessionStateRow}
    → Reachable rows history
    → Memᴰ row rows
    → row.state ≡ ready
    → (t : ℕ) × (row.last_verified_at ≡ some t) × (last_accepted (state_key row) history ≡ some t)
unfolding time_of
Reachable-IsVerified {rows} {history} {row} r m e =
    let (verified, (unique, times)) = Reachable-parts r in
    let v = mem-All IsVerified rows m verified in
    let is_ready = (session_beq_iff row.state ready).1 e in
    let timed : is_some row.last_verified_at ≡ true = ground arith in
    let (t, h) = present row.last_verified_at timed in
    let stored = find-mem state_key rows row unique m in
    (t, h, sym (times (state_key row)) ∙ ap time_of stored ∙ h)
