-- ===== src/BrowserSession/Outcomes.antt =====
-- BrowserSessionStateService: the events that it accepts and the states that its operations leave.
use job_searching_assistant.Prelude.{
  ℕ, ◌≡◌, refl, sym, ap, ◌∙◌, ◌≢◌, ◌⊎◌, inl, inr, subst, Bool, true, false, ◌&&◌, not, Option, some,
  none, String, arith, ◌==◌, string_eq, pair_eq, ok, raise, Bool-cases, Option-cases,
}
use job_searching_assistant.Prelude.Table.{find, put, find-key, find-put_self, find-append_new}
use job_searching_assistant.BrowserSession.{
  BrowserSessionState, disconnected, authenticating, authenticated, ready, expired, reauth_required,
  login_required, session_eq, session_beq_iff, BrowserSessionEvent, login_confirmed,
  login_cancelled, verified_live, verified_dead, expiry_acknowledged, session_target, next_state,
  can_apply, is_usable,
}
use job_searching_assistant.BrowserSession.Service.{
  SiteKey, BrowserSessionStateRow, SessionDb, state_key, current, can_apply_event, marked,
  applied_row, stored_row, apply, cancel_login, has_usable_stored_session, reconcile_waiting,
  record_verification, is_recent, error_or,
}

marked-key :
    (event : BrowserSessionEvent) (error : Option String) (now : ℕ) (row : BrowserSessionStateRow)
    → state_key (marked event error now row) ≡ state_key row
unfolding marked
marked-key event none now row = ground arith
marked-key event (some error) now row = ground arith

marked-state :
    (event : BrowserSessionEvent) (error : Option String) (now : ℕ) (row : BrowserSessionStateRow)
    → (marked event error now row).state ≡ row.state
unfolding marked
marked-state event none now row = ground arith
marked-state event (some error) now row = ground arith

module _ (key : SiteKey) (target : BrowserSessionState) (event : BrowserSessionEvent)
    (error : Option String) (now : ℕ) where
  pub applied_row-key :
      (old : Option BrowserSessionStateRow)
      → ((row : BrowserSessionStateRow) → old ≡ some row → state_key row ≡ key)
      → state_key (applied_row key target event error now old) ≡ key
  unfolding applied_row
  applied_row-key none h = marked-key event error now _
  applied_row-key (some row) h = marked-key event error now _ ∙ h row refl

  pub applied_row-state :
      (old : Option BrowserSessionStateRow)
      → (applied_row key target event error now old).state ≡ target
  unfolding applied_row
  applied_row-state none = marked-state event error now _
  applied_row-state (some row) = marked-state event error now _

  -- The row that is written is the one that is found.
  pub find-stored_row :
      (db : SessionDb) (old : Option BrowserSessionStateRow)
      → find state_key key db.states ≡ old
      → find state_key key (stored_row old (applied_row key target event error now old) db).states
        ≡ some (applied_row key target event error now old)
  find-stored_row db none h =
      find-append_new state_key key db.states _ h (applied_row-key none (λ row e. cc))
  find-stored_row db (some row) h =
      let row' = applied_row key target event error now (some row) in
      let same = applied_row-key (some row) (λ r e. find-key state_key key db.states r (h ∙ e)) in
      subst (λ k. find state_key k (put state_key row' db.states) ≡ some row') same
        (find-put_self state_key row' db.states row (rw same h))

module _ (key : SiteKey) (event : BrowserSessionEvent) (error : Option String) (now : ℕ)
    (db : SessionDb) where
  -- The database after an event that leads to `target`.
  abbrev pub applied : BrowserSessionState → SessionDb
  applied target =
      stored_row (find state_key key db.states)
        (applied_row key target event error now (find state_key key db.states)) db

  pub apply-ok :
      (target : BrowserSessionState)
      → session_target (current key db).state event ≡ some target
      → apply key event error now db ≡ ok (current key (applied target), applied target)
  unfolding apply next_state
  apply-ok target h = rw (h, next_state, apply) refl

  applied-current : (target : BrowserSessionState) → (current key (applied target)).state ≡ target
  unfolding current
  applied-current target =
      rw
        (find-stored_row key target event error now db (find state_key key db.states) refl, current)
        (applied_row-state key target event error now (find state_key key db.states))

pub apply-refused :
    (key : SiteKey) (event : BrowserSessionEvent) (error : Option String) (now : ℕ) (db : SessionDb)
    → session_target (current key db).state event ≡ none
    → apply key event error now db
      ≡ raise (record { state = (current key db).state; event = event })
unfolding apply next_state
apply-refused key event error now db h = rw (h, next_state, apply) refl

-- BrowserSessionStateService.apply succeeds exactly when can_apply allows the event, and then the
-- state that is read back is the one that the transition table gives.
pub apply-can_apply :
    (key : SiteKey) (event : BrowserSessionEvent) (error : Option String) (now : ℕ) (db : SessionDb)
    → ((can_apply_event key event db ≡ false)
        × (apply key event error now db
            ≡ raise (record { state = (current key db).state; event = event })))
      ⊎ ((can_apply_event key event db ≡ true)
          × (db' : SessionDb) × (apply key event error now db ≡ ok (current key db', db'))
          × (next_state (current key db).state event ≡ ok (current key db').state))
unfolding can_apply_event can_apply next_state
apply-can_apply key event error now db =
    elim (Option-cases (session_target (current key db).state event)) [
      | inl refused ↦ inl (rw refused refl, apply-refused key event error now db refused)
      | inr (target, allowed) ↦
          let found : next_state (current key db).state event ≡ ok target =
            rw (allowed, next_state) refl in
          inr (
            rw allowed refl,
            applied key event error now db target,
            apply-ok key event error now db target allowed,
            found ∙ ap ok (sym (applied-current key event error now db target)),
          )
    ]

-- What a probe's answer leads to.
abbrev pub probed_state : (is_live : Bool) → BrowserSessionState
probed_state true = ready
probed_state false = reauth_required

usable_target :
    (state : BrowserSessionState)
    → is_usable state ≡ true
    → (session_target state verified_live ≡ some ready)
      × (session_target state verified_dead ≡ some expired)
unfolding session_target is_usable
usable_target disconnected h = cc
usable_target state h = ground arith

-- In a usable state record_verification does not raise, and leaves READY when the probe found the
-- session live, else REAUTH_REQUIRED.
pub record_verification-probed_state :
    (key : SiteKey) (is_live : Bool) (error : Option String) (now later : ℕ) (db : SessionDb)
    → is_usable (current key db).state ≡ true
    → (db' : SessionDb) × (record_verification key is_live error now later db
        ≡ (ok (current key db'), db'))
      × ((current key db').state ≡ probed_state is_live)
unfolding record_verification
record_verification-probed_state key true error now later db usable =
    let (live, dead) = usable_target (current key db).state usable in
    (
      applied key verified_live none now db ready,
      rw (apply-ok key verified_live none now db ready live, record_verification) refl,
      applied-current key verified_live none now db ready,
    )
record_verification-probed_state key false error now later db usable =
    let (live, dead) = usable_target (current key db).state usable in
    let message = some (error_or error "The site no longer accepts the saved session") in
    let db' = applied key verified_dead message now db expired in
    let is_expired = applied-current key verified_dead message now db expired in
    let next = ap (λ s. session_target s expiry_acknowledged) is_expired in
    (
      applied key expiry_acknowledged none later db' reauth_required,
      rw
          (
            apply-ok key verified_dead message now db expired dead,
            apply-ok key expiry_acknowledged none later db' reauth_required
                (unfold session_target in next),
            record_verification,
          )
          refl,
      applied-current key expiry_acknowledged none later db' reauth_required,
    )

cancel_login-left :
    (key : SiteKey) (error : Option String) (now : ℕ) (db : SessionDb)
    → (current key db).state ≡ authenticating
    → (db' : SessionDb) × (cancel_login key error now db ≡ ok (current key db', db'))
      × ((current key db').state ≢ authenticating)
unfolding cancel_login session_target
cancel_login-left key error now db waiting = elim (Bool-cases (has_usable_stored_session key db)) [
  | inl usable ↦ (
    applied key login_confirmed none now db authenticated,
    rw (usable, cancel_login)
        (apply-ok key login_confirmed none now db authenticated (rw waiting refl)),
    λ e. cc (applied-current key login_confirmed none now db authenticated),
  )
  | inr unusable ↦ (
    applied key login_cancelled error now db login_required,
    rw (unusable, cancel_login)
        (apply-ok key login_cancelled error now db login_required (rw waiting refl)),
    λ e. cc (applied-current key login_cancelled error now db login_required),
  )
]

-- The worker answers that no window waits, and the login is not a recent one.
abbrev pub window_is_gone : SiteKey → (worker_is_waiting : Option Bool) (now : ℕ) → SessionDb → Bool
window_is_gone key (some false) now db =
    (current key db).state == authenticating && not (is_recent (current key db).updated_at now)
window_is_gone key worker_is_waiting now db = false

-- reconcile_waiting does not raise. When the worker answers that no login window waits, the state is
-- AUTHENTICATING and was not written within the last 15 seconds, the state that it leaves is another
-- one; else it changes nothing.
pub reconcile_waiting_total :
    (key : SiteKey) (worker_is_waiting : Option Bool) (now : ℕ) (db : SessionDb)
    → (db' : SessionDb) × (reconcile_waiting key worker_is_waiting now db
        ≡ ok (current key db', db'))
      × (((window_is_gone key worker_is_waiting now db ≡ false) × (db' ≡ db))
          ⊎ ((window_is_gone key worker_is_waiting now db ≡ true)
              × ((current key db').state ≢ authenticating)))
unfolding reconcile_waiting
reconcile_waiting_total key none now db = (db, refl, inl (refl, refl))
reconcile_waiting_total key (some true) now db = (db, refl, inl (refl, refl))
reconcile_waiting_total key (some false) now db =
    elim (Bool-cases ((current key db).state == authenticating)) [
      | inr other ↦ (db, rw (other, reconcile_waiting) refl, inl (rw other refl, refl))
      | inl waiting ↦ elim (Bool-cases (is_recent (current key db).updated_at now)) [
        | inl recent ↦ (
          db,
          rw (waiting, recent, reconcile_waiting) refl,
          inl (rw (waiting, recent) refl, refl),
        )
        | inr stale ↦
            let (db', e, left) =
              cancel_login-left key (some "Login window is no longer open") now db
                ((session_beq_iff (current key db).state authenticating).0 waiting) in
            (db', rw (waiting, stale, reconcile_waiting) e, inr (rw (waiting, stale) refl, left))
      ]
    ]
