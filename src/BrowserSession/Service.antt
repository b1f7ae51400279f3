-- ===== src/BrowserSession/Service.antt =====
-- services/browser_session_state.py: BrowserSessionStateService. A row's key is the pair of user and
-- site. All stored times have a time zone, so `_aware` is the identity.
use job_searching_assistant.Prelude.{
  ℕ, ◌+◌, Bool, true, false, ◌||◌, not, Option, some, none, List, [], ◌∷◌, ◌++◌, String, ltb, ◌==◌,
  elem, string_eq, pair_eq, if◌then◌else◌, Result, ok, raise, ◌>>=◌, take_chars,
}
use job_searching_assistant.Prelude.Table.{find, put}
use job_searching_assistant.BrowserSession.{
  BrowserSessionState, disconnected, authenticating, authenticated, reauth_required, session_eq,
  BrowserSessionEvent, login_started, login_confirmed, login_cancelled, verified_live,
  verified_dead, expiry_acknowledged, IllegalSessionTransition, next_state, can_apply,
}

abbrev pub SiteKey : Type 0
SiteKey = String × String

pub record BrowserSessionRow : Type 0 where
  pub user_id : String
  pub site_key : String
  pub status : String

pub record BrowserSessionStateRow : Type 0 where
  pub user_id : String
  pub site_key : String
  pub state : BrowserSessionState
  pub last_verified_at : Option ℕ
  pub last_error : Option String
  pub updated_at : ℕ

pub record SessionDb : Type 0 where
  pub stored : List BrowserSessionRow
  pub states : List BrowserSessionStateRow

pub record SessionSnapshot : Type 0 where
  pub state : BrowserSessionState
  pub last_verified_at : Option ℕ
  pub last_error : Option String
  pub updated_at : Option ℕ

abbrev pub stored_key : BrowserSessionRow → SiteKey
stored_key row = (row.user_id, row.site_key)

abbrev pub state_key : BrowserSessionStateRow → SiteKey
state_key row = (row.user_id, row.site_key)

-- STALE_WINDOW_GRACE, in seconds.
abbrev stale_window_grace : ℕ
stale_window_grace = 15

unfoldable pub has_usable_stored_session : SiteKey → SessionDb → Bool
has_usable_stored_session key db = elim (find stored_key key db.stored) [
  | none ↦ false
  | some stored ↦ elem stored.status ("available" ∷ "active" ∷ [])
]

unfoldable pub legacy_state : SiteKey → SessionDb → BrowserSessionState
legacy_state key db = elim (find stored_key key db.stored) [
  | none ↦ disconnected
  | some stored ↦
      if elem stored.status ("available" ∷ "active" ∷ []) then authenticated else reauth_required
]

abbrev snapshot_of : BrowserSessionStateRow → SessionSnapshot
snapshot_of row = record {
  state = row.state;
  last_verified_at = row.last_verified_at;
  last_error = row.last_error;
  updated_at = some row.updated_at;
}

unfoldable pub current : SiteKey → SessionDb → SessionSnapshot
unfolding legacy_state
current key db = elim (find state_key key db.states) [
  | some row ↦ snapshot_of row
  | none ↦ record {
    state = legacy_state key db;
    last_verified_at = none;
    last_error = none;
    updated_at = none;
  }
]

-- BrowserSessionStateService.can_apply
unfoldable pub can_apply_event : SiteKey → BrowserSessionEvent → SessionDb → Bool
unfolding current can_apply
can_apply_event key event db = can_apply (current key db).state event

-- The fields that `apply` sets besides the state and `updated_at`.
unfoldable pub marked :
    BrowserSessionEvent
    → (error : Option String) (now : ℕ) → BrowserSessionStateRow
    → BrowserSessionStateRow
marked verified_live error now row = record row { last_verified_at = some now; last_error = none }
marked login_confirmed error now row = record row { last_error = none }
marked login_started error now row = record row { last_error = none }
marked event none now row = row
marked event (some error) now row = record row { last_error = some (take_chars 1000 error) }

-- The row that `apply` writes over, or adds.
unfoldable pub applied_row :
    SiteKey
    → BrowserSessionState
    → BrowserSessionEvent
    → (error : Option String) (now : ℕ) → Option BrowserSessionStateRow
    → BrowserSessionStateRow
unfolding marked
applied_row key target event error now (some row) =
    marked event error now (record row { state = target; updated_at = now })
applied_row key target event error now none = marked event error now (record {
  user_id = key.0;
  site_key = key.1;
  state = target;
  last_verified_at = none;
  last_error = none;
  updated_at = now;
})

abbrev pub stored_row :
    Option BrowserSessionStateRow → BrowserSessionStateRow → SessionDb → SessionDb
stored_row (some old) row db = record db { states = put state_key row db.states }
stored_row none row db = record db { states = db.states ++ row ∷ [] }

-- BrowserSessionStateService.apply. A refused event leaves the database as it is.
unfoldable pub apply :
    SiteKey
    → BrowserSessionEvent
    → (error : Option String) (now : ℕ) → SessionDb
    → Result IllegalSessionTransition (SessionSnapshot × SessionDb)
unfolding current next_state applied_row
apply key event error now db = next_state (current key db).state event >>= λ target.
    let old = find state_key key db.states in
    let db' = stored_row old (applied_row key target event error now old) db in
    ok (current key db', db')

-- BrowserSessionStateService.cancel_login
unfoldable pub cancel_login :
    SiteKey
    → (error : Option String) (now : ℕ) → SessionDb
    → Result IllegalSessionTransition (SessionSnapshot × SessionDb)
unfolding has_usable_stored_session apply
cancel_login key error now db =
    if has_usable_stored_session key db
    then apply key login_confirmed none now db
    else apply key login_cancelled error now db

abbrev pub is_recent : Option ℕ → (now : ℕ) → Bool
is_recent none now = false
is_recent (some updated_at) now = ltb now (updated_at + stale_window_grace)

-- BrowserSessionStateService.reconcile_waiting
unfoldable pub reconcile_waiting :
    SiteKey
    → (worker_is_waiting : Option Bool) (now : ℕ) → SessionDb
    → Result IllegalSessionTransition (SessionSnapshot × SessionDb)
unfolding current cancel_login
reconcile_waiting key (some false) now db =
    let snapshot = current key db in
    if not (snapshot.state == authenticating) || is_recent snapshot.updated_at now
    then ok (snapshot, db)
    else cancel_login key (some "Login window is no longer open") now db
reconcile_waiting key worker_is_waiting now db = ok (current key db, db)

abbrev pub error_or : Option String → String → String
error_or none default = default
error_or (some error) default = if error == "" then default else error

-- BrowserSessionStateService.record_verification. Its first `apply` commits, so an exception of the
-- second leaves the first one's database.
unfoldable pub record_verification :
    SiteKey
    → (is_live : Bool) (error : Option String) (now later : ℕ) → SessionDb
    → Result IllegalSessionTransition SessionSnapshot × SessionDb
unfolding apply
record_verification key true error now later db = elim (apply key verified_live none now db) [
  | ok (snapshot, db') ↦ (ok snapshot, db')
  | raise e ↦ (raise e, db)
]
record_verification key false error now later db =
    elim (apply key verified_dead
      (some (error_or error "The site no longer accepts the saved session")) now db) [
        | raise e ↦ (raise e, db)
        | ok (snapshot, db') ↦ elim (apply key expiry_acknowledged none later db') [
          | ok (snapshot', db'') ↦ (ok snapshot', db'')
          | raise e ↦ (raise e, db')
        ]
      ]
