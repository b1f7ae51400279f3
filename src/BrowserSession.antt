-- ===== src/BrowserSession.antt =====
-- domain/browser_session_state.py: the state machine of a user's login on a site. The hints for the
-- dashboard are not modelled.
pub mod Service
pub mod Outcomes
pub mod Verified
mod Examples
use job_searching_assistant.Prelude.{
  ℕ, ◌≡◌, refl, ◌↔◌, Bool, true, Option, some, none, List, [], ◌∷◌, PyEq, nat_beq, index_beq_iff,
  elem, if◌then◌else◌, Result, ok, raise, is_some,
}

pub data BrowserSessionState : Type 0 where
  disconnected login_required authenticating authenticated ready expired reauth_required :
      BrowserSessionState

pub data BrowserSessionEvent : Type 0 where
  login_started login_confirmed login_cancelled login_wall_hit verified_live verified_dead
        expiry_acknowledged state_corrupted state_deleted :
      BrowserSessionEvent

abbrev session_index : BrowserSessionState → ℕ
session_index disconnected = 0
session_index login_required = 1
session_index authenticating = 2
session_index authenticated = 3
session_index ready = 4
session_index expired = 5
session_index reauth_required = 6

abbrev session_of_index : ℕ → BrowserSessionState
session_of_index n =
    if nat_beq n 0
    then disconnected
    else if nat_beq n 1
    then login_required
    else if nat_beq n 2
    then authenticating
    else if nat_beq n 3
    then authenticated
    else if nat_beq n 4
    then ready
    else if nat_beq n 5
    then expired
    else reauth_required

session_of_index-session_index : (s : BrowserSessionState) → session_of_index (session_index s) ≡ s
session_of_index-session_index disconnected = refl
session_of_index-session_index _ = refl

abbrev pub session_beq : BrowserSessionState → BrowserSessionState → Bool
session_beq a b = nat_beq (session_index a) (session_index b)

pub session_beq_iff : (a b : BrowserSessionState) → (session_beq a b ≡ true) ↔ (a ≡ b)
session_beq_iff = index_beq_iff session_index session_of_index session_of_index-session_index

instance abbrev pub session_eq : PyEq BrowserSessionState
session_eq = record { test = session_beq; agrees = session_beq_iff }

-- `_TRANSITIONS`, as a lookup.
unfoldable pub session_target :
    BrowserSessionState → BrowserSessionEvent → Option BrowserSessionState
session_target disconnected login_started = some authenticating
session_target disconnected login_wall_hit = some login_required
session_target login_required login_started = some authenticating
session_target login_required login_wall_hit = some login_required
session_target login_required state_deleted = some disconnected
session_target authenticating login_confirmed = some authenticated
session_target login_required login_confirmed = some authenticated
session_target authenticating login_cancelled = some login_required
session_target authenticating login_started = some authenticating
session_target authenticated verified_live = some ready
session_target authenticated verified_dead = some expired
session_target authenticated login_wall_hit = some expired
session_target authenticated login_started = some authenticating
session_target authenticated state_corrupted = some reauth_required
session_target authenticated state_deleted = some disconnected
session_target ready verified_live = some ready
session_target ready verified_dead = some expired
session_target ready login_wall_hit = some expired
session_target ready login_started = some authenticating
session_target ready state_corrupted = some reauth_required
session_target ready state_deleted = some disconnected
session_target expired expiry_acknowledged = some reauth_required
session_target expired login_started = some authenticating
session_target expired state_deleted = some disconnected
session_target reauth_required login_started = some authenticating
session_target reauth_required login_wall_hit = some reauth_required
session_target reauth_required state_deleted = some disconnected
session_target state event = none

-- USABLE_STATES
unfoldable pub is_usable : BrowserSessionState → Bool
is_usable state = elem state (authenticated ∷ ready ∷ [])

pub record IllegalSessionTransition : Type 0 where
  pub state : BrowserSessionState
  pub event : BrowserSessionEvent

unfoldable pub next_state :
    BrowserSessionState → BrowserSessionEvent → Result IllegalSessionTransition BrowserSessionState
unfolding session_target
next_state state event = elim (session_target state event) [
  | some target ↦ ok target
  | none ↦ raise (record { state = state; event = event })
]

unfoldable pub can_apply : BrowserSessionState → BrowserSessionEvent → Bool
unfolding session_target
can_apply state event = is_some (session_target state event)
