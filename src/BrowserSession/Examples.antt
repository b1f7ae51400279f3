-- ===== src/BrowserSession/Examples.antt =====
-- Concrete logins.
use job_searching_assistant.Prelude.{
  ◌≡◌, refl, ◌≢◌, ◌⊎◌, true, false, some, none, [], ◌∷◌, ok, raise, ℕ, string_eq, pair_eq,
}
use mathlib.Core.List.{Memᴰ}
use job_searching_assistant.Prelude.Table.{find}
use job_searching_assistant.BrowserSession.{
  authenticating, ready, verified_live, login_cancelled, next_state, is_usable,
}
use job_searching_assistant.BrowserSession.Service.{
  SiteKey, BrowserSessionRow, BrowserSessionStateRow, SessionDb, current, can_apply_event, apply,
  reconcile_waiting, record_verification,
}
use job_searching_assistant.BrowserSession.Outcomes.{
  apply-can_apply, record_verification-probed_state, probed_state, reconcile_waiting_total,
  window_is_gone,
}
use job_searching_assistant.BrowserSession.Verified.{
  start, applies, last_accepted, Reachable-IsVerified,
}

abbrev site : SiteKey
site = ("u", "hh")

abbrev stored_login : BrowserSessionRow
stored_login = record { user_id = "u"; site_key = "hh"; status = "available" }

-- A login that was stored before its state was tracked.
abbrev legacy : SessionDb
legacy = record { stored = stored_login ∷ []; states = [] }

abbrev waiting : SessionDb
waiting = record {
  stored = [];
  states =
      record {
        user_id = "u";
        site_key = "hh";
        state = authenticating;
        last_verified_at = none;
        last_error = none;
        updated_at = 10;
      }
      ∷ [];
}

legacy-usable : is_usable (current site legacy).state ≡ true
unfolding is_usable current find
legacy-usable = refl

apply-can_apply_example :
    ((can_apply_event site login_cancelled legacy ≡ false)
      × (apply site login_cancelled none 20 legacy
          ≡ raise (record { state = (current site legacy).state; event = login_cancelled })))
    ⊎ ((can_apply_event site login_cancelled legacy ≡ true)
        × (db' : SessionDb) × (apply site login_cancelled none 20 legacy
            ≡ ok (current site db', db'))
        × (next_state (current site legacy).state login_cancelled ≡ ok (current site db').state))
apply-can_apply_example = apply-can_apply site login_cancelled none 20 legacy

record_verification-probed_state_example :
    (db' : SessionDb) × (record_verification site false none 20 21 legacy
      ≡ (ok (current site db'), db'))
    × ((current site db').state ≡ probed_state false)
record_verification-probed_state_example =
    record_verification-probed_state site false none 20 21 legacy legacy-usable

reconcile_waiting_total_example :
    (db' : SessionDb) × (reconcile_waiting site (some false) 40 waiting
      ≡ ok (current site db', db'))
    × (((window_is_gone site (some false) 40 waiting ≡ false) × (db' ≡ waiting))
        ⊎ ((window_is_gone site (some false) 40 waiting ≡ true)
            × ((current site db').state ≢ authenticating)))
reconcile_waiting_total_example = reconcile_waiting_total site (some false) 40 waiting

abbrev verified_row : BrowserSessionStateRow
verified_row = record {
  user_id = "u";
  site_key = "hh";
  state = ready;
  last_verified_at = some 20;
  last_error = none;
  updated_at = 20;
}

abbrev verified : SessionDb
verified = record { stored = stored_login ∷ []; states = verified_row ∷ [] }

probed : apply site verified_live none 20 legacy ≡ ok (current site verified, verified)
unfolding apply current find
probed = refl

Reachable-IsVerified_example :
    (t : ℕ) × (verified_row.last_verified_at ≡ some t)
    × (last_accepted site ((site, verified_live, 20) ∷ []) ≡ some t)
Reachable-IsVerified_example =
    Reachable-IsVerified {row = verified_row}
      (applies (stored_login ∷ []) site verified_live none 20 (current site verified) verified start
        probed)
      (Memᴰ.head refl) refl
