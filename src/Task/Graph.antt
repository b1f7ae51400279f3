-- ===== src/Task/Graph.antt =====
-- The transition diagram of workflow tasks: which states can be left, and for where.
use job_searching_assistant.Prelude.{◌≡◌, refl, ◌≢◌, ◌↔◌, subst, true, arith}
use job_searching_assistant.Task.{
  TaskState, pending, scheduled, running, waiting_for_user, waiting_for_external_system,
  retry_scheduled, completed, failed, cancelled, interrupted, is_allowed,
}

-- `t` can be reached from `s` by allowed transitions.
pub data Reaches (s : TaskState) : TaskState → Type 0 where
  here : Reaches s s
  next : {t : TaskState} (u : TaskState) → Reaches s t → is_allowed t u ≡ true → Reaches s u

-- Nothing leaves COMPLETED.
pub Reaches-completed : (t : TaskState) → Reaches completed t → t ≡ completed
unfolding is_allowed
Reaches-completed t here = refl
Reaches-completed t (next {t = m} u r e) = ground (arith, Reaches-completed m r)

Reaches-running : (s : TaskState) → s ≢ completed → Reaches s running
unfolding is_allowed
Reaches-running pending h = next running (next scheduled here refl) refl
Reaches-running scheduled h = next running here refl
Reaches-running running h = here
Reaches-running waiting_for_user h = next running (next scheduled here refl) refl
Reaches-running waiting_for_external_system h = next running (next scheduled here refl) refl
Reaches-running retry_scheduled h = next running here refl
Reaches-running completed h = absurd (h refl)
Reaches-running failed h = next running (next scheduled here refl) refl
Reaches-running cancelled h = next running (next scheduled here refl) refl
Reaches-running interrupted h = next running (next scheduled here refl) refl

-- Allowed transitions lead from a state to RUNNING exactly when the state is not COMPLETED.
pub Reaches-running_iff : (s : TaskState) → Reaches s running ↔ (s ≢ completed)
Reaches-running_iff s = (
  λ r e. ground (arith, Reaches-completed running (subst (λ t. Reaches t running) e r)),
  Reaches-running s,
)
