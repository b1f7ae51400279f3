-- ===== src/Task.antt =====
-- workflows/task.py and the task types of domain/models.py: the state machine of a durable
-- workflow task and its audit trail. A timestamp is a number (of any fixed unit), and what the
-- source reads from the clock is the argument `now`.
pub mod Trail
pub mod Graph
mod Examples
use job_searching_assistant.Prelude.{
  ℕ, ◌+◌, ◌≡◌, refl, ◌↔◌, Bool, true, List, [], ◌∷◌, ◌++◌, String, PyEq, nat_beq, index_beq_iff,
  ◌==◌, elem, if◌then◌else◌, Result, ok, raise,
}

pub data TaskState : Type 0 where
  pending scheduled running waiting_for_user waiting_for_external_system retry_scheduled completed
        failed cancelled interrupted :
      TaskState

abbrev state_index : TaskState → ℕ
state_index pending = 0
state_index scheduled = 1
state_index running = 2
state_index waiting_for_user = 3
state_index waiting_for_external_system = 4
state_index retry_scheduled = 5
state_index completed = 6
state_index failed = 7
state_index cancelled = 8
state_index interrupted = 9

abbrev state_of_index : ℕ → TaskState
state_of_index n =
    if nat_beq n 0
    then pending
    else if nat_beq n 1
    then scheduled
    else if nat_beq n 2
    then running
    else if nat_beq n 3
    then waiting_for_user
    else if nat_beq n 4
    then waiting_for_external_system
    else if nat_beq n 5
    then retry_scheduled
    else if nat_beq n 6
    then completed
    else if nat_beq n 7
    then failed
    else if nat_beq n 8
    then cancelled
    else interrupted

state_of_index-state_index : (s : TaskState) → state_of_index (state_index s) ≡ s
state_of_index-state_index pending = refl
state_of_index-state_index _ = refl

abbrev pub state_beq : TaskState → TaskState → Bool
state_beq a b = nat_beq (state_index a) (state_index b)

pub state_beq_iff : (a b : TaskState) → (state_beq a b ≡ true) ↔ (a ≡ b)
state_beq_iff = index_beq_iff state_index state_of_index state_of_index-state_index

instance abbrev pub state_eq : PyEq TaskState
state_eq = record { test = state_beq; agrees = state_beq_iff }

pub record TaskTransition : Type 0 where
  pub previous_state : TaskState
  pub new_state : TaskState
  pub reason : String
  pub worker : String
  pub attempt_number : ℕ
  pub evidence : List String
  pub occurred_at : ℕ

-- ALLOWED_TRANSITIONS
unfoldable pub allowed_transitions : TaskState → List TaskState
allowed_transitions pending = scheduled ∷ cancelled ∷ []
allowed_transitions scheduled = running ∷ completed ∷ cancelled ∷ []
allowed_transitions running =
    completed ∷ failed ∷ interrupted ∷ retry_scheduled ∷ waiting_for_external_system
    ∷ waiting_for_user ∷ []
allowed_transitions waiting_for_user = scheduled ∷ completed ∷ cancelled ∷ []
allowed_transitions waiting_for_external_system = scheduled ∷ retry_scheduled ∷ cancelled ∷ []
allowed_transitions retry_scheduled = running ∷ cancelled ∷ []
allowed_transitions interrupted = scheduled ∷ cancelled ∷ []
allowed_transitions completed = []
allowed_transitions failed = scheduled ∷ []
allowed_transitions cancelled = scheduled ∷ []

unfoldable pub is_allowed : TaskState → TaskState → Bool
unfolding allowed_transitions
is_allowed from to = elem to (allowed_transitions from)

pub record InvalidTaskTransition : Type 0 where
  pub from : TaskState
  pub to : TaskState

-- An idempotency key is the list of its code points, since the dispatcher splits it.
pub record WorkflowTask : Type 0 where
  pub idempotency_key : List ℕ
  pub state : TaskState
  pub attempt_number : ℕ
  pub transitions : List TaskTransition

-- `self.attempt_number += 1` on entering RUNNING.
unfoldable pub next_attempt : TaskState → ℕ → ℕ
next_attempt to attempt = if to == running then attempt + 1 else attempt

unfoldable pub entry_for :
    TaskState
    → ℕ
    → TaskState
    → (reason worker : String) (evidence : List String) (now : ℕ) → TaskTransition
unfolding next_attempt
entry_for from attempt to reason worker evidence now = record {
  previous_state = from;
  new_state = to;
  reason = reason;
  worker = worker;
  attempt_number = next_attempt to attempt;
  evidence = evidence;
  occurred_at = now;
}

-- WorkflowTask.transition
unfoldable pub transition :
    WorkflowTask
    → TaskState
    → (reason worker : String) (evidence : List String) (now : ℕ)
    → Result InvalidTaskTransition (WorkflowTask × TaskTransition)
unfolding is_allowed entry_for
transition task to reason worker evidence now =
    let entry = entry_for task.state task.attempt_number to reason worker evidence now in
    if is_allowed task.state to
    then ok (
      record task {
        state = to;
        attempt_number = entry.attempt_number;
        transitions = task.transitions ++ entry ∷ [];
      },
      entry,
    )
    else raise (record { from = task.state; to = to })
