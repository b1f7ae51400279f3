-- ===== src/Dispatcher.antt =====
-- workers/dispatcher.py: DurableTaskDispatcher. Every database transaction is a function on `Db`.
-- The handlers, the lease coordinator, the screenshot storage and the completion hook are
-- parameters; `handle` stands for the handler together with all that other transactions do to the
-- database while it runs, the claim's heartbeat (`_maintain_claim`) included.
pub mod Backoff
pub mod RunOnce
pub mod Settles
pub mod Handlers
mod Examples
use job_searching_assistant.Prelude.{
  ℕ, ◌+◌, ◌-◌, ◌*◌, ◌^◌, min, Bool, true, false, ◌&&◌, not, Option, some, none, List, [], ◌∷◌, ◌++◌,
  String, leb, ◌==◌, nat_eq, string_eq, if◌then◌else◌, Result, ok, raise, ◌>>=◌, is_some,
}
use Prim.Native.String.{◌++◌ as str_append}
use job_searching_assistant.Task.{
  TaskState, running, waiting_for_user, retry_scheduled, failed, state_eq,
}
use job_searching_assistant.Queue.Rows.{
  WorkflowTaskRow, Table, QueueError, invalid_transition, not_found, bad_delay,
}
use job_searching_assistant.Queue.Claims.{ClaimedTask, claim_next}
use job_searching_assistant.Queue.Finish.{finish_claim, reschedule_claim, retry_claim}

pub record HumanActionRequest : Type 0 where
  pub kind : String
  pub instructions : String
  pub screenshot_path : Option String

pub record ExecutionOutcome : Type 0 where
  pub state : TaskState
  pub reason : String
  pub evidence : List String
  pub human_action : Option HumanActionRequest

pub record HumanActionCheckpointRow : Type 0 where
  pub id : String
  pub task_id : String
  pub kind : String
  pub instructions : String
  pub evidence : List String

pub record WorkerHeartbeatRow : Type 0 where
  pub worker_name : String
  pub status : String
  pub last_seen_at : ℕ

pub record Db : Type 0 where
  pub tasks : Table
  pub checkpoints : List HumanActionCheckpointRow
  pub heartbeats : List WorkerHeartbeatRow

-- An exception inside the `try`: NoModelAvailableError with its `retryable` flag, or any other by
-- the name of its class.
pub data TaskError : Type 0 where
  no_model : (retryable : Bool) → TaskError
  other_error : (name : String) → TaskError

unfoldable pub error_name : TaskError → String
error_name (no_model retryable) = "NoModelAvailableError"
error_name (other_error name) = name

unfoldable pub is_non_retryable : TaskError → Bool
is_non_retryable (no_model retryable) = not retryable
is_non_retryable (other_error name) = false

-- A repository's exception as `except Exception` sees it.
unfoldable pub queue_error_name : QueueError → String
queue_error_name (invalid_transition e) = "InvalidTaskTransition"
queue_error_name not_found = "LookupError"
queue_error_name bad_delay = "ValueError"

-- `except InvalidTaskTransition`: logged, and the session closes without its commit.
unfoldable pub ignore_invalid {ℓ} : {A : Type ℓ} → A → Result QueueError A → Result QueueError A
ignore_invalid before (ok after) = ok after
ignore_invalid before (raise (invalid_transition e)) = ok before
ignore_invalid before (raise not_found) = raise not_found
ignore_invalid before (raise bad_delay) = raise bad_delay

unfoldable pub retry_delay : (retry_seconds attempt_number : ℕ) → ℕ
retry_delay retry_seconds attempt_number = min (retry_seconds * 2 ^ (attempt_number - 1)) 300

pub record Settings : Type 0 where
  pub worker_lease_seconds : ℕ
  pub worker_retry_seconds : ℕ
  pub worker_max_attempts : ℕ
