-- ===== src/Task/Trail.antt =====
-- The audit trail of a workflow task: replaying it from a fresh task.
use job_searching_assistant.Prelude.{
  ℕ, ◌+◌, ◌≡◌, Bool, true, ◌&&◌, Option, some, none, List, [], ◌∷◌, ◌++◌, String, arith, nat_eq,
  ◌==◌, if◌then◌else◌, count_by, ok, Bool-cases, inl, inr, beq_refl, ok-injective, subst,
  nat_beq_iff,
}
use job_searching_assistant.Task.{
  TaskState, pending, running, state_eq, TaskTransition, WorkflowTask, is_allowed, next_attempt,
  transition, entry_for,
}

-- An entry that the state machine may append in state `s` after `n` attempts.
unfoldable pub entry_fits : TaskState → ℕ → TaskTransition → Bool
entry_fits s n t =
    t.previous_state == s
    && is_allowed s t.new_state
    && t.attempt_number == next_attempt t.new_state n

-- The state and the attempt number that a trail leads to, `none` if an entry does not fit.
unfoldable pub replay : TaskState → ℕ → List TaskTransition → Option (TaskState × ℕ)
replay s n [] = some (s, n)
replay s n (t ∷ ts) =
    let rest = replay t.new_state t.attempt_number ts in if entry_fits s n t then rest else none

pub replay-snoc :
    (s : TaskState) (n : ℕ) (ts : List TaskTransition) (t : TaskTransition) (s' : TaskState)
    (n' : ℕ)
    → replay s n ts ≡ some (s', n')
    → entry_fits s' n' t ≡ true
    → replay s n (ts ++ t ∷ []) ≡ some (t.new_state, t.attempt_number)
unfolding replay
replay-snoc s n [] t s' n' h f = ground arith
replay-snoc s n (u ∷ ts) t s' n' h f =
    ground (arith, replay-snoc u.new_state u.attempt_number ts t s' n')

pub entry_for-fits :
    (from : TaskState) (n : ℕ) (to : TaskState) (reason worker : String) (evidence : List String)
    (now : ℕ)
    → is_allowed from to ≡ true
    → entry_fits from n (entry_for from n to reason worker evidence now) ≡ true
unfolding entry_fits entry_for
entry_for-fits from n to reason worker evidence now h =
    rw (beq_refl from, h) (beq_refl (next_attempt to n))

-- A task whose state and attempt number are those that its audit trail leads to.
abbrev pub IsAudited : TaskState → ℕ → List TaskTransition → Type 0
IsAudited state attempt trail = replay pending 0 trail ≡ some (state, attempt)

pub append-IsAudited :
    (state : TaskState) (attempt : ℕ) (trail : List TaskTransition) (to : TaskState)
    (reason worker : String) (evidence : List String) (now : ℕ)
    → is_allowed state to ≡ true
    → IsAudited state attempt trail
    → IsAudited to
        (next_attempt to attempt)
        (trail ++ entry_for state attempt to reason worker evidence now ∷ [])
append-IsAudited state attempt trail to reason worker evidence now allowed h =
    unfold entry_for in
    replay-snoc pending 0 trail (entry_for state attempt to reason worker evidence now) state
      attempt h (entry_for-fits state attempt to reason worker evidence now allowed)

abbrev pub enters_running : TaskTransition → Bool
enters_running t = t.new_state == running

-- A transition of a task whose state and attempt number are those that its audit trail leads to
-- leaves, when it is not refused, a task of which that is true again.
pub transition-IsAudited :
    (task : WorkflowTask) (to : TaskState) (reason worker : String) (evidence : List String)
    (now : ℕ) {task' : WorkflowTask} {entry : TaskTransition}
    → IsAudited task.state task.attempt_number task.transitions
    → transition task to reason worker evidence now ≡ ok (task', entry)
    → IsAudited task'.state task'.attempt_number task'.transitions
unfolding transition
transition-IsAudited task to reason worker evidence now h e =
    elim (Bool-cases (is_allowed task.state to)) [
      | inl allowed ↦
          subst (λ r. IsAudited r.0.state r.0.attempt_number r.0.transitions)
            (ok-injective (rw allowed at e))
            (append-IsAudited task.state task.attempt_number task.transitions to reason worker
              evidence now allowed h)
      | inr refused ↦ cc
    ]

replay-attempts :
    (s : TaskState) (n : ℕ) (ts : List TaskTransition) (s' : TaskState) (n' : ℕ)
    → replay s n ts ≡ some (s', n')
    → n' ≡ n + count_by enters_running ts
unfolding replay entry_fits next_attempt
replay-attempts s n [] s' n' h = ground arith
replay-attempts s n (t ∷ ts) s' n' h = ground (
  arith,
  replay-attempts t.new_state t.attempt_number ts s' n',
  nat_beq_iff t.attempt_number (next_attempt t.new_state n),
)

-- When a state and an attempt number are those that an audit trail leads to, the attempt number is
-- the number of the trail's entries into RUNNING.
pub IsAudited-attempts :
    (state : TaskState) (attempt : ℕ) (trail : List TaskTransition)
    → IsAudited state attempt trail
    → attempt ≡ count_by enters_running trail
IsAudited-attempts state attempt trail h =
    omega (arith, replay-attempts pending 0 trail state attempt h)
