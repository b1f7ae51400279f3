-- ===== src/MatchingQueue/Migrated.antt =====
-- repair_legacy_matching_queue: the kept row.
use job_searching_assistant.Prelude.{
  ℕ, ◌≤◌, ◌≡◌, ◌≢◌, refl, ◌⊎◌, inl, inr, true, false, [], ◌∷◌, ◌++◌, String, arith, string_eq, ok,
}
use job_searching_assistant.Task.{
  TaskState, pending, scheduled, running, retry_scheduled, interrupted, state_eq, is_allowed,
  entry_for,
}
use job_searching_assistant.Task.Trail.{append-IsAudited}
use job_searching_assistant.Queue.Rows.{WorkflowTaskRow, RowAudited}
use job_searching_assistant.Queue.Claims.{is_claimable}
use job_searching_assistant.Queue.Audit.{next_attempt_other}
use job_searching_assistant.MatchingQueue.{is_active, admin_transition, admin_entry}
use job_searching_assistant.MatchingQueue.Repair.{
  is_legacy, migrated_row, migrate_row, repair_transition,
}

-- A row that a worker of the matching queue may claim at once, with the priority of a person's
-- request.
abbrev pub IsMigrated : (now : ℕ) → WorkflowTaskRow → Type 0
IsMigrated now row = (is_claimable "matching" now row ≡ true) × (100 ≤ row.priority)

-- A row that is out of the legacy backlog.
abbrev pub IsRepaired : WorkflowTaskRow → Type 0
IsRepaired row = (is_legacy row ≡ false) × RowAudited row

-- The row that a transition of the repair writes.
abbrev pub moved : WorkflowTaskRow → TaskState → (reason : String) (now : ℕ) → WorkflowTaskRow
moved row to reason now = record row {
  state = to;
  updated_at = now;
  transitions =
      row.transitions
      ++ admin_entry row to reason "matching-queue-repair" "migration:dedicated-matching-queue" now
        ∷ [];
}

pub repair_transition-ok :
    (row : WorkflowTaskRow) (to : TaskState) (reason : String) (now : ℕ)
    → is_allowed row.state to ≡ true
    → repair_transition row to reason now ≡ ok (moved row to reason now)
unfolding admin_transition
repair_transition-ok row to reason now h = rw (h, admin_transition) refl

pub moved-RowAudited :
    (row : WorkflowTaskRow) (to : TaskState) (reason : String) (now : ℕ)
    → to ≢ running
    → is_allowed row.state to ≡ true
    → RowAudited row
    → RowAudited (moved row to reason now)
unfolding entry_for
moved-RowAudited row to reason now other allowed a =
    rw (next_attempt_other to row.attempt_number other) at (
      append-IsAudited row.state row.attempt_number row.transitions to reason
        "matching-queue-repair" ("migration:dedicated-matching-queue" ∷ []) now allowed a)

migrated_row-IsRepaired :
    (now : ℕ) (row : WorkflowTaskRow) → RowAudited row → IsRepaired (migrated_row now row)
unfolding is_legacy
migrated_row-IsRepaired now row a = (refl, a)

migrated_row-IsMigrated :
    (now : ℕ) (row : WorkflowTaskRow)
    → (row.state ≡ scheduled) ⊎ (row.state ≡ retry_scheduled)
    → IsMigrated now (migrated_row now row)
unfolding is_claimable
migrated_row-IsMigrated now row h = (ground arith, ground arith)

-- What the repair does to a row that it changes.
abbrev pub Migrates : (now : ℕ) → WorkflowTaskRow → Type 0
Migrates now row =
    (row' : WorkflowTaskRow) × (migrate_row now row ≡ ok row')
    × (row'.id ≡ row.id)
    × IsRepaired row'
    × IsMigrated now row'

pub migrate_row-Migrates :
    (now : ℕ) (row : WorkflowTaskRow) (s : TaskState)
    → row.state ≡ s
    → is_active s ≡ true
    → RowAudited row
    → Migrates now row
unfolding migrate_row is_allowed is_active
migrate_row-Migrates now row running e active a =
    let first =
      moved row interrupted "active legacy claim interrupted during matching queue migration" now in
    let second = moved first scheduled "latest matching request migrated to dedicated queue" now in
    let may : is_allowed row.state interrupted ≡ true = rw e refl in
    (
      migrated_row now second,
      rw (e, migrate_row) refl,
      refl,
      migrated_row-IsRepaired now second (
          moved-RowAudited first scheduled _ now (λ x. cc) refl
            (moved-RowAudited row interrupted _ now (λ x. cc) may a)),
      migrated_row-IsMigrated now second (inl refl),
    )
migrate_row-Migrates now row pending e active a =
    let first = moved row scheduled "latest matching request migrated to dedicated queue" now in
    let may : is_allowed row.state scheduled ≡ true = rw e refl in
    (
      migrated_row now first,
      rw (e, migrate_row) refl,
      refl,
      migrated_row-IsRepaired now first (moved-RowAudited row scheduled _ now (λ x. cc) may a),
      migrated_row-IsMigrated now first (inl refl),
    )
migrate_row-Migrates now row scheduled e active a = (
  migrated_row now row,
  rw (e, migrate_row) refl,
  refl,
  migrated_row-IsRepaired now row a,
  migrated_row-IsMigrated now row (inl e),
)
migrate_row-Migrates now row retry_scheduled e active a = (
  migrated_row now row,
  rw (e, migrate_row) refl,
  refl,
  migrated_row-IsRepaired now row a,
  migrated_row-IsMigrated now row (inr e),
)
migrate_row-Migrates now row s e active a = absurd (ground arith)
