-- ===== src/MatchingQueue/Repaired.antt =====
-- repair_legacy_matching_queue: what it leaves.
use job_searching_assistant.Prelude.{
  ℕ, ◌≡◌, ◌≢◌, refl, sym, ap, ◌∙◌, inl, inr, true, false, Option, some, none, List, [], ◌∷◌, String,
  arith, ◌==◌, string_eq, if◌then◌else◌, ok, All, filter_by, Bool-cases, Option-cases, ltb,
  mem-of_filter_by, All-of_filter_by_nil,
}
use mathlib.Core.List.{Memᴰ}
use job_searching_assistant.Prelude.Table.{find, find-mem, HasUniqueKeys}
use job_searching_assistant.Task.{TaskState, running, interrupted, cancelled, state_eq, is_allowed}
use job_searching_assistant.Queue.Rows.{WorkflowTaskRow, Table, row_id, RowAudited, TableAudited}
use job_searching_assistant.MatchingQueue.{Aggregates, is_active, fail_pending}
use job_searching_assistant.MatchingQueue.Repair.{
  QueueRepairReport, is_legacy, newest, supersede_row, repair_row, repair_rows, repair_report,
  repair_legacy_matching_queue,
}
use job_searching_assistant.MatchingQueue.Migrated.{
  IsMigrated, IsRepaired, moved, repair_transition-ok, moved-RowAudited, migrate_row-Migrates,
}

-- What a legacy row that is not kept becomes.
abbrev superseded_target : WorkflowTaskRow → TaskState
superseded_target row = if row.state == running then interrupted else cancelled

superseded_target-is_allowed :
    (row : WorkflowTaskRow)
    → is_active row.state ≡ true
    → is_allowed row.state (superseded_target row) ≡ true
unfolding is_active is_allowed
superseded_target-is_allowed row h = ground arith

superseded_target-ended :
    (row : WorkflowTaskRow)
    → (superseded_target row ≢ running) × (is_active (superseded_target row) ≡ false)
unfolding is_active
superseded_target-ended row = (λ e. ground arith, ground arith)

not_legacy : (row : WorkflowTaskRow) → is_active row.state ≡ false → is_legacy row ≡ false
unfolding is_legacy
not_legacy row h = ground arith

legacy-active : (row : WorkflowTaskRow) → is_legacy row ≡ true → is_active row.state ≡ true
unfolding is_legacy
legacy-active row h = ground arith

-- What one round of the loop does.
abbrev IsRoundOf : (kept_id : String) (now : ℕ) → WorkflowTaskRow → Aggregates → Type 0
IsRoundOf kept_id now row aggregates =
    (row' : WorkflowTaskRow) × (aggregates' : Aggregates) × (repair_row kept_id now row aggregates
      ≡ ok (row', aggregates'))
    × (row'.id ≡ row.id)
    × IsRepaired row'
    × ((row.id == kept_id) ≡ true → is_legacy row ≡ true → IsMigrated now row')

repair_row-IsRoundOf :
    (kept_id : String) (now : ℕ) (row : WorkflowTaskRow) (aggregates : Aggregates)
    → RowAudited row
    → IsRoundOf kept_id now row aggregates
unfolding repair_row supersede_row
repair_row-IsRoundOf kept_id now row aggregates a = elim (Bool-cases (is_legacy row)) [
  | inr other ↦ (row, aggregates, rw (other, repair_row) refl, refl, (other, a), λ k l. cc)
  | inl legacy ↦ elim (Bool-cases (row.id == kept_id)) [
    | inl kept ↦
        let (row', e, same, repaired, migrated) =
          migrate_row-Migrates now row row.state refl (legacy-active row legacy) a in
        (row', aggregates, rw (legacy, kept, repair_row, e) refl, same, repaired, λ k l. migrated)
    | inr other ↦
        let may = superseded_target-is_allowed row (legacy-active row legacy) in
        let (not_running, ended) = superseded_target-ended row in
        let reason : String =
          "legacy matching backlog superseded during dedicated queue migration" in
        (
          moved row (superseded_target row) reason now,
          fail_pending "superseded during matching queue repair" row.application_id aggregates,
          rw
              (
                legacy,
                other,
                repair_row,
                supersede_row,
                repair_transition-ok row (superseded_target row) reason now may,
              )
              refl,
          refl,
          (
            not_legacy (moved row (superseded_target row) reason now) ended,
            moved-RowAudited row (superseded_target row) reason now not_running may a,
          ),
          λ k l. cc,
        )
  ]
]

-- The kept row, if it is a legacy row, is found again as a migrated one.
abbrev KeepsRow : (kept_id : String) (now : ℕ) → Table → Table → Type 0
KeepsRow kept_id now rows rows' =
    (kept : WorkflowTaskRow)
    → find row_id kept_id rows ≡ some kept
    → is_legacy kept ≡ true
    → (row' : WorkflowTaskRow) × (find row_id kept_id rows' ≡ some row') × IsMigrated now row'

repair_rows-IsRepaired :
    (kept_id : String) (now : ℕ) (rows : Table) (aggregates : Aggregates)
    → TableAudited rows
    → (rows' : Table) × (aggregates' : Aggregates) × (repair_rows kept_id now rows aggregates
        ≡ ok (rows', aggregates'))
      × All IsRepaired rows'
      × KeepsRow kept_id now rows rows'
unfolding repair_rows find
repair_rows-IsRepaired kept_id now [] aggregates a =
    ([], aggregates, refl, tt, λ kept found legacy. cc)
repair_rows-IsRepaired kept_id now (row ∷ rows) aggregates (audited, a) =
    let (row', aggregates', e, same, repaired, migrated) =
      repair_row-IsRoundOf kept_id now row aggregates audited in
    let (rows', aggregates'', e', all_repaired, keeps) =
      repair_rows-IsRepaired kept_id now rows aggregates' a in
    (
      row' ∷ rows',
      aggregates'',
      rw (repair_rows, e, e') refl,
      (repaired, all_repaired),
      λ kept found legacy. elim (Bool-cases (row.id == kept_id)) [
        | inl hit ↦
            let is_kept : row ≡ kept = ground arith in
            (row', rw (same, hit, find) refl, migrated hit (rw is_kept legacy))
        | inr miss ↦
            let (found_row, at_row, is_migrated) = keeps kept (rw (miss, find) at found) legacy in
            (found_row, rw (same, miss, find) at_row, is_migrated)
      ],
    )

newest-eq-none : (rows : List WorkflowTaskRow) → newest rows ≡ none → rows ≡ []
unfolding newest
newest-eq-none [] h = refl
newest-eq-none (r ∷ rows) h = ground arith

newest-mem :
    (rows : List WorkflowTaskRow) (r : WorkflowTaskRow) → newest rows ≡ some r → Memᴰ r rows
unfolding newest
newest-mem [] r h = cc
newest-mem (s ∷ rows) r h = elim (Option-cases (newest rows)) [
  | inl empty ↦ let e : s ≡ r = ground arith in Memᴰ.head (sym e)
  | inr (t, found) ↦ elim (Bool-cases (ltb s.created_at t.created_at)) [
    | inl later ↦ let e : t ≡ r = ground arith in Memᴰ.tail (newest-mem rows r (found ∙ ap some e))
    | inr sooner ↦ let e : s ≡ r = ground arith in Memᴰ.head (sym e)
  ]
]

untouched-IsRepaired :
    (rows : Table) → All (λ r. is_legacy r ≡ false) rows → TableAudited rows → All IsRepaired rows
untouched-IsRepaired [] h a = tt
untouched-IsRepaired (row ∷ rows) h a = ((h.0, a.0), untouched-IsRepaired rows h.1 a.1)

-- The kept task is there, and migrated.
abbrev pub IsKept : (now : ℕ) → Option String → Table → Type 0
IsKept now none rows' = Unit
IsKept now (some kept_id) rows' =
    (row' : WorkflowTaskRow) × (find row_id kept_id rows' ≡ some row') × IsMigrated now row'

-- What an applied repair reports and leaves.
abbrev pub IsRepairOf : (now : ℕ) → Table → QueueRepairReport → Table → Type 0
IsRepairOf now rows report rows' = All IsRepaired rows' × IsKept now report.kept_task_id rows'

-- On audited rows with unique identifiers an applied repair does not raise and leaves audited rows
-- of which none is an active legacy task; the task that it reports as kept is there, with a priority
-- of at least 100, and a worker of the matching queue may claim it at once.
pub repair_legacy_matching_queue-IsRepairOf :
    (now : ℕ) (rows : Table) (aggregates : Aggregates)
    → HasUniqueKeys row_id rows
    → TableAudited rows
    → (report : QueueRepairReport) × (rows' : Table) × (aggregates' : Aggregates)
      × (repair_legacy_matching_queue true now rows aggregates ≡ ok (report, rows', aggregates'))
      × IsRepairOf now rows report rows'
unfolding repair_legacy_matching_queue repair_report
repair_legacy_matching_queue-IsRepairOf now rows aggregates unique a =
    elim (Option-cases (newest (filter_by is_legacy rows))) [
      | inl empty ↦
          let quiet =
            All-of_filter_by_nil is_legacy rows (newest-eq-none (filter_by is_legacy rows) empty) in
          (
            repair_report true (filter_by is_legacy rows) none,
            rows,
            aggregates,
            rw (empty, repair_legacy_matching_queue) refl,
            (untouched-IsRepaired rows quiet a, tt),
          )
      | inr (kept, first) ↦
          let (present, legacy) =
            mem-of_filter_by is_legacy rows kept
              (newest-mem (filter_by is_legacy rows) kept first) in
          let (rows', aggregates', e, repaired, keeps) =
            repair_rows-IsRepaired kept.id now rows aggregates a in
          (
            repair_report true (filter_by is_legacy rows) (some kept),
            rows',
            aggregates',
            rw (first, repair_legacy_matching_queue, e) refl,
            (repaired, keeps kept (find-mem row_id rows kept unique present) legacy),
          )
    ]
