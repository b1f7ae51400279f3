-- ===== src/Queue/Recovery/Cases.antt =====
-- What the loops over stale rows do with each row.
use job_searching_assistant.Prelude.{
  ℕ, ◌≡◌, refl, true, false, List, [], ◌∷◌, ◌++◌, String, arith, Bool, Bool-cases, inl, inr,
  string_eq, Result, ok, leb, if◌then◌else◌, count_by, All,
}
use job_searching_assistant.Task.{running, scheduled, interrupted, failed, entry_for, transition}
use job_searching_assistant.Queue.Rows.{WorkflowTaskRow, Table, QueueError}
use job_searching_assistant.Queue.Recovery.{for_rows, recover_row, interrupt_row}

module _ {ℓ} (P Q : WorkflowTaskRow → Type ℓ) (selected : WorkflowTaskRow → Bool)
    (change : WorkflowTaskRow → Result QueueError WorkflowTaskRow)
    (kept : (row : WorkflowTaskRow) → P row → selected row ≡ false → Q row)
    (changed : (row : WorkflowTaskRow)
      → P row
      → selected row ≡ true
      → (row' : WorkflowTaskRow) × (change row ≡ ok row') × Q row') where
  -- The loop's rule: when no change raises, the loop ends normally, counts the selected rows, and leads from rows with `P` to rows with `Q`.
  pub for_rows_rule :
      (rows : Table)
      → All P rows
      → (rows' : Table) × (for_rows selected change rows ≡ ok (count_by selected rows, rows'))
        × All Q rows'
  unfolding for_rows
  for_rows_rule [] a = ([], refl, tt)
  for_rows_rule (row ∷ rows) (p, a) =
      let (rows', e, q) = for_rows_rule rows a in
      elim (Bool-cases (selected row)) [
        | inl hit ↦ let (row', c, q') = changed row p hit in (row' ∷ rows', ground arith, (q', q))
        | inr miss ↦ (row ∷ rows', ground arith, (kept row p miss, q))
      ]

-- The row that recovery writes
abbrev pub recovered_row :
    (ℕ → String)
    → (cutoff : ℕ) (worker : String) (max_attempts now : ℕ) → WorkflowTaskRow
    → WorkflowTaskRow
recovered_row stale_before cutoff worker max_attempts now row =
    let evidence : List String = stale_before cutoff ∷ [] in
    if leb max_attempts row.attempt_number
    then record row {
      state = failed;
      updated_at = now;
      transitions =
          row.transitions
          ++ entry_for row.state row.attempt_number failed
              "stale task exhausted bounded retry attempts" worker evidence now
            ∷ [];
    }
    else record row {
      state = scheduled;
      scheduled_for = now;
      updated_at = now;
      transitions =
          (row.transitions
            ++ entry_for row.state row.attempt_number interrupted
                "stale running task recovered after worker interruption" worker evidence now
              ∷ [])
          ++ entry_for interrupted row.attempt_number scheduled
              "recovered task returned to its durable queue" worker evidence now
            ∷ [];
    }

pub recover_row-running :
    (stale_before : ℕ → String) (cutoff : ℕ) (worker : String) (max_attempts now : ℕ)
    (row : WorkflowTaskRow)
    → row.state ≡ running
    → recover_row stale_before cutoff worker max_attempts now row
      ≡ ok (recovered_row stale_before cutoff worker max_attempts now row)
unfolding recover_row transition
recover_row-running stale_before cutoff worker max_attempts now row h = ground arith

-- The row that the interruption writes.
abbrev pub interrupted_row :
    (ℕ → String) → (cutoff : ℕ) (worker : String) (now : ℕ) → WorkflowTaskRow → WorkflowTaskRow
interrupted_row stale_before cutoff worker now row = record row {
  state = interrupted;
  updated_at = now;
  transitions =
      row.transitions
      ++ entry_for row.state row.attempt_number interrupted
          "stale running task recovered after worker interruption" worker (stale_before cutoff ∷ [])
          now
        ∷ [];
}

pub interrupt_row-running :
    (stale_before : ℕ → String) (cutoff : ℕ) (worker : String) (now : ℕ) (row : WorkflowTaskRow)
    → row.state ≡ running
    → interrupt_row stale_before cutoff worker now row
      ≡ ok (interrupted_row stale_before cutoff worker now row)
unfolding interrupt_row transition
interrupt_row-running stale_before cutoff worker now row h = ground arith
