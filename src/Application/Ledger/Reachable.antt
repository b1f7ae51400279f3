-- ===== src/Application/Ledger/Reachable.antt =====
-- Every ledger that the operations of services/application_lifecycle.py can lead to, by any number
-- of workers. One step is one transaction; the operation that writes a row has looked it up in the
-- same transaction.
use job_searching_assistant.Prelude.{
  ℕ, ◌≡◌, refl, sym, subst, Bool, true, Option, some, none, List, [], ◌∷◌, ◌++◌, String, arith,
  OnOk, All, All-append, is_some, string_eq, Bool-cases, Option-cases, inl, inr, Result, ok,
}
use job_searching_assistant.Prelude.Table.{
  find, put, put-All, HasUniqueKeys, HasUniqueKeys-put, HasUniqueKeys-append,
}
use job_searching_assistant.Application.Ledger.{
  ApplicationRow, ApplicationSubmissionRow, LedgerRows, submission_id, SubmissionState, confirmed,
  is_open, open_row, insert, resolve, confirm, mark_failed, IntegrityError, begin, new_submission,
  remember_submission, resolve_unknown, is_confirmed, attempting, mark_unknown, Settlement,
  confirms, is_unknown, is_failed, settle, write_back,
}
use job_searching_assistant.Application.Ledger.OneOpen.{
  OneOpen, insert-OneOpen, insert-eq-ok, open_row-mem, open_row-put_open, own_open, open_row-append,
  write_back-OneOpen, put-OneOpen, is_open_for-parts,
}
use job_searching_assistant.Application.Ledger.Begin.{
  Began, Began-cases, begin-existing, begin-free, begin-lost_to, begin-raised,
}

-- What the primary key and the partial index guarantee.
abbrev pub IsLedger : LedgerRows → Type 0
IsLedger rows = HasUniqueKeys submission_id rows × OneOpen rows

abbrev pub IsFresh : (fresh_id : String) → LedgerRows → Type 0
IsFresh fresh_id rows = find submission_id fresh_id rows ≡ none

insert-IsLedger :
    (row : ApplicationSubmissionRow) (rows rows' : LedgerRows)
    → IsLedger rows
    → IsFresh row.id rows
    → insert row rows ≡ ok rows'
    → IsLedger rows'
insert-IsLedger row rows rows' (unique, one) fresh h =
    let (e, free) = insert-eq-ok row rows rows' h in
    (
      rw e (HasUniqueKeys-append submission_id rows row unique fresh),
      insert-OneOpen row rows rows' one h,
    )

module _ (rows : LedgerRows) (row : ApplicationSubmissionRow) (a : String) (ledger : IsLedger rows)
    (found : open_row a rows ≡ some row) where
  resolve-IsLedger :
      (state : SubmissionState) (verified_by : Option String) (evidence : List String)
      (detail : Option String) (now : ℕ)
      → IsLedger (put submission_id (resolve state verified_by evidence detail now row) rows)
  unfolding resolve
  resolve-IsLedger state verified_by evidence detail now =
      let (m, o) = open_row-mem a rows row found in
      let row' = resolve state verified_by evidence detail now row in
      (
        HasUniqueKeys-put submission_id row' rows ledger.0,
        put-OneOpen rows row row' ledger.0 m refl refl (is_open_for-parts a row o).1 ledger.1,
      )

pub begin-IsLedger :
    (race later : LedgerRows → LedgerRows) (is_refused : Bool) (fresh_id site_key : String)
    (now : ℕ) (application : ApplicationRow) (rows : LedgerRows)
    → IsLedger rows
    → IsLedger (race rows)
    → IsLedger (later (race rows))
    → IsFresh fresh_id (race rows)
    → IsLedger (begin race later is_refused fresh_id site_key now application rows).1
unfolding insert is_open
begin-IsLedger race later is_refused fresh_id site_key now application rows before after last
      fresh =
    elim (Began-cases race later is_refused fresh_id site_key now application rows) [
      | Began.saw_row existing found ↦
          rw
            (begin-existing race later is_refused fresh_id site_key now application rows existing
              found)
            before
      | Began.won free accepted still ↦
          rw
            (begin-free race later is_refused fresh_id site_key now application rows free accepted
              still)
            (insert-IsLedger (new_submission fresh_id application site_key attempting none [] now)
              (race rows) _ after fresh (rw (still, insert) refl))
      | Began.lost_to winner free lost taken ↦
          rw
            (begin-lost_to race later is_refused fresh_id site_key now application rows winner free
              lost taken)
            last
      | Began.gave_up free lost gone ↦
          rw
            (begin-raised race later is_refused fresh_id site_key now application rows free lost
              gone)
            last
    ]

-- The ledger after `remember_submission`, where the application's open row is confirmed.
abbrev pub Remembers : (application_id : String) → LedgerRows → Type 0
Remembers application_id rows =
    IsLedger rows
    × (row : ApplicationSubmissionRow) × (open_row application_id rows ≡ some row)
    × (row.state ≡ confirmed)

is_confirmed-eq : (state : SubmissionState) → is_confirmed state ≡ true → state ≡ confirmed
is_confirmed-eq state h = ground arith

-- In a ledger with unique identifiers and at most one open row of each application, remembering a
-- submission under a new identifier does not raise, keeps these guarantees, and leaves the
-- application's open row confirmed.
pub remember_submission-Remembers :
    (fresh_id site_key verified_by : String) (added seen : List String) (now : ℕ)
    (application : ApplicationRow) (rows : LedgerRows)
    → IsLedger rows
    → IsFresh fresh_id rows
    → (rows' : LedgerRows) × (remember_submission fresh_id site_key verified_by added seen now
          application rows
        ≡ ok rows')
      × Remembers application.id rows'
unfolding remember_submission insert confirm resolve is_open
remember_submission-Remembers fresh_id site_key verified_by added seen now application rows ledger
      fresh =
    elim (Option-cases (open_row application.id rows)) [
      | inl free ↦
          let row =
            new_submission fresh_id application site_key confirmed (some verified_by) added now in
          let inserted : insert row rows ≡ ok (rows ++ row ∷ []) = rw (free, insert) refl in
          (
            rows ++ row ∷ [],
            rw (free, remember_submission) inserted,
            (
              insert-IsLedger row rows _ ledger fresh inserted,
              row,
              open_row-append rows row application.id free (own_open row refl),
              refl,
            ),
          )
      | inr (row, found) ↦ elim (Bool-cases (is_confirmed row.state)) [
        | inl done ↦ (
          rows,
          rw (found, done, remember_submission) refl,
          (ledger, row, found, is_confirmed-eq row.state done),
        )
        | inr unsure ↦
            let (m, o) = open_row-mem application.id rows row found in
            let (mine, live) = is_open_for-parts application.id row o in
            let row' = resolve confirmed (some verified_by) seen none now row in
            (
              put submission_id row' rows,
              rw (found, unsure, remember_submission) refl,
              (
                resolve-IsLedger rows row application.id ledger found confirmed (some verified_by)
                    seen none now,
                row',
                subst (λ a. open_row a (put submission_id row' rows) ≡ some row') mine
                    (open_row-put_open rows row row' ledger.0 m refl refl live ledger.1 refl),
                refl,
              ),
            )
      ]
    ]

resolve_unknown-IsLedger :
    (application_id : String) (is_submitted : Bool) (remark : Option String) (now : ℕ)
    (rows : LedgerRows)
    → IsLedger rows
    → OnOk IsLedger (resolve_unknown application_id is_submitted remark now rows)
unfolding resolve_unknown confirm mark_failed
resolve_unknown-IsLedger application_id is_submitted remark now rows ledger =
    elim (Option-cases (open_row application_id rows)) [
      | inl absent ↦ rw (absent, resolve_unknown) tt
      | inr (row, found) ↦ elim (Bool-cases (is_confirmed row.state)) [
        | inl done ↦ rw (found, done, resolve_unknown) tt
        | inr unsure ↦ elim (Bool-cases is_submitted) [
          | inl sent ↦
              rw (found, unsure, sent, resolve_unknown)
                (resolve-IsLedger rows row application_id ledger found _ _ _ _ now)
          | inr not_sent ↦
              rw (found, unsure, not_sent, resolve_unknown)
                (resolve-IsLedger rows row application_id ledger found _ _ _ _ now)
        ]
      ]
    ]

-- A row says who verified it exactly when it is confirmed.
abbrev pub IsVouched : ApplicationSubmissionRow → Type 0
IsVouched row = is_confirmed row.state ≡ is_some row.verified_by

abbrev pub IsSound : LedgerRows → Type 0
IsSound rows = IsLedger rows × All IsVouched rows

settle-IsVouched :
    (evidence : List String) (now : ℕ) (settlement : Settlement) (row : ApplicationSubmissionRow)
    → IsVouched (settle evidence now settlement row)
unfolding confirm mark_unknown mark_failed resolve
settle-IsVouched evidence now (confirms v d) row = refl
settle-IsVouched evidence now (is_unknown d) row = refl
settle-IsVouched evidence now (is_failed d) row = refl

settle-id :
    (evidence : List String) (now : ℕ) (settlement : Settlement) (row : ApplicationSubmissionRow)
    → (settle evidence now settlement row).id ≡ row.id
unfolding confirm mark_unknown mark_failed resolve
settle-id evidence now (confirms v d) row = refl
settle-id evidence now (is_unknown d) row = refl
settle-id evidence now (is_failed d) row = refl

insert-IsVouched :
    (row : ApplicationSubmissionRow) (rows rows' : LedgerRows)
    → All IsVouched rows
    → IsVouched row
    → insert row rows ≡ ok rows'
    → All IsVouched rows'
insert-IsVouched row rows rows' a v h =
    subst (All IsVouched) (sym (insert-eq-ok row rows rows' h).0)
      (All-append IsVouched rows (row ∷ []) a (v, tt))

begin-IsVouched :
    (race later : LedgerRows → LedgerRows) (is_refused : Bool) (fresh_id site_key : String)
    (now : ℕ) (application : ApplicationRow) (rows : LedgerRows)
    → All IsVouched rows
    → All IsVouched (race rows)
    → All IsVouched (later (race rows))
    → All IsVouched (begin race later is_refused fresh_id site_key now application rows).1
begin-IsVouched race later is_refused fresh_id site_key now application rows before after last =
    elim (Began-cases race later is_refused fresh_id site_key now application rows) [
      | Began.saw_row existing found ↦
          rw
            (begin-existing race later is_refused fresh_id site_key now application rows existing
              found)
            before
      | Began.won free accepted still ↦
          rw
            (begin-free race later is_refused fresh_id site_key now application rows free accepted
              still)
            (All-append IsVouched (race rows) _ after (refl, tt))
      | Began.lost_to winner free lost taken ↦
          rw
            (begin-lost_to race later is_refused fresh_id site_key now application rows winner free
              lost taken)
            last
      | Began.gave_up free lost gone ↦
          rw
            (begin-raised race later is_refused fresh_id site_key now application rows free lost
              gone)
            last
    ]

remember_submission-IsVouched :
    (fresh_id site_key verified_by : String) (added seen : List String) (now : ℕ)
    (application : ApplicationRow) (rows : LedgerRows)
    → All IsVouched rows
    → OnOk
        (All IsVouched)
        (remember_submission fresh_id site_key verified_by added seen now application rows)
unfolding remember_submission insert confirm resolve is_open
remember_submission-IsVouched i site v added seen now application rows a =
    elim (Option-cases (open_row application.id rows)) [
      | inl free ↦
          rw (free, remember_submission)
            (rw (free, insert) (All-append IsVouched rows _ a (refl, tt)))
      | inr (row, found) ↦ elim (Bool-cases (is_confirmed row.state)) [
        | inl done ↦ rw (found, done, remember_submission) a
        | inr unsure ↦
            rw (found, unsure, remember_submission) (put-All submission_id IsVouched _ rows a refl)
      ]
    ]

resolve_unknown-IsVouched :
    (application_id : String) (is_submitted : Bool) (remark : Option String) (now : ℕ)
    (rows : LedgerRows)
    → All IsVouched rows
    → OnOk (All IsVouched) (resolve_unknown application_id is_submitted remark now rows)
unfolding resolve_unknown confirm mark_failed resolve
resolve_unknown-IsVouched application_id is_submitted remark now rows a =
    elim (Option-cases (open_row application_id rows)) [
      | inl absent ↦ rw (absent, resolve_unknown) tt
      | inr (row, found) ↦ elim (Bool-cases (is_confirmed row.state)) [
        | inl done ↦ rw (found, done, resolve_unknown) tt
        | inr unsure ↦ elim (Bool-cases is_submitted) [
          | inl sent ↦
              rw (found, unsure, sent, resolve_unknown)
                (put-All submission_id IsVouched _ rows a refl)
          | inr not_sent ↦
              rw (found, unsure, not_sent, resolve_unknown)
                (put-All submission_id IsVouched _ rows a refl)
        ]
      ]
    ]

write_back-IsSound :
    (row row' : ApplicationSubmissionRow) (rows rows' : LedgerRows)
    → IsSound rows
    → find submission_id row'.id rows ≡ some row
    → IsVouched row'
    → write_back row' rows ≡ ok rows'
    → IsSound rows'
unfolding write_back
write_back-IsSound row row' rows rows' ((unique, one), a) found v h =
    let written : rows' ≡ put submission_id row' rows = ground arith in
    (
      (
        subst (HasUniqueKeys submission_id) (sym written)
            (HasUniqueKeys-put submission_id row' rows unique),
        write_back-OneOpen row row' rows rows' unique found one h,
      ),
      subst (All IsVouched) (sym written) (put-All submission_id IsVouched row' rows a v),
    )

-- Reachable ledgers. Between the first look of `begin` and its insert, and between a refused insert
-- and the second look, other workers lead to any reachable ledgers `middle` and `last`. A worker
-- settles the row whose id it kept, in whatever state the row is by then.
pub data Reachable : LedgerRows → Type 0 where
  start : Reachable []
  begins :
      {rows middle last : LedgerRows} (is_refused : Bool) (fresh_id site_key : String) (now : ℕ)
      (application : ApplicationRow) (rows' : LedgerRows)
      → Reachable rows
      → Reachable middle
      → Reachable last
      → IsFresh fresh_id middle
      → rows'
        ≡ (begin (λ t. middle) (λ t. last) is_refused fresh_id site_key now application rows).1
      → Reachable rows'
  remembers :
      {rows : LedgerRows} (fresh_id site_key verified_by : String) (added seen : List String)
      (now : ℕ) (application : ApplicationRow) (rows' : LedgerRows)
      → Reachable rows
      → IsFresh fresh_id rows
      → remember_submission fresh_id site_key verified_by added seen now application rows ≡ ok rows'
      → Reachable rows'
  answers :
      {rows : LedgerRows} (application_id : String) (is_submitted : Bool) (remark : Option String)
      (now : ℕ) (rows' : LedgerRows)
      → Reachable rows
      → resolve_unknown application_id is_submitted remark now rows ≡ ok rows'
      → Reachable rows'
  settles :
      {rows : LedgerRows} (row : ApplicationSubmissionRow) (settlement : Settlement)
      (evidence : List String) (now : ℕ) (rows' : LedgerRows)
      → Reachable rows
      → find submission_id row.id rows ≡ some row
      → write_back (settle evidence now settlement row) rows ≡ ok rows'
      → Reachable rows'

remembered-IsLedger :
    (a : String) (r : Result IntegrityError LedgerRows) (rows rows' : LedgerRows)
    → r ≡ ok rows
    → r ≡ ok rows'
    → Remembers a rows
    → IsLedger rows'
remembered-IsLedger a r rows rows' e e' h = let same : rows ≡ rows' = cc in subst IsLedger same h.0

-- In every ledger that begin, its racing workers, the remembered submissions, resolve_unknown, and
-- confirm, mark_unknown and mark_failed on a row of any state lead to, identifiers are unique, each
-- application has at most one submission that is attempting, unknown or confirmed, and a submission
-- says who verified it exactly when it is confirmed.
pub Reachable-IsLedger : {rows : LedgerRows} → Reachable rows → IsLedger rows × All IsVouched rows
Reachable-IsLedger start = ((tt, λ a. omega arith), tt)
Reachable-IsLedger
      (begins {rows} {middle} {last} refused i site now application rows' r m l fresh e) =
    let (before, vouched) = Reachable-IsLedger r in
    let (between, vouched_between) = Reachable-IsLedger m in
    let (after, vouched_after) = Reachable-IsLedger l in
    subst IsSound (sym e) (
      begin-IsLedger (λ t. middle) (λ t. last) refused i site now application rows before between
          after fresh,
      begin-IsVouched (λ t. middle) (λ t. last) refused i site now application rows vouched
          vouched_between vouched_after,
    )
Reachable-IsLedger (remembers {rows} i site v added seen now application rows' r fresh e) =
    let (before, vouched) = Reachable-IsLedger r in
    let (ledger, done, h) =
      remember_submission-Remembers i site v added seen now application rows before fresh in
    (
      remembered-IsLedger application.id _ ledger rows' done e h,
      subst (OnOk (All IsVouched)) e
          (remember_submission-IsVouched i site v added seen now application rows vouched),
    )
Reachable-IsLedger (answers {rows} a is_submitted remark now rows' r e) =
    let (before, vouched) = Reachable-IsLedger r in
    (
      subst (OnOk IsLedger) e (resolve_unknown-IsLedger a is_submitted remark now rows before),
      subst (OnOk (All IsVouched)) e
          (resolve_unknown-IsVouched a is_submitted remark now rows vouched),
    )
Reachable-IsLedger (settles {rows} row settlement evidence now rows' r found e) =
    write_back-IsSound row (settle evidence now settlement row) rows rows' (Reachable-IsLedger r)
      (subst (λ i. find submission_id i rows ≡ some row)
        (sym (settle-id evidence now settlement row)) found)
      (settle-IsVouched evidence now settlement row) e
