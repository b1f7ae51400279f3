-- ===== src/Application/Ledger/Begin.antt =====
-- SubmissionLedger.begin: when a worker may submit.
use job_searching_assistant.Prelude.{
  ℕ, ◌≡◌, refl, sym, ap, ◌∙◌, ◌≢◌, subst, Bool, true, false, ◌||◌, is_some, Option, some, none,
  List, [], ◌∷◌, ◌++◌, String, arith, string_eq, Option-cases, Bool-cases, inl, inr, ok, raise,
  ok-injective,
}
use job_searching_assistant.Prelude.Table.{put, HasUniqueKeys}
use job_searching_assistant.Application.Ledger.{
  ApplicationRow, ApplicationSubmissionRow, LedgerRows, submission_id, SubmissionState, attempting,
  unknown, confirmed, failed, is_open, open_row, insert, IntegrityError, integrity_error,
  look_again, resolve, Action, proceed, already_submitted, verify_first, SubmissionDecision,
  decide_existing, new_submission, begin,
}
use job_searching_assistant.Application.Ledger.OneOpen.{
  OneOpen, open_row-append, open_row-mem, open_row-put_open, open_row-put_shut, own_open,
  is_open_for-parts,
}

module _ (race later : LedgerRows → LedgerRows) (is_refused : Bool) (fresh_id site_key : String)
    (now : ℕ) (application : ApplicationRow) where
  -- The row that begin adds.
  abbrev pub fresh_row : ApplicationSubmissionRow
  fresh_row = new_submission fresh_id application site_key attempting none [] now

  -- The look finds a row: nothing is written.
  pub begin-existing :
      (rows : LedgerRows) (row : ApplicationSubmissionRow)
      → open_row application.id rows ≡ some row
      → begin race later is_refused fresh_id site_key now application rows
        ≡ (ok (decide_existing row), rows)
  unfolding begin
  begin-existing rows row h = rw (h, begin) refl

  pub begin-free :
      (rows : LedgerRows)
      → open_row application.id rows ≡ none
      → is_refused ≡ false
      → open_row application.id (race rows) ≡ none
      → begin race later is_refused fresh_id site_key now application rows
        ≡ (ok (record { action = proceed; row = fresh_row }), race rows ++ fresh_row ∷ [])
  unfolding begin insert is_open
  begin-free rows free accepted still = rw (free, accepted, still, begin, insert) refl

  abbrev pub is_lost : LedgerRows → Bool
  is_lost rows = is_refused || is_some (open_row application.id (race rows))

  pub begin-lost :
      (rows : LedgerRows)
      → open_row application.id rows ≡ none
      → is_lost rows ≡ true
      → begin race later is_refused fresh_id site_key now application rows
        ≡ look_again application.id (later (race rows))
  unfolding begin insert is_open
  begin-lost rows free lost = elim (Bool-cases is_refused) [
    | inl refused ↦ rw (free, refused, begin) refl
    | inr accepted ↦
        let taken : is_some (open_row application.id (race rows)) ≡ true = ground arith in
        rw (free, accepted, taken, begin, insert) refl
  ]

  -- The four ways that begin goes.
  pub data Began (rows : LedgerRows) : Type 0 where
    saw_row :
        (row : ApplicationSubmissionRow) → open_row application.id rows ≡ some row → Began rows
    won :
        open_row application.id rows ≡ none
        → is_refused ≡ false
        → open_row application.id (race rows) ≡ none
        → Began rows
    lost_to :
        (winner : ApplicationSubmissionRow)
        → open_row application.id rows ≡ none
        → is_lost rows ≡ true
        → open_row application.id (later (race rows)) ≡ some winner
        → Began rows
    gave_up :
        open_row application.id rows ≡ none
        → is_lost rows ≡ true
        → open_row application.id (later (race rows)) ≡ none
        → Began rows

  pub Began-cases : (rows : LedgerRows) → Began rows
  Began-cases rows = elim (Option-cases (open_row application.id rows)) [
    | inr (row, found) ↦ Began.saw_row row found
    | inl free ↦ elim (Bool-cases (is_lost rows)) [
      | inr clear ↦ Began.won free (ground arith) (ground arith)
      | inl lost ↦ elim (Option-cases (open_row application.id (later (race rows)))) [
        | inl gone ↦ Began.gave_up free lost gone
        | inr (winner, taken) ↦ Began.lost_to winner free lost taken
      ]
    ]
  ]

  pub begin-lost_to :
      (rows : LedgerRows) (winner : ApplicationSubmissionRow)
      → open_row application.id rows ≡ none
      → is_lost rows ≡ true
      → open_row application.id (later (race rows)) ≡ some winner
      → begin race later is_refused fresh_id site_key now application rows
        ≡ (ok (decide_existing winner), later (race rows))
  begin-lost_to rows winner free lost taken =
      begin-lost rows free lost ∙ rw (taken, look_again) refl

  pub begin-raised :
      (rows : LedgerRows)
      → open_row application.id rows ≡ none
      → is_lost rows ≡ true
      → open_row application.id (later (race rows)) ≡ none
      → begin race later is_refused fresh_id site_key now application rows
        ≡ (raise integrity_error, later (race rows))
  begin-raised rows free lost gone = begin-lost rows free lost ∙ rw (gone, look_again) refl

  decide_existing-ne-proceed :
      (row : ApplicationSubmissionRow) → (decide_existing row).action ≢ proceed
  decide_existing-ne-proceed row e = ground arith

  -- When begin answers `proceed`, it saw no open row of the application, and the row that it
  -- answers is now the application's open row and is `attempting`.
  pub begin-proceed :
      (rows rows' : LedgerRows) (decision : SubmissionDecision)
      → begin race later is_refused fresh_id site_key now application rows ≡ (ok decision, rows')
      → decision.action ≡ proceed
      → (open_row application.id rows' ≡ some decision.row)
        × (decision.row.state ≡ attempting)
        × (open_row application.id rows ≡ none)
  unfolding is_open
  begin-proceed rows rows' decision h p = elim (Began-cases rows) [
    | Began.saw_row row found ↦
        absurd (decide_existing-ne-proceed row (cc (begin-existing rows row found)))
    | Began.lost_to winner free lost taken ↦
        absurd (decide_existing-ne-proceed winner (cc (begin-lost_to rows winner free lost taken)))
    | Began.gave_up free lost gone ↦ cc (begin-raised rows free lost gone)
    | Began.won free accepted still ↦
        let e = sym (begin-free rows free accepted still) ∙ h in
        let decided = ok-injective (ap (λ r. r.0) e) in
        let opened =
          open_row-append (race rows) fresh_row application.id still (own_open fresh_row refl) in
        (
          subst (λ t. open_row application.id t ≡ some decision.row) (ap (λ r. r.1) e)
              (opened ∙ ap (λ (d : SubmissionDecision). some d.row) decided),
          ap (λ (d : SubmissionDecision). d.row.state) (sym decided),
          free,
        )
  ]

-- What a later worker is told after the open row was resolved.
abbrev pub action_after : SubmissionState → Action
action_after attempting = verify_first
action_after unknown = verify_first
action_after confirmed = already_submitted
action_after failed = proceed

module _ (race later : LedgerRows → LedgerRows) (fresh_id site_key : String) (now : ℕ)
    (application : ApplicationRow) where
  begin-after_open :
      (rows : LedgerRows) (row : ApplicationSubmissionRow)
      → open_row application.id rows ≡ some row
      → is_open row.state ≡ true
      → (decision : SubmissionDecision) × ((begin race later false fresh_id site_key now application
            rows).0
          ≡ ok decision)
        × (decision.action ≡ action_after row.state)
  unfolding is_open
  begin-after_open rows row found live = (
    decide_existing row,
    ap (λ r. r.0)
        (begin-existing race later false fresh_id site_key now application rows row found),
    ground arith,
  )

  begin-after_free :
      (rows : LedgerRows)
      → open_row application.id rows ≡ none
      → open_row application.id (race rows) ≡ none
      → (decision : SubmissionDecision) × ((begin race later false fresh_id site_key now application
            rows).0
          ≡ ok decision)
        × (decision.action ≡ proceed)
  begin-after_free rows free still = (
    record {
      action = proceed;
      row = new_submission fresh_id application site_key attempting none [] now;
    },
    ap (λ r. r.0)
        (begin-free race later false fresh_id site_key now application rows free refl still),
    refl,
  )

  -- In a ledger with unique identifiers and at most one open row of each application, after the
  -- application's open row was resolved to a state, begin answers `proceed` for `failed`,
  -- `already_submitted` for `confirmed` and `verify_first` otherwise, unless another worker opens a
  -- row between its look and its insert. No other constraint refuses the insert.
  pub begin-resolve :
      (rows : LedgerRows) (row : ApplicationSubmissionRow) (state : SubmissionState)
      (verified_by : Option String) (evidence : List String) (detail : Option String) (time : ℕ)
      → HasUniqueKeys submission_id rows
      → OneOpen rows
      → open_row application.id rows ≡ some row
      → ((t : LedgerRows)
          → open_row application.id t ≡ none
          → open_row application.id (race t) ≡ none)
      → (decision : SubmissionDecision) × ((begin race later false fresh_id site_key now application
            (put submission_id (resolve state verified_by evidence detail time row) rows)).0
          ≡ ok decision)
        × (decision.action ≡ action_after state)
  unfolding resolve is_open
  begin-resolve rows row failed v e d t unique one found quiet =
      let (m, o) = open_row-mem application.id rows row found in
      let (mine, live) = is_open_for-parts application.id row o in
      let row' = resolve failed v e d t row in
      let free =
        subst (λ a. open_row a (put submission_id row' rows) ≡ none) mine
          (open_row-put_shut rows row row' unique m refl refl live one refl) in
      begin-after_free (put submission_id row' rows) free (quiet _ free)
  begin-resolve rows row state v e d t unique one found quiet =
      let (m, o) = open_row-mem application.id rows row found in
      let (mine, live) = is_open_for-parts application.id row o in
      let row' = resolve state v e d t row in
      begin-after_open (put submission_id row' rows) row'
        (subst (λ a. open_row a (put submission_id row' rows) ≡ some row') mine
          (open_row-put_open rows row row' unique m refl refl live one refl))
        refl

module _ (race later : LedgerRows → LedgerRows) (is_refused : Bool) (fresh_id site_key : String)
    (now : ℕ) (application : ApplicationRow) where
  -- When begin raises, it has written nothing, the insert was refused by the application's open row
  -- of another worker or by another constraint, and no row of the application is open any more: a
  -- worker that Began-cases again, and whose insert no other constraint refuses, may proceed unless a
  -- third one opens a row first.
  pub begin-retry :
      (rows rows' : LedgerRows) (e : IntegrityError) (race' later' : LedgerRows → LedgerRows)
      (fresh_id' : String) (now' : ℕ)
      → begin race later is_refused fresh_id site_key now application rows ≡ (raise e, rows')
      → open_row application.id (race' rows') ≡ none
      → (is_lost race later is_refused fresh_id site_key now application rows ≡ true)
        × (rows' ≡ later (race rows))
        × (open_row application.id rows' ≡ none)
        × (decision : SubmissionDecision) × ((begin race' later' false fresh_id' site_key now'
              application rows').0
            ≡ ok decision)
        × (decision.action ≡ proceed)
  begin-retry rows rows' e race' later' fresh_id' now' h quiet =
      elim (Began-cases race later is_refused fresh_id site_key now application rows) [
        | Began.saw_row row found ↦
            cc (
              begin-existing race later is_refused fresh_id site_key now application rows row found)
        | Began.won free accepted still ↦ cc (
            begin-free race later is_refused fresh_id site_key now application rows free accepted
              still)
        | Began.lost_to winner free lost taken ↦ cc (
            begin-lost_to race later is_refused fresh_id site_key now application rows winner free
              lost taken)
        | Began.gave_up free lost gone ↦
            let e' =
              sym (
                begin-raised race later is_refused fresh_id site_key now application rows free lost
                  gone)
              ∙ h in
            let written : later (race rows) ≡ rows' = ap (λ r. r.1) e' in
            let gone' = subst (λ t. open_row application.id t ≡ none) written gone in
            let (decision, decided, p) =
              begin-after_free race' later' fresh_id' site_key now' application rows' gone' quiet in
            (lost, sym written, gone', decision, decided, p)
      ]
