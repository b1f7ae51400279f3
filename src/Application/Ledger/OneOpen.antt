-- ===== src/Application/Ledger/OneOpen.antt =====
-- The partial unique index at work: at most one open submission of each application.
use job_searching_assistant.Prelude.{
  ◌+◌, ◌≤◌, ◌≡◌, ◌≢◌, refl, sym, ap, subst, Bool, true, false, some, none, [], ◌∷◌, ◌++◌, String,
  arith, string_eq, count_by, filter_by, All, not, ◌==◌, Bool-cases, inl, inr, ok, beq_refl,
}
use mathlib.Core.List.{Memᴰ}
use job_searching_assistant.Prelude.Table.{
  find, put, HasUniqueKeys, find-mem, find-present, find-put_self, count_by-put,
}
use job_searching_assistant.Application.Ledger.{
  ApplicationSubmissionRow, LedgerRows, submission_id, is_open, is_open_for, open_row, insert,
  write_back,
}

-- The index's guarantee.
abbrev pub OneOpen : LedgerRows → Type 0
OneOpen rows = (application_id : String) → count_by (is_open_for application_id) rows ≤ 1

open_row-count :
    (a : String) (rows : LedgerRows) → open_row a rows ≡ none → count_by (is_open_for a) rows ≡ 0
unfolding open_row
open_row-count a [] h = refl
open_row-count a (r ∷ rows) h = ground (arith, open_row-count a rows)

pub open_row-mem :
    (a : String) (rows : LedgerRows) (r : ApplicationSubmissionRow)
    → open_row a rows ≡ some r
    → Memᴰ r rows × (is_open_for a r ≡ true)
unfolding open_row
open_row-mem a [] r h = cc
open_row-mem a (s ∷ rows) r h = elim (Bool-cases (is_open_for a s)) [
  | inl hit ↦
      let same : s ≡ r = ground arith in
      (Memᴰ.head (sym same), subst (λ x. is_open_for a x ≡ true) same hit)
  | inr miss ↦ let (m, o) = open_row-mem a rows r (ground arith) in (Memᴰ.tail m, o)
]

pub open_row-append :
    (rows : LedgerRows) (row : ApplicationSubmissionRow) (a : String)
    → open_row a rows ≡ none
    → is_open_for a row ≡ true
    → open_row a (rows ++ row ∷ []) ≡ some row
unfolding open_row
open_row-append [] row a h o = rw o refl
open_row-append (r ∷ rows) row a h o = ground (arith, open_row-append rows row a)

count-none :
    (a : String) (rows : LedgerRows) → count_by (is_open_for a) rows ≡ 0 → open_row a rows ≡ none
unfolding open_row
count-none a [] h = refl
count-none a (r ∷ rows) h = ground (arith, count-none a rows)

mem-count :
    (a : String) (rows : LedgerRows) (r : ApplicationSubmissionRow)
    → Memᴰ r rows
    → is_open_for a r ≡ true
    → 1 ≤ count_by (is_open_for a) rows
mem-count a [] r m o = elim m [ ]
mem-count a (s ∷ rows) r (Memᴰ.head e) o =
    let o' = subst (λ x. is_open_for a x ≡ true) e o in rw o' (omega arith)
mem-count a (s ∷ rows) r (Memᴰ.tail m) o = omega (arith, mem-count a rows r m o)

-- If only one row is open, finding any open row finds that one.
count-mem :
    (a : String) (rows : LedgerRows) (r : ApplicationSubmissionRow)
    → count_by (is_open_for a) rows ≤ 1
    → Memᴰ r rows
    → is_open_for a r ≡ true
    → open_row a rows ≡ some r
unfolding open_row
count-mem a [] r c m o = elim m [ ]
count-mem a (s ∷ rows) r c (Memᴰ.head e) o =
    let o' = subst (λ x. is_open_for a x ≡ true) e o in rw (o', open_row) (ap some (sym e))
count-mem a (s ∷ rows) r c (Memᴰ.tail m) o =
    let more = mem-count a rows r m o in
    elim (Bool-cases (is_open_for a s)) [
      | inl hit ↦ absurd (ground arith)
      | inr miss ↦ rw (miss, open_row) (count-mem a rows r (ground arith) m o)
    ]

count-append :
    (a : String) (rows : LedgerRows) (r : ApplicationSubmissionRow)
    → count_by (is_open_for a) (rows ++ r ∷ [])
      ≡ count_by (is_open_for a) rows + count_by (is_open_for a) (r ∷ [])
count-append a [] r = omega arith
count-append a (s ∷ rows) r = omega (arith, count-append a rows r)

count-one : (a : String) (r : ApplicationSubmissionRow) → count_by (is_open_for a) (r ∷ []) ≤ 1
count-one a r = ground arith

pub insert-eq-ok :
    (r : ApplicationSubmissionRow) (rows rows' : LedgerRows)
    → insert r rows ≡ ok rows'
    → (rows' ≡ rows ++ r ∷ []) × (is_open r.state ≡ true → open_row r.application_id rows ≡ none)
unfolding insert
insert-eq-ok r rows rows' h = (ground arith, λ live. ground arith)

pub is_open_for-parts :
    (a : String) (r : ApplicationSubmissionRow)
    → is_open_for a r ≡ true
    → (r.application_id ≡ a) × (is_open r.state ≡ true)
unfolding is_open_for
is_open_for-parts a r h = ground (arith, string_eq.agrees r.application_id a)

-- An insert that the index accepts keeps its guarantee.
pub insert-OneOpen :
    (r : ApplicationSubmissionRow) (rows rows' : LedgerRows)
    → OneOpen rows
    → insert r rows ≡ ok rows'
    → OneOpen rows'
unfolding insert
insert-OneOpen r rows rows' one h a =
    let (e, free) = insert-eq-ok r rows rows' h in
    subst (λ t. count_by (is_open_for a) t ≤ 1) (sym e)
      (elim (Bool-cases (is_open_for a r)) [
        | inl open_now ↦
            let (same, is_live) = is_open_for-parts a r open_now in
            omega (
              arith,
              count-append a rows r,
              subst (λ k. count_by (is_open_for k) rows ≡ 0) same
                  (open_row-count r.application_id rows (free is_live)),
              count-one a r,
            )
        | inr shut ↦ ground (arith, count-append a rows r, one a)
      ])

pub own_open :
    (r : ApplicationSubmissionRow) → is_open r.state ≡ true → is_open_for r.application_id r ≡ true
unfolding is_open_for
own_open r h = rw (beq_refl r.application_id) h

count-own :
    (r : ApplicationSubmissionRow)
    → is_open r.state ≡ true
    → count_by (is_open_for r.application_id) (r ∷ []) ≡ 1
count-own r h = rw (own_open r h) (omega arith)

count-shut :
    (a : String) (r : ApplicationSubmissionRow)
    → is_open r.state ≡ false
    → count_by (is_open_for a) (r ∷ []) ≡ 0
unfolding is_open_for
count-shut a r h = ground arith

module _ (rows : LedgerRows) (row row' : ApplicationSubmissionRow)
    (unique : HasUniqueKeys submission_id rows) (present : Memᴰ row rows)
    (same_id : row'.id ≡ row.id) (same_application : row'.application_id ≡ row.application_id)
    (was_open : is_open row.state ≡ true) where
  put-count :
      (a : String)
      → count_by (is_open_for a) (put submission_id row' rows) + count_by (is_open_for a) (row ∷ [])
        ≡ count_by (is_open_for a) rows + count_by (is_open_for a) (row' ∷ [])
  put-count a =
      count_by-put submission_id (is_open_for a) row' rows row
        (rw same_id (find-mem submission_id rows row unique present))

  resolved-le :
      (a : String) → count_by (is_open_for a) (row' ∷ []) ≤ count_by (is_open_for a) (row ∷ [])
  unfolding is_open_for
  resolved-le a = rw (same_application, was_open) (ground arith)

  -- Writing back a row that was open keeps the guarantee.
  pub put-OneOpen : OneOpen rows → OneOpen (put submission_id row' rows)
  put-OneOpen one a = omega (arith, one a, put-count a, resolved-le a)

  pub open_row-put_shut :
      OneOpen rows
      → is_open row'.state ≡ false
      → open_row row.application_id (put submission_id row' rows) ≡ none
  open_row-put_shut one shut = count-none row.application_id (put submission_id row' rows) (
      omega (
        arith,
        one row.application_id,
        put-count row.application_id,
        count-own row was_open,
        count-shut row.application_id row' shut,
      ))

  pub open_row-put_open :
      OneOpen rows
      → is_open row'.state ≡ true
      → open_row row.application_id (put submission_id row' rows) ≡ some row'
  open_row-put_open one live =
      count-mem row.application_id (put submission_id row' rows) row'
        (put-OneOpen one row.application_id)
        (find-present submission_id row'.id (put submission_id row' rows) row' (
          find-put_self submission_id row' rows row
            (rw same_id (find-mem submission_id rows row unique present))))
        (subst (λ a. is_open_for a row' ≡ true) same_application (own_open row' live))

others-same :
    (k : String) (rows : LedgerRows)
    → All (λ r. r.id ≢ k) rows
    → filter_by (λ r. not (r.id == k)) rows ≡ rows
others-same k [] a = refl
others-same k (r ∷ rows) a = ground (arith, string_eq.agrees r.id k, others-same k rows a.1)

-- The rows with another identifier and the row with this one are all.
count-others :
    (p : ApplicationSubmissionRow → Bool) (k : String) (rows : LedgerRows)
    (row : ApplicationSubmissionRow)
    → HasUniqueKeys submission_id rows
    → find submission_id k rows ≡ some row
    → count_by p rows ≡ count_by p (filter_by (λ r. not (r.id == k)) rows) + count_by p (row ∷ [])
unfolding find
count-others p k [] row u h = cc
count-others p k (r ∷ rows) row u h = elim (Bool-cases (r.id == k)) [
  | inl hit ↦
      let same : r ≡ row = ground arith in
      let others =
        others-same k rows
          (subst (λ i. All (λ s. s.id ≢ i) rows) ((string_eq.agrees r.id k).0 hit) u.0) in
      rw (hit, others, ← same) (omega arith)
  | inr miss ↦ rw miss (ground (arith, count-others p k rows row u.1 (rw miss at h)))
]

-- An update that the index accepts keeps its guarantee, whatever the row's state was.
pub write_back-OneOpen :
    (row row' : ApplicationSubmissionRow) (rows rows' : LedgerRows)
    → HasUniqueKeys submission_id rows
    → find submission_id row'.id rows ≡ some row
    → OneOpen rows
    → write_back row' rows ≡ ok rows'
    → OneOpen rows'
unfolding write_back
write_back-OneOpen row row' rows rows' u found one h a =
    let others = filter_by (λ r. not (r.id == row'.id)) rows in
    let written : rows' ≡ put submission_id row' rows = ground arith in
    let free : is_open row'.state ≡ true → open_row row'.application_id others ≡ none =
      λ live. ground arith in
    let put_count = count_by-put submission_id (is_open_for a) row' rows row found in
    let all_count = count-others (is_open_for a) row'.id rows row u found in
    subst (λ t. count_by (is_open_for a) t ≤ 1) (sym written)
      (elim (Bool-cases (is_open_for a row')) [
        | inl open_now ↦
            let (same, is_live) = is_open_for-parts a row' open_now in
            omega (
              arith,
              put_count,
              all_count,
              subst (λ k. count_by (is_open_for k) others ≡ 0) same
                  (open_row-count row'.application_id others (free is_live)),
              count-one a row',
            )
        | inr shut ↦
            let none_new : count_by (is_open_for a) (row' ∷ []) ≡ 0 = rw shut refl in
            omega (arith, put_count, none_new, one a)
      ])
