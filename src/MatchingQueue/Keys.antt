-- ===== src/MatchingQueue/Keys.antt =====
-- Rows that are found by key and written or deleted by identifier.
use job_searching_assistant.Prelude.{
  ℕ, ◌≡◌, ◌≢◌, refl, sym, ap, ◌∙◌, subst, inl, inr, Bool, true, not, some, none, List, [], ◌∷◌,
  arith, ◌==◌, string_eq, nat_eq, list_eq, filter_by, All, mem-All, Bool-cases, beq_refl,
}
use job_searching_assistant.Prelude.Table.{find, put, HasUniqueKeys, find-present}
use job_searching_assistant.Task.{state_eq}
use job_searching_assistant.Queue.Rows.{WorkflowTaskRow, Table, row_id, row_key}

find_absent :
    (k : List ℕ) (rows : Table) → All (λ r. row_key r ≢ k) rows → find row_key k rows ≡ none
unfolding find
find_absent k [] h = refl
find_absent k (r ∷ rows) h = elim (Bool-cases (row_key r == k)) [
  | inl hit ↦ absurd (h.0 ((list_eq.agrees (row_key r) k).0 hit))
  | inr miss ↦ rw (miss, find) (find_absent k rows h.1)
]

All-kept :
    (k : List ℕ) (p : WorkflowTaskRow → Bool) (rows : Table)
    → All (λ r. row_key r ≢ k) rows
    → All (λ r. row_key r ≢ k) (filter_by p rows)
All-kept k p [] h = tt
All-kept k p (r ∷ rows) h = elim (Bool-cases (p r)) [
  | inl kept ↦ rw kept (h.0, All-kept k p rows h.1)
  | inr dropped ↦ rw dropped (All-kept k p rows h.1)
]

-- The key is free after its row was deleted by its identifier.
pub find-deleted :
    (k : List ℕ) (rows : Table) (row : WorkflowTaskRow)
    → HasUniqueKeys row_key rows
    → find row_key k rows ≡ some row
    → find row_key k (filter_by (λ r. not (r.id == row.id)) rows) ≡ none
unfolding find
find-deleted k [] row u h = refl
find-deleted k (r ∷ rows) row u h = elim (Bool-cases (row_key r == k)) [
  | inl hit ↦
      let same : r ≡ row = ground arith in
      let id_same : (r.id == row.id) ≡ true = rw same (beq_refl row.id) in
      let key_same = (list_eq.agrees (row_key r) k).0 hit in
      rw id_same (
        find_absent k (filter_by (λ r. not (r.id == row.id)) rows) (
          All-kept k (λ r. not (r.id == row.id)) rows
            (subst (λ k. All (λ s. row_key s ≢ k) rows) key_same u.0)))
  | inr miss ↦
      let rest = find-deleted k rows row u.1 (rw (miss, find) at h) in
      elim (Bool-cases (r.id == row.id)) [
        | inl gone ↦ rw gone rest
        | inr kept ↦ rw (kept, miss, find) rest
      ]
]

-- A row written back by its identifier is found by its key.
pub find-written :
    (k : List ℕ) (rows : Table) (row row' : WorkflowTaskRow)
    → HasUniqueKeys row_id rows
    → find row_key k rows ≡ some row
    → row'.id ≡ row.id
    → row_key row' ≡ row_key row
    → find row_key k (put row_id row' rows) ≡ some row'
unfolding find put
find-written k [] row row' u h i e = cc
find-written k (r ∷ rows) row row' u h i e = elim (Bool-cases (row_key r == k)) [
  | inl hit ↦
      let same : r ≡ row = ground arith in
      let id_same : (r.id == row'.id) ≡ true =
        (string_eq.agrees r.id row'.id).1 (ap row_id same ∙ sym i) in
      let key_same : (row_key row' == k) ≡ true =
        (list_eq.agrees (row_key row') k).1
          (e ∙ sym (ap row_key same) ∙ (list_eq.agrees (row_key r) k).0 hit) in
      rw (id_same, put, key_same, find) refl
  | inr miss ↦
      let found = rw (miss, find) at h in
      let other : r.id ≢ row'.id = λ x.
        mem-All (λ s. s.id ≢ r.id) rows (find-present row_key k rows row found) u.0
          (sym i ∙ sym x) in
      elim (Bool-cases (r.id == row'.id)) [
        | inl clash ↦ absurd (other ((string_eq.agrees r.id row'.id).0 clash))
        | inr apart ↦ rw (apart, put, miss, find) (find-written k rows row row' u.1 found i e)
      ]
]
