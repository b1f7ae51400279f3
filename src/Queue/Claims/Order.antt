-- ===== src/Queue/Claims/Order.antt =====
-- Which row claim_next takes.
use job_searching_assistant.Prelude.{
  ℕ, ◌≤◌, ◌<◌, ◌≡◌, refl, Bool, true, false, ◌&&◌, not, ◌⊎◌, inl, inr, some, none, List, [], ◌∷◌,
  String, arith, filter_by, All, Option-cases, subst, if◌then◌else◌,
}
use mathlib.Core.List.{Memᴰ}
use job_searching_assistant.Queue.Rows.{WorkflowTaskRow, Table, row_id}
use job_searching_assistant.Queue.Claims.{
  is_claimable, comes_before, first_row, claim_next, ClaimedTask, claimed_row, claim_of,
}
use job_searching_assistant.Prelude.{
  string_eq, mem-of_filter_by, All-of_filter_by, All-of_filter_by_nil,
}
use job_searching_assistant.Prelude.Table.{put}

-- `a` is at least as urgent as `b`.
abbrev pub IsAtLeast : WorkflowTaskRow → WorkflowTaskRow → Type 0
IsAtLeast a b =
    (b.priority < a.priority) ⊎ ((a.priority ≡ b.priority) × (a.created_at ≤ b.created_at))

first_row-eq-none : (rows : List WorkflowTaskRow) → first_row rows ≡ none → rows ≡ []
unfolding first_row
first_row-eq-none [] h = refl
first_row-eq-none (r ∷ rows) h = ground arith

IsAtLeast-trans : (a b c : WorkflowTaskRow) → IsAtLeast a b → IsAtLeast b c → IsAtLeast a c
IsAtLeast-trans a b c h k = omega arith

comes_before-IsAtLeast :
    (a b : WorkflowTaskRow)
    → ((comes_before a b ≡ true) × IsAtLeast a b) ⊎ ((comes_before a b ≡ false) × IsAtLeast b a)
unfolding comes_before
comes_before-IsAtLeast a b = ground arith

-- The query's answer is one of the rows, and at least as urgent as each of them.
abbrev IsFirst : WorkflowTaskRow → List WorkflowTaskRow → Type 0
IsFirst r rows = Memᴰ r rows × All (IsAtLeast r) rows

All-IsAtLeast :
    (a b : WorkflowTaskRow) (rows : List WorkflowTaskRow)
    → IsAtLeast a b
    → All (IsAtLeast b) rows
    → All (IsAtLeast a) rows
All-IsAtLeast a b [] h k = tt
All-IsAtLeast a b (r ∷ rows) h k = (IsAtLeast-trans a b r h k.0, All-IsAtLeast a b rows h k.1)

IsFirst-choice :
    (b : Bool) (s t : WorkflowTaskRow) (rows : List WorkflowTaskRow)
    → ((b ≡ true) × IsAtLeast t s) ⊎ ((b ≡ false) × IsAtLeast s t)
    → IsFirst t rows
    → IsFirst (if b then t else s) (s ∷ rows)
IsFirst-choice true s t rows (inl (_, h)) (m, a) = (Memᴰ.tail m, (h, a))
IsFirst-choice true s t rows (inr (e, _)) first = cc
IsFirst-choice false s t rows (inl (e, _)) first = cc
IsFirst-choice false s t rows (inr (_, h)) (m, a) =
    (Memᴰ.head refl, (omega arith, All-IsAtLeast s t rows h a))

pub first_row-IsFirst :
    (rows : List WorkflowTaskRow) (r : WorkflowTaskRow) → first_row rows ≡ some r → IsFirst r rows
unfolding first_row
first_row-IsFirst [] r h = cc
first_row-IsFirst (s ∷ rows) r h = elim (Option-cases (first_row rows)) [
  | inl empty ↦
      let e : s ≡ r = ground arith in
      let gone : rows ≡ [] = first_row-eq-none rows empty in
      subst (λ x. IsFirst x (s ∷ rows)) e (rw gone (Memᴰ.head refl, (omega arith, tt)))
  | inr (t, found) ↦
      let e : (if comes_before t s then t else s) ≡ r = ground arith in
      subst (λ x. IsFirst x (s ∷ rows)) e
        (IsFirst-choice (comes_before t s) s t rows (comes_before-IsAtLeast t s)
          (first_row-IsFirst rows t found))
]

-- What the query may return: due, queued in this queue, and not locked by another transaction.
abbrev pub can_claim : (WorkflowTaskRow → Bool) → String → ℕ → WorkflowTaskRow → Bool
can_claim locked queue_name now r = is_claimable queue_name now r && not (locked r)

-- `row` is one of the table's claimable rows, none is more urgent, and `claim_next` hands it out
-- and writes it back as running.
pub record IsClaimOf (locked : WorkflowTaskRow → Bool) (worker queue_name : String) (now : ℕ)
    (rows : Table) (task : ClaimedTask) (rows' : Table) (row : WorkflowTaskRow) : Type 0 where
  pub present : Memᴰ row rows
  pub claimable : can_claim locked queue_name now row ≡ true
  pub most_urgent : All (λ s. can_claim locked queue_name now s ≡ true → IsAtLeast row s) rows
  pub handed_out : task ≡ claim_of (claimed_row worker now row)
  pub written : rows' ≡ put row_id (claimed_row worker now row) rows

module _ (locked : WorkflowTaskRow → Bool) (worker queue_name : String) (now : ℕ)
    (rows : Table) where
  -- A claim that hands out a task took it from a claimable row of the table than which no claimable
  -- row is more urgent, and wrote that row back as running.
  pub claim_next-IsClaimOf :
      (task : ClaimedTask) (rows' : Table)
      → claim_next locked worker queue_name now rows ≡ (some task, rows')
      → (row : WorkflowTaskRow) × IsClaimOf locked worker queue_name now rows task rows' row
  unfolding claim_next
  claim_next-IsClaimOf task rows' h =
      elim (Option-cases (first_row (filter_by (can_claim locked queue_name now) rows))) [
        | inl empty ↦ ground arith
        | inr (row, found) ↦
            let (m, a) = first_row-IsFirst _ row found in
            let (present, can) = mem-of_filter_by (can_claim locked queue_name now) rows row m in
            (
              row,
              record {
                present = present;
                claimable = can;
                most_urgent =
                    All-of_filter_by (IsAtLeast row) (can_claim locked queue_name now) rows a;
                handed_out = ground arith;
                written = ground arith;
              },
            )
      ]

  -- When a claim hands out no task, no row of the table is claimable and the table is unchanged.
  pub claim_next-none :
      (rows' : Table)
      → claim_next locked worker queue_name now rows ≡ (none, rows')
      → (rows' ≡ rows) × All (λ s. can_claim locked queue_name now s ≡ false) rows
  unfolding claim_next
  claim_next-none rows' h =
      elim (Option-cases (first_row (filter_by (can_claim locked queue_name now) rows))) [
        | inl empty ↦ (
          ground arith,
          All-of_filter_by_nil (can_claim locked queue_name now) rows (first_row-eq-none _ empty),
        )
        | inr (row, found) ↦ ground arith
      ]
