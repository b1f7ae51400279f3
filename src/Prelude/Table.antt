-- ===== src/Prelude/Table.antt =====
-- A database table: the list of its rows, each with a key. `find` is `session.get` and a `select`
-- on a unique column, `put` writes the changed row back.
use mathlib.Core.List.{Memᴰ}
use job_searching_assistant.Prelude.{
  ◌∙◌, ◌+◌, sym, ap, mem-All, count_by, Bool, ◌≡◌, refl, ◌≢◌, inl, inr, subst, Option, some, none,
  List, [], ◌∷◌, ◌++◌, All-append, map, arith, PyEq, ◌==◌, All, beq_refl, if◌then◌else◌, Bool-cases,
}

module _ {ℓ κ} {K : Type ℓ} {R : Type κ} ⦃e : PyEq K⦄ (key : R → K) where
  unfoldable pub find : K → List R → Option R
  find k [] = none
  find k (r ∷ rows) = if key r == k then some r else find k rows

  unfoldable pub put : R → List R → List R
  put r [] = []
  put r (s ∷ rows) = if key s == key r then r ∷ rows else s ∷ put r rows

  pub find-key : (k : K) (rows : List R) (r : R) → find k rows ≡ some r → key r ≡ k
  unfolding find
  find-key k [] r h = cc
  find-key k (s ∷ rows) r h = ground (arith, e.agrees (key s) k, find-key k rows r)

  pub find-All {μ} :
      (P : R → Type μ) (k : K) (rows : List R) (r : R) → All P rows → find k rows ≡ some r → P r
  unfolding find
  find-All P k [] r a h = cc
  find-All P k (s ∷ rows) r a h = elim (Bool-cases (key s == k)) [
    | inl same ↦ let found : s ≡ r = ground arith in subst P found a.0
    | inr other ↦ find-All P k rows r a.1 (rw other at h)
  ]

  pub put-All {μ} : (P : R → Type μ) (r : R) (rows : List R) → All P rows → P r → All P (put r rows)
  unfolding put
  put-All P r [] a h = tt
  put-All P r (s ∷ rows) a h = elim (Bool-cases (key s == key r)) [
    | inl same ↦ rw same (h, a.1)
    | inr other ↦ rw other (a.0, put-All P r rows a.1 h)
  ]

  pub find-put_self :
      (r : R) (rows : List R) (s : R)
      → find (key r) rows ≡ some s
      → find (key r) (put r rows) ≡ some r
  unfolding find put
  find-put_self r [] s h = cc
  find-put_self r (t ∷ rows) s h = ground (arith, find-put_self r rows s, beq_refl (key r))

  pub find-append_new :
      (k : K) (rows : List R) (r : R)
      → find k rows ≡ none
      → key r ≡ k
      → find k (rows ++ r ∷ []) ≡ some r
  unfolding find
  find-append_new k [] r h same = rw ((e.agrees (key r) k).1 same) refl
  find-append_new k (t ∷ rows) r h same = ground (arith, find-append_new k rows r)

  pub find-append_ne :
      (k : K) (rows : List R) (r : R) → key r ≢ k → find k (rows ++ r ∷ []) ≡ find k rows
  unfolding find
  find-append_ne k [] r h = ground (arith, e.agrees (key r) k)
  find-append_ne k (t ∷ rows) r h = ground (arith, find-append_ne k rows r h, e.agrees (key t) k)

  pub find-put_ne : (k : K) (r : R) (rows : List R) → key r ≢ k → find k (put r rows) ≡ find k rows
  unfolding find put
  find-put_ne k r [] h = refl
  find-put_ne k r (t ∷ rows) h = ground (
    arith,
    find-put_ne k r rows h,
    e.agrees (key t) (key r),
    e.agrees (key r) k,
    e.agrees (key t) k,
  )

  pub map-key-put : (r : R) (rows : List R) → map key (put r rows) ≡ map key rows
  unfolding put
  map-key-put r [] = refl
  map-key-put r (t ∷ rows) = ground (arith, map-key-put r rows, e.agrees (key t) (key r))

module _ {ℓ κ} {K : Type ℓ} {R : Type κ} ⦃e : PyEq K⦄ (key : R → K) where
  -- The primary key: no two rows have the same one.
  abbrev pub HasUniqueKeys : List R → Type (ℓ ⊔ κ)
  HasUniqueKeys [] = Unit
  HasUniqueKeys (r ∷ rows) = All (λ s. key s ≢ key r) rows × HasUniqueKeys rows

  mem-put_hit :
      (r t : R) (rows : List R) (s : R)
      → key t ≡ key r
      → All (λ u. key u ≢ key t) rows
      → Memᴰ s (r ∷ rows)
      → key s ≡ key r
      → s ≡ r
  mem-put_hit r t rows s same others (Memᴰ.head h) k = h
  mem-put_hit r t rows s same others (Memᴰ.tail m) k =
      absurd (mem-All (λ u. key u ≢ key t) rows m others (k ∙ sym same))

  mem-put_miss :
      (r t : R) (rows : List R) (s : R)
      → key t ≢ key r
      → (Memᴰ s (put key r rows) → key s ≡ key r → s ≡ r)
      → Memᴰ s (t ∷ put key r rows)
      → key s ≡ key r
      → s ≡ r
  mem-put_miss r t rows s other rest (Memᴰ.head h) k =
      absurd (other (subst (λ u. key u ≡ key r) h k))
  mem-put_miss r t rows s other rest (Memᴰ.tail m) k = rest m k

  -- After a write the row with that key is the row that was written.
  pub mem-put :
      (r : R) (rows : List R) (s : R)
      → HasUniqueKeys rows
      → Memᴰ s (put key r rows)
      → key s ≡ key r
      → s ≡ r
  unfolding put
  mem-put r [] s u m k = elim m [ ]
  mem-put r (t ∷ rows) s u m k = elim (Bool-cases (key t == key r)) [
    | inl hit ↦ mem-put_hit r t rows s ((e.agrees (key t) (key r)).0 hit) u.0 (rw hit at m) k
    | inr miss ↦
        mem-put_miss r t rows s (λ same. cc ((e.agrees (key t) (key r)).1 same))
          (mem-put r rows s u.1) (rw miss at m) k
  ]

  -- With unique keys the row of a key is the one that `find` returns.
  pub find-mem :
      (rows : List R) (r : R) → HasUniqueKeys rows → Memᴰ r rows → find key (key r) rows ≡ some r
  unfolding find
  find-mem [] r u m = elim m [ ]
  find-mem (t ∷ rows) r u (Memᴰ.head same) =
      subst (λ x. find key (key r) (x ∷ rows) ≡ some r) same
        (rw ((e.agrees (key r) (key r)).1 refl, find) refl)
  find-mem (t ∷ rows) r u (Memᴰ.tail m) = elim (Bool-cases (key t == key r)) [
    | inl hit ↦
        absurd (mem-All (λ x. key x ≢ key t) rows m u.0 (sym ((e.agrees (key t) (key r)).0 hit)))
    | inr miss ↦ rw (miss, find) (find-mem rows r u.1 m)
  ]

  -- A write replaces one row in every count.
  pub count_by-put :
      (p : R → Bool) (r : R) (rows : List R) (old : R)
      → find key (key r) rows ≡ some old
      → count_by p (put key r rows) + count_by p (old ∷ []) ≡ count_by p rows + count_by p (r ∷ [])
  unfolding find put
  count_by-put p r [] old h = cc
  count_by-put p r (t ∷ rows) old h = elim (Bool-cases (key t == key r)) [
    | inl hit ↦ let same : t ≡ old = ground arith in rw hit (ground (arith, ap p same))
    | inr miss ↦ rw miss (omega (arith, count_by-put p r rows old (rw miss at h)))
  ]

  pub HasUniqueKeys-put :
      (r : R) (rows : List R) → HasUniqueKeys rows → HasUniqueKeys (put key r rows)
  unfolding put
  HasUniqueKeys-put r [] u = tt
  HasUniqueKeys-put r (t ∷ rows) u = elim (Bool-cases (key t == key r)) [
    | inl hit ↦
        rw hit (subst (λ k. All (λ s. key s ≢ k) rows) ((e.agrees (key t) (key r)).0 hit) u.0, u.1)
    | inr miss ↦ rw miss (
      put-All key (λ s. key s ≢ key t) r rows u.0
          (λ same. cc ((e.agrees (key t) (key r)).1 (sym same))),
      HasUniqueKeys-put r rows u.1,
    )
  ]

  pub find-present : (k : K) (rows : List R) (r : R) → find key k rows ≡ some r → Memᴰ r rows
  unfolding find
  find-present k [] r h = cc
  find-present k (s ∷ rows) r h = elim (Bool-cases (key s == k)) [
    | inl hit ↦ let same : s ≡ r = ground arith in Memᴰ.head (sym same)
    | inr miss ↦ Memᴰ.tail (find-present k rows r (ground arith))
  ]

  -- An insert of a row whose key is new.
  pub HasUniqueKeys-append :
      (rows : List R) (r : R)
      → HasUniqueKeys rows
      → find key (key r) rows ≡ none
      → HasUniqueKeys (rows ++ r ∷ [])
  unfolding find
  HasUniqueKeys-append [] r u h = (tt, tt)
  HasUniqueKeys-append (t ∷ rows) r u h = elim (Bool-cases (key t == key r)) [
    | inl hit ↦ cc (rw hit at h)
    | inr miss ↦ (
      All-append (λ s. key s ≢ key t) rows (r ∷ []) u.0
          (λ same. cc ((e.agrees (key t) (key r)).1 (sym same)), tt),
      HasUniqueKeys-append rows r u.1 (rw miss at h),
    )
  ]
