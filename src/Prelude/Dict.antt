-- ===== src/Prelude/Dict.antt =====
-- A Python dictionary: pairs of a key and a value, where assigning to a key that is there replaces
-- its value, and a comprehension assigns its pairs in order.
use job_searching_assistant.Prelude.{
  ◌≡◌, ◌≢◌, refl, Option, some, none, List, [], ◌∷◌, arith, PyEq, ◌==◌, beq_refl, if◌then◌else◌,
  All, ◌∙◌, ◌++◌, Bool-cases, inl, inr, ap, map, All-map, false, sym, subst,
}
use mathlib.Core.Bool.{Bool, true, false≢true}

pub bools_differ : ◌≡◌ {A = Bool} true false → ⊥
bools_differ h = false≢true (sym h)

abbrev pub Dict {ℓ κ} : Type ℓ → Type κ → Type (ℓ ⊔ κ)
Dict K V = List (K × V)

module _ {ℓ κ} {K : Type ℓ} {V : Type κ} ⦃e : PyEq K⦄ where
  unfoldable pub lookup : K → Dict K V → Option V
  lookup k [] = none
  lookup k ((j, v) ∷ d) = if j == k then some v else lookup k d

  unfoldable pub assign : K → V → Dict K V → Dict K V
  assign k v [] = (k, v) ∷ []
  assign k v ((j, w) ∷ d) = if j == k then (j, v) ∷ d else (j, w) ∷ assign k v d

  unfoldable pub assign_all : List (K × V) → Dict K V → Dict K V
  assign_all [] d = d
  assign_all ((k, v) ∷ pairs) d = assign_all pairs (assign k v d)

  pub lookup-assign_self : (k : K) (v : V) (d : Dict K V) → lookup k (assign k v d) ≡ some v
  unfolding lookup assign
  lookup-assign_self k v [] = rw (beq_refl k) refl
  lookup-assign_self k v ((j, w) ∷ d) = ground (arith, lookup-assign_self k v d)

  pub lookup-assign_ne :
      (k j : K) (v : V) (d : Dict K V) → j ≢ k → lookup k (assign j v d) ≡ lookup k d
  unfolding lookup assign
  lookup-assign_ne k j v [] h = ground (arith, e.agrees j k)
  lookup-assign_ne k j v ((i, w) ∷ d) h =
      ground (arith, e.agrees i j, e.agrees i k, e.agrees j k, lookup-assign_ne k j v d h)

  pub lookup-assign_all_absent :
      (k : K) (pairs : List (K × V)) (d : Dict K V)
      → All (λ p. p.0 ≢ k) pairs
      → lookup k (assign_all pairs d) ≡ lookup k d
  unfolding assign_all
  lookup-assign_all_absent k [] d h = refl
  lookup-assign_all_absent k ((j, v) ∷ pairs) d h =
      lookup-assign_all_absent k pairs (assign j v d) h.1 ∙ lookup-assign_ne k j v d h.0

  -- The last pair of a key is the one that is found.
  pub lookup-assign_all_last :
      (k : K) (v : V) (before after : List (K × V)) (d : Dict K V)
      → All (λ p. p.0 ≢ k) after
      → lookup k (assign_all (before ++ (k, v) ∷ after) d) ≡ some v
  unfolding assign_all
  lookup-assign_all_last k v [] after d h =
      lookup-assign_all_absent k after (assign k v d) h ∙ lookup-assign_self k v d
  lookup-assign_all_last k v ((j, w) ∷ before) after d h =
      lookup-assign_all_last k v before after (assign j w d) h

module _ {ℓ κ μ} {K : Type ℓ} {V : Type κ} ⦃e : PyEq K⦄ (P : K → V → Type μ) where
  abbrev pub AllItems : Dict K V → Type μ
  AllItems d = All (λ p. P p.0 p.1) d

  assign-AllItems : (k : K) (v : V) (d : Dict K V) → AllItems d → P k v → AllItems (assign k v d)
  unfolding assign
  assign-AllItems k v [] a h = (h, tt)
  assign-AllItems k v ((j, w) ∷ d) a h = elim (Bool-cases (j == k)) [
    | inl same ↦
        let e' : k ≡ j = sym ((e.agrees j k).0 same) in rw same (subst (λ i. P i v) e' h, a.1)
    | inr other ↦ rw other (a.0, assign-AllItems k v d a.1 h)
  ]

  pub assign_all-AllItems :
      (pairs : List (K × V)) (d : Dict K V)
      → AllItems pairs
      → AllItems d
      → AllItems (assign_all pairs d)
  unfolding assign_all
  assign_all-AllItems [] d h a = a
  assign_all-AllItems ((k, v) ∷ pairs) d h a =
      assign_all-AllItems pairs (assign k v d) h.1 (assign-AllItems k v d a h.0)

  pub lookup-AllItems : (k : K) (v : V) (d : Dict K V) → AllItems d → lookup k d ≡ some v → P k v
  unfolding lookup
  lookup-AllItems k v [] a h = cc
  lookup-AllItems k v ((j, w) ∷ d) a h = elim (Bool-cases (j == k)) [
    | inl same ↦
        let value : w ≡ v = ground arith in
        subst (λ i. P i v) ((e.agrees j k).0 same) (subst (P j) value a.0)
    | inr other ↦ lookup-AllItems k v d a.1 (rw other at h)
  ]

-- A dictionary's keys differ.
abbrev pub IsDict {ℓ κ} : {K : Type ℓ} {V : Type κ} → Dict K V → Type ℓ
IsDict [] = Unit
IsDict ((k, v) ∷ d) = All (λ p. p.0 ≢ k) d × IsDict d

abbrev pub or_else {ℓ} : {A : Type ℓ} → Option A → Option A → Option A
or_else none other = other
or_else (some a) other = some a

pub or_else-none {ℓ} : {A : Type ℓ} (o : Option A) → or_else o none ≡ o
or_else-none none = refl
or_else-none (some a) = refl

abbrev pub option_map {ℓ κ} : {A : Type ℓ} {B : Type κ} → (A → B) → Option A → Option B
option_map f none = none
option_map f (some a) = some (f a)

module _ {ℓ κ} {K : Type ℓ} {V : Type κ} ⦃e : PyEq K⦄ where
  pub lookup-absent : (k : K) (d : Dict K V) → All (λ p. p.0 ≢ k) d → lookup k d ≡ none
  unfolding lookup
  lookup-absent k [] h = refl
  lookup-absent k ((j, v) ∷ d) h = ground (arith, e.agrees j k, h.0, lookup-absent k d h.1)

  -- The items of a dictionary, assigned to another.
  pub lookup-assign_all :
      (k : K) (pairs d : Dict K V)
      → IsDict pairs
      → lookup k (assign_all pairs d) ≡ or_else (lookup k pairs) (lookup k d)
  unfolding assign_all lookup
  lookup-assign_all k [] d h = refl
  lookup-assign_all k ((j, v) ∷ pairs) d h = elim (Bool-cases (j == k)) [
    | inl same ↦
        let same_key : j ≡ k = (e.agrees j k).0 same in
        let absent : All (λ p. p.0 ≢ k) pairs =
          subst (λ i. All (λ p. p.0 ≢ i) pairs) same_key h.0 in
        rw same (
          lookup-assign_all_absent k pairs (assign j v d) absent
          ∙ subst (λ i. lookup i (assign j v d) ≡ some v) same_key (lookup-assign_self j v d))
    | inr other ↦
        let differs : j ≢ k = λ q. bools_differ (sym ((e.agrees j k).1 q) ∙ other) in
        rw other (
          lookup-assign_all k pairs (assign j v d) h.1
          ∙ ap (or_else (lookup k pairs)) (lookup-assign_ne k j v d differs))
  ]

module _ {ℓ κ μ} {K : Type ℓ} {V : Type κ} {W : Type μ} ⦃e : PyEq K⦄ (f : V → W) where
  abbrev pub map_values : Dict K V → Dict K W
  map_values d = map (λ p. (p.0, f p.1)) d

  pub lookup-map_values :
      (k : K) (d : Dict K V) → lookup k (map_values d) ≡ option_map f (lookup k d)
  unfolding lookup
  lookup-map_values k [] = refl
  lookup-map_values k ((j, v) ∷ d) = ground (arith, lookup-map_values k d)

  pub IsDict-map_values : (d : Dict K V) → IsDict d → IsDict (map_values d)
  IsDict-map_values [] h = tt
  IsDict-map_values ((j, v) ∷ d) h =
      (All-map (λ p. p.0 ≢ j) (λ p. (p.0, f p.1)) d h.0, IsDict-map_values d h.1)

module _ {ℓ κ} {K : Type ℓ} {V : Type κ} ⦃e : PyEq K⦄ where
  assign-keys :
      (i k : K) (v : V) (d : Dict K V)
      → All (λ p. p.0 ≢ i) d
      → k ≢ i
      → All (λ p. p.0 ≢ i) (assign k v d)
  unfolding assign
  assign-keys i k v [] a h = (h, tt)
  assign-keys i k v ((j, w) ∷ d) a h = elim (Bool-cases (j == k)) [
    | inl same ↦ rw same (a.0, a.1)
    | inr other ↦ rw other (a.0, assign-keys i k v d a.1 h)
  ]

  assign-IsDict : (k : K) (v : V) (d : Dict K V) → IsDict d → IsDict (assign k v d)
  unfolding assign
  assign-IsDict k v [] h = (tt, tt)
  assign-IsDict k v ((j, w) ∷ d) h = elim (Bool-cases (j == k)) [
    | inl same ↦ rw same (h.0, h.1)
    | inr other ↦
        let differs : k ≢ j = λ q. bools_differ (sym ((e.agrees j k).1 (sym q)) ∙ other) in
        rw other (assign-keys j k v d h.0 differs, assign-IsDict k v d h.1)
  ]

  pub assign_all-IsDict : (pairs d : Dict K V) → IsDict d → IsDict (assign_all pairs d)
  unfolding assign_all
  assign_all-IsDict [] d h = h
  assign_all-IsDict ((k, v) ∷ pairs) d h =
      assign_all-IsDict pairs (assign k v d) (assign-IsDict k v d h)

  lookup-later :
      (k : K) (v : V) (d items : Dict K V)
      → All (λ p. p.0 ≢ k) items
      → All (λ p. lookup p.0 d ≡ some p.1) items
      → All (λ p. lookup p.0 ((k, v) ∷ d) ≡ some p.1) items
  unfolding lookup
  lookup-later k v d [] a h = tt
  lookup-later k v d ((j, w) ∷ items) a h =
      (ground (arith, a.0, h.0, e.agrees k j), lookup-later k v d items a.1 h.1)

  -- Each item is found under its key.
  pub All-items : (d : Dict K V) → IsDict d → All (λ p. lookup p.0 d ≡ some p.1) d
  unfolding lookup
  All-items [] h = tt
  All-items ((k, v) ∷ d) h = (rw (beq_refl k) refl, lookup-later k v d d h.0 (All-items d h.1))
