-- ===== src/Prelude/Equality.antt =====
-- Python's `==` on the values that the program compares: a test with the law that it decides
-- equality, and the membership test `in`.
use Prim.Native.Nat.{ℕ, compare, Ordering}
use Prim.Native.String.{String}
use mathlib.Core.Path.{◌≡◌, refl, sym, ap, ◌∙◌}
use mathlib.Core.Logic.{◌↔◌, inl, inr}
use job_searching_assistant.Prelude.Tests.{Bool-cases}
use job_searching_assistant.Prelude.Lists.{filter_by}
use mathlib.Core.Bool.{Bool, true, false, ◌||◌, ◌&&◌}
use mathlib.Core.List.{List, [], ◌∷◌}
use native.Mathlib.Omega.{arith}
use text.Mathlib.Text.{◌==◌ as str_eq}
use text.Mathlib.TextEquality.{eq_iff}

pub record PyEq {ℓ} (T : Type ℓ) : Type ℓ where
  pub test : T → T → Bool
  pub agrees : (x y : T) → (test x y ≡ true) ↔ (x ≡ y)

instance abbrev pub string_eq : PyEq String
string_eq = record { agrees = eq_iff; test = str_eq }

abbrev pub nat_beq : ℕ → ℕ → Bool
nat_beq a b = elim (compare a b) [ Ordering.eq ↦ true | _ ↦ false ]

pub nat_beq_iff : (a b : ℕ) → (nat_beq a b ≡ true) ↔ (a ≡ b)
nat_beq_iff a b = ground arith

infix 50 ◌==◌
abbrev pub ◌==◌ {ℓ} : {T : Type ℓ} ⦃comparison : PyEq T⦄ → T → T → Bool
◌==◌ ⦃comparison⦄ = comparison.test

-- An enumeration is compared by the numbers of its constructors.
pub index_beq_iff {ℓ} :
    {A : Type ℓ} (index : A → ℕ) (decode : ℕ → A)
    → ((a : A) → decode (index a) ≡ a)
    → (a b : A) → (nat_beq (index a) (index b) ≡ true) ↔ (a ≡ b)
index_beq_iff index decode back a b = (
  λ h. sym (back a) ∙ ap decode ((nat_beq_iff (index a) (index b)).0 h) ∙ back b,
  λ h. (nat_beq_iff (index a) (index b)).1 (ap index h),
)

instance abbrev pub nat_eq : PyEq ℕ
nat_eq = record { test = nat_beq; agrees = nat_beq_iff }

module _ {ℓ} {A : Type ℓ} ⦃e : PyEq A⦄ where
  pub beq_refl : (a : A) → e.test a a ≡ true
  beq_refl a = (e.agrees a a).1 refl

  -- The membership test `a in xs`.
  abbrev pub elem : A → List A → Bool
  elem a [] = false
  elem a (x ∷ xs) = a == x || elem a xs

  abbrev pub list_beq : List A → List A → Bool
  list_beq [] [] = true
  list_beq [] (y ∷ ys) = false
  list_beq (x ∷ xs) [] = false
  list_beq (x ∷ xs) (y ∷ ys) = x == y && list_beq xs ys

module _ {ℓ} {A : Type ℓ} ⦃e : PyEq A⦄ where
  pub list_beq_iff : (xs ys : List A) → (list_beq xs ys ≡ true) ↔ (xs ≡ ys)
  list_beq_iff [] [] = (λ _. refl, λ _. refl)
  list_beq_iff [] (y ∷ ys) = (λ h. cc, λ h. cc)
  list_beq_iff (x ∷ xs) [] = (λ h. cc, λ h. cc)
  list_beq_iff (x ∷ xs) (y ∷ ys) = (
    λ h. ground (arith, e.agrees x y, list_beq_iff xs ys),
    λ h. ground (arith, e.agrees x y, list_beq_iff xs ys),
  )

  instance abbrev pub list_eq : PyEq (List A)
  list_eq = record { test = list_beq; agrees = list_beq_iff }

module _ {ℓ} {A : Type ℓ} ⦃e : PyEq A⦄ where
  pub elem-filter_by :
      (a : A) (p : A → Bool) (xs : List A) → elem a (filter_by p xs) ≡ (elem a xs && p a)
  elem-filter_by a p [] = refl
  elem-filter_by a p (x ∷ xs) = elim (Bool-cases (a == x)) [
    | inl same ↦ ground (arith, elem-filter_by a p xs, ap p ((e.agrees a x).0 same))
    | inr other ↦ ground (arith, elem-filter_by a p xs)
  ]
