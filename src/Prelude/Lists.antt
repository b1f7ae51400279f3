-- ===== src/Prelude/Lists.antt =====
-- Lists measured by native numbers and filtered by Boolean tests, with the predicate `All`.
use Prim.Native.Nat.{ℕ, zero, suc, ◌+◌, ◌≤◌}
use mathlib.Core.Path.{◌≡◌, refl, sym, subst, ap}
use mathlib.Core.Logic.{inl, inr}
use mathlib.Core.Bool.{Bool, true, false, ◌||◌, ◌&&◌}
use mathlib.Core.List.{List, [], ◌∷◌, ◌++◌, Memᴰ, map}
use native.Mathlib.Omega.{arith}
use job_searching_assistant.Prelude.Tests.{if◌then◌else◌, Bool-cases}

module _ {ℓ} {A : Type ℓ} where
  abbrev pub length : List A → ℕ
  length [] = 0
  length (x ∷ xs) = suc (length xs)

  abbrev pub take : ℕ → List A → List A
  take zero xs = []
  take (suc n) [] = []
  take (suc n) (x ∷ xs) = x ∷ take n xs

  abbrev pub drop : ℕ → List A → List A
  drop zero xs = xs
  drop (suc n) [] = []
  drop (suc n) (x ∷ xs) = drop n xs

  -- A comprehension `[x for x in xs if p(x)]`.
  abbrev pub filter_by : (A → Bool) → List A → List A
  filter_by p [] = []
  filter_by p (x ∷ xs) = if p x then x ∷ filter_by p xs else filter_by p xs

  abbrev pub any : (A → Bool) → List A → Bool
  any p [] = false
  any p (x ∷ xs) = p x || any p xs

  abbrev pub all : (A → Bool) → List A → Bool
  all p [] = true
  all p (x ∷ xs) = p x && all p xs

  -- `sum(p(x) for x in xs)` of a Boolean.
  abbrev pub count_by : (A → Bool) → List A → ℕ
  count_by p [] = 0
  count_by p (x ∷ xs) = (if p x then 1 else 0) + count_by p xs

  abbrev pub All {κ} : (A → Type κ) → List A → Type κ
  All P [] = Unit
  All P (x ∷ xs) = P x × All P xs

module _ {ℓ} {A : Type ℓ} where
  pub length-append : (xs ys : List A) → length (xs ++ ys) ≡ length xs + length ys
  length-append [] ys = omega arith
  length-append (x ∷ xs) ys = omega (arith, length-append xs ys)

  pub length-filter_by : (p : A → Bool) (xs : List A) → length (filter_by p xs) ≡ count_by p xs
  length-filter_by p [] = refl
  length-filter_by p (x ∷ xs) = ground (arith, length-filter_by p xs)

  pub count_by-le-length : (p : A → Bool) (xs : List A) → count_by p xs ≤ length xs
  count_by-le-length p [] = omega arith
  count_by-le-length p (x ∷ xs) = ground (arith, count_by-le-length p xs)

  pub All-filter_by {κ} :
      (P : A → Type κ) (p : A → Bool) (xs : List A) → All P xs → All P (filter_by p xs)
  All-filter_by P p [] h = tt
  All-filter_by P p (x ∷ xs) h = elim (Bool-cases (p x)) [
    | inl kept ↦ rw kept (h.0, All-filter_by P p xs h.1)
    | inr dropped ↦ rw dropped (All-filter_by P p xs h.1)
  ]

  pub map-append {κ} :
      {B : Type κ} (f : A → B) (xs ys : List A) → map f (xs ++ ys) ≡ map f xs ++ map f ys
  map-append f [] ys = refl
  map-append f (x ∷ xs) ys = ap (◌∷◌ (f x)) (map-append f xs ys)

  pub All-map {κ μ} :
      {B : Type κ} (P : B → Type μ) (f : A → B) (xs : List A)
      → All (λ x. P (f x)) xs
      → All P (map f xs)
  All-map P f [] h = tt
  All-map P f (x ∷ xs) h = (h.0, All-map P f xs h.1)

  pub All-append {κ} : (P : A → Type κ) (xs ys : List A) → All P xs → All P ys → All P (xs ++ ys)
  All-append P [] ys hx hy = hy
  All-append P (x ∷ xs) ys hx hy = (hx.0, All-append P xs ys hx.1 hy)

module _ {ℓ κ} {A : Type ℓ} where
  pub mem-All : (P : A → Type κ) (xs : List A) {a : A} → Memᴰ a xs → All P xs → P a
  mem-All P [] m h = elim m [ ]
  mem-All P (x ∷ xs) (Memᴰ.head e) h = subst P (sym e) h.0
  mem-All P (x ∷ xs) (Memᴰ.tail m) h = mem-All P xs m h.1

  pub All-of_Mem : (P : A → Type κ) (xs : List A) → ((a : A) → Memᴰ a xs → P a) → All P xs
  All-of_Mem P [] h = tt
  All-of_Mem P (x ∷ xs) h = (h x (Memᴰ.head refl), All-of_Mem P xs (λ a m. h a (Memᴰ.tail m)))

  pub All-imp {μ} :
      (P : A → Type κ) (Q : A → Type μ) (xs : List A) → ((a : A) → P a → Q a) → All P xs → All Q xs
  All-imp P Q [] f h = tt
  All-imp P Q (x ∷ xs) f h = (f x h.0, All-imp P Q xs f h.1)

  -- What holds of each element that passes the test.
  pub All-of_filter_by :
      (P : A → Type κ) (p : A → Bool) (xs : List A)
      → All P (filter_by p xs)
      → All (λ x. p x ≡ true → P x) xs
  All-of_filter_by P p [] h = tt
  All-of_filter_by P p (x ∷ xs) h = elim (Bool-cases (p x)) [
    | inl kept ↦ let h' = rw kept at h in (λ _. h'.0, All-of_filter_by P p xs h'.1)
    | inr dropped ↦ (λ t. cc, All-of_filter_by P p xs (rw dropped at h))
  ]

module _ {ℓ} {A : Type ℓ} where
  mem_kept :
      (p : A → Bool) (x : A) (xs : List A) (a : A)
      → p x ≡ true
      → (Memᴰ a (filter_by p xs) → Memᴰ a xs × (p a ≡ true))
      → Memᴰ a (x ∷ filter_by p xs)
      → Memᴰ a (x ∷ xs) × (p a ≡ true)
  mem_kept p x xs a kept rest (Memᴰ.head e) = (Memᴰ.head e, rw e kept)
  mem_kept p x xs a kept rest (Memᴰ.tail m) = let (m', t) = rest m in (Memᴰ.tail m', t)

  pub mem-of_filter_by :
      (p : A → Bool) (xs : List A) (a : A) → Memᴰ a (filter_by p xs) → Memᴰ a xs × (p a ≡ true)
  mem-of_filter_by p [] a m = elim m [ ]
  mem-of_filter_by p (x ∷ xs) a m = elim (Bool-cases (p x)) [
    | inl kept ↦ mem_kept p x xs a kept (mem-of_filter_by p xs a) (rw kept at m)
    | inr dropped ↦ let (m', t) = mem-of_filter_by p xs a (rw dropped at m) in (Memᴰ.tail m', t)
  ]

  pub All-of_filter_by_nil :
      (p : A → Bool) (xs : List A) → filter_by p xs ≡ [] → All (λ x. p x ≡ false) xs
  All-of_filter_by_nil p [] h = tt
  All-of_filter_by_nil p (x ∷ xs) h = elim (Bool-cases (p x)) [
    | inl kept ↦ cc (rw kept at h)
    | inr dropped ↦ (dropped, All-of_filter_by_nil p xs (rw dropped at h))
  ]

  pub drop-length_append : (xs ys : List A) → drop (length xs) (xs ++ ys) ≡ ys
  drop-length_append [] ys = refl
  drop-length_append (x ∷ xs) ys = drop-length_append xs ys

-- Two lists of one length, related element by element.
abbrev pub Pairwise {ℓ κ} : {A : Type ℓ} {B : Type κ} → (A → B → Type 0) → List A → List B → Type 0
Pairwise R [] [] = Unit
Pairwise R [] (y ∷ ys) = ⊥
Pairwise R (x ∷ xs) [] = ⊥
Pairwise R (x ∷ xs) (y ∷ ys) = R x y × Pairwise R xs ys

pub Pairwise-append {ℓ κ} :
    {A : Type ℓ} {B : Type κ} (R : A → B → Type 0) (xs : List A) (ys : List B) (zs : List A)
    (ws : List B)
    → Pairwise R xs ys
    → Pairwise R zs ws
    → Pairwise R (xs ++ zs) (ys ++ ws)
Pairwise-append R [] [] zs ws h k = k
Pairwise-append R [] (y ∷ ys) zs ws h k = absurd h
Pairwise-append R (x ∷ xs) [] zs ws h k = absurd h
Pairwise-append R (x ∷ xs) (y ∷ ys) zs ws h k = (h.0, Pairwise-append R xs ys zs ws h.1 k)
