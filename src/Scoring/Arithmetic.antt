-- ===== src/Scoring/Arithmetic.antt =====
-- Python's floats, as far as matching/scoring.py computes with them. The scorer is written over
-- any arithmetic; what is proved of the size of a score relies on the laws of `IsRounding`.
use job_searching_assistant.Prelude.{ℕ, ◌+◌, ◌≤◌, ◌≡◌, Bool, false}

pub record Arithmetic : Type 1 where
  pub Float : Type 0
  -- an integer as a float
  pub of_nat : ℕ → Float
  -- the literal n / 100
  pub decimal : ℕ → Float
  pub add : Float → Float → Float
  pub mul : Float → Float → Float
  pub sub : Float → Float → Float
  pub div : Float → Float → Float
  pub minimum : Float → Float → Float
  pub maximum : Float → Float → Float
  pub is_zero : Float → Bool
  -- `round(x)` of a finite number that is not negative
  pub rounded : Float → ℕ
  -- `round(x, 3)`
  pub rounded_3 : Float → Float

-- 2 ^ 53: up to here every integer is a double.
abbrev pub exact_limit : ℕ
exact_limit = 9_007_199_254_740_992

-- What IEEE doubles with rounding to the nearest guarantee: exact small integers, monotone
-- operations, and that 100 times a number, divided by the number again, is close to 100. Each law
-- keeps to numbers that are not negative and, where an operation could overflow, not above 2 ^ 53.
pub record IsRounding (a : Arithmetic) : Type 1 where
  pub Le : a.Float → a.Float → Type 0
  pub le_trans : (x y z : a.Float) → Le x y → Le y z → Le x z
  pub nat_le : (m n : ℕ) → m ≤ n → n ≤ exact_limit → Le (a.of_nat m) (a.of_nat n)
  pub add_nat : (m n : ℕ) → m + n ≤ exact_limit → a.add (a.of_nat m) (a.of_nat n) ≡ a.of_nat (m + n)
  pub add_mono :
      (x y z w : a.Float)
      → Le (a.of_nat 0) x
      → Le x y
      → Le (a.of_nat 0) z
      → Le z w
      → Le (a.add x z) (a.add y w)
  -- a factor between 0 and 1 does not enlarge, and keeps the sign
  pub mul_factor :
      (x : a.Float) (n : ℕ)
      → Le (a.of_nat 0) x
      → Le x (a.of_nat exact_limit)
      → n ≤ 100
      → Le (a.mul x (a.decimal n)) x
  pub mul_nonneg :
      (x : a.Float) (n : ℕ)
      → Le (a.of_nat 0) x
      → Le x (a.of_nat exact_limit)
      → n ≤ 100
      → Le (a.of_nat 0) (a.mul x (a.decimal n))
  pub hundred_nonneg :
      (x : a.Float)
      → Le (a.of_nat 0) x
      → Le x (a.of_nat exact_limit)
      → Le (a.of_nat 0) (a.mul (a.of_nat 100) x)
  pub hundred_mono :
      (x y : a.Float)
      → Le (a.of_nat 0) x
      → Le x y
      → Le y (a.of_nat exact_limit)
      → Le (a.mul (a.of_nat 100) x) (a.mul (a.of_nat 100) y)
  pub div_nonneg :
      (x w : a.Float)
      → Le (a.of_nat 0) x
      → Le (a.of_nat 0) w
      → Le w (a.of_nat exact_limit)
      → a.is_zero w ≡ false
      → Le (a.of_nat 0) (a.div x w)
  pub div_mono :
      (x y w : a.Float)
      → Le (a.of_nat 0) x
      → Le x y
      → Le (a.of_nat 0) w
      → Le w (a.of_nat exact_limit)
      → a.is_zero w ≡ false
      → Le (a.div x w) (a.div y w)
  pub div_back :
      (w : a.Float)
      → Le (a.of_nat 0) w
      → Le w (a.of_nat exact_limit)
      → a.is_zero w ≡ false
      → Le (a.div (a.mul (a.of_nat 100) w) w) (a.of_nat 101)
        × (a.rounded (a.div (a.mul (a.of_nat 100) w) w) ≡ 100)
  pub rounded_nat : (n : ℕ) → n ≤ exact_limit → a.rounded (a.of_nat n) ≡ n
  pub rounded_mono :
      (x y : a.Float)
      → Le (a.of_nat 0) x
      → Le x y
      → Le y (a.of_nat exact_limit)
      → a.rounded x ≤ a.rounded y
