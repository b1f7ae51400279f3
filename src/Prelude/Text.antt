-- ===== src/Prelude/Text.antt =====
-- Texts by their characters, and pairs as keys.
use Prim.Native.Nat.{ℕ, zero, suc}
use Prim.Native.Char.{code}
use Prim.Native.String.{String, [], ◌∷◌}
use mathlib.Core.Path.{◌≡◌}
use mathlib.Core.Logic.{◌↔◌}
use mathlib.Core.Bool.{Bool, true, false, ◌&&◌, ◌||◌}
use mathlib.Core.List.{List}
use native.Mathlib.Omega.{arith}
use job_searching_assistant.Prelude.Equality.{PyEq, ◌==◌, nat_beq}
use job_searching_assistant.Prelude.Tests.{ltb}

-- `s[:n]`
abbrev pub take_chars : ℕ → String → String
take_chars zero s = []
take_chars (suc n) [] = []
take_chars (suc n) (c ∷ s) = c ∷ take_chars n s

-- The code points of a text.
abbrev pub codes : String → List ℕ
codes [] = List.[]
codes (c ∷ s) = List.◌∷◌ (code c) (codes s)

-- `<` on texts, by code points
abbrev pub text_lt : String → String → Bool
text_lt s [] = false
text_lt [] (d ∷ t) = true
text_lt (c ∷ s) (d ∷ t) = ltb (code c) (code d) || (nat_beq (code c) (code d) && text_lt s t)

module _ {ℓ κ} {A : Type ℓ} {B : Type κ} ⦃e : PyEq A⦄ ⦃f : PyEq B⦄ where
  abbrev pub pair_beq : A × B → A × B → Bool
  pair_beq p q = p.0 == q.0 && p.1 == q.1

  pub pair_beq_iff : (p q : A × B) → (pair_beq p q ≡ true) ↔ (p ≡ q)
  pair_beq_iff p q = (
    λ h. ground (arith, e.agrees p.0 q.0, f.agrees p.1 q.1),
    λ h. ground (arith, e.agrees p.0 q.0, f.agrees p.1 q.1),
  )

  instance abbrev pub pair_eq : PyEq (A × B)
  pair_eq = record { test = pair_beq; agrees = pair_beq_iff }
