-- ===== src/Common/Classes.antt =====
-- Types whose values the program compares with `===`.
use Prim.Native.Nat.{ℕ}
use Prim.Native.String.{String}
use mathlib.Core.Path.{◌≡◌, refl}
use mathlib.Core.Logic.{◌↔◌}
use mathlib.Core.Bool.{Bool, true}
use text.Mathlib.Text.{◌==◌ as same_text}
use text.Mathlib.TextEquality.{eq_iff as same_text_iff}
use fork_metamask_core.Common.Tests.{eqb, eqb_iff}

-- A test, and that it decides equality.
pub record HasEquality {ℓ} (K : Type ℓ) : Type ℓ where
  pub same : K → K → Bool
  pub same_iff : (x y : K) → (same x y ≡ true) ↔ (x ≡ y)

instance abbrev pub string_eq : HasEquality String
string_eq = record { same_iff = same_text_iff; same = same_text }

instance abbrev pub nat_eq : HasEquality ℕ
nat_eq = record { same_iff = eqb_iff; same = eqb }

module _ {ℓ} {K : Type ℓ} ⦃c : HasEquality K⦄ where
  infix 50 ◌==◌
  abbrev pub ◌==◌ : K → K → Bool
  x == y = c.same x y

  pub beq_refl : (x : K) → (x == x) ≡ true
  beq_refl x = (c.same_iff x x).1 refl
