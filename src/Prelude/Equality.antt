-- ===== src/Prelude/Equality.antt =====
-- Python's `==` on the types that serve as keys and tags: one operator, an instance for each type.
use Prim.Native.Nat.{ℕ}
use Prim.Native.String.{String}
use mathlib.Core.Path.{◌≡◌, refl}
use mathlib.Core.Logic.{◌↔◌}
use mathlib.Core.Bool.{Bool, true, false, ◌&&◌}
use mathlib.Core.List.{List, [], ◌∷◌}
use native.Mathlib.Omega.{arith}
use text.Mathlib.Text.{◌==◌ as str_eq}
use text.Mathlib.TextEquality.{eq_iff}
use aether_v.Prelude.Tests.{nat_eq}

-- A type whose values Python compares, by a test that is right.
pub record Comparable {ℓ} (K : Type ℓ) : Type ℓ where
  pub same : K → K → Bool
  pub same_iff : (j k : K) → (same j k ≡ true) ↔ (j ≡ k)

pub nat_eq_iff : (a b : ℕ) → (nat_eq a b ≡ true) ↔ (a ≡ b)
nat_eq_iff a b = ground arith

-- `==` on texts as lists of code points
abbrev pub same_text : List ℕ → List ℕ → Bool
same_text [] [] = true
same_text (c ∷ s) (d ∷ t) = nat_eq c d && same_text s t
same_text s t = false

pub same_text_iff : (s t : List ℕ) → (same_text s t ≡ true) ↔ (s ≡ t)
same_text_iff [] [] = ground arith
same_text_iff [] (d ∷ t) = ground arith
same_text_iff (c ∷ s) [] = ground arith
same_text_iff (c ∷ s) (d ∷ t) = ground (arith, same_text_iff s t)

instance abbrev pub eq_text : Comparable (List ℕ)
eq_text = record { same = same_text; same_iff = same_text_iff }

instance abbrev pub eq_string : Comparable String
eq_string = record { same = str_eq; same_iff = eq_iff }

instance abbrev pub eq_nat : Comparable ℕ
eq_nat = record { same = nat_eq; same_iff = nat_eq_iff }

module _ {ℓ} {K : Type ℓ} ⦃c : Comparable K⦄ where
  infix 50 ◌==◌
  abbrev pub ◌==◌ : K → K → Bool
  j == k = c.same j k

  pub eq_self : (k : K) → (k == k) ≡ true
  eq_self k = (c.same_iff k k).1 refl
