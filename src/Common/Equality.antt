-- ===== src/Common/Equality.antt =====
-- Boolean equality of texts, numbers and enumerations, as an instance.
use Prim.Native.Nat.{ℕ, Ordering}
use Prim.Native.String.{String, compare}
use mathlib.Core.Path.{◌≡◌, refl}
use mathlib.Core.Logic.{◌↔◌}
use mathlib.Core.Bool.{Bool, true, false, ◌||◌}
use mathlib.Core.List.{List, [], ◌∷◌}
use native.Mathlib.Omega.{arith}
use text.Mathlib.Text.{◌==◌ as str_eq}
use text.Mathlib.TextEquality.{eq_iff}
use podman_api.Common.Tests.{eqb, eqb_iff, if◌then◌else◌}

-- A Boolean test that decides whether two values are the same.
pub record Eq (A : Type 0) : Type 0 where
  pub same : A → A → Bool
  pub same_iff : (x y : A) → (same x y ≡ true) ↔ (x ≡ y)

instance abbrev pub string_eq : Eq String
string_eq = record { same = str_eq; same_iff = eq_iff }

instance abbrev pub nat_eq : Eq ℕ
nat_eq = record { same = eqb; same_iff = eqb_iff }

infix 50 ◌==◌
abbrev pub ◌==◌ : {T : Type 0} ⦃test : Eq T⦄ → T → T → Bool
◌==◌ ⦃test⦄ x y = test.same x y

-- Go's `a > b` on strings.
abbrev pub str_gt : String → String → Bool
str_gt a b = elim (compare a b) [ Ordering.gt ↦ true | _ ↦ false ]

-- A set built from a slice, `want[k]`.
abbrev pub contains : {T : Type 0} ⦃test : Eq T⦄ → List T → T → Bool
contains [] a = false
contains (x ∷ xs) a = x == a || contains xs a

-- A slice filled from another, each item once.
unfoldable pub distinct : {T : Type 0} ⦃test : Eq T⦄ → List T → List T
distinct [] = []
distinct (x ∷ xs) = let others = distinct xs in if contains others x then others else x ∷ others

pub contains-distinct :
    {T : Type 0} ⦃test : Eq T⦄ (xs : List T) (a : T) → contains (distinct xs) a ≡ contains xs a
unfolding distinct
contains-distinct [] a = refl
contains-distinct ⦃test⦄ (x ∷ xs) a =
    ground (arith, contains-distinct xs a, contains-distinct xs x, test.same_iff x a)
