-- ===== src/Common/Order.antt =====
-- The order of texts: Go's `<` and `>` on strings.
use Prim.Native.Nat.{ℕ, Ordering, compare as compare_ℕ}
use Prim.Native.Char.{code}
use Prim.Native.String.{String, compare, then}
use Prim.Native.String.compare
use mathlib.Core.Path.{◌≡◌, refl, sym, ap, ◌∙◌}
use mathlib.Core.Bool.{Bool, true, false, false≢true}
use native.Mathlib.Omega.{arith}
use mathlib.Core.Logic.{inl, inr}
use text.Mathlib.TextEquality.{path_by_compare}
use podman_api.Common.Equality.{str_gt}
use podman_api.Common.Tests.{Bool-cases}

abbrev flip : Ordering → Ordering
flip Ordering.lt = Ordering.gt
flip Ordering.eq = Ordering.eq
flip Ordering.gt = Ordering.lt

flip-compare_ℕ : (m n : ℕ) → compare_ℕ n m ≡ flip (compare_ℕ m n)
flip-compare_ℕ m n = ground arith

flip-then : (a b : Ordering) → flip (then a b) ≡ then (flip a) (flip b)
flip-then Ordering.lt b = refl
flip-then Ordering.eq b = refl
flip-then Ordering.gt b = refl

flip-compare : (s t : String) → compare t s ≡ flip (compare s t)
flip-compare String.[] String.[] = compare.nil-nil ∙ ap flip (sym compare.nil-nil)
flip-compare String.[] (String.◌∷◌ d t) =
    compare.cons-nil d t ∙ ap flip (sym (compare.nil-cons d t))
flip-compare (String.◌∷◌ c s) String.[] =
    compare.nil-cons c s ∙ ap flip (sym (compare.cons-nil c s))
flip-compare (String.◌∷◌ c s) (String.◌∷◌ d t) =
    compare.cons-cons d c t s
    ∙ rw (compare.cons-cons c d s t, flip-then, flip-compare_ℕ (code c) (code d), flip-compare s t)
        refl

abbrev is_gt : Ordering → Bool
is_gt o = elim o [ Ordering.gt ↦ true | _ ↦ false ]

is_gt-then :
    (m n k : ℕ) (a b c : Ordering)
    → (is_gt a ≡ true → is_gt b ≡ true → is_gt c ≡ true)
    → is_gt (then (compare_ℕ m n) a) ≡ true
    → is_gt (then (compare_ℕ n k) b) ≡ true
    → is_gt (then (compare_ℕ m k) c) ≡ true
is_gt-then m n k a b c h p q = ground arith

gt-flip : (o : Ordering) → is_gt o ≡ true → is_gt (flip o) ≡ false
gt-flip o h = ground arith

pub str_gt_asym : (s t : String) → str_gt s t ≡ true → str_gt t s ≡ false
str_gt_asym s t h = ap is_gt (flip-compare s t) ∙ (gt-flip (compare s t) h)

pub str_gt_trans : (s t u : String) → str_gt s t ≡ true → str_gt t u ≡ true → str_gt s u ≡ true
str_gt_trans String.[] String.[] u p q = q
str_gt_trans String.[] (String.◌∷◌ d t) u p q =
    absurd (false≢true (sym (ap is_gt (compare.nil-cons d t)) ∙ p))
str_gt_trans (String.◌∷◌ c s) String.[] String.[] p q = p
str_gt_trans (String.◌∷◌ c s) String.[] (String.◌∷◌ e u) p q =
    absurd (false≢true (sym (ap is_gt (compare.nil-cons e u)) ∙ q))
str_gt_trans (String.◌∷◌ c s) (String.◌∷◌ d t) String.[] p q = ap is_gt (compare.cons-nil c s)
str_gt_trans (String.◌∷◌ c s) (String.◌∷◌ d t) (String.◌∷◌ e u) p q =
    ap is_gt (compare.cons-cons c e s u)
    ∙ is_gt-then (code c) (code d) (code e) (compare s t) (compare t u) (compare s u)
        (str_gt_trans s t u) (sym (ap is_gt (compare.cons-cons c d s t)) ∙ p)
        (sym (ap is_gt (compare.cons-cons d e t u)) ∙ q)

compare_of_not_gt :
    (s t : String) → str_gt s t ≡ false → str_gt t s ≡ false → compare s t ≡ Ordering.eq
compare_of_not_gt s t p q = settle (compare s t) p (sym (ap is_gt (flip-compare s t)) ∙ q)
  where
    settle : (o : Ordering) → is_gt o ≡ false → is_gt (flip o) ≡ false → o ≡ Ordering.eq
    settle o p q = ground arith

-- Not above is transitive too.
pub str_gt_cotrans : (s t u : String) → str_gt s t ≡ false → str_gt t u ≡ false → str_gt s u ≡ false
str_gt_cotrans s t u p q = elim (Bool-cases (str_gt s u)) [
  | inr e ↦ e
  | inl e ↦ elim (Bool-cases (str_gt t s)) [
    | inl above ↦ e ∙ sym (str_gt_trans t s u above e) ∙ q
    | inr level ↦ ap (λ x. str_gt x u) (path_by_compare s t (compare_of_not_gt s t p level)) ∙ q
  ]
]
