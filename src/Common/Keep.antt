-- ===== src/Common/Keep.antt =====
-- What is kept of a list by a Boolean test, and how much.
use Prim.Native.Nat.{◌+◌}
use mathlib.Core.Path.{◌≡◌, refl}
use mathlib.Core.Logic.{inl, inr}
use mathlib.Core.Bool.{Bool, true, false, not, ◌&&◌}
use mathlib.Core.List.{List, [], ◌∷◌}
use native.Mathlib.Omega.{arith}
use podman_api.Common.Tests.{Bool-cases}
use podman_api.Common.Lists.{All, count, keep, length}

module _ {A : Type 0} where
  pub length-keep :
      (d : A → Bool) (js : List A) → length (keep (λ j. not (d j)) js) + count d js ≡ length js
  length-keep d [] = refl
  length-keep d (j ∷ js) = ground (arith, length-keep d js)

  pub keep-keep :
      (p q : A → Bool) (js : List A)
      → ((j : A) → p j ≡ true → q j ≡ true)
      → keep p (keep q js) ≡ keep p js
  keep-keep p q [] h = refl
  keep-keep p q (j ∷ js) h = ground (arith, h j, keep-keep p q js h)

  pub count-keep :
      (p q : A → Bool) (js : List A)
      → All (λ j. (p j && not (q j)) ≡ false) js
      → count p (keep q js) ≡ count p js
  count-keep p q [] h = refl
  count-keep p q (j ∷ js) h = ground (arith, h.0, count-keep p q js h.1)

  pub All-keep : (P : A → Type 0) (q : A → Bool) (js : List A) → All P js → All P (keep q js)
  All-keep P q [] h = tt
  All-keep P q (j ∷ js) h = elim (Bool-cases (q j)) [
    | inl e ↦ rw e (h.0, All-keep P q js h.1)
    | inr e ↦ rw e (All-keep P q js h.1)
  ]

  pub keep_of_every : (q : A → Bool) (js : List A) → All (λ j. q j ≡ true) js → keep q js ≡ js
  keep_of_every q [] h = refl
  keep_of_every q (j ∷ js) h = rw (h.0, keep_of_every q js h.1)

  pub count-none : (d : A → Bool) (js : List A) → All (λ j. d j ≡ false) js → count d js ≡ 0
  count-none d [] h = refl
  count-none d (j ∷ js) h = rw (h.0, count-none d js h.1)

  pub keep-passes : (q : A → Bool) (js : List A) → All (λ j. q j ≡ true) (keep q js)
  keep-passes q [] = tt
  keep-passes q (j ∷ js) = elim (Bool-cases (q j)) [
    | inl e ↦ rw e (e, keep-passes q js)
    | inr e ↦ rw e (keep-passes q js)
  ]
