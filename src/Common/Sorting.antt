-- ===== src/Common/Sorting.antt =====
-- `sort.Slice` as an insertion sort, for an order given by when an item comes after another.
use Prim.Native.Nat.{suc}
use mathlib.Core.Path.{◌≡◌, refl, ap, ◌∙◌}
use mathlib.Core.Logic.{inl, inr}
use mathlib.Core.Bool.{Bool, true, false, ◌||◌}
use native.Mathlib.Omega.{arith}
use mathlib.Core.List.{List, [], ◌∷◌, Perm}
use mathlib.Core.List.Perm
use podman_api.Common.Tests.{if◌then◌else◌, Bool-cases}
use podman_api.Common.Lists.{All, All-map, length, count, any}

module _ {A : Type 0} (comes_after : A → A → Bool) where
  unfoldable pub insert : A → List A → List A
  insert x [] = x ∷ []
  insert x (y ∷ sorted) =
      let later = y ∷ insert x sorted in if comes_after x y then later else x ∷ y ∷ sorted

  unfoldable pub sort : List A → List A
  sort [] = []
  sort (x ∷ xs) = insert x (sort xs)

  -- No item comes after one behind it.
  abbrev pub IsInOrder : List A → Type 0
  IsInOrder [] = Unit {0}
  IsInOrder (x ∷ xs) = All (λ y. comes_after x y ≡ false) xs × IsInOrder xs

  pub insert-cases :
      (P : List A → Type 0) (x y : A) (ys : List A)
      → (comes_after x y ≡ true → P (y ∷ insert x ys))
      → (comes_after x y ≡ false → P (x ∷ y ∷ ys))
      → P (insert x (y ∷ ys))
  unfolding insert
  insert-cases P x y ys later here = elim (Bool-cases (comes_after x y)) [
    | inl e ↦ rw e (later e)
    | inr e ↦ rw e (here e)
  ]

  insert-Perm : (x : A) (xs : List A) → Perm (insert x xs) (x ∷ xs)
  unfolding insert
  insert-Perm x [] = Perm.refl _
  insert-Perm x (y ∷ ys) =
      insert-cases (λ zs. Perm zs (x ∷ y ∷ ys)) x y ys
        (λ e. Perm.trans (Perm.cons y (insert-Perm x ys)) (Perm.swap x y ys)) (λ e. Perm.refl _)

  pub sort-Perm : (xs : List A) → Perm (sort xs) xs
  unfolding sort
  sort-Perm [] = Perm.refl []
  sort-Perm (x ∷ xs) = Perm.trans (insert-Perm x (sort xs)) (Perm.cons x (sort-Perm xs))

  length-insert : (x : A) (xs : List A) → length (insert x xs) ≡ suc (length xs)
  unfolding insert
  length-insert x [] = refl
  length-insert x (y ∷ ys) =
      insert-cases (λ zs. length zs ≡ suc (suc (length ys))) x y ys
        (λ e. ap suc (length-insert x ys)) (λ e. refl)

  pub length-sort : (xs : List A) → length (sort xs) ≡ length xs
  unfolding sort
  length-sort [] = refl
  length-sort (x ∷ xs) = length-insert x (sort xs) ∙ ap suc (length-sort xs)

  pub All-insert : (P : A → Type 0) (x : A) (xs : List A) → P x → All P xs → All P (insert x xs)
  unfolding insert
  All-insert P x [] h hs = (h, tt)
  All-insert P x (y ∷ ys) h hs =
      insert-cases (All P) x y ys (λ e. (hs.0, All-insert P x ys h hs.1)) (λ e. (h, hs))

  pub All-sort : (P : A → Type 0) (xs : List A) → All P xs → All P (sort xs)
  unfolding sort
  All-sort P [] h = tt
  All-sort P (x ∷ xs) h = All-insert P x (sort xs) h.0 (All-sort P xs h.1)

  count-insert : (p : A → Bool) (x : A) (xs : List A) → count p (insert x xs) ≡ count p (x ∷ xs)
  unfolding insert
  count-insert p x [] = refl
  count-insert p x (y ∷ ys) =
      insert-cases (λ zs. count p zs ≡ count p (x ∷ y ∷ ys)) x y ys
        (λ e. omega (arith, count-insert p x ys)) (λ e. refl)

  pub count-sort : (p : A → Bool) (xs : List A) → count p (sort xs) ≡ count p xs
  unfolding sort
  count-sort p [] = refl
  count-sort p (x ∷ xs) = count-insert p x (sort xs) ∙ omega (arith, count-sort p xs)

  pub any-insert : (p : A → Bool) (x : A) (xs : List A) → any p (insert x xs) ≡ (p x || any p xs)
  unfolding insert any
  any-insert p x [] = refl
  any-insert p x (y ∷ ys) =
      insert-cases (λ zs. any p zs ≡ (p x || (p y || any p ys))) x y ys
        (λ e. ground (arith, any-insert p x ys)) (λ e. refl)

  pub any-sort : (p : A → Bool) (xs : List A) → any p (sort xs) ≡ any p xs
  unfolding sort any
  any-sort p [] = refl
  any-sort p (x ∷ xs) = any-insert p x (sort xs) ∙ ap (λ b. p x || b) (any-sort p xs)

  All-of_insert : (P : A → Type 0) (x : A) (xs : List A) → All P (insert x xs) → P x × All P xs
  unfolding insert
  All-of_insert P x [] h = h
  All-of_insert P x (y ∷ ys) h =
      insert-cases (λ zs. All P zs → P x × (P y × All P ys)) x y ys
        (λ e k. let rest = All-of_insert P x ys k.1 in (rest.0, (k.0, rest.1))) (λ e k. k) h

  -- What holds of every sorted item holds of every item.
  pub All-of_sort : (P : A → Type 0) (xs : List A) → All P (sort xs) → All P xs
  unfolding sort
  All-of_sort P [] h = tt
  All-of_sort P (x ∷ xs) h =
      let (first, rest) = All-of_insert P x (sort xs) h in (first, All-of_sort P xs rest)

  module _ (asym : (x y : A) → comes_after x y ≡ true → comes_after y x ≡ false)
      (cotrans : (x y z : A)
        → comes_after x y ≡ false
        → comes_after y z ≡ false
        → comes_after x z ≡ false) where
    insert-IsInOrder : (x : A) (xs : List A) → IsInOrder xs → IsInOrder (insert x xs)
    unfolding insert
    insert-IsInOrder x [] h = (tt, tt)
    insert-IsInOrder x (y ∷ ys) h =
        insert-cases IsInOrder x y ys
          (λ e. (
            All-insert (λ z. comes_after y z ≡ false) x ys (asym x y e) h.0,
            insert-IsInOrder x ys h.1,
          ))
          (λ e. (
            (
              e,
              All-map (λ z. comes_after y z ≡ false) (λ z. comes_after x z ≡ false)
                  (λ z p. cotrans x y z e p) ys h.0,
            ),
            h,
          ))

    pub sort-IsInOrder : (xs : List A) → IsInOrder (sort xs)
    unfolding sort
    sort-IsInOrder [] = tt
    sort-IsInOrder (x ∷ xs) = insert-IsInOrder x (sort xs) (sort-IsInOrder xs)
