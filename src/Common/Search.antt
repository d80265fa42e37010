-- ===== src/Common/Search.antt =====
-- The two loops of the in-memory job store: change the first item that passes a test, and change
-- every item that does.
use Prim.Native.Nat.{ℕ, suc}
use mathlib.Core.Path.{◌≡◌, refl, ap, subst}
use mathlib.Core.Logic.{inl, inr}
use mathlib.Core.Bool.{Bool, true, false}
use mathlib.Core.Option.{Option, none, some}
use mathlib.Core.List.{List, [], ◌∷◌, ◌++◌, map}
use native.Mathlib.Omega.{arith}
use podman_api.Common.Tests.{if◌then◌else◌, Bool-cases, Option-cases}
use podman_api.Common.Lists.{All, count}

module _ {ℓ} {A : Type ℓ} where
  abbrev cons_snd : A → Option (A × List A) → Option (A × List A)
  cons_snd x none = none
  cons_snd x (some (y, ys)) = some (y, x ∷ ys)

  -- `for i := range xs { if p(xs[i]) { xs[i] = f(xs[i]); return xs[i] } }`, with the item as it
  -- stands after the change and the whole slice.
  unfoldable pub update_first : (A → Bool) → (A → A) → List A → Option (A × List A)
  update_first p f [] = none
  update_first p f (x ∷ xs) =
      let rest = update_first p f xs in if p x then some (f x, f x ∷ xs) else cons_snd x rest

  -- `for i := range xs { if p(xs[i]) { xs[i] = f(xs[i]); n++ } }`.
  unfoldable pub update_all : (A → Bool) → (A → A) → List A → List A × ℕ
  update_all p f [] = ([], 0)
  update_all p f (x ∷ xs) =
      let rest = update_all p f xs in
      if p x then (f x ∷ rest.0, suc rest.1) else (x ∷ rest.0, rest.1)

  abbrev pub Fails : (A → Bool) → A → Type 0
  Fails p x = p x ≡ false

  -- What a search that changed an item says: where it stands, that nothing before it passed, and
  -- that nothing else changed.
  pub record Found (p : A → Bool) (f : A → A) (xs : List A) (y : A) (ys : List A) : Type ℓ where
    pub before : List A
    pub item : A
    pub after : List A
    pub split : xs ≡ before ++ item ∷ after
    pub passes : p item ≡ true
    pub first : All (Fails p) before
    pub result : y ≡ f item
    pub changed : ys ≡ before ++ f item ∷ after

  pub update_first-none :
      (p : A → Bool) (f : A → A) (xs : List A) → update_first p f xs ≡ none → All (Fails p) xs
  unfolding update_first
  update_first-none p f [] h = tt
  update_first-none p f (x ∷ xs) h = ground (arith, update_first-none p f xs)

  abbrev Found-cons :
      (p : A → Bool) (f : A → A) (x : A) (xs : List A) {y : A} {ys : List A}
      → p x ≡ false
      → Found p f xs y ys
      → Found p f (x ∷ xs) y (x ∷ ys)
  Found-cons p f x xs fails found = record {
    before = x ∷ found.before;
    item = found.item;
    after = found.after;
    split = ap (◌∷◌ x) found.split;
    passes = found.passes;
    first = (fails, found.first);
    result = found.result;
    changed = ap (◌∷◌ x) found.changed;
  }

  pub update_first-Found :
      (p : A → Bool) (f : A → A) (xs : List A) (y : A) (ys : List A)
      → update_first p f xs ≡ some (y, ys)
      → Found p f xs y ys
  unfolding update_first
  update_first-Found p f [] y ys h = cc
  update_first-Found p f (x ∷ xs) y ys h = elim (Bool-cases (p x)) [
    | inl pass ↦ record {
      before = [];
      item = x;
      after = xs;
      split = refl;
      passes = pass;
      first = tt;
      result = ground arith;
      changed = ground arith;
    }
    | inr fails ↦ elim (Option-cases (update_first p f xs)) [
      | inl e ↦ ground arith
      | inr (r, e) ↦
          subst (λ (t : List A). Found p f (x ∷ xs) y t) (ground arith)
            (Found-cons p f x xs fails (update_first-Found p f xs y r.1 (ground arith)))
    ]
  ]

  -- Every item is changed or kept by the same test, and the count is of those that passed.
  pub update_all_lem :
      (p : A → Bool) (f : A → A) (xs : List A)
      → update_all p f xs ≡ (map (λ x. if p x then f x else x) xs, count p xs)
  unfolding update_all
  update_all_lem p f [] = refl
  update_all_lem p f (x ∷ xs) = elim (Bool-cases (p x)) [
    | inl pass ↦ rw (pass, update_all_lem p f xs) (ground arith)
    | inr fails ↦ rw (fails, update_all_lem p f xs) (ground arith)
  ]

  pub update_first-none_of_All :
      (p : A → Bool) (f : A → A) (xs : List A) → All (Fails p) xs → update_first p f xs ≡ none
  unfolding update_first
  update_first-none_of_All p f [] h = refl
  update_first-none_of_All p f (x ∷ xs) h = rw (h.0, update_first-none_of_All p f xs h.1)

  pub All-Fails_of_count : (p : A → Bool) (xs : List A) → count p xs ≡ 0 → All (Fails p) xs
  All-Fails_of_count p [] h = tt
  All-Fails_of_count p (x ∷ xs) h = (ground arith, All-Fails_of_count p xs (ground arith))
