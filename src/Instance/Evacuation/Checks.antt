-- ===== src/Instance/Evacuation/Checks.antt =====
-- internal/instance/evacuate.go: the checks of the bijection.
use podman_api.Common.{
  ◌≡◌, ◌≢◌, Bool, true, false, not, arith, ◌+◌, ℕ, List, [], ◌∷◌, String, string_eq, ◌==◌,
  if◌then◌else◌, contains, distinct, contains-distinct, count, keep, All, All-map, Bool-cases, inl,
  inr, refl, ◌∙◌, ap,
}
use podman_api.Ingress.Routes.{SpecKey}
use podman_api.Instance.{ok, SpecKey_eq}
use podman_api.Instance.Evacuation.{Move, key_of_move, check_moves, refuse_keys}

abbrev pub names_key : SpecKey → Move → Bool
names_key k m = key_of_move m == k

-- 1 if the key is in the set.
abbrev pub presence : List SpecKey → SpecKey → ℕ
presence keys k = if contains keys k then 1 else 0

-- A destination that the code accepts: another host, and one that is known.
abbrev pub IsAllowed : (String → Bool) → String → Move → Type 0
IsAllowed knows from m = (m.to_host ≢ from) × (knows m.to_host ≡ true)

-- What one round of the loop has checked.
record Accepts (knows : String → Bool) (from : String) (keys seen : List SpecKey) (m : Move)
    : Type 0 where
  pub listed : contains keys (key_of_move m) ≡ true
  pub new : contains seen (key_of_move m) ≡ false
  pub elsewhere : (m.to_host == from) ≡ false
  pub known : knows m.to_host ≡ true

module _ (knows : String → Bool) (from : String) (keys : List SpecKey) where
  check_moves-cases :
      (m : Move) (moves : List Move) (seen : List SpecKey) {all : List SpecKey}
      → check_moves knows from keys (m ∷ moves) seen ≡ ok all
      → Accepts knows from keys seen m
        × (check_moves knows from keys moves (key_of_move m ∷ seen) ≡ ok all)
  unfolding check_moves
  check_moves-cases m moves seen h = (
    record {
      listed = ground arith;
      new = ground arith;
      elsewhere = ground arith;
      known = ground arith;
    },
    ground arith,
  )

  check_moves-of_Accepts :
      (m : Move) (moves : List Move) (seen : List SpecKey)
      → Accepts knows from keys seen m
      → check_moves knows from keys (m ∷ moves) seen
        ≡ check_moves knows from keys moves (key_of_move m ∷ seen)
  unfolding check_moves
  check_moves-of_Accepts m moves seen a = rw (a.listed, a.new, a.elsewhere, a.known) refl

  -- A successful check finds every move allowed, and has seen each key as often as a move names it.
  pub check_moves-IsAllowed :
      (moves : List Move) (seen : List SpecKey) {all : List SpecKey}
      → check_moves knows from keys moves seen ≡ ok all
      → All (IsAllowed knows from) moves × All (λ m. contains keys (key_of_move m) ≡ true) moves
  check_moves-IsAllowed [] seen h = (tt, tt)
  check_moves-IsAllowed (m ∷ moves) seen h =
      let (a, rest) = check_moves-cases m moves seen h in
      let (allowed, hosted) = check_moves-IsAllowed moves (key_of_move m ∷ seen) rest in
      (
        (
          (λ e. ground (arith, a.elsewhere, string_eq.same_iff m.to_host from, e), a.known),
          allowed,
        ),
        (a.listed, hosted),
      )

  pub presence-check_moves :
      (moves : List Move) (seen : List SpecKey) {all : List SpecKey}
      → check_moves knows from keys moves seen ≡ ok all
      → (k : SpecKey) → presence all k ≡ presence seen k + count (names_key k) moves
  unfolding check_moves
  presence-check_moves [] seen h k = ground arith
  presence-check_moves (m ∷ moves) seen h k =
      let (a, rest) = check_moves-cases m moves seen h in
      ground (
        arith,
        presence-check_moves moves (key_of_move m ∷ seen) rest k,
        a.new,
        SpecKey_eq.same_iff (key_of_move m) k,
      )

  -- Moves that name each key once, all allowed, pass the check.
  pub check_moves_of_bijection :
      (moves : List Move) (seen : List SpecKey)
      → All (IsAllowed knows from) moves
      → ((k : SpecKey) → presence seen k + count (names_key k) moves ≡ presence keys k)
      → (all : List SpecKey) × (check_moves knows from keys moves seen ≡ ok all)
        × ((k : SpecKey) → presence all k ≡ presence keys k)
  unfolding check_moves
  check_moves_of_bijection [] seen allowed exact = (seen, refl, λ k. omega (arith, exact k))
  check_moves_of_bijection (m ∷ moves) seen allowed exact =
      let here = (SpecKey_eq.same_iff (key_of_move m) (key_of_move m)).1 refl in
      let a : Accepts knows from keys seen m = record {
        listed = ground (arith, exact (key_of_move m), here);
        new = ground (arith, exact (key_of_move m), here);
        elsewhere = ground (arith, allowed.0.0, string_eq.same_iff m.to_host from);
        known = allowed.0.1;
      } in
      let (all, done, same) =
        check_moves_of_bijection moves (key_of_move m ∷ seen) allowed.1
          (λ k. ground (arith, exact k, a.new, SpecKey_eq.same_iff (key_of_move m) k)) in
      (all, check_moves-of_Accepts m moves seen a ∙ done, same)

pub presence-distinct :
    (keys : List SpecKey) (k : SpecKey) → presence (distinct keys) k ≡ presence keys k
presence-distinct keys k = ap (λ b. if b then 1 else 0) (contains-distinct keys k)

-- No key is missing exactly when the set seen covers the keys of the host.
pub refuse_keys-covers :
    (seen keys : List SpecKey)
    → refuse_keys (keep (λ k. not (contains seen k)) keys) ≡ ok tt
    → All (λ k. contains seen k ≡ true) keys
refuse_keys-covers seen [] h = tt
refuse_keys-covers seen (k ∷ keys) h = elim (Bool-cases (contains seen k)) [
  | inl e ↦ (e, refuse_keys-covers seen keys (ground (arith, h, e)))
  | inr e ↦ ground (arith, h, e)
]

pub refuse_keys_of_cover :
    (seen keys : List SpecKey)
    → All (λ k. contains seen k ≡ true) keys
    → refuse_keys (keep (λ k. not (contains seen k)) keys) ≡ ok tt
refuse_keys_of_cover seen [] h = refl
refuse_keys_of_cover seen (k ∷ keys) h = rw h.0 (refuse_keys_of_cover seen keys h.1)

cover-contains :
    (seen keys : List SpecKey) (k : SpecKey)
    → All (λ j. contains seen j ≡ true) keys
    → contains keys k ≡ true
    → contains seen k ≡ true
cover-contains seen [] k h c = cc
cover-contains seen (j ∷ keys) k h c =
    ground (arith, h.0, c, SpecKey_eq.same_iff j k, cover-contains seen keys k h.1)

named-contains :
    (keys : List SpecKey) (moves : List Move) (k : SpecKey)
    → All (λ m. contains keys (key_of_move m) ≡ true) moves
    → contains keys k ≡ false
    → count (names_key k) moves ≡ 0
named-contains keys [] k h c = refl
named-contains keys (m ∷ moves) k h c =
    ground (arith, h.0, c, SpecKey_eq.same_iff (key_of_move m) k, named-contains keys moves k h.1 c)

-- Checked moves that leave no key out name the keys, each once.
pub count-names_key :
    (knows : String → Bool) (from : String) (keys : List SpecKey) (moves : List Move)
    (seen : List SpecKey)
    → check_moves knows from keys moves [] ≡ ok seen
    → refuse_keys (keep (λ k. not (contains seen k)) keys) ≡ ok tt
    → (k : SpecKey) → count (names_key k) moves ≡ presence keys k
count-names_key knows from keys moves seen checked covered k =
    let hosted = (check_moves-IsAllowed knows from keys moves [] checked).1 in
    let total = presence-check_moves knows from keys moves [] checked k in
    elim (Bool-cases (contains keys k)) [
      | inl e ↦
          ground
            (arith, total, e, cover-contains seen keys k (refuse_keys-covers seen keys covered) e)
      | inr e ↦ rw e (named-contains keys moves k hosted e)
    ]

pub cover_of_presence :
    (seen keys part : List SpecKey)
    → ((k : SpecKey) → presence seen k ≡ presence keys k)
    → All (λ k. contains keys k ≡ true) part
    → All (λ k. contains seen k ≡ true) part
cover_of_presence seen keys [] h c = tt
cover_of_presence seen keys (k ∷ part) h c =
    (ground (arith, h k, c.0), cover_of_presence seen keys part h c.1)

pub contains_self : (keys : List SpecKey) → All (λ k. contains keys k ≡ true) keys
contains_self [] = tt
contains_self (k ∷ keys) = (
  ground (arith, SpecKey_eq.same_iff k k),
  All-map (λ j. contains keys j ≡ true) (λ j. contains (k ∷ keys) j ≡ true)
      (λ j h. ground (arith, h)) keys (contains_self keys),
)
