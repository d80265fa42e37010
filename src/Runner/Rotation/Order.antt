-- ===== src/Runner/Rotation/Order.antt =====
-- internal/jobs/runner.go, kindRotation.order: least recently served first.
use mathlib.Core.List.{Perm}
use podman_api.Common.{
  All-of_sort, sort, insert, sort-Perm, IsInOrder, sort-IsInOrder, false, ◌≤◌, ◌≡◌, refl, List, [],
  ◌∷◌, String, arith, All, All-map,
}
use podman_api.Runner.Rotation.{Rotation, new_rotation, last_of, last_in, is_served_later, order}

abbrev pub IsLeastRecentFirst : Rotation → List String → Type 0
IsLeastRecentFirst r [] = Unit {0}
IsLeastRecentFirst r (k ∷ kinds) =
    All (λ m. last_of r k ≤ last_of r m) kinds × IsLeastRecentFirst r kinds

sorted-IsLeastRecentFirst :
    (r : Rotation) (kinds : List String)
    → IsInOrder (is_served_later r) kinds
    → IsLeastRecentFirst r kinds
sorted-IsLeastRecentFirst r [] h = tt
sorted-IsLeastRecentFirst r (k ∷ kinds) h = (
  All-map (λ m. is_served_later r k m ≡ false) (λ m. last_of r k ≤ last_of r m)
      (λ m p. ground arith) kinds h.0,
  sorted-IsLeastRecentFirst r kinds h.1,
)

order-Perm : (r : Rotation) (kinds : List String) → Perm (order r kinds) kinds
unfolding order
order-Perm r kinds = sort-Perm (is_served_later r) kinds

order-IsLeastRecentFirst :
    (r : Rotation) (kinds : List String) → IsLeastRecentFirst r (order r kinds)
unfolding order
order-IsLeastRecentFirst r kinds =
    sorted-IsLeastRecentFirst r (sort (is_served_later r) kinds)
      (sort-IsInOrder (is_served_later r) (λ k m e. ground arith) (λ k m n p q. ground arith) kinds)

order-new : (kinds : List String) → order new_rotation kinds ≡ kinds
unfolding order last_of last_in sort insert
order-new [] = refl
order-new (k ∷ kinds) = rw (order-new kinds) (first_stays kinds)
  where
    first_stays : (ks : List String) → insert (is_served_later new_rotation) k ks ≡ k ∷ ks
    first_stays [] = refl
    first_stays (m ∷ ks) = refl

pub order-All :
    (P : String → Type 0) (r : Rotation) (kinds : List String) → All P (order r kinds) → All P kinds
unfolding order
order-All P r kinds h = All-of_sort (is_served_later r) P kinds h

-- The order of the rotation is a rearrangement of the configured kinds, the least recently served
-- first, and before any claim it is the configured order itself.
pub order_lem :
    (r : Rotation) (kinds : List String)
    → Perm (order r kinds) kinds
      × IsLeastRecentFirst r (order r kinds)
      × (order new_rotation kinds ≡ kinds)
order_lem r kinds = (order-Perm r kinds, order-IsLeastRecentFirst r kinds, order-new kinds)
