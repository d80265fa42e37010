-- ===== src/Ingress/Routes/Distinct.antt =====
-- internal/ingress/routes.go, deriveRoutes: lists of routes without a domain that stands twice.
use podman_api.Common.{
  ◌≡◌, refl, ◌∙◌, Bool, true, false, ◌||◌, List, [], ◌∷◌, ◌++◌, string_eq, arith, Bool-cases, inl,
  inr, any,
}
use podman_api.Ingress.Routes.{Route}
use podman_api.Ingress.Routes.Sorting.{has_domain, AreDistinct}

pub any-append :
    (p : Route → Bool) (front back : List Route)
    → any p (front ++ back) ≡ (any p front || any p back)
unfolding any
any-append p [] back = refl
any-append p (r ∷ front) back = ground (arith, any-append p front back)

pub AreDistinct-snoc :
    (routes : List Route) (r : Route)
    → AreDistinct routes
    → any (has_domain r.domain) routes ≡ false
    → AreDistinct (routes ++ r ∷ [])
unfolding any
AreDistinct-snoc [] r h new = (refl, tt)
AreDistinct-snoc (q ∷ routes) r h new = (
  any-append (has_domain q.domain) routes (r ∷ [])
      ∙ ground (
        arith,
        h.0,
        new,
        string_eq.same_iff q.domain r.domain,
        string_eq.same_iff r.domain q.domain,
      ),
  AreDistinct-snoc routes r h.1 (ground (arith, new)),
)

pub AreDistinct-front : (front back : List Route) → AreDistinct (front ++ back) → AreDistinct front
unfolding any
AreDistinct-front [] back h = tt
AreDistinct-front (r ∷ front) back h = (
  ground (arith, h.0, any-append (has_domain r.domain) front back),
  AreDistinct-front front back h.1,
)

pub twice_not_distinct :
    (front back : List Route) (r : Route)
    → any (has_domain r.domain) front ≡ true
    → ¬ AreDistinct (front ++ r ∷ back)
unfolding any
twice_not_distinct [] back r e h = absurd (ground arith)
twice_not_distinct (q ∷ front) back r e h = elim (Bool-cases (any (has_domain r.domain) front)) [
  | inl later ↦ twice_not_distinct front back r later h.1
  | inr none_later ↦ absurd (
      ground (
        arith,
        e,
        none_later,
        h.0,
        any-append (has_domain q.domain) front (r ∷ back),
        string_eq.same_iff q.domain r.domain,
        string_eq.same_iff r.domain q.domain,
      ))
]
