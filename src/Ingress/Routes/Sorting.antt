-- ===== src/Ingress/Routes/Sorting.antt =====
-- internal/ingress/routes.go, deriveRoutes: the sort by domain.
use podman_api.Common.{
  sort, insert, insert-cases, any-insert, any-sort, IsInOrder, sort-IsInOrder, ◌≡◌, refl, ◌∙◌, Bool,
  false, List, [], ◌∷◌, String, string_eq, ◌==◌, arith, any, str_gt_asym, str_gt_cotrans,
}
use podman_api.Ingress.Routes.{Route, has_greater_domain}

abbrev pub has_domain : String → Route → Bool
has_domain d r = r.domain == d

-- No domain stands twice.
abbrev pub AreDistinct : List Route → Type 0
AreDistinct [] = Unit {0}
AreDistinct (r ∷ routes) = (any (has_domain r.domain) routes ≡ false) × AreDistinct routes

insert-AreDistinct :
    (r : Route) (routes : List Route)
    → any (has_domain r.domain) routes ≡ false
    → AreDistinct routes
    → AreDistinct (insert has_greater_domain r routes)
unfolding insert any
insert-AreDistinct r [] new h = (refl, tt)
insert-AreDistinct r (q ∷ routes) new h =
    insert-cases has_greater_domain AreDistinct r q routes
      (λ e. (
        any-insert has_greater_domain (has_domain q.domain) r routes
            ∙ ground (
              arith,
              new,
              h.0,
              string_eq.same_iff r.domain q.domain,
              string_eq.same_iff q.domain r.domain,
            ),
        insert-AreDistinct r routes (ground (arith, new)) h.1,
      ))
      (λ e. (new, h))

pub sort-AreDistinct :
    (routes : List Route) → AreDistinct routes → AreDistinct (sort has_greater_domain routes)
unfolding sort
sort-AreDistinct [] h = tt
sort-AreDistinct (r ∷ routes) h =
    insert-AreDistinct r (sort has_greater_domain routes)
      (any-sort has_greater_domain (has_domain r.domain) routes ∙ h.0) (sort-AreDistinct routes h.1)

-- No later domain is smaller.
abbrev pub IsSorted : List Route → Type 0
IsSorted = IsInOrder has_greater_domain

pub sort-IsSorted : (routes : List Route) → IsSorted (sort has_greater_domain routes)
sort-IsSorted =
    sort-IsInOrder has_greater_domain (λ r q. str_gt_asym r.domain q.domain)
      (λ r q x. str_gt_cotrans r.domain q.domain x.domain)
