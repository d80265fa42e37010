-- ===== src/Ingress/Tests.antt =====
-- Routes of a host, and the theorem on them at a concrete store.
use podman_api.Common.{
  sort, insert, ◌≡◌, refl, some, List, [], ◌∷◌, String, string_eq, ◌==◌, if◌then◌else◌, get, put,
  remove, pos,
}
use podman_api.Ingress.Routes.{
  SpecKey, found, missing, Source, ok, err, itoa, digits, pod_name, backend_of, add_domains,
  add_template, add_spec, add_keys, derive_routes, claimed_twice,
}
use podman_api.Ingress.Routes.Uniqueness.{Outcome, derive_routes-Outcome}

abbrev shop : SpecKey
shop = record { template = "web"; slug = "shop" }

abbrev blog : SpecKey
blog = record { template = "web"; slug = "blog" }

-- A spec whose template was deleted.
abbrev stale : SpecKey
stale = record { template = "old"; slug = "x" }

abbrev source_with : List String → Source
source_with shop_domains = record {
  list_spec_keys = λ host. some (stale ∷ shop ∷ blog ∷ []);
  get_spec = λ host template slug.
      if template == "old"
      then found ("old.example" ∷ [])
      else if slug == "shop"
      then found shop_domains
      else found ("blog.example" ∷ []);
  get_template = λ template. if template == "web" then found (some (pos 8080)) else missing;
}

routes_sorted :
    derive_routes (source_with ("shop.example" ∷ "a.example" ∷ [])) "h1"
    ≡ ok (
        record { domain = "a.example"; backend = "web-shop:8080" }
        ∷ record { domain = "blog.example"; backend = "web-blog:8080" }
        ∷ record { domain = "shop.example"; backend = "web-shop:8080" }
        ∷ [])
unfolding derive_routes add_keys add_spec add_template add_domains backend_of pod_name itoa digits
    sort insert get put remove
routes_sorted = refl

routes_claimed_twice :
    derive_routes (source_with ("blog.example" ∷ [])) "h1"
    ≡ err (claimed_twice "blog.example" "web/shop" blog)
unfolding derive_routes add_keys add_spec add_template add_domains get put remove
routes_claimed_twice = refl

derive_routes-Outcome_example :
    Outcome
      (source_with ("shop.example" ∷ []))
      "h1"
      (stale ∷ shop ∷ blog ∷ [])
      (derive_routes (source_with ("shop.example" ∷ [])) "h1")
derive_routes-Outcome_example =
    derive_routes-Outcome (source_with ("shop.example" ∷ [])) "h1" (stale ∷ shop ∷ blog ∷ []) refl
