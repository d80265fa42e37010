-- ===== src/Ingress/Routes/Uniqueness.antt =====
-- internal/ingress/routes.go, deriveRoutes: which routes come out, and when it fails.
use mathlib.Core.List.{Perm, append_assoc, append-nil}
use podman_api.Common.{
  sort, sort-Perm, ◌≡◌, ◌≢◌, refl, sym, ap, ◌∙◌, subst, true, false, Option, none, some, List, [],
  ◌∷◌, ◌++◌, map, String, string_eq, arith, any, is_some, get, get-put, ℤ,
}
use podman_api.Ingress.Routes.{
  Route, SpecKey, Lookup, found, missing, failing, Source, Progress, Derived, ok, err, ◌>>=◌,
  own_name, route_to, add_domains, unless_claimed, with_route, backend_of, add_template, add_spec,
  add_keys, has_greater_domain, derive_routes,
}
use podman_api.Ingress.Routes.Distinct.{
  any-append, AreDistinct-snoc, AreDistinct-front, twice_not_distinct,
}
use podman_api.Ingress.Routes.Sorting.{
  has_domain, AreDistinct, IsSorted, sort-IsSorted, sort-AreDistinct,
}

-- The owners are those of the routes so far, and no domain stands twice.
abbrev IsOwned : Progress → Type 0
IsOwned p =
    AreDistinct p.routes × ((d : String) → is_some (get p.owner d) ≡ any (has_domain d) p.routes)

IsOwned-with_route :
    (k : SpecKey) (backend d : String) (p : Progress)
    → IsOwned p
    → get p.owner d ≡ none
    → IsOwned (with_route k backend d p)
unfolding any
IsOwned-with_route k backend d p h e = (
  AreDistinct-snoc p.routes (route_to backend d) h.0 (sym (h.1 d) ∙ ap is_some e),
  λ x. ground (
    arith,
    get-put d x (own_name k) p.owner,
    any-append (has_domain x) p.routes (route_to backend d ∷ []),
    h.1 x,
  ),
)

-- A step adds these routes, or it fails, which under the condition it does only for a domain that
-- stands twice.
abbrev Extends : Type 0 → Progress → List Route → Derived Progress → Type 0
Extends A p new (ok q) = (q.routes ≡ p.routes ++ new) × IsOwned q
Extends A p new (err e) = A → ¬ AreDistinct (p.routes ++ new)

Extends-ok : (A : Type 0) (p : Progress) → IsOwned p → Extends A p [] (ok p)
Extends-ok A p h = (sym (append-nil p.routes), h)

after_one :
    (A : Type 0) (p q : Progress) (r : Route) (new : List Route) (d : Derived Progress)
    → q.routes ≡ p.routes ++ r ∷ []
    → Extends A q new d
    → Extends A p (r ∷ new) d
after_one A p q r new (ok s) e (grown, owned) =
    (grown ∙ (ap (λ rs. rs ++ new) e ∙ append_assoc p.routes (r ∷ []) new), owned)
after_one A p q r new (err x) e h = λ a t.
    h a (subst AreDistinct (sym (ap (λ rs. rs ++ new) e ∙ append_assoc p.routes (r ∷ []) new)) t)

unless_claimed-Extends :
    (A : Type 0) (p : Progress) (new : List Route) (k : SpecKey) (d : String) (o : Option String)
    (rest : Derived Progress)
    → (o ≡ none → Extends A p new rest)
    → (is_some o ≡ true → ¬ AreDistinct (p.routes ++ new))
    → Extends A p new (unless_claimed k d o rest)
unless_claimed-Extends A p new k d none rest free taken = free refl
unless_claimed-Extends A p new k d (some prev) rest free taken = λ a. taken refl

add_domains-Extends :
    (k : SpecKey) (backend : String) (domains : List String) (p : Progress)
    → IsOwned p
    → Extends (Unit {0}) p (map (route_to backend) domains) (add_domains k backend domains p)
unfolding add_domains
add_domains-Extends k backend [] p h = Extends-ok (Unit {0}) p h
add_domains-Extends k backend (d ∷ domains) p h =
    unless_claimed-Extends (Unit {0}) p (map (route_to backend) (d ∷ domains)) k d (get p.owner d) _
      (λ e.
        after_one (Unit {0}) p (with_route k backend d p) (route_to backend d)
          (map (route_to backend) domains) _ refl
          (add_domains-Extends k backend domains (with_route k backend d p)
            (IsOwned-with_route k backend d p h e)))
      (λ e.
        twice_not_distinct p.routes (map (route_to backend) domains) (route_to backend d)
          (sym (h.1 d) ∙ e))

-- The routes that one spec offers, none where its template has no ingress or is missing.
abbrev pub routes_of : SpecKey → List String → Lookup (Option ℤ) → List Route
routes_of k domains (found (some port)) = map (route_to (backend_of k port)) domains
routes_of k domains _ = []

abbrev pub offered_by : Source → SpecKey → Lookup (List String) → List Route
offered_by src k (found domains) = routes_of k domains (src.get_template k.template)
offered_by src k _ = []

abbrev pub offered : Source → String → List SpecKey → List Route
offered src host [] = []
offered src host (k ∷ keys) =
    offered_by src k (src.get_spec host k.template k.slug) ++ offered src host keys

-- The store answers for a template, and for a spec and, if it has domains, its template.
abbrev pub Answers : Lookup (Option ℤ) → Type 0
Answers l = l ≢ failing

abbrev pub AnswersSpec : Source → SpecKey → Lookup (List String) → Type 0
AnswersSpec src k (found []) = Unit {0}
AnswersSpec src k (found (d ∷ domains)) = Answers (src.get_template k.template)
AnswersSpec src k l = true ≡ false

abbrev pub AnswersKeys : Source → String → List SpecKey → Type 0
AnswersKeys src host [] = Unit {0}
AnswersKeys src host (k ∷ keys) =
    AnswersSpec src k (src.get_spec host k.template k.slug) × AnswersKeys src host keys

Extends-weaken :
    (A B : Type 0) (p : Progress) (new : List Route) (d : Derived Progress)
    → (B → A)
    → Extends A p new d
    → Extends B p new d
Extends-weaken A B p new (ok q) f h = h
Extends-weaken A B p new (err e) f h = λ b. h (f b)

add_template-Extends :
    (k : SpecKey) (domains : List String) (l : Lookup (Option ℤ)) (p : Progress)
    → IsOwned p
    → Extends (Answers l) p (routes_of k domains l) (add_template k domains l p)
unfolding add_template
add_template-Extends k domains failing p h = λ a. absurd (a refl)
add_template-Extends k domains missing p h = Extends-ok (Answers missing) p h
add_template-Extends k domains (found none) p h = Extends-ok (Answers (found none)) p h
add_template-Extends k domains (found (some port)) p h =
    Extends-weaken (Unit {0}) (Answers (found (some port))) p
      (map (route_to (backend_of k port)) domains) _ (λ a. tt)
      (add_domains-Extends k (backend_of k port) domains p h)

no_domains : (k : SpecKey) (l : Lookup (Option ℤ)) → routes_of k [] l ≡ []
no_domains k (found (some port)) = refl
no_domains k (found none) = refl
no_domains k missing = refl
no_domains k failing = refl

add_spec-Extends :
    (src : Source) (k : SpecKey) (l : Lookup (List String)) (p : Progress)
    → IsOwned p
    → Extends (AnswersSpec src k l) p (offered_by src k l) (add_spec src k l p)
unfolding add_spec
add_spec-Extends src k failing p h = λ a. absurd (ground arith)
add_spec-Extends src k missing p h = λ a. absurd (ground arith)
add_spec-Extends src k (found []) p h =
    rw (no_domains k (src.get_template k.template)) (Extends-ok (Unit {0}) p h)
add_spec-Extends src k (found (d ∷ domains)) p h =
    add_template-Extends k (d ∷ domains) (src.get_template k.template) p h

rejoin :
    (A B : Type 0) (p q : Progress) (new later : List Route) (d : Derived Progress)
    → q.routes ≡ p.routes ++ new
    → Extends B q later d
    → Extends (A × B) p (new ++ later) d
rejoin A B p q new later (ok s) e (grown, owned) =
    (grown ∙ (ap (λ rs. rs ++ later) e ∙ append_assoc p.routes new later), owned)
rejoin A B p q new later (err x) e h = λ a t.
    h a.1 (subst AreDistinct (sym (ap (λ rs. rs ++ later) e ∙ append_assoc p.routes new later)) t)

bind-Extends :
    (A B : Type 0) (p : Progress) (new later : List Route) (d : Derived Progress)
    (f : Progress → Derived Progress)
    → Extends A p new d
    → ((q : Progress) → IsOwned q → Extends B q later (f q))
    → Extends (A × B) p (new ++ later) (d >>= f)
bind-Extends A B p new later (ok q) f (grown, owned) k =
    rejoin A B p q new later (f q) grown (k q owned)
bind-Extends A B p new later (err e) f h k = λ a t. h a.0 (
    AreDistinct-front (p.routes ++ new) later
      (subst AreDistinct (sym (append_assoc p.routes new later)) t))

add_keys-Extends :
    (src : Source) (host : String) (keys : List SpecKey) (p : Progress)
    → IsOwned p
    → Extends (AnswersKeys src host keys) p (offered src host keys) (add_keys src host keys p)
unfolding add_keys
add_keys-Extends src host [] p h = Extends-ok (Unit {0}) p h
add_keys-Extends src host (k ∷ keys) p h =
    bind-Extends (AnswersSpec src k (src.get_spec host k.template k.slug))
      (AnswersKeys src host keys) p (offered_by src k (src.get_spec host k.template k.slug))
      (offered src host keys) (add_spec src k (src.get_spec host k.template k.slug) p)
      (add_keys src host keys) (add_spec-Extends src k (src.get_spec host k.template k.slug) p h)
      (λ q owned. add_keys-Extends src host keys q owned)

-- The routes that come out, or why none do.
abbrev pub Outcome : Source → String → List SpecKey → Derived (List Route) → Type 0
Outcome src host keys (ok routes) =
    Perm routes (offered src host keys) × AreDistinct routes × IsSorted routes
Outcome src host keys (err e) = AnswersKeys src host keys → ¬ AreDistinct (offered src host keys)

sorted-Outcome :
    (src : Source) (host : String) (keys : List SpecKey) (p : Progress) (d : Derived Progress)
    → p.routes ≡ []
    → Extends (AnswersKeys src host keys) p (offered src host keys) d
    → Outcome src host keys (d >>= (λ q. ok (sort has_greater_domain q.routes)))
sorted-Outcome src host keys p (ok q) e (grown, owned) = (
  subst (Perm (sort has_greater_domain q.routes)) (grown ∙ ap (λ rs. rs ++ offered src host keys) e)
      (sort-Perm has_greater_domain q.routes),
  sort-AreDistinct q.routes owned.0,
  sort-IsSorted q.routes,
)
sorted-Outcome src host keys p (err x) e h =
    λ a t. h a (subst (λ rs. AreDistinct (rs ++ offered src host keys)) (sym e) t)

-- Where the store lists the specs of a host, the derived routes are a rearrangement of what the
-- specs offer whose templates have an ingress, sorted by domain, with no domain twice; where the
-- derivation fails although the store answers each lookup, some domain is offered twice.
pub derive_routes-Outcome :
    (src : Source) (host : String) (keys : List SpecKey)
    → src.list_spec_keys host ≡ some keys
    → Outcome src host keys (derive_routes src host)
unfolding derive_routes any get
derive_routes-Outcome src host keys e = rw e (
    sorted-Outcome src host keys (record { owner = []; routes = [] })
      (add_keys src host keys (record { owner = []; routes = [] })) refl
      (add_keys-Extends src host keys (record { owner = []; routes = [] }) (tt, λ d. refl)))
