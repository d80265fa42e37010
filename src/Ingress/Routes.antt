-- ===== src/Ingress/Routes.antt =====
-- internal/ingress/routes.go: deriveRoutes.
--
-- The store is an interface of three lookups. Of a spec only the domains are read, of a template
-- only the port that its ingress section declares.
pub mod Sorting
pub mod Distinct
pub mod Uniqueness
use Prim.Native.Nat.{◌/◌, ◌%◌}
use Prim.Native.Char.{Char}
use Prim.Native.String
use podman_api.Common.{
  sort, ℕ, zero, suc, ◌+◌, ◌<◌, arith, refl, Bool-cases, inl, inr, ◌≡◌, Bool, true, false, Option,
  none, some, List, [], ◌∷◌, ◌++◌, String, string_eq, ◌==◌, if◌then◌else◌, ltb, str_gt, get, put, ℤ,
  pos, negsuc,
}

pub record Route : Type 0 where
  pub domain : String
  pub backend : String

pub record SpecKey : Type 0 where
  pub template : String
  pub slug : String

-- What a lookup of the store gives.
pub data Lookup (A : Type 0) : Type 0 where
  found : A → Lookup A
  missing failing : Lookup A

pub record Source : Type 0 where
  pub list_spec_keys : String → Option (List SpecKey)
  pub get_spec : String → String → String → Lookup (List String)
  pub get_template : String → Lookup (Option ℤ)

pub data RouteError : Type 0 where
  keys_unlisted : RouteError
  spec_unread template_unread : SpecKey → RouteError
  claimed_twice : String → String → SpecKey → RouteError

infixr 20 ◌&◌
abbrev ◌&◌ : String → String → String
s & t = String.◌++◌ s t

unfoldable pub pod_name : String → String → String
pod_name template slug = template & "-" & slug

abbrev digit_at : ℕ → List String → String
digit_at n [] = ""
digit_at zero (d ∷ ds) = d
digit_at (suc n) (d ∷ ds) = digit_at n ds

abbrev digit : ℕ → String
digit n = digit_at n ("0" ∷ "1" ∷ "2" ∷ "3" ∷ "4" ∷ "5" ∷ "6" ∷ "7" ∷ "8" ∷ "9" ∷ [])

-- The loop of `strconv.Itoa`; fuel above the number is enough.
unfoldable pub digits : ℕ → ℕ → String → String
digits zero n tail = tail
digits (suc fuel) n tail =
    let more = digits fuel (n / 10) (digit (n % 10) & tail) in
    if ltb n 10 then digit n & tail else more

-- More fuel than the number changes nothing.
digits_enough :
    (fuel more n : ℕ) (tail : String)
    → n < fuel
    → n < more
    → digits fuel n tail ≡ digits more n tail
unfolding digits
digits_enough zero more n tail h k = absurd (omega arith)
digits_enough (suc fuel) zero n tail h k = absurd (omega arith)
digits_enough (suc fuel) (suc more) n tail h k = elim (Bool-cases (ltb n 10)) [
  | inl e ↦ rw e refl
  | inr e ↦
      rw e (digits_enough fuel more (n / 10) (digit (n % 10) & tail) (ground arith) (ground arith))
]

unfoldable pub itoa : ℤ → String
itoa (pos n) = digits (suc n) n ""
itoa (negsuc n) = "-" & digits (suc (suc n)) (suc n) ""

-- The routes so far, and which instance claims a domain.
pub record Progress : Type 0 where
  pub owner : List (String × String)
  pub routes : List Route

pub data Derived (A : Type 0) : Type 0 where
  ok : A → Derived A
  err : RouteError → Derived A

infixl 5 ◌>>=◌
abbrev pub ◌>>=◌ : {A B : Type 0} → Derived A → (A → Derived B) → Derived B
ok a >>= f = f a
err e >>= f = err e

abbrev pub own_name : SpecKey → String
own_name k = k.template & "/" & k.slug

abbrev pub route_to : String → String → Route
route_to backend domain = record { domain = domain; backend = backend }

abbrev pub unless_claimed : SpecKey → String → Option String → Derived Progress → Derived Progress
unless_claimed k d none rest = rest
unless_claimed k d (some prev) rest = err (claimed_twice d prev k)

-- The claim of a domain, and its route.
abbrev pub with_route : SpecKey → String → String → Progress → Progress
with_route k backend d p = record {
  owner = put d (own_name k) p.owner;
  routes = p.routes ++ route_to backend d ∷ [];
}

-- The loop over the domains of one spec.
unfoldable pub add_domains : SpecKey → String → List String → Progress → Derived Progress
add_domains k backend [] p = ok p
add_domains k backend (d ∷ domains) p =
    let rest = add_domains k backend domains (with_route k backend d p) in
    unless_claimed k d (get p.owner d) rest

unfoldable pub backend_of : SpecKey → ℤ → String
backend_of k port = pod_name k.template k.slug & ":" & itoa port

-- What one spec adds, given its template: a stale spec or a template without ingress is skipped.
unfoldable pub add_template :
    SpecKey → List String → Lookup (Option ℤ) → Progress → Derived Progress
add_template k domains failing p = err (template_unread k)
add_template k domains missing p = ok p
add_template k domains (found none) p = ok p
add_template k domains (found (some port)) p = add_domains k (backend_of k port) domains p

unfoldable pub add_spec : Source → SpecKey → Lookup (List String) → Progress → Derived Progress
add_spec src k failing p = err (spec_unread k)
add_spec src k missing p = err (spec_unread k)
add_spec src k (found []) p = ok p
add_spec src k (found (d ∷ domains)) p =
    add_template k (d ∷ domains) (src.get_template k.template) p

unfoldable pub add_keys : Source → String → List SpecKey → Progress → Derived Progress
add_keys src host [] p = ok p
add_keys src host (k ∷ keys) p = do
  q ← add_spec src k (src.get_spec host k.template k.slug) p
  add_keys src host keys q

-- The order of `sort.Slice` by domain. Domains are unique here, so every correct sort agrees.
abbrev pub has_greater_domain : Route → Route → Bool
has_greater_domain r q = str_gt r.domain q.domain

abbrev of_keys : Option (List SpecKey) → Derived (List SpecKey)
of_keys none = err keys_unlisted
of_keys (some keys) = ok keys

unfoldable pub derive_routes : Source → String → Derived (List Route)
derive_routes src host = do
  keys ← of_keys (src.list_spec_keys host)
  p ← add_keys src host keys (record { owner = []; routes = [] })
  ok (sort has_greater_domain p.routes)
