-- ===== src/Instance.antt =====
-- internal/instance: the errors that callers tell apart, the keys of instances, and the requests of
-- a migration, which migrate.go, reconcile.go, evacuate.go and evacuate_plan.go share.
pub mod Manifest
pub mod Rendered
pub mod Calls
pub mod Preflight
pub mod Moving
pub mod Migrate
pub mod Reconcile
pub mod Preview
mod Tests
pub mod Evacuation
use podman_api.Common.{
  ◌≡◌, ◌↔◌, Bool, true, false, ◌&&◌, ◌||◌, List, [], ◌∷◌, Option, none, some, String, Eq, string_eq,
  ◌==◌, arith, if◌then◌else◌, get, put, get-put, refl, subst,
}
use Prim.Native.String
use podman_api.Ingress.Routes.{SpecKey}

infixr 20 ◌&◌
abbrev pub ◌&◌ : String → String → String
s & t = String.◌++◌ s t

-- `template/slug`.
abbrev pub full_name : SpecKey → String
full_name k = k.template & "/" & k.slug

-- The sentinels of `errors.Is`: those of the instance package, of podman, of the store and of
-- context.
pub data Sentinel : Type 0 where
  same_host unknown_host invalid_evacuation instance_not_found : Sentinel
  host_draining instance_exists host_secret_missing port_conflict image_pull : Sentinel
  volume_integrity pod_not_found row_not_found : Sentinel
  spec_corrupt secrets_need_key secrets_undecryptable canceled : Sentinel

abbrev pub is_same : Sentinel → Sentinel → Bool
is_same same_host same_host = true
is_same unknown_host unknown_host = true
is_same invalid_evacuation invalid_evacuation = true
is_same instance_not_found instance_not_found = true
is_same host_draining host_draining = true
is_same instance_exists instance_exists = true
is_same host_secret_missing host_secret_missing = true
is_same port_conflict port_conflict = true
is_same image_pull image_pull = true
is_same volume_integrity volume_integrity = true
is_same pod_not_found pod_not_found = true
is_same row_not_found row_not_found = true
is_same spec_corrupt spec_corrupt = true
is_same secrets_need_key secrets_need_key = true
is_same secrets_undecryptable secrets_undecryptable = true
is_same canceled canceled = true
is_same _ _ = false

-- `wrap text e` is `fmt.Errorf("text: %w", e)`, or with the sentinel in front of its details.
pub data Error : Type 0 where
  sentinel : Sentinel → Error
  other : String → Error
  wrap : String → Error → Error

-- `errors.Is(err, sentinel)`.
unfoldable pub is_error : Sentinel → Error → Bool
is_error s (sentinel t) = is_same s t
is_error s (other _) = false
is_error s (wrap _ e) = is_error s e

-- A value and a failure, where Go returns `(value, err)`.
pub data Result (E A : Type 0) : Type 0 where
  ok : A → Result E A
  err : E → Result E A

-- The first failure ends the chain.
infixl 5 ◌>>=◌ ◌>>◌
abbrev pub ◌>>=◌ : {E A B : Type 0} → Result E A → (A → Result E B) → Result E B
err failure >>= next = err failure
ok given >>= next = next given

abbrev pub ◌>>◌ : {E B : Type 0} → Result E (Unit {0}) → Result E B → Result E B
done >> rest = done >>= λ (_ : Unit {0}). rest

abbrev pub refuse_if : {E : Type 0} → Bool → E → Result E (Unit {0})
refuse_if true e = err e
refuse_if false e = ok tt

-- What holds of the value, where there is one.
abbrev pub OnOk : {E A : Type 0} → (A → Type 0) → Result E A → Type 0
OnOk P (ok a) = P a
OnOk P (err e) = Unit {0}

pub OnOk-bind :
    {E A B : Type 0} (P : B → Type 0) (m : Result E A) (f : A → Result E B)
    → ((a : A) → m ≡ ok a → OnOk P (f a))
    → OnOk P (m >>= f)
OnOk-bind P (ok a) f h = h a refl
OnOk-bind P (err e) f h = tt

pub of_OnOk : {E A : Type 0} (P : A → Type 0) (m : Result E A) {a : A} → OnOk P m → m ≡ ok a → P a
of_OnOk P m h e = subst (OnOk P) e h

-- A chain that ends well had a value to go on with.
pub >>=-eq-ok :
    {E A B : Type 0} (m : Result E A) (next : A → Result E B) {end : B}
    → (m >>= next) ≡ ok end
    → (given : A) × (m ≡ ok given) × (next given ≡ ok end)
>>=-eq-ok (err failure) next e = cc
>>=-eq-ok (ok given) next e = (given, refl, e)

pub key_iff : (j k : SpecKey) → ((j.template == k.template && j.slug == k.slug) ≡ true) ↔ (j ≡ k)
key_iff j k = (
  λ h.
      ground (arith, h, string_eq.same_iff j.template k.template, string_eq.same_iff j.slug k.slug),
  λ e.
      ground (arith, e, string_eq.same_iff j.template k.template, string_eq.same_iff j.slug k.slug),
)

-- `store.SpecKey` as a Go map key. A `PairedInstanceRef` has the same two fields.
instance abbrev pub SpecKey_eq : Eq SpecKey
SpecKey_eq = record {
  same = λ j k. j.template == k.template && j.slug == k.slug;
  same_iff = key_iff;
}

-- The value of a parameter: a text, or what else JSON has, by its encoding.
pub data Value : Type 0 where
  text json : String → Value

abbrev pub Parameters : Type 0
Parameters = List (String × Value)

-- `mergeParams`: the base overlaid by the override.
unfoldable pub merge_params : Parameters → Parameters → Parameters
merge_params base [] = base
merge_params base ((name, v) ∷ override) = put name v (merge_params base override)

pub record MigrateRequest : Type 0 where
  pub from_host : String
  pub to_host : String
  pub template : String
  pub slug : String
  pub parameters : Parameters
  pub also_stop : List SpecKey

abbrev pub key_of : MigrateRequest → SpecKey
key_of m = record { template = m.template; slug = m.slug }

-- The parameters on the destination: the canonical slug always wins.
unfoldable pub effective : Parameters → MigrateRequest → Parameters
effective stored m = put "slug" (text m.slug) (merge_params stored m.parameters)

-- The override wins, where it has the name.
pub get-merge_params :
    (base override : Parameters) (name : String)
    → get (merge_params base override) name
      ≡ elim (get override name) [ none ↦ get base name | some v ↦ some v ]
unfolding merge_params get
get-merge_params base [] name = refl
get-merge_params base ((k, v) ∷ override) name =
    ground
      (arith, get-put k name v (merge_params base override), get-merge_params base override name)
