-- ===== src/Instance/Calls.antt =====
-- internal/instance: what a migration asks of the hosts and of the store. Each call stands in a
-- history, and what answers it may depend on all the calls before it, so every course that the
-- hosts, the store and the context of the caller can take is a value of `Outside`.
pub mod Grown
pub mod Meets
use text.Mathlib.Text.{starts_with}
use podman_api.Common.{◌≡◌, ◌⊎◌, Bool, true, false, List, [], ◌∷◌, Option, none, some, String, ℕ, ℤ}
use podman_api.Ingress.Routes.{SpecKey}
use podman_api.Instance.{Error, Result, ok, err, Parameters}
use podman_api.Instance.Manifest.{Manifest}
use podman_api.Instance.Rendered.{PortDocument, ImageDocument}

-- The caller's context, or one that its cancellation does not reach (`context.WithoutCancel`).
pub data Context : Type 0 where
  live detached : Context

pub record Template : Type 0 where
  pub host_secrets : List String  -- Meta.Secrets.PerHostReferenced
  pub body : String

pub record Spec : Type 0 where
  pub parameters : Parameters
  pub secrets : List (String × String)
  pub injector_secrets : List String
  pub domains : List String
  pub applied_networks : List String

pub record Volume : Type 0 where
  pub name : String
  pub size : ℤ

-- The request of an Apply with Replace off and AllowMissingSecrets on.
pub record ApplyRequest : Type 0 where
  pub key : SpecKey
  pub parameters : Parameters
  pub secrets : List (String × String)
  pub domains : List String
  pub networks : List String

-- A host comes first, then what the call is about. A delete prunes volumes and secrets. A secret is
-- created from its value, which the code wraps as a Kubernetes secret.
pub data Call : Type 0 where
  step : String → String → Call
  check_context : Call
  pod_inspect stop wait_running list_volumes : String → SpecKey → Call
  start delete : Context → String → SpecKey → Call
  secret_inspect get_host_secret : String → String → Call
  secret_create put_host_secret : String → String → String → Call
  volume_create volume_manifest image_pull : String → String → Call
  copy_volume : String → String → String → Call
  apply : String → ApplyRequest → Call
  ports_in_use ingress_reconcile : String → Call
  lookup : String → String → Call
  get_template : String → Call
  get_spec delete_spec : String → SpecKey → Call
  prune_resources : String → SpecKey → List String → Call

-- The name of a step of a rollback.
abbrev pub is_rollback_name : String → Bool
is_rollback_name name = starts_with name "rollback"

-- The latest call comes first.
abbrev pub History : Type 0
History = List Call

-- The configuration, and the answers: whether a call fails, and the value of one that does not.
pub record Outside : Type 0 where
  pub knows : String → Bool
  pub is_draining : String → Bool
  pub verifies_volumes : Bool
  pub has_ingress : Bool
  pub fails : History → Call → Option Error
  pub template : History → Template
  pub spec : History → Spec
  pub host_secret : History → String
  pub volumes : History → List Volume
  pub manifest : History → Manifest
  pub ports : History → List ℕ
  pub elapsed : History → String
  pub render : String → Parameters → Result Error String
  -- `render.ValidateAllowMissingSecrets`.
  pub validate : Template → Parameters → List (String × String) → Option Error
  pub port_documents : String → List (Option PortDocument)
  pub image_documents : String → List (Option ImageDocument)
  pub message : Error → String  -- `err.Error()`

abbrev pub answer : {A : Type 0} → Option Error → A → Result Error A
answer none a = ok a
answer (some e) a = err e

-- A run from a history on: it returns, or gives up with an `E`.
abbrev pub Run : Type 0 → Type 0 → Type 0
Run E A = History → Result E A × History

module _ {E A : Type 0} where
  abbrev pub pure : A → Run E A
  pure a h = (ok a, h)

  abbrev pub give_up : E → Run E A
  give_up e h = (err e, h)

  -- A call for its value.
  abbrev pub fetch : Outside → Call → (History → A) → Run E (Result Error A)
  fetch o c value h = (ok (answer (o.fails h c) (value h)), c ∷ h)

infixl 5 ◌>>=◌ ◌>>◌
abbrev pub ◌>>=◌ : {E A B : Type 0} → Run E A → (A → Run E B) → Run E B
◌>>=◌ m f h = let (r, h') = m h in elim r [ ok a ↦ f a h' | err e ↦ (err e, h') ]

abbrev pub ◌>>◌ : {E B : Type 0} → Run E (Unit {0}) → Run E B → Run E B
m >> k = m >>= λ _. k

module _ {E : Type 0} where
  -- A call for whether it fails.
  abbrev pub ask : Outside → Call → Run E (Option Error)
  ask o c h = (ok (o.fails h c), c ∷ h)

  abbrev pub note : String → String → Run E (Unit {0})
  note name detail h = (ok tt, step name detail ∷ h)

  abbrev pub give_up_if : Bool → E → Run E (Unit {0})
  give_up_if true e = give_up e
  give_up_if false e = pure tt

  abbrev pub or_give_up : (Error → E) → Option Error → Run E (Unit {0})
  or_give_up f none = pure tt
  or_give_up f (some e) = give_up (f e)

  abbrev pub value_or_give_up : {A : Type 0} → (Error → E) → Result Error A → Run E A
  value_or_give_up f (ok a) = pure a
  value_or_give_up f (err e) = give_up (f e)

  -- A step whose detail depends on the time.
  abbrev pub note_at : String → (History → String) → Run E (Unit {0})
  note_at name detail h = (ok tt, step name (detail h) ∷ h)

  -- A step that reports a failure, if there is one.
  abbrev pub note_failure : Outside → String → Option Error → Run E (Unit {0})
  note_failure o name none = pure tt
  note_failure o name (some e) = note name (o.message e)

  -- A call that must succeed.
  abbrev pub require : Outside → Call → (Error → E) → Run E (Unit {0})
  require o c f = ask o c >>= or_give_up f

  abbrev pub require_value : {A : Type 0} → Outside → Call → (History → A) → (Error → E) → Run E A
  require_value o c value f = fetch o c value >>= value_or_give_up f

abbrev pub map_failure : {E F A : Type 0} → (E → F) → Result E A → Result F A
map_failure f (ok a) = ok a
map_failure f (err e) = err (f e)

-- What a run gives up with, changed.
abbrev pub give_up_with : {E F A : Type 0} → (E → F) → Run E A → Run F A
give_up_with f m h = let (r, h') = m h in (map_failure f r, h')

-- How a run ended decides what follows.
abbrev pub then_settle : {E F A B : Type 0} → Run E A → (Result E A → Run F B) → Run F B
then_settle m k h = let (r, h') = m h in k r h'

-- The value, returned early or at the end.
abbrev pub returned : {A : Type 0} → Result A A → A
returned (ok a) = a
returned (err a) = a

-- A run with early returns.
abbrev pub collapse : {E A : Type 0} → Run A A → Run E A
collapse m h = let (r, h') = m h in (ok (returned r), h')

-- The call is in the history, and did not fail.
abbrev pub Succeeded : Outside → Call → History → Type 0
Succeeded o c [] = ⊥
Succeeded o c (d ∷ h) = ((d ≡ c) × (o.fails h d ≡ none)) ⊎ Succeeded o c h

-- The call is in the history.
abbrev pub Asked : Call → History → Type 0
Asked c [] = ⊥
Asked c (d ∷ h) = (d ≡ c) ⊎ Asked c h
