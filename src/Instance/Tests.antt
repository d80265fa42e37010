-- ===== src/Instance/Tests.antt =====
-- Runs of internal/instance on small inputs, and the theorems at inputs that meet their hypotheses.
use podman_api.Common.{
  inl, inr, ◌≡◌, ◌≢◌, ◌↔◌, pos, true, false, List, [], ◌∷◌, Option, none, some, String, string_eq,
  ◌==◌, refl, if◌then◌else◌, arith, get, str_gt, sort, map, count, contains, distinct, ap, sym, ◌+◌,
  put, insert,
}
use podman_api.Ingress.Routes.{SpecKey, itoa}
use podman_api.Instance.{
  Error, sentinel, instance_exists, pod_not_found, is_error, other, ok, err, OnOk, MigrateRequest,
  SpecKey_eq, key_of,
}
use podman_api.Instance.Calls.{
  Call, pod_inspect, secret_inspect, returned, stop, start, detached, Spec, Template, Outside,
  Succeeded, Asked, then_settle,
}
use podman_api.Instance.Manifest.{
  FileInfo, Manifest, first_diff, first_diff-none_iff, first_diff-first,
}
use mathlib.Core.Bool.{false≢true}
use podman_api.Instance.Rendered.{ImageDocument, required_host_ports, container_images}
use podman_api.Instance.Evacuation.{
  Move, EvacuateRequest, EvacuationError, Fleet, resolve_evacuation, request_of, request_gt,
}
use podman_api.Instance.Evacuation.Plan.{
  IsPlan, resolve_evacuation-IsPlan, resolve_evacuation_of_bijection,
}
use podman_api.Instance.Evacuation.Checks.{names_key, presence}
use podman_api.Instance.Moving.{migrate_post_stop, provision_secrets, stop_paired}
use podman_api.Instance.Preflight.Acceptance.{IsSteady, IsAcceptable}
use podman_api.Instance.Preflight.{preflight_dest}
use podman_api.Instance.Preflight.Passing.{IsPulled, preflight_dest-ok_iff}
use podman_api.Instance.Preview.{PlannedMove, plan_move}
use podman_api.Instance.Preview.Clean.{IsClean, plan_move-is_clean_iff}
use podman_api.Instance.Migrate.{migrate, settle}
use podman_api.Instance.Migrate.Justified.{IsJustified}
use podman_api.Instance.Migrate.Endings.{IsEnding}
use podman_api.Instance.Migrate.Course.{migrate-IsJustified, migrate-IsEnding}
use podman_api.Instance.Migrate.Paired.{migrate-strands}
use podman_api.Instance.Reconcile.{rolled_forward, failed_outcome, reconcile_migrate}
use podman_api.Instance.Reconcile.Course.{IsSafe, IsVerdict, reconcile_migrate-IsVerdict}

-- Fingerprints.
abbrev file : String → FileInfo
file sum = record { type_flag = 48; size = 3; sha256 = sum; link = "" }

abbrev left : Manifest
left = ("b", file "x") ∷ ("a", file "y") ∷ []

abbrev right : Manifest
right = ("a", file "y") ∷ ("b", file "z") ∷ []

first_diff-left-right : first_diff left right ≡ some "b"
unfolding first_diff get sort distinct insert
first_diff-left-right = refl

first_diff-none_iff_example :
    (first_diff left left ≡ none) ↔ ((k : String) → get left k ≡ get left k)
first_diff-none_iff_example = first_diff-none_iff left left

first_diff-first_example :
    (get left "b" ≢ get right "b")
    × ((j : String) → get left j ≢ get right j → str_gt "b" j ≡ false)
first_diff-first_example = first_diff-first left right "b" first_diff-left-right

-- An evacuation of two instances of one slug.
abbrev web : SpecKey
web = record { template = "web"; slug = "one" }

abbrev db : SpecKey
db = record { template = "db"; slug = "one" }

abbrev fleet : Fleet
fleet = record {
  knows = λ host. contains ("h1" ∷ "h2" ∷ []) host;
  list_spec_keys = λ _. ok (web ∷ db ∷ []);
}

abbrev backup : SpecKey
backup = record { template = "litestream"; slug = "one" }

abbrev request : MigrateRequest
request = record {
  from_host = "h1";
  to_host = "h2";
  template = "web";
  slug = "one";
  parameters = [];
  also_stop = db ∷ backup ∷ [];
}

abbrev move_web : Move
move_web = record { template = "web"; slug = "one"; to_host = "h2" }

abbrev move_db : Move
move_db = record { template = "db"; slug = "one"; to_host = "h2" }

abbrev evacuation : EvacuateRequest
evacuation = record { from_host = "h1"; by_slug = []; moves = move_web ∷ move_db ∷ [] }

abbrev by_slug_only : EvacuateRequest
by_slug_only = record { from_host = "h1"; by_slug = ("one", "h2") ∷ []; moves = [] }

abbrev evacuation_plan : List MigrateRequest
evacuation_plan = request_of "h1" move_db ∷ request_of "h1" move_web ∷ []

resolve_evacuation-evacuation : resolve_evacuation fleet evacuation ≡ ok evacuation_plan
unfolding resolve_evacuation distinct sort insert
resolve_evacuation-evacuation = refl

-- The slug is under two templates.
resolve_evacuation-by_slug_only :
    resolve_evacuation fleet by_slug_only ≡ err (EvacuationError.ambiguous_slug "one" "db" "web")
unfolding resolve_evacuation distinct sort get put insert
resolve_evacuation-by_slug_only = refl

resolve_evacuation-IsPlan_example :
    (keys : List SpecKey) × (fleet.list_spec_keys evacuation.from_host ≡ ok keys)
    × IsPlan fleet evacuation keys evacuation_plan
resolve_evacuation-IsPlan_example =
    resolve_evacuation-IsPlan fleet evacuation resolve_evacuation-evacuation

h2-ne-h1 : move_web.to_host ≢ "h1"
h2-ne-h1 e = false≢true (ap (λ (host : String). host == "h1") e)

db-ne-request : db ≢ key_of request
db-ne-request e = false≢true (ap (λ (k : SpecKey). k == web) e)

db-ne-web : web ≢ db
db-ne-web e = false≢true (ap (λ (k : SpecKey). k == web) (sym e))

count_pair :
    (j k l : SpecKey)
    → j ≢ k
    → (if j == l then 1 else 0) + ((if k == l then 1 else 0) + 0)
      ≡ (if contains (j ∷ k ∷ []) l then 1 else 0)
count_pair j k l apart = ground (arith, apart, SpecKey_eq.same_iff j l, SpecKey_eq.same_iff k l)

names_both :
    (k : SpecKey) → count (names_key k) (move_web ∷ move_db ∷ []) ≡ presence (web ∷ db ∷ []) k
names_both k = count_pair web db k db-ne-web

resolve_evacuation_of_bijection_example :
    resolve_evacuation fleet evacuation
    ≡ ok (sort request_gt (map (request_of "h1") (move_web ∷ move_db ∷ [])))
resolve_evacuation_of_bijection_example =
    resolve_evacuation_of_bijection fleet evacuation (web ∷ db ∷ []) move_web (move_db ∷ []) refl
      refl refl ((h2-ne-h1, refl), ((h2-ne-h1, refl), tt)) names_both

-- Hosts and a store on which nothing fails, but that a host has no pods, and the stop of an
-- instance, if there is one given.
abbrev refuses : String → Option SpecKey → Call → Option Error
refuses bare (some k) (stop host j) = if j == k then some (other "busy") else none
refuses bare refused (pod_inspect host j) =
    if host == bare then some (sentinel pod_not_found) else none
refuses bare _ _ = none

abbrev empty_spec : Spec
empty_spec = record {
  parameters = [];
  secrets = [];
  injector_secrets = [];
  domains = [];
  applied_networks = [];
}

abbrev plain : Template
plain = record { host_secrets = []; body = "" }

abbrev outside : String → Option SpecKey → Outside
outside bare refused = record {
  knows = λ _. true;
  is_draining = λ _. false;
  verifies_volumes = true;
  has_ingress = true;
  fails = λ _ c. refuses bare refused c;
  template = λ _. plain;
  spec = λ _. empty_spec;
  host_secret = λ _. "";
  volumes = λ _. record { name = "web-one-data"; size = pos 3 } ∷ [];
  manifest = λ _. left;
  ports = λ _. [];
  elapsed = λ _. "1s";
  render = λ _ _. ok "";
  validate = λ _ _ _. none;
  port_documents = λ _. [];
  image_documents = λ _. [];
  message = λ _. "busy";
}

-- The destination has no pod yet.
abbrev fresh : Outside
fresh = outside "h2" none

-- The pod is on both hosts.
abbrev occupied : Outside
occupied = outside "h3" none

migrate-fresh : (migrate fresh request []).0 ≡ ok tt
unfolding migrate is_error first_diff get sort distinct insert put itoa required_host_ports
    container_images
migrate-fresh = refl

migrate-occupied : (migrate occupied request []).0 ≡ err (sentinel instance_exists)
unfolding migrate is_error required_host_ports container_images
migrate-occupied = refl

migrate-IsJustified_example : IsJustified fresh request (migrate fresh request []).1
migrate-IsJustified_example = migrate-IsJustified fresh request

migrate-IsEnding_example : let (r, h) = migrate fresh request [] in IsEnding fresh request r h
migrate-IsEnding_example = migrate-IsEnding fresh request

-- The stop of the second paired instance is refused.
abbrev stubborn : Outside
stubborn = outside "h2" (some backup)

migrate-strands_example :
    let (r, h) =
      then_settle
        (migrate_post_stop stubborn request [] plain empty_spec)
        (settle stubborn request)
        [] in
    Succeeded stubborn (stop "h1" db) h × (¬ Asked (start detached "h1" db) h)
unfolding is_error provision_secrets stop_paired
migrate-strands_example =
    migrate-strands stubborn request [] plain empty_spec [] [] _ _ db refl refl db-ne-request
      (inr (inr (inl (refl, refl)))) (λ a. a)

-- The source is gone, and the destination runs.
reconcile_migrate-forward :
    (reconcile_migrate {E = Unit {0}} (outside "h1" none) request []).0 ≡ ok rolled_forward
unfolding reconcile_migrate is_error
reconcile_migrate-forward = refl

reconcile_migrate-back :
    (reconcile_migrate {E = Unit {0}} fresh request []).0
    ≡ ok (failed_outcome "rolled back: destination unverified, source restored")
unfolding reconcile_migrate is_error
reconcile_migrate-back = refl

reconcile_migrate-IsVerdict_example :
    let (r, h) = reconcile_migrate {E = Unit {0}} fresh request [] in
    OnOk (λ out. IsSafe fresh request h × IsVerdict fresh request out h) r
reconcile_migrate-IsVerdict_example = reconcile_migrate-IsVerdict fresh request

-- A template with a secret that is persisted but not on the destination, and a port that is free.
abbrev lacks_secret : Call → Option Error
lacks_secret (secret_inspect host name) = some (sentinel pod_not_found)
lacks_secret c = refuses "h2" none c

abbrev nginx : ImageDocument
nginx = record { kind = "Pod"; has_spec = true; containers = "nginx" ∷ []; init_containers = [] }

abbrev publishing : Outside
publishing = record fresh {
  fails = λ _ c. lacks_secret c;
  template = λ _. record { host_secrets = "tls" ∷ []; body = "" };
  ports = λ _. 80 ∷ [];
  port_documents = λ _. some (record { kind = "Pod"; containers = (8080 ∷ []) ∷ [] }) ∷ [];
  image_documents = λ _. some nginx ∷ [];
}

publishing-IsSteady : IsSteady publishing
publishing-IsSteady = record {
  fails = λ h c. refl;
  template = λ h. refl;
  spec = λ h. refl;
  ports = λ h. refl;
}

plan_move-publishing :
    (returned (plan_move {E = PlannedMove} publishing request []).0).is_clean ≡ true
unfolding plan_move is_error required_host_ports
plan_move-publishing = refl

plan_move-is_clean_iff_example :
    ((returned (plan_move {E = PlannedMove} publishing request []).0).is_clean ≡ true)
    ↔ IsClean publishing request
plan_move-is_clean_iff_example = plan_move-is_clean_iff publishing request publishing-IsSteady []

preflight_dest-ok_iff_example :
    ((preflight_dest publishing request (publishing.template []) [] []).0 ≡ ok tt) ↔ (
      IsAcceptable publishing request (publishing.template []) []
      × IsPulled publishing request (publishing.render "" []))
preflight_dest-ok_iff_example =
    preflight_dest-ok_iff publishing request publishing-IsSteady (publishing.template []) [] []
