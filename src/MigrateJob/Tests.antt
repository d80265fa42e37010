-- ===== src/MigrateJob/Tests.antt =====
-- Attempts on a migrate job that a restart interrupted.
use podman_api.Common.{
  any, put, ◌≡◌, refl, true, false, [], ◌∷◌, Option, none, some, String, string_eq, ◌==◌,
  if◌then◌else◌,
}
use podman_api.Store.Job.{JobState, reconciling, JobState_eq, Job}
use podman_api.Runner.Pool.{State}
use podman_api.Instance.{
  is_error, other, Error, sentinel, pod_not_found, ok, err, OnOk, MigrateRequest,
}
use podman_api.Instance.Calls.{Call, pod_inspect, Outside}
use podman_api.Instance.Reconcile.Course.{IsSafe}
use podman_api.MigrateJob.{handle, Decoder, reconcile, undecoded}
use podman_api.MigrateJob.Rollbacks.{is_reap, handle-counts}
use podman_api.Instance.Migrate.{migrate}
use podman_api.Instance.Rendered.{required_host_ports, container_images}
use podman_api.Ingress.Routes.{itoa}
use podman_api.MigrateJob.Attempts.{IsRecorded, reconcile-IsRecorded}

abbrev request : MigrateRequest
request = record {
  from_host = "h1";
  to_host = "h2";
  template = "web";
  slug = "one";
  parameters = [];
  also_stop = [];
}

abbrev decoder : Decoder
decoder = record { unmarshal = λ args. if args == "{}" then ok request else err "bad" }

abbrev row : String → JobState → Job
row args state = record {
  id = "01";
  kind = "migrate";
  args = args;
  state = state;
  steps = [];
  parent_id = "";
  error = "";
  created = 1;
  started = 2;
  finished = 0;
}

abbrev before : State
before = record { jobs = row "{}" reconciling ∷ []; inflight = ("01", false) ∷ [] }

-- The destination has no pod, and the source stops unless it refuses.
abbrev answers : Option Error → Call → Option Error
answers refusal (pod_inspect host k) = if host == "h2" then some (sentinel pod_not_found) else none
answers refusal (Call.apply host applied) = refusal
answers refusal _ = none

abbrev outside : Option Error → Outside
outside refusal = record {
  knows = λ _. true;
  is_draining = λ _. false;
  verifies_volumes = false;
  has_ingress = false;
  fails = λ _ c. answers refusal c;
  template = λ _. record { host_secrets = []; body = "" };
  spec = λ _. record {
    parameters = [];
    secrets = [];
    injector_secrets = [];
    domains = [];
    applied_networks = [];
  };
  host_secret = λ _. "";
  volumes = λ _. [];
  manifest = λ _. [];
  ports = λ _. [];
  elapsed = λ _. "1s";
  render = λ _ _. ok "";
  validate = λ _ _ _. none;
  port_documents = λ _. [];
  image_documents = λ _. [];
  message = λ _. "refused";
}

reconcile-undecoded :
    (reconcile {E = Unit {0}} (outside none) decoder (row "" reconciling) []).0 ≡ ok undecoded
unfolding reconcile
reconcile-undecoded = refl

reconcile-IsRecorded_example :
    let (verdict, h) = reconcile {E = Unit {0}} (outside none) decoder (row "{}" reconciling) [] in
    OnOk
      (λ v.
        IsSafe (outside none) request h
        × IsRecorded (outside none) request (row "{}" reconciling) 9 before h v)
      verdict
reconcile-IsRecorded_example =
    reconcile-IsRecorded (outside none) request (row "{}" reconciling) 9 before decoder refl

-- The spec cannot be applied on the destination.
abbrev refusing : Outside
refusing = outside (some (other "no such image"))

-- A rollback is counted.
handle-refusing : (handle refusing true decoder (row "{}" reconciling)).counted ≡ true
unfolding handle migrate is_error any put itoa required_host_ports container_images
handle-refusing = refl

handle-counts_example :
    let answer = handle refusing true decoder (row "{}" reconciling) in
    (answer.counted ≡ any (is_reap request) (migrate refusing request []).1)
    × (answer.returned ≡ none → answer.counted ≡ false)
handle-counts_example = handle-counts refusing request decoder (row "{}" reconciling) refl
