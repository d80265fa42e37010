-- ===== src/Prune/Tests.antt =====
-- Runs of the prune policy, and its theorem at a concrete configuration.
use podman_api.Common.{
  sort, insert, ◌≡◌, ◌↔◌, refl, true, false, Option, none, some, [], ◌∷◌, String, ◌==◌,
  if◌then◌else◌, ℤ, pos, string_eq,
}
use podman_api.Prune.Policy.{
  Policy, PruneConfig, ok, err, resolve, merge, validate, resolve_interval, check_scopes,
  valid_scope, bad_interval, duplicate_scope,
}
use podman_api.Common.{get, not, ◌++◌, any, arith}
use podman_api.Store.Job.{Job, JobState, JobState_eq, running, clamp_job_limit, active}
use podman_api.Store.Jobs.{list_jobs, enqueue, matches_filter}
use podman_api.Prune.Policy.{has_scope}
use podman_api.Prune.Scheduler.{
  Env, State, HostPolicy, tick, tick_hosts, visit, trigger, enqueue_prune, payload_for,
  without_scope, is_due, is_backing_off, scan_prune_jobs, scan_rows, scan_row, host_of,
  migrate_or_evacuate_active,
}
use podman_api.Prune.Scheduler.Enqueues.{Grows, IsPruneOf, tick-IsPruneOf}
use podman_api.Prune.Scheduler.Due.{Holds, tick_due}
use podman_api.Prune.Policy.Resolution.{IsValid, resolve_ok}

abbrev defaults : Policy
defaults = record {
  enabled = true;
  interval = pos 43200000000000;
  disk_threshold = pos 85;
  scope = "dangling" ∷ [];
  dry_run = false;
}

-- A host that also prunes unused volumes, and never by the clock.
abbrev own : PruneConfig
own = record {
  enabled = none;
  interval = some "0s";
  disk_threshold = none;
  scope = some ("dangling" ∷ "volumes" ∷ []);
  dry_run = some true;
}

abbrev only_zero : String → Option ℤ
only_zero text = if text == "0s" then some (pos 0) else none

abbrev merged : Policy
merged = record {
  enabled = true;
  interval = pos 0;
  disk_threshold = pos 85;
  scope = "dangling" ∷ "volumes" ∷ [];
  dry_run = true;
}

resolved : resolve only_zero (some own) defaults ≡ ok merged
unfolding resolve merge validate resolve_interval check_scopes valid_scope
resolved = refl

refused :
    resolve only_zero (some (record own { interval = some "soon" })) defaults
    ≡ err (bad_interval "soon")
unfolding resolve merge resolve_interval
refused = refl

twice :
    resolve only_zero (some (record own { scope = some ("volumes" ∷ "volumes" ∷ []) })) defaults
    ≡ err (duplicate_scope "volumes")
unfolding resolve merge validate resolve_interval check_scopes valid_scope
twice = refl

resolve_ok_example :
    (resolve only_zero (some own) defaults ≡ ok merged)
    ↔ ((merge only_zero (some own) defaults ≡ ok merged) × IsValid merged)
resolve_ok_example = resolve_ok only_zero (some own) defaults merged

abbrev web : HostPolicy
web = record { host = "web"; policy = record merged { interval = pos 3600000000000 } }

abbrev row : String → JobState → Job
row kind state = record {
  id = "01";
  kind = kind;
  args = "{}";
  state = state;
  steps = [];
  parent_id = "";
  error = "";
  created = 1;
  started = 0;
  finished = 0;
}

-- Every text decodes to a prune of `web`; the encoding tells whether volumes are in the scope.
abbrev env : Env
env = record {
  now = 7;
  lists = λ kind. true;
  accepts = λ host. true;
  id_for = λ host. "02";
  knows = λ host. true;
  host_info = λ host. none;
  reaches = λ disk percent. false;
  marshal = λ p. some (if has_scope p.policy "volumes" then "with volumes" else "without");
  unmarshal = λ text. some (record { host = "web"; policy = merged });
}

abbrev moving : State
moving = record { jobs = row "migrate" running ∷ []; last_probe = [] }

drops_volumes :
    (tick env (web ∷ []) moving).jobs
    ≡ row "migrate" running ∷ (enqueue "02" 7 "prune" "without" "" []).1 ∷ []
unfolding tick tick_hosts visit trigger enqueue_prune payload_for without_scope is_due
    is_backing_off scan_prune_jobs scan_rows scan_row host_of migrate_or_evacuate_active list_jobs
    matches_filter sort insert clamp_job_limit active any has_scope enqueue get
drops_volumes = refl

-- A store that does not list the prune jobs hides those in flight.
again_unlisted :
    (tick
      (record env { lists = λ kind. not (kind == "prune") })
      (web ∷ [])
      (record { jobs = row "prune" running ∷ []; last_probe = [] })).jobs
    ≡ row "prune" running ∷ (enqueue "02" 7 "prune" "with volumes" "" []).1 ∷ []
unfolding tick tick_hosts visit trigger enqueue_prune payload_for without_scope is_due
    is_backing_off scan_prune_jobs migrate_or_evacuate_active list_jobs matches_filter sort insert
    clamp_job_limit active any has_scope enqueue get
again_unlisted = refl

tick-IsPruneOf_example :
    Grows (IsPruneOf env (web ∷ []) moving.jobs) moving.jobs (tick env (web ∷ []) moving).jobs
tick-IsPruneOf_example =
    tick-IsPruneOf env (web ∷ []) moving refl (omega arith) (omega arith) (omega arith)

tick_due_example :
    Holds (tick env ([] ++ web ∷ []) moving).jobs (enqueue "02" 7 "prune" "without" "" []).1
unfolding is_backing_off is_due scan_prune_jobs scan_rows scan_row host_of
    migrate_or_evacuate_active list_jobs matches_filter sort insert clamp_job_limit active any
    payload_for without_scope has_scope get
tick_due_example = tick_due env [] [] web "without" moving refl refl refl refl
