-- ===== src/Api/Tests.antt =====
-- A cancel request that races with a worker's claim.
use podman_api.Common.{◌≡◌, refl, ℕ, true, false, [], ◌∷◌, get, put, update_first, string_eq}
use podman_api.Store.Job.{JobState, queued, running, JobState_eq, Job}
use podman_api.Store.Jobs.{get_job, claim_next, claim_where, cancel_queued}
use podman_api.Store.Jobs.Claims.{any, claim}
use podman_api.Store.Jobs.Later.{Later}
use podman_api.Store.Jobs.Lifecycle.{run, step, claims}
use podman_api.Runner.Pool.{State, cancel}
use podman_api.Api.Jobs.{
  Handlers, Others, accepted, cancel_job, cancel_in, interrupt, write_accepted_job,
}

abbrev row : JobState → ℕ → Job
row state started = record {
  id = "01";
  kind = "migrate";
  args = "null";
  state = state;
  steps = [];
  parent_id = "";
  error = "";
  created = 1;
  started = started;
  finished = 0;
}

abbrev before : State
before = record { jobs = row queued 0 ∷ []; inflight = [] }

abbrev handlers : Handlers
handlers = record { has_jobs = true; has_canceller = true }

abbrev stay : State → State
stay s = s

-- A worker claims the row and registers the job.
abbrev claim_meanwhile : State → State
claim_meanwhile s = record {
  jobs = run (claims (any 5) ∷ []) s.jobs;
  inflight = put "01" false s.inflight;
}

abbrev racing : Others
racing = record { after_read = claim_meanwhile; after_swap = stay; before_reread = stay }

-- The swap from queued is lost, and the runner is told instead.
lost_to_claim : (cancel_job handlers racing "01" 9 before).1 ≡ accepted (row running 5)
unfolding cancel_job cancel_in interrupt write_accepted_job get_job run step claim claim_next
    claim_where update_first cancel_queued cancel put get
lost_to_claim = refl
