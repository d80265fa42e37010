-- ===== src/Store/Tests.antt =====
-- Runs of the job store, and its theorems at concrete rows.
use podman_api.Common.{
  sort, insert, ℕ, ◌+◌, ◌≡◌, refl, List, [], ◌∷◌, ◌++◌, map, String, none, some, All, keep, length,
  count, update_first, string_eq, nat_eq,
}
use podman_api.Store.Job.{
  JobState, queued, running, succeeded, JobState_eq, Job, JobStep, JobFilter, terminal,
  clamp_job_limit, coalesce_step,
}
use podman_api.Store.Jobs.{
  claim_next, claim_next_matching, claim_next_excluding, claim_where, claimed, is_queued,
  is_queued_of, is_queued_not_of, has_id, is_child, prune_jobs, list_jobs, matches_filter,
}
use podman_api.Store.Jobs.Claims.{
  Claims, claim-Claims, run_claims-count, run_claims, Claim, any, matching, excluding, is_queued_id,
}
use podman_api.Store.Jobs.Later.{Later}
use podman_api.Store.Jobs.Lifecycle.{Call, run, run-Later, claims, finishes, cancels_queued}
use podman_api.Store.Jobs.Pruning.{prune_jobs-keeps, is_fresh}
use podman_api.Store.Jobs.Pruning.Parents.{prune_jobs-parents}
use podman_api.Store.Jobs.Listing.{Page, list_jobs-Page}
use podman_api.Store.Steps.{expand, label, record_steps, expand-record_steps}

abbrev row : String → String → JobState → String → ℕ → Job
row id kind state parent finished = record {
  id = id;
  kind = kind;
  args = "null";
  state = state;
  steps = [];
  parent_id = parent;
  error = "";
  created = 1;
  started = 0;
  finished = finished;
}

abbrev rows : List Job
rows =
    row "01" "backup" running "" 0
    ∷ row "02" "migrate" queued "" 0
    ∷ row "03" "backup" queued "" 0
    ∷ []

first_queued : (claim_next 9 rows).1 ≡ some (claimed 9 (row "02" "migrate" queued "" 0))
unfolding claim_next claim_where update_first
first_queued = refl

claim-Claims_example :
    Claims is_queued 9 rows (claim_next 9 rows)
    × Claims (is_queued_of ("backup" ∷ [])) 9 rows (claim_next_matching ("backup" ∷ []) 9 rows)
    × Claims (is_queued_not_of ("backup" ∷ [])) 9 rows (claim_next_excluding ("backup" ∷ []) 9 rows)
claim-Claims_example = claim-Claims ("backup" ∷ []) 9 rows

abbrev three_claims : List Claim
three_claims = any 7 ∷ matching ("backup" ∷ []) 8 ∷ excluding ("backup" ∷ []) 9 ∷ []

run_claims-count_example :
    count (is_queued_id "03") rows
    ≡ count (is_queued_id "03") (run_claims three_claims rows).0
      + count (has_id "03") (run_claims three_claims rows).1
run_claims-count_example = run_claims-count three_claims rows "03"

abbrev history : List Call
history = claims (any 7) ∷ cancels_queued "03" 8 ∷ finishes "02" succeeded "" 9 ∷ []

run-Later_example : Later rows (run history rows)
run-Later_example = run-Later history rows

-- An evacuation, an old migration that it started, and one that still runs.
abbrev family : List Job
family =
    row "01" "evacuate" succeeded "" 5
    ∷ row "02" "migrate" succeeded "01" 4
    ∷ row "03" "migrate" running "01" 0
    ∷ []

sweep_family :
    prune_jobs 10 family
    ≡ (row "01" "evacuate" succeeded "" 5 ∷ row "03" "migrate" running "01" 0 ∷ [], 1)
unfolding prune_jobs terminal
sweep_family = refl

prune_jobs-keeps_example :
    (length (prune_jobs 10 family).0 + (prune_jobs 10 family).1 ≡ length family)
    × (keep (is_fresh 10) (prune_jobs 10 family).0 ≡ keep (is_fresh 10) family)
prune_jobs-keeps_example = prune_jobs-keeps 10 family

prune_jobs-parents_example :
    All
      (λ j. count (has_id j.parent_id) (prune_jobs 10 family).0 ≡ count (has_id j.parent_id) family)
      (keep is_child (prune_jobs 10 family).0)
unfolding prune_jobs
prune_jobs-parents_example = prune_jobs-parents 10 family (refl, (refl, (refl, tt)))

-- A child that is itself a parent goes in the first pass, though its own child still runs.
abbrev three_levels : List Job
three_levels =
    row "01" "evacuate" running "" 0
    ∷ row "02" "migrate" succeeded "01" 4
    ∷ row "03" "copy" running "02" 0
    ∷ []

orphaned :
    (prune_jobs 10 three_levels).0
    ≡ row "01" "evacuate" running "" 0 ∷ row "03" "copy" running "02" 0 ∷ []
unfolding prune_jobs terminal
orphaned = refl

abbrev backups_page : JobFilter
backups_page = record { state = none; kind = "backup"; parent_id = ""; limit = 1; before = "" }

newest_backup : list_jobs backups_page rows ≡ row "03" "backup" queued "" 0 ∷ []
unfolding list_jobs clamp_job_limit sort insert matches_filter
newest_backup = refl

list_jobs-Page_example : Page backups_page rows (list_jobs backups_page rows)
list_jobs-Page_example = list_jobs-Page backups_page rows

abbrev note : ℕ → String → JobStep
note ts step = record { ts = ts; step = step; detail = ""; count = 0 }

abbrev notes : List JobStep
notes = note 1 "wait" ∷ note 2 "wait" ∷ note 3 "done" ∷ []

notes_coalesced : record_steps [] notes ≡ record (note 2 "wait") { count = 2 } ∷ note 3 "done" ∷ []
unfolding record_steps coalesce_step
notes_coalesced = refl

expand-record_steps_example : expand (record_steps [] notes) ≡ expand [] ++ map label notes
expand-record_steps_example = expand-record_steps [] notes (refl, (refl, (refl, tt)))
