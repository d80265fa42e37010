-- ===== src/RegistryPrune/Tests.antt =====
-- Runs of the registry prune policy and scheduler, and their theorems at concrete inputs.
use podman_api.Common.{
  sort, insert, ℕ, ◌≤◌, ◌≡◌, refl, true, List, [], ◌∷◌, String, arith, some, inr, count, string_eq,
}
use podman_api.Store.Job.{JobState, running, Job, active, JobState_eq, clamp_job_limit}
use podman_api.Store.Jobs.{list_jobs, matches_filter}
use podman_api.RegistryPrune.Policy.{
  TagGroup, Class, default_policy, classify, has_tag, sha_orphan, any_of, has_bare_hex_tag,
  is_bare_hex_tag, matches_any_exact, matches_any_regex, extra_for, has_feat_tag, all_bare_hex_tags,
}
use podman_api.RegistryPrune.Scheduler.{
  run_in_flight, Scheduler, Call, enqueue_now, tick, scan_jobs, scan_rows, scan_job,
}
use podman_api.RegistryPrune.Scheduler.Single.{one_run_at_a_time, is_live_run}

abbrev group : List String → TagGroup
group tags = record { digest = "sha256:aa"; tags = tags; created = 1 }

orphan_class : classify "app" (group ("0a1b2c3" ∷ [])) [] [] default_policy 2 ≡ sha_orphan
unfolding classify default_policy any_of has_tag has_bare_hex_tag is_bare_hex_tag matches_any_exact
    matches_any_regex extra_for has_feat_tag all_bare_hex_tags
orphan_class = refl

release_class : classify "app" (group ("2024.01.01" ∷ [])) [] [] default_policy 2 ≡ Class.calver
unfolding classify default_policy any_of has_tag has_bare_hex_tag is_bare_hex_tag matches_any_exact
    matches_any_regex
release_class = refl

abbrev run_row : JobState → ℕ → Job
run_row state finished = record {
  id = "01";
  kind = "registry-prune";
  args = "{}";
  state = state;
  steps = [];
  parent_id = "";
  error = "";
  created = 1;
  started = 1;
  finished = finished;
}

abbrev daily : Scheduler
daily = record { interval = 86400000000000; payload = some (some "{}") }

abbrev at : ℕ → Call
at now = record { acquired = true; lists = true; accepts = true; id = "02"; now = now }

one_run_at_a_time_example :
    (count is_live_run (enqueue_now daily (at 9) (run_row running 0 ∷ [])).0 ≤ 1)
    × (count is_live_run (tick daily (at 9) (run_row running 0 ∷ [])) ≤ 1)
unfolding active
one_run_at_a_time_example =
    one_run_at_a_time daily (at 9) (run_row running 0 ∷ []) (omega arith) (omega arith)

refuses_second :
    enqueue_now daily (at 9) (run_row running 0 ∷ []) ≡ (run_row running 0 ∷ [], inr run_in_flight)
unfolding enqueue_now scan_jobs scan_rows scan_job list_jobs matches_filter sort insert
    clamp_job_limit active
refuses_second = refl
