-- ===== src/Runner/Tests.antt =====
-- Runs of the reserved pool, and its theorems at concrete rows.
use podman_api.Common.{
  true, sort, insert, none, Fails, count, map, get, length, ◌≡◌, ◌⊎◌, refl, List, [], ◌∷◌, String,
  arith, All, update_first, string_eq,
}
use podman_api.Store.Job.{
  reconciling, succeeded, JobState, queued, running, canceled, Job, JobState_eq,
}
use podman_api.Store.Jobs.{
  cancel_reconciling, finish, is_running, is_queued, claim_next_excluding, claim_next_matching,
  claim_where,
}
use podman_api.Runner.Pool.{
  cancel, Verdict, reconcile_begin, reconcile_end, Config, State, new_runner,
  set_volume_transfer_pool, start, claim, recover, run_begin, run_end,
}
use podman_api.Runner.Pool.Recovery.{recovered, recover_lem}
use podman_api.Runner.Pool.Coverage.{pool_covers}
use podman_api.Runner.Pool.Reconciling.{reconcile_canceled}
use podman_api.Runner.Pool.Running.{cancel_each, run_records}
use podman_api.Runner.Rotation.{
  Rotation, new_rotation, order, served, claim_rotating, claim_in_order, last_of, last_in,
}
use podman_api.Runner.Rotation.Served.{IsIdle, Outcome, claim_rotating-Outcome}
use podman_api.Runner.Rotation.Fairness.{IsCurrent, no_monopoly}

abbrev row : String → String → JobState → Job
row id kind state = record {
  id = id;
  kind = kind;
  args = "null";
  state = state;
  steps = [];
  parent_id = "";
  error = "";
  created = 1;
  started = 0;
  finished = 0;
}

abbrev kinds : List String
kinds = "backup" ∷ "migrate" ∷ []

-- A wave of backups, and one migration behind it.
abbrev wave : List Job
wave = row "01" "backup" queued ∷ row "02" "backup" queued ∷ row "03" "migrate" queued ∷ []

abbrev after_one : Rotation
after_one = (claim_rotating new_rotation kinds 5 wave).rotation

migrate_is_next : order after_one kinds ≡ "migrate" ∷ "backup" ∷ []
unfolding claim_rotating claim_in_order claim_next_matching claim_where update_first order sort
    insert last_of last_in served
migrate_is_next = refl

claim_rotating-Outcome_example :
    Outcome new_rotation
      (order new_rotation kinds)
      5
      wave
      (claim_rotating new_rotation kinds 5 wave)
      (claim_rotating new_rotation kinds 5 wave).job
claim_rotating-Outcome_example = claim_rotating-Outcome new_rotation kinds 5 wave

new-IsCurrent : IsCurrent new_rotation
unfolding last_of last_in
new-IsCurrent k = omega arith

abbrev backups_only : List Job
backups_only = row "01" "backup" running ∷ row "02" "backup" queued ∷ []

no_monopoly_example : All (λ m. IsIdle backups_only m ⊎ (m ≡ "backup")) kinds
unfolding claim_rotating claim_in_order claim_next_matching claim_where update_first order sort
    insert last_of last_in served
no_monopoly_example =
    no_monopoly new_rotation kinds 5 6 wave backups_only
      (record (row "01" "backup" running) { started = 5 })
      (record (row "02" "backup" running) { started = 6 }) new-IsCurrent (omega arith) refl refl
      refl

abbrev interrupted_rows : List Job
interrupted_rows =
    row "01" "backup" running ∷ row "02" "evacuate" running ∷ row "03" "backup" queued ∷ []

recover_lem_example :
    (recover ("evacuate" ∷ []) 7 interrupted_rows
      ≡ map (recovered ("evacuate" ∷ []) 7) interrupted_rows)
    × (count is_running (recover ("evacuate" ∷ []) 7 interrupted_rows) ≡ 0)
recover_lem_example = recover_lem ("evacuate" ∷ []) 7 interrupted_rows

abbrev two_of_eight : Config
two_of_eight = set_volume_transfer_pool kinds 2 (new_runner 0)

eight_workers : length (start two_of_eight) ≡ 8
unfolding start set_volume_transfer_pool new_runner
eight_workers = refl

abbrev one_backup : State
one_backup = record { jobs = row "01" "backup" running ∷ []; inflight = [] }

abbrev end_of_run : State
end_of_run =
    run_end (row "01" "backup" running) none 9
      (cancel_each ("02" ∷ "01" ∷ []) (run_begin kinds (row "01" "backup" running) 8 one_backup))

run_records_example :
    (end_of_run.jobs ≡ (finish "01" canceled "canceled by operator" 9 one_backup.jobs).0)
    × (get end_of_run.inflight "01" ≡ none)
run_records_example =
    run_records kinds ("02" ∷ "01" ∷ []) (row "01" "backup" running) none 8 9 one_backup refl

pool_covers_example : All (Fails is_queued) (row "01" "backup" running ∷ [])
unfolding start set_volume_transfer_pool new_runner claim claim_next_excluding claim_rotating
    claim_in_order claim_next_matching claim_where update_first order sort insert last_of last_in
pool_covers_example =
    pool_covers (set_volume_transfer_pool kinds 1 (new_runner 2)) new_rotation 5
      (row "01" "backup" running ∷ []) (omega arith) (refl, (refl, tt))

abbrev recovering : State
recovering = record { jobs = row "01" "migrate" reconciling ∷ []; inflight = [] }

abbrev resolved : Verdict
resolved = record { state = succeeded; message = ""; resolved = true; error = none }

abbrev canceled_rows : List Job
canceled_rows = record (row "01" "migrate" canceled) { finished = 8 } ∷ []

abbrev after_attempt : State
after_attempt =
    reconcile_end (row "01" "migrate" reconciling) resolved 9
      (cancel "01" (record (reconcile_begin (row "01" "migrate" reconciling) recovering) {
        jobs = canceled_rows;
      })).0

reconcile_canceled_example :
    (after_attempt.jobs ≡ canceled_rows) × (get after_attempt.inflight "01" ≡ none)
unfolding cancel_reconciling update_first reconcile_begin
reconcile_canceled_example =
    reconcile_canceled (row "01" "migrate" reconciling) resolved 8 9 recovering canceled_rows
      (omega arith) refl
