-- ===== src/Backupctl/Tests.antt =====
-- Ticks of a backup scheduler, and the theorems on them at concrete rows.
use podman_api.Common.{
  ℕ, sort, insert, ◌≡◌, ◌≢◌, ◌⊎◌, refl, ap, true, false, none, some, List, [], ◌∷◌, String,
  string_eq, ◌==◌, sym, arith, any,
}
use podman_api.Store.Job.{Job, JobState, JobState_eq, running, reconciling, clamp_job_limit}
use podman_api.Store.Jobs.{list_jobs, enqueue, matches_filter}
use podman_api.Backupctl.Enqueue.{
  Codec, Service, Call, Target, BackupOptions, BackupRequest, covered, enqueued, failed, deferred,
  enqueue_backup, prepare, prepare_scope, row_covers, row_targets, backup_reconciling,
  backup_in_flight_covering, scope_covers, has_each, request,
}
use podman_api.Backupctl.Enqueue.Outcome.{Outcome, enqueue_backup-Outcome}
use podman_api.Backupctl.Enqueue.Once.{RoundTrips, enqueue_backup_once}
use podman_api.Common.{keep, All}
use podman_api.Store.Backups.{
  Backup, Backups, complete, failed, is_newer, list_backups, is_of_instance, values,
}
use podman_api.Backupctl.Last.{
  last_backup_at, first_complete, is_complete, IsNewestComplete, last_backup_at-IsNewestComplete,
}

abbrev shop : Target
shop = record { host = "h1"; template = "erp"; slug = "shop" }

abbrev whole : BackupOptions
whole = record { volumes = none; mode = "" }

abbrev of_wal : BackupOptions
of_wal = record { volumes = some ("wal" ∷ []); mode = "" }

abbrev first_call : Call
first_call = record {
  lists = λ st. true;
  accepts = true;
  backup_id = "bk_1";
  job_id = "01";
  now = 5;
}

abbrev healthy : Service
healthy = record { check_backup_scope_declared = λ t vs. none; check_backupable = λ t vs. none }

-- Encodes one request, and reads any text as that request.
abbrev codec_of : BackupRequest → Codec
codec_of r = record { marshal = λ q. some "{}"; unmarshal = λ text. some r }

abbrev codec : Codec
codec = codec_of (request first_call shop [] whole)

abbrev backup_row : JobState → Job
backup_row state = record {
  id = "00";
  kind = "backup";
  args = "{}";
  state = state;
  steps = [];
  parent_id = "";
  error = "";
  created = 1;
  started = 0;
  finished = 0;
}

covered_tick :
    enqueue_backup codec healthy first_call shop of_wal (backup_row running ∷ [])
    ≡ (backup_row running ∷ [], covered)
unfolding enqueue_backup prepare prepare_scope row_covers row_targets backup_reconciling
    backup_in_flight_covering scope_covers has_each list_jobs matches_filter sort insert
    clamp_job_limit any
covered_tick = refl

deferred_tick :
    enqueue_backup codec healthy first_call shop of_wal (backup_row reconciling ∷ [])
    ≡ (backup_row reconciling ∷ [], failed deferred)
unfolding enqueue_backup prepare prepare_scope row_covers row_targets backup_reconciling
    backup_in_flight_covering scope_covers has_each list_jobs matches_filter sort insert
    clamp_job_limit any
deferred_tick = refl

enqueue_backup-Outcome_example :
    let (jobs', answer) =
      enqueue_backup codec healthy first_call shop of_wal (backup_row running ∷ []) in
    Outcome codec first_call shop of_wal (backup_row running ∷ []) jobs' answer
enqueue_backup-Outcome_example =
    enqueue_backup-Outcome codec healthy first_call shop of_wal (backup_row running ∷ [])
      (omega arith)

abbrev two_volumes : List String
two_volumes = "wal" ∷ "data" ∷ []

abbrev one_volume : List String
one_volume = "data" ∷ []

codec-RoundTrips : RoundTrips codec (request first_call shop [] whole)
codec-RoundTrips args e = (ap (λ o. elim o [ none ↦ false | some a ↦ a == "" ]) (sym e), refl)

tick_enqueued : (enqueue_backup codec healthy first_call shop whole []).1 ≡ enqueued "01"
unfolding enqueue_backup prepare prepare_scope row_covers row_targets backup_reconciling
    backup_in_flight_covering list_jobs matches_filter sort insert clamp_job_limit any enqueue
tick_enqueued = refl

enqueue_backup_once_example :
    (enqueue_backup codec healthy
      (record first_call { job_id = "02" })
      shop
      whole
      (enqueue_backup codec healthy first_call shop whole []).0).1
    ≢ enqueued "02"
enqueue_backup_once_example =
    enqueue_backup_once codec healthy healthy first_call (record first_call { job_id = "02" }) shop
      whole [] "01" "02" (omega arith) codec-RoundTrips tick_enqueued

-- The newest backup failed, the one before it is complete.
abbrev taken : Backup
taken = record {
  id = "bk_1";
  host = "h1";
  template = "erp";
  slug = "shop";
  state = complete;
  volumes = [];
  image = "";
  mode = "";
  created = 3;
  finished = 9;
}

abbrev rows : Backups
rows =
    ("bk_2", record taken { id = "bk_2"; state = failed; created = 20; finished = 21 })
    ∷ ("bk_1", taken)
    ∷ []

last_is_taken : last_backup_at true "h1" "erp" "shop" rows ≡ some 9
unfolding last_backup_at first_complete list_backups clamp_job_limit sort insert is_newer
last_is_taken = refl

last_backup_at-IsNewestComplete_example :
    (time : ℕ) × (last_backup_at true "h1" "erp" "shop" rows ≡ some time)
    × ((All (λ b. is_complete b ≡ false) (keep (is_of_instance "h1" "erp" "shop") (values rows))
          × (time ≡ 0))
        ⊎ IsNewestComplete (keep (is_of_instance "h1" "erp" "shop") (values rows)) time)
last_backup_at-IsNewestComplete_example =
    last_backup_at-IsNewestComplete "h1" "erp" "shop" rows (omega arith)
