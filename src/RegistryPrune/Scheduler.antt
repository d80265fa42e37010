-- ===== src/RegistryPrune/Scheduler.antt =====
-- internal/registryprune/scheduler.go: when a registry prune run is enqueued.
--
-- The scheduler's lock makes the scan and the enqueue one step. What the surroundings decide in a
-- call is an argument: whether the lock was got before the context ended, whether the job store
-- answers, the marshalled payload, the fresh id and the time.
pub mod Single
use podman_api.Common.{
  ℕ, suc, ◌+◌, ◌-◌, ◌*◌, ◌≡◌, Bool, true, false, not, ◌&&◌, ◌||◌, Option, none, some, List, [], ◌∷◌,
  ◌⊎◌, inl, inr, String, string_eq, nat_eq, ◌==◌, leb, ltb, if◌then◌else◌,
}
use podman_api.RegistryPrune.Policy.{elapsed}
use podman_api.Store.Job.{
  Job, JobState, JobFilter, active, succeeded, failed, canceled, JobState_eq,
}
use podman_api.Store.Jobs.{enqueue, list_jobs}

abbrev pub job_kind : String
job_kind = "registry-prune"

abbrev pub active_scan_limit : ℕ
active_scan_limit = 500

-- One hour in nanoseconds.
abbrev pub failure_backoff : ℕ
failure_backoff = 3600000000000

-- An interval that is not positive disables the ticker, as 0 does here; an absent payload is Go's
-- nil function, and a payload whose inner value is absent is one that does not marshal.
pub record Scheduler : Type 0 where
  pub interval : ℕ
  pub payload : Option (Option String)

pub record Call : Type 0 where
  pub acquired : Bool
  pub lists : Bool
  pub accepts : Bool
  pub id : String
  pub now : ℕ

pub data EnqueueError : Type 0 where
  not_configured gave_up run_in_flight marshal_failed enqueue_failed : EnqueueError

pub record Scan : Type 0 where
  pub inflight : Bool
  pub last_success : ℕ
  pub last_failure : ℕ

abbrev pub scan_filter : JobFilter
scan_filter = record {
  state = none;
  kind = job_kind;
  parent_id = "";
  limit = active_scan_limit;
  before = "";
}

abbrev later_of : ℕ → ℕ → ℕ
later_of t last = if ltb last t then t else last

-- One row of the loop of `scanJobs`.
unfoldable pub scan_job : Job → Scan → Scan
scan_job j s =
    if active j.state
    then record s { inflight = true }
    else if j.state == succeeded
    then record s { last_success = later_of j.finished s.last_success }
    else if j.state == failed || j.state == canceled
    then record s { last_failure = later_of j.finished s.last_failure }
    else s

unfoldable pub scan_rows : List Job → Scan → Scan
scan_rows [] s = s
scan_rows (j ∷ jobs) s = scan_rows jobs (scan_job j s)

-- A store that does not answer counts as a run in flight.
unfoldable pub scan_jobs : Bool → List Job → Scan
scan_jobs false jobs = record { inflight = true; last_success = 0; last_failure = 0 }
scan_jobs true jobs =
    scan_rows (list_jobs scan_filter jobs)
      (record { inflight = false; last_success = 0; last_failure = 0 })

abbrev pub refused : List Job → EnqueueError → List Job × (Job ⊎ EnqueueError)
refused jobs e = (jobs, inr e)

abbrev accepted : List Job × Job → List Job × (Job ⊎ EnqueueError)
accepted (jobs, j) = (jobs, inl j)

-- The tail that both entry points share: marshal, then enqueue.
unfoldable pub enqueue_run : Call → Option String → List Job → List Job × (Job ⊎ EnqueueError)
enqueue_run c none jobs = refused jobs marshal_failed
enqueue_run c (some args) jobs =
    if c.accepts
    then accepted (enqueue c.id c.now job_kind args "" jobs)
    else refused jobs enqueue_failed

unfoldable pub enqueue_now : Scheduler → Call → List Job → List Job × (Job ⊎ EnqueueError)
enqueue_now s c jobs = elim s.payload [
  | none ↦ refused jobs not_configured
  | some args ↦
      if not c.acquired
      then refused jobs gave_up
      else if (scan_jobs c.lists jobs).inflight
      then refused jobs run_in_flight
      else enqueue_run c args jobs
]

-- The backoff after a failure that no later success clears, then the interval gate.
unfoldable pub is_due : Scheduler → ℕ → Scan → Bool
is_due s now scan =
    not (
      not (scan.last_failure == 0)
      && ltb (elapsed now scan.last_failure) failure_backoff
      && (scan.last_success == 0 || ltb scan.last_success scan.last_failure))
    && not (not (scan.last_success == 0) && ltb (elapsed now scan.last_success) s.interval)

unfoldable pub tick : Scheduler → Call → List Job → List Job
tick s c jobs = elim s.payload [
  | none ↦ jobs
  | some args ↦
      if leb s.interval 0
      then jobs
      else if not c.acquired
      then jobs
      else if (scan_jobs c.lists jobs).inflight
      then jobs
      else if is_due s c.now (scan_jobs c.lists jobs)
      then (enqueue_run c args jobs).0
      else jobs
]
