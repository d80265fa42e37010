-- ===== src/RegistryPrune/Scheduler/Single.antt =====
-- internal/registryprune/scheduler.go: one run at a time.
use podman_api.Common.{
  ◌+◌, ◌≤◌, ◌≡◌, refl, sym, ◌∙◌, Bool, true, false, ◌&&◌, Option, none, some, List, [], ◌∷◌, inl,
  inr, String, arith, string_eq, nat_eq, ◌==◌, count, count-append, keep, length, Bool-cases,
  Option-cases,
}
use podman_api.Store.Job.{Job, active, JobState_eq, clamp_job_limit}
use podman_api.Store.Jobs.{enqueue, list_jobs, matches_filter}
use podman_api.Store.Jobs.Listing.{count-list_jobs}
use podman_api.RegistryPrune.Scheduler.{
  Scheduler, Call, Scan, job_kind, scan_filter, scan_job, scan_rows, scan_jobs, enqueue_run,
  enqueue_now, tick,
}

abbrev pub is_run : Job → Bool
is_run j = j.kind == job_kind

-- A run that is queued, running or reconciling.
abbrev pub is_live_run : Job → Bool
is_live_run j = is_run j && active j.state

abbrev is_live : Job → Bool
is_live j = active j.state

scan_rows-inflight :
    (jobs : List Job) (s : Scan)
    → (scan_rows jobs s).inflight ≡ false
    → (s.inflight ≡ false) × (count is_live jobs ≡ 0)
unfolding scan_rows scan_job
scan_rows-inflight [] s h = (h, refl)
scan_rows-inflight (j ∷ jobs) s h = ground (arith, scan_rows-inflight jobs (scan_job j s) h)

is_run-matches : (j : Job) → matches_filter scan_filter j ≡ is_run j
unfolding matches_filter
is_run-matches j = ground arith

count-keep_runs :
    (jobs : List Job)
    → count is_live (keep (matches_filter scan_filter) jobs) ≡ count is_live_run jobs
count-keep_runs [] = refl
count-keep_runs (j ∷ jobs) = ground (arith, is_run-matches j, count-keep_runs jobs)

length-keep_runs :
    (jobs : List Job) → length (keep (matches_filter scan_filter) jobs) ≡ count is_run jobs
length-keep_runs [] = refl
length-keep_runs (j ∷ jobs) = ground (arith, is_run-matches j, length-keep_runs jobs)

-- The scan sees every run, where the store holds no more than it reads.
scan_jobs-idle :
    (lists : Bool) (jobs : List Job)
    → count is_run jobs ≤ 500
    → (scan_jobs lists jobs).inflight ≡ false
    → count is_live_run jobs ≡ 0
unfolding scan_jobs clamp_job_limit
scan_jobs-idle false jobs few h = cc
scan_jobs-idle true jobs few h =
    sym (count-keep_runs jobs)
    ∙ sym (count-list_jobs is_live scan_filter jobs (rw (length-keep_runs jobs) few))
    ∙ (scan_rows-inflight (list_jobs scan_filter jobs) _ h).1

enqueue_run-live :
    (c : Call) (args : Option String) (jobs : List Job)
    → count is_live_run (enqueue_run c args jobs).0 ≤ count is_live_run jobs + 1
unfolding enqueue_run enqueue active
enqueue_run-live c none jobs = omega arith
enqueue_run-live c (some args) jobs = elim (Bool-cases c.accepts) [
  | inl e ↦ rw (e, count-append) (omega arith)
  | inr e ↦ rw e (omega arith)
]

enqueue_idle :
    (c : Call) (args : Option String) (jobs : List Job)
    → count is_run jobs ≤ 500
    → (scan_jobs c.lists jobs).inflight ≡ false
    → count is_live_run (enqueue_run c args jobs).0 ≤ 1
enqueue_idle c args jobs few idle =
    omega (arith, scan_jobs-idle c.lists jobs few idle, enqueue_run-live c args jobs)

enqueue_now-single :
    (s : Scheduler) (c : Call) (jobs : List Job)
    → count is_run jobs ≤ 500
    → count is_live_run jobs ≤ 1
    → count is_live_run (enqueue_now s c jobs).0 ≤ 1
unfolding enqueue_now
enqueue_now-single s c jobs few single = elim (Option-cases s.payload) [
  | inl e ↦ rw (e, enqueue_now) single
  | inr (args, e) ↦ rw (e, enqueue_now) (ground (arith, enqueue_idle c args jobs few))
]

tick-single :
    (s : Scheduler) (c : Call) (jobs : List Job)
    → count is_run jobs ≤ 500
    → count is_live_run jobs ≤ 1
    → count is_live_run (tick s c jobs) ≤ 1
unfolding tick
tick-single s c jobs few single = elim (Option-cases s.payload) [
  | inl e ↦ rw (e, tick) single
  | inr (args, e) ↦ rw (e, tick) (ground (arith, enqueue_idle c args jobs few))
]

-- Where at most one registry prune run is queued, running or reconciling and the store holds at
-- most 500 such rows, finished ones included, an on-demand request and a tick of the schedule each
-- leave at most one.
pub one_run_at_a_time :
    (s : Scheduler) (c : Call) (jobs : List Job)
    → count is_run jobs ≤ 500
    → count is_live_run jobs ≤ 1
    → (count is_live_run (enqueue_now s c jobs).0 ≤ 1) × (count is_live_run (tick s c jobs) ≤ 1)
one_run_at_a_time s c jobs few single =
    (enqueue_now-single s c jobs few single, tick-single s c jobs few single)
