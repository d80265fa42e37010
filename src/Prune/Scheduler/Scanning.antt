-- ===== src/Prune/Scheduler/Scanning.antt =====
-- internal/prune/scheduler.go, scanPruneJobs and migrateOrEvacuateActive: what the scans see.
use podman_api.Common.{
  ◌+◌, ◌≤◌, ◌<◌, ◌≡◌, refl, sym, ◌∙◌, Bool, true, false, ◌&&◌, ◌||◌, Option, none, some, List, [],
  ◌∷◌, String, string_eq, ◌==◌, contains, any-count, keep, arith, count, length,
}
use podman_api.Store.Job.{Job, JobState_eq, queued, running, clamp_job_limit}
use podman_api.Store.Jobs.{list_jobs, matches_filter}
use podman_api.Store.Jobs.Listing.{count-list_jobs}
use podman_api.Prune.Scheduler.{
  Env, Scan, newest_of, scan_row, scan_host, scan_rows, host_of, empty_scan, scan_prune_jobs,
  migrate_or_evacuate_active, is_active,
}

abbrev pub is_of : String → Job → Bool
is_of kind j = j.kind == kind

count-keep_kind :
    (p : Job → Bool) (kind : String) (jobs : List Job)
    → (kind == "") ≡ false
    → count p (keep (matches_filter (newest_of kind)) jobs) ≡ count (λ j. is_of kind j && p j) jobs
unfolding matches_filter
count-keep_kind p kind [] named = refl
count-keep_kind p kind (j ∷ jobs) named = ground (arith, named, count-keep_kind p kind jobs named)

length-keep_kind :
    (kind : String) (jobs : List Job)
    → (kind == "") ≡ false
    → length (keep (matches_filter (newest_of kind)) jobs) ≡ count (is_of kind) jobs
unfolding matches_filter
length-keep_kind kind [] named = refl
length-keep_kind kind (j ∷ jobs) named = ground (arith, named, length-keep_kind kind jobs named)

count-newest_of :
    (p : Job → Bool) (kind : String) (jobs : List Job)
    → (kind == "") ≡ false
    → count (is_of kind) jobs ≤ 500
    → count p (list_jobs (newest_of kind) jobs) ≡ count (λ j. is_of kind j && p j) jobs
unfolding clamp_job_limit
count-newest_of p kind jobs named few =
    count-list_jobs p (newest_of kind) jobs (omega (arith, length-keep_kind kind jobs named))
    ∙ count-keep_kind p kind jobs named

abbrev names : String → Option String → Bool
names host none = false
names host (some h) = h == host

abbrev is_waiting : Env → String → Job → Bool
is_waiting env host j = (j.state == queued || j.state == running) && names host (host_of env j)

-- A prune of the host that is queued or running.
abbrev pub is_pending : Env → String → Job → Bool
is_pending env host j = is_of "prune" j && is_waiting env host j

scan_host-inflight :
    (host : String) (o : Option String) (j : Job) (s : Scan)
    → contains (scan_host o j s).inflight host ≡ false
    → (contains s.inflight host ≡ false)
      × (((j.state == queued || j.state == running) && names host o) ≡ false)
unfolding scan_row
scan_host-inflight host none j s h = (h, ground arith)
scan_host-inflight host (some own) j s h = (ground arith, ground arith)

scan_rows-inflight :
    (env : Env) (host : String) (jobs : List Job) (s : Scan)
    → contains (scan_rows env jobs s).inflight host ≡ false
    → (contains s.inflight host ≡ false) × (count (is_waiting env host) jobs ≡ 0)
unfolding scan_rows
scan_rows-inflight env host [] s h = (h, refl)
scan_rows-inflight env host (j ∷ jobs) s h =
    let (later, rest) = scan_rows-inflight env host jobs (scan_host (host_of env j) j s) h in
    let (earlier, skipped) = scan_host-inflight host (host_of env j) j s later in
    (earlier, rw skipped (omega (arith, rest)))

-- A host that the scan does not report has no prune queued or running.
pub scan-pending :
    (env : Env) (host : String) (jobs : List Job)
    → env.lists "prune" ≡ true
    → count (is_of "prune") jobs ≤ 500
    → contains (scan_prune_jobs env jobs).inflight host ≡ false
    → count (is_pending env host) jobs ≡ 0
unfolding scan_prune_jobs
scan-pending env host jobs lists few h =
    sym (count-newest_of (is_waiting env host) "prune" jobs refl few)
    ∙ (scan_rows-inflight env host (list_jobs (newest_of "prune") jobs) empty_scan
        (rw lists at h)).1

-- A migration or an evacuation that is queued, running or reconciling.
abbrev pub is_moving : Job → Bool
is_moving j = (is_of "migrate" j || is_of "evacuate" j) && is_active j

count-moving :
    (jobs : List Job)
    → count is_moving jobs
      ≤ count (λ j. is_of "migrate" j && is_active j) jobs
        + count (λ j. is_of "evacuate" j && is_active j) jobs
count-moving [] = omega arith
count-moving (j ∷ jobs) = ground (arith, count-moving jobs)

pub active-moving :
    (env : Env) (jobs : List Job)
    → count (is_of "migrate") jobs ≤ 500
    → count (is_of "evacuate") jobs ≤ 500
    → 0 < count is_moving jobs
    → migrate_or_evacuate_active env jobs ≡ true
unfolding migrate_or_evacuate_active
active-moving env jobs few_migrate few_evacuate moving = ground (
  arith,
  count-moving jobs,
  any-count is_active (list_jobs (newest_of "migrate") jobs),
  any-count is_active (list_jobs (newest_of "evacuate") jobs),
  count-newest_of is_active "migrate" jobs refl few_migrate,
  count-newest_of is_active "evacuate" jobs refl few_evacuate,
)
