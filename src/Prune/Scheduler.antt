-- ===== src/Prune/Scheduler.antt =====
-- internal/prune/scheduler.go: one tick over the hosts, with the job scan and the disk probe.
--
-- The podman client, JSON and a store that fails are the environment of a tick; the comparison of
-- the used share of a disk with a percentage, in floating point, is one of its functions. Times
-- and durations are nanoseconds. The test seam `lastOverride` is left out, as it is nil outside
-- tests.
pub mod Scanning
pub mod Enqueues
pub mod Due
use podman_api.Common.{
  ℕ, ◌-◌, ◌≡◌, Bool, true, false, ◌&&◌, ◌||◌, not, Option, none, some, List, [], ◌∷◌, String,
  string_eq, ◌==◌, if◌then◌else◌, contains, any, keep, get, put, ltb, leb, ℤ, is_above, magnitude,
}
use podman_api.Store.Job.{
  Job, JobState, JobFilter, JobState_eq, queued, running, succeeded, failed, active,
}
use podman_api.Store.Jobs.{list_jobs, enqueue}
use podman_api.Prune.Policy.{Policy, has_scope, scope_volumes}

pub record HostPolicy : Type 0 where
  pub host : String
  pub policy : Policy

pub record Payload : Type 0 where
  pub host : String
  pub policy : Policy

pub record Disk : Type 0 where
  pub used : ℕ
  pub total : ℕ

-- Whether the store lists a kind, what the client knows and answers, and what an enqueue draws.
pub record Env : Type 0 where
  pub now : ℕ
  pub lists : String → Bool
  pub accepts : String → Bool
  pub id_for : String → String
  pub knows : String → Bool
  pub host_info : String → Option Disk
  pub reaches : Disk → ℕ → Bool
  pub marshal : Payload → Option String
  pub unmarshal : String → Option Payload

pub record State : Type 0 where
  pub jobs : List Job
  pub last_probe : List (String × ℕ)

pub record Scan : Type 0 where
  pub inflight : List String
  pub last_success : List (String × ℕ)
  pub last_failure : List (String × ℕ)

abbrev failure_backoff : ℕ
failure_backoff = 3600000000000

abbrev threshold_probe_interval : ℕ
threshold_probe_interval = 300000000000

abbrev pub newest_of : String → JobFilter
newest_of kind = record { state = none; kind = kind; parent_id = ""; before = ""; limit = 500 }

-- Keeps the later of two finish times.
abbrev put_later : String → ℕ → List (String × ℕ) → List (String × ℕ)
put_later host t times = elim (get times host) [
  | none ↦ put host t times
  | some cur ↦ if ltb cur t then put host t times else times
]

unfoldable pub scan_row : String → Job → Scan → Scan
scan_row host j s =
    if j.state == queued || j.state == running
    then record s { inflight = host ∷ s.inflight }
    else if j.state == succeeded
    then record s { last_success = put_later host j.finished s.last_success }
    else if j.state == failed
    then record s { last_failure = put_later host j.finished s.last_failure }
    else s

-- The host that a row is for: rows that do not decode, or name none, are skipped.
unfoldable pub host_of : Env → Job → Option String
host_of env j = elim (env.unmarshal j.args) [
  | none ↦ none
  | some p ↦ if p.host == "" then none else some p.host
]

abbrev pub scan_host : Option String → Job → Scan → Scan
scan_host none j s = s
scan_host (some host) j s = scan_row host j s

unfoldable pub scan_rows : Env → List Job → Scan → Scan
scan_rows env [] s = s
scan_rows env (j ∷ jobs) s = scan_rows env jobs (scan_host (host_of env j) j s)

abbrev pub empty_scan : Scan
empty_scan = record { inflight = []; last_success = []; last_failure = [] }

unfoldable pub scan_prune_jobs : Env → List Job → Scan
scan_prune_jobs env jobs =
    if env.lists "prune"
    then scan_rows env (list_jobs (newest_of "prune") jobs) empty_scan
    else empty_scan

abbrev pub is_active : Job → Bool
is_active j = active j.state

-- A store that does not answer counts as active.
unfoldable pub migrate_or_evacuate_active : Env → List Job → Bool
migrate_or_evacuate_active env jobs =
    not (env.lists "migrate")
    || any is_active (list_jobs (newest_of "migrate") jobs)
    || not (env.lists "evacuate")
    || any is_active (list_jobs (newest_of "evacuate") jobs)

unfoldable pub without_scope : List String → String → List String
without_scope scopes drop = keep (λ s. not (s == drop)) scopes

-- Whether a probe is due; where it is, its time is recorded.
unfoldable pub probe_due : String → ℕ → List (String × ℕ) → Bool × List (String × ℕ)
probe_due host now probes = elim (get probes host) [
  | none ↦ (true, put host now probes)
  | some last ↦
      if ltb (now - last) threshold_probe_interval
      then (false, probes)
      else (true, put host now probes)
]

-- The last outcome was a failure, less than an hour ago.
unfoldable pub is_backing_off : ℕ → String → Scan → Bool
is_backing_off now host scan = elim (get scan.last_failure host) [
  | none ↦ false
  | some lf ↦
      ltb (now - lf) failure_backoff
      && elim (get scan.last_success host) [ none ↦ true | some ls ↦ ltb ls lf ]
]

unfoldable pub is_due : ℕ → String → Policy → Scan → Bool
is_due now host p scan = is_above 0 p.interval && elim (get scan.last_success host) [
  | none ↦ true
  | some last ↦ leb (magnitude p.interval) (now - last)
]

-- The disk test, where it is asked for; none where the host does not answer.
abbrev pub over_threshold : Env → String → Policy → Option Bool
over_threshold env host p = elim (env.host_info host) [
  | none ↦ none
  | some disk ↦ some (ltb 0 disk.total && env.reaches disk (magnitude p.disk_threshold))
]

unfoldable pub payload_for : Bool → HostPolicy → Payload
payload_for migrate_active hp = record {
  host = hp.host;
  policy =
      if migrate_active && has_scope hp.policy scope_volumes
      then record (hp.policy) { scope = without_scope hp.policy.scope scope_volumes }
      else hp.policy;
}

-- Marshal, then enqueue; both may fail, and the loop goes on.
unfoldable pub enqueue_prune : Env → Bool → HostPolicy → List Job → List Job
enqueue_prune env migrate_active hp jobs = elim (env.marshal (payload_for migrate_active hp)) [
  | none ↦ jobs
  | some args ↦
      if env.accepts hp.host
      then (enqueue (env.id_for hp.host) env.now "prune" args "" jobs).0
      else jobs
]

-- The tail of the loop's body, from the interval gate on.
unfoldable pub trigger : Env → Scan → Bool → HostPolicy → State → State
unfolding enqueue_prune
trigger env scan migrate_active hp s =
    let enqueued : State → State =
      λ t. record t { jobs = enqueue_prune env migrate_active hp t.jobs } in
    if is_due env.now hp.host hp.policy scan
    then enqueued s
    else if not (is_above 0 hp.policy.disk_threshold)
    then s
    else (let (probes, last_probe) = probe_due hp.host env.now s.last_probe in
        let t : State = record s { last_probe = last_probe } in
        if not probes then s else elim (over_threshold env hp.host hp.policy) [
          | none ↦ t
          | some over ↦ if over then enqueued t else t
        ])

abbrev pub is_skipped : Env → Scan → HostPolicy → Bool
is_skipped env scan hp =
    not hp.policy.enabled
    || not (env.knows hp.host)
    || contains scan.inflight hp.host
    || is_backing_off env.now hp.host scan

-- The loop's body for one host.
unfoldable pub visit : Env → Scan → Bool → HostPolicy → State → State
visit env scan migrate_active hp s =
    if is_skipped env scan hp then s else trigger env scan migrate_active hp s

unfoldable pub tick_hosts : Env → Scan → Bool → List HostPolicy → State → State
tick_hosts env scan migrate_active [] s = s
tick_hosts env scan migrate_active (hp ∷ hosts) s =
    tick_hosts env scan migrate_active hosts (visit env scan migrate_active hp s)

abbrev is_enabled : HostPolicy → Bool
is_enabled hp = hp.policy.enabled

unfoldable pub tick : Env → List HostPolicy → State → State
tick env hosts s =
    if any is_enabled hosts
    then tick_hosts env (scan_prune_jobs env s.jobs) (migrate_or_evacuate_active env s.jobs) hosts s
    else s
