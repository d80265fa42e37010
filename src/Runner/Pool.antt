-- ===== src/Runner/Pool.antt =====
-- internal/jobs/runner.go: the pool, boot recovery, one run of a job and its cancellation.
--
-- The state is the job store and the map of in-flight jobs. A handler is what it leaves: the state
-- at its return, which others may have changed meanwhile, and its error.
pub mod Recovery
pub mod Running
pub mod Coverage
pub mod Reconciling
use Prim.Native.String
use podman_api.Common.{
  ℕ, suc, ◌+◌, ◌-◌, ◌≡◌, Bool, true, false, ◌&&◌, not, Option, none, some, List, [], ◌∷◌, ◌++◌,
  String, string_eq, ◌==◌, ltb, leb, if◌then◌else◌, contains, get, put, remove, replicate, is_some,
}
use podman_api.Store.Job.{Job, JobState, succeeded, failed, canceled}
use podman_api.Runner.Rotation.{Rotation, Claimed, claim_rotating}
use podman_api.Store.Jobs.{
  claim_next, claim_next_excluding, finish, fail_running, mark_reconciling, resolve_reconciling,
}

-- The value of an entry is whether an operator has canceled the job.
pub record State : Type 0 where
  pub jobs : List Job
  pub inflight : List (String × Bool)

abbrev pub default_workers : ℕ
default_workers = 8

-- A Go `int` below 1 acts as 0.
pub record Config : Type 0 where
  pub workers : ℕ
  pub volume_kinds : List String
  pub volume_workers : ℕ

unfoldable pub new_runner : ℕ → Config
new_runner workers = record {
  workers = if leb workers 0 then default_workers else workers;
  volume_kinds = [];
  volume_workers = 0;
}

unfoldable pub set_volume_transfer_pool : List String → ℕ → Config → Config
set_volume_transfer_pool [] workers c = c
set_volume_transfer_pool (k ∷ kinds) workers c =
    if leb workers 0 then c else record c { volume_kinds = k ∷ kinds; volume_workers = workers }

-- What a worker may claim: any kind, only these, or all but these.
pub data Worker : Type 0 where
  unsplit : Worker
  reserved general : List String → Worker

abbrev pub is_split : Config → Bool
is_split c = ltb 0 c.volume_workers && ltb c.volume_workers c.workers

-- The workers that `Start` launches.
unfoldable pub start_workers : List String → Config → List Worker
start_workers [] c = replicate c.workers unsplit
start_workers (k ∷ kinds) c =
    if is_split c
    then replicate c.volume_workers (reserved (k ∷ kinds))
      ++ replicate (c.workers - c.volume_workers) (general (k ∷ kinds))
    else replicate c.workers unsplit

-- A worker's claim, with the rotation that the reserved workers share.
unfoldable pub claim : Worker → Rotation → ℕ → List Job → Claimed
claim unsplit r now jobs =
    let answer = claim_next now jobs in record { rotation = r; jobs = answer.0; job = answer.1 }
claim (reserved kinds) r now jobs = claim_rotating r kinds now jobs
claim (general kinds) r now jobs =
    let answer = claim_next_excluding kinds now jobs in
    record { rotation = r; jobs = answer.0; job = answer.1 }

unfoldable pub start : Config → List Worker
unfolding start_workers
start c = start_workers c.volume_kinds c

-- Boot recovery: what `Start` does to the store before any worker runs.
unfoldable pub recover : List String → ℕ → List Job → List Job
recover reconcilable now jobs =
    (fail_running "interrupted by daemon restart" now (mark_reconciling reconcilable jobs).0).0

-- Whether the job was in flight: its entry is marked, and its handler's context is canceled.
unfoldable pub cancel : String → State → State × Bool
cancel id s =
    if is_some (get s.inflight id)
    then (record s { inflight = put id true s.inflight }, true)
    else (s, false)

abbrev finished : String → JobState → String → ℕ → State → State
finished id state message now s = record s { jobs = (finish id state message now s.jobs).0 }

-- `run` up to the handler's call. The handler itself runs only if this registered the job.
unfoldable pub run_begin : List String → Job → ℕ → State → State
run_begin handlers job now s =
    if contains handlers job.kind
    then record s { inflight = put job.id false s.inflight }
    else finished job.id failed (String.◌++◌ "no handler for kind " job.kind) now s

abbrev pub is_canceled : Option Bool → Bool
is_canceled none = false
is_canceled (some marked) = marked

abbrev pub outcome_of : Bool → Option String → JobState × String
outcome_of true error = (canceled, "canceled by operator")
outcome_of false (some message) = (failed, message)
outcome_of false none = (succeeded, "")

-- `run` from the handler's return.
unfoldable pub run_end : Job → Option String → ℕ → State → State
run_end job error now s =
    let (state, message) = outcome_of (is_canceled (get s.inflight job.id)) error in
    finished job.id state message now (record s { inflight = remove job.id s.inflight })

-- What a reconciler returns.
pub record Verdict : Type 0 where
  pub state : JobState
  pub message : String
  pub resolved : Bool
  pub error : Option String

unfoldable pub reconcile_begin : Job → State → State
reconcile_begin job s = record s { inflight = put job.id false s.inflight }

unfoldable pub reconcile_end : Job → Verdict → ℕ → State → State
reconcile_end job v now s =
    let t : State = record s { inflight = remove job.id s.inflight } in
    if is_some v.error
    then t
    else if not v.resolved
    then t
    else record t { jobs = (resolve_reconciling job.id v.state v.message now t.jobs).0 }
