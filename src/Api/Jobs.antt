-- ===== src/Api/Jobs.antt =====
-- internal/api/jobs.go: getJob and cancelJob with writeCancelConflict and writeAcceptedJob, over the
-- in-memory store, whose calls here fail only for want of the row. The state is the runner's: the
-- rows and the jobs in flight. Between two calls of a handler others may change it.
pub mod Answers
use podman_api.Common.{ℕ, Bool, true, false, String, if◌then◌else◌}
use podman_api.Store.Job.{JobState, queued, running, reconciling, succeeded, failed, canceled, Job}
use podman_api.Store.Jobs.{Result, ok, err, get_job, cancel_reconciling, cancel_queued}
use podman_api.Runner.Pool.{State, cancel}

-- Whether there is a job store, and a runner to cancel jobs in flight.
pub record Handlers : Type 0 where
  pub has_jobs : Bool
  pub has_canceller : Bool

pub data Response : Type 0 where
  jobs_disabled not_found job_terminal job_not_cancelable : Response
  found accepted : Job → Response

-- What others do after the first read, after a swap, and before the row is read again.
pub record Others : Type 0 where
  pub after_read : State → State
  pub after_swap : State → State
  pub before_reread : State → State

abbrev pub found_or : Result Job → Response
found_or (ok j) = found j
found_or (err e) = not_found

unfoldable pub get_job_response : Handlers → String → State → Response
get_job_response h id s = if h.has_jobs then found_or (get_job id s.jobs) else jobs_disabled

abbrev pub conflict_of : JobState → Response
conflict_of succeeded = job_terminal
conflict_of failed = job_terminal
conflict_of canceled = job_terminal
conflict_of _ = job_not_cancelable

abbrev pub conflict_or : Result Job → Response
conflict_or (ok j) = conflict_of j.state
conflict_or (err e) = not_found

unfoldable pub write_cancel_conflict : String → State → Response
write_cancel_conflict id s = conflict_or (get_job id s.jobs)

abbrev pub accepted_or : Result Job → Response
accepted_or (ok j) = accepted j
accepted_or (err e) = not_found

unfoldable pub write_accepted_job : String → State → Response
write_accepted_job id s = accepted_or (get_job id s.jobs)

-- The answer after the row is read again.
abbrev pub reread : Others → Bool → String → State → State × Response
reread o taken id s =
    let t = o.before_reread s in
    (t, if taken then write_accepted_job id t else write_cancel_conflict id t)

-- `h.canceller != nil && h.canceller.Cancel(id)`.
abbrev pub try_cancel : Bool → String → State → State × Bool
try_cancel true id s = cancel id s
try_cancel false id s = (s, false)

-- A job that runs is canceled through the runner.
unfoldable pub interrupt : Handlers → Others → String → State → State × Response
unfolding write_cancel_conflict write_accepted_job
interrupt h o id s = let (t, hit) = try_cancel h.has_canceller id s in reread o hit id t

-- After the swap from reconciling: if it was won, an attempt in flight is interrupted.
abbrev pub after_reconciling : Handlers → Others → String → State → Bool → State × Response
after_reconciling h o id s true =
    reread o true id (try_cancel h.has_canceller id (o.after_swap s)).0
after_reconciling h o id s false = reread o false id s

-- After the swap from queued: if it was lost, the job may run by now.
abbrev pub after_queued : Handlers → Others → String → State → Bool → State × Response
after_queued h o id s true = reread o true id s
after_queued h o id s false = interrupt h o id (o.after_swap s)

-- The switch on the state that was read.
unfoldable pub cancel_in : Handlers → Others → String → ℕ → JobState → State → State × Response
unfolding interrupt
cancel_in h o id now running s = interrupt h o id s
cancel_in h o id now reconciling s =
    let (jobs, won) = cancel_reconciling id now s.jobs in
    after_reconciling h o id (record s { jobs = jobs }) won
cancel_in h o id now queued s =
    let (jobs, won) = cancel_queued id now s.jobs in
    after_queued h o id (record s { jobs = jobs }) won
cancel_in h o id now _ s = (s, job_terminal)

abbrev pub cancel_read : Handlers → Others → String → ℕ → State → Result Job → State × Response
cancel_read h o id now s (err e) = (s, not_found)
cancel_read h o id now s (ok j) = cancel_in h o id now j.state (o.after_read s)

unfoldable pub cancel_job : Handlers → Others → String → ℕ → State → State × Response
unfolding cancel_in
cancel_job h o id now s =
    if h.has_jobs then cancel_read h o id now s (get_job id s.jobs) else (s, jobs_disabled)
