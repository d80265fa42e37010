-- ===== src/Api/Jobs/Answers.antt =====
-- internal/api/jobs.go: what the answers of cancelJob say of the row.
use podman_api.Common.{◌≡◌, ◌⊎◌, true, false, List, String, string_eq}
use podman_api.Store.Job.{JobState_eq, Job, terminal}
use podman_api.Store.Jobs.{ok, err, StoreError, get_job}
use podman_api.Store.Jobs.Later.{Later}
use podman_api.Runner.Pool.{State, cancel}
use podman_api.Api.Jobs.{
  Handlers, Others, Response, jobs_disabled, not_found, found, accepted, job_terminal,
  job_not_cancelable,
}

-- The row with this id is there, and is as said.
abbrev pub Shows : String → (Job → Type 0) → List Job → Type 0
Shows id P jobs = (j : Job) × (get_job id jobs ≡ ok j) × P j

abbrev pub IsTerminal : Job → Type 0
IsTerminal j = terminal j.state ≡ true

-- The job was in flight, and its handler's context is canceled.
abbrev pub IsSignalled : Others → String → State → Type 0
IsSignalled o id t = (u : State) × ((cancel id u).1 ≡ true) × (t ≡ o.before_reread (cancel id u).0)

-- What an answer says, given the state before and after.
abbrev pub IsAnswer : Handlers → Others → String → State → State → Response → Type 0
IsAnswer h o id s t jobs_disabled = h.has_jobs ≡ false
IsAnswer h o id s t not_found = get_job id s.jobs ≡ err StoreError.not_found
IsAnswer h o id s t (found j) = ⊥
IsAnswer h o id s t (accepted j) = (get_job id t.jobs ≡ ok j) × (IsTerminal j ⊎ IsSignalled o id t)
IsAnswer h o id s t job_terminal = Shows id IsTerminal t.jobs
IsAnswer h o id s t job_not_cancelable = Shows id (λ j. terminal j.state ≡ false) t.jobs

-- Others change rows only as the store's calls do.
abbrev pub Keeps : (State → State) → Type 0
Keeps change = (s : State) → Later s.jobs (change s).jobs

module _ (h : Handlers) (o : Others) (id : String) (start : State) (j : Job)
    (there : get_job id start.jobs ≡ ok j) (keeps_last : Keeps o.before_reread) where
  abbrev Good : State × Response → Type 0
  Good r = Later start.jobs r.0.jobs × IsAnswer h o id start r.0 r.1
