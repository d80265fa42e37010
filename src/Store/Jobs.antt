-- ===== src/Store/Jobs.antt =====
-- internal/store/memory.go: the job half of the in-memory store. The state is the slice `m.jobs`,
-- oldest first; each method holds the store's mutex for its whole body, so it is one step. The id
-- that `newJobID` draws and the time that `time.Now` reads are arguments. Rows are values here, so
-- the deep copies of `cloneJob` have nothing to do.
pub mod Claims
pub mod Later
pub mod Lifecycle
pub mod Races
pub mod Listing
pub mod Pruning
use podman_api.Common.{
  sort, ℕ, ◌+◌, Bool, true, false, not, ◌&&◌, ◌||◌, Option, none, some, List, [], ◌∷◌, ◌++◌, String,
  nat_eq, string_eq, ◌==◌, ltb, str_gt, contains, if◌then◌else◌, take, keep, update_first,
  update_all, suc,
}
use podman_api.Store.Job.{
  JobState, queued, running, reconciling, succeeded, failed, canceled, JobState_eq, terminal,
  JobStep, Job, JobFilter, clamp_job_limit, coalesce_step,
}

pub data StoreError : Type 0 where
  not_found : StoreError
  invalid_terminal_state : JobState → StoreError

pub data Result (A : Type 0) : Type 0 where
  ok : A → Result A
  err : StoreError → Result A

-- `len(args) == 0` stands for an absent body.
abbrev args_or_null : String → String
args_or_null args = if args == "" then "null" else args

unfoldable pub enqueue : String → ℕ → String → String → String → List Job → List Job × Job
enqueue id now kind args parent_id jobs = (jobs ++ job ∷ [], job)
  where
    job : Job
    job = record {
      id = id;
      kind = kind;
      args = args_or_null args;
      state = queued;
      steps = [];
      parent_id = parent_id;
      error = "";
      created = now;
      started = 0;
      finished = 0;
    }

unfoldable pub start_child : String → ℕ → String → String → String → List Job → List Job × Job
start_child id now kind args parent_id jobs = (jobs ++ job ∷ [], job)
  where
    job : Job
    job = record {
      id = id;
      kind = kind;
      args = args_or_null args;
      state = running;
      steps = [];
      parent_id = parent_id;
      error = "";
      created = now;
      started = now;
      finished = 0;
    }

unfoldable pub get_job : String → List Job → Result Job
get_job id [] = err not_found
get_job id (j ∷ jobs) = if j.id == id then ok j else get_job id jobs

-- The four `continue` tests of `ListJobs`.
unfoldable pub matches_filter : JobFilter → Job → Bool
matches_filter f j =
    state_matches f.state
    && (f.kind == "" || j.kind == f.kind)
    && (f.parent_id == "" || j.parent_id == f.parent_id)
    && (f.before == "" || str_gt f.before j.id)
  where
    state_matches : Option JobState → Bool
    state_matches none = true
    state_matches (some s) = j.state == s

-- The order of `sort.Slice` by descending id. Ids are unique, so every correct sort agrees.
abbrev pub is_older_row : Job → Job → Bool
is_older_row j k = str_gt k.id j.id

unfoldable pub list_jobs : JobFilter → List Job → List Job
list_jobs f jobs = take (clamp_job_limit f.limit) (sort is_older_row (keep (matches_filter f) jobs))

-- The loop that the three claims share: the first row that passes starts to run.
abbrev pub claimed : ℕ → Job → Job
claimed now j = record j { state = running; started = now }

abbrev pub claim_result : List Job → Option (Job × List Job) → List Job × Option Job
claim_result jobs none = (jobs, none)
claim_result jobs (some (j, jobs')) = (jobs', some j)

unfoldable pub claim_where : (Job → Bool) → ℕ → List Job → List Job × Option Job
claim_where p now jobs = claim_result jobs (update_first p (claimed now) jobs)

abbrev pub is_queued : Job → Bool
is_queued j = j.state == queued

abbrev pub is_queued_of : List String → Job → Bool
is_queued_of kinds j = j.state == queued && contains kinds j.kind

abbrev pub is_queued_not_of : List String → Job → Bool
is_queued_not_of kinds j = j.state == queued && not (contains kinds j.kind)

unfoldable pub claim_next : ℕ → List Job → List Job × Option Job
claim_next now jobs = claim_where is_queued now jobs

unfoldable pub claim_next_matching : List String → ℕ → List Job → List Job × Option Job
claim_next_matching [] now jobs = (jobs, none)
claim_next_matching (k ∷ kinds) now jobs = claim_where (is_queued_of (k ∷ kinds)) now jobs

unfoldable pub claim_next_excluding : List String → ℕ → List Job → List Job × Option Job
claim_next_excluding kinds now jobs = claim_where (is_queued_not_of kinds) now jobs

abbrev pub change_result : List Job → Option (Job × List Job) → List Job × Option StoreError
change_result jobs none = (jobs, some not_found)
change_result jobs (some (j, jobs')) = (jobs', none)

abbrev pub has_id : String → Job → Bool
has_id id j = j.id == id

-- `none` is Go's nil error.
unfoldable pub append_step : String → JobStep → List Job → List Job × Option StoreError
append_step id step jobs =
    change_result jobs
      (update_first (has_id id) (λ j. record j { steps = coalesce_step j.steps step }) jobs)

abbrev pub ended : JobState → String → ℕ → Job → Job
ended state message now j = record j { state = state; error = message; finished = now }

abbrev pub may_finish : JobState → Bool
may_finish s = s == succeeded || s == failed || s == canceled

unfoldable pub finish : String → JobState → String → ℕ → List Job → List Job × Option StoreError
finish id state message now jobs =
    if may_finish state
    then change_result jobs (update_first (has_id id) (ended state message now) jobs)
    else (jobs, some (invalid_terminal_state state))

abbrev pub is_running : Job → Bool
is_running j = j.state == running

unfoldable pub fail_running : String → ℕ → List Job → List Job × ℕ
fail_running reason now jobs = update_all is_running (ended failed reason now) jobs

abbrev pub is_running_of : List String → Job → Bool
is_running_of kinds j = j.state == running && contains kinds j.kind

abbrev pub to_reconciling : Job → Job
to_reconciling j = record j { state = reconciling }

unfoldable pub mark_reconciling : List String → List Job → List Job × ℕ
mark_reconciling [] jobs = (jobs, 0)
mark_reconciling (k ∷ kinds) jobs = update_all (is_running_of (k ∷ kinds)) to_reconciling jobs

-- A compare-and-swap: whether it took place.
abbrev pub swap_result : List Job → Option (Job × List Job) → List Job × Bool
swap_result jobs none = (jobs, false)
swap_result jobs (some (j, jobs')) = (jobs', true)

abbrev pub has_id_in : String → JobState → Job → Bool
has_id_in id s j = j.id == id && j.state == s

abbrev pub ok_swap : List Job × Bool → List Job × Result Bool
ok_swap (jobs, swapped) = (jobs, ok swapped)

unfoldable pub resolve_reconciling :
    String → JobState → String → ℕ → List Job → List Job × Result Bool
resolve_reconciling id state message now jobs =
    if state == succeeded || state == failed
    then ok_swap
        (swap_result jobs (update_first (has_id_in id reconciling) (ended state message now) jobs))
    else (jobs, err (invalid_terminal_state state))

abbrev pub canceled_at : ℕ → Job → Job
canceled_at now j = record j { state = canceled; finished = now }

unfoldable pub cancel_reconciling : String → ℕ → List Job → List Job × Bool
cancel_reconciling id now jobs =
    swap_result jobs (update_first (has_id_in id reconciling) (canceled_at now) jobs)

unfoldable pub cancel_queued : String → ℕ → List Job → List Job × Bool
cancel_queued id now jobs =
    swap_result jobs (update_first (has_id_in id queued) (canceled_at now) jobs)

-- `terminal(j) && isOld(j)`.
abbrev pub is_expired : ℕ → Job → Bool
is_expired older_than j = terminal j.state && (not (j.finished == 0) && ltb j.finished older_than)

abbrev pub is_child : Job → Bool
is_child j = not (j.parent_id == "")

-- `referenced[id]`.
unfoldable pub referenced : List Job → String → Bool
referenced [] id = false
referenced (j ∷ jobs) id = (is_child j && j.parent_id == id) || referenced jobs id

-- One pass of the pruning loop: the rows that are kept, and how many were dropped.
unfoldable pub sweep : (Job → Bool) → List Job → List Job × ℕ
sweep drops [] = ([], 0)
sweep drops (j ∷ jobs) =
    let (kept, deleted) = sweep drops jobs in
    if drops j then (kept, suc deleted) else (j ∷ kept, deleted)

abbrev pub is_expired_child : ℕ → Job → Bool
is_expired_child older_than j = is_child j && is_expired older_than j

abbrev pub is_expired_unreferenced : ℕ → List Job → Job → Bool
is_expired_unreferenced older_than survivors j =
    is_expired older_than j && not (referenced survivors j.id)

unfoldable pub prune_jobs : ℕ → List Job → List Job × ℕ
unfolding sweep referenced
prune_jobs older_than jobs =
    let (survivors, children) = sweep (is_expired_child older_than) jobs in
    let (kept, others) = sweep (is_expired_unreferenced older_than survivors) survivors in
    (kept, children + others)
