-- ===== src/Store/Jobs/Lifecycle.antt =====
-- internal/store/jobs.go, memory.go: how a row may change over any history of store calls.
use podman_api.Common.{
  ℕ, ◌≡◌, refl, Bool, true, ◌||◌, List, [], ◌∷◌, String, arith, Bool-cases, Option-cases, inl, inr,
  string_eq, ◌==◌, update_first,
}
use podman_api.Store.Job.{
  JobState, queued, reconciling, succeeded, failed, JobState_eq, Job, JobStep, coalesce_step,
}
use podman_api.Store.Jobs.{
  enqueue, start_child, append_step, finish, fail_running, mark_reconciling, resolve_reconciling,
  cancel_reconciling, cancel_queued, is_queued, is_queued_of, is_queued_not_of, ended, canceled_at,
  to_reconciling, has_id, has_id_in, is_running, is_running_of, may_finish, change_result,
  swap_result,
}
use podman_api.Store.Jobs.Later.{
  phase, Later, Later-refl, Later-trans, Later-append, first-Later, claim-Later, update_all-Later,
  Advances, Evolves,
}
use podman_api.Store.Jobs.Claims.{Claim, claim, any, matching, excluding, claim-Claims}

-- The calls that write rows; `PruneJobs`, which deletes them, has a module of its own.
pub data Call : Type 0 where
  enqueues starts_child : String → ℕ → String → String → String → Call
  claims : Claim → Call
  appends_step : String → JobStep → Call
  finishes : String → JobState → String → ℕ → Call
  fails_running : String → ℕ → Call
  marks_reconciling : List String → Call
  resolves : String → JobState → String → ℕ → Call
  cancels_reconciling cancels_queued : String → ℕ → Call

unfoldable pub step : Call → List Job → List Job
step (enqueues id now kind args parent) js = (enqueue id now kind args parent js).0
step (starts_child id now kind args parent) js = (start_child id now kind args parent js).0
step (claims c) js = (claim c js).0
step (appends_step id s) js = (append_step id s js).0
step (finishes id state message now) js = (finish id state message now js).0
step (fails_running reason now) js = (fail_running reason now js).0
step (marks_reconciling kinds) js = (mark_reconciling kinds js).0
step (resolves id state message now) js = (resolve_reconciling id state message now js).0
step (cancels_reconciling id now) js = (cancel_reconciling id now js).0
step (cancels_queued id now) js = (cancel_queued id now js).0

unfoldable pub run : List Call → List Job → List Job
run [] js = js
run (c ∷ cs) js = run cs (step c js)

ended-forward :
    (j : Job) (state : JobState) (message : String) (now : ℕ)
    → may_finish state ≡ true
    → Evolves j (ended state message now j)
unfolding phase
ended-forward j state message now e = ground arith

change-Later :
    (p : Job → Bool) (f : Job → Job) (js : List Job)
    → Advances p f
    → Later js (change_result js (update_first p f js)).0
change-Later p f js a = elim (Option-cases (update_first p f js)) [
  | inl e ↦ rw e (Later-refl js)
  | inr (r, e) ↦ rw e (rw e at (first-Later p f js a))
]

swap-Later :
    (p : Job → Bool) (f : Job → Job) (js : List Job)
    → Advances p f
    → Later js (swap_result js (update_first p f js)).0
swap-Later p f js a = elim (Option-cases (update_first p f js)) [
  | inl e ↦ rw e (Later-refl js)
  | inr (r, e) ↦ rw e (rw e at (first-Later p f js a))
]

add_step-forward :
    (s : JobStep) (j : Job) → Evolves j (record j { steps = coalesce_step j.steps s })
add_step-forward s j = ground arith

finish-Later :
    (id : String) (state : JobState) (message : String) (now : ℕ) (js : List Job)
    → Later js (finish id state message now js).0
unfolding finish
finish-Later id state message now js = elim (Bool-cases (may_finish state)) [
  | inl e ↦ rw e (
      change-Later (has_id id) (ended state message now) js
        (λ j _. ended-forward j state message now e))
  | inr e ↦ rw e (Later-refl js)
]

may_finish-resolves : (s : JobState) → (s == succeeded || s == failed) ≡ true → may_finish s ≡ true
may_finish-resolves s e = ground arith

resolve-Later :
    (id : String) (state : JobState) (message : String) (now : ℕ) (js : List Job)
    → Later js (resolve_reconciling id state message now js).0
unfolding resolve_reconciling
resolve-Later id state message now js = elim (Bool-cases (state == succeeded || state == failed)) [
  | inl e ↦ rw e (
      swap-Later (has_id_in id reconciling) (ended state message now) js
        (λ j _. ended-forward j state message now (may_finish-resolves state e)))
  | inr e ↦ rw e (Later-refl js)
]

canceled-forward : (j : Job) (now : ℕ) → Evolves j (canceled_at now j)
unfolding phase
canceled-forward j now = ground arith

mark-Later : (kinds : List String) (js : List Job) → Later js (mark_reconciling kinds js).0
unfolding mark_reconciling phase
mark-Later [] js = Later-refl js
mark-Later (k ∷ kinds) js =
    update_all-Later (is_running_of (k ∷ kinds)) to_reconciling js (λ j e. ground arith)

claim-call-Later : (c : Claim) (js : List Job) → Later js (claim c js).0
unfolding claim phase
claim-call-Later (any now) js =
    claim-Later is_queued now js _ (λ j e. ground arith) (claim-Claims [] now js).0
claim-call-Later (matching kinds now) js =
    claim-Later (is_queued_of kinds) now js _ (λ j e. ground arith) (claim-Claims kinds now js).1
claim-call-Later (excluding kinds now) js =
    claim-Later (is_queued_not_of kinds) now js _ (λ j e. ground arith)
      (claim-Claims kinds now js).2

pub step-Later : (c : Call) (js : List Job) → Later js (step c js)
unfolding step enqueue start_child append_step fail_running cancel_reconciling cancel_queued phase
step-Later (enqueues id now kind args parent) js = Later-append js _
step-Later (starts_child id now kind args parent) js = Later-append js _
step-Later (claims c) js = claim-call-Later c js
step-Later (appends_step id s) js =
    change-Later (has_id id) (λ j. record j { steps = coalesce_step j.steps s }) js
      (λ j _. add_step-forward s j)
step-Later (finishes id state message now) js = finish-Later id state message now js
step-Later (fails_running reason now) js =
    update_all-Later is_running (ended failed reason now) js
      (λ j _. ended-forward j failed reason now refl)
step-Later (marks_reconciling kinds) js = mark-Later kinds js
step-Later (resolves id state message now) js = resolve-Later id state message now js
step-Later (cancels_reconciling id now) js =
    swap-Later (has_id_in id reconciling) (canceled_at now) js (λ j _. canceled-forward j now)
step-Later (cancels_queued id now) js =
    swap-Later (has_id_in id queued) (canceled_at now) js (λ j _. canceled-forward j now)

-- Over any history of the calls that write rows, but for PruneJobs, every row stays in its place
-- and keeps its id, kind, arguments, parent and creation time, and its state only goes forward:
-- queued, running, reconciling, terminal. New rows come at the end.
pub run-Later : (cs : List Call) (js : List Job) → Later js (run cs js)
unfolding run
run-Later [] js = Later-refl js
run-Later (c ∷ cs) js = Later-trans (step-Later c js) (run-Later cs (step c js))
