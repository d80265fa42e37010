-- ===== src/Runner/Pool/Running.antt =====
-- internal/jobs/runner.go, run and Cancel: what a run records.
use podman_api.Common.{
  ℕ, ◌≡◌, refl, ap, ◌∙◌, ◌||◌, Bool, true, false, Option, none, some, List, [], ◌∷◌, String, arith,
  contains, string_eq, ◌==◌, if◌then◌else◌, get, remove, get-put, get-remove,
}
use podman_api.Store.Job.{Job, JobState, succeeded, failed, canceled}
use podman_api.Store.Jobs.{finish}
use podman_api.Runner.Pool.{State, run_begin, run_end, cancel, outcome_of}

-- The cancel requests that arrive while the handler runs.
unfoldable pub cancel_each : List String → State → State
cancel_each [] s = s
cancel_each (id ∷ ids) s = cancel_each ids (cancel id s).0

abbrev pub is_requested : String → List String → Bool
is_requested id [] = false
is_requested id (r ∷ rs) = r == id || is_requested id rs

pub cancel-jobs : (id : String) (s : State) → (cancel id s).0.jobs ≡ s.jobs
unfolding cancel
cancel-jobs id s = ground arith

cancel-get :
    (id other : String) (s : State) (b : Bool)
    → get s.inflight other ≡ some b
    → get (cancel id s).0.inflight other ≡ some (id == other || b)
unfolding cancel
cancel-get id other s b h =
    ground (arith, get-put id other true s.inflight, string_eq.same_iff id other)

cancel_each-jobs : (ids : List String) (s : State) → (cancel_each ids s).jobs ≡ s.jobs
unfolding cancel_each
cancel_each-jobs [] s = refl
cancel_each-jobs (id ∷ ids) s = cancel_each-jobs ids (cancel id s).0 ∙ cancel-jobs id s

cancel_each-get :
    (ids : List String) (other : String) (s : State) (b : Bool)
    → get s.inflight other ≡ some b
    → get (cancel_each ids s).inflight other ≡ some (is_requested other ids || b)
unfolding cancel_each
cancel_each-get [] other s b h = h
cancel_each-get (id ∷ ids) other s b h =
    cancel_each-get ids other (cancel id s).0 (id == other || b) (cancel-get id other s b h)
    ∙ ground arith

-- What a run should record.
abbrev pub expected : Bool → Option String → JobState × String
expected canceled_by_operator error =
    if canceled_by_operator
    then (canceled, "canceled by operator")
    else elim error [ none ↦ (succeeded, "") | some message ↦ (failed, message) ]

outcome-expected : (b : Bool) (error : Option String) → outcome_of b error ≡ expected b error
outcome-expected true error = refl
outcome-expected false none = refl
outcome-expected false (some message) = refl

pub get-remove_self :
    {V : Type 0} (key : String) (entries : List (String × V)) → get (remove key entries) key ≡ none
get-remove_self key entries =
    get-remove key key entries
    ∙ ap (λ b. if b then none else get entries key) ((string_eq.same_iff key key).1 refl)

run_end-jobs :
    (job : Job) (error : Option String) (now : ℕ) (s : State) (b : Bool)
    → get s.inflight job.id ≡ some b
    → (run_end job error now s).jobs
      ≡ (finish job.id (expected b error).0 (expected b error).1 now s.jobs).0
unfolding run_end
run_end-jobs job error now s b e = rw (e, outcome-expected b error)

run_end-inflight :
    (job : Job) (error : Option String) (now : ℕ) (s : State)
    → get (run_end job error now s).inflight job.id ≡ none
unfolding run_end
run_end-inflight job error now s = get-remove_self job.id s.inflight

begun-get :
    (handlers : List String) (job : Job) (now : ℕ) (s : State)
    → contains handlers job.kind ≡ true
    → get (run_begin handlers job now s).inflight job.id ≡ some false
unfolding run_begin
begun-get handlers job now s known = rw known (
    get-put job.id job.id false s.inflight
    ∙ ap (λ b. if b then some false else get s.inflight job.id)
        ((string_eq.same_iff job.id job.id).1 refl))

begun-jobs :
    (handlers : List String) (job : Job) (now : ℕ) (s : State)
    → contains handlers job.kind ≡ true
    → (run_begin handlers job now s).jobs ≡ s.jobs
unfolding run_begin
begun-jobs handlers job now s known = rw known

-- A run of a job with a handler leaves the row finished once: canceled if any of the cancel
-- requests that came while the handler ran was for this job, whatever the handler returned, else
-- failed with the error of the handler, else succeeded; other requests leave no trace in the
-- store, and the job is no longer in flight. Here only cancel requests come while the handler
-- runs.
pub run_records :
    (handlers requests : List String) (job : Job) (error : Option String) (now later : ℕ)
    (s : State)
    → contains handlers job.kind ≡ true
    → let t = run_end job error later (cancel_each requests (run_begin handlers job now s)) in
      let (state, message) = expected (is_requested job.id requests) error in
      (t.jobs ≡ (finish job.id state message later s.jobs).0) × (get t.inflight job.id ≡ none)
run_records handlers requests job error now later s known = (
  run_end-jobs job error later u (is_requested job.id requests) marked
      ∙ ap
          (λ js.
            (finish job.id (expected (is_requested job.id requests) error).0
              (expected (is_requested job.id requests) error).1 later js).0)
          kept,
  run_end-inflight job error later u,
)
  where
    u : State
    u = cancel_each requests (run_begin handlers job now s)

    marked : get u.inflight job.id ≡ some (is_requested job.id requests)
    marked =
        cancel_each-get requests job.id (run_begin handlers job now s) false
          (begun-get handlers job now s known)
        ∙ ground arith

    kept : u.jobs ≡ s.jobs
    kept =
        cancel_each-jobs requests (run_begin handlers job now s)
        ∙ begun-jobs handlers job now s known
