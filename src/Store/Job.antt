-- ===== src/Store/Job.antt =====
-- internal/store/jobs.go: job states, rows, filters and the coalescing of progress steps.
--
-- A `time.Time` is the number of nanoseconds since year 1, so Go's zero time is 0. `Args` is the
-- raw JSON text.
use podman_api.Common.{
  ℕ, ◌+◌, ◌≡◌, Bool, true, false, not, ◌&&◌, ◌||◌, ◌↔◌, Option, List, [], ◌∷◌, String, arith, Eq,
  nat_eq, string_eq, ◌==◌, leb, ltb, if◌then◌else◌,
}

pub data JobState : Type 0 where
  queued running reconciling succeeded failed canceled : JobState

abbrev state_beq : JobState → JobState → Bool
state_beq queued queued = true
state_beq running running = true
state_beq reconciling reconciling = true
state_beq succeeded succeeded = true
state_beq failed failed = true
state_beq canceled canceled = true
state_beq _ _ = false

pub state_beq_iff : (a b : JobState) → (state_beq a b ≡ true) ↔ (a ≡ b)
state_beq_iff a b = ground arith

instance abbrev pub JobState_eq : Eq JobState
JobState_eq = record { same = state_beq; same_iff = state_beq_iff }

unfoldable pub active : JobState → Bool
active s = s == queued || s == running || s == reconciling

unfoldable pub terminal : JobState → Bool
unfolding active
terminal s = not (active s)

pub record JobStep : Type 0 where
  pub ts : ℕ
  pub step : String
  pub detail : String
  pub count : ℕ

pub record Job : Type 0 where
  pub id : String
  pub kind : String
  pub args : String
  pub state : JobState
  pub steps : List JobStep
  pub parent_id : String
  pub error : String
  pub created : ℕ
  pub started : ℕ
  pub finished : ℕ

-- An absent state is Go's `State: ""`, which matches any. The limit is a Go `int`, of which every
-- value below 1 acts as 0 does, so it is a natural number here.
pub record JobFilter : Type 0 where
  pub state : Option JobState
  pub kind : String
  pub parent_id : String
  pub limit : ℕ
  pub before : String

abbrev pub default_job_limit : ℕ
default_job_limit = 100

abbrev pub max_job_limit : ℕ
max_job_limit = 1000

-- A negative Go `int` takes the same branch as 0.
unfoldable pub clamp_job_limit : ℕ → ℕ
clamp_job_limit n =
    if leb n 0 then default_job_limit else if ltb max_job_limit n then max_job_limit else n

-- One more occurrence of the last step: a count of 0 stands for a single one.
unfoldable pub bump_step : JobStep → JobStep → JobStep
bump_step last new = record last {
  count = (if last.count == 0 then 1 else last.count) + 1;
  ts = new.ts;
}

abbrev pub same_step : JobStep → JobStep → Bool
same_step last new = last.step == new.step && last.detail == new.detail

-- The slice is walked to its last element, which is the one that Go indexes.
unfoldable pub coalesce_step : List JobStep → JobStep → List JobStep
unfolding bump_step
coalesce_step [] new = new ∷ []
coalesce_step (last ∷ []) new =
    if same_step last new then bump_step last new ∷ [] else last ∷ new ∷ []
coalesce_step (s ∷ t ∷ rest) new = s ∷ coalesce_step (t ∷ rest) new
