-- ===== src/Runner/Pool/Coverage.antt =====
-- internal/jobs/runner.go, Start and claim: the workers together claim whatever is queued.
use podman_api.Common.{
  ℕ, suc, zero, ◌-◌, ◌<◌, ◌≡◌, true, Option, none, List, [], ◌∷◌, ◌++◌, String, arith, string_eq,
  All, Fails, replicate, Bool-cases, inl, inr, some,
}
use podman_api.Store.Job.{Job, JobState_eq}
use podman_api.Store.Jobs.{is_queued, is_queued_of, is_queued_not_of}
use podman_api.Store.Jobs.Claims.{claim-Claims, Claims-none, pools_cover_row}
use podman_api.Runner.Rotation.{Rotation, order, claim_rotating, Claimed}
use podman_api.Runner.Rotation.Order.{order-All}
use podman_api.Runner.Rotation.Served.{IsIdle, Outcome, claim_rotating-Outcome}
use podman_api.Runner.Pool.{
  Config, Worker, start, start_workers, claim, reserved, general, unsplit, is_split,
}

abbrev pub FindsNothing : Rotation → ℕ → List Job → Worker → Type 0
FindsNothing r now jobs w = (claim w r now jobs).job ≡ none

IsIdle-of_none :
    (r : Rotation) (kinds : List String) (now : ℕ) (jobs : List Job) (c : Claimed) (o : Option Job)
    → Outcome r kinds now jobs c o
    → o ≡ none
    → All (IsIdle jobs) kinds
IsIdle-of_none r kinds now jobs c none h e = h.idle
IsIdle-of_none r kinds now jobs c (some j) h e = absurd (ground arith)

nothing_queued : (jobs : List Job) → All (Fails (is_queued_of [])) jobs
nothing_queued [] = tt
nothing_queued (j ∷ jobs) = (ground arith, nothing_queued jobs)

one_kind_more :
    (k : String) (kinds : List String) (jobs : List Job)
    → IsIdle jobs k
    → All (Fails (is_queued_of kinds)) jobs
    → All (Fails (is_queued_of (k ∷ kinds))) jobs
one_kind_more k kinds [] h hs = tt
one_kind_more k kinds (j ∷ jobs) h hs =
    (ground (arith, h.0, hs.0), one_kind_more k kinds jobs h.1 hs.1)

kinds_exhausted :
    (kinds : List String) (jobs : List Job)
    → All (IsIdle jobs) kinds
    → All (Fails (is_queued_of kinds)) jobs
kinds_exhausted [] jobs h = nothing_queued jobs
kinds_exhausted (k ∷ kinds) jobs h = one_kind_more k kinds jobs h.0 (kinds_exhausted kinds jobs h.1)

reserved_exhausted :
    (r : Rotation) (kinds : List String) (now : ℕ) (jobs : List Job)
    → FindsNothing r now jobs (reserved kinds)
    → All (Fails (is_queued_of kinds)) jobs
unfolding claim
reserved_exhausted r kinds now jobs h = kinds_exhausted kinds jobs (
    order-All (IsIdle jobs) r kinds (
      IsIdle-of_none r (order r kinds) now jobs (claim_rotating r kinds now jobs) _
        (claim_rotating-Outcome r kinds now jobs) h))

general_exhausted :
    (r : Rotation) (kinds : List String) (now : ℕ) (jobs : List Job)
    → FindsNothing r now jobs (general kinds)
    → All (Fails (is_queued_not_of kinds)) jobs
unfolding claim
general_exhausted r kinds now jobs h =
    Claims-none (is_queued_not_of kinds) now jobs _ (claim-Claims kinds now jobs).2 h

unsplit_exhausted :
    (r : Rotation) (now : ℕ) (jobs : List Job)
    → FindsNothing r now jobs unsplit
    → All (Fails is_queued) jobs
unfolding claim
unsplit_exhausted r now jobs h = Claims-none is_queued now jobs _ (claim-Claims [] now jobs).0 h

replicate-head : (P : Worker → Type 0) (n : ℕ) (w : Worker) → 0 < n → All P (replicate n w) → P w
replicate-head P zero w h a = absurd (omega arith)
replicate-head P (suc n) w h a = a.0

All-split :
    (P : Worker → Type 0) (front back : List Worker)
    → All P (front ++ back)
    → All P front × All P back
All-split P [] back h = (tt, h)
All-split P (w ∷ front) back h =
    let (others, rest) = All-split P front back h.1 in ((h.0, others), rest)

split_positive :
    (c : Config) → is_split c ≡ true → (0 < c.volume_workers) × (0 < c.workers - c.volume_workers)
split_positive c e = (ground arith, ground arith)

start_workers-cover :
    (kinds : List String) (c : Config) (r : Rotation) (now : ℕ) (jobs : List Job)
    → 0 < c.workers
    → All (FindsNothing r now jobs) (start_workers kinds c)
    → All (Fails is_queued) jobs
unfolding start_workers
start_workers-cover [] c r now jobs some_worker h =
    unsplit_exhausted r now jobs
      (replicate-head (FindsNothing r now jobs) c.workers unsplit some_worker h)
start_workers-cover (k ∷ kinds) c r now jobs some_worker h = elim (Bool-cases (is_split c)) [
  | inl e ↦
      let (one, other) = split_positive c e in
      let (front, back) =
        All-split (FindsNothing r now jobs) (replicate c.volume_workers (reserved (k ∷ kinds))) _
          (rw e at h) in
      pools_cover_row (k ∷ kinds) jobs
        (reserved_exhausted r (k ∷ kinds) now jobs
          (replicate-head (FindsNothing r now jobs) c.volume_workers _ one front))
        (general_exhausted r (k ∷ kinds) now jobs
          (replicate-head (FindsNothing r now jobs) (c.workers - c.volume_workers) _ other back))
  | inr e ↦
      unsplit_exhausted r now jobs
        (replicate-head (FindsNothing r now jobs) c.workers unsplit some_worker (rw e at h))
]

-- Where the configured number of workers is positive and none of the workers that Start launches,
-- the pool split or whole, finds a row to claim, no row of any kind is queued.
pub pool_covers :
    (c : Config) (r : Rotation) (now : ℕ) (jobs : List Job)
    → 0 < c.workers
    → All (FindsNothing r now jobs) (start c)
    → All (Fails is_queued) jobs
unfolding start
pool_covers c r now jobs some_worker h =
    start_workers-cover c.volume_kinds c r now jobs some_worker h
