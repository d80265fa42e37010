-- ===== src/Runner/Pool/Recovery.antt =====
-- internal/jobs/runner.go, Start: the workers of the pool, and the store after a restart.
use podman_api.Common.{
  ℕ, suc, ◌+◌, ◌-◌, ◌<◌, ◌≡◌, refl, ap, ◌∙◌, Bool, true, false, List, [], ◌∷◌, ◌++◌, map, String,
  arith, contains, string_eq, ◌==◌, if◌then◌else◌, count, count-append, ◌⊎◌, zero, replicate,
  update_all_lem, Bool-cases, inl, inr,
}
use mathlib.Core.Path.{ap₂}
use podman_api.Store.Job.{Job, running, reconciling, failed, JobState_eq}
use podman_api.Store.Jobs.{
  fail_running, mark_reconciling, ended, is_running, is_running_of, to_reconciling,
}
use podman_api.Runner.Pool.{
  Config, Worker, start, start_workers, recover, reserved, general, unsplit, is_split,
}

-- What a restart does to one row.
abbrev pub recovered : List String → ℕ → Job → Job
recovered reconcilable now j =
    if j.state == running
    then (if contains reconcilable j.kind
        then record j { state = reconciling }
        else record j { state = failed; error = "interrupted by daemon restart"; finished = now })
    else j

mark_none :
    (jobs : List Job) → jobs ≡ map (λ j. if is_running_of [] j then to_reconciling j else j) jobs
mark_none [] = refl
mark_none (j ∷ jobs) = ground (arith, mark_none jobs)

mark_lem :
    (kinds : List String) (jobs : List Job)
    → (mark_reconciling kinds jobs).0
      ≡ map (λ j. if is_running_of kinds j then to_reconciling j else j) jobs
unfolding mark_reconciling
mark_lem [] jobs = mark_none jobs
mark_lem (k ∷ kinds) jobs =
    ap (λ r. r.0) (update_all_lem (is_running_of (k ∷ kinds)) to_reconciling jobs)

abbrev interrupted : String
interrupted = "interrupted by daemon restart"

fail_lem :
    (now : ℕ) (jobs : List Job)
    → (fail_running interrupted now jobs).0
      ≡ map (λ j. if is_running j then ended failed interrupted now j else j) jobs
unfolding fail_running
fail_lem now jobs = ap (λ r. r.0) (update_all_lem is_running (ended failed interrupted now) jobs)

two_passes :
    (reconcilable : List String) (now : ℕ) (jobs : List Job)
    → map
        (λ j. if is_running j then ended failed interrupted now j else j)
        (map (λ j. if is_running_of reconcilable j then to_reconciling j else j) jobs)
      ≡ map (recovered reconcilable now) jobs
two_passes reconcilable now [] = refl
two_passes reconcilable now (j ∷ jobs) = ap₂ ◌∷◌ (ground arith) (two_passes reconcilable now jobs)

recover-map :
    (reconcilable : List String) (now : ℕ) (jobs : List Job)
    → recover reconcilable now jobs ≡ map (recovered reconcilable now) jobs
unfolding recover
recover-map reconcilable now jobs =
    ap (λ js. (fail_running interrupted now js).0) (mark_lem reconcilable jobs)
    ∙ fail_lem now _
    ∙ two_passes reconcilable now jobs

none_running :
    (reconcilable : List String) (now : ℕ) (jobs : List Job)
    → count is_running (map (recovered reconcilable now) jobs) ≡ 0
none_running reconcilable now [] = refl
none_running reconcilable now (j ∷ jobs) = ground (arith, none_running reconcilable now jobs)

-- A restart moves every running row of a kind with a reconciler to reconciling and fails every
-- other running row as interrupted, and changes nothing else: afterwards no row is running.
pub recover_lem :
    (reconcilable : List String) (now : ℕ) (jobs : List Job)
    → (recover reconcilable now jobs ≡ map (recovered reconcilable now) jobs)
      × (count is_running (recover reconcilable now jobs) ≡ 0)
recover_lem reconcilable now jobs = (
  recover-map reconcilable now jobs,
  ap (count is_running) (recover-map reconcilable now jobs) ∙ none_running reconcilable now jobs,
)

abbrev pub is_reserved : Worker → Bool
is_reserved (reserved kinds) = true
is_reserved _ = false

abbrev pub is_general : Worker → Bool
is_general (general kinds) = true
is_general _ = false

abbrev pub is_unsplit : Worker → Bool
is_unsplit unsplit = true
is_unsplit _ = false

count-replicate :
    (p : Worker → Bool) (n : ℕ) (w : Worker) → count p (replicate n w) ≡ (if p w then n else 0)
count-replicate p zero w = ground arith
count-replicate p (suc n) w = ground (arith, count-replicate p n w)

-- A pool that is whole, or split with a worker on either side.
abbrev pub IsPool : Config → List Worker → Type 0
IsPool c ws =
    (count is_unsplit ws ≡ c.workers)
    ⊎ ((count is_reserved ws ≡ c.volume_workers)
        × (0 < count is_reserved ws)
        × (0 < count is_general ws)
        × (count is_reserved ws + count is_general ws ≡ c.workers))

whole-IsPool : (c : Config) → IsPool c (replicate c.workers unsplit)
whole-IsPool c = inl (count-replicate is_unsplit c.workers unsplit)

split-IsPool :
    (kinds : List String) (c : Config)
    → is_split c ≡ true
    → IsPool c (
        replicate c.volume_workers (reserved kinds)
        ++ replicate (c.workers - c.volume_workers) (general kinds))
split-IsPool kinds c e =
    rw (count-append, count-append, count-append)
      (rw
        (
          count-replicate is_reserved c.volume_workers (reserved kinds),
          count-replicate is_reserved (c.workers - c.volume_workers) (general kinds),
          count-replicate is_general c.volume_workers (reserved kinds),
          count-replicate is_general (c.workers - c.volume_workers) (general kinds),
        )
        (inr (ground arith)))

start_workers-IsPool : (kinds : List String) (c : Config) → IsPool c (start_workers kinds c)
unfolding start_workers
start_workers-IsPool [] c = whole-IsPool c
start_workers-IsPool (k ∷ kinds) c = elim (Bool-cases (is_split c)) [
  | inl e ↦ rw e (split-IsPool (k ∷ kinds) c e)
  | inr e ↦ rw e (whole-IsPool c)
]

-- Start launches as many workers as are configured: all for every kind, or the reserved number for
-- the kinds of the sub-pool and the others for the rest, with at least one on either side.
pub start-IsPool : (c : Config) → IsPool c (start c)
unfolding start
start-IsPool c = start_workers-IsPool c.volume_kinds c
