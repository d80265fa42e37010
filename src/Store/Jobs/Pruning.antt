-- ===== src/Store/Jobs/Pruning.antt =====
-- internal/store/memory.go, PruneJobs: which rows a retention sweep deletes.
pub mod Parents
use podman_api.Common.{
  length-keep, keep-keep, count-keep, All-keep, keep_of_every, count-none, keep-passes, ℕ, ◌+◌, ◌≡◌,
  refl, ◌∙◌, Bool, true, false, ◌&&◌, not, List, [], ◌∷◌, String, arith, Bool-cases, inl, inr,
  string_eq, ◌==◌, All, All-map, count, keep, length,
}
use podman_api.Store.Job.{Job}
use podman_api.Store.Jobs.{
  sweep, referenced, prune_jobs, is_expired, is_child, is_expired_child, is_expired_unreferenced,
  has_id,
}

sweep_lem : (d : Job → Bool) (js : List Job) → sweep d js ≡ (keep (λ j. not (d j)) js, count d js)
unfolding sweep
sweep_lem d [] = refl
sweep_lem d (j ∷ js) = elim (Bool-cases (d j)) [
  | inl e ↦ rw (e, sweep_lem d js) (ground arith)
  | inr e ↦ rw (e, sweep_lem d js) (ground arith)
]

-- The two passes as filters.
pub survivors : ℕ → List Job → List Job
survivors older_than = keep (λ j. not (is_expired_child older_than j))

pub kept : ℕ → List Job → List Job
kept older_than jobs =
    keep (λ j. not (is_expired_unreferenced older_than (survivors older_than jobs) j))
      (survivors older_than jobs)

abbrev pub is_fresh : ℕ → Job → Bool
is_fresh older_than j = not (is_expired older_than j)

-- Dropping rows that are no child takes no reference away.
referenced-keep :
    (q : Job → Bool) (js : List Job) (id : String)
    → All (λ j. (is_child j && not (q j)) ≡ false) js
    → referenced (keep q js) id ≡ referenced js id
unfolding referenced
referenced-keep q [] id h = refl
referenced-keep q (j ∷ js) id h = ground (arith, h.0, referenced-keep q js id h.1)

pub prune_jobs_lem :
    (older_than : ℕ) (jobs : List Job)
    → prune_jobs older_than jobs ≡ (
      kept older_than jobs,
      count (is_expired_child older_than) jobs
          + count
              (is_expired_unreferenced older_than (survivors older_than jobs))
              (survivors older_than jobs),
    )
unfolding prune_jobs kept survivors
prune_jobs_lem older_than jobs = simp sweep_lem

length-kept :
    (older_than : ℕ) (jobs : List Job)
    → length (kept older_than jobs)
        + (count (is_expired_child older_than) jobs
            + count
                (is_expired_unreferenced older_than (survivors older_than jobs))
                (survivors older_than jobs))
      ≡ length jobs
unfolding kept survivors
length-kept older_than jobs = omega (
  arith,
  length-keep (is_expired_child older_than) jobs,
  length-keep (is_expired_unreferenced older_than (survivors older_than jobs))
      (survivors older_than jobs),
)

fresh-kept :
    (older_than : ℕ) (jobs : List Job)
    → keep (is_fresh older_than) (kept older_than jobs) ≡ keep (is_fresh older_than) jobs
unfolding kept survivors
fresh-kept older_than jobs =
    keep-keep (is_fresh older_than)
      (λ j. not (is_expired_unreferenced older_than (survivors older_than jobs) j))
      (survivors older_than jobs) (λ j e. ground arith)
    ∙ keep-keep (is_fresh older_than) (λ j. not (is_expired_child older_than j)) jobs
        (λ j e. ground arith)

-- The number that PruneJobs returns is the number of rows that it deleted, and every row that is
-- not terminal and finished before the cutoff survives, unchanged and in order.
pub prune_jobs-keeps :
    (older_than : ℕ) (jobs : List Job)
    → (length (prune_jobs older_than jobs).0 + (prune_jobs older_than jobs).1 ≡ length jobs)
      × (keep (is_fresh older_than) (prune_jobs older_than jobs).0
          ≡ keep (is_fresh older_than) jobs)
prune_jobs-keeps older_than jobs =
    rw (prune_jobs_lem older_than jobs) (length-kept older_than jobs, fresh-kept older_than jobs)

-- In the first pass every expired child goes, so the second drops no child.
second_drops_no_child :
    (older_than : ℕ) (live js : List Job)
    → All
        (λ j. (is_child j && not (not (is_expired_unreferenced older_than live j))) ≡ false)
        (keep (λ j. not (is_expired_child older_than j)) js)
second_drops_no_child older_than live js =
    All-map (λ j. not (is_expired_child older_than j) ≡ true) _ (λ j e. ground arith) _
      (keep-passes (λ j. not (is_expired_child older_than j)) js)

referenced-kept :
    (older_than : ℕ) (jobs : List Job) (id : String)
    → referenced (kept older_than jobs) id ≡ referenced (survivors older_than jobs) id
unfolding kept survivors
referenced-kept older_than jobs id =
    referenced-keep (λ j. not (is_expired_unreferenced older_than (survivors older_than jobs) j))
      (survivors older_than jobs) id
      (second_drops_no_child older_than (survivors older_than jobs) jobs)

no_expired_child :
    (older_than : ℕ) (jobs : List Job)
    → All (λ j. is_expired_child older_than j ≡ false) (kept older_than jobs)
unfolding kept survivors
no_expired_child older_than jobs =
    All-keep (λ j. is_expired_child older_than j ≡ false) _ _
      (All-map (λ j. not (is_expired_child older_than j) ≡ true) _ (λ j e. ground arith) _
        (keep-passes (λ j. not (is_expired_child older_than j)) jobs))

no_unreferenced :
    (older_than : ℕ) (jobs : List Job)
    → All
        (λ j. is_expired_unreferenced older_than (kept older_than jobs) j ≡ false)
        (kept older_than jobs)
no_unreferenced older_than jobs =
    All-map (λ j. not (is_expired_unreferenced older_than (survivors older_than jobs) j) ≡ true) _
      (λ j e. rw (referenced-kept older_than jobs j.id) (ground arith)) _
      (unfold kept in keep-passes _ (survivors older_than jobs))

survivors-kept :
    (older_than : ℕ) (jobs : List Job)
    → survivors older_than (kept older_than jobs) ≡ kept older_than jobs
unfolding survivors
survivors-kept older_than jobs =
    keep_of_every (λ j. not (is_expired_child older_than j)) (kept older_than jobs)
      (All-map (λ j. is_expired_child older_than j ≡ false) _ (λ j e. ground arith) _
        (no_expired_child older_than jobs))

kept_lem :
    (older_than : ℕ) (jobs : List Job)
    → kept older_than jobs
      ≡ keep
          (λ j. not (is_expired_unreferenced older_than (survivors older_than jobs) j))
          (survivors older_than jobs)
unfolding kept
kept_lem older_than jobs = refl

kept-kept :
    (older_than : ℕ) (jobs : List Job)
    → kept older_than (kept older_than jobs) ≡ kept older_than jobs
kept-kept older_than jobs =
    rw (kept_lem older_than (kept older_than jobs), survivors-kept older_than jobs)
      (keep_of_every (λ j. not (is_expired_unreferenced older_than (kept older_than jobs) j)) _
        (All-map (λ j. is_expired_unreferenced older_than (kept older_than jobs) j ≡ false) _
          (λ j e. ground arith) _ (no_unreferenced older_than jobs)))

-- A second sweep with the same cutoff deletes nothing.
pub prune_jobs_idem :
    (older_than : ℕ) (jobs : List Job)
    → prune_jobs older_than (prune_jobs older_than jobs).0 ≡ ((prune_jobs older_than jobs).0, 0)
prune_jobs_idem older_than jobs =
    rw
      (
        prune_jobs_lem older_than jobs,
        prune_jobs_lem older_than (kept older_than jobs),
        survivors-kept older_than jobs,
        kept-kept older_than jobs,
      )
      (rw
        (
          count-none (is_expired_child older_than) _ (no_expired_child older_than jobs),
          count-none (is_expired_unreferenced older_than (kept older_than jobs)) _
              (no_unreferenced older_than jobs),
        )
        refl)
