-- ===== src/Runner/Pool/Reconciling.antt =====
-- internal/jobs/runner.go, reconcileOne: an operator's cancel during a reconcile attempt.
use podman_api.Common.{
  ℕ, ◌≡◌, refl, ap, ◌∙◌, Bool, true, false, not, none, List, String, is_some, if◌then◌else◌, get,
  Bool-cases, inl, inr, string_eq,
}
use podman_api.Store.Job.{Job, JobState, JobState_eq}
use podman_api.Store.Jobs.{cancel_reconciling, resolve_reconciling}
use podman_api.Store.Jobs.Races.{IsUnique, resolve_after_cancel, resolves_to}
use podman_api.Runner.Pool.{State, Verdict, cancel, reconcile_begin, reconcile_end}
use podman_api.Runner.Pool.Running.{cancel-jobs, get-remove_self}

resolve_kept :
    (id : String) (state : JobState) (message : String) (now later : ℕ) (jobs jobs' : List Job)
    → IsUnique id jobs
    → cancel_reconciling id now jobs ≡ (jobs', true)
    → (resolve_reconciling id state message later jobs').0 ≡ jobs'
unfolding resolve_reconciling
resolve_kept id state message now later jobs jobs' unique won =
    elim (Bool-cases (resolves_to state)) [
      | inl e ↦
          ap (λ r. r.0) (resolve_after_cancel id state message now later jobs jobs' unique e won)
      | inr e ↦ rw e refl
    ]

verdict_kept :
    (failing resolved : Bool) (t u : State) (jobs : List Job)
    → t.jobs ≡ jobs
    → u.jobs ≡ jobs
    → (if failing then t else if not resolved then t else u).jobs ≡ jobs
verdict_kept true resolved t u jobs ht hu = ht
verdict_kept false true t u jobs ht hu = hu
verdict_kept false false t u jobs ht hu = ht

verdict_settled :
    (failing resolved : Bool) (t u : State) (id : String)
    → get t.inflight id ≡ none
    → get u.inflight id ≡ none
    → get (if failing then t else if not resolved then t else u).inflight id ≡ none
verdict_settled true resolved t u id ht hu = ht
verdict_settled false true t u id ht hu = hu
verdict_settled false false t u id ht hu = ht

-- Where an operator's cancel wins the row while a reconcile attempt runs and then interrupts the
-- attempt, the attempt leaves the rows as the cancel did, whatever its verdict, and the job is no
-- longer in flight. The id is unique.
pub reconcile_canceled :
    (job : Job) (v : Verdict) (now later : ℕ) (s : State) (jobs' : List Job)
    → IsUnique job.id s.jobs
    → cancel_reconciling job.id now (reconcile_begin job s).jobs ≡ (jobs', true)
    → let t =
        reconcile_end job v later
          (cancel job.id (record (reconcile_begin job s) { jobs = jobs' })).0 in
      (t.jobs ≡ jobs') × (get t.inflight job.id ≡ none)
unfolding reconcile_end reconcile_begin
reconcile_canceled job v now later s jobs' unique won = (
  verdict_kept (is_some v.error) v.resolved _ _ jobs' same (
      ap (λ js. (resolve_reconciling job.id v.state v.message later js).0) same
      ∙ resolve_kept job.id v.state v.message now later s.jobs jobs' unique won),
  verdict_settled (is_some v.error) v.resolved _ _ job.id (get-remove_self job.id u.inflight)
      (get-remove_self job.id u.inflight),
)
  where
    u : State
    u = (cancel job.id (record (reconcile_begin job s) { jobs = jobs' })).0

    same : u.jobs ≡ jobs'
    same = cancel-jobs job.id (record (reconcile_begin job s) { jobs = jobs' })
