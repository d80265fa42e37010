-- ===== src/MigrateJob/Attempts.antt =====
-- internal/migrate/reconciler.go with internal/jobs/runner.go, reconcileOne: what a reconcile attempt
-- of a migrate job does to the hosts and to the row.
use podman_api.Common.{◌≡◌, ◌⊎◌, inl, inr, refl, subst, sym, ℕ, Bool, true, false, [], String}
use podman_api.Store.Job.{succeeded, failed, Job}
use podman_api.Store.Jobs.{resolve_reconciling}
use podman_api.Runner.Pool.{State, Verdict, reconcile_end}
use podman_api.Instance.{Result, ok, err, MigrateRequest, OnOk}
use podman_api.Instance.Calls.{History, Outside, ◌>>=◌, pure}
use podman_api.Instance.Migrate.Justified.{NoDelete}
use podman_api.Instance.Reconcile.{Outcome, reconcile_migrate}
use podman_api.Instance.Reconcile.Course.{
  IsSafe, IsForward, IsBack, IsVerdict, reconcile_migrate-IsVerdict,
}
use podman_api.MigrateJob.{Decoder, reconcile, reconcile_decoded, verdict_of}

module _ (o : Outside) (req : MigrateRequest) (job : Job) (now : ℕ) (s : State) where
  -- The rows after an attempt, by what it did.
  abbrev pub IsRecorded : History → Verdict → Type 0
  IsRecorded h v =
      let after = (reconcile_end job v now s).jobs in
      (after ≡ s.jobs)
      ⊎ ((after ≡ (resolve_reconciling job.id succeeded v.message now s.jobs).0)
          × IsForward o req h)
      ⊎ ((after ≡ (resolve_reconciling job.id failed v.message now s.jobs).0)
          × (IsBack o req h ⊎ NoDelete h))

  verdict-IsRecorded :
      (resolved succeeds : Bool) (message : String) (h : History)
      → let out : Outcome = record {
        resolved = resolved;
        succeeded = succeeds;
        message = message;
      } in
        IsVerdict o req out h → IsRecorded h (verdict_of out)
  unfolding reconcile_end verdict_of
  verdict-IsRecorded false succeeds message h v = inl refl
  verdict-IsRecorded true true message h (forward, back) = inr (inl (refl, (forward refl).1))
  verdict-IsRecorded true false message h (forward, back) = inr (inr (refl, back refl refl))

  outcome-IsRecorded :
      (r : Result (Unit {0}) Outcome) (h : History)
      → OnOk (λ out. IsSafe o req h × IsVerdict o req out h) r
      → let (verdict, h') = (◌>>=◌ (λ (_ : History). (r, h)) (λ out. pure (verdict_of out))) h in
        OnOk (λ v. IsSafe o req h' × IsRecorded h' v) verdict
  outcome-IsRecorded (ok out) h (safe, v) =
      (safe, verdict-IsRecorded out.resolved out.succeeded out.message h v)
  outcome-IsRecorded (err e) h v = tt

  -- Every delete that an attempt on a migrate job asks for is justified as one of a
  -- reconciliation, and the attempt either leaves the rows alone; or resolves the row as
  -- succeeded, after the destination was found committed and the source was deleted, or its row
  -- was deleted or found missing; or resolves it as failed, after a rollback or with nothing
  -- deleted. The arguments of the job decode.
  pub reconcile-IsRecorded :
      (d : Decoder)
      → d.unmarshal job.args ≡ ok req
      → let (verdict, h) = reconcile {E = Unit {0}} o d job [] in
        OnOk (λ v. IsSafe o req h × IsRecorded h v) verdict
  unfolding reconcile
  reconcile-IsRecorded d decodes =
      subst
        (λ (r : Result String MigrateRequest).
          let (verdict, h) = reconcile_decoded {E = Unit {0}} o r [] in
          OnOk (λ v. IsSafe o req h × IsRecorded h v) verdict)
        (sym decodes)
        (let (r, h) = reconcile_migrate {E = Unit {0}} o req [] in
          outcome-IsRecorded r h (reconcile_migrate-IsVerdict o req))
