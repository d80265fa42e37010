-- ===== src/MigrateJob.antt =====
-- internal/migrate: the migrate job's handler and its reconciler, between the runner's rows and the
-- instance service. The JSON decoder is outside; progress steps are calls of the run's history.
pub mod Attempts
pub mod Rollbacks
mod Tests
use podman_api.Common.{Bool, true, false, ◌&&◌, [], Option, none, some, String, if◌then◌else◌, any}
use podman_api.Store.Job.{JobState, succeeded, failed, Job}
use podman_api.Runner.Pool.{Verdict}
use podman_api.Instance.{Error, wrap, other, Result, ok, err, MigrateRequest}
use podman_api.Instance.Calls.{
  is_rollback_name, Call, step, History, Outside, Run, pure, ◌>>=◌, ◌>>◌, note,
}
use podman_api.Instance.Migrate.{migrate}
use podman_api.Instance.Reconcile.{Outcome, reconcile_migrate}

-- `json.Unmarshal` of a job's arguments, with the text of its error.
pub record Decoder : Type 0 where
  pub unmarshal : String → Result String MigrateRequest

-- A progress step of a rollback.
abbrev pub is_rollback_step : Call → Bool
is_rollback_step (step name _) = is_rollback_name name
is_rollback_step _ = false

-- What the handler returns, and whether it counted a rollback.
pub record Handled : Type 0 where
  pub returned : Option Error
  pub counted : Bool

abbrev pub handled : Bool → Result Error (Unit {0}) × History → Handled
handled has_metrics (ok _, calls) = record {
  returned = none;
  counted = any is_rollback_step calls && has_metrics;
}
handled has_metrics (err e, calls) = record {
  returned = some e;
  counted = any is_rollback_step calls && has_metrics;
}

abbrev pub handle_decoded : Outside → Bool → Result String MigrateRequest → Handled
handle_decoded o has_metrics (err text) = record {
  returned = some (wrap "decode migrate args" (other text));
  counted = false;
}
handle_decoded o has_metrics (ok req) = handled has_metrics (migrate o req [])

unfoldable pub handle : Outside → Bool → Decoder → Job → Handled
unfolding migrate
handle o has_metrics d job = handle_decoded o has_metrics (d.unmarshal job.args)

abbrev pub bad_args : String
bad_args = "interrupted migrate could not be decoded; manual cleanup may be required"

-- What Reconcile returns for an outcome. The state and the message of an attempt that is not
-- resolved are not read.
unfoldable pub verdict_of : Outcome → Verdict
verdict_of out = record {
  state = if out.succeeded then succeeded else failed;
  message = out.message;
  resolved = out.resolved;
  error = none;
}

abbrev pub undecoded : Verdict
undecoded = record { state = failed; message = bad_args; resolved = true; error = none }

abbrev pub reconcile_decoded : {E : Type 0} → Outside → Result String MigrateRequest → Run E Verdict
reconcile_decoded o (err text) = do note "reconcile-bad-args" text; pure undecoded
reconcile_decoded o (ok req) = do out ← reconcile_migrate o req; pure (verdict_of out)

unfoldable pub reconcile : {E : Type 0} → Outside → Decoder → Job → Run E Verdict
unfolding reconcile_migrate verdict_of
reconcile o d job = reconcile_decoded o (d.unmarshal job.args)
