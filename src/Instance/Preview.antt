-- ===== src/Instance/Preview.antt =====
-- internal/instance/evacuate_plan.go: PlanEvacuation, planMove and classifyPlanIssue, the preview of
-- an evacuation.
pub mod Clean
use podman_api.Common.{
  Bool, true, false, List, [], ◌∷◌, ◌++◌, map, Option, none, some, String, if◌then◌else◌,
}
use podman_api.Instance.{
  Error, host_draining, instance_exists, host_secret_missing, port_conflict, is_error, Result, ok,
  err, effective, MigrateRequest, key_of,
}
use podman_api.Instance.Evacuation.{Fleet, EvacuateRequest, EvacuationError, resolve_evacuation}
use podman_api.Instance.Preflight.{preflight_issues}
use podman_api.Instance.Calls.{lookup, get_spec, Outside, Spec, Template, Run, pure, fetch, ◌>>=◌}

pub record PlanIssue : Type 0 where
  pub code : String
  pub message : String

pub record PlannedMove : Type 0 where
  pub slug : String
  pub template : String
  pub to_host : String
  pub is_clean : Bool  -- the field OK
  pub issues : List PlanIssue
  pub provisions : List String

pub record EvacuationPlan : Type 0 where
  pub from_host : String
  pub moves : List PlannedMove

abbrev pub check_error : String
check_error = "check_error"

unfoldable pub issue_code : Error → String
unfolding is_error
issue_code e =
    if is_error host_draining e
    then "destination_draining"
    else if is_error instance_exists e
    then "instance_exists"
    else if is_error host_secret_missing e
    then "host_secret_missing"
    else if is_error port_conflict e
    then "port_conflict"
    else check_error

unfoldable pub classify_plan_issue : Outside → Error → PlanIssue
unfolding issue_code
classify_plan_issue o e = record { code = issue_code e; message = o.message e }

abbrev pub issue_of : Outside → String → Option Error → List PlanIssue
issue_of o code none = []
issue_of o code (some e) = record { code = code; message = o.message e } ∷ []

abbrev pub is_none : List PlanIssue → Bool
is_none [] = true
is_none (_ ∷ _) = false

abbrev pub planned : MigrateRequest → List PlanIssue → List String → PlannedMove
planned m issues provisions = record {
  slug = m.slug;
  template = m.template;
  to_host = m.to_host;
  is_clean = is_none issues;
  issues = issues;
  provisions = provisions;
}

-- The live checks, once the template and the spec are there.
unfoldable pub plan_checked :
    {E : Type 0} → Outside → MigrateRequest → Template → Spec → Run E PlannedMove
unfolding classify_plan_issue preflight_issues
plan_checked o m tmpl spec = do
  r ← preflight_issues o m tmpl (effective spec.parameters m) false
  pure (
      planned m
        (issue_of o "invalid_parameters"
            (o.validate tmpl (effective spec.parameters m) spec.secrets)
          ++ map (classify_plan_issue o) r.issues)
        r.provisionable)

unfoldable pub plan_with_spec :
    {E : Type 0} → Outside → MigrateRequest → Template → Result Error Spec → Run E PlannedMove
unfolding plan_checked
plan_with_spec o m tmpl (ok spec) = plan_checked o m tmpl spec
plan_with_spec o m tmpl (err e) = pure (planned m (issue_of o check_error (some e)) [])

unfoldable pub plan_with_template :
    {E : Type 0} → Outside → MigrateRequest → Result Error Template → Run E PlannedMove
unfolding plan_with_spec
plan_with_template o m (ok tmpl) = do
  spec ← fetch o (get_spec m.from_host (key_of m)) o.spec
  plan_with_spec o m tmpl spec
plan_with_template o m (err e) = pure (planned m (issue_of o check_error (some e)) [])

unfoldable pub plan_move : {E : Type 0} → Outside → MigrateRequest → Run E PlannedMove
unfolding plan_with_template
plan_move o m = do
  tmpl ← fetch o (lookup m.to_host m.template) o.template
  plan_with_template o m tmpl

unfoldable pub plan_moves : {E : Type 0} → Outside → List MigrateRequest → Run E (List PlannedMove)
unfolding plan_move
plan_moves o [] = pure []
plan_moves o (m ∷ moves) = do
  first ← plan_move o m
  others ← plan_moves o moves
  pure (first ∷ others)

abbrev pub plan_resolved :
    Outside
    → EvacuateRequest
    → Result EvacuationError (List MigrateRequest)
    → Run EvacuationError EvacuationPlan
plan_resolved o req (err e) h = (err e, h)
plan_resolved o req (ok moves) h =
    (do
      planned_moves ← plan_moves o moves
      pure (record { from_host = req.from_host; moves = planned_moves }))
      h

unfoldable pub plan_evacuation :
    Outside → Fleet → EvacuateRequest → Run EvacuationError EvacuationPlan
unfolding resolve_evacuation plan_moves
plan_evacuation o fleet req = plan_resolved o req (resolve_evacuation fleet req)
