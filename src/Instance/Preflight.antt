-- ===== src/Instance/Preflight.antt =====
-- internal/instance/migrate.go: preflightIssues, hostSecretProvisionable and preflightDest. The
-- executor takes the first issue, the preview all of them.
pub mod Looking
pub mod Deciding
pub mod Acceptance
pub mod Passing
use podman_api.Common.{
  Bool, true, false, ℕ, pos, nat_eq, List, [], ◌∷◌, ◌++◌, Option, none, some, String, ◌==◌,
  if◌then◌else◌, contains,
}
use podman_api.Ingress.Routes.{itoa}
use podman_api.Instance.{
  Error, sentinel, wrap, host_draining, instance_exists, host_secret_missing, port_conflict,
  image_pull, pod_not_found, row_not_found, is_error, Result, ok, err, Parameters, MigrateRequest,
  key_of, ◌&◌,
}
use podman_api.Instance.Rendered.{required_host_ports, container_images}
use podman_api.Instance.Calls.{
  Call, pod_inspect, secret_inspect, get_host_secret, ports_in_use, Outside, Template, Run, pure,
  give_up, fetch, ◌>>=◌, ◌>>◌, ask, collapse,
}

pub record Report : Type 0 where
  pub issues : List Error
  pub provisionable : List String

abbrev pub with_issue : Error → Report → Report
with_issue e r = record r { issues = r.issues ++ e ∷ [] }

abbrev pub pod_verdict : Report → Option Error → Run Report Report
pod_verdict r none = pure (with_issue (sentinel instance_exists) r)
pod_verdict r (some e) =
    if is_error pod_not_found e then pure r else give_up (with_issue (wrap "inspect dest pod" e) r)

unfoldable pub check_pod : Outside → MigrateRequest → Report → Run Report Report
unfolding is_error
check_pod o req r = do seen ← ask o (pod_inspect req.to_host (key_of req)); pod_verdict r seen

-- A secret that is absent on the destination, by whether its value is persisted.
abbrev pub provision_verdict : String → Report → Option Error → Report
provision_verdict name r none = record r { provisionable = r.provisionable ++ name ∷ [] }
provision_verdict name r (some e) =
    if is_error row_not_found e
    then with_issue (wrap name (sentinel host_secret_missing)) r
    else with_issue (wrap ("lookup persisted host secret " & name) e) r

unfoldable pub secret_verdict :
    Outside → MigrateRequest → String → Report → Option Error → Run Report Report
unfolding is_error
secret_verdict o req name r none = pure r
secret_verdict o req name r (some e) =
    if is_error pod_not_found e
    then (do
      held ← ask o (get_host_secret req.from_host name)
      pure (provision_verdict name r held))
    else give_up (with_issue (wrap ("inspect host secret " & name) e) r)

unfoldable pub check_secrets : Outside → MigrateRequest → List String → Report → Run Report Report
unfolding secret_verdict
check_secrets o req [] r = pure r
check_secrets o req (name ∷ names) r = do
  seen ← ask o (secret_inspect req.to_host name)
  r ← secret_verdict o req name r seen
  check_secrets o req names r

abbrev pub rendered_or : Report → Result Error String → Run Report String
rendered_or r (ok rendered) = pure rendered
rendered_or r (err e) = give_up (with_issue (wrap "render" e) r)

unfoldable pub with_conflicts : List ℕ → List ℕ → Report → Report
with_conflicts busy [] r = r
with_conflicts busy (p ∷ want) r =
    with_conflicts busy want
      (if contains busy p then with_issue (wrap (itoa (pos p)) (sentinel port_conflict)) r else r)

abbrev pub port_verdict : List ℕ → Report → Result Error (List ℕ) → Run Report Report
port_verdict want r (ok used) = pure (with_conflicts used want r)
port_verdict want r (err e) = give_up (with_issue (wrap "ports in use" e) r)

unfoldable pub check_ports : Outside → MigrateRequest → List ℕ → Report → Run Report Report
unfolding with_conflicts
check_ports o req [] r = pure r
check_ports o req (p ∷ want) r = do
  used ← fetch o (ports_in_use req.to_host) o.ports
  port_verdict (p ∷ want) r used

-- The text of the failure stands in the details only: the error is the sentinel's.
abbrev pub pull_verdict : Outside → String → Report → Option Error → Report
pull_verdict o img r none = r
pull_verdict o img r (some e) = with_issue (wrap (img & ": " & o.message e) (sentinel image_pull)) r

unfoldable pub pull_images : Outside → MigrateRequest → List String → Report → Run Report Report
pull_images o req [] r = pure r
pull_images o req (img ∷ imgs) r = do
  pulled ← ask o (Call.image_pull req.to_host img)
  pull_images o req imgs (pull_verdict o img r pulled)

abbrev pub pull_if : Bool → Run Report Report → Report → Run Report Report
pull_if true pulls r = pulls
pull_if false pulls r = pure r

abbrev pub first_report : Bool → Report
first_report true = record { issues = sentinel host_draining ∷ []; provisionable = [] }
first_report false = record { issues = []; provisionable = [] }

-- All checks but the pulls, in their order: the report, and the template as rendered.
unfoldable pub destination_checks :
    Outside → MigrateRequest → Template → Parameters → Run Report (String × Report)
unfolding check_pod check_secrets check_ports
destination_checks o req tmpl eff = do
  r ← check_pod o req (first_report (o.is_draining req.to_host))
  r ← check_secrets o req tmpl.host_secrets r
  rendered ← rendered_or r (o.render tmpl.body eff)
  r ← check_ports o req (required_host_ports (o.port_documents rendered)) r
  pure (rendered, r)

unfoldable pub preflight_issues :
    {E : Type 0} → Outside → MigrateRequest → Template → Parameters → Bool → Run E Report
unfolding destination_checks pull_images
preflight_issues o req tmpl eff pulls = collapse do
  (rendered, r) ← destination_checks o req tmpl eff
  pull_if pulls (pull_images o req (container_images (o.image_documents rendered)) r) r

abbrev pub first_issue : List Error → Run Error (Unit {0})
first_issue [] = pure tt
first_issue (e ∷ issues) = give_up e

unfoldable pub preflight_dest :
    Outside → MigrateRequest → Template → Parameters → Run Error (Unit {0})
unfolding preflight_issues
preflight_dest o req tmpl eff = do r ← preflight_issues o req tmpl eff true; first_issue r.issues
