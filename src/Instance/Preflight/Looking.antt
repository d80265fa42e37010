-- ===== src/Instance/Preflight/Looking.antt =====
-- internal/instance/migrate.go: the preflight changes no instance.
use podman_api.Common.{not, Bool, true, false, ℕ, List, [], ◌∷◌, Option, none, some, String}
use podman_api.Instance.{Error, Result, ok, err, Parameters, MigrateRequest}
use podman_api.Instance.Preflight.{
  Report, pod_verdict, check_pod, secret_verdict, check_secrets, rendered_or, port_verdict,
  check_ports, pull_images, pull_if, destination_checks, preflight_issues, first_issue,
  preflight_dest,
}
use podman_api.Instance.Calls.{
  is_rollback_name, Template, Call, step, pod_inspect, secret_inspect, get_host_secret, image_pull,
  ports_in_use, lookup, get_spec, Outside, Run,
}
use podman_api.Instance.Calls.Grown.{Adds, adds_rules}

-- Calls that change no instance: they look, pull an image or report a step.
abbrev pub is_looking : Call → Bool
is_looking (step name _) = not (is_rollback_name name)
is_looking (pod_inspect _ _) = true
is_looking (secret_inspect _ _) = true
is_looking (get_host_secret _ _) = true
is_looking (ports_in_use _) = true
is_looking (image_pull _ _) = true
is_looking (lookup _ _) = true
is_looking (get_spec _ _) = true
is_looking _ = false

pod_verdict-Adds : (r : Report) (e : Option Error) → Adds is_looking (pod_verdict r e)
pod_verdict-Adds r none = search adds_rules
pod_verdict-Adds r (some e) = search adds_rules

check_pod-Adds :
    (o : Outside) (req : MigrateRequest) (r : Report) → Adds is_looking (check_pod o req r)
unfolding check_pod
check_pod-Adds o req r = search (adds_rules, pod_verdict-Adds)

secret_verdict-Adds :
    (o : Outside) (req : MigrateRequest) (name : String) (r : Report) (e : Option Error)
    → Adds is_looking (secret_verdict o req name r e)
unfolding secret_verdict
secret_verdict-Adds o req name r none = search adds_rules
secret_verdict-Adds o req name r (some e) = search adds_rules

check_secrets-Adds :
    (o : Outside) (req : MigrateRequest) (names : List String) (r : Report)
    → Adds is_looking (check_secrets o req names r)
unfolding check_secrets
check_secrets-Adds o req [] r = search adds_rules
check_secrets-Adds o req (name ∷ names) r =
    search (adds_rules, secret_verdict-Adds, check_secrets-Adds o req names)

rendered_or-Adds : (r : Report) (a : Result Error String) → Adds is_looking (rendered_or r a)
rendered_or-Adds r (ok a) = search adds_rules
rendered_or-Adds r (err e) = search adds_rules

port_verdict-Adds :
    (want : List ℕ) (r : Report) (a : Result Error (List ℕ))
    → Adds is_looking (port_verdict want r a)
port_verdict-Adds want r (ok a) = search adds_rules
port_verdict-Adds want r (err e) = search adds_rules

check_ports-Adds :
    (o : Outside) (req : MigrateRequest) (want : List ℕ) (r : Report)
    → Adds is_looking (check_ports o req want r)
unfolding check_ports
check_ports-Adds o req [] r = search adds_rules
check_ports-Adds o req (p ∷ want) r = search (adds_rules, port_verdict-Adds)

pull_images-Adds :
    (o : Outside) (req : MigrateRequest) (imgs : List String) (r : Report)
    → Adds is_looking (pull_images o req imgs r)
unfolding pull_images
pull_images-Adds o req [] r = search adds_rules
pull_images-Adds o req (img ∷ imgs) r = search (adds_rules, pull_images-Adds o req imgs)

pull_if-Adds :
    (b : Bool) (pulls : Run Report Report) (r : Report)
    → Adds is_looking pulls
    → Adds is_looking (pull_if b pulls r)
pull_if-Adds true pulls r a = a
pull_if-Adds false pulls r a = search adds_rules

pub destination_checks-Adds :
    (o : Outside) (req : MigrateRequest) (tmpl : Template) (eff : Parameters)
    → Adds is_looking (destination_checks o req tmpl eff)
unfolding destination_checks
destination_checks-Adds o req tmpl eff =
    search (adds_rules, check_pod-Adds, check_secrets-Adds, rendered_or-Adds, check_ports-Adds)

pub preflight_issues-Adds :
    {E : Type 0} (o : Outside) (req : MigrateRequest) (tmpl : Template) (eff : Parameters)
    (b : Bool)
    → Adds is_looking (preflight_issues {E = E} o req tmpl eff b)
unfolding preflight_issues
preflight_issues-Adds o req tmpl eff b =
    search (adds_rules, destination_checks-Adds, pull_if-Adds, pull_images-Adds)

first_issue-Adds : (issues : List Error) → Adds is_looking (first_issue issues)
first_issue-Adds [] = search adds_rules
first_issue-Adds (e ∷ issues) = search adds_rules

pub preflight_dest-Adds :
    (o : Outside) (req : MigrateRequest) (tmpl : Template) (eff : Parameters)
    → Adds is_looking (preflight_dest o req tmpl eff)
unfolding preflight_dest
preflight_dest-Adds o req tmpl eff = search (adds_rules, preflight_issues-Adds, first_issue-Adds)
