-- ===== src/Instance/Moving/Steps.antt =====
-- internal/instance/migrate.go: which calls the steps after the stop make.
use podman_api.Common.{not, Bool, true, false, List, [], ◌∷◌, Option, none, some, String}
use podman_api.Ingress.Routes.{SpecKey}
use podman_api.Instance.{Error, Result, ok, err, Parameters, MigrateRequest}
use podman_api.Instance.Manifest.{Manifest}
use podman_api.Instance.Moving.{
  made_verdict, kept_verdict, after_create, create_secret, provision_absent, provision_secrets,
  paired_verdict, stop_paired, diff_verdict, verify_copy, copy_one, copy_volumes, replicate_source,
  migrate_post_stop,
}
use podman_api.Instance.Calls.{
  is_rollback_name, Template, Spec, Volume, Call, step, stop, wait_running, list_volumes,
  secret_inspect, get_host_secret, secret_create, put_host_secret, volume_create, volume_manifest,
  copy_volume, apply, Outside,
}
use podman_api.Instance.Calls.Grown.{Adds, adds_rules}

-- Calls of the steps after the stop: none starts or deletes an instance, or reports a rollback.
abbrev pub is_moving : Call → Bool
is_moving (step name _) = not (is_rollback_name name)
is_moving (secret_inspect _ _) = true
is_moving (get_host_secret _ _) = true
is_moving (secret_create _ _ _) = true
is_moving (put_host_secret _ _ _) = true
is_moving (stop _ _) = true
is_moving (list_volumes _ _) = true
is_moving (volume_create _ _) = true
is_moving (copy_volume _ _ _) = true
is_moving (volume_manifest _ _) = true
is_moving (apply _ _) = true
is_moving (wait_running _ _) = true
is_moving _ = false

made_verdict-Adds :
    (name : String) (e : Error) (r : Option Error) → Adds is_moving (made_verdict name e r)
made_verdict-Adds name e none = search adds_rules
made_verdict-Adds name e (some _) = search adds_rules

kept_verdict-Adds : (name : String) (r : Option Error) → Adds is_moving (kept_verdict name r)
kept_verdict-Adds name none = search adds_rules
kept_verdict-Adds name (some _) = search adds_rules

after_create-Adds :
    (o : Outside) (req : MigrateRequest) (name val : String) (r : Option Error)
    → Adds is_moving (after_create o req name val r)
unfolding after_create
after_create-Adds o req name val none = search (adds_rules, kept_verdict-Adds)
after_create-Adds o req name val (some e) = search (adds_rules, made_verdict-Adds)

create_secret-Adds :
    (o : Outside) (req : MigrateRequest) (name : String) (r : Result Error String)
    → Adds is_moving (create_secret o req name r)
unfolding create_secret
create_secret-Adds o req name (err e) = search adds_rules
create_secret-Adds o req name (ok val) = search (adds_rules, after_create-Adds)

provision_absent-Adds :
    (o : Outside) (req : MigrateRequest) (name : String) (r : Option Error)
    → Adds is_moving (provision_absent o req name r)
unfolding provision_absent
provision_absent-Adds o req name none = search adds_rules
provision_absent-Adds o req name (some e) = search (adds_rules, create_secret-Adds)

pub provision_secrets-Adds :
    (o : Outside) (req : MigrateRequest) (names : List String)
    → Adds is_moving (provision_secrets o req names)
unfolding provision_secrets
provision_secrets-Adds o req [] = search adds_rules
provision_secrets-Adds o req (name ∷ names) =
    let rest = provision_secrets-Adds o req names in search (adds_rules, provision_absent-Adds)

paired_verdict-Adds :
    (p : SpecKey) (stopped : List SpecKey) (r : Option Error)
    → Adds is_moving (paired_verdict p stopped r)
unfolding paired_verdict
paired_verdict-Adds p stopped none = search adds_rules
paired_verdict-Adds p stopped (some e) = search adds_rules

pub stop_paired-Adds :
    (o : Outside) (req : MigrateRequest) (paired stopped : List SpecKey)
    → Adds is_moving (stop_paired o req paired stopped)
unfolding stop_paired
stop_paired-Adds o req [] stopped = search adds_rules
stop_paired-Adds o req (p ∷ paired) stopped =
    search (adds_rules, paired_verdict-Adds, stop_paired-Adds o req paired)

diff_verdict-Adds : (name : String) (r : Option String) → Adds is_moving (diff_verdict name r)
unfolding diff_verdict
diff_verdict-Adds name none = search adds_rules
diff_verdict-Adds name (some path) = search adds_rules

verify_copy-Adds :
    (o : Outside) (req : MigrateRequest) (name : String) (src : Manifest) (b : Bool)
    → Adds is_moving (verify_copy o req name src b)
unfolding verify_copy
verify_copy-Adds o req name src false = search adds_rules
verify_copy-Adds o req name src true = search (adds_rules, diff_verdict-Adds)

copy_one-Adds :
    (o : Outside) (req : MigrateRequest) (v : Volume) → Adds is_moving (copy_one o req v)
unfolding copy_one
copy_one-Adds o req v = search (adds_rules, verify_copy-Adds)

pub copy_volumes-Adds :
    (o : Outside) (req : MigrateRequest) (vols : List Volume)
    → Adds is_moving (copy_volumes o req vols)
unfolding copy_volumes
copy_volumes-Adds o req [] = search adds_rules
copy_volumes-Adds o req (v ∷ vols) =
    let rest = copy_volumes-Adds o req vols in search (adds_rules, copy_one-Adds)

replicate_source-Adds :
    (o : Outside) (req : MigrateRequest) (eff : Parameters) (spec : Spec)
    → Adds is_moving (replicate_source o req eff spec)
unfolding replicate_source
replicate_source-Adds o req eff spec = search (adds_rules, copy_volumes-Adds) depth 9

pub migrate_post_stop-Adds :
    (o : Outside) (req : MigrateRequest) (eff : Parameters) (tmpl : Template) (spec : Spec)
    → Adds is_moving (migrate_post_stop o req eff tmpl spec)
unfolding migrate_post_stop
migrate_post_stop-Adds o req eff tmpl spec =
    search (adds_rules, provision_secrets-Adds, stop_paired-Adds, replicate_source-Adds)
