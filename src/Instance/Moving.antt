-- ===== src/Instance/Moving.antt =====
-- internal/instance/migrate.go: migratePostStop, what a migration does between the stop of the
-- source and the verdict on the destination.
pub mod Steps
pub mod Transfer
use podman_api.Common.{
  Bool, true, false, List, [], ◌∷◌, ◌++◌, Option, none, some, String, if◌then◌else◌, is_above,
}
use podman_api.Ingress.Routes.{SpecKey, itoa}
use podman_api.Instance.{
  Error, sentinel, wrap, instance_not_found, volume_integrity, pod_not_found, row_not_found,
  is_error, Result, ok, err, Parameters, MigrateRequest, key_of, ◌&◌, full_name,
}
use podman_api.Instance.Manifest.{Manifest, first_diff}
use podman_api.Instance.Calls.{
  Template, Spec, Volume, ApplyRequest, Call, stop, wait_running, list_volumes, secret_inspect,
  get_host_secret, secret_create, put_host_secret, volume_create, volume_manifest, copy_volume,
  apply, History, Outside, Run, pure, give_up, fetch, ◌>>=◌, ◌>>◌, ask, note, note_at, require,
  require_value, give_up_with,
}

-- A secret that another move may have created meanwhile.
abbrev pub made_verdict : String → Error → Option Error → Run Error (Unit {0})
made_verdict name e none = pure tt
made_verdict name e (some _) = give_up (wrap ("provision host secret " & name) e)

abbrev pub kept_verdict : String → Option Error → Run Error (Unit {0})
kept_verdict name none = pure tt
kept_verdict name (some e) = note "record-host-secret-failed" name

-- What follows the creation of a secret.
unfoldable pub after_create :
    Outside → MigrateRequest → String → String → Option Error → Run Error (Unit {0})
after_create o req name val none = do
  note "provision-secret" name
  kept ← ask o (put_host_secret req.to_host name val)
  kept_verdict name kept
after_create o req name val (some e) = do
  again ← ask o (secret_inspect req.to_host name)
  made_verdict name e again

unfoldable pub create_secret :
    Outside → MigrateRequest → String → Result Error String → Run Error (Unit {0})
unfolding after_create is_error
create_secret o req name (err e) =
    if is_error row_not_found e then pure tt else give_up (wrap ("load host secret " & name) e)
create_secret o req name (ok val) = do
  made ← ask o (secret_create req.to_host name val)
  after_create o req name val made

unfoldable pub provision_absent :
    Outside → MigrateRequest → String → Option Error → Run Error (Unit {0})
unfolding create_secret is_error
provision_absent o req name none = pure tt
provision_absent o req name (some e) =
    if is_error pod_not_found e
    then (do
      val ← fetch o (get_host_secret req.from_host name) o.host_secret
      create_secret o req name val)
    else give_up (wrap ("inspect dest host secret " & name) e)

unfoldable pub provision_secrets : Outside → MigrateRequest → List String → Run Error (Unit {0})
unfolding provision_absent
provision_secrets o req [] = pure tt
provision_secrets o req (name ∷ names) = do
  seen ← ask o (secret_inspect req.to_host name)
  provision_absent o req name seen
  provision_secrets o req names

-- What the function returns beside an error: the paired instances to restart.
pub record Stranded : Type 0 where
  pub stopped : List SpecKey
  pub failure : Error

abbrev pub stranded : List SpecKey → Error → Stranded
stranded stopped e = record { stopped = stopped; failure = e }

-- One paired instance, by the answer to its stop. The failure returns no instance to restart.
unfoldable pub paired_verdict : SpecKey → List SpecKey → Option Error → Run Stranded (List SpecKey)
unfolding is_error
paired_verdict p stopped none = do note "stop-paired" (full_name p); pure (stopped ++ p ∷ [])
paired_verdict p stopped (some e) =
    if is_error instance_not_found e
    then (do note "stop-paired-skipped" (full_name p); pure stopped)
    else give_up (stranded [] (wrap ("stop paired instance " & full_name p) e))

unfoldable pub stop_paired :
    Outside → MigrateRequest → List SpecKey → List SpecKey → Run Stranded (List SpecKey)
unfolding paired_verdict
stop_paired o req [] stopped = pure stopped
stop_paired o req (p ∷ paired) stopped = do
  answer ← ask o (stop req.from_host p)
  stopped ← paired_verdict p stopped answer
  stop_paired o req paired stopped

unfoldable pub diff_verdict : String → Option String → Run Error (Unit {0})
diff_verdict name none = note "verify-volume" name
diff_verdict name (some path) =
    give_up (wrap ("volume " & name & " differs at " & path) (sentinel volume_integrity))

unfoldable pub verify_copy :
    Outside → MigrateRequest → String → Manifest → Bool → Run Error (Unit {0})
unfolding diff_verdict
verify_copy o req name src false = pure tt
verify_copy o req name src true = do
  dst ←
      require_value o (volume_manifest req.to_host name) o.manifest
        (wrap ("verify volume " & name & ": re-export dest"))
  diff_verdict name (first_diff src dst)

-- The size of the volume, where it is known, and the time taken.
abbrev pub copy_detail : Outside → Volume → History → String
copy_detail o v h =
    if is_above 0 v.size
    then v.name & " (" & itoa v.size & " bytes, " & o.elapsed h & ")"
    else v.name & " (" & o.elapsed h & ")"

unfoldable pub copy_one : Outside → MigrateRequest → Volume → Run Error (Unit {0})
unfolding verify_copy
copy_one o req v = do
  require o (volume_create req.to_host v.name) (wrap ("create dest volume " & v.name))
  note "copy-volume" v.name
  src ←
      require_value o (copy_volume req.from_host req.to_host v.name) o.manifest
        (wrap ("copy volume " & v.name))
  note_at "copy-volume-done" (copy_detail o v)
  verify_copy o req v.name src o.verifies_volumes

unfoldable pub copy_volumes : Outside → MigrateRequest → List Volume → Run Error (Unit {0})
unfolding copy_one
copy_volumes o req [] = pure tt
copy_volumes o req (v ∷ vols) = do copy_one o req v; copy_volumes o req vols

abbrev pub apply_request : MigrateRequest → Parameters → Spec → ApplyRequest
apply_request req eff spec = record {
  key = key_of req;
  parameters = eff;
  secrets = spec.secrets;
  domains = spec.domains;
  networks = spec.applied_networks;
}

abbrev pub apply_detail : Outside → MigrateRequest → History → String
apply_detail o req h = req.to_host & " (" & o.elapsed h & ")"

-- From the list of volumes on.
unfoldable pub replicate_source :
    Outside → MigrateRequest → Parameters → Spec → Run Error (Unit {0})
unfolding copy_volumes
replicate_source o req eff spec = do
  vols ←
      require_value o (list_volumes req.from_host (key_of req)) o.volumes
        (wrap "list source volumes")
  copy_volumes o req vols
  note "apply-dest" req.to_host
  require o (apply req.to_host (apply_request req eff spec)) (wrap "apply on dest")
  note_at "apply-dest-done" (apply_detail o req)
  require o (wait_running req.to_host (key_of req)) (wrap "verify dest")
  note "verify" req.to_host

unfoldable pub migrate_post_stop :
    Outside → MigrateRequest → Parameters → Template → Spec → Run Stranded (List SpecKey)
unfolding provision_secrets stop_paired replicate_source
migrate_post_stop o req eff tmpl spec = do
  give_up_with (stranded []) (provision_secrets o req tmpl.host_secrets)
  stopped ← stop_paired o req req.also_stop []
  give_up_with (stranded stopped) (replicate_source o req eff spec)
  pure stopped
