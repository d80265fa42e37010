-- ===== src/Instance/Migrate.antt =====
-- internal/instance/migrate.go: Migrate, under the lock of the instance, and CheckMigratable.
pub mod Steps
pub mod Justified
pub mod Endings
pub mod Course
pub mod Paired
use podman_api.Common.{Bool, not, List, [], ◌∷◌, Option, none, some, String, string_eq, ◌==◌}
use podman_api.Ingress.Routes.{SpecKey}
use podman_api.Instance.{
  Error, sentinel, wrap, same_host, unknown_host, Result, ok, err, effective, MigrateRequest,
  key_of, ◌&◌, full_name,
}
use podman_api.Instance.Preflight.{preflight_dest}
use podman_api.Instance.Moving.{Stranded, migrate_post_stop}
use podman_api.Instance.Calls.{
  detached, live, Call, stop, start, delete, lookup, get_spec, Outside, Run, pure, give_up, ◌>>=◌,
  ◌>>◌, ask, note, note_failure, give_up_if, require, require_value, then_settle,
}

abbrev pub keep_error : Error → Error
keep_error e = e

unfoldable pub check_migratable : Outside → MigrateRequest → Run Error (Unit {0})
check_migratable o req = do
  give_up_if (req.from_host == req.to_host) (sentinel same_host)
  give_up_if (not (o.knows req.from_host)) (sentinel unknown_host)
  give_up_if (not (o.knows req.to_host)) (sentinel unknown_host)
  require o (lookup req.to_host req.template) keep_error
  require o (get_spec req.from_host (key_of req)) keep_error

-- The loop that restarts paired instances on rollback.
unfoldable pub restart_stopped :
    {E : Type 0} → Outside → MigrateRequest → List SpecKey → Run E (Unit {0})
restart_stopped o req [] = pure tt
restart_stopped o req (p ∷ stopped) = do
  answer ← ask o (start detached req.from_host p)
  note_failure o "rollback-start-paired-failed" answer
  restart_stopped o req stopped

unfoldable pub roll_back : Outside → MigrateRequest → Stranded → Run Error (Unit {0})
unfolding restart_stopped
roll_back o req s = do
  note "rollback" (o.message s.failure)
  started ← ask o (start detached req.from_host (key_of req))
  note_failure o "rollback-restore-failed" started
  reaped ← ask o (delete detached req.to_host (key_of req))
  note_failure o "rollback-reap-failed" reaped
  restart_stopped o req s.stopped
  give_up s.failure

abbrev pub note_restart : Outside → SpecKey → Option Error → Run Error (Unit {0})
note_restart o p none = note "start-paired" (full_name p)
note_restart o p (some e) = note "start-paired-failed" (o.message e)

-- The loop that restarts paired instances after the commit.
unfoldable pub restart_paired : Outside → MigrateRequest → List SpecKey → Run Error (Unit {0})
restart_paired o req [] = pure tt
restart_paired o req (p ∷ stopped) = do
  answer ← ask o (start detached req.from_host p)
  note_restart o p answer
  restart_paired o req stopped

unfoldable pub commit : Outside → MigrateRequest → List SpecKey → Run Error (Unit {0})
unfolding restart_paired
commit o req stopped = do
  require o (delete detached req.from_host (key_of req)) (wrap "commit (delete source)")
  note "commit" req.from_host
  restart_paired o req stopped

-- What follows the steps after the stop of the source.
unfoldable pub settle :
    Outside → MigrateRequest → Result Stranded (List SpecKey) → Run Error (Unit {0})
unfolding roll_back commit
settle o req (ok stopped) = commit o req stopped
settle o req (err s) = roll_back o req s

unfoldable pub migrate : Outside → MigrateRequest → Run Error (Unit {0})
unfolding settle migrate_post_stop preflight_dest
migrate o req = do
  give_up_if (req.from_host == req.to_host) (sentinel same_host)
  give_up_if (not (o.knows req.from_host)) (sentinel unknown_host)
  tmpl ← require_value o (lookup req.to_host req.template) o.template keep_error
  spec ← require_value o (get_spec req.from_host (key_of req)) o.spec keep_error
  note "load" (req.from_host & "/" & full_name (key_of req))
  preflight_dest o req tmpl (effective spec.parameters req)
  note "preflight" req.to_host
  require o (stop req.from_host (key_of req)) (wrap "stop source")
  note "stop-source" req.from_host
  then_settle (migrate_post_stop o req (effective spec.parameters req) tmpl spec) (settle o req)
