-- ===== src/Instance/Reconcile.antt =====
-- internal/instance/reconcile.go: ReconcileMigrate with destSpecState, destState and sourcePresent,
-- under the lock of the instance.
pub mod Surveys
pub mod Compensation
pub mod Course
use podman_api.Common.{
  Bool, true, false, not, List, [], ◌∷◌, Option, none, some, String, if◌then◌else◌,
}
use podman_api.Ingress.Routes.{SpecKey}
use podman_api.Instance.{
  Error, Sentinel, pod_not_found, row_not_found, instance_not_found, spec_corrupt, secrets_need_key,
  secrets_undecryptable, is_error, Result, ok, err, MigrateRequest, key_of, ◌&◌, full_name,
}
use podman_api.Instance.Calls.{
  detached, Call, check_context, pod_inspect, wait_running, start, delete, ingress_reconcile,
  get_template, get_spec, delete_spec, prune_resources, Spec, Outside, Run, pure, give_up, fetch,
  ◌>>=◌, ◌>>◌, ask, note, note_failure, give_up_if, give_up_with, then_settle,
}

pub record Outcome : Type 0 where
  pub resolved : Bool
  pub succeeded : Bool
  pub message : String

-- The early returns: none of them is a success.
pub data Early : Type 0 where
  inconclusive : Early
  terminal : String → Early

abbrev pub outcome_of : Early → Outcome
outcome_of inconclusive = record { resolved = false; succeeded = false; message = "" }
outcome_of (terminal message) = record { resolved = true; succeeded = false; message = message }

-- `present, reachable` of sourcePresent.
pub data Presence : Type 0 where
  present gone unreachable : Presence

pub data DestStatus : Type 0 where
  healthy unhealthy absent unreachable : DestStatus

pub data SpecState : Type 0 where
  inconclusive persisted absent corrupt needs_key : SpecState

unfoldable pub presence_of : Option Error → Presence
unfolding is_error
presence_of none = Presence.present
presence_of (some e) = if is_error pod_not_found e then Presence.gone else Presence.unreachable

unfoldable pub source_present : {E : Type 0} → Outside → String → SpecKey → Run E Presence
unfolding presence_of
source_present o host key = do r ← ask o (pod_inspect host key); pure (presence_of r)

-- The second inspect, after a wait that failed.
unfoldable pub after_failed_wait : Option Error → DestStatus
unfolding is_error
after_failed_wait none = DestStatus.unhealthy
after_failed_wait (some e) =
    if is_error pod_not_found e then DestStatus.unhealthy else DestStatus.unreachable

unfoldable pub after_wait :
    {E : Type 0} → Outside → String → SpecKey → Option Error → Run E DestStatus
unfolding after_failed_wait
after_wait o host key none = pure DestStatus.healthy
after_wait o host key (some _) = do r ← ask o (pod_inspect host key); pure (after_failed_wait r)

unfoldable pub after_inspect :
    {E : Type 0} → Outside → String → SpecKey → Option Error → Run E DestStatus
unfolding after_wait is_error
after_inspect o host key none = do
  waited ← ask o (wait_running host key)
  after_wait o host key waited
after_inspect o host key (some e) =
    pure (if is_error pod_not_found e then DestStatus.absent else DestStatus.unreachable)

unfoldable pub dest_state : {E : Type 0} → Outside → String → SpecKey → Run E DestStatus
unfolding after_inspect
dest_state o host key = do r ← ask o (pod_inspect host key); after_inspect o host key r

unfoldable pub spec_state_of : Option Error → SpecState
unfolding is_error
spec_state_of none = SpecState.persisted
spec_state_of (some e) =
    if is_error row_not_found e
    then SpecState.absent
    else if is_error secrets_need_key e
    then SpecState.needs_key
    else if is_error secrets_undecryptable e
    then SpecState.needs_key
    else if is_error spec_corrupt e
    then SpecState.corrupt
    else SpecState.inconclusive

-- destSpecState, with the answer that it classifies.
unfoldable pub dest_spec_state : {E : Type 0} → Outside → String → SpecKey → Run E SpecState
unfolding spec_state_of
dest_spec_state o host key = do r ← ask o (get_spec host key); pure (spec_state_of r)

-- A step that reports why the run is inconclusive.
abbrev pub uncertain : {A : Type 0} → String → Run (Unit {0}) A
uncertain detail = note "reconcile-inconclusive" detail >> give_up tt

abbrev pub or_uncertain : Outside → String → Option Error → Run (Unit {0}) (Unit {0})
or_uncertain o prefix none = pure tt
or_uncertain o prefix (some e) = uncertain (prefix & o.message e)

abbrev pub or_uncertain_but : Outside → Bool → String → Option Error → Run (Unit {0}) (Unit {0})
or_uncertain_but o true prefix failed = pure tt
or_uncertain_but o false prefix failed = or_uncertain o prefix failed

-- Whether an answer is this sentinel's error.
unfoldable pub is_failure_of : Sentinel → Option Error → Bool
unfolding is_error
is_failure_of s none = false
is_failure_of s (some e) = is_error s e

-- The loop that restarts the paired instances. One that is not there is skipped.
unfoldable pub restore_paired : Outside → MigrateRequest → List SpecKey → Run (Unit {0}) (Unit {0})
unfolding is_failure_of
restore_paired o req [] = pure tt
restore_paired o req (p ∷ paired) = do
  started ← ask o (start detached req.from_host p)
  or_uncertain_but o (is_failure_of instance_not_found started)
      ("restore paired " & full_name p & ": ") started
  restore_paired o req paired

abbrev pub secrets_of : Result Error Spec → List String
secrets_of (ok spec) = spec.injector_secrets
secrets_of (err _) = []

abbrev pub refresh_ingress : Outside → String → Bool → Run (Unit {0}) (Unit {0})
refresh_ingress o host false = pure tt
refresh_ingress o host true = do
  refreshed ← ask o (ingress_reconcile host)
  note_failure o "reconcile-source-ingress-cleanup-failed" refreshed

abbrev pub repair_ingress : Outside → String → Bool → Run (Unit {0}) (Unit {0})
repair_ingress o host false = pure tt
repair_ingress o host true = do
  repaired ← ask o (ingress_reconcile host)
  or_uncertain o "dest ingress reconcile: " repaired

-- The source: deleted if its pod is present, else what is left of it is cleared.
unfoldable pub reap_source : Outside → MigrateRequest → Bool → Run (Unit {0}) (Unit {0})
unfolding is_failure_of
reap_source o req true = do
  reaped ← ask o (delete detached req.from_host (key_of req))
  or_uncertain o "reap source: " reaped
reap_source o req false = do
  spec ← fetch o (get_spec req.from_host (key_of req)) o.spec
  pruned ← ask o (prune_resources req.from_host (key_of req) (secrets_of spec))
  cleared ← ask o (delete_spec req.from_host (key_of req))
  or_uncertain_but o (is_failure_of row_not_found cleared) "clean source spec: " cleared
  refresh_ingress o req.from_host o.has_ingress

abbrev pub rolled_forward : Outcome
rolled_forward = record { resolved = true; succeeded = true; message = "" }

unfoldable pub roll_forward : Outside → MigrateRequest → Bool → Run (Unit {0}) Outcome
unfolding reap_source restore_paired
roll_forward o req source = do
  repair_ingress o req.to_host o.has_ingress
  reap_source o req source
  restore_paired o req req.also_stop
  note "reconcile-roll-forward" req.to_host
  pure rolled_forward

abbrev pub failed_outcome : String → Outcome
failed_outcome message = record { resolved = true; succeeded = false; message = message }

unfoldable pub reap_dest : Outside → MigrateRequest → Run (Unit {0}) Outcome
reap_dest o req = do
  reaped ← ask o (delete detached req.to_host (key_of req))
  or_uncertain o "reap dest: " reaped
  note "reconcile-roll-back" req.from_host
  pure (failed_outcome "rolled back: destination unverified, source restored")

unfoldable pub restore_source : Outside → MigrateRequest → Run (Unit {0}) Outcome
unfolding restore_paired reap_dest
restore_source o req = do
  started ← ask o (start detached req.from_host (key_of req))
  or_uncertain o "restore source: " started
  restore_paired o req req.also_stop
  reap_dest o req

-- Neither side can be taken: what is left stays in place.
abbrev pub leave_dest : MigrateRequest → DestStatus → Run (Unit {0}) Outcome
leave_dest req DestStatus.absent = do
  note "reconcile-not-found" "instance absent on both hosts"
  pure (failed_outcome "instance not found on either host")
leave_dest req _ = do
  note "reconcile-orphan-dest" (req.to_host & " left in place; source already removed")
  pure
      (failed_outcome "destination left in place; source already removed — manual cleanup required")

unfoldable pub fall_back : Outside → MigrateRequest → DestStatus → Bool → Run (Unit {0}) Outcome
unfolding restore_source
fall_back o req status true = restore_source o req
fall_back o req status false = leave_dest req status

abbrev pub gone_host : String → String → Early
gone_host side host =
    terminal (side & " host " & host & " is no longer configured; manual cleanup required")

unfoldable pub template_verdict : Outside → MigrateRequest → Option Error → Run Early (Unit {0})
unfolding is_error
template_verdict o req none = pure tt
template_verdict o req (some e) =
    if is_error row_not_found e
    then give_up (
        terminal ("template " & req.template & " is no longer configured; manual cleanup required"))
    else (do
      note "reconcile-inconclusive" ("template lookup failed: " & o.message e)
      give_up Early.inconclusive)

abbrev pub unreachable_host : {A : Type 0} → String → Run Early A
unreachable_host host = do
  note "reconcile-inconclusive" (host & " unreachable")
  give_up Early.inconclusive

abbrev pub presence_verdict : MigrateRequest → Presence → Run Early Bool
presence_verdict req Presence.present = pure true
presence_verdict req Presence.gone = pure false
presence_verdict req Presence.unreachable = unreachable_host req.from_host

abbrev pub status_verdict : MigrateRequest → DestStatus → Run Early DestStatus
status_verdict req DestStatus.unreachable = unreachable_host req.to_host
status_verdict req DestStatus.healthy = pure DestStatus.healthy
status_verdict req DestStatus.unhealthy = pure DestStatus.unhealthy
status_verdict req DestStatus.absent = pure DestStatus.absent

abbrev pub context_verdict : Option Error → Run Early (Unit {0})
context_verdict none = pure tt
context_verdict (some _) = do
  note "reconcile-canceled" "interrupted before compensation"
  give_up Early.inconclusive

-- Whether the destination is committed, where its spec can be read.
abbrev pub spec_verdict : SpecState → Run Early Bool
spec_verdict SpecState.persisted = pure true
spec_verdict SpecState.absent = pure false
spec_verdict SpecState.inconclusive = do
  note "reconcile-inconclusive" "destination spec lookup failed"
  give_up Early.inconclusive
spec_verdict SpecState.needs_key = do
  note "reconcile-needs-key"
      "destination spec secrets unreadable (key missing or wrong); restart with -spec-key-file"
  give_up Early.inconclusive
spec_verdict SpecState.corrupt = do
  note "reconcile-spec-corrupt" "destination spec corrupt (malformed)"
  give_up (terminal "destination spec corrupt (malformed); manual cleanup required")

unfoldable pub is_committed : Outside → MigrateRequest → DestStatus → Run Early Bool
unfolding dest_spec_state
is_committed o req DestStatus.healthy = do
  s ← dest_spec_state o req.to_host (key_of req)
  spec_verdict s
is_committed o req _ = pure false

-- What is known before anything is changed.
pub record Survey : Type 0 where
  pub source : Bool
  pub status : DestStatus
  pub committed : Bool

abbrev pub survey_of : Bool → DestStatus → Bool → Survey
survey_of source status committed = record {
  source = source;
  status = status;
  committed = committed;
}

unfoldable pub survey : Outside → MigrateRequest → Run Early Survey
unfolding template_verdict source_present dest_state is_committed
survey o req = do
  give_up_if (not (o.knows req.from_host)) (gone_host "source" req.from_host)
  give_up_if (not (o.knows req.to_host)) (gone_host "destination" req.to_host)
  held ← ask o (get_template req.template)
  template_verdict o req held
  source ← source_present o req.from_host (key_of req)
  source ← presence_verdict req source
  status ← dest_state o req.to_host (key_of req)
  status ← status_verdict req status
  interrupted ← ask o check_context
  context_verdict interrupted
  committed ← is_committed o req status
  pure (survey_of source status committed)

unfoldable pub compensate : Outside → MigrateRequest → Survey → Bool → Run (Unit {0}) Outcome
unfolding roll_forward fall_back
compensate o req s true = roll_forward o req s.source
compensate o req s false = fall_back o req s.status s.source

abbrev pub give_up_uncertain : Unit {0} → Early
give_up_uncertain _ = Early.inconclusive

abbrev pub outcome_at_end : Result Early Outcome → Outcome
outcome_at_end (ok outcome) = outcome
outcome_at_end (err early) = outcome_of early

unfoldable pub reconcile_migrate : {E : Type 0} → Outside → MigrateRequest → Run E Outcome
unfolding survey compensate
reconcile_migrate o req =
    then_settle
      (do s ← survey o req; give_up_with give_up_uncertain (compensate o req s s.committed))
      (λ r. pure (outcome_at_end r))
