-- ===== src/Backupctl/Enqueue.antt =====
-- internal/backupctl/controller.go, EnqueueBackup, and the request of internal/instance/backup.go.
--
-- The instance service is the interface that the controller declares. `encoding/json` is a pair of
-- parameters, and a job store that fails is an argument of the call.
pub mod Outcome
pub mod Scope
pub mod Once
use podman_api.Common.{
  ℕ, ◌≡◌, Bool, true, false, ◌&&◌, ◌||◌, Option, none, some, List, [], ◌∷◌, String, string_eq, ◌==◌,
  if◌then◌else◌, contains, any,
}
use podman_api.Store.Job.{Job, JobState, JobFilter, queued, running, reconciling, max_job_limit}
use podman_api.Store.Jobs.{list_jobs, enqueue}

pub record BackupRequest : Type 0 where
  pub backup_id : String
  pub host : String
  pub template : String
  pub slug : String
  pub volumes : List String
  pub mode : String

-- `volumes` is a pointer: absent, or a list.
pub record BackupOptions : Type 0 where
  pub volumes : Option (List String)
  pub mode : String

-- Host, template and slug of the instance.
pub record Target : Type 0 where
  pub host : String
  pub template : String
  pub slug : String

-- The two checks of the service: none, or the error's text.
pub record Service : Type 0 where
  pub check_backup_scope_declared : Target → List String → Option String
  pub check_backupable : Target → List String → Option String

pub record Codec : Type 0 where
  pub marshal : BackupRequest → Option String
  pub unmarshal : String → Option BackupRequest

-- What the store does in this call, and the ids and the time that it draws.
pub record Call : Type 0 where
  pub lists : JobState → Bool
  pub accepts : Bool
  pub backup_id : String
  pub job_id : String
  pub now : ℕ

pub data BackupError : Type 0 where
  empty_scope deferred list_failed marshal_failed enqueue_failed : BackupError
  not_declared not_backupable : String → BackupError

-- `covered` is the empty id without an error.
pub data Answer : Type 0 where
  covered : Answer
  enqueued : String → Answer
  failed : BackupError → Answer

unfoldable pub has_each : List String → List String → Bool
has_each have [] = true
has_each have (v ∷ want) = contains have v && has_each have want

unfoldable pub scope_covers : List String → List String → Bool
scope_covers [] want = true
scope_covers (v ∷ in_flight) [] = false
scope_covers (v ∷ in_flight) (w ∷ want) = has_each (v ∷ in_flight) (w ∷ want)

abbrev pub is_for : Target → BackupRequest → Bool
is_for t r = r.host == t.host && r.template == t.template && r.slug == t.slug

abbrev pub backups_in : JobState → JobFilter
backups_in st = record {
  state = some st;
  kind = "backup";
  parent_id = "";
  before = "";
  limit = max_job_limit;
}

module _ (codec : Codec) where
  -- A row whose arguments are a backup of the instance, with a scope that covers what is wanted.
  unfoldable pub row_covers : Target → List String → Job → Bool
  row_covers t want j = elim (codec.unmarshal j.args) [
    | none ↦ false
    | some r ↦ is_for t r && scope_covers r.volumes want
  ]

  unfoldable pub row_targets : Target → Job → Bool
  row_targets t j = elim (codec.unmarshal j.args) [ none ↦ false | some r ↦ is_for t r ]

  -- `none` where the store does not list.
  unfoldable pub backup_reconciling : Call → Target → List Job → Option Bool
  backup_reconciling c t jobs =
      if c.lists reconciling
      then some (any (row_targets t) (list_jobs (backups_in reconciling) jobs))
      else none

  unfoldable pub backup_in_flight_covering : Call → Target → List String → List Job → Option Bool
  backup_in_flight_covering c t want jobs =
      if c.lists queued
      then (if any (row_covers t want) (list_jobs (backups_in queued) jobs)
          then some true
          else if c.lists running
          then some (any (row_covers t want) (list_jobs (backups_in running) jobs))
          else none)
      else none

-- A step of the call ends it with an answer, or goes on with a value.
pub data Stage (A : Type 0) : Type 0 where
  stop : Answer → Stage A
  go : A → Stage A

infixl 5 ◌>>=◌
abbrev pub ◌>>=◌ : {A B : Type 0} → Stage A → (A → Stage B) → Stage B
stop a >>= f = stop a
go a >>= f = f a

abbrev pub scope_of : Option (List String) → Stage (List String)
scope_of none = go []
scope_of (some []) = stop (failed empty_scope)
scope_of (some (v ∷ volumes)) = go (v ∷ volumes)

abbrev pub passes : (String → BackupError) → Option String → Stage (Unit {0})
passes error none = go tt
passes error (some text) = stop (failed (error text))

-- A query of the store that does not answer fails the call; a `true` ends it.
abbrev pub unless : Answer → Option Bool → Stage (Unit {0})
unless a none = stop (failed list_failed)
unless a (some true) = stop a
unless a (some false) = go tt

abbrev pub marshalled : Option String → Stage String
marshalled none = stop (failed marshal_failed)
marshalled (some args) = go args

abbrev pub request : Call → Target → List String → BackupOptions → BackupRequest
request c t volumes opts = record {
  backup_id = c.backup_id;
  host = t.host;
  template = t.template;
  slug = t.slug;
  volumes = volumes;
  mode = opts.mode;
}

-- The checks in their order, on a scope that is not explicitly empty.
unfoldable pub prepare_scope :
    Codec → Service → Call → Target → BackupOptions → List Job → List String → Stage String
prepare_scope codec s c t opts jobs volumes = do
  declared ← passes not_declared (s.check_backup_scope_declared t volumes)
  settled ← unless (failed deferred) (backup_reconciling codec c t jobs)
  missing ← unless covered (backup_in_flight_covering codec c t volumes jobs)
  present ← passes not_backupable (s.check_backupable t volumes)
  marshalled (codec.marshal (request c t volumes opts))

unfoldable pub prepare : Codec → Service → Call → Target → BackupOptions → List Job → Stage String
unfolding prepare_scope
prepare codec s c t opts jobs = do
  volumes ← scope_of opts.volumes
  prepare_scope codec s c t opts jobs volumes

-- The store's answer to the enqueue.
abbrev pub send : Bool → Call → String → List Job → List Job × Answer
send true c args jobs = ((enqueue c.job_id c.now "backup" args "" jobs).0, enqueued c.job_id)
send false c args jobs = (jobs, failed enqueue_failed)

abbrev pub submit : Call → List Job → Stage String → List Job × Answer
submit c jobs (stop a) = (jobs, a)
submit c jobs (go args) = send c.accepts c args jobs

unfoldable pub enqueue_backup :
    Codec → Service → Call → Target → BackupOptions → List Job → List Job × Answer
unfolding prepare
enqueue_backup codec s c t opts jobs = submit c jobs (prepare codec s c t opts jobs)
