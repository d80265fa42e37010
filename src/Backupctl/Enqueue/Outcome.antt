-- ===== src/Backupctl/Enqueue/Outcome.antt =====
-- internal/backupctl/controller.go, EnqueueBackup: when a tick is covered, deferred or enqueued.
use podman_api.Common.{
  ◌+◌, ◌≤◌, ◌<◌, ◌≡◌, refl, ap, ◌∙◌, Bool, true, false, ◌&&◌, ◌||◌, Option, none, some, List, [],
  ◌∷◌, String, string_eq, ◌==◌, any, any-count, ltb, arith, count, keep, length,
}
use podman_api.Store.Job.{Job, JobState, JobState_eq, queued, running, reconciling, clamp_job_limit}
use podman_api.Store.Jobs.{list_jobs, enqueue, matches_filter}
use podman_api.Store.Jobs.Listing.{count-list_jobs}
use podman_api.Backupctl.Enqueue.{
  Codec, Service, Call, Target, BackupOptions, Answer, covered, enqueued, failed, Stage, stop, go,
  ◌>>=◌, passes, unless, marshalled, scope_of, request, prepare_scope, not_declared, not_backupable,
  prepare, submit, send, enqueue_backup, row_covers, row_targets, backups_in, backup_reconciling,
  backup_in_flight_covering, deferred,
}

abbrev pub is_backup : Job → Bool
is_backup j = j.kind == "backup"

abbrev is_backup_in : JobState → Job → Bool
is_backup_in st j = is_backup j && j.state == st

count-keep_backups :
    (p : Job → Bool) (st : JobState) (jobs : List Job)
    → count p (keep (matches_filter (backups_in st)) jobs)
      ≡ count (λ j. is_backup_in st j && p j) jobs
unfolding matches_filter
count-keep_backups p st [] = refl
count-keep_backups p st (j ∷ jobs) = ground (arith, count-keep_backups p st jobs)

length-keep_backups :
    (st : JobState) (jobs : List Job)
    → length (keep (matches_filter (backups_in st)) jobs) ≤ count is_backup jobs
unfolding matches_filter
length-keep_backups st [] = omega arith
length-keep_backups st (j ∷ jobs) = ground (arith, length-keep_backups st jobs)

-- A page that has place for every backup sees every row in the state.
any-list_jobs :
    (p : Job → Bool) (st : JobState) (jobs : List Job)
    → count is_backup jobs ≤ 1000
    → any p (list_jobs (backups_in st) jobs) ≡ ltb 0 (count (λ j. is_backup_in st j && p j) jobs)
unfolding clamp_job_limit
any-list_jobs p st jobs few =
    any-count p (list_jobs (backups_in st) jobs)
    ∙ ap (ltb 0) (
        count-list_jobs p (backups_in st) jobs (omega (arith, length-keep_backups st jobs))
        ∙ count-keep_backups p st jobs)

-- A backup of the instance that is queued or running, with a scope that covers what is wanted.
abbrev pub is_covering : Codec → Target → List String → Job → Bool
is_covering codec t want j =
    is_backup j && (j.state == queued || j.state == running) && row_covers codec t want j

abbrev pub is_recovering : Codec → Target → Job → Bool
is_recovering codec t j = is_backup_in reconciling j && row_targets codec t j

count-either :
    (p : Job → Bool) (jobs : List Job)
    → count (λ j. is_backup_in queued j && p j) jobs
        + count (λ j. is_backup_in running j && p j) jobs
      ≡ count (λ j. is_backup j && (j.state == queued || j.state == running) && p j) jobs
count-either p [] = refl
count-either p (j ∷ jobs) = ground (arith, count-either p jobs)

covering_some :
    (codec : Codec) (c : Call) (t : Target) (want : List String) (jobs : List Job) (b : Bool)
    → count is_backup jobs ≤ 1000
    → backup_in_flight_covering codec c t want jobs ≡ some b
    → b ≡ ltb 0 (count (is_covering codec t want) jobs)
unfolding backup_in_flight_covering
covering_some codec c t want jobs b few h = ground (
  arith,
  any-list_jobs (row_covers codec t want) queued jobs few,
  any-list_jobs (row_covers codec t want) running jobs few,
  count-either (row_covers codec t want) jobs,
)

recovering_some :
    (codec : Codec) (c : Call) (t : Target) (jobs : List Job) (b : Bool)
    → count is_backup jobs ≤ 1000
    → backup_reconciling codec c t jobs ≡ some b
    → b ≡ ltb 0 (count (is_recovering codec t) jobs)
unfolding backup_reconciling
recovering_some codec c t jobs b few h =
    ground (arith, any-list_jobs (row_targets codec t) reconciling jobs few)

-- What the checks found, by how they end.
abbrev Ends : Option Bool → Option Bool → Option String → Stage String → Type 0
Ends recovering covering args (stop covered) = (recovering ≡ some false) × (covering ≡ some true)
Ends recovering covering args (stop (enqueued id)) = Unit {0} → 0 < 0
Ends recovering covering args (stop (failed e)) = e ≡ deferred → recovering ≡ some true
Ends recovering covering args (go a) =
    (recovering ≡ some false) × (covering ≡ some false) × (args ≡ some a)

checks-Ends :
    (declared : Option String) (recovering covering : Option Bool) (present args : Option String)
    → Ends recovering covering args (
        passes not_declared declared >>= (λ d. unless (failed deferred) recovering >>= (λ s.
          unless covered covering
          >>= (λ m. passes not_backupable present >>= (λ p. marshalled args)))))
checks-Ends (some e) recovering covering present args = λ h. absurd (ground arith)
checks-Ends none none covering present args = λ h. absurd (ground arith)
checks-Ends none (some true) covering present args = λ h. refl
checks-Ends none (some false) none present args = λ h. absurd (ground arith)
checks-Ends none (some false) (some true) present args = (refl, refl)
checks-Ends none (some false) (some false) (some e) args = λ h. absurd (ground arith)
checks-Ends none (some false) (some false) none none = λ h. absurd (ground arith)
checks-Ends none (some false) (some false) none (some a) = (refl, refl, refl)

-- The volumes that the options ask for; none is every eligible one.
abbrev pub wanted : BackupOptions → List String
wanted opts = elim opts.volumes [ none ↦ [] | some volumes ↦ volumes ]

-- Answer by answer: covered only if a backup in flight does the work, enqueued only if none does
-- and the instance is not recovering, deferred only if it is.
abbrev pub Outcome : Codec → Call → Target → BackupOptions → List Job → List Job → Answer → Type 0
Outcome codec c t opts jobs jobs' covered =
    (jobs' ≡ jobs)
    × (0 < count (is_covering codec t (wanted opts)) jobs)
    × (count (is_recovering codec t) jobs ≡ 0)
Outcome codec c t opts jobs jobs' (enqueued id) =
    (args : String) × (codec.marshal (request c t (wanted opts) opts) ≡ some args)
    × (jobs' ≡ (enqueue id c.now "backup" args "" jobs).0)
    × (count (is_covering codec t (wanted opts)) jobs ≡ 0)
    × (count (is_recovering codec t) jobs ≡ 0)
Outcome codec c t opts jobs jobs' (failed e) =
    (jobs' ≡ jobs) × (e ≡ deferred → 0 < count (is_recovering codec t) jobs)

module _ (codec : Codec) (c : Call) (t : Target) (opts : BackupOptions) (jobs : List Job) where
  submit-Outcome :
      count is_backup jobs ≤ 1000
      → (s : Stage String)
      → Ends
          (backup_reconciling codec c t jobs)
          (backup_in_flight_covering codec c t (wanted opts) jobs)
          (codec.marshal (request c t (wanted opts) opts))
          s
      → Outcome codec c t opts jobs (submit c jobs s).0 (submit c jobs s).1
  submit-Outcome few (stop covered) (settled, covering) = (
    refl,
    ground (arith, covering_some codec c t (wanted opts) jobs true few covering),
    ground (arith, recovering_some codec c t jobs false few settled),
  )
  submit-Outcome few (stop (enqueued id)) h = absurd (omega (arith, h tt))
  submit-Outcome few (stop (failed e)) h =
      (refl, λ d. ground (arith, recovering_some codec c t jobs true few (h d)))
  submit-Outcome few (go args) (settled, missing, fine) = send-Outcome c.accepts
    where
      send-Outcome :
          (accepts : Bool)
          → Outcome codec c t opts jobs (send accepts c args jobs).0 (send accepts c args jobs).1
      send-Outcome true = (
        args,
        fine,
        refl,
        ground (arith, covering_some codec c t (wanted opts) jobs false few missing),
        ground (arith, recovering_some codec c t jobs false few settled),
      )
      send-Outcome false = (refl, λ d. absurd (ground arith))

  scope_checks-Ends :
      (s : Service) (volumes : List String)
      → Ends
          (backup_reconciling codec c t jobs)
          (backup_in_flight_covering codec c t volumes jobs)
          (codec.marshal (request c t volumes opts))
          (prepare_scope codec s c t opts jobs volumes)
  unfolding prepare_scope
  scope_checks-Ends s volumes =
      checks-Ends (s.check_backup_scope_declared t volumes) (backup_reconciling codec c t jobs)
        (backup_in_flight_covering codec c t volumes jobs) (s.check_backupable t volumes)
        (codec.marshal (request c t volumes opts))

prepare-Ends :
    (codec : Codec) (s : Service) (c : Call) (t : Target) (opts : BackupOptions) (jobs : List Job)
    → Ends
        (backup_reconciling codec c t jobs)
        (backup_in_flight_covering codec c t (wanted opts) jobs)
        (codec.marshal (request c t (wanted opts) opts))
        (prepare codec s c t opts jobs)
unfolding prepare
prepare-Ends codec s c t opts jobs = of_scope opts.volumes opts refl
  where
    of_scope :
        (scope : Option (List String)) (o : BackupOptions)
        → o.volumes ≡ scope
        → Ends
            (backup_reconciling codec c t jobs)
            (backup_in_flight_covering codec c t
              (elim scope [ none ↦ [] | some volumes ↦ volumes ])
              jobs)
            (codec.marshal (request c t (elim scope [ none ↦ [] | some volumes ↦ volumes ]) o))
            (scope_of scope >>= prepare_scope codec s c t o jobs)
    of_scope none o e = scope_checks-Ends codec c t o jobs s []
    of_scope (some []) o e = λ d. absurd (ground arith)
    of_scope (some (v ∷ volumes)) o e = scope_checks-Ends codec c t o jobs s (v ∷ volumes)

-- EnqueueBackup answers that a tick is covered only if a queued or running backup of the instance
-- has a scope that covers it and the instance is not recovering; it enqueues one row for the
-- request, and only if no backup in flight covers it and the instance is not recovering; else the
-- store stays as it was, and the tick is deferred only if a backup of the instance is reconciling.
-- This is where the store holds at most 1000 backup rows, as many as a query reads.
pub enqueue_backup-Outcome :
    (codec : Codec) (s : Service) (c : Call) (t : Target) (opts : BackupOptions) (jobs : List Job)
    → count is_backup jobs ≤ 1000
    → let (jobs', answer) = enqueue_backup codec s c t opts jobs in
      Outcome codec c t opts jobs jobs' answer
unfolding enqueue_backup
enqueue_backup-Outcome codec s c t opts jobs few =
    submit-Outcome codec c t opts jobs few (prepare codec s c t opts jobs)
      (prepare-Ends codec s c t opts jobs)
