-- ===== src/Lib.antt =====
-- podman-api: a control plane that applies, backs up, migrates and prunes podman instances on a fleet
-- of hosts. Work that takes long is a job: a row of the job store, which a pool of workers claims,
-- runs and finishes. Handlers of the HTTP API, schedulers and boot recovery meet only in those rows.
-- This library models the job store, the parts that read and write its rows on their own account, and
-- the move of an instance from host to host, by one migration or by the evacuation of a host.
--
-- How the parts interact. The schedulers (internal/prune, internal/registryprune) and the backup
-- controller (internal/backupctl) list rows to see what is in flight and enqueue new ones. The runner
-- (internal/jobs) claims them, by pool and by rotation over kinds, calls a handler and finishes the
-- row; a restart sends what was running to reconciling or to failed. An operator's cancel races with
-- the claim and with the reconcile loop, and the store decides by compare-and-swap. A migration stops
-- an instance, copies its volumes, applies its spec on the destination and deletes the source, or
-- rolls back; one that a restart interrupted is reconciled from what the hosts and the store show. An
-- evacuation resolves a request to migrations, which it runs as children, so many at a time.
--
-- Which file models what:
--   Common        Names, Boolean tests, list lemmas, the order of texts, sorting by an order, Go maps
--                 as association lists, the loops `update_first` and `update_all`, signed numbers.
--   Store/Job     internal/store/jobs.go: rows, states, filters, limits, clampJobLimit, coalesceStep.
--   Store/Jobs    internal/store/memory.go: the JobStore methods of Memory, each a function from the
--                 slice `m.jobs` to the new slice and the method's results. The lock makes a method
--                 one step, so a history is a list of calls. Ids and times are arguments.
--                 Below it: Claims, Lifecycle, Races, Pruning, Listing and Later.
--   Store/Steps   AppendStep's coalescing, against the log with one entry for each occurrence.
--   Store/Backups internal/store/backups.go and the BackupStore methods of Memory, on the map as an
--                 association list.
--   Runner/Rotation  internal/jobs/runner.go: kindRotation and claimRotating. A claim is one step: the
--                    case of two workers whose claims overlap, in which both may serve the same kind,
--                    as the comment of kindRotation says, is not covered.
--   Runner/Pool      the same file: NewRunner, SetVolumeTransferPool, Start, claim, Cancel, run and
--                    reconcileOne, the last two cut at the call of the handler or reconciler.
--   RegistryPrune/Policy     internal/registryprune/policy.go: Classify and Deletable.
--   RegistryPrune/Scheduler  internal/registryprune/scheduler.go: scanJobs, EnqueueNow and tick.
--   Prune/Policy     internal/prune/policy.go: Resolve and HasScope.
--   Prune/Scheduler  internal/prune/scheduler.go: tick with its scans and the disk probe.
--   Ingress/Routes     internal/ingress/routes.go: deriveRoutes.
--   Backupctl/Enqueue  internal/backupctl/controller.go: EnqueueBackup, its queries and scopeCovers.
--   Backupctl/Last     the same file: LastBackupAt.
--   Instance           internal/instance: sentinels of errors, the keys and requests of migrations,
--                      mergeParams.
--   Instance/Manifest  internal/instance/manifest.go: fingerprints of a volume and firstDiff.
--   Instance/Rendered  internal/instance/migrate.go, requiredHostPorts, and images.go.
--   Instance/Calls     What a migration asks of hosts and store: each call goes on record, and its
--                      answer is any function of the record (`Outside`). A run is a function from the
--                      record to a result and the longer record. Below it: what a run adds to the
--                      record, and what holds after it.
--   Instance/Preflight internal/instance/migrate.go: preflightIssues and preflightDest. Below
--                      it: Deciding, Acceptance and Passing (when a preflight passes).
--   Instance/Moving    the same file: migratePostStop.
--   Instance/Migrate   the same file: Migrate and CheckMigratable. Below it: Justified (when a delete
--                      may be asked for), Endings, Course and Paired.
--   Instance/Reconcile   internal/instance/reconcile.go: ReconcileMigrate.
--   Instance/Evacuation  internal/instance/evacuate.go: ResolveEvacuation and resolveMoves.
--   Instance/Preview     internal/instance/evacuate_plan.go: PlanEvacuation. Below it: Clean.
--   Evacuate           internal/evacuate/handler.go: effectiveConcurrency, runChild, the summary, and
--                      in Fanout the loop of Run as actions that take a slot, start a child, end it or
--                      free its slot, with the answers that each child gets.
--   MigrateJob         internal/migrate/handler.go and reconciler.go, between the rows and Instance.
--   Api/Jobs           internal/api/jobs.go: getJob and cancelJob on the runner's state.
--
-- Numbers. Times and durations are nanoseconds, 0 is the zero time, and a difference of times stops
-- at 0 where no test tells it from a negative one. The rotation's sequence number is a uint64, with
-- its wrap-around written out. A Go `int` whose sign matters is a ℤ, elsewhere a natural number.
-- Queries read at most as many rows as their filter's clamped limit (500 for the schedulers, 1000 for
-- the backup controller); the theorems that need a scan to be complete state that bound. Loops
-- are structural recursion on lists, and the goroutines of an evacuation act in any sequence; only the
-- digits of a port are written on fuel, one more than the number, which each round divides by ten.
--
-- What is a parameter. JSON texts (a pair of functions, with the round trip as a hypothesis where it
-- matters), time.ParseDuration, the comparison of a disk's used share in floating point, the regular
-- expressions of a policy as predicates, the podman client's answers, the lookups of the store that
-- ingress makes, and the failures of a store. To a migration, the answers of the podman client, of the
-- store, of the ingress controller and of the service's own Start, Stop, Delete, Apply and CopyVolume
-- are parameters, as are the YAML documents of a rendered template, rendering, validation, error texts
-- and the time taken. They are any functions; nothing is assumed of them but where a theorem says so.
--
-- What is not modelled. The SQLite store, which implements the same interface in SQL; the podman
-- client, its SSH pool and the rest of the instance service, which act on hosts; the lock that a
-- migration holds throughout; the other HTTP handlers, the admin UI, rendering, configuration files,
-- the metrics themselves and the server's wiring; timers and channels, and the goroutines of the runner
-- and the schedulers, whose effect on rows is a sequence of calls.
mod Common
pub mod Store
pub mod Runner
pub mod RegistryPrune
pub mod Prune
pub mod Backupctl
pub mod Ingress
pub mod Instance
pub mod Evacuate
pub mod Api
pub mod MigrateJob
