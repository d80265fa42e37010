-- ===== src/Backupctl/Enqueue/Once.antt =====
-- internal/backupctl/controller.go, EnqueueBackup: a repeated tick enqueues nothing.
use podman_api.Common.{
  ◌≤◌, ◌<◌, ◌≡◌, ◌≢◌, true, false, some, List, [], String, string_eq, ◌==◌, arith, count,
  count-append,
}
use podman_api.Store.Job.{Job, JobState_eq, queued}
use podman_api.Store.Jobs.{enqueue}
use podman_api.Backupctl.Enqueue.{
  Codec, Service, Call, Target, BackupOptions, BackupRequest, Answer, covered, enqueued, failed,
  enqueue_backup, row_covers, request, is_for,
}
use podman_api.Backupctl.Enqueue.Outcome.{
  Outcome, enqueue_backup-Outcome, is_backup, is_covering, wanted,
}
use podman_api.Backupctl.Enqueue.Scope.{scope_covers_refl}

-- The JSON of this request is not the empty text, and decodes to the request.
abbrev pub RoundTrips : Codec → BackupRequest → Type 0
RoundTrips codec r =
    (args : String)
    → codec.marshal r ≡ some args
    → ((args == "") ≡ false) × (codec.unmarshal args ≡ some r)

module _ (codec : Codec) (t : Target) (opts : BackupOptions) where
  is_for_own : (c : Call) (volumes : List String) → is_for t (request c t volumes opts) ≡ true
  is_for_own c volumes = ground (
    arith,
    string_eq.same_iff t.host t.host,
    string_eq.same_iff t.template t.template,
    string_eq.same_iff t.slug t.slug,
  )

  row_covers_own :
      (c : Call) (j : Job)
      → codec.unmarshal j.args ≡ some (request c t (wanted opts) opts)
      → row_covers codec t (wanted opts) j ≡ true
  unfolding row_covers
  row_covers_own c j e =
      ground (arith, e, is_for_own c (wanted opts), scope_covers_refl (wanted opts))

  own_covering :
      (c : Call) (id args : String) (jobs : List Job)
      → (args == "") ≡ false
      → codec.unmarshal args ≡ some (request c t (wanted opts) opts)
      → count is_backup jobs < 1000
      → (0 < count (is_covering codec t (wanted opts)) (enqueue id c.now "backup" args "" jobs).0)
        × (count is_backup (enqueue id c.now "backup" args "" jobs).0 ≤ 1000)
  unfolding enqueue
  own_covering c id args jobs written e few =
      rw (count-append, count-append, written)
        (rw
          (row_covers_own c
            (record {
              id = id;
              kind = "backup";
              args = args;
              state = queued;
              steps = [];
              parent_id = "";
              error = "";
              created = c.now;
              started = 0;
              finished = 0;
            })
            e)
          (omega arith, omega arith))

  first_covering :
      (c : Call) (id : String) (jobs jobs' : List Job) (a : Answer)
      → count is_backup jobs < 1000
      → RoundTrips codec (request c t (wanted opts) opts)
      → Outcome codec c t opts jobs jobs' a
      → a ≡ enqueued id
      → (0 < count (is_covering codec t (wanted opts)) jobs') × (count is_backup jobs' ≤ 1000)
  first_covering c id jobs jobs' covered few trips h e = absurd (ground arith)
  first_covering c id jobs jobs' (failed x) few trips h e = absurd (ground arith)
  first_covering c id jobs jobs' (enqueued own) few trips (args, fine, same, missing, settled) e =
      let (written, decoded) = trips args fine in
      rw same (own_covering c own args jobs written decoded few)

  none_covering :
      (c : Call) (id : String) (jobs jobs' : List Job) (a : Answer)
      → Outcome codec c t opts jobs jobs' a
      → a ≡ enqueued id
      → count (is_covering codec t (wanted opts)) jobs ≡ 0
  none_covering c id jobs jobs' covered h e = absurd (ground arith)
  none_covering c id jobs jobs' (failed x) h e = absurd (ground arith)
  none_covering c id jobs jobs' (enqueued own) (args, fine, same, missing, settled) e = missing

-- A tick that was enqueued, repeated with the same scope before its row changes, is not enqueued
-- again, where the JSON of the request decodes to the request and the store holds less than 1000
-- backup rows.
pub enqueue_backup_once :
    (codec : Codec) (s later_s : Service) (c later : Call) (t : Target) (opts : BackupOptions)
    (jobs : List Job) (id again : String)
    → count is_backup jobs < 1000
    → RoundTrips codec (request c t (wanted opts) opts)
    → (enqueue_backup codec s c t opts jobs).1 ≡ enqueued id
    → (enqueue_backup codec later_s later t opts (enqueue_backup codec s c t opts jobs).0).1
      ≢ enqueued again
enqueue_backup_once codec s later_s c later t opts jobs id again few trips first second =
    let (some_covering, room) =
      first_covering codec t opts c id jobs _ _ few trips
        (enqueue_backup-Outcome codec s c t opts jobs (omega arith)) first in
    absurd (
      omega (
        arith,
        some_covering,
        none_covering codec t opts later again _ _ _
            (enqueue_backup-Outcome codec later_s later t opts _ room) second,
      ))
