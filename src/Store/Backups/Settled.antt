-- ===== src/Store/Backups/Settled.antt =====
-- internal/store/memory.go, backups: a backup settles once, and then stays until it is deleted.
use podman_api.Common.{
  ℕ, ◌≡◌, refl, sym, ap, ◌∙◌, Bool, true, false, none, some, List, [], ◌∷◌, String, string_eq, ◌==◌,
  arith, get, put, get-put, get-remove, All, Bool-cases, Option-cases, inl, inr,
}
use podman_api.Store.Backups.{
  Backup, BackupVolume, Backups, is_creating, create_backup, settle, completed, failed_at,
  complete_backup, fail_backup, delete_backup,
}

-- The calls that write backup rows.
pub data Call : Type 0 where
  create : ℕ → Backup → Call
  finish_with : ℕ → String → List BackupVolume → Call
  fail : ℕ → String → Call
  delete : String → Call

unfoldable pub step : Call → Backups → Backups
step (create now b) rows = (create_backup now b rows).0
step (finish_with now id volumes) rows = (complete_backup now id volumes rows).0
step (fail now id) rows = (fail_backup now id rows).0
step (delete id) rows = (delete_backup id rows).0

unfoldable pub run : List Call → Backups → Backups
run [] rows = rows
run (c ∷ calls) rows = run calls (step c rows)

abbrev pub deletes : String → Call → Bool
deletes id (delete other) = other == id
deletes id _ = false

put_other :
    (other id : String) (b v : Backup) (rows : Backups)
    → get rows id ≡ some b
    → (other == id) ≡ false
    → get (put other v rows) id ≡ some b
put_other other id b v rows e d = get-put other id v rows ∙ rw d e

absent_other :
    (other id : String) (b : Backup) (rows : Backups)
    → get rows id ≡ some b
    → get rows other ≡ none
    → (other == id) ≡ false
absent_other other id b rows e n = elim (Bool-cases (other == id)) [
  | inr d ↦ d
  | inl same ↦
      absurd (ground (arith, sym n ∙ ap (get rows) ((string_eq.same_iff other id).0 same) ∙ e))
]

create-get :
    (now : ℕ) (v : Backup) (id : String) (b : Backup) (rows : Backups)
    → get rows id ≡ some b
    → get (create_backup now v rows).0 id ≡ some b
unfolding create_backup
create-get now v id b rows e = elim (Option-cases (get rows v.id)) [
  | inl n ↦ rw (create_backup, n) (put_other v.id id b _ rows e (absent_other v.id id b rows e n))
  | inr (old, f) ↦ rw (create_backup, f) e
]

open_other :
    (other id : String) (b v : Backup) (rows : Backups)
    → get rows id ≡ some b
    → is_creating b ≡ false
    → get rows other ≡ some v
    → is_creating v ≡ true
    → (other == id) ≡ false
open_other other id b v rows e done f opened = elim (Bool-cases (other == id)) [
  | inr d ↦ d
  | inl same ↦ absurd (
      ground
        (arith, done, opened, sym f ∙ ap (get rows) ((string_eq.same_iff other id).0 same) ∙ e))
]

settle-get :
    (change : Backup → Backup) (other id : String) (b : Backup) (rows : Backups)
    → get rows id ≡ some b
    → is_creating b ≡ false
    → get (settle change other rows).0 id ≡ some b
unfolding settle
settle-get change other id b rows e done = elim (Option-cases (get rows other)) [
  | inl n ↦ rw (settle, n) e
  | inr (v, f) ↦ elim (Bool-cases (is_creating v)) [
    | inl opened ↦
        rw (settle, f, opened)
          (put_other other id b (change v) rows e (open_other other id b v rows e done f opened))
    | inr closed ↦ rw (settle, f, closed) e
  ]
]

delete-get :
    (other id : String) (b : Backup) (rows : Backups)
    → get rows id ≡ some b
    → (other == id) ≡ false
    → get (delete_backup other rows).0 id ≡ some b
unfolding delete_backup
delete-get other id b rows e d = elim (Option-cases (get rows other)) [
  | inl n ↦ rw (delete_backup, n) e
  | inr (v, f) ↦ rw (delete_backup, f) (get-remove other id rows ∙ rw d e)
]

step-get :
    (c : Call) (id : String) (b : Backup) (rows : Backups)
    → get rows id ≡ some b
    → is_creating b ≡ false
    → deletes id c ≡ false
    → get (step c rows) id ≡ some b
unfolding step complete_backup fail_backup
step-get (create now v) id b rows e done d = create-get now v id b rows e
step-get (finish_with now other volumes) id b rows e done d =
    settle-get (completed now volumes) other id b rows e done
step-get (fail now other) id b rows e done d = settle-get (failed_at now) other id b rows e done
step-get (delete other) id b rows e done d = delete-get other id b rows e d

-- A backup that is complete or failed stays as it is, volumes included, whatever rows are created,
-- completed, failed or deleted, until it is itself deleted.
pub settled_kept :
    (calls : List Call) (id : String) (b : Backup) (rows : Backups)
    → get rows id ≡ some b
    → is_creating b ≡ false
    → All (λ c. deletes id c ≡ false) calls
    → get (run calls rows) id ≡ some b
unfolding run
settled_kept [] id b rows e done h = e
settled_kept (c ∷ calls) id b rows e done h =
    settled_kept calls id b (step c rows) (step-get c id b rows e done h.0) done h.1

-- Complete with these volumes, or fail, at a time.
pub data Settlement : Type 0 where
  completes : ℕ → List BackupVolume → Settlement
  fails : ℕ → Settlement

abbrev pub settled_by : Settlement → Backup → Backup
settled_by (completes now volumes) = completed now volumes
settled_by (fails now) = failed_at now

unfoldable pub settle_as : Settlement → String → Backups → Backups × Bool
settle_as (completes now volumes) id rows = complete_backup now id volumes rows
settle_as (fails now) id rows = fail_backup now id rows

settle_as-settle :
    (s : Settlement) (id : String) (rows : Backups)
    → settle_as s id rows ≡ settle (settled_by s) id rows
unfolding settle_as complete_backup fail_backup
settle_as-settle (completes now volumes) id rows = refl
settle_as-settle (fails now) id rows = refl

settled_by-closed : (s : Settlement) (b : Backup) → is_creating (settled_by s b) ≡ false
settled_by-closed (completes now volumes) b = refl
settled_by-closed (fails now) b = refl

put_own : (id : String) (v : Backup) (rows : Backups) → get (put id v rows) id ≡ some v
put_own id v rows = get-put id id v rows ∙ rw ((string_eq.same_iff id id).1 refl) refl

settle_closed :
    (change : Backup → Backup) (id : String) (b : Backup) (rows : Backups)
    → get rows id ≡ some b
    → is_creating b ≡ false
    → settle change id rows ≡ (rows, false)
unfolding settle
settle_closed change id b rows e closed = rw (settle, e, closed) refl

settle_won :
    (change : Backup → Backup) (id : String) (rows : Backups)
    → (settle change id rows).1 ≡ true
    → (b : Backup) × (get (settle change id rows).0 id ≡ some (change b))
unfolding settle
settle_won change id rows won = elim (Option-cases (get rows id)) [
  | inl n ↦ absurd (ground (arith, n, won))
  | inr (b, e) ↦ elim (Bool-cases (is_creating b)) [
    | inl opened ↦ (b, rw (settle, e, opened) (put_own id (change b) rows))
    | inr closed ↦ absurd (ground (arith, e, closed, won))
  ]
]

-- Once a backup was completed or failed, each later attempt to complete or fail it reports false
-- and changes nothing.
pub settle_once :
    (s later : Settlement) (id : String) (rows : Backups)
    → (settle_as s id rows).1 ≡ true
    → settle_as later id (settle_as s id rows).0 ≡ ((settle_as s id rows).0, false)
settle_once s later id rows won =
    rw (settle_as-settle s id rows, settle_as-settle later id (settle (settled_by s) id rows).0)
      (let (b, e) =
          settle_won (settled_by s) id rows
            (sym (ap (λ r. r.1) (settle_as-settle s id rows)) ∙ won) in
        settle_closed (settled_by later) id (settled_by s b) (settle (settled_by s) id rows).0 e
          (settled_by-closed s b))
