-- ===== src/Store/Backups.antt =====
-- internal/store/backups.go, and the backup methods of internal/store/memory.go.
--
-- The map `m.backups` is an association list by id, in the order that a `range` over it takes. A
-- method is a function from the map to the new one and its results; `time.Now` is an argument.
pub mod Settled
pub mod Newest
mod Tests
use podman_api.Common.{
  ℕ, ◌≡◌, Bool, true, false, ◌&&◌, ◌||◌, not, Option, none, some, List, [], ◌∷◌, map, String,
  string_eq, nat_eq, ◌==◌, Eq, ◌↔◌, refl, arith, if◌then◌else◌, get, put, remove, keep, take, sort,
  str_gt, ltb,
}
use podman_api.Store.Job.{clamp_job_limit}

pub data BackupState : Type 0 where
  creating complete failed : BackupState

pub record ExcludedPaths : Type 0 where
  pub patterns : List String
  pub entries : ℕ
  pub bytes : ℕ

pub record BackupVolume : Type 0 where
  pub name : String
  pub size_bytes : ℕ
  pub manifest : String
  pub manifest_sha256 : String
  pub excluded : Option ExcludedPaths

pub record Backup : Type 0 where
  pub id : String
  pub host : String
  pub template : String
  pub slug : String
  pub state : BackupState
  pub volumes : List BackupVolume
  pub image : String
  pub mode : String
  pub created : ℕ
  pub finished : ℕ

abbrev pub Backups : Type 0
Backups = List (String × Backup)

abbrev pub is_creating : Backup → Bool
is_creating b = elim b.state [ creating ↦ true | _ ↦ false ]

-- Whether the row was created: an id that exists is an error.
unfoldable pub create_backup : ℕ → Backup → Backups → Backups × Bool
create_backup now b rows = elim (get rows b.id) [
  | none ↦ (put b.id (record b { state = creating; created = now; finished = 0 }) rows, true)
  | some old ↦ (rows, false)
]

-- The compare-and-swap that the two transitions share: from creating to a settled row.
unfoldable pub settle : (Backup → Backup) → String → Backups → Backups × Bool
settle change id rows = elim (get rows id) [
  | none ↦ (rows, false)
  | some b ↦ if is_creating b then (put id (change b) rows, true) else (rows, false)
]

abbrev pub completed : ℕ → List BackupVolume → Backup → Backup
completed now volumes b = record b { state = complete; volumes = volumes; finished = now }

abbrev pub failed_at : ℕ → Backup → Backup
failed_at now b = record b { state = failed; finished = now }

unfoldable pub complete_backup : ℕ → String → List BackupVolume → Backups → Backups × Bool
complete_backup now id volumes rows = settle (completed now volumes) id rows

unfoldable pub fail_backup : ℕ → String → Backups → Backups × Bool
fail_backup now id rows = settle (failed_at now) id rows

-- None is `ErrNotFound`.
unfoldable pub get_backup : String → Backups → Option Backup
get_backup id rows = get rows id

-- False is `ErrNotFound`.
unfoldable pub delete_backup : String → Backups → Backups × Bool
delete_backup id rows = elim (get rows id) [
  | none ↦ (rows, false)
  | some b ↦ (remove id rows, true)
]

abbrev pub is_of_instance : String → String → String → Backup → Bool
is_of_instance host template slug b = b.host == host && b.template == template && b.slug == slug

-- Created later, or at the same time with a greater id.
unfoldable pub is_newer : Backup → Backup → Bool
is_newer b c = ltb c.created b.created || (b.created == c.created && str_gt b.id c.id)

abbrev pub is_older : Backup → Backup → Bool
is_older b c = is_newer c b

abbrev pub values : Backups → List Backup
values rows = map (λ entry. entry.1) rows

unfoldable pub list_backups : String → String → String → ℕ → Backups → List Backup
list_backups host template slug limit rows =
    take (clamp_job_limit limit)
      (sort is_older (keep (is_of_instance host template slug) (values rows)))
