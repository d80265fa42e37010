-- ===== src/Backupctl/Last.antt =====
-- internal/backupctl/controller.go, LastBackupAt, over the rows of the backup store.
use mathlib.Core.List.{Perm}
use podman_api.Common.{
  ℕ, ◌≤◌, ◌≡◌, refl, sym, ap, subst, Bool, true, false, Option, none, some, List, [], ◌∷◌, ◌++◌,
  ◌⊎◌, inl, inr, String, if◌then◌else◌, All, Bool-cases, keep, length, take, take-all, sort,
  sort-Perm, length-sort, All-of_sort, IsInOrder,
}
use podman_api.Store.Job.{clamp_job_limit}
use podman_api.Store.Backups.{
  Backup, Backups, complete, is_newer, is_older, is_of_instance, values, list_backups,
}
use podman_api.Store.Backups.Newest.{backups-IsInOrder}

abbrev pub is_complete : Backup → Bool
is_complete b = elim b.state [ complete ↦ true | _ ↦ false ]

-- The loop over the page: the first complete row, or the zero time.
unfoldable pub first_complete : List Backup → ℕ
first_complete [] = 0
first_complete (b ∷ backups) =
    let rest = first_complete backups in if is_complete b then b.finished else rest

-- None where the service does not know the host.
unfoldable pub last_backup_at : Bool → String → String → String → Backups → Option ℕ
last_backup_at false host template slug rows = none
last_backup_at true host template slug rows =
    some (first_complete (list_backups host template slug 0 rows))

abbrev NoneComplete : List Backup → Type 0
NoneComplete = All (λ b. is_complete b ≡ false)

-- The complete row that a time comes from, with no complete one before it in the order.
pub record IsNewestComplete (backups : List Backup) (time : ℕ) : Type 0 where
  pub newer : List Backup
  pub own : Backup
  pub older : List Backup
  pub split : Perm (newer ++ own ∷ older) backups
  pub incomplete : All (λ b. is_complete b ≡ false) newer
  pub completed : is_complete own ≡ true
  pub not_newer : All (λ b. is_newer b own ≡ false) older
  pub time_of : time ≡ own.finished

record First (backups : List Backup) (time : ℕ) : Type 0 where
  newer : List Backup
  own : Backup
  older : List Backup
  split : newer ++ own ∷ older ≡ backups
  incomplete : NoneComplete newer
  completed : is_complete own ≡ true
  time_of : time ≡ own.finished

past_incomplete :
    (b : Backup) (backups : List Backup) (time : ℕ)
    → is_complete b ≡ false
    → (NoneComplete backups × (time ≡ 0)) ⊎ First backups time
    → (NoneComplete (b ∷ backups) × (time ≡ 0)) ⊎ First (b ∷ backups) time
past_incomplete b backups time e (inl h) = inl ((e, h.0), h.1)
past_incomplete b backups time e (inr f) = inr (record {
  newer = b ∷ f.newer;
  own = f.own;
  older = f.older;
  split = ap (◌∷◌ b) f.split;
  incomplete = (e, f.incomplete);
  completed = f.completed;
  time_of = f.time_of;
})

first_skips :
    (b : Backup) (backups : List Backup)
    → is_complete b ≡ false
    → first_complete (b ∷ backups) ≡ first_complete backups
unfolding first_complete
first_skips b backups e = rw e refl

first_complete_lem :
    (backups : List Backup)
    → (NoneComplete backups × (first_complete backups ≡ 0)) ⊎ First backups (first_complete backups)
unfolding first_complete
first_complete_lem [] = inl (tt, refl)
first_complete_lem (b ∷ backups) = elim (Bool-cases (is_complete b)) [
  | inl e ↦ rw e (
      inr (record {
        newer = [];
        own = b;
        older = backups;
        split = refl;
        incomplete = tt;
        completed = e;
        time_of = refl;
      }))
  | inr e ↦
      subst (λ t. (NoneComplete (b ∷ backups) × (t ≡ 0)) ⊎ First (b ∷ backups) t)
        (sym (first_skips b backups e))
        (past_incomplete b backups (first_complete backups) e (first_complete_lem backups))
]

in_order_behind :
    (newer : List Backup) (own : Backup) (older : List Backup)
    → IsInOrder is_older (newer ++ own ∷ older)
    → All (λ b. is_newer b own ≡ false) older
in_order_behind [] own older h = h.0
in_order_behind (n ∷ newer) own older h = in_order_behind newer own older h.1

-- For a known host, LastBackupAt gives the finish time of a complete backup of the instance such
-- that every newer backup of it is not complete, or the zero time where none is complete. The
-- instance has at most 100 backups, as many as the query reads.
pub last_backup_at-IsNewestComplete :
    (host template slug : String) (rows : Backups)
    → length (keep (is_of_instance host template slug) (values rows)) ≤ 100
    → let backups = keep (is_of_instance host template slug) (values rows) in
      (time : ℕ) × (last_backup_at true host template slug rows ≡ some time)
      × ((All (λ b. is_complete b ≡ false) backups × (time ≡ 0)) ⊎ IsNewestComplete backups time)
unfolding last_backup_at list_backups clamp_job_limit
last_backup_at-IsNewestComplete host template slug rows few = (
  first_complete sorted,
  ap (λ bs. some (first_complete bs)) whole,
  of_sorted (first_complete_lem sorted),
)
  where
    backups : List Backup
    backups = keep (is_of_instance host template slug) (values rows)

    sorted : List Backup
    sorted = sort is_older (keep (is_of_instance host template slug) (values rows))

    whole :
        take 100 (sort is_older (keep (is_of_instance host template slug) (values rows))) ≡ sorted
    whole =
        take-all 100 sorted
          (rw (length-sort is_older (keep (is_of_instance host template slug) (values rows))) few)

    of_sorted :
        (NoneComplete sorted × (first_complete sorted ≡ 0)) ⊎ First sorted (first_complete sorted)
        → (All (λ b. is_complete b ≡ false) backups × (first_complete sorted ≡ 0))
          ⊎ IsNewestComplete backups (first_complete sorted)
    of_sorted (inl h) = inl (All-of_sort is_older (λ b. is_complete b ≡ false) backups h.0, h.1)
    of_sorted (inr f) = inr (record {
      newer = f.newer;
      own = f.own;
      older = f.older;
      split = subst (λ bs. Perm bs backups) (sym f.split) (sort-Perm is_older backups);
      incomplete = f.incomplete;
      completed = f.completed;
      not_newer =
          in_order_behind f.newer f.own f.older
            (subst (IsInOrder is_older) (sym f.split) (backups-IsInOrder backups));
      time_of = f.time_of;
    })
