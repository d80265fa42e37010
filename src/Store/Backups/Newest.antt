-- ===== src/Store/Backups/Newest.antt =====
-- internal/store/memory.go, ListBackups: the newest backups of an instance.
use mathlib.Core.List.{Perm}
use podman_api.Common.{
  ℕ, ◌≡◌, ap, ◌∙◌, true, false, List, ◌++◌, String, nat_eq, arith, keep, take, drop,
  take-append-drop, sort, IsInOrder, sort-Perm, length-sort, sort-IsInOrder, str_gt_asym,
  str_gt_cotrans, length, length-take, min,
}
use podman_api.Store.Job.{clamp_job_limit}
use podman_api.Store.Backups.{
  Backup, Backups, is_newer, is_older, is_of_instance, values, list_backups,
}

older_asym : (b c : Backup) → is_older b c ≡ true → is_older c b ≡ false
unfolding is_newer
older_asym b c h = ground (arith, str_gt_asym c.id b.id)

older_cotrans :
    (b c d : Backup) → is_older b c ≡ false → is_older c d ≡ false → is_older b d ≡ false
unfolding is_newer
older_cotrans b c d h k = ground (arith, str_gt_cotrans d.id c.id b.id)

pub backups-IsInOrder : (backups : List Backup) → IsInOrder is_older (sort is_older backups)
backups-IsInOrder = sort-IsInOrder is_older older_asym older_cotrans

-- A page with the rows that it leaves out is every backup of the instance, newest first.
pub record Page (host template slug : String) (limit : ℕ) (rows : Backups) (page : List Backup)
    : Type 0 where
  pub left_out : List Backup
  pub complete : Perm (page ++ left_out) (keep (is_of_instance host template slug) (values rows))
  pub newest_first : IsInOrder is_older (page ++ left_out)
  pub size :
      length page
      ≡ min
          (clamp_job_limit limit)
          (length (keep (is_of_instance host template slug) (values rows)))

-- ListBackups gives the newest backups of the instance, newest first and by descending id where
-- the times are equal, as many as the clamped limit allows; with the rows that it leaves out they
-- are a rearrangement of all backups of the instance.
pub list_backups-Page :
    (host template slug : String) (limit : ℕ) (rows : Backups)
    → Page host template slug limit rows (list_backups host template slug limit rows)
unfolding list_backups
list_backups-Page host template slug limit rows = record {
  left_out = drop (clamp_job_limit limit) sorted;
  complete = rw split (sort-Perm is_older (keep (is_of_instance host template slug) (values rows)));
  newest_first = rw split (
      sort-IsInOrder is_older older_asym older_cotrans
        (keep (is_of_instance host template slug) (values rows)));
  size =
      length-take (clamp_job_limit limit) sorted
      ∙ ap (min (clamp_job_limit limit))
          (length-sort is_older (keep (is_of_instance host template slug) (values rows)));
}
  where
    sorted : List Backup
    sorted = sort is_older (keep (is_of_instance host template slug) (values rows))

    split : take (clamp_job_limit limit) sorted ++ drop (clamp_job_limit limit) sorted ≡ sorted
    split = take-append-drop (clamp_job_limit limit) sorted
