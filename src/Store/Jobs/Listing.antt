-- ===== src/Store/Jobs/Listing.antt =====
-- internal/store/memory.go, ListJobs: one page of the matching rows, newest first.
use mathlib.Core.List.{Perm}
use podman_api.Common.{
  sort, sort-Perm, length-sort, count-sort, IsInOrder, sort-IsInOrder, ℕ, ◌≤◌, ◌≡◌, ap, ◌∙◌, min,
  Bool, List, ◌++◌, arith, length, take, drop, keep, str_gt_asym, str_gt_cotrans, take-append-drop,
  length-take, take-all, count,
}
use podman_api.Store.Job.{Job, JobFilter, clamp_job_limit}
use podman_api.Store.Jobs.{matches_filter, is_older_row, list_jobs}

-- No row has a greater id than one before it.
abbrev pub IsNewestFirst : List Job → Type 0
IsNewestFirst = IsInOrder is_older_row

sort-IsNewestFirst : (jobs : List Job) → IsNewestFirst (sort is_older_row jobs)
sort-IsNewestFirst =
    sort-IsInOrder is_older_row (λ j k. str_gt_asym k.id j.id)
      (λ j k m p q. str_gt_cotrans m.id k.id j.id q p)

-- A page with the older matching rows that it leaves out is all matching rows, newest first.
pub record Page (f : JobFilter) (jobs page : List Job) : Type 0 where
  pub older : List Job
  pub complete : Perm (page ++ older) (keep (matches_filter f) jobs)
  pub newest_first : IsNewestFirst (page ++ older)
  pub size : length page ≡ min (clamp_job_limit f.limit) (length (keep (matches_filter f) jobs))

-- ListJobs gives the newest matching rows by id, newest first, as many as the clamped limit
-- allows; with the rows that it leaves out they are a rearrangement of all matching rows, none of
-- those left out newer than any that is given.
pub list_jobs-Page : (f : JobFilter) (jobs : List Job) → Page f jobs (list_jobs f jobs)
unfolding list_jobs
list_jobs-Page f jobs = record {
  older = drop (clamp_job_limit f.limit) sorted;
  complete = rw split (sort-Perm is_older_row (keep (matches_filter f) jobs));
  newest_first = rw split (sort-IsNewestFirst (keep (matches_filter f) jobs));
  size =
      length-take (clamp_job_limit f.limit) sorted
      ∙ ap (min (clamp_job_limit f.limit))
          (length-sort is_older_row (keep (matches_filter f) jobs));
}
  where
    sorted : List Job
    sorted = sort is_older_row (keep (matches_filter f) jobs)

    split : take (clamp_job_limit f.limit) sorted ++ drop (clamp_job_limit f.limit) sorted ≡ sorted
    split = take-append-drop (clamp_job_limit f.limit) sorted

-- A clamped limit lies between 1 and 1000, and clamping it again changes nothing.
pub clamp_job_limit-bounds :
    (n : ℕ)
    → (1 ≤ clamp_job_limit n)
      × (clamp_job_limit n ≤ 1000)
      × (clamp_job_limit (clamp_job_limit n) ≡ clamp_job_limit n)
unfolding clamp_job_limit
clamp_job_limit-bounds n = ground arith

-- A page that has place for every matching row has them all.
pub count-list_jobs :
    (p : Job → Bool) (f : JobFilter) (jobs : List Job)
    → length (keep (matches_filter f) jobs) ≤ clamp_job_limit f.limit
    → count p (list_jobs f jobs) ≡ count p (keep (matches_filter f) jobs)
unfolding list_jobs
count-list_jobs p f jobs fits =
    ap (count p) (
      take-all (clamp_job_limit f.limit) (sort is_older_row (keep (matches_filter f) jobs))
        (omega (arith, length-sort is_older_row (keep (matches_filter f) jobs))))
    ∙ count-sort is_older_row p (keep (matches_filter f) jobs)
