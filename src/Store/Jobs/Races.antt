-- ===== src/Store/Jobs/Races.antt =====
-- internal/store/memory.go: the compare-and-swap transitions against each other.
use podman_api.Common.{
  ℕ, ◌≤◌, ◌≡◌, refl, ap, subst, Bool, true, false, ◌||◌, none, some, List, [], ◌∷◌, ◌++◌, String,
  arith, Option-cases, inl, inr, string_eq, ◌==◌, All, All-append, All-map, Fails, Found,
  update_first, update_first-Found, update_first-none_of_All, All-Fails_of_count, count,
  count-append, and-left, and-false,
}
use podman_api.Store.Job.{JobState, queued, reconciling, succeeded, failed, JobState_eq, Job}
use podman_api.Store.Jobs.{
  ok, resolve_reconciling, cancel_reconciling, cancel_queued, claim_next, claimed, ended,
  canceled_at, has_id, has_id_in, swap_result, ok_swap, is_queued,
}
use podman_api.Store.Jobs.Claims.{Claims, claim-Claims}

-- Ids are unique.
abbrev pub IsUnique : String → List Job → Type 0
IsUnique id jobs = count (has_id id) jobs ≤ 1

-- A change that takes the row out of the state that the swap looks for.
abbrev Leaves : JobState → (Job → Job) → Type 0
Leaves s f = (j : Job) → ((f j).state == s) ≡ false

others_fail :
    (id : String) (s : JobState) (jobs : List Job)
    → All (Fails (has_id id)) jobs
    → All (Fails (has_id_in id s)) jobs
others_fail id s jobs h =
    All-map (Fails (has_id id)) (Fails (has_id_in id s)) (λ j e. ground arith) jobs h

others_none :
    (id : String) (before after : List Job) (j : Job)
    → IsUnique id (before ++ j ∷ after)
    → has_id id j ≡ true
    → count (has_id id) after ≡ 0
others_none id before after j unique e =
    omega (arith, rw e at (count-append (has_id id) before (j ∷ after)))

-- After one swap no other swap from the same state finds the row.
swap_once :
    (id : String) (s : JobState) (f g : Job → Job) (jobs : List Job) (j : Job) (jobs' : List Job)
    → Leaves s f
    → IsUnique id jobs
    → Found (has_id_in id s) f jobs j jobs'
    → update_first (has_id_in id s) g jobs' ≡ none
swap_once id s f g jobs j jobs' leaves unique h = rw h.changed (
    update_first-none_of_All (has_id_in id s) g (h.before ++ f h.item ∷ h.after) (
      All-append (Fails (has_id_in id s)) h.before (f h.item ∷ h.after) h.first (
        and-false _ _ (leaves h.item),
        others_fail id s h.after (All-Fails_of_count (has_id id) h.after alone),
      )))
  where
    alone : count (has_id id) h.after ≡ 0
    alone =
        others_none id h.before h.after h.item (subst (IsUnique id) h.split unique)
          (and-left _ _ h.passes)

pub swap_result-true :
    (p : Job → Bool) (f : Job → Job) (jobs jobs' : List Job)
    → swap_result jobs (update_first p f jobs) ≡ (jobs', true)
    → (j : Job) × Found p f jobs j jobs'
swap_result-true p f jobs jobs' e = elim (Option-cases (update_first p f jobs)) [
  | inl n ↦ absurd (ground arith)
  | inr (r, s) ↦ (r.0, update_first-Found p f jobs r.0 jobs' (ground arith))
]

-- The one swap that wins excludes every later one from that state, which then changes nothing.
swap_loses :
    (id : String) (s : JobState) (f g : Job → Job) (jobs jobs' : List Job)
    → Leaves s f
    → IsUnique id jobs
    → swap_result jobs (update_first (has_id_in id s) f jobs) ≡ (jobs', true)
    → swap_result jobs' (update_first (has_id_in id s) g jobs') ≡ (jobs', false)
swap_loses id s f g jobs jobs' leaves unique won =
    let (j, found) = swap_result-true (has_id_in id s) f jobs jobs' won in
    rw (swap_once id s f g jobs j jobs' leaves unique found)

abbrev pub resolves_to : JobState → Bool
resolves_to s = s == succeeded || s == failed

-- An operator's cancel that wins makes the reconcile loop's later resolve of the same row a no-op
-- that reports false, where the id is unique and the resolve asks for a state that it may set.
pub resolve_after_cancel :
    (id : String) (state : JobState) (message : String) (now later : ℕ) (jobs jobs' : List Job)
    → IsUnique id jobs
    → resolves_to state ≡ true
    → cancel_reconciling id now jobs ≡ (jobs', true)
    → resolve_reconciling id state message later jobs' ≡ (jobs', ok false)
unfolding cancel_reconciling resolve_reconciling
resolve_after_cancel id state message now later jobs jobs' unique valid won = rw valid (
    ap ok_swap (
      swap_loses id reconciling (canceled_at now) (ended state message later) jobs jobs' (λ j. refl)
        unique won))

-- A resolve that wins makes a later cancel of the same reconciling row a no-op that reports false,
-- where the id is unique and the resolve asks for a state that it may set.
pub cancel_after_resolve :
    (id : String) (state : JobState) (message : String) (now later : ℕ) (jobs jobs' : List Job)
    → IsUnique id jobs
    → resolves_to state ≡ true
    → resolve_reconciling id state message now jobs ≡ (jobs', ok true)
    → cancel_reconciling id later jobs' ≡ (jobs', false)
unfolding cancel_reconciling resolve_reconciling
cancel_after_resolve id state message now later jobs jobs' unique valid won =
    swap_loses id reconciling (ended state message now) (canceled_at later) jobs jobs'
      (λ j. ground arith) unique (ground arith)

not_queued_id :
    (id : String) (jobs : List Job)
    → All (Fails is_queued) jobs
    → All (Fails (has_id_in id queued)) jobs
not_queued_id id jobs h =
    All-map (Fails is_queued) (Fails (has_id_in id queued)) (λ j e. and-false _ _ e) jobs h

-- Once a worker has claimed a row, cancelling it as a queued one changes nothing and reports
-- false, where the id is unique.
pub cancel_after_claim :
    (now later : ℕ) (jobs : List Job) (j : Job) (jobs' : List Job)
    → IsUnique j.id jobs
    → claim_next now jobs ≡ (jobs', some j)
    → cancel_queued j.id later jobs' ≡ (jobs', false)
unfolding cancel_queued
cancel_after_claim now later jobs j jobs' unique won =
    rw (update_first-none_of_All (has_id_in j.id queued) (canceled_at later) jobs' gone)
  where
    found : Found is_queued (claimed now) jobs j jobs'
    found = subst (Claims is_queued now jobs) won (claim-Claims [] now jobs).0

    same : has_id j.id found.item ≡ true
    same = rw found.result ((string_eq.same_iff _ _).1 refl)

    gone : All (Fails (has_id_in j.id queued)) jobs'
    gone = rw found.changed (
        All-append (Fails (has_id_in j.id queued)) found.before
          (claimed now found.item ∷ found.after) (not_queued_id j.id found.before found.first)
          (
            and-false _ _ refl,
            others_fail j.id queued found.after (
                All-Fails_of_count (has_id j.id) found.after (
                  others_none j.id found.before found.after found.item
                    (subst (IsUnique j.id) found.split unique) same)),
          ))
