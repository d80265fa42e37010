-- ===== src/Store/Jobs/Pruning/Parents.antt =====
-- internal/store/memory.go, PruneJobs: the parents of the rows that survive.
use podman_api.Common.{
  ℕ, ◌≡◌, refl, ◌∙◌, Bool, true, false, ◌&&◌, not, List, [], ◌∷◌, String, arith, Bool-cases, inl,
  inr, string_eq, ◌==◌, All, All-map, count, keep, count-keep, All-keep,
}
use podman_api.Store.Job.{Job}
use podman_api.Store.Jobs.{
  referenced, prune_jobs, is_child, is_expired_child, is_expired_unreferenced, has_id,
}
use podman_api.Store.Jobs.Pruning.{survivors, kept, prune_jobs_lem}

-- No child is itself a parent: an evacuation has migrations as children, and those have none.
abbrev pub IsTwoLevel : List Job → Type 0
IsTwoLevel jobs = All (λ j. (is_child j && referenced jobs j.id) ≡ false) jobs

-- Every child among the first rows has its parent id referenced by the second.
abbrev IsLinked : List Job → List Job → Type 0
IsLinked js ks = All (λ j. (is_child j && not (referenced ks j.parent_id)) ≡ false) js

IsLinked-self : (js : List Job) → IsLinked js js
unfolding referenced
IsLinked-self [] = tt
IsLinked-self (j ∷ js) = (
  ground (arith, (string_eq.same_iff j.parent_id j.parent_id).1 refl),
  All-map (λ k. (is_child k && not (referenced js k.parent_id)) ≡ false) _ (λ k e. ground arith) js
      (IsLinked-self js),
)

linked-children :
    (js ks : List Job)
    → IsLinked js ks
    → All (λ j. referenced ks j.parent_id ≡ true) (keep is_child js)
linked-children [] ks h = tt
linked-children (j ∷ js) ks h = elim (Bool-cases (is_child j)) [
  | inl e ↦ rw e (ground arith, linked-children js ks h.1)
  | inr e ↦ rw e (linked-children js ks h.1)
]

referenced_of_keep :
    (q : Job → Bool) (js : List Job) (id : String)
    → referenced (keep q js) id ≡ true
    → referenced js id ≡ true
unfolding referenced
referenced_of_keep q [] id h = h
referenced_of_keep q (j ∷ js) id h = ground (arith, referenced_of_keep q js id)

referenced_eq :
    (js : List Job) (k id : String)
    → (k == id) ≡ true
    → referenced js id ≡ true
    → referenced js k ≡ true
referenced_eq js k id same used = rw ((string_eq.same_iff k id).0 same) used

-- Every row of a referenced id comes through both passes.
parent-kept :
    (older_than : ℕ) (jobs : List Job) (id : String)
    → IsTwoLevel jobs
    → referenced (survivors older_than jobs) id ≡ true
    → count (has_id id) (kept older_than jobs) ≡ count (has_id id) jobs
unfolding kept survivors
parent-kept older_than jobs id two h =
    count-keep (has_id id)
      (λ j. not (is_expired_unreferenced older_than (survivors older_than jobs) j))
      (survivors older_than jobs) (second (survivors older_than jobs))
    ∙ count-keep (has_id id) (λ j. not (is_expired_child older_than j)) jobs
        (All-map (λ j. (is_child j && referenced jobs j.id) ≡ false) _ (λ j e. first j e) jobs two)
  where
    used : referenced jobs id ≡ true
    used = referenced_of_keep (λ j. not (is_expired_child older_than j)) jobs id h

    first :
        (j : Job)
        → (is_child j && referenced jobs j.id) ≡ false
        → (has_id id j && not (not (is_expired_child older_than j))) ≡ false
    first j e = elim (Bool-cases (j.id == id)) [
      | inl same ↦ ground (arith, referenced_eq jobs j.id id same used)
      | inr other ↦ rw other
    ]

    second :
        (js : List Job)
        → All
            (λ j.
              (has_id id j
                && not (not (is_expired_unreferenced older_than (survivors older_than jobs) j)))
              ≡ false)
            js
    second [] = tt
    second (j ∷ js) = (
      elim (Bool-cases (j.id == id)) [
        | inl same ↦ ground (arith, referenced_eq (survivors older_than jobs) j.id id same h)
        | inr other ↦ rw other
      ],
      second js,
    )

-- Where no child is itself a parent, PruneJobs keeps as many rows of the parent id of every
-- surviving child as there were.
pub prune_jobs-parents :
    (older_than : ℕ) (jobs : List Job)
    → IsTwoLevel jobs
    → All
        (λ j.
          count (has_id j.parent_id) (prune_jobs older_than jobs).0
          ≡ count (has_id j.parent_id) jobs)
        (keep is_child (prune_jobs older_than jobs).0)
prune_jobs-parents older_than jobs two = rw (prune_jobs_lem older_than jobs) (
    All-map (λ j. referenced (survivors older_than jobs) j.parent_id ≡ true) _
      (λ j e. parent-kept older_than jobs j.parent_id two e) (keep is_child (kept older_than jobs))
      (linked-children (kept older_than jobs) (survivors older_than jobs) (
        unfold kept in
        All-keep _ _ (survivors older_than jobs) (IsLinked-self (survivors older_than jobs)))))
