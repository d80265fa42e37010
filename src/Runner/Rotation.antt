-- ===== src/Runner/Rotation.antt =====
-- internal/jobs/runner.go: the reserved pool's rotation over job kinds, and its claims. The store
-- is the in-memory one, which never fails, so the loop has no error return. A claim is one step:
-- `order`, each claim of a row and `served` take their locks apart from each other, so two workers
-- whose claims overlap may both serve the same kind, as the comment of kindRotation says.
pub mod Order
pub mod Served
pub mod Fairness
use podman_api.Common.{
  sort, ℕ, suc, ◌+◌, ◌^◌, ◌≡◌, Bool, true, false, Option, none, some, List, [], ◌∷◌, String,
  string_eq, ◌==◌, ltb, if◌then◌else◌,
}
use Prim.Native.Nat.{◌%◌}
use podman_api.Store.Job.{Job}
use podman_api.Store.Jobs.{claim_next, claim_next_matching, claim_next_excluding}

-- The map from a kind to the sequence number of its last claim, newest entry first.
pub record Rotation : Type 0 where
  pub seq : ℕ
  pub last : List (String × ℕ)

abbrev pub new_rotation : Rotation
new_rotation = record { seq = 0; last = [] }

-- A Go map gives 0 for an absent key.
unfoldable pub last_in : List (String × ℕ) → String → ℕ
last_in [] kind = 0
last_in ((k, n) ∷ rest) kind = if k == kind then n else last_in rest kind

unfoldable pub last_of : Rotation → String → ℕ
last_of r kind = last_in r.last kind

-- `sort.SliceStable` by the last claim.
abbrev pub is_served_later : Rotation → String → String → Bool
is_served_later r kind other = ltb (last_of r other) (last_of r kind)

unfoldable pub order : Rotation → List String → List String
order r kinds = sort (is_served_later r) kinds

-- `seq` is a uint64.
unfoldable pub served : Rotation → String → Rotation
served r kind = let seq = (r.seq + 1) % 2 ^ 64 in record { seq = seq; last = (kind, seq) ∷ r.last }

pub record Claimed : Type 0 where
  pub rotation : Rotation
  pub jobs : List Job
  pub job : Option Job

-- One round of the loop: what the store answers for a kind, and the rounds after it.
abbrev pub claim_round : Rotation → String → List Job × Option Job → Claimed → Claimed
claim_round r kind (jobs, some j) rest = record {
  rotation = served r kind;
  jobs = jobs;
  job = some j;
}
claim_round r kind (jobs, none) rest = rest

unfoldable pub claim_in_order : Rotation → List String → ℕ → List Job → Claimed
claim_in_order r [] now jobs = record { rotation = r; jobs = jobs; job = none }
claim_in_order r (kind ∷ kinds) now jobs =
    claim_round r kind (claim_next_matching (kind ∷ []) now jobs) (claim_in_order r kinds now jobs)

unfoldable pub claim_rotating : Rotation → List String → ℕ → List Job → Claimed
claim_rotating r kinds now jobs = claim_in_order r (order r kinds) now jobs
