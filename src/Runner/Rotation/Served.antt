-- ===== src/Runner/Rotation/Served.antt =====
-- internal/jobs/runner.go, claimRotating: which kind a claim serves.
use podman_api.Common.{
  ℕ, ◌≡◌, refl, ap, List, [], ◌∷◌, String, arith, Option, none, some, All, ◌++◌, Fails, Found,
  string_eq,
}
use podman_api.Store.Job.{Job, JobState_eq}
use podman_api.Store.Jobs.{is_queued_of, claim_next_matching, claimed}
use podman_api.Store.Jobs.Claims.{Claims, claim_next_matching-Claims}
use podman_api.Runner.Rotation.{
  Rotation, Claimed, order, served, claim_in_order, claim_round, claim_rotating,
}

-- No row of this kind is queued.
abbrev pub IsIdle : List Job → String → Type 0
IsIdle jobs kind = All (Fails (is_queued_of (kind ∷ []))) jobs

-- A claim that served a kind: the kinds tried before it had nothing queued, the row is the oldest
-- queued one of the kind, and the rotation records the kind as the last served.
pub record Serves (r : Rotation) (kinds : List String) (now : ℕ) (jobs : List Job) (c : Claimed)
    (j : Job) : Type 0 where
  pub kind : String
  pub tried : List String
  pub untried : List String
  pub split : kinds ≡ tried ++ kind ∷ untried
  pub idle : All (IsIdle jobs) tried
  pub found : Found (is_queued_of (kind ∷ [])) (claimed now) jobs j c.jobs
  pub rotated : c.rotation ≡ served r kind

-- A claim that found nothing changes nothing, and no kind had anything queued.
pub record FindsNone (r : Rotation) (kinds : List String) (jobs : List Job) (c : Claimed)
    : Type 0 where
  pub same_jobs : c.jobs ≡ jobs
  pub same_rotation : c.rotation ≡ r
  pub idle : All (IsIdle jobs) kinds

abbrev pub Outcome : Rotation → List String → ℕ → List Job → Claimed → Option Job → Type 0
Outcome r kinds now jobs c none = FindsNone r kinds jobs c
Outcome r kinds now jobs c (some j) = Serves r kinds now jobs c j

skip :
    (r : Rotation) (kind : String) (kinds : List String) (now : ℕ) (jobs : List Job) (c : Claimed)
    (o : Option Job)
    → IsIdle jobs kind
    → Outcome r kinds now jobs c o
    → Outcome r (kind ∷ kinds) now jobs c o
skip r kind kinds now jobs c none i h = record {
  same_jobs = h.same_jobs;
  same_rotation = h.same_rotation;
  idle = (i, h.idle);
}
skip r kind kinds now jobs c (some j) i h = record {
  kind = h.kind;
  tried = kind ∷ h.tried;
  untried = h.untried;
  split = ap (◌∷◌ kind) h.split;
  idle = (i, h.idle);
  found = h.found;
  rotated = h.rotated;
}

round-Outcome :
    (r : Rotation) (kind : String) (kinds : List String) (now : ℕ) (jobs : List Job)
    (answer : List Job × Option Job) (rest : Claimed)
    → Claims (is_queued_of (kind ∷ [])) now jobs answer
    → Outcome r kinds now jobs rest rest.job
    → Outcome r
        (kind ∷ kinds)
        now
        jobs
        (claim_round r kind answer rest)
        (claim_round r kind answer rest).job
round-Outcome r kind kinds now jobs (jobs', none) rest a h =
    skip r kind kinds now jobs rest rest.job a.1 h
round-Outcome r kind kinds now jobs (jobs', some j) rest a h = record {
  kind = kind;
  tried = [];
  untried = kinds;
  split = refl;
  idle = tt;
  found = a;
  rotated = refl;
}

claim_in_order-Outcome :
    (r : Rotation) (kinds : List String) (now : ℕ) (jobs : List Job)
    → Outcome r kinds now jobs
        (claim_in_order r kinds now jobs)
        (claim_in_order r kinds now jobs).job
unfolding claim_in_order
claim_in_order-Outcome r [] now jobs = record { same_jobs = refl; same_rotation = refl; idle = tt }
claim_in_order-Outcome r (kind ∷ kinds) now jobs =
    round-Outcome r kind kinds now jobs (claim_next_matching (kind ∷ []) now jobs)
      (claim_in_order r kinds now jobs) (claim_next_matching-Claims (kind ∷ []) now jobs)
      (claim_in_order-Outcome r kinds now jobs)

-- A claim of the reserved pool tries the kinds in the order of the rotation: it claims the oldest
-- queued row of the first kind that has one and records that kind as served, or none of the kinds
-- has a queued row and nothing changes.
pub claim_rotating-Outcome :
    (r : Rotation) (kinds : List String) (now : ℕ) (jobs : List Job)
    → Outcome r
        (order r kinds)
        now
        jobs
        (claim_rotating r kinds now jobs)
        (claim_rotating r kinds now jobs).job
unfolding claim_rotating
claim_rotating-Outcome r kinds now jobs = claim_in_order-Outcome r (order r kinds) now jobs

pub served_kind :
    (r : Rotation) (kinds : List String) (now : ℕ) (jobs : List Job) (c : Claimed) (j : Job)
    (s : Serves r kinds now jobs c j)
    → j.kind ≡ s.kind
served_kind r kinds now jobs c j s =
    ground (arith, s.found.result, s.found.passes, string_eq.same_iff s.kind s.found.item.kind)
