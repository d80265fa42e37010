-- ===== src/Store/Jobs/Claims.antt =====
-- internal/store/memory.go: what the three claims promise, alone, as two pools and in sequence.
use podman_api.Common.{
  ℕ, ◌+◌, ◌≡◌, refl, Bool, true, ◌&&◌, Option, none, some, List, [], ◌∷◌, String, arith,
  Option-cases, inl, inr, string_eq, ◌==◌, if◌then◌else◌, All, Fails, Found, update_first,
  update_first-none, update_first-Found, count, count-append,
}
use podman_api.Store.Job.{queued, JobState_eq, Job}
use podman_api.Store.Jobs.{
  claimed, claim_where, claim_next, claim_next_matching, claim_next_excluding, is_queued,
  is_queued_of, is_queued_not_of, has_id,
}

-- A claim either leaves the rows alone and none of them passed, or gives the first one that did.
abbrev pub Claims : (Job → Bool) → ℕ → List Job → List Job × Option Job → Type 0
Claims p now jobs (jobs', none) = (jobs' ≡ jobs) × All (Fails p) jobs
Claims p now jobs (jobs', some j) = Found p (claimed now) jobs j jobs'

claim_where-Claims :
    (p : Job → Bool) (now : ℕ) (jobs : List Job) → Claims p now jobs (claim_where p now jobs)
unfolding claim_where
claim_where-Claims p now jobs = elim (Option-cases (update_first p (claimed now) jobs)) [
  | inl e ↦ rw (e, claim_where) (refl, update_first-none p (claimed now) jobs e)
  | inr (r, e) ↦ rw (e, claim_where) (update_first-Found p (claimed now) jobs r.0 r.1 e)
]

none-of-[] : (jobs : List Job) → All (Fails (is_queued_of [])) jobs
none-of-[] [] = tt
none-of-[] (j ∷ jobs) = (ground arith, none-of-[] jobs)

pub claim_next_matching-Claims :
    (kinds : List String) (now : ℕ) (jobs : List Job)
    → Claims (is_queued_of kinds) now jobs (claim_next_matching kinds now jobs)
unfolding claim_next_matching
claim_next_matching-Claims [] now jobs = (refl, none-of-[] jobs)
claim_next_matching-Claims (k ∷ kinds) now jobs =
    claim_where-Claims (is_queued_of (k ∷ kinds)) now jobs

-- Each of the three claims gives the oldest queued row of the kinds that it may take, with only
-- its state and start time changed and all other rows as they were, or changes nothing because
-- there is no such row.
pub claim-Claims :
    (kinds : List String) (now : ℕ) (jobs : List Job)
    → Claims is_queued now jobs (claim_next now jobs)
      × Claims (is_queued_of kinds) now jobs (claim_next_matching kinds now jobs)
      × Claims (is_queued_not_of kinds) now jobs (claim_next_excluding kinds now jobs)
unfolding claim_next claim_next_excluding
claim-Claims kinds now jobs = (
  claim_where-Claims is_queued now jobs,
  claim_next_matching-Claims kinds now jobs,
  claim_where-Claims (is_queued_not_of kinds) now jobs,
)

pub pools_cover_row :
    (kinds : List String) (jobs : List Job)
    → All (Fails (is_queued_of kinds)) jobs
    → All (Fails (is_queued_not_of kinds)) jobs
    → All (Fails is_queued) jobs
pools_cover_row kinds [] h k = tt
pools_cover_row kinds (j ∷ jobs) h k = (ground arith, pools_cover_row kinds jobs h.1 k.1)

pub Claims-none :
    (p : Job → Bool) (now : ℕ) (jobs : List Job) (r : List Job × Option Job)
    → Claims p now jobs r
    → r.1 ≡ none
    → All (Fails p) jobs
Claims-none p now jobs (jobs', none) h e = h.1
Claims-none p now jobs (jobs', some j) h e = cc

-- Where neither the reserved pool nor the general pool finds a row to claim, no row of any kind,
-- registered or not, is queued.
pub pools_cover :
    (kinds : List String) (now later : ℕ) (jobs : List Job)
    → (claim_next_matching kinds now jobs).1 ≡ none
    → (claim_next_excluding kinds later jobs).1 ≡ none
    → All (Fails is_queued) jobs
pools_cover kinds now later jobs m x =
    pools_cover_row kinds jobs
      (Claims-none (is_queued_of kinds) now jobs _ (claim_next_matching-Claims kinds now jobs) m)
      (Claims-none (is_queued_not_of kinds) later jobs _ (claim-Claims kinds later jobs).2 x)

-- A worker's claim, of whichever pool.
pub data Claim : Type 0 where
  any : ℕ → Claim
  matching excluding : List String → ℕ → Claim

unfoldable pub claim : Claim → List Job → List Job × Option Job
claim (any now) = claim_next now
claim (matching kinds now) = claim_next_matching kinds now
claim (excluding kinds now) = claim_next_excluding kinds now

abbrev dispensed : Option Job → List Job → List Job
dispensed none js = js
dispensed (some j) js = j ∷ js

-- Claims in the order in which the store's mutex lets them in: the rows, and what was handed out.
unfoldable pub run_claims : List Claim → List Job → List Job × List Job
run_claims [] jobs = (jobs, [])
run_claims (c ∷ cs) jobs =
    let (jobs', out) = claim c jobs in
    let (last, outs) = run_claims cs jobs' in (last, dispensed out outs)

abbrev pub is_queued_id : String → Job → Bool
is_queued_id id j = j.state == queued && j.id == id

abbrev one {ℓ} : {A : Type ℓ} → (A → Bool) → Option A → ℕ
one p none = 0
one p (some x) = if p x then 1 else 0

Claims-count :
    (p : Job → Bool) (now : ℕ) (jobs : List Job) (r : List Job × Option Job) (id : String)
    → ((j : Job) → p j ≡ true → j.state ≡ queued)
    → Claims p now jobs r
    → count (is_queued_id id) jobs ≡ count (is_queued_id id) r.0 + one (has_id id) r.1
Claims-count p now jobs (jobs', none) id q h = rw (h.0) (omega arith)
Claims-count p now jobs (jobs', some j) id q h =
    rw (h.split, h.changed, h.result, count-append, count-append)
      (ground (arith, q h.item h.passes))

claim-count :
    (c : Claim) (jobs : List Job) (id : String)
    → count (is_queued_id id) jobs
      ≡ count (is_queued_id id) (claim c jobs).0 + one (has_id id) (claim c jobs).1
unfolding claim
claim-count (any now) jobs id =
    Claims-count is_queued now jobs _ id (λ j e. ground arith) (claim-Claims [] now jobs).0
claim-count (matching kinds now) jobs id =
    Claims-count (is_queued_of kinds) now jobs _ id (λ j e. ground arith)
      (claim-Claims kinds now jobs).1
claim-count (excluding kinds now) jobs id =
    Claims-count (is_queued_not_of kinds) now jobs _ id (λ j e. ground arith)
      (claim-Claims kinds now jobs).2

count-dispensed :
    (p : Job → Bool) (o : Option Job) (js : List Job)
    → count p (dispensed o js) ≡ one p o + count p js
count-dispensed p none js = omega arith
count-dispensed p (some j) js = refl

-- Whatever claims the workers of all pools make, in whatever order, the queued rows of an id
-- before them are, in number, those still queued after them and those handed out: so none is lost,
-- and no row of a unique id is handed out twice.
pub run_claims-count :
    (cs : List Claim) (jobs : List Job) (id : String)
    → count (is_queued_id id) jobs
      ≡ count (is_queued_id id) (run_claims cs jobs).0 + count (has_id id) (run_claims cs jobs).1
unfolding run_claims
run_claims-count [] jobs id = omega arith
run_claims-count (c ∷ cs) jobs id = omega (
  arith,
  claim-count c jobs id,
  run_claims-count cs (claim c jobs).0 id,
  count-dispensed (has_id id) (claim c jobs).1 (run_claims cs (claim c jobs).0).1,
)
