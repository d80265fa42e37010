-- ===== src/Runner/Rotation/Fairness.antt =====
-- internal/jobs/runner.go, claimRotating: no kind keeps the pool to itself, where claims do not
-- overlap.
use podman_api.Common.{
  ℕ, suc, ◌^◌, ◌≤◌, ◌<◌, ◌≡◌, sym, ◌∙◌, subst, true, List, [], ◌∷◌, String, arith, Option, none,
  some, inl, inr, All, All-append, All-map, ◌⊎◌, ◌++◌, string_eq, ◌==◌,
}
use podman_api.Store.Job.{Job, JobState_eq}
use podman_api.Runner.Rotation.{Rotation, Claimed, last_of, last_in, order, served, claim_rotating}
use podman_api.Runner.Rotation.Order.{IsLeastRecentFirst, order_lem, order-All}
use podman_api.Runner.Rotation.Served.{IsIdle, Serves, Outcome, claim_rotating-Outcome, served_kind}

abbrev Passed : Rotation → List Job → String → String → Type 0
Passed r jobs kind k = IsIdle jobs k ⊎ (last_of r kind ≤ last_of r k)

sorted-later :
    (r : Rotation) (tried untried : List String) (kind : String)
    → IsLeastRecentFirst r (tried ++ kind ∷ untried)
    → All (λ k. last_of r kind ≤ last_of r k) untried
sorted-later r [] untried kind h = h.0
sorted-later r (t ∷ tried) untried kind h = sorted-later r tried untried kind h.1

All-Passed :
    (r : Rotation) (jobs : List Job) (tried untried : List String) (kind : String)
    → All (IsIdle jobs) tried
    → All (λ k. last_of r kind ≤ last_of r k) untried
    → All (Passed r jobs kind) (tried ++ kind ∷ untried)
All-Passed r jobs tried untried kind h k =
    All-append (Passed r jobs kind) tried (kind ∷ untried)
      (All-map (IsIdle jobs) (Passed r jobs kind) (λ n p. inl p) tried h)
      (
        inr (omega arith),
        All-map (λ n. last_of r kind ≤ last_of r n) (Passed r jobs kind) (λ n p. inr p) untried k,
      )

-- Every sequence number in use has been given out.
abbrev pub IsCurrent : Rotation → Type 0
IsCurrent r = (k : String) → last_of r k ≤ r.seq

served-last :
    (r : Rotation) (kind k : String)
    → IsCurrent r
    → suc r.seq < 2 ^ 64
    → last_of (served r kind) kind ≤ last_of (served r kind) k
    → (k == kind) ≡ true
unfolding last_of last_in served
served-last r kind k current room h = ground (
  arith,
  current k,
  string_eq.same_iff kind k,
  string_eq.same_iff k kind,
  string_eq.same_iff kind kind,
)

-- Every kind of the pool is idle or was served at least as recently as the one that a claim serves.
Serves-Passed :
    (r : Rotation) (kinds : List String) (now : ℕ) (jobs : List Job) (c : Claimed) (j : Job)
    (s : Serves r (order r kinds) now jobs c j)
    → All (Passed r jobs s.kind) kinds
Serves-Passed r kinds now jobs c j s = order-All (Passed r jobs s.kind) r kinds (
    subst (All (Passed r jobs s.kind)) (sym s.split) (
      All-Passed r jobs s.tried s.untried s.kind s.idle (
        sorted-later r s.tried s.untried s.kind
          (subst (IsLeastRecentFirst r) s.split (order_lem r kinds).1))))

-- Two successive claims of the reserved pool that do not overlap, the second made after the first
-- recorded its kind, serve the same kind only if, at the second, no other kind of the pool has a
-- queued row. Between the two the store may change in any way; every recorded sequence number has
-- been given out, and the next does not wrap.
pub no_monopoly :
    (r : Rotation) (kinds : List String) (now later : ℕ) (jobs jobs' : List Job) (j k : Job)
    → IsCurrent r
    → suc r.seq < 2 ^ 64
    → (claim_rotating r kinds now jobs).job ≡ some j
    → (claim_rotating (claim_rotating r kinds now jobs).rotation kinds later jobs').job ≡ some k
    → k.kind ≡ j.kind
    → All (λ m. IsIdle jobs' m ⊎ (m ≡ j.kind)) kinds
no_monopoly r kinds now later jobs jobs' j k current room first second same =
    All-map (Passed c.rotation jobs' s'.kind) _ other kinds
      (Serves-Passed c.rotation kinds later jobs' _ k s')
  where
    c : Claimed
    c = claim_rotating r kinds now jobs

    s : Serves r (order r kinds) now jobs c j
    s = subst (Outcome r (order r kinds) now jobs c) first (claim_rotating-Outcome r kinds now jobs)

    s' :
        Serves c.rotation
          (order c.rotation kinds)
          later
          jobs'
          (claim_rotating c.rotation kinds later jobs')
          k
    s' =
        subst
          (Outcome c.rotation (order c.rotation kinds) later jobs'
            (claim_rotating c.rotation kinds later jobs'))
          second (claim_rotating-Outcome c.rotation kinds later jobs')

    again : s'.kind ≡ s.kind
    again = sym (served_kind _ _ later jobs' _ k s') ∙ same ∙ served_kind r _ now jobs c j s

    other : (m : String) → Passed c.rotation jobs' s'.kind m → IsIdle jobs' m ⊎ (m ≡ j.kind)
    other m (inl idle) = inl idle
    other m (inr recent) = inr (
        (string_eq.same_iff m s.kind).0 (
          served-last r s.kind m current room (
            subst (λ q. last_of q s.kind ≤ last_of q m) s.rotated
              (subst (λ q. last_of c.rotation q ≤ last_of c.rotation m) again recent)))
        ∙ sym (served_kind r _ now jobs c j s))

served-IsCurrent :
    (r : Rotation) (kind : String) → IsCurrent r → suc r.seq < 2 ^ 64 → IsCurrent (served r kind)
unfolding served last_of last_in
served-IsCurrent r kind current room k = ground (arith, current k)

Outcome-IsCurrent :
    (r : Rotation) (kinds : List String) (now : ℕ) (jobs : List Job) (c : Claimed) (o : Option Job)
    → IsCurrent r
    → suc r.seq < 2 ^ 64
    → Outcome r kinds now jobs c o
    → IsCurrent c.rotation
Outcome-IsCurrent r kinds now jobs c none current room h =
    subst IsCurrent (sym h.same_rotation) current
Outcome-IsCurrent r kinds now jobs c (some j) current room h =
    subst IsCurrent (sym h.rotated) (served-IsCurrent r h.kind current room)

-- Where every recorded sequence number has been given out and the next does not wrap, the same
-- holds of the rotation that a claim leaves.
pub claim_rotating-IsCurrent :
    (r : Rotation) (kinds : List String) (now : ℕ) (jobs : List Job)
    → IsCurrent r
    → suc r.seq < 2 ^ 64
    → IsCurrent (claim_rotating r kinds now jobs).rotation
claim_rotating-IsCurrent r kinds now jobs current room =
    Outcome-IsCurrent r (order r kinds) now jobs (claim_rotating r kinds now jobs) _ current room
      (claim_rotating-Outcome r kinds now jobs)
