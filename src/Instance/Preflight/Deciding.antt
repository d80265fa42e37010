-- ===== src/Instance/Preflight/Deciding.antt =====
-- internal/instance/migrate.go, preflightIssues: when a check of the preflight leaves the report
-- without issues. What the pieces do with one answer, and how checks that follow each other combine.
use podman_api.Common.{
  ◌≡◌, ◌≢◌, ◌↔◌, inl, inr, refl, ◌∙◌, sym, Bool, true, false, ℕ, pos, nat_eq, List, [], ◌∷◌, ◌++◌,
  Option, none, some, String, All, Bool-cases, contains, if◌then◌else◌,
}
use podman_api.Ingress.Routes.{itoa}
use podman_api.Instance.{
  Error, Sentinel, sentinel, wrap, host_secret_missing, port_conflict, pod_not_found, row_not_found,
  is_error, Result, ok, err, ◌&◌,
}
use podman_api.Instance.Preflight.{
  Report, with_issue, pod_verdict, provision_verdict, with_conflicts, port_verdict, first_report,
}
use podman_api.Instance.Calls.{History, Run, ◌>>=◌, returned, answer}

-- The call answers with this sentinel's error.
abbrev pub Answers : Sentinel → Option Error → Type 0
Answers s none = ⊥
Answers s (some e) = is_error s e ≡ true

pub snoc-ne-nil : {A : Type 0} (xs : List A) (x : A) → xs ++ x ∷ [] ≢ []
snoc-ne-nil [] x e = cc
snoc-ne-nil (y ∷ xs) x e = cc

-- A check leaves a report without issues exactly if there was none and the condition holds, or it stops
-- with an issue, and the condition does not hold.
abbrev pub Decides : {A : Type 0} → Type 0 → Report → (A → Report) → Result Report A → Type 0
Decides P r report (ok a) = ((report a).issues ≡ []) ↔ ((r.issues ≡ []) × P)
Decides P r report (err s) = (s.issues ≢ []) × (¬ P)

abbrev pub same : Report → Report
same r = r

pub worse : (P : Type 0) (r : Report) (e : Error) → ¬ P → Decides P r same (ok (with_issue e r))
worse P r e refuted = (λ q. absurd (snoc-ne-nil r.issues e q), λ x. absurd (refuted x.1))

pub stopped :
    {A : Type 0} (P : Type 0) (r : Report) (report : A → Report) (e : Error)
    → ¬ P
    → Decides P r report (err (with_issue e r))
stopped P r report e refuted = (λ q. snoc-ne-nil r.issues e q, refuted)

pub fine : (P : Type 0) (r r' : Report) → r'.issues ≡ r.issues → P → Decides P r same (ok r')
fine P r r' e p = (λ q. (sym e ∙ q, p), λ x. e ∙ x.0)

pub Decides-next :
    {A B : Type 0} (P Q : Type 0) (r : Report) (report : A → Report) (report' : B → Report) (a : A)
    (b : Result Report B)
    → Decides P r report (ok a)
    → Decides Q (report a) report' b
    → Decides (P × Q) r report' b
Decides-next P Q r report report' a (ok b) d e = (
  λ q. let (ra, y) = e.0 q in let (rr, x) = d.0 ra in (rr, (x, y)),
  λ z. e.1 (d.1 (z.0, z.1.0), z.1.1),
)
Decides-next P Q r report report' a (err s) d e = (e.0, λ z. e.1 z.1)

pub Decides-bind :
    {A B : Type 0} (P Q : Type 0) (r : Report) (report : A → Report) (report' : B → Report)
    (m : Run Report A) (f : A → Run Report B) (h : History)
    → Decides P r report (m h).0
    → ((a : A) (h' : History) → Decides Q (report a) report' (f a h').0)
    → Decides (P × Q) r report' (◌>>=◌ m f h).0
Decides-bind {A = A} {B = B} P Q r report report' m f h d next = joined (m h) d
  where
    joined :
        (x : Result Report A × History)
        → Decides P r report x.0
        → Decides (P × Q) r report' (◌>>=◌ (λ (_ : History). x) f h).0
    joined (ok a, h') d = Decides-next P Q r report report' a (f a h').0 d (next a h')
    joined (err s, h') d = (d.0, λ z. d.1 z.0)

pub pod_verdict-Decides :
    (r : Report) (v : Option Error) (h : History)
    → Decides (Answers pod_not_found v) r same (pod_verdict r v h).0
pod_verdict-Decides r none h =
    worse (Answers pod_not_found none) r (sentinel Sentinel.instance_exists) (λ x. x)
pod_verdict-Decides r (some e) h = elim (Bool-cases (is_error pod_not_found e)) [
  | inl y ↦ rw y (fine (true ≡ true) r r refl refl)
  | inr n ↦ rw n (stopped (false ≡ true) r same (wrap "inspect dest pod" e) (λ x. cc))
]

pub provision_verdict-Decides :
    (name : String) (r : Report) (v : Option Error)
    → Decides (v ≡ none) r same (ok (provision_verdict name r v))
provision_verdict-Decides name r none =
    fine (none ≡ none) r (provision_verdict name r none) refl refl
provision_verdict-Decides name r (some e) = elim (Bool-cases (is_error row_not_found e)) [
  | inl y ↦ rw y (worse (some e ≡ none) r (wrap name (sentinel host_secret_missing)) (λ x. cc))
  | inr n ↦
      rw n (worse (some e ≡ none) r (wrap ("lookup persisted host secret " & name) e) (λ x. cc))
]

pub Decides-iff :
    {A : Type 0} (P Q : Type 0) (r : Report) (report : A → Report) (x : Result Report A)
    → (P ↔ Q)
    → Decides P r report x
    → Decides Q r report x
Decides-iff P Q r report (ok a) same_as d =
    (λ q. let (x, p) = d.0 q in (x, same_as.0 p), λ z. d.1 (z.0, same_as.1 z.1))
Decides-iff P Q r report (err s) same_as d = (d.0, λ q. d.1 (same_as.1 q))

pub next_port :
    (Q : Type 0) (r : Report) (e : Error) (busy : Bool) (f : Report → Report)
    → ((r' : Report) → Decides Q r' same (ok (f r')))
    → Decides ((busy ≡ false) × Q) r same (ok (f (if busy then with_issue e r else r)))
next_port Q r e true f d =
    (λ q. absurd (snoc-ne-nil r.issues e ((d (with_issue e r)).0 q).0), λ z. cc (z.1.0))
next_port Q r e false f d =
    (λ q. let (x, y) = (d r).0 q in (x, (refl, y)), λ z. (d r).1 (z.0, z.1.1))

pub with_conflicts-free :
    (busy want : List ℕ) (r : Report)
    → Decides (All (λ q. contains busy q ≡ false) want) r same (ok (with_conflicts busy want r))
unfolding with_conflicts
with_conflicts-free busy [] r = fine (Unit {0}) r r refl tt
with_conflicts-free busy (p ∷ want) r =
    next_port (All (λ q. contains busy q ≡ false) want) r
      (wrap (itoa (pos p)) (sentinel port_conflict)) (contains busy p) (with_conflicts busy want)
      (with_conflicts-free busy want)

pub port_verdict-Decides :
    (want used : List ℕ) (r : Report) (v : Option Error) (h : History)
    → Decides
        ((v ≡ none) × All (λ q. contains used q ≡ false) want)
        r
        same
        (port_verdict want r (answer v used) h).0
port_verdict-Decides want used r none h =
    Decides-iff (All (λ q. contains used q ≡ false) want)
      ((none ≡ none) × All (λ q. contains used q ≡ false) want) r same
      (ok (with_conflicts used want r)) (λ free. (refl, free), λ z. z.1)
      (with_conflicts-free used want r)
port_verdict-Decides want used r (some e) h =
    stopped ((some e ≡ none) × All (λ q. contains used q ≡ false) want) r same
      (wrap "ports in use" e) (λ z. cc (z.0))

pub returned-empty :
    (P : Type 0) (r : Report) (x : Result Report Report)
    → Decides P r same x
    → ((returned x).issues ≡ []) ↔ ((r.issues ≡ []) × P)
returned-empty P r (ok a) d = d
returned-empty P r (err s) d = (λ q. absurd (d.0 q), λ z. absurd (d.1 z.1))

pub first_report-empty :
    (P : Type 0) (draining : Bool)
    → (((first_report draining).issues ≡ []) × P) ↔ ((draining ≡ false) × P)
first_report-empty P true = (λ z. cc (z.0), λ z. cc (z.0))
first_report-empty P false = (λ z. (refl, z.1), λ z. (refl, z.1))
