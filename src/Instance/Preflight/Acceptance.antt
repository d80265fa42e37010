-- ===== src/Instance/Preflight/Acceptance.antt =====
-- internal/instance/migrate.go, preflightIssues: on hosts whose answers do not change, the checks find
-- no issue exactly if the destination takes the instance.
use podman_api.Common.{
  ◌≡◌, ◌⊎◌, ◌↔◌, inl, inr, refl, true, false, ℕ, nat_eq, List, [], ◌∷◌, Option, none, some, String,
  All, Bool-cases, contains,
}
use podman_api.Instance.{
  Error, wrap, pod_not_found, is_error, Result, ok, err, Parameters, MigrateRequest, key_of, ◌&◌,
}
use podman_api.Instance.Rendered.{required_host_ports, container_images}
use podman_api.Instance.Preflight.{
  Report, check_pod, provision_verdict, secret_verdict, check_secrets, rendered_or, check_ports,
  first_report, destination_checks, pull_if, pull_images,
}
use podman_api.Instance.Calls.{
  Template, Call, pod_inspect, secret_inspect, get_host_secret, ports_in_use, History, Outside, Run,
  pure, ◌>>=◌, returned,
}
use podman_api.Instance.Preflight.Deciding.{
  Answers, Decides, same, stopped, fine, Decides-bind, pod_verdict-Decides,
  provision_verdict-Decides, Decides-iff, port_verdict-Decides, returned-empty, first_report-empty,
}

-- Each call is answered alike, whenever it is made.
pub record IsSteady (o : Outside) : Type 0 where
  pub fails : (h : History) (c : Call) → o.fails h c ≡ o.fails [] c
  pub template : (h : History) → o.template h ≡ o.template []
  pub spec : (h : History) → o.spec h ≡ o.spec []
  pub ports : (h : History) → o.ports h ≡ o.ports []

-- The secret is on the destination, or it is known to be absent and its value is persisted.
abbrev pub HasSecret : Outside → MigrateRequest → String → Type 0
HasSecret o m name =
    (o.fails [] (secret_inspect m.to_host name) ≡ none)
    ⊎ (Answers pod_not_found (o.fails [] (secret_inspect m.to_host name))
        × (o.fails [] (get_host_secret m.from_host name) ≡ none))

-- No port is asked for, or the ports in use are known and none of those asked for is among them.
abbrev pub HasPorts : Outside → MigrateRequest → List ℕ → Type 0
HasPorts o m [] = Unit {0}
HasPorts o m (p ∷ want) =
    (o.fails [] (ports_in_use m.to_host) ≡ none)
    × All (λ q. contains (o.ports []) q ≡ false) (p ∷ want)

abbrev pub IsRendered : Outside → MigrateRequest → Result Error String → Type 0
IsRendered o m (ok rendered) = HasPorts o m (required_host_ports (o.port_documents rendered))
IsRendered o m (err e) = ⊥

-- The destination takes the instance of this template with these parameters.
abbrev pub IsAcceptable : Outside → MigrateRequest → Template → Parameters → Type 0
IsAcceptable o m tmpl eff =
    (o.is_draining m.to_host ≡ false)
    × (Answers pod_not_found (o.fails [] (pod_inspect m.to_host (key_of m)))
        × (All (HasSecret o m) tmpl.host_secrets × IsRendered o m (o.render tmpl.body eff)))

abbrev pub with_ports : Outside → MigrateRequest → Report → String → Run Report (String × Report)
with_ports o m r text = do
  r ← check_ports o m (required_host_ports (o.port_documents text)) r
  pure (text, r)

abbrev pub of_pair : String × Report → Report
of_pair s = s.1

module _ (o : Outside) (m : MigrateRequest) (steady : IsSteady o) where
  check_ports-Decides :
      (want : List ℕ) (r : Report) (h : History)
      → Decides (HasPorts o m want) r same (check_ports o m want r h).0
  unfolding check_ports
  check_ports-Decides [] r h = fine (Unit {0}) r r refl tt
  check_ports-Decides (p ∷ want) r h =
      rw (steady.fails h (ports_in_use m.to_host), steady.ports h)
        (port_verdict-Decides (p ∷ want) (o.ports []) r (o.fails [] (ports_in_use m.to_host))
          (ports_in_use m.to_host ∷ h))

  secret_verdict-Decides :
      (name : String) (r : Report) (v : Option Error) (h : History)
      → Decides
          ((v ≡ none)
            ⊎ (Answers pod_not_found v × (o.fails [] (get_host_secret m.from_host name) ≡ none)))
          r
          same
          (secret_verdict o m name r v h).0
  unfolding secret_verdict
  secret_verdict-Decides name r none h =
      fine
        ((none ≡ none)
          ⊎ (Answers pod_not_found none × (o.fails [] (get_host_secret m.from_host name) ≡ none)))
        r r refl (inl refl)
  secret_verdict-Decides name r (some e) h =
      let held = o.fails [] (get_host_secret m.from_host name) in
      elim (Bool-cases (is_error pod_not_found e)) [
        | inl y ↦
            rw (y, steady.fails h (get_host_secret m.from_host name))
              (Decides-iff (held ≡ none) ((some e ≡ none) ⊎ ((true ≡ true) × (held ≡ none))) r same
                (ok (provision_verdict name r held))
                (λ x. inr (refl, x), λ z. elim z [ inl x ↦ cc | inr x ↦ x.1 ])
                (provision_verdict-Decides name r held))
        | inr n ↦ rw n (
            stopped ((some e ≡ none) ⊎ ((false ≡ true) × (held ≡ none))) r same
              (wrap ("inspect host secret " & name) e)
              (λ z. elim z [ inl x ↦ cc | inr x ↦ cc (x.0) ]))
      ]

  check_secrets-Decides :
      (names : List String) (r : Report) (h : History)
      → Decides (All (HasSecret o m) names) r same (check_secrets o m names r h).0
  unfolding check_secrets
  check_secrets-Decides [] r h = fine (Unit {0}) r r refl tt
  check_secrets-Decides (name ∷ names) r h =
      let c = secret_inspect m.to_host name in
      rw (steady.fails h c) (
        Decides-bind (HasSecret o m name) (All (HasSecret o m) names) r same same
          (secret_verdict o m name r (o.fails [] c)) (check_secrets o m names) (c ∷ h)
          (secret_verdict-Decides name r (o.fails [] c) (c ∷ h)) (check_secrets-Decides names))

  with_ports-Decides :
      (rendered : Result Error String) (r : Report) (h : History)
      → Decides
          (IsRendered o m rendered)
          r
          of_pair
          (◌>>=◌ (rendered_or r rendered) (with_ports o m r) h).0
  with_ports-Decides (err e) r h = stopped ⊥ r of_pair (wrap "render" e) (λ x. x)
  with_ports-Decides (ok text) r h =
      let want = required_host_ports (o.port_documents text) in
      Decides-iff (HasPorts o m want × Unit {0}) (HasPorts o m want) r of_pair
        (with_ports o m r text h).0 (λ z. z.0, λ x. (x, tt))
        (Decides-bind (HasPorts o m want) (Unit {0}) r same of_pair (check_ports o m want r)
          (λ r'. pure (text, r')) h (check_ports-Decides want r h)
          (λ r' h'. (λ q. (q, tt), λ z. z.0)))

  check_pod-Decides :
      (r : Report) (h : History)
      → Decides
          (Answers pod_not_found (o.fails [] (pod_inspect m.to_host (key_of m))))
          r
          same
          (check_pod o m r h).0
  unfolding check_pod
  check_pod-Decides r h =
      let c = pod_inspect m.to_host (key_of m) in
      rw (steady.fails h c) (pod_verdict-Decides r (o.fails [] c) (c ∷ h))

  module _ (tmpl : Template) (eff : Parameters) where
    abbrev after_secrets : Report → Run Report (String × Report)
    after_secrets r = ◌>>=◌ (rendered_or r (o.render tmpl.body eff)) (with_ports o m r)

    abbrev after_pod : Report → Run Report (String × Report)
    after_pod r = ◌>>=◌ (check_secrets o m tmpl.host_secrets r) after_secrets

    abbrev pub Secrets : Type 0
    Secrets = All (HasSecret o m) tmpl.host_secrets

    abbrev pub Ports : Type 0
    Ports = IsRendered o m (o.render tmpl.body eff)

    pub destination_checks-Decides :
        (h : History)
        → Decides
            (Answers pod_not_found (o.fails [] (pod_inspect m.to_host (key_of m)))
              × (Secrets × Ports))
            (first_report (o.is_draining m.to_host))
            of_pair
            (destination_checks o m tmpl eff h).0
    unfolding destination_checks
    destination_checks-Decides h =
        let r = first_report (o.is_draining m.to_host) in
        Decides-bind (Answers pod_not_found (o.fails [] (pod_inspect m.to_host (key_of m))))
          (Secrets × Ports) r same of_pair (check_pod o m r) after_pod h (check_pod-Decides r h)
          (λ r' h'.
            Decides-bind Secrets Ports r' same of_pair (check_secrets o m tmpl.host_secrets r')
              after_secrets h' (check_secrets-Decides tmpl.host_secrets r' h')
              (with_ports-Decides (o.render tmpl.body eff)))

    -- The checks of the preview, which pulls nothing.
    abbrev pub checks : Run Report Report
    checks = do
      (rendered, r) ← destination_checks o m tmpl eff
      pull_if false (pull_images o m (container_images (o.image_documents rendered)) r) r

    pub checks-Decides :
        (h : History) → ((returned (checks h).0).issues ≡ []) ↔ IsAcceptable o m tmpl eff
    checks-Decides h =
        let r = first_report (o.is_draining m.to_host) in
        let Pod = Answers pod_not_found (o.fails [] (pod_inspect m.to_host (key_of m))) in
        let All_checks = Pod × (Secrets × Ports) in
        let d = returned-empty (All_checks × Unit {0}) r (checks h).0 (
          Decides-bind All_checks (Unit {0}) r of_pair same (destination_checks o m tmpl eff)
            (λ x. pure (x.1)) h (destination_checks-Decides h)
            (λ x h'. (λ q. (q, tt), λ z. z.0))) in
        let e = first_report-empty All_checks (o.is_draining m.to_host) in
        (λ q. let (x, y) = d.0 q in e.0 (x, y.0), λ z. let (x, y) = e.1 z in d.1 (x, (y, tt)))
