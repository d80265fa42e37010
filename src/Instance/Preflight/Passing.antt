-- ===== src/Instance/Preflight/Passing.antt =====
-- internal/instance/migrate.go, preflightDest: when the executor's preflight, which also pulls the
-- images, passes.
use podman_api.Common.{◌≡◌, ◌↔◌, refl, sym, subst, List, [], ◌∷◌, Option, none, some, String, All}
use podman_api.Instance.{
  Error, sentinel, wrap, image_pull, pod_not_found, Result, ok, err, Parameters, MigrateRequest,
  key_of, ◌&◌,
}
use podman_api.Instance.Rendered.{required_host_ports, container_images}
use podman_api.Instance.Preflight.{
  Report, check_pod, check_secrets, rendered_or, check_ports, pull_verdict, pull_images,
  first_report, first_issue, destination_checks, preflight_issues, preflight_dest,
}
use podman_api.Instance.Calls.{
  Template, Call, pod_inspect, History, Outside, Run, pure, ◌>>=◌, returned,
}
use podman_api.Instance.Preflight.Deciding.{
  Answers, Decides, same, worse, fine, Decides-next, returned-empty, first_report-empty,
}
use podman_api.Instance.Preflight.Acceptance.{
  IsSteady, IsAcceptable, with_ports, Secrets, Ports, of_pair, destination_checks-Decides,
}

-- Every image of the rendered template can be pulled on the destination.
abbrev pub IsPulled : Outside → MigrateRequest → Result Error String → Type 0
IsPulled o m (ok rendered) =
    All (λ img. o.fails [] (Call.image_pull m.to_host img) ≡ none)
      (container_images (o.image_documents rendered))
IsPulled o m (err e) = ⊥

-- What a run that goes on gives has the property.
abbrev Knows : {A : Type 0} → (A → Type 0) → Result Report A → Type 0
Knows K (ok a) = K a
Knows K (err s) = Unit {0}

Knows-bind :
    {A B : Type 0} (K : B → Type 0) (m : Run Report A) (f : A → Run Report B) (h : History)
    → ((a : A) (h' : History) → Knows K (f a h').0)
    → Knows K (◌>>=◌ m f h).0
Knows-bind {A = A} K m f h next = joined (m h)
  where
    joined : (x : Result Report A × History) → Knows K (◌>>=◌ (λ (_ : History). x) f h).0
    joined (ok a, h') = next a h'
    joined (err s, h') = tt

pull_verdict-Decides :
    (o : Outside) (img : String) (r : Report) (v : Option Error)
    → Decides (v ≡ none) r same (ok (pull_verdict o img r v))
pull_verdict-Decides o img r none = fine (none ≡ none) r r refl refl
pull_verdict-Decides o img r (some e) =
    worse (some e ≡ none) r (wrap (img & ": " & o.message e) (sentinel image_pull)) (λ x. cc)

first_issue-ok :
    (issues : List Error) (h : History) → ((first_issue issues h).0 ≡ ok tt) ↔ (issues ≡ [])
first_issue-ok [] h = (λ q. refl, λ q. refl)
first_issue-ok (e ∷ issues) h = (λ q. cc, λ q. cc)

module _ (o : Outside) (m : MigrateRequest) where
  with_ports-Knows :
      (rendered : Result Error String) (r : Report) (h : History)
      → Knows
          (λ (s : String × Report). rendered ≡ ok s.0)
          (◌>>=◌ (rendered_or r rendered) (with_ports o m r) h).0
  with_ports-Knows (err e) r h = tt
  with_ports-Knows (ok text) r h =
      Knows-bind (λ (s : String × Report). Path (Result Error String) (ok text) (ok s.0))
        (check_ports o m (required_host_ports (o.port_documents text)) r) (λ r'. pure (text, r')) h
        (λ r' h'. refl)

  destination_checks-Knows :
      (tmpl : Template) (eff : Parameters) (h : History)
      → Knows
          (λ (s : String × Report). o.render tmpl.body eff ≡ ok s.0)
          (destination_checks o m tmpl eff h).0
  unfolding destination_checks
  destination_checks-Knows tmpl eff h =
      let K = λ (s : String × Report). o.render tmpl.body eff ≡ ok s.0 in
      let rest =
        λ (r : Report). ◌>>=◌ (rendered_or r (o.render tmpl.body eff)) (with_ports o m r) in
      Knows-bind K (check_pod o m (first_report (o.is_draining m.to_host)))
        (λ r. ◌>>=◌ (check_secrets o m tmpl.host_secrets r) rest) h
        (λ r h'.
          Knows-bind K (check_secrets o m tmpl.host_secrets r) rest h'
            (with_ports-Knows (o.render tmpl.body eff)))

  module _ (steady : IsSteady o) where
    pull_images-Decides :
        (imgs : List String) (r : Report) (h : History)
        → Decides
            (All (λ img. o.fails [] (Call.image_pull m.to_host img) ≡ none) imgs)
            r
            same
            (pull_images o m imgs r h).0
    unfolding pull_images
    pull_images-Decides [] r h = fine (Unit {0}) r r refl tt
    pull_images-Decides (img ∷ imgs) r h =
        let c = Call.image_pull m.to_host img in
        let r' = pull_verdict o img r (o.fails [] c) in
        rw (steady.fails h c) (
          Decides-next (o.fails [] c ≡ none)
            (All (λ img. o.fails [] (Call.image_pull m.to_host img) ≡ none) imgs) r same same r'
            (pull_images o m imgs r' (c ∷ h)).0 (pull_verdict-Decides o img r (o.fails [] c))
            (pull_images-Decides imgs r' (c ∷ h)))

    pulling-Decides :
        (rendered : Result Error String) (s : String × Report) (h : History)
        → rendered ≡ ok s.0
        → Decides
            (IsPulled o m rendered)
            s.1
            same
            (pull_images o m (container_images (o.image_documents s.0)) s.1 h).0
    pulling-Decides rendered s h e =
        subst
          (λ (x : Result Error String).
            Decides (IsPulled o m x) s.1 same
              (pull_images o m (container_images (o.image_documents s.0)) s.1 h).0)
          (sym e) (pull_images-Decides (container_images (o.image_documents s.0)) s.1 h)

    module _ (tmpl : Template) (eff : Parameters) where
      abbrev pulling : String × Report → Run Report Report
      pulling s = pull_images o m (container_images (o.image_documents s.0)) s.1

      abbrev Pulled : Type 0
      Pulled = IsPulled o m (o.render tmpl.body eff)

      pulled :
          (P : Type 0) (r : Report) (x : Result Report (String × Report) × History)
          → Knows (λ (s : String × Report). o.render tmpl.body eff ≡ ok s.0) x.0
          → Decides P r of_pair x.0
          → Decides (P × Pulled) r same (◌>>=◌ (λ (_ : History). x) pulling []).0
      pulled P r (ok s, h) e d =
          Decides-next P Pulled r of_pair same s (pulling s h).0 d
            (pulling-Decides (o.render tmpl.body eff) s h e)
      pulled P r (err s, h) e d = (d.0, λ z. d.1 z.0)

      -- On hosts and a store whose answers do not change, the preflight of a migration passes
      -- exactly if the destination is not draining and is known to have no pod of the instance,
      -- each secret is there or is known to be absent and persisted, the template renders, its
      -- ports, if it asks for any, are known to be free, and each of its images can be pulled.
      pub preflight_dest-ok_iff :
          (h : History)
          → ((preflight_dest o m tmpl eff h).0 ≡ ok tt)
            ↔ (IsAcceptable o m tmpl eff × IsPulled o m (o.render tmpl.body eff))
      unfolding preflight_dest preflight_issues
      preflight_dest-ok_iff h =
          let r = first_report (o.is_draining m.to_host) in
          let Pod = Answers pod_not_found (o.fails [] (pod_inspect m.to_host (key_of m))) in
          let Checks = Pod × (Secrets o m steady tmpl eff × Ports o m steady tmpl eff) in
          let whole = ◌>>=◌ (destination_checks o m tmpl eff) pulling h in
          let d = returned-empty (Checks × Pulled) r whole.0 (
            pulled Checks r (destination_checks o m tmpl eff h)
              (destination_checks-Knows tmpl eff h)
              (destination_checks-Decides o m steady tmpl eff h)) in
          let e = first_report-empty Checks (o.is_draining m.to_host) in
          let i = first_issue-ok (returned whole.0).issues whole.1 in
          (
            λ q. let (x, y) = d.0 (i.0 q) in (e.0 (x, y.0), y.1),
            λ z. let (x, y) = e.1 z.0 in i.1 (d.1 (x, (y, z.1))),
          )
