-- ===== src/Instance/Preview/Clean.antt =====
-- internal/instance/evacuate_plan.go, planMove: when the preview finds a move clean.
use podman_api.Common.{
  ◌≡◌, ◌↔◌, refl, true, nat_eq, List, [], ◌∷◌, ◌++◌, map, Option, none, some, String,
}
use podman_api.Instance.{Error, Result, MigrateRequest, key_of, effective}
use podman_api.Instance.Preflight.{preflight_issues}
use podman_api.Instance.Preview.{
  PlannedMove, classify_plan_issue, issue_of, is_none, plan_checked, plan_with_spec,
  plan_with_template, plan_move,
}
use podman_api.Instance.Calls.{Template, Spec, lookup, get_spec, History, Outside, returned, answer}
use podman_api.Instance.Preflight.Acceptance.{IsSteady, IsAcceptable, checks, checks-Decides}

-- The move can be previewed, its parameters are valid, and the destination takes the instance.
abbrev pub IsClean : Outside → MigrateRequest → Type 0
IsClean o m =
    (o.fails [] (lookup m.to_host m.template) ≡ none)
    × ((o.fails [] (get_spec m.from_host (key_of m)) ≡ none)
        × ((o.validate (o.template []) (effective (o.spec []).parameters m) (o.spec []).secrets
              ≡ none)
            × IsAcceptable o m (o.template []) (effective (o.spec []).parameters m)))

no_issue_iff :
    (o : Outside) (code : String) (v : Option Error) (issues : List Error)
    → (is_none (issue_of o code v ++ map (classify_plan_issue o) issues) ≡ true)
      ↔ ((v ≡ none) × (issues ≡ []))
no_issue_iff o code none [] = (λ q. (refl, refl), λ z. refl)
no_issue_iff o code none (e ∷ issues) = (λ q. cc, λ z. cc (z.1))
no_issue_iff o code (some e) issues = (λ q. cc, λ z. cc (z.0))

module _ (o : Outside) (m : MigrateRequest) (steady : IsSteady o) where
  abbrev IsCleanPlan : Result PlannedMove PlannedMove → Type 0
  IsCleanPlan x = (returned x).is_clean ≡ true

  plan_checked-is_clean_iff :
      (tmpl : Template) (spec : Spec) (h : History)
      → IsCleanPlan (plan_checked o m tmpl spec h).0 ↔ (
          (o.validate tmpl (effective spec.parameters m) spec.secrets ≡ none)
          × IsAcceptable o m tmpl (effective spec.parameters m))
  unfolding plan_checked preflight_issues
  plan_checked-is_clean_iff tmpl spec h =
      let eff = effective spec.parameters m in
      let c = checks-Decides o m steady tmpl eff h in
      let d =
        no_issue_iff o "invalid_parameters" (o.validate tmpl eff spec.secrets)
          (returned (checks o m steady tmpl eff h).0).issues in
      (λ q. let (x, y) = d.0 q in (x, c.0 y), λ z. d.1 (z.0, c.1 z.1))

  plan_with_spec-is_clean_iff :
      (v : Option Error) (tmpl : Template) (spec : Spec) (h : History)
      → IsCleanPlan (plan_with_spec o m tmpl (answer v spec) h).0 ↔ (
          (v ≡ none)
          × ((o.validate tmpl (effective spec.parameters m) spec.secrets ≡ none)
              × IsAcceptable o m tmpl (effective spec.parameters m)))
  unfolding plan_with_spec
  plan_with_spec-is_clean_iff none tmpl spec h =
      let c = plan_checked-is_clean_iff tmpl spec h in (λ q. (refl, c.0 q), λ z. c.1 z.1)
  plan_with_spec-is_clean_iff (some e) tmpl spec h = (λ q. cc, λ z. cc (z.0))

  plan_with_template-is_clean_iff :
      (v : Option Error) (tmpl : Template) (h : History)
      → IsCleanPlan (plan_with_template o m (answer v tmpl) h).0 ↔ (
          (v ≡ none)
          × ((o.fails [] (get_spec m.from_host (key_of m)) ≡ none)
              × ((o.validate tmpl (effective (o.spec []).parameters m) (o.spec []).secrets ≡ none)
                  × IsAcceptable o m tmpl (effective (o.spec []).parameters m))))
  unfolding plan_with_template
  plan_with_template-is_clean_iff none tmpl h =
      let c = get_spec m.from_host (key_of m) in
      let d = plan_with_spec-is_clean_iff (o.fails [] c) tmpl (o.spec []) (c ∷ h) in
      rw (steady.fails h c, steady.spec h) (λ q. (refl, d.0 q), λ z. d.1 z.1)
  plan_with_template-is_clean_iff (some e) tmpl h = (λ q. cc, λ z. cc (z.0))

  -- On hosts and a store whose answers do not change, the preview finds a move clean exactly if
  -- its template and its spec are found, its parameters are valid, the destination is not draining
  -- and is known to have no pod of the instance, each secret is there or is known to be absent and
  -- persisted, the template renders, and, if it asks for ports, those in use are known and none of
  -- its ports is among them.
  pub plan_move-is_clean_iff :
      (h : History)
      → ((returned (plan_move {E = PlannedMove} o m h).0).is_clean ≡ true) ↔ IsClean o m
  unfolding plan_move
  plan_move-is_clean_iff h =
      let c = lookup m.to_host m.template in
      rw (steady.fails h c, steady.template h)
        (plan_with_template-is_clean_iff (o.fails [] c) (o.template []) (c ∷ h))
