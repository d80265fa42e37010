-- ===== src/Instance/Migrate/Paired.antt =====
-- internal/instance/migrate.go: what becomes of a paired instance when the stop of a later one fails.
use podman_api.Common.{
  Option, none, some, subst, sym, Bool-cases, ◌++◌, ◌≡◌, ◌≢◌, inl, inr, Bool, true, not, ap, ◌∙◌,
  List, [], ◌∷◌, none, some, String, ◌==◌, refl, arith,
}
use podman_api.Ingress.Routes.{SpecKey}
use podman_api.Instance.{
  ok, Error, instance_not_found, is_error, Result, err, Parameters, MigrateRequest, key_of, wrap,
  SpecKey_eq, ◌&◌, full_name,
}
use podman_api.Instance.Moving.{
  Stranded, stranded, migrate_post_stop, paired_verdict, stop_paired, provision_secrets,
  replicate_source,
}
use podman_api.Instance.Migrate.{roll_back, restart_stopped, settle}
use podman_api.Instance.Calls.{
  give_up, map_failure, Call, stop, start, detached, Spec, Template, History, Outside, then_settle,
  Succeeded, Asked, Run, pure, ◌>>=◌, ◌>>◌, give_up_with,
}
use podman_api.Instance.Moving.Steps.{is_moving, provision_secrets-Adds, stop_paired-Adds}
use podman_api.Instance.Calls.Grown.{
  Grown-trans, Grown-weaken, Adds, Grown, same, more, adds_rules, Succeeded-Grown,
}

-- No start of the instance.
abbrev pub spares : SpecKey → Call → Bool
spares p (start _ _ k) = not (k == p)
spares p _ = true

roll_back-spares :
    (o : Outside) (req : MigrateRequest) (p : SpecKey) (e : Error)
    → not (key_of req == p) ≡ true
    → Adds (spares p) (roll_back o req (stranded [] e))
unfolding roll_back restart_stopped
roll_back-spares o req p e other = search (adds_rules, other) depth 9

not-Asked-spares :
    (p : SpecKey) (host : String) {h h' : History}
    → Grown (spares p) h h'
    → ¬ Asked (start detached host p) h
    → ¬ Asked (start detached host p) h'
not-Asked-spares p host same n a = n a
not-Asked-spares p host (more {c} s g) n (inl e) =
    cc (s, ap (spares p) e, (SpecKey_eq.same_iff p p).1 refl)
not-Asked-spares p host (more {c} s g) n (inr a) = not-Asked-spares p host g n a

moving-spares : (p : SpecKey) (c : Call) → is_moving c ≡ true → spares p c ≡ true
moving-spares p (start _ _ _) e = cc
moving-spares p _ e = refl

paired_verdict-stopped :
    (q : SpecKey) (stopped : List SpecKey) (answer : Option Error)
    (next : List SpecKey → Run Stranded (List SpecKey)) (h after : History) (s : Stranded)
    → ((stopped : List SpecKey) (h : History) → next stopped h ≡ (err s, after) → s.stopped ≡ [])
    → (paired_verdict q stopped answer >>= next) h ≡ (err s, after)
    → s.stopped ≡ []
unfolding paired_verdict
paired_verdict-stopped q stopped none next h after s ends e = ends (stopped ++ q ∷ []) _ e
paired_verdict-stopped q stopped (some x) next h after s ends e =
    elim (Bool-cases (is_error instance_not_found x)) [
      | inl gone ↦ ends stopped _ (rw gone at e)
      | inr refused ↦ ap_stopped (rw refused at e)
    ]
  where
    ap_stopped :
        give_up {E = Stranded} {A = List SpecKey}
            (stranded [] (wrap ("stop paired instance " & full_name q) x))
            h
          ≡ (err s, after)
        → s.stopped ≡ []
    ap_stopped e = cc

-- A failure leaves no instance to restart, whatever was stopped before.
stop_paired-stopped :
    (o : Outside) (req : MigrateRequest) (paired stopped : List SpecKey) (h after : History)
    (s : Stranded)
    → stop_paired o req paired stopped h ≡ (err s, after)
    → s.stopped ≡ []
unfolding stop_paired
stop_paired-stopped o req [] stopped h after s e = cc
stop_paired-stopped o req (q ∷ paired) stopped h after s e =
    paired_verdict-stopped q stopped (o.fails h (stop req.from_host q)) (stop_paired o req paired)
      (stop req.from_host q ∷ h) after s
      (λ more_stopped h' e'. stop_paired-stopped o req paired more_stopped h' after s e') e

post_stop-failed :
    (o : Outside) (req : MigrateRequest) (eff : Parameters) (tmpl : Template) (spec : Spec)
    (h before after : History) (s : Stranded)
    → provision_secrets o req tmpl.host_secrets h ≡ (ok tt, before)
    → stop_paired o req req.also_stop [] before ≡ (err s, after)
    → migrate_post_stop o req eff tmpl spec h ≡ (err s, after)
unfolding migrate_post_stop
post_stop-failed o req eff tmpl spec h before after s provisioned refused =
    ap
      (λ (x : Result Error (Unit {0}) × History).
        (◌>>=◌ (λ (_ : History). (map_failure (stranded []) x.0, x.1))
            (λ _. stop_paired o req req.also_stop [] >>= tail))
          h)
      provisioned
    ∙ ap
        (λ (x : Result Stranded (List SpecKey) × History). (◌>>=◌ (λ (_ : History). x) tail) before)
        refused
  where
    tail : List SpecKey → Run Stranded (List SpecKey)
    tail stopped = give_up_with (stranded stopped) (replicate_source o req eff spec) >> pure stopped

-- Where the secrets are provisioned and then the stop of a paired instance fails, another instance
-- that was stopped by then, and not asked to start before, stays stopped: the rollback starts none
-- but the instance that moves.
pub migrate-strands :
    (o : Outside) (req : MigrateRequest) (eff : Parameters) (tmpl : Template) (spec : Spec)
    (h before after : History) (s : Stranded) (p : SpecKey)
    → provision_secrets o req tmpl.host_secrets h ≡ (ok tt, before)
    → stop_paired o req req.also_stop [] before ≡ (err s, after)
    → p ≢ key_of req
    → Succeeded o (stop req.from_host p) after
    → ¬ Asked (start detached req.from_host p) h
    → let (r, h') = then_settle (migrate_post_stop o req eff tmpl spec) (settle o req) h in
      Succeeded o (stop req.from_host p) h' × (¬ Asked (start detached req.from_host p) h')
unfolding settle
migrate-strands o req eff tmpl spec h before after s p provisioned refused other halted quiet =
    rw (post_stop-failed o req eff tmpl spec h before after s provisioned refused) (
      Succeeded-Grown o (stop req.from_host p) rolled halted,
      not-Asked-spares p req.from_host (Grown-trans moved rolled) quiet,
    )
  where
    rolled : Grown (spares p) after (roll_back o req s after).1
    rolled =
        subst (λ (t : Stranded). Grown (spares p) after (roll_back o req t after).1)
          (sym (
            ap (λ stopped. stranded stopped s.failure)
              (stop_paired-stopped o req req.also_stop [] before after s refused)))
          ((roll_back-spares o req p s.failure
              (ground (arith, SpecKey_eq.same_iff (key_of req) p))).at
            after)

    moved : Grown (spares p) h after
    moved = Grown-weaken (moving-spares p) (
        Grown-trans
          (subst (λ (x : Result Error (Unit {0}) × History). Grown is_moving h x.1) provisioned
            ((provision_secrets-Adds o req tmpl.host_secrets).at h))
          (subst (λ (x : Result Stranded (List SpecKey) × History). Grown is_moving before x.1)
            refused ((stop_paired-Adds o req req.also_stop []).at before)))
