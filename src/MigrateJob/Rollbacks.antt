-- ===== src/MigrateJob/Rollbacks.antt =====
-- internal/migrate/handler.go with internal/instance/migrate.go: when the handler counts a rollback.
use podman_api.Common.{
  ◌≡◌, ◌⊎◌, inl, inr, refl, sym, subst, Bool, Bool-cases, true, false, not, ◌&&◌, List, [], ◌∷◌,
  Option, none, some, String, string_eq, ◌==◌, All, any, arith,
}
use podman_api.Ingress.Routes.{SpecKey}
use podman_api.Store.Job.{Job}
use podman_api.Instance.{Error, Result, ok, err, MigrateRequest, key_of, Parameters}
use podman_api.Instance.Moving.{Stranded, migrate_post_stop}
use podman_api.Instance.Moving.Steps.{is_moving, migrate_post_stop-Adds}
use podman_api.Instance.Preflight.{preflight_dest}
use podman_api.Instance.Preflight.Looking.{is_looking, preflight_dest-Adds}
use podman_api.Instance.Migrate.{
  restart_stopped, restart_paired, note_restart, roll_back, commit, settle, migrate,
}
use podman_api.Instance.Migrate.Steps.{is_starting, restart_stopped-Adds}
use podman_api.Instance.Migrate.Endings.{restart_stopped-ok}
use podman_api.Instance.Migrate.Course.{note_failure-ok}
use podman_api.Instance.Calls.{
  Call, step, start, delete, detached, Spec, Template, History, Outside, Run, give_up, ◌>>=◌, ◌>>◌,
  ask, note, note_failure, then_settle,
}
use podman_api.Instance.Calls.Grown.{
  Grown, same, more, Grown-weaken, All-Grown, Adds, Adds-note_failure, adds_rules,
}
use podman_api.Instance.Calls.Meets.{
  Meets, Meets-bind, Meets-bind_Adds, Meets-settle, Meets-then, Meets-quiet, Returning,
}
use podman_api.MigrateJob.{Decoder, handled, handle, handle_decoded, is_rollback_step}

-- A delete on the destination.
abbrev pub is_reap : MigrateRequest → Call → Bool
is_reap req (delete _ host _) = host == req.to_host
is_reap req _ = false

abbrev is_quiet : MigrateRequest → Call → Bool
is_quiet req c = not (is_rollback_step c) && not (is_reap req c)

any-Grown :
    {P : Call → Bool} (q : Call → Bool) {h h' : History}
    → Grown P h h'
    → any q h ≡ true
    → any q h' ≡ true
unfolding any
any-Grown q same e = e
any-Grown q (more {c} p g) e = ground (arith, any-Grown q g e)

looking-quiet : (req : MigrateRequest) (c : Call) → is_looking c ≡ true → is_quiet req c ≡ true
looking-quiet req (step name _) e = ground (arith, e)
looking-quiet req (delete _ _ _) e = cc
looking-quiet req _ e = refl

moving-quiet : (req : MigrateRequest) (c : Call) → is_moving c ≡ true → is_quiet req c ≡ true
moving-quiet req (step name _) e = ground (arith, e)
moving-quiet req (delete _ _ _) e = cc
moving-quiet req _ e = refl

Adds-weaken :
    {E A : Type 0} {P Q : Call → Bool} {m : Run E A}
    → ((c : Call) → P c ≡ true → Q c ≡ true)
    → Adds P m
    → Adds Q m
Adds-weaken f a = record { at = λ h. Grown-weaken f (a.at h) }

module _ (o : Outside) (req : MigrateRequest) where
  abbrev IsQuiet : History → Type 0
  IsQuiet = All (λ c. is_quiet req c ≡ true)

  abbrev HasStep : History → Type 0
  HasStep h = any is_rollback_step h ≡ true

  abbrev IsRolledBack : History → Type 0
  IsRolledBack h = HasStep h × (any (is_reap req) h ≡ true)

  -- Neither a step of a rollback nor a delete on the destination, or both and a failure.
  abbrev Fair : Result Error (Unit {0}) → History → Type 0
  Fair (ok _) h = IsQuiet h
  Fair (err _) h = IsQuiet h ⊎ IsRolledBack h

  note_restart-Adds : (p : SpecKey) (r : Option Error) → Adds (is_quiet req) (note_restart o p r)
  note_restart-Adds p none = search adds_rules
  note_restart-Adds p (some e) = search adds_rules

  restart_paired-Adds :
      (stopped : List SpecKey) → Adds (is_quiet req) (restart_paired o req stopped)
  unfolding restart_paired
  restart_paired-Adds [] = search adds_rules
  restart_paired-Adds (p ∷ stopped) =
      let rest = restart_paired-Adds stopped in search (adds_rules, note_restart-Adds)

  Fair_of_quiet : (r : Result Error (Unit {0})) (h : History) → IsQuiet h → Fair r h
  Fair_of_quiet (ok _) h q = q
  Fair_of_quiet (err _) h q = inl q

  IsQuiet-Fair : (m : Run Error (Unit {0})) → Adds (is_quiet req) m → Meets IsQuiet m Fair
  IsQuiet-Fair m adds = record {
    at = λ h q. let (r, h') = m h in Fair_of_quiet r h' (All-Grown (adds.at h) q);
  }

  commit-Adds :
      (req.from_host == req.to_host) ≡ false
      → (stopped : List SpecKey) → Adds (is_quiet req) (commit o req stopped)
  unfolding commit
  commit-Adds apart stopped =
      let kept : is_quiet req (delete detached req.from_host (key_of req)) ≡ true = rw apart refl in
      search (adds_rules, restart_paired-Adds, kept)

  settled_by :
      (s : Stranded)
      → Meets IsRolledBack (restart_stopped o req s.stopped >> give_up s.failure) Fair
  settled_by s =
      Meets-then IsRolledBack IsRolledBack Fair (restart_stopped o req s.stopped)
        (give_up s.failure)
        (Meets-quiet IsRolledBack (restart_stopped o req s.stopped)
          (restart_stopped-Adds o req s.stopped) (restart_stopped-ok o req s.stopped)
          (λ h h' g (stepped, reaped).
            (any-Grown is_rollback_step g stepped, any-Grown (is_reap req) g reaped)))
        (record { at = λ h b. inr b })

  reaped-Fair :
      (s : Stranded) (answer : Option Error)
      → Meets IsRolledBack
          (note_failure o "rollback-reap-failed" answer
            >> (restart_stopped o req s.stopped >> give_up s.failure))
          Fair
  reaped-Fair s answer =
      Meets-then IsRolledBack IsRolledBack Fair (note_failure o "rollback-reap-failed" answer) _
        (Meets-quiet IsRolledBack (note_failure o "rollback-reap-failed" answer)
          (Adds-note_failure {P = is_starting} o "rollback-reap-failed" answer (λ d. refl))
          (note_failure-ok o "rollback-reap-failed" answer)
          (λ h h' g (stepped, reaped).
            (any-Grown is_rollback_step g stepped, any-Grown (is_reap req) g reaped)))
        (settled_by s)

  reap-IsRolledBack :
      (h : History) → HasStep h → IsRolledBack (delete detached req.to_host (key_of req) ∷ h)
  unfolding any
  reap-IsRolledBack h stepped =
      (stepped, ground (arith, string_eq.same_iff req.to_host req.to_host))

  roll_back-Fair : (s : Stranded) → Meets IsQuiet (roll_back o req s) Fair
  unfolding roll_back any
  roll_back-Fair s =
      Meets-then IsQuiet HasStep Fair (note "rollback" (o.message s.failure)) _
        (record { at = λ h q. refl })
        (Meets-bind HasStep (Returning HasStep) Fair
          (ask o (start detached req.from_host (key_of req))) _
          (record { at = λ h stepped. stepped }) (λ e h x. absurd x)
          λ started.
            Meets-then HasStep HasStep Fair (note_failure o "rollback-restore-failed" started) _
              (Meets-quiet HasStep (note_failure o "rollback-restore-failed" started)
                (Adds-note_failure {P = is_starting} o "rollback-restore-failed" started
                  (λ d. refl))
                (note_failure-ok o "rollback-restore-failed" started)
                (λ h h' g stepped. any-Grown is_rollback_step g stepped))
              (Meets-bind HasStep (Returning IsRolledBack) Fair
                (ask o (delete detached req.to_host (key_of req))) _
                (record { at = λ h stepped. reap-IsRolledBack h stepped }) (λ e h x. absurd x)
                (reaped-Fair s)))

  settle-Fair :
      (req.from_host == req.to_host) ≡ false
      → (r : Result Stranded (List SpecKey)) → Meets IsQuiet (settle o req r) Fair
  unfolding settle
  settle-Fair apart (ok stopped) = IsQuiet-Fair (commit o req stopped) (commit-Adds apart stopped)
  settle-Fair apart (err s) = roll_back-Fair s

  -- The steps from the stop of the source on.
  moved-Fair :
      (req.from_host == req.to_host) ≡ false
      → (eff : Parameters) (tmpl : Template) (spec : Spec)
      → Meets IsQuiet (then_settle (migrate_post_stop o req eff tmpl spec) (settle o req)) Fair
  moved-Fair apart eff tmpl spec =
      Meets-settle IsQuiet (λ r. IsQuiet) Fair (migrate_post_stop o req eff tmpl spec)
        (settle o req)
        (record {
          at = λ h q.
              All-Grown
                (Grown-weaken (moving-quiet req)
                  ((migrate_post_stop-Adds o req eff tmpl spec).at h))
                q;
        })
        (settle-Fair apart)

  preflight-quiet :
      (tmpl : Template) (eff : Parameters) → Adds (is_quiet req) (preflight_dest o req tmpl eff)
  preflight-quiet tmpl eff = Adds-weaken (looking-quiet req) (preflight_dest-Adds o req tmpl eff)

  module _ {A : Type 0} where
    Fair-bind :
        (m : Run Error A) (f : A → Run Error (Unit {0}))
        → Adds (is_quiet req) m
        → ((a : A) → Meets IsQuiet (f a) Fair)
        → Meets IsQuiet (m >>= f) Fair
    Fair-bind m f adds next =
        Meets-bind_Adds IsQuiet Fair m f adds (λ h h' g q. All-Grown g q) (λ e h q. inl q) next

  Fair-then :
      (m k : Run Error (Unit {0}))
      → Adds (is_quiet req) m
      → Meets IsQuiet k Fair
      → Meets IsQuiet (m >> k) Fair
  Fair-then m k adds next = Fair-bind m (λ _. k) adds (λ _. next)

  refused-Fair :
      (req.from_host == req.to_host) ≡ true
      → (h : History) → IsQuiet h
      → Fair (migrate o req h).0 (migrate o req h).1
  unfolding migrate
  refused-Fair same_hosts h q = rw same_hosts (inl q)

  apart-Fair : (req.from_host == req.to_host) ≡ false → Meets IsQuiet (migrate o req) Fair
  unfolding migrate
  apart-Fair apart =
      let moved = moved-Fair apart in
      search (Fair-then, Fair-bind, adds_rules, preflight-quiet, moved) depth 20

  migrate-Fair : Meets IsQuiet (migrate o req) Fair
  migrate-Fair = elim (Bool-cases (req.from_host == req.to_host)) [
    | inl same_hosts ↦ record { at = λ h q. refused-Fair same_hosts h q }
    | inr apart ↦ apart-Fair apart
  ]

  any-quiet :
      (h : History) → IsQuiet h → (any is_rollback_step h ≡ false) × (any (is_reap req) h ≡ false)
  unfolding any
  any-quiet [] q = (refl, refl)
  any-quiet (c ∷ h) q = ground (arith, q.0, any-quiet h q.1)

  counted-Fair :
      (r : Result Error (Unit {0})) (h : History)
      → Fair r h
      → ((handled true (r, h)).counted ≡ any (is_reap req) h)
        × ((handled true (r, h)).returned ≡ none → (handled true (r, h)).counted ≡ false)
  counted-Fair (ok _) h q =
      let (silent, kept) = any-quiet h q in (ground (arith, silent, kept), λ _. rw silent refl)
  counted-Fair (err e) h (inl q) =
      let (silent, kept) = any-quiet h q in (ground (arith, silent, kept), λ x. cc)
  counted-Fair (err e) h (inr (stepped, reaped)) = (rw (stepped, reaped) refl, λ x. cc)

  -- The migrate job counts a rollback exactly if the migration asked for the instance on the
  -- destination to be deleted, and never for a migration that returns no error. The arguments of
  -- the job decode, and there are metrics.
  pub handle-counts :
      (d : Decoder) (job : Job)
      → d.unmarshal job.args ≡ ok req
      → let answer = handle o true d job in
        (answer.counted ≡ any (is_reap req) (migrate o req []).1)
        × (answer.returned ≡ none → answer.counted ≡ false)
  unfolding handle
  handle-counts d job decodes =
      subst
        (λ (r : Result String MigrateRequest).
          ((handle_decoded o true r).counted ≡ any (is_reap req) (migrate o req []).1)
          × ((handle_decoded o true r).returned ≡ none → (handle_decoded o true r).counted ≡ false))
        (sym decodes) (let (r, h) = migrate o req [] in counted-Fair r h (migrate-Fair.at [] tt))
