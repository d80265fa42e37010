-- ===== src/Instance/Migrate/Course.antt =====
-- internal/instance/migrate.go, Migrate: the rollback, and the course of a migration as a whole.
use podman_api.Common.{
  ◌≡◌, ◌≢◌, inl, inr, Bool, true, false, not, List, [], ◌∷◌, Option, none, some, String, string_eq,
  ◌==◌, All, refl,
}
use podman_api.Ingress.Routes.{SpecKey}
use podman_api.Instance.{
  Error, sentinel, same_host, unknown_host, Result, ok, err, OnOk, MigrateRequest, key_of, wrap,
  effective, ◌&◌, full_name,
}
use podman_api.Instance.Moving.{Stranded, migrate_post_stop}
use podman_api.Instance.Moving.Steps.{migrate_post_stop-Adds}
use podman_api.Instance.Moving.Transfer.{IsReplicated, migrate_post_stop-Meets}
use podman_api.Instance.Preflight.Looking.{is_looking, preflight_dest-Adds}
use podman_api.Instance.Migrate.{restart_stopped, roll_back, settle, migrate, keep_error}
use podman_api.Instance.Migrate.Steps.{is_starting, restart_stopped-Adds}
use podman_api.Instance.Migrate.Justified.{
  NoDelete, IsJustified, IsJustified-of_NoDelete, NoDelete-Grown,
}
use podman_api.Instance.Migrate.Endings.{
  untouched, stop_refused, rolled_back, After, commit-Meets, IsStopped, IsRestarted, IsReaped,
  IsReaped-Grown, IsRestarted-Grown, IsReaped-of_delete, restart_stopped-ok, looking-no_delete,
  moving-no_delete, starting-no_delete, IsEnding,
}
use podman_api.Instance.Calls.{
  stop, start, delete, detached, lookup, get_spec, Spec, Template, History, Outside, give_up, ◌>>◌,
  ask, note, note_failure, require, require_value, or_give_up, give_up_if, then_settle, Succeeded,
  Call,
}
use podman_api.Instance.Calls.Grown.{
  Grown, Adds-note, Adds-note_failure, All-Grown, Adds-give_up_if, Adds-require_value,
  Succeeded-Grown,
}
use podman_api.Instance.Calls.Meets.{
  Meets, Meets-bind, Meets-bind_Adds, Meets-settle, Returning, Meets-then, Meets-quiet, Meets-given,
  Meets-give_up_if, Meets-require_value, IsStable-Grown, Got,
}

pub note_failure-ok :
    (o : Outside) (name : String) (answer : Option Error) (h : History)
    → (note_failure {E = Error} o name answer h).0 ≡ ok tt
note_failure-ok o name none h = refl
note_failure-ok o name (some e) h = refl

module _ (o : Outside) (req : MigrateRequest) where
  IsStopped-Grown :
      (h h' : History) → Grown is_starting h h' → IsStopped o req h → IsStopped o req h'
  IsStopped-Grown h h' g (n, s) = (
    NoDelete-Grown starting-no_delete g n,
    Succeeded-Grown o (stop req.from_host (key_of req)) g s,
  )

  IsReaped-Meets :
      (s : Stranded)
      → Meets (IsReaped o req) (restart_stopped o req s.stopped >> give_up s.failure) (After o req)
  IsReaped-Meets s =
      Meets-then (IsReaped o req) (IsReaped o req) (After o req) (restart_stopped o req s.stopped)
        (give_up s.failure)
        (Meets-quiet (IsReaped o req) (restart_stopped o req s.stopped)
          (restart_stopped-Adds o req s.stopped) (restart_stopped-ok o req s.stopped)
          (IsReaped-Grown o req))
        (record {
          at = λ h (j, stopped, started, deleted, spared).
              (j, rolled_back stopped started deleted spared);
        })

  roll_back-Meets :
      req.from_host ≢ req.to_host
      → (s : Stranded) → Meets (IsStopped o req) (roll_back o req s) (After o req)
  unfolding roll_back
  roll_back-Meets apart s =
      Meets-then (IsStopped o req) (IsStopped o req) (After o req)
        (note "rollback" (o.message s.failure)) _
        (Meets-quiet (IsStopped o req) (note "rollback" (o.message s.failure))
          (Adds-note {P = is_starting} "rollback" (o.message s.failure) refl) (λ h. refl)
          IsStopped-Grown)
        (Meets-bind (IsStopped o req) (Returning (IsRestarted o req)) (After o req)
          (ask o (start detached req.from_host (key_of req))) _
          (record { at = λ h (n, stopped). (((refl, n), inr stopped), inl refl) })
          (λ e h x. absurd x)
          λ started.
            Meets-then (IsRestarted o req) (IsRestarted o req) (After o req)
              (note_failure o "rollback-restore-failed" started) _
              (Meets-quiet (IsRestarted o req) (note_failure o "rollback-restore-failed" started)
                (Adds-note_failure {P = is_starting} o "rollback-restore-failed" started
                  (λ d. refl))
                (note_failure-ok o "rollback-restore-failed" started) (IsRestarted-Grown o req))
              (Meets-bind (IsRestarted o req) (Returning (IsReaped o req)) (After o req)
                (ask o (delete detached req.to_host (key_of req))) _
                (record { at = λ h x. IsReaped-of_delete o req apart h x }) (λ e h x. absurd x)
                λ reaped.
                  Meets-then (IsReaped o req) (IsReaped o req) (After o req)
                    (note_failure o "rollback-reap-failed" reaped) _
                    (Meets-quiet (IsReaped o req) (note_failure o "rollback-reap-failed" reaped)
                      (Adds-note_failure {P = is_starting} o "rollback-reap-failed" reaped
                        (λ d. refl))
                      (note_failure-ok o "rollback-reap-failed" reaped) (IsReaped-Grown o req))
                    (IsReaped-Meets s)))

  abbrev Looking : History → Type 0
  Looking = All (λ c. is_looking c ≡ true)

  Looking-NoDelete : (h : History) → Looking h → NoDelete h
  Looking-NoDelete [] l = tt
  Looking-NoDelete (c ∷ h) l = (looking-no_delete c l.0, Looking-NoDelete h l.1)

  After_of_looking : (e : Error) (h : History) → Looking h → After o req (err e) h
  After_of_looking e h l = (IsJustified-of_NoDelete o req h (Looking-NoDelete h l), untouched l)

  Looking-Grown : (h h' : History) → Grown is_looking h h' → Looking h → Looking h'
  Looking-Grown h h' g l = All-Grown g l

  -- The spec that was read from the source.
  abbrev IsLoaded : Spec → History → Type 0
  IsLoaded spec h = Got o (get_spec req.from_host (key_of req)) o.spec spec h

  IsLoaded-Grown :
      (spec : Spec) {P : Call → Bool} {h h' : History}
      → Grown P h h'
      → IsLoaded spec h
      → IsLoaded spec h'
  IsLoaded-Grown spec = IsStable-Grown (IsLoaded spec) (λ c h got. inr got)

  abbrev LoadedLooking : Spec → History → Type 0
  LoadedLooking spec h = Looking h × IsLoaded spec h

  LoadedLooking-Grown :
      (spec : Spec) (h h' : History)
      → Grown is_looking h h'
      → LoadedLooking spec h
      → LoadedLooking spec h'
  LoadedLooking-Grown spec h h' g (l, got) = (Looking-Grown h h' g l, IsLoaded-Grown spec g got)

  After_of_loaded :
      (spec : Spec) (e : Error) (h : History) → LoadedLooking spec h → After o req (err e) h
  After_of_loaded spec e h x = After_of_looking e h x.0

  abbrev LoadedStopped : Spec → History → Type 0
  LoadedStopped spec h = IsStopped o req h × IsLoaded spec h

  -- What the stop of the source leads to.
  abbrev StopMid : Spec → Result Error (Unit {0}) → History → Type 0
  StopMid spec (ok _) h = LoadedStopped spec h
  StopMid spec (err e) h = After o req (err e) h

  stop-result :
      (spec : Spec) (h : History) (r : Option Error)
      → o.fails h (stop req.from_host (key_of req)) ≡ r
      → LoadedLooking spec h
      → let (s, t) = or_give_up (wrap "stop source") r (stop req.from_host (key_of req) ∷ h) in
        StopMid spec s t
  stop-result spec h none e (l, got) = (((refl, Looking-NoDelete h l), inl (refl, e)), inr got)
  stop-result spec h (some x) e (l, got) = (
    (tt, IsJustified-of_NoDelete o req h (Looking-NoDelete h l)),
    stop_refused h refl l (λ n. cc (e, n)),
  )

  -- The history after the steps that follow the stop, by how they ended.
  abbrev PostStop : Spec → Result Stranded (List SpecKey) → History → Type 0
  PostStop spec r h =
      LoadedStopped spec h × OnOk (λ _. IsReplicated o req (effective spec.parameters req) spec h) r

  settle-Meets :
      req.from_host ≢ req.to_host
      → (spec : Spec) (r : Result Stranded (List SpecKey))
      → Meets (PostStop spec r) (settle o req r) (After o req)
  unfolding settle
  settle-Meets apart spec (ok stopped) = record {
    at = λ h ((halted, got), r).
        (commit-Meets o req spec stopped).at h (halted.0, halted.1, (got, r));
  }
  settle-Meets apart spec (err s) = record { at = λ h x. (roll_back-Meets apart s).at h x.0.0 }

  transfer_meets :
      (tmpl : Template) (spec : Spec)
      → Meets
          (LoadedStopped spec)
          (migrate_post_stop o req (effective spec.parameters req) tmpl spec)
          (PostStop spec)
  transfer_meets tmpl spec = record {
    at = λ h ((n, halted), got).
        let eff = effective spec.parameters req in
        let ((s, g), done) =
          (migrate_post_stop-Meets o req
              (λ t. Succeeded o (stop req.from_host (key_of req)) t × IsLoaded spec t)
              (λ c t y. (inr y.0, inr y.1)) eff spec tmpl).at
            h (halted, got) in
        (
          (
            (
              NoDelete-Grown moving-no_delete ((migrate_post_stop-Adds o req eff tmpl spec).at h) n,
              s,
            ),
            g,
          ),
          done,
        );
  }

  -- The spec is read off the source, or nothing was changed.
  spec_read :
      Meets Looking
        (require_value {E = Error} o (get_spec req.from_host (key_of req)) o.spec keep_error)
        (λ r h. Looking h × OnOk (λ spec. IsLoaded spec h) r)
  spec_read = record {
    at = λ h l. (
      Looking-Grown h _
          ((Adds-require_value {P = is_looking} o (get_spec req.from_host (key_of req)) o.spec
              keep_error refl).at
            h)
          l,
      ((Meets-require_value (λ (_ : History). Unit {0}) (λ c h x. tt) o
            (get_spec req.from_host (key_of req)) keep_error o.spec).at
          h tt).1,
    );
  }

  halted-Meets :
      req.from_host ≢ req.to_host
      → (tmpl : Template) (spec : Spec)
      → Meets
          (LoadedStopped spec)
          (note "stop-source" req.from_host
            >> then_settle
                (migrate_post_stop o req (effective spec.parameters req) tmpl spec)
                (settle o req))
          (After o req)
  halted-Meets apart tmpl spec =
      Meets-then (LoadedStopped spec) (LoadedStopped spec) (After o req)
        (note "stop-source" req.from_host) _
        (Meets-quiet (LoadedStopped spec) (note "stop-source" req.from_host)
          (Adds-note {P = is_starting} "stop-source" req.from_host refl) (λ h. refl)
          (λ h h' g x. (IsStopped-Grown h h' g x.0, IsLoaded-Grown spec g x.1)))
        (Meets-settle (LoadedStopped spec) (PostStop spec) (After o req)
          (migrate_post_stop o req (effective spec.parameters req) tmpl spec) (settle o req)
          (transfer_meets tmpl spec) (settle-Meets apart spec))

  migrate-Meets : Meets Looking (migrate o req) (After o req)
  unfolding migrate
  migrate-Meets =
      Meets-bind Looking (λ r h. Looking h × OnOk (λ _. (req.from_host == req.to_host) ≡ false) r)
        (After o req) (give_up_if (req.from_host == req.to_host) (sentinel same_host)) _
        (Meets-give_up_if Looking (req.from_host == req.to_host) (sentinel same_host))
        (λ e h x. After_of_looking e h x.0)
        λ _.
          Meets-given Looking (After o req) ((req.from_host == req.to_host) ≡ false) _ λ different.
            Meets-bind_Adds Looking (After o req) _ _
              (Adds-give_up_if {P = is_looking} (not (o.knows req.from_host))
                (sentinel unknown_host))
              Looking-Grown After_of_looking
              λ _.
                Meets-bind_Adds Looking (After o req) _ _
                  (Adds-require_value {P = is_looking} o (lookup req.to_host req.template)
                    o.template keep_error refl)
                  Looking-Grown After_of_looking
                  λ tmpl.
                    Meets-bind Looking (λ r h. Looking h × OnOk (λ spec. IsLoaded spec h) r)
                      (After o req)
                      (require_value o (get_spec req.from_host (key_of req)) o.spec keep_error) _
                      spec_read (λ e h x. After_of_looking e h x.0)
                      λ spec.
                        Meets-bind_Adds (LoadedLooking spec) (After o req) _ _
                          (Adds-note {P = is_looking} "load"
                            (req.from_host & "/" & full_name (key_of req)) refl)
                          (LoadedLooking-Grown spec) (After_of_loaded spec)
                          λ _.
                            Meets-bind_Adds (LoadedLooking spec) (After o req) _ _
                              (preflight_dest-Adds o req tmpl (effective spec.parameters req))
                              (LoadedLooking-Grown spec) (After_of_loaded spec)
                              λ _.
                                Meets-bind_Adds (LoadedLooking spec) (After o req) _ _
                                  (Adds-note {P = is_looking} "preflight" req.to_host refl)
                                  (LoadedLooking-Grown spec) (After_of_loaded spec)
                                  λ _.
                                    Meets-bind (LoadedLooking spec) (StopMid spec) (After o req)
                                      (require o (stop req.from_host (key_of req))
                                        (wrap "stop source"))
                                      _
                                      (record {
                                        at = λ h l.
                                            stop-result spec h
                                              (o.fails h (stop req.from_host (key_of req))) refl l;
                                      })
                                      (λ e h x. x)
                                      λ _.
                                        halted-Meets
                                          (λ e. cc (
                                            different,
                                            (string_eq.same_iff req.from_host req.to_host).1 e,
                                          ))
                                          tmpl spec

  -- Whatever the hosts and the store answer, each delete that a migration asks for is detached
  -- from the caller's context, of this instance, and either on the source, after its pod was seen
  -- to run on the destination, or on the destination, after a start of the source was asked for.
  pub migrate-IsJustified : IsJustified o req (migrate o req []).1
  migrate-IsJustified = (migrate-Meets.at [] tt).0

  -- A migration that returns no error has stopped the source, copied every volume that the source
  -- listed, verified the copies where that is on, applied the spec that it read from the source,
  -- with the parameters of the request over its own, seen the pod run, and deleted the source. One
  -- that returns an error has changed no instance; or the source refused to stop; or it asked for
  -- the source to start again and for the destination to be reaped, and never for the source to be
  -- deleted; or the source was stopped and all is moved, but the delete of the source, its last
  -- call, failed.
  pub migrate-IsEnding : let (r, h) = migrate o req [] in IsEnding o req r h
  migrate-IsEnding = (migrate-Meets.at [] tt).1
