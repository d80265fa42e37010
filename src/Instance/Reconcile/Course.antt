-- ===== src/Instance/Reconcile/Course.antt =====
-- internal/instance/reconcile.go, ReconcileMigrate: what a reconciliation may delete, and what its
-- verdict says.
use podman_api.Common.{◌≡◌, ◌⊎◌, inl, inr, Bool, true, false, [], ◌∷◌, Option, none, some, refl}
use podman_api.Instance.{
  Error, is_error, Result, ok, err, OnOk, MigrateRequest, key_of, row_not_found,
}
use podman_api.Instance.Migrate.Justified.{
  is_delete, NoDelete, Every, Every-of_NoDelete, Every-Grown, NoDelete-Grown,
}
use podman_api.Instance.Reconcile.{
  Early, inconclusive, terminal, Outcome, DestStatus, Survey, is_failure_of, restore_paired,
  secrets_of, refresh_ingress, reap_source, roll_forward, rolled_forward, restore_source, reap_dest,
  leave_dest, fall_back, compensate, failed_outcome, outcome_at_end, survey, reconcile_migrate,
  give_up_uncertain, or_uncertain_but,
}
use podman_api.Instance.Reconcile.Surveys.{
  is_watching, IsCommitted, IsFounded, survey-Adds, survey-IsFounded,
}
use podman_api.Instance.Reconcile.Compensation.{
  JustifiedReap, JustifiedReap-of_other, is_mending, mending-no_delete, restore_paired-Adds,
  refresh_ingress-Adds, repair_ingress-Adds, Demanded, demand-Meets, demand-then,
}
use podman_api.Instance.Calls.{
  detached, Call, start, delete, wait_running, get_spec, delete_spec, prune_resources, History,
  Outside, pure, ◌>>=◌, ◌>>◌, ask, note, Succeeded, give_up_with, map_failure,
}
use podman_api.Instance.Calls.Grown.{
  Grown, same, more, Succeeded-Grown, Adds-note, Adds-fetch, Adds-ask,
}
use podman_api.Instance.Calls.Meets.{Meets, Meets-bind, Meets-bind_Adds}

-- What a delete of a row may answer where the row is gone.
abbrev pub IsGone : Option Error → Type 0
IsGone none = Unit {0}
IsGone (some e) = is_error row_not_found e ≡ true

-- The row of the source's spec was deleted, or there was none.
abbrev pub HasCleared : Outside → MigrateRequest → History → Type 0
HasCleared o req [] = ⊥
HasCleared o req (c ∷ h) =
    ((c ≡ delete_spec req.from_host (key_of req)) × IsGone (o.fails h c)) ⊎ HasCleared o req h

HasCleared-Grown :
    (o : Outside) (req : MigrateRequest) {P : Call → Bool} {h h' : History}
    → Grown P h h'
    → HasCleared o req h
    → HasCleared o req h'
HasCleared-Grown o req same x = x
HasCleared-Grown o req (more p g) x = inr (HasCleared-Grown o req g x)

module _ (o : Outside) (req : MigrateRequest) where
  -- Every delete so far is justified.
  abbrev pub IsSafe : History → Type 0
  IsSafe = Every (JustifiedReap o req)

  -- The destination is committed, and the source's instance is deleted or its row was cleared.
  abbrev pub IsForward : History → Type 0
  IsForward h =
      IsCommitted o req h
      × (Succeeded o (delete detached req.from_host (key_of req)) h ⊎ HasCleared o req h)

  -- The source was started, and then the destination was deleted.
  abbrev pub IsBack : History → Type 0
  IsBack h =
      Succeeded o (start detached req.from_host (key_of req)) h
      × Succeeded o (delete detached req.to_host (key_of req)) h

  -- What an outcome says: a success rolled forward; a failure rolled back or deleted nothing.
  abbrev Says : Outcome → History → Type 0
  Says out h =
      IsSafe h
      × (out.resolved ≡ true)
      × (out.succeeded ≡ true → IsForward h)
      × (out.succeeded ≡ false → IsBack h ⊎ NoDelete h)

  abbrev Ended : Result (Unit {0}) Outcome → History → Type 0
  Ended (ok out) h = Says out h
  Ended (err _) h = IsSafe h

  IsSafe-of_none : (h : History) → NoDelete h → IsSafe h
  IsSafe-of_none = Every-of_NoDelete (JustifiedReap o req) (JustifiedReap-of_other o req)

  IsSafe-Grown : {h h' : History} → Grown is_mending h h' → IsSafe h → IsSafe h'
  IsSafe-Grown g =
      Every-Grown (JustifiedReap o req) (JustifiedReap-of_other o req) mending-no_delete g

  IsCommitted-Grown :
      {h h' : History} → Grown is_mending h h' → IsCommitted o req h → IsCommitted o req h'
  IsCommitted-Grown g (ran, spec_read) = (
    Succeeded-Grown o (wait_running req.to_host (key_of req)) g ran,
    Succeeded-Grown o (get_spec req.to_host (key_of req)) g spec_read,
  )

  abbrev IsReady : History → Type 0
  IsReady h = NoDelete h × IsCommitted o req h

  IsReady-Grown : (h h' : History) → Grown is_mending h h' → IsReady h → IsReady h'
  IsReady-Grown h h' g (n, c) = (NoDelete-Grown mending-no_delete g n, IsCommitted-Grown g c)

  abbrev IsReaped : History → Type 0
  IsReaped h = IsSafe h × IsForward h

  IsReaped-Grown : (h h' : History) → Grown is_mending h h' → IsReaped h → IsReaped h'
  IsReaped-Grown h h' g (s, (c, inl d)) = (
    IsSafe-Grown g s,
    (
      IsCommitted-Grown g c,
      inl (Succeeded-Grown o (delete detached req.from_host (key_of req)) g d),
    ),
  )
  IsReaped-Grown h h' g (s, (c, inr a)) =
      (IsSafe-Grown g s, (IsCommitted-Grown g c, inr (HasCleared-Grown o req g a)))

  -- The source reaped, or stopped short of it.
  abbrev ReapMid : Result (Unit {0}) (Unit {0}) → History → Type 0
  ReapMid = Demanded IsReaped IsSafe

  -- After the delete of the row, by its answer.
  abbrev ClearMid : Result (Unit {0}) (Option Error) → History → Type 0
  ClearMid (ok cleared) h = IsSafe h × IsCommitted o req h × (IsGone cleared → HasCleared o req h)
  ClearMid (err _) h = ⊥

  -- The run goes on only where the row is gone.
  cleared-Meets :
      (cleared : Option Error)
      → Meets
          (ClearMid (ok cleared))
          (or_uncertain_but o (is_failure_of row_not_found cleared) "clean source spec: " cleared)
          ReapMid
  unfolding is_failure_of
  cleared-Meets none = record { at = λ h (s, c, gone). (s, (c, inr (gone tt))) }
  cleared-Meets (some e) = known (is_error row_not_found e) refl
    where
      known :
          (b : Bool)
          → is_error row_not_found e ≡ b
          → Meets
              (ClearMid (ok (some e)))
              (or_uncertain_but o b "clean source spec: " (some e))
              ReapMid
      known true q = record { at = λ h (s, c, gone). (s, (c, inr (gone q))) }
      known false q = record { at = λ h (s, c, gone). (tt, s) }

  reap_source-Meets : (source : Bool) → Meets IsReady (reap_source o req source) ReapMid
  unfolding reap_source
  reap_source-Meets true =
      demand-Meets o IsReady IsReaped IsSafe (delete detached req.from_host (key_of req))
        "reap source: "
        (λ h (n, c) e. (
          ((refl, refl, inl (refl, c)), IsSafe-of_none h n),
          ((inr c.0, inr c.1), inl (inl (refl, e))),
        ))
        (λ h detail (n, c). (tt, ((refl, refl, inl (refl, c)), IsSafe-of_none h n)))
  reap_source-Meets false =
      Meets-bind_Adds IsReady ReapMid _ _
        (Adds-fetch {P = is_mending} o (get_spec req.from_host (key_of req)) o.spec refl)
        IsReady-Grown (λ e h (n, c). IsSafe-of_none h n)
        λ spec.
          Meets-bind_Adds IsReady ReapMid _ _
            (Adds-ask {P = is_mending} o
              (prune_resources req.from_host (key_of req) (secrets_of spec)) refl)
            IsReady-Grown (λ e h (n, c). IsSafe-of_none h n)
            λ pruned.
              Meets-bind IsReady ClearMid ReapMid (ask o (delete_spec req.from_host (key_of req))) _
                (record {
                  at = λ h (n, c).
                      ((tt, IsSafe-of_none h n), (inr c.0, inr c.1), λ gone. inl (refl, gone));
                })
                (λ e h x. absurd x)
                λ cleared.
                  Meets-bind (ClearMid (ok cleared)) ReapMid ReapMid
                    (or_uncertain_but o (is_failure_of row_not_found cleared) "clean source spec: "
                      cleared)
                    _ (cleared-Meets cleared) (λ e h x. x)
                    λ _. record {
                      at = λ h x.
                          let (r, h') = refresh_ingress o req.from_host o.has_ingress h in
                          either r h' (
                            IsReaped-Grown h h'
                              ((refresh_ingress-Adds o req.from_host o.has_ingress).at h) x);
                    }
    where
      either : (r : Result (Unit {0}) (Unit {0})) (h : History) → IsReaped h → ReapMid r h
      either (ok _) h x = x
      either (err _) h x = x.0

  roll_forward-Meets : (source : Bool) → Meets IsReady (roll_forward o req source) Ended
  unfolding roll_forward
  roll_forward-Meets source =
      Meets-bind_Adds IsReady Ended _ _ (repair_ingress-Adds o req.to_host o.has_ingress)
        IsReady-Grown (λ e h (n, c). IsSafe-of_none h n)
        λ _.
          Meets-bind IsReady ReapMid Ended (reap_source o req source) _ (reap_source-Meets source)
            (λ e h x. x)
            λ _.
              Meets-bind_Adds IsReaped Ended _ _ (restore_paired-Adds o req req.also_stop)
                IsReaped-Grown (λ e h x. x.0)
                λ _.
                  Meets-bind_Adds IsReaped Ended _ (λ _. pure rolled_forward)
                    (Adds-note {P = is_mending} "reconcile-roll-forward" req.to_host refl)
                    IsReaped-Grown (λ e h x. x.0)
                    λ _. record { at = λ h (s, f). (s, refl, λ _. f, λ e. cc) }

  -- The source started, with nothing deleted yet.
  abbrev IsRestored : History → Type 0
  IsRestored h = NoDelete h × Succeeded o (start detached req.from_host (key_of req)) h

  abbrev IsRolledBack : History → Type 0
  IsRolledBack h = IsSafe h × IsBack h

  reap_dest-Meets : Meets IsRestored (reap_dest o req) Ended
  unfolding reap_dest
  reap_dest-Meets =
      demand-then o IsRestored IsRolledBack IsSafe (delete detached req.to_host (key_of req))
        "reap dest: "
        (λ h x e. (((refl, refl, inr (refl, x.1)), IsSafe-of_none h x.0), (inr x.1, inl (refl, e))))
        (λ h detail x. (tt, ((refl, refl, inr (refl, x.1)), IsSafe-of_none h x.0))) Ended
        (note "reconcile-roll-back" req.from_host
          >> pure (failed_outcome "rolled back: destination unverified, source restored"))
        (λ e h x. x)
        (record {
          at = λ h (s, (started, reaped)).
              ((tt, s), refl, λ e. cc, λ _. inl (inr started, inr reaped));
        })

  restore_source-Meets : Meets NoDelete (restore_source o req) Ended
  unfolding restore_source
  restore_source-Meets =
      demand-then o NoDelete IsRestored NoDelete (start detached req.from_host (key_of req))
        "restore source: " (λ h n e. ((refl, n), inl (refl, e))) (λ h detail n. (refl, (refl, n)))
        Ended (restore_paired o req req.also_stop >> reap_dest o req) (λ e h n. IsSafe-of_none h n)
        (Meets-bind_Adds IsRestored Ended (restore_paired o req req.also_stop)
          (λ _. reap_dest o req) (restore_paired-Adds o req req.also_stop)
          (λ h h' g x. (
            NoDelete-Grown mending-no_delete g x.0,
            Succeeded-Grown o (start detached req.from_host (key_of req)) g x.1,
          ))
          (λ e h x. IsSafe-of_none h x.0) (λ _. reap_dest-Meets))

  leave_dest-Meets : (status : DestStatus) → Meets NoDelete (leave_dest req status) Ended
  leave_dest-Meets DestStatus.absent = record {
    at = λ h n. ((tt, IsSafe-of_none h n), refl, λ e. cc, λ _. inr (refl, n));
  }
  leave_dest-Meets DestStatus.healthy = record {
    at = λ h n. ((tt, IsSafe-of_none h n), refl, λ e. cc, λ _. inr (refl, n));
  }
  leave_dest-Meets DestStatus.unhealthy = record {
    at = λ h n. ((tt, IsSafe-of_none h n), refl, λ e. cc, λ _. inr (refl, n));
  }
  leave_dest-Meets DestStatus.unreachable = record {
    at = λ h n. ((tt, IsSafe-of_none h n), refl, λ e. cc, λ _. inr (refl, n));
  }

  fall_back-Meets :
      (status : DestStatus) (source : Bool) → Meets NoDelete (fall_back o req status source) Ended
  unfolding fall_back
  fall_back-Meets status true = restore_source-Meets
  fall_back-Meets status false = leave_dest-Meets status

  compensate-Ended :
      (s : Survey) (committed : Bool) (h : History)
      → NoDelete h
      → (committed ≡ true → IsCommitted o req h)
      → let (r, h') = compensate o req s committed h in Ended r h'
  unfolding compensate
  compensate-Ended s true h n c = (roll_forward-Meets s.source).at h (n, c refl)
  compensate-Ended s false h n c = (fall_back-Meets s.status s.source).at h n

  watching-no_delete : (c : Call) → is_watching c ≡ true → is_delete c ≡ false
  watching-no_delete (delete _ _ _) e = cc
  watching-no_delete _ e = refl

  -- What the verdict of a reconciliation says: a success rolled forward; a verdict of failure rolled
  -- back, or deleted nothing.
  abbrev pub IsVerdict : Outcome → History → Type 0
  IsVerdict out h =
      (out.succeeded ≡ true → (out.resolved ≡ true) × IsForward h)
      × (out.resolved ≡ true → out.succeeded ≡ false → IsBack h ⊎ NoDelete h)

  abbrev Concluded : Result Early Outcome → History → Type 0
  Concluded r h = IsSafe h × IsVerdict (outcome_at_end r) h

  early-Concluded : (e : Early) (h : History) → NoDelete h → Concluded (err e) h
  early-Concluded inconclusive h n = (IsSafe-of_none h n, (λ e. cc, λ e f. inr n))
  early-Concluded (terminal message) h n = (IsSafe-of_none h n, (λ e. cc, λ e f. inr n))

  Ended-Concluded :
      (r : Result (Unit {0}) Outcome) (h : History)
      → Ended r h
      → Concluded (map_failure give_up_uncertain r) h
  Ended-Concluded (ok out) h (s, r, f, b) = (s, (λ e. (r, f e), λ e failed. b failed))
  Ended-Concluded (err _) h s = (s, (λ e. cc, λ e f. cc))

  surveyed-Concluded :
      (r : Result Early Survey) (h : History)
      → NoDelete h
      → IsFounded o req r h
      → let (t, h') =
          (◌>>=◌
              (λ (_ : History). (r, h))
              λ s. give_up_with give_up_uncertain (compensate o req s s.committed))
            h in
        Concluded t h'
  surveyed-Concluded (err e) h n founded = early-Concluded e h n
  surveyed-Concluded (ok s) h n founded =
      let (r, h') = compensate o req s s.committed h in
      Ended-Concluded r h' (compensate-Ended s s.committed h n founded)

  -- Whatever the hosts and the store answer: each delete that a reconciliation asks for is
  -- detached from the caller's context, of this instance, and either on the source, after the
  -- destination was seen to run and its spec was read, or on the destination, after the source was
  -- started. A verdict of success is given only after such a destination was found and the source
  -- was deleted, or its row was deleted or found missing; one of failure only after a rollback, or
  -- with nothing deleted.
  pub reconcile_migrate-IsVerdict :
      let (r, h) = reconcile_migrate {E = Unit {0}} o req [] in
      OnOk (λ out. IsSafe h × IsVerdict out h) r
  unfolding reconcile_migrate
  reconcile_migrate-IsVerdict =
      let (r, h) = survey o req [] in
      surveyed-Concluded r h (NoDelete-Grown watching-no_delete ((survey-Adds o req).at []) tt)
        ((survey-IsFounded o req).at [] tt)
