-- ===== src/Instance/Migrate/Endings.antt =====
-- internal/instance/migrate.go, Migrate: how a migration may end.
use podman_api.Common.{
  ◌≡◌, ◌≢◌, inl, inr, true, false, List, [], ◌∷◌, Option, none, some, String, string_eq, All, refl,
}
use podman_api.Ingress.Routes.{SpecKey}
use podman_api.Instance.{Error, Result, ok, err, MigrateRequest, key_of, wrap, effective}
use podman_api.Instance.Moving.Steps.{is_moving}
use podman_api.Instance.Moving.Transfer.{IsReplicated, IsReplicated-step}
use podman_api.Instance.Preflight.Looking.{is_looking}
use podman_api.Instance.Migrate.{restart_stopped, note_restart, restart_paired, commit}
use podman_api.Instance.Migrate.Steps.{is_starting, restart_paired-Adds}
use podman_api.Instance.Migrate.Justified.{
  is_delete, NoDelete, IsJustified, IsJustified-of_NoDelete, IsJustified-Grown, NoDelete-Grown,
  not-Asked-Grown, not-Asked_of_NoDelete,
}
use podman_api.Instance.Calls.{
  Call, step, stop, start, delete, get_spec, detached, Spec, History, Outside, Run, ◌>>=◌, ◌>>◌,
  note, note_failure, or_give_up, Succeeded, Asked,
}
use podman_api.Instance.Calls.Grown.{Grown, Asked-Grown, Succeeded-Grown}
use podman_api.Instance.Calls.Meets.{Meets, IsStable, IsStable-Grown, Got}

-- The spec that was read from the source, with the request's parameters over its own, is what the
-- destination runs, with the source's volumes.
abbrev pub IsTransferred : Outside → MigrateRequest → Spec → History → Type 0
IsTransferred o req spec h =
    Got o (get_spec req.from_host (key_of req)) o.spec spec h
    × IsReplicated o req (effective spec.parameters req) spec h

IsTransferred-step :
    (o : Outside) (req : MigrateRequest) (spec : Spec) → IsStable (IsTransferred o req spec)
IsTransferred-step o req spec c h (got, r) =
    (inr got, IsReplicated-step o req (effective spec.parameters req) spec c h r)

-- How a failed migration ends: nothing was changed; the source refused to stop; it was rolled back,
-- which starts the source, then reaps the destination, and never deletes the source; or the
-- destination runs the instance and the source could not be deleted.
pub data IsFailure (o : Outside) (req : MigrateRequest) (e : Error) (h : History) : Type 0 where
  untouched : All (λ c. is_looking c ≡ true) h → IsFailure o req e h
  stop_refused :
      (before : History)
      → h ≡ stop req.from_host (key_of req) ∷ before
      → All (λ c. is_looking c ≡ true) before
      → o.fails before (stop req.from_host (key_of req)) ≢ none
      → IsFailure o req e h
  rolled_back :
      Succeeded o (stop req.from_host (key_of req)) h
      → Asked (start detached req.from_host (key_of req)) h
      → Asked (delete detached req.to_host (key_of req)) h
      → ¬ Asked (delete detached req.from_host (key_of req)) h
      → IsFailure o req e h
  commit_refused :
      (spec : Spec) (cause : Error) (before : History)
      → h ≡ delete detached req.from_host (key_of req) ∷ before
      → o.fails before (delete detached req.from_host (key_of req)) ≡ some cause
      → e ≡ wrap "commit (delete source)" cause
      → Succeeded o (stop req.from_host (key_of req)) before
      → IsTransferred o req spec before
      → IsFailure o req e h

-- A migration that succeeded stopped the source, copied its volumes, applied its spec, saw the pod
-- run, and deleted the source.
abbrev pub IsMoved : Outside → MigrateRequest → History → Type 0
IsMoved o req h =
    ((spec : Spec) × IsTransferred o req spec h)
    × Succeeded o (stop req.from_host (key_of req)) h
    × Succeeded o (delete detached req.from_host (key_of req)) h

abbrev pub IsEnding : Outside → MigrateRequest → Result Error (Unit {0}) → History → Type 0
IsEnding o req (ok _) h = IsMoved o req h
IsEnding o req (err e) h = IsFailure o req e h

-- Neither a look nor a step of the move nor a restart deletes.
pub looking-no_delete : (c : Call) → is_looking c ≡ true → is_delete c ≡ false
looking-no_delete (delete _ _ _) e = cc
looking-no_delete _ e = refl

pub moving-no_delete : (c : Call) → is_moving c ≡ true → is_delete c ≡ false
moving-no_delete (delete _ _ _) e = cc
moving-no_delete _ e = refl

pub starting-no_delete : (c : Call) → is_starting c ≡ true → is_delete c ≡ false
starting-no_delete (delete _ _ _) e = cc
starting-no_delete _ e = refl

note-then-ok :
    {E : Type 0} (o : Outside) (name : String) (answer : Option Error) (rest : Run E (Unit {0}))
    → ((h : History) → (rest h).0 ≡ ok tt)
    → (h : History) → ((note_failure o name answer >> rest) h).0 ≡ ok tt
note-then-ok o name none rest r h = r h
note-then-ok o name (some e) rest r h = r (step name (o.message e) ∷ h)

pub restart_stopped-ok :
    {E : Type 0} (o : Outside) (req : MigrateRequest) (stopped : List SpecKey) (h : History)
    → (restart_stopped {E = E} o req stopped h).0 ≡ ok tt
unfolding restart_stopped
restart_stopped-ok o req [] h = refl
restart_stopped-ok o req (p ∷ stopped) h =
    note-then-ok o "rollback-start-paired-failed" (o.fails h (start detached req.from_host p))
      (restart_stopped o req stopped) (restart_stopped-ok o req stopped)
      (start detached req.from_host p ∷ h)

note_restart-ok :
    (o : Outside) (p : SpecKey) (answer : Option Error) (rest : Run Error (Unit {0}))
    → ((h : History) → (rest h).0 ≡ ok tt)
    → (h : History) → ((note_restart o p answer >> rest) h).0 ≡ ok tt
note_restart-ok o p none rest r h = r (_ ∷ h)
note_restart-ok o p (some e) rest r h = r (_ ∷ h)

restart_paired-ok :
    (o : Outside) (req : MigrateRequest) (stopped : List SpecKey) (h : History)
    → (restart_paired o req stopped h).0 ≡ ok tt
unfolding restart_paired
restart_paired-ok o req [] h = refl
restart_paired-ok o req (p ∷ stopped) h =
    note_restart-ok o p (o.fails h (start detached req.from_host p)) (restart_paired o req stopped)
      (restart_paired-ok o req stopped) (start detached req.from_host p ∷ h)

module _ (o : Outside) (req : MigrateRequest) where
  abbrev pub After : Result Error (Unit {0}) → History → Type 0
  After r h = IsJustified o req h × IsEnding o req r h

  -- The state when the destination is verified.
  abbrev pub IsVerified : Spec → History → Type 0
  IsVerified spec h =
      NoDelete h × Succeeded o (stop req.from_host (key_of req)) h × IsTransferred o req spec h

  abbrev IsCommitted : Spec → History → Type 0
  IsCommitted spec h =
      IsJustified o req h
      × Succeeded o (stop req.from_host (key_of req)) h
      × IsTransferred o req spec h
      × Succeeded o (delete detached req.from_host (key_of req)) h

  IsCommitted-Grown :
      (spec : Spec) (h h' : History)
      → Grown is_starting h h'
      → IsCommitted spec h
      → IsCommitted spec h'
  IsCommitted-Grown spec h h' g (j, s, r, d) = (
    IsJustified-Grown starting-no_delete o req g j,
    Succeeded-Grown o (stop req.from_host (key_of req)) g s,
    IsStable-Grown (IsTransferred o req spec) (IsTransferred-step o req spec) g r,
    Succeeded-Grown o (delete detached req.from_host (key_of req)) g d,
  )

  After_of_ok :
      (spec : Spec) (r : Result Error (Unit {0})) (h : History)
      → r ≡ ok tt
      → IsCommitted spec h
      → After r h
  After_of_ok spec (ok _) h e (j, s, r, d) = (j, ((spec, r), s, d))
  After_of_ok spec (err x) h e c = cc

  commit-deleted :
      (spec : Spec) (stopped : List SpecKey) (h : History) (r : Option Error)
      → o.fails h (delete detached req.from_host (key_of req)) ≡ r
      → IsVerified spec h
      → let (s, t) =
          (◌>>=◌
              (or_give_up (wrap "commit (delete source)") r)
              λ _. note "commit" req.from_host >> restart_paired o req stopped)
            (delete detached req.from_host (key_of req) ∷ h) in
        After s t
  commit-deleted spec stopped h none e (n, s, r) =
      let c = delete detached req.from_host (key_of req) in
      let h' = step "commit" req.from_host ∷ c ∷ h in
      let committed : IsCommitted spec h' = (
        (tt, ((refl, refl, inl (refl, r.1.2)), IsJustified-of_NoDelete o req h n)),
        inr (inr s),
        IsTransferred-step o req spec _ (c ∷ h) (IsTransferred-step o req spec c h r),
        inr (inl (refl, e)),
      ) in
      After_of_ok spec _ _ (restart_paired-ok o req stopped h')
        (IsCommitted-Grown spec _ _ ((restart_paired-Adds o req stopped).at h') committed)
  commit-deleted spec stopped h (some x) e (n, s, r) = (
    ((refl, refl, inl (refl, r.1.2)), IsJustified-of_NoDelete o req h n),
    commit_refused spec x h refl e refl s r,
  )

  pub commit-Meets :
      (spec : Spec) (stopped : List SpecKey) → Meets (IsVerified spec) (commit o req stopped) After
  unfolding commit
  commit-Meets spec stopped = record {
    at = λ h v.
        commit-deleted spec stopped h (o.fails h (delete detached req.from_host (key_of req))) refl
          v;
  }

  -- The source was stopped and nothing is deleted so far.
  abbrev pub IsStopped : History → Type 0
  IsStopped h = NoDelete h × Succeeded o (stop req.from_host (key_of req)) h

  abbrev pub IsRestarted : History → Type 0
  IsRestarted h = IsStopped h × Asked (start detached req.from_host (key_of req)) h

  abbrev pub IsReaped : History → Type 0
  IsReaped h =
      IsJustified o req h
      × Succeeded o (stop req.from_host (key_of req)) h
      × Asked (start detached req.from_host (key_of req)) h
      × Asked (delete detached req.to_host (key_of req)) h
      × (¬ Asked (delete detached req.from_host (key_of req)) h)

  pub IsReaped-Grown : (h h' : History) → Grown is_starting h h' → IsReaped h → IsReaped h'
  IsReaped-Grown h h' g (j, s, a, d, n) = (
    IsJustified-Grown starting-no_delete o req g j,
    Succeeded-Grown o (stop req.from_host (key_of req)) g s,
    Asked-Grown (start detached req.from_host (key_of req)) g a,
    Asked-Grown (delete detached req.to_host (key_of req)) g d,
    not-Asked-Grown starting-no_delete detached req.from_host (key_of req) g n,
  )

  pub IsRestarted-Grown : (h h' : History) → Grown is_starting h h' → IsRestarted h → IsRestarted h'
  IsRestarted-Grown h h' g ((n, s), a) = (
    (
      NoDelete-Grown starting-no_delete g n,
      Succeeded-Grown o (stop req.from_host (key_of req)) g s,
    ),
    Asked-Grown (start detached req.from_host (key_of req)) g a,
  )

  pub IsReaped-of_delete :
      req.from_host ≢ req.to_host
      → (h : History) → IsRestarted h
      → IsReaped (delete detached req.to_host (key_of req) ∷ h)
  IsReaped-of_delete apart h ((n, s), a) = (
    ((refl, refl, inr (refl, a)), IsJustified-of_NoDelete o req h n),
    inr s,
    inr a,
    inl refl,
    λ x. elim x [
      | inl e ↦ apart (to_is_from e)
      | inr y ↦ not-Asked_of_NoDelete detached req.from_host (key_of req) h n y
    ],
  )
    where
      to_is_from :
          delete detached req.to_host (key_of req) ≡ delete detached req.from_host (key_of req)
          → req.from_host ≡ req.to_host
      to_is_from e = cc
