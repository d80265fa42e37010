-- ===== src/Instance/Reconcile/Surveys.antt =====
-- internal/instance/reconcile.go: what is looked at before anything is changed, and what it shows.
use podman_api.Common.{
  ◌≡◌, inl, Bool, true, false, not, ◌∷◌, Option, none, some, String, refl, arith,
}
use podman_api.Ingress.Routes.{SpecKey}
use podman_api.Instance.{Error, Result, ok, err, OnOk, MigrateRequest, key_of}
use podman_api.Instance.Reconcile.{
  Early, Presence, DestStatus, SpecState, source_present, after_failed_wait, after_wait,
  after_inspect, dest_state, spec_state_of, dest_spec_state, template_verdict, presence_verdict,
  status_verdict, context_verdict, spec_verdict, is_committed, Survey, survey, survey_of, gone_host,
}
use podman_api.Instance.Calls.{
  Call, step, check_context, pod_inspect, wait_running, get_template, get_spec, History, Outside,
  pure, Succeeded,
}
use podman_api.Instance.Calls.Grown.{
  Adds, Grown, adds_rules, Adds-give_up_if, Adds-ask, Succeeded-Grown,
}
use podman_api.Instance.Calls.Meets.{Meets, Meets-bind, Meets-bind_Adds}

-- Calls that look and wait.
abbrev pub is_watching : Call → Bool
is_watching (step _ _) = true
is_watching check_context = true
is_watching (pod_inspect _ _) = true
is_watching (wait_running _ _) = true
is_watching (get_template _) = true
is_watching (get_spec _ _) = true
is_watching _ = false

template_verdict-Adds :
    (o : Outside) (req : MigrateRequest) (r : Option Error)
    → Adds is_watching (template_verdict o req r)
unfolding template_verdict
template_verdict-Adds o req none = search adds_rules
template_verdict-Adds o req (some e) = search adds_rules

presence_verdict-Adds :
    (req : MigrateRequest) (p : Presence) → Adds is_watching (presence_verdict req p)
presence_verdict-Adds req Presence.present = search adds_rules
presence_verdict-Adds req Presence.gone = search adds_rules
presence_verdict-Adds req Presence.unreachable = search adds_rules

status_verdict-Adds :
    (req : MigrateRequest) (s : DestStatus) → Adds is_watching (status_verdict req s)
status_verdict-Adds req DestStatus.unreachable = search adds_rules
status_verdict-Adds req DestStatus.healthy = search adds_rules
status_verdict-Adds req DestStatus.unhealthy = search adds_rules
status_verdict-Adds req DestStatus.absent = search adds_rules

context_verdict-Adds : (r : Option Error) → Adds is_watching (context_verdict r)
context_verdict-Adds none = search adds_rules
context_verdict-Adds (some _) = search adds_rules

spec_verdict-Adds : (s : SpecState) → Adds is_watching (spec_verdict s)
spec_verdict-Adds SpecState.persisted = search adds_rules
spec_verdict-Adds SpecState.absent = search adds_rules
spec_verdict-Adds SpecState.inconclusive = search adds_rules
spec_verdict-Adds SpecState.needs_key = search adds_rules
spec_verdict-Adds SpecState.corrupt = search adds_rules

source_present-Adds :
    (o : Outside) (host : String) (key : SpecKey)
    → Adds is_watching (source_present {E = Early} o host key)
unfolding source_present
source_present-Adds o host key = search adds_rules

module _ (o : Outside) (host : String) (key : SpecKey) where
  after_wait-Adds : (r : Option Error) → Adds is_watching (after_wait {E = Early} o host key r)
  unfolding after_wait
  after_wait-Adds none = search adds_rules
  after_wait-Adds (some _) = search adds_rules

  after_inspect-Adds :
      (r : Option Error) → Adds is_watching (after_inspect {E = Early} o host key r)
  unfolding after_inspect
  after_inspect-Adds none = search (adds_rules, after_wait-Adds)
  after_inspect-Adds (some _) = search adds_rules

  dest_state-Adds : Adds is_watching (dest_state {E = Early} o host key)
  unfolding dest_state
  dest_state-Adds = search (adds_rules, after_inspect-Adds)

is_committed-Adds :
    (o : Outside) (req : MigrateRequest) (s : DestStatus) → Adds is_watching (is_committed o req s)
unfolding is_committed dest_spec_state
is_committed-Adds o req DestStatus.healthy = search (adds_rules, spec_verdict-Adds)
is_committed-Adds o req DestStatus.unhealthy = search adds_rules
is_committed-Adds o req DestStatus.absent = search adds_rules
is_committed-Adds o req DestStatus.unreachable = search adds_rules

-- The survey changes nothing.
pub survey-Adds : (o : Outside) (req : MigrateRequest) → Adds is_watching (survey o req)
unfolding survey
survey-Adds o req =
    search
      (
        adds_rules, template_verdict-Adds, source_present-Adds, presence_verdict-Adds,
        dest_state-Adds, status_verdict-Adds, context_verdict-Adds, is_committed-Adds,
      )
      depth 14

abbrev pub Anything : History → Type 0
Anything h = Unit {0}

module _ (o : Outside) (host : String) (key : SpecKey) where
  -- A destination that is found healthy was seen to run.
  abbrev SawRun : DestStatus → History → Type 0
  SawRun s h = s ≡ DestStatus.healthy → Succeeded o (wait_running host key) h

  after_failed_wait-ne-healthy : (r : Option Error) → ¬ (after_failed_wait r ≡ DestStatus.healthy)
  unfolding after_failed_wait
  after_failed_wait-ne-healthy none e = cc
  after_failed_wait-ne-healthy (some x) e = ground (arith, e)

  after_wait-SawRun :
      (h : History) (w : Option Error)
      → o.fails h (wait_running host key) ≡ w
      → let (r, h') = after_wait {E = Early} o host key w (wait_running host key ∷ h) in
        OnOk (λ s. SawRun s h') r
  unfolding after_wait
  after_wait-SawRun h none e = λ _. inl (refl, e)
  after_wait-SawRun h (some x) e = λ s.
      absurd (
        after_failed_wait-ne-healthy (o.fails (wait_running host key ∷ h) (pod_inspect host key)) s)

  after_inspect-SawRun :
      (h : History) (i : Option Error)
      → let (r, h') = after_inspect {E = Early} o host key i h in OnOk (λ s. SawRun s h') r
  unfolding after_inspect
  after_inspect-SawRun h none = after_wait-SawRun h (o.fails h (wait_running host key)) refl
  after_inspect-SawRun h (some x) = λ s. ground (arith, s)

  dest_state-Meets :
      Meets Anything (dest_state {E = Early} o host key) (λ r h. OnOk (λ s. SawRun s h) r)
  unfolding dest_state
  dest_state-Meets = record {
    at = λ h _. after_inspect-SawRun (pod_inspect host key ∷ h) (o.fails h (pod_inspect host key));
  }

  -- A spec counts as persisted only if it could be read.
  spec_verdict-read :
      (h : History) (r : Option Error)
      → o.fails h (get_spec host key) ≡ r
      → let (s, h') = spec_verdict (spec_state_of r) (get_spec host key ∷ h) in
        OnOk (λ b. b ≡ true → Succeeded o (get_spec host key) h') s
  unfolding spec_state_of
  spec_verdict-read h none e = λ _. inl (refl, e)
  spec_verdict-read h (some x) e = not_read x (spec_state_of (some x)) refl
    where
      not_read :
          (x : Error) (s : SpecState)
          → spec_state_of (some x) ≡ s
          → let (t, h') = spec_verdict s (get_spec host key ∷ h) in
            OnOk (λ b. b ≡ true → Succeeded o (get_spec host key) h') t
      not_read x SpecState.persisted q = ground (arith, q)
      not_read x SpecState.absent q = λ b. cc
      not_read x SpecState.inconclusive q = tt
      not_read x SpecState.needs_key q = tt
      not_read x SpecState.corrupt q = tt

module _ (o : Outside) (req : MigrateRequest) where
  -- The destination was seen to run, and its spec was read.
  abbrev pub IsCommitted : History → Type 0
  IsCommitted h =
      Succeeded o (wait_running req.to_host (key_of req)) h
      × Succeeded o (get_spec req.to_host (key_of req)) h

  abbrev pub IsFounded : Result Early Survey → History → Type 0
  IsFounded r h = OnOk (λ s. s.committed ≡ true → IsCommitted h) r

  abbrev Seen : DestStatus → History → Type 0
  Seen = SawRun o req.to_host (key_of req)

  Seen-Grown : (s : DestStatus) (h h' : History) → Grown is_watching h h' → Seen s h → Seen s h'
  Seen-Grown s h h' g seen =
      λ e. Succeeded-Grown o (wait_running req.to_host (key_of req)) g (seen e)

  is_committed-Meets :
      (s : DestStatus)
      → Meets (Seen s) (is_committed o req s) (λ r h. OnOk (λ b. b ≡ true → IsCommitted h) r)
  unfolding is_committed dest_spec_state
  is_committed-Meets DestStatus.healthy = record {
    at = λ h seen.
        let ran =
          Succeeded-Grown o (wait_running req.to_host (key_of req))
            ((is_committed-Adds o req DestStatus.healthy).at h) (seen refl) in
        both _ _ ran (
          spec_verdict-read o req.to_host (key_of req) h
            (o.fails h (get_spec req.to_host (key_of req))) refl);
  }
    where
      both :
          (r : Result Early Bool) (h : History)
          → Succeeded o (wait_running req.to_host (key_of req)) h
          → OnOk (λ b. b ≡ true → Succeeded o (get_spec req.to_host (key_of req)) h) r
          → OnOk (λ b. b ≡ true → IsCommitted h) r
      both (ok b) h ran spec_read = λ e. (ran, spec_read e)
      both (err x) h ran spec_read = tt
  is_committed-Meets DestStatus.unhealthy = record { at = λ h seen. λ e. cc }
  is_committed-Meets DestStatus.absent = record { at = λ h seen. λ e. cc }
  is_committed-Meets DestStatus.unreachable = record { at = λ h seen. λ e. cc }

  status_verdict-Meets :
      (s : DestStatus) → Meets (Seen s) (status_verdict req s) (λ r h. OnOk (λ t. Seen t h) r)
  status_verdict-Meets DestStatus.unreachable = record { at = λ h seen. tt }
  status_verdict-Meets DestStatus.healthy = record { at = λ h seen. seen }
  status_verdict-Meets DestStatus.unhealthy = record { at = λ h seen. seen }
  status_verdict-Meets DestStatus.absent = record { at = λ h seen. seen }

  pub survey-IsFounded : Meets Anything (survey o req) IsFounded
  unfolding survey
  survey-IsFounded =
      let keep = λ (h h' : History) (g : Grown is_watching h h') (_ : Anything h). tt {0} in
      let fails = λ (e : Early) (h : History) (_ : Anything h). tt {0} in
      Meets-bind_Adds Anything IsFounded _ _
        (Adds-give_up_if {P = is_watching} (not (o.knows req.from_host))
          (gone_host "source" req.from_host))
        keep fails
        λ _.
          Meets-bind_Adds Anything IsFounded _ _
            (Adds-give_up_if {P = is_watching} (not (o.knows req.to_host))
              (gone_host "destination" req.to_host))
            keep fails
            λ _.
              Meets-bind_Adds Anything IsFounded _ _
                (Adds-ask {P = is_watching} o (get_template req.template) refl) keep fails
                λ held.
                  Meets-bind_Adds Anything IsFounded _ _ (template_verdict-Adds o req held) keep
                    fails
                    λ _.
                      Meets-bind_Adds Anything IsFounded _ _
                        (source_present-Adds o req.from_host (key_of req)) keep fails
                        λ presence.
                          Meets-bind_Adds Anything IsFounded _ _
                            (presence_verdict-Adds req presence) keep fails
                            λ source.
                              Meets-bind Anything (λ r h. OnOk (λ s. Seen s h) r) IsFounded
                                (dest_state o req.to_host (key_of req)) _
                                (dest_state-Meets o req.to_host (key_of req)) (λ e h x. tt)
                                λ found.
                                  Meets-bind (Seen found) (λ r h. OnOk (λ s. Seen s h) r) IsFounded
                                    (status_verdict req found) _ (status_verdict-Meets found)
                                    (λ e h x. tt)
                                    λ status.
                                      Meets-bind_Adds (Seen status) IsFounded _ _
                                        (Adds-ask {P = is_watching} o check_context refl)
                                        (Seen-Grown status) (λ e h x. tt)
                                        λ interrupted.
                                          Meets-bind_Adds (Seen status) IsFounded _ _
                                            (context_verdict-Adds interrupted) (Seen-Grown status)
                                            (λ e h x. tt)
                                            λ _.
                                              Meets-bind (Seen status)
                                                (λ r h. OnOk (λ b. b ≡ true → IsCommitted h) r)
                                                IsFounded (is_committed o req status)
                                                (λ b. pure (survey_of source status b))
                                                (is_committed-Meets status) (λ e h x. tt)
                                                (λ b. record { at = λ h x. x })
