-- ===== src/Instance/Reconcile/Compensation.antt =====
-- internal/instance/reconcile.go: the compensation of an interrupted migration, and what it may
-- delete.
use podman_api.Common.{◌≡◌, ◌⊎◌, Bool, true, false, List, [], ◌∷◌, Option, none, some, String, refl}
use podman_api.Ingress.Routes.{SpecKey}
use podman_api.Instance.{Error, Result, ok, err, MigrateRequest, key_of, ◌&◌}
use podman_api.Instance.Migrate.Justified.{is_delete}
use podman_api.Instance.Reconcile.{
  or_uncertain, or_uncertain_but, restore_paired, refresh_ingress, repair_ingress,
}
use podman_api.Instance.Reconcile.Surveys.{IsCommitted}
use podman_api.Instance.Calls.{
  detached, Call, step, start, delete, get_spec, delete_spec, prune_resources, ingress_reconcile,
  History, Outside, Run, ◌>>=◌, ◌>>◌, ask, Succeeded,
}
use podman_api.Instance.Calls.Grown.{Adds, adds_rules}
use podman_api.Instance.Calls.Meets.{Meets}

-- A delete is detached from the caller's context, of this instance, and either on the source, after
-- the destination was seen to run and its spec was read, or on the destination, after the source
-- was started.
abbrev pub JustifiedReap : Outside → MigrateRequest → Call → History → Type 0
JustifiedReap o req (delete context host key) h =
    (context ≡ detached)
    × (key ≡ key_of req)
    × (((host ≡ req.from_host) × IsCommitted o req h)
        ⊎ ((host ≡ req.to_host) × Succeeded o (start detached req.from_host (key_of req)) h))
JustifiedReap o req _ h = Unit {0}

pub JustifiedReap-of_other :
    (o : Outside) (req : MigrateRequest) (c : Call) (h : History)
    → is_delete c ≡ false
    → JustifiedReap o req c h
JustifiedReap-of_other o req (delete context host key) h e = cc
JustifiedReap-of_other o req _ h e = tt

-- Calls of the compensation that delete no instance.
abbrev pub is_mending : Call → Bool
is_mending (step _ _) = true
is_mending (start _ _ _) = true
is_mending (ingress_reconcile _) = true
is_mending (get_spec _ _) = true
is_mending (delete_spec _ _) = true
is_mending (prune_resources _ _ _) = true
is_mending _ = false

pub mending-no_delete : (c : Call) → is_mending c ≡ true → is_delete c ≡ false
mending-no_delete (delete _ _ _) e = cc
mending-no_delete _ e = refl

or_uncertain-Adds :
    (o : Outside) (prefix : String) (r : Option Error) → Adds is_mending (or_uncertain o prefix r)
or_uncertain-Adds o prefix none = search adds_rules
or_uncertain-Adds o prefix (some e) = search adds_rules

pub or_uncertain_but-Adds :
    (o : Outside) (b : Bool) (prefix : String) (r : Option Error)
    → Adds is_mending (or_uncertain_but o b prefix r)
or_uncertain_but-Adds o true prefix r = search adds_rules
or_uncertain_but-Adds o false prefix r = or_uncertain-Adds o prefix r

pub restore_paired-Adds :
    (o : Outside) (req : MigrateRequest) (paired : List SpecKey)
    → Adds is_mending (restore_paired o req paired)
unfolding restore_paired
restore_paired-Adds o req [] = search adds_rules
restore_paired-Adds o req (p ∷ paired) =
    let rest = restore_paired-Adds o req paired in search (adds_rules, or_uncertain_but-Adds)

pub refresh_ingress-Adds :
    (o : Outside) (host : String) (b : Bool) → Adds is_mending (refresh_ingress o host b)
refresh_ingress-Adds o host true = search adds_rules
refresh_ingress-Adds o host false = search adds_rules

pub repair_ingress-Adds :
    (o : Outside) (host : String) (b : Bool) → Adds is_mending (repair_ingress o host b)
repair_ingress-Adds o host true = search (adds_rules, or_uncertain-Adds)
repair_ingress-Adds o host false = search adds_rules

-- How a call that must succeed ends.
abbrev pub Demanded :
    (History → Type 0) → (History → Type 0) → Result (Unit {0}) (Unit {0}) → History → Type 0
Demanded Good Bad (ok _) h = Good h
Demanded Good Bad (err _) h = Bad h

module _ (o : Outside) (B Good Bad : History → Type 0) (c : Call) (prefix : String)
    (good : (h : History) → B h → o.fails h c ≡ none → Good (c ∷ h))
    (bad : (h : History) (detail : String)
      → B h
      → Bad (step "reconcile-inconclusive" detail ∷ c ∷ h)) where
  demand-result :
      (h : History) (r : Option Error)
      → o.fails h c ≡ r
      → B h
      → let (s, t) = or_uncertain o prefix r (c ∷ h) in Demanded Good Bad s t
  demand-result h none e b = good h b e
  demand-result h (some x) e b = bad h (prefix & o.message x) b

  pub demand-Meets : Meets B (ask o c >>= or_uncertain o prefix) (Demanded Good Bad)
  demand-Meets = record { at = λ h b. demand-result h (o.fails h c) refl b }

  module _ {A : Type 0} (After : Result (Unit {0}) A → History → Type 0) where
    pub demand-then :
        (k : Run (Unit {0}) A)
        → ((e : Unit {0}) (h : History) → Bad h → After (err e) h)
        → Meets Good k After
        → Meets B (ask o c >>= λ r. or_uncertain o prefix r >> k) After
    demand-then k fails next = record { at = λ h b. case h (o.fails h c) refl b }
      where
        case :
            (h : History) (r : Option Error)
            → o.fails h c ≡ r
            → B h
            → let (s, t) = (or_uncertain o prefix r >> k) (c ∷ h) in After s t
        case h none e b = next.at (c ∷ h) (good h b e)
        case h (some x) e b = fails tt _ (bad h (prefix & o.message x) b)
