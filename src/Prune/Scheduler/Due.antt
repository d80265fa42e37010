-- ===== src/Prune/Scheduler/Due.antt =====
-- internal/prune/scheduler.go, tick: a host that is due gets its row.
use podman_api.Common.{
  ◌≡◌, refl, ap, ◌∙◌, Bool, true, false, ◌||◌, not, some, List, [], ◌∷◌, ◌++◌, String, arith, All,
  any,
}
use podman_api.Store.Job.{Job}
use podman_api.Store.Jobs.{enqueue}
use podman_api.Prune.Scheduler.{
  Env, State, Scan, HostPolicy, scan_prune_jobs, migrate_or_evacuate_active, payload_for,
  enqueue_prune, trigger, visit, is_skipped, is_due, tick_hosts, tick,
}
use podman_api.Prune.Scheduler.Enqueues.{Grows, row_of, tick_hosts-Grows}
use mathlib.Core.List.{append_assoc}

-- The row stands in the store, wherever.
abbrev pub Holds : List Job → Job → Type 0
Holds jobs row = (front back : List Job) × (jobs ≡ front ++ row ∷ back)

Holds-Grows :
    (P : Job → Type 0) (jobs jobs' : List Job) (row : Job)
    → Holds jobs row
    → Grows P jobs jobs'
    → Holds jobs' row
Holds-Grows P jobs jobs' row (front, back, e) (new, grown, h) =
    (front, back ++ new, grown ∙ (ap (λ js. js ++ new) e ∙ append_assoc front (row ∷ back) new))

any_row :
    (env : Env) (scan : Scan) (m : Bool) (hosts : List HostPolicy)
    → All
        (λ hp.
          is_skipped env scan hp ≡ false
          → (args : String) → env.marshal (payload_for m hp) ≡ some args
          → Unit {0})
        hosts
any_row env scan m [] = tt
any_row env scan m (hp ∷ hosts) = ((λ e args f. tt), any_row env scan m hosts)

module _ (env : Env) (scan : Scan) (m : Bool) (hp : HostPolicy) (args : String)
    (going : is_skipped env scan hp ≡ false) (due : is_due env.now hp.host hp.policy scan ≡ true)
    (marshalled : env.marshal (payload_for m hp) ≡ some args)
    (accepted : env.accepts hp.host ≡ true) where
  accepted_row : (jobs : List Job) → enqueue_prune env m hp jobs ≡ jobs ++ row_of env hp args ∷ []
  unfolding enqueue enqueue_prune
  accepted_row jobs = rw (enqueue_prune, marshalled, accepted) refl

  visit_due : (s : State) → Holds (visit env scan m hp s).jobs (row_of env hp args)
  unfolding visit trigger
  visit_due s = rw (going, due) (s.jobs, [], accepted_row s.jobs)

  tick_hosts_due :
      (before after : List HostPolicy) (s : State)
      → Holds (tick_hosts env scan m (before ++ hp ∷ after) s).jobs (row_of env hp args)
  unfolding tick_hosts
  tick_hosts_due [] after s =
      Holds-Grows (λ j. Unit {0}) _ _ (row_of env hp args) (visit_due s)
        (tick_hosts-Grows env scan m (λ j. Unit {0}) after (visit env scan m hp s)
          (any_row env scan m after))
  tick_hosts_due (b ∷ before) after s = tick_hosts_due before after (visit env scan m b s)

any_enabled :
    (before after : List HostPolicy) (hp : HostPolicy)
    → hp.policy.enabled ≡ true
    → any (λ h. h.policy.enabled) (before ++ hp ∷ after) ≡ true
unfolding any
any_enabled [] after hp e = ground (arith, e)
any_enabled (b ∷ before) after hp e = ground (arith, any_enabled before after hp e)

skipped_unless : (a b c d : Bool) → (not a || b || c || d) ≡ false → a ≡ true
skipped_unless a b c d h = ground arith

-- A host of the tick that no guard skips and that is due by its interval gets its row, whatever
-- the other hosts do, where its payload has a JSON text and the store accepts the row.
pub tick_due :
    (env : Env) (before after : List HostPolicy) (hp : HostPolicy) (args : String) (s : State)
    → is_skipped env (scan_prune_jobs env s.jobs) hp ≡ false
    → is_due env.now hp.host hp.policy (scan_prune_jobs env s.jobs) ≡ true
    → env.marshal (payload_for (migrate_or_evacuate_active env s.jobs) hp) ≡ some args
    → env.accepts hp.host ≡ true
    → Holds
        (tick env (before ++ hp ∷ after) s).jobs
        (enqueue (env.id_for hp.host) env.now "prune" args "" []).1
unfolding tick
tick_due env before after hp args s going due marshalled accepted =
    rw (any_enabled before after hp (skipped_unless hp.policy.enabled _ _ _ going)) (
      tick_hosts_due env (scan_prune_jobs env s.jobs) (migrate_or_evacuate_active env s.jobs) hp
        args going due marshalled accepted before after s)
