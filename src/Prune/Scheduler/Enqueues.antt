-- ===== src/Prune/Scheduler/Enqueues.antt =====
-- internal/prune/scheduler.go, tick: the rows that a tick enqueues.
use podman_api.Common.{
  ℕ, ◌≤◌, ◌<◌, ◌≡◌, refl, sym, ap, ◌∙◌, subst, Bool, true, false, not, Option, none, some, List, [],
  ◌∷◌, ◌++◌, String, string_eq, if◌then◌else◌, contains, any, arith, count, All, All-append, inl,
  inr, ◌⊎◌, Bool-cases, is_above,
}
use podman_api.Store.Job.{Job}
use podman_api.Store.Jobs.{enqueue}
use podman_api.Prune.Policy.{has_scope, scope_volumes}
use podman_api.Prune.Scheduler.{
  Env, State, Scan, HostPolicy, Payload, scan_prune_jobs, migrate_or_evacuate_active, without_scope,
  payload_for, enqueue_prune, trigger, visit, is_skipped, is_due, probe_due, tick_hosts, tick,
  over_threshold,
}
use podman_api.Prune.Scheduler.Scanning.{is_of, is_pending, is_moving, scan-pending, active-moving}
use mathlib.Core.List.{append_assoc, append-nil}

contains-without :
    (scopes : List String) (drop : String) → contains (without_scope scopes drop) drop ≡ false
unfolding without_scope
contains-without [] drop = refl
contains-without (s ∷ scopes) drop = ground (arith, contains-without scopes drop)

payload_safe : (hp : HostPolicy) → has_scope (payload_for true hp).policy scope_volumes ≡ false
unfolding payload_for has_scope
payload_safe hp = dropped (contains hp.policy.scope scope_volumes) refl
  where
    dropped :
        (b : Bool)
        → contains hp.policy.scope scope_volumes ≡ b
        → contains
            (if b
              then record (hp.policy) { scope = without_scope hp.policy.scope scope_volumes }
              else hp.policy).scope
            scope_volumes
          ≡ false
    dropped true e = contains-without hp.policy.scope scope_volumes
    dropped false e = e

payload-host : (m : Bool) (hp : HostPolicy) → (payload_for m hp).host ≡ hp.host
unfolding payload_for
payload-host m hp = refl

-- The rows of a store with new ones at the end, each with a property.
abbrev pub Grows : (Job → Type 0) → List Job → List Job → Type 0
Grows P jobs jobs' = (new : List Job) × (jobs' ≡ jobs ++ new) × All P new

Grows-same : (P : Job → Type 0) (jobs jobs' : List Job) → jobs' ≡ jobs → Grows P jobs jobs'
Grows-same P jobs jobs' e = ([], e ∙ sym (append-nil jobs), tt)

Grows-trans :
    (P : Job → Type 0) (jobs jobs' jobs'' : List Job)
    → Grows P jobs jobs'
    → Grows P jobs' jobs''
    → Grows P jobs jobs''
Grows-trans P jobs jobs' jobs'' (new, e, h) (new', e', h') = (
  new ++ new',
  e' ∙ (ap (λ js. js ++ new') e ∙ append_assoc jobs new new'),
  All-append P new new' h h',
)

abbrev pub row_of : Env → HostPolicy → String → Job
row_of env hp args = (enqueue (env.id_for hp.host) env.now "prune" args "" []).1

abbrev Allows : Env → Bool → (Job → Type 0) → HostPolicy → Type 0
Allows env m P hp =
    (args : String) → env.marshal (payload_for m hp) ≡ some args → P (row_of env hp args)

pub enqueue_prune-Grows :
    (env : Env) (m : Bool) (P : Job → Type 0) (hp : HostPolicy) (jobs : List Job)
    → Allows env m P hp
    → Grows P jobs (enqueue_prune env m hp jobs)
unfolding enqueue_prune enqueue
enqueue_prune-Grows env m P hp jobs allowed =
    by_marshal (env.marshal (payload_for m hp)) refl (env.accepts hp.host)
  where
    by_marshal :
        (o : Option String)
        → env.marshal (payload_for m hp) ≡ o
        → (b : Bool)
        → Grows P jobs (elim o [
          | none ↦ jobs
          | some args ↦
              if b then (enqueue (env.id_for hp.host) env.now "prune" args "" jobs).0 else jobs
        ])
    by_marshal none e b = Grows-same P jobs jobs refl
    by_marshal (some args) e true = (row_of env hp args ∷ [], refl, (allowed args e, tt))
    by_marshal (some args) e false = Grows-same P jobs jobs refl

enqueued_or_not :
    (due off late : Bool) (over : Option Bool) (jobs more : List Job) (s e t u : State)
    → s.jobs ≡ jobs
    → e.jobs ≡ more
    → t.jobs ≡ jobs
    → u.jobs ≡ more
    → let r : State =
        if due
        then e
        else if off
        then s
        else if late
        then s
        else elim over [ none ↦ t | some o ↦ if o then u else t ] in
      (r.jobs ≡ jobs) ⊎ (r.jobs ≡ more)
enqueued_or_not true off late over jobs more s e t u hs he ht hu = inr he
enqueued_or_not false true late over jobs more s e t u hs he ht hu = inl hs
enqueued_or_not false false true over jobs more s e t u hs he ht hu = inl hs
enqueued_or_not false false false none jobs more s e t u hs he ht hu = inl ht
enqueued_or_not false false false (some true) jobs more s e t u hs he ht hu = inr hu
enqueued_or_not false false false (some false) jobs more s e t u hs he ht hu = inl ht

trigger-jobs :
    (env : Env) (scan : Scan) (m : Bool) (hp : HostPolicy) (s : State)
    → ((trigger env scan m hp s).jobs ≡ s.jobs)
      ⊎ ((trigger env scan m hp s).jobs ≡ enqueue_prune env m hp s.jobs)
unfolding trigger
trigger-jobs env scan m hp s =
    enqueued_or_not (is_due env.now hp.host hp.policy scan)
      (not (is_above 0 hp.policy.disk_threshold)) (not (probe_due hp.host env.now s.last_probe).0)
      (over_threshold env hp.host hp.policy) s.jobs (enqueue_prune env m hp s.jobs) s _ _ _ refl
      refl refl refl

trigger-Grows :
    (env : Env) (scan : Scan) (m : Bool) (P : Job → Type 0) (hp : HostPolicy) (s : State)
    → Allows env m P hp
    → Grows P s.jobs (trigger env scan m hp s).jobs
trigger-Grows env scan m P hp s allowed = elim (trigger-jobs env scan m hp s) [
  | inl e ↦ Grows-same P s.jobs _ e
  | inr e ↦ subst (Grows P s.jobs) (sym e) (enqueue_prune-Grows env m P hp s.jobs allowed)
]

pub visit-Grows :
    (env : Env) (scan : Scan) (m : Bool) (P : Job → Type 0) (hp : HostPolicy) (s : State)
    → (is_skipped env scan hp ≡ false → Allows env m P hp)
    → Grows P s.jobs (visit env scan m hp s).jobs
unfolding visit
visit-Grows env scan m P hp s h = elim (Bool-cases (is_skipped env scan hp)) [
  | inl e ↦ rw e (Grows-same P s.jobs s.jobs refl)
  | inr e ↦ rw e (trigger-Grows env scan m P hp s (h e))
]

pub tick_hosts-Grows :
    (env : Env) (scan : Scan) (m : Bool) (P : Job → Type 0) (hosts : List HostPolicy) (s : State)
    → All (λ hp. is_skipped env scan hp ≡ false → Allows env m P hp) hosts
    → Grows P s.jobs (tick_hosts env scan m hosts s).jobs
unfolding tick_hosts
tick_hosts-Grows env scan m P [] s h = Grows-same P s.jobs s.jobs refl
tick_hosts-Grows env scan m P (hp ∷ hosts) s h =
    Grows-trans P s.jobs _ _ (visit-Grows env scan m P hp s h.0)
      (tick_hosts-Grows env scan m P hosts (visit env scan m hp s) h.1)

All-of_split :
    (Q : HostPolicy → Type 0) (front hosts every : List HostPolicy)
    → every ≡ front ++ hosts
    → ((before : List HostPolicy) (hp : HostPolicy) (after : List HostPolicy)
        → every ≡ before ++ hp ∷ after
        → Q hp)
    → All Q hosts
All-of_split Q front [] every e k = tt
All-of_split Q front (hp ∷ hosts) every e k = (
  k front hp hosts e,
  All-of_split Q (front ++ hp ∷ []) hosts every (e ∙ sym (append_assoc front (hp ∷ []) hosts)) k,
)

-- A new row is a prune of one of the hosts: an enabled and known one without a prune queued or
-- running, and with no volumes in its scope while instances move.
pub record IsPruneOf (env : Env) (hosts : List HostPolicy) (jobs : List Job) (row : Job)
    : Type 0 where
  pub before : List HostPolicy
  pub own : HostPolicy
  pub after : List HostPolicy
  pub listed : hosts ≡ before ++ own ∷ after
  pub enabled : own.policy.enabled ≡ true
  pub known : env.knows own.host ≡ true
  pub idle : count (is_pending env own.host) jobs ≡ 0
  pub payload : Payload
  pub args : String
  pub marshalled : env.marshal payload ≡ some args
  pub for_host : payload.host ≡ own.host
  pub safe : 0 < count is_moving jobs → has_scope payload.policy scope_volumes ≡ false
  pub same_row : row ≡ (enqueue (env.id_for own.host) env.now "prune" args "" []).1

safe_when :
    (m : Bool) (hp : HostPolicy) (n : ℕ)
    → (0 < n → m ≡ true)
    → 0 < n
    → has_scope (payload_for m hp).policy scope_volumes ≡ false
safe_when m hp n moving h =
    subst (λ b. has_scope (payload_for b hp).policy scope_volumes ≡ false) (sym (moving h))
      (payload_safe hp)

-- A tick only adds rows: each is a prune of one of its hosts, which is enabled, known to the
-- client and without a prune queued or running, and its policy has no volumes scope while a
-- migration or evacuation is queued, running or reconciling. This is where the store lists the
-- prune jobs and holds at most 500 rows of each of the three kinds, as many as a scan reads.
pub tick-IsPruneOf :
    (env : Env) (hosts : List HostPolicy) (s : State)
    → env.lists "prune" ≡ true
    → count (is_of "prune") s.jobs ≤ 500
    → count (is_of "migrate") s.jobs ≤ 500
    → count (is_of "evacuate") s.jobs ≤ 500
    → Grows (IsPruneOf env hosts s.jobs) s.jobs (tick env hosts s).jobs
unfolding tick
tick-IsPruneOf env hosts s lists few few_migrate few_evacuate =
    elim (Bool-cases (any (λ hp. hp.policy.enabled) hosts)) [
      | inl e ↦ rw e (
          tick_hosts-Grows env scan m (IsPruneOf env hosts s.jobs) hosts s
            (All-of_split _ [] hosts hosts refl allowed))
      | inr e ↦ rw e (Grows-same (IsPruneOf env hosts s.jobs) s.jobs s.jobs refl)
    ]
  where
    scan : Scan
    scan = scan_prune_jobs env s.jobs

    m : Bool
    m = migrate_or_evacuate_active env s.jobs

    allowed :
        (before : List HostPolicy) (hp : HostPolicy) (after : List HostPolicy)
        → hosts ≡ before ++ hp ∷ after
        → is_skipped env (scan_prune_jobs env s.jobs) hp ≡ false
        → Allows env (migrate_or_evacuate_active env s.jobs) (IsPruneOf env hosts s.jobs) hp
    allowed before hp after split going args marshalled = record {
      before = before;
      own = hp;
      after = after;
      listed = split;
      enabled = ground arith;
      known = ground arith;
      idle = scan-pending env hp.host s.jobs lists few (ground arith);
      payload = payload_for (migrate_or_evacuate_active env s.jobs) hp;
      args = args;
      marshalled = marshalled;
      for_host = payload-host (migrate_or_evacuate_active env s.jobs) hp;
      safe =
          safe_when (migrate_or_evacuate_active env s.jobs) hp (count is_moving s.jobs)
            (active-moving env s.jobs few_migrate few_evacuate);
      same_row = refl;
    }
