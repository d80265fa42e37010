-- ===== src/Evacuate/Fanout/Invariant.antt =====
-- internal/evacuate/handler.go, Run: each action of the fan-out keeps what the semaphore counts, and
-- leaves one action less.
use podman_api.Common.{
  subst, String, ◌≡◌, ℕ, suc, ◌+◌, ◌-◌, ◌*◌, ◌≤◌, Bool, true, false, not, ◌&&◌, List, [], ◌∷◌,
  Option, none, some, count, length, refl, arith, ltb, if◌then◌else◌,
}
use podman_api.Instance.{MigrateRequest}
use podman_api.Evacuate.{
  Status, waiting, running, ended, finished, is_waiting, is_running, is_ended,
}
use podman_api.Evacuate.Fanout.{
  Worlds, text_of, Fan, when, spawn_next, spawned, change_at, acquire, spawn, end_child, release,
  with_ended, with_released, ended_by, released, Action, acquires, spawns, ends, releases, step,
  and_then, run,
}
use podman_api.Evacuate.Fanout.Changes.{
  Change, spawn_next-Change, change_at-Change, ended_by-some, released-some, count-Change,
}

abbrev pub bit : Bool → ℕ
bit b = if b then 1 else 0

-- The channel holds one entry for each goroutine that is not done and for the loop's own, within
-- its capacity, and the loop takes a slot only for a move that waits.
pub record IsFan (slots : ℕ) (f : Fan) : Type 0 where
  pub entries : f.held ≡ count is_running f.statuses + count is_ended f.statuses + bit f.taken
  pub fits : f.held ≤ slots
  pub next_up : bit f.taken ≤ count is_waiting f.statuses

-- The actions that are left: four for a move that waits.
abbrev pub left : List Status → ℕ
left s = 4 * count is_waiting s + 2 * count is_running s + count is_ended s

-- An action keeps the invariant and is one of those that were left.
pub record IsStep (slots : ℕ) (f g : Fan) : Type 0 where
  pub kept : IsFan slots f → IsFan slots g
  pub nearer : left f.statuses + bit g.taken ≡ suc (left g.statuses + bit f.taken)

pub some_inj : {A : Type 0} {x y : A} → some x ≡ some y → x ≡ y
some_inj e = cc (e)

pub when-some :
    {A : Type 0} (b : Bool) (x : Option A) {y : A} → when b x ≡ some y → (b ≡ true) × (x ≡ some y)
when-some true x e = (refl, e)
when-some false x e = cc

acquired :
    (slots : ℕ) (f : Fan)
    → (not f.taken && (ltb 0 (count is_waiting f.statuses) && ltb f.held slots)) ≡ true
    → IsStep slots f (record f { held = f.held + 1; taken = true })
acquired slots f e = record {
  kept = λ i. record {
    entries = ground (arith, e, i.entries);
    fits = ground (arith, e);
    next_up = ground (arith, e);
  };
  nearer = ground (arith, e);
}

acquire-IsStep : (slots : ℕ) (f : Fan) {g : Fan} → acquire slots f ≡ some g → IsStep slots f g
unfolding acquire
acquire-IsStep slots f e =
    let (can, made) = when-some _ (some (record f { held = f.held + 1; taken = true })) e in
    subst (IsStep slots f) (some_inj made) (acquired slots f can)

spawned-IsStep :
    (slots : ℕ) (f : Fan) (s : List Status) (m : MigrateRequest)
    → f.taken ≡ true
    → Change (waiting m) (running m) f.statuses s
    → IsStep slots f (record f { taken = false; statuses = s })
spawned-IsStep slots f s m e c =
    let w = count-Change is_waiting c in
    let r = count-Change is_running c in
    let d = count-Change is_ended c in
    record {
      kept = λ i. record {
        entries = ground (arith, e, i.entries, w, r, d);
        fits = i.fits;
        next_up = ground (arith, e, i.next_up, w);
      };
      nearer = ground (arith, e, w, r, d);
    }

ended-IsStep :
    (slots : ℕ) (w : Worlds) (f : Fan) (s : List Status) (m : MigrateRequest)
    → Change (running m) (ended m (text_of w m)) f.statuses s
    → IsStep slots f (record f { statuses = s })
ended-IsStep slots w f s m c =
    let a = count-Change is_waiting c in
    let r = count-Change is_running c in
    let d = count-Change is_ended c in
    record {
      kept = λ i. record {
        entries = omega (arith, i.entries, r, d);
        fits = i.fits;
        next_up = omega (arith, i.next_up, a);
      };
      nearer = omega (arith, a, r, d);
    }

released-IsStep :
    (slots : ℕ) (f : Fan) (s : List Status) (m : MigrateRequest) (text : String)
    → ltb 0 f.held ≡ true
    → Change (ended m text) (finished m text) f.statuses s
    → IsStep slots f (record f { held = f.held - 1; statuses = s })
released-IsStep slots f s m text e c =
    let a = count-Change is_waiting c in
    let r = count-Change is_running c in
    let d = count-Change is_ended c in
    record {
      kept = λ i. record {
        entries = ground (arith, e, i.entries, r, d);
        fits = ground (arith, i.fits);
        next_up = omega (arith, i.next_up, a);
      };
      nearer = omega (arith, a, r, d);
    }

-- What each action changes.
pub spawn-some :
    (f : Fan) {g : Fan}
    → spawn f ≡ some g
    → (f.taken ≡ true)
      × ((s : List Status) × (m : MigrateRequest) × Change (waiting m) (running m) f.statuses s
          × (record f { taken = false; statuses = s } ≡ g))
unfolding spawn
spawn-some f e =
    let (taken, made) = when-some f.taken (spawned f (spawn_next f.statuses)) e in
    (taken, given (spawn_next f.statuses) refl made)
  where
    given :
        (r : Option (List Status)) {g : Fan}
        → spawn_next f.statuses ≡ r
        → spawned f r ≡ some g
        → (s : List Status) × (m : MigrateRequest) × Change (waiting m) (running m) f.statuses s
          × (record f { taken = false; statuses = s } ≡ g)
    given none q made = cc
    given (some s) q made = let (m, c) = spawn_next-Change f.statuses q in (s, m, c, some_inj made)

pub end_child-some :
    (w : Worlds) (i : ℕ) (f : Fan) {g : Fan}
    → end_child w i f ≡ some g
    → (s : List Status) × (m : MigrateRequest) × Change
        (running m)
        (ended m (text_of w m))
        f.statuses
        s
      × (record f { statuses = s } ≡ g)
unfolding end_child
end_child-some w i f e = given (change_at (ended_by w) i f.statuses) refl e
  where
    given :
        (r : Option (List Status)) {g : Fan}
        → change_at (ended_by w) i f.statuses ≡ r
        → with_ended f r ≡ some g
        → (s : List Status) × (m : MigrateRequest) × Change
            (running m)
            (ended m (text_of w m))
            f.statuses
            s
          × (record f { statuses = s } ≡ g)
    given none q made = cc
    given (some s) q made =
        let (x, y, changed, c) = change_at-Change (ended_by w) i f.statuses q in
        let (m, old, new) = ended_by-some w x y changed in
        (
          s,
          m,
          subst (λ (a : Status). Change a (ended m (text_of w m)) f.statuses s) old
              (subst (λ (b : Status). Change x b f.statuses s) new c),
          some_inj made,
        )

pub release-some :
    (i : ℕ) (f : Fan) {g : Fan}
    → release i f ≡ some g
    → (ltb 0 f.held ≡ true)
      × ((s : List Status) × (m : MigrateRequest) × (text : String) × Change
            (ended m text)
            (finished m text)
            f.statuses
            s
          × (record f { held = f.held - 1; statuses = s } ≡ g))
unfolding release
release-some i f e =
    let (some_entry, made) =
      when-some (ltb 0 f.held) (with_released f (change_at released i f.statuses)) e in
    (some_entry, given (change_at released i f.statuses) refl made)
  where
    given :
        (r : Option (List Status)) {g : Fan}
        → change_at released i f.statuses ≡ r
        → with_released f r ≡ some g
        → (s : List Status) × (m : MigrateRequest) × (text : String) × Change
            (ended m text)
            (finished m text)
            f.statuses
            s
          × (record f { held = f.held - 1; statuses = s } ≡ g)
    given none q made = cc
    given (some s) q made =
        let (x, y, changed, c) = change_at-Change released i f.statuses q in
        let (m, text, old, new) = released-some x y changed in
        (
          s,
          m,
          text,
          subst (λ (a : Status). Change a (finished m text) f.statuses s) old
              (subst (λ (b : Status). Change x b f.statuses s) new c),
          some_inj made,
        )

step-IsStep :
    (slots : ℕ) (w : Worlds) (a : Action) (f : Fan) {g : Fan}
    → step slots w a f ≡ some g
    → IsStep slots f g
unfolding step
step-IsStep slots w acquires f e = acquire-IsStep slots f e
step-IsStep slots w spawns f e =
    let (taken, (s, m, c, same)) = spawn-some f e in
    subst (IsStep slots f) same (spawned-IsStep slots f s m taken c)
step-IsStep slots w (ends i) f e =
    let (s, m, c, same) = end_child-some w i f e in
    subst (IsStep slots f) same (ended-IsStep slots w f s m c)
step-IsStep slots w (releases i) f e =
    let (held, (s, m, text, c, same)) = release-some i f e in
    subst (IsStep slots f) same (released-IsStep slots f s m text held c)

pub and_then-some :
    (r : Option Fan) (k : Fan → Option Fan) {g : Fan}
    → and_then r k ≡ some g
    → (f : Fan) × (r ≡ some f) × (k f ≡ some g)
and_then-some none k e = cc
and_then-some (some f) k e = (f, refl, e)

pub run-IsFan :
    (slots : ℕ) (w : Worlds) (actions : List Action) (f : Fan) {g : Fan}
    → run slots w actions f ≡ some g
    → IsFan slots f
    → IsFan slots g
      × (left f.statuses + bit g.taken ≡ length actions + (left g.statuses + bit f.taken))
unfolding run
run-IsFan slots w [] f e i =
    let same = some_inj e in (subst (IsFan slots) same i, rw⁻¹ same (omega arith))
run-IsFan slots w (a ∷ actions) f e i =
    let (next, first, rest) = and_then-some (step slots w a f) (run slots w actions) e in
    let moved = step-IsStep slots w a f first in
    let (kept, counted) = run-IsFan slots w actions next rest (moved.kept i) in
    (kept, omega (arith, counted, moved.nearer))
