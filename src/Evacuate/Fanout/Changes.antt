-- ===== src/Evacuate/Fanout/Changes.antt =====
-- internal/evacuate/handler.go, Run: the one status that an action changes.
use podman_api.Common.{
  ◌≡◌, ℕ, zero, suc, ◌+◌, Bool, List, [], ◌∷◌, ◌++◌, Option, none, some, String, count,
  count-append, refl, arith, ap, if◌then◌else◌,
}
use podman_api.Instance.{MigrateRequest}
use podman_api.Evacuate.{Status, waiting, running, ended, finished}
use podman_api.Evacuate.Fanout.{
  cons_to, head_changed, spawn_next, change_at, Worlds, text_of, ended_by, released,
}

-- One list is the other with one status changed.
pub record Change (x y : Status) (s t : List Status) : Type 0 where
  pub before : List Status
  pub after : List Status
  pub old : s ≡ before ++ x ∷ after
  pub new : t ≡ before ++ y ∷ after

Change-cons : (b x y : Status) (s t : List Status) → Change x y s t → Change x y (b ∷ s) (b ∷ t)
Change-cons b x y s t c = record {
  before = b ∷ c.before;
  after = c.after;
  old = ap (◌∷◌ b) c.old;
  new = ap (◌∷◌ b) c.new;
}

cons_to-some :
    (x : Status) (r : Option (List Status)) {t : List Status}
    → cons_to x r ≡ some t
    → (u : List Status) × (r ≡ some u) × (t ≡ x ∷ u)
cons_to-some x none e = cc
cons_to-some x (some u) e = (u, refl, cc (e))

later :
    (b : Status) (s : List Status) {t : List Status}
    → cons_to b (spawn_next s) ≡ some t
    → ((u : List Status)
        → spawn_next s ≡ some u
        → (m : MigrateRequest) × Change (waiting m) (running m) s u)
    → (m : MigrateRequest) × Change (waiting m) (running m) (b ∷ s) t
later b s e rest =
    let (u, q, same) = cons_to-some b (spawn_next s) e in
    let (m, c) = rest u q in (m, rw same (Change-cons b (waiting m) (running m) s u c))

-- The move that is started was the first to wait.
pub spawn_next-Change :
    (s : List Status) {t : List Status}
    → spawn_next s ≡ some t
    → (m : MigrateRequest) × Change (waiting m) (running m) s t
unfolding spawn_next
spawn_next-Change [] e = cc
spawn_next-Change (waiting m ∷ s) e =
    (m, record { before = []; after = s; old = refl; new = cc (e) })
spawn_next-Change (running n ∷ s) e = later (running n) s e (λ u q. spawn_next-Change s q)
spawn_next-Change (ended n text ∷ s) e = later (ended n text) s e (λ u q. spawn_next-Change s q)
spawn_next-Change (finished n text ∷ s) e =
    later (finished n text) s e (λ u q. spawn_next-Change s q)

head_changed-some :
    (s : List Status) (r : Option Status) {t : List Status}
    → head_changed s r ≡ some t
    → (y : Status) × (r ≡ some y) × (t ≡ y ∷ s)
head_changed-some s none e = cc
head_changed-some s (some y) e = (y, refl, cc (e))

pub change_at-Change :
    (f : Status → Option Status) (i : ℕ) (s : List Status) {t : List Status}
    → change_at f i s ≡ some t
    → (x : Status) × (y : Status) × (f x ≡ some y) × Change x y s t
unfolding change_at
change_at-Change f i [] e = cc
change_at-Change f zero (x ∷ s) e =
    let (y, q, same) = head_changed-some s (f x) e in
    (x, y, q, record { before = []; after = s; old = refl; new = same })
change_at-Change f (suc i) (b ∷ s) e =
    let (u, q, same) = cons_to-some b (change_at f i s) e in
    let (x, y, changed, c) = change_at-Change f i s q in
    (x, y, changed, rw same (Change-cons b x y s u c))

pub ended_by-some :
    (w : Worlds) (x y : Status)
    → ended_by w x ≡ some y
    → (m : MigrateRequest) × (x ≡ running m) × (y ≡ ended m (text_of w m))
ended_by-some w (running m) y e = (m, refl, cc (e))
ended_by-some w (waiting m) y e = cc
ended_by-some w (ended m text) y e = cc
ended_by-some w (finished m text) y e = cc

pub released-some :
    (x y : Status)
    → released x ≡ some y
    → (m : MigrateRequest) × (text : String) × (x ≡ ended m text) × (y ≡ finished m text)
released-some (ended m text) y e = (m, text, refl, cc (e))
released-some (running m) y e = cc
released-some (waiting m) y e = cc
released-some (finished m text) y e = cc

-- How a change moves a count.
pub count-Change :
    (p : Status → Bool) {x y : Status} {s t : List Status}
    → Change x y s t
    → count p s + (if p y then 1 else 0) ≡ count p t + (if p x then 1 else 0)
count-Change p {x} {y} c =
    rw (c.old, c.new)
      (omega (arith, count-append p c.before (x ∷ c.after), count-append p c.before (y ∷ c.after)))
