-- ===== src/Store/Jobs/Later.antt =====
-- internal/store/jobs.go, memory.go: how rows may change, and the loops that change them so.
use podman_api.Common.{
  ℕ, ◌≤◌, ◌≡◌, sym, subst, Bool, true, Option, none, some, List, [], ◌∷◌, ◌++◌, arith, Bool-cases,
  Option-cases, inl, inr, string_eq, Found, update_first, update_first-Found, update_all,
}
use podman_api.Store.Job.{
  JobState, queued, running, reconciling, succeeded, failed, canceled, JobState_eq, Job,
}
use podman_api.Store.Jobs.{claimed}
use podman_api.Store.Jobs.Claims.{Claims}

-- How far a row has come.
unfoldable pub phase : JobState → ℕ
phase queued = 0
phase running = 1
phase reconciling = 2
phase succeeded = 3
phase failed = 3
phase canceled = 3

-- The row keeps what it was enqueued with, and its state moves forward only.
pub record Evolves (j k : Job) : Type 0 where
  pub same_id : k.id ≡ j.id
  pub same_kind : k.kind ≡ j.kind
  pub same_args : k.args ≡ j.args
  pub same_parent : k.parent_id ≡ j.parent_id
  pub same_created : k.created ≡ j.created
  pub forward : phase j.state ≤ phase k.state

-- Rows in their order: each stands where it stood, and new ones come at the end.
pub data Later : List Job → List Job → Type 0 where
  ends : (new : List Job) → Later [] new
  keeps : {j k : Job} {js ks : List Job} → Evolves j k → Later js ks → Later (j ∷ js) (k ∷ ks)

Evolves-refl : (j : Job) → Evolves j j
Evolves-refl j = ground arith

Evolves-trans : {i j k : Job} → Evolves i j → Evolves j k → Evolves i k
Evolves-trans a b = ground arith

pub Later-refl : (js : List Job) → Later js js
Later-refl [] = ends []
Later-refl (j ∷ js) = keeps (Evolves-refl j) (Later-refl js)

pub Later-trans : {js ks ls : List Job} → Later js ks → Later ks ls → Later js ls
Later-trans (ends new) q = ends _
Later-trans (keeps e p) (keeps f q) = keeps (Evolves-trans e f) (Later-trans p q)

pub Later-append : (js new : List Job) → Later js (js ++ new)
Later-append [] new = ends new
Later-append (j ∷ js) new = keeps (Evolves-refl j) (Later-append js new)

Later-at :
    (before after : List Job) {j k : Job}
    → Evolves j k
    → Later (before ++ j ∷ after) (before ++ k ∷ after)
Later-at [] after e = keeps e (Later-refl after)
Later-at (b ∷ before) after e = keeps (Evolves-refl b) (Later-at before after e)

-- A change that moves every row that passes forward.
abbrev pub Advances : (Job → Bool) → (Job → Job) → Type 0
Advances p f = (j : Job) → p j ≡ true → Evolves j (f j)

Found-Later :
    (p : Job → Bool) (f : Job → Job) (js : List Job) (k : Job) (ks : List Job)
    → Advances p f
    → Found p f js k ks
    → Later js ks
Found-Later p f js k ks a h =
    subst (λ t. Later js t) (sym h.changed)
      (subst (λ t. Later t (h.before ++ f h.item ∷ h.after)) (sym h.split)
        (Later-at h.before h.after (a h.item h.passes)))

pub update_all-Later :
    (p : Job → Bool) (f : Job → Job) (js : List Job) → Advances p f → Later js (update_all p f js).0
unfolding update_all
update_all-Later p f [] a = ends []
update_all-Later p f (j ∷ js) a = elim (Bool-cases (p j)) [
  | inl e ↦ rw e (keeps (a j e) (update_all-Later p f js a))
  | inr e ↦ rw e (keeps (Evolves-refl j) (update_all-Later p f js a))
]

abbrev pub rows {ℓ} : {A : Type ℓ} → List Job → Option (A × List Job) → List Job
rows js none = js
rows js (some (a, js')) = js'

pub first-Later :
    (p : Job → Bool) (f : Job → Job) (js : List Job)
    → Advances p f
    → Later js (rows js (update_first p f js))
first-Later p f js a = elim (Option-cases (update_first p f js)) [
  | inl e ↦ rw e (Later-refl js)
  | inr (r, e) ↦ rw e (Found-Later p f js r.0 r.1 a (update_first-Found p f js r.0 r.1 e))
]

pub claim-Later :
    (p : Job → Bool) (now : ℕ) (js : List Job) (r : List Job × Option Job)
    → Advances p (claimed now)
    → Claims p now js r
    → Later js r.0
claim-Later p now js (ks, none) a h = subst (λ t. Later js t) (sym h.0) (Later-refl js)
claim-Later p now js (ks, some k) a h = Found-Later p (claimed now) js k ks a h

claimed-Advances :
    (p : Job → Bool) (now : ℕ)
    → ((j : Job) → p j ≡ true → j.state ≡ queued)
    → Advances p (claimed now)
unfolding phase
claimed-Advances p now q j e = ground (arith, q j e)
