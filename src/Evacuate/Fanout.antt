-- ===== src/Evacuate/Fanout.antt =====
-- internal/evacuate/handler.go, Run: the loop that starts a goroutine for each move, with a
-- semaphore, and waits for all of them. The semaphore is a channel of which only the number of
-- entries matters. The loop and the goroutines take their steps in any order.
pub mod Changes
pub mod Invariant
pub mod Progress
pub mod Slots
use podman_api.Common.{
  ◌≡◌, ◌⊎◌, inl, inr, ℕ, zero, suc, ◌+◌, ◌-◌, ◌*◌, ◌≤◌, ◌<◌, Bool, true, false, not, ◌&&◌, List, [],
  ◌∷◌, ◌++◌, map, Option, none, some, String, count, count-append, length, refl, arith, ap, ltb,
  Bool-cases, if◌then◌else◌,
}
use podman_api.Instance.{MigrateRequest}
use podman_api.Instance.Calls.{Outside}
use podman_api.Evacuate.{
  Rows, run_child, failure_text, Status, waiting, running, ended, finished, is_waiting, is_running,
  is_ended,
}

-- What answers a child's calls.
pub record World : Type 0 where
  pub outside : Outside
  pub rows : Rows

-- One for each move.
abbrev pub Worlds : Type 0
Worlds = MigrateRequest → World

abbrev pub text_of : Worlds → MigrateRequest → String
text_of w m = failure_text (w m).outside m (run_child (w m).outside (w m).rows m).returned

-- The number of entries in the channel, whether the loop has put one in for a goroutine that it has
-- not started yet, and where each move stands.
pub record Fan : Type 0 where
  pub held : ℕ
  pub taken : Bool
  pub statuses : List Status

unfoldable pub begin : List MigrateRequest → Fan
begin moves = record { held = 0; taken = false; statuses = map waiting moves }

abbrev pub when : {A : Type 0} → Bool → Option A → Option A
when true x = x
when false x = none

abbrev pub cons_to : Status → Option (List Status) → Option (List Status)
cons_to x none = none
cons_to x (some s) = some (x ∷ s)

-- The next move of the loop is started.
unfoldable pub spawn_next : List Status → Option (List Status)
spawn_next [] = none
spawn_next (waiting m ∷ s) = some (running m ∷ s)
spawn_next (x ∷ s) = cons_to x (spawn_next s)

abbrev pub head_changed : List Status → Option Status → Option (List Status)
head_changed s none = none
head_changed s (some y) = some (y ∷ s)

unfoldable pub change_at : (Status → Option Status) → ℕ → List Status → Option (List Status)
change_at f i [] = none
change_at f zero (x ∷ s) = head_changed s (f x)
change_at f (suc i) (x ∷ s) = cons_to x (change_at f i s)

-- `sem <- struct{}{}`, which blocks while the channel is full.
unfoldable pub acquire : ℕ → Fan → Option Fan
acquire slots f =
    when (not f.taken && (ltb 0 (count is_waiting f.statuses) && ltb f.held slots))
      (some (record f { held = f.held + 1; taken = true }))

abbrev pub spawned : Fan → Option (List Status) → Option Fan
spawned f none = none
spawned f (some s) = some (record f { taken = false; statuses = s })

-- `wg.Add(1)` and `go`.
unfoldable pub spawn : Fan → Option Fan
unfolding spawn_next
spawn f = when f.taken (spawned f (spawn_next f.statuses))

abbrev pub ended_by : Worlds → Status → Option Status
ended_by w (running m) = some (ended m (text_of w m))
ended_by w _ = none

abbrev pub with_ended : Fan → Option (List Status) → Option Fan
with_ended f none = none
with_ended f (some s) = some (record f { statuses = s })

-- The goroutine at an index runs its child and stores its text.
unfoldable pub end_child : Worlds → ℕ → Fan → Option Fan
unfolding change_at
end_child w i f = with_ended f (change_at (ended_by w) i f.statuses)

abbrev pub released : Status → Option Status
released (ended m text) = some (finished m text)
released _ = none

abbrev pub with_released : Fan → Option (List Status) → Option Fan
with_released f none = none
with_released f (some s) = some (record f { held = f.held - 1; statuses = s })

-- The deferred `<-sem`, which blocks while the channel is empty, and `wg.Done()`.
unfoldable pub release : ℕ → Fan → Option Fan
unfolding change_at
release i f = when (ltb 0 f.held) (with_released f (change_at released i f.statuses))

pub data Action : Type 0 where
  acquires spawns : Action
  ends releases : ℕ → Action

-- `none` where the action is not possible.
unfoldable pub step : ℕ → Worlds → Action → Fan → Option Fan
unfolding acquire spawn end_child release
step slots w acquires f = acquire slots f
step slots w spawns f = spawn f
step slots w (ends i) f = end_child w i f
step slots w (releases i) f = release i f

abbrev pub and_then : Option Fan → (Fan → Option Fan) → Option Fan
and_then none k = none
and_then (some f) k = k f

unfoldable pub run : ℕ → Worlds → List Action → Fan → Option Fan
unfolding step
run slots w [] f = some f
run slots w (a ∷ actions) f = and_then (step slots w a f) (run slots w actions)
