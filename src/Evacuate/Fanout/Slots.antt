-- ===== src/Evacuate/Fanout/Slots.antt =====
-- internal/evacuate/handler.go, Run: the semaphore bounds the children, and the fan-out ends.
use podman_api.Common.{
  ◌≡◌, ◌⊎◌, ℕ, ◌+◌, ◌*◌, ◌≤◌, List, [], ◌∷◌, map, some, count, length, refl, arith, ℤ,
}
use podman_api.Instance.{MigrateRequest}
use podman_api.Evacuate.{waiting, is_waiting, is_running, is_ended, effective_concurrency}
use podman_api.Evacuate.Concurrency.{effective_concurrency-bounds}
use podman_api.Evacuate.Fanout.{Worlds, Fan, begin, Action, step, run}
use podman_api.Evacuate.Fanout.Invariant.{bit, IsFan, run-IsFan}
use podman_api.Evacuate.Fanout.Progress.{AllDone, step_or_done}

none_of_waiting :
    (moves : List MigrateRequest)
    → (count is_waiting (map waiting moves) ≡ length moves)
      × (count is_running (map waiting moves) ≡ 0)
      × (count is_ended (map waiting moves) ≡ 0)
none_of_waiting [] = (refl, refl, refl)
none_of_waiting (m ∷ moves) =
    let (w, r, e) = none_of_waiting moves in (omega (arith, w), omega (arith, r), omega (arith, e))

begin-IsFan : (slots : ℕ) (moves : List MigrateRequest) → IsFan slots (begin moves)
unfolding begin
begin-IsFan slots moves =
    let (w, r, e) = none_of_waiting moves in
    record { entries = omega (arith, r, e); fits = omega arith; next_up = omega arith }

module _ (handler_default req_override : ℤ) (w : Worlds) (moves : List MigrateRequest)
    (actions : List Action) where
  abbrev slots : ℕ
  slots = effective_concurrency handler_default req_override

  -- Whatever the order of the steps, the channel holds one entry for each goroutine that is not
  -- done and one for a move that the loop is about to start, and no more children run at a time
  -- than the effective concurrency.
  pub run-bounded :
      {f : Fan}
      → run slots w actions (begin moves) ≡ some f
      → (f.held ≡ count is_running f.statuses + count is_ended f.statuses + bit f.taken)
        × (count is_running f.statuses ≤ slots)
  run-bounded e =
      let (i, counted) = run-IsFan slots w actions (begin moves) e (begin-IsFan slots moves) in
      (i.entries, omega (arith, i.entries, i.fits))

  -- The fan-out ends without a deadlock: at most four steps are taken for each move, and after any
  -- steps either every goroutine is done or another step is possible, whatever the children
  -- answer.
  pub run-ends :
      {f : Fan}
      → run slots w actions (begin moves) ≡ some f
      → (length actions ≤ 4 * length moves)
        × (AllDone f.statuses ⊎ ((a : Action) × (g : Fan) × (step slots w a f ≡ some g)))
  unfolding begin
  run-ends e =
      let (i, counted) = run-IsFan slots w actions (begin moves) e (begin-IsFan slots moves) in
      let (waits, r, d) = none_of_waiting moves in
      (
        omega (arith, counted, waits, r, d, i.next_up),
        step_or_done slots w (effective_concurrency-bounds handler_default req_override 0).0 _ i,
      )
