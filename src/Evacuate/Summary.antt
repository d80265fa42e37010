-- ===== src/Evacuate/Summary.antt =====
-- internal/evacuate/handler.go, Run: what the job returns, once every child has ended.
use podman_api.Common.{
  ap, ◌+◌, true, ◌≡◌, ◌≢◌, inl, inr, ℕ, List, [], ◌∷◌, ◌++◌, map, Option, none, some, String,
  string_eq, ◌==◌, All, refl, arith, sym, ◌∙◌, subst, length, Bool-cases,
}
use Prim.Native.String.append
use podman_api.Instance.{MigrateRequest, Error, ◌&◌}
use podman_api.Instance.Calls.{Outside}
use podman_api.Instance.Migrate.{migrate}
use podman_api.Instance.Migrate.Endings.{IsMoved}
use podman_api.Evacuate.{
  run_child, failure_text, Status, waiting, running, ended, finished, failures, failed_texts,
  error_of, conclude,
}
use podman_api.Evacuate.Children.{run_child-IsMoved}
use podman_api.Evacuate.Fanout.{
  Worlds, text_of, Fan, begin, acquire, Action, acquires, spawns, ends, releases, step, run,
}
use podman_api.Evacuate.Fanout.Changes.{Change}
use podman_api.Evacuate.Fanout.Invariant.{
  some_inj, when-some, spawn-some, end_child-some, release-some, and_then-some,
}
use podman_api.Evacuate.Fanout.Progress.{AllDone}
use podman_api.Store.Job.{succeeded}

-- The status belongs to the move, and a text is what its child left.
abbrev pub Fits : Worlds → MigrateRequest → Status → Type 0
Fits w m (waiting n) = n ≡ m
Fits w m (running n) = n ≡ m
Fits w m (ended n text) = (n ≡ m) × (text ≡ text_of w n)
Fits w m (finished n text) = (n ≡ m) × (text ≡ text_of w n)

-- The slots of the moves, in their order.
abbrev pub FitAll : Worlds → List MigrateRequest → List Status → Type 0
FitAll w [] [] = Unit {0}
FitAll w (m ∷ moves) (x ∷ s) = Fits w m x × FitAll w moves s
FitAll w _ _ = ⊥

FitAll-begin : (w : Worlds) (moves : List MigrateRequest) → FitAll w moves (map waiting moves)
FitAll-begin w [] = tt
FitAll-begin w (m ∷ moves) = (refl, FitAll-begin w moves)

FitAll-at :
    (w : Worlds) (before : List Status) (x y : Status) (after : List Status)
    (moves : List MigrateRequest)
    → ((m : MigrateRequest) → Fits w m x → Fits w m y)
    → FitAll w moves (before ++ x ∷ after)
    → FitAll w moves (before ++ y ∷ after)
FitAll-at w [] x y after [] f h = h
FitAll-at w [] x y after (m ∷ moves) f h = (f m h.0, h.1)
FitAll-at w (b ∷ before) x y after [] f h = h
FitAll-at w (b ∷ before) x y after (m ∷ moves) f h = (h.0, FitAll-at w before x y after moves f h.1)

FitAll-Change :
    (w : Worlds) (moves : List MigrateRequest) {x y : Status} {s t : List Status}
    → Change x y s t
    → ((m : MigrateRequest) → Fits w m x → Fits w m y)
    → FitAll w moves s
    → FitAll w moves t
FitAll-Change w moves {x} {y} c f h =
    subst (FitAll w moves) (sym c.new)
      (FitAll-at w c.before x y c.after moves f (subst (FitAll w moves) c.old h))

acquire-statuses :
    (slots : ℕ) (f : Fan) {g : Fan} → acquire slots f ≡ some g → f.statuses ≡ g.statuses
unfolding acquire
acquire-statuses slots f e =
    ap (λ (g : Fan). g.statuses)
      (some_inj (when-some _ (some (record f { held = f.held + 1; taken = true })) e).1)

step-FitAll :
    (slots : ℕ) (w : Worlds) (moves : List MigrateRequest) (a : Action) (f : Fan) {g : Fan}
    → step slots w a f ≡ some g
    → FitAll w moves f.statuses
    → FitAll w moves g.statuses
unfolding step
step-FitAll slots w moves acquires f e h = subst (FitAll w moves) (acquire-statuses slots f e) h
step-FitAll slots w moves spawns f e h =
    let (taken, (s, m, c, same)) = spawn-some f e in
    subst (λ (g : Fan). FitAll w moves g.statuses) same (FitAll-Change w moves c (λ n q. q) h)
step-FitAll slots w moves (ends i) f e h =
    let (s, m, c, same) = end_child-some w i f e in
    subst (λ (g : Fan). FitAll w moves g.statuses) same
      (FitAll-Change w moves c (λ n q. (q, refl)) h)
step-FitAll slots w moves (releases i) f e h =
    let (held, (s, m, text, c, same)) = release-some i f e in
    subst (λ (g : Fan). FitAll w moves g.statuses) same (FitAll-Change w moves c (λ n q. q) h)

run-FitAll :
    (slots : ℕ) (w : Worlds) (moves : List MigrateRequest) (actions : List Action) (f : Fan)
    {g : Fan}
    → run slots w actions f ≡ some g
    → FitAll w moves f.statuses
    → FitAll w moves g.statuses
unfolding run
run-FitAll slots w moves [] f e h = subst (λ (g : Fan). FitAll w moves g.statuses) (some_inj e) h
run-FitAll slots w moves (a ∷ actions) f e h =
    let (next, first, rest) = and_then-some (step slots w a f) (run slots w actions) e in
    run-FitAll slots w moves actions next rest (step-FitAll slots w moves a f first h)

left-ne-empty : (s t : String) → s ≢ "" → s & t ≢ ""
left-ne-empty String.[] t n e = n refl
left-ne-empty (String.◌∷◌ c s) t n e = cc (sym (append.cons c s t) ∙ e)

right-ne-empty : (s t : String) → t ≢ "" → s & t ≢ ""
right-ne-empty String.[] t n e = n (sym (append.nil t) ∙ e)
right-ne-empty (String.◌∷◌ c s) t n e = cc (sym (append.cons c s t) ∙ e)

-- A failure never reads as an empty text.
failure_text-empty :
    (o : Outside) (m : MigrateRequest) (r : Option Error) → failure_text o m r ≡ "" → r ≡ none
failure_text-empty o m none e = refl
failure_text-empty o m (some x) e =
    absurd
      (right-ne-empty m.slug (": " & o.message x) (left-ne-empty ": " (o.message x) (λ q. cc q)) e)

-- Every goroutine is done, and no text reports a failure.
abbrev AllWell : List Status → Type 0
AllWell [] = Unit {0}
AllWell (finished m text ∷ s) = (text ≡ "") × AllWell s
AllWell (_ ∷ s) = ⊥

well_of_silence : (s : List Status) → AllDone s → failed_texts s ≡ [] → AllWell s
unfolding failed_texts failures
well_of_silence [] h e = tt
well_of_silence (waiting m ∷ s) h e = cc (h.0)
well_of_silence (running m ∷ s) h e = cc (h.0)
well_of_silence (ended m text ∷ s) h e = cc (h.0)
well_of_silence (finished m text ∷ s) h e = elim (Bool-cases (text == "")) [
  | inl q ↦ ((string_eq.same_iff text "").0 q, well_of_silence s h.1 (ground (arith, e, q)))
  | inr q ↦ ground (arith, e, q)
]

error_of-none : (moves : ℕ) (texts : List String) → error_of moves texts ≡ none → texts ≡ []
error_of-none moves [] e = refl
error_of-none moves (text ∷ texts) e = cc

-- What a child that reports no failure has done, in its world: its row was opened and finished as
-- succeeded, and its migration has moved the instance.
abbrev pub WasMoved : Worlds → MigrateRequest → Type 0
WasMoved w m =
    let o = (w m).outside in
    ((run_child o (w m).rows m).recorded ≡ some (succeeded, ""))
    × ((w m).rows.finish succeeded "" ≡ none)
    × IsMoved o m (migrate o m []).1

moved_of_well :
    (w : Worlds) (moves : List MigrateRequest) (s : List Status)
    → FitAll w moves s
    → AllWell s
    → All (WasMoved w) moves
moved_of_well w [] [] f well = tt
moved_of_well w [] (_ ∷ s) f well = elim f [ ]
moved_of_well w (m ∷ moves) [] f well = elim f [ ]
moved_of_well w (m ∷ moves) (waiting n ∷ s) f well = absurd well
moved_of_well w (m ∷ moves) (running n ∷ s) f well = absurd well
moved_of_well w (m ∷ moves) (ended n text ∷ s) f well = absurd well
moved_of_well w (m ∷ moves) (finished n text ∷ s) ((same, e), rest) well =
    let o = (w n).outside in
    (
      subst (WasMoved w) same (
          run_child-IsMoved o (w n).rows n
            (failure_text-empty o n (run_child o (w n).rows n).returned (sym e ∙ well.0))),
      moved_of_well w moves s rest well.1,
    )

-- Whatever the order of the steps, when every goroutine is done and the job returns no error, the
-- run of each child, with the answers that it got, has moved its instance and recorded its row as
-- succeeded.
pub conclude-moved :
    (slots : ℕ) (w : Worlds) (moves : List MigrateRequest) (actions : List Action) {f : Fan}
    → run slots w actions (begin moves) ≡ some f
    → AllDone f.statuses
    → (conclude f.statuses).1 ≡ none
    → All (WasMoved w) moves
unfolding conclude begin
conclude-moved slots w moves actions {f = f} e done quiet =
    moved_of_well w moves f.statuses
      (run-FitAll slots w moves actions (begin moves) e (FitAll-begin w moves))
      (well_of_silence f.statuses done
        (error_of-none (length f.statuses) (failed_texts f.statuses) quiet))
