-- ===== src/Evacuate/Children.antt =====
-- internal/evacuate/handler.go: runChild.
use podman_api.Common.{◌≡◌, true, false, [], Option, none, some, String, refl}
use podman_api.Store.Job.{succeeded}
use podman_api.Instance.{Error, Result, ok, err, MigrateRequest}
use podman_api.Instance.Calls.{Outside, History}
use podman_api.Instance.Migrate.{migrate}
use podman_api.Instance.Migrate.Endings.{IsMoved, IsEnding}
use podman_api.Instance.Migrate.Course.{migrate-IsEnding}
use podman_api.Evacuate.{
  Rows, ChildRun, run_child, with_args, with_row, finish_child, returned_of, state_of,
}

returned_of-ok : (r f : Option Error) → returned_of r f ≡ none → (r ≡ none) × (f ≡ none)
returned_of-ok none none e = (refl, refl)
returned_of-ok none (some f) e = cc
returned_of-ok (some r) f e = cc

-- How a child's row was finished, by how its migration ended.
abbrev pub IsRecorded : Outside → Result Error (Unit {0}) → ChildRun → Type 0
IsRecorded o (ok _) c = (c.recorded ≡ some (succeeded, "")) × (c.counted ≡ false)
IsRecorded o (err e) c =
    (c.recorded ≡ some (state_of e, o.message e)) × (c.counted ≡ true) × (c.returned ≡ some e)

finish_child-IsRecorded :
    (o : Outside) (rows : Rows) (r : Result Error (Unit {0}))
    → IsRecorded o r (finish_child o rows r)
unfolding finish_child
finish_child-IsRecorded o rows (ok _) = (refl, refl)
finish_child-IsRecorded o rows (err e) = (refl, refl, refl)

-- A child that returns no error has moved its instance, and its row was finished as succeeded.
pub run_child-IsMoved :
    (o : Outside) (rows : Rows) (m : MigrateRequest)
    → (run_child o rows m).returned ≡ none
    → ((run_child o rows m).recorded ≡ some (succeeded, ""))
      × (rows.finish succeeded "" ≡ none)
      × IsMoved o m (migrate o m []).1
unfolding run_child
run_child-IsMoved o rows m =
    encoded rows.marshal (migrate o m []).0 (migrate o m []).1 (migrate-IsEnding o m)
  where
    ended :
        (r : Result Error (Unit {0})) (h : History)
        → IsEnding o m r h
        → (finish_child o rows r).returned ≡ none
        → ((finish_child o rows r).recorded ≡ some (succeeded, ""))
          × (rows.finish succeeded "" ≡ none)
          × IsMoved o m h
    ended (ok _) h moved e = (
      (finish_child-IsRecorded o rows (ok tt)).0,
      (returned_of-ok none (rows.finish succeeded "") e).1,
      moved,
    )
    ended (err x) h failure e = cc ((finish_child-IsRecorded o rows (err x)).2, e)

    opened :
        (s : Result Error String) (r : Result Error (Unit {0})) (h : History)
        → IsEnding o m r h
        → (with_row o rows r s).returned ≡ none
        → ((with_row o rows r s).recorded ≡ some (succeeded, ""))
          × (rows.finish succeeded "" ≡ none)
          × IsMoved o m h
    opened (ok child) r h ending e = ended r h ending e
    opened (err x) r h ending e = cc

    encoded :
        (x : Option Error) (r : Result Error (Unit {0})) (h : History)
        → IsEnding o m r h
        → (with_args o rows r x).returned ≡ none
        → ((with_args o rows r x).recorded ≡ some (succeeded, ""))
          × (rows.finish succeeded "" ≡ none)
          × IsMoved o m h
    encoded none r h ending e = opened rows.start_child r h ending e
    encoded (some x) r h ending e = cc
