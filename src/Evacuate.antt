-- ===== src/Evacuate.antt =====
-- internal/evacuate/handler.go: the evacuate job, which runs child migrations with bounded
-- concurrency. The job rows and the metric are outside: a child's row may fail to be opened or to
-- be finished.
pub mod Concurrency
pub mod Children
pub mod Fanout
pub mod Summary
mod Tests
use podman_api.Common.{
  ℕ, zero, suc, ◌-◌, Bool, true, false, not, List, [], ◌∷◌, ◌++◌, Option, none, some, String,
  string_eq, ◌==◌, if◌then◌else◌, ltb, ℤ, pos, negsuc, length, keep, map,
}
use podman_api.Ingress.Routes.{itoa}
use podman_api.Store.Job.{JobState, succeeded, failed, canceled}
use podman_api.Instance.{
  Error, Sentinel, wrap, other, is_error, Result, ok, err, MigrateRequest, ◌&◌,
}
use podman_api.Instance.Calls.{Outside}
use podman_api.Instance.Migrate.{migrate}

abbrev pub default_evacuate_concurrency : ℕ
default_evacuate_concurrency = 2

abbrev pub max_evacuate_concurrency : ℕ
max_evacuate_concurrency = 32

-- `if v > 0 { n = v }`.
abbrev pub positive_or : ℤ → ℕ → ℕ
positive_or (pos v) n = if ltb 0 v then v else n
positive_or (negsuc v) n = n

abbrev pub clamp : ℕ → ℕ
clamp n =
    let least = if ltb n 1 then 1 else n in
    if ltb max_evacuate_concurrency least then max_evacuate_concurrency else least

unfoldable pub effective_concurrency : ℤ → ℤ → ℕ
effective_concurrency handler_default req_override =
    clamp (positive_or req_override (positive_or handler_default default_evacuate_concurrency))

-- What the encoder of its arguments and the job store answer for one child.
pub record Rows : Type 0 where
  pub marshal : Option Error
  pub start_child : Result Error String
  pub finish : JobState → String → Option Error

-- What a child did: what it returned, how its row was finished, and whether a failure was counted.
pub record ChildRun : Type 0 where
  pub returned : Option Error
  pub recorded : Option (JobState × String)
  pub counted : Bool

abbrev pub state_of : Error → JobState
state_of e = if is_error Sentinel.canceled e then canceled else failed

-- What a child returns after its row was to be finished.
abbrev pub returned_of : Option Error → Option Error → Option Error
returned_of (some e) _ = some e
returned_of none none = none
returned_of none (some f) = some (wrap "finish child job" f)

unfoldable pub finish_child : Outside → Rows → Result Error (Unit {0}) → ChildRun
unfolding is_error
finish_child o rows (ok _) = record {
  returned = returned_of none (rows.finish succeeded "");
  recorded = some (succeeded, "");
  counted = false;
}
finish_child o rows (err e) = record {
  returned = returned_of (some e) (rows.finish (state_of e) (o.message e));
  recorded = some (state_of e, o.message e);
  counted = true;
}

-- A child that has no row.
abbrev pub unopened : String → Error → ChildRun
unopened what e = record { returned = some (wrap what e); recorded = none; counted = false }

abbrev pub with_row : Outside → Rows → Result Error (Unit {0}) → Result Error String → ChildRun
with_row o rows migrated (ok child) = finish_child o rows migrated
with_row o rows migrated (err e) = unopened "start child job" e

abbrev pub with_args : Outside → Rows → Result Error (Unit {0}) → Option Error → ChildRun
with_args o rows migrated none = with_row o rows migrated rows.start_child
with_args o rows migrated (some e) = unopened "marshal child args" e

-- The migration is only run if the row was opened: otherwise its result is not used.
unfoldable pub run_child : Outside → Rows → MigrateRequest → ChildRun
unfolding finish_child
run_child o rows m = with_args o rows (migrate o m []).0 rows.marshal

-- The slot of a move in `failures`: empty for a success.
abbrev pub failure_text : Outside → MigrateRequest → Option Error → String
failure_text o m none = ""
failure_text o m (some e) = m.slug & ": " & o.message e

-- Where a move stands: not started; its goroutine runs; that has left its text in `failures` and
-- still holds its slot of the semaphore; the slot is free again.
pub data Status : Type 0 where
  waiting running : MigrateRequest → Status
  ended finished : MigrateRequest → String → Status

abbrev pub is_waiting : Status → Bool
is_waiting (waiting _) = true
is_waiting _ = false

abbrev pub is_running : Status → Bool
is_running (running _) = true
is_running _ = false

abbrev pub is_ended : Status → Bool
is_ended (ended _ _) = true
is_ended _ = false

abbrev pub is_finished : Status → Bool
is_finished (finished _ _) = true
is_finished _ = false

abbrev pub is_empty : String → Bool
is_empty text = text == ""

-- The texts in `failures`, once every move is finished.
unfoldable pub failures : List Status → List String
failures [] = []
failures (finished m text ∷ statuses) = text ∷ failures statuses
failures (ended m text ∷ statuses) = text ∷ failures statuses
failures (_ ∷ statuses) = "" ∷ failures statuses

unfoldable pub failed_texts : List Status → List String
unfolding failures
failed_texts statuses = keep (λ text. not (is_empty text)) (failures statuses)

-- `strings.Join(failed, "; ")`.
abbrev pub join : List String → String
join [] = ""
join (text ∷ []) = text
join (text ∷ next ∷ texts) = text & "; " & join (next ∷ texts)

abbrev pub count_text : ℕ → String
count_text n = itoa (pos n)

abbrev pub error_of : ℕ → List String → Option Error
error_of moves [] = none
error_of moves (text ∷ texts) = some (
    other (
      count_text (length (text ∷ texts))
      & "/"
      & count_text moves
      & " migrations failed: "
      & join (text ∷ texts)))

-- The summary step and the error of the job, after the join.
unfoldable pub conclude : List Status → String × Option Error
unfolding failed_texts
conclude statuses =
    let texts = failed_texts statuses in
    (
      count_text (length statuses - length texts) & " ok, " & count_text (length texts) & " failed",
      error_of (length statuses) texts,
    )
