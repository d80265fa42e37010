-- ===== src/Store/Steps.antt =====
-- internal/store/jobs.go, coalesceStep: the progress log of a job as a run-length encoding.
use podman_api.Common.{
  ℕ, suc, ◌≡◌, refl, sym, Bool, true, ◌&&◌, not, List, [], ◌∷◌, ◌++◌, map, String, arith,
  Bool-cases, inl, inr, nat_eq, string_eq, ◌==◌, if◌then◌else◌, All, replicate, replicate-snoc,
}
use mathlib.Core.List.{append-nil, append_assoc}
use podman_api.Store.Job.{JobStep, bump_step, same_step, coalesce_step}

-- How often the step occurred: a count of 0 stands for a single time.
abbrev pub occurrences : JobStep → ℕ
occurrences s = if s.count == 0 then 1 else s.count

abbrev pub label : JobStep → String × String
label s = (s.step, s.detail)

-- The log written out, one entry for each occurrence.
unfoldable pub expand : List JobStep → List (String × String)
expand [] = []
expand (s ∷ steps) = replicate (occurrences s) (label s) ++ expand steps

-- No two neighbours carry the same step.
unfoldable pub is_coalesced : List JobStep → Bool
is_coalesced [] = true
is_coalesced (s ∷ []) = true
is_coalesced (s ∷ t ∷ rest) = not (same_step s t) && is_coalesced (t ∷ rest)

occurrences-single : (new : JobStep) → new.count ≡ 0 → occurrences new ≡ 1
occurrences-single new e = ground arith

occurrences-bump_step : (s new : JobStep) → occurrences (bump_step s new) ≡ suc (occurrences s)
unfolding bump_step
occurrences-bump_step s new = ground arith

label-same : (s new : JobStep) → same_step s new ≡ true → label new ≡ label s
label-same s new e =
    ground (arith, string_eq.same_iff s.step new.step, string_eq.same_iff s.detail new.detail)

label-bump_step : (s new : JobStep) → label (bump_step s new) ≡ label s
unfolding bump_step
label-bump_step s new = refl

bump-expand :
    (s new : JobStep)
    → same_step s new ≡ true
    → expand (bump_step s new ∷ []) ≡ expand (s ∷ []) ++ label new ∷ []
unfolding expand
bump-expand s new e =
    simp (occurrences-bump_step, label-bump_step, append-nil)
      (rw (label-same s new e) (replicate-snoc (occurrences s) (label s)))

-- The coalesced log, written out, is the old one with the new step behind it, where the new entry
-- is a single occurrence, as handlers record it.
pub expand-coalesce_step :
    (steps : List JobStep) (new : JobStep)
    → new.count ≡ 0
    → expand (coalesce_step steps new) ≡ expand steps ++ label new ∷ []
unfolding expand coalesce_step
expand-coalesce_step [] new e = rw (occurrences-single new e)
expand-coalesce_step (s ∷ []) new e = elim (Bool-cases (same_step s new)) [
  | inl same ↦ rw same (bump-expand s new same)
  | inr other ↦ rw (other, occurrences-single new e) (simp append-nil)
]
expand-coalesce_step (s ∷ t ∷ rest) new e =
    rw (expand-coalesce_step (t ∷ rest) new e) (simp append_assoc)

-- Coalescing keeps neighbours different.
pub coalesce_step-is_coalesced :
    (steps : List JobStep) (new : JobStep)
    → is_coalesced steps ≡ true
    → is_coalesced (coalesce_step steps new) ≡ true
unfolding is_coalesced coalesce_step
coalesce_step-is_coalesced [] new h = refl
coalesce_step-is_coalesced (s ∷ []) new h = ground arith
coalesce_step-is_coalesced (s ∷ t ∷ []) new h = ground (arith)
coalesce_step-is_coalesced (s ∷ t ∷ u ∷ rest) new h =
    ground (arith, coalesce_step-is_coalesced (t ∷ u ∷ rest) new)

-- The steps of one job, in the order in which `AppendStep` gets them.
unfoldable pub record_steps : List JobStep → List JobStep → List JobStep
record_steps steps [] = steps
record_steps steps (new ∷ news) = record_steps (coalesce_step steps new) news

-- Whatever single steps a handler records, the stored log written out, one entry for each
-- occurrence, is what it was before with those steps behind it: none is lost and none reordered.
pub expand-record_steps :
    (steps news : List JobStep)
    → All (λ new. new.count ≡ 0) news
    → expand (record_steps steps news) ≡ expand steps ++ map label news
unfolding record_steps
expand-record_steps steps [] h = sym (append-nil (expand steps))
expand-record_steps steps (new ∷ news) h =
    rw (expand-record_steps (coalesce_step steps new) news h.1, expand-coalesce_step steps new h.0)
      (simp append_assoc)

-- From a log without equal neighbours, recording any steps gives one without equal neighbours.
pub record_steps-is_coalesced :
    (steps news : List JobStep)
    → is_coalesced steps ≡ true
    → is_coalesced (record_steps steps news) ≡ true
unfolding record_steps
record_steps-is_coalesced steps [] h = h
record_steps-is_coalesced steps (new ∷ news) h =
    record_steps-is_coalesced (coalesce_step steps new) news
      (coalesce_step-is_coalesced steps new h)
