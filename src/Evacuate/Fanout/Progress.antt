-- ===== src/Evacuate/Fanout/Progress.antt =====
-- internal/evacuate/handler.go, Run: while a goroutine is not done, an action is possible.
use podman_api.Common.{
  ◌∙◌, ◌≡◌, ◌⊎◌, inl, inr, ℕ, zero, suc, ◌+◌, ◌-◌, ◌≤◌, Bool, true, false, not, ◌&&◌, List, [], ◌∷◌,
  Option, some, count, refl, arith, ap, ltb, All, Bool-cases,
}
use podman_api.Evacuate.{
  Status, waiting, running, ended, finished, is_waiting, is_running, is_ended, is_finished,
}
use podman_api.Evacuate.Fanout.{
  Worlds, Fan, when, spawn_next, spawned, change_at, acquire, spawn, end_child, release, with_ended,
  with_released, ended_by, released, Action, acquires, spawns, ends, releases, step,
}
use podman_api.Evacuate.Fanout.Invariant.{IsFan, left}

change_or_none :
    (f : Status → Option Status) (p : Status → Bool) (s : List Status)
    → ((x : Status) → p x ≡ true → (y : Status) × (f x ≡ some y))
    → (count p s ≡ 0) ⊎ ((i : ℕ) × (t : List Status) × (change_at f i s ≡ some t))
unfolding change_at
change_or_none f p [] applies = inl refl
change_or_none f p (x ∷ s) applies = elim (Bool-cases (p x)) [
  | inl e ↦ let (y, q) = applies x e in inr (zero, y ∷ s, rw q refl)
  | inr e ↦ elim (change_or_none f p s applies) [
    | inl n ↦ inl (rw e (omega (arith, n)))
    | inr (i, t, q) ↦ inr (suc i, x ∷ t, rw q refl)
  ]
]

running_ends :
    (w : Worlds) (x : Status) → is_running x ≡ true → (y : Status) × (ended_by w x ≡ some y)
running_ends w (running m) e = (_, refl)
running_ends w (waiting m) e = cc
running_ends w (ended m text) e = cc
running_ends w (finished m text) e = cc

ended_released : (x : Status) → is_ended x ≡ true → (y : Status) × (released x ≡ some y)
ended_released (ended m text) e = (_, refl)
ended_released (running m) e = cc
ended_released (waiting m) e = cc
ended_released (finished m text) e = cc

spawn_or_none :
    (s : List Status) → (count is_waiting s ≡ 0) ⊎ ((t : List Status) × (spawn_next s ≡ some t))
unfolding spawn_next
spawn_or_none [] = inl refl
spawn_or_none (waiting m ∷ s) = inr (_, refl)
spawn_or_none (running m ∷ s) = elim (spawn_or_none s) [
  | inl n ↦ inl (omega (arith, n))
  | inr (t, q) ↦ inr (running m ∷ t, rw q refl)
]
spawn_or_none (ended m text ∷ s) = elim (spawn_or_none s) [
  | inl n ↦ inl (omega (arith, n))
  | inr (t, q) ↦ inr (ended m text ∷ t, rw q refl)
]
spawn_or_none (finished m text ∷ s) = elim (spawn_or_none s) [
  | inl n ↦ inl (omega (arith, n))
  | inr (t, q) ↦ inr (finished m text ∷ t, rw q refl)
]

-- Every goroutine is done, so `wg.Wait()` returns.
abbrev pub AllDone : List Status → Type 0
AllDone = All (λ x. is_finished x ≡ true)

done_of_none : (s : List Status) → left s ≡ 0 → AllDone s
done_of_none [] e = tt
done_of_none (waiting m ∷ s) e = absurd (omega (arith, e))
done_of_none (running m ∷ s) e = absurd (omega (arith, e))
done_of_none (ended m text ∷ s) e = absurd (omega (arith, e))
done_of_none (finished m text ∷ s) e = (refl, done_of_none s (omega (arith, e)))

module _ (slots : ℕ) (w : Worlds) (some_slot : 1 ≤ slots) where
  abbrev pub CanStep : Fan → Type 0
  CanStep f = (a : Action) × (g : Fan) × (step slots w a f ≡ some g)

  end_possible :
      (f : Fan) (i : ℕ) (t : List Status) → change_at (ended_by w) i f.statuses ≡ some t → CanStep f
  unfolding step end_child
  end_possible f i t q = (ends i, record f { statuses = t }, ap (with_ended f) q)

  release_possible :
      (f : Fan) (i : ℕ) (t : List Status)
      → ltb 0 f.held ≡ true
      → change_at released i f.statuses ≡ some t
      → CanStep f
  unfolding step release
  release_possible f i t held q =
      (releases i, record f { held = f.held - 1; statuses = t }, rw held (ap (with_released f) q))

  spawn_possible :
      (f : Fan) (t : List Status) → f.taken ≡ true → spawn_next f.statuses ≡ some t → CanStep f
  unfolding step spawn
  spawn_possible f t taken q = (
    spawns,
    record f { taken = false; statuses = t },
    ap (λ b. when b (spawned f (spawn_next f.statuses))) taken ∙ ap (spawned f) q,
  )

  acquire_possible :
      (f : Fan)
      → (not f.taken && (ltb 0 (count is_waiting f.statuses) && ltb f.held slots)) ≡ true
      → CanStep f
  unfolding step acquire
  acquire_possible f can = (
    acquires,
    record f { held = f.held + 1; taken = true },
    ap (λ b. when b (some (record f { held = f.held + 1; taken = true }))) can,
  )

  freed_or_step : (f : Fan) → IsFan slots f → (count is_ended f.statuses ≡ 0) ⊎ CanStep f
  freed_or_step f i = elim (Bool-cases (ltb 0 f.held)) [
    | inl held ↦ elim (change_or_none released is_ended f.statuses ended_released) [
      | inr (k, t, q) ↦ inr (release_possible f k t held q)
      | inl freed ↦ inl freed
    ]
    | inr empty ↦ inl (ground (arith, empty, i.entries))
  ]

  -- The loop and the channel are alone: no goroutine holds a slot.
  idle_step :
      (f : Fan)
      → IsFan slots f
      → count is_running f.statuses ≡ 0
      → count is_ended f.statuses ≡ 0
      → AllDone f.statuses ⊎ CanStep f
  idle_step f i idle freed = elim (Bool-cases (ltb 0 (count is_waiting f.statuses))) [
    | inr none_waits ↦ inl (done_of_none f.statuses (ground (arith, idle, freed, none_waits)))
    | inl waits ↦ elim (Bool-cases f.taken) [
      | inr e ↦
          inr (acquire_possible f (ground (arith, waits, e, i.entries, idle, freed, some_slot)))
      | inl e ↦ elim (spawn_or_none f.statuses) [
        | inl n ↦ absurd (ground (arith, waits, n))
        | inr (t, q) ↦ inr (spawn_possible f t e q)
      ]
    ]
  ]

  pub step_or_done : (f : Fan) → IsFan slots f → AllDone f.statuses ⊎ CanStep f
  step_or_done f i = elim (change_or_none (ended_by w) is_running f.statuses (running_ends w)) [
    | inr (k, t, q) ↦ inr (end_possible f k t q)
    | inl idle ↦ elim (freed_or_step f i) [
      | inr can ↦ inr can
      | inl freed ↦ idle_step f i idle freed
    ]
  ]
