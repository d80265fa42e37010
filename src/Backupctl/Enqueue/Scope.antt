-- ===== src/Backupctl/Enqueue/Scope.antt =====
-- internal/backupctl/controller.go, scopeCovers: when one scope covers another.
use podman_api.Common.{
  ◌≡◌, ◌≢◌, ◌↔◌, ◌⊎◌, inl, inr, refl, true, List, [], ◌∷◌, String, string_eq, ◌==◌, contains, arith,
  Bool-cases, subst, and-left, and-right,
}
use podman_api.Backupctl.Enqueue.{scope_covers, has_each}

abbrev pub Includes : List String → List String → Type 0
Includes have want = (v : String) → contains want v ≡ true → contains have v ≡ true

each-Includes : (have want : List String) → has_each have want ≡ true → Includes have want
unfolding has_each
each-Includes have [] h v m = absurd (ground arith)
each-Includes have (w ∷ want) h v m = elim (Bool-cases (w == v)) [
  | inl e ↦
      subst (λ x. contains have x ≡ true) ((string_eq.same_iff w v).0 e)
        (and-left (contains have w) (has_each have want) h)
  | inr e ↦
      each-Includes have want (and-right (contains have w) (has_each have want) h) v
        (ground (arith, m, e))
]

Includes-each : (have want : List String) → Includes have want → has_each have want ≡ true
unfolding has_each
Includes-each have [] h = refl
Includes-each have (w ∷ want) h =
    rw (h w (ground (arith, string_eq.same_iff w w)))
      (Includes-each have want (λ v m. h v (ground (arith, m))))

-- A scope covers another exactly if it is the whole instance, or the other names some volumes and
-- all of them are its own.
pub scope_covers-Includes :
    (in_flight want : List String)
    → (scope_covers in_flight want ≡ true)
      ↔ ((in_flight ≡ []) ⊎ ((want ≢ []) × Includes in_flight want))
unfolding scope_covers
scope_covers-Includes [] want = (λ h. inl refl, λ h. refl)
scope_covers-Includes (v ∷ have) [] = (
  λ h. absurd (ground arith),
  λ h. elim h [ inl e ↦ absurd (ground arith) | inr k ↦ absurd (k.0 refl) ],
)
scope_covers-Includes (v ∷ have) (w ∷ want) = (
  λ h. inr ((λ e. absurd (ground arith)), each-Includes (v ∷ have) (w ∷ want) h),
  λ h. elim h [ inl e ↦ absurd (ground arith) | inr k ↦ Includes-each (v ∷ have) (w ∷ want) k.1 ],
)

pub scope_covers_refl : (scope : List String) → scope_covers scope scope ≡ true
unfolding scope_covers
scope_covers_refl [] = refl
scope_covers_refl (v ∷ scope) = Includes-each (v ∷ scope) (v ∷ scope) (λ x m. m)
