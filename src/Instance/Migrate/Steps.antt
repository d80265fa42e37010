-- ===== src/Instance/Migrate/Steps.antt =====
-- internal/instance/migrate.go: which calls the restarts make.
use podman_api.Common.{Bool, true, false, List, [], ◌∷◌, Option, none, some}
use podman_api.Ingress.Routes.{SpecKey}
use podman_api.Instance.{Error, MigrateRequest}
use podman_api.Instance.Migrate.{restart_stopped, restart_paired, note_restart}
use podman_api.Instance.Calls.{Call, step, start, Outside}
use podman_api.Instance.Calls.Grown.{Adds, adds_rules}

abbrev pub is_starting : Call → Bool
is_starting (step _ _) = true
is_starting (start _ _ _) = true
is_starting _ = false

pub restart_stopped-Adds :
    {E : Type 0} (o : Outside) (req : MigrateRequest) (stopped : List SpecKey)
    → Adds is_starting (restart_stopped {E = E} o req stopped)
unfolding restart_stopped
restart_stopped-Adds o req [] = search adds_rules
restart_stopped-Adds {E} o req (p ∷ stopped) =
    let rest = restart_stopped-Adds {E = E} o req stopped in search adds_rules

note_restart-Adds :
    (o : Outside) (p : SpecKey) (r : Option Error) → Adds is_starting (note_restart o p r)
note_restart-Adds o p none = search adds_rules
note_restart-Adds o p (some e) = search adds_rules

pub restart_paired-Adds :
    (o : Outside) (req : MigrateRequest) (stopped : List SpecKey)
    → Adds is_starting (restart_paired o req stopped)
unfolding restart_paired
restart_paired-Adds o req [] = search adds_rules
restart_paired-Adds o req (p ∷ stopped) =
    let rest = restart_paired-Adds o req stopped in search (adds_rules, note_restart-Adds)
