-- ===== src/Evacuate/Tests.antt =====
-- Runs of internal/evacuate on small inputs, and the theorems at inputs that meet their hypotheses.
use podman_api.Common.{
  ℕ, ◌≡◌, ◌≤◌, ◌+◌, ◌*◌, ◌⊎◌, suc, min, pos, negsuc, length, true, false, [], ◌∷◌, Option, none,
  some, refl, All, count, put,
}
use podman_api.Ingress.Routes.{itoa, digits}
use podman_api.Instance.{Error, sentinel, pod_not_found, other, ok, err, is_error, MigrateRequest}
use podman_api.Instance.Rendered.{required_host_ports, container_images}
use podman_api.Instance.Calls.{Call, pod_inspect, Spec, Outside}
use podman_api.Instance.Migrate.{migrate}
use podman_api.Evacuate.{
  Rows, run_child, waiting, running, finished, is_running, is_ended, conclude,
  effective_concurrency, max_evacuate_concurrency,
}
use podman_api.Evacuate.Concurrency.{effective_concurrency-bounds}
use podman_api.Evacuate.Fanout.{
  Worlds, Fan, Action, acquires, spawns, ends, releases, begin, acquire, step, run, text_of,
}
use podman_api.Evacuate.Fanout.Invariant.{bit}
use podman_api.Evacuate.Fanout.Progress.{AllDone}
use podman_api.Evacuate.Fanout.Slots.{run-bounded, run-ends}
use podman_api.Evacuate.Summary.{WasMoved, conclude-moved}

effective_concurrency-bounds_example :
    (1 ≤ effective_concurrency (pos 0) (negsuc 4))
    × (effective_concurrency (pos 0) (negsuc 4) ≤ max_evacuate_concurrency)
    × (effective_concurrency (pos 0) (pos (suc 99)) ≡ min (suc 99) max_evacuate_concurrency)
    × (effective_concurrency (pos (suc 99)) (pos 0) ≡ min (suc 99) max_evacuate_concurrency)
effective_concurrency-bounds_example = effective_concurrency-bounds (pos 0) (negsuc 4) 99

effective_concurrency-many : effective_concurrency (pos 4) (pos 100) ≡ 32
unfolding effective_concurrency
effective_concurrency-many = refl

abbrev no_pod_yet : Call → Option Error
no_pod_yet (pod_inspect host key) = some (sentinel pod_not_found)
no_pod_yet _ = none

abbrev plain_spec : Spec
plain_spec = record {
  parameters = [];
  secrets = [];
  injector_secrets = [];
  domains = [];
  applied_networks = [];
}

abbrev calm : Outside
calm = record {
  knows = λ _. true;
  is_draining = λ _. false;
  verifies_volumes = false;
  has_ingress = false;
  fails = λ _ c. no_pod_yet c;
  template = λ _. record { host_secrets = []; body = "" };
  spec = λ _. plain_spec;
  host_secret = λ _. "";
  volumes = λ _. [];
  manifest = λ _. [];
  ports = λ _. [];
  elapsed = λ _. "1s";
  render = λ _ _. ok "";
  validate = λ _ _ _. none;
  port_documents = λ _. [];
  image_documents = λ _. [];
  message = λ _. "refused";
}

abbrev child_rows : Rows
child_rows = record { marshal = none; start_child = ok "child"; finish = λ _ _. none }

abbrev deaf_rows : Rows
deaf_rows = record { marshal = none; start_child = err (other "locked"); finish = λ _ _. none }

abbrev move : MigrateRequest
move = record {
  from_host = "h1";
  to_host = "h2";
  template = "web";
  slug = "one";
  parameters = [];
  also_stop = [];
}

abbrev calm_worlds : Worlds
calm_worlds m = record { outside = calm; rows = child_rows }

abbrev deaf_worlds : Worlds
deaf_worlds m = record { outside = calm; rows = deaf_rows }

text_of-move : text_of calm_worlds move ≡ ""
unfolding run_child migrate is_error put required_host_ports container_images
text_of-move = refl

text_of-unopened : text_of deaf_worlds move ≡ "one: refused"
unfolding run_child
text_of-unopened = refl

-- One move: the loop takes a slot and starts it, and it ends.
abbrev half_way : Fan
half_way = record { held = 1; taken = false; statuses = running move ∷ [] }

abbrev all_done : Fan
all_done = record {
  held = 0;
  taken = false;
  statuses = finished move (text_of calm_worlds move) ∷ [];
}

abbrev one_slot : ℕ
one_slot = effective_concurrency (pos 1) (pos 0)

run-half_way : run one_slot calm_worlds (acquires ∷ spawns ∷ []) (begin (move ∷ [])) ≡ some half_way
unfolding run begin effective_concurrency
run-half_way = refl

-- The channel is full: the loop waits for a second slot.
second_waits : acquire 1 (record half_way { statuses = running move ∷ waiting move ∷ [] }) ≡ none
unfolding acquire
second_waits = refl

run-all_done :
    run one_slot calm_worlds (acquires ∷ spawns ∷ ends 0 ∷ releases 0 ∷ []) (begin (move ∷ []))
    ≡ some all_done
unfolding run begin effective_concurrency
run-all_done = refl

run-bounded_example :
    (half_way.held
      ≡ count is_running half_way.statuses + count is_ended half_way.statuses + bit half_way.taken)
    × (count is_running half_way.statuses ≤ one_slot)
run-bounded_example =
    run-bounded (pos 1) (pos 0) calm_worlds (move ∷ []) (acquires ∷ spawns ∷ []) run-half_way

run-ends_example :
    (length (acquires ∷ spawns ∷ []) ≤ 4 * length (move ∷ []))
    × (AllDone half_way.statuses
        ⊎ ((a : Action) × (g : Fan) × (step one_slot calm_worlds a half_way ≡ some g)))
run-ends_example =
    run-ends (pos 1) (pos 0) calm_worlds (move ∷ []) (acquires ∷ spawns ∷ []) run-half_way

conclude-all_done : (conclude all_done.statuses).1 ≡ none
unfolding conclude run_child migrate is_error put required_host_ports container_images
conclude-all_done = refl

conclude-moved_example : All (WasMoved calm_worlds) (move ∷ [])
conclude-moved_example =
    conclude-moved one_slot calm_worlds (move ∷ []) (acquires ∷ spawns ∷ ends 0 ∷ releases 0 ∷ [])
      run-all_done (refl, tt) conclude-all_done

-- Of two moves one fails.
conclude-partial :
    conclude (finished move "" ∷ finished move "one: refused" ∷ [])
    ≡ ("1 ok, 1 failed", some (other "1/2 migrations failed: one: refused"))
unfolding conclude itoa digits
conclude-partial = refl
