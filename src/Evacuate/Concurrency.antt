-- ===== src/Evacuate/Concurrency.antt =====
-- internal/evacuate/handler.go: effectiveConcurrency.
use podman_api.Common.{◌≡◌, ◌≤◌, suc, min, ℕ, ℤ, pos, negsuc, arith}
use podman_api.Evacuate.{effective_concurrency, max_evacuate_concurrency}

-- The bound on the child migrations lies between 1 and 32; a positive request, or the handler's
-- positive default where nothing is requested, is taken as it is up to 32.
pub effective_concurrency-bounds :
    (handler_default req_override : ℤ) (n : ℕ)
    → (1 ≤ effective_concurrency handler_default req_override)
      × (effective_concurrency handler_default req_override ≤ max_evacuate_concurrency)
      × (effective_concurrency handler_default (pos (suc n)) ≡ min (suc n) max_evacuate_concurrency)
      × (effective_concurrency (pos (suc n)) (pos 0) ≡ min (suc n) max_evacuate_concurrency)
unfolding effective_concurrency
effective_concurrency-bounds (pos d) (pos r) n = ground arith
effective_concurrency-bounds (pos d) (negsuc r) n = ground arith
effective_concurrency-bounds (negsuc d) (pos r) n = ground arith
effective_concurrency-bounds (negsuc d) (negsuc r) n = ground arith
