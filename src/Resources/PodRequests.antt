-- ===== src/Resources/PodRequests.antt =====
-- resources/quantity.rs: the effective request of a container and of a pod. The sums are those of
-- the release profile, which wrap around.
pub mod Sums
pub mod Range
use emergency_ration_webhook.Common.{String, Option, none, some, List, [], ◌∷◌}
use emergency_ration_webhook.Common.Int.{ℤ, pos, ◌+ℤ◌, max_ℤ}
use emergency_ration_webhook.Common.Word.{wrap64}
use emergency_ration_webhook.Common.Result.{Result, ok, ◌>>=◌, and_then, or_else, unwrap_or}
use emergency_ration_webhook.Common.Float.{Float}
use emergency_ration_webhook.K8s.{get, Container, PodSpec}
use emergency_ration_webhook.Resources.Quantity.{QuantityParseError, parse_cpu, parse_memory}

-- The quantity of a resource: its request, or else its limit.
unfoldable pub quantity_of : Container → String → Option String
quantity_of container resource =
    let requests = and_then container.resources (λ r. r.requests) in
    let limits = and_then container.resources (λ r. r.limits) in
    or_else (and_then requests (get resource)) (and_then limits (get resource))

abbrev pub parse_or_zero :
    (String → Result QuantityParseError ℤ) → Option String → Result QuantityParseError ℤ
parse_or_zero parse none = ok (pos 0)
parse_or_zero parse (some q) = parse q

module _ (fl : Float) where
  unfoldable pub container_requests : Container → Result QuantityParseError (ℤ × ℤ)
  container_requests container = do
    cpu ← parse_or_zero (parse_cpu fl) (quantity_of container "cpu")
    memory ← parse_or_zero (parse_memory fl) (quantity_of container "memory")
    ok (cpu, memory)

  -- The loop over the regular containers.
  unfoldable pub sum_regular : ℤ × ℤ → List Container → Result QuantityParseError (ℤ × ℤ)
  sum_regular acc [] = ok acc
  sum_regular acc (container ∷ containers) = do
    request ← container_requests container
    sum_regular (wrap64 (acc.0 +ℤ request.0), wrap64 (acc.1 +ℤ request.1)) containers

  -- The loop over the init containers.
  unfoldable pub max_init : ℤ × ℤ → List Container → Result QuantityParseError (ℤ × ℤ)
  max_init acc [] = ok acc
  max_init acc (container ∷ containers) = do
    request ← container_requests container
    max_init (max_ℤ acc.0 request.0, max_ℤ acc.1 request.1) containers

  unfoldable pub extract_pod_requests : PodSpec → Result QuantityParseError (ℤ × ℤ)
  extract_pod_requests spec = do
    regular ← sum_regular (pos 0, pos 0) spec.containers
    init ← max_init (pos 0, pos 0) (unwrap_or spec.init_containers [])
    ok (max_ℤ regular.0 init.0, max_ℤ regular.1 init.1)
