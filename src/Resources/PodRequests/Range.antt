-- ===== src/Resources/PodRequests/Range.antt =====
-- The range of the effective requests of resources/quantity.rs.
use emergency_ration_webhook.Common.{String, Option, none, some, List, [], ◌∷◌, arith}
use emergency_ration_webhook.Common.Int.{ℤ, pos, max_ℤ}
use emergency_ration_webhook.Common.Word.{IsI64, wrap64-IsI64}
use emergency_ration_webhook.Common.Result.{Result, Yields, bind-Yields, unwrap_or}
use emergency_ration_webhook.Common.Float.{Float}
use emergency_ration_webhook.K8s.{Container, PodSpec}
use emergency_ration_webhook.Resources.Quantity.{QuantityParseError, parse_cpu, parse_memory}
use emergency_ration_webhook.Resources.Quantity.Range.{
  IsAmount, IsOrderly, parse_cpu-IsAmount, parse_memory-IsAmount,
}
use emergency_ration_webhook.Resources.PodRequests.{
  quantity_of, parse_or_zero, container_requests, sum_regular, max_init, extract_pod_requests,
}

abbrev pub AreAmounts : ℤ × ℤ → Type 0
AreAmounts r = IsAmount r.0 × IsAmount r.1

abbrev AreI64 : ℤ × ℤ → Type 0
AreI64 r = IsI64 r.0 × IsI64 r.1

parse_or_zero-IsAmount :
    (parse : String → Result QuantityParseError ℤ) (o : Option String)
    → ((s : String) → Yields IsAmount (parse s))
    → Yields IsAmount (parse_or_zero parse o)
parse_or_zero-IsAmount parse none h = ground arith
parse_or_zero-IsAmount parse (some q) h = h q

max-IsAmount : (a b : ℤ) → IsI64 a → IsAmount b → IsAmount (max_ℤ a b)
max-IsAmount a b h k = ground arith

IsAmount-IsI64 : (a : ℤ) → IsAmount a → IsI64 a
IsAmount-IsI64 a h = ground arith

module _ (fl : Float) (orderly : IsOrderly fl) where
  container_requests-AreAmounts : (c : Container) → Yields AreAmounts (container_requests fl c)
  unfolding container_requests
  container_requests-AreAmounts c =
      bind-Yields IsAmount AreAmounts (parse_or_zero (parse_cpu fl) (quantity_of c "cpu")) _
        (parse_or_zero-IsAmount (parse_cpu fl) _ (parse_cpu-IsAmount fl orderly))
        (λ cpu h.
          bind-Yields IsAmount AreAmounts (parse_or_zero (parse_memory fl) (quantity_of c "memory"))
            _ (parse_or_zero-IsAmount (parse_memory fl) _ (parse_memory-IsAmount fl orderly))
            (λ memory k. (h, k)))

  sum_regular-AreI64 :
      (cs : List Container) (acc : ℤ × ℤ) → AreI64 acc → Yields AreI64 (sum_regular fl acc cs)
  unfolding sum_regular
  sum_regular-AreI64 [] acc h = h
  sum_regular-AreI64 (c ∷ cs) acc h =
      bind-Yields AreAmounts AreI64 (container_requests fl c) _ (container_requests-AreAmounts c)
        (λ request _. sum_regular-AreI64 cs _ (wrap64-IsI64 _, wrap64-IsI64 _))

  max_init-AreAmounts :
      (cs : List Container) (acc : ℤ × ℤ) → AreAmounts acc → Yields AreAmounts (max_init fl acc cs)
  unfolding max_init
  max_init-AreAmounts [] acc h = h
  max_init-AreAmounts (c ∷ cs) acc (h₀, h₁) =
      bind-Yields AreAmounts AreAmounts (container_requests fl c) _
        (container_requests-AreAmounts c)
        (λ request (k₀, k₁). max_init-AreAmounts cs _ (
          max-IsAmount acc.0 request.0 (IsAmount-IsI64 acc.0 h₀) k₀,
          max-IsAmount acc.1 request.1 (IsAmount-IsI64 acc.1 h₁) k₁,
        ))

  -- Where floats are orderly, an effective request that is read is at least 0 and fits in an i64,
  -- for CPU and memory each.
  pub extract_pod_requests-AreAmounts :
      (spec : PodSpec) → Yields AreAmounts (extract_pod_requests fl spec)
  unfolding extract_pod_requests
  extract_pod_requests-AreAmounts spec =
      bind-Yields AreI64 AreAmounts (sum_regular fl (pos 0, pos 0) spec.containers) _
        (sum_regular-AreI64 spec.containers (pos 0, pos 0) (ground arith))
        (λ regular (h₀, h₁).
          bind-Yields AreAmounts AreAmounts
            (max_init fl (pos 0, pos 0) (unwrap_or spec.init_containers [])) _
            (max_init-AreAmounts (unwrap_or spec.init_containers []) (pos 0, pos 0) (ground arith))
            (λ init (k₀, k₁).
              (max-IsAmount regular.0 init.0 h₀ k₀, max-IsAmount regular.1 init.1 h₁ k₁)))
