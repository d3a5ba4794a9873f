-- ===== src/Resources/PodRequests/Sums.antt =====
-- What the effective request of resources/quantity.rs amounts to.
use emergency_ration_webhook.Common.{
  ℕ, ap, ◌+◌, ◌≤◌, ◌<◌, List, [], ◌∷◌, ◌≡◌, ◌∙◌, refl, arith, leb, if◌then◌else◌,
}
use emergency_ration_webhook.Common.Int.{pos, max_ℤ}
use emergency_ration_webhook.Common.Word.{wrap64, wrap64-eq, wrap64-add}
use emergency_ration_webhook.Common.Result.{ok, unwrap_or}
use emergency_ration_webhook.Common.Float.{Float}
use emergency_ration_webhook.K8s.{Container, PodSpec}
use emergency_ration_webhook.Resources.PodRequests.{
  container_requests, sum_regular, max_init, extract_pod_requests,
}

abbrev pub Amounts : Type 0
Amounts = ℕ × ℕ

abbrev pub bigger : ℕ → ℕ → ℕ
bigger a b = if leb a b then b else a

-- The sum and the largest of one figure of each container.
abbrev pub total : (Amounts → ℕ) → List Amounts → ℕ
total f [] = 0
total f (r ∷ rs) = f r + total f rs

abbrev pub largest : (Amounts → ℕ) → List Amounts → ℕ
largest f [] = 0
largest f (r ∷ rs) = bigger (f r) (largest f rs)

abbrev pub cpu_of : Amounts → ℕ
cpu_of r = r.0

abbrev pub memory_of : Amounts → ℕ
memory_of r = r.1

sum_assoc : (a b c : ℕ) → a + b + c ≡ a + (b + c)
sum_assoc a b c = omega arith

add_0 : (a : ℕ) → a + 0 ≡ a
add_0 a = omega arith

zero_add : (a : ℕ) → 0 + a ≡ a
zero_add a = omega arith

zero_bigger : (a : ℕ) → bigger 0 a ≡ a
zero_bigger a = ground arith

bigger_0 : (a : ℕ) → bigger a 0 ≡ a
bigger_0 a = ground arith

bigger_assoc : (a b c : ℕ) → bigger (bigger a b) c ≡ bigger a (bigger b c)
bigger_assoc a b c = ground arith

max_pos : (a b : ℕ) → max_ℤ (pos a) (pos b) ≡ pos (bigger a b)
max_pos a b = ground arith

max_wrapped :
    (n : ℕ)
    → 9223372036854775808 ≤ n
    → n < 18446744073709551616
    → max_ℤ (wrap64 (pos n)) (pos 0) ≡ pos 0
unfolding wrap64
max_wrapped n lo hi = ground arith

module _ (fl : Float) where
  -- The containers' requests, read one by one.
  abbrev pub Requests : List Container → List Amounts → Type 0
  Requests [] [] = Unit
  Requests [] (r ∷ rs) = ⊥
  Requests (c ∷ cs) [] = ⊥
  Requests (c ∷ cs) (r ∷ rs) = (container_requests fl c ≡ ok (pos r.0, pos r.1)) × Requests cs rs

  sum_regular-eq :
      (cs : List Container) (rs : List Amounts) (a b : ℕ)
      → Requests cs rs
      → sum_regular fl (wrap64 (pos a), wrap64 (pos b)) cs
        ≡ ok (wrap64 (pos (a + total cpu_of rs)), wrap64 (pos (b + total memory_of rs)))
  unfolding sum_regular
  sum_regular-eq [] [] a b h = rw (add_0 a, add_0 b) refl
  sum_regular-eq [] (r ∷ rs) a b h = absurd h
  sum_regular-eq (c ∷ cs) [] a b h = absurd h
  sum_regular-eq (c ∷ cs) (r ∷ rs) a b (e, h) =
      let tail = sum_regular-eq cs rs (a + r.0) (b + r.1) h in
      rw (e, wrap64-add a r.0, wrap64-add b r.1, tail, sum_assoc a r.0, sum_assoc b r.1) refl

  max_init-eq :
      (cs : List Container) (rs : List Amounts) (a b : ℕ)
      → Requests cs rs
      → max_init fl (pos a, pos b) cs
        ≡ ok (pos (bigger a (largest cpu_of rs)), pos (bigger b (largest memory_of rs)))
  unfolding max_init
  max_init-eq [] [] a b h = rw (bigger_0 a, bigger_0 b) refl
  max_init-eq [] (r ∷ rs) a b h = absurd h
  max_init-eq (c ∷ cs) [] a b h = absurd h
  max_init-eq (c ∷ cs) (r ∷ rs) a b (e, h) =
      let tail = max_init-eq cs rs (bigger a r.0) (bigger b r.1) h in
      rw (e, max_pos a r.0, max_pos b r.1, tail, bigger_assoc a r.0, bigger_assoc b r.1) refl

  -- The request of a pod whose containers' requests are read: the larger of the sum over the
  -- regular containers, wrapped to 64 bits, and the largest init container, for each resource.
  pub extract_pod_requests-eq :
      (spec : PodSpec) (regular init : List Amounts)
      → Requests spec.containers regular
      → Requests (unwrap_or spec.init_containers []) init
      → extract_pod_requests fl spec
        ≡ ok (
          max_ℤ (wrap64 (pos (total cpu_of regular))) (pos (largest cpu_of init)),
          max_ℤ (wrap64 (pos (total memory_of regular))) (pos (largest memory_of init)),
        )
  unfolding extract_pod_requests wrap64
  extract_pod_requests-eq spec regular init hr hi =
      rw
        (
          sum_regular-eq spec.containers regular 0 0 hr,
          max_init-eq (unwrap_or spec.init_containers []) init 0 0 hi,
          zero_add (total cpu_of regular),
          zero_add (total memory_of regular),
          zero_bigger (largest cpu_of init),
          zero_bigger (largest memory_of init),
        )
        refl

  -- When both sums over the regular containers fit in an `i64`, the effective request of a pod is
  -- the larger of that sum and the largest init container, for CPU and memory each.
  pub extract_pod_requests-exact :
      (spec : PodSpec) (regular init : List Amounts)
      → Requests spec.containers regular
      → Requests (unwrap_or spec.init_containers []) init
      → total cpu_of regular ≤ 9223372036854775807
      → total memory_of regular ≤ 9223372036854775807
      → extract_pod_requests fl spec
        ≡ ok (
          pos (bigger (total cpu_of regular) (largest cpu_of init)),
          pos (bigger (total memory_of regular) (largest memory_of init)),
        )
  extract_pod_requests-exact spec regular init hr hi hc hm =
      rw
        (
          extract_pod_requests-eq spec regular init hr hi,
          wrap64-eq (pos (total cpu_of regular)) (omega arith),
          wrap64-eq (pos (total memory_of regular)) (omega arith),
          max_pos (total cpu_of regular) (largest cpu_of init),
          max_pos (total memory_of regular) (largest memory_of init),
        )
        refl

  -- When the memory of the regular containers sums to at least 2^63 and less than 2^64, and no
  -- init container asks for memory, the effective memory request of the pod is 0.
  pub extract_pod_requests-overflow :
      (spec : PodSpec) (regular init : List Amounts)
      → Requests spec.containers regular
      → Requests (unwrap_or spec.init_containers []) init
      → 9223372036854775808 ≤ total memory_of regular
      → total memory_of regular < 18446744073709551616
      → largest memory_of init ≡ 0
      → extract_pod_requests fl spec
        ≡ ok (max_ℤ (wrap64 (pos (total cpu_of regular))) (pos (largest cpu_of init)), pos 0)
  extract_pod_requests-overflow spec regular init hr hi hlo hhi h0 =
      extract_pod_requests-eq spec regular init hr hi
      ∙ ap (λ m. ok (max_ℤ (wrap64 (pos (total cpu_of regular))) (pos (largest cpu_of init)), m))
          (rw h0 (max_wrapped (total memory_of regular) hlo hhi))
