-- ===== src/Tunnel/Validity/Routes.antt =====
-- The expected kinds of a plan by index, and the loop over the tunnel routes.
use nordmac.Base.{
  ℕ, zero, suc, ◌+◌, ◌≤◌, ◌<◌, Bool, true, false, some, List, [], ◌∷◌, ◌++◌, ◌≡◌, refl, ◌≢◌, arith,
  get_elem?, length, panic, >>-ne-panic, pass-ne-panic, ltb, inl, inr, Bool-cases,
  get_elem?-in_range,
}
use nordmac.Tunnel.Types.{StepKind, tunnel_route_step, dns_step, Plan, Route, DeviceHandle, Entry}
use nordmac.Tunnel.Plan.{tunnel_routes, uses_dns}
use nordmac.Tunnel.Journal.{check_tunnel_routes, expected_kinds, tunnel_kinds, dns_kinds}
use nordmac.Tunnel.Validity.Entries.{HasRoute, check_route_at-ne-panic}

pub get_elem?-tunnel_kinds :
    (rs : List Route) (ks : List StepKind) (i : ℕ)
    → i < length rs
    → get_elem? (tunnel_kinds rs ++ ks) i ≡ some tunnel_route_step
get_elem?-tunnel_kinds [] ks i h = elim h [ ]
get_elem?-tunnel_kinds (r ∷ rs) ks zero h = refl
get_elem?-tunnel_kinds (r ∷ rs) ks (suc i) h = get_elem?-tunnel_kinds rs ks i (omega arith)

pub length-tunnel_kinds :
    (rs : List Route) (ks : List StepKind) → length (tunnel_kinds rs ++ ks) ≡ length rs + length ks
length-tunnel_kinds [] ks = omega arith
length-tunnel_kinds (r ∷ rs) ks = omega (arith, length-tunnel_kinds rs ks)

-- Only a plan that uses DNS expects a DNS step.
no_dns_in_kinds :
    (rs : List Route) (b : Bool) (i : ℕ)
    → get_elem? (tunnel_kinds rs ++ dns_kinds b) i ≡ some dns_step
    → b ≡ true
no_dns_in_kinds [] true i h = refl
no_dns_in_kinds [] false i h = cc
no_dns_in_kinds (r ∷ rs) b zero h = cc
no_dns_in_kinds (r ∷ rs) b (suc i) h = no_dns_in_kinds rs b i h

pub dns_step-uses_dns :
    (plan : Plan) (i : ℕ) → get_elem? (expected_kinds plan) i ≡ some dns_step → uses_dns plan ≡ true
unfolding expected_kinds
dns_step-uses_dns plan zero h = cc
dns_step-uses_dns plan (suc zero) h = cc
dns_step-uses_dns plan (suc (suc i)) h = no_dns_in_kinds (tunnel_routes plan) (uses_dns plan) i h

-- The expected kind at the index of a tunnel route.
pub get_elem?-expected_kinds :
    (plan : Plan) (i : ℕ)
    → i < length (tunnel_routes plan)
    → get_elem? (expected_kinds plan) (suc (suc i)) ≡ some tunnel_route_step
unfolding expected_kinds
get_elem?-expected_kinds plan i h = get_elem?-tunnel_kinds (tunnel_routes plan) _ i h

pub check_tunnel_routes-ne-panic :
    (d : DeviceHandle) (es : List Entry) (k : ℕ) (rs : List Route)
    → ((i : ℕ) → k ≤ i → i < k + length rs → HasRoute es i)
    → check_tunnel_routes d es k rs ≢ panic
unfolding check_tunnel_routes
check_tunnel_routes-ne-panic d es k [] h = pass-ne-panic
check_tunnel_routes-ne-panic d es k (r ∷ rs) h = elim (Bool-cases (ltb k (length es))) [
  | inl inside ↦ rw inside (
      >>-ne-panic _ _
        (check_route_at-ne-panic (get_elem? es k) _ _ (get_elem?-in_range es k (ground arith))
          (h k (omega arith) (omega arith)))
        (check_tunnel_routes-ne-panic d es (k + 1) rs (λ i a b. h i (omega arith) (omega arith))))
  | inr out ↦ rw out pass-ne-panic
]
