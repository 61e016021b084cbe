-- ===== src/Tunnel/Validity/Total.antt =====
-- `Journal.Validate` and panics (internal/tunnel/model.go).
use nordmac.Base.{
  ℕ, zero, suc, ◌+◌, ◌≤◌, ◌<◌, Bool, true, false, Option, none, some, List, [], ◌∷◌, ◌≡◌, refl, ◌≢◌,
  ◌⊎◌, context-ne-panic, arith, get_elem?, length, panic, pass, >>-ne-panic_if, >>-ne-panic,
  reject_if-pass, reject_if-ne-panic, err-ne-panic, pass-ne-panic, ltb, inl, inr, Bool-cases,
  get_elem?-in_range, Text, String, ◌==◌, ◌||◌, nat_eq,
}
use nordmac.Netip.{Addr}
use nordmac.Tunnel.Types.{
  Phase, phase_eq, connected, degraded, disconnected, endpoint_route_step, StepStatus, Plan,
  ServiceDns, DnsSnapshot, DeviceHandle, Entry, Journal, tunnel_route_step, StepKind,
}
use nordmac.Tunnel.Plan.{tunnel_routes}
use nordmac.Tunnel.Panics.{
  no_panic, validate_plan-ne-panic, validate_route-ne-panic, validate_handle-ne-panic,
}
use nordmac.Tunnel.Journal.{
  validate_preimages, check_preimage_servers, check_preimage_domains, check_services,
  check_service_at, check_planned_service, check_status_at, check_dns_preimage, check_device,
  expected_kinds, check_entries, check_device_entry, check_endpoint_entry, check_tunnel_entries,
  check_device_routes, check_statuses, check_phase, validate_journal,
}
use nordmac.Tunnel.Validity.Entries.{
  HasRoute, check_entries-AllFit, check_entries-ne-panic, check_route_at-ne-panic, route_of_kind,
}
use nordmac.Tunnel.Validity.Routes.{get_elem?-expected_kinds, check_tunnel_routes-ne-panic}

check_preimage_servers-ne-panic : (as' : List Addr) → check_preimage_servers as' ≢ panic
unfolding check_preimage_servers
check_preimage_servers-ne-panic [] = pass-ne-panic
check_preimage_servers-ne-panic (a ∷ as') = search (no_panic, check_preimage_servers-ne-panic as')

check_preimage_domains-ne-panic : (ds : List Text) → check_preimage_domains ds ≢ panic
unfolding check_preimage_domains
check_preimage_domains-ne-panic [] = pass-ne-panic
check_preimage_domains-ne-panic (d ∷ ds) = search (no_panic, check_preimage_domains-ne-panic ds)

check_services-ne-panic : (seen : List Text) (ss : List ServiceDns) → check_services seen ss ≢ panic
unfolding check_services
check_services-ne-panic seen [] = pass-ne-panic
check_services-ne-panic seen (s ∷ ss) =
    search
      (
        no_panic,
        check_preimage_servers-ne-panic,
        check_preimage_domains-ne-panic,
        check_services-ne-panic (s.service_id ∷ seen) ss,
      )
      depth 12

check_service_at-ne-panic :
    (s : Option ServiceDns) (t : Text) → s ≢ none → check_service_at s t ≢ panic
check_service_at-ne-panic none t h = absurd (h refl)
check_service_at-ne-panic (some s) t h = reject_if-ne-panic _ _

check_planned_service-ne-panic :
    (t : Text) (ss : List ServiceDns) → check_planned_service t ss ≢ panic
unfolding check_planned_service
check_planned_service-ne-panic t ss = elim (Bool-cases (length ss == 1)) [
  | inl one ↦ rw one (check_service_at-ne-panic _ t (get_elem?-in_range ss 0 (ground arith)))
  | inr other ↦ rw other (err-ne-panic _)
]

check_dns_preimage-ne-panic :
    (b : Bool) (p : Plan) (d : DnsSnapshot) → check_dns_preimage b p d ≢ panic
unfolding check_dns_preimage
check_dns_preimage-ne-panic false p d = reject_if-ne-panic _ _
check_dns_preimage-ne-panic true p d =
    search (no_panic, check_planned_service-ne-panic, check_services-ne-panic)

validate_preimages-ne-panic : (j : Journal) → validate_preimages j ≢ panic
unfolding validate_preimages
validate_preimages-ne-panic j =
    search (no_panic, validate_route-ne-panic, check_dns_preimage-ne-panic)

check_device-ne-panic : (d : Option DeviceHandle) → check_device d ≢ panic
check_device-ne-panic none = pass-ne-panic
check_device-ne-panic (some d) = search (no_panic, validate_handle-ne-panic)

check_status_at-ne-panic :
    (e : Option Entry) (d : Option DeviceHandle) → e ≢ none → check_status_at e d ≢ panic
check_status_at-ne-panic none d h = absurd (h refl)
check_status_at-ne-panic (some e) d h = reject_if-ne-panic _ _

check_device_entry-ne-panic :
    (d : Option DeviceHandle) (es : List Entry) → check_device_entry d es ≢ panic
unfolding check_device_entry
check_device_entry-ne-panic d es =
    >>-ne-panic _ _
      (elim (Bool-cases (ltb 1 (length es))) [
        | inl two ↦ rw two (check_status_at-ne-panic _ d (get_elem?-in_range es 1 (ground arith)))
        | inr few ↦ rw few pass-ne-panic
      ])
      (reject_if-ne-panic _ _)

check_statuses-ne-panic :
    (s : StepStatus) (m : String) (es : List Entry) → check_statuses s m es ≢ panic
unfolding check_statuses
check_statuses-ne-panic s m [] = pass-ne-panic
check_statuses-ne-panic s m (e ∷ es) = search (no_panic, check_statuses-ne-panic s m es)

check_phase-ne-panic :
    (p : Phase) (n : ℕ) (d : Option DeviceHandle) (es : List Entry) → check_phase p n d es ≢ panic
unfolding check_phase
check_phase-ne-panic p n d es =
    >>-ne-panic _ _
      (elim (Bool-cases (p == connected || p == degraded)) [
        | inl up ↦ rw up (search (no_panic, check_statuses-ne-panic))
        | inr other ↦ rw other pass-ne-panic
      ])
      (elim (Bool-cases (p == disconnected)) [
        | inl down ↦ rw down (check_statuses-ne-panic _ _ es)
        | inr other ↦ rw other pass-ne-panic
      ])

-- Each index of the later loops is one whose entry has a route.
HasRoute-at :
    (j : Journal) (i : ℕ) (k : StepKind)
    → check_entries j.phase (expected_kinds j.plan) 0 j.entries ≡ pass
    → get_elem? (expected_kinds j.plan) i ≡ some k
    → (k ≡ endpoint_route_step) ⊎ (k ≡ tunnel_route_step)
    → HasRoute j.entries i
HasRoute-at j i k checked at kind e g =
    let f = check_entries-AllFit j.phase (expected_kinds j.plan) j.entries checked i e g in
    route_of_kind j.phase _ e f (ground (arith, f.kind_fits))

check_endpoint_entry-ne-panic :
    (j : Journal)
    → check_entries j.phase (expected_kinds j.plan) 0 j.entries ≡ pass
    → check_endpoint_entry j.plan j.entries ≢ panic
unfolding check_endpoint_entry expected_kinds
check_endpoint_entry-ne-panic j checked = elim (Bool-cases (ltb 0 (length j.entries))) [
  | inl some_entry ↦ rw some_entry (
      check_route_at-ne-panic (get_elem? j.entries 0) _ _
        (get_elem?-in_range j.entries 0 (ground arith))
        (HasRoute-at j 0 endpoint_route_step checked refl (inl refl)))
  | inr no_entry ↦ rw no_entry pass-ne-panic
]

check_device_routes-ne-panic :
    (j : Journal) (d : Option DeviceHandle)
    → check_entries j.phase (expected_kinds j.plan) 0 j.entries ≡ pass
    → check_device_routes d j.entries (tunnel_routes j.plan) ≢ panic
check_device_routes-ne-panic j none checked = err-ne-panic _
check_device_routes-ne-panic j (some d) checked =
    check_tunnel_routes-ne-panic d j.entries 2 (tunnel_routes j.plan) at
  where
    at : (i : ℕ) → 2 ≤ i → i < 2 + length (tunnel_routes j.plan) → HasRoute j.entries i
    at zero a b = absurd (omega arith)
    at (suc zero) a b = absurd (omega arith)
    at (suc (suc i)) a b =
        HasRoute-at j (suc (suc i)) tunnel_route_step checked
          (get_elem?-expected_kinds j.plan i (omega arith)) (inr refl)

check_tunnel_entries-ne-panic :
    (j : Journal)
    → check_entries j.phase (expected_kinds j.plan) 0 j.entries ≡ pass
    → check_tunnel_entries j.plan j.device j.entries ≢ panic
unfolding check_tunnel_entries
check_tunnel_entries-ne-panic j checked = elim (Bool-cases (ltb 2 (length j.entries))) [
  | inl many ↦ rw many (check_device_routes-ne-panic j j.device checked)
  | inr few ↦ rw few pass-ne-panic
]

-- Validation of a journal never panics: the kinds, the entries and the services are indexed in range,
-- and each route that is dereferenced was checked to be there.
pub validate_journal-ne-panic : (j : Journal) → validate_journal j ≢ panic
unfolding validate_journal
validate_journal-ne-panic j = >>-ne-panic _ _ (reject_if-ne-panic _ _) (
    >>-ne-panic _ _ (context-ne-panic _ _ (validate_plan-ne-panic j.plan)) (
      >>-ne-panic _ _ (reject_if-ne-panic _ _) (
        >>-ne-panic _ _ (reject_if-ne-panic _ _) (
          >>-ne-panic _ _ (reject_if-ne-panic _ _) (
            >>-ne-panic _ _ (validate_preimages-ne-panic j) (
              >>-ne-panic _ _ (check_device-ne-panic j.device) (
                >>-ne-panic_if _ _ (reject_if-ne-panic _ _) λ counted.
                  >>-ne-panic_if _ _
                    (check_entries-ne-panic j.phase (expected_kinds j.plan) 0 j.entries
                      (ground (arith, reject_if-pass _ _ counted)))
                    λ checked. >>-ne-panic _ _ (check_device_entry-ne-panic j.device j.entries) (
                      >>-ne-panic _ _ (check_endpoint_entry-ne-panic j checked) (
                        >>-ne-panic _ _ (check_tunnel_entries-ne-panic j checked)
                          (check_phase-ne-panic j.phase _ j.device j.entries))))))))))
