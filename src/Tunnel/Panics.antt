-- ===== src/Tunnel/Panics.antt =====
-- The validation of plans, routes and handles and panics (internal/tunnel/model.go).
use nordmac.Base.{
  Text, Bool, true, false, List, [], ◌∷◌, ◌≢◌, panic, reject_if-ne-panic, >>-ne-panic,
  context-ne-panic, err-ne-panic, pass-ne-panic,
}
use nordmac.Netip.{Addr, Prefix}
use nordmac.Tunnel.Types.{
  RoutePolicy, scoped_ipv4, full_ipv4, other_policy, Plan, Route, DeviceHandle, RouteSnapshot,
  DnsConfig,
}
use nordmac.Tunnel.Plan.{
  check_scoped, check_policy, check_dns, validate_plan, validate_route, validate_handle,
  check_servers, check_domains, validate_dns_config,
}
use nordmac.Tunnel.Phases.{validate_physical_preimage}

pub ruleset no_panic =
    (reject_if-ne-panic, >>-ne-panic, context-ne-panic, err-ne-panic, pass-ne-panic)

check_scoped-ne-panic : (p : Plan) (seen ps : List Prefix) → check_scoped p seen ps ≢ panic
unfolding check_scoped
check_scoped-ne-panic p seen [] = pass-ne-panic
check_scoped-ne-panic p seen (x ∷ ps) = search (no_panic, check_scoped-ne-panic p (x ∷ seen) ps)

check_dns-ne-panic : (seen as' : List Addr) → check_dns seen as' ≢ panic
unfolding check_dns
check_dns-ne-panic seen [] = pass-ne-panic
check_dns-ne-panic seen (a ∷ as') = search (no_panic, check_dns-ne-panic (a ∷ seen) as')

check_policy-ne-panic : (r : RoutePolicy) (p : Plan) → check_policy r p ≢ panic
unfolding check_policy
check_policy-ne-panic full_ipv4 p = search no_panic
check_policy-ne-panic scoped_ipv4 p = search (no_panic, check_scoped-ne-panic)
check_policy-ne-panic (other_policy t) p = search no_panic

pub validate_plan-ne-panic : (p : Plan) → validate_plan p ≢ panic
unfolding validate_plan
validate_plan-ne-panic p = search (no_panic, check_policy-ne-panic, check_dns-ne-panic) depth 30

pub validate_route-ne-panic : (r : Route) → validate_route r ≢ panic
unfolding validate_route
validate_route-ne-panic r = search no_panic depth 10

pub validate_handle-ne-panic : (h : DeviceHandle) → validate_handle h ≢ panic
unfolding validate_handle
validate_handle-ne-panic h = search no_panic

pub validate_physical_preimage-ne-panic :
    (p : Plan) (s : RouteSnapshot) → validate_physical_preimage p s ≢ panic
unfolding validate_physical_preimage
validate_physical_preimage-ne-panic p s = search (no_panic, validate_route-ne-panic) depth 10

check_servers-ne-panic : (seen as' : List Addr) → check_servers seen as' ≢ panic
unfolding check_servers
check_servers-ne-panic seen [] = pass-ne-panic
check_servers-ne-panic seen (a ∷ as') = search (no_panic, check_servers-ne-panic (a ∷ seen) as')

check_domains-ne-panic : (ds : List Text) → check_domains ds ≢ panic
unfolding check_domains
check_domains-ne-panic [] = pass-ne-panic
check_domains-ne-panic (d ∷ ds) = search (no_panic, check_domains-ne-panic ds)

pub validate_dns_config-ne-panic : (c : DnsConfig) → validate_dns_config c ≢ panic
unfolding validate_dns_config
validate_dns_config-ne-panic c =
    search (no_panic, check_servers-ne-panic, check_domains-ne-panic) depth 12
