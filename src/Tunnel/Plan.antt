-- ===== src/Tunnel/Plan.antt =====
-- The plan, its routes and their validation (internal/tunnel/model.go).
use nordmac.Base.{
  Bool, true, false, not, ◌&&◌, ◌||◌, Option, none, some, List, [], ◌∷◌, map, Text, pos, ltb_ℤ, ltb,
  ◌==◌, nat_eq, text_eq, int_eq, length, Check, pass, reject_if, err, message, ◌>>◌, contains,
}
use nordmac.Netip.{Addr, zero_addr, v4, v6, Prefix, AddrPort, addr_eq, prefix_eq}
use nordmac.Netip.Address
use nordmac.Netip.Prefixes
use nordmac.Patterns.{valid_session_id, is_fingerprint, is_interface, has_control, has_blank}
use nordmac.Tunnel.Types.{
  RoutePolicy, scoped_ipv4, full_ipv4, other_policy, Plan, Route, DnsConfig, DeviceHandle,
  InterfaceAddress,
}

abbrev pub lo0 : Text
lo0 = b'l' ∷ b'o' ∷ b'0' ∷ []

-- `Plan.EndpointRoute`
abbrev pub endpoint_route : Plan → Route
endpoint_route plan = record {
  destination = Prefixes.from plan.endpoint.addr 32;
  gateway = plan.physical_gateway;
  interface = plan.physical_interface;
  reject = false;
}

-- `Route{Destination: prefix}`
abbrev pub direct_route : Prefix → Route
direct_route prefix = record {
  destination = prefix;
  gateway = zero_addr;
  interface = [];
  reject = false;
}

-- `Route{Destination: prefix, Interface: "lo0", Reject: true}`
abbrev pub reject_route : Prefix → Route
reject_route prefix = record {
  destination = prefix;
  gateway = zero_addr;
  interface = lo0;
  reject = true;
}

-- 0.0.0.0/1, 128.0.0.0/1, ::/1 and 8000::/1
abbrev pub full_routes : List Route
full_routes =
    direct_route (Prefixes.from (v4 0) 1)
    ∷ direct_route (Prefixes.from (v4 0x8000_0000) 1)
    ∷ reject_route (Prefixes.from (v6 0 []) 1)
    ∷ reject_route (Prefixes.from (v6 0x8000_0000_0000_0000_0000_0000_0000_0000 []) 1)
    ∷ []

abbrev pub routes_of : RoutePolicy → List Prefix → List Route
routes_of scoped_ipv4 scoped = map direct_route scoped
routes_of full_ipv4 scoped = full_routes
routes_of (other_policy p) scoped = full_routes

-- `Plan.TunnelRoutes`
unfoldable pub tunnel_routes : Plan → List Route
tunnel_routes plan = routes_of plan.route_policy plan.scoped_routes

abbrev pub is_full : RoutePolicy → Bool
is_full full_ipv4 = true
is_full _ = false

-- `Plan.UsesDNS`
abbrev pub uses_dns : Plan → Bool
uses_dns plan = is_full plan.route_policy

-- `Plan.DNSConfig`
abbrev pub dns_config : Plan → DnsConfig
dns_config plan = record {
  service_id = plan.dns_service;
  servers = plan.tunnel_dns;
  search_domains = none;
}

-- The tests of one scoped route in the loop of `validatePolicy`.
unfoldable pub bad_scoped : Prefix → Bool
bad_scoped p =
    not (Prefixes.is_valid p)
    || not (Address.is_4 p.addr)
    || not (p == Prefixes.masked p)
    || not (Address.is_private p.addr)
    || ltb (Prefixes.bits p) 16
    || ltb 32 (Prefixes.bits p)

unfoldable pub hits_physical : Plan → Prefix → Bool
hits_physical plan p =
    Prefixes.contains p plan.endpoint.addr || Prefixes.contains p plan.physical_gateway

unfoldable pub check_scoped : Plan → List Prefix → List Prefix → Check
check_scoped plan seen [] = pass
check_scoped plan seen (p ∷ ps) = do
  reject_if (bad_scoped p) "scoped routes must be canonical private IPv4 prefixes"
  reject_if (hits_physical plan p) "scoped routes must not contain the endpoint or gateway"
  reject_if (contains seen p) "scoped routes must be unique"
  check_scoped plan (p ∷ seen) ps

unfoldable pub check_policy : RoutePolicy → Plan → Check
check_policy full_ipv4 plan = do
  reject_if (not (length plan.scoped_routes == 0)) "full policy must not contain scoped routes"
  reject_if (length plan.tunnel_dns == 0 || ltb 4 (length plan.tunnel_dns))
      "full IPv4 policy requires one to four DNS servers"
  reject_if
      (length plan.dns_service == 0
        || ltb 256 (length plan.dns_service)
        || has_control plan.dns_service)
      "full IPv4 policy requires a fixed DNS service"
check_policy scoped_ipv4 plan = do
  reject_if (not (length plan.tunnel_dns == 0) || not (plan.dns_service == []))
      "scoped IPv4 policy must not change DNS"
  reject_if (length plan.scoped_routes == 0 || ltb 4 (length plan.scoped_routes))
      "scoped IPv4 policy requires one to four routes"
  check_scoped plan [] plan.scoped_routes
check_policy (other_policy p) plan = err (message "unsupported route policy")

-- `Plan.validatePolicy`
abbrev pub validate_policy : Plan → Check
validate_policy plan = check_policy plan.route_policy plan

-- The loop over `plan.TunnelDNS`.
unfoldable pub check_dns : List Addr → List Addr → Check
check_dns seen [] = pass
check_dns seen (a ∷ as') = do
  reject_if
      (not (Address.is_valid a)
        || not (Address.is_4 a)
        || Address.is_unspecified a
        || Address.is_multicast a)
      "tunnel DNS servers must be usable IPv4 addresses"
  reject_if (contains seen a) "tunnel DNS servers must be unique"
  check_dns (a ∷ seen) as'

-- The tests of `Plan.Validate` on the endpoint, the gateway and the tunnel address.
unfoldable pub bad_endpoint : AddrPort → Bool
bad_endpoint e =
    not (Address.is_valid e.addr)
    || not (Address.is_4 e.addr)
    || e.port == 0
    || not (Address.is_global_unicast e.addr)

unfoldable pub bad_gateway : Addr → Bool
bad_gateway a = not (Address.is_valid a) || not (Address.is_4 a) || Address.is_unspecified a

unfoldable pub bad_tunnel_address : Prefix → Bool
bad_tunnel_address p =
    not (Prefixes.is_valid p) || not (Address.is_4 p.addr) || not (p == Prefixes.masked p)

-- `Plan.Validate`
unfoldable pub validate_plan : Plan → Check
validate_plan plan = do
  reject_if (not (valid_session_id plan.session_id)) "session id must be 32 hexadecimal characters"
  reject_if (ltb_ℤ plan.owner_uid (pos 0)) "owner uid must not be negative"
  reject_if (bad_endpoint plan.endpoint) "endpoint must be a unicast IPv4 address and port"
  reject_if (bad_gateway plan.physical_gateway) "physical gateway must be an IPv4 address"
  reject_if (not (is_interface plan.physical_interface)) "physical interface is invalid"
  reject_if (bad_tunnel_address plan.tunnel_address) "tunnel address must be a canonical prefix"
  reject_if (not (Prefixes.bits plan.tunnel_address == 32)) "tunnel address must be an IPv4 /32"
  reject_if (ltb_ℤ plan.tunnel_mtu (pos 1280) || ltb_ℤ (pos 9000) plan.tunnel_mtu)
      "tunnel MTU must be between 1280 and 9000"
  validate_policy plan
  check_dns [] plan.tunnel_dns
  reject_if (not (is_fingerprint plan.peer_fingerprint)) "fingerprint must be SHA-256 hex"

-- `Route.Validate`
unfoldable pub validate_route : Route → Check
validate_route r = do
  reject_if
      (not (Prefixes.is_valid r.destination)
        || not (r.destination == Prefixes.masked r.destination))
      "route destination must be a canonical IP prefix"
  reject_if
      (Address.is_valid r.gateway
        && (not (Address.bit_len r.gateway == Address.bit_len r.destination.addr)
            || Address.is_unspecified r.gateway))
      "route gateway must be a usable address in the destination family"
  reject_if (not (r.interface == []) && not (is_interface r.interface)) "route interface is invalid"
  reject_if
      (r.reject
        && (not (Address.is_6 r.destination.addr)
            || Address.is_valid r.gateway
            || not (r.interface == lo0)))
      "reject routes must be IPv6 routes through lo0 without a gateway"

-- The loop over `config.Servers` in `DNSConfig.Validate`.
unfoldable pub check_servers : List Addr → List Addr → Check
check_servers seen [] = pass
check_servers seen (a ∷ as') = do
  reject_if (not (Address.is_valid a) || Address.is_unspecified a || Address.is_multicast a)
      "DNS config contains an invalid server"
  reject_if (contains seen a) "DNS config servers must be unique"
  check_servers (a ∷ seen) as'

unfoldable pub check_domains : List Text → Check
check_domains [] = pass
check_domains (d ∷ ds) = do
  reject_if (length d == 0 || ltb 253 (length d) || has_control d || has_blank d)
      "DNS config contains an invalid search domain"
  check_domains ds

abbrev pub domains_of : Option (List Text) → List Text
domains_of none = []
domains_of (some ds) = ds

-- `DNSConfig.Validate`
unfoldable pub validate_dns_config : DnsConfig → Check
validate_dns_config c = do
  reject_if (length c.service_id == 0 || ltb 256 (length c.service_id) || has_control c.service_id)
      "DNS service id is invalid"
  reject_if (length c.servers == 0 || ltb 8 (length c.servers)) "DNS config needs 1 to 8 servers"
  check_servers [] c.servers
  reject_if (ltb 32 (length (domains_of c.search_domains))) "too many search domains"
  check_domains (domains_of c.search_domains)

-- `DeviceHandle.Validate`
unfoldable pub validate_handle : DeviceHandle → Check
validate_handle h =
    reject_if (not (is_interface h.interface) || not (ltb_ℤ (pos 0) h.owner_pid))
      "device handle is invalid"

-- `InterfaceAddress.Validate`
unfoldable pub validate_interface_address : InterfaceAddress → Check
validate_interface_address a = do
  reject_if (not (is_interface a.interface)) "interface address has an invalid interface"
  reject_if
      (not (Prefixes.is_valid a.prefix)
        || not (Address.is_4 a.prefix.addr)
        || not (Prefixes.bits a.prefix == 32))
      "interface address must be an IPv4 /32"
