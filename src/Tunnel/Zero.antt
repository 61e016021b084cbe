-- ===== src/Tunnel/Zero.antt =====
-- The Go zero values of a plan, a route, a DNS snapshot and a journal.
use nordmac.Base.{false, none, [], pos, int_eq, text_eq}
use nordmac.Netip.{zero_addr}
use nordmac.Netip.Prefixes
use nordmac.Tunnel.Types.{
  other_policy, other_phase, phase_eq, status_eq, Plan, Route, DnsSnapshot, Journal,
}

abbrev pub zero_plan : Plan
zero_plan = record {
  session_id = [];
  owner_uid = pos 0;
  endpoint = record { addr = zero_addr; port = 0 };
  physical_gateway = zero_addr;
  physical_interface = [];
  tunnel_address = Prefixes.zero;
  tunnel_mtu = pos 0;
  tunnel_dns = [];
  dns_service = [];
  route_policy = other_policy [];
  scoped_routes = [];
  peer_fingerprint = [];
}

abbrev pub zero_route : Route
zero_route = record {
  destination = Prefixes.zero;
  gateway = zero_addr;
  interface = [];
  reject = false;
}

abbrev pub zero_dns : DnsSnapshot
zero_dns = record { revision = []; services = [] }

abbrev pub zero_journal : Journal
zero_journal = record {
  schema_version = pos 0;
  session_id = [];
  owner_uid = pos 0;
  phase = other_phase [];
  plan = zero_plan;
  route_before = record { default_route = zero_route };
  dns_before = zero_dns;
  device = none;
  entries = [];
  created_at = 0;
  updated_at = 0;
}
