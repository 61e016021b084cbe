-- ===== src/Tunnel/Examples.antt =====
-- Concrete plans, journals and worlds for the tests and witnesses of the tunnel.
use nordmac.Base.{
  ℕ, suc, ◌*◌, true, false, none, some, [], ◌∷◌, Text, pos, ◌==◌, nat_eq, length, if◌then◌else◌,
  replicate, message,
}
use nordmac.Netip.{v4}
use nordmac.Netip.Prefixes
use nordmac.Tunnel.Types.{scoped_ipv4, full_ipv4, Plan, Route, DeviceHandle, DnsSnapshot}
use nordmac.Tunnel.World.{World}
use nordmac.Tunnel.Zero.{zero_journal}

abbrev pub en0 : Text
en0 = b'e' ∷ b'n' ∷ b'0' ∷ []

abbrev pub utun9 : Text
utun9 = b'u' ∷ b't' ∷ b'u' ∷ b'n' ∷ b'9' ∷ []

abbrev pub session : Text
session = replicate 32 b'a'

-- 192.0.2.1 through 192.168.1.1, with DNS servers 103.86.96.100 and 103.86.99.100
abbrev pub full_plan : Plan
full_plan = record {
  session_id = session;
  owner_uid = pos 501;
  endpoint = record { addr = v4 3221225985; port = 51820 };
  physical_gateway = v4 3232235777;
  physical_interface = en0;
  tunnel_address = Prefixes.from (v4 168099842) 32;
  tunnel_mtu = pos 1280;
  tunnel_dns = v4 1733714020 ∷ v4 1733714788 ∷ [];
  dns_service = b'W' ∷ b'i' ∷ [];
  route_policy = full_ipv4;
  scoped_routes = [];
  peer_fingerprint = replicate 64 b'0';
}

-- the same host with one scoped route, 10.77.0.0/16
abbrev pub scoped_plan : Plan
scoped_plan = record full_plan {
  tunnel_dns = [];
  dns_service = [];
  route_policy = scoped_ipv4;
  scoped_routes = Prefixes.from (v4 172818432) 16 ∷ [];
}

abbrev pub host_route : Route
host_route = record {
  destination = Prefixes.from (v4 0) 0;
  gateway = v4 3232235777;
  interface = en0;
  reject = false;
}

abbrev pub handle : DeviceHandle
handle = record { interface = utun9; owner_pid = pos 77 }

abbrev pub host_dns : DnsSnapshot
host_dns = record {
  revision = b'r' ∷ [];
  services = record { service_id = b'W' ∷ b'i' ∷ []; servers = []; search_domains = [] } ∷ [];
}

-- A world in which every call succeeds.
abbrev pub calm : World
calm = record {
  has = λ d. true;
  fails = λ h c call. none;
  routes_before = λ h. record { default_route = host_route };
  dns_before = λ h c. host_dns;
  new_device = λ h s. handle;
  stored = λ h s. zero_journal;
  clock = λ h. 1000 * suc (length h);
}

-- A world in which only the call after `n` others fails.
abbrev pub failing_at : ℕ → World
failing_at n = record calm {
  fails = λ h c call. if length h == n then some (message "refused") else none;
}
