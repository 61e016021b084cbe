-- ===== src/Tunnel/Journal.antt =====
-- The journal's validation (internal/tunnel/model.go). A nil dereference or an index out of range is
-- a panic.
use nordmac.Base.{
  ℕ, ◌+◌, Bool, true, false, not, ◌&&◌, ◌||◌, Option, none, some, List, [], ◌∷◌, ◌++◌, Text, ℤ, pos,
  ltb, ◌==◌, nat_eq, text_eq, int_eq, length, get_elem?, Check, String, if◌then◌else◌, pass,
  reject_if, err, message, panic, context, ◌>>◌, contains,
}
use nordmac.Netip.{Addr, v4, Prefix, addr_eq, prefix_eq}
use nordmac.Netip.Address
use nordmac.Netip.Prefixes
use nordmac.Patterns.{has_control}
use nordmac.Tunnel.Types.{
  Phase, disconnected, connecting, connected, degraded, other_phase, phase_eq, StepKind,
  device_step, endpoint_route_step, tunnel_route_step, dns_step, other_kind, kind_eq, StepStatus,
  applied, rolled_back, other_status, status_eq, Plan, Route, route_eq, ServiceDns, DnsSnapshot,
  DeviceHandle, Entry, Journal,
}
use nordmac.Tunnel.Plan.{
  endpoint_route, tunnel_routes, uses_dns, validate_plan, validate_route, validate_handle,
}

abbrev pub journal_schema_version : ℤ
journal_schema_version = pos 3

abbrev pub valid_phase : Phase → Bool
valid_phase (other_phase s) = false
valid_phase _ = true

abbrev pub valid_step : StepKind → Bool
valid_step (other_kind s) = false
valid_step _ = true

abbrev pub valid_step_status : StepStatus → Bool
valid_step_status (other_status s) = false
valid_step_status _ = true

-- 0.0.0.0/0
abbrev pub default_destination : Prefix
default_destination = Prefixes.from (v4 0) 0

abbrev pub tunnel_kinds : List Route → List StepKind
tunnel_kinds [] = []
tunnel_kinds (r ∷ rs) = tunnel_route_step ∷ tunnel_kinds rs

abbrev pub dns_kinds : Bool → List StepKind
dns_kinds true = dns_step ∷ []
dns_kinds false = []

-- `Journal.expectedKinds`
unfoldable pub expected_kinds : Plan → List StepKind
expected_kinds plan =
    endpoint_route_step
    ∷ device_step
    ∷ (tunnel_kinds (tunnel_routes plan) ++ dns_kinds (uses_dns plan))

-- The tests of the route pre-image in `validatePreimages`.
unfoldable pub route_preimage_differs : Plan → Route → Bool
route_preimage_differs plan r =
    not (r.destination == default_destination)
    || not (r.gateway == plan.physical_gateway)
    || not (r.interface == plan.physical_interface)

unfoldable pub check_preimage_servers : List Addr → Check
check_preimage_servers [] = pass
check_preimage_servers (a ∷ as') = do
  reject_if (not (Address.is_valid a) || Address.is_unspecified a || Address.is_multicast a)
      "DNS pre-image contains an invalid server"
  check_preimage_servers as'

unfoldable pub check_preimage_domains : List Text → Check
check_preimage_domains [] = pass
check_preimage_domains (d ∷ ds) = do
  reject_if (length d == 0 || ltb 253 (length d) || has_control d)
      "DNS pre-image contains an invalid search domain"
  check_preimage_domains ds

-- The loop over `journal.DNSBefore.Services`.
unfoldable pub check_services : List Text → List ServiceDns → Check
check_services seen [] = pass
check_services seen (s ∷ ss) = do
  reject_if (length s.service_id == 0 || ltb 256 (length s.service_id) || has_control s.service_id)
      "DNS pre-image service id is invalid"
  reject_if (contains seen s.service_id) "DNS pre-image service ids must be unique"
  reject_if (ltb 8 (length s.servers) || ltb 32 (length s.search_domains))
      "DNS pre-image service data exceeds limits"
  check_preimage_servers s.servers
  check_preimage_domains s.search_domains
  check_services (s.service_id ∷ seen) ss

-- `services[0].ServiceID != service`
abbrev pub check_service_at : Option ServiceDns → Text → Check
check_service_at none service = panic
check_service_at (some s) service =
    reject_if (not (s.service_id == service))
      "DNS pre-image must contain exactly the planned service"

-- `len(services) != 1 || services[0].ServiceID != service`
unfoldable pub check_planned_service : Text → List ServiceDns → Check
check_planned_service service services =
    if length services == 1
    then check_service_at (get_elem? services 0) service
    else err (message "DNS pre-image must contain exactly the planned service")

unfoldable pub check_dns_preimage : Bool → Plan → DnsSnapshot → Check
check_dns_preimage false plan before =
    reject_if (not (before.revision == []) || not (length before.services == 0))
      "scoped journal contains a DNS pre-image"
check_dns_preimage true plan before = do
  reject_if
      (length before.revision == 0
        || ltb 128 (length before.revision)
        || has_control before.revision)
      "DNS pre-image revision is invalid"
  check_planned_service plan.dns_service before.services
  check_services [] before.services

-- `validatePreimages`
unfoldable pub validate_preimages : Journal → Check
validate_preimages j = do
  context "invalid route pre-image" (validate_route j.route_before.default_route)
  reject_if (route_preimage_differs j.plan j.route_before.default_route)
      "route pre-image does not match the planned physical route"
  check_dns_preimage (uses_dns j.plan) j.plan j.dns_before

abbrev pub check_device : Option DeviceHandle → Check
check_device none = pass
check_device (some h) = context "invalid journal device" (validate_handle h)

abbrev pub is_route_kind : StepKind → Bool
is_route_kind k = k == endpoint_route_step || k == tunnel_route_step

abbrev pub check_entry_route : Bool → Option Route → Check
check_entry_route true none = err (message "journal route entry is missing its route")
check_entry_route true (some r) = context "invalid journal route entry" (validate_route r)
check_entry_route false none = pass
check_entry_route false (some r) = err (message "non-route journal entry contains a route")

-- `entry.Kind != expectedKinds[index]`
abbrev pub check_kind : Option StepKind → StepKind → Check
check_kind none k = panic
check_kind (some k') k = reject_if (not (k == k')) "journal entry is out of transaction order"

-- One round of the loop over `journal.Entries`.
unfoldable pub check_entry : Phase → Option StepKind → Entry → Check
check_entry phase expected e = do
  reject_if (not (valid_step e.kind) || not (valid_step_status e.status)) "invalid journal entry"
  check_kind expected e.kind
  check_entry_route (is_route_kind e.kind) e.route
  reject_if (phase == connecting && e.status == rolled_back)
      "connecting journal contains a rolled-back entry"

unfoldable pub check_entries : Phase → List StepKind → ℕ → List Entry → Check
check_entries phase kinds index [] = pass
check_entries phase kinds index (e ∷ es) = do
  check_entry phase (get_elem? kinds index) e
  check_entries phase kinds (index + 1) es

abbrev pub has_device : Option DeviceHandle → Bool
has_device none = false
has_device (some h) = true

-- `entries[index].Status == applied && journal.Device == nil`
abbrev pub check_status_at : Option Entry → Option DeviceHandle → Check
check_status_at none d = panic
check_status_at (some e) d =
    reject_if (e.status == applied && not (has_device d))
      "applied device entry is missing its handle"

-- `*route != expected`
abbrev pub check_route : Option Route → Route → String → Check
check_route none r m = panic
check_route (some r') r m = reject_if (not (r' == r)) m

-- `*entries[index].Route != expected`
abbrev pub check_route_at : Option Entry → Route → String → Check
check_route_at none r m = panic
check_route_at (some e) r m = check_route e.route r m

-- `if !expected.Reject { expected.Interface = journal.Device.Interface }`
abbrev pub bind_device : Text → Route → Route
bind_device interface r = if r.reject then r else record r { interface = interface }

-- The loop `for index := 2; index < min(len(entries), 2+len(expected)); index++`.
unfoldable pub check_tunnel_routes : DeviceHandle → List Entry → ℕ → List Route → Check
check_tunnel_routes d entries index [] = pass
check_tunnel_routes d entries index (r ∷ rs) =
    let rest = check_tunnel_routes d entries (index + 1) rs in
    if ltb index (length entries)
    then (check_route_at (get_elem? entries index) (bind_device d.interface r)
          "journal tunnel route does not match its plan"
        >> rest)
    else pass

-- The tests on the device, the endpoint route and the tunnel routes, after the loop.
unfoldable pub check_device_entry : Option DeviceHandle → List Entry → Check
check_device_entry d entries = do
  if ltb 1 (length entries) then check_status_at (get_elem? entries 1) d else pass
  reject_if (has_device d && ltb (length entries) 2) "journal device has no ownership entry"

unfoldable pub check_endpoint_entry : Plan → List Entry → Check
check_endpoint_entry plan entries =
    if ltb 0 (length entries)
    then check_route_at (get_elem? entries 0) (endpoint_route plan)
        "journal endpoint route does not match its plan"
    else pass

abbrev pub check_device_routes : Option DeviceHandle → List Entry → List Route → Check
check_device_routes none entries routes =
    err (message "journal tunnel routes are missing their device handle")
check_device_routes (some d) entries routes = check_tunnel_routes d entries 2 routes

unfoldable pub check_tunnel_entries : Plan → Option DeviceHandle → List Entry → Check
check_tunnel_entries plan d entries =
    if ltb 2 (length entries) then check_device_routes d entries (tunnel_routes plan) else pass

-- Every entry has this status.
unfoldable pub check_statuses : StepStatus → String → List Entry → Check
check_statuses s m [] = pass
check_statuses s m (e ∷ es) = do reject_if (not (e.status == s)) m; check_statuses s m es

unfoldable pub check_phase : Phase → ℕ → Option DeviceHandle → List Entry → Check
check_phase phase expected d entries = do
  if phase == connected || phase == degraded
      then (do
        reject_if (not (length entries == expected) || not (has_device d))
            "connected journal is missing transaction entries"
        check_statuses applied "connected journal contains a non-applied entry" entries)
      else pass
  if phase == disconnected
      then check_statuses rolled_back "disconnected journal contains an owned entry" entries
      else pass

-- `Journal.Validate`
unfoldable pub validate_journal : Journal → Check
validate_journal j = do
  reject_if (not (j.schema_version == journal_schema_version)) "unsupported journal schema"
  context "invalid journal plan" (validate_plan j.plan)
  reject_if (not (j.session_id == j.plan.session_id) || not (j.owner_uid == j.plan.owner_uid))
      "journal identity does not match its plan"
  reject_if (not (valid_phase j.phase)) "invalid journal phase"
  reject_if (j.created_at == 0 || ltb j.updated_at j.created_at) "journal timestamps are invalid"
  validate_preimages j
  check_device j.device
  reject_if (ltb (length (expected_kinds j.plan)) (length j.entries))
      "journal contains too many transaction entries"
  check_entries j.phase (expected_kinds j.plan) 0 j.entries
  check_device_entry j.device j.entries
  check_endpoint_entry j.plan j.entries
  check_tunnel_entries j.plan j.device j.entries
  check_phase j.phase (length (expected_kinds j.plan)) j.device j.entries
