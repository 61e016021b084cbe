-- ===== src/Tunnel/Types.antt =====
-- The data types of internal/tunnel/model.go. A Go string type with named values is a data type with
-- one more constructor for any other string. An instant is a count of nanoseconds, 0 the zero time.
use nordmac.Base.{ℕ, Bool, Option, List, Text, ℤ, Eq, Text-discrete}
use nordmac.Netip.{Addr, Prefix, AddrPort, Addr-discrete, Prefix-discrete}

pub data Phase : Type 0 where
  disconnected connecting connected degraded disconnecting rollback_required : Phase
  foreign_conflict : Phase
  other_phase : Text → Phase

unfoldable pub Phase-discrete : Discrete Phase
unfolding Text-discrete
Phase-discrete = hlevel Text-discrete

instance abbrev pub phase_eq : Eq Phase
phase_eq = record { dec = Phase-discrete }

pub data StepKind : Type 0 where
  device_step endpoint_route_step tunnel_route_step dns_step : StepKind
  other_kind : Text → StepKind

unfoldable pub StepKind-discrete : Discrete StepKind
unfolding Text-discrete
StepKind-discrete = hlevel Text-discrete

instance abbrev pub kind_eq : Eq StepKind
kind_eq = record { dec = StepKind-discrete }

pub data RoutePolicy : Type 0 where
  scoped_ipv4 full_ipv4 : RoutePolicy
  other_policy : Text → RoutePolicy

pub data StepStatus : Type 0 where
  planned applied rolled_back : StepStatus
  other_status : Text → StepStatus

unfoldable pub StepStatus-discrete : Discrete StepStatus
unfolding Text-discrete
StepStatus-discrete = hlevel Text-discrete

instance abbrev pub status_eq : Eq StepStatus
status_eq = record { dec = StepStatus-discrete }

pub record Plan : Type 0 where
  pub session_id : Text
  pub owner_uid : ℤ
  pub endpoint : AddrPort
  pub physical_gateway : Addr
  pub physical_interface : Text
  pub tunnel_address : Prefix
  pub tunnel_mtu : ℤ
  pub tunnel_dns : List Addr
  pub dns_service : Text
  pub route_policy : RoutePolicy
  pub scoped_routes : List Prefix
  pub peer_fingerprint : Text

pub record Route : Type 0 where
  pub destination : Prefix
  pub gateway : Addr
  pub interface : Text
  pub reject : Bool

unfoldable pub Route-discrete : Discrete Route
unfolding Text-discrete Prefix-discrete Addr-discrete
Route-discrete = hlevel (Text-discrete, Prefix-discrete, Addr-discrete)

instance abbrev pub route_eq : Eq Route
route_eq = record { dec = Route-discrete }

pub record RouteSnapshot : Type 0 where
  pub default_route : Route

pub record ServiceDns : Type 0 where
  pub service_id : Text
  pub servers : List Addr
  pub search_domains : List Text

pub record DnsSnapshot : Type 0 where
  pub revision : Text
  pub services : List ServiceDns

-- `search_domains` is `none` for a nil slice.
pub record DnsConfig : Type 0 where
  pub service_id : Text
  pub servers : List Addr
  pub search_domains : Option (List Text)

pub record DeviceSpec : Type 0 where
  pub session_id : Text
  pub address : Prefix
  pub mtu : ℤ
  pub endpoint : AddrPort
  pub peer_fingerprint : Text

pub record DeviceHandle : Type 0 where
  pub interface : Text
  pub owner_pid : ℤ

pub record InterfaceAddress : Type 0 where
  pub interface : Text
  pub prefix : Prefix

pub record Entry : Type 0 where
  pub kind : StepKind
  pub status : StepStatus
  pub route : Option Route

pub record Journal : Type 0 where
  pub schema_version : ℤ
  pub session_id : Text
  pub owner_uid : ℤ
  pub phase : Phase
  pub plan : Plan
  pub route_before : RouteSnapshot
  pub dns_before : DnsSnapshot
  pub device : Option DeviceHandle
  pub entries : List Entry
  pub created_at : ℕ
  pub updated_at : ℕ
