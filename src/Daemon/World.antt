-- ===== src/Daemon/World.antt =====
-- What internal/helperdaemon/daemon.go calls: the controller, the route, DNS and device managers, its
-- sockets and files, and the clock. Any call may fail.
use nordmac.Base.{ℕ, Bool, true, false, Option, none, some, Text, Error, Outcome, ok, err, ℤ}
use nordmac.Base.Actions.{Action}
use nordmac.Base.Calls
use nordmac.Base.Calls.{perform}
use nordmac.Netip.{Prefix}
use nordmac.Tunnel.Types.{Plan, Route, RouteSnapshot, DnsConfig, DnsSnapshot, Journal}
use nordmac.Helper.Protocol.{Request, Response}
use nordmac.Helper.Frames.{Codec, Reader}
use nordmac.Store.Info.{Info}
use nordmac.Devices.Manager.{Snapshot}

-- `/var/run/nordmac`, `/var/db/nordmac`, and the state directory and the socket of a user in them.
pub data Place : Type 0 where
  runtime_root state_root : Place
  state_directory socket : ℤ → Place

pub data Call : Type 0 where
  connect_tunnel : Plan → Call
  disconnect_tunnel : Text → ℤ → Call
  snapshot_routes : Call
  lookup_route : Prefix → Call
  snapshot_dns : DnsConfig → Call
  snapshot_device : Text → Call
  ping : Call
  mkdir chmod : Place → ℕ → Call
  lstat listen remove : Place → Call
  chown : Place → ℤ → Call
  accept set_deadline close_listener set_connection_deadline close_connection : Call
  authorize_peer : ℤ → Call
  write_response : Response → Call

abbrev pub History : Type 0
History = Calls.History Call

-- What the calls answer by those before them. `codec` is the JSON form of requests, `sudo_uid` is the
-- number in SUDO_UID, and `connected` the journal that `Controller.Connect` returns.
pub record World : Type 0 where
  pub fails : History → Call → Option Error
  pub connected : History → Plan → Journal
  pub routes : History → RouteSnapshot
  pub exact : History → Prefix → Option Route
  pub dns : History → DnsConfig → DnsSnapshot
  pub device : History → Text → Snapshot
  pub info : History → Place → Info
  pub is_socket : History → Place → Bool
  pub input : Reader
  pub incoming : History → Reader
  pub codec : Codec Request
  pub clock : History → ℕ
  pub cancelled : History → Option Error
  pub is_timeout : Error → Bool
  pub geteuid : ℕ
  pub sudo_uid : Option ℤ

abbrev pub Tx : Type 0 → Type 0
Tx A = Action History A

abbrev pub result_of : Option Error → Outcome (Unit {0})
result_of none = ok tt
result_of (some e) = err e

abbrev pub is_nil : Option Error → Bool
is_nil none = true
is_nil (some e) = false

module _ (w : World) where
  abbrev pub do_call : Call → Tx (Unit {0})
  do_call = perform w.fails
