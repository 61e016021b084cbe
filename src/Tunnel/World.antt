-- ===== src/Tunnel/World.antt =====
-- The adapters of internal/tunnel/controller.go as a world that answers calls, and the monad of the
-- controller's methods. The world answers by the history of calls, so it may fail at any point; the
-- history is the whole of what the controller does to the host.
use nordmac.Base.{
  ℕ, Bool, true, false, Option, none, some, List, ◌∷◌, Text, if◌then◌else◌, Error, Outcome, ok, err,
  panic,
}
use nordmac.Base.Actions.{Action}
use nordmac.Tunnel.Types.{
  Plan, Route, RouteSnapshot, DnsSnapshot, DnsConfig, DeviceSpec, DeviceHandle, Journal,
}

-- The calls of the interfaces `JournalStore`, `Locker`, `ConflictChecker`, `DeviceManager`,
-- `RouteManager`, `DNSManager` and `Verifier`.
pub data Call : Type 0 where
  acquire release : Text → Call
  check_conflicts : Plan → Call
  snapshot_routes : Call
  snapshot_dns : DnsConfig → Call
  create_journal update_journal : Journal → Call
  load_journal delete_journal : Text → Call
  add_route remove_route : Route → Call
  create_device : DeviceSpec → Call
  delete_device : Text → Option DeviceHandle → Call
  apply_dns : DnsConfig → Call
  restore_dns : DnsSnapshot → DnsConfig → Call
  verify : Journal → Call

-- The fields of `Controller` that may be nil.
pub data Dependency : Type 0 where
  journals locks conflicts devices routes dns verifier : Dependency

abbrev pub depends_on : Call → Dependency
depends_on (acquire s) = locks
depends_on (release s) = locks
depends_on (check_conflicts p) = conflicts
depends_on snapshot_routes = routes
depends_on (snapshot_dns c) = dns
depends_on (create_journal j) = journals
depends_on (update_journal j) = journals
depends_on (load_journal s) = journals
depends_on (delete_journal s) = journals
depends_on (add_route r) = routes
depends_on (remove_route r) = routes
depends_on (create_device d) = devices
depends_on (delete_device s h) = devices
depends_on (apply_dns c) = dns
depends_on (restore_dns b c) = dns
depends_on (verify j) = verifier

-- The caller's context, and the one that `fail` makes by `WithoutCancel` and a new timeout.
pub data Context : Type 0 where
  caller_context rollback_context : Context

pub record Event : Type 0 where
  pub context : Context
  pub call : Call
  pub succeeded : Bool

-- The newest event stands first.
abbrev pub History : Type 0
History = List Event

-- `fails` gives the error of a call, or none; the other functions give the value of one that
-- succeeds. `has` says which fields of the controller are not nil.
pub record World : Type 0 where
  pub has : Dependency → Bool
  pub fails : History → Context → Call → Option Error
  pub routes_before : History → RouteSnapshot
  pub dns_before : History → DnsConfig → DnsSnapshot
  pub new_device : History → DeviceSpec → DeviceHandle
  pub stored : History → Text → Journal
  pub clock : History → ℕ

-- The journal that a method works on, and what has been done.
pub record State : Type 0 where
  pub journal : Journal
  pub history : History

abbrev pub Tx : Type 0 → Type 0
Tx A = Action State A

-- A change of the journal in memory.
unfoldable pub edit : (Journal → Journal) → Tx (Unit {0})
edit f s = (ok tt, record s { journal = f s.journal })

abbrev pub outcome_of : Option Error → Outcome (Unit {0})
outcome_of none = ok tt
outcome_of (some e) = err e

abbrev pub is_nil : Option Error → Bool
is_nil none = true
is_nil (some e) = false

-- One call; a call of a nil interface panics.
unfoldable pub perform : World → Context → Call → Tx (Unit {0})
perform w c call s =
    if w.has (depends_on call)
    then (
      outcome_of (w.fails s.history c call),
      record s {
        history =
            record { context = c; call = call; succeeded = is_nil (w.fails s.history c call) }
            ∷ s.history;
      },
    )
    else (panic, s)
