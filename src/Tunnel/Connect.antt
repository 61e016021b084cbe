-- ===== src/Tunnel/Connect.antt =====
-- `Controller.Connect` (internal/tunnel/controller.go).
use nordmac.Base.{
  ℕ, Bool, true, false, not, ◌&&◌, ◌||◌, none, some, List, [], ◌∷◌, int_eq, text_eq, Error, Outcome,
  ok, err, panic, sentinel, wrap, join, Check, reject_if, Sentinel,
}
use nordmac.Tunnel.Types.{
  connecting, connected, phase_eq, StepKind, device_step, endpoint_route_step, tunnel_route_step,
  dns_step, planned, status_eq, Plan, Route, RouteSnapshot, DnsSnapshot, DeviceSpec, DeviceHandle,
  Entry, Journal,
}
use nordmac.Tunnel.Plan.{
  endpoint_route, tunnel_routes, uses_dns, dns_config, validate_plan, validate_handle,
}
use nordmac.Tunnel.Journal.{journal_schema_version, bind_device, validate_journal}
use nordmac.Tunnel.Phases.{validate_physical_preimage}
use nordmac.Base.Actions.{pure, lift, gets, ◌>>=◌, ◌>>◌, map_error, within, finally}
use nordmac.Tunnel.World.{
  acquire, release, check_conflicts, snapshot_routes, snapshot_dns, create_journal, create_device,
  apply_dns, verify, journals, locks, conflicts, devices, routes, dns, verifier, caller_context,
  rollback_context, World, perform, Tx, edit,
}
use nordmac.Tunnel.Zero.{zero_dns}
use nordmac.Tunnel.Steps.{Done, record_intent, mark_applied, apply_route, set_phase}
use nordmac.Tunnel.Rollback.{rollback}

abbrev pub device_spec : Plan → DeviceSpec
device_spec plan = record {
  session_id = plan.session_id;
  address = plan.tunnel_address;
  mtu = plan.tunnel_mtu;
  endpoint = plan.endpoint;
  peer_fingerprint = plan.peer_fingerprint;
}

abbrev pub with_device : DeviceHandle → Journal → Journal
with_device d j = record j { device = some d }

abbrev pub kind_entry : StepKind → Entry
kind_entry kind = record { kind = kind; status = planned; route = none }

module _ (w : World) where
  -- `controller.validateCommon`
  unfoldable pub validate_common : Check
  validate_common =
      reject_if
        (not (w.has journals)
          || not (w.has locks)
          || not (w.has conflicts)
          || not (w.has devices)
          || not (w.has routes)
          || not (w.has verifier))
        "tunnel controller dependencies are incomplete"

  -- `controller.validate`
  unfoldable pub validate_dependencies : Plan → Tx (Unit {0})
  validate_dependencies plan = do
    lift validate_common
    lift (
        reject_if (uses_dns plan && not (w.has dns))
          "tunnel controller DNS dependency is incomplete")

  -- The loop over `plan.TunnelRoutes()`.
  unfoldable pub add_tunnel_routes : DeviceHandle → List Route → Done
  add_tunnel_routes d [] = pure tt
  add_tunnel_routes d (r ∷ rs) = do
    apply_route w caller_context tunnel_route_step (bind_device d.interface r)
    add_tunnel_routes d rs

  unfoldable pub create_tunnel_device : Plan → Tx DeviceHandle
  create_tunnel_device plan = do
    index ← record_intent w caller_context (kind_entry device_step)
    d ← gets (λ s. w.new_device s.history (device_spec plan))
    within "create tunnel device" (perform w caller_context (create_device (device_spec plan)))
    within "create tunnel device" (lift (validate_handle d))
    edit (with_device d)
    mark_applied w caller_context index
    pure d

  unfoldable pub apply_tunnel_dns : Bool → Plan → Done
  apply_tunnel_dns false plan = pure tt
  apply_tunnel_dns true plan = do
    index ← record_intent w caller_context (kind_entry dns_step)
    within "apply tunnel DNS" (perform w caller_context (apply_dns (dns_config plan)))
    mark_applied w caller_context index

  unfoldable pub verify_tunnel : Done
  verify_tunnel s = within "verify tunnel" (perform w caller_context (verify s.journal)) s

  -- What `Connect` does after the journal is created. Every error of it goes through `fail`.
  unfoldable pub establish : Plan → Done
  establish plan = do
    apply_route w caller_context endpoint_route_step (endpoint_route plan)
    d ← create_tunnel_device plan
    add_tunnel_routes d (tunnel_routes plan)
    apply_tunnel_dns (uses_dns plan) plan
    verify_tunnel
    set_phase w caller_context connected

  abbrev pub after_rollback : Error → Outcome (Unit {0}) → Outcome (Unit {0})
  after_rollback e (ok _) = err e
  after_rollback e (err r) = err (join e r)
  after_rollback e panic = panic

  -- `fail`
  abbrev pub fail : Outcome (Unit {0}) → Done
  fail (ok _) s = (ok tt, s)
  fail (err e) s = let (r, t) = rollback w rollback_context s in (after_rollback e r, t)
  fail panic s = (panic, s)

  abbrev pub or_rollback : Done → Done
  or_rollback m s = let (r, s') = m s in fail r s'

  unfoldable pub take_dns : Bool → Plan → Tx DnsSnapshot
  take_dns false plan = pure zero_dns
  take_dns true plan = do
    before ← gets (λ s. w.dns_before s.history (dns_config plan))
    within "capture DNS pre-image" (perform w caller_context (snapshot_dns (dns_config plan)))
    pure before

  abbrev pub new_journal : Plan → RouteSnapshot → DnsSnapshot → ℕ → Journal
  new_journal plan before services now = record {
    schema_version = journal_schema_version;
    session_id = plan.session_id;
    owner_uid = plan.owner_uid;
    phase = connecting;
    plan = plan;
    route_before = before;
    dns_before = services;
    device = none;
    entries = [];
    created_at = now;
    updated_at = now;
  }

  -- From the conflict check to the created journal.
  unfoldable pub prepare : Plan → Tx Journal
  prepare plan = do
    map_error (λ e. wrap "conflict" (sentinel Sentinel.conflict))
        (perform w caller_context (check_conflicts plan))
    before ← gets (λ s. w.routes_before s.history)
    within "capture route pre-image" (perform w caller_context snapshot_routes)
    lift (validate_physical_preimage plan before)
    services ← take_dns (uses_dns plan) plan
    now ← gets (λ s. w.clock s.history)
    let j = new_journal plan before services now
    within "construct tunnel journal" (lift (validate_journal j))
    within "create tunnel journal" (perform w caller_context (create_journal j))
    pure j

  unfoldable pub connect_locked : Plan → Done
  connect_locked plan = do j ← prepare plan; edit (λ _. j); or_rollback (establish plan)

  -- `Controller.Connect`
  unfoldable pub connect : Plan → Done
  connect plan = do
    within "invalid tunnel plan" (lift (validate_plan plan))
    validate_dependencies plan
    within "acquire tunnel lock" (perform w caller_context (acquire plan.session_id))
    finally (within "release tunnel lock" (perform w caller_context (release plan.session_id)))
        (connect_locked plan)
