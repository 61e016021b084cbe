-- ===== src/Tunnel/Phases.antt =====
-- The pure checks of internal/tunnel/controller.go: phase transitions and the physical route.
use nordmac.Base.{
  Bool, not, ◌||◌, List, [], ◌∷◌, ◌==◌, text_eq, contains, Check, reject_if, context, ◌>>◌,
}
use nordmac.Netip.{addr_eq, prefix_eq}
use nordmac.Tunnel.Types.{
  Phase, disconnected, connecting, connected, degraded, disconnecting, rollback_required,
  foreign_conflict, phase_eq, Plan, RouteSnapshot,
}
use nordmac.Tunnel.Plan.{validate_route}
use nordmac.Tunnel.Journal.{default_destination}

-- The table of `allowedTransition`.
abbrev pub transitions : Phase → List Phase
transitions connecting = connected ∷ disconnecting ∷ rollback_required ∷ []
transitions connected = degraded ∷ disconnecting ∷ rollback_required ∷ []
transitions degraded = disconnecting ∷ rollback_required ∷ []
transitions disconnecting = disconnected ∷ rollback_required ∷ []
transitions rollback_required = disconnecting ∷ []
transitions foreign_conflict = disconnected ∷ []
transitions _ = []

unfoldable pub allowed_transition : Phase → Phase → Bool
unfolding contains
allowed_transition from to = contains (transitions from) to

-- `validatePhysicalPreimage`
unfoldable pub validate_physical_preimage : Plan → RouteSnapshot → Check
validate_physical_preimage plan snapshot = do
  let r = snapshot.default_route
  context "invalid physical route pre-image" (validate_route r)
  reject_if (not (r.destination == default_destination))
      "physical route pre-image does not contain the IPv4 default route"
  reject_if
      (not (r.gateway == plan.physical_gateway) || not (r.interface == plan.physical_interface))
      "physical route changed after planning; refusing stale endpoint pin"
