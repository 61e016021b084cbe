-- ===== src/Tunnel/Safety/Connect.antt =====
-- The steps of `Controller.Connect` after the journal is created and the write-ahead invariant
-- (internal/tunnel/controller.go).
use nordmac.Base.{Bool, true, false, Option, none, List, [], ◌∷◌, ◌≡◌, refl}
use nordmac.Base.Triples.{
  Triple, Triple-pure, Triple-bind, Triple-gets, Triple-map_error, Triple-lift,
}
use nordmac.Tunnel.Types.{
  connected, device_step, dns_step, endpoint_route_step, tunnel_route_step, Plan, Route,
  DeviceHandle, Journal,
}
use nordmac.Tunnel.Plan.{endpoint_route, tunnel_routes, uses_dns, dns_config, validate_handle}
use nordmac.Tunnel.Panics.{validate_handle-ne-panic}
use nordmac.Tunnel.Journal.{bind_device}
use nordmac.Tunnel.World.{
  Call, create_device, apply_dns, verify, dns, verifier, caller_context, World, State, perform,
}
use nordmac.Tunnel.Connect.{
  device_spec, with_device, kind_entry, add_tunnel_routes, create_tunnel_device, apply_tunnel_dns,
  verify_tunnel, establish,
}
use nordmac.Tunnel.Safety.Host.{Resource, device, taken, disk_after, IsSaved}
use nordmac.Tunnel.Safety.Lemmas.{did, Triple-perform, did-quiet}
use nordmac.Tunnel.Safety.Steps.{
  HasCommon, Ready, StandsAt, Triple-record_intent, Triple-take, Triple-mark_applied,
  Triple-apply_route, Triple-set_phase, Triple-edit,
}

module _ (w : World) (here : HasCommon w) where
  Triple-add_tunnel_routes :
      (d : DeviceHandle) (rs : List Route)
      → Triple (Ready w) (add_tunnel_routes w d rs) (λ _. Ready w) (λ _. Ready w)
  unfolding add_tunnel_routes
  Triple-add_tunnel_routes d [] = Triple-pure tt (λ s r. r)
  Triple-add_tunnel_routes d (r ∷ rs) =
      Triple-bind
        (Triple-apply_route w here caller_context tunnel_route_step (bind_device d.interface r)
          (λ q. cc) refl)
        λ _. Triple-add_tunnel_routes d rs

  Triple-create_tunnel_device :
      (plan : Plan) → Triple (Ready w) (create_tunnel_device w plan) (λ _. Ready w) (λ _. Ready w)
  unfolding create_tunnel_device
  Triple-create_tunnel_device plan =
      Triple-bind (Triple-record_intent w here caller_context (kind_entry device_step) (λ q. cc))
        λ i.
          Triple-bind {Q = λ _ s. Ready w s × IsSaved s × StandsAt i (kind_entry device_step) s}
            (Triple-gets _ (λ s h. h))
            λ d.
              Triple-bind
                (Triple-map_error _ _ (
                  Triple-take w here caller_context (create_device (device_spec plan)) device i
                    (kind_entry device_step) here.devices_here refl (λ _ _. refl) refl (λ q. cc)))
                λ _.
                  Triple-bind {Q = λ _ s. Ready w s × StandsAt i (kind_entry device_step) s}
                    (Triple-map_error _ _ (
                      Triple-lift (validate_handle d) (validate_handle-ne-panic d) (λ _ s _ h. h)
                        (λ _ s _ h. h.0)))
                    λ _.
                      Triple-bind {Q = λ _ s. Ready w s × StandsAt i (kind_entry device_step) s}
                        (Triple-edit (with_device d) (λ s h. h))
                        λ _.
                          Triple-bind
                            (Triple-mark_applied w here caller_context i (kind_entry device_step))
                            λ _. Triple-pure d (λ s h. h)

  Triple-apply_tunnel_dns :
      (b : Bool) (plan : Plan)
      → (b ≡ true → w.has dns ≡ true)
      → Triple (Ready w) (apply_tunnel_dns w b plan) (λ _. Ready w) (λ _. Ready w)
  unfolding apply_tunnel_dns
  Triple-apply_tunnel_dns false plan sup = Triple-pure tt (λ s h. h)
  Triple-apply_tunnel_dns true plan sup =
      Triple-bind (Triple-record_intent w here caller_context (kind_entry dns_step) (λ _. sup refl))
        λ i.
          Triple-bind
            (Triple-map_error _ _ (
              Triple-take w here caller_context (apply_dns (dns_config plan)) Resource.dns i
                (kind_entry dns_step) (sup refl) refl (λ _ _. refl) refl (λ q. cc)))
            λ _. Triple-mark_applied w here caller_context i (kind_entry dns_step)

  -- A call that takes nothing and writes nothing.
  quiet :
      (s : State) (call : Call) (b : Bool)
      → taken call ≡ none
      → ((cs : List (Option Journal)) → disk_after call b cs ≡ cs)
      → Ready w s
      → Ready w (did caller_context call b s)
  quiet s call b q same r = record {
    logged = did-quiet caller_context call b s q same r.logged;
    supported = r.supported;
  }

  Triple-verify_tunnel :
      w.has verifier ≡ true → Triple (Ready w) (verify_tunnel w) (λ _. Ready w) (λ _. Ready w)
  unfolding verify_tunnel
  Triple-verify_tunnel has = record {
    at = λ s r.
        (Triple-map_error {P = λ t. t ≡ s} {Q = λ _. Ready w} {E = λ _. Ready w} _
            (perform w caller_context (verify s.journal))
            (Triple-perform w caller_context (verify s.journal) has
              (λ t e. rw e (quiet s (verify s.journal) true refl (λ _. refl) r))
              (λ t e _. rw e (quiet s (verify s.journal) false refl (λ _. refl) r)))).at
          s refl;
  }

  pub Triple-establish :
      (plan : Plan)
      → w.has verifier ≡ true
      → (uses_dns plan ≡ true → w.has dns ≡ true)
      → Triple (Ready w) (establish w plan) (λ _. Ready w) (λ _. Ready w)
  unfolding establish
  Triple-establish plan has sup =
      Triple-bind
        (Triple-apply_route w here caller_context endpoint_route_step (endpoint_route plan)
          (λ q. cc) refl)
        λ _. Triple-bind (Triple-create_tunnel_device plan) λ d.
          Triple-bind (Triple-add_tunnel_routes d (tunnel_routes plan)) λ _.
            Triple-bind (Triple-apply_tunnel_dns (uses_dns plan) plan sup) λ _.
              Triple-bind (Triple-verify_tunnel has)
                λ _. Triple-set_phase w here caller_context connected
