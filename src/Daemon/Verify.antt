-- ===== src/Daemon/Verify.antt =====
-- `fullVerifier` of internal/helperdaemon/daemon.go: the routes and the DNS of the tunnel, and a fresh
-- handshake.
use nordmac.Base.{
  ℕ, zero, suc, String, ◌+◌, ltb, Bool, true, false, not, ◌&&◌, ◌||◌, Option, none, some, List, [],
  ◌∷◌, ◌==◌, text_eq, Error, Outcome, ok, err, panic, message, join, Check, pass, if◌then◌else◌,
}
use nordmac.Base.Actions.{pure, raise, lift, gets, attempt, ◌>>=◌, ◌>>◌}
use nordmac.Netip.{Addr, zero_addr, addr_eq}
use nordmac.Netip.Address
use nordmac.Tunnel.Types.{Route, ServiceDns, DeviceHandle, Journal}
use nordmac.Tunnel.Plan.{endpoint_route, tunnel_routes, dns_config}
use nordmac.Devices.Manager.{Snapshot}
use nordmac.Daemon.World.{
  snapshot_routes, lookup_route, snapshot_dns, snapshot_device, ping, World, Tx, do_call,
}

-- `err != nil || bad`, with `errors.Join(errors.New(m), err)`
abbrev pub refuse_if : String → Option Error → Bool → Check
refuse_if m none false = pass
refuse_if m none true = err (message m)
refuse_if m (some e) b = err (join (message m) e)

abbrev pub on_device : Option DeviceHandle → Route → Outcome Route
on_device none r = panic
on_device (some d) r = ok (record r { interface = d.interface })

-- The route that is looked for: one without a gateway is on the tunnel's device.
abbrev pub expected_of : Journal → Route → Outcome Route
expected_of j r = if not r.reject && r.gateway == zero_addr then on_device j.device r else ok r

abbrev pub same : Bool → Bool → Bool
same true b = b
same false b = not b

abbrev pub differs : Route → Option Route → Bool
differs expected none = true
differs expected (some current) =
    not (current.interface == expected.interface)
    || not (same current.reject expected.reject)
    || (Address.is_valid expected.gateway && not (current.gateway == expected.gateway))

-- `slices.Equal`
unfoldable pub same_servers : List Addr → List Addr → Bool
same_servers [] [] = true
same_servers (a ∷ as') (b ∷ bs) = a == b && same_servers as' bs
same_servers _ _ = false

abbrev pub is_sole : List Addr → List ServiceDns → Bool
is_sole servers (s ∷ []) = same_servers s.servers servers
is_sole servers _ = false

-- `Before(journal.CreatedAt.Add(-time.Second))`, in nanoseconds
abbrev pub is_fresh : Journal → Snapshot → Bool
is_fresh j s =
    not (ltb (s.last_handshake + 1000000000) j.created_at)
    && ltb 0 s.transmitted
    && ltb 0 s.received

module _ (w : World) where
  unfoldable pub verify_routes : Journal → List Route → Tx (Unit {0})
  verify_routes j [] = pure tt
  verify_routes j (r ∷ rs) = do
    expected ← lift (expected_of j r)
    current ← gets (λ h. w.exact h expected.destination)
    e ← attempt (do_call w (lookup_route expected.destination))
    lift (refuse_if "planned route ownership verification failed" e (differs expected current))
    verify_routes j rs

  -- `verifyOwnership`
  unfoldable pub verify_ownership : Journal → Tx (Unit {0})
  verify_ownership j = do
    physical ← gets w.routes
    e ← attempt (do_call w snapshot_routes)
    let r = physical.default_route
    lift (
        refuse_if "physical default route changed" e (
          not (r.gateway == j.plan.physical_gateway)
          || not (r.interface == j.plan.physical_interface)))
    verify_routes j (endpoint_route j.plan ∷ tunnel_routes j.plan)
    dns ← gets (λ h. w.dns h (dns_config j.plan))
    f ← attempt (do_call w (snapshot_dns (dns_config j.plan)))
    lift (
        refuse_if "tunnel DNS verification failed" f (not (is_sole j.plan.tunnel_dns dns.services)))

  abbrev pub no_handshake : Error → Option Error → Error
  no_handshake cancelled none =
      join (message "no fresh bidirectional WireGuard handshake") cancelled
  no_handshake cancelled (some e) =
      join (message "no fresh bidirectional WireGuard handshake") (join cancelled e)

  -- What follows a snapshot that shows no fresh handshake: the context ends, or another round.
  abbrev pub wait_or : Option Error → Option Error → Tx Bool → Tx Bool
  wait_or (some c) e next = raise (no_handshake c e)
  wait_or none e next = next

  -- The loop of `Verify`, for at most this many rounds: `false` says that it still waits.
  unfoldable pub await_handshake : ℕ → Journal → Tx Bool
  await_handshake zero j = pure false
  await_handshake (suc n) j = do
    let rest = await_handshake n j
    attempt (do_call w ping)
    s ← gets (λ h. w.device h j.session_id)
    e ← attempt (do_call w (snapshot_device j.session_id))
    cancelled ← gets w.cancelled
    if is_fresh_now e s then pure true else wait_or cancelled e rest
    where
      is_fresh_now : Option Error → Snapshot → Bool
      is_fresh_now none s = is_fresh j s
      is_fresh_now (some e) s = false

  -- `Verify`
  unfoldable pub verify : ℕ → Journal → Tx Bool
  verify n j = do verify_ownership j; await_handshake n j
