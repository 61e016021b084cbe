-- ===== src/Darwin/Tests.antt =====
-- The conflict check on a host without split defaults.
use nordmac.Base.{none, ok, pass, ◌≡◌, refl, reject_if, ◌>>◌, Text-discrete, ℕ_discrete}
use nordmac.Netip.{Addr-discrete}
use nordmac.Tunnel.Examples.{full_plan, host_route}
use nordmac.Darwin.Conflicts.{RouteQueries, check_free, check_snapshot, check}

abbrev free_host : RouteQueries
free_host = record {
  snapshot = ok (record { default_route = host_route });
  lookup_exact = λ p. ok none;
}

free_host_passes : check free_host full_plan ≡ pass
unfolding check check_snapshot check_free reject_if ◌>>◌ Text-discrete ℕ_discrete Addr-discrete
free_host_passes = refl
