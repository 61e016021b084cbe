-- ===== src/Darwin/Conflicts.antt =====
-- `ConflictChecker.Check` of internal/darwinnet/conflict.go, by what the route manager answers.
use nordmac.Base.{
  Bool, not, ◌||◌, Option, none, some, List, [], ◌∷◌, ◌==◌, text_eq, Text, take, Outcome, ok, err,
  panic, message, Check, pass, >>-pass, reject_if, ◌>>◌, if◌then◌else◌, ◌≡◌, refl, All, arith,
}
use nordmac.Netip.{Prefix, v4, v6, addr_eq}
use nordmac.Netip.Prefixes
use nordmac.Tunnel.Types.{
  Plan, RoutePolicy, scoped_ipv4, full_ipv4, other_policy, Route, RouteSnapshot,
}
use nordmac.Tunnel.Plan.{tunnel_routes, routes_of, is_full}

-- The queries of `RouteManager` as the checker calls them: an interface, which the manager's `snapshot`
-- and `lookup_exact` fill in Darwin.Free.
pub record RouteQueries : Type 0 where
  pub snapshot : Outcome RouteSnapshot
  pub lookup_exact : Prefix → Outcome (Option Route)

-- "utun"
abbrev pub utun : Text
utun = b'u' ∷ b't' ∷ b'u' ∷ b'n' ∷ []

abbrev pub absent_or_conflict : Outcome (Option Route) → Check
absent_or_conflict (ok none) = pass
absent_or_conflict (ok (some r)) = err (message "split default already exists")
absent_or_conflict (err e) = err e
absent_or_conflict panic = panic

-- The prefixes that must be free.
abbrev pub split_defaults : Bool → List Prefix
split_defaults full =
    Prefixes.from (v4 0) 1
    ∷ Prefixes.from (v4 0x8000_0000) 1
    ∷ (if full
        then Prefixes.from (v6 0 []) 1
          ∷ Prefixes.from (v6 0x8000_0000_0000_0000_0000_0000_0000_0000 []) 1
          ∷ []
        else [])

module _ (routes : RouteQueries) where
  -- The loop over the prefixes.
  unfoldable pub check_free : List Prefix → Check
  check_free [] = pass
  check_free (p ∷ ps) = absent_or_conflict (routes.lookup_exact p) >> check_free ps

  unfoldable pub check_snapshot : Plan → Outcome RouteSnapshot → Check
  check_snapshot plan (err e) = err e
  check_snapshot plan panic = panic
  check_snapshot plan (ok s) = do
    let r = s.default_route
    reject_if (take 4 r.interface == utun) "default route is already owned by a utun interface"
    reject_if
        (not (r.gateway == plan.physical_gateway) || not (r.interface == plan.physical_interface))
        "physical default route changed before conflict check"
    check_free (split_defaults (is_full plan.route_policy))

  -- `ConflictChecker.Check`
  unfoldable pub check : Plan → Check
  check plan = check_snapshot plan routes.snapshot

  -- No route has this destination.
  abbrev pub IsFree : Prefix → Type 0
  IsFree p = routes.lookup_exact p ≡ ok none

  check_free-IsFree : (ps : List Prefix) → check_free ps ≡ pass → All IsFree ps
  unfolding check_free
  check_free-IsFree [] h = tt
  check_free-IsFree (p ∷ ps) h =
      let (a, b) = >>-pass _ _ h in (free (routes.lookup_exact p) a, check_free-IsFree ps b)
    where
      free : (o : Outcome (Option Route)) → absent_or_conflict o ≡ pass → o ≡ ok none
      free (ok none) a = refl
      free (ok (some r)) a = ground (arith, a)
      free (err e) a = ground (arith, a)
      free panic a = cc

  check_snapshot-IsFree :
      (plan : Plan) (o : Outcome RouteSnapshot)
      → check_snapshot plan o ≡ pass
      → All IsFree (split_defaults (is_full plan.route_policy))
  unfolding check_snapshot
  check_snapshot-IsFree plan (err e) h = ground (arith, h)
  check_snapshot-IsFree plan panic h = cc
  check_snapshot-IsFree plan (ok s) h =
      let (a, rest) = >>-pass _ _ h in let (b, free) = >>-pass _ _ rest in check_free-IsFree _ free

  -- When the conflict check passes for a plan of full IPv4 routing, the exact lookup of the destination
  -- of each tunnel route of the plan has found no route.
  pub check-IsFree :
      (plan : Plan)
      → plan.route_policy ≡ full_ipv4
      → check plan ≡ pass
      → All (λ r. IsFree r.destination) (tunnel_routes plan)
  unfolding check tunnel_routes
  check-IsFree plan full h =
      by_policy plan.route_policy plan.scoped_routes full
        (check_snapshot-IsFree plan routes.snapshot h)
    where
      by_policy :
          (p : RoutePolicy) (scoped : List Prefix)
          → p ≡ full_ipv4
          → All IsFree (split_defaults (is_full p))
          → All (λ r. IsFree r.destination) (routes_of p scoped)
      by_policy full_ipv4 scoped e free = free
      by_policy scoped_ipv4 scoped e free = cc
      by_policy (other_policy t) scoped e free = cc
