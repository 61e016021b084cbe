-- ===== src/Darwin/Free.antt =====
-- The conflict check of internal/darwinnet/conflict.go on the route manager of route.go.
use nordmac.Base.{none, some, List, [], ◌∷◌, Text, pass, All, ◌≡◌, refl, reject_if-ne-panic}
use nordmac.Base.Triples.{Triple, Triple-lift, Triple-bind, Post-ok}
use nordmac.Netip.{Prefix}
use nordmac.Tunnel.Types.{Plan, Route, full_ipv4}
use nordmac.Tunnel.Plan.{tunnel_routes}
use nordmac.Darwin.Dns.{Runner}
use nordmac.Darwin.Routes.{Texts, route_path, lookup_exact, snapshot}
use nordmac.Darwin.Table.{RoutingTable}
use nordmac.Darwin.Owned.{Triple-inspect_exact}
use nordmac.Darwin.Conflicts.{RouteQueries, check, IsFree, check-IsFree}

module _ {S : Type 0} (go : Texts) (r : Runner S) (path : Text)
    (net : RoutingTable go r (route_path path)) where
  -- What the route manager answers on a host.
  abbrev pub queries : S → RouteQueries
  queries s = record {
    snapshot = (snapshot go (some r) path s).0;
    lookup_exact = λ d. (lookup_exact go (some r) path d s).0;
  }

  -- An exact lookup that is answered is answered from the table.
  Triple-lookup_exact :
      (d : Prefix) (s : S)
      → Triple
          (λ t. t ≡ s)
          (lookup_exact go (some r) path d)
          (λ o t. (t ≡ s) × (net.table s d ≡ o))
          (λ _ t. t ≡ s)
  unfolding lookup_exact
  Triple-lookup_exact d s =
      Triple-bind (Triple-lift _ (reject_if-ne-panic _ _) (λ _ t _ h. h) (λ _ t _ h. h))
        λ _. Triple-inspect_exact go r path net d s

  IsFree-table : (s : S) (d : Prefix) → IsFree (queries s) d → net.table s d ≡ none
  IsFree-table s d h =
      (Post-ok _ _ (lookup_exact go (some r) path d s).0 (lookup_exact go (some r) path d s).1 none
        ((Triple-lookup_exact d s).at s refl) h).1

  All-table :
      (s : S) (rs : List Route)
      → All (λ x. IsFree (queries s) x.destination) rs
      → All (λ x. net.table s x.destination ≡ none) rs
  All-table s [] h = tt
  All-table s (x ∷ rs) (h, hs) = (IsFree-table s x.destination h, All-table s rs hs)

  -- When the conflict check passes for a plan of full IPv4 routing on the answers of the route
  -- manager, the table of routes of the host has no route with the destination of a tunnel route.
  pub check-table :
      (plan : Plan) (s : S)
      → plan.route_policy ≡ full_ipv4
      → check (queries s) plan ≡ pass
      → All (λ x. net.table s x.destination ≡ none) (tunnel_routes plan)
  check-table plan s full passed =
      All-table s (tunnel_routes plan) (check-IsFree (queries s) plan full passed)
