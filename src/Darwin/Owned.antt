-- ===== src/Darwin/Owned.antt =====
-- What `RouteManager.Add` and `Remove` of internal/darwinnet/route.go do to the routes of the host.
use nordmac.Base.{
  Bool, true, false, Option, none, some, ◌∷◌, Text, Outcome, ok, err, panic, wrap, ◌≡◌, ◌≢◌, ◌⊎◌,
  refl, if◌then◌else◌,
}
use nordmac.Base.Actions.{◌>>=◌, ◌>>◌}
use nordmac.Base.Triples.{Triple, Post}
use nordmac.Netip.{Prefix}
use nordmac.Strings.{ascii}
use nordmac.Tunnel.Types.{Route}
use nordmac.Darwin.Dns.{Runner}
use nordmac.Darwin.Routes.{
  Texts, route_missing, get_arguments, found_in, route_path, run_route, inspected, inspect_exact,
}
use nordmac.Darwin.Table.{
  IsMissing, Prints, RoutingTable, Agrees, destination-Names, route_missing-IsMissing,
  found_in-entry,
}
use nordmac.Darwin.Total.{found_in-ne-panic}

module _ {S : Type 0} (go : Texts) (r : Runner S) (path : Text)
    (net : RoutingTable go r (route_path path)) where
  -- The route of a prefix is there and as planned.
  abbrev pub IsPlanned : Route → S → Type 0
  IsPlanned route t = (c : Route) × (net.table t route.destination ≡ some c) × Agrees c route

  -- Nothing changed but the route of this one, and that only where it was as planned.
  abbrev pub KeepsForeign : Route → S → S → Type 0
  KeepsForeign route s t =
      (y : Prefix) → (net.table t y ≡ net.table s y) ⊎ ((y ≡ route.destination) × IsPlanned route s)

  -- Nothing changed but the route of this one, and that only where there was none.
  abbrev pub KeepsExisting : Route → S → S → Type 0
  KeepsExisting route s t =
      (y : Prefix)
      → (net.table t y ≡ net.table s y) ⊎ ((y ≡ route.destination) × (net.table s y ≡ none))

  -- What a lookup of the manager answers is in the table.
  pub Triple-inspect_exact :
      (d : Prefix) (s : S)
      → Triple
          (λ t. t ≡ s)
          (inspect_exact go (some r) path d)
          (λ o t. (t ≡ s) × (net.table s d ≡ o))
          (λ _ t. t ≡ s)
  unfolding inspect_exact run_route
  Triple-inspect_exact d s = record {
    at = λ t e.
        looked (r (route_path path) (ascii "-n" ∷ get_arguments go d) t).0 _
          ((net.reads d _ _ _ s (destination-Names go d)).at t e);
  }
    where
      answered :
          (out : Text) (t : S) (o : Outcome (Option Route))
          → o ≢ panic
          → t ≡ s
          → ((q : Option Route) → o ≡ ok q → net.table s d ≡ q)
          → Post (λ q u. (u ≡ s) × (net.table s d ≡ q)) (λ _ u. u ≡ s) o t
      answered out t (ok q) n e h = (e, h q refl)
      answered out t (err x) n e h = e
      answered out t panic n e h = n refl

      looked :
          (o : Outcome Text) (t : S)
          → Post
              (λ out u. (u ≡ s) × Prints go d (net.table s d) out)
              (λ x u. (u ≡ s) × (IsMissing go x → net.table s d ≡ none))
              o
              t
          → Post
              (λ q u. (u ≡ s) × (net.table s d ≡ q))
              (λ _ u. u ≡ s)
              (inspected go (some r) path d o)
              t
      looked (ok out) t (e, h) =
          answered out t (found_in go d out) (found_in-ne-panic go d out) e
            λ q f. found_in-entry go d (net.table s d) out q h f
      looked (err x) t (e, h) =
          missing (route_missing go x) (λ b. h (route_missing-IsMissing go x b))
        where
          missing :
              (b : Bool)
              → (b ≡ true → net.table s d ≡ none)
              → Post
                  (λ q u. (u ≡ s) × (net.table s d ≡ q))
                  (λ _ u. u ≡ s)
                  (if b then ok none else err (wrap "inspect route" x))
                  t
          missing true h = (e, h refl)
          missing false h = e
      looked panic t h = absurd h
