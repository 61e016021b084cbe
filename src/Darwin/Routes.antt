-- ===== src/Darwin/Routes.antt =====
-- `RouteManager` of internal/darwinnet/route.go: it adds a route where the host has none and removes
-- one only where the host still has it as planned.
use nordmac.Base.{
  Bool, true, false, not, ◌&&◌, ◌||◌, Option, none, some, List, [], ◌∷◌, Text, ◌==◌, nat_eq,
  text_eq, Error, message, wrap, sentinel, route_conflict, Outcome, ok, err, panic, Check,
  reject_if, context, Eq, if◌then◌else◌,
}
use nordmac.Base.Actions.{Action, pure, raise, lift, within, ◌>>=◌, ◌>>◌}
use nordmac.Netip.{Addr, zero_addr, v4, Prefix, addr_eq, prefix_eq}
use nordmac.Netip.Address
use nordmac.Netip.Prefixes
use nordmac.Strings.{ascii, includes}
use nordmac.Tunnel.Types.{Route, RouteSnapshot}
use nordmac.Tunnel.Plan.{validate_route}
use nordmac.Darwin.Dns.{Runner}
use nordmac.Darwin.Fields.{Fields, field, parse_route_fields, parse_route_prefix}

-- `netip.ParseAddr`, the `String` methods, `Error` of an error and `strings.ToLower`.
pub record Texts : Type 0 where
  pub parse_addr : Text → Option Addr
  pub addr_text : Addr → Text
  pub prefix_text : Prefix → Text
  pub error_text : Error → Text
  pub to_lower : Text → Text

instance abbrev pub bool_eq : Eq Bool
bool_eq = record { dec = hlevel }

abbrev pub is_host : Prefix → Bool
is_host d = Prefixes.bits d == Address.bit_len d.addr

abbrev pub family_of : Prefix → Text
family_of d = if Address.is_6 d.addr then ascii "-inet6" else ascii "-inet"

abbrev pub kind_of : Prefix → Text
kind_of d = if is_host d then ascii "-host" else ascii "-net"

-- The route differs from the planned one in what the manager compares.
unfoldable pub is_changed : Route → Route → Bool
is_changed current route =
    not (current.interface == route.interface)
    || not (current.reject == route.reject)
    || Address.is_valid route.gateway && not (current.gateway == route.gateway)

abbrev pub gateway_or_zero : Option Addr → Addr
gateway_or_zero none = zero_addr
gateway_or_zero (some a) = a

module _ (go : Texts) where
  abbrev pub destination_text : Prefix → Text
  destination_text d = if is_host d then go.addr_text d.addr else go.prefix_text d

  -- `routeMissing`
  abbrev pub route_missing : Error → Bool
  route_missing e =
      let lower = go.to_lower (go.error_text e) in
      includes lower (ascii "not in table")
      || includes lower (ascii "not found")
      || includes lower (ascii "no such process")

  -- The arguments of the lookup in `inspectExact`.
  abbrev pub get_arguments : Prefix → List Text
  get_arguments d = ascii "get" ∷ family_of d ∷ kind_of d ∷ destination_text d ∷ []

  abbrev rejecting : Bool → List Text
  rejecting true = ascii "-reject" ∷ []
  rejecting false = []

  -- `routeArguments`; its two operations are "add" and "delete".
  unfoldable pub route_arguments : Text → Route → Outcome (List Text)
  route_arguments operation route =
      let start = λ (rest : List Text).
        operation
        ∷ family_of route.destination
        ∷ kind_of route.destination
        ∷ destination_text route.destination
        ∷ rest in
      if not (operation == ascii "add") && not (operation == ascii "delete")
      then err (message "unsupported route operation")
      else if Address.is_valid route.gateway
      then (if route.interface == []
          then err (message "gateway route is missing its interface")
          else ok (start (go.addr_text route.gateway ∷ [])))
      else if route.interface == []
      then err (message "direct route is missing its interface")
      else ok (start (ascii "-interface" ∷ route.interface ∷ rejecting route.reject))

  abbrev pub valid_route : Route → Check → Outcome (Option Route)
  valid_route r (ok _) = ok (some r)
  valid_route r (err e) = err e
  valid_route r panic = panic

  -- The route that the fields describe.
  abbrev pub route_of : Fields → Prefix → Route
  route_of fs p = record {
    destination = p;
    gateway = gateway_or_zero (go.parse_addr (field fs (ascii "gateway")));
    interface = field fs (ascii "interface");
    reject = includes (field fs (ascii "flags")) (ascii "REJECT");
  }

  abbrev pub at_prefix : Fields → Prefix → Outcome Prefix → Outcome (Option Route)
  at_prefix fs d (ok p) =
      if p == d then valid_route (route_of fs p) (validate_route (route_of fs p)) else ok none
  at_prefix fs d (err e) = err (wrap "parse route" e)
  at_prefix fs d panic = panic

  -- What `inspectExact` makes of the output of the command.
  unfoldable pub found_in : Prefix → Text → Outcome (Option Route)
  found_in d output =
      let fs = parse_route_fields output in
      at_prefix fs d (parse_route_prefix go.parse_addr fs (Address.bit_len d.addr))

abbrev pub route_path : Text → Text
route_path path = if path == [] then ascii "/sbin/route" else path

module _ {S : Type 0} where
  -- `RouteManager.run`; a manager without a runner is `none`.
  unfoldable pub run_route : Option (Runner S) → Text → List Text → Action S Text
  run_route none path arguments = raise (message "Darwin route runner is missing")
  run_route (some r) path arguments = r (route_path path) (ascii "-n" ∷ arguments)

module _ {S : Type 0} (go : Texts) (runner : Option (Runner S)) (path : Text) where
  -- `RouteManager.inspectExact`
  abbrev pub inspected : Prefix → Outcome Text → Outcome (Option Route)
  inspected d (ok output) = found_in go d output
  inspected d (err e) = if route_missing go e then ok none else err (wrap "inspect route" e)
  inspected d panic = panic

  unfoldable pub inspect_exact : Prefix → Action S (Option Route)
  inspect_exact d s =
      let (o, t) = run_route runner path (get_arguments go d) s in (inspected d o, t)

  abbrev pub added : Route → Option Route → Action S (Unit {0})
  added route none = raise (sentinel route_conflict)
  added route (some current) =
      if is_changed current route then raise (sentinel route_conflict) else pure tt

  abbrev pub add_missing : Route → Option Route → Action S (Unit {0})
  add_missing route (some owned) = raise (wrap "already resolves" (sentinel route_conflict))
  add_missing route none = do
    arguments ← lift (route_arguments go (ascii "add") route)
    within "add route" (run_route runner path arguments)
    current ← within "verify added route" (inspect_exact route.destination)
    added route current

  -- `RouteManager.Add`
  unfoldable pub add : Route → Action S (Unit {0})
  add route = do
    lift (validate_route route)
    found ← inspect_exact route.destination
    add_missing route found

  abbrev pub remove_found : Route → Option Route → Action S (Unit {0})
  remove_found route none = pure tt
  remove_found route (some current) =
      if is_changed current route
      then raise (wrap "refuse to remove" (sentinel route_conflict))
      else do
        arguments ← lift (route_arguments go (ascii "delete") route)
        within "delete route" (run_route runner path arguments)
        pure tt

  -- `RouteManager.Remove`
  unfoldable pub remove : Route → Action S (Unit {0})
  remove route = do
    lift (validate_route route)
    found ← inspect_exact route.destination
    remove_found route found

  -- `RouteManager.LookupExact`
  unfoldable pub lookup_exact : Prefix → Action S (Option Route)
  lookup_exact d = do
    lift (
        reject_if (not (Prefixes.is_valid d) || not (d == Prefixes.masked d))
          "invalid exact route lookup")
    inspect_exact d

  abbrev default_route : Fields → Option Addr → Outcome Route
  default_route fs (some (v4 n)) = ok (record {
    destination = Prefixes.from (v4 0) 0;
    gateway = v4 n;
    interface = field fs (ascii "interface");
    reject = false;
  })
  default_route fs _ = err (message "IPv4 default route has no numeric gateway")

  -- `RouteManager.Snapshot`
  unfoldable pub snapshot : Action S RouteSnapshot
  snapshot = do
    output ←
        within "inspect IPv4 default route"
          (run_route runner path (ascii "get" ∷ ascii "-inet" ∷ ascii "default" ∷ []))
    let fs = parse_route_fields output
    route ← lift (default_route fs (go.parse_addr (field fs (ascii "gateway"))))
    lift (context "invalid IPv4 default route" (validate_route route))
    pure (record { default_route = route })
