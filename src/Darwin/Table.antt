-- ===== src/Darwin/Table.antt =====
-- The routes of a host, and what the commands of `route` that internal/darwinnet/route.go runs do to
-- them, by the words of the command.
use nordmac.Base.{
  Bool, true, false, not, ◌&&◌, ◌||◌, Option, none, some, List, [], ◌∷◌, Text, String, nat_eq,
  text_eq, ==-true, Error, message, Outcome, ok, err, panic, Check, ◌≡◌, ◌≢◌, ◌⊎◌, inl, inr, refl,
  sym, ap, ◌∙◌, ite, if◌then◌else◌,
}
use nordmac.Base.Triples.{Triple, ok-injective}
use nordmac.Netip.{addr_eq, Prefix, prefix_eq, Prefix-discrete}
use nordmac.Netip.Address
use nordmac.Netip.Prefixes
use nordmac.Strings.{ascii, includes}
use nordmac.Tunnel.Types.{Route}
use nordmac.Tunnel.Plan.{validate_route}
use nordmac.Darwin.Dns.{Runner}
use nordmac.Darwin.Fields.{field, parse_route_fields, parse_route_prefix}
use nordmac.Darwin.Routes.{
  Texts, bool_eq, is_changed, route_missing, route_arguments, found_in, family_of, kind_of, is_host,
  destination_text, gateway_or_zero, valid_route, route_of, at_prefix,
}

-- These words of a command name the destination: its family, and the network or its only address.
abbrev pub Names : Texts → Prefix → Text → Text → Text → Type 0
Names go d family kind t =
    (((family ≡ ascii "-inet") × (Address.is_6 d.addr ≡ false))
      ⊎ ((family ≡ ascii "-inet6") × (Address.is_6 d.addr ≡ true)))
    × (((kind ≡ ascii "-net") × (t ≡ go.prefix_text d))
        ⊎ ((kind ≡ ascii "-host")
            × (t ≡ go.addr_text d.addr)
            × (Prefixes.bits d ≡ Address.bit_len d.addr)))

-- The error says that there is no such route.
abbrev pub IsMissing : Texts → Error → Type 0
IsMissing go e =
    (includes (go.to_lower (go.error_text e)) (ascii "not in table") ≡ true)
    ⊎ (includes (go.to_lower (go.error_text e)) (ascii "not found") ≡ true)
    ⊎ (includes (go.to_lower (go.error_text e)) (ascii "no such process") ≡ true)

-- The route whose gateway, interface and flags are printed.
abbrev pub printed_route : Texts → Prefix → Text → Route
printed_route go d out = record {
  destination = d;
  gateway = gateway_or_zero (go.parse_addr (field (parse_route_fields out) (ascii "gateway")));
  interface = field (parse_route_fields out) (ascii "interface");
  reject = includes (field (parse_route_fields out) (ascii "flags")) (ascii "REJECT");
}

-- A lookup of this destination prints the route that holds for it. It is the route of the destination
-- itself when that is the printed prefix; when the prefix is another one, the table has none.
abbrev pub Prints : Texts → Prefix → Option Route → Text → Type 0
Prints go d entry out =
    (p : Prefix)
    → parse_route_prefix go.parse_addr (parse_route_fields out) (Address.bit_len d.addr) ≡ ok p
    → (p ≢ d → entry ≡ none) × (p ≡ d → entry ≡ some (printed_route go d out))

-- `route` on a host with a table of routes. A lookup changes nothing and prints what is in the table;
-- when its error says that the route is missing, the table has none. An addition and a deletion
-- change at most the destination that their words name, and a deletion that succeeds has deleted it.
pub record RoutingTable {S : Type 0} (go : Texts) (r : Runner S) (path : Text) : Type 0 where
  pub table : S → Prefix → Option Route
  pub reads :
      (d : Prefix) (family kind t : Text) (s : S)
      → Names go d family kind t
      → Triple
          (λ u. u ≡ s)
          (r path (ascii "-n" ∷ ascii "get" ∷ family ∷ kind ∷ t ∷ []))
          (λ out u. (u ≡ s) × Prints go d (table s d) out)
          (λ e u. (u ≡ s) × (IsMissing go e → table s d ≡ none))
  pub adds :
      (d : Prefix) (family kind t : Text) (rest : List Text) (s : S)
      → Names go d family kind t
      → Triple
          (λ u. u ≡ s)
          (r path (ascii "-n" ∷ ascii "add" ∷ family ∷ kind ∷ t ∷ rest))
          (λ _ u. (y : Prefix) → y ≢ d → table u y ≡ table s y)
          (λ _ u. (y : Prefix) → y ≢ d → table u y ≡ table s y)
  pub deletes :
      (d : Prefix) (family kind t : Text) (rest : List Text) (s : S)
      → Names go d family kind t
      → Triple
          (λ u. u ≡ s)
          (r path (ascii "-n" ∷ ascii "delete" ∷ family ∷ kind ∷ t ∷ rest))
          (λ _ u. (table u d ≡ none) × ((y : Prefix) → y ≢ d → table u y ≡ table s y))
          (λ _ u. (y : Prefix) → y ≢ d → table u y ≡ table s y)

-- The route has the planned interface and rejection, and the planned gateway if one is planned.
abbrev pub Agrees : Route → Route → Type 0
Agrees current route =
    (current.interface ≡ route.interface)
    × (current.reject ≡ route.reject)
    × (Address.is_valid route.gateway ≡ true → current.gateway ≡ route.gateway)

or_false : (a b : Bool) → (a || b) ≡ false → (a ≡ false) × (b ≡ false)
or_false false false h = (refl, refl)
or_false false true h = cc
or_false true b h = cc

not-false : (a : Bool) → not a ≡ false → a ≡ true
not-false true h = refl
not-false false h = cc

and-not : (a b : Bool) → (a && not b) ≡ false → a ≡ true → b ≡ true
and-not true true h e = refl
and-not true false h e = cc
and-not false b h e = cc

-- What the manager takes for unchanged is as planned.
pub is_changed-Agrees : (c route : Route) → is_changed c route ≡ false → Agrees c route
unfolding is_changed
is_changed-Agrees c route h =
    let (h', k) = or_false _ _ h in
    let (i, j) = or_false _ _ h' in
    (
      ==-true c.interface route.interface (not-false _ i),
      ==-true c.reject route.reject (not-false _ j),
      λ v. ==-true c.gateway route.gateway (and-not _ _ k v),
    )

module _ (go : Texts) where
  -- The words that the manager writes name the destination.
  pub destination-Names :
      (d : Prefix) → Names go d (family_of d) (kind_of d) (destination_text go d)
  destination-Names d = (family (Address.is_6 d.addr) refl, kind (is_host d) refl)
    where
      family :
          (b : Bool)
          → Address.is_6 d.addr ≡ b
          → (((if b then ascii "-inet6" else ascii "-inet") ≡ ascii "-inet")
              × (Address.is_6 d.addr ≡ false))
            ⊎ (((if b then ascii "-inet6" else ascii "-inet") ≡ ascii "-inet6")
                × (Address.is_6 d.addr ≡ true))
      family true e = inr (refl, e)
      family false e = inl (refl, e)

      kind :
          (b : Bool)
          → is_host d ≡ b
          → (((if b then ascii "-host" else ascii "-net") ≡ ascii "-net")
              × ((if b then go.addr_text d.addr else go.prefix_text d) ≡ go.prefix_text d))
            ⊎ (((if b then ascii "-host" else ascii "-net") ≡ ascii "-host")
                × ((if b then go.addr_text d.addr else go.prefix_text d) ≡ go.addr_text d.addr)
                × (Prefixes.bits d ≡ Address.bit_len d.addr))
      kind true e = inr (refl, refl, ==-true _ _ e)
      kind false e = inl (refl, refl)

  pub route_missing-IsMissing : (e : Error) → route_missing go e ≡ true → IsMissing go e
  route_missing-IsMissing e h = found _ _ _ h
    where
      found : (a b c : Bool) → (a || b || c) ≡ true → (a ≡ true) ⊎ (b ≡ true) ⊎ (c ≡ true)
      found true b c h = inl refl
      found false true c h = inr (inl refl)
      found false false true h = inr (inr refl)
      found false false false h = cc

  -- What the manager reads in what is printed is in the table.
  pub found_in-entry :
      (d : Prefix) (entry : Option Route) (out : Text) (o : Option Route)
      → Prints go d entry out
      → found_in go d out ≡ ok o
      → entry ≡ o
  unfolding found_in
  found_in-entry d entry out o prints h =
      by_prefix (parse_route_prefix go.parse_addr (parse_route_fields out) (Address.bit_len d.addr))
        prints h
    where
      valid : (c : Route) (k : Check) → valid_route go c k ≡ ok o → some c ≡ o
      valid c (ok u) e = ok-injective _ _ e
      valid c (err x) e = cc
      valid c panic e = cc

      by_prefix :
          (q : Outcome Prefix)
          → ((p : Prefix)
              → q ≡ ok p
              → (p ≢ d → entry ≡ none) × (p ≡ d → entry ≡ some (printed_route go d out)))
          → at_prefix go (parse_route_fields out) d q ≡ ok o
          → entry ≡ o
      by_prefix (err e) k g = cc
      by_prefix panic k g = cc
      by_prefix (ok p) k g = decided (Prefix-discrete p d) (k p refl) g
        where
          decided :
              (c : Dec (p ≡ d))
              → (p ≢ d → entry ≡ none) × (p ≡ d → entry ≡ some (printed_route go d out))
              → (if ite c true false
                  then valid_route go
                      (route_of go (parse_route_fields out) p)
                      (validate_route (route_of go (parse_route_fields out) p))
                  else ok none)
                ≡ ok o
              → entry ≡ o
          decided (no n) (other, same) g' = other n ∙ ok-injective _ _ g'
          decided (yes e) (other, same) g' =
              same e
              ∙ ap (λ z. some (printed_route go z out)) (sym e)
              ∙ valid (route_of go (parse_route_fields out) p) _ g'

  -- The arguments of an addition or a deletion.
  abbrev pub BuiltFor : Text → Route → Outcome (List Text) → Type 0
  BuiltFor op route o =
      (as' : List Text)
      → o ≡ ok as'
      → (rest : List Text) × (as'
          ≡ op
            ∷ family_of route.destination
            ∷ kind_of route.destination
            ∷ destination_text go route.destination
            ∷ rest)

  module _ (op : Text) (route : Route) where
    either :
        (b : Bool) (x y : Outcome (List Text))
        → BuiltFor op route x
        → BuiltFor op route y
        → BuiltFor op route (if b then x else y)
    either true x y p q = p
    either false x y p q = q

    refused : (m : String) → BuiltFor op route (err (message m))
    refused m as' h = cc

    begun :
        (rest : List Text)
        → BuiltFor op route (
            ok (
              op
              ∷ family_of route.destination
              ∷ kind_of route.destination
              ∷ destination_text go route.destination
              ∷ rest))
    begun rest as' h = (rest, sym (ok-injective _ _ h))

    pub built_for : BuiltFor op route (route_arguments go op route)
    unfolding route_arguments
    built_for = search (either, refused, begun) depth 12
