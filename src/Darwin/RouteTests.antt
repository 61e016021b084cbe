-- ===== src/Darwin/RouteTests.antt =====
-- `Add` and `Remove` on a host that can have one route, 10.0.0.0/8 through utun4.
use nordmac.Base.{
  Bool, true, false, Option, none, some, [], ◌∷◌, Text, ◌==◌, nat_eq, text_eq, Outcome, ok, err,
  message, Error, if◌then◌else◌, ite, ◌≡◌, ◌≢◌, ◌↔◌, ◌≤◌, refl, sym, ap, inl, inr, subst, ◌∙◌,
  Text-discrete, ℕ_discrete,
}
use nordmac.Base.Actions.{Action}
use nordmac.Base.Triples.{Triple, Post, ok-injective}
use nordmac.Netip.{Addr, v4, v6, zero_addr, Prefix, Prefix-discrete, Addr-discrete}
use nordmac.Netip.Address
use nordmac.Netip.Prefixes
use nordmac.Patterns.{every}
use nordmac.Strings.{ascii, split, trim_space, trim_from, includes, cut, join_with, atoi}
use nordmac.Tunnel.Types.{Route}
use nordmac.Darwin.Dns.{Runner}
use nordmac.Darwin.Masks.{netmask, mask_bits-netmask}
use nordmac.Darwin.Fields.{
  mask_bits, field, parse_route_fields, fields_from, parse_bsd_address, prefix_of,
  parse_route_prefix,
}
use nordmac.Darwin.Routes.{Texts, route_path}
use nordmac.Darwin.Table.{Names, IsMissing, printed_route, Prints, RoutingTable}

data Host : Type 0 where
  with_route without_route : Host

abbrev ten : Prefix
ten = Prefixes.from (v4 0x0a00_0000) 8

abbrev ten_route : Route
ten_route = record {
  destination = ten;
  gateway = zero_addr;
  interface = ascii "utun4";
  reject = false;
}

-- Only this destination has a text of its own.
abbrev texts : Texts
texts = record {
  parse_addr = λ t. if t == ascii "10.0.0.0" then some (v4 0x0a00_0000) else none;
  addr_text = λ a. [];
  prefix_text = λ d. ite (Prefix-discrete d ten) (ascii "10.0.0.0/8") [];
  error_text = λ e. ascii "not in table";
  to_lower = λ t. t;
}

abbrev printed : Text
printed = ascii "destination: 10.0.0.0\nprefixlen: 8\ninterface: utun4"

abbrev act : Bool → Bool → Bool → Host → Outcome Text × Host
act get delete mine with_route =
    if get
    then (ok printed, with_route)
    else if mine
    then (if delete then (ok [], without_route) else (err (message "exists"), with_route))
    else (err (message "refused"), with_route)
act get delete mine without_route =
    if get
    then (err (message "not in table"), without_route)
    else if mine
    then (if delete then (ok [], without_route) else (ok [], with_route))
    else (err (message "refused"), without_route)

abbrev host_run : Runner Host
host_run path (n ∷ op ∷ family ∷ kind ∷ destination ∷ rest) s =
    act (op == ascii "get") (op == ascii "delete") (destination == ascii "10.0.0.0/8") s
host_run path _ s = (err (message "usage"), s)

abbrev table_at : Bool → Host → Option Route
table_at mine with_route = if mine then some ten_route else none
table_at mine without_route = none

abbrev table : Host → Prefix → Option Route
table s d = table_at (ite (Prefix-discrete ten d) true false) s

-- The prefix that is printed, whatever was asked.
printed_at :
    (a : Addr) (p : Prefix)
    → parse_route_prefix texts.parse_addr (parse_route_fields printed) (Address.bit_len a) ≡ ok p
    → ten ≡ p
unfolding parse_route_prefix prefix_of parse_bsd_address fields_from field cut includes split
    trim_space trim_from join_with atoi Text-discrete ℕ_discrete Addr-discrete every
    Prefixes.mask_bits Prefix-discrete
printed_at zero_addr p h = cc
printed_at (v4 n) p h = ok-injective _ _ h
printed_at (v6 n z) p h = ok-injective _ _ h

printed-ten_route : printed_route texts ten printed ≡ ten_route
unfolding fields_from field cut includes split trim_space trim_from Text-discrete ℕ_discrete
printed-ten_route = refl

entry_if :
    (d : Prefix) (q : Dec (ten ≡ d))
    → (ten ≢ d → table_at (ite q true false) with_route ≡ none)
      × (ten ≡ d → table_at (ite q true false) with_route ≡ some (printed_route texts d printed))
entry_if d (yes e) = (
  λ n. absurd (n e),
  λ _. sym (ap some (ap (λ z. printed_route texts z printed) (sym e) ∙ printed-ten_route)),
)
entry_if d (no n) = (λ _. refl, λ e. absurd (n e))

table_printed : (d : Prefix) → Prints texts d (table with_route d) printed
table_printed d p h =
    subst
      (λ z.
        (z ≢ d → table with_route d ≡ none)
        × (z ≡ d → table with_route d ≡ some (printed_route texts d printed)))
      (printed_at d.addr p h) (entry_if d (Prefix-discrete ten d))

-- The text of this destination names no other.
text_of_ten :
    (d : Prefix) (q : Dec (d ≡ ten)) → ite q (ascii "10.0.0.0/8") [] ≡ ascii "10.0.0.0/8" → d ≡ ten
text_of_ten d (yes e) h = e
text_of_ten d (no n) h = cc

named_ten :
    (d : Prefix) (family kind t : Text)
    → Names texts d family kind t
    → t ≡ ascii "10.0.0.0/8"
    → d ≡ ten
named_ten d family kind t (f, inl (k, e)) h = text_of_ten d (Prefix-discrete d ten) (sym e ∙ h)
named_ten d family kind t (f, inr (k, e, b)) h = absurd (cc)

from_here :
    (m : Action Host Text) (Q : Text → Host → Type 0) (E : Error → Host → Type 0) (s : Host)
    → Post Q E (m s).0 (m s).1
    → Triple (λ t. t ≡ s) m Q E
from_here m Q E s h = record { at = λ t e. subst (λ u. Post Q E (m u).0 (m u).1) (sym e) h }

table_away : (d y : Prefix) (s t : Host) → d ≡ ten → y ≢ d → table t y ≡ table s y
table_away d y s t e n = away (Prefix-discrete ten y)
  where
    none_at : (s : Host) → table_at false s ≡ none
    none_at with_route = refl
    none_at without_route = refl

    away : (q : Dec (ten ≡ y)) → table_at (ite q true false) t ≡ table_at (ite q true false) s
    away (yes p) = absurd (n (sym p ∙ sym e))
    away (no p) = none_at t ∙ sym (none_at s)

-- A command with these words, by whether its destination is the text of 10.0.0.0/8.
module _ (d : Prefix) (family kind t : Text) (named : Names texts d family kind t) where
  sent :
      (q : Dec (t ≡ ascii "10.0.0.0/8")) (s : Host)
      → Post
          (λ _ u. (table u d ≡ none) × ((y : Prefix) → y ≢ d → table u y ≡ table s y))
          (λ _ u. (y : Prefix) → y ≢ d → table u y ≡ table s y)
          (act false true (ite q true false) s).0
          (act false true (ite q true false) s).1
  sent (yes q) with_route =
      (refl, λ y n. table_away d y with_route without_route (named_ten d _ _ _ named q) n)
  sent (yes q) without_route = (refl, λ y n. refl)
  sent (no q) with_route = λ y n. refl
  sent (no q) without_route = λ y n. refl

  sent_add :
      (q : Dec (t ≡ ascii "10.0.0.0/8")) (s : Host)
      → Post
          (λ _ u. (y : Prefix) → y ≢ d → table u y ≡ table s y)
          (λ _ u. (y : Prefix) → y ≢ d → table u y ≡ table s y)
          (act false false (ite q true false) s).0
          (act false false (ite q true false) s).1
  sent_add (yes q) with_route = λ y n. refl
  sent_add (yes q) without_route =
      λ y n. table_away d y without_route with_route (named_ten d _ _ _ named q) n
  sent_add (no q) with_route = λ y n. refl
  sent_add (no q) without_route = λ y n. refl

reads_of :
    (d : Prefix) (mine : Bool) (s : Host)
    → Post
        (λ out u. (u ≡ s) × Prints texts d (table s d) out)
        (λ e u. (u ≡ s) × (IsMissing texts e → table s d ≡ none))
        (act true false mine s).0
        (act true false mine s).1
reads_of d mine with_route = (refl, table_printed d)
reads_of d mine without_route = (refl, λ _. refl)

host : RoutingTable texts host_run (route_path [])
unfolding Text-discrete ℕ_discrete
host = record {
  table = table;
  reads = λ d family kind t s n.
      from_here (host_run [] (ascii "-n" ∷ ascii "get" ∷ family ∷ kind ∷ t ∷ [])) _ _ s
        (reads_of d (t == ascii "10.0.0.0/8") s);
  adds = λ d family kind t rest s n.
      from_here (host_run [] (ascii "-n" ∷ ascii "add" ∷ family ∷ kind ∷ t ∷ rest)) _ _ s
        (sent_add d family kind t n (Text-discrete _ _) s);
  deletes = λ d family kind t rest s n.
      from_here (host_run [] (ascii "-n" ∷ ascii "delete" ∷ family ∷ kind ∷ t ∷ rest)) _ _ s
        (sent d family kind t n (Text-discrete _ _) s);
}

mask_bits-netmask_example :
    (mask_bits 0xffff_ff00 ≡ ok 24) ↔ ((24 ≤ 32) × (0xffff_ff00 ≡ netmask 24))
mask_bits-netmask_example = mask_bits-netmask 0xffff_ff00 24
