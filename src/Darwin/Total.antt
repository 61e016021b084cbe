-- ===== src/Darwin/Total.antt =====
-- The lookups of internal/darwinnet/route.go and panics.
use nordmac.Base.{
  ℕ, Bool, true, false, Option, none, some, List, [], ◌∷◌, Text, nat_eq, text_eq, Error, Outcome,
  ok, err, panic, Check, ◌≢◌, refl, arith, if◌then◌else◌,
}
use nordmac.Netip.{Addr, Prefix, prefix_eq}
use nordmac.Tunnel.Types.{Route}
use nordmac.Tunnel.Panics.{validate_route-ne-panic}
use nordmac.Darwin.Fields.{
  Fields, mask_bits, count_mask, of_uint, mask_addr, parse_mask_bits, parse_bsd_address, parsed,
  with_bits, by_mask, by_length, prefix_of, parse_route_prefix,
}
use nordmac.Darwin.Routes.{Texts, route_arguments, valid_route, at_prefix, found_in}

mask_bits-ne-panic : (n : ℕ) → mask_bits n ≢ panic
unfolding mask_bits
mask_bits-ne-panic n h = ground (arith, h)

count_mask-ne-panic : (n : ℕ) (z : Bool) (bs : List Bool) → count_mask n z bs ≢ panic
unfolding count_mask
count_mask-ne-panic n z [] h = cc
count_mask-ne-panic n true (true ∷ bs) h = cc
count_mask-ne-panic n true (false ∷ bs) h = count_mask-ne-panic n true bs h
count_mask-ne-panic n false (true ∷ bs) h = count_mask-ne-panic _ false bs h
count_mask-ne-panic n false (false ∷ bs) h = count_mask-ne-panic n true bs h

choice-ne-panic :
    {A : Type 0} (b : Bool) (x y : Outcome A) → x ≢ panic → y ≢ panic → (if b then x else y) ≢ panic
choice-ne-panic true x y n m = n
choice-ne-panic false x y n m = m

err-ne : {A : Type 0} (e : Error) → (let o : Outcome A = err e in o ≢ panic)
err-ne e h = cc

ok-ne : {A : Type 0} (a : A) → ok a ≢ panic
ok-ne a h = cc

ruleset calm = (mask_bits-ne-panic, count_mask-ne-panic, choice-ne-panic, err-ne, ok-ne)

mask_addr-ne-panic : (w : ℕ) (a : Option Addr) → mask_addr w a ≢ panic
unfolding mask_addr
mask_addr-ne-panic w none = search calm
mask_addr-ne-panic w (some Addr.zero_addr) = search calm
mask_addr-ne-panic w (some (Addr.v4 n)) = search calm
mask_addr-ne-panic w (some (Addr.v6 n z)) = search calm

module _ (parse : Text → Option Addr) where
  of_uint-ne-panic : (o : Option ℕ) → of_uint o ≢ panic
  of_uint-ne-panic none = search calm
  of_uint-ne-panic (some n) = search calm

  parse_mask_bits-ne-panic : (v : Text) (w : ℕ) → parse_mask_bits parse v w ≢ panic
  unfolding parse_mask_bits
  parse_mask_bits-ne-panic v w = search (calm, of_uint-ne-panic, mask_addr-ne-panic)

  with_bits-ne-panic : (a : Addr) (o : Outcome ℕ) → o ≢ panic → with_bits parse a o ≢ panic
  with_bits-ne-panic a (ok n) h = search calm
  with_bits-ne-panic a (err e) h = search calm
  with_bits-ne-panic a panic h = absurd (h refl)

  by_mask-ne-panic : (a : Addr) (m : Text) (w : ℕ) → by_mask parse a m w ≢ panic
  by_mask-ne-panic a m w = search (calm, with_bits-ne-panic, parse_mask_bits-ne-panic)

  by_length-ne-panic :
      (a : Addr) (o : Option ℕ) (m : Text) (w : ℕ) → by_length parse a o m w ≢ panic
  by_length-ne-panic a none m w = by_mask-ne-panic a m w
  by_length-ne-panic a (some n) m w = search (calm, by_mask-ne-panic)

  prefix_of-ne-panic :
      (fs : Fields) (w : ℕ) (o : Outcome Addr) → o ≢ panic → prefix_of parse fs w o ≢ panic
  unfolding prefix_of
  prefix_of-ne-panic fs w (ok a) h = search (calm, by_length-ne-panic)
  prefix_of-ne-panic fs w (err e) h = search calm
  prefix_of-ne-panic fs w panic h = absurd (h refl)

  parsed-ne-panic : (o : Option Addr) → parsed parse o ≢ panic
  parsed-ne-panic none = search calm
  parsed-ne-panic (some a) = search calm

  parse_bsd_address-ne-panic : (v : Text) → parse_bsd_address parse v ≢ panic
  unfolding parse_bsd_address
  parse_bsd_address-ne-panic v = search (calm, parsed-ne-panic)

  parse_route_prefix-ne-panic : (fs : Fields) (w : ℕ) → parse_route_prefix parse fs w ≢ panic
  unfolding parse_route_prefix
  parse_route_prefix-ne-panic fs w =
      search (calm, prefix_of-ne-panic, parse_bsd_address-ne-panic, parsed-ne-panic) depth 12

module _ (go : Texts) where
  valid_route-ne-panic : (r : Route) (k : Check) → k ≢ panic → valid_route go r k ≢ panic
  valid_route-ne-panic r (ok _) h = search calm
  valid_route-ne-panic r (err e) h = search calm
  valid_route-ne-panic r panic h = absurd (h refl)

  at_prefix-ne-panic :
      (fs : Fields) (d : Prefix) (o : Outcome Prefix) → o ≢ panic → at_prefix go fs d o ≢ panic
  at_prefix-ne-panic fs d (ok p) h = search (calm, valid_route-ne-panic, validate_route-ne-panic)
  at_prefix-ne-panic fs d (err e) h = search calm
  at_prefix-ne-panic fs d panic h = absurd (h refl)

  pub found_in-ne-panic : (d : Prefix) (out : Text) → found_in go d out ≢ panic
  unfolding found_in
  found_in-ne-panic d out = search (at_prefix-ne-panic, parse_route_prefix-ne-panic)

  pub route_arguments-ne-panic : (op : Text) (r : Route) → route_arguments go op r ≢ panic
  unfolding route_arguments
  route_arguments-ne-panic op r = search calm depth 12
