-- ===== src/Darwin/Network.antt =====
-- The host that `DNSManager` of internal/darwinnet/dns.go runs its commands on.
use nordmac.Base.{
  Option, none, some, List, [], ◌∷◌, Text, String, ◌==◌, text_eq, Outcome, ok, err, panic, ◌≡◌, ◌≢◌,
  refl, sym, ap, ◌∙◌, arith, if◌then◌else◌,
}
use nordmac.Base.Actions.{within}
use nordmac.Base.Triples.{
  Triple, Triple-pure, Triple-lift, Triple-bind, Triple-weaken, Triple-map_error, Triple-assume,
}
use nordmac.Netip.{Addr}
use nordmac.Darwin.Dns.{
  Runner, Formats, setup_path, addrs_eq, texts_eq, setting_lines, check_listed, or_empty,
  get_servers, get_domains, set_servers, set_domains, usable, cons_server, parse_servers, run, set,
  snapshot_service,
}

-- What a service lists after a setting command with these values.
abbrev pub listed : List Text → List Text
listed vs = if vs == or_empty [] then [] else vs

-- `networksetup` on a host: the static settings of each service. A read changes nothing, a setting
-- command changes only its own component of its own service, and has done so when it succeeds.
pub record NetworkSetup {S : Type 0} (r : Runner S) (path : Text) : Type 0 where
  pub servers : S → Text → List Text
  pub domains : S → Text → List Text
  pub reads_servers :
      (x : Text) (s : S)
      → Triple
          (λ t. t ≡ s)
          (r path (get_servers ∷ x ∷ []))
          (λ out t. (t ≡ s) × (setting_lines out ≡ servers s x))
          (λ _ t. t ≡ s)
  pub reads_domains :
      (x : Text) (s : S)
      → Triple
          (λ t. t ≡ s)
          (r path (get_domains ∷ x ∷ []))
          (λ out t. (t ≡ s) × (setting_lines out ≡ domains s x))
          (λ _ t. t ≡ s)
  pub sets_servers :
      (x : Text) (vs : List Text) (s : S)
      → Triple
          (λ t. t ≡ s)
          (r path (set_servers ∷ x ∷ vs))
          (λ _ t.
            (domains t ≡ domains s)
            × (servers t x ≡ listed vs)
            × ((y : Text) → y ≢ x → servers t y ≡ servers s y))
          (λ _ t. (domains t ≡ domains s) × ((y : Text) → y ≢ x → servers t y ≡ servers s y))
  pub sets_domains :
      (x : Text) (vs : List Text) (s : S)
      → Triple
          (λ t. t ≡ s)
          (r path (set_domains ∷ x ∷ vs))
          (λ _ t.
            (servers t ≡ servers s)
            × (domains t x ≡ listed vs)
            × ((y : Text) → y ≢ x → domains t y ≡ domains s y))
          (λ _ t. (servers t ≡ servers s) × ((y : Text) → y ≢ x → domains t y ≡ domains s y))

parse_servers-ne-panic : (go : Formats) (ls : List Text) → parse_servers go ls ≢ panic
unfolding parse_servers
parse_servers-ne-panic go [] h = cc
parse_servers-ne-panic go (l ∷ ls) h =
    consed (usable go l (go.parse_addr l)) (parse_servers go ls) (calm (go.parse_addr l))
      (parse_servers-ne-panic go ls) h
  where
    consed :
        (a : Outcome Addr) (b : Outcome (List Addr))
        → a ≢ panic
        → b ≢ panic
        → cons_server go a b ≢ panic
    consed (ok a) (ok b) n m e = cc
    consed (ok a) (err x) n m e = cc
    consed (ok a) panic n m e = m refl
    consed (err x) b n m e = cc
    consed panic b n m e = n refl

    calm : (o : Option Addr) → usable go l o ≢ panic
    calm none e = cc
    calm (some a) e = ground (arith, e)

check_listed-ne-panic : (ds : List Text) → check_listed ds ≢ panic
unfolding check_listed
check_listed-ne-panic [] h = cc
check_listed-ne-panic (d ∷ ds) h = ground (arith, h, check_listed-ne-panic ds)

module _ {S : Type 0} (go : Formats) (r : Runner S) (path : Text)
    (net : NetworkSetup r (setup_path path)) where
  -- What `snapshotService` reads is what the host has, and reading changes nothing.
  pub Triple-snapshot_service :
      (x : Text) (s : S)
      → Triple
          (λ t. t ≡ s)
          (snapshot_service go (some r) path x)
          (λ c t.
            (t ≡ s)
            × (c.service_id ≡ x)
            × (parse_servers go (net.servers s x) ≡ ok c.servers)
            × (c.search_domains ≡ net.domains s x))
          (λ _ t. t ≡ s)
  unfolding snapshot_service run
  Triple-snapshot_service x s = Triple-bind (Triple-map_error _ _ (net.reads_servers x s)) λ out.
      Triple-bind {Q = λ as' t. (t ≡ s) × (parse_servers go (net.servers s x) ≡ ok as')}
        (Triple-lift _ (parse_servers-ne-panic go _)
          (λ as' t h (e, l). (e, ap (parse_servers go) (sym l) ∙ h)) (λ _ t h (e, l). e))
        λ as'.
          Triple-bind
            {Q = λ printed t.
              (t ≡ s)
              × (parse_servers go (net.servers s x) ≡ ok as')
              × (setting_lines printed ≡ net.domains s x)}
            (Triple-map_error _ _ (
              Triple-assume λ f.
                Triple-weaken (net.reads_domains x s) (λ t p. p) (λ _ t h. (h.0, f, h.1))
                  (λ _ t h. h)))
            λ printed.
              Triple-bind (Triple-lift _ (check_listed-ne-panic _) (λ _ t _ h. h) (λ _ t _ h. h.0))
                λ _. Triple-pure _ (λ t h. (h.0, refl, h.1, h.2))

  -- A setting command of the manager.
  pub Triple-set_servers :
      (m : String) (x : Text) (vs : List Text) (s : S)
      → Triple
          (λ t. t ≡ s)
          (within m (set go (some r) path set_servers x vs))
          (λ _ t.
            (net.domains t ≡ net.domains s)
            × (net.servers t x ≡ listed (or_empty vs))
            × ((y : Text) → y ≢ x → net.servers t y ≡ net.servers s y))
          (λ _ t.
            (net.domains t ≡ net.domains s)
            × ((y : Text) → y ≢ x → net.servers t y ≡ net.servers s y))
  unfolding set run
  Triple-set_servers m x vs s =
      Triple-map_error _ _
        (Triple-bind (net.sets_servers x (or_empty vs) s) λ out. Triple-pure tt (λ t h. h))

  pub Triple-set_domains :
      (m : String) (x : Text) (vs : List Text) (s : S)
      → Triple
          (λ t. t ≡ s)
          (within m (set go (some r) path set_domains x vs))
          (λ _ t.
            (net.servers t ≡ net.servers s)
            × (net.domains t x ≡ listed (or_empty vs))
            × ((y : Text) → y ≢ x → net.domains t y ≡ net.domains s y))
          (λ _ t.
            (net.servers t ≡ net.servers s)
            × ((y : Text) → y ≢ x → net.domains t y ≡ net.domains s y))
  unfolding set run
  Triple-set_domains m x vs s =
      Triple-map_error _ _
        (Triple-bind (net.sets_domains x (or_empty vs) s) λ out. Triple-pure tt (λ t h. h))
