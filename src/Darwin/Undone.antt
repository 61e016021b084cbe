-- ===== src/Darwin/Undone.antt =====
-- `Snapshot`, `Apply` and `RestoreIfOwned` of internal/darwinnet/dns.go, one after the other.
use nordmac.Base.{
  Bool, true, false, ◌||◌, Option, none, some, List, [], ◌∷◌, Text, String, text_eq, Error, Outcome,
  ok, err, message, ℕ_discrete, panic, ◌≡◌, ◌≢◌, inl, inr, refl, sym, subst, ap, ◌∙◌, if◌then◌else◌,
  ite, Text-discrete,
}
use nordmac.Base.Actions.{within, attempt, ◌>>=◌, ◌>>◌}
use nordmac.Base.Triples.{
  Triple, Attempted, Triple-pure, Triple-lift, Triple-bind, Triple-weaken, Triple-assume,
  Triple-each, Triple-attempt, ok-injective,
}
use nordmac.Netip.{Addr}
use nordmac.Netip.Address
use nordmac.Strings.{ascii}
use nordmac.Tunnel.Types.{ServiceDns, DnsSnapshot, DnsConfig}
use nordmac.Tunnel.Panics.{validate_dns_config-ne-panic}
use nordmac.Darwin.Dns.{
  Runner, Formats, setup_path, texts_eq, or_empty, set_servers, addresses, usable, cons_server,
  parse_servers, set, snapshot_for, snapshot, apply_domains, apply, restore_if_owned,
}
use nordmac.Darwin.Network.{
  listed, NetworkSetup, Triple-snapshot_service, Triple-set_servers, Triple-set_domains,
}
use nordmac.Darwin.Restore.{KeepsServers, KeepsDomains, HasDomains, Triple-restore_if_owned}

-- `netip.ParseAddr` reads what `netip.Addr.String` writes, and "empty" is no address.
pub record IsTextForm (go : Formats) : Type 0 where
  pub reads_back : (a : Addr) → go.parse_addr (go.addr_text a) ≡ some a
  pub not_empty : go.parse_addr (ascii "empty") ≡ none

listed-empty : listed (or_empty []) ≡ []
unfolding Text-discrete ℕ_discrete
listed-empty = refl

listed-or_empty : (vs : List Text) → vs ≢ or_empty [] → listed (or_empty vs) ≡ vs
listed-or_empty [] n = listed-empty
listed-or_empty (v ∷ vs) n = decided (texts_eq.dec (v ∷ vs) (or_empty []))
  where
    decided : (d : Dec (v ∷ vs ≡ or_empty [])) → (if ite d true false then [] else v ∷ vs) ≡ v ∷ vs
    decided (yes e) = absurd (n e)
    decided (no _) = refl

abbrev first_or : List Text → Text
first_or [] = []
first_or (t ∷ ts) = t

module _ (go : Formats) (form : IsTextForm go) where
  addresses-ne : (as' : List Addr) → addresses go as' ≢ or_empty []
  addresses-ne [] h = cc
  addresses-ne (a ∷ []) h =
      absurd (apart (sym (form.reads_back a) ∙ (ap go.parse_addr (ap first_or h) ∙ form.not_empty)))
    where
      apart : some a ≢ none
      apart e = cc
  addresses-ne (a ∷ b ∷ as') h = cc

  -- Servers that were read can be written and read again.
  parse_servers-addresses :
      (ls : List Text) (as' : List Addr)
      → parse_servers go ls ≡ ok as'
      → parse_servers go (addresses go as') ≡ ok as'
  unfolding parse_servers
  parse_servers-addresses [] as' h =
      subst (λ x. parse_servers go (addresses go x) ≡ ok x) (ok-injective _ _ h) refl
  parse_servers-addresses (l ∷ ls) as' h =
      by_line (go.parse_addr l) (parse_servers go ls) (parse_servers-addresses ls) h
    where
      usable_again :
          (a : Addr) (rest : List Addr)
          → parse_servers go (addresses go rest) ≡ ok rest
          → (Address.is_unspecified a || Address.is_multicast a) ≡ false
          → parse_servers go (addresses go (a ∷ rest)) ≡ ok (a ∷ rest)
      usable_again a rest e good =
          ap
            (λ o.
              cons_server go (usable go (go.addr_text a) o) (parse_servers go (addresses go rest)))
            (form.reads_back a)
          ∙ (ap (λ o. cons_server go (usable go (go.addr_text a) (some a)) o) e
              ∙ ap
                  (λ b.
                    cons_server go (if b then err (message "invalid DNS server") else ok a)
                      (ok rest))
                  good)

      by_address :
          (a : Addr) (b : Bool) (q : Outcome (List Addr))
          → (Address.is_unspecified a || Address.is_multicast a) ≡ b
          → ((rest : List Addr) → q ≡ ok rest → parse_servers go (addresses go rest) ≡ ok rest)
          → cons_server go (if b then err (message "invalid DNS server") else ok a) q ≡ ok as'
          → parse_servers go (addresses go as') ≡ ok as'
      by_address a true q g e h = cc
      by_address a false (ok rest) g e h =
          subst (λ x. parse_servers go (addresses go x) ≡ ok x) (ok-injective _ _ h)
            (usable_again a rest (e rest refl) g)
      by_address a false (err x) g e h = cc
      by_address a false panic g e h = cc

      by_line :
          (o : Option Addr) (q : Outcome (List Addr))
          → ((rest : List Addr) → q ≡ ok rest → parse_servers go (addresses go rest) ≡ ok rest)
          → cons_server go (usable go l o) q ≡ ok as'
          → parse_servers go (addresses go as') ≡ ok as'
      by_line none q e h = cc
      by_line (some a) q e h = by_address a _ q refl e h

module _ {S : Type 0} (go : Formats) (form : IsTextForm go) (r : Runner S) (path : Text)
    (net : NetworkSetup r (setup_path path)) (config : DnsConfig) (s : S) where
  -- Only the service of the configuration may differ, and its search domains only if they are set.
  abbrev pub OnlyService : S → Type 0
  OnlyService t =
      ((y : Text)
        → y ≢ config.service_id
        → (net.servers t y ≡ net.servers s y) × (net.domains t y ≡ net.domains s y))
      × (config.search_domains ≡ none
          → net.domains t config.service_id ≡ net.domains s config.service_id)

  same : (t : S) → t ≡ s → OnlyService t
  same t e = subst OnlyService (sym e) ((λ y n. (refl, refl)), (λ _. refl))

  -- What the pre-image says of the host.
  abbrev PreImage : ServiceDns → Type 0
  PreImage o =
      (parse_servers go (net.servers s config.service_id) ≡ ok o.servers)
      × (o.search_domains ≡ net.domains s config.service_id)

  Triple-snapshot :
      Triple
        (λ t. t ≡ s)
        (snapshot go (some r) path config)
        (λ p t. (t ≡ s) × ((o : ServiceDns) × (p.services ≡ o ∷ []) × PreImage o))
        (λ _. OnlyService)
  unfolding snapshot snapshot_for
  Triple-snapshot =
      Triple-bind
        (Triple-lift _ (validate_dns_config-ne-panic config) (λ _ t _ h. h) (λ _ t _ h. same t h))
        λ _.
          Triple-bind
            (Triple-weaken (Triple-snapshot_service go r path net config.service_id s) (λ t p. p)
              (λ _ t h. h) (λ _ t h. same t h))
            λ c. Triple-pure _ (λ t (e, _, servers, domains). (e, (c, refl, (servers, domains))))

  Triple-apply_servers :
      (m : String) (vs : List Text)
      → Triple OnlyService
          (within m (set go (some r) path set_servers config.service_id vs))
          (λ _. OnlyService)
          (λ _. OnlyService)
  Triple-apply_servers m vs = Triple-each λ u (others, own).
      let moved : (t : S)
          → net.domains t ≡ net.domains u
          → ((y : Text) → y ≢ config.service_id → net.servers t y ≡ net.servers u y)
          → OnlyService t =
        λ t d f. (
          (λ y n. (f y n ∙ (others y n).0, ap (λ (g : Text → List Text). g y) d ∙ (others y n).1)),
          (λ e. ap (λ (g : Text → List Text). g config.service_id) d ∙ own e),
        ) in
      Triple-weaken (Triple-set_servers go r path net m config.service_id vs u) (λ t p. p)
        (λ _ t h. moved t h.0 h.2) (λ _ t h. moved t h.0 h.1)

  Triple-apply_domains :
      (o : Option (List Text))
      → config.search_domains ≡ o
      → Triple OnlyService
          (apply_domains go (some r) path config.service_id o)
          (λ _. OnlyService)
          (λ _. OnlyService)
  Triple-apply_domains none e = Triple-pure tt (λ t h. h)
  Triple-apply_domains (some ds) e = Triple-each λ u (others, own).
      let moved : (t : S)
          → net.servers t ≡ net.servers u
          → ((y : Text) → y ≢ config.service_id → net.domains t y ≡ net.domains u y)
          → OnlyService t =
        λ t d f. (
          (λ y n. (ap (λ (g : Text → List Text). g y) d ∙ (others y n).0, f y n ∙ (others y n).1)),
          (λ q. absurd (none_some (sym q ∙ e))),
        ) in
      Triple-weaken (Triple-set_domains go r path net _ config.service_id ds u) (λ t p. p)
        (λ _ t h. moved t h.0 h.2) (λ _ t h. moved t h.0 h.1)
    where
      none_some : none ≢ some ds
      none_some q = cc

  Triple-apply :
      Triple OnlyService (apply go (some r) path config) (λ _. OnlyService) (λ _. OnlyService)
  unfolding apply
  Triple-apply =
      Triple-bind
        (Triple-lift _ (validate_dns_config-ne-panic config) (λ _ t _ h. h) (λ _ t _ h. h))
        λ _.
          Triple-bind (Triple-apply_servers _ _)
            λ _. Triple-apply_domains config.search_domains refl

  -- The settings are back, those of other services included.
  abbrev pub IsBack : S → Type 0
  IsBack t =
      ((y : Text)
        → y ≢ config.service_id
        → (net.servers t y ≡ net.servers s y) × (net.domains t y ≡ net.domains s y))
      × (parse_servers go (net.servers t config.service_id)
          ≡ parse_servers go (net.servers s config.service_id))
      × (net.domains t config.service_id ≡ net.domains s config.service_id)

  module _ (o : ServiceDns) (image : PreImage o) (u t : S) (only : OnlyService u)
      (servers : KeepsServers go r path net o config u t)
      (domains : KeepsDomains go r path net o config u t) where
    others_kept :
        (y : Text)
        → y ≢ config.service_id
        → (net.servers t y ≡ net.servers s y) × (net.domains t y ≡ net.domains s y)
    others_kept y n = (
      elim (servers y) [ inl e ↦ e ∙ (only.0 y n).0 | inr (e, _) ↦ absurd (n e) ],
      elim (domains y) [ inl e ↦ e ∙ (only.0 y n).1 | inr (e, _) ↦ absurd (n e) ],
    )

    unset_kept :
        config.search_domains ≡ none
        → net.domains t config.service_id ≡ net.domains s config.service_id
    unset_kept e = elim (domains config.service_id) [
      | inl q ↦ q ∙ only.1 e
      | inr (_, q) ↦ absurd (apart (sym e ∙ q))
    ]
      where
        apart : {ds : List Text} → none ≢ some ds
        apart q = cc

    domains_back :
        (d : Option (List Text))
        → config.search_domains ≡ d
        → HasDomains go r path net o config u d (net.domains t config.service_id)
        → net.domains t config.service_id ≡ net.domains s config.service_id
    domains_back none e h = unset_kept e
    domains_back (some ds) e h = h ∙ image.1

  Triple-restored :
      (p : DnsSnapshot) (o : ServiceDns)
      → p.services ≡ o ∷ []
      → PreImage o
      → net.domains s config.service_id ≢ or_empty []
      → Triple OnlyService
          (restore_if_owned go (some r) path p config)
          (λ _. IsBack)
          (λ _. OnlyService)
  Triple-restored p o one image named = Triple-each λ u only.
      Triple-weaken
        (Triple-restore_if_owned go r path net p o config u one
          (ap (parse_servers go)
              (listed-or_empty (addresses go o.servers) (addresses-ne go form o.servers))
            ∙ parse_servers-addresses go form _ o.servers image.0)
          (listed-or_empty o.search_domains (λ e. named (sym image.1 ∙ e))))
        (λ t q. q)
        (λ _ t (servers, domains, (back, has)). (
          others_kept o image u t only servers domains,
          (back ∙ sym image.0),
          domains_back o image u t only servers domains config.search_domains refl has,
        ))
        (λ _ t (servers, domains). (
          others_kept o image u t only servers domains,
          unset_kept o image u t only servers domains,
        ))

  attempted :
      (e : Option Error) (t : S)
      → Attempted (λ (_ : Unit {0}). OnlyService) (λ _. OnlyService) e t
      → OnlyService t
  attempted none t (_, h) = h
  attempted (some e) t h = h

  -- On a host where the setting commands do what they say when they succeed, and touch nothing but
  -- their own setting when they fail: when a snapshot is taken, the configuration applied, in full or
  -- until a command fails, and the snapshot restored with success, then the search domains of every
  -- service are what they were and the servers of the service read as they did; on every path, no
  -- setting of another service has changed. The search domains were not the one word "empty".
  pub Triple-undone :
      net.domains s config.service_id ≢ or_empty []
      → Triple
          (λ t. t ≡ s)
          (snapshot go (some r) path config >>= λ p.
            attempt (apply go (some r) path config) >> restore_if_owned go (some r) path p config)
          (λ _. IsBack)
          (λ _. OnlyService)
  Triple-undone named = Triple-bind Triple-snapshot λ p. Triple-assume λ (o, one, image).
      Triple-bind {Q = λ _. OnlyService}
        (Triple-weaken (Triple-attempt {F = λ _. OnlyService} Triple-apply) (λ t e. same t e)
          attempted (λ _ t h. h))
        λ _. Triple-restored p o one image named
