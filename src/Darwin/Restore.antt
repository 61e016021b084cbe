-- ===== src/Darwin/Restore.antt =====
-- What `DNSManager.RestoreIfOwned` of internal/darwinnet/dns.go does to the settings of the host.
use nordmac.Base.{
  Bool, true, false, not, ◌&&◌, ◌||◌, Option, none, some, List, [], ◌∷◌, Text, ◌==◌, text_eq, ok,
  sentinel, dns_conflict, message, ◌≡◌, ◌≢◌, ◌⊎◌, inl, inr, refl, sym, subst, ap, Text-discrete,
  ◌∙◌, arith, if◌then◌else◌, ==-true,
}
use nordmac.Base.Actions.{raise, within, ◌>>=◌}
use nordmac.Base.Triples.{
  Triple, Triple-pure, Triple-raise, Triple-lift, Triple-bind, Triple-weaken, Triple-assume,
  Triple-each,
}
use nordmac.Tunnel.Types.{ServiceDns, DnsSnapshot, DnsConfig}
use nordmac.Tunnel.Panics.{validate_dns_config-ne-panic}
use nordmac.Darwin.Dns.{
  Runner, Formats, setup_path, addrs_eq, texts_eq, or_empty, set_servers, set_domains, addresses,
  parse_servers, set, snapshot_service, domains_owned, domains_original, when, restore_current,
  restore_to, restore_if_owned,
}
use nordmac.Darwin.Network.{
  listed, NetworkSetup, Triple-snapshot_service, Triple-set_servers, Triple-set_domains,
}

&&-left : (a b : Bool) → (a && b) ≡ true → a ≡ true
&&-left a b h = ground (arith, h)

||-none : (a b : Bool) → (a || b) ≡ false → (a ≡ false) × (b ≡ false)
||-none a b h = (ground (arith, h), ground (arith, h))

-- Neither branch: the second test holds.
second : (a b : Bool) → (not a && not b) ≡ false → (a && not b) ≡ false → b ≡ true
second a b h g = ground (arith, h, g)

module _ {S : Type 0} (go : Formats) (r : Runner S) (path : Text)
    (net : NetworkSetup r (setup_path path)) where
  module _ (original : ServiceDns) (applied : DnsConfig) (s : S) where
    -- The search domains that a nil slice leaves alone.
    abbrev pub HasDomains : Option (List Text) → List Text → Type 0
    HasDomains none ds = Unit {0}
    HasDomains (some _) ds = ds ≡ original.search_domains

    -- A component that changed was that of the applied configuration.
    abbrev pub KeepsServers : S → Type 0
    KeepsServers t =
        (y : Text)
        → (net.servers t y ≡ net.servers s y)
          ⊎ ((y ≡ applied.service_id) × (parse_servers go (net.servers s y) ≡ ok applied.servers))

    abbrev pub KeepsDomains : S → Type 0
    KeepsDomains t =
        (y : Text)
        → (net.domains t y ≡ net.domains s y)
          ⊎ ((y ≡ applied.service_id) × (applied.search_domains ≡ some (net.domains s y)))

    abbrev pub IsRestored : S → Type 0
    IsRestored t =
        (parse_servers go (net.servers t applied.service_id) ≡ ok original.servers)
        × HasDomains applied.search_domains (net.domains t applied.service_id)

    abbrev Halfway : S → Type 0
    Halfway t =
        (net.servers t ≡ net.servers s)
        × KeepsDomains t
        × HasDomains applied.search_domains (net.domains t applied.service_id)

    keeps_domains :
        (t : S)
        → applied.search_domains ≡ some (net.domains s applied.service_id)
        → ((y : Text) → y ≢ applied.service_id → net.domains t y ≡ net.domains s y)
        → KeepsDomains t
    keeps_domains t owned others y = elim (Text-discrete y applied.service_id) [
      | yes e ↦ inr (e, owned ∙ ap (λ z. some (net.domains s z)) (sym e))
      | no n ↦ inl (others y n)
    ]

    keeps_servers :
        (t : S)
        → parse_servers go (net.servers s applied.service_id) ≡ ok applied.servers
        → ((y : Text) → y ≢ applied.service_id → net.servers t y ≡ net.servers s y)
        → KeepsServers t
    keeps_servers t owned others y = elim (Text-discrete y applied.service_id) [
      | yes e ↦ inr (e, ap (λ z. parse_servers go (net.servers s z)) e ∙ owned)
      | no n ↦ inl (others y n)
    ]

    HasDomains-of :
        (o : Option (List Text)) (ds : List Text) → ds ≡ original.search_domains → HasDomains o ds
    HasDomains-of none ds h = tt
    HasDomains-of (some _) ds h = h

    Triple-domains :
        (b : Bool)
        → (b ≡ true → applied.search_domains ≡ some (net.domains s applied.service_id))
        → (b ≡ false → HasDomains applied.search_domains (net.domains s applied.service_id))
        → listed (or_empty original.search_domains) ≡ original.search_domains
        → Triple
            (λ t. t ≡ s)
            (when b (
              within "restore DNS search domains"
                (set go (some r) path set_domains applied.service_id original.search_domains)))
            (λ _. Halfway)
            (λ _ t. KeepsServers t × KeepsDomains t)
    Triple-domains true owned back list =
        Triple-weaken
          (Triple-set_domains go r path net _ applied.service_id original.search_domains s)
          (λ t p. p)
          (λ _ t h. (h.0, keeps_domains t (owned refl) h.2, HasDomains-of _ _ (h.1 ∙ list)))
          (λ _ t h.
            (λ y. inl (ap (λ (f : Text → List Text). f y) h.0), keeps_domains t (owned refl) h.1))
    Triple-domains false owned back list =
        Triple-pure tt λ t e. subst Halfway (sym e) (refl, (λ y. inl refl), back refl)

    -- With the servers that the host had when the manager read them.
    Triple-servers :
        (b : Bool)
        → (b ≡ true → parse_servers go (net.servers s applied.service_id) ≡ ok applied.servers)
        → (b ≡ false → parse_servers go (net.servers s applied.service_id) ≡ ok original.servers)
        → parse_servers go (listed (or_empty (addresses go original.servers))) ≡ ok original.servers
        → Triple Halfway
            (when b (
              within "restore DNS servers" (
                set go
                  (some r)
                  path
                  set_servers
                  applied.service_id
                  (addresses go original.servers))))
            (λ _ t. KeepsServers t × KeepsDomains t × IsRestored t)
            (λ _ t. KeepsServers t × KeepsDomains t)
    Triple-servers true owned back reads = Triple-each λ m (same, kept, has).
        let same_at : (y : Text) → net.servers m y ≡ net.servers s y =
          λ y. ap (λ (f : Text → List Text). f y) same in
        let stays : (t : S) → net.domains t ≡ net.domains m → KeepsDomains t = λ t e y.
          subst
            (λ (f : Text → List Text).
              (f y ≡ net.domains s y)
              ⊎ ((y ≡ applied.service_id) × (applied.search_domains ≡ some (net.domains s y))))
            (sym e) (kept y) in
        Triple-weaken
          (Triple-set_servers go r path net _ applied.service_id (addresses go original.servers) m)
          (λ t p. p)
          (λ _ t h. (
            keeps_servers t (owned refl) (λ y n. h.2 y n ∙ same_at y),
            stays t h.0,
            (
              ap (parse_servers go) h.1 ∙ reads,
              subst
                  (λ (f : Text → List Text).
                    HasDomains applied.search_domains (f applied.service_id))
                  (sym h.0) has,
            ),
          ))
          (λ _ t h. (keeps_servers t (owned refl) (λ y n. h.1 y n ∙ same_at y), stays t h.0))
    Triple-servers false owned back reads = Triple-pure tt λ t (same, kept, has). (
      (λ y. inl (ap (λ (f : Text → List Text). f y) same)),
      kept,
      (
        ap (λ (f : Text → List Text). parse_servers go (f applied.service_id)) same ∙ back refl,
        has,
      ),
    )

    -- What the tests of `RestoreIfOwned` on the search domains say.
    domains-owned :
        (o : Option (List Text)) (ds : List Text)
        → (domains_owned o ds && not (domains_original o original.search_domains ds)) ≡ true
        → o ≡ some ds
    domains-owned none ds h = cc
    domains-owned (some as') ds h = ap some (sym (==-true ds as' (&&-left _ _ h)))

    domains-original :
        (o : Option (List Text)) (ds : List Text)
        → domains_original o original.search_domains ds ≡ true
        → HasDomains o ds
    domains-original none ds h = tt
    domains-original (some _) ds h = ==-true ds original.search_domains h

    Triple-conflict :
        (b : Bool)
        → Triple
            (λ t. t ≡ s)
            (when b (raise (sentinel dns_conflict)))
            (λ _ t. (t ≡ s) × (b ≡ false))
            (λ _ t. KeepsServers t × KeepsDomains t)
    Triple-conflict true = Triple-raise _ λ t e.
        subst (λ u. KeepsServers u × KeepsDomains u) (sym e) ((λ y. inl refl), (λ y. inl refl))
    Triple-conflict false = Triple-pure tt λ t e. (e, refl)

    Triple-restore_current :
        (c : ServiceDns)
        → parse_servers go (listed (or_empty (addresses go original.servers))) ≡ ok original.servers
        → listed (or_empty original.search_domains) ≡ original.search_domains
        → Triple
            (λ t.
              (t ≡ s)
              × (c.service_id ≡ applied.service_id)
              × (parse_servers go (net.servers s applied.service_id) ≡ ok c.servers)
              × (c.search_domains ≡ net.domains s applied.service_id))
            (restore_current go (some r) path original applied c)
            (λ _ t. KeepsServers t × KeepsDomains t × IsRestored t)
            (λ _ t. KeepsServers t × KeepsDomains t)
    unfolding restore_current
    Triple-restore_current c reads list = Triple-each λ t (e, _, read, doms).
        Triple-weaken
          (Triple-bind (Triple-conflict _) λ _. Triple-assume λ no_conflict.
            let (a, b) = ||-none _ _ no_conflict in
            Triple-bind
              (Triple-domains _ (λ h. domains-owned _ _ h ∙ ap some doms)
                (λ h.
                  subst (HasDomains applied.search_domains) doms
                    (domains-original _ _ (second _ _ b h)))
                list)
              λ _.
                Triple-servers _ (λ h. read ∙ ap ok (==-true _ _ (&&-left _ _ h)))
                  (λ h. read ∙ ap ok (==-true _ _ (second _ _ a h))) reads)
          (λ u p. p ∙ e) (λ _ u h. h) (λ _ u h. h)

  Triple-restore_to :
      (original : ServiceDns) (applied : DnsConfig) (s : S) (b : Bool)
      → parse_servers go (listed (or_empty (addresses go original.servers))) ≡ ok original.servers
      → listed (or_empty original.search_domains) ≡ original.search_domains
      → Triple
          (λ t. t ≡ s)
          (if b
            then snapshot_service go (some r) path applied.service_id
              >>= restore_current go (some r) path original applied
            else raise (message "DNS pre-image does not match the applied service"))
          (λ _ t.
            KeepsServers original applied s t
            × KeepsDomains original applied s t
            × IsRestored original applied s t)
          (λ _ t. KeepsServers original applied s t × KeepsDomains original applied s t)
  Triple-restore_to original applied s true reads list =
      Triple-bind
        (Triple-weaken (Triple-snapshot_service go r path net applied.service_id s) (λ t p. p)
          (λ _ t h. h) (λ _ t e. kept t e))
        λ c. Triple-restore_current original applied s c reads list
    where
      kept : (t : S) → t ≡ s → KeepsServers original applied s t × KeepsDomains original applied s t
      kept t e =
          subst (λ u. KeepsServers original applied s u × KeepsDomains original applied s u) (sym e)
            ((λ y. inl refl), (λ y. inl refl))
  Triple-restore_to original applied s false reads list = Triple-raise _ λ t e.
      subst (λ u. KeepsServers original applied s u × KeepsDomains original applied s u) (sym e)
        ((λ y. inl refl), (λ y. inl refl))

  -- On a host where the setting commands do what they say when they succeed, and touch nothing but
  -- their own setting when they fail, `RestoreIfOwned` with a pre-image of one service, whose
  -- servers and domains a setting command can write, never panics. It changes a setting only of the
  -- service of the applied configuration and only where the host still had the applied value, also
  -- when it fails; when it succeeds, the service reads back as in the pre-image.
  pub Triple-restore_if_owned :
      (before : DnsSnapshot) (original : ServiceDns) (applied : DnsConfig) (s : S)
      → before.services ≡ original ∷ []
      → parse_servers go (listed (or_empty (addresses go original.servers))) ≡ ok original.servers
      → listed (or_empty original.search_domains) ≡ original.search_domains
      → Triple
          (λ t. t ≡ s)
          (restore_if_owned go (some r) path before applied)
          (λ _ t.
            KeepsServers original applied s t
            × KeepsDomains original applied s t
            × IsRestored original applied s t)
          (λ _ t. KeepsServers original applied s t × KeepsDomains original applied s t)
  unfolding restore_if_owned
  Triple-restore_if_owned before original applied s one reads list =
      Triple-bind
        (Triple-lift _ (validate_dns_config-ne-panic applied) (λ _ t _ h. h)
          (λ _ t _ e.
            subst (λ u. KeepsServers original applied s u × KeepsDomains original applied s u)
              (sym e) ((λ y. inl refl), (λ y. inl refl))))
        λ _.
          subst
            (λ l.
              Triple (λ t. t ≡ s) (restore_to go (some r) path l applied)
                (λ _ t.
                  KeepsServers original applied s t
                  × KeepsDomains original applied s t
                  × IsRestored original applied s t)
                (λ _ t. KeepsServers original applied s t × KeepsDomains original applied s t))
            (sym one)
            (Triple-restore_to original applied s (original.service_id == applied.service_id) reads
              list)
