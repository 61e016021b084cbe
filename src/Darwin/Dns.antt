-- ===== src/Darwin/Dns.antt =====
-- `DNSManager` of internal/darwinnet/dns.go: the static DNS settings of one network service, read and
-- written by commands that an arbitrary host runs. A command may fail, and may then have done anything.
use nordmac.Base.{
  Bool, true, false, not, ◌&&◌, ◌||◌, Option, none, some, List, [], ◌∷◌, ◌++◌, map, Text, ltb, ◌==◌,
  nat_eq, text_eq, length, message, sentinel, dns_conflict, Outcome, ok, err, panic, Check, pass,
  if◌then◌else◌, Eq, Text-discrete,
}
use nordmac.Base.Actions.{Action, pure, raise, lift, within, ◌>>=◌, ◌>>◌}
use nordmac.Netip.{Addr, addr_eq, Addr-discrete}
use nordmac.Netip.Address
use nordmac.Patterns.{has_blank}
use nordmac.Strings.{ascii, has_prefix, split, trim_space, join_with}
use nordmac.Tunnel.Types.{ServiceDns, DnsSnapshot, DnsConfig}
use nordmac.Tunnel.Plan.{validate_dns_config}

-- `Runner.Run`: a path, the arguments, and what the command prints.
abbrev pub Runner : Type 0 → Type 0
Runner S = Text → List Text → Action S Text

-- `netip.ParseAddr`, `netip.Addr.String` and the hexadecimal SHA-256 digest.
pub record Formats : Type 0 where
  pub parse_addr : Text → Option Addr
  pub addr_text : Addr → Text
  pub digest : Text → Text

instance abbrev pub addrs_eq : Eq (List Addr)
unfolding Addr-discrete
addrs_eq = record { dec = hlevel Addr-discrete }

instance abbrev pub texts_eq : Eq (List Text)
unfolding Text-discrete
texts_eq = record { dec = hlevel Text-discrete }

-- `settingLines`
unfoldable pub setting_lines : Text → List Text
setting_lines output =
    let trimmed = trim_space output in
    if trimmed == [] || has_prefix trimmed (ascii "There aren't any ")
    then []
    else map trim_space (split 10 trimmed)

abbrev pub bad_domain : Text → Bool
bad_domain d = ltb 253 (length d) || has_blank d

-- The loop over the search domains in `snapshotService`.
unfoldable pub check_listed : List Text → Check
check_listed [] = pass
check_listed (d ∷ ds) =
    let rest = check_listed ds in
    if bad_domain d then err (message "invalid DNS search domain") else rest

-- The values of a setting command.
abbrev pub or_empty : List Text → List Text
or_empty [] = ascii "empty" ∷ []
or_empty (v ∷ vs) = v ∷ vs

abbrev pub get_servers : Text
get_servers = ascii "-getdnsservers"

abbrev pub get_domains : Text
get_domains = ascii "-getsearchdomains"

abbrev pub set_servers : Text
set_servers = ascii "-setdnsservers"

abbrev pub set_domains : Text
set_domains = ascii "-setsearchdomains"

module _ (go : Formats) where
  -- `addresses`
  abbrev pub addresses : List Addr → List Text
  addresses = map go.addr_text

  abbrev pub usable : Text → Option Addr → Outcome Addr
  usable line none = err (message "invalid DNS server")
  usable line (some a) =
      if Address.is_unspecified a || Address.is_multicast a
      then err (message "invalid DNS server")
      else ok a

  abbrev pub cons_server : Outcome Addr → Outcome (List Addr) → Outcome (List Addr)
  cons_server (ok a) (ok rest) = ok (a ∷ rest)
  cons_server (ok a) e = e
  cons_server (err e) rest = err e
  cons_server panic rest = panic

  -- The loop over the lines in `snapshotService`.
  unfoldable pub parse_servers : List Text → Outcome (List Addr)
  parse_servers [] = ok []
  parse_servers (l ∷ ls) = cons_server (usable l (go.parse_addr l)) (parse_servers ls)

  -- `snapshotForService`
  unfoldable pub snapshot_for : ServiceDns → DnsSnapshot
  snapshot_for s = record {
    revision = go.digest (
        s.service_id
        ++ 0 ∷ join_with (0 ∷ []) (addresses s.servers)
        ++ 1 ∷ join_with (0 ∷ []) s.search_domains);
    services = s ∷ [];
  }

abbrev pub setup_path : Text → Text
setup_path path = if path == [] then ascii "/usr/sbin/networksetup" else path

module _ {S : Type 0} where
  -- `DNSManager.run`; a manager without a runner is `none`.
  unfoldable pub run : Option (Runner S) → Text → List Text → Action S Text
  run none path arguments = raise (message "Darwin DNS runner is missing")
  run (some r) path arguments = r (setup_path path) arguments

-- `domainsOwned` and `domainsOriginal`
abbrev pub domains_owned : Option (List Text) → List Text → Bool
domains_owned none current = true
domains_owned (some ds) current = current == ds

abbrev pub domains_original : Option (List Text) → List Text → List Text → Bool
domains_original none original current = true
domains_original (some ds) original current = current == original

module _ {S : Type 0} where
  abbrev pub when : Bool → Action S (Unit {0}) → Action S (Unit {0})
  when true m = m
  when false m = pure tt

module _ {S : Type 0} (go : Formats) (runner : Option (Runner S)) (path : Text) where
  -- `DNSManager.set`
  unfoldable pub set : Text → Text → List Text → Action S (Unit {0})
  set operation service values = do run runner path (operation ∷ service ∷ or_empty values); pure tt

  -- `DNSManager.snapshotService`
  unfoldable pub snapshot_service : Text → Action S ServiceDns
  snapshot_service service = do
    output ← within "read DNS servers" (run runner path (get_servers ∷ service ∷ []))
    servers ← lift (parse_servers go (setting_lines output))
    printed ← within "read DNS search domains" (run runner path (get_domains ∷ service ∷ []))
    let domains = setting_lines printed
    lift (check_listed domains)
    pure (record { service_id = service; servers = servers; search_domains = domains })

  -- `DNSManager.Snapshot`
  unfoldable pub snapshot : DnsConfig → Action S DnsSnapshot
  snapshot config = do
    lift (validate_dns_config config)
    service ← snapshot_service config.service_id
    pure (snapshot_for go service)

  abbrev pub apply_domains : Text → Option (List Text) → Action S (Unit {0})
  apply_domains service none = pure tt
  apply_domains service (some ds) = within "set DNS search domains" (set set_domains service ds)

  -- `DNSManager.Apply`
  unfoldable pub apply : DnsConfig → Action S (Unit {0})
  apply config = do
    lift (validate_dns_config config)
    within "set DNS servers" (set set_servers config.service_id (addresses go config.servers))
    apply_domains config.service_id config.search_domains

  -- What `RestoreIfOwned` does once it has read the current settings.
  unfoldable pub restore_current : ServiceDns → DnsConfig → ServiceDns → Action S (Unit {0})
  restore_current original applied current = do
    let s_owned = current.servers == applied.servers
    let s_original = current.servers == original.servers
    let d_owned = domains_owned applied.search_domains current.search_domains
    let d_original =
        domains_original applied.search_domains original.search_domains current.search_domains
    when (not s_owned && not s_original || not d_owned && not d_original)
        (raise (sentinel dns_conflict))
    when (d_owned && not d_original) (
        within "restore DNS search domains"
          (set set_domains applied.service_id original.search_domains))
    when (s_owned && not s_original) (
        within "restore DNS servers"
          (set set_servers applied.service_id (addresses go original.servers)))

  abbrev pub restore_to : List ServiceDns → DnsConfig → Action S (Unit {0})
  restore_to (original ∷ []) applied =
      if original.service_id == applied.service_id
      then snapshot_service applied.service_id >>= restore_current original applied
      else raise (message "DNS pre-image does not match the applied service")
  restore_to _ applied = raise (message "DNS pre-image does not match the applied service")

  -- `DNSManager.RestoreIfOwned`
  unfoldable pub restore_if_owned : DnsSnapshot → DnsConfig → Action S (Unit {0})
  restore_if_owned before applied =
      lift (validate_dns_config applied) >> restore_to before.services applied
