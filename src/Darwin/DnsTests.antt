-- ===== src/Darwin/DnsTests.antt =====
-- `RestoreIfOwned` on a host whose only service still has the servers of a tunnel.
use nordmac.Darwin.Undone.{IsTextForm, IsBack, OnlyService, Triple-undone}
use nordmac.Base.{
  ℕ, Option, ap, zero, suc, Bool, true, false, none, some, List, [], ◌∷◌, Outcome, ite, Text, ◌==◌,
  nat_eq, text_eq, ok, err, Error, message, if◌then◌else◌, ◌≡◌, ◌≢◌, refl, sym, subst, ◌∙◌,
  Text-discrete, ℕ_discrete,
}
use nordmac.Base.Actions.{Action, attempt, ◌>>=◌, ◌>>◌}
use nordmac.Base.Triples.{Triple, Post}
use nordmac.Netip.{Addr, zero_addr, v4, v6, Addr-discrete}
use nordmac.Strings.{ascii, split, trim_space, trim_from}
use nordmac.Tunnel.Types.{ServiceDns, DnsConfig, DnsSnapshot}
use nordmac.Darwin.Dns.{
  Runner, Formats, setup_path, texts_eq, setting_lines, get_servers, get_domains, set_servers,
  set_domains, parse_servers, restore_if_owned, snapshot, apply,
}
use nordmac.Darwin.Network.{listed, NetworkSetup}
use nordmac.Darwin.Restore.{KeepsServers, KeepsDomains, IsRestored, Triple-restore_if_owned}

data Host : Type 0 where
  has_original has_applied : Host

abbrev wifi : Text
wifi = ascii "Wi-Fi"

abbrev first_server : Text
first_server = ascii "1.1.1.1"

abbrev tunnel_server : Text
tunnel_server = ascii "9.9.9.9"

abbrev formats : Formats
formats = record {
  parse_addr = λ t.
      if t == first_server
      then some (v4 0x01010101)
      else if t == tunnel_server
      then some (v4 0x09090909)
      else none;
  addr_text =
      λ a. if ite (Addr-discrete a (v4 0x01010101)) true false then first_server else tunnel_server;
  digest = λ t. t;
}

abbrev server_of : Host → Text
server_of has_original = first_server
server_of has_applied = tunnel_server

-- A command that only sets the original server back.
abbrev answer : Bool → Bool → Bool → Bool → Host → Outcome Text × Host
answer true get_s set_s back s =
    if get_s
    then (ok (server_of s), s)
    else if set_s
    then (if back then (ok [], has_original) else (err (message "refused"), s))
    else (ok [], s)
answer false get_s set_s back s = if set_s then (err (message "unknown"), s) else (ok [], s)

abbrev host_run : Runner Host
host_run path [] s = (err (message "usage"), s)
host_run path (op ∷ []) s = (err (message "usage"), s)
host_run path (op ∷ x ∷ vs) s =
    if op == set_domains
    then (err (message "refused"), s)
    else answer (x == wifi) (op == get_servers) (op == set_servers) (vs == first_server ∷ []) s

abbrev servers_if : Bool → Host → List Text
servers_if true s = server_of s ∷ []
servers_if false s = []

abbrev setup : Text
setup = ascii "/usr/sbin/networksetup"

abbrev no_domains : Host → Text → List Text
no_domains s x = []

reads_domains :
    (b : Bool) (s : Host)
    → Post
        (λ out t. (t ≡ s) × (setting_lines out ≡ []))
        (λ _ t. t ≡ s)
        (answer b false false false s).0
        (answer b false false false s).1
unfolding setting_lines split trim_space trim_from Text-discrete ℕ_discrete
reads_domains true s = (refl, refl)
reads_domains false s = (refl, refl)

from_here :
    {A : Type 0} (m : Action Host A) (Q : A → Host → Type 0) (E : Error → Host → Type 0) (s : Host)
    → Post Q E (m s).0 (m s).1
    → Triple (λ t. t ≡ s) m Q E
from_here m Q E s h = record { at = λ t e. subst (λ u. Post Q E (m u).0 (m u).1) (sym e) h }

reads_servers :
    (b : Bool) (s : Host)
    → Post
        (λ out t. (t ≡ s) × (setting_lines out ≡ servers_if b s))
        (λ _ t. t ≡ s)
        (answer b true false false s).0
        (answer b true false false s).1
unfolding setting_lines split trim_space trim_from Text-discrete ℕ_discrete
reads_servers true has_original = (refl, refl)
reads_servers true has_applied = (refl, refl)
reads_servers false s = (refl, refl)

sets_servers :
    (x : Text) (vs : List Text) (d : Dec (x ≡ wifi)) (c : Dec (vs ≡ first_server ∷ [])) (s : Host)
    → Post
        (λ _ t.
          (no_domains t ≡ no_domains s)
          × (servers_if (ite d true false) t ≡ listed vs)
          × ((y : Text) → y ≢ x → servers_if (y == wifi) t ≡ servers_if (y == wifi) s))
        (λ _ t.
          (no_domains t ≡ no_domains s)
          × ((y : Text) → y ≢ x → servers_if (y == wifi) t ≡ servers_if (y == wifi) s))
        (answer (ite d true false) false true (ite c true false) s).0
        (answer (ite d true false) false true (ite c true false) s).1
unfolding Text-discrete ℕ_discrete
sets_servers x vs (yes d) (yes c) s =
    (refl, subst (λ l. first_server ∷ [] ≡ listed l) (sym c) refl, other s)
  where
    other :
        (s : Host) (y : Text)
        → y ≢ x
        → servers_if (y == wifi) has_original ≡ servers_if (y == wifi) s
    other s y n = by_service (Text-discrete y wifi)
      where
        by_service :
            (q : Dec (y ≡ wifi))
            → servers_if (ite q true false) has_original ≡ servers_if (ite q true false) s
        by_service (yes e) = absurd (n (e ∙ sym d))
        by_service (no _) = refl
sets_servers x vs (yes d) (no c) s = (refl, λ y n. refl)
sets_servers x vs (no d) c s = (refl, λ y n. refl)

host : NetworkSetup host_run (setup_path [])
unfolding setting_lines split trim_space trim_from Text-discrete ℕ_discrete
host = record {
  servers = λ s x. servers_if (x == wifi) s;
  domains = no_domains;
  reads_servers =
      λ x s. from_here (host_run setup (get_servers ∷ x ∷ [])) _ _ s (reads_servers (x == wifi) s);
  reads_domains =
      λ x s. from_here (host_run setup (get_domains ∷ x ∷ [])) _ _ s (reads_domains (x == wifi) s);
  sets_servers = λ x vs s.
      from_here (host_run setup (set_servers ∷ x ∷ vs)) _ _ s
        (sets_servers x vs (Text-discrete x wifi) (texts_eq.dec vs (first_server ∷ [])) s);
  sets_domains =
      λ x vs s. from_here (host_run setup (set_domains ∷ x ∷ vs)) _ _ s (refl, λ y n. refl);
}

abbrev service_of : Addr → ServiceDns
service_of a = record { service_id = wifi; servers = a ∷ []; search_domains = [] }

abbrev before : DnsSnapshot
before = record { revision = []; services = service_of (v4 0x01010101) ∷ [] }

abbrev applied : DnsConfig
applied = record { service_id = wifi; servers = v4 0x09090909 ∷ []; search_domains = none }

Triple-restore_if_owned_example :
    Triple
      (λ t. t ≡ has_applied)
      (restore_if_owned formats (some host_run) [] before applied)
      (λ _ t.
        KeepsServers formats host_run [] host (service_of (v4 0x01010101)) applied has_applied t
        × KeepsDomains formats host_run [] host (service_of (v4 0x01010101)) applied has_applied t
        × IsRestored formats host_run [] host (service_of (v4 0x01010101)) applied has_applied t)
      (λ _ t.
        KeepsServers formats host_run [] host (service_of (v4 0x01010101)) applied has_applied t
        × KeepsDomains formats host_run [] host (service_of (v4 0x01010101)) applied has_applied t)
unfolding parse_servers Text-discrete ℕ_discrete Addr-discrete nordmac.Netip.Address.is_multicast
Triple-restore_if_owned_example =
    Triple-restore_if_owned formats host_run [] host before (service_of (v4 0x01010101)) applied
      has_applied refl refl refl

-- Text forms that can be read back: those of the two servers, and the number behind a tag.
abbrev v4_text : Bool → Bool → ℕ → Text
v4_text true b n = first_server
v4_text false true n = tunnel_server
v4_text false false n = 1 ∷ n ∷ []

abbrev tagged_text : Addr → Text
tagged_text zero_addr = 0 ∷ []
tagged_text (v4 n) = v4_text (n == 0x01010101) (n == 0x09090909) n
tagged_text (v6 n z) = 2 ∷ n ∷ z

abbrev from_tag : Text → Option Addr
from_tag (zero ∷ []) = some zero_addr
from_tag (suc zero ∷ n ∷ []) = some (v4 n)
from_tag (suc (suc zero) ∷ n ∷ z) = some (v6 n z)
from_tag _ = none

abbrev text_forms : Formats
text_forms = record {
  parse_addr = λ t.
      if t == first_server
      then some (v4 0x01010101)
      else if t == tunnel_server
      then some (v4 0x09090909)
      else from_tag t;
  addr_text = tagged_text;
  digest = λ t. t;
}

v4_reads_back :
    (n : ℕ) (a : Dec (n ≡ 0x01010101)) (b : Dec (n ≡ 0x09090909))
    → text_forms.parse_addr (v4_text (ite a true false) (ite b true false) n) ≡ some (v4 n)
unfolding Text-discrete ℕ_discrete
v4_reads_back n (yes e) b = ap (λ x. some (v4 x)) (sym e)
v4_reads_back n (no _) (yes e) = ap (λ x. some (v4 x)) (sym e)
v4_reads_back n (no _) (no _) = refl

text_forms-IsTextForm : IsTextForm text_forms
unfolding Text-discrete ℕ_discrete
text_forms-IsTextForm = record { reads_back = λ a. reads_back a; not_empty = refl }
  where
    reads_back : (a : Addr) → text_forms.parse_addr (tagged_text a) ≡ some a
    reads_back zero_addr = refl
    reads_back (v4 n) = v4_reads_back n (ℕ_discrete n 0x01010101) (ℕ_discrete n 0x09090909)
    reads_back (v6 n z) = refl

Triple-undone_example :
    Triple
      (λ t. t ≡ has_original)
      (snapshot text_forms (some host_run) [] applied >>= λ p.
        attempt (apply text_forms (some host_run) [] applied)
        >> restore_if_owned text_forms (some host_run) [] p applied)
      (λ _. IsBack text_forms text_forms-IsTextForm host_run [] host applied has_original)
      (λ _. OnlyService text_forms text_forms-IsTextForm host_run [] host applied has_original)
unfolding host
Triple-undone_example =
    Triple-undone text_forms text_forms-IsTextForm host_run [] host applied has_original (λ e. cc)
