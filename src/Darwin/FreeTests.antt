-- ===== src/Darwin/FreeTests.antt =====
-- The conflict check on a host that has a default route and nothing else.
use nordmac.Base.{
  Option, none, some, ◌≢◌, List, [], ◌∷◌, Text, ◌==◌, text_eq, Outcome, ok, err, message,
  if◌then◌else◌, pass, All, ◌≡◌, refl, reject_if, ◌>>◌, context, Text-discrete, ℕ_discrete,
}
use nordmac.Base.Actions.{pure, lift, map_error, ◌>>=◌}
use nordmac.Base.Triples.{Post}
use nordmac.Netip.{Prefix, v4, Addr-discrete, Prefix-discrete}
use nordmac.Netip.Prefixes
use nordmac.Patterns.{is_interface, every}
use nordmac.Strings.{ascii, split, trim_space, trim_from, cut, includes}
use nordmac.Tunnel.Types.{Route}
use nordmac.Tunnel.Plan.{tunnel_routes, validate_route}
use nordmac.Tunnel.Examples.{full_plan}
use nordmac.Darwin.Dns.{Runner}
use nordmac.Darwin.Fields.{field, fields_from}
use nordmac.Darwin.Routes.{Texts, run_route, inspect_exact, lookup_exact, snapshot, route_path}
use nordmac.Darwin.Table.{RoutingTable}
use nordmac.Darwin.Conflicts.{check, check_snapshot, check_free}
use nordmac.Darwin.Free.{queries, check-table}

abbrev texts : Texts
texts = record {
  parse_addr = λ t. if t == ascii "192.168.1.1" then some (v4 3232235777) else none;
  addr_text = λ a. [];
  prefix_text = λ d. [];
  error_text = λ e. ascii "not in table";
  to_lower = λ t. t;
}

-- Only the lookup of the default route has three arguments after "-n".
abbrev printed : List Text → Outcome Text
printed (n ∷ get ∷ family ∷ default ∷ []) = ok (ascii "gateway: 192.168.1.1\ninterface: en0")
printed _ = err (message "not in table")

abbrev host_run : Runner (Unit {0})
host_run path arguments s = (printed arguments, s)

changes_nothing :
    {Q E : Type 0} (arguments : List Text)
    → Q
    → E
    → Post {S = Unit {0}} {A = Text} (λ _ _. Q) (λ _ _. E) (printed arguments) tt
changes_nothing [] q e = e
changes_nothing (a ∷ []) q e = e
changes_nothing (a ∷ b ∷ []) q e = e
changes_nothing (a ∷ b ∷ c ∷ []) q e = e
changes_nothing (a ∷ b ∷ c ∷ d ∷ []) q e = q
changes_nothing (a ∷ b ∷ c ∷ d ∷ f ∷ l) q e = e

unchanged : (d y : Prefix) → y ≢ d → ◌≡◌ {A = Option Route} none none
unchanged d y n = refl

gone :
    (d : Prefix)
    → (◌≡◌ {A = Option Route} none none) × ((y : Prefix) → y ≢ d → ◌≡◌ {A = Option Route} none none)
gone d = (refl, unchanged d)

host : RoutingTable texts host_run (route_path [])
host = record {
  table = λ s d. none;
  reads = λ d family kind t s n. record { at = λ u e. (refl, λ _. refl) };
  adds = λ d family kind t rest s n. record {
    at = λ u e.
        changes_nothing (ascii "-n" ∷ ascii "add" ∷ family ∷ kind ∷ t ∷ rest) (unchanged d)
          (unchanged d);
  };
  deletes = λ d family kind t rest s n. record {
    at = λ u e.
        changes_nothing (ascii "-n" ∷ ascii "delete" ∷ family ∷ kind ∷ t ∷ rest) (gone d)
          (unchanged d);
  };
}

passes : check (queries texts host_run [] host tt) full_plan ≡ pass
unfolding check check_snapshot check_free snapshot lookup_exact inspect_exact run_route field
    fields_from split trim_space trim_from cut includes reject_if ◌>>◌ context pure lift map_error
    ◌>>=◌ validate_route is_interface every Prefixes.mask_bits Text-discrete ℕ_discrete
    Addr-discrete Prefix-discrete
passes = refl

check-table_example : All (λ x. host.table tt x.destination ≡ none) (tunnel_routes full_plan)
check-table_example = check-table texts host_run [] host full_plan tt refl passes
