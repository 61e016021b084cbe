-- ===== src/Store/Tests.antt =====
-- A journal file through its life, and the theorems at it.
use nordmac.Base.{
  Bool, true, false, Option, none, some, List, [], ◌∷◌, Text, Error, message, sentinel, Sentinel,
  Sentinel-discrete, is_error, Outcome, pass, ◌≡◌, subst, refl, inl, contains, reject_if, context,
  ◌>>◌, ℕ_discrete, Text-discrete, ℤ-discrete, arith,
}
use mathlib.Core.Option.{some-injective}
use nordmac.Base.Actions.{pure, raise, lift, gets, map_error, attempt, cleanup, ◌>>=◌}
use nordmac.Base.Triples.{Post}
use nordmac.Store.Locks.{acquire, release, Released}
use nordmac.Store.Held.{is_open, is_locked, IsFree, IsHeld, acquire-IsHeld, release-IsFree}
use nordmac.Base.Calls.{perform}
use nordmac.Netip.{Addr-discrete, Prefix-discrete}
use nordmac.Netip.Address.{
  unmap, is_multicast, is_private, is_global_unicast, is_multicast_plain, is_private_plain,
  is_global_unicast_plain,
}
use nordmac.Netip.Prefixes.{mask_bits}
use nordmac.Patterns.{every, some_byte, valid_session_id, is_fingerprint, is_interface, has_control}
use nordmac.Tunnel.Types.{
  Journal, Route-discrete, Phase-discrete, StepKind-discrete, StepStatus-discrete,
}
use nordmac.Tunnel.Plan.{
  validate_plan, tunnel_routes, bad_scoped, hits_physical, check_scoped, check_policy, check_dns,
  bad_endpoint, bad_gateway, bad_tunnel_address, validate_route, validate_handle,
}
use nordmac.Tunnel.Journal.{
  validate_journal, expected_kinds, route_preimage_differs, check_preimage_servers,
  check_preimage_domains, check_services, check_planned_service, check_dns_preimage,
  validate_preimages, check_entry, check_entries, check_tunnel_routes, check_device_entry,
  check_endpoint_entry, check_tunnel_entries, check_statuses, check_phase,
}
use nordmac.Tunnel.Connect.{new_journal}
use nordmac.Tunnel.World.{create_journal, update_journal, delete_journal}
use nordmac.Tunnel.Safety.Disconnect.{MayBe}
use nordmac.Tunnel.Examples.{session, full_plan, host_route, host_dns, calm}
use nordmac.Helper.Frames.{Codec}
use nordmac.Store.Info.{Info, validate_private_info}
use nordmac.Store.Files.{
  FilePath, directory, Call, open_read, read, History, World, check_context, ensure_directory,
}
use nordmac.Store.Journals.{path, load_open, load}
use nordmac.Store.Contents.{Content, absent, unknown, known, journal_holds, IsAmong, IsHonest}
use nordmac.Store.Refines.{Refines}
use nordmac.Store.Calls.{run, run-Refines}
use nordmac.Store.Load.{load-MayBe, load-not_found}

abbrev fresh : Journal
fresh = new_journal calm full_plan (record { default_route = host_route }) host_dns 1000

-- A codec of this one journal.
abbrev one_codec : Codec Journal
one_codec = record { marshal = λ j. some (b'{' ∷ b'}' ∷ []); unmarshal = λ d. some (fresh, true) }

abbrev private_dir : Info
private_dir = record {
  permissions = 448;
  is_dir = true;
  is_regular = false;
  is_symlink = false;
  has_stat = true;
  uid = 0;
}

abbrev private_file : Info
private_file = record private_dir { permissions = 384; is_dir = false; is_regular = true }

abbrev info_of : FilePath → Info
info_of directory = private_dir
info_of p = private_file

abbrev open_error : List Content → Option Error
open_error (absent ∷ cs) = some (sentinel Sentinel.not_exist)
open_error cs = none

abbrev read_error : List Content → Option Error
read_error (known t ∷ cs) = none
read_error cs = some (message "unreadable")

abbrev read_text : List Content → Text
read_text (known t ∷ cs) = t
read_text cs = []

abbrev answer : List Content → Call → Option Error
answer cs (open_read p) = open_error cs
answer cs (read p) = read_error cs
answer cs c = none

-- A file system that holds what it was told to.
abbrev disk : List Content → World
disk start = record {
  fails = λ h c. answer (journal_holds start session h) c;
  info = λ h p. info_of p;
  suffix = λ h. b'0' ∷ [];
  contents = λ h p. read_text (journal_holds start session h);
  cancelled = λ h. none;
  geteuid = 0;
}

reads_first : (cs : List Content) → read_error cs ≡ none → IsAmong (known (read_text cs)) cs
reads_first [] h = ground (arith, h)
reads_first (known t ∷ cs) h = inl refl
reads_first (absent ∷ cs) h = ground (arith, h)
reads_first (unknown ∷ cs) h = ground (arith, h)

misses_first : (cs : List Content) (e : Error) → open_error cs ≡ some e → IsAmong absent cs
misses_first [] e h = ground (arith, h)
misses_first (absent ∷ cs) e h = inl refl
misses_first (known t ∷ cs) e h = ground (arith, h)
misses_first (unknown ∷ cs) e h = ground (arith, h)

not_missing : Error → Bool
not_missing e = is_error e Sentinel.journal_not_found

open_plain : (cs : List Content) (e : Error) → open_error cs ≡ some e → not_missing e ≡ false
unfolding not_missing is_error Sentinel-discrete
open_plain [] e h = ground (arith, h)
open_plain (absent ∷ cs) e h = subst (λ x. not_missing x ≡ false) (some-injective _ e h) refl
open_plain (known t ∷ cs) e h = ground (arith, h)
open_plain (unknown ∷ cs) e h = ground (arith, h)

read_plain : (cs : List Content) (e : Error) → read_error cs ≡ some e → not_missing e ≡ false
unfolding not_missing is_error
read_plain [] e h = subst (λ x. not_missing x ≡ false) (some-injective _ e h) refl
read_plain (absent ∷ cs) e h = subst (λ x. not_missing x ≡ false) (some-injective _ e h) refl
read_plain (known t ∷ cs) e h = ground (arith, h)
read_plain (unknown ∷ cs) e h = subst (λ x. not_missing x ≡ false) (some-injective _ e h) refl

no_sentinel :
    (cs : List Content) (c : Call) (e : Error) → answer cs c ≡ some e → not_missing e ≡ false
no_sentinel cs (open_read p) e h = open_plain cs e h
no_sentinel cs (read p) e h = read_plain cs e h
no_sentinel cs _ e h = absurd (ground (arith, h))

disk_answers : (start : List Content) → IsHonest start session (disk start)
unfolding not_missing
disk_answers start = record {
  reads = λ h fine. reads_first (journal_holds start session h) fine;
  misses = λ h e failed m. misses_first (journal_holds start session h) e failed;
  foreign = λ h c e failed. no_sentinel (journal_holds start session h) c e failed;
  foreign_context = λ h e failed. ground (arith, failed);
}

fresh_valid : validate_journal fresh ≡ pass
unfolding reject_if context ◌>>◌ validate_plan check_policy check_scoped bad_scoped hits_physical
    check_dns bad_endpoint bad_gateway bad_tunnel_address validate_route validate_handle every
    some_byte valid_session_id is_fingerprint is_interface has_control unmap is_multicast is_private
    is_global_unicast is_multicast_plain is_private_plain is_global_unicast_plain mask_bits
    ℕ_discrete Text-discrete ℤ-discrete Addr-discrete Prefix-discrete contains validate_journal
    expected_kinds route_preimage_differs check_preimage_servers check_preimage_domains
    check_services check_planned_service check_dns_preimage validate_preimages check_entry
    check_entries check_tunnel_routes check_device_entry check_endpoint_entry check_tunnel_entries
    check_statuses check_phase tunnel_routes Route-discrete Phase-discrete StepKind-discrete
    StepStatus-discrete
fresh_valid = refl

run-Refines_example :
    let calls = create_journal fresh ∷ update_journal fresh ∷ delete_journal session ∷ [] in
    let ended =
      run (absent ∷ []) session (disk (absent ∷ [])) one_codec true calls (none ∷ []) [] in
    Refines (absent ∷ []) session (disk (absent ∷ [])) one_codec true ended.0 ended.1
unfolding journal_holds
run-Refines_example =
    run-Refines (absent ∷ []) session (disk (absent ∷ [])) one_codec true
      (create_journal fresh ∷ update_journal fresh ∷ delete_journal session ∷ []) (none ∷ []) []
      (refl, (refl, (refl, tt))) (inl (refl, tt), tt)

-- What the file holds once it was created.
abbrev stored : List Content
stored = known (b'{' ∷ b'}' ∷ 10 ∷ []) ∷ []

-- Loading, computing.
run_load : World → Text → History → Outcome Journal × History
unfolding fresh_valid load load_open path check_context ensure_directory validate_private_info
    journal_holds perform pure raise lift gets map_error attempt cleanup ◌>>=◌ is_error
    Sentinel-discrete
run_load w id h = load w true one_codec id h

load-MayBe_example : MayBe (some fresh) (some fresh ∷ [])
unfolding run_load
load-MayBe_example =
    load-MayBe stored session (disk stored) one_codec true (disk_answers stored) (some fresh ∷ [])
      (λ d h. refl, tt) fresh [] (inl (refl, fresh_valid), tt) refl

load-not_found_example : MayBe none (none ∷ [])
unfolding run_load
load-not_found_example =
    load-not_found (absent ∷ []) session (disk (absent ∷ [])) one_codec true
      (disk_answers (absent ∷ [])) (none ∷ []) (tt, tt) (sentinel Sentinel.journal_not_found) []
      (inl (refl, tt), tt) refl refl

acquire-IsHeld_example :
    let r = acquire (disk (absent ∷ [])) true session [] in Post (λ _. IsHeld) (λ _. IsFree) r.0 r.1
unfolding is_open is_locked
acquire-IsHeld_example = acquire-IsHeld (disk (absent ∷ [])) true session [] (refl, refl)

release-IsFree_example :
    let h = (acquire (disk (absent ∷ [])) true session []).1 in
    let s : Released = record { kept = none; history = h } in
    let r = release (disk (absent ∷ [])) true s in
    IsFree r.1.history × (release (disk (absent ∷ [])) true r.1 ≡ r)
release-IsFree_example =
    release-IsFree (disk (absent ∷ [])) true (acquire (disk (absent ∷ [])) true session []).1
