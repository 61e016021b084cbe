-- ===== src/Tunnel/Tests.antt =====
-- Runs of the controller on concrete plans, and the theorems at concrete inputs.
use nordmac.Base.{
  sym, subst, take-append-drop, ℤ, Text, pos, panic, err, Error, message, sentinel, Sentinel,
  Sentinel-discrete, ◌≢◌, ◌⊎◌, inl, arith, take, drop, ◌≡◌, refl, List, [], ◌∷◌, Option, none, some,
  Check, pass, true, ok, ℕ_discrete, Text-discrete, ℤ-discrete, contains, is_error, Outcome,
  reject_if, context, ◌>>◌,
}
use nordmac.Netip.{Addr-discrete, Prefix-discrete}
use nordmac.Netip.Address.{
  unmap, is_multicast, is_private, is_global_unicast, is_multicast_plain, is_private_plain,
  is_global_unicast_plain,
}
use nordmac.Netip.Prefixes.{mask_bits}
use nordmac.Patterns.{every, some_byte, valid_session_id, is_fingerprint, is_interface, has_control}
use nordmac.Tunnel.Types.{
  connected, disconnected, Route-discrete, Phase-discrete, StepKind-discrete, StepStatus-discrete,
  Journal, Plan,
}
use nordmac.Tunnel.Plan.{
  validate_plan, tunnel_routes, bad_scoped, hits_physical, check_scoped, check_policy, check_dns,
  bad_endpoint, bad_gateway, bad_tunnel_address, validate_route, validate_handle,
}
use nordmac.Tunnel.Journal.{
  validate_journal, expected_kinds, route_preimage_differs, check_preimage_servers,
  check_preimage_domains, check_services, check_planned_service, check_dns_preimage,
  validate_preimages, check_entry, check_entries, check_tunnel_routes, check_device_entry,
  check_endpoint_entry, check_tunnel_entries, check_statuses, check_phase,
}
use nordmac.Tunnel.Phases.{allowed_transition, validate_physical_preimage}
use nordmac.Tunnel.World.{Call, load_journal, World, History, State, edit, perform}
use nordmac.Tunnel.Zero.{zero_journal}
use nordmac.Base.Actions.{pure, raise, lift, gets, map_error, attempt, finally, ◌>>=◌}
use nordmac.Tunnel.Connect.{
  connect, validate_common, validate_dependencies, add_tunnel_routes, create_tunnel_device,
  apply_tunnel_dns, verify_tunnel, establish, take_dns, prepare, connect_locked,
}
use nordmac.Tunnel.Steps.{
  stamp, update, record_intent, set_status, mark_applied, apply_route, set_phase,
}
use nordmac.Tunnel.Rollback.{
  compensate, settle, rollback_entry, rollback_entries, enter_phase, begin_rollback,
  finish_rollback, rollback,
}
use nordmac.Tunnel.Disconnect.{validate_disconnect, recover, disconnect_locked, disconnect}
use nordmac.Tunnel.Validity.Total.{validate_journal-ne-panic}
use nordmac.Tunnel.Safety.Host.{owned, on_disk, IsSafe, IsClear}
use nordmac.Tunnel.Safety.Rollback.{IsIncomplete}
use nordmac.Tunnel.Safety.Whole.{release_failed, connect-IsSafe, connect-IsUndone, connect-ne-panic}
use nordmac.Tunnel.Safety.Disconnect.{
  MayBe, IsHonestStore, disconnect-IsClear, disconnect-IsSafe, disconnect-ne-panic,
}
use nordmac.Tunnel.Safety.Crash.{IsSafe-suffix, crash-disconnect-IsClear}
use nordmac.Tunnel.Examples.{session, full_plan, scoped_plan, calm, failing_at}

abbrev start : State
start = record { journal = zero_journal; history = [] }

-- The validation of plans, computing.
run_plan : Plan → Check
unfolding reject_if context ◌>>◌ validate_plan check_policy check_scoped bad_scoped hits_physical
    check_dns bad_endpoint bad_gateway bad_tunnel_address validate_route validate_handle every
    some_byte valid_session_id is_fingerprint is_interface has_control unmap is_multicast is_private
    is_global_unicast is_multicast_plain is_private_plain is_global_unicast_plain mask_bits
    ℕ_discrete Text-discrete ℤ-discrete Addr-discrete Prefix-discrete contains
run_plan = validate_plan

full_plan_valid : run_plan full_plan ≡ pass
unfolding run_plan
full_plan_valid = refl

scoped_plan_valid : run_plan scoped_plan ≡ pass
unfolding run_plan
scoped_plan_valid = refl

-- Whole runs of the controller, computing.
run_connect : World → Plan → State → Outcome (Unit {0}) × State
unfolding run_plan validate_journal expected_kinds route_preimage_differs check_preimage_servers
    check_preimage_domains check_services check_planned_service check_dns_preimage
    validate_preimages check_entry check_entries check_tunnel_routes check_device_entry
    check_endpoint_entry check_tunnel_entries check_statuses check_phase allowed_transition
    validate_physical_preimage tunnel_routes Route-discrete Phase-discrete StepKind-discrete
    StepStatus-discrete pure raise lift gets map_error attempt finally ◌>>=◌ edit perform stamp
    update record_intent set_status mark_applied apply_route set_phase compensate settle
    rollback_entry rollback_entries enter_phase begin_rollback finish_rollback rollback
    validate_common validate_dependencies add_tunnel_routes create_tunnel_device apply_tunnel_dns
    verify_tunnel establish take_dns prepare connect_locked connect is_error Sentinel-discrete
run_connect w p s = connect w p s

run_disconnect : World → Text → ℤ → State → Outcome (Unit {0}) × State
unfolding run_connect validate_disconnect recover disconnect_locked disconnect on_disk
run_disconnect w id owner s = disconnect w id owner s

connected_run : (run_connect calm full_plan start).1.journal.phase ≡ connected
unfolding run_connect
connected_run = refl

-- The call that verifies the tunnel fails, and all is undone.
undone_run : (run_connect (failing_at 26) full_plan start).1.journal.phase ≡ disconnected
unfolding run_connect
undone_run = refl

-- A journal of a connected tunnel is valid.
connected_journal_valid : validate_journal (run_connect calm full_plan start).1.journal ≡ pass
unfolding run_connect
connected_journal_valid = refl

nothing_owned : IsClear []
unfolding owned
nothing_owned x = refl

nothing_unsafe : IsSafe []
unfolding owned
nothing_unsafe x h = cc

error_or : Outcome (Unit {0}) → Error
error_or (err e) = e
error_or r = message "none"

-- The journal store over what is on disk.
load_error : List (Option Journal) → Call → Option Error
load_error (none ∷ cs) (load_journal id) = some (sentinel Sentinel.journal_not_found)
load_error [] (load_journal id) = some (message "no disk")
load_error _ call = none

load_value : List (Option Journal) → Journal
load_value (some j ∷ cs) = j
load_value _ = zero_journal

abbrev disk_world : World
disk_world = record calm {
  fails = λ h c call. load_error (on_disk h) call;
  stored = λ h id. load_value (on_disk h);
}

loads_from :
    (id : Text) (cs : List (Option Journal))
    → load_error cs (load_journal id) ≡ none
    → MayBe (some (load_value cs)) cs
unfolding load_error load_value
loads_from id [] h = cc
loads_from id (none ∷ cs) h = cc
loads_from id (some j ∷ cs) h = inl refl

misses_from :
    (id : Text) (cs : List (Option Journal)) (e : Error)
    → load_error cs (load_journal id) ≡ some e
    → is_error e Sentinel.journal_not_found ≡ true
    → MayBe none cs
unfolding load_error is_error
misses_from id [] e h q = absurd (ground arith)
misses_from id (none ∷ cs) e h q = inl refl
misses_from id (some j ∷ cs) e h q = cc

disk_world_honest : (id : Text) → IsHonestStore disk_world id
disk_world_honest id = record {
  loads = λ h c fine. loads_from id (on_disk h) fine;
  misses = λ h c e missed q. misses_from id (on_disk h) e missed q;
}

connect-IsSafe_example : IsSafe (connect (failing_at 20) full_plan start).1.history
connect-IsSafe_example = connect-IsSafe (failing_at 20) full_plan start nothing_unsafe nothing_owned

abbrev failed_error : Error
failed_error = error_or (run_connect (failing_at 26) full_plan start).0

connect-IsUndone_example :
    let h = (connect (failing_at 26) full_plan start).1.history in
    IsClear h ⊎ IsIncomplete failed_error ⊎ (release_failed h ≡ true)
unfolding run_connect error_or
connect-IsUndone_example =
    connect-IsUndone (failing_at 26) full_plan start failed_error nothing_unsafe nothing_owned refl

connect-ne-panic_example : (connect (failing_at 3) full_plan start).0 ≢ panic
connect-ne-panic_example =
    connect-ne-panic (failing_at 3) full_plan start nothing_unsafe nothing_owned

abbrev full_history : History
full_history = (connect calm full_plan start).1.history

-- The state of a host whose connect stopped after thirteen calls.
abbrev after_crash : State
after_crash = record { journal = zero_journal; history = drop 16 full_history }

recovers : (disconnect disk_world session (pos 501) after_crash).0 ≡ ok tt
unfolding run_disconnect load_error load_value
recovers = refl

crash-disconnect-IsClear_example :
    IsClear (disconnect disk_world session (pos 501) after_crash).1.history
crash-disconnect-IsClear_example =
    crash-disconnect-IsClear calm full_plan start (take 16 full_history) (drop 16 full_history)
      disk_world zero_journal session (pos 501) nothing_unsafe nothing_owned
      (sym (take-append-drop 16 full_history)) (disk_world_honest session) recovers

disconnect-IsSafe_example : IsSafe (disconnect disk_world session (pos 501) start).1.history
disconnect-IsSafe_example =
    disconnect-IsSafe disk_world session (pos 501) start (disk_world_honest session) nothing_unsafe

disconnect-ne-panic_example : (disconnect disk_world session (pos 501) start).0 ≢ panic
disconnect-ne-panic_example =
    disconnect-ne-panic disk_world session (pos 501) start (disk_world_honest session)
      nothing_unsafe

validate_journal-ne-panic_example : validate_journal zero_journal ≢ panic
validate_journal-ne-panic_example = validate_journal-ne-panic zero_journal

abbrev crashed_safe : IsSafe after_crash.history
crashed_safe = IsSafe-suffix (take 16 full_history) (drop 16 full_history) (
    subst IsSafe (sym (take-append-drop 16 full_history))
      (connect-IsSafe calm full_plan start nothing_unsafe nothing_owned))

disconnect-IsClear_example : IsClear (disconnect disk_world session (pos 501) after_crash).1.history
disconnect-IsClear_example =
    disconnect-IsClear disk_world session (pos 501) after_crash (disk_world_honest session)
      crashed_safe recovers
