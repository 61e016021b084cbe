-- ===== src/Devices/Tests.antt =====
-- A device through its life, and the theorem at it.
use nordmac.Base.{
  refl, ℕ, suc, zero, Bool, true, false, Option, none, some, [], ◌∷◌, Text, Error, message, pos,
  arith, text_eq, nat_eq, int_eq,
}
use nordmac.Netip.{v4}
use nordmac.Tunnel.Types.{DeviceSpec}
use nordmac.Helper.Protocol.{DeviceSecrets}
use nordmac.Devices.Manager.{Call, configure, World, Manager}
use nordmac.Devices.Owned.{is_open, IsTracked}
use nordmac.Devices.Once.{created, IsOnce, run-IsOnce}
use nordmac.Devices.Runs.{create_device, delete_device, ask_snapshot, run, run-IsTracked}

abbrev keys : DeviceSecrets
keys = record { client_private_key = 1 ∷ []; peer_public_key = 2 ∷ [] }

abbrev repeated : ℕ → Text
repeated zero = []
repeated (suc n) = b'a' ∷ repeated n

abbrev session : Text
session = repeated 32

abbrev spec_of : Text → DeviceSpec
spec_of print = record {
  session_id = session;
  address = record { addr = v4 168099842; bits_plus_one = 17 };
  mtu = pos 1420;
  endpoint = record { addr = v4 3221225991; port = 51820 };
  peer_fingerprint = print;
}

-- Runtimes whose configuration fails when asked.
abbrev refuses : Bool → Call → Option Error
refuses true (configure n spec) = some (message "refused")
refuses b c = none

abbrev runtimes : Bool → World
runtimes b = record {
  fails = λ h c. refuses b c;
  name = λ n. b'u' ∷ b't' ∷ b'u' ∷ b'n' ∷ b'7' ∷ [];
  snapshot = λ h n. record { last_handshake = 5; transmitted = 1; received = 1 };
  cancelled = λ h. none;
  has_secrets = true;
  has_factory = true;
  has_addresses = true;
  device_only = false;
  pid = pos 7;
  digest = λ t. repeated 64;
}

abbrev new_manager : Manager
new_manager = record {
  source = record { session_id = session; secrets = keys; consumed = false };
  sessions = [];
  history = [];
}

run-IsTracked_example :
    let os =
      create_device (spec_of (repeated 64))
      ∷ ask_snapshot session
      ∷ delete_device session none
      ∷ [] in
    IsTracked (run (runtimes true) os new_manager)
unfolding is_open
run-IsTracked_example =
    run-IsTracked (runtimes true)
      (create_device (spec_of (repeated 64))
        ∷ ask_snapshot session
        ∷ delete_device session none
        ∷ [])
      new_manager (λ n h. ground (arith, h))

run-IsOnce_example :
    let os = create_device (spec_of (repeated 64)) ∷ create_device (spec_of (repeated 64)) ∷ [] in
    IsOnce (run (runtimes false) os new_manager)
unfolding created
run-IsOnce_example =
    run-IsOnce (runtimes false)
      (create_device (spec_of (repeated 64)) ∷ create_device (spec_of (repeated 64)) ∷ [])
      new_manager (ground arith, λ h. refl)
