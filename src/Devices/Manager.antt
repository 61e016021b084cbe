-- ===== src/Devices/Manager.antt =====
-- `Manager` of internal/wgbackend/backend.go over runtimes that may refuse any call.
use nordmac.Base.{
  ℕ, Bool, true, false, not, ◌&&◌, ◌||◌, Option, none, some, List, [], ◌∷◌, Text, ◌==◌, text_eq,
  int_eq, ℤ, pos, ltb_ℤ, length, Outcome, ok, err, Error, sentinel, Sentinel, reject_if,
  if◌then◌else◌,
}
use nordmac.Base.Actions.{Action, pure, raise, lift, gets, modify, within, attempt, ◌>>=◌, ◌>>◌}
use nordmac.Base.Calls
use nordmac.Base.Calls.{log}
use nordmac.Patterns.{valid_session_id}
use nordmac.Tunnel.Types.{DeviceSpec, DeviceHandle, InterfaceAddress}
use nordmac.Tunnel.Plan.{validate_handle}
use nordmac.Devices.Secrets.{OneShot, is_refused, validate_spec, verify_peer_fingerprint}

-- A runtime is known by the number of calls before the one that created it.
pub data Call : Type 0 where
  create_runtime : ℤ → Call
  configure : ℕ → DeviceSpec → Call
  apply_address : ℕ → InterfaceAddress → Call
  up close_runtime snapshot_runtime : ℕ → Call

abbrev pub History : Type 0
History = Calls.History Call

-- What `Runtime.Snapshot` returns; an instant is a count of nanoseconds, 0 the zero time.
pub record Snapshot : Type 0 where
  pub last_handshake : ℕ
  pub transmitted : ℕ
  pub received : ℕ

-- The runtimes, which of the fields of `Manager` are not nil, and `manager.PID`, or what `os.Getpid` returns
-- where that is 0.
pub record World : Type 0 where
  pub fails : History → Call → Option Error
  pub name : ℕ → Text
  pub snapshot : History → ℕ → Snapshot
  pub cancelled : History → Option Error
  pub has_secrets : Bool
  pub has_factory : Bool
  pub has_addresses : Bool
  pub device_only : Bool
  pub pid : ℤ
  pub digest : Text → Text

pub record Owned : Type 0 where
  pub handle : DeviceHandle
  pub runtime : ℕ

-- The entries of a map with one entry for each key.
abbrev pub Sessions : Type 0
Sessions = List (Text × Owned)

pub record Manager : Type 0 where
  pub source : OneShot
  pub sessions : Sessions
  pub history : History

unfoldable pub lookup : Text → Sessions → Option Owned
lookup id [] = none
lookup id ((k, o) ∷ xs) = let rest = lookup id xs in if k == id then some o else rest

unfoldable pub delete_key : Text → Sessions → Sessions
delete_key id [] = []
delete_key id ((k, o) ∷ xs) = let rest = delete_key id xs in if k == id then xs else (k, o) ∷ rest

abbrev pub Tx : Type 0 → Type 0
Tx A = Action Manager A

abbrev pub is_some {ℓ} : {A : Type ℓ} → Option A → Bool
is_some none = false
is_some (some a) = true

abbrev pub result_of : Option Error → Outcome (Unit {0})
result_of none = ok tt
result_of (some e) = err e

abbrev pub logged : Call → Option Error → Manager → Manager
logged call e s = record s { history = record { call = call; error = e } ∷ s.history }

module _ (w : World) where
  unfoldable pub do_call : Call → Tx (Unit {0})
  do_call call s = (result_of (w.fails s.history call), logged call (w.fails s.history call) s)

  unfoldable pub check_context : Tx (Unit {0})
  check_context s = (result_of (w.cancelled s.history), s)

  abbrev pub consume : Manager → Manager
  consume s = record s { source = record (s.source) { consumed = true } }

  -- `OneShotSecrets.Consume` up to the call of its argument
  unfoldable pub take_secrets : Text → Tx (Unit {0})
  take_secrets id = do
    check_context
    source ← gets (λ s. s.source)
    lift (reject_if (is_refused source id) "WireGuard secrets unavailable for session")
    modify consume

  -- The argument of `Consume` up to the created runtime.
  unfoldable pub start : DeviceSpec → Tx ℕ
  start spec = do
    source ← gets (λ s. s.source)
    lift (verify_peer_fingerprint w.digest spec.peer_fingerprint source.secrets)
    n ← gets (λ s. length s.history)
    within "create userspace WireGuard runtime" (do_call (create_runtime spec.mtu))
    pure n

  abbrev pub address_of : ℕ → DeviceSpec → InterfaceAddress
  address_of n spec = record { interface = w.name n; prefix = spec.address }

  -- The rest of the argument of `Consume`.
  unfoldable pub bring_up : ℕ → DeviceSpec → Tx (Unit {0})
  bring_up n spec = do
    within "configure userspace WireGuard runtime" (do_call (configure n spec))
    within "bring userspace WireGuard runtime up" (do_call (up n))
    if w.has_addresses
        then within "configure userspace WireGuard address"
            (do_call (apply_address n (address_of n spec)))
        else pure tt

  -- `if err != nil { _ = created.Close() }`
  abbrev pub or_close : ℕ → Option Error → Tx DeviceHandle → Tx DeviceHandle
  or_close n none next = next
  or_close n (some e) next = do attempt (do_call (close_runtime n)); raise e

  abbrev pub handle_of : ℕ → DeviceHandle
  handle_of n = record { interface = w.name n; owner_pid = w.pid }

  abbrev pub own : Text → Owned → Manager → Manager
  own id o s = record s { sessions = (id, o) ∷ s.sessions }

  -- What `Create` does with the created runtime.
  unfoldable pub keep : ℕ → DeviceSpec → Tx DeviceHandle
  keep n spec = do
    e ← attempt (bring_up n spec)
    or_close n e do
      f ←
          attempt
            (within "invalid userspace WireGuard handle" (lift (validate_handle (handle_of n))))
      or_close n f do
        modify (own spec.session_id (record { handle = handle_of n; runtime = n }))
        pure (handle_of n)

  -- `Manager.Create`
  unfoldable pub create : DeviceSpec → Tx DeviceHandle
  create spec = do
    lift (validate_spec spec)
    lift (reject_if (not w.has_secrets || not w.has_factory) "WireGuard backend is incomplete")
    lift (
        reject_if (not w.has_addresses && not w.device_only)
          "WireGuard address configurer is missing")
    lift (reject_if (not (ltb_ℤ (pos 0) w.pid)) "invalid WireGuard owner process")
    owned ← gets (λ s. lookup spec.session_id s.sessions)
    if is_some owned
        then raise (sentinel Sentinel.session_exists)
        else (do take_secrets spec.session_id; n ← start spec; keep n spec)

  -- `handle != nil && *handle != owned.handle`
  abbrev pub differs : Option DeviceHandle → DeviceHandle → Bool
  differs none h = false
  differs (some g) h = not (g.interface == h.interface && g.owner_pid == h.owner_pid)

  -- `DeleteOwned`, by what the map holds
  abbrev pub delete_found : Text → Option DeviceHandle → Option Owned → Tx (Unit {0})
  delete_found id handle none = pure tt
  delete_found id handle (some o) =
      if differs handle o.handle then raise (sentinel Sentinel.ownership_mismatch) else (do
        within "close userspace WireGuard runtime" (do_call (close_runtime o.runtime))
        modify (λ s. record s { sessions = delete_key id s.sessions }))

  -- `Manager.DeleteOwned`
  unfoldable pub delete_owned : Text → Option DeviceHandle → Tx (Unit {0})
  delete_owned id handle = do
    lift (reject_if (not (valid_session_id id)) "invalid WireGuard session id")
    owned ← gets (λ s. lookup id s.sessions)
    delete_found id handle owned

  abbrev pub snapshot_found : Option Owned → Tx Snapshot
  snapshot_found none = raise (sentinel Sentinel.session_not_found)
  snapshot_found (some o) = do
    v ← gets (λ s. w.snapshot s.history o.runtime)
    do_call (snapshot_runtime o.runtime)
    pure v

  -- `Manager.Snapshot`
  unfoldable pub snapshot : Text → Tx Snapshot
  snapshot id = do owned ← gets (λ s. lookup id s.sessions); snapshot_found owned
