-- ===== src/Devices/Secrets.antt =====
-- `OneShotSecrets` and the checks of a device's specification (internal/wgbackend/secrets.go,
-- internal/wgbackend/backend.go).
use nordmac.Base.{
  ℕ, Bool, false, not, ◌&&◌, ◌||◌, Option, none, some, Text, ◌==◌, text_eq, nat_eq, int_eq, pos,
  ltb_ℤ, length, Outcome, ok, err, panic, message, Check, reject_if, ◌>>◌, leb,
}
use nordmac.Netip.Address
use nordmac.Netip.Prefixes
use nordmac.Patterns.{valid_session_id, every}
use nordmac.Tunnel.Types.{DeviceSpec}
use nordmac.Helper.Protocol.{DeviceSecrets, validate_secrets}

pub record OneShot : Type 0 where
  pub session_id : Text
  pub secrets : DeviceSecrets
  pub consumed : Bool

abbrev pub valid_source : Check → OneShot → Outcome OneShot
valid_source (ok _) source = ok source
valid_source (err e) source = err e
valid_source panic source = panic

-- `NewOneShotSecrets`, on the pointer
unfoldable pub new_one_shot : Text → Option DeviceSecrets → Outcome OneShot
new_one_shot id none = err (message "invalid one-shot WireGuard secrets")
new_one_shot id (some s) =
    valid_source
      (reject_if (not (valid_session_id id)) "invalid one-shot WireGuard secrets"
        >> validate_secrets (some s))
      (record { session_id = id; secrets = s; consumed = false })

-- Whether `Consume` refuses this session.
abbrev pub is_refused : OneShot → Text → Bool
is_refused source id = source.consumed || not (id == source.session_id)

abbrev pub is_hex_digit : ℕ → Bool
is_hex_digit c = leb b'0' c && leb c b'9' || leb b'a' c && leb c b'f' || leb b'A' c && leb c b'F'

-- `validateSpec`
unfoldable pub validate_spec : DeviceSpec → Check
validate_spec spec = do
  reject_if
      (not (valid_session_id spec.session_id)
        || not (Prefixes.is_valid spec.address)
        || not (Address.is_4 spec.address.addr)
        || ltb_ℤ spec.mtu (pos 1280)
        || ltb_ℤ (pos 9000) spec.mtu
        || not (Address.is_valid spec.endpoint.addr)
        || not (Address.is_4 spec.endpoint.addr)
        || spec.endpoint.port == 0
        || not (length spec.peer_fingerprint == 64))
      "invalid WireGuard device specification"
  reject_if (not (every is_hex_digit spec.peer_fingerprint)) "invalid WireGuard peer fingerprint"

-- `verifyPeerFingerprint`; `digest` is the hexadecimal SHA-256 of the bytes.
unfoldable pub verify_peer_fingerprint : (Text → Text) → Text → DeviceSecrets → Check
verify_peer_fingerprint digest want s = do
  validate_secrets (some s)
  reject_if (not (digest s.peer_public_key == want))
      "peer public key does not match the approved fingerprint"
