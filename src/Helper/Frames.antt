-- ===== src/Helper/Frames.antt =====
-- The frames of the helper protocol over a byte stream (internal/helperproto/protocol.go).
use nordmac.Base.{
  ℕ, ◌+◌, ◌*◌, ◌/◌, ◌%◌, Bool, true, false, not, ◌&&◌, ◌||◌, Option, none, some, [], ◌∷◌, ◌++◌,
  ◌==◌, text_eq, nat_eq, Text, ltb, leb, length, take, drop, replicate, Outcome, ok, err, message,
  sentinel, Sentinel, Error, reject_if, if◌then◌else◌,
}
use nordmac.Base.Actions.{Action, pure, raise, lift, within, map_error, ◌>>=◌, ◌>>◌}
use nordmac.Helper.Protocol.{
  secret_frame_bytes, max_request_bytes, secret_magic, Operation, connect_operation, Request,
  validate_request, Response, validate_response, DeviceSecrets, validate_secrets, is_some,
}

-- `encoding/json` on the messages: what a value is marshalled to, and the value that a decoder finds
-- with whether nothing but the end follows it.
pub record Codec (A : Type 0) : Type 0 where
  pub marshal : A → Option Text
  pub unmarshal : Text → Option (A × Bool)

-- An `io.Writer`: the bytes that it takes of a chunk and its error, by the bytes written before.
abbrev pub Writer : Type 0
Writer = Text → Text → ℕ × Option Error

-- An `io.Reader`: the bytes that arrive, and whether the end of file follows them or another error.
pub record Reader : Type 0 where
  pub bytes : Text
  pub at_eof : Bool

-- `binary.BigEndian.PutUint32`
unfoldable pub put_uint32 : ℕ → Text
put_uint32 n = n / 16777216 % 256 ∷ n / 65536 % 256 ∷ n / 256 % 256 ∷ n % 256 ∷ []

-- `binary.BigEndian.Uint32`, on four bytes
unfoldable pub uint32 : Text → ℕ
uint32 (a ∷ b ∷ c ∷ d ∷ []) = a * 16777216 + b * 65536 + c * 256 + d
uint32 _ = 0

abbrev pub frame_of : DeviceSecrets → Text
frame_of s = secret_magic ++ s.client_private_key ++ s.peer_public_key

abbrev pub some_or : {A : Type 0} → Error → Option A → Outcome A
some_or e none = err e
some_or e (some a) = ok a

-- The value of a decoder, if nothing follows it.
abbrev pub decoded : {A : Type 0} → Option (A × Bool) → Outcome A
decoded none = err (message "decode")
decoded (some (a, false)) = err (message "trailing data")
decoded (some (a, true)) = ok a

abbrev pub taken_or_failed : ℕ × Option Error → Outcome ℕ
taken_or_failed (n, none) = ok n
taken_or_failed (n, some e) = err e

module _ (w : Writer) where
  -- `writer.Write(chunk)`
  unfoldable pub write : Text → Action Text ℕ
  write chunk out = (taken_or_failed (w out chunk), out ++ take (w out chunk).0 chunk)

  -- `WriteSecrets`
  unfoldable pub write_secrets : Option DeviceSecrets → Action Text (Unit {0})
  write_secrets none = lift (validate_secrets none)
  write_secrets (some s) = do
    lift (validate_secrets (some s))
    n ← within "write helper secret frame" (write (frame_of s))
    if n == length (frame_of s) then pure tt else raise (sentinel Sentinel.short_write)

  -- The length and the data, as `EncodeFrame` and `EncodeResponse` write them.
  unfoldable pub write_frame : Text → Action Text (Unit {0})
  write_frame payload = do
    lift (reject_if (ltb max_request_bytes (length payload)) "message exceeds size limit")
    map_error (λ _. message "write length") (write (put_uint32 (length payload)))
    map_error (λ _. message "write message") (write payload)
    pure tt

  -- What `EncodeFrame` does after the request.
  unfoldable pub write_tail : Operation → Option DeviceSecrets → Action Text (Unit {0})
  write_tail connect_operation secrets = write_secrets secrets
  write_tail _ secrets = lift (reject_if (is_some secrets) "request contains secrets")

  -- `EncodeFrame`
  unfoldable pub encode_frame :
      Codec Request → Request → Option DeviceSecrets → Action Text (Unit {0})
  encode_frame codec r secrets = do
    lift (validate_request r)
    payload ← lift (some_or (message "encode helper request") (codec.marshal r))
    write_frame payload
    write_tail r.operation secrets

  -- `EncodeResponse`
  unfoldable pub encode_response : Codec Response → Response → Action Text (Unit {0})
  encode_response codec r = do
    lift (validate_response r)
    payload ← lift (some_or (message "encode helper response") (codec.marshal r))
    write_frame payload

-- `io.ReadFull` of `n` bytes
unfoldable pub read_full : ℕ → Action Reader Text
read_full n r =
    if leb n (length r.bytes)
    then (ok (take n r.bytes), record r { bytes = drop n r.bytes })
    else (err (message "read"), record r { bytes = [] })

-- `requireEOF`
unfoldable pub require_eof : Action Reader (Unit {0})
require_eof r =
    if length r.bytes == 0 && r.at_eof
    then (ok tt, r)
    else (err (message "trailing data"), record r { bytes = drop 1 r.bytes })

-- The keys that `readSecretsExact` copies out of a frame.
abbrev pub keys_of : Text → DeviceSecrets
keys_of frame = record {
  client_private_key = take 32 (drop 4 frame);
  peer_public_key = take 32 (drop 36 frame);
}

-- `readSecretsExact`
unfoldable pub read_secrets_exact : Action Reader DeviceSecrets
read_secrets_exact = do
  frame ← read_full secret_frame_bytes
  lift (reject_if (not (take 4 frame == secret_magic)) "invalid helper secret frame version")
  lift (validate_secrets (some (keys_of frame)))
  pure (keys_of frame)

-- `ReadSecrets`
unfoldable pub read_secrets : Action Reader DeviceSecrets
read_secrets = do s ← read_secrets_exact; require_eof; pure s

-- The length and the data, as `DecodeFrame` and `DecodeResponse` read them.
unfoldable pub read_frame : Action Reader Text
read_frame = do
  size ← read_full 4
  lift (reject_if (uint32 size == 0 || ltb max_request_bytes (uint32 size)) "invalid length")
  read_full (uint32 size)

-- `DecodeRequest`, on a reader of these bytes
unfoldable pub decode_request : Codec Request → Text → Action Reader Request
decode_request codec payload = do
  lift (reject_if (ltb max_request_bytes (length payload)) "helper request exceeds size limit")
  r ← lift (decoded (codec.unmarshal payload))
  lift (validate_request r)
  pure r

-- The zero value that `DecodeFrame` returns where there are no secrets.
abbrev pub no_secrets : DeviceSecrets
no_secrets = record { client_private_key = replicate 32 0; peer_public_key = replicate 32 0 }

-- What `DecodeFrame` does after the request.
unfoldable pub read_tail : Operation → Action Reader DeviceSecrets
read_tail connect_operation = do s ← read_secrets_exact; require_eof; pure s
read_tail _ = do require_eof; pure no_secrets

-- `DecodeFrame`
unfoldable pub decode_frame : Codec Request → Action Reader (Request × DeviceSecrets)
decode_frame codec = do
  payload ← read_frame
  r ← decode_request codec payload
  s ← read_tail r.operation
  pure (r, s)

-- `DecodeResponse`
unfoldable pub decode_response : Codec Response → Action Reader Response
decode_response codec = do
  payload ← read_frame
  r ← lift (decoded (codec.unmarshal payload))
  lift (validate_response r)
  pure r
