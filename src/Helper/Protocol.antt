-- ===== src/Helper/Protocol.antt =====
-- Requests, responses and secrets of the helper protocol and their validation
-- (internal/helperproto/protocol.go).
use nordmac.Base.{
  ℕ, Bool, true, false, not, ◌&&◌, ◌||◌, Option, none, some, [], ◌∷◌, ◌==◌, text_eq, int_eq, nat_eq,
  Text, ℤ, pos, ltb_ℤ, Check, err, message, reject_if, context, ◌>>◌,
}
use nordmac.Patterns.{valid_session_id}
use nordmac.Tunnel.Types.{
  Plan, Phase, phase_eq, other_phase, disconnected, connecting, connected, degraded, disconnecting,
  rollback_required, foreign_conflict,
}
use nordmac.Tunnel.Plan.{validate_plan}

abbrev pub schema_version : ℤ
schema_version = pos 2

abbrev pub secret_channel_version : ℤ
secret_channel_version = pos 1

abbrev pub secret_frame_bytes : ℕ
secret_frame_bytes = 68

abbrev pub max_request_bytes : ℕ
max_request_bytes = 65536

-- "NMS1"
abbrev pub secret_magic : Text
secret_magic = b'N' ∷ b'M' ∷ b'S' ∷ b'1' ∷ []

pub data Operation : Type 0 where
  connect_operation disconnect_operation recover_operation status_operation : Operation
  other_operation : Text → Operation

pub record Request : Type 0 where
  pub schema : ℤ
  pub request_id : Text
  pub operation : Operation
  pub session_id : Text
  pub owner_uid : ℤ
  pub secret_channel : ℤ
  pub plan : Option Plan

-- The case `OperationConnect`.
unfoldable pub check_connect : Request → Option Plan → Check
check_connect r none = err (message "connect requires the supported secret channel and a plan")
check_connect r (some plan) = do
  reject_if (not (r.secret_channel == secret_channel_version))
      "connect requires the supported secret channel and a plan"
  context "invalid helper connect plan" (validate_plan plan)
  reject_if (not (plan.session_id == r.session_id) || not (plan.owner_uid == r.owner_uid))
      "helper request identity does not match its plan"

abbrev pub is_some {ℓ} : {A : Type ℓ} → Option A → Bool
is_some none = false
is_some (some a) = true

-- The case of the three other operations.
unfoldable pub check_other : Request → Check
check_other r =
    reject_if (is_some r.plan || not (r.secret_channel == pos 0))
      "non-connect helper request must not contain a plan or secret channel"

unfoldable pub check_operation : Request → Operation → Check
check_operation r connect_operation = check_connect r r.plan
check_operation r disconnect_operation = check_other r
check_operation r recover_operation = check_other r
check_operation r status_operation = check_other r
check_operation r (other_operation t) = err (message "unsupported helper operation")

-- `Request.Validate`
unfoldable pub validate_request : Request → Check
validate_request r = do
  reject_if (not (r.schema == schema_version)) "unsupported helper protocol schema"
  reject_if
      (not (valid_session_id r.request_id)
        || not (valid_session_id r.session_id)
        || ltb_ℤ r.owner_uid (pos 0))
      "invalid helper request identity"
  check_operation r r.operation

-- `no_error` is the empty code.
pub data ErrorCode : Type 0 where
  no_error invalid_request unauthorized_caller conflict_error : ErrorCode
  transition_error rollback_error internal_error : ErrorCode
  other_error : Text → ErrorCode

pub record Response : Type 0 where
  pub schema : ℤ
  pub request_id : Text
  pub succeeded : Bool
  pub state : Phase
  pub error_code : ErrorCode

-- `validResponseState`
abbrev pub valid_response_state : Phase → Bool
valid_response_state disconnected = true
valid_response_state connecting = true
valid_response_state connected = true
valid_response_state degraded = true
valid_response_state disconnecting = true
valid_response_state rollback_required = true
valid_response_state foreign_conflict = true
valid_response_state _ = false

-- `validErrorCode`
abbrev pub valid_error_code : ErrorCode → Bool
valid_error_code no_error = false
valid_error_code (other_error t) = false
valid_error_code _ = true

abbrev pub has_error : ErrorCode → Bool
has_error no_error = false
has_error _ = true

-- The end of `Response.Validate`, by `response.OK`.
unfoldable pub check_outcome : Bool → ErrorCode → Check
check_outcome true code = reject_if (has_error code) "successful helper response contains an error"
check_outcome false code =
    reject_if (not (valid_error_code code)) "failed helper response has an invalid error code"

-- `Response.Validate`
unfoldable pub validate_response : Response → Check
validate_response r = do
  reject_if (not (r.schema == schema_version) || not (valid_session_id r.request_id))
      "invalid helper response identity"
  reject_if (not (r.state == other_phase []) && not (valid_response_state r.state))
      "invalid helper response state"
  check_outcome r.succeeded r.error_code

-- Each key is an array of 32 bytes.
pub record DeviceSecrets : Type 0 where
  pub client_private_key : Text
  pub peer_public_key : Text

-- `allZero`: the bytes' bitwise OR is zero when each byte is
unfoldable pub all_zero : Text → Bool
all_zero [] = true
all_zero (b ∷ bs) = b == 0 && all_zero bs

-- `DeviceSecrets.Validate`, on the pointer
unfoldable pub validate_secrets : Option DeviceSecrets → Check
validate_secrets none = err (message "WireGuard keys are missing")
validate_secrets (some s) = do
  reject_if (all_zero s.client_private_key || all_zero s.peer_public_key)
      "WireGuard keys must not be zero"
  reject_if (s.client_private_key == s.peer_public_key)
      "WireGuard private and peer public keys must differ"
