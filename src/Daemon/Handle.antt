-- ===== src/Daemon/Handle.antt =====
-- The answers of the helper to one request (internal/helperdaemon/daemon.go).
use nordmac.Base.{
  Bool, true, false, not, ◌||◌, Option, none, some, [], ◌==◌, text_eq, int_eq, Error, Outcome, ok,
  err, panic, message, Sentinel, is_error, join?, if◌then◌else◌,
}
use nordmac.Base.Actions.{pure, lift, gets, attempt, ◌>>=◌, ◌>>◌}
use nordmac.Tunnel.Types.{
  Phase, phase_eq, other_phase, disconnected, connected, degraded, foreign_conflict, Journal,
}
use nordmac.Helper.Protocol.{
  schema_version, Operation, connect_operation, disconnect_operation, recover_operation,
  status_operation, other_operation, Request, Response, ErrorCode, no_error, conflict_error,
  rollback_error, internal_error, validate_response, DeviceSecrets,
}
use nordmac.Helper.Frames.{decode_frame}
use nordmac.Daemon.World.{
  disconnect_tunnel, snapshot_device, set_connection_deadline, authorize_peer, write_response,
  World, Tx, is_nil, do_call,
}
use nordmac.Daemon.Verify.{verify_ownership}

abbrev pub code_of : Option Error → ErrorCode
code_of none = internal_error
code_of (some e) =
    if is_error e Sentinel.conflict
    then conflict_error
    else (if is_error e Sentinel.rollback_incomplete then rollback_error else internal_error)

-- `responseFor`
unfoldable pub response_for : Request → Bool → Phase → Option Error → Response
response_for request succeeded phase e = record {
  schema = schema_version;
  request_id = request.request_id;
  succeeded = succeeded;
  state = phase;
  error_code = if succeeded then no_error else code_of e;
}

-- `phaseFromJournal`
abbrev pub phase_from_journal : Journal → Phase
phase_from_journal j = if j.phase == other_phase [] then disconnected else j.phase

abbrev pub is_connect : Operation → Bool
is_connect connect_operation = true
is_connect _ = false

-- `request.OwnerUID != initial.OwnerUID || ...`
abbrev pub is_foreign : Request → Request → Bool
is_foreign initial request =
    not (request.owner_uid == initial.owner_uid)
    || not (request.session_id == initial.session_id)
    || is_connect request.operation

abbrev pub status_response : Request → Option Error → Response
status_response request none = response_for request true connected none
status_response request (some e) = response_for request false degraded (some e)

module _ (w : World) where
  -- `EncodeResponse`, which checks the response before it writes it
  unfoldable pub send : Response → Tx (Unit {0})
  send r = do lift (validate_response r); do_call w (write_response r)

  abbrev pub snapshot_unless : Request → Option Error → Tx (Option Error)
  snapshot_unless initial none = attempt (do_call w (snapshot_device initial.session_id))
  snapshot_unless initial (some e) = pure (some e)

  -- The case `OperationStatus`.
  unfoldable pub answer_status : Request → Journal → Request → Tx (Bool × Option Error)
  answer_status initial j request = do
    e ← attempt (verify_ownership w j)
    f ← snapshot_unless initial e
    g ← attempt (send (status_response request f))
    pure (false, g)

  -- The case of the two other operations.
  unfoldable pub answer_disconnect : Request → Request → Tx (Bool × Option Error)
  answer_disconnect initial request = do
    e ← attempt (do_call w (disconnect_tunnel initial.session_id initial.owner_uid))
    g ← attempt (send (response_for request (is_nil e) disconnected e))
    pure (is_nil e, join? e g)

  abbrev pub unsupported : Tx (Bool × Option Error)
  unsupported = pure (false, some (message "unsupported active helper operation"))

  unfoldable pub answer : Request → Journal → Request → Operation → Tx (Bool × Option Error)
  answer initial j request status_operation = answer_status initial j request
  answer initial j request disconnect_operation = answer_disconnect initial request
  answer initial j request recover_operation = answer_disconnect initial request
  answer initial j request connect_operation = unsupported
  answer initial j request (other_operation t) = unsupported

  -- What follows `DecodeFrame`.
  unfoldable pub answer_frame :
      Request → Journal → Outcome (Request × DeviceSecrets) → Tx (Bool × Option Error)
  answer_frame initial j panic = lift panic
  answer_frame initial j (err e) = pure (false, some e)
  answer_frame initial j (ok (request, secrets)) =
      if is_foreign initial request
      then (do
        let e = message "helper request does not own the active session"
        attempt (send (response_for request false foreign_conflict (some e)))
        pure (false, some e))
      else answer initial j request request.operation

  abbrev pub or_refuse : Option Error → Tx (Bool × Option Error) → Tx (Bool × Option Error)
  or_refuse none next = next
  or_refuse (some e) next = pure (false, some e)

  -- `handle`: whether to stop, and the error
  unfoldable pub handle : Request → Journal → Tx (Bool × Option Error)
  handle initial j = do
    attempt (do_call w set_connection_deadline)
    e ← attempt (do_call w (authorize_peer initial.owner_uid))
    or_refuse e
        do frame ← gets (λ h. (decode_frame w.codec (w.incoming h)).0); answer_frame initial j frame
