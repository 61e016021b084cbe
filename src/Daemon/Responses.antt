-- ===== src/Daemon/Responses.antt =====
-- The responses of the helper and the check that its client makes (internal/helperdaemon/daemon.go).
use nordmac.Base.{
  Bool, true, false, Option, none, some, int_eq, Error, pass, reject_if, ◌>>◌, ℤ-discrete, ◌≡◌,
  arith,
}
use nordmac.Patterns.{valid_session_id}
use nordmac.Tunnel.Types.{Phase, phase_eq}
use nordmac.Helper.Protocol.{Request, valid_response_state, check_outcome, validate_response}
use nordmac.Daemon.Handle.{response_for}

-- Every response that the helper makes to a request with a valid id passes `Response.Validate`, whatever it
-- answers, in each of the states that a response may have.
pub response_for-pass :
    (request : Request) (succeeded : Bool) (phase : Phase) (e : Option Error)
    → valid_session_id request.request_id ≡ true
    → valid_response_state phase ≡ true
    → validate_response (response_for request succeeded phase e) ≡ pass
unfolding validate_response response_for check_outcome reject_if ◌>>◌ ℤ-discrete
response_for-pass request true phase e id state = ground (arith, id, state)
response_for-pass request false phase none id state = ground (arith, id, state)
response_for-pass request false phase (some e) id state = ground (arith, id, state)
