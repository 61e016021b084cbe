-- ===== src/Daemon/Tests.antt =====
-- The helper's theorems at a host that answers every call, and at one that has lost its tunnel.
use nordmac.Base.{
  ℕ_discrete, ◌*◌, true, false, Option, none, some, [], ◌∷◌, Error, message, pass, pos, length,
  Text, ◌≡◌, refl, arith,
}
use nordmac.Base.Actions.{lift, gets, attempt, ◌>>=◌}
use nordmac.Base.Triples.{Post}
use nordmac.Base.Calls.{perform}
use nordmac.Base.Calm.{Any}
use nordmac.Patterns.{valid_session_id, every}
use nordmac.Tunnel.Types.{Journal, connected}
use nordmac.Tunnel.Connect.{new_journal}
use nordmac.Tunnel.Examples.{session, full_plan, host_route, host_dns, calm}
use nordmac.Tunnel.Examples
use nordmac.Helper.Protocol.{Request, connect_operation, disconnect_operation, validate_response}
use nordmac.Helper.Frames.{Codec, Reader}
use nordmac.Daemon.World.{Call, connect_tunnel, listen, accept, snapshot_routes, World}
use nordmac.Daemon.Verify.{verify_ownership}
use nordmac.Daemon.Handle.{response_for, handle}
use nordmac.Daemon.Serve.{serve, run}
use nordmac.Daemon.Calm.{HasDevice}
use nordmac.Daemon.Health.{IsLost, serve-ends}
use nordmac.Daemon.Settled.{is_up, is_listening, IsSettled, Ends}
use nordmac.Daemon.Ended.{run-IsSettled}
use nordmac.Daemon.Responses.{response_for-pass}
use nordmac.Daemon.Answers.{has_disconnected, handle-HasDisconnected}

-- The journal of a tunnel that is up.
abbrev up : Journal
up = record (new_journal calm full_plan (record { default_route = host_route }) host_dns 1000) {
  device = some Examples.handle;
}

-- A request to disconnect it, from the bytes of any frame.
abbrev request : Request
request = record {
  schema = pos 2;
  request_id = session;
  operation = disconnect_operation;
  session_id = session;
  owner_uid = pos 501;
  secret_channel = pos 0;
  plan = none;
}

abbrev requests : Codec Request
requests = record { marshal = λ r. some (b'{' ∷ []); unmarshal = λ d. some (request, true) }

-- The bytes of one frame.
abbrev frame : Reader
frame = record { bytes = 0 ∷ 0 ∷ 0 ∷ 1 ∷ b'{' ∷ []; at_eof = true }

-- Every call answers.
abbrev host : World
host = record {
  fails = λ h c. none;
  connected = λ h plan. up;
  routes = λ h. record { default_route = host_route };
  exact = λ h p. none;
  dns = λ h c. host_dns;
  device = λ h id. record { last_handshake = 1000; transmitted = 1; received = 1 };
  info = λ h p. record {
    permissions = 448;
    is_dir = true;
    is_regular = false;
    is_symlink = false;
    has_stat = true;
    uid = 0;
  };
  is_socket = λ h p. true;
  input = frame;
  incoming = λ h. frame;
  codec = requests;
  clock = λ h. 1000000000 * length h;
  cancelled = λ h. none;
  is_timeout = λ e. true;
  geteuid = 0;
  sudo_uid = some (pos 501);
}

-- No client connects, and the routes cannot be read.
abbrev refuses : Call → Option Error
refuses accept = some (message "i/o timeout")
refuses snapshot_routes = some (message "route: no answer")
refuses c = none

abbrev lost_host : World
lost_host = record host { fails = λ h c. refuses c }

up-HasDevice : HasDevice up
up-HasDevice r h = cc

lost_host-IsLost : IsLost lost_host up
unfolding verify_ownership perform attempt gets lift ◌>>=◌
lost_host-IsLost = record {
  device = up-HasDevice;
  idle = λ h. refl;
  unhealthy = λ h. refl;
  passes = λ h e. ground arith;
  monotone = λ h e. ground arith;
}

-- Connect fails on a plan without a session, and then returns a journal without a device.
abbrev connect_error : Text → Option Error
connect_error [] = some (message "invalid plan")
connect_error (c ∷ id) = none

abbrev connect_journal : Text → Journal
connect_journal [] = record up { device = none }
connect_journal (c ∷ id) = up

-- Nothing can listen, and a plan may be refused.
abbrev fails_some : Call → Option Error
fails_some (connect_tunnel plan) = connect_error plan.session_id
fails_some (listen p) = some (message "bind: address already in use")
fails_some c = none

connect_journal-HasDevice : (id : Text) → connect_error id ≡ none → HasDevice (connect_journal id)
connect_journal-HasDevice [] e = cc
connect_journal-HasDevice (c ∷ id) e = up-HasDevice

abbrev connect_request : Request
connect_request = record request { operation = connect_operation; plan = some full_plan }

abbrev failing_host : World
failing_host = record host {
  fails = λ h c. fails_some c;
  connected = λ h plan. connect_journal plan.session_id;
  codec = record { marshal = λ r. some (b'{' ∷ []); unmarshal = λ d. some (connect_request, true) };
}

run-IsSettled_example :
    Post (Ends failing_host) (λ _. IsSettled) (run failing_host 40 []).0 (run failing_host 40 []).1
unfolding is_up is_listening
run-IsSettled_example =
    run-IsSettled failing_host (λ h plan e. connect_journal-HasDevice plan.session_id e) 40 []
      (refl, refl)

serve-ends_example :
    Post
      (λ ended h. ended ≡ true)
      (λ _. Any)
      (serve lost_host 33 request up []).0
      (serve lost_host 33 request up []).1
serve-ends_example = serve-ends lost_host up lost_host-IsLost request []

response_for-pass_example :
    validate_response (response_for request false connected (some (message "x"))) ≡ pass
unfolding valid_session_id every ℕ_discrete
response_for-pass_example = response_for-pass request false connected (some (message "x")) refl refl

handle-HasDisconnected_example :
    let r = handle host request up [] in
    Post (λ r h. r.0 ≡ true → has_disconnected h ≡ true) (λ _. Any) r.0 r.1
handle-HasDisconnected_example = handle-HasDisconnected host request up [] up-HasDevice
