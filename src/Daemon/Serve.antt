-- ===== src/Daemon/Serve.antt =====
-- The helper's life: bootstrap, the loop over connections, and recovery
-- (internal/helperdaemon/daemon.go).
use nordmac.Base.{
  ℕ, zero, suc, ◌+◌, ltb, leb, Bool, true, false, not, ◌||◌, Option, none, some, ◌==◌, nat_eq,
  int_eq, ℤ, pos, ltb_ℤ, Error, Outcome, ok, err, message, join?, reject_if, Check, if◌then◌else◌,
}
use nordmac.Base.Actions.{pure, raise, lift, gets, attempt, finally, ◌>>=◌, ◌>>◌}
use nordmac.Tunnel.Types.{Plan, connected, disconnected, Journal}
use nordmac.Helper.Protocol.{
  Operation, connect_operation, disconnect_operation, recover_operation, Request, DeviceSecrets,
}
use nordmac.Helper.Frames.{decode_frame}
use nordmac.Devices.Secrets.{new_one_shot}
use nordmac.Daemon.World.{
  socket, connect_tunnel, disconnect_tunnel, remove, accept, set_deadline, close_listener,
  close_connection, World, Tx, result_of, is_nil, do_call,
}
use nordmac.Daemon.Files.{prepare_state_directory, listen_for_owner, remove_stale_socket}
use nordmac.Daemon.Verify.{verify_ownership}
use nordmac.Daemon.Handle.{response_for, phase_from_journal, send, handle}

-- `nextHealthCheck` and `healthFailures`
pub record Loop : Type 0 where
  pub next_check : ℕ
  pub failures : ℕ

-- Ten seconds, in nanoseconds.
abbrev pub health_interval : ℕ
health_interval = 10000000000

abbrev pub counted : ℕ → Option Error → ℕ
counted n none = 0
counted n (some e) = suc n

module _ (w : World) where
  -- The health check of a loop whose time has come.
  unfoldable pub check_health : Journal → ℕ → Tx Loop
  check_health j failures = do
    e ← attempt (verify_ownership w j)
    lift (reject_if (leb 3 (counted failures e)) "tunnel ownership health check repeatedly failed")
    now ← gets w.clock
    pure (record { next_check = now + health_interval; failures = counted failures e })

  -- `AcceptUnix` timed out.
  unfoldable pub on_timeout : Journal → Loop → Tx (Option Loop)
  on_timeout j l = do
    now ← gets w.clock
    next ← if ltb now l.next_check then pure l else check_health j l.failures
    attempt (do_call w set_deadline)
    pure (some next)

  abbrev pub stop_or : Bool × Option Error → Loop → Tx (Option Loop)
  stop_or (true, none) l = pure none
  stop_or (true, some e) l = raise e
  stop_or (false, e) l = pure (some l)

  unfoldable pub on_accept : Request → Journal → Loop → Option Error → Tx (Option Loop)
  on_accept initial j l (some e) = if w.is_timeout e then on_timeout j l else raise e
  on_accept initial j l none = do
    r ← handle w initial j
    attempt (do_call w close_connection)
    stop_or r l

  -- One round of the loop of `serve`: `none` says that it returned nil.
  unfoldable pub serve_round : Request → Journal → Loop → Tx (Option Loop)
  serve_round initial j l = do
    cancelled ← gets w.cancelled
    if is_nil cancelled
        then (do e ← attempt (do_call w accept); on_accept initial j l e)
        else pure none

  abbrev pub rest_or : (Loop → Tx Bool) → Option Loop → Tx Bool
  rest_or rest none = pure true
  rest_or rest (some l) = rest l

  -- The loop, for at most this many rounds: `false` says that it still serves.
  unfoldable pub serve_rounds : ℕ → Request → Journal → Loop → Tx Bool
  serve_rounds zero initial j l = pure false
  serve_rounds (suc n) initial j l = do
    let rest = serve_rounds n initial j
    next ← serve_round initial j l
    rest_or rest next

  -- `serve`
  unfoldable pub serve : ℕ → Request → Journal → Tx Bool
  serve n initial j = do
    do_call w set_deadline
    now ← gets w.clock
    serve_rounds n initial j (record { next_check = now + health_interval; failures = 0 })

  -- The deferred function of `connectAndServe`.
  unfoldable pub clean_up : Request → Tx (Unit {0})
  clean_up request = do
    attempt (do_call w close_listener)
    attempt (do_call w (remove (socket request.owner_uid)))
    do_call w (disconnect_tunnel request.session_id request.owner_uid)

  -- It runs once `serve` has returned.
  abbrev pub cleaned : Request → Outcome Bool → Tx Bool
  cleaned request (ok false) = pure false
  cleaned request r = finally (clean_up request) (lift r)

  unfoldable pub with_cleanup : Request → Tx Bool → Tx Bool
  with_cleanup request m h = let (r, h') = m h in cleaned request r h'

  -- What follows `listenForOwner`, by its error.
  unfoldable pub on_listen : ℕ → Request → Journal → Option Error → Tx Bool
  on_listen n request j (some e) = do
    f ← attempt (do_call w (disconnect_tunnel request.session_id request.owner_uid))
    lift (result_of (join? (some e) f))
    pure true
  on_listen n request j none =
      with_cleanup request (do send w (response_for request true connected none); serve n request j)

  -- What follows `Controller.Connect`, by its error.
  unfoldable pub on_connect : ℕ → Request → Journal → Option Error → Tx Bool
  on_connect n request j (some e) = do
    attempt (send w (response_for request false (phase_from_journal j) (some e)))
    raise e
  on_connect n request j none = do
    e ← attempt (listen_for_owner w request.owner_uid)
    on_listen n request j e

  unfoldable pub connect_planned : ℕ → Request → DeviceSecrets → Option Plan → Tx Bool
  connect_planned n request secrets none = raise (message "connect request is missing its plan")
  connect_planned n request secrets (some plan) = do
    prepare_state_directory w request.owner_uid
    lift (new_one_shot request.session_id (some secrets))
    j ← gets (λ h. w.connected h plan)
    e ← attempt (do_call w (connect_tunnel plan))
    on_connect n request j e

  -- `connectAndServe`
  unfoldable pub connect_and_serve : ℕ → Request → DeviceSecrets → Tx Bool
  connect_and_serve n request secrets = connect_planned n request secrets request.plan

  -- `recoverSession`
  unfoldable pub recover_session : Request → Tx Bool
  recover_session request = do
    e ← attempt (do
      do_call w (disconnect_tunnel request.session_id request.owner_uid)
      remove_stale_socket w request.owner_uid)
    g ← attempt (send w (response_for request (is_nil e) disconnected e))
    lift (result_of (join? e g))
    pure true

  -- `authorizeBootstrap`, by the number in SUDO_UID
  abbrev pub authorize_bootstrap : ℤ → Option ℤ → Check
  authorize_bootstrap owner none = err (message "helper caller does not match SUDO_UID")
  authorize_bootstrap owner (some uid) =
      reject_if (ltb_ℤ uid (pos 0) || not (uid == owner)) "helper caller does not match SUDO_UID"

  unfoldable pub run_operation : ℕ → Request → DeviceSecrets → Operation → Tx Bool
  run_operation n request secrets connect_operation = connect_and_serve n request secrets
  run_operation n request secrets disconnect_operation = recover_session request
  run_operation n request secrets recover_operation = recover_session request
  run_operation n request secrets _ = raise (message "unsupported bootstrap helper operation")

  -- `Run`
  unfoldable pub run : ℕ → Tx Bool
  run n = do
    lift (reject_if (not (w.geteuid == 0)) "privileged helper must run as root")
    frame ← lift (decode_frame w.codec w.input).0
    lift (authorize_bootstrap frame.0.owner_uid w.sudo_uid)
    run_operation n frame.0 frame.1 frame.0.operation
