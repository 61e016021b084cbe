-- ===== src/Daemon/Ended.antt =====
-- How the helper ends (internal/helperdaemon/daemon.go).
use nordmac.Base.{
  ℕ, Bool, true, Option, none, some, ℤ, Error, panic, join?, reject_if-ne-panic, ◌≡◌, ◌≢◌, refl,
  subst, arith, nat_eq,
}
use nordmac.Base.Actions.{attempt, ◌>>◌}
use nordmac.Base.Triples.{
  Triple, Post, Post-ne-panic, Attempted, Triple-pure, Triple-raise, Triple-gets, Triple-bind,
  Triple-weaken, Triple-attempt, Triple-assume,
}
use nordmac.Base.Calls.{Triple-perform}
use nordmac.Base.Calm.{Any, Calm-bind}
use nordmac.Tunnel.Types.{Plan, Journal}
use nordmac.Helper.Protocol.{
  Operation, connect_operation, disconnect_operation, recover_operation, status_operation,
  other_operation, Request, DeviceSecrets,
}
use nordmac.Helper.Decoded.{Triple-decode_frame}
use nordmac.Store.Info.{Info}
use nordmac.Daemon.World.{connect_tunnel, disconnect_tunnel, History, World, result_of, do_call}
use nordmac.Daemon.Files.{remove_seen, remove_stale_socket}
use nordmac.Daemon.Serve.{
  on_listen, on_connect, connect_planned, connect_and_serve, recover_session, authorize_bootstrap,
  run_operation, run,
}
use nordmac.Daemon.Calm.{HasDevice, Calm-send, Calm-serve}
use nordmac.Daemon.Settled.{
  is_up, is_listening, IsClosed, IsSettled, Ends, new_one_shot-ne-panic, Triple-call, Triple-tried,
  Triple-kept, Triple-send, Triple-prepare, Triple-listen, Triple-cleanup,
}

module _ (w : World) where
  Triple-on_listen :
      (n : ℕ) (r : Request) (j : Journal) (e : Option Error)
      → HasDevice j
      → Triple
          (Attempted (λ (_ : Unit {0}). Any) (λ _. IsClosed) e)
          (on_listen w n r j e)
          (Ends w)
          (λ _. IsSettled)
  unfolding on_listen is_up is_listening
  Triple-on_listen n r j (some e) d =
      Triple-bind {Q = λ _. IsSettled} (Triple-tried w IsClosed IsSettled _ (λ h x p. (refl, p)))
        λ f.
          Triple-bind {Q = λ _. IsSettled} (Triple-kept w IsSettled _ (joined f))
            λ _. Triple-pure true (λ h p _. p)
    where
      joined : (f : Option Error) → result_of (join? (some e) f) ≢ panic
      joined none h = cc
      joined (some x) h = cc
  Triple-on_listen n r j none d =
      Triple-weaken (Triple-cleanup w r _ (Calm-bind _ _ (Calm-send w _) λ _. Calm-serve w n r j d))
        (λ h p. tt) (λ _ h p. p) (λ _ h p. p)

  Triple-on_connect :
      (n : ℕ) (r : Request) (j : Journal) (e : Option Error)
      → Triple
          (Attempted (λ (_ : Unit {0}) h. IsClosed h × HasDevice j) (λ _. IsSettled) e)
          (on_connect w n r j e)
          (Ends w)
          (λ _. IsSettled)
  unfolding on_connect is_up is_listening
  Triple-on_connect n r j (some e) =
      Triple-bind {Q = λ _. IsSettled}
        (Triple-weaken
          (Triple-attempt {F = λ _. IsSettled} (Triple-send w IsSettled _ (λ h e p. p))) (λ h p. p)
          kept (λ _ h p. p))
        λ _. Triple-raise e (λ h p. p)
    where
      kept :
          (x : Option Error) (h : History)
          → Attempted (λ (_ : Unit {0}). IsSettled) (λ _. IsSettled) x h
          → IsSettled h
      kept none h p = p.1
      kept (some x) h p = p
  Triple-on_connect n r j none =
      Triple-weaken
        (Triple-assume {P = IsClosed} λ d.
          Triple-bind (Triple-attempt {F = λ _. IsSettled} (Triple-listen w r.owner_uid))
            λ e. Triple-on_listen n r j e d)
        (λ h p. p.1) (λ _ h p. p) (λ _ h p. p)

  -- A call of Connect that succeeds returns a journal with a device.
  module _
      (devices : (h : History) (plan : Plan)
        → w.fails h (connect_tunnel plan) ≡ none
        → HasDevice (w.connected h plan)) where
    Triple-connect_planned :
        (n : ℕ) (r : Request) (s : DeviceSecrets) (plan : Option Plan)
        → Triple IsSettled (connect_planned w n r s plan) (Ends w) (λ _. IsSettled)
    unfolding connect_planned is_up is_listening
    Triple-connect_planned n r s none = Triple-raise _ (λ h p. p)
    Triple-connect_planned n r s (some plan) = Triple-bind (Triple-prepare w r.owner_uid) λ _.
        Triple-bind (Triple-kept w IsSettled _ (new_one_shot-ne-panic _ _)) λ _.
          Triple-bind {Q = λ j h. IsSettled h × (w.connected h plan ≡ j)}
            (Triple-gets _ (λ h p. (p, refl)))
            λ j.
              Triple-bind
                (Triple-attempt {F = λ _. IsSettled} (
                  Triple-perform w.fails {Q = λ h. IsClosed h × HasDevice j} {E = λ _. IsSettled}
                    (connect_tunnel plan)
                    (λ h p worked. (p.0.1, subst HasDevice p.1 (devices h plan worked)))
                    (λ h e p _. p.0)))
                λ e. Triple-on_connect n r j e

    Triple-recover :
        (r : Request) → Triple IsSettled (recover_session w r) (Ends w) (λ _. IsSettled)
    unfolding recover_session remove_stale_socket is_up is_listening
    Triple-recover r = Triple-bind {Q = λ _. IsSettled} undone λ e.
        Triple-bind {Q = λ _. IsSettled}
          (Triple-weaken
            (Triple-attempt {F = λ _. IsSettled} (Triple-send w IsSettled _ (λ h e p. p)))
            (λ h p. p) kept (λ _ h p. p))
          λ g.
            Triple-bind (Triple-kept w IsSettled _ (joined e g)) λ _. Triple-pure true (λ h p _. p)
      where
        kept :
            (x : Option Error) (h : History)
            → Attempted (λ (_ : Unit {0}). IsSettled) (λ _. IsSettled) x h
            → IsSettled h
        kept none h p = p.1
        kept (some x) h p = p

        joined : (e f : Option Error) → result_of (join? e f) ≢ panic
        joined none none h = cc
        joined none (some x) h = cc
        joined (some e) none h = cc
        joined (some e) (some x) h = cc

        removed :
            (e : Option Error) (info : Info) (b : Bool)
            → Triple IsSettled
                (remove_seen w r.owner_uid info b e)
                (λ _. IsSettled)
                (λ _. IsSettled)
        removed none info b =
            Triple-bind (Triple-kept w IsSettled _ (reject_if-ne-panic _ _))
              λ _. Triple-call w IsSettled IsSettled _ (λ h e p. p)
        removed (some e) info b = Triple-kept w IsSettled _ (λ h. ground (arith, h))

        undone :
            Triple IsSettled
              (attempt (do
                do_call w (disconnect_tunnel r.session_id r.owner_uid)
                remove_stale_socket w r.owner_uid))
              (λ _. IsSettled)
              (λ _. IsSettled)
        undone =
            Triple-weaken
              (Triple-attempt {F = λ _. IsSettled} (
                Triple-bind (Triple-call w IsSettled IsSettled _ (λ h e p. (refl, p.1))) λ _.
                  Triple-bind {Q = λ _. IsSettled} (Triple-gets _ (λ h p. p)) λ info.
                    Triple-bind {Q = λ _. IsSettled} (Triple-gets _ (λ h p. p)) λ b.
                      Triple-bind (Triple-tried w IsSettled IsSettled _ (λ h e p. p))
                        λ seen. removed seen info b))
              (λ h p. p) kept (λ _ h p. p)

    Triple-operation :
        (n : ℕ) (r : Request) (s : DeviceSecrets) (o : Operation)
        → Triple IsSettled (run_operation w n r s o) (Ends w) (λ _. IsSettled)
    unfolding run_operation connect_and_serve
    Triple-operation n r s connect_operation = Triple-connect_planned n r s r.plan
    Triple-operation n r s disconnect_operation = Triple-recover r
    Triple-operation n r s recover_operation = Triple-recover r
    Triple-operation n r s status_operation = Triple-raise _ (λ h p. p)
    Triple-operation n r s (other_operation t) = Triple-raise _ (λ h p. p)

    Triple-run : (n : ℕ) → Triple IsSettled (run w n) (Ends w) (λ _. IsSettled)
    unfolding run
    Triple-run n = Triple-bind (Triple-kept w IsSettled _ (reject_if-ne-panic _ _)) λ _.
        Triple-bind
          (Triple-kept w IsSettled _
            (Post-ne-panic _ _ _ _ ((Triple-decode_frame w.codec).at w.input tt)))
          λ frame.
            Triple-bind (Triple-kept w IsSettled _ (authorized frame.0.owner_uid w.sudo_uid))
              λ _. Triple-operation n frame.0 frame.1 frame.0.operation
      where
        authorized : (owner : ℤ) (uid : Option ℤ) → authorize_bootstrap w owner uid ≢ panic
        authorized owner none = λ h. cc
        authorized owner (some uid) = reject_if-ne-panic _ _

    -- When the helper ends, whatever failed, it has closed its socket, and a tunnel that it connected has been
    -- asked to disconnect since; and it does not panic. It may also still serve after the given number of
    -- rounds. The journal that a successful Connect returns names its device.
    pub run-IsSettled :
        (n : ℕ) (h : History)
        → IsSettled h
        → Post (Ends w) (λ _. IsSettled) (run w n h).0 (run w n h).1
    run-IsSettled n h p = (Triple-run n).at h p
