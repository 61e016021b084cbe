-- ===== src/Daemon/Answers.antt =====
-- What the helper answers, and when it stops (internal/helperdaemon/daemon.go).
use nordmac.Base.{
  Bool, true, false, Option, none, some, [], ◌∷◌, text_eq, int_eq, Error, Outcome, ok, err, panic,
  ◌≡◌, ◌≢◌, refl, arith, Bool-cases, inl, inr,
}
use nordmac.Base.Actions.{gets, attempt, ◌>>=◌}
use nordmac.Base.Triples.{
  Triple, Post, Attempted, Triple-pure, Triple-lift, Triple-bind, Triple-weaken, Triple-attempt,
}
use nordmac.Base.Calls.{Triple-perform}
use nordmac.Base.Calm.{Any, Calm, Calm-attempt, Calm-perform, Triple-Calm}
use nordmac.Tunnel.Types.{phase_eq, Journal}
use nordmac.Helper.Protocol.{
  Operation, connect_operation, disconnect_operation, recover_operation, status_operation,
  other_operation, Request, Response, DeviceSecrets,
}
use nordmac.Helper.Frames.{decode_frame}
use nordmac.Daemon.World.{Call, disconnect_tunnel, History, World, Tx, is_nil, do_call}
use nordmac.Daemon.Handle.{
  is_foreign, send, answer_status, answer_disconnect, answer, answer_frame, or_refuse, handle,
}
use nordmac.Daemon.Calm.{
  HasDevice, Calm-send, Calm-verify_ownership, Calm-snapshot_unless, decode_frame-ne-panic,
  validate_response-ne-panic,
}

abbrev pub disconnected_after : Call → Option Error → Bool → Bool
disconnected_after (disconnect_tunnel id uid) none b = true
disconnected_after c e b = b

-- Whether `Controller.Disconnect` has succeeded.
unfoldable pub has_disconnected : History → Bool
has_disconnected [] = false
has_disconnected (e ∷ h) = disconnected_after e.call e.error (has_disconnected h)

module _ (w : World) where
  abbrev Stops : Bool × Option Error → History → Type 0
  Stops r h = r.0 ≡ true → has_disconnected h ≡ true

  still : (h : History) → false ≡ true → has_disconnected h ≡ true
  still h stop = absurd (ground (arith, stop))

  by_error :
      (e : Option Error) (h : History)
      → Attempted (λ (_ : Unit {0}) (h : History). has_disconnected h ≡ true) (λ _. Any) e h
      → is_nil e ≡ true
      → has_disconnected h ≡ true
  by_error none h p n = p.1
  by_error (some x) h p n = absurd (ground (arith, n))

  -- What is known once it is disconnected, or not.
  abbrev Undone : Option Error → History → Type 0
  Undone e h = is_nil e ≡ true → has_disconnected h ≡ true

  Triple-disconnecting :
      (initial : Request)
      → Triple Any
          (attempt (do_call w (disconnect_tunnel initial.session_id initial.owner_uid)))
          Undone
          (λ _. Any)
  unfolding has_disconnected
  Triple-disconnecting initial =
      Triple-weaken
        (Triple-attempt {F = λ _. Any} (
          Triple-perform w.fails {Q = λ h. has_disconnected h ≡ true} {E = λ _. Any} _
            (λ h p _. refl) (λ h e p _. tt)))
        (λ h p. p) by_error (λ _ _ _. tt)

  -- The answer does not change what was done.
  Triple-sent :
      (e : Option Error) (r : Response)
      → Triple (Undone e) (send w r) (λ _. Undone e) (λ _. Undone e)
  unfolding send has_disconnected
  Triple-sent e r =
      Triple-bind {Q = λ _. Undone e}
        (Triple-lift _ (validate_response-ne-panic r) (λ _ h _ p. p) (λ _ h _ p. p))
        λ _. Triple-perform w.fails _ (λ h p _. p) (λ h x p _. p)

  Triple-told :
      (e : Option Error) (r : Response)
      → Triple (Undone e) (attempt (send w r)) (λ _. Undone e) (λ _. Any)
  Triple-told e r =
      Triple-weaken (Triple-attempt {F = λ _. Any} (Triple-sent e r)) (λ h p. p) ended (λ _ _ _. tt)
    where
      ended :
          (x : Option Error) (h : History)
          → Attempted (λ (_ : Unit {0}). Undone e) (λ _. Undone e) x h
          → Undone e h
      ended none h p = p.1
      ended (some x) h p = p

  Triple-answer_disconnect :
      (initial request : Request)
      → Triple Any (answer_disconnect w initial request) Stops (λ _. Any)
  unfolding answer_disconnect
  Triple-answer_disconnect initial request =
      Triple-bind (Triple-disconnecting initial)
        λ e. Triple-bind (Triple-told e _) λ g. Triple-pure _ (λ h p. p)

  Triple-tried :
      {A B : Type 0} (m : Tx A) (k : Option Error → Tx B) {Q : B → History → Type 0}
      → Calm m
      → ((e : Option Error) → Triple Any (k e) Q (λ _. Any))
      → Triple Any (attempt m >>= k) Q (λ _. Any)
  Triple-tried m k c t = Triple-bind (Triple-Calm _ (Calm-attempt m c)) t

  Triple-answer :
      (initial : Request) (j : Journal) (request : Request) (o : Operation)
      → HasDevice j
      → Triple Any (answer w initial j request o) Stops (λ _. Any)
  unfolding answer answer_status
  Triple-answer initial j request disconnect_operation d = Triple-answer_disconnect initial request
  Triple-answer initial j request recover_operation d = Triple-answer_disconnect initial request
  Triple-answer initial j request connect_operation d = Triple-pure _ (λ h p. still h)
  Triple-answer initial j request (other_operation t) d = Triple-pure _ (λ h p. still h)
  Triple-answer initial j request status_operation d =
      Triple-tried _ _ (Calm-verify_ownership w j d) λ e.
        Triple-bind (Triple-Calm _ (Calm-snapshot_unless w initial e))
          λ f. Triple-tried _ _ (Calm-send w _) λ g. Triple-pure _ (λ h p. still h)

  Triple-answer_frame :
      (initial : Request) (j : Journal) (frame : Outcome (Request × DeviceSecrets))
      → HasDevice j
      → frame ≢ panic
      → Triple Any (answer_frame w initial j frame) Stops (λ _. Any)
  unfolding answer_frame
  Triple-answer_frame initial j panic d n = absurd (n refl)
  Triple-answer_frame initial j (err e) d n = Triple-pure _ (λ h p. still h)
  Triple-answer_frame initial j (ok (request, secrets)) d n =
      elim (Bool-cases (is_foreign initial request)) [
        | inl foreign ↦
            rw foreign (Triple-tried _ _ (Calm-send w _) λ g. Triple-pure _ (λ h p. still h))
        | inr own ↦ rw own (Triple-answer initial j request request.operation d)
      ]

  Triple-or_refuse :
      (e : Option Error) (next : Tx (Bool × Option Error))
      → Triple Any next Stops (λ _. Any)
      → Triple Any (or_refuse w e next) Stops (λ _. Any)
  Triple-or_refuse none next t = t
  Triple-or_refuse (some e) next t = Triple-pure _ (λ h p. still h)

  Triple-read :
      (initial : Request) (j : Journal)
      → HasDevice j
      → Triple Any
          (do
            frame ← gets (λ h. (decode_frame w.codec (w.incoming h)).0)
            answer_frame w initial j frame)
          Stops
          (λ _. Any)
  unfolding ◌>>=◌ gets
  Triple-read initial j d = record {
    at = λ h p. (Triple-answer_frame initial j _ d (decode_frame-ne-panic w h)).at h tt;
  }

  -- The helper answers a request without panicking, and it stops only after a `Controller.Disconnect` that
  -- returned no error. The journal of the tunnel names its device.
  pub handle-HasDisconnected :
      (initial : Request) (j : Journal) (h : History)
      → HasDevice j
      → let r = handle w initial j h in
        Post (λ r h. r.0 ≡ true → has_disconnected h ≡ true) (λ _. Any) r.0 r.1
  unfolding handle
  handle-HasDisconnected initial j h d = handled.at h tt
    where
      handled : Triple Any (handle w initial j) Stops (λ _. Any)
      handled = Triple-tried _ _ (Calm-perform w.fails _) λ _.
          Triple-tried _ _ (Calm-perform w.fails _)
            λ e. Triple-or_refuse e _ (Triple-read initial j d)
