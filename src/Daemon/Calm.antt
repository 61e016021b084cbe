-- ===== src/Daemon/Calm.antt =====
-- The helper never panics (internal/helperdaemon/daemon.go).
use nordmac.Base.{
  ℕ, zero, suc, Bool, true, false, not, ◌&&◌, Option, none, some, List, [], ◌∷◌, ◌==◌, text_eq,
  int_eq, String, Error, message, Outcome, ok, err, panic, reject_if, reject_if-ne-panic,
  >>-ne-panic, ltb, if◌then◌else◌, ◌≢◌, refl, arith,
}
use nordmac.Base.Actions.{pure, raise, lift, gets, attempt, ◌>>=◌, ◌>>◌}
use nordmac.Base.Triples.{Post-ne-panic}
use nordmac.Base.Calm.{
  Calm, Calm-pure, Calm-raise, Calm-gets, Calm-lift, Calm-attempt, Calm-bind, Calm-perform,
}
use nordmac.Netip.{zero_addr, addr_eq}
use nordmac.Tunnel.Types.{Route, Journal, foreign_conflict}
use nordmac.Helper.Protocol.{
  Operation, connect_operation, disconnect_operation, recover_operation, status_operation,
  other_operation, Request, Response, validate_response, check_outcome, DeviceSecrets,
}
use nordmac.Helper.Frames.{decode_frame}
use nordmac.Helper.Decoded.{Triple-decode_frame}
use nordmac.Daemon.World.{accept, Call, History, World, Tx, is_nil, do_call}
use nordmac.Daemon.Files.{unless_exist}
use nordmac.Daemon.Verify.{refuse_if, on_device, expected_of, verify_routes, verify_ownership}
use nordmac.Daemon.Handle.{
  is_foreign, response_for, send, snapshot_unless, answer_status, answer_disconnect, answer,
  answer_frame, or_refuse, handle,
}
use nordmac.Daemon.Serve.{
  Loop, check_health, on_timeout, stop_or, on_accept, serve_round, rest_or, serve_rounds, serve,
}

refuse_if-ne-panic : (m : String) (e : Option Error) (b : Bool) → refuse_if m e b ≢ panic
refuse_if-ne-panic m none false h = cc
refuse_if-ne-panic m none true h = cc
refuse_if-ne-panic m (some e) b h = cc

pub unless_exist-ne-panic : (f : Error → Error) (e : Option Error) → unless_exist f e ≢ panic
unless_exist-ne-panic f none h = cc
unless_exist-ne-panic f (some e) h = ground (arith, h)

pub validate_response-ne-panic : (r : Response) → validate_response r ≢ panic
unfolding validate_response check_outcome
validate_response-ne-panic r =
    >>-ne-panic _ _ (reject_if-ne-panic _ _)
      (>>-ne-panic _ _ (reject_if-ne-panic _ _) (by_outcome r.succeeded))
  where
    by_outcome : (b : Bool) → check_outcome b r.error_code ≢ panic
    by_outcome true = reject_if-ne-panic _ _
    by_outcome false = reject_if-ne-panic _ _

-- The tunnel has its device.
abbrev pub HasDevice : Journal → Type 0
HasDevice j = (r : Route) → on_device j.device r ≢ panic

module _ (w : World) where
  Calm-checked : (b : Bool) (m : String) → Calm {S = History} (lift (reject_if b m))
  Calm-checked b m = Calm-lift _ (reject_if-ne-panic b m)

  Calm-call : (c : Call) → Calm (do_call w c)
  Calm-call c = Calm-perform w.fails c

  Calm-tried : (c : Call) → Calm (attempt (do_call w c))
  Calm-tried c = Calm-attempt _ (Calm-call c)

  expected_of-ne-panic : (j : Journal) (r : Route) → HasDevice j → expected_of j r ≢ panic
  expected_of-ne-panic j r d = by_gateway (not r.reject && r.gateway == zero_addr)
    where
      by_gateway : (b : Bool) → (if b then on_device j.device r else ok r) ≢ panic
      by_gateway true = d r
      by_gateway false = λ h. cc

  Calm-verify_routes : (j : Journal) (rs : List Route) → HasDevice j → Calm (verify_routes w j rs)
  unfolding verify_routes
  Calm-verify_routes j [] d = Calm-pure tt
  Calm-verify_routes j (r ∷ rs) d =
      Calm-bind _ _ (Calm-lift _ (expected_of-ne-panic j r d)) λ expected.
        Calm-bind _ _ (Calm-gets _) λ current.
          Calm-bind _ _ (Calm-tried _) λ e.
            Calm-bind _ _ (Calm-lift _ (refuse_if-ne-panic _ _ _)) λ _. Calm-verify_routes j rs d

  pub Calm-verify_ownership : (j : Journal) → HasDevice j → Calm (verify_ownership w j)
  unfolding verify_ownership
  Calm-verify_ownership j d = Calm-bind _ _ (Calm-gets _) λ physical.
      Calm-bind _ _ (Calm-tried _) λ e. Calm-bind _ _ (Calm-lift _ (refuse_if-ne-panic _ _ _)) λ _.
        Calm-bind _ _ (Calm-verify_routes j _ d) λ _.
          Calm-bind _ _ (Calm-gets _)
            λ dns. Calm-bind _ _ (Calm-tried _) λ f. Calm-lift _ (refuse_if-ne-panic _ _ _)

  pub Calm-send : (r : Response) → Calm (send w r)
  unfolding send
  Calm-send r = Calm-bind _ _ (Calm-lift _ (validate_response-ne-panic r)) λ _. Calm-call _

  pub Calm-snapshot_unless :
      (initial : Request) (e : Option Error) → Calm (snapshot_unless w initial e)
  Calm-snapshot_unless initial none = Calm-tried _
  Calm-snapshot_unless initial (some e) = Calm-pure _

  Calm-answer :
      (initial : Request) (j : Journal) (request : Request) (o : Operation)
      → HasDevice j
      → Calm (answer w initial j request o)
  unfolding answer answer_status answer_disconnect
  Calm-answer initial j request status_operation d =
      Calm-bind _ _ (Calm-attempt _ (Calm-verify_ownership j d)) λ e.
        Calm-bind _ _ (Calm-snapshot_unless initial e)
          λ f. Calm-bind _ _ (Calm-attempt _ (Calm-send _)) λ g. Calm-pure _
  Calm-answer initial j request disconnect_operation d =
      Calm-bind _ _ (Calm-tried _)
        λ e. Calm-bind _ _ (Calm-attempt _ (Calm-send _)) λ g. Calm-pure _
  Calm-answer initial j request recover_operation d =
      Calm-bind _ _ (Calm-tried _)
        λ e. Calm-bind _ _ (Calm-attempt _ (Calm-send _)) λ g. Calm-pure _
  Calm-answer initial j request connect_operation d = Calm-pure _
  Calm-answer initial j request (other_operation t) d = Calm-pure _

  Calm-answer_frame :
      (initial : Request) (j : Journal) (frame : Outcome (Request × DeviceSecrets))
      → HasDevice j
      → frame ≢ panic
      → Calm (answer_frame w initial j frame)
  unfolding answer_frame
  Calm-answer_frame initial j panic d n = absurd (n refl)
  Calm-answer_frame initial j (err e) d n = Calm-pure _
  Calm-answer_frame initial j (ok (request, secrets)) d n = by_owner (is_foreign initial request)
    where
      by_owner :
          (b : Bool)
          → Calm (
              if b
              then (do
                let e = message "helper request does not own the active session"
                attempt (send w (response_for request false foreign_conflict (some e)))
                pure (false, some e))
              else answer w initial j request request.operation)
      by_owner true = Calm-bind _ _ (Calm-attempt _ (Calm-send _)) λ _. Calm-pure _
      by_owner false = Calm-answer initial j request request.operation d

  pub decode_frame-ne-panic : (h : History) → (decode_frame w.codec (w.incoming h)).0 ≢ panic
  decode_frame-ne-panic h =
      Post-ne-panic _ _ _ _ ((Triple-decode_frame w.codec).at (w.incoming h) tt)

  -- What is read at the connection, and answered.
  Calm-read :
      (initial : Request) (j : Journal)
      → HasDevice j
      → Calm (do
        frame ← gets (λ h. (decode_frame w.codec (w.incoming h)).0)
        answer_frame w initial j frame)
  unfolding ◌>>=◌ gets
  Calm-read initial j d = record {
    at = λ h. (Calm-answer_frame initial j _ d (decode_frame-ne-panic h)).at h;
  }

  Calm-or_refuse :
      (e : Option Error) (next : Tx (Bool × Option Error)) → Calm next → Calm (or_refuse w e next)
  Calm-or_refuse none next c = c
  Calm-or_refuse (some e) next c = Calm-pure _

  pub Calm-handle : (initial : Request) (j : Journal) → HasDevice j → Calm (handle w initial j)
  unfolding handle
  Calm-handle initial j d =
      Calm-bind _ _ (Calm-tried _)
        λ _. Calm-bind _ _ (Calm-tried _) λ e. Calm-or_refuse e _ (Calm-read initial j d)

  Calm-check_health : (j : Journal) (n : ℕ) → HasDevice j → Calm (check_health w j n)
  unfolding check_health
  Calm-check_health j n d =
      Calm-bind _ _ (Calm-attempt _ (Calm-verify_ownership j d))
        λ e. Calm-bind _ _ (Calm-checked _ _) λ _. Calm-bind _ _ (Calm-gets _) λ now. Calm-pure _

  Calm-on_timeout : (j : Journal) (l : Loop) → HasDevice j → Calm (on_timeout w j l)
  unfolding on_timeout
  Calm-on_timeout j l d = Calm-bind _ _ (Calm-gets _) λ now.
      Calm-bind _ _ (by_time (ltb now l.next_check))
        λ next. Calm-bind _ _ (Calm-tried _) λ _. Calm-pure _
    where
      by_time : (b : Bool) → Calm (if b then pure l else check_health w j l.failures)
      by_time true = Calm-pure l
      by_time false = Calm-check_health j l.failures d

  Calm-stop_or : (r : Bool × Option Error) (l : Loop) → Calm (stop_or w r l)
  Calm-stop_or (true, none) l = Calm-pure _
  Calm-stop_or (true, some e) l = Calm-raise _
  Calm-stop_or (false, e) l = Calm-pure _

  Calm-on_accept :
      (initial : Request) (j : Journal) (l : Loop) (e : Option Error)
      → HasDevice j
      → Calm (on_accept w initial j l e)
  unfolding on_accept
  Calm-on_accept initial j l none d =
      Calm-bind _ _ (Calm-handle initial j d)
        λ r. Calm-bind _ _ (Calm-tried _) λ _. Calm-stop_or r l
  Calm-on_accept initial j l (some e) d = by_timeout (w.is_timeout e)
    where
      by_timeout : (b : Bool) → Calm (if b then on_timeout w j l else raise e)
      by_timeout true = Calm-on_timeout j l d
      by_timeout false = Calm-raise e

  pub Calm-serve_round :
      (initial : Request) (j : Journal) (l : Loop) → HasDevice j → Calm (serve_round w initial j l)
  unfolding serve_round
  Calm-serve_round initial j l d = Calm-bind _ _ (Calm-gets _) λ c. by_context (is_nil c)
    where
      by_context :
          (b : Bool)
          → Calm (
              if b
              then (do e ← attempt (do_call w accept); on_accept w initial j l e)
              else pure none)
      by_context true = Calm-bind _ _ (Calm-tried _) λ e. Calm-on_accept initial j l e d
      by_context false = Calm-pure none

  Calm-rest_or :
      (rest : Loop → Tx Bool) (o : Option Loop)
      → ((l : Loop) → Calm (rest l))
      → Calm (rest_or w rest o)
  Calm-rest_or rest none c = Calm-pure true
  Calm-rest_or rest (some l) c = c l

  Calm-serve_rounds :
      (n : ℕ) (initial : Request) (j : Journal) (l : Loop)
      → HasDevice j
      → Calm (serve_rounds w n initial j l)
  unfolding serve_rounds
  Calm-serve_rounds zero initial j l d = Calm-pure false
  Calm-serve_rounds (suc n) initial j l d =
      Calm-bind _ _ (Calm-serve_round initial j l d)
        λ o. Calm-rest_or _ o λ l'. Calm-serve_rounds n initial j l' d

  pub Calm-serve :
      (n : ℕ) (initial : Request) (j : Journal) → HasDevice j → Calm (serve w n initial j)
  unfolding serve
  Calm-serve n initial j d =
      Calm-bind _ _ (Calm-call _)
        λ _. Calm-bind _ _ (Calm-gets _) λ now. Calm-serve_rounds n initial j _ d
