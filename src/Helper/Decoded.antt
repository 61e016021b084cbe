-- ===== src/Helper/Decoded.antt =====
-- What `DecodeFrame` of internal/helperproto/protocol.go accepts.
use nordmac.Base.{
  ℕ, Bool, true, false, Option, none, some, Text, panic, pass, reject_if-ne-panic, ◌≡◌, ◌≢◌, arith,
}
use nordmac.Base.Triples.{Triple, Triple-pure, Triple-lift, Triple-bind, Triple-weaken}
use nordmac.Base.Calm.{Any, Calm, Calm-pure, Calm-lift, Calm-bind, Triple-Calm}
use nordmac.Helper.Protocol.{Operation, connect_operation, Request, validate_request}
use nordmac.Helper.Frames.{
  Codec, decoded, read_full, require_eof, read_secrets_exact, read_frame, decode_request, read_tail,
  decode_frame,
}
use nordmac.Helper.Reads.{validate_request-ne-panic, validate_secrets-ne-panic}

Calm-read_full : (n : ℕ) → Calm (read_full n)
unfolding read_full
Calm-read_full n = record { at = λ r h. ground (arith, h) }

Calm-require_eof : Calm require_eof
unfolding require_eof
Calm-require_eof = record { at = λ r h. ground (arith, h) }

decoded-ne-panic : {A : Type 0} (o : Option (A × Bool)) → decoded o ≢ panic
decoded-ne-panic none h = cc
decoded-ne-panic (some (a, true)) h = cc
decoded-ne-panic (some (a, false)) h = cc

Calm-read_secrets_exact : Calm read_secrets_exact
unfolding read_secrets_exact
Calm-read_secrets_exact = Calm-bind _ _ (Calm-read_full _) λ frame.
    Calm-bind _ _ (Calm-lift _ (reject_if-ne-panic _ _))
      λ _. Calm-bind _ _ (Calm-lift _ (validate_secrets-ne-panic _)) λ _. Calm-pure _

Calm-read_frame : Calm read_frame
unfolding read_frame
Calm-read_frame =
    Calm-bind _ _ (Calm-read_full 4)
      λ size. Calm-bind _ _ (Calm-lift _ (reject_if-ne-panic _ _)) λ _. Calm-read_full _

Calm-read_tail : (o : Operation) → Calm (read_tail o)
unfolding read_tail
Calm-read_tail connect_operation =
    Calm-bind _ _ Calm-read_secrets_exact λ s. Calm-bind _ _ Calm-require_eof λ _. Calm-pure s
Calm-read_tail _ = Calm-bind _ _ Calm-require_eof λ _. Calm-pure _

Triple-decode_request :
    (codec : Codec Request) (payload : Text)
    → Triple Any (decode_request codec payload) (λ r _. validate_request r ≡ pass) (λ _. Any)
unfolding decode_request
Triple-decode_request codec payload =
    Triple-bind (Triple-Calm _ (Calm-lift _ (reject_if-ne-panic _ _))) λ _.
      Triple-bind (Triple-Calm _ (Calm-lift _ (decoded-ne-panic _))) λ r.
        Triple-bind {Q = λ _ _. validate_request r ≡ pass}
          (Triple-lift _ (validate_request-ne-panic r) (λ _ s h _. h) (λ _ _ _ _. tt))
          λ _. Triple-pure r (λ s h. h)

-- A request that `DecodeFrame` returns has been validated, and no bytes make it panic.
pub Triple-decode_frame :
    (codec : Codec Request)
    → Triple Any (decode_frame codec) (λ f _. validate_request f.0 ≡ pass) (λ _. Any)
unfolding decode_frame
Triple-decode_frame codec = Triple-bind (Triple-Calm _ Calm-read_frame) λ payload.
    Triple-bind (Triple-decode_request codec payload) λ r.
      Triple-bind {Q = λ _ _. validate_request r ≡ pass} (tail r) λ s. Triple-pure (r, s) (λ _ h. h)
  where
    tail :
        (r : Request)
        → Triple
            (λ _. validate_request r ≡ pass)
            (read_tail r.operation)
            (λ _ _. validate_request r ≡ pass)
            (λ _. Any)
    tail r = record { at = λ s h. (keeps r h).at s tt }
      where
        keeps :
            (r : Request)
            → validate_request r ≡ pass
            → Triple Any (read_tail r.operation) (λ _ _. validate_request r ≡ pass) (λ _. Any)
        keeps r h =
            Triple-weaken (Triple-Calm _ (Calm-read_tail r.operation)) (λ _ _. tt) (λ _ _ _. h)
              (λ _ _ _. tt)
