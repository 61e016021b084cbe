-- ===== src/Helper/Reads.antt =====
-- What the decoders of internal/helperproto/protocol.go read of given bytes.
use nordmac.Base.{
  ℕ, ◌≤◌, ◌<◌, true, Option, none, some, [], ◌++◌, text_eq, nat_eq, Text, leb, length, take,
  Outcome, ok, panic, pass, reject_if, pass-reject_if, reject_if-ne-panic, context-ne-panic,
  >>-ne-panic, arith, ◌≡◌, ◌≢◌, refl, ap, subst, take-append, drop-append, take-length,
  append_assoc, append-nil, length-append, ℕ_discrete, Text-discrete,
}
use nordmac.Base.Actions.{Action, pure, lift, ◌>>=◌}
use nordmac.Tunnel.Types.{Plan}
use nordmac.Tunnel.Panics.{validate_plan-ne-panic}
use nordmac.Helper.Protocol.{
  check_connect, check_other, check_operation, max_request_bytes, Operation, connect_operation,
  disconnect_operation, recover_operation, status_operation, other_operation, Request,
  validate_request, DeviceSecrets, validate_secrets,
}
use nordmac.Helper.Frames.{
  Codec, Reader, put_uint32, uint32, frame_of, read_full, require_eof, keys_of, read_secrets_exact,
  read_frame, decode_request, no_secrets,
}

-- The reader on which these bytes arrive first.
abbrev pub before : Text → Reader → Reader
before bs r = record { bytes = bs ++ r.bytes; at_eof = r.at_eof }

abbrev pub end_of_file : Reader
end_of_file = record { bytes = []; at_eof = true }

-- The method reads exactly these bytes, before what the reader has left, and returns the value.
pub record Reads {A : Type 0} (r : Reader) (m : Action Reader A) (bs : Text) (a : A) : Type 0 where
  pub run : m (before bs r) ≡ (ok a, r)

module _ {A : Type 0} {r : Reader} where
  pub Reads-pure : (a : A) → Reads r (pure a) [] a
  unfolding pure
  Reads-pure a = record { run = refl }

  Reads-lift : (o : Outcome A) (a : A) → o ≡ ok a → Reads r (lift o) [] a
  unfolding lift
  Reads-lift o a h = record { run = rw h }

pub Reads-bind :
    {A B : Type 0} {r : Reader} {m : Action Reader A} (f : A → Action Reader B) {bs cs : Text}
    {a : A} {b : B}
    → Reads (before cs r) m bs a
    → Reads r (f a) cs b
    → Reads r (m >>= f) (bs ++ cs) b
unfolding ◌>>=◌
Reads-bind {r} {m} f {bs} {cs} {a} {b} h k = record {
  run =
      let e : before (bs ++ cs) r ≡ before bs (before cs r) =
        ap (λ x. record { bytes = x; at_eof = r.at_eof }) (append_assoc bs cs r.bytes) in
      rw (e, h.run) k.run;
}

Reads-read_full : (r : Reader) (n : ℕ) (bs : Text) → length bs ≡ n → Reads r (read_full n) bs bs
unfolding read_full
Reads-read_full r n bs h = record {
  run =
      let e : leb n (length (bs ++ r.bytes)) ≡ true = ground (arith, h, length-append bs r.bytes) in
      rw (e, take-append n bs r.bytes h, drop-append n bs r.bytes h);
}

pub Reads-require_eof : Reads end_of_file require_eof [] tt
unfolding require_eof ℕ_discrete
Reads-require_eof = record { run = refl }

-- Four bytes hold a length.
uint32-put_uint32 : (n : ℕ) → n < 4294967296 → uint32 (put_uint32 n) ≡ n
unfolding uint32 put_uint32
uint32-put_uint32 n h = omega (arith, h)

keys_of-frame_of :
    (s : DeviceSecrets)
    → length s.client_private_key ≡ 32
    → length s.peer_public_key ≡ 32
    → keys_of (frame_of s) ≡ s
keys_of-frame_of s k p =
    let e : take 32 s.peer_public_key ≡ s.peer_public_key =
      subst (λ n. take n s.peer_public_key ≡ s.peer_public_key) p (take-length s.peer_public_key) in
    rw (
      take-append 32 s.client_private_key s.peer_public_key k,
      drop-append 32 s.client_private_key s.peer_public_key k,
      e,
    )

pub Reads-read_secrets_exact :
    (r : Reader) (s : DeviceSecrets)
    → length s.client_private_key ≡ 32
    → length s.peer_public_key ≡ 32
    → validate_secrets (some s) ≡ pass
    → Reads r read_secrets_exact (frame_of s) s
unfolding read_secrets_exact ℕ_discrete Text-discrete
Reads-read_secrets_exact r s k p valid =
    subst (λ bs. Reads r read_secrets_exact bs s) (append-nil (frame_of s))
      (Reads-bind _
        (Reads-read_full _ 68 (frame_of s)
          (omega (arith, length-append s.client_private_key s.peer_public_key, k, p)))
        (Reads-bind _ {bs = []} (Reads-lift _ tt (pass-reject_if _ _ refl)) (
          rw (keys_of-frame_of s k p)
            (Reads-bind _ {bs = []} (Reads-lift _ tt valid) (Reads-pure s)))))

pub validate_secrets-ne-panic : (s : Option DeviceSecrets) → validate_secrets s ≢ panic
unfolding validate_secrets
validate_secrets-ne-panic none = λ h. cc
validate_secrets-ne-panic (some s) =
    >>-ne-panic _ _ (reject_if-ne-panic _ _) (reject_if-ne-panic _ _)

-- No request makes `Request.Validate` panic.
pub validate_request-ne-panic : (r : Request) → validate_request r ≢ panic
unfolding validate_request check_connect check_other check_operation
validate_request-ne-panic r =
    >>-ne-panic _ _ (reject_if-ne-panic _ _)
      (>>-ne-panic _ _ (reject_if-ne-panic _ _) (by_operation r.operation))
  where
    by_plan : (p : Option Plan) → check_connect r p ≢ panic
    by_plan none = λ h. cc
    by_plan (some p) =
        >>-ne-panic _ _ (reject_if-ne-panic _ _) (
          >>-ne-panic _ _ (context-ne-panic _ _ (validate_plan-ne-panic p))
            (reject_if-ne-panic _ _))

    other : check_other r ≢ panic
    other = reject_if-ne-panic _ _

    by_operation : (op : Operation) → check_operation r op ≢ panic
    by_operation connect_operation = by_plan r.plan
    by_operation disconnect_operation = other
    by_operation recover_operation = other
    by_operation status_operation = other
    by_operation (other_operation t) = λ h. cc

-- The length and the message as bytes.
abbrev pub framed : Text → Text
framed d = put_uint32 (length d) ++ d

pub Reads-read_frame :
    (r : Reader) (d : Text)
    → length d ≢ 0
    → length d ≤ max_request_bytes
    → Reads r read_frame (framed d) d
unfolding read_frame put_uint32 reject_if
Reads-read_frame r d some_bytes fits =
    let e = uint32-put_uint32 (length d) (omega (arith, fits)) in
    Reads-bind _ (Reads-read_full _ 4 (put_uint32 (length d)) refl) (
      rw e (
        Reads-bind _ {bs = []}
          (Reads-lift _ tt (pass-reject_if _ _ (ground (arith, some_bytes, fits))))
          (Reads-read_full r (length d) d refl)))

pub Reads-decode_request :
    (r : Reader) (codec : Codec Request) (d : Text) (request : Request)
    → length d ≤ max_request_bytes
    → codec.unmarshal d ≡ some (request, true)
    → validate_request request ≡ pass
    → Reads r (decode_request codec d) [] request
unfolding decode_request
Reads-decode_request r codec d request fits found valid =
    Reads-bind _ {bs = []} {cs = []} (Reads-lift _ tt (pass-reject_if _ _ (ground (arith, fits)))) (
      Reads-bind _ {bs = []} {cs = []} (Reads-lift _ request (rw found))
        (Reads-bind _ {bs = []} {cs = []} (Reads-lift _ tt valid) (Reads-pure request)))

-- What stands after the request on the wire, and the secrets that are read there.
abbrev pub tail_bytes : Operation → Option DeviceSecrets → Text
tail_bytes connect_operation (some s) = frame_of s
tail_bytes _ secrets = []

abbrev pub secrets_of : Operation → Option DeviceSecrets → DeviceSecrets
secrets_of connect_operation (some s) = s
secrets_of _ secrets = no_secrets

-- Each key is 32 bytes long.
abbrev pub IsPair : Option DeviceSecrets → Type 0
IsPair none = Unit
IsPair (some s) = (length s.client_private_key ≡ 32) × (length s.peer_public_key ≡ 32)
