-- ===== src/Helper/Roundtrip.antt =====
-- `DecodeFrame` on what `EncodeFrame` wrote (internal/helperproto/protocol.go).
use nordmac.Base.{
  ℕ, ◌≤◌, true, Option, none, some, [], ◌++◌, ◌==◌, text_eq, nat_eq, Text, length, take, Outcome,
  ok, panic, message, Error, pass, reject_if, reject_if-pass, reject_if-ne-panic, Bool-cases, inl,
  inr, arith, ◌≡◌, ◌≢◌, refl, sym, ap, ◌∙◌, subst, take-length, append_assoc, append-nil,
}
use nordmac.Base.Actions.{Action, pure, lift, map_error, ◌>>=◌, ◌>>◌}
use nordmac.Base.Triples.{
  Triple, Post, Post-ok, ok-injective, Triple-pure, Triple-raise, Triple-lift, Triple-bind,
  Triple-weaken, Triple-map_error, Triple-assume,
}
use nordmac.Helper.Protocol.{
  max_request_bytes, Operation, connect_operation, disconnect_operation, recover_operation,
  status_operation, other_operation, Request, validate_request, DeviceSecrets, validate_secrets,
  is_some,
}
use nordmac.Helper.Frames.{
  Codec, Writer, put_uint32, frame_of, some_or, taken_or_failed, write, write_secrets, write_frame,
  write_tail, encode_frame, require_eof, no_secrets, read_tail, decode_frame,
}
use nordmac.Helper.Reads.{
  end_of_file, Reads, Reads-pure, Reads-bind, Reads-require_eof, Reads-read_secrets_exact,
  validate_secrets-ne-panic, validate_request-ne-panic, framed, Reads-read_frame,
  Reads-decode_request, tail_bytes, secrets_of, IsPair,
}

-- The writer keeps the contract of `io.Writer`: it takes the whole chunk unless it returns an error.
pub record IsWriter (w : Writer) : Type 0 where
  pub whole : (out chunk : Text) → (w out chunk).1 ≡ none → (w out chunk).0 ≡ length chunk

-- A method that returns has written these bytes.
abbrev Writes : {A : Type 0} → Text → Action Text A → Text → Type 0
Writes {A} out m bs = Triple (λ s. s ≡ out) m (λ a s. s ≡ out ++ bs) (λ _ _. Unit {0})

module _ (w : Writer) (honest : IsWriter w) where
  Writes-write : (out chunk : Text) → Writes out (write w chunk) chunk
  unfolding write
  Writes-write out chunk = record { at = λ s e. by_answer s e (w s chunk) (honest.whole s chunk) }
    where
      by_answer :
          (s : Text)
          → s ≡ out
          → (p : ℕ × Option Error) → (p.1 ≡ none → p.0 ≡ length chunk)
          → Post
              (λ a t. t ≡ out ++ chunk)
              (λ _ _. Unit {0})
              (taken_or_failed p)
              (s ++ take p.0 chunk)
      by_answer s h (n, none) e = rw (h, e refl, take-length chunk)
      by_answer s h (n, some x) e = tt

  Writes-error :
      {A : Type 0} {out : Text} (f : Error → Error) (m : Action Text A) (bs : Text)
      → Writes out m bs
      → Writes out (map_error f m) bs
  Writes-error f m bs h = Triple-map_error f m h

  -- A check that passes changes nothing and gives its fact to what follows.
  Triple-check :
      {B : Type 0} {out : Text} {Q : B → Text → Type 0} (k : Outcome (Unit {0}))
      (f : Unit {0} → Action Text B)
      → k ≢ panic
      → (k ≡ pass → Triple (λ s. s ≡ out) (f tt) Q (λ _ _. Unit {0}))
      → Triple (λ s. s ≡ out) (lift k >>= f) Q (λ _ _. Unit {0})
  Triple-check {out} k f n rest =
      Triple-bind {Q = λ a s. (s ≡ out) × (k ≡ pass)}
        (Triple-lift k n (λ _ s e h. (h, e)) (λ _ s _ _. tt)) λ a. Triple-assume rest

  Triple-write_frame :
      (out d : Text)
      → Triple
          (λ s. s ≡ out)
          (write_frame w d)
          (λ _ s. (s ≡ out ++ framed d) × (length d ≤ max_request_bytes))
          (λ _ _. Unit {0})
  unfolding write_frame
  Triple-write_frame out d = Triple-check _ _ (reject_if-ne-panic _ _) λ fits.
      Triple-bind (Writes-error _ _ _ (Writes-write out (put_uint32 (length d)))) λ _.
        Triple-bind (Writes-error _ _ _ (Writes-write (out ++ put_uint32 (length d)) d)) λ _.
          Triple-pure tt λ s e. (
            e ∙ append_assoc out (put_uint32 (length d)) d,
            ground (arith, reject_if-pass _ _ fits),
          )

  Writes-write_secrets :
      (out : Text) (s : DeviceSecrets)
      → Triple
          (λ t. t ≡ out)
          (write_secrets w (some s))
          (λ _ t. (t ≡ out ++ frame_of s) × (validate_secrets (some s) ≡ pass))
          (λ _ _. Unit {0})
  unfolding write_secrets
  Writes-write_secrets out s = Triple-check _ _ (validate_secrets-ne-panic (some s)) λ valid.
      Triple-bind (Writes-error _ _ _ (Writes-write out (frame_of s))) λ n.
        elim (Bool-cases (n == length (frame_of s))) [
          | inl same ↦ rw same (Triple-pure tt λ t e. (e, valid))
          | inr other ↦ rw other (Triple-raise _ λ t e. tt)
        ]

  -- What is read after the request is what was written there.
  abbrev HasTail : Operation → Option DeviceSecrets → Type 0
  HasTail op secrets =
      Reads end_of_file (read_tail op) (tail_bytes op secrets) (secrets_of op secrets)

  Writes-no_secrets :
      (out : Text) (secrets : Option DeviceSecrets)
      → Triple
          (λ t. t ≡ out)
          (lift (reject_if (is_some secrets) "request contains secrets"))
          (λ _ t.
            (t ≡ out ++ []) × Reads end_of_file (do require_eof; pure no_secrets) [] no_secrets)
          (λ _ _. Unit {0})
  Writes-no_secrets out secrets =
      Triple-lift _ (reject_if-ne-panic _ _)
        (λ _ t _ e. (
          e ∙ sym (append-nil out),
          Reads-bind _ {bs = []} {cs = []} Reads-require_eof (Reads-pure no_secrets),
        ))
        (λ _ t _ _. tt)

  Triple-write_tail :
      (out : Text) (op : Operation) (secrets : Option DeviceSecrets)
      → IsPair secrets
      → Triple
          (λ t. t ≡ out)
          (write_tail w op secrets)
          (λ _ t. (t ≡ out ++ tail_bytes op secrets) × HasTail op secrets)
          (λ _ _. Unit {0})
  unfolding write_tail read_tail write_secrets validate_secrets
  Triple-write_tail out connect_operation none pair =
      Triple-lift _ (λ h. cc) (λ _ t h e. cc) (λ _ t _ _. tt)
  Triple-write_tail out connect_operation (some s) (k, p) =
      Triple-weaken (Writes-write_secrets out s) (λ t e. e)
        (λ _ t (e, valid). (
          e,
          subst (λ bs. Reads end_of_file (read_tail connect_operation) bs s)
              (append-nil (frame_of s))
              (Reads-bind _ (Reads-read_secrets_exact _ s k p valid)
                (Reads-bind _ {bs = []} {cs = []} Reads-require_eof (Reads-pure s))),
        ))
        (λ _ t _. tt)
  Triple-write_tail out disconnect_operation secrets pair = Writes-no_secrets out secrets
  Triple-write_tail out recover_operation secrets pair = Writes-no_secrets out secrets
  Triple-write_tail out status_operation secrets pair = Writes-no_secrets out secrets
  Triple-write_tail out (other_operation x) secrets pair = Writes-no_secrets out secrets

-- The codec brings this message back: nothing is lost, nothing follows it, and it is not empty.
pub record IsFaithful {A : Type 0} (codec : Codec A) (a : A) : Type 0 where
  pub returns : (d : Text) → codec.marshal a ≡ some d → codec.unmarshal d ≡ some (a, true)
  pub not_empty : (d : Text) → codec.marshal a ≡ some d → length d ≢ 0

module _ (w : Writer) (honest : IsWriter w) (codec : Codec Request) where
  -- What has been written decodes to the request and the secrets.
  abbrev Decodes : Request → Option DeviceSecrets → Text → Type 0
  Decodes r secrets bs =
      Reads end_of_file (decode_frame codec) bs (r, secrets_of r.operation secrets)

  Reads-decode_frame :
      (r : Request) (secrets : Option DeviceSecrets) (d : Text)
      → length d ≢ 0
      → length d ≤ max_request_bytes
      → codec.unmarshal d ≡ some (r, true)
      → validate_request r ≡ pass
      → Reads end_of_file
          (read_tail r.operation)
          (tail_bytes r.operation secrets)
          (secrets_of r.operation secrets)
      → Decodes r secrets (framed d ++ tail_bytes r.operation secrets)
  unfolding decode_frame
  Reads-decode_frame r secrets d full fits found valid tail =
      Reads-bind _ (Reads-read_frame _ d full fits) (
        Reads-bind _ {bs = []} (Reads-decode_request _ codec d r fits found valid) (
          subst
            (λ bs.
              Reads {A = Request × DeviceSecrets} end_of_file
                (read_tail r.operation >>= λ s. pure (r, s)) bs (r, secrets_of r.operation secrets))
            (append-nil (tail_bytes r.operation secrets))
            (Reads-bind (λ s. pure (r, s)) tail (Reads-pure _))))

  Triple-encode_frame :
      (r : Request) (secrets : Option DeviceSecrets)
      → IsFaithful codec r
      → IsPair secrets
      → Triple
          (λ s. s ≡ [])
          (encode_frame w codec r secrets)
          (λ _ s. Decodes r secrets s)
          (λ _ _. Unit {0})
  unfolding encode_frame
  Triple-encode_frame r secrets faithful pair =
      Triple-check w honest _ _ (validate_request-ne-panic r) λ valid.
        Triple-bind {Q = λ d s. (s ≡ []) × (codec.marshal r ≡ some d)}
          (marshalled (codec.marshal r))
          λ d. Triple-assume λ found. Triple-bind (Triple-write_frame w honest [] d) λ _.
            Triple-assume λ fits.
              Triple-weaken (Triple-write_tail w honest (framed d) r.operation secrets pair)
                (λ s e. e)
                (λ _ s (e, tail). subst (Decodes r secrets) (sym e) (
                  Reads-decode_frame r secrets d (faithful.not_empty d found) fits
                    (faithful.returns d found) valid tail))
                (λ _ s _. tt)
    where
      marshalled :
          (m : Option Text)
          → Triple {S = Text}
              (λ s. s ≡ [])
              (lift (some_or (message "encode helper request") m))
              (λ d s. (s ≡ []) × (m ≡ some d))
              (λ _ _. Unit {0})
      marshalled none = Triple-lift _ (λ h. cc) (λ d s h e. cc) (λ _ s _ _. tt)
      marshalled (some x) =
          Triple-lift _ (λ h. cc) (λ d s h e. (e, ap some (ok-injective x d h))) (λ _ s _ _. tt)

  -- Over any writer that keeps the contract of `io.Writer`, what `EncodeFrame` writes when it returns no
  -- error is decoded by `DecodeFrame` to the same request and, for a connect, the same secrets, to the
  -- last byte. The JSON codec must bring this request back from bytes that are not none, and each key
  -- has 32 bytes.
  pub decode_frame-encode_frame :
      (r : Request) (secrets : Option DeviceSecrets)
      → IsFaithful codec r
      → IsPair secrets
      → (encode_frame w codec r secrets []).0 ≡ ok tt
      → decode_frame codec (record { bytes = (encode_frame w codec r secrets []).1; at_eof = true })
        ≡ (ok (r, secrets_of r.operation secrets), end_of_file)
  decode_frame-encode_frame r secrets faithful pair done =
      let reads =
        Post-ok (λ _ s. Decodes r secrets s) (λ _ _. Unit {0}) _ _ tt
          ((Triple-encode_frame r secrets faithful pair).at [] refl) done in
      ap (λ bs. decode_frame codec (record { bytes = bs; at_eof = true })) (sym (append-nil _))
      ∙ reads.run
