-- ===== src/Auth/Returned.antt =====
-- The credentials that `Client.Provision` of internal/nordauth/client.go returns.
use nordmac.Base.{
  ℕ, Bool, true, false, not, ◌&&◌, Option, none, some, [], ◌∷◌, Text, pos, ltb_ℤ, ◌==◌, nat_eq,
  text_eq, length, take, drop, Error, wrap, sentinel, invalid_response, Outcome, ok, err, panic,
  Check, if◌then◌else◌, ◌≡◌, refl, subst, ap, ==-true, ◌≤◌, arith, zero, suc,
}
use nordmac.Base.Triples.{ok-injective}
use nordmac.Auth.Token.{validate_token}
use nordmac.Auth.Accepted.{IsToken, validate_token-IsToken}
use nordmac.Auth.Provision.{
  Response, Wire, Provisioning, Library, HttpClient, Sent, Http, http_client, credential_request,
  endpoint, is_quoted, has_32_bytes, provisioning_of, decode_provisioning, of_body, of_response,
  constructed, requested, validated, provision,
}

length-take : (n : ℕ) (s : Text) → n ≤ length s → length (take n s) ≡ n
length-take zero s h = refl
length-take (suc n) [] h = absurd (omega (arith, h))
length-take (suc n) (c ∷ s) h = ap suc (length-take n s (omega (arith, h)))

module _ (go : Library) where
  -- A positive account, and a key that is the text of 32 bytes.
  abbrev pub IsCredential : Provisioning → Type 0
  IsCredential p =
      (ltb_ℤ (pos 0) p.account_id ≡ true)
      × (length p.key ≡ 44)
      × (has_32_bytes go (go.decode_base64 p.key) ≡ true)

  -- What holds of every value that is returned.
  Returns : Outcome Provisioning → Type 0
  Returns o = (p : Provisioning) → o ≡ ok p → IsCredential p

  Returns-err : (e : Error) → Returns (err e)
  unfolding Returns
  Returns-err e p h = cc

  Returns-panic : Returns panic
  unfolding Returns
  Returns-panic p h = cc

  Returns-if :
      (b : Bool) (x y : Outcome Provisioning) → Returns x → Returns y → Returns (if b then x else y)
  Returns-if true x y f g = f
  Returns-if false x y f g = g

  ruleset returning = (Returns-err, Returns-if)

  length-key : (raw : Text) → length raw ≡ 46 → length (take 44 (drop 1 raw)) ≡ 44
  length-key [] h = absurd (omega (arith, h))
  length-key (c ∷ s) h = length-take 44 s (omega (arith, h))

  -- Three tests before a value.
  Returns-tests :
      (a b c : Bool) (x y z : Error) (p : Provisioning)
      → (a ≡ true → b ≡ true → c ≡ true → IsCredential p)
      → Returns (if not a then err x else if not b then err y else if not c then err z else ok p)
  unfolding Returns
  Returns-tests true true true x y z p k q h =
      subst IsCredential (ok-injective _ _ h) (k refl refl refl)
  Returns-tests true true false x y z p k q h = cc
  Returns-tests true false c x y z p k q h = cc
  Returns-tests false b c x y z p k q h = cc

  Returns-provisioning_of : (o : Option (Wire × Bool)) → Returns (provisioning_of go o)
  Returns-provisioning_of none = Returns-err _
  Returns-provisioning_of (some (wire, false)) = Returns-err _
  Returns-provisioning_of (some (wire, true)) =
      let raw = wire.private_key in
      let encoded = take 44 (drop 1 raw) in
      Returns-tests (ltb_ℤ (pos 0) wire.id) (is_quoted go raw)
        (has_32_bytes go (go.decode_base64 encoded))
        (wrap "invalid account id" (sentinel invalid_response))
        (wrap "invalid NordLynx private key" (sentinel invalid_response))
        (wrap "invalid NordLynx private key" (sentinel invalid_response))
        (record { account_id = wire.id; key = encoded })
        λ a b c. (
          a,
          length-key raw (
              ==-true (length raw) 46
                (first (length raw == 46) (take 1 raw == b'"' ∷ []) (drop 45 raw == b'"' ∷ []) b)),
          c,
        )
    where
      first : (x y z : Bool) → (x && y && z) ≡ true → x ≡ true
      first x y z h = ground (arith, h)

  Returns-of_body : (o : Outcome Text) → Returns (of_body go o)
  unfolding decode_provisioning
  Returns-of_body (err e) = Returns-err _
  Returns-of_body panic = Returns-panic
  Returns-of_body (ok bytes) = search (returning, Returns-provisioning_of)

  Returns-of_response : (o : Outcome Response) → Returns (of_response go o)
  unfolding of_response
  Returns-of_response (err e) = Returns-err _
  Returns-of_response panic = Returns-panic
  Returns-of_response (ok r) = search (returning, Returns-of_body) depth 12

  -- When `Provision` returns credentials, the token was one of 1 to 4096 lower case hexadecimal
  -- digits, the account is positive, and the key is 44 bytes that decode to 32.
  pub provision-IsCredential :
      (http : Http) (configured : Option HttpClient) (base token : Text) (s : Sent)
      (p : Provisioning)
      → (provision go http configured base token s).0 ≡ ok p
      → IsToken token × IsCredential p
  unfolding provision Returns
  provision-IsCredential http configured base token s p h = by_check (validate_token token) refl h
    where
      by_request :
          (b : Bool) (url : Text) → Returns (constructed go http configured token url b s).0
      by_request true url =
          Returns-of_response (http (http_client configured) (credential_request url token) s).0
      by_request false url = Returns-err _

      by_endpoint : (e : Outcome Text) → Returns (requested go http configured token e s).0
      by_endpoint (ok url) = by_request (go.new_request url) url
      by_endpoint (err e) = Returns-err e
      by_endpoint panic = Returns-panic

      by_check :
          (k : Check)
          → validate_token token ≡ k
          → (validated go http configured base token k s).0 ≡ ok p
          → IsToken token × IsCredential p
      by_check (ok tt) e q =
          ((validate_token-IsToken token).0 e, by_endpoint (endpoint go base) p q)
      by_check (err x) e q = cc
      by_check panic e q = cc
