-- ===== src/Auth/Provision.antt =====
-- `Client.Provision` of internal/nordauth/client.go: the exchange of a token for credentials.
use nordmac.Base.{
  ℕ, Bool, true, false, not, ◌&&◌, ◌||◌, Option, none, some, List, [], ◌∷◌, ◌++◌, Text, String, ℤ,
  pos, Error, ltb_ℤ, ltb, ◌==◌, nat_eq, text_eq, int_eq, length, take, drop, message, wrap,
  sentinel, unauthorized, forbidden, rate_limited, invalid_response, Outcome, ok, err, panic,
  if◌then◌else◌,
}
use nordmac.Base.Actions.{Action}
use nordmac.Strings.{ascii, split, trim_space}
use nordmac.Auth.Token.{validate_token}

-- What the client uses of a parsed URL.
pub record Url : Type 0 where
  pub scheme : Text
  pub host : Text
  pub has_user : Bool
  pub raw_query : Text
  pub fragment : Text
  pub hostname : Text
  pub port : Text

pub record Response : Type 0 where
  pub status : ℕ
  pub content_type : Text
  pub body : Outcome Text

-- The response's JSON object, with the raw text of the key.
pub record Wire : Type 0 where
  pub id : ℤ
  pub private_key : Text

pub record Provisioning : Type 0 where
  pub account_id : ℤ
  pub key : Text

-- `url.Parse`, the URL with the path of the endpoint as text, `strings.EqualFold`,
-- `strings.ToLower`, the base64 decoder, whether `http.NewRequestWithContext` takes a URL, and the JSON
-- decoder, with whether the input ends there.
pub record Library : Type 0 where
  pub parse_url : Text → Option Url
  pub endpoint_text : Url → Text
  pub equal_fold : Text → Text → Bool
  pub to_lower : Text → Text
  pub decode_base64 : Text → Option Text
  pub new_request : Text → Bool
  pub unmarshal : Text → Option (Wire × Bool)

-- What the client uses of `http.Client`: its timeout in nanoseconds, and whether a redirection to a URL
-- is refused.
pub record HttpClient : Type 0 where
  pub timeout : ℤ
  pub check_redirect : Option (Text → Option Error)

-- A request with its Authorization header, and the requests that were sent, the last one first.
pub record Request : Type 0 where
  pub url : Text
  pub authorization : Text

abbrev pub Sent : Type 0
Sent = List Request

-- `http.Client.Do`
abbrev pub Http : Type 0
Http = HttpClient → Request → Action Sent Response

abbrev request_timeout : ℤ
request_timeout = pos 10_000_000_000

abbrev pub refuse_redirect : Text → Option Error
refuse_redirect url = some (message "redirect refused for credential request")

abbrev pub configured_client : Option HttpClient → HttpClient
configured_client none = record { timeout = pos 0; check_redirect = none }
configured_client (some c) = c

-- `Client.httpClient`
unfoldable pub http_client : Option HttpClient → HttpClient
http_client configured =
    let timeout = (configured_client configured).timeout in
    record {
      timeout =
          if timeout == pos 0 || ltb_ℤ request_timeout timeout then request_timeout else timeout;
      check_redirect = some refuse_redirect;
    }

abbrev pub credential_request : Text → Text → Request
credential_request url token = record { url = url; authorization = ascii "Bearer " ++ token }

abbrev bad_data : {A : Type 0} → String → Outcome A
bad_data m = err (wrap m (sentinel invalid_response))

module _ (go : Library) where
  -- `isLoopbackHost`
  abbrev pub is_loopback_host : Text → Bool
  is_loopback_host host =
      host == ascii "127.0.0.1" || host == ascii "::1" || go.equal_fold host (ascii "localhost")

  abbrev pub is_nord : Url → Bool
  is_nord u =
      go.equal_fold u.hostname (ascii "api.nordvpn.com") && (u.port == [] || u.port == ascii "443")

  abbrev pub endpoint_of : Option Url → Outcome Text
  endpoint_of none = err (message "invalid Nord API base URL")
  endpoint_of (some u) =
      let loopback = is_loopback_host u.hostname in
      if u.host == [] || u.has_user || not (u.raw_query == []) || not (u.fragment == [])
      then err (message "invalid Nord API base URL")
      else if not (u.scheme == ascii "https") && not (u.scheme == ascii "http" && loopback)
      then err (message "Nord API base URL must use HTTPS")
      else if not loopback && not (is_nord u)
      then err (message "Nord API base URL host is not allowed")
      else ok (go.endpoint_text u)

  -- `Client.endpoint`
  unfoldable pub endpoint : Text → Outcome Text
  endpoint base =
      endpoint_of (go.parse_url (if base == [] then ascii "https://api.nordvpn.com" else base))

  abbrev pub is_quoted : Text → Bool
  is_quoted raw = length raw == 46 && take 1 raw == b'"' ∷ [] && drop 45 raw == b'"' ∷ []

  abbrev pub has_32_bytes : Option Text → Bool
  has_32_bytes none = false
  has_32_bytes (some bytes) = length bytes == 32

  abbrev pub provisioning_of : Option (Wire × Bool) → Outcome Provisioning
  provisioning_of none = bad_data "malformed schema"
  provisioning_of (some (wire, false)) = bad_data "trailing response data"
  provisioning_of (some (wire, true)) =
      let encoded = take 44 (drop 1 wire.private_key) in
      if not (ltb_ℤ (pos 0) wire.id)
      then bad_data "invalid account id"
      else if not (is_quoted wire.private_key)
      then bad_data "invalid NordLynx private key"
      else if not (has_32_bytes (go.decode_base64 encoded))
      then bad_data "invalid NordLynx private key"
      else ok (record { account_id = wire.id; key = encoded })

  -- `decodeProvisioning`
  unfoldable pub decode_provisioning : Text → Outcome Provisioning
  decode_provisioning body = provisioning_of (go.unmarshal body)

  abbrev pub of_body : Outcome Text → Outcome Provisioning
  of_body (err e) = err (message "read Nord credential response")
  of_body panic = panic
  of_body (ok bytes) =
      let body = take 65537 bytes in
      if ltb 65536 (length body)
      then bad_data "response exceeds 65536 bytes"
      else decode_provisioning body

  abbrev pub first_part : List Text → Text
  first_part [] = []
  first_part (p ∷ ps) = p

  abbrev pub media_type : Text → Text
  media_type content = go.to_lower (trim_space (first_part (split b';' content)))

  -- What `Provision` makes of the response.
  unfoldable pub of_response : Outcome Response → Outcome Provisioning
  of_response (err e) = err (wrap "request Nord credentials" e)
  of_response panic = panic
  of_response (ok r) =
      if r.status == 401
      then err (sentinel unauthorized)
      else if r.status == 403
      then err (sentinel forbidden)
      else if r.status == 429
      then err (sentinel rate_limited)
      else if not (r.status == 200)
      then err (message "Nord credential service returned HTTP status")
      else if not (media_type r.content_type == ascii "application/json")
      then bad_data "unexpected content type"
      else of_body r.body

  module _ (http : Http) (configured : Option HttpClient) where
    abbrev pub constructed : Text → Text → Bool → Action Sent Provisioning
    constructed token url false s = (err (message "construct Nord credential request"), s)
    constructed token url true s =
        let (o, t) = http (http_client configured) (credential_request url token) s in
        (of_response o, t)

    abbrev pub requested : Text → Outcome Text → Action Sent Provisioning
    requested token (ok url) s = constructed token url (go.new_request url) s
    requested token (err e) s = (err e, s)
    requested token panic s = (panic, s)

    abbrev pub validated : Text → Text → Outcome (Unit {0}) → Action Sent Provisioning
    validated base token (ok _) s = requested token (endpoint base) s
    validated base token (err e) s = (err e, s)
    validated base token panic s = (panic, s)

    -- `Client.Provision`
    unfoldable pub provision : Text → Text → Action Sent Provisioning
    provision base token = validated base token (validate_token token)
