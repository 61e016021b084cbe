-- ===== src/Auth/Tests.antt =====
-- A token from the standard input, and the exchange with a service that answers and one that redirects.
use nordmac.Base.{
  true, false, All, Option, Error, none, ◌≢◌, sym, subst, some, [], ◌∷◌, ◌++◌, Text, pos, ok, err,
  replicate, ◌≡◌, ◌↔◌, refl, ◌==◌, text_eq, Text-discrete, ℕ_discrete, reject_if, ◌>>◌,
}
use nordmac.Base.Actions.{Action}
use nordmac.Strings.{ascii, split, trim_space, trim_from}
use nordmac.Auth.Token.{read_stdin, validate_token, check_bytes}
use nordmac.Auth.Accepted.{IsToken, IsEnding, read_stdin-IsToken}
use nordmac.Auth.Provision.{
  Url, Response, Provisioning, Library, Sent, Http, http_client, endpoint, decode_provisioning,
  of_response, provision,
}
use nordmac.Auth.Trusted.{IsSafe, SendsOnly, provision-IsTrusted}
use nordmac.Auth.Returned.{IsCredential, provision-IsCredential}

abbrev nord_url : Url
nord_url = record {
  scheme = ascii "https";
  host = ascii "api.nordvpn.com";
  has_user = false;
  raw_query = [];
  fragment = [];
  hostname = ascii "api.nordvpn.com";
  port = [];
}

abbrev key_text : Text
key_text = replicate 44 b'A'

abbrev library : Library
library = record {
  new_request = λ t. true;
  parse_url = λ t. some nord_url;
  endpoint_text = λ u. u.hostname;
  equal_fold = λ a b. a == b;
  to_lower = λ t. t;
  decode_base64 = λ t. some (replicate 32 0);
  unmarshal = λ t. some (record { id = pos 7; private_key = b'"' ∷ key_text ++ (b'"' ∷ []) }, true);
}

abbrev answer : Response
answer = record { status = 200; content_type = ascii "application/json"; body = ok (ascii "{}") }

-- A service that redirects every request: the client asks its CheckRedirect, and follows.
abbrev redirected : Option Error → Action Sent Response
redirected none s =
    (ok answer, (record { url = ascii "elsewhere"; authorization = ascii "Bearer abc" }) ∷ s)
redirected (some e) s = (err e, s)

abbrev redirection : Option (Text → Option Error) → Option Error
redirection none = none
redirection (some f) = f (ascii "elsewhere")

abbrev redirects : Http
redirects c q s = redirected (redirection c.check_redirect) (q ∷ s)

redirects-SendsOnly : SendsOnly redirects
redirects-SendsOnly c q f e refuses s = (
  1,
  subst (λ g. (redirected (redirection g) (q ∷ s)).1 ≡ q ∷ s) (sym e)
      (stopped (f (ascii "elsewhere")) (refuses (ascii "elsewhere"))),
)
  where
    stopped : (o : Option Error) → o ≢ none → (redirected o (q ∷ s)).1 ≡ q ∷ s
    stopped none n = absurd (n refl)
    stopped (some x) n = refl

-- A service that answers.
abbrev answers : Http
answers c q s = (ok answer, q ∷ s)

abbrev credential : Provisioning
credential = record { account_id = pos 7; key = key_text }

accepted : (provision library answers none [] (ascii "abc") []).0 ≡ ok credential
unfolding provision endpoint of_response decode_provisioning validate_token check_bytes reject_if
    ◌>>◌ split trim_space trim_from Text-discrete ℕ_discrete
accepted = refl

-- The request was sent, and the redirection refused.
redirection_refused :
    (provision library redirects none [] (ascii "abc") []).1
    ≡ record { url = ascii "api.nordvpn.com"; authorization = ascii "Bearer abc" } ∷ []
unfolding provision endpoint http_client validate_token check_bytes reject_if ◌>>◌ Text-discrete
    ℕ_discrete
redirection_refused = refl

provision-IsCredential_example : IsToken (ascii "abc") × IsCredential library credential
provision-IsCredential_example =
    provision-IsCredential library answers none [] (ascii "abc") [] credential accepted

provision-IsTrusted_example :
    All (IsSafe library (ascii "abc")) (provision library redirects none [] (ascii "abc") []).1
provision-IsTrusted_example =
    provision-IsTrusted library redirects redirects-SendsOnly none [] (ascii "abc") [] tt

read_stdin-IsToken_example :
    (read_stdin (some (ok (ascii "abc" ++ (13 ∷ 10 ∷ [])))) ≡ ok (ascii "abc")) ↔ (
      IsToken (ascii "abc")
      × ((e : Text) × IsEnding e × (ascii "abc" ++ (13 ∷ 10 ∷ []) ≡ ascii "abc" ++ e)))
read_stdin-IsToken_example = read_stdin-IsToken (ascii "abc" ++ (13 ∷ 10 ∷ [])) (ascii "abc")
