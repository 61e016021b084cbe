-- ===== src/Auth/Trusted.antt =====
-- Where `Client.Provision` of internal/nordauth/client.go sends the token, and what it returns.
use nordmac.Base.{
  ℕ, zero, suc, replicate, Bool, true, false, not, ◌&&◌, ◌||◌, Option, none, some, [], ◌++◌, All,
  subst, Text, ◌==◌, nat_eq, text_eq, ==-true, Error, message, Outcome, ok, err, panic, Check,
  if◌then◌else◌, ◌≡◌, ◌≢◌, ◌⊎◌, inl, inr, refl, sym, arith,
}
use nordmac.Base.Triples.{ok-injective}
use nordmac.Strings.{ascii}
use nordmac.Auth.Token.{validate_token}
use nordmac.Auth.Accepted.{IsToken, validate_token-IsToken}
use nordmac.Auth.Provision.{
  Url, Library, HttpClient, Request, Sent, Http, refuse_redirect, http_client, credential_request,
  is_loopback_host, is_nord, endpoint_of, endpoint, constructed, requested, validated, provision,
}

if-ok :
    {A : Type 0} (b : Bool) (x y : Outcome A) (a : A)
    → x ≢ ok a
    → (if b then x else y) ≡ ok a
    → (b ≡ false) × (y ≡ ok a)
if-ok true x y a n h = absurd (n h)
if-ok false x y a n h = (refl, h)

err-ne-ok : {A : Type 0} (e : Error) (a : A) → err e ≢ ok a
err-ne-ok e a h = cc

no_second : (x y z w : Bool) → (x || y || z || w) ≡ false → y ≡ false
no_second x y z w h = ground (arith, h)

-- What two refused tests leave.
first_or_both :
    (x y q : Bool) → (not x && not (y && q)) ≡ false → (x ≡ true) ⊎ ((y ≡ true) × (q ≡ true))
first_or_both true y q h = inl refl
first_or_both false true true h = inr (refl, refl)
first_or_both false true false h = cc
first_or_both false false q h = cc

one_of : (x y : Bool) → (x || y) ≡ true → (x ≡ true) ⊎ (y ≡ true)
one_of true y h = inl refl
one_of false y h = inr h

not-false : (b : Bool) → not b ≡ false → b ≡ true
not-false b h = ground (arith, h)

-- What net/http says of `Do` with a CheckRedirect: when that refuses every redirection, no other
-- request follows the given one, which the transport may send again.
abbrev pub SendsOnly : Http → Type 0
SendsOnly http =
    (c : HttpClient) (q : Request) (f : Text → Option Error)
    → c.check_redirect ≡ some f
    → ((url : Text) → f url ≢ none)
    → (s : Sent) → (n : ℕ) × ((http c q s).1 ≡ replicate n q ++ s)

module _ (go : Library) where
  -- The names of this machine.
  abbrev pub IsLocal : Text → Type 0
  IsLocal host =
      (host ≡ ascii "127.0.0.1")
      ⊎ (host ≡ ascii "::1")
      ⊎ (go.equal_fold host (ascii "localhost") ≡ true)

  is_loopback_host-IsLocal : (host : Text) → is_loopback_host go host ≡ true → IsLocal host
  is_loopback_host-IsLocal host h =
      any (host == ascii "127.0.0.1") (host == ascii "::1") _ (==-true _ _) (==-true _ _) h
    where
      any :
          {P Q : Type 0} (x y z : Bool)
          → (x ≡ true → P)
          → (y ≡ true → Q)
          → (x || y || z) ≡ true
          → P ⊎ Q ⊎ (z ≡ true)
      any true y z p q e = inl (p refl)
      any false true z p q e = inr (inl (q refl))
      any false false true p q e = inr (inr refl)
      any false false false p q e = cc

  -- A URL without credentials that is either of the Nord API over HTTPS, or of this machine.
  pub record IsTrusted (u : Url) : Type 0 where
    pub no_user : u.has_user ≡ false
    pub secure : (u.scheme ≡ ascii "https") ⊎ ((u.scheme ≡ ascii "http") × IsLocal u.hostname)
    pub known :
        IsLocal u.hostname
        ⊎ ((go.equal_fold u.hostname (ascii "api.nordvpn.com") ≡ true)
            × ((u.port ≡ []) ⊎ (u.port ≡ ascii "443")))

  endpoint_of-IsTrusted :
      (o : Option Url) (t : Text)
      → endpoint_of go o ≡ ok t
      → (u : Url) × (o ≡ some u) × (t ≡ go.endpoint_text u) × IsTrusted u
  endpoint_of-IsTrusted none t h = cc
  endpoint_of-IsTrusted (some u) t h =
      let loopback = is_loopback_host go u.hostname in
      let malformed =
        u.host == [] || u.has_user || not (u.raw_query == []) || not (u.fragment == []) in
      let insecure =
        not (u.scheme == ascii "https") && not (u.scheme == ascii "http" && loopback) in
      let foreign = not loopback && not (is_nord go u) in
      let allowed =
        if foreign
        then err (message "Nord API base URL host is not allowed")
        else ok (go.endpoint_text u) in
      let checked =
        if insecure then err (message "Nord API base URL must use HTTPS") else allowed in
      let (a, h1) =
        if-ok malformed _ checked t (err-ne-ok (message "invalid Nord API base URL") t) h in
      let (b, h2) =
        if-ok insecure _ allowed t (err-ne-ok (message "Nord API base URL must use HTTPS") t) h1 in
      let (c, h3) =
        if-ok foreign _ (ok (go.endpoint_text u)) t
          (err-ne-ok (message "Nord API base URL host is not allowed") t) h2 in
      (
        u,
        refl,
        sym (ok-injective _ _ h3),
        record {
          no_user = no_second (u.host == []) u.has_user _ _ a;
          secure =
              schemes (is_loopback_host-IsLocal u.hostname)
                (first_or_both (u.scheme == ascii "https") (u.scheme == ascii "http") loopback b);
          known = hosts (is_loopback_host-IsLocal u.hostname) (
              first_or_both loopback (go.equal_fold u.hostname (ascii "api.nordvpn.com"))
                (u.port == [] || u.port == ascii "443") c);
        },
      )
    where
      schemes :
          {q : Bool} {P : Type 0}
          → (q ≡ true → P)
          → ((u.scheme == ascii "https") ≡ true)
            ⊎ (((u.scheme == ascii "http") ≡ true) × (q ≡ true))
          → (u.scheme ≡ ascii "https") ⊎ ((u.scheme ≡ ascii "http") × P)
      schemes p (inl e) = inl (==-true _ _ e)
      schemes p (inr (e, l)) = inr (==-true _ _ e, p l)

      hosts :
          {l f : Bool} {P : Type 0}
          → (l ≡ true → P)
          → (l ≡ true) ⊎ ((f ≡ true) × ((u.port == [] || u.port == ascii "443") ≡ true))
          → P ⊎ ((f ≡ true) × ((u.port ≡ []) ⊎ (u.port ≡ ascii "443")))
      hosts p (inl e) = inl (p e)
      hosts p (inr (e, q)) = inr (e, ports (one_of _ _ q))
        where
          ports :
              ((u.port == []) ≡ true) ⊎ ((u.port == ascii "443") ≡ true)
              → (u.port ≡ []) ⊎ (u.port ≡ ascii "443")
          ports (inl a) = inl (==-true _ _ a)
          ports (inr a) = inr (==-true _ _ a)

  -- The request carries the token, and goes to a trusted URL.
  abbrev pub IsSafe : Text → Request → Type 0
  IsSafe token q =
      (u : Url) × IsTrusted u
      × (q.url ≡ go.endpoint_text u)
      × IsToken token
      × (q.authorization ≡ ascii "Bearer " ++ token)

  module _ (http : Http) (only : SendsOnly http) (configured : Option HttpClient) where
    repeated_safe :
        (token : Text) (q : Request) (s : Sent) (n : ℕ)
        → IsSafe token q
        → All (IsSafe token) s
        → All (IsSafe token) (replicate n q ++ s)
    repeated_safe token q s zero safe h = h
    repeated_safe token q s (suc n) safe h = (safe, repeated_safe token q s n safe h)

    sent_safe :
        (token : Text) (q : Request) (s : Sent)
        → IsSafe token q
        → All (IsSafe token) s
        → All (IsSafe token) (http (http_client configured) q s).1
    unfolding http_client
    sent_safe token q s safe h =
        let (n, e) = only (http_client configured) q refuse_redirect refl (λ url e. cc) s in
        subst (All (IsSafe token)) (sym e) (repeated_safe token q s n safe h)

    -- Every request that `Provision` sends carries the given token, which is one of 1 to 4096 lower case
    -- hexadecimal digits, and goes to a trusted URL, of api.nordvpn.com over HTTPS or of this machine,
    -- also when the service redirects it: on an `http.Client.Do` that sends no other request after the
    -- given one when the client refuses every redirection.
    pub provision-IsTrusted :
        (base token : Text) (s : Sent)
        → All (IsSafe token) s
        → All (IsSafe token) (provision go http configured base token s).1
    unfolding provision endpoint
    provision-IsTrusted base token s h = by_check (validate_token token) refl
      where
        by_request :
            (b : Bool) (url : Text)
            → IsSafe token (credential_request url token)
            → All (IsSafe token) (constructed go http configured token url b s).1
        by_request true url safe = sent_safe token (credential_request url token) s safe h
        by_request false url safe = h

        by_endpoint :
            (o : Option Url) (e : Outcome Text)
            → endpoint_of go o ≡ e
            → IsToken token
            → All (IsSafe token) (requested go http configured token e s).1
        by_endpoint o (err e) at valid = h
        by_endpoint o panic at valid = h
        by_endpoint o (ok url) at valid =
            let (u, _, named, trusted) = endpoint_of-IsTrusted o url at in
            by_request (go.new_request url) url (u, trusted, named, valid, refl)

        by_check :
            (k : Check)
            → validate_token token ≡ k
            → All (IsSafe token) (validated go http configured base token k s).1
        by_check (ok tt) e = by_endpoint _ _ refl ((validate_token-IsToken token).0 e)
        by_check (err x) e = h
        by_check panic e = h
