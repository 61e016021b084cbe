-- ===== src/Recommend/Chosen.antt =====
-- Which server `Select` of internal/recommend/recommend.go returns.
use nordmac.Base.{
  ℕ, Bool, true, false, ◌&&◌, ◌||◌, Option, none, some, List, [], ◌∷◌, ◌++◌, ◌==◌, text_eq, int_eq,
  nat_eq, contains, Text, ℤ, pos, length, Outcome, ok, err, panic, wrap, sentinel, Sentinel,
  if◌then◌else◌, ==-refl, ==-true, Bool-cases, ◌≡◌, ◌≢◌, ◌⊎◌, inl, inr, refl, sym, ap, ◌∙◌,
}
use nordmac.Strings.{ascii}
use nordmac.Recommend.Select.{
  Strings, Country, Server, host_of, normalize_server, is_key, is_eligible, select_from, select,
}

-- The servers in order, the first list from its end.
abbrev pub back_onto : List Server → List Server → List Server
back_onto [] servers = servers
back_onto (s ∷ earlier) servers = back_onto earlier (s ∷ servers)

module _ (go : Strings) where
  -- The host of a server, without regard to case and space.
  abbrev key : Text → Text
  key value = go.to_lower (go.trim_space value)

  -- One of the servers has this host.
  abbrev pub HasHost : Text → List Server → Type 0
  HasHost host [] = ⊥
  HasHost host (s ∷ servers) = (key s.hostname ≡ host) ⊎ HasHost host servers

  -- No server is asked for, or this one, by its whole host or by the first part of it.
  abbrev pub IsWanted : Text → Server → Type 0
  IsWanted exact s =
      (key exact ≡ [])
      ⊎ ((contains (key exact) b'.' ≡ true) × (key s.hostname ≡ key exact))
      ⊎ ((contains (key exact) b'.' ≡ false) × (key s.hostname ≡ key exact ++ ascii ".nordvpn.com"))

  -- The server is in the country and in the city, if one is asked for, it is wanted, it is online, and its
  -- key is the text of 32 bytes.
  pub record IsEligible (country : Country) (city_id : ℤ) (exact : Text) (s : Server) : Type 0 where
    pub in_country : s.country_id ≡ country.id
    pub same_code : go.equal_fold s.country_code country.code ≡ true
    pub in_city : (city_id ≡ pos 0) ⊎ (s.city_id ≡ city_id)
    pub is_wanted : IsWanted exact s
    pub is_online : go.equal_fold s.status (ascii "online") ≡ true
    pub decoded : Text
    pub has_key : go.decode_base64 s.wireguard_pub_key ≡ some decoded
    pub has_32_bytes : length decoded ≡ 32

  module _ (country : Country) (city_id : ℤ) (exact : Text) where
    -- Each of these servers, of which the nearest comes first, has the host of one before it or is not
    -- eligible.
    abbrev pub PassedOver : List Server → Type 0
    PassedOver [] = Unit
    PassedOver (s ∷ earlier) =
        (HasHost (key s.hostname) earlier ⊎ ¬ IsEligible country city_id exact s)
        × PassedOver earlier

    -- The answer to a choice among servers: one that is eligible and has no host of those before it,
    -- which are passed over; or the error of no match, when all are passed over.
    abbrev pub Chosen : List Server → Outcome Server → Type 0
    Chosen servers (ok s) =
        (earlier : List Server) × (later : List Server) × (back_onto earlier (s ∷ later) ≡ servers)
        × IsEligible country city_id exact s
        × (¬ HasHost (key s.hostname) earlier)
        × PassedOver earlier
    Chosen servers (err e) =
        (e ≡ wrap "no match" (sentinel Sentinel.no_match))
        × (earlier : List Server) × (back_onto earlier [] ≡ servers)
        × PassedOver earlier
    Chosen servers panic = ⊥

abbrev both : (a b : Bool) → (a && b) ≡ true → (a ≡ true) × (b ≡ true)
both true true h = (refl, refl)
both true false h = cc
both false b h = cc

abbrev all_true :
    (a b c d e f : Bool)
    → a ≡ true
    → b ≡ true
    → c ≡ true
    → d ≡ true
    → e ≡ true
    → f ≡ true
    → ((a && b) && c && d && (e && f)) ≡ true
all_true a b c d e f p q r s t u = rw (p, q, r, s, t, u) refl

either_true : {P : Type 0} (a b : Bool) → (b ≡ true → P) → (a || b) ≡ true → (a ≡ true) ⊎ P
either_true true b p h = inl refl
either_true false b p h = inr (p h)

or-true : (a b : Bool) → (a ≡ true) ⊎ (b ≡ true) → (a || b) ≡ true
or-true true b h = refl
or-true false b (inl e) = cc
or-true false b (inr e) = e

module _ (go : Strings) (exact : Text) (s : Server) where
  -- The test against the normalised host that is asked for.
  abbrev is_wanted : Bool
  is_wanted = normalize_server go exact == [] || host_of go s.hostname == normalize_server go exact

  text_same : (a b : Text) → a ≡ b → (a == b) ≡ true
  text_same a b e = ap (λ (x : Text). x == b) e ∙ ==-refl {A = Text} b

  is_wanted-IsWanted : is_wanted ≡ true → IsWanted go exact s
  unfolding normalize_server
  is_wanted-IsWanted h =
      by_host (host_of go exact == []) (contains (host_of go exact) b'.') refl refl h
    where
      by_host :
          (a b : Bool)
          → (host_of go exact == []) ≡ a
          → contains (host_of go exact) b'.' ≡ b
          → ((if a
                  then []
                  else if b
                  then host_of go exact
                  else host_of go exact ++ ascii ".nordvpn.com")
                == []
              || host_of go s.hostname == (
                  if a
                  then []
                  else if b
                  then host_of go exact
                  else host_of go exact ++ ascii ".nordvpn.com"))
            ≡ true
          → IsWanted go exact s
      by_host true b e f g = inl (==-true {A = Text} _ _ e)
      by_host false true e f g =
          elim (either_true (host_of go exact == []) _ (==-true {A = Text} _ _) g) [
            | inl empty ↦ inl (==-true {A = Text} _ _ empty)
            | inr same ↦ inr (inl (f, same))
          ]
      by_host false false e f g =
          elim (either_true ((host_of go exact ++ ascii ".nordvpn.com") == []) _
            (==-true {A = Text} _ _) g) [
              | inl empty ↦ absurd (longer (host_of go exact) (==-true {A = Text} _ _ empty))
              | inr same ↦ inr (inr (f, same))
            ]
        where
          longer : (t : Text) → (t ++ ascii ".nordvpn.com") ≢ []
          longer [] h' = cc
          longer (c ∷ t) h' = cc

  IsWanted-is_wanted : IsWanted go exact s → is_wanted ≡ true
  unfolding normalize_server
  IsWanted-is_wanted w =
      by_host (host_of go exact == []) (contains (host_of go exact) b'.') refl refl w
    where
      by_host :
          (a b : Bool)
          → (host_of go exact == []) ≡ a
          → contains (host_of go exact) b'.' ≡ b
          → IsWanted go exact s
          → ((if a
                  then []
                  else if b
                  then host_of go exact
                  else host_of go exact ++ ascii ".nordvpn.com")
                == []
              || host_of go s.hostname == (
                  if a
                  then []
                  else if b
                  then host_of go exact
                  else host_of go exact ++ ascii ".nordvpn.com"))
            ≡ true
      by_host true b e f w' = or-true _ _ (inl (==-refl {A = Text} []))
      by_host false b e f (inl empty) =
          let same : (host_of go exact == []) ≡ true = text_same _ _ empty in cc
      by_host false true e f (inr (inl (dot, same))) = or-true _ _ (inr (text_same _ _ same))
      by_host false true e f (inr (inr (dot, same))) = cc
      by_host false false e f (inr (inl (dot, same))) = cc
      by_host false false e f (inr (inr (dot, same))) = or-true _ _ (inr (text_same _ _ same))

  ℤ_same : (a b : ℤ) → a ≡ b → (a == b) ≡ true
  ℤ_same a b e = ap (λ (x : ℤ). x == b) e ∙ ==-refl {A = ℤ} b

  module _ (country : Country) (city_id : ℤ) where
    key-decoded :
        (o : Option Text) → is_key go o ≡ true → (t : Text) × (o ≡ some t) × (length t ≡ 32)
    key-decoded none h = cc
    key-decoded (some t) h = (t, refl, ==-true _ _ h)

    is_eligible-IsEligible :
        is_eligible go country city_id (normalize_server go exact) s ≡ true
        → IsEligible go country city_id exact s
    unfolding is_eligible
    is_eligible-IsEligible h =
        let (h3, online_key) = both _ _ h in
        let (h2, wanted) = both _ _ h3 in
        let (h1, city) = both _ _ h2 in
        let (id, code) = both _ _ h1 in
        let (online, key') = both _ _ online_key in
        let (t, e, n) = key-decoded _ key' in
        record {
          in_country = ==-true s.country_id country.id id;
          same_code = code;
          in_city = in_city city;
          is_wanted = is_wanted-IsWanted wanted;
          is_online = online;
          decoded = t;
          has_key = e;
          has_32_bytes = n;
        }
      where
        in_city :
            (city_id == pos 0 || s.city_id == city_id) ≡ true
            → (city_id ≡ pos 0) ⊎ (s.city_id ≡ city_id)
        in_city c = elim (either_true (city_id == pos 0) _ (==-true {A = ℤ} _ _) c) [
          | inl any ↦ inl (==-true {A = ℤ} _ _ any)
          | inr same ↦ inr same
        ]

    IsEligible-is_eligible :
        IsEligible go country city_id exact s
        → is_eligible go country city_id (normalize_server go exact) s ≡ true
    unfolding is_eligible
    IsEligible-is_eligible x =
        all_true _ _ _ _ _ _ (ℤ_same _ _ x.in_country) x.same_code (in_city x.in_city)
          (IsWanted-is_wanted x.is_wanted) x.is_online
          (ap (is_key go) x.has_key ∙ (ap (λ (n : ℕ). n == 32) x.has_32_bytes ∙ ==-refl {A = ℕ} 32))
      where
        in_city :
            (city_id ≡ pos 0) ⊎ (s.city_id ≡ city_id)
            → (city_id == pos 0 || s.city_id == city_id) ≡ true
        in_city (inl e) = or-true _ _ (inl (ℤ_same _ _ e))
        in_city (inr e) = or-true _ _ (inr (ℤ_same _ _ e))

module _ (go : Strings) (country : Country) (city_id : ℤ) (exact : Text) where
  -- The hosts that the loop has seen are those of the servers before.
  abbrev Covers : List Text → List Server → Type 0
  Covers seen before =
      (host : Text)
      → (contains seen host ≡ true → HasHost go host before)
        × (HasHost go host before → contains seen host ≡ true)

  Covers-dup :
      (seen : List Text) (before : List Server) (s : Server)
      → Covers seen before
      → contains seen (host_of go s.hostname) ≡ true
      → Covers seen (s ∷ before)
  Covers-dup seen before s c dup host = (λ h. inr ((c host).0 h), back)
    where
      back : HasHost go host (s ∷ before) → contains seen host ≡ true
      back (inl e) = ap (contains seen) (sym e) ∙ dup
      back (inr h) = (c host).1 h

  Covers-new :
      (seen : List Text) (before : List Server) (s : Server)
      → Covers seen before
      → Covers (host_of go s.hostname ∷ seen) (s ∷ before)
  unfolding contains
  Covers-new seen before s c host = (forth, back)
    where
      forth :
          (host == host_of go s.hostname || contains seen host) ≡ true
          → HasHost go host (s ∷ before)
      forth h =
          elim (either_true (host == host_of go s.hostname) (contains seen host) (c host).0 h) [
            | inl e ↦ inl (sym (==-true {A = Text} _ _ e))
            | inr i ↦ inr i
          ]

      back :
          HasHost go host (s ∷ before)
          → (host == host_of go s.hostname || contains seen host) ≡ true
      back (inl e) = or-true _ _ (inl (text_same go exact s _ _ (sym e)))
      back (inr h) = or-true _ _ (inr ((c host).1 h))

  select_from-Chosen :
      (servers before : List Server) (seen : List Text)
      → Covers seen before
      → PassedOver go country city_id exact before
      → Chosen go country city_id exact
          (back_onto before servers)
          (select_from go country city_id (normalize_server go exact) seen servers)
  unfolding select_from
  select_from-Chosen [] before seen c passed = (refl, before, refl, passed)
  select_from-Chosen (s ∷ servers) before seen c passed =
      elim (Bool-cases (contains seen (host_of go s.hostname))) [
        | inl dup ↦ rw dup (
            select_from-Chosen servers (s ∷ before) seen (Covers-dup seen before s c dup)
              (inl ((c (host_of go s.hostname)).0 dup), passed))
        | inr new ↦
            elim (Bool-cases (is_eligible go country city_id (normalize_server go exact) s)) [
              | inl fits ↦
                  rw (new, fits)
                    (
                      before,
                      servers,
                      refl,
                      is_eligible-IsEligible go exact s country city_id fits,
                      fresh new,
                      passed,
                    )
              | inr misses ↦
                  rw (new, misses)
                    (select_from-Chosen servers (s ∷ before) (host_of go s.hostname ∷ seen)
                      (Covers-new seen before s c) (inr (unfit misses), passed))
            ]
      ]
    where
      fresh :
          contains seen (host_of go s.hostname) ≡ false
          → ¬ HasHost go (host_of go s.hostname) before
      fresh new h = let e = (c (host_of go s.hostname)).1 h in cc

      unfit :
          is_eligible go country city_id (normalize_server go exact) s ≡ false
          → ¬ IsEligible go country city_id exact s
      unfit misses x = let e = IsEligible-is_eligible go exact s country city_id x in cc

  -- `Select` never panics. A server that it returns is in the country and in the city, if one is asked
  -- for, is the one that is asked for, if one is, by its whole host or the first part of it, is online,
  -- and has a key of 32 bytes; no earlier server of the answer has its host, and each earlier one
  -- repeats a host or fails one of these. It returns `ErrNoMatch` only when every server of the answer
  -- repeats a host or fails one of these.
  pub select-Chosen :
      (servers : List Server)
      → Chosen go country city_id exact servers (select go servers country city_id exact)
  unfolding select contains
  select-Chosen servers = select_from-Chosen servers [] [] (λ host. (λ h. cc, λ h. elim h [ ])) tt
