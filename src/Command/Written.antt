-- ===== src/Command/Written.antt =====
-- What is written on a command line of internal/command/run.go, apart from the loops that read it.
use nordmac.Base.{
  Bool, true, false, not, ◌&&◌, ◌||◌, List, [], ◌∷◌, ◌++◌, Text, String, ◌==◌, ==-refl, text_eq,
  ==-true, Bool-cases, if◌then◌else◌, All, ◌≡◌, ◌≢◌, ◌⊎◌, inl, inr, refl, sym, ap, ◌∙◌, subst,
  length, take, drop, take-append-drop, arith,
}
use nordmac.Strings.{ascii, has_prefix, trim_prefix}
use nordmac.Connection.World.{Query}
use nordmac.Command.Arguments.{
  json_flag, city_flag, server_flag, city_equals, server_equals, is_help, Parsed, help, bad, parsed,
  is_flag, with_country, with_city, with_server, finish, Waiting, nothing, city, server, awaited,
  parse_from, no_query, parse_recommend, parse_flag, parse_json,
}

-- The text is one of the arguments.
abbrev pub IsWritten : Text → List Text → Type 0
IsWritten t [] = ⊥
IsWritten t (a ∷ args) = (a ≡ t) ⊎ IsWritten t args

-- The two texts are arguments, the second right after the first.
abbrev pub Follows : Text → Text → List Text → Type 0
Follows flag t [] = ⊥
Follows flag t (a ∷ []) = ⊥
Follows flag t (a ∷ b ∷ args) = ((a ≡ flag) × (b ≡ t)) ⊎ Follows flag t (b ∷ args)

-- There is no argument but `--json` and the flag.
abbrev pub KnowsOnly : Text → List Text → Type 0
KnowsOnly flag args = All (λ a. (a ≡ ascii "--json") ⊎ (a ≡ flag)) args

-- The value of a flag, if there is one, stands after the flag or after the "=" of the flag.
abbrev pub IsGiven : Text → Text → List Text → Type 0
IsGiven flag value args =
    (value ≡ []) ⊎ (IsWritten (flag ++ ascii "=" ++ value) args ⊎ Follows flag value args)

-- The country of the query is an argument and no flag, and its city and its server are given by theirs.
abbrev pub IsDescribed : Query → List Text → Type 0
IsDescribed q args =
    (q.country ≢ [])
    × IsWritten q.country args
    × (has_prefix q.country (ascii "-") ≡ false)
    × IsGiven (ascii "--city") q.city args
    × IsGiven (ascii "--server") q.server args

-- A test before a result.
abbrev if-parsed :
    {A C : Type 0} (b : Bool) {m k : Parsed A} {x : A}
    → (b ≡ true → m ≡ parsed x → C)
    → (b ≡ false → k ≡ parsed x → C)
    → (if b then m else k) ≡ parsed x
    → C
if-parsed true t f h = t refl h
if-parsed false t f h = f refl h

bad-parsed : {A C : Type 0} {m : String} {x : A} → bad m ≡ parsed x → C
bad-parsed h = cc

help-parsed : {A C : Type 0} {x : A} → help ≡ parsed x → C
help-parsed h = cc

abbrev WasFound : Text → Bool → List Text → Type 0
WasFound flag found args = (found ≡ true) ⊎ IsWritten flag args

pub parse_flag-KnowsOnly :
    (flag : Text) (once found : Bool) (args : List Text) (b : Bool)
    → parse_flag flag once found args ≡ parsed b
    → KnowsOnly flag args
unfolding parse_flag
parse_flag-KnowsOnly flag once found [] b h = tt
parse_flag-KnowsOnly flag once found (a ∷ args) b h =
    if-parsed (a == json_flag)
      (λ e r. (inl (==-true a json_flag e), parse_flag-KnowsOnly flag once found args b r))
      (λ _.
        if-parsed (a == flag)
          (λ e.
            if-parsed (once && found) (λ _. bad-parsed)
              (λ _ r. (inr (==-true a flag e), parse_flag-KnowsOnly flag once true args b r)))
          (λ _. if-parsed (is_help a) (λ _. help-parsed) (λ _. bad-parsed)))
      h

-- The result says whether the flag is written, or was found before.
parse_flag-found :
    (flag : Text) (once found : Bool) (args : List Text)
    → parse_flag flag once found args ≡ parsed true
    → (found ≡ true) ⊎ IsWritten flag args
unfolding parse_flag
parse_flag-found flag once found [] h = inl (cc)
parse_flag-found flag once found (a ∷ args) h =
    if-parsed (a == json_flag) (λ e r. later (parse_flag-found flag once found args r))
      (λ _.
        if-parsed (a == flag)
          (λ e. if-parsed (once && found) (λ _. bad-parsed) (λ _ r. inr (inl (==-true a flag e))))
          (λ _. if-parsed (is_help a) (λ _. help-parsed) (λ _. bad-parsed)))
      h
  where
    later : (found ≡ true) ⊎ IsWritten flag args → (found ≡ true) ⊎ IsWritten flag (a ∷ args)
    later (inl e) = inl e
    later (inr i) = inr (inr i)

-- A flag that is found stays found.
parse_flag-kept :
    (flag : Text) (once : Bool) (args : List Text) (b : Bool)
    → parse_flag flag once true args ≡ parsed b
    → b ≡ true
unfolding parse_flag
parse_flag-kept flag once [] b h = cc
parse_flag-kept flag once (a ∷ args) b h =
    if-parsed (a == json_flag) (λ e r. parse_flag-kept flag once args b r)
      (λ _.
        if-parsed (a == flag)
          (λ e.
            if-parsed (once && true) (λ _. bad-parsed) (λ _ r. parse_flag-kept flag once args b r))
          (λ _. if-parsed (is_help a) (λ _. help-parsed) (λ _. bad-parsed)))
      h

-- A flag that is written, and is not `--json`, is found.
parse_flag_complete :
    (flag : Text) (once found : Bool) (args : List Text) (b : Bool)
    → flag ≢ json_flag
    → parse_flag flag once found args ≡ parsed b
    → IsWritten flag args
    → b ≡ true
unfolding parse_flag
parse_flag_complete flag once found [] b n h i = elim i [ ]
parse_flag_complete flag once found (a ∷ args) b n h i =
    if-parsed (a == json_flag)
      (λ e r. parse_flag_complete flag once found args b n r (rest (==-true a json_flag e) i))
      (λ _.
        if-parsed (a == flag)
          (λ e.
            if-parsed (once && found) (λ _. bad-parsed) (λ _ r. parse_flag-kept flag once args b r))
          (λ _. if-parsed (is_help a) (λ _. help-parsed) (λ _. bad-parsed)))
      h
  where
    rest : a ≡ json_flag → IsWritten flag (a ∷ args) → IsWritten flag args
    rest e (inl f) = absurd (n (sym f ∙ e))
    rest e (inr j) = j

-- What a command that knows one flag makes of its arguments: they are `--json` and the flag, and the
-- flag counts as found when it is written, and only then.
abbrev pub Tells : Text → Bool → List Text → Type 0
Tells flag found args =
    KnowsOnly flag args
    × (found ≡ true → IsWritten flag args)
    × (IsWritten flag args → found ≡ true)

pub parse_flag-Tells :
    (flag : Text) (once : Bool) (args : List Text) (found : Bool)
    → flag ≢ json_flag
    → parse_flag flag once false args ≡ parsed found
    → Tells flag found args
parse_flag-Tells flag once args found n h = (
  parse_flag-KnowsOnly flag once false args found h,
  (λ e. written (parse_flag-found flag once false args (h ∙ ap parsed e))),
  parse_flag_complete flag once false args found n h,
)
  where
    written : (false ≡ true) ⊎ IsWritten flag args → IsWritten flag args
    written (inl e) = cc
    written (inr i) = i

pub parse_json-All :
    (args : List Text) → parse_json args ≡ parsed tt → All (λ a. a ≡ ascii "--json") args
unfolding parse_json
parse_json-All [] h = tt
parse_json-All (a ∷ args) h =
    if-parsed (a == json_flag) (λ e r. (==-true a json_flag e, parse_json-All args r))
      (λ _. if-parsed (is_help a) (λ _. help-parsed) (λ _. bad-parsed)) h

-- The arguments from the one that the loop of `parseRecommend` waits behind.
abbrev from : Waiting → List Text → List Text
from nothing args = args
from city args = city_flag ∷ args
from server args = server_flag ∷ args

-- A part of the query was there before, or is given by the arguments.
abbrev Part : Text → Text → Text → List Text → Type 0
Part flag before value args =
    (value ≡ before) ⊎ (IsWritten (flag ++ ascii "=" ++ value) args ⊎ Follows flag value args)

abbrev Country : Text → Text → List Text → Type 0
Country before value args =
    (value ≡ before) ⊎ (IsWritten value args × (has_prefix value (ascii "-") ≡ false))

abbrev Read : Query → Query → List Text → Type 0
Read q r args =
    (r.country ≢ [])
    × Country q.country r.country args
    × Part city_flag q.city r.city args
    × Part server_flag q.server r.server args

Part-later :
    (flag before value a : Text) (args : List Text)
    → Part flag before value args
    → Part flag before value (a ∷ args)
Part-later flag before value a args (inl e) = inl e
Part-later flag before value a args (inr (inl i)) = inr (inl (inr i))
Part-later flag before value a [] (inr (inr f)) = elim f [ ]
Part-later flag before value a (b ∷ args) (inr (inr f)) = inr (inr (inr f))

Country-later :
    (before value a : Text) (args : List Text)
    → Country before value args
    → Country before value (a ∷ args)
Country-later before value a args (inl e) = inl e
Country-later before value a args (inr (i, n)) = inr (inr i, n)

Read-later : (q r : Query) (a : Text) (args : List Text) → Read q r args → Read q r (a ∷ args)
Read-later q r a args (n, c, t, s) =
    (n, Country-later _ _ a args c, Part-later _ _ _ a args t, Part-later _ _ _ a args s)

-- The value of a part that was just read stands in the arguments.
Part-read :
    (flag before value given : Text) (args : List Text)
    → (IsWritten (flag ++ ascii "=" ++ given) args ⊎ Follows flag given args)
    → Part flag given value args
    → Part flag before value args
Part-read flag before value given args here (inl e) =
    inr (subst (λ v. IsWritten (flag ++ ascii "=" ++ v) args ⊎ Follows flag v args) (sym e) here)
Part-read flag before value given args here (inr r) = inr r

Country-read :
    (before value given : Text) (args : List Text)
    → IsWritten given args
    → is_flag given ≡ false
    → Country given value args
    → Country before value args
Country-read before value given args here n (inl e) =
    inr (subst (λ v. IsWritten v args) (sym e) here, subst (λ v. is_flag v ≡ false) (sym e) n)
Country-read before value given args here n (inr r) = inr r

trim_prefix-append : (s p : Text) → has_prefix s p ≡ true → p ++ trim_prefix s p ≡ s
trim_prefix-append s p h = rw h (
    ap (λ (x : Text). x ++ drop (length p) s) (sym (==-true (take (length p) s) p h))
    ∙ take-append-drop (length p) s)

from-awaited :
    (a : Text) (args : List Text)
    → (a == city_flag || a == server_flag) ≡ true
    → from (awaited a) args ≡ a ∷ args
from-awaited a args h = elim (Bool-cases (a == city_flag)) [
  | inl e ↦ rw e (ap (λ (x : Text). x ∷ args) (sym (==-true a city_flag e)))
  | inr e ↦ rw e (ap (λ (x : Text). x ∷ args) (sym (==-true a server_flag (other e))))
]
  where
    other : (a == city_flag) ≡ false → (a == server_flag) ≡ true
    other e = ground (arith, h, e)

Read-finish : (q r : Query) → finish q ≡ parsed r → Read q r []
Read-finish q r h =
    if-parsed (q.country == []) (λ _. bad-parsed)
      (λ e p. subst (λ x. Read q x []) (cc) (named e, inl refl, inl refl, inl refl)) h
  where
    named : (q.country == []) ≡ false → q.country ≢ []
    named e n =
        let t : (q.country == []) ≡ true = ap (λ (x : Text). x == []) n ∙ ==-refl {A = Text} [] in
        cc

Read-city :
    (q r : Query) (value : Text) (args : List Text)
    → IsWritten (city_equals ++ value) args ⊎ Follows city_flag value args
    → Read (with_city q value) r args
    → Read q r args
Read-city q r value args here (n, c, t, s) = (n, c, Part-read _ _ _ value args here t, s)

Read-server :
    (q r : Query) (value : Text) (args : List Text)
    → IsWritten (server_equals ++ value) args ⊎ Follows server_flag value args
    → Read (with_server q value) r args
    → Read q r args
Read-server q r value args here (n, c, t, s) = (n, c, t, Part-read _ _ _ value args here s)

Read-country :
    (q r : Query) (value : Text) (args : List Text)
    → IsWritten value args
    → is_flag value ≡ false
    → Read (with_country q value) r args
    → Read q r args
Read-country q r value args here m (n, c, t, s) = (n, Country-read _ _ value args here m c, t, s)

parse_from-Read :
    (w : Waiting) (q r : Query) (args : List Text)
    → parse_from w q args ≡ parsed r
    → Read q r (from w args)
unfolding parse_from
parse_from-Read nothing q r [] h = Read-finish q r h
parse_from-Read city q r [] h = cc
parse_from-Read server q r [] h = cc
parse_from-Read city q r (v ∷ args) h =
    if-parsed (is_flag v) (λ _. bad-parsed)
      (λ _.
        if-parsed (not (q.city == [])) (λ _. bad-parsed)
          (λ _ p. Read-city q r v (city_flag ∷ v ∷ args) (inr (inl (refl, refl))) (
            Read-later _ r city_flag (v ∷ args)
              (Read-later _ r v args (parse_from-Read nothing _ r args p)))))
      h
parse_from-Read server q r (v ∷ args) h =
    if-parsed (is_flag v) (λ _. bad-parsed)
      (λ _.
        if-parsed (not (q.server == [])) (λ _. bad-parsed)
          (λ _ p. Read-server q r v (server_flag ∷ v ∷ args) (inr (inl (refl, refl))) (
            Read-later _ r server_flag (v ∷ args)
              (Read-later _ r v args (parse_from-Read nothing _ r args p)))))
      h
parse_from-Read nothing q r (a ∷ args) h =
    if-parsed (a == json_flag) (λ _ p. Read-later q r a args (parse_from-Read nothing q r args p))
      (λ _.
        if-parsed (is_help a) (λ _. help-parsed)
          (λ _.
            if-parsed (a == city_flag || a == server_flag)
              (λ e p.
                subst (λ x. Read q r x) (from-awaited a args e)
                  (parse_from-Read (awaited a) q r args p))
              (λ _.
                if-parsed (has_prefix a city_equals)
                  (λ e.
                    if-parsed (not (q.city == []) || trim_prefix a city_equals == [])
                      (λ _. bad-parsed)
                      (λ _ p.
                        Read-city q r (trim_prefix a city_equals) (a ∷ args)
                          (inl (inl (sym (trim_prefix-append a city_equals e))))
                          (Read-later _ r a args (parse_from-Read nothing _ r args p))))
                  (λ _.
                    if-parsed (has_prefix a server_equals)
                      (λ e.
                        if-parsed (not (q.server == []) || trim_prefix a server_equals == [])
                          (λ _. bad-parsed)
                          (λ _ p.
                            Read-server q r (trim_prefix a server_equals) (a ∷ args)
                              (inl (inl (sym (trim_prefix-append a server_equals e))))
                              (Read-later _ r a args (parse_from-Read nothing _ r args p))))
                      (λ _.
                        if-parsed (is_flag a) (λ _. bad-parsed)
                          (λ m.
                            if-parsed (not (q.country == [])) (λ _. bad-parsed)
                              (λ _ p.
                                Read-country q r a (a ∷ args) (inl refl) m (
                                  Read-later _ r a args (parse_from-Read nothing _ r args p)))))))))
      h

pub parse_recommend-IsDescribed :
    (args : List Text) (q : Query) → parse_recommend args ≡ parsed q → IsDescribed q args
parse_recommend-IsDescribed args q h = asked (parse_from-Read nothing no_query q args h)
  where
    country :
        q.country ≢ []
        → Country [] q.country args
        → IsWritten q.country args × (has_prefix q.country (ascii "-") ≡ false)
    country n (inl e) = absurd (n e)
    country n (inr c) = c

    asked : Read no_query q args → IsDescribed q args
    asked (n, c, t, s) = let (w, m) = country n c in (n, w, m, t, s)
