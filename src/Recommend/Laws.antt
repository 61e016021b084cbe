-- ===== src/Recommend/Laws.antt =====
-- What the resolvers return (internal/recommend/recommend.go).
use nordmac.Base.{
  Bool, true, false, List, [], ◌∷◌, ◌==◌, text_eq, Text, ok, ◌≡◌, ◌↔◌, refl, ap, All, Bool-cases,
  inl, inr, arith, ◌++◌,
}
use nordmac.Recommend.Select.{
  Strings, Country, matches, only, normalize, is_country, is_city, City, resolve_country,
  resolve_city,
}

-- The only element of the list that passes.
pub record IsSole {A : Type 0} (p : A → Bool) (xs : List A) (x : A) : Type 0 where
  pub earlier : List A
  pub later : List A
  pub parts : xs ≡ earlier ++ (x ∷ later)
  pub passes : p x ≡ true
  pub none_before : All (λ y. p y ≡ false) earlier
  pub none_after : All (λ y. p y ≡ false) later

module _ {A : Type 0} (p : A → Bool) where
  matches-nil : (xs : List A) → matches p xs ≡ [] → All (λ x. p x ≡ false) xs
  matches-nil [] h = tt
  matches-nil (x ∷ xs) h = elim (Bool-cases (p x)) [
    | inl hit ↦ ground (arith, h, hit)
    | inr miss ↦ (miss, matches-nil xs (ground (arith, h, miss)))
  ]

  matches-IsSole : (xs : List A) (c : A) → matches p xs ≡ c ∷ [] → IsSole p xs c
  matches-IsSole [] c h = ground (arith, h)
  matches-IsSole (x ∷ xs) c h = elim (Bool-cases (p x)) [
    | inl hit ↦ record {
      earlier = [];
      later = xs;
      parts = ground (arith, h, hit);
      passes = ground (arith, h, hit);
      none_before = tt;
      none_after = matches-nil xs (ground (arith, h, hit));
    }
    | inr miss ↦
        let rest = matches-IsSole xs c (ground (arith, h, miss)) in
        record {
          earlier = x ∷ rest.earlier;
          later = rest.later;
          parts = ap (λ ys. x ∷ ys) rest.parts;
          passes = rest.passes;
          none_before = (miss, rest.none_before);
          none_after = rest.none_after;
        }
  ]

  only-IsSole : (xs ys : List A) (c : A) → matches p xs ≡ ys → only ys ≡ ok c → IsSole p xs c
  unfolding only
  only-IsSole xs [] c e h = ground (arith, h)
  only-IsSole xs (y ∷ []) c e h = matches-IsSole xs c (ground (arith, e, h))
  only-IsSole xs (y ∷ z ∷ ys) c e h = ground (arith, h)

  nil-matches : (xs : List A) → All (λ x. p x ≡ false) xs → matches p xs ≡ []
  nil-matches [] h = refl
  nil-matches (x ∷ xs) (h, hs) = rw h (nil-matches xs hs)

  IsSole-matches :
      (earlier later : List A) (c : A)
      → p c ≡ true
      → All (λ x. p x ≡ false) earlier
      → All (λ x. p x ≡ false) later
      → matches p (earlier ++ (c ∷ later)) ≡ c ∷ []
  IsSole-matches [] later c hit before after = rw (hit, nil-matches later after)
  IsSole-matches (x ∷ earlier) later c hit (miss, before) after =
      rw miss (IsSole-matches earlier later c hit before after)

  IsSole-only : (xs : List A) (c : A) → IsSole p xs c → only (matches p xs) ≡ ok c
  unfolding only
  IsSole-only xs c s =
      let e = IsSole-matches s.earlier s.later c s.passes s.none_before s.none_after in
      rw (s.parts, e)

-- `ResolveCountry` returns a country exactly if the query has a letter or a digit and this is the only
-- country of the list whose code or name reads the same.
pub resolve_country-IsSole :
    (go : Strings) (countries : List Country) (input : Text) (c : Country)
    → (resolve_country go countries input ≡ ok c) ↔ (
        (normalize go input == [] ≡ false)
        × IsSole (is_country go (normalize go input)) countries c)
unfolding resolve_country
resolve_country-IsSole go countries input c = (
  λ h. elim (Bool-cases (normalize go input == [])) [
    | inl blank ↦ ground (arith, h, blank)
    | inr some_letter ↦
        (some_letter, only-IsSole _ countries _ c refl (ground (arith, h, some_letter)))
  ],
  λ (some_letter, sole). rw (some_letter, IsSole-only _ countries c sole),
)

-- `ResolveCity` returns a city exactly if the query has a letter or a digit and this is the only city of
-- the country whose name or slug reads the same.
pub resolve_city-IsSole :
    (go : Strings) (country : Country) (input : Text) (c : City)
    → (resolve_city go country input ≡ ok c) ↔ (
        (normalize go input == [] ≡ false)
        × IsSole (is_city go (normalize go input)) country.cities c)
unfolding resolve_city
resolve_city-IsSole go country input c = (
  λ h. elim (Bool-cases (normalize go input == [])) [
    | inl blank ↦ ground (arith, h, blank)
    | inr some_letter ↦
        (some_letter, only-IsSole _ country.cities _ c refl (ground (arith, h, some_letter)))
  ],
  λ (some_letter, sole). rw (some_letter, IsSole-only _ country.cities c sole),
)
