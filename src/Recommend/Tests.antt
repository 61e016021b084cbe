-- ===== src/Recommend/Tests.antt =====
-- The choice of a server and of a country from short lists.
use nordmac.Base.{false, some, List, [], ◌∷◌, ◌==◌, text_eq, Text, pos, replicate, ok, ◌≡◌, ◌↔◌}
use nordmac.Recommend.Select.{
  Strings, Country, City, Server, online, select, resolve_country, resolve_city, is_country,
  is_city, normalize,
}
use nordmac.Recommend.Chosen.{Chosen, select-Chosen}
use nordmac.Recommend.Laws.{IsSole, resolve_country-IsSole, resolve_city-IsSole}

-- Strings that are in the normal form already.
abbrev plain : Strings
plain = record {
  to_lower = λ t. t;
  trim_space = λ t. t;
  keep_letters_digits = λ t. t;
  equal_fold = λ a b. a == b;
  decode_base64 = λ t. some t;
}

abbrev oslo : City
oslo = record { id = pos 7; name = b'o' ∷ []; slug = b'o' ∷ b's' ∷ [] }

abbrev norway : Country
norway = record {
  id = pos 1;
  name = b'n' ∷ b'o' ∷ b'r' ∷ [];
  code = b'n' ∷ b'o' ∷ [];
  cities = oslo ∷ [];
}

abbrev sweden : Country
sweden = record { id = pos 2; name = b's' ∷ b'w' ∷ []; code = b's' ∷ b'e' ∷ []; cities = [] }

abbrev server_of : Text → Text → Server
server_of host status = record {
  id = pos 3;
  name = [];
  hostname = host;
  station = [];
  load = pos 9;
  status = status;
  country_id = pos 1;
  country_name = [];
  country_code = norway.code;
  city_id = pos 7;
  city_name = [];
  city_slug = [];
  wireguard_pub_key = replicate 32 1;
}

abbrev servers : List Server
servers =
    server_of (b'a' ∷ []) [] ∷ server_of (b'a' ∷ []) online ∷ server_of (b'b' ∷ []) online ∷ []

select-Chosen_example :
    Chosen plain norway
      (pos 7)
      (b'b' ∷ [])
      servers
      (select plain servers norway (pos 7) (b'b' ∷ []))
select-Chosen_example = select-Chosen plain norway (pos 7) (b'b' ∷ []) servers

resolve_country-IsSole_example :
    (resolve_country plain (sweden ∷ norway ∷ []) norway.code ≡ ok norway) ↔ (
      (normalize plain norway.code == [] ≡ false)
      × IsSole (is_country plain (normalize plain norway.code)) (sweden ∷ norway ∷ []) norway)
resolve_country-IsSole_example =
    resolve_country-IsSole plain (sweden ∷ norway ∷ []) norway.code norway

resolve_city-IsSole_example : (resolve_city plain norway oslo.slug ≡ ok oslo) ↔ (
    (normalize plain oslo.slug == [] ≡ false)
    × IsSole (is_city plain (normalize plain oslo.slug)) norway.cities oslo)
resolve_city-IsSole_example = resolve_city-IsSole plain norway oslo.slug oslo
