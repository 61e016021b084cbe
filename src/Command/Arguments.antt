-- ===== src/Command/Arguments.antt =====
-- How the commands of internal/command/run.go read their arguments.
use nordmac.Base.{
  Bool, true, not, ◌&&◌, ◌||◌, List, [], ◌∷◌, Text, String, ◌==◌, text_eq, contains, if◌then◌else◌,
}
use nordmac.Strings.{ascii, has_prefix, trim_prefix}
use nordmac.Connection.World.{Query}

abbrev pub json_flag : Text
json_flag = ascii "--json"

abbrev pub city_flag : Text
city_flag = ascii "--city"

abbrev pub server_flag : Text
server_flag = ascii "--server"

abbrev pub fresh_flag : Text
fresh_flag = ascii "--fresh"

abbrev pub refresh_flag : Text
refresh_flag = ascii "--refresh"

abbrev pub stdin_flag : Text
stdin_flag = ascii "--token-stdin"

abbrev pub local_flag : Text
local_flag = ascii "--local-only"

abbrev pub city_equals : Text
city_equals = ascii "--city="

abbrev pub server_equals : Text
server_equals = ascii "--server="

abbrev pub is_help : Text → Bool
is_help arg = arg == ascii "--help" || arg == ascii "-h"

-- `hasJSON`
abbrev pub has_json : List Text → Bool
has_json args = contains args json_flag

-- What a command makes of its arguments.
pub data Parsed {ℓ} (A : Type ℓ) : Type ℓ where
  help : Parsed A
  bad : String → Parsed A
  parsed : A → Parsed A

abbrev pub is_flag : Text → Bool
is_flag arg = has_prefix arg (ascii "-")

abbrev pub with_country : Query → Text → Query
with_country q value = record q { country = value }

abbrev pub with_city : Query → Text → Query
with_city q value = record q { city = value }

abbrev pub with_server : Query → Text → Query
with_server q value = record q { server = value }

abbrev pub finish : Query → Parsed Query
finish q = if q.country == [] then bad "country is required" else parsed q

-- The loop of `parseRecommend`. The first argument says that a flag waits for its value.
pub data Waiting : Type 0 where
  nothing city server : Waiting

-- A flag with a value in the next argument.
abbrev pub awaited : Text → Waiting
awaited arg = if arg == city_flag then city else server

unfoldable pub parse_from : Waiting → Query → List Text → Parsed Query
parse_from nothing q [] = finish q
parse_from city q [] = bad "--city requires a value"
parse_from server q [] = bad "--server requires a value"
parse_from city q (value ∷ args) =
    let rest = parse_from nothing (with_city q value) args in
    if is_flag value
    then bad "--city requires a value"
    else if not (q.city == [])
    then bad "--city may be specified only once"
    else rest
parse_from server q (value ∷ args) =
    let rest = parse_from nothing (with_server q value) args in
    if is_flag value
    then bad "--server requires a value"
    else if not (q.server == [])
    then bad "--server may be specified only once"
    else rest
parse_from nothing q (arg ∷ args) =
    let same = parse_from nothing q args in
    let waiting = parse_from (awaited arg) q args in
    let in_city = parse_from nothing (with_city q (trim_prefix arg city_equals)) args in
    let in_server = parse_from nothing (with_server q (trim_prefix arg server_equals)) args in
    let in_country = parse_from nothing (with_country q arg) args in
    if arg == json_flag
    then same
    else if is_help arg
    then help
    else if arg == city_flag || arg == server_flag
    then waiting
    else if has_prefix arg city_equals
    then (if not (q.city == []) || trim_prefix arg city_equals == []
        then bad "invalid or duplicate --city"
        else in_city)
    else if has_prefix arg server_equals
    then (if not (q.server == []) || trim_prefix arg server_equals == []
        then bad "invalid or duplicate --server"
        else in_server)
    else if is_flag arg
    then bad "unknown recommend flag"
    else if not (q.country == [])
    then bad "unexpected argument"
    else in_country

abbrev pub no_query : Query
no_query = record { country = []; city = []; server = [] }

-- `parseRecommend`
abbrev pub parse_recommend : List Text → Parsed Query
parse_recommend args = parse_from nothing no_query args

-- The loops of the commands that know one flag beside `--json`: whether it stands in the arguments.
unfoldable pub parse_flag : Text → Bool → Bool → List Text → Parsed Bool
parse_flag flag once found [] = parsed found
parse_flag flag once found (arg ∷ args) =
    let same = parse_flag flag once found args in
    let seen = parse_flag flag once true args in
    if arg == json_flag
    then same
    else if arg == flag
    then (if once && found then bad "may be specified only once" else seen)
    else if is_help arg
    then help
    else bad "unknown argument"

-- The loops of `runStatus` and `runDisconnect`.
unfoldable pub parse_json : List Text → Parsed (Unit {0})
parse_json [] = parsed tt
parse_json (arg ∷ args) =
    let same = parse_json args in
    if arg == json_flag then same else if is_help arg then help else bad "unknown argument"
