-- ===== src/Command/Tests.antt =====
-- Command lines, with a backend that refuses the connection.
use nordmac.Base.{
  true, false, Option, none, some, List, Text, [], ◌∷◌, Error, sentinel, busy, ◌≡◌, refl, arith,
}
use nordmac.Base.Triples.{Triple}
use nordmac.Strings.{ascii}
use nordmac.Connection.World.{Query}
use nordmac.Command.Arguments.{parsed, parse_recommend}
use nordmac.Command.Run.{Call, connect, World, run}
use nordmac.Command.Codes.{Never, Untouched, Ended}
use nordmac.Command.Allowed.{AllowedOn}
use nordmac.Command.Dispatch.{Triple-run}
use nordmac.Command.Parsed.{arguments, parse_recommend-arguments}

abbrev refuses : Call → Option Error
refuses (connect q) = some (sentinel busy)
refuses c = none

abbrev busy_world : World
busy_world = record {
  fails = λ h c. refuses c;
  has_authentication = true;
  has_connection = true;
  repair_needed = λ h. false;
}

abbrev query : Query
query = record { country = ascii "Norway"; city = ascii "Oslo"; server = ascii "--no1" }

abbrev logout_line : List Text
logout_line = ascii "logout" ∷ ascii "--json" ∷ ascii "--local-only" ∷ []

Triple-run_example :
    Triple
      (Untouched (AllowedOn logout_line))
      (run busy_world logout_line)
      (Ended (AllowedOn logout_line))
      Never
Triple-run_example = Triple-run busy_world logout_line

parse_recommend-arguments_example : parse_recommend (arguments query) ≡ parsed query
parse_recommend-arguments_example =
    parse_recommend-arguments query b'N' (ascii "orway") refl (λ e. absurd (omega (arith, e)))
