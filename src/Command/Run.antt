-- ===== src/Command/Run.antt =====
-- `RunWithInput` of internal/command/run.go: from the arguments to the exit code. A backend and the
-- output may fail at any call; the lines of a result, and those of its warnings, are one call.
use nordmac.Base.{
  ℕ, Bool, true, false, not, ◌||◌, Option, none, some, List, [], ◌∷◌, Text, String, ◌==◌, nat_eq,
  text_eq, Sentinel, not_authenticated, already_connected, busy, helper_failed, unauthorized,
  forbidden, rate_limited, credential_lock, rollback_incomplete, credential_transaction,
  credential_read, no_match, ambiguous, Error, is_error, if◌then◌else◌,
}
use nordmac.Base.Actions.{Action, pure, gets, attempt, ◌>>=◌, ◌>>◌}
use nordmac.Base.Calls
use nordmac.Base.Calls.{perform}
use nordmac.Strings.{ascii}
use nordmac.Connection.World.{Query}
use nordmac.Command.Arguments.{
  fresh_flag, refresh_flag, stdin_flag, local_flag, json_flag, is_help, has_json, Parsed, help, bad,
  parsed, parse_recommend, parse_flag, parse_json,
}

abbrev pub exit_ok : ℕ
exit_ok = 0

abbrev pub exit_usage : ℕ
exit_usage = 2

abbrev pub exit_no_match : ℕ
exit_no_match = 4

abbrev pub exit_network : ℕ
exit_network = 5

abbrev pub exit_privilege : ℕ
exit_privilege = 6

abbrev pub exit_auth : ℕ
exit_auth = 7

abbrev pub exit_busy : ℕ
exit_busy = 8

-- The methods of the backend, the token input, the planned report, and what is written.
pub data Call : Type 0 where
  countries : Bool → Call
  recommend connect : Query → Call
  login credential_status logout_local : Call
  disconnect connection_status : Call
  reconnect : Bool → Call
  read_stdin read_hidden build_manifest : Call
  json_success : Call
  json_error : String → String → Call
  print_result : Call
  print_error : String → Call

abbrev pub History : Type 0
History = Calls.History Call

-- Whether the backend implements `Authentication` and `Connection`, and what a status says.
pub record World : Type 0 where
  pub fails : History → Call → Option Error
  pub has_authentication : Bool
  pub has_connection : Bool
  pub repair_needed : History → Bool

abbrev pub Tx : Type 0 → Type 0
Tx A = Action History A

-- `classify`
abbrev pub classify : Error → ℕ
classify e = if is_error e no_match || is_error e ambiguous then exit_no_match else exit_network

-- `errorCode`
abbrev pub error_code : Error → String
error_code e =
    if is_error e no_match
    then "no_match"
    else if is_error e ambiguous
    then "ambiguous"
    else if is_error e Sentinel.invalid_data
    then "invalid_data"
    else "network"

module _ (w : World) where
  -- The error of a call as a value.
  abbrev pub try : Call → Tx (Option Error)
  try c = attempt (perform w.fails c)

  -- Output whose error the code drops.
  abbrev pub say : Call → Tx ℕ → Tx ℕ
  say c next = do try c; next

  -- What follows a call, by its error.
  abbrev pub on_error : Option Error → (Error → Tx ℕ) → Tx ℕ → Tx ℕ
  on_error none failed next = next
  on_error (some e) failed next = failed e

  -- `fail`
  unfoldable pub fail : Bool → ℕ → String → String → Tx ℕ
  fail true exit code text = do
    e ← try (json_error code text)
    on_error e (λ _. say (print_error "write error output") (pure exit_network)) (pure exit)
  fail false exit code text = say (print_error text) (pure exit)

  -- `unavailable`
  abbrev pub unavailable : Bool → Tx ℕ
  unavailable json = fail json exit_usage "unavailable" "not implemented in Phase 1"

  -- The result of a command, in either form.
  unfoldable pub write_result : Bool → Tx ℕ → Tx ℕ
  write_result true lines = do
    e ← try json_success
    on_error e (λ _. say (print_error "write output") (pure exit_network)) (pure exit_ok)
  write_result false lines = lines

  abbrev pub printed : Tx ℕ
  printed = say print_result (pure exit_ok)

  -- `failConnection`
  unfoldable pub fail_connection : Bool → Error → Tx ℕ
  fail_connection json e =
      if is_error e not_authenticated
      then fail json exit_auth "not_authenticated" "run nordmac login before connecting"
      else if is_error e already_connected
      then fail json exit_busy "already_connected" "disconnect the current nordmac session first"
      else if is_error e busy
      then fail json exit_busy "busy" "another nordmac credential or connection operation is active"
      else if is_error e helper_failed
      then fail json exit_privilege "helper" "privileged tunnel operation failed"
      else fail json exit_network "connection" "connection operation failed"

  -- `failAuthentication`
  unfoldable pub fail_authentication : Bool → Error → Tx ℕ
  fail_authentication json e =
      if is_error e unauthorized
      then fail json exit_auth "unauthorized" "Nord access token was rejected"
      else if is_error e forbidden
      then fail json exit_auth "forbidden" "Nord account is not authorized for VPN credentials"
      else if is_error e rate_limited
      then fail json exit_network "rate_limited" "Nord credential service rate limit reached"
      else if is_error e credential_lock
      then fail json exit_busy "busy" "another credential transaction is active"
      else if is_error e rollback_incomplete
      then fail json exit_network "credential_recovery_required"
          "credential rollback was incomplete"
      else if is_error e credential_transaction
      then fail json exit_network "credential_transaction" "credential transaction failed"
      else if is_error e credential_read
      then fail json exit_network "credential_read" "could not inspect local credentials"
      else fail json exit_network "authentication" "authentication operation failed"

  abbrev pub fail_catalog : Bool → Error → Tx ℕ
  fail_catalog json e = fail json (classify e) (error_code e) "catalog"

  -- What a command does with its parsed arguments.
  unfoldable pub with_parsed : {A : Type 0} → Bool → Parsed A → (A → Tx ℕ) → Tx ℕ
  with_parsed json help next = say print_result (pure exit_ok)
  with_parsed json (bad text) next = fail json exit_usage "usage" text
  with_parsed json (parsed a) next = next a

  abbrev pub when_available : Bool → Bool → Tx ℕ → Tx ℕ
  when_available true json next = next
  when_available false json next = unavailable json

  -- A method of the backend and then its result.
  unfoldable pub answer : Bool → (Error → Tx ℕ) → Call → Tx ℕ
  answer json failed c = do e ← try c; on_error e failed (write_result json printed)

  unfoldable pub run_version : List Text → Tx ℕ
  run_version [] = printed
  run_version (arg ∷ []) =
      if arg == json_flag
      then write_result true printed
      else fail (has_json (arg ∷ [])) exit_usage "usage" "usage: nordmac version [--json]"
  run_version (arg ∷ more ∷ args) =
      fail (has_json (arg ∷ more ∷ args)) exit_usage "usage" "usage: nordmac version [--json]"

  unfoldable pub run_countries : List Text → Tx ℕ
  run_countries args =
      with_parsed (has_json args) (parse_flag refresh_flag false false args)
        λ refresh. answer (has_json args) (fail_catalog (has_json args)) (countries refresh)

  unfoldable pub run_recommend : List Text → Tx ℕ
  run_recommend args =
      with_parsed (has_json args) (parse_recommend args)
        λ q. answer (has_json args) (fail_catalog (has_json args)) (recommend q)

  unfoldable pub run_plan : List Text → Tx ℕ
  run_plan args = with_parsed (has_json args) (parse_recommend args) λ q. do
    e ← try (recommend q)
    on_error e (fail_catalog (has_json args)) do
      b ← try build_manifest
      on_error b (λ _. fail (has_json args) exit_network "invalid_data" "plan")
          (write_result (has_json args) printed)

  -- `runLogin`
  unfoldable pub run_login : List Text → Tx ℕ
  run_login args = with_parsed (has_json args) (parse_flag stdin_flag true false args) λ stdin.
      when_available w.has_authentication (has_json args) do
        e ← try (if stdin then read_stdin else read_hidden)
        on_error e (λ _. fail (has_json args) exit_usage "invalid_token_input" "token input")
            (answer (has_json args) (fail_authentication (has_json args)) login)

  abbrev pub warned : Bool → Tx ℕ
  warned true = say (print_error "local credentials are incomplete") (pure exit_ok)
  warned false = pure exit_ok

  abbrev pub inspected : Bool → Tx (Option Error)
  inspected true = try connection_status
  inspected false = pure none

  -- `runStatus`; an error of `Connection.Status` becomes the state "degraded".
  unfoldable pub run_status : List Text → Tx ℕ
  run_status args = with_parsed (has_json args) (parse_json args) λ _.
      when_available w.has_authentication (has_json args) do
        e ← try credential_status
        on_error e (fail_authentication (has_json args)) do
          repair ← gets w.repair_needed
          inspected w.has_connection
          write_result (has_json args) (say print_result (warned repair))

  unfoldable pub run_logout : List Text → Tx ℕ
  run_logout args = with_parsed (has_json args) (parse_flag local_flag true false args) λ local.
      if not local
      then fail (has_json args) exit_usage "local_only_required"
          "remote revocation is not implemented"
      else when_available w.has_authentication (has_json args)
          (answer (has_json args) (fail_authentication (has_json args)) logout_local)

  unfoldable pub run_connect : List Text → Tx ℕ
  run_connect args = with_parsed (has_json args) (parse_recommend args) λ q.
      when_available w.has_connection (has_json args)
        (answer (has_json args) (fail_connection (has_json args)) (connect q))

  unfoldable pub run_disconnect : List Text → Tx ℕ
  run_disconnect args = with_parsed (has_json args) (parse_json args) λ _.
      when_available w.has_connection (has_json args)
        (answer (has_json args) (fail_connection (has_json args)) disconnect)

  unfoldable pub run_reconnect : List Text → Tx ℕ
  run_reconnect args = with_parsed (has_json args) (parse_flag fresh_flag false false args) λ fresh.
      if not fresh
      then fail (has_json args) exit_usage "fresh_required" "reconnect requires --fresh"
      else when_available w.has_connection (has_json args)
          (answer (has_json args) (fail_connection (has_json args)) (reconnect true))

  -- `RunWithInput`
  unfoldable pub run : List Text → Tx ℕ
  run [] = say (print_error "usage") (pure exit_usage)
  run (command ∷ args) =
      if command == ascii "version" || command == ascii "--version"
      then run_version args
      else if is_help command || command == ascii "help"
      then printed
      else if command == ascii "countries"
      then run_countries args
      else if command == ascii "recommend"
      then run_recommend args
      else if command == ascii "plan"
      then run_plan args
      else if command == ascii "login"
      then run_login args
      else if command == ascii "status"
      then run_status args
      else if command == ascii "logout"
      then run_logout args
      else if command == ascii "connect"
      then run_connect args
      else if command == ascii "disconnect"
      then run_disconnect args
      else if command == ascii "reconnect"
      then run_reconnect args
      else fail (has_json args) exit_usage "usage" "unknown command"
