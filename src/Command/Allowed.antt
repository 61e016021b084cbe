-- ===== src/Command/Allowed.antt =====
-- Which calls the commands of internal/command/run.go make, and what their exit codes say.
use nordmac.Base.{
  ℕ, Bool, true, false, not, Option, none, some, List, [], ◌∷◌, Text, text_eq, Error, if◌then◌else◌,
  ◌≡◌, ◌≢◌, All, ◌⊎◌, inl, inr, refl, arith,
}
use nordmac.Base.Triples.{Triple, Triple-gets, Triple-bind, Triple-weaken}
use nordmac.Strings.{ascii}
use nordmac.Command.Arguments.{
  json_flag, fresh_flag, refresh_flag, stdin_flag, local_flag, has_json, parsed, parse_flag,
}
use nordmac.Command.Written.{
  IsWritten, KnowsOnly, IsDescribed, Tells, parse_flag-KnowsOnly, parse_flag-Tells, parse_json-All,
  parse_recommend-IsDescribed,
}
use nordmac.Command.Run.{
  exit_usage, exit_network, Call, countries, recommend, connect, login, credential_status,
  logout_local, disconnect, connection_status, reconnect, read_stdin, read_hidden, build_manifest,
  World, Tx, try, on_error, fail, fail_authentication, fail_connection, write_result, printed,
  when_available, answer, warned, run_countries, run_recommend, run_plan, run_login, run_status,
  run_logout, run_connect, run_disconnect, run_reconnect,
}
use nordmac.Command.Codes.{
  Never, Untouched, Worked, Ended, Kept-Untouched, Kept-Worked, Triple-output, Triple-say,
  Triple-exit, Triple-write_result, Ended-Worked,
}
use nordmac.Command.Asked.{
  Triple-ask, Triple-inspected, Triple-usage, Triple-fail_connection, Triple-fail_authentication,
  Triple-fail_catalog, Triple-refused, Triple-result, Triple-on_error, Triple-answer,
  Triple-with_parsed, Triple-when_available,
}

-- The commands and the arguments on which a call of the backend may be made: what is written there,
-- whatever the command makes of it.
abbrev pub Allowed : Text → List Text → Call → Type 0
Allowed command args (countries refresh) =
    (command ≡ ascii "countries") × Tells (ascii "--refresh") refresh args
Allowed command args (recommend q) =
    ((command ≡ ascii "recommend") ⊎ (command ≡ ascii "plan")) × IsDescribed q args
Allowed command args (connect q) = (command ≡ ascii "connect") × IsDescribed q args
Allowed command args login = (command ≡ ascii "login") × KnowsOnly (ascii "--token-stdin") args
Allowed command args credential_status =
    (command ≡ ascii "status") × All (λ a. a ≡ ascii "--json") args
Allowed command args connection_status =
    (command ≡ ascii "status") × All (λ a. a ≡ ascii "--json") args
Allowed command args logout_local =
    (command ≡ ascii "logout")
    × KnowsOnly (ascii "--local-only") args
    × IsWritten (ascii "--local-only") args
Allowed command args disconnect =
    (command ≡ ascii "disconnect") × All (λ a. a ≡ ascii "--json") args
Allowed command args (reconnect fresh) =
    (command ≡ ascii "reconnect")
    × (fresh ≡ true)
    × KnowsOnly (ascii "--fresh") args
    × IsWritten (ascii "--fresh") args
Allowed command args _ = Unit

-- On a whole command line. An empty one stands for no command.
abbrev pub AllowedOn : List Text → Call → Type 0
AllowedOn [] = Allowed [] []
AllowedOn (command ∷ args) = Allowed command args

module _ (w : World) (command : Text) (args : List Text) where
  abbrev P : Call → Type 0
  P = Allowed command args

  abbrev pub Runs : Tx ℕ → Type 0
  Runs m = Triple (Untouched P) m (Ended P) Never

  needed :
      (flag : Text) (once : Bool)
      → flag ≢ json_flag
      → parse_flag flag once false args ≡ parsed true
      → KnowsOnly flag args × IsWritten flag args
  needed flag once n e = let (k, w', _) = parse_flag-Tells flag once args true n e in (k, w' refl)

  pub Runs-countries : command ≡ ascii "countries" → Runs (run_countries w args)
  unfolding run_countries
  Runs-countries c = Triple-with_parsed P w _ _ λ r e.
      Triple-answer P w _ _ (c, parse_flag-Tells refresh_flag false args r (λ x. cc) e)
        (Triple-fail_catalog P w _)

  pub Runs-recommend : command ≡ ascii "recommend" → Runs (run_recommend w args)
  unfolding run_recommend
  Runs-recommend c = Triple-with_parsed P w _ _ λ q e.
      Triple-answer P w _ _ (inl c, parse_recommend-IsDescribed args q e)
        (Triple-fail_catalog P w _)

  pub Runs-plan : command ≡ ascii "plan" → Runs (run_plan w args)
  unfolding run_plan
  Runs-plan c = Triple-with_parsed P w _ _ λ q e.
      Triple-bind (Triple-ask P w (recommend q) (inr c, parse_recommend-IsDescribed args q e)) λ r.
        Triple-on_error P w r (Triple-fail_catalog P w _) (
          Triple-bind (Triple-output P w (Worked P) (Kept-Worked P) build_manifest refl)
            λ b. built b)
    where
      built :
          (b : Option Error)
          → Triple
              (Worked P)
              (on_error w b
                (λ _. fail w (has_json args) exit_network "invalid_data" "plan")
                (write_result w (has_json args) (printed w)))
              (Ended P)
              Never
      built none = Triple-result P w _
      built (some e) =
          Triple-weaken
            (Triple-refused P w _ exit_network _ _ (λ q. absurd (omega (arith, q)))
              (λ q. absurd (omega (arith, q))))
            (λ h k. k.0) (λ _ _ k. k) (λ _ _ k. k)

  pub Runs-login : command ≡ ascii "login" → Runs (run_login w args)
  unfolding run_login
  Runs-login c =
      Triple-with_parsed P w _ _
        λ stdin e. Triple-when_available P w _ _ (Triple-bind (input stdin) λ r. taken stdin e r)
    where
      input :
          (stdin : Bool)
          → Triple
              (Untouched P)
              (try w (if stdin then read_stdin else read_hidden))
              (λ _. Untouched P)
              Never
      input true = Triple-output P w (Untouched P) (Kept-Untouched P) read_stdin refl
      input false = Triple-output P w (Untouched P) (Kept-Untouched P) read_hidden refl

      taken :
          (stdin : Bool)
          → parse_flag stdin_flag true false args ≡ parsed stdin
          → (r : Option Error)
          → Runs (
              on_error w r
                (λ _. fail w (has_json args) exit_usage "invalid_token_input" "token input")
                (answer w (has_json args) (fail_authentication w (has_json args)) login))
      taken stdin e none =
          Triple-answer P w _ login (c, parse_flag-KnowsOnly stdin_flag true false args stdin e)
            (Triple-fail_authentication P w _)
      taken stdin e (some x) = Triple-usage P w _ exit_usage _ _

  pub Runs-status : command ≡ ascii "status" → Runs (run_status w args)
  unfolding run_status
  Runs-status c = Triple-with_parsed P w _ _ λ u e. Triple-when_available P w _ _ (
      Triple-bind (Triple-ask P w credential_status (c, parse_json-All args e)) λ r.
        Triple-on_error P w r (Triple-fail_authentication P w _) (
          Triple-bind {Q = λ _. Worked P} (Triple-gets w.repair_needed (λ h k. k)) λ repair.
            Triple-bind (Triple-inspected P w w.has_connection (c, parse_json-All args e)) λ _.
              Ended-Worked P (
                Triple-write_result P w (Worked P) (Kept-Worked P) _ _
                  (Triple-say P w (Worked P) (Kept-Worked P) _ _ refl (warns repair)))))
    where
      warns :
          (b : Bool)
          → Triple
              (Worked P)
              (warned w b)
              (λ n h. Worked P h × ((n ≡ 0) ⊎ (n ≡ exit_network)))
              Never
      warns true =
          Triple-say P w (Worked P) (Kept-Worked P) _ _ refl
            (Triple-exit P w (Worked P) (Kept-Worked P) 0)
      warns false = Triple-exit P w (Worked P) (Kept-Worked P) 0

  pub Runs-logout : command ≡ ascii "logout" → Runs (run_logout w args)
  unfolding run_logout
  Runs-logout c = Triple-with_parsed P w _ _ λ local e. asked local e
    where
      asked :
          (local : Bool)
          → parse_flag local_flag true false args ≡ parsed local
          → Runs (
              if not local
              then fail w
                  (has_json args)
                  exit_usage
                  "local_only_required"
                  "remote revocation is not implemented"
              else when_available w w.has_authentication
                  (has_json args)
                  (answer w (has_json args) (fail_authentication w (has_json args)) logout_local))
      asked false e = Triple-usage P w _ exit_usage _ _
      asked true e = Triple-when_available P w _ _ (
          Triple-answer P w _ logout_local
            (let (k, i) = needed local_flag true (λ x. cc) e in (c, k, i))
            (Triple-fail_authentication P w _))

  pub Runs-connect : command ≡ ascii "connect" → Runs (run_connect w args)
  unfolding run_connect
  Runs-connect c = Triple-with_parsed P w _ _ λ q e. Triple-when_available P w _ _ (
      Triple-answer P w _ (connect q) (c, parse_recommend-IsDescribed args q e)
        (Triple-fail_connection P w _))

  pub Runs-disconnect : command ≡ ascii "disconnect" → Runs (run_disconnect w args)
  unfolding run_disconnect
  Runs-disconnect c = Triple-with_parsed P w _ _ λ u e.
      Triple-when_available P w _ _
        (Triple-answer P w _ disconnect (c, parse_json-All args e) (Triple-fail_connection P w _))

  pub Runs-reconnect : command ≡ ascii "reconnect" → Runs (run_reconnect w args)
  unfolding run_reconnect
  Runs-reconnect c = Triple-with_parsed P w _ _ λ fresh e. asked fresh e
    where
      asked :
          (fresh : Bool)
          → parse_flag fresh_flag false false args ≡ parsed fresh
          → Runs (
              if not fresh
              then fail w (has_json args) exit_usage "fresh_required" "reconnect requires --fresh"
              else when_available w w.has_connection
                  (has_json args)
                  (answer w (has_json args) (fail_connection w (has_json args)) (reconnect true)))
      asked false e = Triple-usage P w _ exit_usage _ _
      asked true e = Triple-when_available P w _ _ (
          Triple-answer P w _ (reconnect true)
            (let (k, i) = needed fresh_flag false (λ x. cc) e in (c, refl, k, i))
            (Triple-fail_connection P w _))
