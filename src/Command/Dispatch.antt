-- ===== src/Command/Dispatch.antt =====
-- What a run of `RunWithInput` of internal/command/run.go asks of the backend, and its exit code.
use nordmac.Base.{
  ℕ, Bool, true, false, List, [], ◌∷◌, Text, ◌==◌, text_eq, if◌then◌else◌, ◌≡◌, refl, ite,
  Text-discrete,
}
use nordmac.Base.Triples.{Triple}
use nordmac.Command.Arguments.{json_flag, has_json}
use nordmac.Command.Run.{exit_usage, World, Tx, fail, write_result, printed, run_version, run}
use nordmac.Command.Codes.{
  Never, Untouched, Ended, Kept-Untouched, Triple-say, Triple-exit, Triple-write_result,
  Ended-Untouched,
}
use nordmac.Command.Asked.{Triple-usage, Triple-help}
use nordmac.Command.Allowed.{
  Allowed, AllowedOn, Runs, Runs-countries, Runs-recommend, Runs-plan, Runs-login, Runs-status,
  Runs-logout, Runs-connect, Runs-disconnect, Runs-reconnect,
}

Runs-version :
    (w : World) (command : Text) (args : List Text) → Runs w command args (run_version w args)
unfolding run_version
Runs-version w command [] = Triple-help (Allowed command []) w
Runs-version w command (a ∷ b ∷ args) = Triple-usage _ w _ exit_usage _ _
Runs-version w command (a ∷ []) = shown (a == json_flag)
  where
    shown :
        (b : Bool)
        → Runs w command (a ∷ []) (
            if b
            then write_result w true (printed w)
            else fail w (has_json (a ∷ [])) exit_usage "usage" "usage: nordmac version [--json]")
    shown false = Triple-usage _ w _ exit_usage _ _
    shown true = Ended-Untouched _ 0 (
        Triple-write_result _ w (Untouched (Allowed command (a ∷ []))) (Kept-Untouched _) true _ (
          Triple-say _ w (Untouched (Allowed command (a ∷ []))) (Kept-Untouched _) _ _ refl
            (Triple-exit _ w (Untouched (Allowed command (a ∷ []))) (Kept-Untouched _) 0)))

-- One test of the dispatch.
Runs-if :
    (w : World) (command : Text) (args : List Text) (name : Text) {m k : Tx ℕ}
    → (command ≡ name → Runs w command args m)
    → Runs w command args k
    → Runs w command args (if command == name then m else k)
Runs-if w command args name {m} {k} t u = decided (Text-discrete command name)
  where
    decided : (d : Dec (command ≡ name)) → Runs w command args (if ite d true false then m else k)
    decided (yes e) = t e
    decided (no n) = u

Runs-either :
    (w : World) (command : Text) (args : List Text) (b : Bool) {m k : Tx ℕ}
    → Runs w command args m
    → Runs w command args k
    → Runs w command args (if b then m else k)
Runs-either w command args true t u = t
Runs-either w command args false t u = u

Runs-command :
    (w : World) (command : Text) (args : List Text) → Runs w command args (run w (command ∷ args))
unfolding run
Runs-command w command args = Runs-either w command args _ (Runs-version w command args) (
    Runs-either w command args _ (Triple-help (Allowed command args) w) (
      Runs-if w command args _ (Runs-countries w command args) (
        Runs-if w command args _ (Runs-recommend w command args) (
          Runs-if w command args _ (Runs-plan w command args) (
            Runs-if w command args _ (Runs-login w command args) (
              Runs-if w command args _ (Runs-status w command args) (
                Runs-if w command args _ (Runs-logout w command args) (
                  Runs-if w command args _ (Runs-connect w command args) (
                    Runs-if w command args _ (Runs-disconnect w command args) (
                      Runs-if w command args _ (Runs-reconnect w command args)
                        (Triple-usage _ w _ exit_usage _ _)))))))))))

-- The program exits on every command line, whatever fails. Every call of its backend is one that the
-- words of the command line allow: local credentials are deleted only for `logout` with an argument
-- `--local-only`, a reconnection is asked for only for `reconnect` with an argument `--fresh`, and
-- neither with any other argument but `--json`. The country of a query is an argument that does not
-- begin with a dash, and its city and server are given by their flags. When the exit code is that of
-- a usage error, the backend was not called; when it is 0, no call of the backend failed but the look
-- at the tunnel in a status.
pub Triple-run :
    (w : World) (argv : List Text)
    → Triple (Untouched (AllowedOn argv)) (run w argv) (Ended (AllowedOn argv)) Never
unfolding run fail
Triple-run w [] = Triple-usage (AllowedOn []) w false exit_usage "usage" "usage"
Triple-run w (command ∷ args) = Runs-command w command args
