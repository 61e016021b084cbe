-- ===== src/Command/Asked.antt =====
-- What the commands of internal/command/run.go ask of the backend.
use nordmac.Base.{
  ℕ, suc, ◌||◌, no_match, ambiguous, Bool, true, false, Option, none, some, String, Error, is_error,
  if◌then◌else◌, ◌≡◌, ◌≢◌, refl, arith,
}
use nordmac.Base.Triples.{
  Triple, Attempted, Triple-pure, Triple-bind, Triple-weaken, Triple-attempt,
}
use nordmac.Base.Calls.{Triple-perform}
use nordmac.Command.Arguments.{Parsed, help, bad, parsed}
use nordmac.Command.Run.{
  exit_usage, exit_no_match, exit_network, exit_privilege, exit_auth, exit_busy, error_code, Call,
  connection_status, History, World, Tx, try, on_error, fail, write_result, printed,
  fail_connection, fail_authentication, fail_catalog, with_parsed, when_available, answer,
  inspected,
}
use nordmac.Command.Codes.{
  failed, Never, IsAsked, Untouched, Worked, Ended, Kept-Untouched, Kept-Worked, Kept-Asked,
  Triple-say, Triple-exit, Triple-fail, Triple-write_result, Ended-Untouched, Ended-Worked,
  Ended-Asked,
}

module _ (P : Call → Type 0) (w : World) where
  -- By the error of a call.
  abbrev pub After : Option Error → History → Type 0
  After none = Worked P
  After (some e) = IsAsked P

  pub Triple-ask : (c : Call) → P c → Triple (Untouched P) (try w c) After Never
  unfolding failed
  Triple-ask c p =
      Triple-weaken
        (Triple-attempt {F = Never} (
          Triple-perform w.fails {P = Untouched P} {Q = Worked P} {E = λ _. IsAsked P} c
            (λ h (a, u, f) _. (((λ _. p), a), ground (arith, f)))
            (λ h e (a, _, _) _. ((λ _. p), a))))
        (λ h k. k) by_result (λ e h x. x)
    where
      by_result :
          (r : Option Error) (h : History)
          → Attempted (λ (_ : Unit {0}). Worked P) (λ _. IsAsked P) r h
          → After r h
      by_result none h (a, k) = k
      by_result (some e) h k = k

  -- The look at the tunnel may fail.
  pub Triple-inspected :
      (b : Bool) → P connection_status → Triple (Worked P) (inspected w b) (λ _. Worked P) Never
  unfolding failed
  Triple-inspected false p = Triple-pure none (λ h k. k)
  Triple-inspected true p =
      Triple-weaken
        (Triple-attempt {F = Never} (
          Triple-perform w.fails {P = Worked P} {Q = Worked P} {E = λ _. Worked P} connection_status
            (λ h (a, f) _. (((λ _. p), a), f)) (λ h e (a, f) _. (((λ _. p), a), f))))
        (λ h k. k) by_result (λ e h x. x)
    where
      by_result :
          (r : Option Error) (h : History)
          → Attempted (λ (_ : Unit {0}). Worked P) (λ _. Worked P) r h
          → Worked P h
      by_result none h (a, k) = k
      by_result (some e) h k = k

  Triple-if :
      {K : History → Type 0} (b : Bool) {m k : Tx ℕ}
      → Triple K m (Ended P) Never
      → Triple K k (Ended P) Never
      → Triple K (if b then m else k) (Ended P) Never
  Triple-if true t u = t
  Triple-if false t u = u

  -- A failure before any call of the backend.
  pub Triple-usage :
      (json : Bool) (exit : ℕ) (code text : String)
      → Triple (Untouched P) (fail w json exit code text) (Ended P) Never
  Triple-usage json exit code text =
      Ended-Untouched P exit (Triple-fail P w (Untouched P) (Kept-Untouched P) json exit code text)

  -- A failure of the backend.
  pub Triple-refused :
      (json : Bool) (exit : ℕ) (code text : String)
      → exit ≢ 0
      → exit ≢ 2
      → Triple (IsAsked P) (fail w json exit code text) (Ended P) Never
  Triple-refused json exit code text z t =
      Ended-Asked P exit z t (Triple-fail P w (IsAsked P) (Kept-Asked P) json exit code text)

  refused_exit :
      (n : ℕ) (json : Bool) (code text : String)
      → Triple (IsAsked P) (fail w json (suc (suc (suc n))) code text) (Ended P) Never
  refused_exit n json code text =
      Triple-refused json _ code text (λ e. absurd (omega (arith, e)))
        (λ e. absurd (omega (arith, e)))

  refused_no_match :
      (json : Bool) (code text : String)
      → Triple (IsAsked P) (fail w json exit_no_match code text) (Ended P) Never
  refused_no_match = refused_exit 1

  refused_network :
      (json : Bool) (code text : String)
      → Triple (IsAsked P) (fail w json exit_network code text) (Ended P) Never
  refused_network = refused_exit 2

  refused_privilege :
      (json : Bool) (code text : String)
      → Triple (IsAsked P) (fail w json exit_privilege code text) (Ended P) Never
  refused_privilege = refused_exit 3

  refused_auth :
      (json : Bool) (code text : String)
      → Triple (IsAsked P) (fail w json exit_auth code text) (Ended P) Never
  refused_auth = refused_exit 4

  refused_busy :
      (json : Bool) (code text : String)
      → Triple (IsAsked P) (fail w json exit_busy code text) (Ended P) Never
  refused_busy = refused_exit 5

  ruleset refusals = (Triple-if, refused_network, refused_privilege, refused_auth, refused_busy)

  pub Triple-fail_connection :
      (json : Bool) (e : Error) → Triple (IsAsked P) (fail_connection w json e) (Ended P) Never
  unfolding fail_connection
  Triple-fail_connection json e = search refusals depth 12

  pub Triple-fail_authentication :
      (json : Bool) (e : Error) → Triple (IsAsked P) (fail_authentication w json e) (Ended P) Never
  unfolding fail_authentication
  Triple-fail_authentication json e = search refusals depth 16

  pub Triple-fail_catalog :
      (json : Bool) (e : Error) → Triple (IsAsked P) (fail_catalog w json e) (Ended P) Never
  Triple-fail_catalog json e = coded (is_error e no_match || is_error e ambiguous) (error_code e)
    where
      coded :
          (b : Bool) (code : String)
          → Triple
              (IsAsked P)
              (fail w json (if b then exit_no_match else exit_network) code "catalog")
              (Ended P)
              Never
      coded true code = refused_no_match json code _
      coded false code = refused_network json code _

  -- The result of a command whose calls worked.
  pub Triple-result :
      (json : Bool) → Triple (Worked P) (write_result w json (printed w)) (Ended P) Never
  Triple-result json = Ended-Worked P (
      Triple-write_result P w (Worked P) (Kept-Worked P) json _ (
        Triple-say P w (Worked P) (Kept-Worked P) _ _ refl
          (Triple-exit P w (Worked P) (Kept-Worked P) 0)))

  pub Triple-on_error :
      {f : Error → Tx ℕ} {next : Tx ℕ} (r : Option Error)
      → ((e : Error) → Triple (IsAsked P) (f e) (Ended P) Never)
      → Triple (Worked P) next (Ended P) Never
      → Triple (After r) (on_error w r f next) (Ended P) Never
  Triple-on_error none t u = u
  Triple-on_error (some e) t u = t e

  -- A method of the backend and then its result.
  pub Triple-answer :
      (json : Bool) {f : Error → Tx ℕ} (c : Call)
      → P c
      → ((e : Error) → Triple (IsAsked P) (f e) (Ended P) Never)
      → Triple (Untouched P) (answer w json f c) (Ended P) Never
  unfolding answer
  Triple-answer json c p t =
      Triple-bind (Triple-ask c p) λ r. Triple-on_error r t (Triple-result json)

  pub Triple-help : Triple (Untouched P) (printed w) (Ended P) Never
  Triple-help = Ended-Untouched P 0 (
      Triple-say P w (Untouched P) (Kept-Untouched P) _ _ refl
        (Triple-exit P w (Untouched P) (Kept-Untouched P) 0))

  -- A command asks what its parsed arguments allow.
  pub Triple-with_parsed :
      {A : Type 0} (json : Bool) (o : Parsed A) {next : A → Tx ℕ}
      → ((a : A) → o ≡ parsed a → Triple (Untouched P) (next a) (Ended P) Never)
      → Triple (Untouched P) (with_parsed w json o next) (Ended P) Never
  unfolding with_parsed
  Triple-with_parsed json help t = Triple-help
  Triple-with_parsed json (bad m) t = Triple-usage json exit_usage _ _
  Triple-with_parsed json (parsed a) t = t a refl

  pub Triple-when_available :
      (b json : Bool) {next : Tx ℕ}
      → Triple (Untouched P) next (Ended P) Never
      → Triple (Untouched P) (when_available w b json next) (Ended P) Never
  Triple-when_available true json t = t
  Triple-when_available false json t = Triple-usage json exit_usage _ _
