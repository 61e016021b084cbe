-- ===== src/Base/Calls.antt =====
-- Methods whose whole effect is a sequence of calls that may fail: the calls are recorded with their
-- errors, newest first, and what a call answers depends on those before it.
use mathlib.Core.Path.{◌≡◌, refl}
use mathlib.Core.List.{List, ◌∷◌}
use mathlib.Core.Option.{Option, none, some}
use nordmac.Base.Errors.{Error, Outcome, ok, err}
use nordmac.Base.Actions.{Action}
use nordmac.Base.Triples.{Triple, Post}

pub record Event (C : Type 0) : Type 0 where
  pub call : C
  pub error : Option Error

abbrev pub History : Type 0 → Type 0
History C = List (Event C)

module _ {C : Type 0} where
  abbrev pub log : C → Option Error → History C → Outcome (Unit {0}) × History C
  log call none h = (ok tt, record { call = call; error = none } ∷ h)
  log call (some e) h = (err e, record { call = call; error = some e } ∷ h)

  module _ (fails : History C → C → Option Error) where
    unfoldable pub perform : C → Action (History C) (Unit {0})
    perform call h = log call (fails h call) h

    -- A call is recorded, whatever it answers.
    pub perform-history :
        (call : C) (h : History C)
        → (perform call h).1 ≡ record { call = call; error = fails h call } ∷ h
    unfolding perform
    perform-history call h = recorded (fails h call)
      where
        recorded : (e : Option Error) → (log call e h).1 ≡ record { call = call; error = e } ∷ h
        recorded none = refl
        recorded (some e) = refl

    pub Triple-perform :
        {P Q : History C → Type 0} {E : Error → History C → Type 0} (call : C)
        → ((h : History C)
            → P h
            → fails h call ≡ none
            → Q (record { call = call; error = none } ∷ h))
        → ((h : History C) (e : Error)
            → P h
            → fails h call ≡ some e
            → E e (record { call = call; error = some e } ∷ h))
        → Triple P (perform call) (λ _. Q) E
    unfolding perform
    Triple-perform {P} {Q} {E} call q e = record { at = λ h p. go h p (fails h call) refl }
      where
        go :
            (h : History C)
            → P h
            → (a : Option Error) → fails h call ≡ a
            → Post (λ _. Q) E (log call a h).0 (log call a h).1
        go h p none eq = q h p eq
        go h p (some x) eq = e h x p eq
