-- ===== src/Base/Calm.antt =====
-- Methods that never panic, and where that alone decides what they ensure.
use mathlib.Core.Path.{refl}
use mathlib.Core.Logic.{◌≢◌}
use mathlib.Core.Option.{Option, none, some}
use nordmac.Base.Errors.{Error, Outcome, ok, err, panic}
use nordmac.Base.Actions.{
  Action, pure, raise, lift, gets, map_error, attempt, error_of, map_outcome, continue, ◌>>=◌,
}
use nordmac.Base.Calls.{History, log, perform}
use nordmac.Base.Triples.{Triple, Post}

abbrev pub Any : {S : Type 0} → S → Type 0
Any s = Unit {0}

pub record Calm {S A : Type 0} (m : Action S A) : Type 0 where
  pub at : (s : S) → (m s).0 ≢ panic

module _ {S A : Type 0} where
  pub Calm-pure : (a : A) → let m : Action S A = pure a in Calm m
  unfolding pure
  Calm-pure a = record { at = λ s h. cc }

  pub Calm-raise : (e : Error) → let m : Action S A = raise e in Calm m
  unfolding raise
  Calm-raise e = record { at = λ s h. cc }

  pub Calm-gets : (f : S → A) → Calm (gets f)
  unfolding gets
  Calm-gets f = record { at = λ s h. cc }

  pub Calm-lift : (o : Outcome A) → o ≢ panic → let m : Action S A = lift o in Calm m
  unfolding lift
  Calm-lift o n = record { at = λ s. n }

  pub Calm-map_error : (f : Error → Error) (m : Action S A) → Calm m → Calm (map_error f m)
  unfolding map_error
  Calm-map_error f m c = record { at = λ s. mapped (m s).0 (c.at s) }
    where
      mapped : (o : Outcome A) → o ≢ panic → map_outcome f o ≢ panic
      mapped (ok a) n h = cc
      mapped (err e) n h = cc
      mapped panic n h = n refl

  pub Calm-attempt : (m : Action S A) → Calm m → Calm (attempt m)
  unfolding attempt
  Calm-attempt m c = record { at = λ s. caught (m s).0 (c.at s) }
    where
      caught : (o : Outcome A) → o ≢ panic → error_of o ≢ panic
      caught (ok a) n h = cc
      caught (err e) n h = cc
      caught panic n h = n refl

  pub Triple-Calm : {P : S → Type 0} (m : Action S A) → Calm m → Triple P m (λ _. Any) (λ _. Any)
  Triple-Calm m c = record { at = λ s p. ended (m s).0 (m s).1 (c.at s) }
    where
      ended : (o : Outcome A) (s : S) → o ≢ panic → Post (λ (_ : A). Any) (λ _. Any) o s
      ended (ok a) s n = tt
      ended (err e) s n = tt
      ended panic s n = n refl

module _ {S A B : Type 0} where
  pub Calm-bind :
      (m : Action S A) (f : A → Action S B) → Calm m → ((a : A) → Calm (f a)) → Calm (m >>= f)
  unfolding ◌>>=◌
  Calm-bind m f c k = record { at = λ s. after (m s).0 (m s).1 (c.at s) }
    where
      after : (o : Outcome A) (s : S) → o ≢ panic → (continue f o s).0 ≢ panic
      after (ok a) s n h = (k a).at s h
      after (err e) s n h = cc
      after panic s n h = n refl

module _ {C : Type 0} (fails : History C → C → Option Error) where
  pub Calm-perform : (call : C) → Calm (perform fails call)
  unfolding perform
  Calm-perform call = record { at = λ h. logged h (fails h call) }
    where
      logged : (h : History C) (e : Option Error) → (log call e h).0 ≢ panic
      logged h none x = cc
      logged h (some e) x = cc

pub ruleset calm = (
  Calm-pure, Calm-raise, Calm-gets, Calm-lift, Calm-map_error, Calm-attempt, Calm-bind,
  Calm-perform,
)
