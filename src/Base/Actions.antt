-- ===== src/Base/Actions.antt =====
-- Methods that change a state and may fail: what was written before an error stays written.
use Prim.Native.String.{String}
use mathlib.Core.Option.{Option, none, some}
use nordmac.Base.Errors.{Error, Outcome, ok, err, panic, wrap, join}

abbrev pub Action : Type 0 → Type 0 → Type 0
Action S A = S → Outcome A × S

abbrev pub map_outcome : {A : Type 0} → (Error → Error) → Outcome A → Outcome A
map_outcome f (ok a) = ok a
map_outcome f (err e) = err (f e)
map_outcome f panic = panic

abbrev pub error_of : {A : Type 0} → Outcome A → Outcome (Option Error)
error_of (ok a) = ok none
error_of (err e) = ok (some e)
error_of panic = panic

-- A deferred call: its error joins the error of the method, which keeps its value otherwise.
abbrev pub join_deferred : {A : Type 0} → Outcome A → Outcome (Unit {0}) → Outcome A
join_deferred r (ok _) = r
join_deferred (ok a) (err e) = err e
join_deferred (err x) (err e) = err (join x e)
join_deferred panic (err e) = panic
join_deferred r panic = panic

-- A deferred call whose error is dropped.
abbrev pub drop_deferred : {A : Type 0} → Outcome A → Outcome (Unit {0}) → Outcome A
drop_deferred r panic = panic
drop_deferred r _ = r

module _ {S A : Type 0} where
  unfoldable pub pure : A → Action S A
  pure a s = (ok a, s)

  unfoldable pub raise : Error → Action S A
  raise e s = (err e, s)

  unfoldable pub lift : Outcome A → Action S A
  lift o s = (o, s)

  unfoldable pub gets : (S → A) → Action S A
  gets f s = (ok (f s), s)

  unfoldable pub map_error : (Error → Error) → Action S A → Action S A
  map_error f m s = let (r, s') = m s in (map_outcome f r, s')

  -- `fmt.Errorf("m: %w", err)`
  abbrev pub within : String → Action S A → Action S A
  within m = map_error (wrap m)

  -- The error of a method as a value.
  unfoldable pub attempt : Action S A → Action S (Option Error)
  attempt m s = let (r, s') = m s in (error_of r, s')

  -- `defer`
  unfoldable pub finally : Action S (Unit {0}) → Action S A → Action S A
  finally after m s = let (r, s') = m s in let (q, t) = after s' in (join_deferred r q, t)

  -- `defer func() { _ = after() }()`
  unfoldable pub cleanup : Action S (Unit {0}) → Action S A → Action S A
  cleanup after m s = let (r, s') = m s in let (q, t) = after s' in (drop_deferred r q, t)

module _ {S : Type 0} where
  unfoldable pub modify : (S → S) → Action S (Unit {0})
  modify f s = (ok tt, f s)

module _ {S A B : Type 0} where
  abbrev pub continue : (A → Action S B) → Outcome A → Action S B
  continue f (ok a) s = f a s
  continue f (err e) s = (err e, s)
  continue f panic s = (panic, s)

  infixl 5 ◌>>=◌ ◌>>◌
  unfoldable pub ◌>>=◌ : Action S A → (A → Action S B) → Action S B
  ◌>>=◌ m f s = let (r, s') = m s in continue f r s'

  abbrev pub ◌>>◌ : Action S A → Action S B → Action S B
  m >> k = m >>= λ _. k
