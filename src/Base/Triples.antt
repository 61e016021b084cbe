-- ===== src/Base/Triples.antt =====
-- What a method ensures: from `P`, it returns into `Q`, fails into `E`, and never panics. One rule
-- for each way to build a method.
use mathlib.Core.Path.{◌≡◌, refl, subst}
use native.Mathlib.Omega.{arith}
use mathlib.Core.Logic.{◌≢◌}
use mathlib.Core.Option.{Option, none, some}
use nordmac.Base.Errors.{Error, Outcome, ok, err, panic, join}
use nordmac.Base.Actions.{
  Action, pure, raise, lift, gets, modify, map_error, attempt, finally, cleanup, drop_deferred,
  map_outcome, error_of, join_deferred, continue, ◌>>=◌,
}

abbrev pub Post : {S A : Type 0} → (A → S → Type 0) → (Error → S → Type 0) → Outcome A → S → Type 0
Post Q E (ok a) s = Q a s
Post Q E (err e) s = E e s
Post Q E panic s = ⊥

pub record Triple {S A : Type 0} (P : S → Type 0) (m : Action S A) (Q : A → S → Type 0)
    (E : Error → S → Type 0) : Type 0 where
  pub at : (s : S) → P s → Post Q E (m s).0 (m s).1

-- What holds of the state when a method ends with this error value.
abbrev pub Attempted :
    {S A : Type 0} → (A → S → Type 0) → (Error → S → Type 0) → Option Error → S → Type 0
Attempted {A} Q E none s = (a : A) × Q a s
Attempted Q E (some e) s = E e s

module _ {S A : Type 0} (Q : A → S → Type 0) (E : Error → S → Type 0) where
  Post-weaken :
      (Q' : A → S → Type 0) (E' : Error → S → Type 0) (r : Outcome A) (s : S)
      → ((a : A) (t : S) → Q' a t → Q a t)
      → ((e : Error) (t : S) → E' e t → E e t)
      → Post Q' E' r s
      → Post Q E r s
  Post-weaken Q' E' (ok a) s q e h = q a s h
  Post-weaken Q' E' (err x) s q e h = e x s h
  Post-weaken Q' E' panic s q e h = h

  Post-map_outcome :
      (f : Error → Error) (r : Outcome A) (s : S)
      → Post Q (λ e t. E (f e) t) r s
      → Post Q E (map_outcome f r) s
  Post-map_outcome f (ok a) s h = h
  Post-map_outcome f (err x) s h = h
  Post-map_outcome f panic s h = h

  Post-lift :
      (o : Outcome A) (s : S)
      → o ≢ panic
      → ((a : A) → o ≡ ok a → Q a s)
      → ((e : Error) → o ≡ err e → E e s)
      → Post Q E o s
  Post-lift (ok a) s n q e = q a refl
  Post-lift (err x) s n q e = e x refl
  Post-lift panic s n q e = n refl

  Post-attempt :
      (F : Error → S → Type 0) (r : Outcome A) (s : S)
      → Post Q E r s
      → Post (Attempted Q E) F (error_of r) s
  Post-attempt F (ok a) s h = (a, h)
  Post-attempt F (err e) s h = h
  Post-attempt F panic s h = h

  Post-finally :
      (R : A → S → Type 0) (F : Error → S → Type 0) (after : Action S (Unit {0})) (r : Outcome A)
      (s : S)
      → ((a : A) → Triple (Q a) after (λ _. R a) F)
      → ((e : Error) → Triple (E e) after (λ _. F e) (λ x. F (join e x)))
      → Post Q E r s
      → Post R F (join_deferred r (after s).0) (after s).1
  Post-finally R F after (ok a) s q e h = go (after s).0 (after s).1 ((q a).at s h)
    where
      go :
          (o : Outcome (Unit {0})) (t : S)
          → Post (λ _. R a) F o t
          → Post R F (join_deferred (ok a) o) t
      go (ok _) t g = g
      go (err x) t g = g
      go panic t g = g
  Post-finally R F after (err x) s q e h = go (after s).0 (after s).1 ((e x).at s h)
    where
      go :
          (o : Outcome (Unit {0})) (t : S)
          → Post (λ _. F x) (λ y. F (join x y)) o t
          → Post R F (join_deferred (err x) o) t
      go (ok _) t g = g
      go (err y) t g = g
      go panic t g = g
  Post-finally R F after panic s q e h = absurd h

pub ok-injective : {A : Type 0} (a b : A) → ok a ≡ ok b → a ≡ b
ok-injective a b h = ground arith

err-injective : {A : Type 0} (a b : Error) → (let x : Outcome A = err a in x ≡ err b) → a ≡ b
err-injective a b h = ground arith

-- What a postcondition says of an outcome.
module _ {S A : Type 0} (Q : A → S → Type 0) (E : Error → S → Type 0) where
  pub Post-ok : (r : Outcome A) (s : S) (a : A) → Post Q E r s → r ≡ ok a → Q a s
  Post-ok (ok b) s a h e = subst (λ x. Q x s) (ok-injective b a e) h
  Post-ok (err x) s a h e = cc
  Post-ok panic s a h e = cc

  pub Post-err : (r : Outcome A) (s : S) (x : Error) → Post Q E r s → r ≡ err x → E x s
  Post-err (ok b) s x h e = cc
  Post-err (err y) s x h e = subst (λ z. E z s) (err-injective y x e) h
  Post-err panic s x h e = cc

  pub Post-ne-panic : (r : Outcome A) (s : S) → Post Q E r s → r ≢ panic
  Post-ne-panic (ok b) s h e = cc
  Post-ne-panic (err y) s h e = cc
  Post-ne-panic panic s h e = h

  pub Post-always :
      (R : S → Type 0) (r : Outcome A) (s : S)
      → ((a : A) → Q a s → R s)
      → ((e : Error) → E e s → R s)
      → Post Q E r s
      → R s
  Post-always R (ok a) s q e h = q a h
  Post-always R (err x) s q e h = e x h
  Post-always R panic s q e h = absurd h

module _ {S A B : Type 0} (Q : A → S → Type 0) (R : B → S → Type 0) (E : Error → S → Type 0) where
  Post-continue :
      (f : A → Action S B) (r : Outcome A) (s : S)
      → Post Q E r s
      → ((a : A) → Triple (Q a) (f a) R E)
      → Post R E (continue f r s).0 (continue f r s).1
  Post-continue f (ok a) s h k = (k a).at s h
  Post-continue f (err e) s h k = h
  Post-continue f panic s h k = h

module _ {S A : Type 0} {P : S → Type 0} {Q : A → S → Type 0} {E : Error → S → Type 0} where
  pub Triple-pure : (a : A) → ((s : S) → P s → Q a s) → Triple P (pure a) Q E
  unfolding pure
  Triple-pure a h = record { at = h }

  pub Triple-raise : (e : Error) → ((s : S) → P s → E e s) → Triple P (raise {A = A} e) Q E
  unfolding raise
  Triple-raise e h = record { at = h }

  pub Triple-gets : (f : S → A) → ((s : S) → P s → Q (f s) s) → Triple P (gets f) Q E
  unfolding gets
  Triple-gets f h = record { at = h }

  -- Consequence.
  pub Triple-weaken :
      {P' : S → Type 0} {Q' : A → S → Type 0} {E' : Error → S → Type 0} {m : Action S A}
      → Triple P' m Q' E'
      → ((s : S) → P s → P' s)
      → ((a : A) (t : S) → Q' a t → Q a t)
      → ((e : Error) (t : S) → E' e t → E e t)
      → Triple P m Q E
  Triple-weaken {Q'} {E'} {m} tr p q e = record {
    at = λ s h. Post-weaken Q E Q' E' (m s).0 (m s).1 q e (tr.at s (p s h));
  }

  -- A fact that does not depend on the state.
  pub Triple-assume :
      {F : Type 0} {m : Action S A} → (F → Triple P m Q E) → Triple (λ s. P s × F) m Q E
  Triple-assume k = record { at = λ s (p, f). (k f).at s p }

  pub Triple-map_error :
      (f : Error → Error) (m : Action S A)
      → Triple P m Q (λ e t. E (f e) t)
      → Triple P (map_error f m) Q E
  unfolding map_error
  Triple-map_error f m tr = record {
    at = λ s p. Post-map_outcome Q E f (m s).0 (m s).1 (tr.at s p);
  }

  pub Triple-lift :
      (o : Outcome A)
      → o ≢ panic
      → ((a : A) (s : S) → o ≡ ok a → P s → Q a s)
      → ((e : Error) (s : S) → o ≡ err e → P s → E e s)
      → Triple P (lift o) Q E
  unfolding lift
  Triple-lift o n q e = record {
    at = λ s p. Post-lift Q E o s n (λ a h. q a s h p) (λ x h. e x s h p);
  }

module _ {S A B : Type 0} {P : S → Type 0} {R : B → S → Type 0} {E : Error → S → Type 0} where
  pub Triple-bind :
      {Q : A → S → Type 0} {m : Action S A} {f : A → Action S B}
      → Triple P m Q E
      → ((a : A) → Triple (Q a) (f a) R E)
      → Triple P (m >>= f) R E
  unfolding ◌>>=◌
  Triple-bind {Q} {m} {f} tm tf = record {
    at = λ s p. Post-continue Q R E f (m s).0 (m s).1 (tm.at s p) tf;
  }

module _ {S : Type 0} {P : S → Type 0} {Q : Unit {0} → S → Type 0} {E : Error → S → Type 0} where
  pub Triple-modify : (f : S → S) → ((s : S) → P s → Q tt (f s)) → Triple P (modify f) Q E
  unfolding modify
  Triple-modify f h = record { at = h }

module _ {S A : Type 0} {P : S → Type 0} {Q : A → S → Type 0} {E : Error → S → Type 0} where
  pub Triple-attempt :
      {F : Error → S → Type 0} {m : Action S A}
      → Triple P m Q E
      → Triple P (attempt m) (Attempted Q E) F
  unfolding attempt
  Triple-attempt {F} {m} tr = record { at = λ s p. Post-attempt Q E F (m s).0 (m s).1 (tr.at s p) }

  -- The deferred method runs on every path.
  pub Triple-finally :
      {R : A → S → Type 0} {F : Error → S → Type 0} {after : Action S (Unit {0})} {m : Action S A}
      → Triple P m Q E
      → ((a : A) → Triple (Q a) after (λ _. R a) F)
      → ((e : Error) → Triple (E e) after (λ _. F e) (λ x. F (join e x)))
      → Triple P (finally after m) R F
  unfolding finally
  Triple-finally {R} {F} {after} {m} tr q e = record {
    at = λ s p. Post-finally Q E R F after (m s).0 (m s).1 q e (tr.at s p);
  }

  -- A deferred method that keeps what holds, on every path.
  pub Triple-cleanup :
      {after : Action S (Unit {0})} {m : Action S A}
      → Triple P m Q E
      → ((a : A) → Triple (Q a) after (λ _. Q a) (λ _. Q a))
      → ((e : Error) → Triple (E e) after (λ _. E e) (λ _. E e))
      → Triple P (cleanup after m) Q E
  unfolding cleanup
  Triple-cleanup {after} {m} tr q e = record { at = λ s p. keeps (m s).0 (m s).1 (tr.at s p) }
    where
      dropped :
          (R : S → Type 0) (r : Outcome A) (o : Outcome (Unit {0})) (t : S)
          → (R t → Post Q E r t)
          → Post (λ _. R) (λ _. R) o t
          → Post Q E (drop_deferred r o) t
      dropped R (ok a) (ok _) t k h = k h
      dropped R (ok a) (err x) t k h = k h
      dropped R (ok a) panic t k h = h
      dropped R (err y) (ok _) t k h = k h
      dropped R (err y) (err x) t k h = k h
      dropped R (err y) panic t k h = h
      dropped R panic (ok _) t k h = k h
      dropped R panic (err x) t k h = k h
      dropped R panic panic t k h = h

      keeps :
          (r : Outcome A) (s : S)
          → Post Q E r s
          → Post Q E (drop_deferred r (after s).0) (after s).1
      keeps (ok a) s h = dropped (Q a) (ok a) (after s).0 (after s).1 (λ x. x) ((q a).at s h)
      keeps (err x) s h = dropped (E x) (err x) (after s).0 (after s).1 (λ y. y) ((e x).at s h)
      keeps panic s h = absurd h

module _ {S A : Type 0} {P : S → Type 0} {Q : A → S → Type 0} {E : Error → S → Type 0} where
  -- From each state on its own.
  pub Triple-each : {m : Action S A} → ((s : S) → P s → Triple (λ t. t ≡ s) m Q E) → Triple P m Q E
  Triple-each k = record { at = λ s p. (k s p).at s refl }
