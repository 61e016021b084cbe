-- ===== src/Credentials/Provisioned.antt =====
-- The credential pair through `Service.Login` of internal/loginflow/service.go.
use nordmac.Base.{
  true, Option, none, some, Text, ℤ, ok, err, Error, is_error, Sentinel-discrete,
  reject_if-ne-panic, ◌≡◌, refl, ◌⊎◌, inl, inr, arith,
}
use nordmac.Base.Actions.{raise, attempt, ◌>>=◌}
use nordmac.Base.Triples.{
  Triple, Post-ok, Post-err, Attempted, Triple-pure, Triple-raise, Triple-gets, Triple-lift,
  Triple-bind, Triple-weaken, Triple-attempt, Triple-assume, Triple-map_error,
}
use nordmac.Credentials.Store.{
  Kind, Kind-discrete, access_token, private_key, lock, put, provision, History, World, Tx,
  rollback,
}
use nordmac.Credentials.Login.{
  Provisioning, transaction_error, or_rollback, store_pair, login_locked, login,
}
use nordmac.Credentials.Held.{
  release_failed, may_hold, IsPair, IsHonest, snapshot_of, Triple-perform, Triple-rollback,
}
use nordmac.Credentials.Safety.{IsIncomplete, Restored, Undone, Triple-released, Triple-both}

module _ (start : Kind → Option Text) (w : World) (provisioned : History → Text → Provisioning)
    (token key : Option Text) where
  Triple-failed_put :
      {A : Type 0} (Q : A → History → Type 0)
      → Triple
          (λ _. Unit {0})
          (attempt (rollback w (snapshot_of token) (snapshot_of key)) >>= λ f.
            raise (transaction_error w provisioned f))
          Q
          (Restored start w token key)
  unfolding is_error Sentinel-discrete
  Triple-failed_put Q =
      Triple-bind {Q = λ e h. Restored start w token key (transaction_error w provisioned e) h}
        (Triple-weaken
          (Triple-attempt {F = Restored start w token key} (Triple-rollback start w token key))
          (λ h p. p) restored (λ _ h p. p))
        λ e. Triple-raise (transaction_error w provisioned e) (λ h p. p)
    where
      restored :
          (e : Option Error) (h : History)
          → Attempted (λ (_ : Unit {0}). IsPair start token key) (λ _ _. Unit {0}) e h
          → Restored start w token key (transaction_error w provisioned e) h
      restored none h p = inl p.1
      restored (some x) h p = inr (ground arith)

  Triple-or_rollback :
      (P : History → Type 0) (Q : ℤ → History → Type 0) (next : Tx ℤ) (e : Option Error)
      → Triple P next Q (Restored start w token key)
      → Triple
          (Attempted (λ (_ : Unit {0}). P) (λ _ _. Unit {0}) e)
          (or_rollback w provisioned (snapshot_of token) (snapshot_of key) e next)
          Q
          (Restored start w token key)
  unfolding or_rollback
  Triple-or_rollback P Q next none tr = Triple-weaken tr (λ h p. p.1) (λ _ h q. q) (λ _ h r. r)
  Triple-or_rollback P Q next (some x) tr =
      Triple-weaken (Triple-failed_put Q) (λ h p. tt) (λ _ h q. q) (λ _ h r. r)

  -- The pair that was provisioned for the token is stored, and the account is its account.
  pub record IsStored (new : Text) (account : ℤ) (h : History) : Type 0 where
    pub at : History
    pub same_account : account ≡ (provisioned at new).account_id
    pub pair : IsPair start (some new) (some (provisioned at new).key) h

  Triple-store_pair :
      (new : Text) (at : History)
      → Triple
          (IsPair start token key)
          (store_pair w provisioned new (provisioned at new) (snapshot_of token) (snapshot_of key))
          (IsStored new)
          (Restored start w token key)
  unfolding store_pair may_hold Kind-discrete
  Triple-store_pair new at =
      Triple-bind
        (Triple-attempt (
          Triple-perform w {Q = IsPair start (some new) key} {E = λ _ _. Unit {0}}
            (put access_token new) (λ h p _. (refl, p.1)) (λ h e p _. tt)))
        λ e. Triple-or_rollback (IsPair start (some new) key) (IsStored new) _ e (
          Triple-bind
            (Triple-attempt (
              Triple-perform w {Q = IsPair start (some new) (some (provisioned at new).key)}
                {E = λ _ _. Unit {0}} (put private_key (provisioned at new).key)
                (λ h p _. (p.0, refl)) (λ h e p _. tt)))
            λ f.
              Triple-or_rollback (IsPair start (some new) (some (provisioned at new).key))
                (IsStored new) _ f
                (Triple-pure _ (λ h p. record { at = at; same_account = refl; pair = p })))

module _ (start : Kind → Option Text) (w : World) (honest : IsHonest start w)
    (provisioned : History → Text → Provisioning) (token key : Option Text) where
  Triple-login_locked :
      (new : Text)
      → Triple
          (IsPair start token key)
          (login_locked w provisioned new)
          (IsStored start w provisioned token key new)
          (Restored start w token key)
  unfolding login_locked may_hold
  Triple-login_locked new =
      Triple-bind
        {Q = λ p h. IsPair start token key h × ((at : History) × (p ≡ provisioned at new))}
        (Triple-gets _ (λ h p. (p, (h, refl))))
        λ p. Triple-assume λ (at, same). rw same (
          Triple-bind {Q = λ _. IsPair start token key}
            (Triple-map_error _ _
              (Triple-perform w (provision new) (λ h p _. p) (λ h e p _. inl p)))
            λ _.
              Triple-both start w honest token key (IsStored start w provisioned token key new) _ _
                (Triple-store_pair start w provisioned token key new at))

  -- What `Login` ensures from a store that holds this pair.
  Triple-login :
      (new : Text)
      → Triple
          (IsPair start token key)
          (login w provisioned new)
          (IsStored start w provisioned token key new)
          (Undone start w token key)
  unfolding login may_hold
  Triple-login new =
      Triple-bind {Q = λ _. IsPair start token key}
        (Triple-lift _ (reject_if-ne-panic _ _) (λ _ h _ p. p) (λ _ h _ p. inl (inl p)))
        λ _.
          Triple-bind {Q = λ _. IsPair start token key}
            (Triple-map_error _ _ (Triple-perform w lock (λ h p _. p) (λ h e p _. inl (inl p))))
            λ _.
              Triple-released start w token key (IsStored start w provisioned token key new) _ _
                (λ a h p. record { at = p.at; same_account = p.same_account; pair = p.pair })
                (Triple-login_locked new)

  -- From a store that holds this pair and answers honestly, `Login` that returns an account has stored
  -- the token and the key that was provisioned for it together with this account.
  pub login-IsStored :
      (new : Text) (account : ℤ) (h : History)
      → IsPair start token key h
      → (login w provisioned new h).0 ≡ ok account
      → IsStored start w provisioned token key new account (login w provisioned new h).1
  login-IsStored new account h p done =
      Post-ok (IsStored start w provisioned token key new) (Undone start w token key) _ _ account
        ((Triple-login new).at h p) done

  -- From a store that holds this pair and answers honestly, `Login` that returns an error leaves the
  -- pair as it was, or its error is `ErrRollbackIncomplete`, or the last call was a release of the lock
  -- that failed.
  pub login-Undone :
      (new : Text) (e : Error) (h : History)
      → IsPair start token key h
      → (login w provisioned new h).0 ≡ err e
      → (IsPair start token key (login w provisioned new h).1 ⊎ IsIncomplete e)
        ⊎ (release_failed (login w provisioned new h).1 ≡ true)
  login-Undone new e h p failed =
      Post-err (IsStored start w provisioned token key new) (Undone start w token key) _ _ e
        ((Triple-login new).at h p) failed
