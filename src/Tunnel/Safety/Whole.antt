-- ===== src/Tunnel/Safety/Whole.antt =====
-- `Controller.Connect` from its validation to the release of the lock.
use nordmac.Base.{
  Bool, true, false, not, ◌&&◌, [], ◌∷◌, ◌≡◌, refl, ◌≢◌, ◌⊎◌, inl, inr, arith, err, panic, Error,
  join, is_error, reject_if-pass, reject_if-ne-panic, pass, Text,
}
use nordmac.Base.Actions.{within}
use nordmac.Base.Triples.{
  Triple, Triple-bind, Triple-map_error, Triple-lift, Triple-weaken, Triple-assume, Triple-finally,
  Post-err, Post-ne-panic, Post-always,
}
use nordmac.Tunnel.Types.{Plan}
use nordmac.Tunnel.Panics.{validate_plan-ne-panic}
use nordmac.Tunnel.World.{
  Call, acquire, release, locks, caller_context, World, History, State, perform,
}
use nordmac.Tunnel.Connect.{validate_common, validate_dependencies, connect}
use nordmac.Tunnel.Safety.Host.{IsSafe, IsClear}
use nordmac.Tunnel.Safety.Lemmas.{did, Triple-perform, IsSafe-quiet, IsClear-quiet}
use nordmac.Tunnel.Safety.Locked.{
  IsIdle, HasFailed, HasConnect, Triple-IsIdle, Triple-connect_locked,
}
use nordmac.Tunnel.Safety.Rollback.{IsIncomplete}

-- The history ends with a release of the lock that failed.
abbrev pub is_release : Call → Bool
is_release (release s) = true
is_release _ = false

abbrev pub release_failed : History → Bool
release_failed [] = false
release_failed (e ∷ h) = is_release e.call && not e.succeeded

-- How `Connect` ends with an error.
abbrev pub IsUndone : Error → State → Type 0
IsUndone e s =
    IsSafe s.history × (IsClear s.history ⊎ IsIncomplete e ⊎ (release_failed s.history ≡ true))

abbrev pub IsSafeState : State → Type 0
IsSafeState s = IsSafe s.history

module _ (w : World) where
  -- The release takes nothing, whatever it answers.
  pub Triple-release_safe :
      (session : Text)
      → w.has locks ≡ true
      → Triple IsSafeState
          (perform w caller_context (release session))
          (λ _. IsSafeState)
          (λ _ s. IsSafe s.history × (release_failed s.history ≡ true))
  Triple-release_safe session has =
      Triple-perform w caller_context (release session) has
        (λ s h. IsSafe-quiet _ s.history refl (λ _. refl) h)
        (λ s h _. (IsSafe-quiet _ s.history refl (λ _. refl) h, refl))

  after_failure :
      (s : State) (b : Bool) (session : Text) (e : Error)
      → HasFailed e s
      → HasFailed e (did caller_context (release session) b s)
  after_failure s b session e (safe, inl clear) =
      (IsSafe-quiet _ s.history refl (λ _. refl) safe, inl (IsClear-quiet _ s.history refl clear))
  after_failure s b session e (safe, inr q) =
      (IsSafe-quiet _ s.history refl (λ _. refl) safe, inr q)

  widen : (e : Error) (s : State) → HasFailed e s → IsUndone e s
  widen e s (safe, inl clear) = (safe, inl clear)
  widen e s (safe, inr q) = (safe, inr (inl q))

  join_incomplete : (e x : Error) (s : State) → HasFailed e s → HasFailed (join e x) s
  unfolding is_error
  join_incomplete e x s (safe, inl clear) = (safe, inl clear)
  join_incomplete e x s (safe, inr q) = (safe, inr (ground arith))

  Triple-release_failed :
      (session : Text) (e : Error)
      → w.has locks ≡ true
      → Triple
          (HasFailed e)
          (within "release tunnel lock" (perform w caller_context (release session)))
          (λ _. IsUndone e)
          (λ x. IsUndone (join e x))
  Triple-release_failed session e has = Triple-map_error _ _ (
      Triple-perform w caller_context (release session) has
        (λ s h.
          widen e (did caller_context (release session) true s) (after_failure s true session e h))
        (λ s h x.
          let t = did caller_context (release session) false s in
          widen _ t (join_incomplete e _ t (after_failure s false session e h))))

  Triple-validate_dependencies :
      (plan : Plan)
      → Triple IsIdle
          (validate_dependencies w plan)
          (λ _ s. IsIdle s × HasConnect w plan)
          (λ _. IsIdle)
  unfolding validate_dependencies validate_common
  Triple-validate_dependencies plan =
      Triple-bind {Q = λ _ s. IsIdle s × (validate_common w ≡ pass)}
        (Triple-lift _ (reject_if-ne-panic _ _) (λ _ s e i. (i, e)) (λ _ s _ i. i))
        λ _.
          Triple-lift _ (reject_if-ne-panic _ _)
            (λ _ s e (i, c).
              let a = reject_if-pass _ _ c in
              let b = reject_if-pass _ _ e in
              (
                i,
                record {
                  common = ground (arith, a);
                  locks_here = ground (arith, a);
                  conflicts_here = ground (arith, a);
                  verifier_here = ground (arith, a);
                  dns_here = ground (arith, b);
                },
              ))
            (λ _ s _ h. h.0)

  -- `Connect` from an idle host.
  pub Triple-connect : (plan : Plan) → Triple IsIdle (connect w plan) (λ _. IsSafeState) IsUndone
  unfolding connect
  Triple-connect plan =
      Triple-bind {Q = λ _. IsIdle}
        (Triple-map_error _ _
          (Triple-lift _ (validate_plan-ne-panic plan) (λ _ s _ i. i) (λ _ s _ i. (i.0, inl i.1))))
        λ _.
          Triple-bind
            (Triple-weaken (Triple-validate_dependencies plan) (λ s i. i) (λ _ s i. i)
              (λ _ s i. (i.0, inl i.1)))
            λ _. Triple-assume λ here.
              Triple-bind
                (Triple-map_error _ _ (
                  Triple-weaken (Triple-IsIdle w (acquire plan.session_id) here.locks_here refl)
                    (λ s i. i) (λ _ s i. i) (λ _ s i. (i.0, inl i.1))))
                λ _.
                  Triple-finally (Triple-connect_locked w plan here)
                    (λ _. Triple-map_error _ _ (
                      Triple-weaken (Triple-release_safe plan.session_id here.locks_here) (λ s h. h)
                        (λ _ s h. h) (λ _ s h. (h.0, inr (inr h.1)))))
                    (λ e. Triple-release_failed plan.session_id e here.locks_here)

-- From an idle host, every point of the history of a call of `Connect` is crash-safe, whatever fails:
-- each resource that may be owned there is pending in every journal that may be on disk.
pub connect-IsSafe :
    (w : World) (plan : Plan) (s : State)
    → IsSafe s.history
    → IsClear s.history
    → IsSafe (connect w plan s).1.history
connect-IsSafe w plan s safe clear =
    Post-always (λ _. IsSafeState) IsUndone IsSafeState _ _ (λ _ h. h) (λ _ h. h.0)
      ((Triple-connect w plan).at s (safe, clear))

-- From an idle host, a call of `Connect` that ends with an error has given back all that it took, or
-- its error is `ErrRollback`, or the release of the lock was the last call and failed.
pub connect-IsUndone :
    (w : World) (plan : Plan) (s : State) (e : Error)
    → IsSafe s.history
    → IsClear s.history
    → (connect w plan s).0 ≡ err e
    → let h = (connect w plan s).1.history in IsClear h ⊎ IsIncomplete e ⊎ (release_failed h ≡ true)
connect-IsUndone w plan s e safe clear failed =
    (Post-err (λ _. IsSafeState) IsUndone _ _ e ((Triple-connect w plan).at s (safe, clear))
      failed).1

-- From an idle host, `Connect` never panics: no nil dependency is called and no index is out of range.
pub connect-ne-panic :
    (w : World) (plan : Plan) (s : State)
    → IsSafe s.history
    → IsClear s.history
    → (connect w plan s).0 ≢ panic
connect-ne-panic w plan s safe clear =
    Post-ne-panic (λ _. IsSafeState) IsUndone _ _ ((Triple-connect w plan).at s (safe, clear))
