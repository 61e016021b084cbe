-- ===== src/Credentials/Safety.antt =====
-- The credential pair through `LogoutLocal` of internal/authstate/service.go.
use nordmac.Base.{
  true, false, not, ◌&&◌, Option, none, some, ◌∷◌, Text, ok, err, Error, join, is_error, Sentinel,
  Sentinel-discrete, if◌then◌else◌, reject_if-ne-panic, ◌≡◌, refl, ◌⊎◌, inl, inr, arith,
}
use nordmac.Base.Actions.{pure, map_error, finally, ◌>>=◌}
use nordmac.Base.Triples.{
  Triple, Post-ok, Post-err, Attempted, Triple-pure, Triple-raise, Triple-lift, Triple-bind,
  Triple-weaken, Triple-attempt, Triple-assume, Triple-map_error, Triple-finally,
}
use nordmac.Credentials.Store.{
  Kind, Kind-discrete, kind_eq, access_token, private_key, lock, release, delete, History, World,
  Tx, Snapshot, capture,
}
use nordmac.Credentials.Logout.{
  LogoutResult, acquire, released, delete_if_present, removal_error, failed_removal, or_restore,
  remove_pair, logout_locked, logout_local,
}
use nordmac.Credentials.Held.{
  release_failed, may_hold, IsPair, IsHonest, snapshot_of, Triple-perform, Triple-rollback,
  Triple-capture,
}

-- The error of a rollback that did not bring the pair back.
abbrev pub IsIncomplete : Error → Type 0
IsIncomplete e = is_error e Sentinel.rollback_incomplete ≡ true

IsIncomplete-join : (e x : Error) → IsIncomplete e → IsIncomplete (join e x)
unfolding is_error
IsIncomplete-join e x h = rw h

module _ (start : Kind → Option Text) (w : World) (token key : Option Text) where
  -- The pair is as it was, or the error says that it may not be.
  abbrev pub Restored : Error → History → Type 0
  Restored e h = IsPair start token key h ⊎ IsIncomplete e

  abbrev pub Undone : Error → History → Type 0
  Undone e h = Restored e h ⊎ (release_failed h ≡ true)

  -- The deferred release, after a pair of credentials was settled.
  pub Triple-released :
      {A : Type 0} (Q : A → History → Type 0) (m : Tx A) (P : History → Type 0)
      → ((a : A) (h : History) → Q a h → Q a (record { call = release; error = none } ∷ h))
      → Triple P m Q Restored
      → Triple P (finally (released w) m) Q Undone
  unfolding may_hold
  Triple-released Q m P quiet tr =
      Triple-finally tr
        (λ a.
          Triple-map_error _ _
            (Triple-perform w release (λ h q _. quiet a h q) (λ h e q _. inr refl)))
        (λ e.
          Triple-map_error _ _ (Triple-perform w release (λ h r _. inl r) (λ h x r _. inr refl)))

  Triple-failed_removal :
      (Q : LogoutResult → History → Type 0)
      → Triple (λ _. Unit {0}) (failed_removal w (snapshot_of token) (snapshot_of key)) Q Restored
  unfolding failed_removal is_error Sentinel-discrete
  Triple-failed_removal Q =
      Triple-bind {Q = λ e h. Restored (removal_error w e) h}
        (Triple-weaken (Triple-attempt {F = Restored} (Triple-rollback start w token key))
          (λ h p. p) restored (λ _ h p. p))
        λ e. Triple-raise (removal_error w e) (λ h p. p)
    where
      restored :
          (e : Option Error) (h : History)
          → Attempted (λ (_ : Unit {0}). IsPair start token key) (λ _ _. Unit {0}) e h
          → Restored (removal_error w e) h
      restored none h p = inl p.1
      restored (some x) h p = inr (ground arith)

  Triple-or_restore :
      (P : History → Type 0) (Q : LogoutResult → History → Type 0) (next : Tx LogoutResult)
      (e : Option Error)
      → Triple P next Q Restored
      → Triple
          (Attempted (λ (_ : Unit {0}). P) (λ _ _. Unit {0}) e)
          (or_restore w (snapshot_of token) (snapshot_of key) e next)
          Q
          Restored
  Triple-or_restore P Q next none tr = Triple-weaken tr (λ h p. p.1) (λ _ h q. q) (λ _ h r. r)
  Triple-or_restore P Q next (some x) tr =
      Triple-weaken (Triple-failed_removal Q) (λ h p. tt) (λ _ h q. q) (λ _ h r. r)

  Triple-delete_token :
      Triple
        (IsPair start token key)
        (delete_if_present w access_token ((snapshot_of token).exists))
        (λ _. IsPair start none key)
        (λ _ _. Unit {0})
  unfolding delete_if_present may_hold Kind-discrete
  Triple-delete_token = by_token token
    where
      by_token :
          (t : Option Text)
          → Triple
              (IsPair start t key)
              (delete_if_present w access_token ((snapshot_of t).exists))
              (λ _. IsPair start none key)
              (λ _ _. Unit {0})
      by_token none = Triple-pure tt (λ h p. p)
      by_token (some v) =
          Triple-perform w (delete access_token) (λ h p _. (refl, p.1)) (λ h e p _. tt)

  Triple-delete_key :
      Triple
        (IsPair start none key)
        (delete_if_present w private_key ((snapshot_of key).exists))
        (λ _. IsPair start none none)
        (λ _ _. Unit {0})
  unfolding delete_if_present may_hold Kind-discrete
  Triple-delete_key = by_key key
    where
      by_key :
          (t : Option Text)
          → Triple
              (IsPair start none t)
              (delete_if_present w private_key ((snapshot_of t).exists))
              (λ _. IsPair start none none)
              (λ _ _. Unit {0})
      by_key none = Triple-pure tt (λ h p. p)
      by_key (some v) = Triple-perform w (delete private_key) (λ h p _. (p.0, refl)) (λ h e p _. tt)

  Triple-remove_pair :
      Triple
        (IsPair start token key)
        (remove_pair w (snapshot_of token) (snapshot_of key))
        (λ _. IsPair start none none)
        Restored
  unfolding remove_pair
  Triple-remove_pair = Triple-bind (Triple-attempt Triple-delete_token) λ e.
      Triple-or_restore (IsPair start none key) (λ _. IsPair start none none) _ e
        (Triple-bind (Triple-attempt Triple-delete_key) λ f.
          Triple-or_restore (IsPair start none none) (λ _. IsPair start none none) _ f
            (Triple-pure _ (λ h p. p)))

module _ (start : Kind → Option Text) (w : World) (honest : IsHonest start w)
    (token key : Option Text) where
  -- Both captures, whatever the services do with their errors.
  pub Triple-both :
      {B : Type 0} (Q : B → History → Type 0) (f : Error → Error)
      (next : Snapshot → Snapshot → Tx B)
      → Triple
          (IsPair start token key)
          (next (snapshot_of token) (snapshot_of key))
          Q
          (Restored start w token key)
      → Triple
          (IsPair start token key)
          (do
            a ← map_error f (capture w access_token)
            b ← map_error f (capture w private_key)
            next a b)
          Q
          (Restored start w token key)
  unfolding may_hold
  Triple-both Q f next tr =
      Triple-bind {Q = λ a h. IsPair start token key h × (a ≡ snapshot_of token)}
        (Triple-map_error f _ (
          Triple-weaken
            (Triple-capture start w honest (IsPair start token key) access_token token (λ h p. p.0)
              (λ h a p. p))
            (λ h p. p) (λ _ h p. p) (λ _ h p. inl p)))
        λ a. Triple-assume λ same.
          Triple-bind {Q = λ b h. IsPair start token key h × (b ≡ snapshot_of key)}
            (Triple-map_error f _ (
              Triple-weaken
                (Triple-capture start w honest (IsPair start token key) private_key key (λ h p. p.1)
                  (λ h a p. p))
                (λ h p. p) (λ _ h p. p) (λ _ h p. inl p)))
            λ b. Triple-assume λ same'. rw (same, same') tr

  Triple-logout_locked :
      Triple
        (IsPair start token key)
        (logout_locked w)
        (λ _. IsPair start none none)
        (Restored start w token key)
  unfolding logout_locked
  Triple-logout_locked = Triple-both (λ _. IsPair start none none) _ _ (by_pair token key)
    where
      by_pair :
          (t k : Option Text)
          → Triple
              (IsPair start t k)
              (if not ((snapshot_of t).exists) && not ((snapshot_of k).exists)
                then pure
                    (record { local_credentials_removed = false; remote_token_revoked = false })
                else remove_pair w (snapshot_of t) (snapshot_of k))
              (λ _. IsPair start none none)
              (Restored start w t k)
      by_pair none none = Triple-pure _ (λ h p. p)
      by_pair none (some y) = Triple-remove_pair start w none (some y)
      by_pair (some x) none = Triple-remove_pair start w (some x) none
      by_pair (some x) (some y) = Triple-remove_pair start w (some x) (some y)

  Triple-acquire :
      Triple
        (IsPair start token key)
        (acquire w)
        (λ _. IsPair start token key)
        (Undone start w token key)
  unfolding acquire may_hold
  Triple-acquire =
      Triple-bind {Q = λ _. IsPair start token key}
        (Triple-lift _ (reject_if-ne-panic _ _) (λ _ h _ p. p) (λ _ h _ p. inl (inl p)))
        λ _. Triple-map_error _ _ (Triple-perform w lock (λ h p _. p) (λ h e p _. inl (inl p)))

  -- What `LogoutLocal` ensures from a store that holds this pair.
  pub Triple-logout_local :
      Triple
        (IsPair start token key)
        (logout_local w)
        (λ _. IsPair start none none)
        (Undone start w token key)
  unfolding logout_local may_hold
  Triple-logout_local = Triple-bind Triple-acquire λ _.
      Triple-released start w token key (λ _. IsPair start none none) _ _ (λ _ h p. p)
        Triple-logout_locked

  -- From a store that holds this pair and answers honestly, `LogoutLocal` that returns no error leaves
  -- nothing stored under either kind.
  pub logout_local-IsPair :
      (h : History) (r : LogoutResult)
      → IsPair start token key h
      → (logout_local w h).0 ≡ ok r
      → IsPair start none none (logout_local w h).1
  logout_local-IsPair h r p done =
      Post-ok (λ _. IsPair start none none) (Undone start w token key) _ _ r
        (Triple-logout_local.at h p) done

  -- From a store that holds this pair and answers honestly, `LogoutLocal` that returns an error leaves
  -- the pair as it was, or its error is `ErrRollbackIncomplete`, or the last call was a release of the
  -- lock that failed.
  pub logout_local-Undone :
      (h : History) (e : Error)
      → IsPair start token key h
      → (logout_local w h).0 ≡ err e
      → (IsPair start token key (logout_local w h).1 ⊎ IsIncomplete e)
        ⊎ (release_failed (logout_local w h).1 ≡ true)
  logout_local-Undone h e p failed =
      Post-err (λ _. IsPair start none none) (Undone start w token key) _ _ e
        (Triple-logout_local.at h p) failed
