-- ===== src/Devices/Once.antt =====
-- The one-shot secrets of internal/wgbackend/secrets.go and the runtimes that are made with them.
use nordmac.Base.{
  sentinel, Sentinel, Bool, true, false, Option, none, some, List, [], ◌∷◌, Text, nat_eq, text_eq,
  Outcome, panic, Error, reject_if-ne-panic, if◌then◌else◌, ◌≡◌, ◌≢◌, refl, arith,
}
use nordmac.Base.Actions.{raise, lift, modify, within, ◌>>=◌, ◌>>◌}
use nordmac.Base.Triples.{
  Triple, Post, Post-always, Triple-pure, Triple-raise, Triple-gets, Triple-lift, Triple-bind,
  Triple-map_error, Triple-modify,
}
use nordmac.Tunnel.Types.{DeviceSpec, DeviceHandle}
use nordmac.Devices.Manager.{
  Tx, create_runtime, close_runtime, World, Owned, Manager, delete_key, is_some, result_of, do_call,
  check_context, take_secrets, start, keep, create, differs, delete_found, delete_owned,
}
use nordmac.Devices.Manager.{delete_found, snapshot_found, snapshot, snapshot_runtime}
use nordmac.Devices.Owned.{Triple-do_call, validate_spec-ne-panic, verify_peer_fingerprint-ne-panic}
use nordmac.Tunnel.Panics.{validate_handle-ne-panic}
use nordmac.Base.{ℕ, ◌≤◌, suc, ok, reject_if, reject_if-pass, String, subst}
use nordmac.Base.Actions.{attempt, pure}
use nordmac.Devices.Secrets.{OneShot, is_refused}
use nordmac.Base.Triples.{Attempted, Triple-weaken, Triple-attempt}
use nordmac.Devices.Manager.{
  Call, History, Tx, configure, apply_address, up, bring_up, address_of, or_close, handle_of,
  logged, snapshot,
}
use nordmac.Devices.Runs.{Operation, create_device, delete_device, ask_snapshot, after, run}

abbrev pub created_after : Call → Option Error → ℕ → ℕ
created_after (create_runtime m) e n = suc n
created_after c e n = n

-- How often a runtime was asked for.
unfoldable pub created : History → ℕ
created [] = 0
created (e ∷ h) = created_after e.call e.error (created h)

-- At most one was, and none before the secrets were lent.
abbrev pub IsOnce : Manager → Type 0
IsOnce s = (created s.history ≤ 1) × (s.source.consumed ≡ false → created s.history ≡ 0)

-- The secrets are lent, and no runtime was asked for.
abbrev IsLent : Manager → Type 0
IsLent s = (s.source.consumed ≡ true) × (created s.history ≡ 0)

module _ (w : World) where
  Triple-kept :
      {A : Type 0} (R : Manager → Type 0) (o : Outcome A)
      → o ≢ panic
      → Triple R (lift o) (λ _. R) (λ _. R)
  Triple-kept R o n = Triple-lift o n (λ _ s _ p. p) (λ _ s _ p. p)

  Triple-call :
      (P R : Manager → Type 0) (c : Call)
      → ((s : Manager) (e : Option Error) → P s → R (logged c e s))
      → Triple P (do_call w c) (λ _. R) (λ _. R)
  Triple-call P R c q = Triple-do_call w c (λ s p _. q s none p) (λ s e p _. q s (some e) p)

  Triple-caught :
      {A : Type 0} (m : Tx A)
      → Triple IsOnce m (λ _. IsOnce) (λ _. IsOnce)
      → Triple IsOnce (attempt m) (λ _. IsOnce) (λ _. IsOnce)
  Triple-caught {A} m t =
      Triple-weaken (Triple-attempt {F = λ _. IsOnce} t) (λ s p. p) ended (λ _ s p. p)
    where
      ended :
          (e : Option Error) (s : Manager)
          → Attempted (λ (_ : A). IsOnce) (λ _. IsOnce) e s
          → IsOnce s
      ended none s p = p.1
      ended (some x) s p = p

  Triple-take_secrets : (id : Text) → Triple IsOnce (take_secrets w id) (λ _. IsLent) (λ _. IsOnce)
  unfolding take_secrets check_context
  Triple-take_secrets id =
      Triple-bind {Q = λ _. IsOnce} (record { at = λ s p. asked (w.cancelled s.history) s p })
        λ _.
          Triple-bind {Q = λ o s. IsOnce s × (o ≡ s.source)} (Triple-gets _ (λ s p. (p, refl))) λ o.
            Triple-bind {Q = λ _ s. IsOnce s × (s.source.consumed ≡ false)}
              (Triple-lift _ (reject_if-ne-panic _ _) (λ _ s fine p. (p.0, unspent s o p.1 fine))
                (λ _ s _ p. p.0))
              λ _. Triple-modify _ (λ s p. (refl, p.0.1 p.1))
    where
      asked :
          (e : Option Error) (s : Manager)
          → IsOnce s
          → Post (λ (_ : Unit {0}). IsOnce) (λ _. IsOnce) (result_of e) s
      asked none s p = p
      asked (some e) s p = p

      free :
          (o : OneShot)
          → reject_if (is_refused o id) "WireGuard secrets unavailable for session" ≡ ok tt
          → o.consumed ≡ false
      free o fine =
          let refused =
            reject_if-pass (is_refused o id) "WireGuard secrets unavailable for session" fine in
          ground (arith, refused)

      unspent :
          (s : Manager) (o : OneShot)
          → o ≡ s.source
          → reject_if (is_refused o id) "WireGuard secrets unavailable for session" ≡ ok tt
          → s.source.consumed ≡ false
      unspent s o same fine = subst (λ x. x.consumed ≡ false) same (free o fine)

  Triple-start : (spec : DeviceSpec) → Triple IsLent (start w spec) (λ _. IsOnce) (λ _. IsOnce)
  unfolding start created
  Triple-start spec =
      Triple-weaken {E' = λ _. IsOnce}
        (Triple-bind {Q = λ _. IsLent} (Triple-gets _ (λ s p. p)) λ source.
          Triple-bind {Q = λ _. IsLent}
            (Triple-lift _ (verify_peer_fingerprint-ne-panic _ _ _) (λ _ s _ p. p)
              (λ _ s _ p. lent s p))
            λ _. Triple-bind {Q = λ _. IsLent} (Triple-gets _ (λ s p. p)) λ n.
              Triple-bind {Q = λ _. IsOnce}
                (Triple-map_error _ _ (
                  Triple-call IsLent IsOnce (create_runtime spec.mtu)
                    (λ s e p. (ground (arith, p.1), λ h. absurd (ground (arith, p.0, h))))))
                λ _. Triple-pure n (λ s p. p))
        (λ s p. p) (λ _ s p. p) (λ _ s p. p)
    where
      lent : (s : Manager) → IsLent s → IsOnce s
      lent s p = (ground (arith, p.1), λ h. p.1)

  Triple-quiet :
      (m : String) (c : Call)
      → ((n : ℕ) (e : Option Error) → created_after c e n ≡ n)
      → Triple IsOnce (within m (do_call w c)) (λ _. IsOnce) (λ _. IsOnce)
  unfolding created
  Triple-quiet m c q =
      Triple-map_error _ _ (Triple-call IsOnce IsOnce c (λ s e p. rw (q (created s.history) e) p))

  Triple-bring_up :
      (n : ℕ) (spec : DeviceSpec) → Triple IsOnce (bring_up w n spec) (λ _. IsOnce) (λ _. IsOnce)
  unfolding bring_up
  Triple-bring_up n spec =
      Triple-bind (Triple-quiet _ (configure n spec) (λ k e. refl))
        λ _. Triple-bind (Triple-quiet _ (up n) (λ k e. refl)) λ _. addressed w.has_addresses
    where
      addressed :
          (b : Bool)
          → Triple IsOnce
              (if b
                then within "configure userspace WireGuard address"
                    (do_call w (apply_address n (address_of w n spec)))
                else pure tt)
              (λ _. IsOnce)
              (λ _. IsOnce)
      addressed true = Triple-quiet _ (apply_address n (address_of w n spec)) (λ k e. refl)
      addressed false = Triple-pure tt (λ s p. p)

  Triple-or_close :
      (n : ℕ) (e : Option Error) (next : Tx DeviceHandle)
      → Triple IsOnce next (λ _. IsOnce) (λ _. IsOnce)
      → Triple IsOnce (or_close w n e next) (λ _. IsOnce) (λ _. IsOnce)
  unfolding created
  Triple-or_close n none next t = t
  Triple-or_close n (some e) next t =
      Triple-bind
        (Triple-caught (do_call w (close_runtime n))
          (Triple-call IsOnce IsOnce (close_runtime n) (λ s e p. p)))
        λ _. Triple-raise e (λ s p. p)

  Triple-keep :
      (n : ℕ) (spec : DeviceSpec) → Triple IsOnce (keep w n spec) (λ _. IsOnce) (λ _. IsOnce)
  unfolding keep
  Triple-keep n spec = Triple-bind (Triple-caught _ (Triple-bring_up n spec)) λ e.
      Triple-or_close n e _ (
        Triple-bind
          (Triple-caught _ (
            Triple-map_error _ _ (Triple-kept IsOnce _ (validate_handle-ne-panic (handle_of w n)))))
          λ f. Triple-or_close n f _ (
            Triple-bind {Q = λ _. IsOnce} (Triple-modify _ (λ s p. p))
              λ _. Triple-pure (handle_of w n) (λ s p. p)))

  Triple-create : (spec : DeviceSpec) → Triple IsOnce (create w spec) (λ _. IsOnce) (λ _. IsOnce)
  unfolding create
  Triple-create spec = Triple-bind (Triple-kept IsOnce _ (validate_spec-ne-panic spec)) λ _.
      Triple-bind (Triple-kept IsOnce _ (reject_if-ne-panic _ _)) λ _.
        Triple-bind (Triple-kept IsOnce _ (reject_if-ne-panic _ _)) λ _.
          Triple-bind (Triple-kept IsOnce _ (reject_if-ne-panic _ _)) λ _.
            Triple-bind {Q = λ _. IsOnce} (Triple-gets _ (λ s p. p))
              λ owned. by_owner (is_some owned)
    where
      by_owner :
          (b : Bool)
          → Triple IsOnce
              (if b
                then raise (sentinel Sentinel.session_exists)
                else (do take_secrets w spec.session_id; n ← start w spec; keep w n spec))
              (λ _. IsOnce)
              (λ _. IsOnce)
      by_owner true = Triple-raise _ (λ s p. p)
      by_owner false =
          Triple-bind (Triple-take_secrets spec.session_id)
            λ _. Triple-bind (Triple-start spec) λ n. Triple-keep n spec

  Triple-delete_found :
      (id : Text) (handle : Option DeviceHandle) (owned : Option Owned)
      → Triple IsOnce (delete_found w id handle owned) (λ _. IsOnce) (λ _. IsOnce)
  unfolding created
  Triple-delete_found id handle none = Triple-pure tt (λ s p. p)
  Triple-delete_found id handle (some o) = by_handle (differs w handle o.handle)
    where
      by_handle :
          (b : Bool)
          → Triple IsOnce
              (if b then raise (sentinel Sentinel.ownership_mismatch) else (do
                within "close userspace WireGuard runtime" (do_call w (close_runtime o.runtime))
                modify (λ s. record s { sessions = delete_key id s.sessions })))
              (λ _. IsOnce)
              (λ _. IsOnce)
      by_handle true = Triple-raise _ (λ s p. p)
      by_handle false =
          Triple-bind (Triple-quiet _ (close_runtime o.runtime) (λ k e. refl))
            λ _. Triple-modify _ (λ s p. p)

  Triple-snapshot : (id : Text) → Triple IsOnce (snapshot w id) (λ _. IsOnce) (λ _. IsOnce)
  unfolding snapshot created
  Triple-snapshot id = Triple-bind {Q = λ _. IsOnce} (Triple-gets _ (λ s p. p)) found
    where
      found : (o : Option Owned) → Triple IsOnce (snapshot_found w o) (λ _. IsOnce) (λ _. IsOnce)
      found none = Triple-raise _ (λ s p. p)
      found (some o) = Triple-bind {Q = λ _. IsOnce} (Triple-gets _ (λ s p. p)) λ v.
          Triple-bind (Triple-call IsOnce IsOnce (snapshot_runtime o.runtime) (λ s e p. p))
            λ _. Triple-pure v (λ s p. p)

  ends :
      {A : Type 0} (m : Tx A) (s : Manager)
      → Triple IsOnce m (λ _. IsOnce) (λ _. IsOnce)
      → IsOnce s
      → IsOnce (m s).1
  ends m s t p =
      Post-always (λ _. IsOnce) (λ _. IsOnce) IsOnce (m s).0 (m s).1 (λ _ q. q) (λ _ q. q)
        (t.at s p)

  after-IsOnce : (o : Operation) (s : Manager) → IsOnce s → IsOnce (after w o s)
  unfolding delete_owned
  after-IsOnce (create_device spec) s p = ends (create w spec) s (Triple-create spec) p
  after-IsOnce (ask_snapshot id) s p = ends (snapshot w id) s (Triple-snapshot id) p
  after-IsOnce (delete_device id handle) s p =
      ends (delete_owned w id handle) s
        (Triple-bind (Triple-kept IsOnce _ (reject_if-ne-panic _ _)) λ _.
          Triple-bind {Q = λ _. IsOnce} (Triple-gets _ (λ s p. p))
            λ owned. Triple-delete_found id handle owned)
        p

  -- The secrets of a session are lent once: after any sequence of `Create`, `DeleteOwned` and `Snapshot`, at
  -- most one runtime was asked for, and none while the secrets are not consumed.
  pub run-IsOnce : (os : List Operation) (s : Manager) → IsOnce s → IsOnce (run w os s)
  unfolding run
  run-IsOnce [] s p = p
  run-IsOnce (o ∷ os) s p = run-IsOnce os (after w o s) (after-IsOnce o s p)
