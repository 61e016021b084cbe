-- ===== src/Devices/Runs.antt =====
-- What a manager's operations do with its runtimes (internal/wgbackend/backend.go).
use nordmac.Base.{
  sentinel, Sentinel, Bool, true, false, Option, none, some, List, [], ◌∷◌, Text, ◌==◌, nat_eq,
  text_eq, length, Outcome, panic, Error, reject_if-ne-panic, if◌then◌else◌, ◌≡◌, ◌≢◌, refl,
  Bool-cases, inl, inr, arith,
}
use nordmac.Base.Actions.{raise, lift, modify, within, ◌>>=◌, ◌>>◌}
use nordmac.Base.Triples.{
  Triple, Post, Post-always, Triple-pure, Triple-raise, Triple-gets, Triple-lift, Triple-bind,
  Triple-map_error, Triple-modify,
}
use nordmac.Tunnel.Types.{DeviceSpec, DeviceHandle}
use nordmac.Devices.Manager.{
  Tx, create_runtime, close_runtime, World, Owned, Manager, lookup, delete_key, is_some, result_of,
  do_call, check_context, take_secrets, start, keep, create, differs, delete_found, delete_owned,
}
use nordmac.Devices.Manager.{delete_found, snapshot_found, snapshot, snapshot_runtime}
use nordmac.Devices.Owned.{
  is_open, close_failed, has_runtime, IsTracked, IsTrackedBut, has_runtime-delete_key,
  Triple-do_call, Triple-keep, validate_spec-ne-panic, verify_peer_fingerprint-ne-panic,
}

-- What a client asks of a manager.
pub data Operation : Type 0 where
  create_device : DeviceSpec → Operation
  delete_device : Text → Option DeviceHandle → Operation
  ask_snapshot : Text → Operation

module _ (w : World) where
  -- What changes neither the runtimes nor the sessions.
  Triple-checked :
      {A : Type 0} (k : Outcome A)
      → k ≢ panic
      → Triple IsTracked (lift k) (λ _. IsTracked) (λ _. IsTracked)
  Triple-checked k n = Triple-lift k n (λ _ s _ p. p) (λ _ s _ p. p)

  Triple-take_secrets :
      (id : Text) → Triple IsTracked (take_secrets w id) (λ _. IsTracked) (λ _. IsTracked)
  unfolding take_secrets check_context
  Triple-take_secrets id =
      Triple-bind (record { at = λ s p. asked (w.cancelled s.history) s p })
        λ _. Triple-bind {Q = λ _. IsTracked} (Triple-gets _ (λ s p. p)) λ _.
          Triple-bind (Triple-checked _ (reject_if-ne-panic _ _)) λ _. Triple-modify _ (λ s p. p)
    where
      asked :
          (e : Option Error) (s : Manager)
          → IsTracked s
          → Post (λ (_ : Unit {0}). IsTracked) (λ _. IsTracked) (result_of e) s
      asked none s p = p
      asked (some e) s p = p

  Triple-start : (spec : DeviceSpec) → Triple IsTracked (start w spec) IsTrackedBut (λ _. IsTracked)
  unfolding start is_open close_failed
  Triple-start spec = Triple-bind {Q = λ _. IsTracked} (Triple-gets _ (λ s p. p)) λ source.
      Triple-bind (Triple-checked _ (verify_peer_fingerprint-ne-panic _ _ _)) λ _.
        Triple-bind {Q = λ n s. IsTracked s × (n ≡ length s.history)}
          (Triple-gets _ (λ s p. (p, refl)))
          λ n.
            Triple-bind {Q = λ _. IsTrackedBut n}
              (Triple-map_error _ _ (
                Triple-do_call w (create_runtime spec.mtu)
                  (λ s p _ m o. ground (arith, p.0 m, p.1, o)) (λ s e p _. p.0)))
              λ _. Triple-pure n (λ s p. p)

  Triple-create :
      (spec : DeviceSpec) → Triple IsTracked (create w spec) (λ _. IsTracked) (λ _. IsTracked)
  unfolding create
  Triple-create spec = Triple-bind (Triple-checked _ (validate_spec-ne-panic spec)) λ _.
      Triple-bind (Triple-checked _ (reject_if-ne-panic _ _)) λ _.
        Triple-bind (Triple-checked _ (reject_if-ne-panic _ _)) λ _.
          Triple-bind (Triple-checked _ (reject_if-ne-panic _ _)) λ _.
            Triple-bind {Q = λ _. IsTracked} (Triple-gets _ (λ s p. p))
              λ owned. by_owner (is_some owned)
    where
      by_owner :
          (b : Bool)
          → Triple IsTracked
              (if b
                then raise (sentinel Sentinel.session_exists)
                else (do take_secrets w spec.session_id; n ← start w spec; keep w n spec))
              (λ _. IsTracked)
              (λ _. IsTracked)
      by_owner true = Triple-raise _ (λ s p. p)
      by_owner false =
          Triple-bind (Triple-take_secrets spec.session_id)
            λ _. Triple-bind (Triple-start spec) λ n. Triple-keep w n spec

  Triple-delete_found :
      (id : Text) (handle : Option DeviceHandle) (owned : Option Owned)
      → Triple
          (λ s. IsTracked s × (lookup id s.sessions ≡ owned))
          (delete_found w id handle owned)
          (λ _. IsTracked)
          (λ _. IsTracked)
  unfolding is_open close_failed
  Triple-delete_found id handle none = Triple-pure tt (λ s p. p.0)
  Triple-delete_found id handle (some o) = by_handle (differs w handle o.handle)
    where
      Closed : Manager → Type 0
      Closed s = IsTracked (record s { sessions = delete_key id s.sessions })

      by_handle :
          (b : Bool)
          → Triple
              (λ s. IsTracked s × (lookup id s.sessions ≡ some o))
              (if b then raise (sentinel Sentinel.ownership_mismatch) else (do
                within "close userspace WireGuard runtime" (do_call w (close_runtime o.runtime))
                modify (λ s. record s { sessions = delete_key id s.sessions })))
              (λ _. IsTracked)
              (λ _. IsTracked)
      by_handle true = Triple-raise _ (λ s p. p.0)
      by_handle false =
          Triple-bind {Q = λ _. Closed}
            (Triple-map_error _ _ (
              Triple-do_call w (close_runtime o.runtime)
                (λ s p _ n open'. elim (Bool-cases (o.runtime == n)) [
                  | inl same ↦ absurd (ground (arith, open', same))
                  | inr other ↦
                      let lost = has_runtime-delete_key n id s.sessions o p.1 in
                      elim (Bool-cases (has_runtime n s.sessions)) [
                        | inl had ↦ ground (arith, lost had, other, p.0 n)
                        | inr none' ↦
                            ground (arith, none', other, p.0 n (ground (arith, open', other)))
                      ]
                ])
                (λ s e p _ n open'. ground (arith, p.0 n open'))))
            λ _. Triple-modify _ (λ s p. p)

  -- The state an operation leaves, whatever it returns.
  abbrev pub after : Operation → Manager → Manager
  after (create_device spec) s = (create w spec s).1
  after (delete_device id handle) s = (delete_owned w id handle s).1
  after (ask_snapshot id) s = (snapshot w id s).1

  unfoldable pub run : List Operation → Manager → Manager
  run [] s = s
  run (o ∷ os) s = run os (after o s)

  Triple-delete_owned :
      (id : Text) (handle : Option DeviceHandle)
      → Triple IsTracked (delete_owned w id handle) (λ _. IsTracked) (λ _. IsTracked)
  unfolding delete_owned
  Triple-delete_owned id handle = Triple-bind (Triple-checked _ (reject_if-ne-panic _ _)) λ _.
      Triple-bind {Q = λ o s. IsTracked s × (lookup id s.sessions ≡ o)}
        (Triple-gets _ (λ s p. (p, refl))) λ owned. Triple-delete_found id handle owned

  Triple-snapshot : (id : Text) → Triple IsTracked (snapshot w id) (λ _. IsTracked) (λ _. IsTracked)
  unfolding snapshot is_open close_failed
  Triple-snapshot id = Triple-bind {Q = λ _. IsTracked} (Triple-gets _ (λ s p. p)) found
    where
      found :
          (o : Option Owned)
          → Triple IsTracked (snapshot_found w o) (λ _. IsTracked) (λ _. IsTracked)
      found none = Triple-raise _ (λ s p. p)
      found (some o) = Triple-bind {Q = λ _. IsTracked} (Triple-gets _ (λ s p. p)) λ v.
          Triple-bind {Q = λ _. IsTracked}
            (Triple-do_call w (snapshot_runtime o.runtime) (λ s p _. p) (λ s e p _. p))
            λ _. Triple-pure v (λ s p. p)

  ends-IsTracked :
      {A : Type 0} (m : Tx A) (s : Manager)
      → Triple IsTracked m (λ _. IsTracked) (λ _. IsTracked)
      → IsTracked s
      → IsTracked (m s).1
  ends-IsTracked m s tr p =
      Post-always (λ _. IsTracked) (λ _. IsTracked) IsTracked (m s).0 (m s).1 (λ _ q. q) (λ _ q. q)
        (tr.at s p)

  after-IsTracked : (o : Operation) (s : Manager) → IsTracked s → IsTracked (after o s)
  after-IsTracked (create_device spec) s p = ends-IsTracked (create w spec) s (Triple-create spec) p
  after-IsTracked (delete_device id handle) s p =
      ends-IsTracked (delete_owned w id handle) s (Triple-delete_owned id handle) p
  after-IsTracked (ask_snapshot id) s p = ends-IsTracked (snapshot w id) s (Triple-snapshot id) p

  -- From a manager whose open runtimes are each owned by a session or refused to be closed, after any sequence of `Create`,
  -- `DeleteOwned` and `Snapshot` over runtimes that may refuse any call, every runtime that is still open
  -- is owned by a session or refused to be closed: a failed creation leaves no runtime behind.
  pub run-IsTracked : (os : List Operation) (s : Manager) → IsTracked s → IsTracked (run os s)
  unfolding run
  run-IsTracked [] s p = p
  run-IsTracked (o ∷ os) s p = run-IsTracked os (after o s) (after-IsTracked o s p)
