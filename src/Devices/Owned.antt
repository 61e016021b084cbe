-- ===== src/Devices/Owned.antt =====
-- The runtimes of internal/wgbackend/backend.go: which are open, and which session owns them.
use nordmac.Base.{
  ℕ, Bool, true, false, ◌||◌, Option, none, some, some-injective, [], ◌∷◌, Text, ◌==◌, nat_eq,
  text_eq, length, panic, Error, if◌then◌else◌, ◌≡◌, ◌≢◌, refl, subst, Bool-cases, inl, inr, arith,
  String,
}
use nordmac.Base.Actions.{pure, lift, within, attempt}
use nordmac.Base.Triples.{
  Triple, Post, Attempted, Triple-pure, Triple-raise, Triple-lift, Triple-bind, Triple-weaken,
  Triple-map_error, Triple-attempt, Triple-modify,
}
use nordmac.Tunnel.Types.{DeviceSpec, DeviceHandle}
use nordmac.Tunnel.Plan.{validate_handle}
use nordmac.Tunnel.Panics.{validate_handle-ne-panic, no_panic}
use nordmac.Helper.Protocol.{DeviceSecrets, validate_secrets}
use nordmac.Devices.Secrets.{validate_spec, verify_peer_fingerprint}
use nordmac.Devices.Manager.{
  Call, create_runtime, configure, apply_address, up, close_runtime, History, World, Owned,
  Sessions, Manager, lookup, delete_key, Tx, result_of, logged, do_call, bring_up, address_of,
  or_close, handle_of, keep,
}

abbrev pub opened_after : ℕ → ℕ → Call → Option Error → Bool → Bool
opened_after n size (create_runtime m) none b = size == n || b
opened_after n size (close_runtime m) none b = if m == n then false else b
opened_after n size c e b = b

-- Whether the runtime was created and not closed since.
unfoldable pub is_open : ℕ → History → Bool
is_open n [] = false
is_open n (e ∷ h) = opened_after n (length h) e.call e.error (is_open n h)

abbrev pub failed_after : ℕ → Call → Option Error → Bool → Bool
failed_after n (close_runtime m) (some e) b = m == n || b
failed_after n c e b = b

-- Whether the runtime refused to be closed.
unfoldable pub close_failed : ℕ → History → Bool
close_failed n [] = false
close_failed n (e ∷ h) = failed_after n e.call e.error (close_failed n h)

-- Whether some session owns the runtime.
unfoldable pub has_runtime : ℕ → Sessions → Bool
has_runtime n [] = false
has_runtime n ((k, o) ∷ xs) = o.runtime == n || has_runtime n xs

-- Every open runtime is owned by a session, or refused to be closed.
abbrev pub IsTracked : Manager → Type 0
IsTracked s =
    (n : ℕ)
    → is_open n s.history ≡ true
    → has_runtime n s.sessions || close_failed n s.history ≡ true

-- Every other than this one.
abbrev pub IsTrackedBut : ℕ → Manager → Type 0
IsTrackedBut k s =
    (n : ℕ)
    → is_open n s.history ≡ true
    → k == n || (has_runtime n s.sessions || close_failed n s.history) ≡ true

pub has_runtime-delete_key :
    (n : ℕ) (id : Text) (xs : Sessions) (o : Owned)
    → lookup id xs ≡ some o
    → has_runtime n xs ≡ true
    → o.runtime == n || has_runtime n (delete_key id xs) ≡ true
unfolding lookup has_runtime delete_key
has_runtime-delete_key n id [] o found h = ground (arith, h)
has_runtime-delete_key n id ((k, p) ∷ xs) o found h = elim (Bool-cases (k == id)) [
  | inl here ↦ rw here (
      subst (λ q. q.runtime == n || has_runtime n xs ≡ true)
        (some-injective p o (ground (arith, found, here))) h)
  | inr there ↦ rw there (
      let rest = has_runtime-delete_key n id xs o (ground (arith, found, there)) in
      ground (arith, h, rest))
]

pub validate_spec-ne-panic : (spec : DeviceSpec) → validate_spec spec ≢ panic
unfolding validate_spec
validate_spec-ne-panic spec = search no_panic

validate_secrets-ne-panic : (s : Option DeviceSecrets) → validate_secrets s ≢ panic
unfolding validate_secrets
validate_secrets-ne-panic none = search no_panic
validate_secrets-ne-panic (some s) = search no_panic

pub verify_peer_fingerprint-ne-panic :
    (digest : Text → Text) (want : Text) (s : DeviceSecrets)
    → verify_peer_fingerprint digest want s ≢ panic
unfolding verify_peer_fingerprint
verify_peer_fingerprint-ne-panic digest want s = search (no_panic, validate_secrets-ne-panic)

module _ (w : World) where
  pub Triple-do_call :
      {P Q : Manager → Type 0} {E : Error → Manager → Type 0} (call : Call)
      → ((s : Manager) → P s → w.fails s.history call ≡ none → Q (logged call none s))
      → ((s : Manager) (e : Error)
          → P s
          → w.fails s.history call ≡ some e
          → E e (logged call (some e) s))
      → Triple P (do_call w call) (λ _. Q) E
  unfolding do_call
  Triple-do_call {P} {Q} {E} call q e = record { at = λ s p. go s p (w.fails s.history call) refl }
    where
      go :
          (s : Manager)
          → P s
          → (a : Option Error) → w.fails s.history call ≡ a
          → Post (λ (_ : Unit {0}). Q) E (result_of a) (logged call a s)
      go s p none eq = q s p eq
      go s p (some x) eq = e s x p eq

  -- The runtime is closed, or refuses.
  pub Triple-close :
      (k : ℕ)
      → Triple
          (IsTrackedBut k)
          (attempt (do_call w (close_runtime k)))
          (λ _. IsTracked)
          (λ _. IsTracked)
  unfolding is_open close_failed
  Triple-close k =
      Triple-weaken
        (Triple-attempt {F = λ _. IsTracked} (
          Triple-do_call {Q = IsTracked} {E = λ _. IsTracked} (close_runtime k)
            (λ s p _ n o. elim (Bool-cases (k == n)) [
              | inl same ↦ absurd (ground (arith, o, same))
              | inr other ↦ ground (arith, p n (ground (arith, o, other)), other)
            ])
            (λ s e p _ n o. ground (arith, p n o))))
        (λ s p. p) (λ e s p. both e s p) (λ _ s p. p)
    where
      both :
          (e : Option Error) (s : Manager)
          → Attempted (λ (_ : Unit {0}). IsTracked) (λ _. IsTracked) e s
          → IsTracked s
      both none s p = p.1
      both (some x) s p = p

  -- A call that neither creates nor closes a runtime.
  IsQuiet : Call → Type 0
  IsQuiet c =
      (n size : ℕ) (e : Option Error) (b : Bool)
      → (opened_after n size c e b ≡ b) × (failed_after n c e b ≡ b)

  Triple-quiet :
      (k : ℕ) (m : String) (c : Call)
      → IsQuiet c
      → Triple (IsTrackedBut k) (within m (do_call w c)) (λ _. IsTrackedBut k) (λ _. IsTrackedBut k)
  unfolding is_open close_failed IsQuiet
  Triple-quiet k m c quiet = Triple-map_error _ _ (
      Triple-do_call {Q = IsTrackedBut k} {E = λ _. IsTrackedBut k} c (λ s p _. kept none s p)
        (λ s e p _. kept (some e) s p))
    where
      kept : (e : Option Error) (s : Manager) → IsTrackedBut k s → IsTrackedBut k (logged c e s)
      kept e s p n =
          rw
            (
              (quiet n (length s.history) e (is_open n s.history)).0,
              (quiet n (length s.history) e (close_failed n s.history)).1,
            )
            (p n)

  Triple-bring_up :
      (n : ℕ) (spec : DeviceSpec)
      → Triple (IsTrackedBut n) (bring_up w n spec) (λ _. IsTrackedBut n) (λ _. IsTrackedBut n)
  unfolding bring_up IsQuiet
  Triple-bring_up n spec =
      Triple-bind (Triple-quiet n _ (configure n spec) (λ m size e b. (refl, refl))) λ _.
        Triple-bind (Triple-quiet n _ (up n) (λ m size e b. (refl, refl)))
          λ _. addressed w.has_addresses
    where
      addressed :
          (b : Bool)
          → Triple
              (IsTrackedBut n)
              (if b
                then within "configure userspace WireGuard address"
                    (do_call w (apply_address n (address_of w n spec)))
                else pure tt)
              (λ _. IsTrackedBut n)
              (λ _. IsTrackedBut n)
      addressed true =
          Triple-quiet n _ (apply_address n (address_of w n spec)) (λ m size e b. (refl, refl))
      addressed false = Triple-pure tt (λ s p. p)

  -- What follows a step that failed or not: the runtime is closed, or kept.
  Triple-or_close :
      (n : ℕ) (e : Option Error) (next : Tx DeviceHandle)
      → Triple (IsTrackedBut n) next (λ _. IsTracked) (λ _. IsTracked)
      → Triple
          (Attempted (λ (_ : Unit {0}). IsTrackedBut n) (λ _. IsTrackedBut n) e)
          (or_close w n e next)
          (λ _. IsTracked)
          (λ _. IsTracked)
  Triple-or_close n none next tr = Triple-weaken tr (λ s p. p.1) (λ _ s p. p) (λ _ s p. p)
  Triple-or_close n (some e) next tr = Triple-bind (Triple-close n) λ _. Triple-raise e (λ s p. p)

  pub Triple-keep :
      (n : ℕ) (spec : DeviceSpec)
      → Triple (IsTrackedBut n) (keep w n spec) (λ _. IsTracked) (λ _. IsTracked)
  unfolding keep has_runtime
  Triple-keep n spec =
      Triple-bind (Triple-attempt {F = λ _. IsTracked} (Triple-bring_up n spec)) λ e.
        Triple-or_close n e _ (
          Triple-bind (Triple-attempt {F = λ _. IsTracked} checked) λ f. Triple-or_close n f _ (
            Triple-bind {Q = λ _. IsTracked} (Triple-modify _ (λ s p m o. ground (arith, p m o)))
              λ _. Triple-pure (handle_of w n) (λ s p. p)))
    where
      checked :
          Triple
            (IsTrackedBut n)
            (within "invalid userspace WireGuard handle" (lift (validate_handle (handle_of w n))))
            (λ _. IsTrackedBut n)
            (λ _. IsTrackedBut n)
      checked =
          Triple-map_error _ _
            (Triple-lift _ (validate_handle-ne-panic _) (λ _ s _ p. p) (λ _ s _ p. p))
