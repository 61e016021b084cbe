-- ===== src/Daemon/Settled.antt =====
-- What the helper leaves when it ends (internal/helperdaemon/daemon.go).
use nordmac.Base.{
  ℕ, Bool, true, false, Option, none, some, [], ◌∷◌, Text, ℤ, Error, Outcome, ok, err, panic, Check,
  reject_if-ne-panic, >>-ne-panic, ◌≡◌, ◌≢◌, refl, arith, nat_eq,
}
use nordmac.Base.Actions.{pure, lift, attempt, finally}
use nordmac.Base.Triples.{
  Triple, Post, Attempted, Triple-pure, Triple-raise, Triple-gets, Triple-lift, Triple-bind,
  Triple-weaken, Triple-map_error, Triple-attempt, Triple-finally,
}
use nordmac.Base.Calls.{Triple-perform}
use nordmac.Base.Calm.{Any, Calm}
use nordmac.Helper.Protocol.{Request, Response, DeviceSecrets}
use nordmac.Devices.Secrets.{OneShot, valid_source, new_one_shot}
use nordmac.Helper.Reads.{validate_secrets-ne-panic}
use nordmac.Daemon.World.{
  Place, state_root, runtime_root, Call, connect_tunnel, disconnect_tunnel, mkdir, lstat, listen,
  write_response, close_listener, History, World, Tx, do_call,
}
use nordmac.Daemon.Files.{
  ensure_root_directory, prepare_state_directory, or_close, must_miss, listen_for_owner,
}
use nordmac.Daemon.Handle.{send}
use nordmac.Daemon.Serve.{clean_up, cleaned, with_cleanup}
use nordmac.Daemon.Calm.{validate_response-ne-panic, unless_exist-ne-panic}

abbrev pub up_after : Call → Option Error → Bool → Bool
up_after (connect_tunnel p) none b = true
up_after (disconnect_tunnel id uid) e b = false
up_after c e b = b

-- Whether a tunnel that was connected has not been asked to disconnect since.
unfoldable pub is_up : History → Bool
is_up [] = false
is_up (e ∷ h) = up_after e.call e.error (is_up h)

abbrev pub listening_after : Call → Option Error → Bool → Bool
listening_after (listen p) none b = true
listening_after close_listener e b = false
listening_after c e b = b

-- Whether the helper's socket is open.
unfoldable pub is_listening : History → Bool
is_listening [] = false
is_listening (e ∷ h) = listening_after e.call e.error (is_listening h)

abbrev pub IsClosed : History → Type 0
IsClosed h = is_listening h ≡ false

abbrev pub IsSettled : History → Type 0
IsSettled h = (is_up h ≡ false) × (is_listening h ≡ false)

pub new_one_shot-ne-panic : (id : Text) (s : Option DeviceSecrets) → new_one_shot id s ≢ panic
unfolding new_one_shot
new_one_shot-ne-panic id none = λ h. cc
new_one_shot-ne-panic id (some s) =
    checked _ _ (>>-ne-panic _ _ (reject_if-ne-panic _ _) (validate_secrets-ne-panic _))
  where
    checked : (o : OneShot) (k : Check) → k ≢ panic → valid_source k o ≢ panic
    checked o (ok _) n h = cc
    checked o (err e) n h = cc
    checked o panic n h = n refl

module _ (w : World) where
  -- What a call leaves, whether it fails or not.
  abbrev pub Quiet : (History → Type 0) → Call → Type 0
  Quiet R c = (h : History) (e : Option Error) → R h → R (record { call = c; error = e } ∷ h)

  pub Triple-call :
      (P R : History → Type 0) (c : Call)
      → ((h : History) (e : Option Error) → P h → R (record { call = c; error = e } ∷ h))
      → Triple P (do_call w c) (λ _. R) (λ _. R)
  Triple-call P R c q = Triple-perform w.fails c (λ h p _. q h none p) (λ h e p _. q h (some e) p)

  pub Triple-tried :
      (P R : History → Type 0) {F : Error → History → Type 0} (c : Call)
      → ((h : History) (e : Option Error) → P h → R (record { call = c; error = e } ∷ h))
      → Triple P (attempt (do_call w c)) (λ _. R) F
  Triple-tried P R {F} c q =
      Triple-weaken (Triple-attempt {F = F} (Triple-call P R c q)) (λ h p. p) ended (λ e h p. p)
    where
      ended : (e : Option Error) (h : History) → Attempted (λ (_ : Unit {0}). R) (λ _. R) e h → R h
      ended none h p = p.1
      ended (some x) h p = p

  pub Triple-kept :
      {A : Type 0} (R : History → Type 0) (o : Outcome A)
      → o ≢ panic
      → Triple R (lift o) (λ _. R) (λ _. R)
  Triple-kept R o n = Triple-lift o n (λ _ h _ p. p) (λ _ h _ p. p)

  pub Triple-send :
      (R : History → Type 0) (r : Response)
      → Quiet R (write_response r)
      → Triple R (send w r) (λ _. R) (λ _. R)
  unfolding send
  Triple-send R r q =
      Triple-bind (Triple-kept R _ (validate_response-ne-panic r)) λ _. Triple-call R R _ q

  Triple-directory :
      (R : History → Type 0) (p : Place) (mode : ℕ)
      → Quiet R (mkdir p mode)
      → Quiet R (lstat p)
      → Triple R (ensure_root_directory w p mode) (λ _. R) (λ _. R)
  unfolding ensure_root_directory
  Triple-directory R p mode made seen = Triple-bind (Triple-tried R R _ made) λ e.
      Triple-bind (Triple-kept R _ (unless_exist-ne-panic _ e)) λ _.
        Triple-bind {Q = λ _. R} (Triple-gets _ (λ h r. r)) λ info.
          Triple-bind (Triple-tried R R _ seen) λ f.
            Triple-bind (Triple-kept R _ (reject_if-ne-panic _ _))
              λ _. Triple-kept R _ (reject_if-ne-panic _ _)

  pub Triple-prepare :
      (uid : ℤ) → Triple IsSettled (prepare_state_directory w uid) (λ _. IsSettled) (λ _. IsSettled)
  unfolding prepare_state_directory is_up is_listening
  Triple-prepare uid =
      Triple-bind
        (Triple-map_error _ _ (Triple-directory IsSettled state_root 448 (λ h e p. p) (λ h e p. p)))
        λ _. Triple-bind (Triple-tried IsSettled IsSettled _ (λ h e p. p)) λ e.
          Triple-bind (Triple-kept IsSettled _ (unless_exist-ne-panic _ e)) λ _.
            Triple-bind {Q = λ _. IsSettled} (Triple-gets _ (λ h r. r)) λ info.
              Triple-bind (Triple-tried IsSettled IsSettled _ (λ h e p. p)) λ f.
                Triple-bind (Triple-kept IsSettled _ (reject_if-ne-panic _ _))
                  λ _. Triple-kept IsSettled _ (reject_if-ne-panic _ _)

  Triple-or_close :
      (uid : ℤ) (e : Option Error) (next : Tx (Unit {0}))
      → Triple Any next (λ _. Any) (λ _. IsClosed)
      → Triple Any (or_close w uid e next) (λ _. Any) (λ _. IsClosed)
  unfolding is_listening
  Triple-or_close uid none next tr = tr
  Triple-or_close uid (some e) next tr =
      Triple-bind (Triple-tried Any IsClosed _ (λ h e p. refl)) λ _.
        Triple-bind (Triple-tried IsClosed IsClosed _ (λ h e p. p)) λ _. Triple-raise e (λ h p. p)

  must_miss-ne-panic : (e : Option Error) → must_miss w e ≢ panic
  must_miss-ne-panic none h = cc
  must_miss-ne-panic (some e) h = ground (arith, h)

  -- A listener that is not returned is closed.
  pub Triple-listen :
      (uid : ℤ) → Triple IsClosed (listen_for_owner w uid) (λ _. Any) (λ _. IsClosed)
  unfolding listen_for_owner is_listening
  Triple-listen uid =
      Triple-bind (Triple-directory IsClosed runtime_root 493 (λ h e p. p) (λ h e p. p)) λ _.
        Triple-bind (Triple-tried IsClosed IsClosed _ (λ h e p. p)) λ seen.
          Triple-bind (Triple-kept IsClosed _ (must_miss-ne-panic seen)) λ _.
            Triple-bind {Q = λ _. Any} (Triple-perform w.fails _ (λ h p _. tt) (λ h e p _. p)) λ _.
              Triple-bind (Triple-tried Any Any _ (λ h e p. tt)) λ owned.
                Triple-or_close uid owned _ (
                  Triple-bind (Triple-tried Any Any _ (λ h e p. tt))
                    λ private. Triple-or_close uid private _ (Triple-pure tt (λ h p. tt)))

  Triple-clean_up : (r : Request) → Triple Any (clean_up w r) (λ _. IsSettled) (λ _. IsSettled)
  unfolding clean_up is_up is_listening
  Triple-clean_up r = Triple-bind (Triple-tried Any IsClosed _ (λ h e p. refl)) λ _.
      Triple-bind (Triple-tried IsClosed IsClosed _ (λ h e p. p))
        λ _. Triple-call IsClosed IsSettled _ (λ h e p. (refl, p))

  -- An end of the helper leaves it settled; it may also still serve.
  abbrev pub Ends : Bool → History → Type 0
  Ends ended h = ended ≡ true → IsSettled h

  pub Triple-cleanup :
      (r : Request) (m : Tx Bool) → Calm m → Triple Any (with_cleanup w r m) Ends (λ _. IsSettled)
  unfolding with_cleanup pure
  Triple-cleanup r m c = record { at = λ h p. by_outcome (m h).0 (m h).1 (c.at h) }
    where
      after :
          (o : Outcome Bool)
          → o ≢ panic
          → Triple Any (finally (clean_up w r) (lift o)) Ends (λ _. IsSettled)
      after o n =
          Triple-finally {Q = λ _. Any} {E = λ _. Any}
            (Triple-lift o n (λ _ _ _ _. tt) (λ _ _ _ _. tt))
            (λ a. Triple-weaken (Triple-clean_up r) (λ _ p. p) (λ _ h s _. s) (λ _ h s. s))
            (λ e. Triple-clean_up r)

      still : (h : History) → Ends false h
      still h e = absurd (ground (arith, e))

      by_outcome :
          (o : Outcome Bool) (h : History)
          → o ≢ panic
          → Post Ends (λ _. IsSettled) (cleaned w r o h).0 (cleaned w r o h).1
      by_outcome (ok false) h n = still h
      by_outcome (ok true) h n = (after (ok true) n).at h tt
      by_outcome (err e) h n = (after (err e) n).at h tt
      by_outcome panic h n = absurd (n refl)
