-- ===== src/Store/Held.antt =====
-- The lock's descriptor through `Acquire` and `release` of internal/state/lock.go.
use nordmac.Base.{
  Bool, true, false, Option, none, some, [], ◌∷◌, Text, Error, Outcome, panic, reject_if-ne-panic,
  ◌≡◌, ◌≢◌, refl, String,
}
use nordmac.Base.Actions.{pure, lift, within, attempt}
use nordmac.Base.Triples.{
  Triple, Post, Attempted, Triple-pure, Triple-raise, Triple-gets, Triple-lift, Triple-bind,
  Triple-weaken, Triple-map_error, Triple-attempt,
}
use nordmac.Base.Calls.{perform-history, Triple-perform}
use nordmac.Store.Plain.{validate_private_info-ne-panic}
use nordmac.Store.Files.{
  directory, lock_file, Call, open_lock, new_file, fstat, close, flock, unlock, lstat, mkdir_all,
  History, World, Tx, do_call, check_context, ensure_directory, result_of,
}
use nordmac.Store.Locks.{
  flock_error, with_close, or_close, lock_open, with_file, acquire, Released, first_release,
  release,
}

abbrev pub opened_after : Call → Option Error → Bool → Bool
opened_after (open_lock p) none b = true
opened_after (close p) e b = false
opened_after c e b = b

-- Whether the lock's descriptor is open. A `close` that fails has released it too.
unfoldable pub is_open : History → Bool
is_open [] = false
is_open (e ∷ h) = opened_after e.call e.error (is_open h)

abbrev pub locked_after : Call → Option Error → Bool → Bool
locked_after flock none b = true
locked_after (close p) e b = false
locked_after unlock none b = false
locked_after c e b = b

-- Whether the process holds the lock; closing the descriptor gives it up.
unfoldable pub is_locked : History → Bool
is_locked [] = false
is_locked (e ∷ h) = locked_after e.call e.error (is_locked h)

abbrev pub IsFree : History → Type 0
IsFree h = (is_open h ≡ false) × (is_locked h ≡ false)

abbrev pub IsOpen : History → Type 0
IsOpen h = (is_open h ≡ true) × (is_locked h ≡ false)

abbrev pub IsHeld : History → Type 0
IsHeld h = (is_open h ≡ true) × (is_locked h ≡ true)

module _ (w : World) (directory_fits : Bool) where
  Triple-closed :
      (P : History → Type 0)
      → Triple P (attempt (do_call w (close lock_file))) (λ _. IsFree) (λ _. IsFree)
  unfolding is_open is_locked
  Triple-closed P =
      Triple-weaken
        (Triple-attempt {F = λ _. IsFree} (
          Triple-perform w.fails {Q = IsFree} {E = λ _. IsFree} (close lock_file)
            (λ h p _. (refl, refl)) (λ h e p _. (refl, refl))))
        (λ h p. p) (λ e h p. closed e h p) (λ _ h p. p)
    where
      closed :
          (e : Option Error) (h : History)
          → Attempted (λ (_ : Unit {0}). IsFree) (λ _. IsFree) e h
          → IsFree h
      closed none h p = p.1
      closed (some x) h p = p

  -- A step that failed closes the descriptor.
  Triple-or_close :
      (e : Option Error) (next : Tx (Unit {0}))
      → Triple IsOpen next (λ _. IsHeld) (λ _. IsFree)
      → Triple IsOpen (or_close w directory_fits e next) (λ _. IsHeld) (λ _. IsFree)
  Triple-or_close none next tr = tr
  Triple-or_close (some e) next tr =
      Triple-bind (Triple-closed IsOpen) λ x. Triple-raise (with_close e x) (λ h p. p)

  Triple-or_close_flock :
      (e : Option Error)
      → Triple
          (Attempted (λ (_ : Unit {0}). IsHeld) (λ _. IsOpen) e)
          (or_close w directory_fits e (pure tt))
          (λ _. IsHeld)
          (λ _. IsFree)
  Triple-or_close_flock none = Triple-pure tt (λ h p. p.1)
  Triple-or_close_flock (some e) =
      Triple-bind (Triple-closed IsOpen) λ x. Triple-raise (with_close e x) (λ h p. p)

  Triple-lock_open : Triple IsOpen (lock_open w directory_fits) (λ _. IsHeld) (λ _. IsFree)
  unfolding lock_open is_open is_locked
  Triple-lock_open = Triple-bind {Q = λ _. IsOpen} (Triple-gets _ (λ h p. p)) λ info.
      Triple-bind {Q = λ _. IsOpen} inspected λ a. Triple-or_close a _ (
        Triple-or_close _ _ (
          Triple-or_close _ _ (
            Triple-bind
              (Triple-attempt (
                Triple-map_error flock_error _ (
                  Triple-perform w.fails {E = λ _. IsOpen} flock (λ h p _. (p.0, refl))
                    (λ h e p _. p))))
              Triple-or_close_flock)))
    where
      opened :
          (e : Option Error) (h : History)
          → Attempted (λ (_ : Unit {0}). IsOpen) (λ _. IsOpen) e h
          → IsOpen h
      opened none h p = p.1
      opened (some x) h p = p

      inspected :
          Triple IsOpen
            (attempt (within "inspect tunnel lock" (do_call w (fstat lock_file))))
            (λ _. IsOpen)
            (λ _. IsFree)
      inspected =
          Triple-weaken
            (Triple-attempt {F = λ _. IsFree} (
              Triple-map_error _ _ (
                Triple-perform w.fails {E = λ _. IsOpen} (fstat lock_file) (λ h p _. p)
                  (λ h e p _. p))))
            (λ h p. p) (λ e h p. opened e h p) (λ _ h p. p)

  Quiet : Call → Type 0
  Quiet call =
      (h : History) (e : Option Error) → IsFree h → IsFree (record { call = call; error = e } ∷ h)

  Triple-asked :
      (m : String) (call : Call)
      → Quiet call
      → Triple IsFree (within m (do_call w call)) (λ _. IsFree) (λ _. IsFree)
  unfolding Quiet
  Triple-asked m call quiet =
      Triple-map_error _ _
        (Triple-perform w.fails call (λ h p _. quiet h none p) (λ h e p _. quiet h (some e) p))

  Triple-checked :
      (k : Outcome (Unit {0})) → k ≢ panic → Triple IsFree (lift k) (λ _. IsFree) (λ _. IsFree)
  Triple-checked k n = Triple-lift k n (λ _ h _ p. p) (λ _ h _ p. p)

  Triple-context : Triple IsFree (check_context w) (λ _. IsFree) (λ _. IsFree)
  unfolding check_context
  Triple-context = record { at = λ h p. by_error h (w.cancelled h) p }
    where
      by_error :
          (h : History) (e : Option Error)
          → IsFree h
          → Post (λ (_ : Unit {0}). IsFree) (λ _. IsFree) (result_of e) h
      by_error h none p = p
      by_error h (some e) p = p

  Triple-directory : Triple IsFree (ensure_directory w) (λ _. IsFree) (λ _. IsFree)
  unfolding ensure_directory is_open is_locked Quiet
  Triple-directory = Triple-bind (Triple-asked _ (mkdir_all directory) (λ h e p. p)) λ _.
      Triple-bind {Q = λ _. IsFree} (Triple-gets _ (λ h p. p)) λ info.
        Triple-bind (Triple-asked _ (lstat directory) (λ h e p. p)) λ _.
          Triple-bind (Triple-checked _ (reject_if-ne-panic _ _))
            λ _. Triple-checked _ (validate_private_info-ne-panic _ _ _)

  Triple-with_file :
      (e : Option Error) → Triple IsOpen (with_file w directory_fits e) (λ _. IsHeld) (λ _. IsFree)
  Triple-with_file none = Triple-lock_open
  Triple-with_file (some e) = Triple-bind (Triple-closed IsOpen) λ _. Triple-raise _ (λ h p. p)

  Triple-acquire :
      (session : Text)
      → Triple IsFree (acquire w directory_fits session) (λ _. IsHeld) (λ _. IsFree)
  unfolding acquire is_open is_locked
  Triple-acquire session = Triple-bind Triple-context λ _.
      Triple-bind (Triple-checked _ (reject_if-ne-panic _ _)) λ _.
        Triple-bind (Triple-checked _ (reject_if-ne-panic _ _)) λ _.
          Triple-bind Triple-directory λ _.
            Triple-bind {Q = λ _. IsOpen}
              (Triple-map_error _ _ (
                Triple-perform w.fails (open_lock lock_file) (λ h p _. (refl, p.1)) (λ h e p _. p)))
              λ _. Triple-bind {Q = λ _. IsOpen} new_one Triple-with_file
    where
      still :
          (e : Option Error) (h : History)
          → Attempted (λ (_ : Unit {0}). IsOpen) (λ _. IsOpen) e h
          → IsOpen h
      still none h p = p.1
      still (some x) h p = p

      new_one : Triple IsOpen (attempt (do_call w new_file)) (λ _. IsOpen) (λ _. IsFree)
      new_one =
          Triple-weaken
            (Triple-attempt {F = λ _. IsFree}
              (Triple-perform w.fails {E = λ _. IsOpen} new_file (λ h p _. p) (λ h e p _. p)))
            (λ h p. p) (λ e h p. still e h p) (λ _ h p. p)

  -- From a history in which no lock is held, `Acquire` either returns with its descriptor open and the lock
  -- held, or fails with its descriptor closed and the lock free; it does not panic.
  pub acquire-IsHeld :
      (session : Text) (h : History)
      → IsFree h
      → Post
          (λ _. IsHeld)
          (λ _. IsFree)
          (acquire w directory_fits session h).0
          (acquire w directory_fits session h).1
  acquire-IsHeld session h p = (Triple-acquire session).at h p

  first_release-IsFree : (s : Released) → IsFree (first_release w directory_fits s).1.history
  unfolding first_release attempt is_open is_locked
  first_release-IsFree s =
      let h = (do_call w unlock s.history).1 in
      rw (perform-history w.fails (close lock_file) h) (refl, refl)

  -- The first call of `release` closes the descriptor and frees the lock, whatever fails; the next call
  -- returns the same error and makes no call.
  pub release-IsFree :
      (h : History)
      → let s : Released = record { kept = none; history = h } in
        let r = release w directory_fits s in
        IsFree r.1.history × (release w directory_fits r.1 ≡ r)
  unfolding release first_release
  release-IsFree h = (first_release-IsFree (record { kept = none; history = h }), refl)
