-- ===== src/Store/Locks.antt =====
-- `FileLocker` of internal/state/lock.go.
use nordmac.Base.{
  Bool, not, ◌||◌, ◌==◌, nat_eq, Option, none, some, Text, Error, Outcome, ok, err, message,
  sentinel, Sentinel, wrap, join, join?, is_error, reject_if, if◌then◌else◌,
}
use nordmac.Base.Actions.{pure, raise, lift, gets, within, map_error, attempt, ◌>>=◌, ◌>>◌}
use nordmac.Patterns.{valid_session_id}
use nordmac.Store.Info.{Info, is_broad}
use nordmac.Store.Files.{
  lock_file, open_lock, new_file, fstat, close, flock, unlock, History, World, Tx, do_call,
  check_context, ensure_directory,
}

-- The error of `Flock`.
abbrev pub flock_error : Error → Error
flock_error e =
    if is_error e Sentinel.would_block
    then sentinel Sentinel.lock_held
    else wrap "acquire tunnel lock" e

-- The error of `closeOnError`.
abbrev pub with_close : Error → Option Error → Error
with_close e none = e
with_close e (some x) = join e x

-- The error that the first `release` kept, once it was called, and the calls so far.
pub record Released : Type 0 where
  pub kept : Option (Option Error)
  pub history : History

module _ (w : World) (directory_fits : Bool) where
  -- `closeOnError`, where a step after `os.NewFile` failed
  abbrev pub or_close : Option Error → Tx (Unit {0}) → Tx (Unit {0})
  or_close none next = next
  or_close (some e) next = do x ← attempt (do_call w (close lock_file)); raise (with_close e x)

  abbrev pub is_wrong_file : Info → Bool
  is_wrong_file info = not info.is_regular || is_broad info.permissions

  abbrev pub is_foreign : Info → Bool
  is_foreign info = not info.has_stat || not (info.uid == w.geteuid)

  abbrev pub failed : Outcome (Unit {0}) → Option Error
  failed (err e) = some e
  failed r = none

  -- `FileLocker.Acquire` once the file is open
  unfoldable pub lock_open : Tx (Unit {0})
  lock_open = do
    info ← gets (λ h. w.info h lock_file)
    a ← attempt (within "inspect tunnel lock" (do_call w (fstat lock_file)))
    or_close a (
        or_close
          (failed (reject_if (is_wrong_file info) "tunnel lock must be a private regular file"))
          (or_close
            (failed
              (reject_if (is_foreign info) "tunnel lock is not owned by the current process uid"))
            (do b ← attempt (map_error flock_error (do_call w flock)); or_close b (pure tt))))

  -- What follows `os.NewFile`, by its error.
  abbrev pub with_file : Option Error → Tx (Unit {0})
  with_file none = lock_open
  with_file (some e) = do
    attempt (do_call w (close lock_file))
    raise (message "open tunnel lock: invalid file descriptor")

  -- `FileLocker.Acquire`
  unfoldable pub acquire : Text → Tx (Unit {0})
  acquire session = do
    check_context w
    lift (reject_if (not (valid_session_id session)) "invalid tunnel session id")
    lift (reject_if (not directory_fits) "lock directory must be an absolute path")
    ensure_directory w
    within "open tunnel lock" (do_call w (open_lock lock_file))
    a ← attempt (do_call w new_file)
    with_file a

  -- `wrapIfError` on both errors, and `errors.Join`
  abbrev pub release_error : Option Error → Option Error → Option Error
  release_error a b = join? (wrapped a) (wrapped b)
    where
      wrapped : Option Error → Option Error
      wrapped none = none
      wrapped (some e) = some (wrap "tunnel lock" e)

  unfoldable pub first_release : Released → Option Error × Released
  first_release s =
      let (a, h) = attempt (do_call w unlock) s.history in
      let (b, h') = attempt (do_call w (close lock_file)) h in
      let e = release_error (value_of a) (value_of b) in (e, record { kept = some e; history = h' })
    where
      value_of : Outcome (Option Error) → Option Error
      value_of (ok e) = e
      value_of r = none

  -- The function that `Acquire` returns: `once.Do`, and the error that it kept.
  unfoldable pub release : Released → Option Error × Released
  release s = elim s.kept [ none ↦ first_release s | some e ↦ (e, s) ]
