-- ===== src/Daemon/Files.antt =====
-- The directories and the socket of the helper (internal/helperdaemon/daemon.go).
use nordmac.Base.{
  ℕ, ◌%◌, ◌^◌, ◌-◌, ◌+◌, Bool, not, ◌||◌, Option, none, some, ◌==◌, nat_eq, int_eq, ℤ, pos, negsuc,
  Error, err, message, wrap, Sentinel, is_error, reject_if, Check, pass, if◌then◌else◌,
}
use nordmac.Base.Actions.{pure, raise, lift, gets, attempt, within, ◌>>=◌, ◌>>◌}
use nordmac.Store.Info.{Info}
use nordmac.Daemon.World.{
  Place, runtime_root, state_root, state_directory, socket, mkdir, chmod, lstat, listen, remove,
  chown, close_listener, World, Tx, is_nil, do_call,
}

-- `err != nil && !errors.Is(err, os.ErrExist)`
abbrev pub unless_exist : (Error → Error) → Option Error → Check
unless_exist f none = pass
unless_exist f (some e) = if is_error e Sentinel.exist then pass else err (f e)

abbrev pub plain : Error → Error
plain e = e

abbrev pub is_foreign : ℕ → Info → Bool
is_foreign uid info = not info.has_stat || not (info.uid == uid)

-- `uint32(ownerUID)`
abbrev pub uint32 : ℤ → ℕ
uint32 (pos n) = n % 2 ^ 32
uint32 (negsuc n) = (2 ^ 32 - (n + 1) % 2 ^ 32) % 2 ^ 32

module _ (w : World) where
  -- `ensureRootDirectory`
  unfoldable pub ensure_root_directory : Place → ℕ → Tx (Unit {0})
  ensure_root_directory p mode = do
    made ← attempt (do_call w (mkdir p mode))
    lift (unless_exist plain made)
    info ← gets (λ h. w.info h p)
    seen ← attempt (do_call w (lstat p))
    lift (
        reject_if (not (is_nil seen) || not info.is_dir || not (info.permissions == mode))
          "privileged helper directory has unsafe type or mode")
    lift (reject_if (is_foreign 0 info) "privileged helper directory is not root-owned")

  -- `prepareStateDirectory`; the modes are 0o700.
  unfoldable pub prepare_state_directory : ℤ → Tx (Unit {0})
  prepare_state_directory uid = do
    within "create state root" (ensure_root_directory state_root 448)
    made ← attempt (do_call w (mkdir (state_directory uid) 448))
    lift (unless_exist (wrap "create state directory") made)
    info ← gets (λ h. w.info h (state_directory uid))
    seen ← attempt (do_call w (lstat (state_directory uid)))
    lift (
        reject_if (not (is_nil seen) || not info.is_dir || not (info.permissions == 448))
          "state directory is not a private directory")
    lift (reject_if (is_foreign 0 info) "state directory is not root-owned")

  -- The cleanup of a listener that could not be given its owner or its mode.
  abbrev pub or_close : ℤ → Option Error → Tx (Unit {0}) → Tx (Unit {0})
  or_close uid none next = next
  or_close uid (some e) next = do
    attempt (do_call w close_listener)
    attempt (do_call w (remove (socket uid)))
    raise e

  -- The error of `os.Lstat` where the socket's file must be missing.
  abbrev pub must_miss : Option Error → Check
  must_miss none = err (message "active helper socket already exists")
  must_miss (some e) = if is_error e Sentinel.not_exist then pass else err e

  -- `listenForOwner`; the modes are 0o755 and 0o600.
  unfoldable pub listen_for_owner : ℤ → Tx (Unit {0})
  listen_for_owner uid = do
    ensure_root_directory runtime_root 493
    seen ← attempt (do_call w (lstat (socket uid)))
    lift (must_miss seen)
    do_call w (listen (socket uid))
    owned ← attempt (do_call w (chown (socket uid) uid))
    or_close uid owned
        do private ← attempt (do_call w (chmod (socket uid) 384)); or_close uid private (pure tt)

  -- `removeStaleSocket`, by the error of `os.Lstat`
  abbrev pub remove_seen : ℤ → Info → Bool → Option Error → Tx (Unit {0})
  remove_seen uid info is_socket (some e) =
      lift (if is_error e Sentinel.not_exist then pass else err e)
  remove_seen uid info is_socket none = do
    lift (
        reject_if (not is_socket || is_foreign (uint32 uid) info)
          "refuse to remove unowned helper socket")
    do_call w (remove (socket uid))

  unfoldable pub remove_stale_socket : ℤ → Tx (Unit {0})
  remove_stale_socket uid = do
    info ← gets (λ h. w.info h (socket uid))
    is_socket ← gets (λ h. w.is_socket h (socket uid))
    seen ← attempt (do_call w (lstat (socket uid)))
    remove_seen uid info is_socket seen
