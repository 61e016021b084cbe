-- ===== src/Store/Files.antt =====
-- The system calls of internal/state as calls of a file system that may refuse any of them, and the
-- checks of file modes and owners (internal/state/journal.go).
use nordmac.Base.{
  ℕ, true, not, ◌||◌, nat_eq, Option, Text, Error, Outcome, ok, err, reject_if, none, some,
}
use nordmac.Base.Actions.{Action, lift, gets, within, cleanup, ◌>>=◌, ◌>>◌}
use nordmac.Base.Calls
use nordmac.Store.Info.{Info, validate_private_info}
use nordmac.Base.Calls.{perform}

-- The names that the code uses inside its directory: `<session id>.json`, `.nordmac-journal-<suffix>`
-- and `nordmac.lock`. No two of them are the same, since a session id is of hexadecimal digits.
pub data FilePath : Type 0 where
  directory : FilePath
  journal_file : Text → FilePath
  temporary : Text → FilePath
  lock_file : FilePath

pub data Call : Type 0 where
  mkdir_all lstat open_read open_lock fstat read chmod sync close remove : FilePath → Call
  open_directory new_file flock unlock : Call
  create_temp : Text → Call
  write : FilePath → Text → Call
  link rename : FilePath → FilePath → Call

abbrev pub History : Type 0
History = Calls.History Call

-- The file system, and the process's context and effective user.
pub record World : Type 0 where
  pub fails : History → Call → Option Error
  pub info : History → FilePath → Info
  pub suffix : History → Text
  pub contents : History → FilePath → Text
  pub cancelled : History → Option Error
  pub geteuid : ℕ

abbrev pub Tx : Type 0 → Type 0
Tx A = Action History A

abbrev pub result_of : Option Error → Outcome (Unit {0})
result_of none = ok tt
result_of (some e) = err e

module _ (w : World) where
  abbrev pub do_call : Call → Tx (Unit {0})
  do_call = perform w.fails

  -- `ctx.Err()`
  unfoldable pub check_context : Tx (Unit {0})
  check_context h = (result_of (w.cancelled h), h)

  -- `ensureDirectory`
  unfoldable pub ensure_directory : Tx (Unit {0})
  ensure_directory = do
    within "create journal directory" (do_call (mkdir_all directory))
    info ← gets (λ h. w.info h directory)
    within "inspect journal directory" (do_call (lstat directory))
    lift (reject_if (not info.is_dir || info.is_symlink) "journal path is not a real directory")
    lift (validate_private_info w.geteuid info true)

  -- `syncDirectory`
  unfoldable pub sync_directory : Tx (Unit {0})
  sync_directory = do
    within "open journal directory for sync" (do_call open_directory)
    cleanup (do_call (close directory)) (within "sync journal directory" (do_call (sync directory)))
