-- ===== src/Store/Journals.antt =====
-- `JournalStore` of internal/state/journal.go: `Create`, `Update`, `Load` and `Delete`.
use nordmac.Base.{
  ℕ, String, ◌+◌, Bool, false, not, ◌||◌, Option, none, some, [], ◌∷◌, ◌++◌, Text, ltb, length,
  Outcome, ok, err, panic, Error, message, sentinel, wrap, Sentinel, is_error, reject_if,
  if◌then◌else◌,
}
use nordmac.Base.Actions.{
  pure, raise, attempt, lift, gets, within, map_error, finally, cleanup, ◌>>=◌, ◌>>◌,
}
use nordmac.Patterns.{valid_session_id}
use nordmac.Tunnel.Types.{Journal}
use nordmac.Tunnel.Journal.{validate_journal}
use nordmac.Helper.Frames.{Codec, decoded}
use nordmac.Store.Info.{validate_private_info}
use nordmac.Store.Files.{
  FilePath, journal_file, temporary, lstat, open_read, new_file, fstat, read, chmod, sync, close,
  remove, create_temp, write, link, rename, World, Tx, do_call, check_context, ensure_directory,
  sync_directory,
}

abbrev pub max_journal_bytes : ℕ
max_journal_bytes = 1048576

abbrev pub newline : Text
newline = 10 ∷ []

abbrev pub fit_bytes : Text → Outcome Text
fit_bytes d =
    if ltb max_journal_bytes (length d + 1)
    then err (message "tunnel journal exceeds size limit")
    else ok (d ++ newline)

abbrev pub marshalled : Option Text → Outcome Text
marshalled none = err (message "encode tunnel journal")
marshalled (some d) = fit_bytes d

abbrev pub after_check : Outcome (Unit {0}) → Outcome Text → Outcome Text
after_check (ok _) o = o
after_check (err e) o = err (wrap "refuse invalid tunnel journal" e)
after_check panic o = panic

-- `encodeJournal`
unfoldable pub encode_journal : Codec Journal → Journal → Outcome Text
encode_journal codec j = after_check (validate_journal j) (marshalled (codec.marshal j))

-- The error of `os.Link`.
abbrev pub link_error : Error → Error
link_error e =
    if is_error e Sentinel.exist
    then message "tunnel journal already exists"
    else wrap "publish tunnel journal" e

-- An error that is `os.ErrNotExist` means that there is no journal.
abbrev pub missing_error : String → Error → Error
missing_error m e =
    if is_error e Sentinel.not_exist then sentinel Sentinel.journal_not_found else wrap m e

-- `directory_fits` says that `store.Directory` is an absolute path.
module _ (w : World) (directory_fits : Bool) (codec : Codec Journal) where
  -- `JournalStore.path`
  unfoldable pub path : Text → Tx FilePath
  path id = do
    lift (reject_if (not (valid_session_id id)) "invalid tunnel session id")
    lift (reject_if (not directory_fits) "journal directory must be an absolute path")
    ensure_directory w
    pure (journal_file id)

  -- `JournalStore.writeTemporary` after the file is created
  unfoldable pub fill : FilePath → Text → Tx FilePath
  fill p bytes = do
    within "secure temporary tunnel journal" (do_call w (chmod p))
    within "write temporary tunnel journal" (do_call w (write p bytes))
    within "sync temporary tunnel journal" (do_call w (sync p))
    pure p

  -- `JournalStore.writeTemporary`
  unfoldable pub write_temporary : Text → Tx FilePath
  write_temporary bytes = do
    suffix ← gets w.suffix
    within "create temporary tunnel journal" (do_call w (create_temp suffix))
    finally (within "close temporary tunnel journal" (do_call w (close (temporary suffix))))
        (fill (temporary suffix) bytes)

  -- `validateExisting`
  unfoldable pub validate_existing : FilePath → Tx (Unit {0})
  validate_existing p = do
    info ← gets (λ h. w.info h p)
    map_error (missing_error "inspect tunnel journal") (do_call w (lstat p))
    lift (reject_if (not info.is_regular || info.is_symlink) "tunnel journal is not a regular file")
    lift (validate_private_info w.geteuid info false)

  -- `JournalStore.Create`
  unfoldable pub create : Journal → Tx (Unit {0})
  create j = do
    check_context w
    p ← path j.session_id
    bytes ← lift (encode_journal codec j)
    t ← write_temporary bytes
    cleanup (do_call w (remove t))
        (do map_error link_error (do_call w (link t p)); sync_directory w)

  -- `JournalStore.Update`
  unfoldable pub update : Journal → Tx (Unit {0})
  update j = do
    check_context w
    p ← path j.session_id
    validate_existing p
    bytes ← lift (encode_journal codec j)
    t ← write_temporary bytes
    cleanup (do_call w (remove t))
        (do within "replace tunnel journal" (do_call w (rename t p)); sync_directory w)

  -- `JournalStore.Load` on the open file
  unfoldable pub load_open : FilePath → Tx Journal
  load_open p = do
    info ← gets (λ h. w.info h p)
    within "inspect open tunnel journal" (do_call w (fstat p))
    lift (validate_private_info w.geteuid info false)
    bytes ← gets (λ h. w.contents h p)
    within "read tunnel journal" (do_call w (read p))
    lift (reject_if (ltb max_journal_bytes (length bytes)) "tunnel journal exceeds size limit")
    j ← lift (decoded (codec.unmarshal bytes))
    within "validate tunnel journal" (lift (validate_journal j))
    pure j

  -- What follows `os.NewFile`, by its error.
  abbrev pub with_file : FilePath → Option Error → Tx Journal
  with_file p none = cleanup (do_call w (close p)) (load_open p)
  with_file p (some e) = do
    attempt (do_call w (close p))
    raise (message "open tunnel journal: invalid file descriptor")

  -- `JournalStore.Load`
  unfoldable pub load : Text → Tx Journal
  load id = do
    check_context w
    p ← path id
    map_error (missing_error "open tunnel journal") (do_call w (open_read p))
    a ← attempt (do_call w new_file)
    with_file p a

  -- `JournalStore.Delete`
  unfoldable pub delete : Text → Tx (Unit {0})
  delete id = do
    check_context w
    p ← path id
    map_error (missing_error "delete tunnel journal") (do_call w (remove p))
    sync_directory w
