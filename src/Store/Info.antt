-- ===== src/Store/Info.antt =====
-- The checks of file modes and owners (internal/state/journal.go).
use nordmac.Base.{ℕ, ◌%◌, Bool, true, false, not, ◌||◌, ◌==◌, nat_eq, Check, reject_if, ◌>>◌}

-- `os.FileInfo` with the `syscall.Stat_t` that it carries, if it does.
pub record Info : Type 0 where
  pub permissions : ℕ
  pub is_dir : Bool
  pub is_regular : Bool
  pub is_symlink : Bool
  pub has_stat : Bool
  pub uid : ℕ

-- `mode.Perm() & 0o077 != 0`
abbrev pub is_broad : ℕ → Bool
is_broad permissions = not (permissions % 64 == 0)

abbrev pub same : Bool → Bool → Bool
same true b = b
same false b = not b

-- `validatePrivateInfo`
unfoldable pub validate_private_info : ℕ → Info → Bool → Check
validate_private_info geteuid info directory = do
  reject_if (is_broad info.permissions) "permissions are too broad"
  reject_if (not info.has_stat || not (info.uid == geteuid))
      "is not owned by the current process uid"
  reject_if (not (same directory info.is_dir)) "has the wrong file type"
