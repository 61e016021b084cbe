-- ===== src/Connection/Metadata.antt =====
-- `Metadata` and `MetadataStore` of internal/connection/state.go.
use nordmac.Base.{
  Bool, true, false, not, ◌||◌, Option, none, some, [], ◌∷◌, ◌++◌, ◌==◌, text_eq, nat_eq, int_eq,
  pos, Text, Error, Outcome, ok, err, message, Check, Sentinel, is_error, reject_if, ◌>>◌,
  if◌then◌else◌,
}
use nordmac.Patterns.{valid_session_id}
use nordmac.Connection.World.{ConnectionPhase, is_other, Metadata}

abbrev pub is_bad_phase : ConnectionPhase → Bool
is_bad_phase (is_other t) = true
is_bad_phase p = false

-- `Metadata.validate`
unfoldable pub validate_metadata : Metadata → Check
validate_metadata m = do
  reject_if
      (not (m.schema == pos 1)
        || not (valid_session_id m.session_id)
        || m.server == []
        || m.created_at == 0)
      "invalid local connection metadata"
  reject_if (is_bad_phase m.phase) "invalid local connection phase"

-- What `json.Decoder` makes of the file.
abbrev pub decoded : Option (Metadata × Bool) → Outcome Metadata
decoded none = err (message "decode local connection metadata")
decoded (some (m, false)) = err (message "trailing local connection metadata")
decoded (some (m, true)) = ok m

abbrev pub marshalled : Option Text → Outcome Text
marshalled none = err (message "json")
marshalled (some d) = ok (d ++ (10 ∷ []))

-- A missing file is no error for `Delete`.
abbrev pub unless_missing : Option Error → Check
unless_missing none = ok tt
unless_missing (some e) = if is_error e Sentinel.not_exist then ok tt else err e
