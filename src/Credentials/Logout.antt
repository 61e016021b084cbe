-- ===== src/Credentials/Logout.antt =====
-- `Service` of internal/authstate/service.go: the state of the credentials and their removal.
use nordmac.Base.{
  Bool, true, false, not, ◌&&◌, ◌||◌, Option, none, some, Error, join, sentinel, Sentinel,
  reject_if, if◌then◌else◌,
}
use nordmac.Base.Actions.{pure, raise, lift, map_error, attempt, finally, ◌>>=◌, ◌>>◌}
use nordmac.Credentials.Store.{
  access_token, private_key, Kind, lock, release, delete, World, Tx, Snapshot, perform, capture,
  rollback,
}

pub data CredentialState : Type 0 where
  logged_out logged_in inconsistent : CredentialState

pub record Status : Type 0 where
  pub state : CredentialState
  pub has_token : Bool
  pub has_private_key : Bool
  pub repair_needed : Bool

pub record LogoutResult : Type 0 where
  pub local_credentials_removed : Bool
  pub remote_token_revoked : Bool

abbrev pub state_of : Bool → Bool → CredentialState
state_of true true = logged_in
state_of false false = logged_out
state_of _ _ = inconsistent

-- `state == Inconsistent`
abbrev pub is_inconsistent : CredentialState → Bool
is_inconsistent inconsistent = true
is_inconsistent _ = false

-- `status`
abbrev pub status : Bool → Bool → Status
status token key = record {
  state = state_of token key;
  has_token = token;
  has_private_key = key;
  repair_needed = is_inconsistent (state_of token key);
}

module _ (w : World) where
  -- `Service.acquire`
  unfoldable pub acquire : Tx (Unit {0})
  acquire = do
    lift (reject_if (not w.has_store || not w.has_locker) "credential state service is incomplete")
    map_error (λ _. sentinel Sentinel.credential_lock) (perform w lock)

  -- The deferred release.
  abbrev pub released : Tx (Unit {0})
  released = map_error (λ _. sentinel Sentinel.credential_lock) (perform w release)

  abbrev pub read_credential : Kind → Tx Snapshot
  read_credential kind = map_error (λ _. sentinel Sentinel.credential_read) (capture w kind)

  -- `Service.Inspect` under the lock
  unfoldable pub inspect_locked : Tx Status
  inspect_locked = do
    token ← read_credential access_token
    key ← read_credential private_key
    pure (status token.exists key.exists)

  -- `Service.Inspect`
  unfoldable pub inspect : Tx Status
  inspect = do acquire; finally released inspect_locked

  -- `deleteIfPresent`
  unfoldable pub delete_if_present : Kind → Bool → Tx (Unit {0})
  delete_if_present kind exists = if exists then perform w (delete kind) else pure tt

  abbrev pub removal_error : Option Error → Error
  removal_error none = sentinel Sentinel.credential_transaction
  removal_error (some e) =
      join (sentinel Sentinel.credential_transaction) (sentinel Sentinel.rollback_incomplete)

  -- `Service.failedRemoval`
  unfoldable pub failed_removal : Snapshot → Snapshot → Tx LogoutResult
  failed_removal token key = do e ← attempt (rollback w token key); raise (removal_error e)

  -- What follows a removal: the next step, or the rollback.
  abbrev pub or_restore : Snapshot → Snapshot → Option Error → Tx LogoutResult → Tx LogoutResult
  or_restore token key none next = next
  or_restore token key (some e) next = failed_removal token key

  abbrev pub removed : LogoutResult
  removed = record { local_credentials_removed = true; remote_token_revoked = false }

  -- The removal of what was captured.
  unfoldable pub remove_pair : Snapshot → Snapshot → Tx LogoutResult
  remove_pair token key = do
    e ← attempt (delete_if_present access_token token.exists)
    or_restore token key e do
      f ← attempt (delete_if_present private_key key.exists)
      or_restore token key f (pure removed)

  -- `Service.LogoutLocal` under the lock
  unfoldable pub logout_locked : Tx LogoutResult
  logout_locked = do
    token ← read_credential access_token
    key ← read_credential private_key
    if not token.exists && not key.exists
        then pure (record { local_credentials_removed = false; remote_token_revoked = false })
        else remove_pair token key

  -- `Service.LogoutLocal`
  unfoldable pub logout_local : Tx LogoutResult
  logout_local = do acquire; finally released logout_locked
