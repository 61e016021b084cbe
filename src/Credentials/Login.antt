-- ===== src/Credentials/Login.antt =====
-- `Service.Login` of internal/loginflow/service.go.
use nordmac.Base.{
  not, ◌||◌, Option, none, some, Text, ℤ, Error, join, sentinel, Sentinel, reject_if,
}
use nordmac.Base.Actions.{pure, raise, lift, gets, within, map_error, attempt, finally, ◌>>=◌, ◌>>◌}
use nordmac.Credentials.Store.{
  access_token, private_key, Kind, lock, release, put, provision, History, World, Tx, Snapshot,
  perform, capture, rollback,
}

-- What the provisioner returns.
pub record Provisioning : Type 0 where
  pub account_id : ℤ
  pub key : Text

module _ (w : World) (provisioned : History → Text → Provisioning) where
  abbrev pub transaction_error : Option Error → Error
  transaction_error none = sentinel Sentinel.credential_transaction
  transaction_error (some e) =
      join (sentinel Sentinel.credential_transaction) (sentinel Sentinel.rollback_incomplete)

  -- What follows a `Put`: the next step, or the rollback.
  unfoldable pub or_rollback : Snapshot → Snapshot → Option Error → Tx ℤ → Tx ℤ
  or_rollback token key none next = next
  or_rollback token key (some e) next = do
    f ← attempt (rollback w token key)
    raise (transaction_error f)

  abbrev pub read_before : Kind → Tx Snapshot
  read_before kind = map_error (λ _. sentinel Sentinel.credential_transaction) (capture w kind)

  -- The two writes.
  unfoldable pub store_pair : Text → Provisioning → Snapshot → Snapshot → Tx ℤ
  store_pair token p token_before key_before = do
    e ← attempt (perform w (put access_token token))
    or_rollback token_before key_before e do
      f ← attempt (perform w (put private_key p.key))
      or_rollback token_before key_before f (pure p.account_id)

  -- `Service.Login` under the lock
  unfoldable pub login_locked : Text → Tx ℤ
  login_locked token = do
    p ← gets (λ h. provisioned h token)
    within "provision VPN credentials" (perform w (provision token))
    token_before ← read_before access_token
    key_before ← read_before private_key
    store_pair token p token_before key_before

  -- `Service.Login`
  unfoldable pub login : Text → Tx ℤ
  login token = do
    lift (
        reject_if (not w.has_provisioner || not w.has_store || not w.has_locker)
          "login service is incomplete")
    map_error (λ _. sentinel Sentinel.credential_lock) (perform w lock)
    finally (map_error (λ _. sentinel Sentinel.credential_lock) (perform w release))
        (login_locked token)
