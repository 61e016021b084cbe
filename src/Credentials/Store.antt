-- ===== src/Credentials/Store.antt =====
-- The credential store and lock as the services of internal/loginflow and internal/authstate call them,
-- and the helpers that both services have.
use nordmac.Base.{
  Bool, true, false, Eq, Text-discrete, Option, none, some, List, [], ◌∷◌, Text, Outcome, ok, err,
  Error, join?, Sentinel, is_error, if◌then◌else◌,
}
use nordmac.Base.Actions.{Action, lift, gets, attempt, ◌>>=◌}

pub data Kind : Type 0 where
  access_token private_key : Kind
  other_kind : Text → Kind

unfoldable pub Kind-discrete : Discrete Kind
unfolding Text-discrete
Kind-discrete = hlevel Text-discrete

instance abbrev pub kind_eq : Eq Kind
kind_eq = record { dec = Kind-discrete }

-- `Kind.Valid`
abbrev pub valid_kind : Kind → Bool
valid_kind access_token = true
valid_kind private_key = true
valid_kind (other_kind t) = false

pub data Call : Type 0 where
  lock release : Call
  get delete : Kind → Call
  put : Kind → Text → Call
  provision : Text → Call

pub record Event : Type 0 where
  pub call : Call
  pub error : Option Error

-- The calls so far, newest first.
abbrev pub History : Type 0
History = List Event

-- What the store, the lock and the provisioner answer, by the calls before. Each may be nil.
pub record World : Type 0 where
  pub has_store : Bool
  pub has_locker : Bool
  pub has_provisioner : Bool
  pub fails : History → Call → Option Error
  pub stored : History → Kind → Text

abbrev pub Tx : Type 0 → Type 0
Tx A = Action History A

abbrev pub log : Call → Option Error → History → Outcome (Unit {0}) × History
log call none h = (ok tt, record { call = call; error = none } ∷ h)
log call (some e) h = (err e, record { call = call; error = some e } ∷ h)

pub record Snapshot : Type 0 where
  pub value : Text
  pub exists : Bool

abbrev pub absent : Snapshot
absent = record { value = []; exists = false }

-- An error that is `ErrNotFound` is no error.
abbrev pub unless_missing : Option Error → Outcome (Unit {0})
unless_missing none = ok tt
unless_missing (some e) = if is_error e Sentinel.not_found then ok tt else err e

abbrev pub captured : Text → Option Error → Outcome Snapshot
captured value none = ok (record { value = value; exists = true })
captured value (some e) = if is_error e Sentinel.not_found then ok absent else err e

-- `errors.Join` of two errors that may be nil, as a result
abbrev pub result_of : Option Error → Outcome (Unit {0})
result_of none = ok tt
result_of (some e) = err e

module _ (w : World) where
  unfoldable pub perform : Call → Tx (Unit {0})
  perform call h = log call (w.fails h call) h

  -- `capture`
  unfoldable pub capture : Kind → Tx Snapshot
  capture kind = do
    value ← gets (λ h. w.stored h kind)
    e ← attempt (perform (get kind))
    lift (captured value e)

  -- `restore`
  unfoldable pub restore : Kind → Snapshot → Tx (Unit {0})
  restore kind before =
      if before.exists
      then perform (put kind before.value)
      else (do e ← attempt (perform (delete kind)); lift (unless_missing e))

  -- Both restores, whatever the first returns: `Service.rollback` of the login, and the two calls of
  -- `restore` in `Service.failedRemoval` of the logout.
  unfoldable pub rollback : Snapshot → Snapshot → Tx (Unit {0})
  rollback token key = do
    a ← attempt (restore access_token token)
    b ← attempt (restore private_key key)
    lift (result_of (join? a b))
