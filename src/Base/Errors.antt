-- ===== src/Base/Errors.antt =====
-- Go's `error` values and the outcome of a call: a value, an error, or a panic.
use Prim.Native.String.{String}
use mathlib.Core.Path.{◌≡◌, refl}
use mathlib.Core.Logic.{◌≢◌}
use mathlib.Core.Bool.{Bool, true, false, ◌||◌}
use mathlib.Core.List.{List, [], ◌∷◌}
use mathlib.Core.Option.{Option, none, some}
use native.Mathlib.Omega.{arith}

-- The sentinels that some caller tests for by `errors.Is`.
pub data Sentinel : Type 0 where
  journal_not_found lock_held conflict rollback_incomplete : Sentinel
  not_found credential_lock credential_read credential_transaction : Sentinel
  no_match ambiguous invalid_query eof short_write : Sentinel
  not_exist exist would_block : Sentinel
  session_exists session_not_found ownership_mismatch : Sentinel
  dns_conflict route_conflict : Sentinel
  not_authenticated already_connected helper_failed busy : Sentinel
  unauthorized forbidden rate_limited invalid_data invalid_response : Sentinel

unfoldable pub Sentinel-discrete : Discrete Sentinel
Sentinel-discrete = hlevel

-- `errors.New`, a sentinel, `fmt.Errorf` with `%w`, and `errors.Join` of two errors.
pub data Error : Type 0 where
  message : String → Error
  sentinel : Sentinel → Error
  wrap : String → Error → Error
  join : Error → Error → Error

-- `errors.Is`
unfoldable pub is_error : Error → Sentinel → Bool
is_error (message m) t = false
is_error (sentinel s) t = elim (Sentinel-discrete s t) [ yes _ ↦ true | no _ ↦ false ]
is_error (wrap m e) t = is_error e t
is_error (join a b) t = is_error a t || is_error b t

pub is_error-sentinel : (s : Sentinel) → is_error (sentinel s) s ≡ true
unfolding is_error
is_error-sentinel s = ground arith

-- `errors.Join` of two values that may be nil
abbrev pub join? : Option Error → Option Error → Option Error
join? none b = b
join? (some a) none = some a
join? (some a) (some b) = some (join a b)

-- `errors.Join` of an error and a list of errors
abbrev pub join_all : Error → List Error → Error
join_all e [] = e
join_all e (f ∷ fs) = join e (join_all f fs)

pub data Outcome {ℓ} (A : Type ℓ) : Type ℓ where
  ok : A → Outcome A
  err : Error → Outcome A
  panic : Outcome A

pub is_error-join : (s : Sentinel) (e : Error) → is_error (join (sentinel s) e) s ≡ true
unfolding is_error
is_error-join s e = ground arith

pub is_error-join_all :
    (s : Sentinel) (es : List Error) → is_error (join_all (sentinel s) es) s ≡ true
unfolding is_error
is_error-join_all s [] = ground arith
is_error-join_all s (e ∷ es) = ground arith

-- A function that returns only an `error`.
abbrev pub Check : Type 0
Check = Outcome (Unit {0})

abbrev pub pass : Check
pass = ok tt

-- One check after another: the first error ends the chain.
infixl 5 ◌>>◌
unfoldable pub ◌>>◌ : Check → Check → Check
ok _ >> k = k
err e >> k = err e
panic >> k = panic

-- `if bad { return errors.New(m) }`
unfoldable pub reject_if : Bool → String → Check
reject_if true m = err (message m)
reject_if false m = pass

-- `fmt.Errorf("m: %w", err)` on an error
unfoldable pub context : String → Check → Check
context m (ok a) = ok a
context m (err e) = err (wrap m e)
context m panic = panic

pub reject_if-pass : (b : Bool) (m : String) → reject_if b m ≡ pass → b ≡ false
unfolding reject_if
reject_if-pass b m h = ground arith

pub context-pass : (m : String) (k : Check) → context m k ≡ pass → k ≡ pass
unfolding context
context-pass m (ok a) h = refl
context-pass m (err e) h = ground arith
context-pass m panic h = h

-- Inversion of a chain of checks.
pub >>-pass : (m k : Check) → (m >> k) ≡ pass → (m ≡ pass) × (k ≡ pass)
unfolding ◌>>◌
>>-pass (ok tt) k h = (refl, h)
>>-pass (err e) k h = (ground arith, ground arith)
>>-pass panic k h = (ground arith, ground arith)

pub pass->> : (m k : Check) → m ≡ pass → k ≡ pass → (m >> k) ≡ pass
unfolding ◌>>◌
pass->> (ok tt) k h g = g
pass->> (err e) k h g = h
pass->> panic k h g = h

pub pass-reject_if : (b : Bool) (m : String) → b ≡ false → reject_if b m ≡ pass
unfolding reject_if
pass-reject_if b m h = ground arith

pub pass-context : (m : String) (k : Check) → k ≡ pass → context m k ≡ pass
unfolding context
pass-context m (ok a) h = refl
pass-context m (err e) h = ground arith
pass-context m panic h = h

-- Checks that cannot panic.
pub reject_if-ne-panic : (b : Bool) (m : String) → reject_if b m ≢ panic
unfolding reject_if
reject_if-ne-panic true m h = cc
reject_if-ne-panic false m h = cc

pub >>-ne-panic : (m k : Check) → m ≢ panic → k ≢ panic → (m >> k) ≢ panic
unfolding ◌>>◌
>>-ne-panic (ok tt) k hm hk = hk
>>-ne-panic (err e) k hm hk = λ h. cc
>>-ne-panic panic k hm hk = hm

-- The second check may rely on the first.
pub >>-ne-panic_if : (m k : Check) → m ≢ panic → (m ≡ pass → k ≢ panic) → (m >> k) ≢ panic
unfolding ◌>>◌
>>-ne-panic_if (ok tt) k hm hk = hk refl
>>-ne-panic_if (err e) k hm hk = λ h. cc
>>-ne-panic_if panic k hm hk = hm

pub context-ne-panic : (m : String) (k : Check) → k ≢ panic → context m k ≢ panic
unfolding context
context-ne-panic m (ok a) hk = λ h. cc
context-ne-panic m (err e) hk = λ h. cc
context-ne-panic m panic hk = hk

pub err-ne-panic : (e : Error) → (let c : Check = err e in c ≢ panic)
err-ne-panic e h = cc

pub pass-ne-panic : pass ≢ panic
pass-ne-panic h = cc
