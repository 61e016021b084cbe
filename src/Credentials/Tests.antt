-- ===== src/Credentials/Tests.antt =====
-- A login and a logout over a store in memory, and the theorems at them.
use nordmac.Base.{
  Bool, true, false, Option, none, some, List, [], ◌∷◌, Text, ℤ, pos, Outcome, err, Error, message,
  sentinel, Sentinel, Sentinel-discrete, is_error, reject_if, ◌==◌, text_eq, Text-discrete,
  ℕ_discrete, if◌then◌else◌, ◌≡◌, refl, ◌⊎◌, arith,
}
use nordmac.Base.Actions.{pure, raise, lift, gets, attempt, map_error, finally, ◌>>=◌}
use nordmac.Credentials.Store.{
  Kind, Kind-discrete, access_token, private_key, Call, get, delete, put, History, World, perform,
  capture, restore, rollback,
}
use nordmac.Credentials.Logout.{
  LogoutResult, removed, acquire, delete_if_present, failed_removal, remove_pair, logout_locked,
  logout_local,
}
use nordmac.Credentials.Login.{Provisioning, or_rollback, store_pair, login_locked, login}
use nordmac.Credentials.Held.{may_hold, IsPair, IsHonest, release_failed}
use nordmac.Credentials.Safety.{IsIncomplete, logout_local-IsPair, logout_local-Undone}
use nordmac.Credentials.Provisioned.{IsStored, login-IsStored, login-Undone}

abbrev old : Text
old = 1 ∷ []

abbrev new : Text
new = 2 ∷ []

-- The token and the key of an earlier login.
abbrev both_old : Kind → Option Text
both_old k = some old

-- What a `Get` answers over what may be held.
abbrev held_error : List (Option Text) → Option Error
held_error (none ∷ cs) = some (sentinel Sentinel.not_found)
held_error (some v ∷ cs) = none
held_error [] = some (message "unknown")

abbrev held_value : List (Option Text) → Text
held_value (some v ∷ cs) = v
held_value cs = []

-- The key's own deletion and write fail if asked to.
abbrev answer : Bool → List (Option Text) → Call → Option Error
answer b cs (get k) = held_error cs
answer true cs (delete private_key) = some (message "denied")
answer true cs (put private_key v) = if v == new then some (message "denied") else none
answer b cs c = none

abbrev kind_of : Call → Kind
kind_of (get k) = k
kind_of c = access_token

abbrev memory : Bool → World
memory b = record {
  has_store = true;
  has_locker = true;
  has_provisioner = true;
  fails = λ h c. answer b (may_hold both_old (kind_of c) h) c;
  stored = λ h k. held_value (may_hold both_old k h);
}

abbrev provisioned : History → Text → Provisioning
provisioned h t = record { account_id = pos 42; key = new }

finds_held :
    (cs : List (Option Text)) (c : Option Text)
    → cs ≡ c ∷ []
    → held_error cs ≡ none
    → c ≡ some (held_value cs)
finds_held [] c h e = ground (arith, h)
finds_held (none ∷ cs) c h e = ground (arith, e)
finds_held (some v ∷ cs) c h e = ground (arith, h)

misses_held :
    (cs : List (Option Text)) (c : Option Text) (e : Error)
    → cs ≡ c ∷ []
    → held_error cs ≡ some e
    → is_error e Sentinel.not_found ≡ true
    → c ≡ none
misses_held [] c x h e m = ground (arith, h)
misses_held (none ∷ cs) c x h e m = ground (arith, h)
misses_held (some v ∷ cs) c x h e m = ground (arith, e)

store_answers : (b : Bool) → IsHonest both_old (memory b)
store_answers b = record {
  finds = λ h k c held fine. finds_held (may_hold both_old k h) c held fine;
  misses = λ h k c e held failed m. misses_held (may_hold both_old k h) c e held failed m;
}

at_start : IsPair both_old (some old) (some old) []
unfolding may_hold
at_start = (refl, refl)

-- Whole runs, computing.
run_logout : World → History → Outcome LogoutResult × History
unfolding may_hold Kind-discrete Text-discrete ℕ_discrete Sentinel-discrete is_error reject_if pure
    raise lift gets attempt map_error finally ◌>>=◌ perform capture restore rollback acquire
    delete_if_present failed_removal remove_pair logout_locked logout_local
run_logout w h = logout_local w h

run_login : World → Text → History → Outcome ℤ × History
unfolding run_logout or_rollback store_pair login_locked login
run_login w t h = login w provisioned t h

error_or : {A : Type 0} → Outcome A → Error
error_or (err e) = e
error_or r = message "none"

logout_local-IsPair_example : IsPair both_old none none (logout_local (memory false) []).1
unfolding run_logout
logout_local-IsPair_example =
    logout_local-IsPair both_old (memory false) (store_answers false) (some old) (some old) []
      (removed (memory false)) at_start refl

abbrev logout_failure : Error
logout_failure = error_or (run_logout (memory true) []).0

logout_local-Undone_example :
    (IsPair both_old (some old) (some old) (logout_local (memory true) []).1
      ⊎ IsIncomplete logout_failure)
    ⊎ (release_failed (logout_local (memory true) []).1 ≡ true)
unfolding run_logout error_or
logout_local-Undone_example =
    logout_local-Undone both_old (memory true) (store_answers true) (some old) (some old) []
      logout_failure at_start refl

login-IsStored_example :
    IsStored both_old
      (memory false)
      provisioned
      (some old)
      (some old)
      new
      (pos 42)
      (login (memory false) provisioned new []).1
unfolding run_login
login-IsStored_example =
    login-IsStored both_old (memory false) (store_answers false) provisioned (some old) (some old)
      new (pos 42) [] at_start refl

abbrev login_failure : Error
login_failure = error_or (run_login (memory true) new []).0

login-Undone_example :
    (IsPair both_old (some old) (some old) (login (memory true) provisioned new []).1
      ⊎ IsIncomplete login_failure)
    ⊎ (release_failed (login (memory true) provisioned new []).1 ≡ true)
unfolding run_login error_or
login-Undone_example =
    login-Undone both_old (memory true) (store_answers true) provisioned (some old) (some old) new
      login_failure [] at_start refl
