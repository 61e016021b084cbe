-- ===== src/Store/Plain.antt =====
-- Errors of internal/state that are not `ErrJournalNotFound`.
use nordmac.Base.{
  ℕ, Bool, false, Error, Sentinel, is_error, ok, err, panic, Check, String, reject_if,
  reject_if-ne-panic, >>-ne-panic, ◌>>◌, ◌≡◌, ◌≢◌, arith,
}
use nordmac.Store.Info.{Info, validate_private_info}

-- The error is not `ErrJournalNotFound`.
abbrev pub Plain : Error → Type 0
Plain e = is_error e Sentinel.journal_not_found ≡ false

abbrev pub Foreign : Check → Type 0
Foreign k = (e : Error) → k ≡ err e → Plain e

pub reject_if-Foreign : (b : Bool) (m : String) → Foreign (reject_if b m)
unfolding reject_if is_error
reject_if-Foreign b m e h = ground (arith, h)

>>-Foreign : (m k : Check) → Foreign m → Foreign k → Foreign (m >> k)
unfolding ◌>>◌
>>-Foreign (ok tt) k a b = b
>>-Foreign (err x) k a b = a
>>-Foreign panic k a b = λ e h. cc

pub validate_private_info-Foreign :
    (uid : ℕ) (info : Info) (d : Bool) → Foreign (validate_private_info uid info d)
unfolding validate_private_info
validate_private_info-Foreign uid info d =
    >>-Foreign _ _ (reject_if-Foreign _ _)
      (>>-Foreign _ _ (reject_if-Foreign _ _) (reject_if-Foreign _ _))

pub validate_private_info-ne-panic :
    (uid : ℕ) (info : Info) (d : Bool) → validate_private_info uid info d ≢ panic
unfolding validate_private_info
validate_private_info-ne-panic uid info d =
    >>-ne-panic _ _ (reject_if-ne-panic _ _)
      (>>-ne-panic _ _ (reject_if-ne-panic _ _) (reject_if-ne-panic _ _))
