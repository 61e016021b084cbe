-- ===== src/Tunnel/Disconnect.antt =====
-- `Controller.Disconnect` (internal/tunnel/controller.go).
use nordmac.Base.{
  not, ◌&&◌, ◌||◌, Option, none, some, Text, ℤ, pos, ltb_ℤ, ◌==◌, int_eq, text_eq, if◌then◌else◌,
  Error, ok, err, wrap, is_error, Check, reject_if, Sentinel,
}
use nordmac.Patterns.{valid_session_id}
use nordmac.Tunnel.Types.{disconnected, phase_eq, status_eq, Journal}
use nordmac.Tunnel.Plan.{uses_dns}
use nordmac.Tunnel.Journal.{validate_journal}
use nordmac.Base.Actions.{lift, gets, ◌>>=◌, ◌>>◌, within, attempt, finally}
use nordmac.Tunnel.World.{
  acquire, release, load_journal, delete_journal, journals, locks, devices, routes, dns,
  caller_context, World, perform, edit,
}
use nordmac.Tunnel.Steps.{Done}
use nordmac.Tunnel.Rollback.{rollback}

module _ (w : World) where
  -- `controller.validateDisconnect`
  unfoldable pub validate_disconnect : Check
  validate_disconnect =
      reject_if
        (not (w.has journals) || not (w.has locks) || not (w.has devices) || not (w.has routes))
        "tunnel rollback dependencies are incomplete"

  abbrev pub remove_journal : Text → Done
  remove_journal session = perform w caller_context (delete_journal session)

  -- What `Disconnect` does with the journal that it loaded.
  unfoldable pub recover : Text → ℤ → Journal → Done
  recover session owner j = do
    within "refuse invalid tunnel journal" (lift (validate_journal j))
    lift (reject_if (not (j.owner_uid == owner)) "tunnel journal owner does not match requester")
    lift (
        reject_if (uses_dns j.plan && not (w.has dns))
          "tunnel controller DNS dependency is incomplete")
    edit (λ _. j)
    if j.phase == disconnected then remove_journal session else rollback w caller_context

  -- `errors.Is(err, ErrJournalNotFound)` ends the call without an error.
  abbrev pub not_found_or : Error → Done
  not_found_or e s = (
    if is_error e Sentinel.journal_not_found then ok tt else err (wrap "load tunnel journal" e),
    s,
  )

  abbrev pub recover_loaded : Text → ℤ → Journal → Option Error → Done
  recover_loaded session owner j (some e) = not_found_or e
  recover_loaded session owner j none = recover session owner j

  unfoldable pub disconnect_locked : Text → ℤ → Done
  disconnect_locked session owner = do
    j ← gets (λ s. w.stored s.history session)
    e ← attempt (perform w caller_context (load_journal session))
    recover_loaded session owner j e

  -- `Controller.Disconnect`
  unfoldable pub disconnect : Text → ℤ → Done
  disconnect session owner = do
    lift (
        reject_if (not (valid_session_id session) || ltb_ℤ owner (pos 0))
          "invalid tunnel session identity")
    lift validate_disconnect
    within "acquire tunnel lock" (perform w caller_context (acquire session))
    finally (within "release tunnel lock" (perform w caller_context (release session)))
        (disconnect_locked session owner)
