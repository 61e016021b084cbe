-- ===== src/Tunnel/Rollback.antt =====
-- `Controller.rollback` (internal/tunnel/controller.go).
use nordmac.Base.{
  ℕ, zero, suc, Option, none, some, List, [], ◌∷◌, ◌++◌, String, ◌==◌, int_eq, text_eq,
  if◌then◌else◌, length, get_elem?, Error, err, panic, message, sentinel, wrap, join, join_all,
  Sentinel,
}
use nordmac.Tunnel.Types.{
  Phase, disconnected, disconnecting, rollback_required, phase_eq, StepKind, device_step,
  endpoint_route_step, tunnel_route_step, dns_step, other_kind, rolled_back, status_eq, Route,
  Entry,
}
use nordmac.Tunnel.Plan.{dns_config}
use nordmac.Tunnel.Phases.{allowed_transition}
use nordmac.Base.Actions.{pure, raise, lift, gets, ◌>>=◌, ◌>>◌, map_error, attempt}
use nordmac.Tunnel.World.{
  delete_journal, remove_route, delete_device, restore_dns, Context, World, perform, Tx, edit,
}
use nordmac.Tunnel.Steps.{Done, stamp, update, set_status, with_phase}

-- `append(rollbackErrors, fmt.Errorf(...))` if there is an error
abbrev pub add_error : String → List Error → Option Error → List Error
add_error m errors none = errors
add_error m errors (some e) = errors ++ (wrap m e ∷ [])

module _ (w : World) where
  abbrev pub remove_of : Context → Option Route → Done
  remove_of c none = raise (message "route rollback entry is missing its route")
  remove_of c (some r) = perform w c (remove_route r)

  -- The `switch entry.Kind`.
  unfoldable pub compensate : Context → StepKind → Option Route → Done
  compensate c dns_step route s =
      perform w c (restore_dns s.journal.dns_before (dns_config s.journal.plan)) s
  compensate c endpoint_route_step route s = remove_of c route s
  compensate c tunnel_route_step route s = remove_of c route s
  compensate c device_step route s =
      perform w c (delete_device s.journal.session_id s.journal.device) s
  compensate c (other_kind k) route s = (err (message "unknown rollback step"), s)

  -- What follows a compensation: `continue` on an error, or the mark and its update.
  unfoldable pub settle : Context → ℕ → List Error → Option Error → Tx (List Error)
  settle c index errors (some e) = pure (add_error "roll back" errors (some e))
  settle c index errors none = do
    set_status rolled_back index
    stamp w
    f ← attempt (update w c)
    pure (add_error "persist rolled-back" errors f)

  -- One round of the loop over the entries.
  unfoldable pub rollback_entry : Context → ℕ → List Error → Entry → Tx (List Error)
  rollback_entry c index errors e =
      if e.status == rolled_back
      then pure errors
      else (do f ← attempt (compensate c e.kind e.route); settle c index errors f)

  abbrev pub rollback_at : Context → ℕ → List Error → Option Entry → Tx (List Error)
  rollback_at c index errors none = lift panic
  rollback_at c index errors (some e) = rollback_entry c index errors e

  -- The rounds from index `n - 1` down to 0.
  unfoldable pub rollback_entries : Context → ℕ → List Error → Tx (List Error)
  rollback_entries c zero errors = pure errors
  rollback_entries c (suc n) errors = do
    e ← gets (λ s. get_elem? s.journal.entries n)
    errors' ← rollback_at c n errors e
    rollback_entries c n errors'

  unfoldable pub enter_phase : Context → Phase → Tx (Option Error)
  enter_phase c phase = do edit (with_phase phase); stamp w; attempt (update w c)

  -- The change of phase at the start of `rollback`.
  unfoldable pub begin_rollback : Context → Phase → Tx (List Error)
  begin_rollback c phase =
      if phase == disconnecting
      then pure []
      else if allowed_transition phase disconnecting
      then (do f ← enter_phase c disconnecting; pure (add_error "persist disconnecting phase" [] f))
      else pure (message "cannot roll back phase" ∷ [])

  -- The end of `rollback`, by the errors collected.
  unfoldable pub finish_rollback : Context → List Error → Done
  finish_rollback c (e ∷ errors) = do
    f ← enter_phase c rollback_required
    raise (
        join_all (sentinel Sentinel.rollback_incomplete)
          (add_error "persist rollback-required phase" (e ∷ errors) f))
  finish_rollback c [] = do
    edit (with_phase disconnected)
    stamp w
    map_error (λ e. join (sentinel Sentinel.rollback_incomplete) (wrap "persist" e)) (update w c)
    id ← gets (λ s. s.journal.session_id)
    map_error (λ e. join (sentinel Sentinel.rollback_incomplete) (wrap "delete" e))
        (perform w c (delete_journal id))

  -- `Controller.rollback`
  unfoldable pub rollback : Context → Done
  rollback c = do
    phase ← gets (λ s. s.journal.phase)
    errors ← begin_rollback c phase
    n ← gets (λ s. length s.journal.entries)
    errors' ← rollback_entries c n errors
    finish_rollback c errors'
