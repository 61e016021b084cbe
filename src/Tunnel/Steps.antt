-- ===== src/Tunnel/Steps.antt =====
-- The journaled steps of `Controller`: intents, marks, routes and phases
-- (internal/tunnel/controller.go).
use nordmac.Base.{
  ℕ, Option, ◌+◌, ◌-◌, not, none, some, [], ◌∷◌, ◌++◌, ltb, int_eq, text_eq, if◌then◌else◌, length,
  get_elem?, set, ok, panic, reject_if,
}
use nordmac.Tunnel.Types.{
  Phase, phase_eq, StepKind, StepStatus, planned, applied, status_eq, Route, Entry, Journal,
}
use nordmac.Tunnel.Plan.{validate_route}
use nordmac.Tunnel.Phases.{allowed_transition}
use nordmac.Base.Actions.{lift, gets, ◌>>=◌, ◌>>◌, within}
use nordmac.Tunnel.World.{update_journal, add_route, Context, World, State, perform, Tx, edit}

abbrev pub Done : Type 0
Done = Tx (Unit {0})

abbrev pub append_entry : Entry → Journal → Journal
append_entry e j = record j { entries = j.entries ++ (e ∷ []) }

abbrev pub with_status : StepStatus → ℕ → Entry → Journal → Journal
with_status status index e j = record j {
  entries = set j.entries index (record e { status = status });
}

-- `journal.Entries[index].Status = status`, on what stands at the index
abbrev pub mark_entry : StepStatus → ℕ → Option Entry → Done
mark_entry status index none s = (panic, s)
mark_entry status index (some e) s =
    (ok tt, record s { journal = with_status status index e s.journal })

unfoldable pub set_status : StepStatus → ℕ → Done
set_status status index s = mark_entry status index (get_elem? s.journal.entries index) s

abbrev pub with_phase : Phase → Journal → Journal
with_phase phase j = record j { phase = phase }

module _ (w : World) where
  -- `nextTime`
  abbrev pub next_time : State → ℕ
  next_time s =
      let now = w.clock s.history in
      if ltb s.journal.updated_at now then now else s.journal.updated_at + 1

  -- `journal.UpdatedAt = controller.nextTime(journal.UpdatedAt)`
  unfoldable pub stamp : Done
  stamp s = (ok tt, record s { journal = record (s.journal) { updated_at = next_time s } })

  -- `controller.Journals.Update(ctx, *journal)`
  unfoldable pub update : Context → Done
  update c s = perform w c (update_journal s.journal) s

  -- `recordIntent`
  unfoldable pub record_intent : Context → Entry → Tx ℕ
  record_intent c e = do
    edit (append_entry e)
    stamp
    within "persist intent" (update c)
    gets (λ s. length s.journal.entries - 1)

  -- `markApplied`
  unfoldable pub mark_applied : Context → ℕ → Done
  mark_applied c index = do set_status applied index; stamp; within "persist applied" (update c)

  -- `applyRoute`
  unfoldable pub apply_route : Context → StepKind → Route → Done
  apply_route c kind route = do
    within "invalid planned route" (lift (validate_route route))
    index ← record_intent c (record { kind = kind; status = planned; route = some route })
    within "add route" (perform w c (add_route route))
    mark_applied c index

  -- `setPhase`
  unfoldable pub set_phase : Context → Phase → Done
  set_phase c phase = do
    from ← gets (λ s. s.journal.phase)
    lift (reject_if (not (allowed_transition from phase)) "invalid tunnel transition")
    edit (with_phase phase)
    stamp
    within "persist tunnel phase" (update c)
