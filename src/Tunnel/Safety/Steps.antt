-- ===== src/Tunnel/Safety/Steps.antt =====
-- The journaled steps and the write-ahead invariant (internal/tunnel/controller.go).
use nordmac.Base.{
  ℕ, ◌-◌, Bool, true, false, Option, some, List, [], ◌∷◌, ◌≡◌, refl, ◌≢◌, All, get_elem?, length,
  All-append_one, All-set, All-get_elem?, get_elem?-append_last, Error, reject_if-ne-panic, not,
}
use nordmac.Base.Triples.{
  Triple, Triple-bind, Triple-gets, Triple-map_error, Triple-lift, Triple-weaken,
}
use nordmac.Tunnel.Types.{
  Phase, StepKind, dns_step, applied, planned, rolled_back, Route, Entry, Journal,
}
use nordmac.Tunnel.Plan.{validate_route}
use nordmac.Tunnel.Panics.{validate_route-ne-panic}
use nordmac.Tunnel.Phases.{allowed_transition}
use nordmac.Tunnel.World.{
  Call, update_journal, add_route, journals, routes, devices, dns, depends_on, Context, World,
  History, State, edit, perform,
}
use nordmac.Tunnel.Steps.{
  stamp, update, record_intent, append_entry, set_status, mark_applied, apply_route, set_phase,
  with_phase,
}
use nordmac.Tunnel.Safety.Host.{Resource, route, taken, disk_after, resource_of, IsLogged, IsSaved}
use nordmac.Tunnel.Safety.Lemmas.{
  did, perform-Post, Triple-perform, did-take, did-update, did-update-IsSaved, IsLogged-entries,
  pending-append, pending-set_live, pending_at,
}

-- The dependencies that every method checks for.
pub record HasCommon (w : World) : Type 0 where
  pub journals_here : w.has journals ≡ true
  pub routes_here : w.has routes ≡ true
  pub devices_here : w.has devices ≡ true

-- A DNS entry in the journal needs the DNS dependency.
abbrev pub IsSupported : World → List Entry → Type 0
IsSupported w = All (λ e. e.kind ≡ dns_step → w.has dns ≡ true)

-- What holds between two steps of a method.
pub record IsReady (w : World) (es : List Entry) (h : History) : Type 0 where
  pub logged : IsLogged es h
  pub supported : IsSupported w es

abbrev pub Ready : World → State → Type 0
Ready w s = IsReady w s.journal.entries s.history

-- Entry `e` stands at the index.
abbrev pub EndsWith : Entry → List Entry → Type 0
EndsWith e es = get_elem? es (length es - 1) ≡ some e

abbrev pub StandsAt : ℕ → Entry → State → Type 0
StandsAt i e s = get_elem? s.journal.entries i ≡ some e

pub Triple-edit :
    {P : State → Type 0} {Q : Unit {0} → State → Type 0} {E : Error → State → Type 0}
    (f : Journal → Journal)
    → ((s : State) → P s → Q tt (record s { journal = f s.journal }))
    → Triple P (edit f) Q E
unfolding edit
Triple-edit f h = record { at = h }

module _ (w : World) (here : HasCommon w) where
  pub Triple-stamp :
      {E : Error → State → Type 0} (F : List Entry → Type 0)
      → Triple
          (λ s. Ready w s × F s.journal.entries)
          (stamp w)
          (λ _ s. Ready w s × F s.journal.entries)
          E
  unfolding stamp
  Triple-stamp F = record { at = λ s h. h }

  pub Triple-update_frame :
      (c : Context) (F : List Entry → Type 0)
      → Triple
          (λ s. Ready w s × F s.journal.entries)
          (update w c)
          (λ _ s. Ready w s × IsSaved s × F s.journal.entries)
          (λ _ s. Ready w s × F s.journal.entries)
  unfolding update
  Triple-update_frame c F = record {
    at = λ s (r, f).
        perform-Post _ _ w c (update_journal s.journal) s here.journals_here
          (λ _. (
            record { logged = did-update c true s r.logged; supported = r.supported },
            did-update-IsSaved c s,
            f,
          ))
          (λ _ _. (record { logged = did-update c false s r.logged; supported = r.supported }, f));
  }

  pub Triple-update :
      (c : Context) (F : List Entry → Type 0)
      → Triple
          (λ s. Ready w s × F s.journal.entries)
          (update w c)
          (λ _ s. Ready w s × IsSaved s × F s.journal.entries)
          (λ _. Ready w)
  Triple-update c F = Triple-weaken (Triple-update_frame c F) (λ s h. h) (λ _ s h. h) (λ _ s h. h.0)

  pub Triple-record_intent :
      (c : Context) (e : Entry)
      → (e.kind ≡ dns_step → w.has dns ≡ true)
      → Triple
          (Ready w)
          (record_intent w c e)
          (λ i s. Ready w s × IsSaved s × StandsAt i e s)
          (λ _. Ready w)
  unfolding record_intent
  Triple-record_intent c e sup =
      Triple-bind
        (Triple-edit {Q = λ _ s. Ready w s × EndsWith e s.journal.entries} (append_entry e) λ s r. (
          record {
            logged =
                IsLogged-entries s.journal.entries _ s.history
                  (λ x h. pending-append x s.journal.entries (e ∷ []) h) r.logged;
            supported = All-append_one _ s.journal.entries e r.supported sup;
          },
          get_elem?-append_last s.journal.entries e,
        ))
        λ _. Triple-bind (Triple-stamp (EndsWith e)) λ _.
          Triple-bind (Triple-map_error _ _ (Triple-update c (EndsWith e)))
            λ _. Triple-gets _ (λ s h. h)

  -- The mutation that a saved, pending entry announces.
  pub Triple-take :
      (c : Context) (call : Call) (x : Resource) (i : ℕ) (e : Entry)
      → w.has (depends_on call) ≡ true
      → taken call ≡ some x
      → ((b : Bool) (cs : List (Option Journal)) → disk_after call b cs ≡ cs)
      → resource_of e.kind e.route ≡ some x
      → e.status ≢ rolled_back
      → Triple
          (λ s. Ready w s × IsSaved s × StandsAt i e s)
          (perform w c call)
          (λ _ s. Ready w s × StandsAt i e s)
          (λ _. Ready w)
  Triple-take c call x i e has takes same res live =
      Triple-perform w c call has (λ s (r, saved, at). (taking s true r saved at, at))
        (λ s (r, saved, at) _. taking s false r saved at)
    where
      taking :
          (s : State) (b : Bool) → Ready w s → IsSaved s → StandsAt i e s → Ready w (did c call b s)
      taking s b r saved at = record {
        logged =
            did-take c call b s x takes (same b) saved
              (pending_at x s.journal.entries i at res live) r.logged;
        supported = r.supported;
      }

  Triple-set_applied :
      (i : ℕ) (e : Entry)
      → Triple
          (λ s. Ready w s × StandsAt i e s)
          (set_status applied i)
          (λ _ s. Ready w s × Unit {0})
          (λ _. Ready w)
  unfolding set_status
  Triple-set_applied i e = record {
    at = λ s (r, at). rw at (
      record {
        logged =
            IsLogged-entries s.journal.entries _ s.history
              (λ x h. pending-set_live x s.journal.entries i applied at (λ q. cc) h) r.logged;
        supported =
            All-set _ s.journal.entries i _ r.supported
              (All-get_elem? _ s.journal.entries i r.supported at);
      },
      tt,
    );
  }

  pub Triple-mark_applied :
      (c : Context) (i : ℕ) (e : Entry)
      → Triple (λ s. Ready w s × StandsAt i e s) (mark_applied w c i) (λ _. Ready w) (λ _. Ready w)
  unfolding mark_applied
  Triple-mark_applied c i e = Triple-bind (Triple-set_applied i e) λ _.
      Triple-bind (Triple-stamp (λ _. Unit)) λ _.
        Triple-map_error _ _
          (Triple-weaken (Triple-update c (λ _. Unit)) (λ s h. h) (λ _ s h. h.0) (λ _ s h. h))

  pub Triple-apply_route :
      (c : Context) (kind : StepKind) (r : Route)
      → kind ≢ dns_step
      → resource_of kind (some r) ≡ some (route r)
      → Triple (Ready w) (apply_route w c kind r) (λ _. Ready w) (λ _. Ready w)
  unfolding apply_route
  Triple-apply_route c kind r ne res =
      let e : Entry = record { kind = kind; status = planned; route = some r } in
      Triple-bind {Q = λ _. Ready w}
        (Triple-map_error _ _ (
          Triple-lift (validate_route r) (validate_route-ne-panic r) (λ _ s _ h. h) (λ _ s _ h. h)))
        λ _. Triple-bind (Triple-record_intent c e (λ q. absurd (ne q))) λ i.
          Triple-bind
            (Triple-map_error _ _ (
              Triple-take c (add_route r) (route r) i e here.routes_here refl (λ _ _. refl) res
                (λ q. cc)))
            λ _. Triple-mark_applied c i e

  pub Triple-set_phase :
      (c : Context) (phase : Phase)
      → Triple (Ready w) (set_phase w c phase) (λ _. Ready w) (λ _. Ready w)
  unfolding set_phase
  Triple-set_phase c phase = Triple-bind {Q = λ _. Ready w} (Triple-gets _ (λ s h. h)) λ from.
      Triple-bind {Q = λ _. Ready w}
        (Triple-lift _
          (reject_if-ne-panic (not (allowed_transition from phase)) "invalid tunnel transition")
          (λ _ s _ h. h) (λ _ s _ h. h))
        λ _.
          Triple-bind {Q = λ _ s. Ready w s × Unit {0}}
            (Triple-edit (with_phase phase) (λ s h. (h, tt)))
            λ _. Triple-bind (Triple-stamp (λ _. Unit)) λ _.
              Triple-map_error _ _
                (Triple-weaken (Triple-update c (λ _. Unit)) (λ s h. h) (λ _ s h. h.0) (λ _ s h. h))
