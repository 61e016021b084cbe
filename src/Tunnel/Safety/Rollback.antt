-- ===== src/Tunnel/Safety/Rollback.antt =====
-- `Controller.rollback` and the write-ahead invariant (internal/tunnel/controller.go).
use nordmac.Base.{
  ℕ, zero, suc, ◌≤◌, Bool, true, false, Option, none, some, List, [], ◌∷◌, ◌++◌, ◌≡◌, refl, ◌≢◌,
  All, All-get_elem?, get_elem?-in_range, is_error-join, is_error-join_all, arith, set, get_elem?,
  length, Error, Sentinel, is_error, inl, inr, ◌==◌, Bool-cases, Text,
}
use nordmac.Base.Actions.{pure}
use nordmac.Base.Triples.{
  Triple, Attempted, Triple-pure, Triple-raise, Triple-bind, Triple-attempt, Triple-weaken,
  Triple-gets, Triple-map_error,
}
use nordmac.Tunnel.Types.{
  Phase, phase_eq, disconnecting, disconnected, rollback_required, rolled_back, status_eq, dns_step,
  Entry,
}
use nordmac.Tunnel.World.{delete_journal, dns, Context, World, History, State}
use nordmac.Tunnel.Phases.{allowed_transition}
use nordmac.Tunnel.Steps.{set_status, with_phase}
use nordmac.Tunnel.Rollback.{
  settle, add_error, rollback_entry, rollback_at, rollback_entries, enter_phase, begin_rollback,
  finish_rollback, rollback,
}
use nordmac.Tunnel.Safety.Host.{Resource, owned, pending, IsClear, IsSaved}
use nordmac.Tunnel.Safety.Lemmas.{did, Triple-perform, did-clear, IsClear-quiet}
use nordmac.Tunnel.Safety.Steps.{
  HasCommon, IsReady, Ready, StandsAt, Triple-stamp, Triple-update_frame, Triple-edit,
}
use nordmac.Tunnel.Safety.Release.{IsReleased, Triple-compensate, Ready-set_rolled_back}

abbrev pub IsRolledBack : Entry → Type 0
IsRolledBack e = e.status ≡ rolled_back

-- Every entry from the index on is rolled back.
abbrev pub DoneFrom : ℕ → List Entry → Type 0
DoneFrom zero es = All IsRolledBack es
DoneFrom (suc n) [] = Unit
DoneFrom (suc n) (e ∷ es) = DoneFrom n es

DoneFrom-length : (es : List Entry) → DoneFrom (length es) es
DoneFrom-length [] = tt
DoneFrom-length (e ∷ es) = DoneFrom-length es

DoneFrom-step :
    (n : ℕ) (es : List Entry) {e : Entry}
    → get_elem? es n ≡ some e
    → e.status ≡ rolled_back
    → DoneFrom (suc n) es
    → DoneFrom n es
DoneFrom-step n [] g r d = cc
DoneFrom-step zero (x ∷ es) g r d = (ground arith, d)
DoneFrom-step (suc n) (x ∷ es) g r d = DoneFrom-step n es g r d

DoneFrom-set :
    (n : ℕ) (es : List Entry) (v : Entry) {e : Entry}
    → get_elem? es n ≡ some e
    → v.status ≡ rolled_back
    → DoneFrom (suc n) es
    → DoneFrom n (set es n v)
DoneFrom-set n [] v g r d = cc
DoneFrom-set zero (x ∷ es) v g r d = (r, d)
DoneFrom-set (suc n) (x ∷ es) v g r d = DoneFrom-set n es v g r d

-- With no error so far, the loop has rolled back everything from the index on.
abbrev Loop : ℕ → List Error → List Entry → Type 0
Loop n errors es = (n ≤ length es) × (errors ≡ [] → DoneFrom n es)

append_one-ne-nil {ℓ} : {A : Type ℓ} (xs : List A) (x : A) → xs ++ (x ∷ []) ≢ []
append_one-ne-nil [] x h = cc
append_one-ne-nil (y ∷ xs) x h = cc

length-set {ℓ} : {A : Type ℓ} (xs : List A) (i : ℕ) (v : A) → length (set xs i v) ≡ length xs
length-set [] i v = refl
length-set (x ∷ xs) zero v = refl
length-set (x ∷ xs) (suc i) v = omega (arith, length-set xs i v)

Loop-error :
    (n : ℕ) (errors : List Error) (e : Error) (es : List Entry)
    → n ≤ length es
    → Loop n (errors ++ (e ∷ [])) es
Loop-error n errors e es h = (h, λ q. absurd (append_one-ne-nil errors e q))

-- No entry that is rolled back is pending.
pending_done : (es : List Entry) → All IsRolledBack es → (x : Resource) → pending x es ≡ false
unfolding pending
pending_done [] h x = refl
pending_done (e ∷ es) h x = ground (arith, pending_done es h.1 x)

pub IsClear-done :
    (w : World) (es : List Entry) (h : History) → IsReady w es h → All IsRolledBack es → IsClear h
IsClear-done w es h r done x = elim (Bool-cases (owned x h)) [
  | inl o ↦ cc (r.logged.recorded x o, pending_done es done x)
  | inr n ↦ n
]

-- The error says that the rollback is incomplete.
abbrev pub IsIncomplete : Error → Type 0
IsIncomplete e = is_error e Sentinel.rollback_incomplete ≡ true

module _ (w : World) (here : HasCommon w) where
  Triple-set_rolled_back :
      {E : Error → State → Type 0} (n : ℕ) (errors : List Error) (e : Entry)
      → Triple
          (λ s.
            Ready w s
            × (StandsAt n e s × Loop (suc n) errors s.journal.entries)
            × IsReleased e.kind e.route s.history)
          (set_status rolled_back n)
          (λ _ s. Ready w s × Loop n errors s.journal.entries)
          E
  unfolding set_status
  Triple-set_rolled_back n errors e = record {
    at = λ s (r, (at, (bound, d)), gone). rw at (
      Ready-set_rolled_back w here s.journal.entries s.history n e r at gone,
      (
        omega (arith, length-set s.journal.entries n (record e { status = rolled_back })),
        λ q. DoneFrom-set n s.journal.entries _ at refl (d q),
      ),
    );
  }

  Triple-settle :
      (c : Context) (n : ℕ) (errors : List Error) (e : Entry) (f : Option Error)
      → Triple
          (Attempted {A = Unit {0}}
            (λ _ s.
              Ready w s
              × (StandsAt n e s × Loop (suc n) errors s.journal.entries)
              × IsReleased e.kind e.route s.history)
            (λ _ s. Ready w s × (StandsAt n e s × Loop (suc n) errors s.journal.entries))
            f)
          (settle w c n errors f)
          (λ errs s. Ready w s × Loop n errs s.journal.entries)
          (λ _ _. ⊥)
  unfolding settle
  Triple-settle c n errors e (some x) =
      Triple-pure _
        (λ s (r, (at, loop)). (r, Loop-error n errors _ s.journal.entries (omega arith)))
  Triple-settle c n errors e none =
      Triple-bind
        (Triple-weaken (Triple-set_rolled_back n errors e) (λ s h. h.1) (λ _ s h. h) (λ _ s h. h))
        λ _. Triple-bind (Triple-stamp w here (Loop n errors)) λ _.
          Triple-bind (Triple-attempt (Triple-update_frame w here c (Loop n errors))) λ f. ends f
    where
      ends :
          (f : Option Error)
          → Triple
              (Attempted {A = Unit {0}}
                (λ _ s. Ready w s × IsSaved s × Loop n errors s.journal.entries)
                (λ _ s. Ready w s × Loop n errors s.journal.entries)
                f)
              (pure (add_error "persist rolled-back" errors f))
              (λ errs s. Ready w s × Loop n errs s.journal.entries)
              (λ _ _. ⊥)
      ends none = Triple-pure _ (λ s (_, (r, _, loop)). (r, loop))
      ends (some x) =
          Triple-pure _ (λ s (r, loop). (r, Loop-error n errors _ s.journal.entries loop.0))

  Triple-rollback_entry :
      (c : Context) (n : ℕ) (errors : List Error) (e : Entry)
      → (e.kind ≡ dns_step → w.has dns ≡ true)
      → Triple
          (λ s. Ready w s × (StandsAt n e s × Loop (suc n) errors s.journal.entries))
          (rollback_entry w c n errors e)
          (λ errs s. Ready w s × Loop n errs s.journal.entries)
          (λ _ _. ⊥)
  unfolding rollback_entry
  Triple-rollback_entry c n errors e sup = elim (Bool-cases (e.status == rolled_back)) [
    | inl old ↦ rw old (
        Triple-pure errors (λ s (r, (at, (bound, d))).
          (r, (omega arith, λ q. DoneFrom-step n s.journal.entries at (ground arith) (d q)))))
    | inr live ↦ rw live (
        Triple-bind
          (Triple-attempt (
            Triple-compensate w here
              (λ j. (get_elem? j.entries n ≡ some e) × Loop (suc n) errors j.entries) c e.kind
              e.route sup))
          λ f. Triple-settle c n errors e f)
  ]

  Triple-rollback_at :
      (c : Context) (n : ℕ) (errors : List Error) (o : Option Entry)
      → Triple
          (λ s.
            Ready w s × Loop (suc n) errors s.journal.entries × (get_elem? s.journal.entries n ≡ o))
          (rollback_at w c n errors o)
          (λ errs s. Ready w s × Loop n errs s.journal.entries)
          (λ _ _. ⊥)
  Triple-rollback_at c n errors none = record {
    at =
        λ s (r, (bound, d), out). absurd (get_elem?-in_range s.journal.entries n (omega arith) out);
  }
  Triple-rollback_at c n errors (some e) = record {
    at = λ s (r, loop, at).
        (Triple-rollback_entry c n errors e (All-get_elem? _ s.journal.entries n r.supported at)).at
          s (r, (at, loop));
  }

  Triple-rollback_entries :
      (c : Context) (n : ℕ) (errors : List Error)
      → Triple
          (λ s. Ready w s × Loop n errors s.journal.entries)
          (rollback_entries w c n errors)
          (λ errs s. Ready w s × (errs ≡ [] → All IsRolledBack s.journal.entries))
          (λ _ _. ⊥)
  unfolding rollback_entries
  Triple-rollback_entries c zero errors = Triple-pure errors (λ s (r, loop). (r, loop.1))
  Triple-rollback_entries c (suc n) errors =
      Triple-bind
        (Triple-gets
          {Q = λ o s.
            Ready w s × Loop (suc n) errors s.journal.entries × (get_elem? s.journal.entries n ≡ o)}
          _ (λ s (r, loop). (r, loop, refl)))
        λ o. Triple-bind (Triple-rollback_at c n errors o) λ errs. Triple-rollback_entries c n errs

  Triple-enter_phase :
      (c : Context) (phase : Phase) (F : List Entry → Type 0)
      → Triple
          (λ s. Ready w s × F s.journal.entries)
          (enter_phase w c phase)
          (λ f s. Ready w s × F s.journal.entries)
          (λ _ _. ⊥)
  unfolding enter_phase
  Triple-enter_phase c phase F =
      Triple-bind {Q = λ _ s. Ready w s × F s.journal.entries}
        (Triple-edit (with_phase phase) (λ s h. h))
        λ _. Triple-bind (Triple-stamp w here F) λ _.
          Triple-weaken (Triple-attempt (Triple-update_frame w here c F)) (λ s h. h) ends
            (λ _ s h. h)
    where
      ends :
          (f : Option Error) (s : State)
          → Attempted {A = Unit {0}}
              (λ _ t. Ready w t × IsSaved t × F t.journal.entries)
              (λ _ t. Ready w t × F t.journal.entries)
              f
              s
          → Ready w s × F s.journal.entries
      ends none s (_, (r, _, f)) = (r, f)
      ends (some x) s h = h

  Triple-begin_rollback :
      (c : Context) (phase : Phase)
      → Triple (Ready w) (begin_rollback w c phase) (λ _. Ready w) (λ _ _. ⊥)
  unfolding begin_rollback
  Triple-begin_rollback c phase = elim (Bool-cases (phase == disconnecting)) [
    | inl same ↦ rw same (Triple-pure [] (λ s r. r))
    | inr other ↦ rw other (elim (Bool-cases (allowed_transition phase disconnecting)) [
      | inl fine ↦ rw fine (
          Triple-bind {Q = λ _. Ready w}
            (Triple-weaken (Triple-enter_phase c disconnecting (λ _. Unit)) (λ s r. (r, tt))
              (λ _ s h. h.0) (λ _ s h. h))
            λ f. Triple-pure _ (λ s r. r))
      | inr bad ↦ rw bad (Triple-pure _ (λ s r. r))
    ])
  ]

  Triple-finish_rollback :
      (c : Context) (errors : List Error)
      → Triple
          (λ s. Ready w s × (errors ≡ [] → All IsRolledBack s.journal.entries))
          (finish_rollback w c errors)
          (λ _ s. Ready w s × IsClear s.history × All IsRolledBack s.journal.entries)
          (λ e s. Ready w s × IsIncomplete e)
  unfolding finish_rollback
  Triple-finish_rollback c (e ∷ errors) =
      Triple-bind {Q = λ _ s. Ready w s}
        (Triple-weaken (Triple-enter_phase c rollback_required (λ _. Unit)) (λ s h. (h.0, tt))
          (λ _ s h. h.0) (λ _ s h. absurd h))
        λ f. Triple-raise _ (λ s r. (r, is_error-join_all Sentinel.rollback_incomplete _))
  Triple-finish_rollback c [] =
      Triple-bind {Q = λ _ s. Ready w s × All IsRolledBack s.journal.entries}
        (Triple-edit (with_phase disconnected) (λ s (r, d). (r, d refl)))
        λ _. Triple-bind (Triple-stamp w here (All IsRolledBack)) λ _.
          Triple-bind
            (Triple-map_error _ _ (
              Triple-weaken (Triple-update_frame w here c (All IsRolledBack)) (λ s h. h)
                (λ _ s h. (h.0, h.2))
                (λ e s h. (h.0, is_error-join Sentinel.rollback_incomplete _))))
            λ _.
              Triple-bind {Q = λ _ s. Ready w s × All IsRolledBack s.journal.entries}
                (Triple-gets _ (λ s h. h))
                λ id. Triple-map_error _ _ (
                  Triple-perform w c (delete_journal id) here.journals_here
                    (λ s (r, d). (deleted s true r d id, clear s true r d id, d))
                    (λ s (r, d) e.
                      (deleted s false r d id, is_error-join Sentinel.rollback_incomplete _)))
    where
      deleted :
          (s : State) (b : Bool)
          → Ready w s
          → All IsRolledBack s.journal.entries
          → (id : Text) → Ready w (did c (delete_journal id) b s)
      deleted s b r d id = record {
        logged = did-clear c (delete_journal id) b s refl (IsClear-done w _ _ r d) r.logged.safe;
        supported = r.supported;
      }

      clear :
          (s : State) (b : Bool)
          → Ready w s
          → All IsRolledBack s.journal.entries
          → (id : Text) → IsClear (did c (delete_journal id) b s).history
      clear s b r d id = IsClear-quiet _ s.history refl (IsClear-done w _ _ r d)

  -- From the invariant, a rollback ends with nothing owned or with an error that says so.
  pub Triple-rollback :
      (c : Context)
      → Triple
          (Ready w)
          (rollback w c)
          (λ _ s. Ready w s × IsClear s.history × All IsRolledBack s.journal.entries)
          (λ e s. Ready w s × IsIncomplete e)
  unfolding rollback
  Triple-rollback c = Triple-bind {Q = λ _. Ready w} (Triple-gets _ (λ s h. h)) λ phase.
      Triple-bind
        (Triple-weaken (Triple-begin_rollback c phase) (λ s h. h) (λ _ s h. h) (λ _ s h. absurd h))
        λ errors.
          Triple-bind
            (Triple-gets {Q = λ n s. Ready w s × Loop n errors s.journal.entries} _
              (λ s r. (r, (omega arith, λ _. DoneFrom-length s.journal.entries))))
            λ n.
              Triple-bind
                (Triple-weaken (Triple-rollback_entries c n errors) (λ s h. h) (λ _ s h. h)
                  (λ _ s h. absurd h))
                λ errs. Triple-finish_rollback c errs
