-- ===== src/Tunnel/Safety/Lemmas.antt =====
-- One call, one change of the journal and the write-ahead invariant.
use nordmac.Base.{
  ℕ, zero, suc, Bool, true, false, Option, none, some, List, [], ◌∷◌, ◌++◌, ◌≡◌, refl, ◌≢◌, ◌⊎◌,
  All, arith, set, get_elem?, Error, Bool-cases, inl, inr,
}
use nordmac.Base.Triples.{Triple, Post}
use nordmac.Tunnel.Types.{StepStatus, rolled_back, status_eq, Entry, Journal}
use nordmac.Tunnel.World.{
  Call, update_journal, depends_on, Context, World, Event, History, State, outcome_of, is_nil,
  perform,
}
use nordmac.Tunnel.Safety.Host.{
  Resource, resource_eq, taken, owned, write, disk_after, on_disk, resource_of, pending, Covers,
  IsCrashSafe, IsSafe, IsClear, IsLogged, IsLoggedAt, IsSaved,
}

-- The state after one call.
abbrev pub did : Context → Call → Bool → State → State
did c call b s = record s {
  history = record { context = c; call = call; succeeded = b } ∷ s.history;
}

-- One call, with its dependency at hand, from one state.
pub perform-Post :
    (Q : Unit {0} → State → Type 0) (E : Error → State → Type 0) (w : World) (c : Context)
    (call : Call) (s : State)
    → w.has (depends_on call) ≡ true
    → (w.fails s.history c call ≡ none → Q tt (did c call true s))
    → ((e : Error) → w.fails s.history c call ≡ some e → E e (did c call false s))
    → Post Q E (perform w c call s).0 (perform w c call s).1
unfolding perform
perform-Post Q E w c call s here q e = rw here (go (w.fails s.history c call) refl)
  where
    go :
        (f : Option Error)
        → w.fails s.history c call ≡ f
        → Post Q E (outcome_of f) (did c call (is_nil f) s)
    go none h = q h
    go (some x) h = e x h

pub Triple-perform :
    {P : State → Type 0} {Q : Unit {0} → State → Type 0} {E : Error → State → Type 0} (w : World)
    (c : Context) (call : Call)
    → w.has (depends_on call) ≡ true
    → ((s : State) → P s → Q tt (did c call true s))
    → ((s : State) → P s → (e : Error) → E e (did c call false s))
    → Triple P (perform w c call) Q E
Triple-perform {Q} {E} w c call here q e = record {
  at = λ s p. perform-Post Q E w c call s here (λ _. q s p) (λ x _. e s p x);
}

pub now : (h : History) → IsSafe h → IsCrashSafe h
now [] h = h
now (e ∷ h) s = s.0

owned-quiet :
    (x : Resource) (e : Event) (h : History)
    → taken e.call ≡ none
    → owned x (e ∷ h) ≡ true
    → owned x h ≡ true
unfolding owned
owned-quiet x e h q o = ground arith

owned-take :
    (x y : Resource) (e : Event) (h : History)
    → taken e.call ≡ some y
    → owned x (e ∷ h) ≡ true
    → (x ≡ y) ⊎ (owned x h ≡ true)
unfolding owned
owned-take x y e h q o = ground arith

-- A call that takes nothing and does not write the journal.
pub did-quiet :
    (c : Context) (call : Call) (b : Bool) (s : State)
    → taken call ≡ none
    → ((cs : List (Option Journal)) → disk_after call b cs ≡ cs)
    → IsLoggedAt s
    → IsLoggedAt (did c call b s)
unfolding on_disk
did-quiet c call b s quiet same l =
    let e : Event = record { context = c; call = call; succeeded = b } in
    record {
      safe = (
        λ x o.
            rw (same (on_disk s.history))
              (now s.history l.safe x (owned-quiet x e s.history quiet o)),
        l.safe,
      );
      recorded = λ x o. l.recorded x (owned-quiet x e s.history quiet o);
    }

-- A call that takes a resource which the saved journal has pending.
pub did-take :
    (c : Context) (call : Call) (b : Bool) (s : State) (x : Resource)
    → taken call ≡ some x
    → ((cs : List (Option Journal)) → disk_after call b cs ≡ cs)
    → IsSaved s
    → pending x s.journal.entries ≡ true
    → IsLoggedAt s
    → IsLoggedAt (did c call b s)
unfolding on_disk
did-take c call b s x takes same saved p l =
    let e : Event = record { context = c; call = call; succeeded = b } in
    let known : (y : Resource)
        → owned y (e ∷ s.history) ≡ true
        → pending y s.journal.entries ≡ true =
      λ y o. elim (owned-take y x e s.history takes o) [
        | inl q ↦ rw q p
        | inr o' ↦ l.recorded y o'
      ] in
    record {
      safe = (λ y o. rw (same (on_disk s.history), saved) (known y o, tt), l.safe);
      recorded = known;
    }

Covers-of_recorded :
    (x : Resource) (j : Journal) (b : Bool) (cs : List (Option Journal))
    → pending x j.entries ≡ true
    → All (Covers x) cs
    → All (Covers x) (write b (some j) cs)
Covers-of_recorded x j true cs p a = (p, tt)
Covers-of_recorded x j false cs p a = (p, a)

-- A write of the journal in memory.
pub did-update :
    (c : Context) (b : Bool) (s : State)
    → IsLoggedAt s
    → IsLoggedAt (did c (update_journal s.journal) b s)
unfolding on_disk
did-update c b s l =
    let e : Event = record { context = c; call = update_journal s.journal; succeeded = b } in
    record {
      safe = (
        λ x o.
            let o' = owned-quiet x e s.history refl o in
            Covers-of_recorded x s.journal b (on_disk s.history) (l.recorded x o')
              (now s.history l.safe x o'),
        l.safe,
      );
      recorded = λ x o. l.recorded x (owned-quiet x e s.history refl o);
    }

pub did-update-IsSaved :
    (c : Context) (s : State) → IsSaved (did c (update_journal s.journal) true s)
unfolding on_disk
did-update-IsSaved c s = refl

-- The entries change in memory and keep what is pending.
pub IsLogged-entries :
    (es fs : List Entry) (h : History)
    → ((x : Resource) → pending x es ≡ true → pending x fs ≡ true)
    → IsLogged es h
    → IsLogged fs h
IsLogged-entries es fs h keep l = record {
  safe = l.safe;
  recorded = λ x o. keep x (l.recorded x o);
}

pub pending-append :
    (x : Resource) (es fs : List Entry) → pending x es ≡ true → pending x (es ++ fs) ≡ true
unfolding pending
pending-append x [] fs h = cc
pending-append x (e ∷ es) fs h = ground (arith, pending-append x es fs)

-- A mark other than `rolled_back` keeps every entry that is pending.
pub pending-set_live :
    (x : Resource) (es : List Entry) (i : ℕ) (st : StepStatus) {e : Entry}
    → get_elem? es i ≡ some e
    → st ≢ rolled_back
    → pending x es ≡ true
    → pending x (set es i (record e { status = st })) ≡ true
unfolding pending
pending-set_live x [] i st g ne h = cc
pending-set_live x (e' ∷ es) zero st g ne h = ground arith
pending-set_live x (e' ∷ es) (suc i) st g ne h = ground (arith, pending-set_live x es i st g ne)

-- The mark `rolled_back` keeps the pending entries of every other resource.
pub pending-set_rolled_back :
    (x : Resource) (es : List Entry) (i : ℕ) {e : Entry}
    → get_elem? es i ≡ some e
    → resource_of e.kind e.route ≢ some x
    → pending x es ≡ true
    → pending x (set es i (record e { status = rolled_back })) ≡ true
unfolding pending
pending-set_rolled_back x [] i g ne h = cc
pending-set_rolled_back x (e' ∷ es) zero g ne h = ground arith
pending-set_rolled_back x (e' ∷ es) (suc i) g ne h =
    ground (arith, pending-set_rolled_back x es i g ne)

pub pending_at :
    (x : Resource) (es : List Entry) (i : ℕ) {e : Entry}
    → get_elem? es i ≡ some e
    → resource_of e.kind e.route ≡ some x
    → e.status ≢ rolled_back
    → pending x es ≡ true
unfolding pending
pending_at x [] i g r ne = cc
pending_at x (e' ∷ es) zero g r ne = ground arith
pending_at x (e' ∷ es) (suc i) g r ne = ground (arith, pending_at x es i g r ne)

pub IsClear-quiet : (e : Event) (h : History) → taken e.call ≡ none → IsClear h → IsClear (e ∷ h)
IsClear-quiet e h quiet clear x = elim (Bool-cases (owned x (e ∷ h))) [
  | inl o ↦ cc (owned-quiet x e h quiet o, clear x)
  | inr n ↦ n
]

-- While nothing is owned, any call that takes nothing is safe, also the deletion of the journal.
pub did-clear :
    (c : Context) (call : Call) (b : Bool) (s : State)
    → taken call ≡ none
    → IsClear s.history
    → IsSafe s.history
    → IsLoggedAt (did c call b s)
did-clear c call b s quiet clear safe =
    let e : Event = record { context = c; call = call; succeeded = b } in
    let clear' = IsClear-quiet e s.history quiet clear in
    record {
      safe = (λ x o. absurd (cc (clear' x)), safe);
      recorded = λ x o. absurd (cc (clear' x));
    }

-- A call that takes nothing and does not write the journal, after a safe history.
pub IsSafe-quiet :
    (e : Event) (h : History)
    → taken e.call ≡ none
    → ((cs : List (Option Journal)) → disk_after e.call e.succeeded cs ≡ cs)
    → IsSafe h
    → IsSafe (e ∷ h)
unfolding on_disk
IsSafe-quiet e h quiet same safe =
    (λ x o. rw (same (on_disk h)) (now h safe x (owned-quiet x e h quiet o)), safe)
