-- ===== src/Tunnel/Safety/Disconnect.antt =====
-- `Controller.Disconnect` and what it finds on disk (internal/tunnel/controller.go).
use nordmac.Base.{
  ℕ, suc, true, false, not, ◌&&◌, Option, none, some, List, [], ◌∷◌, ◌≡◌, refl, ◌∙◌, ap, ◌≢◌, ◌⊎◌,
  inl, inr, All, arith, ok, panic, Error, Sentinel, is_error, reject_if-pass, reject_if-ne-panic,
  pass, String, Text, ℤ, Bool-cases, subst, get_elem?, >>-pass, ◌==◌, if◌then◌else◌,
}
use nordmac.Base.Actions.{◌>>◌}
use nordmac.Base.Triples.{
  Triple, Triple-bind, Triple-gets, Triple-map_error, Triple-lift, Triple-weaken, Triple-assume,
  Triple-finally, Triple-attempt, Attempted, Post-ok, Post-ne-panic, Post-always,
}
use nordmac.Tunnel.Types.{
  phase_eq, disconnected, rolled_back, StepStatus, status_eq, Entry, Journal,
}
use nordmac.Tunnel.Plan.{uses_dns}
use nordmac.Tunnel.Journal.{validate_journal, expected_kinds, check_statuses, check_phase}
use nordmac.Tunnel.Validity.Entries.{check_entries-AllFit}
use nordmac.Tunnel.Validity.Routes.{dns_step-uses_dns}
use nordmac.Tunnel.Validity.Passes.{Passes, validate_journal-Passes}
use nordmac.Tunnel.Validity.Total.{validate_journal-ne-panic}
use nordmac.Tunnel.World.{
  acquire, release, load_journal, delete_journal, locks, dns, Context, caller_context, World,
  History, State, perform, edit,
}
use nordmac.Tunnel.Rollback.{rollback}
use nordmac.Tunnel.Disconnect.{
  validate_disconnect, remove_journal, recover, recover_loaded, disconnect_locked, disconnect,
}
use nordmac.Tunnel.Safety.Host.{owned, on_disk, Covers, IsSafe, IsClear, IsLogged}
use nordmac.Tunnel.Safety.Lemmas.{
  perform-Post, Triple-perform, now, did-clear, IsSafe-quiet, IsClear-quiet,
}
use nordmac.Tunnel.Safety.Steps.{HasCommon, IsReady, Ready, IsSupported, Triple-edit}
use nordmac.Tunnel.Safety.Rollback.{IsRolledBack, IsClear-done, Triple-rollback}
use nordmac.Tunnel.Safety.Whole.{IsSafeState, Triple-release_safe}

-- One of the states in which the journal file may be.
abbrev pub MayBe : Option Journal → List (Option Journal) → Type 0
MayBe x [] = ⊥
MayBe x (c ∷ cs) = (c ≡ x) ⊎ MayBe x cs

-- What `JournalStore.Load` documents of one session: it gives a journal that is on disk, and `ErrJournalNotFound` only
-- where there is none.
pub record IsHonestStore (w : World) (id : Text) : Type 0 where
  pub loads :
      (h : History) (c : Context)
      → w.fails h c (load_journal id) ≡ none
      → MayBe (some (w.stored h id)) (on_disk h)
  pub misses :
      (h : History) (c : Context) (e : Error)
      → w.fails h c (load_journal id) ≡ some e
      → is_error e Sentinel.journal_not_found ≡ true
      → MayBe none (on_disk h)

All-MayBe :
    (P : Option Journal → Type 0) (x : Option Journal) (cs : List (Option Journal))
    → All P cs
    → MayBe x cs
    → P x
All-MayBe P x [] a m = absurd m
All-MayBe P x (c ∷ cs) a (inl e) = subst P e a.0
All-MayBe P x (c ∷ cs) a (inr m) = All-MayBe P x cs a.1 m

-- A journal that may be on disk records whatever may be owned.
pub IsLogged-MayBe :
    (j : Journal) (h : History) → IsSafe h → MayBe (some j) (on_disk h) → IsLogged j.entries h
IsLogged-MayBe j h safe m = record {
  safe = safe;
  recorded = λ x o. All-MayBe (Covers x) (some j) (on_disk h) (now h safe x o) m;
}

-- Where there may be no journal, nothing is owned.
pub IsClear-MayBe : (h : History) → IsSafe h → MayBe none (on_disk h) → IsClear h
IsClear-MayBe h safe m x = elim (Bool-cases (owned x h)) [
  | inl o ↦ absurd (All-MayBe (Covers x) none (on_disk h) (now h safe x o) m)
  | inr n ↦ n
]

All-of_get_elem? :
    (P : Entry → Type 0) (es : List Entry)
    → ((i : ℕ) (e : Entry) → get_elem? es i ≡ some e → P e)
    → All P es
All-of_get_elem? P [] h = tt
All-of_get_elem? P (e ∷ es) h = (h 0 e refl, All-of_get_elem? P es (λ i x g. h (suc i) x g))

-- A valid journal has a DNS entry only if its plan uses DNS.
IsSupported-valid :
    (w : World) (j : Journal)
    → Passes j
    → (uses_dns j.plan ≡ true → w.has dns ≡ true)
    → IsSupported w j.entries
IsSupported-valid w j p sup = All-of_get_elem? _ j.entries λ i e g k.
    let f = check_entries-AllFit j.phase (expected_kinds j.plan) j.entries p.entries_pass i e g in
    sup (dns_step-uses_dns j.plan i (f.kind_fits ∙ ap some k))

check_statuses-All :
    (s : StepStatus) (m : String) (es : List Entry)
    → check_statuses s m es ≡ pass
    → All (λ e. e.status ≡ s) es
unfolding check_statuses
check_statuses-All s m [] h = tt
check_statuses-All s m (e ∷ es) h =
    let (a, b) = >>-pass _ _ h in
    let same = reject_if-pass _ _ a in (ground (arith, same), check_statuses-All s m es b)

-- A valid journal in the phase `disconnected` has every entry rolled back.
disconnected_done :
    (j : Journal) → Passes j → (j.phase == disconnected) ≡ true → All IsRolledBack j.entries
unfolding check_phase
disconnected_done j p down =
    let both = >>-pass _ _ p.phase_passes in
    check_statuses-All rolled_back "disconnected journal contains an owned entry" j.entries
      (rw down at both.1)

abbrev pub IsDown : State → Type 0
IsDown s = IsSafe s.history × IsClear s.history

module _ (w : World) (here : HasCommon w) where
  -- The journal that was loaded, as the rest of `recover` finds it.
  abbrev IsLoaded : Journal → State → Type 0
  IsLoaded j s = IsSafe s.history × MayBe (some j) (on_disk s.history)

  Triple-remove_journal :
      (session : Text)
      → Triple
          (λ s. Ready w s × All IsRolledBack s.journal.entries)
          (remove_journal w session)
          (λ _. IsDown)
          (λ _. IsSafeState)
  Triple-remove_journal session =
      Triple-perform w caller_context (delete_journal session) here.journals_here
        (λ s (r, d).
          let clear = IsClear-done w _ _ r d in
          (
            (did-clear caller_context (delete_journal session) true s refl clear
                r.logged.safe).safe,
            IsClear-quiet _ s.history refl clear,
          ))
        (λ s (r, d) _.
          let clear = IsClear-done w _ _ r d in
          (did-clear caller_context (delete_journal session) false s refl clear r.logged.safe).safe)

  Ready-loaded :
      (j : Journal) (s : State)
      → Passes j
      → (uses_dns j.plan ≡ true → w.has dns ≡ true)
      → IsLoaded j s
      → IsReady w j.entries s.history
  Ready-loaded j s p sup (safe, m) = record {
    logged = IsLogged-MayBe j s.history safe m;
    supported = IsSupported-valid w j p sup;
  }

  Triple-finish :
      (session : Text) (j : Journal)
      → Passes j
      → (uses_dns j.plan ≡ true → w.has dns ≡ true)
      → Triple
          (IsLoaded j)
          (edit (λ _. j)
            >> (if j.phase == disconnected
                then remove_journal w session
                else rollback w caller_context))
          (λ _. IsDown)
          (λ _. IsSafeState)
  Triple-finish session j p sup = elim (Bool-cases (j.phase == disconnected)) [
    | inl down ↦ rw down (
        Triple-bind
          (Triple-edit {Q = λ _ s. Ready w s × All IsRolledBack s.journal.entries} (λ _. j)
            (λ s l. (Ready-loaded j s p sup l, disconnected_done j p down)))
          λ _. Triple-remove_journal session)
    | inr up ↦ rw up (
        Triple-bind (Triple-edit {Q = λ _. Ready w} (λ _. j) (λ s l. Ready-loaded j s p sup l)) λ _.
          Triple-weaken (Triple-rollback w here caller_context) (λ s r. r)
            (λ _ s h. (h.0.logged.safe, h.1)) (λ _ s h. h.0.logged.safe))
  ]

  Triple-recover :
      (session : Text) (owner : ℤ) (j : Journal)
      → Triple (IsLoaded j) (recover w session owner j) (λ _. IsDown) (λ _. IsSafeState)
  unfolding recover
  Triple-recover session owner j =
      Triple-bind {Q = λ _ s. IsLoaded j s × Passes j}
        (Triple-map_error _ _ (
          Triple-lift (validate_journal j) (validate_journal-ne-panic j)
            (λ _ s e l. (l, validate_journal-Passes j e)) (λ _ s _ l. l.0)))
        λ _. Triple-assume λ p.
          Triple-bind {Q = λ _. IsLoaded j}
            (Triple-lift _ (reject_if-ne-panic _ _) (λ _ s _ l. l) (λ _ s _ l. l.0))
            λ _.
              Triple-bind {Q = λ _ s. IsLoaded j s × (uses_dns j.plan ≡ true → w.has dns ≡ true)}
                (Triple-lift _ (reject_if-ne-panic (uses_dns j.plan && not (w.has dns)) _)
                  (λ _ s e l. let b = reject_if-pass _ _ e in (l, λ u. ground (arith, b)))
                  (λ _ s _ l. l.0))
                λ _. Triple-assume λ sup. Triple-finish session j p sup

  Triple-recover_loaded :
      (session : Text) (owner : ℤ) (j : Journal) (f : Option Error)
      → Triple
          (Attempted {A = Unit {0}}
            (λ _. IsLoaded j)
            (λ e s.
              IsSafe s.history × (is_error e Sentinel.journal_not_found ≡ true → IsClear s.history))
            f)
          (recover_loaded w session owner j f)
          (λ _. IsDown)
          (λ _. IsSafeState)
  Triple-recover_loaded session owner j none =
      Triple-weaken (Triple-recover session owner j) (λ s h. h.1) (λ _ s h. h) (λ _ s h. h)
  Triple-recover_loaded session owner j (some e) =
      elim (Bool-cases (is_error e Sentinel.journal_not_found)) [
        | inl missing ↦ record { at = λ s (safe, clear). rw missing (safe, clear missing) }
        | inr other ↦ record { at = λ s (safe, clear). rw other safe }
      ]

  -- What the answer of the journal store says.
  Triple-load :
      (session : Text) (j : Journal)
      → IsHonestStore w session
      → Triple
          (λ s. IsSafe s.history × (j ≡ w.stored s.history session))
          (perform w caller_context (load_journal session))
          (λ _. IsLoaded j)
          (λ e s.
            IsSafe s.history × (is_error e Sentinel.journal_not_found ≡ true → IsClear s.history))
  unfolding on_disk
  Triple-load session j honest = record {
    at = λ s (safe, e).
        perform-Post _ _ w caller_context (load_journal session) s here.journals_here
          (λ fine. (
            IsSafe-quiet _ s.history refl (λ _. refl) safe,
            rw e (honest.loads s.history caller_context fine),
          ))
          (λ x missed. (
            IsSafe-quiet _ s.history refl (λ _. refl) safe,
            λ q.
                IsClear-quiet _ s.history refl (
                  IsClear-MayBe s.history safe (honest.misses s.history caller_context x missed q)),
          ));
  }

  Triple-disconnect_locked :
      (session : Text) (owner : ℤ)
      → IsHonestStore w session
      → Triple IsSafeState (disconnect_locked w session owner) (λ _. IsDown) (λ _. IsSafeState)
  unfolding disconnect_locked
  Triple-disconnect_locked session owner honest =
      Triple-bind
        (Triple-gets {Q = λ j s. IsSafe s.history × (j ≡ w.stored s.history session)} _
          (λ s safe. (safe, refl)))
        λ j.
          Triple-bind (Triple-attempt (Triple-load session j honest))
            λ f. Triple-recover_loaded session owner j f

module _ (w : World) where
  Triple-disconnect :
      (session : Text) (owner : ℤ)
      → IsHonestStore w session
      → Triple IsSafeState (disconnect w session owner) (λ _. IsDown) (λ _. IsSafeState)
  unfolding disconnect validate_disconnect
  Triple-disconnect session owner honest =
      Triple-bind {Q = λ _. IsSafeState}
        (Triple-lift _ (reject_if-ne-panic _ _) (λ _ s _ h. h) (λ _ s _ h. h))
        λ _.
          Triple-bind {Q = λ _ s. IsSafeState s × (HasCommon w × (w.has locks ≡ true))}
            (Triple-lift (validate_disconnect w) (reject_if-ne-panic _ _)
              (λ _ s e h.
                let a = reject_if-pass _ _ e in
                (
                  h,
                  (
                    record {
                      journals_here = ground (arith, a);
                      routes_here = ground (arith, a);
                      devices_here = ground (arith, a);
                    },
                    ground (arith, a),
                  ),
                ))
              (λ _ s _ h. h))
            λ _. Triple-assume λ (here, lock).
              Triple-bind {Q = λ _. IsSafeState}
                (Triple-map_error _ _ (
                  Triple-perform w caller_context (acquire session) lock
                    (λ s h. IsSafe-quiet _ s.history refl (λ _. refl) h)
                    (λ s h _. IsSafe-quiet _ s.history refl (λ _. refl) h)))
                λ _.
                  Triple-finally (Triple-disconnect_locked w here session owner honest)
                    (λ _. Triple-map_error _ _ (
                      Triple-perform w caller_context (release session) lock
                        (λ s (safe, clear). (
                          IsSafe-quiet _ s.history refl (λ _. refl) safe,
                          IsClear-quiet _ s.history refl clear,
                        ))
                        (λ s h _. IsSafe-quiet _ s.history refl (λ _. refl) h.0)))
                    (λ e. Triple-map_error _ _ (
                      Triple-weaken (Triple-release_safe w session lock) (λ s h. h) (λ _ s h. h)
                        (λ _ s h. h.0)))

-- With a journal store that loads what is on disk, every point of the history of a call of `Disconnect`
-- after a crash-safe history is crash-safe again, whatever fails.
pub disconnect-IsSafe :
    (w : World) (session : Text) (owner : ℤ) (s : State)
    → IsHonestStore w session
    → IsSafe s.history
    → IsSafe (disconnect w session owner s).1.history
disconnect-IsSafe w session owner s honest safe =
    Post-always (λ _. IsDown) (λ _. IsSafeState) IsSafeState _ _ (λ _ h. h.0) (λ _ h. h)
      ((Triple-disconnect w session owner honest).at s safe)

-- With a journal store that loads what is on disk, a call of `Disconnect` after a crash-safe history that
-- returns without an error leaves nothing owned.
pub disconnect-IsClear :
    (w : World) (session : Text) (owner : ℤ) (s : State)
    → IsHonestStore w session
    → IsSafe s.history
    → (disconnect w session owner s).0 ≡ ok tt
    → IsClear (disconnect w session owner s).1.history
disconnect-IsClear w session owner s honest safe done =
    (Post-ok (λ _. IsDown) (λ _. IsSafeState) _ _ tt
      ((Triple-disconnect w session owner honest).at s safe) done).1

-- With a journal store that loads what is on disk, `Disconnect` after a crash-safe history never panics.
pub disconnect-ne-panic :
    (w : World) (session : Text) (owner : ℤ) (s : State)
    → IsHonestStore w session
    → IsSafe s.history
    → (disconnect w session owner s).0 ≢ panic
disconnect-ne-panic w session owner s honest safe =
    Post-ne-panic (λ _. IsDown) (λ _. IsSafeState) _ _
      ((Triple-disconnect w session owner honest).at s safe)
