-- ===== src/Tunnel/Safety/Locked.antt =====
-- `Controller.Connect` under the lock (internal/tunnel/controller.go).
use nordmac.Base.{
  Bool, true, false, none, [], ◌≡◌, refl, sym, ◌⊎◌, inl, inr, All, arith, Outcome, ok, err, panic,
  Error, join, is_error, subst,
}
use nordmac.Base.Triples.{
  Triple, Post, Triple-pure, Triple-bind, Triple-gets, Triple-map_error, Triple-lift, Triple-weaken,
}
use nordmac.Tunnel.Types.{Plan}
use nordmac.Tunnel.Plan.{uses_dns, dns_config}
use nordmac.Tunnel.Panics.{validate_physical_preimage-ne-panic}
use nordmac.Tunnel.Validity.Total.{validate_journal-ne-panic}
use nordmac.Tunnel.World.{
  Call, check_conflicts, snapshot_routes, snapshot_dns, create_journal, locks, conflicts, dns,
  verifier, depends_on, Context, caller_context, rollback_context, World, State, perform,
}
use nordmac.Tunnel.Steps.{Done}
use nordmac.Tunnel.Rollback.{rollback}
use nordmac.Tunnel.Connect.{
  establish, after_rollback, fail, or_rollback, take_dns, new_journal, prepare, connect_locked,
}
use nordmac.Tunnel.Safety.Host.{taken, IsSafe, IsClear}
use nordmac.Tunnel.Safety.Lemmas.{did, Triple-perform, did-clear, IsClear-quiet}
use nordmac.Tunnel.Safety.Steps.{HasCommon, IsReady, Ready, Triple-edit}
use nordmac.Tunnel.Safety.Connect.{Triple-establish}
use nordmac.Tunnel.Safety.Rollback.{IsIncomplete, IsRolledBack, Triple-rollback}

-- Nothing is owned, and every point so far is crash-safe.
abbrev pub IsIdle : State → Type 0
IsIdle s = IsSafe s.history × IsClear s.history

-- A method failed: nothing is owned, or the error says that the rollback is incomplete.
abbrev pub HasFailed : Error → State → Type 0
HasFailed e s = IsSafe s.history × (IsClear s.history ⊎ IsIncomplete e)

-- The lock and the other dependencies that only `Connect` uses.
pub record HasConnect (w : World) (plan : Plan) : Type 0 where
  pub common : HasCommon w
  pub locks_here : w.has locks ≡ true
  pub conflicts_here : w.has conflicts ≡ true
  pub verifier_here : w.has verifier ≡ true
  pub dns_here : uses_dns plan ≡ true → w.has dns ≡ true

pub IsIdle-did :
    (c : Context) (call : Call) (b : Bool) (s : State)
    → taken call ≡ none
    → IsIdle s
    → IsIdle (did c call b s)
IsIdle-did c call b s q (safe, clear) =
    ((did-clear c call b s q clear safe).safe, IsClear-quiet _ s.history q clear)

-- A call before anything is owned.
pub Triple-IsIdle :
    (w : World) (call : Call)
    → w.has (depends_on call) ≡ true
    → taken call ≡ none
    → Triple IsIdle (perform w caller_context call) (λ _. IsIdle) (λ _. IsIdle)
Triple-IsIdle w call has q =
    Triple-perform w caller_context call has (λ s i. IsIdle-did caller_context call true s q i)
      (λ s i _. IsIdle-did caller_context call false s q i)

IsIncomplete-join : (a b : Error) → IsIncomplete a ⊎ IsIncomplete b → IsIncomplete (join a b)
unfolding is_error
IsIncomplete-join a b h = ground arith

module _ (w : World) (here : HasCommon w) where
  Post-after_rollback :
      (e : Error) (r : Outcome (Unit {0})) (s : State)
      → Post
          (λ _ t. Ready w t × IsClear t.history × All IsRolledBack t.journal.entries)
          (λ x t. Ready w t × IsIncomplete x)
          r
          s
      → Post (λ _ t. IsSafe t.history) HasFailed (after_rollback w e r) s
  Post-after_rollback e (ok _) s (r, clear, _) = (r.logged.safe, inl clear)
  Post-after_rollback e (err x) s (r, q) = (r.logged.safe, inr (IsIncomplete-join e x (inr q)))
  Post-after_rollback e panic s h = h

  Post-fail :
      (r : Outcome (Unit {0})) (s : State)
      → Post (λ _. Ready w) (λ _. Ready w) r s
      → Post (λ _ t. IsSafe t.history) HasFailed (fail w r s).0 (fail w r s).1
  Post-fail (ok _) s h = h.logged.safe
  Post-fail (err e) s h =
      Post-after_rollback e (rollback w rollback_context s).0 (rollback w rollback_context s).1
        ((Triple-rollback w here rollback_context).at s h)
  Post-fail panic s h = h

  -- `fail` undoes what a failed method did.
  Triple-or_rollback :
      {P : State → Type 0} (m : Done)
      → Triple P m (λ _. Ready w) (λ _. Ready w)
      → Triple P (or_rollback w m) (λ _ s. IsSafe s.history) HasFailed
  Triple-or_rollback m tr = record { at = λ s p. Post-fail (m s).0 (m s).1 (tr.at s p) }

  Triple-take_dns :
      (b : Bool) (plan : Plan)
      → (b ≡ true → w.has dns ≡ true)
      → Triple IsIdle (take_dns w b plan) (λ _. IsIdle) (λ _. IsIdle)
  unfolding take_dns
  Triple-take_dns false plan sup = Triple-pure _ (λ s h. h)
  Triple-take_dns true plan sup = Triple-bind {Q = λ _. IsIdle} (Triple-gets _ (λ s h. h)) λ before.
      Triple-bind
        (Triple-map_error _ _ (Triple-IsIdle w (snapshot_dns (dns_config plan)) (sup refl) refl))
        λ _. Triple-pure before (λ s h. h)

  Ready-start : (s : State) → IsIdle s → IsReady w [] s.history
  Ready-start s (safe, clear) = record {
    logged = record { safe = safe; recorded = λ x o. absurd (cc (clear x)) };
    supported = tt;
  }

module _ (w : World) (plan : Plan) (h : HasConnect w plan) where
  Triple-prepare : Triple IsIdle (prepare w plan) (λ j s. IsIdle s × (j.entries ≡ [])) (λ _. IsIdle)
  unfolding prepare
  Triple-prepare =
      Triple-bind
        (Triple-map_error _ _ (Triple-IsIdle w (check_conflicts plan) h.conflicts_here refl))
        λ _. Triple-bind {Q = λ _. IsIdle} (Triple-gets _ (λ s i. i)) λ before.
          Triple-bind
            (Triple-map_error _ _ (Triple-IsIdle w snapshot_routes h.common.routes_here refl))
            λ _.
              Triple-bind {Q = λ _. IsIdle}
                (Triple-lift _ (validate_physical_preimage-ne-panic plan before) (λ _ s _ i. i)
                  (λ _ s _ i. i))
                λ _.
                  Triple-bind (Triple-take_dns w h.common (uses_dns plan) plan h.dns_here)
                    λ services. Triple-bind {Q = λ _. IsIdle} (Triple-gets _ (λ s i. i)) λ now.
                      Triple-bind {Q = λ _. IsIdle}
                        (Triple-map_error _ _ (
                          Triple-lift _
                            (validate_journal-ne-panic (new_journal w plan before services now))
                            (λ _ s _ i. i) (λ _ s _ i. i)))
                        λ _.
                          Triple-bind
                            (Triple-map_error _ _ (
                              Triple-IsIdle w
                                (create_journal (new_journal w plan before services now))
                                h.common.journals_here refl))
                            λ _. Triple-pure _ (λ s i. (i, refl))

  pub Triple-connect_locked :
      Triple IsIdle (connect_locked w plan) (λ _ s. IsSafe s.history) HasFailed
  unfolding connect_locked
  Triple-connect_locked =
      Triple-bind (Triple-weaken Triple-prepare (λ s i. i) (λ _ s i. i) (λ _ s i. (i.0, inl i.1)))
        λ j.
          Triple-bind {Q = λ _. Ready w}
            (Triple-edit (λ _. j)
              (λ s (i, e).
                subst (λ es. IsReady w es s.history) (sym e) (Ready-start w h.common s i)))
            λ _.
              Triple-or_rollback w h.common (establish w plan)
                (Triple-establish w h.common plan h.verifier_here h.dns_here)
