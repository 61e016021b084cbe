-- ===== src/Daemon/Health.antt =====
-- The health checks of `serve` (internal/helperdaemon/daemon.go).
use nordmac.Base.{
  ℕ, zero, suc, ◌+◌, ◌*◌, ◌-◌, ◌≤◌, ◌<◌, ltb, leb, Bool, true, false, Option, none, some, ◌∷◌,
  Error, Outcome, ok, err, panic, reject_if, reject_if-ne-panic, if◌then◌else◌, ◌≡◌, ◌≢◌, refl,
  subst, Bool-cases, inl, inr, arith,
}
use nordmac.Base.Actions.{pure, attempt, error_of, ◌>>=◌}
use nordmac.Base.Triples.{
  Triple, Post, Attempted, Triple-pure, Triple-gets, Triple-lift, Triple-bind, Triple-weaken,
  Triple-attempt,
}
use nordmac.Base.Calls.{Triple-perform}
use nordmac.Base.Calm.{Any, Calm-perform, Triple-Calm}
use nordmac.Tunnel.Types.{Journal}
use nordmac.Helper.Protocol.{Request}
use nordmac.Daemon.World.{accept, set_deadline, History, World, is_nil, do_call}
use nordmac.Daemon.Verify.{verify_ownership}
use nordmac.Daemon.Serve.{
  Loop, health_interval, counted, check_health, on_timeout, on_accept, serve_round, rest_or,
  serve_rounds, serve,
}
use nordmac.Daemon.Calm.{HasDevice, Calm-verify_ownership}

abbrev pub second : ℕ
second = 1000000000

abbrev pub has_timed_out : World → Option Error → Bool
has_timed_out w none = false
has_timed_out w (some e) = w.is_timeout e

abbrev pub is_ok : {A : Type 0} → Outcome A → Bool
is_ok (ok a) = true
is_ok r = false

-- No client connects, the deadline of one second passes at each `AcceptUnix`, and the tunnel is not as
-- the journal says.
pub record IsLost (w : World) (j : Journal) : Type 0 where
  pub device : HasDevice j
  pub idle : (h : History) → has_timed_out w (w.fails h accept) ≡ true
  pub unhealthy : (h : History) → is_ok (verify_ownership w j h).0 ≡ false
  pub passes :
      (h : History) (e : Option Error)
      → w.clock h + second ≤ w.clock (record { call = accept; error = e } ∷ h)
  pub monotone :
      (h : History) (e : Option Error)
      → w.clock h ≤ w.clock (record { call = set_deadline; error = e } ∷ h)

module _ (w : World) (j : Journal) (lost : IsLost w j) where
  -- The next check is at most this many seconds away.
  IsNear : ℕ → Loop → History → Type 0
  IsNear k l h = l.next_check ≤ w.clock h + k * second

  -- A further check was made, and the loop goes on.
  IsCounted : ℕ → Loop → History → Type 0
  IsCounted f l h = IsNear 10 l h × (l.failures ≡ suc f) × (suc f < 3)

  Triple-verify : Triple Any (attempt (verify_ownership w j)) (λ e h. is_nil e ≡ false) (λ _. Any)
  unfolding attempt
  Triple-verify = record {
    at = λ h p.
        failing (verify_ownership w j h).0 (verify_ownership w j h).1 (lost.unhealthy h)
          ((Calm-verify_ownership w j lost.device).at h);
  }
    where
      failing :
          (o : Outcome (Unit {0})) (h : History)
          → is_ok o ≡ false
          → o ≢ panic
          → Post (λ e (h : History). is_nil e ≡ false) (λ _. Any) (error_of o) h
      failing (ok a) h f n = absurd (ground (arith, f))
      failing (err e) h f n = refl
      failing panic h f n = n refl

  Triple-check_health : (f : ℕ) → Triple Any (check_health w j f) (IsCounted f) (λ _. Any)
  unfolding check_health IsCounted IsNear reject_if
  Triple-check_health f = Triple-bind Triple-verify λ e.
      Triple-bind {Q = λ _ _. (counted f e ≡ suc f) × (suc f < 3)}
        (Triple-lift _ (reject_if-ne-panic _ _) (λ _ h fine bad. counts e bad fine) (λ _ _ _ _. tt))
        λ _.
          Triple-bind {Q = λ now h. ((counted f e ≡ suc f) × (suc f < 3)) × (now ≡ w.clock h)}
            (Triple-gets _ (λ h p. (p, refl)))
            λ now. Triple-pure _ (λ h p. (ground (arith, p.1), p.0.0, p.0.1))
    where
      counts :
          (e : Option Error)
          → is_nil e ≡ false
          → reject_if (leb 3 (counted f e)) "tunnel ownership health check repeatedly failed"
            ≡ ok tt
          → (counted f e ≡ suc f) × (suc f < 3)
      counts none bad fine = absurd (ground (arith, bad))
      counts (some x) bad fine = (refl, ground (arith, fine))

  -- So many rounds are enough for three failed checks, the first of them at most `k` seconds away.
  Affords : ℕ → Loop → History → Type 0
  Affords n l h = (k : ℕ) × (IsNear k l h × (k + 23 ≤ n + 11 * l.failures) × (l.failures < 3))

  -- The same after a second has passed.
  AffordsLater : ℕ → Loop → History → Type 0
  AffordsLater n l h =
      (k : ℕ) × ((l.next_check + second ≤ w.clock h + k * second)
        × (k + 23 ≤ n + 11 * l.failures)
        × (l.failures < 3))

  Next : ℕ → Option Loop → History → Type 0
  Next n none h = Unit
  Next n (some l) h = Affords n l h

  Triple-timed :
      (n : ℕ) (l : Loop) (now : ℕ)
      → Triple
          (λ h. AffordsLater (suc n) l h × (now ≡ w.clock h))
          (if ltb now l.next_check then pure l else check_health w j l.failures)
          (Affords n)
          (λ _. Any)
  unfolding Affords AffordsLater IsNear IsCounted
  Triple-timed n l now = elim (Bool-cases (ltb now l.next_check)) [
    | inl early ↦ rw early (Triple-pure l (λ h p. sooner h p early))
    | inr due ↦ rw due (record {
      at = λ h p.
          (Triple-weaken {P = Any} (Triple-check_health l.failures) (λ _ p. p)
              (λ l' h' c. affords h p l' h' c) (λ _ _ _. tt)).at
            h tt;
    })
  ]
    where
      affords :
          (h : History) (p : AffordsLater (suc n) l h × (now ≡ w.clock h)) (l' : Loop)
          (h' : History)
          → IsCounted l.failures l' h'
          → Affords n l' h'
      affords h ((k, (near, enough, few)), same) l' h' (next, one, left) =
          (10, (next, ground (arith, enough, one), ground (arith, one, left)))

      sooner :
          (h : History) (p : AffordsLater (suc n) l h × (now ≡ w.clock h))
          → ltb now l.next_check ≡ true
          → Affords n l h
      sooner h ((k, (near, enough, few)), same) early = (
        k - 1,
        (ground (arith, near, same, early), ground (arith, near, enough, same, early), few),
      )

  Triple-on_timeout :
      (n : ℕ) (l : Loop) → Triple (AffordsLater (suc n) l) (on_timeout w j l) (Next n) (λ _. Any)
  unfolding on_timeout Next Affords IsNear
  Triple-on_timeout n l =
      Triple-bind {Q = λ now h. AffordsLater (suc n) l h × (now ≡ w.clock h)}
        (Triple-gets _ (λ h p. (p, refl)))
        λ now. Triple-bind (Triple-timed n l now) λ next.
          Triple-bind {Q = λ _. Affords n next}
            (Triple-weaken
              (Triple-attempt {F = λ _. Any} (
                Triple-perform w.fails {Q = Affords n next} {E = λ _. Affords n next} set_deadline
                  (λ h p _. later next h none p) (λ h e p _. later next h (some e) p)))
              (λ h p. p) (λ e h p. ended next e h p) (λ _ _ _. tt))
            λ _. Triple-pure (some next) (λ h p. p)
    where
      later :
          (l : Loop) (h : History) (e : Option Error)
          → Affords n l h
          → Affords n l (record { call = set_deadline; error = e } ∷ h)
      later l h e (k, (near, enough, few)) =
          (k, (ground (arith, near, lost.monotone h e), enough, few))

      ended :
          (l : Loop) (e : Option Error) (h : History)
          → Attempted (λ (_ : Unit {0}). Affords n l) (λ _. Affords n l) e h
          → Affords n l h
      ended l none h p = p.1
      ended l (some x) h p = p

  Triple-accept :
      (n : ℕ) (l : Loop)
      → Triple
          (Affords n l)
          (attempt (do_call w accept))
          (λ e h. (has_timed_out w e ≡ true) × AffordsLater n l h)
          (λ _. Any)
  unfolding Affords AffordsLater IsNear
  Triple-accept n l =
      Triple-weaken
        (Triple-attempt {F = λ _. Any} (
          Triple-perform w.fails {Q = λ _. ⊥}
            {E = λ e h. (w.is_timeout e ≡ true) × AffordsLater n l h} accept
            (λ h p none'. absurd (never h none'))
            (λ h e p failed.
              (subst (λ x. has_timed_out w x ≡ true) failed (lost.idle h), later h e p))))
        (λ h p. p) (λ e h p. ended e h p) (λ _ _ _. tt)
    where
      never : (h : History) → w.fails h accept ≢ none
      never h e = ground (arith, subst (λ x. has_timed_out w x ≡ true) e (lost.idle h))

      later :
          (h : History) (e : Error)
          → Affords n l h
          → AffordsLater n l (record { call = accept; error = some e } ∷ h)
      later h e (k, (near, enough, few)) =
          (k, (ground (arith, near, lost.passes h (some e)), enough, few))

      ended :
          (e : Option Error) (h : History)
          → Attempted
              (λ (_ : Unit {0}) (_ : History). ⊥)
              (λ e h. (w.is_timeout e ≡ true) × AffordsLater n l h)
              e
              h
          → (has_timed_out w e ≡ true) × AffordsLater n l h
      ended none h p = absurd p.1
      ended (some x) h p = p

  Triple-serve_round :
      (n : ℕ) (initial : Request) (l : Loop)
      → Triple (Affords (suc n) l) (serve_round w initial j l) (Next n) (λ _. Any)
  unfolding serve_round on_accept Next
  Triple-serve_round n initial l =
      Triple-bind {Q = λ _. Affords (suc n) l} (Triple-gets _ (λ h p. p)) λ c. by_context (is_nil c)
    where
      by_time :
          (e : Option Error)
          → Triple
              (λ h. (has_timed_out w e ≡ true) × AffordsLater (suc n) l h)
              (on_accept w initial j l e)
              (Next n)
              (λ _. Any)
      by_time none = record { at = λ h p. absurd (ground (arith, p.0)) }
      by_time (some e) = record { at = λ h p. rw p.0 ((Triple-on_timeout n l).at h p.1) }

      by_context :
          (b : Bool)
          → Triple
              (Affords (suc n) l)
              (if b
                then (do e ← attempt (do_call w accept); on_accept w initial j l e)
                else pure none)
              (Next n)
              (λ _. Any)
      by_context true = Triple-bind (Triple-accept (suc n) l) by_time
      by_context false = Triple-pure none (λ h p. tt)

  Triple-serve_rounds :
      (n : ℕ) (initial : Request) (l : Loop)
      → Triple (Affords n l) (serve_rounds w n initial j l) (λ ended h. ended ≡ true) (λ _. Any)
  unfolding serve_rounds Affords Next
  Triple-serve_rounds zero initial l = record { at = λ h p. absurd (ground (arith, p)) }
  Triple-serve_rounds (suc n) initial l =
      Triple-bind (Triple-serve_round n initial l)
        (next_round (λ l'. Triple-serve_rounds n initial l'))
    where
      next_round :
          ((l' : Loop)
            → Triple
                (Affords n l')
                (serve_rounds w n initial j l')
                (λ ended h. ended ≡ true)
                (λ _. Any))
          → (o : Option Loop)
          → Triple
              (Next n o)
              (rest_or w (serve_rounds w n initial j) o)
              (λ ended h. ended ≡ true)
              (λ _. Any)
      next_round k none = Triple-pure true (λ h p. refl)
      next_round k (some l') = k l'

  -- A helper whose tunnel is lost ends its loop, within 33 rounds of one second each, though no client
  -- connects.
  pub serve-ends :
      (initial : Request) (h : History)
      → Post
          (λ ended (_ : History). ended ≡ true)
          (λ _. Any)
          (serve w 33 initial j h).0
          (serve w 33 initial j h).1
  unfolding serve Affords IsNear
  serve-ends initial h = served.at h tt
    where
      served : Triple Any (serve w 33 initial j) (λ ended h. ended ≡ true) (λ _. Any)
      served = Triple-bind (Triple-Calm _ (Calm-perform w.fails set_deadline)) λ _.
          Triple-bind {Q = λ now h. now ≡ w.clock h} (Triple-gets _ (λ h p. refl)) λ now.
            Triple-weaken
              (Triple-serve_rounds 33 initial
                (record { next_check = now + health_interval; failures = 0 }))
              (λ h p. (10, (ground (arith, p), ground arith, ground arith))) (λ _ _ p. p)
              (λ _ _ p. p)
