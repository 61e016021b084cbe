-- ===== src/Command/Codes.antt =====
-- The exit codes of internal/command/run.go and the calls that lead to them.
use nordmac.Base.{
  ℕ, Bool, true, false, not, ◌&&◌, ◌||◌, Option, none, some, [], ◌∷◌, String, nat_eq, text_eq,
  Error, All, ◌≡◌, ◌≢◌, ◌⊎◌, inl, inr, refl, sym, ◌∙◌, arith,
}
use nordmac.Base.Actions.{pure}
use nordmac.Base.Triples.{
  Triple, Attempted, Triple-pure, Triple-bind, Triple-weaken, Triple-attempt,
}
use nordmac.Base.Calls.{Event, Triple-perform}
use nordmac.Command.Run.{
  exit_network, Call, countries, recommend, connect, login, credential_status, logout_local,
  disconnect, connection_status, reconnect, print_error, History, World, Tx, try, say, on_error,
  fail, write_result,
}

-- A call of the backend.
abbrev pub is_backend : Call → Bool
is_backend (countries _) = true
is_backend (recommend _) = true
is_backend (connect _) = true
is_backend login = true
is_backend credential_status = true
is_backend logout_local = true
is_backend disconnect = true
is_backend connection_status = true
is_backend (reconnect _) = true
is_backend _ = false

-- A call that a command must not lose the error of: all of the backend's but the look at the tunnel
-- in a status.
abbrev is_status : Call → Bool
is_status connection_status = true
is_status _ = false

abbrev pub must_work : Call → Bool
must_work c = is_backend c && not (is_status c)

-- The backend was called.
unfoldable pub touched : History → Bool
touched [] = false
touched (e ∷ h) = is_backend e.call || touched h

abbrev is_error? : Option Error → Bool
is_error? none = false
is_error? (some e) = true

abbrev is_failure : Event Call → Bool
is_failure e = must_work e.call && is_error? e.error

-- One of its calls failed.
unfoldable pub failed : History → Bool
failed [] = false
failed (e ∷ h) = is_failure e || failed h

-- The code ends no run that a failed call should have ended.
abbrev pub Never : Error → History → Type 0
Never e h = ⊥

other : {n a b : ℕ} (k : ℕ) → (n ≡ a) ⊎ (n ≡ b) → a ≢ k → b ≢ k → n ≢ k
other k (inl e) h g q = h (sym e ∙ q)
other k (inr e) h g q = g (sym e ∙ q)

module _ (P : Call → Type 0) where
  -- Every call of the backend is of this kind.
  abbrev pub IsAsked : History → Type 0
  IsAsked h = All (λ e. is_backend e.call ≡ true → P e.call) h

  abbrev pub Untouched : History → Type 0
  Untouched h = IsAsked h × (touched h ≡ false) × (failed h ≡ false)

  abbrev pub Worked : History → Type 0
  Worked h = IsAsked h × (failed h ≡ false)

  -- What holds at an exit: the usage code means that the backend was not called, and code 0 that
  -- none of its calls failed.
  abbrev pub Ended : ℕ → History → Type 0
  Ended n h = IsAsked h × (n ≡ 2 → touched h ≡ false) × (n ≡ 0 → failed h ≡ false)

  -- What output keeps.
  pub record Kept (K : History → Type 0) : Type 0 where
    pub log :
        (c : Call) (e : Option Error) (h : History)
        → is_backend c ≡ false
        → K h
        → K (record { call = c; error = e } ∷ h)

  IsAsked-output :
      (c : Call) (e : Option Error) (h : History)
      → is_backend c ≡ false
      → IsAsked h
      → IsAsked (record { call = c; error = e } ∷ h)
  IsAsked-output c e h o a = (λ b. absurd (ground (arith, o, b)), a)

  failed-output :
      (c : Call) (e : Option Error) (h : History)
      → is_backend c ≡ false
      → failed h ≡ false
      → failed (record { call = c; error = e } ∷ h) ≡ false
  unfolding failed
  failed-output c e h o f = ground (arith, o, f)

  pub Kept-Untouched : Kept Untouched
  unfolding touched
  Kept-Untouched = record {
    log = λ c e h o (a, t, f).
        (IsAsked-output c e h o a, ground (arith, o, t), failed-output c e h o f);
  }

  pub Kept-Worked : Kept Worked
  Kept-Worked = record {
    log = λ c e h o (a, f). (IsAsked-output c e h o a, failed-output c e h o f);
  }

  pub Kept-Asked : Kept IsAsked
  Kept-Asked = record { log = IsAsked-output }

  module _ (w : World) (K : History → Type 0) (kept : Kept K) where
    -- A call that is not one of the backend.
    pub Triple-output : (c : Call) → is_backend c ≡ false → Triple K (try w c) (λ _. K) Never
    Triple-output c o =
        Triple-weaken
          (Triple-attempt {F = Never} (
            Triple-perform w.fails {P = K} {Q = K} {E = λ _. K} c (λ h k _. kept.log c none h o k)
              (λ h e k _. kept.log c (some e) h o k)))
          (λ h k. k) by_result (λ e h x. x)
      where
        by_result :
            (r : Option Error) (h : History) → Attempted (λ (_ : Unit {0}). K) (λ _. K) r h → K h
        by_result none h (a, k) = k
        by_result (some e) h k = k

    pub Triple-say :
        {Q : ℕ → History → Type 0} (c : Call) (next : Tx ℕ)
        → is_backend c ≡ false
        → Triple K next Q Never
        → Triple K (say w c next) Q Never
    Triple-say c next o t = Triple-bind (Triple-output c o) λ _. t

    -- An exit with one of two codes.
    abbrev Exits : ℕ → ℕ → History → Type 0
    Exits exit n h = K h × ((n ≡ exit) ⊎ (n ≡ exit_network))

    pub Triple-exit : (exit : ℕ) → Triple K (pure exit) (Exits exit) Never
    Triple-exit exit = Triple-pure exit (λ h k. (k, inl refl))

    Triple-exit_network : (exit : ℕ) → Triple K (pure exit_network) (Exits exit) Never
    Triple-exit_network exit = Triple-pure exit_network (λ h k. (k, inr refl))

    pub Triple-fail :
        (json : Bool) (exit : ℕ) (code text : String)
        → Triple K (fail w json exit code text) (Exits exit) Never
    unfolding fail
    Triple-fail false exit code text = Triple-say _ _ refl (Triple-exit exit)
    Triple-fail true exit code text = Triple-bind (Triple-output _ refl) λ r. written r
      where
        written :
            (r : Option Error)
            → Triple K
                (on_error w r
                  (λ _. say w (print_error "write error output") (pure exit_network))
                  (pure exit))
                (Exits exit)
                Never
        written none = Triple-exit exit
        written (some e) = Triple-say _ _ refl (Triple-exit_network exit)

    pub Triple-write_result :
        (json : Bool) (lines : Tx ℕ)
        → Triple K lines (Exits 0) Never
        → Triple K (write_result w json lines) (Exits 0) Never
    unfolding write_result
    Triple-write_result false lines t = t
    Triple-write_result true lines t = Triple-bind (Triple-output _ refl) λ r. written r
      where
        written :
            (r : Option Error)
            → Triple K
                (on_error w r
                  (λ _. say w (print_error "write output") (pure exit_network))
                  (pure 0))
                (Exits 0)
                Never
        written none = Triple-exit 0
        written (some e) = Triple-say _ _ refl (Triple-exit_network 0)

  -- The exits of a command, by what it has called.
  pub Ended-Untouched :
      (exit : ℕ) {m : Tx ℕ}
      → Triple Untouched m (λ n h. Untouched h × ((n ≡ exit) ⊎ (n ≡ exit_network))) Never
      → Triple Untouched m Ended Never
  Ended-Untouched exit t =
      Triple-weaken t (λ h k. k) (λ n h ((a, u, f), _). (a, (λ _. u), (λ _. f))) (λ _ _ x. x)

  pub Ended-Worked :
      {m : Tx ℕ}
      → Triple Worked m (λ n h. Worked h × ((n ≡ 0) ⊎ (n ≡ exit_network))) Never
      → Triple Worked m Ended Never
  Ended-Worked t =
      Triple-weaken t (λ h k. k)
        (λ n h ((a, f), c). (
          a,
          (λ e. absurd (other 2 c (λ q. absurd (omega arith)) (λ q. absurd (omega arith)) e)),
          (λ _. f),
        ))
        (λ _ _ x. x)

  pub Ended-Asked :
      (exit : ℕ) {m : Tx ℕ}
      → exit ≢ 0
      → exit ≢ 2
      → Triple IsAsked m (λ n h. IsAsked h × ((n ≡ exit) ⊎ (n ≡ exit_network))) Never
      → Triple IsAsked m Ended Never
  Ended-Asked exit z t m =
      Triple-weaken m (λ h k. k)
        (λ n h (a, c). (
          a,
          (λ e. absurd (other 2 c t (λ q. absurd (omega arith)) e)),
          (λ e. absurd (other 0 c z (λ q. absurd (omega arith)) e)),
        ))
        (λ _ _ x. x)
