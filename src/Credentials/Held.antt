-- ===== src/Credentials/Held.antt =====
-- What the credential store may hold after a history of calls.
use nordmac.Base.{
  Bool, true, false, Option, none, some, List, [], ◌∷◌, ◌==◌, Text, Error, join?, is_error,
  Sentinel, if◌then◌else◌, ◌≡◌, refl, sym, ap, ◌∙◌, inl, inr, Bool-cases,
}
use nordmac.Base.Actions.{lift}
use nordmac.Base.Triples.{
  Triple, Post, Triple-gets, Triple-lift, ok-injective, Attempted, Triple-bind, Triple-weaken,
  Triple-attempt,
}
use nordmac.Credentials.Store.{
  Kind, Kind-discrete, kind_eq, access_token, private_key, Call, release, get, delete, put, History,
  World, Snapshot, absent, captured, unless_missing, result_of, log, perform, capture, restore,
  rollback,
}

-- A failed `Put` or `Delete` may have taken effect; a `Delete` that finds nothing leaves nothing.
abbrev pub held_after : Kind → Call → Option Error → List (Option Text) → List (Option Text)
held_after k (put j v) none cs = if j == k then some v ∷ [] else cs
held_after k (put j v) (some e) cs = if j == k then some v ∷ cs else cs
held_after k (delete j) none cs = if j == k then none ∷ [] else cs
held_after k (delete j) (some e) cs =
    if j == k then (if is_error e Sentinel.not_found then none ∷ [] else none ∷ cs) else cs
held_after k _ e cs = cs

-- Whether the last call was a `release` that failed.
abbrev pub release_failed : History → Bool
release_failed [] = false
release_failed (e ∷ h) = is_failed_release e.call e.error
  where
    is_failed_release : Call → Option Error → Bool
    is_failed_release release (some x) = true
    is_failed_release c x = false

module _ (start : Kind → Option Text) where
  -- The values that the store may hold under a kind.
  unfoldable pub may_hold : Kind → History → List (Option Text)
  may_hold k [] = start k ∷ []
  may_hold k (e ∷ h) = held_after k e.call e.error (may_hold k h)

  -- The store holds this under the kind, for sure.
  abbrev pub IsHeld : Kind → Option Text → History → Type 0
  IsHeld k c h = may_hold k h ≡ c ∷ []

  -- The store holds this pair.
  abbrev pub IsPair : Option Text → Option Text → History → Type 0
  IsPair token key h = IsHeld access_token token h × IsHeld private_key key h

  -- `Get` finds what is held, and misses only where nothing is.
  pub record IsHonest (w : World) : Type 0 where
    pub finds :
        (h : History) (k : Kind) (c : Option Text)
        → IsHeld k c h
        → w.fails h (get k) ≡ none
        → c ≡ some (w.stored h k)
    pub misses :
        (h : History) (k : Kind) (c : Option Text) (e : Error)
        → IsHeld k c h
        → w.fails h (get k) ≡ some e
        → is_error e Sentinel.not_found ≡ true
        → c ≡ none

abbrev pub snapshot_of : Option Text → Snapshot
snapshot_of none = absent
snapshot_of (some v) = record { value = v; exists = true }

-- What a `Get` that answers with this value and error says of what is held.
abbrev Got : Option Text → Text → Option Error → Type 0
Got c v none = c ≡ some v
Got c v (some e) = is_error e Sentinel.not_found ≡ true → c ≡ none

Triple-captured :
    (P : History → Type 0) (c : Option Text) (v : Text) (e : Option Error)
    → Triple
        (λ h. P h × Got c v e)
        (lift (captured v e))
        (λ snap h. P h × (snap ≡ snapshot_of c))
        (λ _. P)
Triple-captured P c v none =
    Triple-lift _ (λ h. cc) (λ snap h eq (p, found). (p, rw found (sym (ok-injective _ snap eq))))
      (λ _ h x p. p.0)
Triple-captured P c v (some e) = elim (Bool-cases (is_error e Sentinel.not_found)) [
  | inl missing ↦ rw missing (
      Triple-lift _ (λ h. cc)
        (λ snap h eq (p, none_there). (p, rw (none_there refl) (sym (ok-injective _ snap eq))))
        (λ _ h x p. p.0))
  | inr other ↦ rw other (Triple-lift _ (λ h. cc) (λ snap h x p. cc) (λ _ h x p. p.0))
]

module _ (w : World) where
  pub Triple-perform :
      {P Q : History → Type 0} {E : Error → History → Type 0} (call : Call)
      → ((h : History) → P h → w.fails h call ≡ none → Q (record { call = call; error = none } ∷ h))
      → ((h : History) (e : Error)
          → P h
          → w.fails h call ≡ some e
          → E e (record { call = call; error = some e } ∷ h))
      → Triple P (perform w call) (λ _. Q) E
  unfolding perform
  Triple-perform {P} {Q} {E} call q e = record { at = λ h p. go h p (w.fails h call) refl }
    where
      go :
          (h : History)
          → P h
          → (a : Option Error) → w.fails h call ≡ a
          → Post (λ _. Q) E (log call a h).0 (log call a h).1
      go h p none eq = q h p eq
      go h p (some x) eq = e h x p eq

module _ (start : Kind → Option Text) (w : World) where
  -- What a `Delete` leaves, by its error.
  abbrev Deleted : (R : History → Type 0) → Kind → Option Error → History → Type 0
  Deleted R k none h = R h × IsHeld start k none h
  Deleted R k (some e) h = R h × (is_error e Sentinel.not_found ≡ true → IsHeld start k none h)

  Triple-delete :
      (R : History → Type 0) (k : Kind)
      → ((h : History) (a : Option Error) → R h → R (record { call = delete k; error = a } ∷ h))
      → (k == k ≡ true)
      → Triple R (perform w (delete k)) (λ _. Deleted R k none) (λ e. Deleted R k (some e))
  unfolding may_hold
  Triple-delete R k rd same =
      Triple-perform w (delete k) (λ h p e. (rd h none p, rw same refl))
        (λ h e p _. (rd h (some e) p, λ missing. rw (same, missing) refl))

  after_delete :
      (R : History → Type 0) (k : Kind) (e : Option Error)
      → Triple
          (Attempted (λ (_ : Unit {0}). Deleted R k none) (λ x. Deleted R k (some x)) e)
          (lift (unless_missing e))
          (λ _ h. R h × IsHeld start k none h)
          (λ _. R)
  after_delete R k none = Triple-lift _ (λ h. cc) (λ _ h _ p. p.1) (λ _ h _ p. p.1.0)
  after_delete R k (some e) = elim (Bool-cases (is_error e Sentinel.not_found)) [
    | inl missing ↦
        rw missing (Triple-lift _ (λ h. cc) (λ _ h _ p. (p.0, p.1 missing)) (λ _ h _ p. p.0))
    | inr other ↦ rw other (Triple-lift _ (λ h. cc) (λ _ h x p. cc) (λ _ h _ p. p.0))
  ]

  -- A `restore` that returns no error leaves what was there before, and nothing else changes.
  pub Triple-restore :
      (R : History → Type 0) (k : Kind) (c : Option Text)
      → ((h : History) (v : Text) (a : Option Error)
          → R h
          → R (record { call = put k v; error = a } ∷ h))
      → ((h : History) (a : Option Error) → R h → R (record { call = delete k; error = a } ∷ h))
      → (k == k ≡ true)
      → Triple R (restore w k (snapshot_of c)) (λ _ h. R h × IsHeld start k c h) (λ e. R)
  unfolding restore may_hold
  Triple-restore R k none rp rd same =
      Triple-bind (Triple-attempt (Triple-delete R k rd same)) (after_delete R k)
  Triple-restore R k (some v) rp rd same =
      Triple-perform w (put k v) (λ h p e. (rp h v none p, rw same refl))
        (λ h e p _. rp h v (some e) p)

  module _ (token key : Option Text) where
    -- The token's restore, whatever was left of the pair.
    restore_token :
        Triple
          (λ _. Unit {0})
          (restore w access_token (snapshot_of token))
          (λ _ h. Unit {0} × IsHeld start access_token token h)
          (λ _ _. Unit {0})
    unfolding Kind-discrete
    restore_token =
        Triple-restore (λ _. Unit {0}) access_token token (λ h v a r. tt) (λ h a r. tt) refl

    restore_key :
        (R : Type 0)
        → Triple
            (λ h. R → IsHeld start access_token token h)
            (restore w private_key (snapshot_of key))
            (λ _ h. (R → IsHeld start access_token token h) × IsHeld start private_key key h)
            (λ _ h. R → IsHeld start access_token token h)
    unfolding Kind-discrete may_hold
    restore_key R =
        Triple-restore (λ h. R → IsHeld start access_token token h) private_key key
          (λ h v a r x. by_error_put v a (may_hold start access_token h) (r x))
          (λ h a r x. by_error a (may_hold start access_token h) (r x)) refl
      where
        by_error_put :
            (v : Text) (a : Option Error) (cs : List (Option Text))
            → cs ≡ token ∷ []
            → held_after access_token (put private_key v) a cs ≡ token ∷ []
        by_error_put v none cs h = h
        by_error_put v (some e) cs h = h

        by_error :
            (a : Option Error) (cs : List (Option Text))
            → cs ≡ token ∷ []
            → held_after access_token (delete private_key) a cs ≡ token ∷ []
        by_error none cs h = h
        by_error (some e) cs h = h

    -- A rollback that returns no error leaves the pair as it was.
    pub Triple-rollback :
        Triple
          (λ _. Unit {0})
          (rollback w (snapshot_of token) (snapshot_of key))
          (λ _. IsPair start token key)
          (λ _ _. Unit {0})
    unfolding rollback
    Triple-rollback = Triple-bind (Triple-attempt restore_token) λ a.
        Triple-bind
          {Q = λ b h.
            (a ≡ none → IsHeld start access_token token h)
            × (b ≡ none → IsHeld start private_key key h)}
          (Triple-weaken (Triple-attempt {F = λ _ _. Unit {0}} (restore_key (a ≡ none)))
            (λ h p. token_held a h p) (λ b h p. key_held (a ≡ none) b h p) (λ _ h p. p))
          λ b. both_held a b
      where
        token_held :
            (a : Option Error) (h : History)
            → Attempted
                (λ (_ : Unit {0}) h. Unit {0} × IsHeld start access_token token h)
                (λ _ _. Unit {0})
                a
                h
            → a ≡ none
            → IsHeld start access_token token h
        token_held none h p e = p.1.1
        token_held (some x) h p e = cc

        key_held :
            (R : Type 0) (b : Option Error) (h : History)
            → Attempted
                (λ (_ : Unit {0}) h.
                  (R → IsHeld start access_token token h) × IsHeld start private_key key h)
                (λ _ h. R → IsHeld start access_token token h)
                b
                h
            → (R → IsHeld start access_token token h) × (b ≡ none → IsHeld start private_key key h)
        key_held R none h p = (p.1.0, λ e. p.1.1)
        key_held R (some x) h p = (p, λ e. cc)

        both_held :
            (a b : Option Error)
            → Triple
                (λ h.
                  (a ≡ none → IsHeld start access_token token h)
                  × (b ≡ none → IsHeld start private_key key h))
                (lift (result_of (join? a b)))
                (λ _. IsPair start token key)
                (λ _ _. Unit {0})
        both_held none none =
            Triple-lift _ (λ h. cc) (λ _ h _ p. (p.0 refl, p.1 refl)) (λ _ h _ _. tt)
        both_held none (some y) = Triple-lift _ (λ h. cc) (λ _ h x _. cc) (λ _ h _ _. tt)
        both_held (some x) none = Triple-lift _ (λ h. cc) (λ _ h z _. cc) (λ _ h _ _. tt)
        both_held (some x) (some y) = Triple-lift _ (λ h. cc) (λ _ h z _. cc) (λ _ h _ _. tt)

  -- `capture` returns what the store holds.
  pub Triple-capture :
      (honest : IsHonest start w) (P : History → Type 0) (k : Kind) (c : Option Text)
      → ((h : History) → P h → IsHeld start k c h)
      → ((h : History) (a : Option Error) → P h → P (record { call = get k; error = a } ∷ h))
      → Triple P (capture w k) (λ snap h. P h × (snap ≡ snapshot_of c)) (λ _. P)
  unfolding capture
  Triple-capture honest P k c held quiet =
      Triple-bind {Q = λ v h. P h × (v ≡ w.stored h k)} (Triple-gets _ (λ h p. (p, refl))) λ v.
        Triple-bind {Q = λ e h. P h × Got c v e}
          (Triple-weaken
            (Triple-attempt {F = λ _. P} (
              Triple-perform w {P = λ h. P h × (v ≡ w.stored h k)} {Q = λ h. P h × Got c v none}
                {E = λ e h. P h × Got c v (some e)} (get k)
                (λ h (p, same) fine.
                  (quiet h none p, honest.finds h k c (held h p) fine ∙ ap some (sym same)))
                (λ h e (p, same) failed. (
                  quiet h (some e) p,
                  λ missing. honest.misses h k c e (held h p) failed missing,
                ))))
            (λ h p. p) (λ e h p. got v e h p) (λ _ h p. p))
          λ e. Triple-captured P c v e
    where
      got :
          (v : Text) (e : Option Error) (h : History)
          → Attempted (λ (_ : Unit {0}) h. P h × Got c v none) (λ e h. P h × Got c v (some e)) e h
          → P h × Got c v e
      got v none h p = p.1
      got v (some x) h p = p
