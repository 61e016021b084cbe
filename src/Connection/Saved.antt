-- ===== src/Connection/Saved.antt =====
-- What `MetadataStore` of internal/connection/state.go does to the metadata file.
use nordmac.Base.{
  ℕ, Bool, true, false, not, ◌&&◌, ◌||◌, Option, none, some, some-injective, List, [], ◌∷◌, ◌==◌,
  text_eq, ==-refl, Text, String, Error, Outcome, ok, err, panic, message, Sentinel, is_error,
  Check, reject_if, reject_if-ne-panic, >>-ne-panic, join, if◌then◌else◌, All, ◌≡◌, ◌≢◌, ◌⊎◌, inl,
  inr, refl, sym, subst, ap, arith,
}
use nordmac.Base.Actions.{lift, within, attempt, ◌>>◌}
use nordmac.Base.Triples.{
  Triple, Attempted, Triple-pure, Triple-raise, Triple-gets, Triple-lift, Triple-bind,
  Triple-weaken, Triple-assume, Triple-map_error, Triple-attempt, Triple-cleanup,
}
use nordmac.Base.Calls.{Triple-perform}
use nordmac.Connection.World.{
  Metadata, Call, read_metadata, make_directory, create_temporary, chmod_temporary, sync_temporary,
  close_temporary, rename_temporary, remove_temporary, write_temporary, random_bytes, History,
  World, Tx, do_call,
}
use nordmac.Connection.Metadata.{validate_metadata, decoded, marshalled}
use nordmac.Connection.Service.{load, fill, or_close, publish, save, must_random_id}
use nordmac.Connection.Recorded.{
  Content, absent, recorded, temporary_holds, file_holds, pending, IsAmong, IsHonest,
}

-- The error is not `os.ErrNotExist`.
abbrev Present : Error → Type 0
Present e = is_error e Sentinel.not_exist ≡ false

validate_metadata-ne-panic : (m : Metadata) → validate_metadata m ≢ panic
unfolding validate_metadata
validate_metadata-ne-panic m = >>-ne-panic _ _ (reject_if-ne-panic _ _) (reject_if-ne-panic _ _)

validate_metadata-Present : (m : Metadata) (e : Error) → validate_metadata m ≡ err e → Present e
unfolding validate_metadata reject_if nordmac.Base.◌>>◌ is_error
validate_metadata-Present m e h = ground (arith, h)

decoded-ne-panic : (o : Option (Metadata × Bool)) → decoded o ≢ panic
decoded-ne-panic none h = cc
decoded-ne-panic (some (m, true)) h = cc
decoded-ne-panic (some (m, false)) h = cc

decoded-Present : (o : Option (Metadata × Bool)) (e : Error) → decoded o ≡ err e → Present e
unfolding is_error
decoded-Present none e h = ground (arith, h)
decoded-Present (some (m, true)) e h = ground (arith, h)
decoded-Present (some (m, false)) e h = ground (arith, h)

decoded-ok : (o : Option (Metadata × Bool)) (m : Metadata) → decoded o ≡ ok m → o ≡ some (m, true)
decoded-ok none m h = cc
decoded-ok (some (x, true)) m h = ground (arith, h)
decoded-ok (some (x, false)) m h = cc

marshalled-ne-panic : (o : Option Text) → marshalled o ≢ panic
marshalled-ne-panic none h = cc
marshalled-ne-panic (some d) h = cc

module _ (start : List Content) (first : Option Text) (w : World)
    (honest : IsHonest start first w) where
  -- What is known of the pending session and of the file.
  abbrev pub Now : (Option Text → List Content → Type 0) → History → Type 0
  Now K h = K (pending start first w h) (file_holds start h)

  pub Triple-kept :
      {A : Type 0} (R : History → Type 0) (o : Outcome A)
      → o ≢ panic
      → Triple R (lift o) (λ _. R) (λ _. R)
  Triple-kept R o n = Triple-lift o n (λ _ h _ p. p) (λ _ h _ p. p)

  pub Triple-call :
      (P R : History → Type 0) (c : Call)
      → ((h : History) (e : Option Error) → P h → R (record { call = c; error = e } ∷ h))
      → Triple P (do_call w c) (λ _. R) (λ _. R)
  Triple-call P R c q = Triple-perform w.fails c (λ h p _. q h none p) (λ h e p _. q h (some e) p)

  pub Triple-caught :
      {A : Type 0} (R : History → Type 0) {F : Error → History → Type 0} (m : Tx A)
      {P : History → Type 0}
      → Triple P m (λ _. R) (λ _. R)
      → Triple P (attempt m) (λ _. R) F
  Triple-caught {A} R {F} m t =
      Triple-weaken (Triple-attempt {F = F} t) (λ h p. p) ended (λ e h p. p)
    where
      ended : (e : Option Error) (h : History) → Attempted (λ (_ : A). R) (λ _. R) e h → R h
      ended none h p = p.1
      ended (some x) h p = p

  -- `Load` returns what the file may hold.
  pub Triple-load :
      (K : Option Text → List Content → Type 0)
      → Triple
          (Now K)
          (load w)
          (λ m h. Now K h × IsAmong (recorded m) (file_holds start h))
          (λ e h.
            Now K h × (is_error e Sentinel.not_exist ≡ true → IsAmong absent (file_holds start h)))
  unfolding load file_holds pending
  Triple-load K =
      Triple-bind {Q = λ b h. Now K h × (b ≡ w.contents h)} (Triple-gets _ (λ h p. (p, refl)))
        λ bytes.
          Triple-bind {Q = λ _ h. Now K h × Found bytes h}
            (Triple-perform w.fails read_metadata
              (λ h (p, same) fine. (
                p,
                λ m is.
                    honest.reads h m fine
                      (subst (λ b. w.codec.unmarshal b ≡ some (m, true)) same is),
              ))
              (λ h e (p, same) failed. (p, λ gone. honest.misses h e failed gone)))
            λ _.
              Triple-bind {Q = λ m h. Now K h × IsAmong (recorded m) (file_holds start h)}
                (Triple-lift _ (decoded-ne-panic _) (λ m h is p. (p.0, p.1 m (decoded-ok _ m is)))
                  (λ e h is p. (p.0, present e (decoded-Present _ e is))))
                λ m.
                  Triple-bind {Q = λ _ h. Now K h × IsAmong (recorded m) (file_holds start h)}
                    (Triple-lift _ (validate_metadata-ne-panic m) (λ _ h _ p. p)
                      (λ e h is p. (p.0, present e (validate_metadata-Present m e is))))
                    λ _. Triple-pure m (λ h p. p)
    where
      Found : Text → History → Type 0
      Found bytes h =
          (m : Metadata)
          → w.codec.unmarshal bytes ≡ some (m, true)
          → IsAmong (recorded m) (file_holds start h)

      present : (e : Error) → Present e → {C : Type 0} → is_error e Sentinel.not_exist ≡ true → C
      present e p gone = absurd (ground (arith, p, gone))

  -- `Save`, by what a rename makes of the file.
  pub Triple-save :
      (K Q : Option Text → List Content → Type 0) (m : Metadata)
      → ((p : Option Text) (cs : List Content) → K p cs → Q p (recorded m ∷ []))
      → ((p : Option Text) (cs : List Content) → K p cs → K p (recorded m ∷ cs))
      → Triple (Now K) (save w m) (λ _. Now Q) (λ _. Now K)
  unfolding save publish fill file_holds pending temporary_holds
  Triple-save K Q m renamed perhaps =
      Triple-bind (Triple-kept (Now K) _ (validate_metadata-ne-panic m)) λ _.
        Triple-bind (Triple-call (Now K) (Now K) make_directory (λ h e p. p)) λ _.
          Triple-bind (Triple-kept (Now K) _ (marshalled-ne-panic _)) λ bytes.
            Triple-bind (Triple-call (Now K) (Now K) create_temporary (λ h e p. p)) λ _.
              Triple-cleanup (Triple-bind (Triple-attempt {F = λ _. Now K} (filled bytes)) closing)
                (λ _. Triple-call (Now Q) (Now Q) remove_temporary (λ h e p. p))
                (λ _. Triple-call (Now K) (Now K) remove_temporary (λ h e p. p))
    where
      Filled : History → Type 0
      Filled h = Now K h × (temporary_holds h ≡ recorded m)

      filled : (bytes : Text) → Triple (Now K) (fill w m bytes) (λ _. Filled) (λ _. Now K)
      filled bytes = Triple-bind (Triple-call (Now K) (Now K) chmod_temporary (λ h e p. p)) λ _.
          Triple-bind {Q = λ _. Filled}
            (Triple-perform w.fails (write_temporary m bytes) (λ h p _. (p, refl)) (λ h e p _. p))
            λ _. Triple-perform w.fails sync_temporary (λ h p _. p) (λ h e p _. p.0)

      closing :
          (e : Option Error)
          → Triple
              (Attempted (λ (_ : Unit {0}). Filled) (λ _. Now K) e)
              (or_close w e (do
                do_call w close_temporary
                within "replace local connection metadata" (do_call w rename_temporary)))
              (λ _. Now Q)
              (λ _. Now K)
      closing (some e) =
          Triple-bind {Q = λ _. Now K}
            (Triple-caught (Now K) (do_call w close_temporary)
              (Triple-call (Now K) (Now K) close_temporary (λ h e p. p)))
            λ _. Triple-raise e (λ h p. p)
      closing none =
          Triple-bind {Q = λ _. Filled}
            (Triple-perform w.fails close_temporary (λ h p _. p.1) (λ h e p _. p.1.0))
            λ _. Triple-map_error _ _ (
              Triple-perform w.fails rename_temporary (λ h p _. rw p.1 (renamed _ _ p.0))
                (λ h e p _. rw p.1 (perhaps _ _ p.0)))

  pub Triple-must_random_id :
      (K : Option Text → List Content → Type 0) {E : Error → History → Type 0}
      → Triple (Now K) (must_random_id w) (λ _. Now K) E
  unfolding must_random_id file_holds pending
  Triple-must_random_id K = Triple-bind {Q = λ _. Now K} (Triple-gets _ (λ h p. p)) λ id.
      Triple-bind {Q = λ e h. Now K h × (e ≡ none)}
        (Triple-weaken
          (Triple-attempt {F = λ _ _. ⊥} (
            Triple-perform w.fails {Q = Now K} {E = λ _ _. ⊥} random_bytes (λ h p _. p)
              (λ h e p failed. absurd (never h e failed))))
          (λ h p. p) ended (λ _ _ p. absurd p))
        λ e. Triple-assume λ same. rw same (
          Triple-bind {Q = λ _. Now K}
            (Triple-lift _ (λ h. cc) (λ _ h _ p. p) (λ x h is p. absurd (not_ok x is)))
            λ _. Triple-pure id (λ h p. p))
    where
      not_ok : (x : Error) → let o : Check = ok tt in o ≢ err x
      not_ok x h = cc

      never : (h : History) (e : Error) → w.fails h random_bytes ≢ some e
      never h e failed = ground (arith, honest.random h, failed)

      ended :
          (e : Option Error) (h : History)
          → Attempted (λ (_ : Unit {0}). Now K) (λ _ (h : History). ⊥) e h
          → Now K h × (e ≡ none)
      ended none h p = (p.1, refl)
      ended (some x) h p = absurd p
