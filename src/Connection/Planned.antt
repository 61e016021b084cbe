-- ===== src/Connection/Planned.antt =====
-- `connectLocked` and `disconnectLocked` of internal/connection/service.go and the pending session.
use nordmac.Base.{
  Bool, Bool-cases, true, false, Option, none, some, List, ◌∷◌, text_eq, Text, Error, Outcome, ok,
  err, panic, Sentinel, is_error, reject_if-ne-panic, if◌then◌else◌, ◌≡◌, ◌≢◌, inl, inr, refl,
  arith,
}
use nordmac.Base.Actions.{pure, raise, lift}
use nordmac.Base.Triples.{
  Triple, Post, Attempted, Triple-pure, Triple-raise, Triple-gets, Triple-lift, Triple-bind,
  Triple-weaken, Triple-map_error, Triple-attempt,
}
use nordmac.Recommend.Select.{Server}
use nordmac.Tunnel.Panics.{validate_plan-ne-panic}
use nordmac.Helper.Reads.{validate_secrets-ne-panic}
use nordmac.Helper.Protocol.{disconnect_operation, Response}
use nordmac.Connection.World.{
  Metadata, Query, Call, recommend, get_key, snapshot_routes, network_service, remove_metadata,
  random_bytes, History, World, Tx, do_call,
}
use nordmac.Connection.Metadata.{unless_missing}
use nordmac.Connection.Service.{
  Result, load, delete, random_id, has_failed, plain_request, connect_locked, disconnect_recorded,
  on_load, with_metadata, decode_secrets, key_or, or_error, must_miss, metadata_of, no_connection,
}
use nordmac.Connection.Recorded.{
  Content, absent, recorded, file_holds, asked, pending, IsAmong, IsHonest,
}
use nordmac.Connection.Saved.{
  Triple-kept, Triple-call, Triple-caught, Triple-load, Triple-must_random_id,
}
use nordmac.Connection.Kept.{
  Clear, Recorded, Recorded-Clear, Clear-absent, asked-Clear, asked-Recorded, Triple-ask,
  Triple-connect_planned,
}

module _ (start : List Content) (first : Option Text) (w : World)
    (honest : IsHonest start first w) where
  abbrev Holds : (Option Text → List Content → Type 0) → History → Type 0
  Holds K h = K (pending start first w h) (file_holds start h)

  -- A step of the planning: no session is pending, and an error leaves the file recorded.
  Triple-step :
      {A : Type 0} (m : Tx A)
      → Triple (Holds Clear) m (λ _. Holds Clear) (λ _. Holds Clear)
      → Triple (Holds Clear) m (λ _. Holds Clear) (λ _. Holds Recorded)
  Triple-step m t = Triple-weaken t (λ h p. p) (λ _ h p. p) (λ _ h p. Recorded-Clear _ _ p)

  Triple-called :
      (c : Call)
      → ((h : History) (e : Option Error)
          → Holds Clear h
          → Holds Clear (record { call = c; error = e } ∷ h))
      → Triple (Holds Clear) (do_call w c) (λ _. Holds Clear) (λ _. Holds Recorded)
  Triple-called c q =
      Triple-step _ (Triple-call start first w honest (Holds Clear) (Holds Clear) c q)

  Triple-checked :
      {A : Type 0} (o : Outcome A)
      → o ≢ panic
      → Triple (Holds Clear) (lift o) (λ _. Holds Clear) (λ _. Holds Recorded)
  Triple-checked o n = Triple-step _ (Triple-kept start first w honest (Holds Clear) o n)

  key_or-ne-panic : (e : Error) (o : Option Text) → key_or e o ≢ panic
  key_or-ne-panic e none h = cc
  key_or-ne-panic e (some k) h = ground (arith, h)

  or_error-ne-panic : {A : Type 0} (e : Error) (o : Option A) → or_error e o ≢ panic
  or_error-ne-panic e none h = cc
  or_error-ne-panic e (some k) h = cc

  must_miss-ne-panic : (e : Option Error) → must_miss w e ≢ panic
  must_miss-ne-panic none h = cc
  must_miss-ne-panic (some e) h = ground (arith, h)

  Triple-decode_secrets :
      (text : Text) (server : Server)
      → Triple (Holds Clear) (decode_secrets w text server) (λ _. Holds Clear) (λ _. Holds Recorded)
  unfolding decode_secrets
  Triple-decode_secrets text server =
      Triple-bind (Triple-checked _ (key_or-ne-panic _ _)) λ private.
        Triple-bind (Triple-checked _ (key_or-ne-panic _ _)) λ peer.
          Triple-bind (Triple-checked _ (validate_secrets-ne-panic _)) λ _. Triple-pure _ (λ h p. p)

  -- What is known once `Load` has returned, or failed.
  abbrev Loaded : Option Error → History → Type 0
  Loaded =
      Attempted (λ m h. Holds Recorded h × IsAmong (recorded m) (file_holds start h))
        (λ x h.
          Holds Recorded h
          × (is_error x Sentinel.not_exist ≡ true → IsAmong absent (file_holds start h)))

  -- Where `Load` finds no file, no session is pending.
  Triple-must_miss :
      (e : Option Error)
      → Triple (Loaded e) (lift (must_miss w e)) (λ _. Holds Clear) (λ _. Holds Recorded)
  Triple-must_miss none =
      Triple-lift _ (must_miss-ne-panic none) (λ _ h is p. absurd (never is)) (λ _ h _ p. p.1.0)
    where
      never : must_miss w none ≢ ok tt
      never is = cc
  Triple-must_miss (some x) =
      Triple-lift _ (must_miss-ne-panic (some x))
        (λ _ h is p. Clear-absent _ _ p.0 (p.1 (ground (arith, is)))) (λ _ h _ p. p.0)

  module _ (manifests : (s : Server) → w.manifest s ≢ panic) where
    pub Triple-connect_locked :
        (query : Query)
        → Triple
            (Holds Recorded)
            (connect_locked w query)
            (λ _. Holds Recorded)
            (λ _. Holds Recorded)
    unfolding connect_locked random_id file_holds pending
    Triple-connect_locked query =
        Triple-bind
          (Triple-attempt {F = λ _. Holds Recorded} (Triple-load start first w honest Recorded))
          λ e. Triple-bind (Triple-must_miss e) λ _.
            Triple-bind {Q = λ _. Holds Clear} (Triple-gets _ (λ h p. p)) λ server.
              Triple-bind (Triple-called (recommend query) (λ h e p. p)) λ _.
                Triple-bind (Triple-checked _ (manifests server)) λ manifest.
                  Triple-bind {Q = λ _. Holds Clear} (Triple-gets _ (λ h p. p)) λ text.
                    Triple-bind (Triple-map_error _ _ (Triple-called get_key (λ h e p. p))) λ _.
                      Triple-bind (Triple-decode_secrets text server) λ secrets.
                        Triple-bind {Q = λ _. Holds Clear} (Triple-gets _ (λ h p. p)) λ physical.
                          Triple-bind (Triple-called snapshot_routes (λ h e p. p)) λ _.
                            Triple-bind {Q = λ _. Holds Clear} (Triple-gets _ (λ h p. p)) λ dns.
                              Triple-bind (Triple-called (network_service _) (λ h e p. p)) λ _.
                                Triple-bind identified λ id.
                                  Triple-bind (Triple-checked _ (or_error-ne-panic _ _)) λ endpoint.
                                    Triple-bind (Triple-checked _ (reject_if-ne-panic _ _)) λ _.
                                      Triple-bind (Triple-checked _ (validate_plan-ne-panic _)) λ _.
                                        Triple-bind {Q = λ _. Holds Clear}
                                          (Triple-gets _ (λ h p. p))
                                          λ now.
                                            Triple-connect_planned start first w honest _
                                              (metadata_of w id server now) refl
      where
        identified : Triple (Holds Clear) (random_id w) (λ _. Holds Clear) (λ _. Holds Recorded)
        identified = Triple-bind {Q = λ _. Holds Clear} (Triple-gets _ (λ h p. p)) λ id.
            Triple-bind (Triple-map_error _ _ (Triple-called random_bytes (λ h e p. p)))
              λ _. Triple-pure id (λ h p. p)

  unless_missing-ne-panic : (e : Option Error) → unless_missing e ≢ panic
  unless_missing-ne-panic none h = cc
  unless_missing-ne-panic (some e) h = ground (arith, h)

  -- The metadata that was loaded is among what the file may hold.
  abbrev pub Known : Metadata → Option Text → List Content → Type 0
  Known m p cs = Recorded p cs × IsAmong (recorded m) cs

  pub Triple-disconnect_recorded :
      (m : Metadata)
      → Triple
          (Holds (Known m))
          (disconnect_recorded w m)
          (λ _. Holds Recorded)
          (λ _. Holds Recorded)
  unfolding disconnect_recorded delete file_holds pending
  Triple-disconnect_recorded m =
      Triple-bind (Triple-must_random_id start first w honest (Known m)) λ id.
        Triple-bind
          (Triple-ask start first w honest (Known m)
            (λ r p cs. Recorded p cs × (has_failed w r ≡ false → Clear p cs))
            (plain_request w disconnect_operation id m.session_id)
            (λ a e p cs k. (
              asked-Recorded a (plain_request w disconnect_operation id m.session_id) e p cs k.0,
              cleared id a e p cs k,
            )))
          λ r. elim (Bool-cases (has_failed w r)) [
            | inl failed ↦ rw failed (Triple-raise _ (λ h p. p.0))
            | inr done ↦ rw done (
                Triple-weaken {P' = Holds Clear}
                  (Triple-bind
                    (Triple-bind {Q = λ _. Holds Clear}
                      (Triple-caught start first w honest (Holds Clear) _ (
                        Triple-call start first w honest (Holds Clear) (Holds Clear) remove_metadata
                          (λ h e p. p)))
                      λ e. Triple-checked _ (unless_missing-ne-panic e))
                    λ _. Triple-pure no_connection (λ h p. Recorded-Clear _ _ p))
                  (λ h p. p.1 refl) (λ _ h p. p) (λ _ h p. p))
          ]
    where
      cleared :
          (id : Text) (a : Response) (e : Option Error) (p : Option Text) (cs : List Content)
          → Known m p cs
          → has_failed w (a, e) ≡ false
          → Clear
              (asked a
                (plain_request w disconnect_operation id m.session_id)
                disconnect_operation
                e
                p)
              cs
      cleared id a none p cs k ok' =
          asked-Clear a (plain_request w disconnect_operation id m.session_id) p cs m k.0 k.1 refl
            (ground (arith, ok'))
      cleared id a (some x) p cs k ok' = absurd (ground (arith, ok'))

  -- A command on the metadata that is there.
  pub Triple-with_metadata :
      (next : Metadata → Tx Result)
      → ((m : Metadata)
          → Triple (Holds (Known m)) (next m) (λ _. Holds Recorded) (λ _. Holds Recorded))
      → Triple (Holds Recorded) (with_metadata w next) (λ _. Holds Recorded) (λ _. Holds Recorded)
  unfolding with_metadata
  Triple-with_metadata next t = record {
    at = λ h p.
        by_outcome (load w h).0 (load w h).1 ((Triple-load start first w honest Recorded).at h p);
  }
    where
      missing :
          (b : Bool) (e : Error)
          → Triple
              (Holds Recorded)
              (if b then pure no_connection else raise e)
              (λ _. Holds Recorded)
              (λ _. Holds Recorded)
      missing true e = Triple-pure no_connection (λ h p. p)
      missing false e = Triple-raise e (λ h p. p)

      by_outcome :
          (o : Outcome Metadata) (h : History)
          → Post
              (λ m h. Holds Recorded h × IsAmong (recorded m) (file_holds start h))
              (λ x h.
                Holds Recorded h
                × (is_error x Sentinel.not_exist ≡ true → IsAmong absent (file_holds start h)))
              o
              h
          → Post
              (λ _. Holds Recorded)
              (λ _. Holds Recorded)
              (on_load w o next h).0
              (on_load w o next h).1
      by_outcome (ok m) h p = (t m).at h p
      by_outcome (err e) h p = (missing (is_error e Sentinel.not_exist) e).at h p.0
      by_outcome panic h p = absurd p
