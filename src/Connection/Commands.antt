-- ===== src/Connection/Commands.antt =====
-- Sequences of the commands of internal/connection/service.go.
use nordmac.Base.{Bool, Option, List, [], ◌∷◌, text_eq, Text, panic, reject_if-ne-panic, ◌≢◌}
use nordmac.Base.Triples.{Triple, Triple-pure, Triple-bind, Triple-weaken, Triple-map_error}
use nordmac.Recommend.Select.{Server}
use nordmac.Helper.Protocol.{status_operation}
use nordmac.Connection.World.{Query, lock_connection, release_lock, History, World, Tx}
use nordmac.Connection.Service.{
  Result, plain_request, disconnect_locked, status_locked, locked, connect, disconnect, status,
  reconnect, query_of,
}
use nordmac.Connection.Recorded.{Content, file_holds, pending, IsRecorded, IsHonest}
use nordmac.Connection.Saved.{Triple-kept, Triple-call, Triple-load, Triple-must_random_id}
use nordmac.Base.Triples.{Post-always, Triple-finally}
use nordmac.Connection.Kept.{Recorded, Triple-ask}
use nordmac.Connection.Planned.{
  Known, Triple-connect_locked, Triple-disconnect_recorded, Triple-with_metadata,
}

pub data Command : Type 0 where
  connect_command : Query → Command
  disconnect_command status_command : Command
  reconnect_command : Bool → Command

module _ (w : World) where
  -- The history that a command leaves, whatever it returns.
  abbrev pub after : Command → History → History
  after (connect_command query) h = (connect w query h).1
  after disconnect_command h = (disconnect w h).1
  after status_command h = (status w h).1
  after (reconnect_command fresh) h = (reconnect w fresh h).1

  unfoldable pub run : List Command → History → History
  run [] h = h
  run (c ∷ cs) h = run cs (after c h)

module _ (start : List Content) (first : Option Text) (w : World) (honest : IsHonest start first w)
    (manifests : (s : Server) → w.manifest s ≢ panic) where
  abbrev Rec : History → Type 0
  Rec h = Recorded (pending start first w h) (file_holds start h)

  Triple-locked :
      (body : Tx Result)
      → Triple Rec body (λ _. Rec) (λ _. Rec)
      → Triple Rec (locked w body) (λ _. Rec) (λ _. Rec)
  unfolding locked file_holds pending
  Triple-locked body t =
      Triple-bind (Triple-kept start first w honest Rec _ (reject_if-ne-panic _ _)) λ _.
        Triple-bind
          (Triple-map_error _ _
            (Triple-call start first w honest Rec Rec lock_connection (λ h e p. p)))
          λ _.
            Triple-finally {Q = λ _. Rec} {E = λ _. Rec} t
              (λ a. Triple-call start first w honest Rec Rec release_lock (λ h e p. p))
              (λ e. Triple-call start first w honest Rec Rec release_lock (λ h e p. p))

  Triple-disconnect_locked : Triple Rec (disconnect_locked w) (λ _. Rec) (λ _. Rec)
  unfolding disconnect_locked
  Triple-disconnect_locked =
      Triple-with_metadata start first w honest _ (Triple-disconnect_recorded start first w honest)

  Triple-status_locked : Triple Rec (status_locked w) (λ _. Rec) (λ _. Rec)
  unfolding status_locked
  Triple-status_locked = Triple-with_metadata start first w honest _ λ m.
      Triple-bind (Triple-must_random_id start first w honest (Known start first w honest m)) λ id.
        Triple-bind
          (Triple-ask start first w honest (Known start first w honest m) (λ _. Recorded)
            (plain_request w status_operation id m.session_id) (λ a e p cs k. k.0))
          λ r. Triple-pure _ (λ h p. p)

  Triple-reconnect : (fresh : Bool) → Triple Rec (reconnect w fresh) (λ _. Rec) (λ _. Rec)
  unfolding reconnect
  Triple-reconnect fresh =
      Triple-bind (Triple-kept start first w honest Rec _ (reject_if-ne-panic _ _)) λ _.
        Triple-locked _ (
          Triple-bind
            (Triple-weaken (Triple-load start first w honest Recorded) (λ h p. p) (λ _ h p. p.0)
              (λ _ h p. p.0))
            λ m.
              Triple-bind Triple-disconnect_locked
                λ _. Triple-connect_locked start first w honest manifests (query_of w m))

  ends :
      {A : Type 0} (m : Tx A) (h : History)
      → Triple Rec m (λ _. Rec) (λ _. Rec)
      → Rec h
      → Rec (m h).1
  ends m h t p =
      Post-always (λ _. Rec) (λ _. Rec) Rec (m h).0 (m h).1 (λ _ q. q) (λ _ q. q) (t.at h p)

  after-IsRecorded : (c : Command) (h : History) → Rec h → Rec (after w c h)
  unfolding connect disconnect status
  after-IsRecorded (connect_command query) h p =
      ends (connect w query) h
        (Triple-locked _ (Triple-connect_locked start first w honest manifests query)) p
  after-IsRecorded disconnect_command h p =
      ends (disconnect w) h (Triple-locked _ Triple-disconnect_locked) p
  after-IsRecorded status_command h p = ends (status w) h (Triple-locked _ Triple-status_locked) p
  after-IsRecorded (reconnect_command fresh) h p =
      ends (reconnect w fresh) h (Triple-reconnect fresh) p

  -- After any sequence of commands, whatever fails in them, while a session that the helper was asked to
  -- connect has not been disconnected with its acknowledgement, whatever the metadata file may hold is metadata
  -- of that session: `Disconnect` finds it. The file is as it is read, the source of random bytes does not
  -- fail, and the planning of a connection does not panic.
  pub run-IsRecorded :
      (cs : List Command) (h : History)
      → IsRecorded start first w h
      → IsRecorded start first w (run w cs h)
  unfolding run
  run-IsRecorded [] h p = p
  run-IsRecorded (c ∷ cs) h p = run-IsRecorded cs (after w c h) (after-IsRecorded c h p)
