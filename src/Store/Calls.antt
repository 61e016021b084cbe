-- ===== src/Store/Calls.antt =====
-- `JournalStore` of internal/state as the journal store of internal/tunnel.
use nordmac.Base.{
  Bool, true, false, Option, none, some, List, [], ◌∷◌, text_eq, ==-refl, Text, Outcome, ok, err,
  panic, ◌≡◌, refl, inl, inr, All,
}
use nordmac.Base.Actions.{pure}
use nordmac.Base.Triples.{Triple, Post, Triple-bind, Triple-weaken, Triple-assume, Triple-map_error}
use nordmac.Base.Calls.{Triple-perform}
use nordmac.Tunnel.Types.{Journal}
use nordmac.Tunnel.World as Abstract
use nordmac.Tunnel.World.{create_journal, update_journal, delete_journal}
use nordmac.Tunnel.Safety.Host.{write as disk_write, disk_after}
use nordmac.Helper.Frames.{Codec}
use nordmac.Store.Files.{History, World, Tx}
use nordmac.Store.Journals.{missing_error, create, update, delete}
use nordmac.Store.Contents.{Content, journal_holds}
use nordmac.Store.Encoded.{Represents}
use nordmac.Store.Refines.{
  Refines, Refines-later, Triple-check_context, Triple-path, Triple-sync_directory, Triple-create,
  Triple-update,
}

abbrev pub is_ok {ℓ} : {A : Type ℓ} → Outcome A → Bool
is_ok (ok a) = true
is_ok r = false

module _ (start : List Content) (id : Text) (w : World) (codec : Codec Journal)
    (directory_fits : Bool) where
  abbrev Now : List (Option Journal) → History → Type 0
  Now cs h = Refines start id w codec directory_fits cs h

  -- `Delete` of this session's journal.
  Triple-delete :
      (cs : List (Option Journal))
      → Triple
          (Now cs)
          (delete w directory_fits codec id)
          (λ _. Now (none ∷ []))
          (λ _. Now (none ∷ cs))
  unfolding delete journal_holds
  Triple-delete cs =
      Triple-bind {Q = λ _. Now cs}
        (Triple-weaken (Triple-check_context start id w codec directory_fits (Now cs)) (λ h r. r)
          (λ _ h r. r) (λ _ h r. Refines-later start id w codec directory_fits none cs _ r))
        λ _.
          Triple-bind
            (Triple-weaken
              (Triple-path start id w codec directory_fits (Now cs) id (λ h e r. r) (λ h e r. r))
              (λ h r. r) (λ _ h r. r)
              (λ _ h r. Refines-later start id w codec directory_fits none cs _ r))
            λ p. Triple-assume λ e. rw e (
              Triple-bind {Q = λ _. Now (none ∷ [])}
                (Triple-map_error (missing_error "delete tunnel journal") _ (
                  Triple-perform w.fails _ (λ h r _. rw (==-refl id) ((inl (refl, tt), tt)))
                    (λ h x r _. rw (==-refl id) (
                      (
                        inl (refl, tt),
                        Refines-later start id w codec directory_fits none cs _ r,
                      )))))
                λ _.
                  Triple-weaken
                    (Triple-sync_directory start id w codec directory_fits (Now (none ∷ []))
                      (λ h e r. r) (λ h e r. r) (λ h e r. r))
                    (λ h r. r) (λ _ h r. r) (λ _ h r. widen cs _ r))
    where
      widen :
          (cs : List (Option Journal)) (contents : List Content)
          → All (Represents codec (none ∷ [])) contents
          → All (Represents codec (none ∷ cs)) contents
      widen cs [] a = tt
      widen cs (c ∷ contents) (inl x, a) = (inl x, widen cs contents a)
      widen cs (c ∷ contents) (inr x, a) = absurd x

  -- What the controller's call of its store does on disk; the other calls do not reach it.
  unfoldable pub store_call : Abstract.Call → Tx (Unit {0})
  store_call (create_journal j) = create w directory_fits codec j
  store_call (update_journal j) = update w directory_fits codec j
  store_call (delete_journal s) = delete w directory_fits codec s
  store_call _ = pure tt

  -- A change of this session's journal.
  abbrev pub IsOwn : Abstract.Call → Type 0
  IsOwn (create_journal j) = j.session_id ≡ id
  IsOwn (update_journal j) = j.session_id ≡ id
  IsOwn (delete_journal s) = s ≡ id
  IsOwn _ = Unit

  settled :
      (x : Option Journal) (cs : List (Option Journal)) (r : Outcome (Unit {0})) (h : History)
      → Post (λ _. Now (x ∷ [])) (λ _. Now (x ∷ cs)) r h
      → Now (disk_write (is_ok r) x cs) h
  settled x cs (ok tt) h p = p
  settled x cs (err e) h p = p
  settled x cs panic h p = absurd p

  store_call-Refines :
      (call : Abstract.Call) (cs : List (Option Journal)) (h : History)
      → IsOwn call
      → Now cs h
      → Now (disk_after call (is_ok (store_call call h).0) cs) (store_call call h).1
  unfolding store_call pure
  store_call-Refines (create_journal j) cs h own r =
      settled (some j) cs _ _ ((Triple-create start id w codec directory_fits cs j own).at h r)
  store_call-Refines (update_journal j) cs h own r =
      settled (some j) cs _ _ ((Triple-update start id w codec directory_fits cs j own).at h r)
  store_call-Refines (delete_journal s) cs h own r =
      rw own (settled none cs _ _ ((Triple-delete cs).at h r))
  store_call-Refines _ cs h own r = r

  -- A sequence of calls of the store, and the journals that may be on disk after it by their outcomes.
  unfoldable pub run :
      List Abstract.Call → List (Option Journal) → History → List (Option Journal) × History
  run [] cs h = (cs, h)
  run (c ∷ calls) cs h = run calls (disk_after c (is_ok (store_call c h).0) cs) (store_call c h).1

  -- The journal file refines the journal that the controller asks its store to keep: over any sequence of
  -- the store's calls for one session, with any of the system calls refused, whatever the file may hold is
  -- the encoding of one of the journals that may be on disk by the outcomes of the calls.
  pub run-Refines :
      (calls : List Abstract.Call) (cs : List (Option Journal)) (h : History)
      → All IsOwn calls
      → Refines start id w codec directory_fits cs h
      → Refines start id w codec directory_fits (run calls cs h).0 (run calls cs h).1
  unfolding run
  run-Refines [] cs h own r = r
  run-Refines (c ∷ calls) cs h (own, owns) r =
      run-Refines calls _ _ owns (store_call-Refines c cs h own r)
