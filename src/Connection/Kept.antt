-- ===== src/Connection/Kept.antt =====
-- The commands of internal/connection/service.go and the pending session.
use nordmac.Base.{
  Bool, true, false, ◌&&◌, Option, none, some, some-injective, List, [], ◌∷◌, text_eq, ==-refl,
  Text, Error, panic, if◌then◌else◌, All, ◌≡◌, ◌≢◌, ◌∙◌, refl, sym, subst, ap, arith,
}
use nordmac.Base.Actions.{raise, attempt, ◌>>=◌}
use nordmac.Base.Triples.{
  Triple, Attempted, Triple-pure, Triple-raise, Triple-gets, Triple-bind, Triple-weaken,
  Triple-attempt,
}
use nordmac.Base.Calls.{Triple-perform}
use nordmac.Tunnel.Types.{Plan}
use nordmac.Helper.Protocol.{disconnect_operation, Request, Response}
use nordmac.Connection.World.{is_connected, Metadata, exchange, History, World}
use nordmac.Connection.Service.{
  join_errors, save, ask, has_failed, helper_error, plain_request, connect_request, on_saved,
  connect_planned,
}
use nordmac.Connection.Recorded.{
  Content, absent, recorded, file_holds, is_session, asked, pending, IsAmong, IsOf, IsOf-among,
  IsHonest,
}
use nordmac.Connection.Saved.{Triple-kept, Triple-caught, Triple-save, Triple-must_random_id}

-- No session is pending.
abbrev pub Clear : Option Text → List Content → Type 0
Clear p cs = p ≡ none

-- A session is pending, and the file is its metadata.
abbrev pub Up : Text → Option Text → List Content → Type 0
Up s p cs = (p ≡ some s) × All (IsOf s) cs

abbrev pub Recorded : Option Text → List Content → Type 0
Recorded p cs = (s : Text) → p ≡ some s → All (IsOf s) cs

-- No session is pending, and the file is this metadata.
abbrev Stored : Metadata → Option Text → List Content → Type 0
Stored m p cs = (p ≡ none) × (cs ≡ recorded m ∷ [])

pub Recorded-Clear : (p : Option Text) (cs : List Content) → Clear p cs → Recorded p cs
Recorded-Clear p cs c s h = absurd (ground (arith, c, h))

Recorded-Up : (t : Text) (p : Option Text) (cs : List Content) → Up t p cs → Recorded p cs
Recorded-Up t p cs (up, all) s h =
    subst (λ x. All (IsOf x) cs) (some-injective t s (sym up ∙ h)) all

-- Where there may be no file, no session is pending.
pub Clear-absent :
    (p : Option Text) (cs : List Content) → Recorded p cs → IsAmong absent cs → Clear p cs
Clear-absent none cs r m = refl
Clear-absent (some s) cs r m = absurd (IsOf-among s absent cs (r s refl) m)

-- An acknowledged disconnection of the recorded session leaves none pending.
pub asked-Clear :
    (response : Response) (r : Request) (p : Option Text) (cs : List Content) (m : Metadata)
    → Recorded p cs
    → IsAmong (recorded m) cs
    → m.session_id ≡ r.session_id
    → response.succeeded ≡ true
    → Clear (asked response r disconnect_operation none p) cs
asked-Clear response r none cs m rec among same done = ground (arith, done)
asked-Clear response r (some s) cs m rec among same done =
    let own = IsOf-among s (recorded m) cs (rec s refl) among in
    rw (done, sym own ∙ same, ==-refl r.session_id) refl

-- A disconnection leaves what is pending, or none.
pub asked-Recorded :
    (response : Response) (r : Request) (e : Option Error) (p : Option Text) (cs : List Content)
    → Recorded p cs
    → Recorded (asked response r disconnect_operation e p) cs
asked-Recorded response r (some e) p cs rec = rec
asked-Recorded response r none p cs rec =
    by_answer (response.succeeded && is_session p r.session_id)
  where
    by_answer : (b : Bool) → Recorded (if b then none else p) cs
    by_answer true = Recorded-Clear none cs refl
    by_answer false = rec

module _ (start : List Content) (first : Option Text) (w : World)
    (honest : IsHonest start first w) where
  abbrev pub Holds : (Option Text → List Content → Type 0) → History → Type 0
  Holds K h = K (pending start first w h) (file_holds start h)

  -- An exchange with the helper, by its answer.
  pub Triple-ask :
      (K : Option Text → List Content → Type 0)
      (Q : Response × Option Error → Option Text → List Content → Type 0)
      {E : Error → History → Type 0} (r : Request)
      → ((response : Response) (e : Option Error) (p : Option Text) (cs : List Content)
          → K p cs
          → Q (response, e) (asked response r r.operation e p) cs)
      → Triple (Holds K) (ask w r) (λ x. Holds (Q x)) E
  unfolding ask file_holds pending
  Triple-ask K Q {E} r step =
      Triple-bind {Q = λ a h. Holds K h × (a ≡ w.response h r)} (Triple-gets _ (λ h p. (p, refl)))
        λ a.
          Triple-bind {Q = λ e. Holds (Q (a, e))}
            (Triple-weaken
              (Triple-attempt {F = E} (
                Triple-perform w.fails {Q = Holds (Q (a, none))} {E = λ e. Holds (Q (a, some e))}
                  (exchange r) (λ h p _. rw (sym p.1) (step a none _ _ p.0))
                  (λ h e p _. rw (sym p.1) (step a (some e) _ _ p.0))))
              (λ h p. p) (ended a) (λ _ _ p. p))
            λ e. Triple-pure (a, e) (λ h p. p)
    where
      ended :
          (a : Response) (e : Option Error) (h : History)
          → Attempted (λ (_ : Unit {0}). Holds (Q (a, none))) (λ e. Holds (Q (a, some e))) e h
          → Holds (Q (a, e)) h
      ended a none h p = p.1
      ended a (some x) h p = p

  joined-ne-panic : (e : Error) (f : Option Error) → join_errors w e f ≢ panic
  joined-ne-panic e none h = cc
  joined-ne-panic e (some x) h = cc

  Triple-on_saved :
      (m : Metadata) (e : Option Error)
      → Triple
          (Holds (Up m.session_id))
          (on_saved w m e)
          (λ _. Holds Recorded)
          (λ _. Holds Recorded)
  unfolding on_saved
  Triple-on_saved m none = Triple-pure _ (λ h p. Recorded-Up _ _ _ p)
  Triple-on_saved m (some e) =
      Triple-bind (Triple-must_random_id start first w honest (Up m.session_id)) λ id.
        Triple-bind
          (Triple-ask (Up m.session_id) (λ _. Recorded) _
            (λ a x p cs up.
              asked-Recorded a (plain_request w disconnect_operation id m.session_id) x p cs
                (Recorded-Up _ _ _ up)))
          λ r. Triple-kept start first w honest (Holds Recorded) _ (joined-ne-panic e r.1)

  pub Triple-connect_planned :
      (plan : Plan) (m : Metadata)
      → plan.session_id ≡ m.session_id
      → Triple (Holds Clear) (connect_planned w plan m) (λ _. Holds Recorded) (λ _. Holds Recorded)
  unfolding connect_planned
  Triple-connect_planned plan m same =
      Triple-bind
        (Triple-weaken
          (Triple-save start first w honest Clear (Stored m) m (λ p cs c. (c, refl)) (λ p cs c. c))
          (λ h p. p) (λ _ h p. p) (λ _ h p. Recorded-Clear _ _ p))
        λ _. Triple-bind (Triple-must_random_id start first w honest (Stored m)) λ id.
          Triple-bind
            (Triple-ask (Stored m) (λ _. Up m.session_id) (connect_request w id plan)
              (λ a x p cs (none', is). (ap some same, rw is (refl, tt))))
            λ r. by_answer r (has_failed w r)
    where
      by_answer :
          (r : Response × Option Error) (b : Bool)
          → Triple
              (Holds (Up m.session_id))
              (if b then raise (helper_error r.1) else (do
                e ← attempt (save w (record m { phase = is_connected }))
                on_saved w (record m { phase = is_connected }) e))
              (λ _. Holds Recorded)
              (λ _. Holds Recorded)
      by_answer r true = Triple-raise _ (λ h p. Recorded-Up _ _ _ p)
      by_answer r false =
          Triple-bind {Q = λ _. Holds (Up m.session_id)}
            (Triple-caught start first w honest (Holds (Up m.session_id)) _ (
              Triple-save start first w honest (Up m.session_id) (Up m.session_id)
                (record m { phase = is_connected }) (λ p cs up. (up.0, (refl, tt)))
                (λ p cs up. (up.0, (refl, up.1)))))
            λ e. Triple-on_saved (record m { phase = is_connected }) e
