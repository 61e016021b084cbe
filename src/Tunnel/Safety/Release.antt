-- ===== src/Tunnel/Safety/Release.antt =====
-- One compensation of `Controller.rollback` and the mark after it (internal/tunnel/controller.go).
use nordmac.Base.{
  ℕ, Bool, true, false, Option, none, some, List, ◌∷◌, ◌≡◌, refl, ◌∙◌, All-set, All-get_elem?,
  arith, set, get_elem?,
}
use nordmac.Base.Triples.{Triple, Post, Triple-raise}
use nordmac.Tunnel.Types.{
  StepKind, device_step, endpoint_route_step, tunnel_route_step, dns_step, other_kind, rolled_back,
  status_eq, Route, Entry, Journal,
}
use nordmac.Tunnel.World.{
  Call, remove_route, delete_device, restore_dns, depends_on, dns, Context, World, History, State,
  perform,
}
use nordmac.Tunnel.Plan.{dns_config}
use nordmac.Tunnel.Rollback.{compensate, remove_of}
use nordmac.Tunnel.Safety.Host.{
  Resource, resource_eq, route, taken, given_back, disk_after, owned, resource_of,
}
use nordmac.Tunnel.Safety.Lemmas.{did, perform-Post, did-quiet, pending-set_rolled_back}
use nordmac.Tunnel.Safety.Steps.{HasCommon, IsReady, Ready}

owned-give :
    (y : Resource) (c : Context) (call : Call) (h : History)
    → taken call ≡ none
    → given_back call ≡ some y
    → owned y (record { context = c; call = call; succeeded = true } ∷ h) ≡ false
unfolding owned
owned-give y c call h t g = ground arith

-- The resource of a step is not owned.
abbrev pub IsReleased : StepKind → Option Route → History → Type 0
IsReleased kind r h = (x : Resource) → resource_of kind r ≡ some x → owned x h ≡ false

module _ (w : World) (here : HasCommon w) where
  -- A call that gives a resource back, from one state.
  give-Post :
      (F : Journal → Type 0) (c : Context) (call : Call) (s : State) (kind : StepKind)
      (r : Option Route)
      → w.has (depends_on call) ≡ true
      → taken call ≡ none
      → ((b : Bool) (cs : List (Option Journal)) → disk_after call b cs ≡ cs)
      → given_back call ≡ resource_of kind r
      → Ready w s
      → F s.journal
      → Post
          (λ _ t. Ready w t × F t.journal × IsReleased kind r t.history)
          (λ _ t. Ready w t × F t.journal)
          (perform w c call s).0
          (perform w c call s).1
  give-Post F c call s kind r has quiet same gives ready f =
      perform-Post _ _ w c call s has
        (λ _. (step true, f, λ x e. owned-give x c call s.history quiet (gives ∙ e)))
        (λ _ _. (step false, f))
    where
      step : (b : Bool) → Ready w (did c call b s)
      step b = record {
        logged = did-quiet c call b s quiet (same b) ready.logged;
        supported = ready.supported;
      }

  Triple-remove_of :
      (F : Journal → Type 0) (c : Context) (kind : StepKind) (r : Option Route)
      → ((x : Route) → some (route x) ≡ resource_of kind (some x))
      → Triple
          (λ s. Ready w s × F s.journal)
          (remove_of w c r)
          (λ _ s. Ready w s × F s.journal × IsReleased kind r s.history)
          (λ _ s. Ready w s × F s.journal)
  Triple-remove_of F c kind none is = Triple-raise _ (λ s h. h)
  Triple-remove_of F c kind (some x) is = record {
    at = λ s (r, f).
        give-Post F c (remove_route x) s kind (some x) here.routes_here refl (λ _ _. refl) (is x) r
          f;
  }

  pub Triple-compensate :
      (F : Journal → Type 0) (c : Context) (kind : StepKind) (r : Option Route)
      → (kind ≡ dns_step → w.has dns ≡ true)
      → Triple
          (λ s. Ready w s × F s.journal)
          (compensate w c kind r)
          (λ _ s. Ready w s × F s.journal × IsReleased kind r s.history)
          (λ _ s. Ready w s × F s.journal)
  unfolding compensate
  Triple-compensate F c dns_step r sup = record {
    at = λ s (q, f).
        give-Post F c (restore_dns s.journal.dns_before (dns_config s.journal.plan)) s dns_step r
          (sup refl) refl (λ _ _. refl) refl q f;
  }
  Triple-compensate F c endpoint_route_step r sup =
      Triple-remove_of F c endpoint_route_step r (λ x. refl)
  Triple-compensate F c tunnel_route_step r sup =
      Triple-remove_of F c tunnel_route_step r (λ x. refl)
  Triple-compensate F c device_step r sup = record {
    at = λ s (q, f).
        give-Post F c (delete_device s.journal.session_id s.journal.device) s device_step r
          here.devices_here refl (λ _ _. refl) refl q f;
  }
  Triple-compensate F c (other_kind k) r sup = record { at = λ s h. h }

  -- The mark of an entry whose resource is given back.
  pub Ready-set_rolled_back :
      (es : List Entry) (h : History) (i : ℕ) (e : Entry)
      → IsReady w es h
      → get_elem? es i ≡ some e
      → IsReleased e.kind e.route h
      → IsReady w (set es i (record e { status = rolled_back })) h
  Ready-set_rolled_back es h i e r at gone = record {
    logged = record {
      safe = r.logged.safe;
      recorded =
          λ x o. pending-set_rolled_back x es i at (λ q. cc (gone x q)) (r.logged.recorded x o);
    };
    supported = All-set _ es i _ r.supported (All-get_elem? _ es i r.supported at);
  }
