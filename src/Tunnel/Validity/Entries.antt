-- ===== src/Tunnel/Validity/Entries.antt =====
-- The loops of `Journal.Validate` over the entries (internal/tunnel/model.go).
use nordmac.Base.{
  ℕ, zero, suc, ◌+◌, ◌≤◌, Bool, true, false, ◌&&◌, Option, none, some, List, [], ◌∷◌, ◌≡◌, refl,
  ◌≢◌, arith, get_elem?, length, panic, pass, reject_if, >>-pass, pass->>, pass-reject_if,
  reject_if-pass, reject_if-ne-panic, >>-ne-panic, err-ne-panic, pass-ne-panic, ◌==◌,
  get_elem?-in_range, String, subst,
}
use nordmac.Tunnel.Types.{
  Phase, connecting, phase_eq, StepKind, kind_eq, rolled_back, status_eq, Route, route_eq, Entry,
}
use nordmac.Tunnel.Panics.{no_panic, validate_route-ne-panic}
use nordmac.Tunnel.Journal.{
  check_entry, check_entries, check_kind, check_entry_route, is_route_kind, valid_step,
  valid_step_status, check_route, check_route_at,
}

-- What one round of the loop has checked.
pub record Fits (phase : Phase) (o : Option StepKind) (e : Entry) : Type 0 where
  pub kind_fits : o ≡ some e.kind
  pub route_fits : check_entry_route (is_route_kind e.kind) e.route ≡ pass
  pub step_fits : valid_step e.kind ≡ true
  pub status_fits : valid_step_status e.status ≡ true
  pub live : (phase == connecting && e.status == rolled_back) ≡ false

check_kind-pass : (o : Option StepKind) (k : StepKind) → check_kind o k ≡ pass → o ≡ some k
unfolding reject_if
check_kind-pass none k h = cc
check_kind-pass (some k') k h = ground arith

pub check_entry-pass :
    (phase : Phase) (o : Option StepKind) (e : Entry)
    → check_entry phase o e ≡ pass
    → Fits phase o e
unfolding check_entry
check_entry-pass phase o e h =
    let (a, h1) = >>-pass _ _ h in
    let (b, h2) = >>-pass _ _ h1 in
    let (c, d) = >>-pass _ _ h2 in
    let ok_names = reject_if-pass _ _ a in
    record {
      kind_fits = check_kind-pass o e.kind b;
      route_fits = c;
      step_fits = ground arith;
      status_fits = ground arith;
      live = reject_if-pass _ _ d;
    }

pub pass-check_entry :
    (phase : Phase) (o : Option StepKind) (e : Entry)
    → Fits phase o e
    → check_entry phase o e ≡ pass
unfolding check_entry
pass-check_entry phase o e f = pass->> _ _ (pass-reject_if _ _ (ground (arith, f))) (
    pass->> _ _ (rw f.kind_fits (pass-reject_if _ _ (ground arith)))
      (pass->> _ _ f.route_fits (pass-reject_if _ _ f.live)))

-- What the whole loop has checked.
abbrev pub AllFit : Phase → List StepKind → List Entry → Type 0
AllFit phase kinds es =
    (i : ℕ) (e : Entry) → get_elem? es i ≡ some e → Fits phase (get_elem? kinds i) e

check_entries-at :
    (phase : Phase) (kinds : List StepKind) (k : ℕ) (es : List Entry)
    → check_entries phase kinds k es ≡ pass
    → (i : ℕ) (e : Entry) → get_elem? es i ≡ some e
    → Fits phase (get_elem? kinds (k + i)) e
unfolding check_entries
check_entries-at phase kinds k [] h i e g = cc
check_entries-at phase kinds k (x ∷ es) h zero e g =
    let same : k + 0 ≡ k = omega arith in
    let e' : x ≡ e = ground arith in
    rw (same, ← e') (check_entry-pass phase (get_elem? kinds k) x (>>-pass _ _ h).0)
check_entries-at phase kinds k (x ∷ es) h (suc i) e g =
    let next : k + suc i ≡ k + 1 + i = omega arith in
    rw next (check_entries-at phase kinds (k + 1) es (>>-pass _ _ h).1 i e g)

pub check_entries-AllFit :
    (phase : Phase) (kinds : List StepKind) (es : List Entry)
    → check_entries phase kinds 0 es ≡ pass
    → AllFit phase kinds es
check_entries-AllFit phase kinds es h i e g =
    let same : 0 + i ≡ i = omega arith in
    subst (λ n. Fits phase (get_elem? kinds n) e) same (check_entries-at phase kinds 0 es h i e g)

check_entry_route-ne-panic : (b : Bool) (r : Option Route) → check_entry_route b r ≢ panic
check_entry_route-ne-panic true none = err-ne-panic _
check_entry_route-ne-panic true (some r) = search (no_panic, validate_route-ne-panic)
check_entry_route-ne-panic false none = pass-ne-panic
check_entry_route-ne-panic false (some r) = err-ne-panic _

check_kind-ne-panic : (o : Option StepKind) (k : StepKind) → o ≢ none → check_kind o k ≢ panic
check_kind-ne-panic none k h = absurd (h refl)
check_kind-ne-panic (some k') k h = reject_if-ne-panic _ _

check_entry-ne-panic :
    (phase : Phase) (o : Option StepKind) (e : Entry) → o ≢ none → check_entry phase o e ≢ panic
unfolding check_entry
check_entry-ne-panic phase o e h =
    search (no_panic, check_entry_route-ne-panic, check_kind-ne-panic o e.kind h)

-- The kinds are indexed in range while there are no more entries than kinds.
pub check_entries-ne-panic :
    (phase : Phase) (kinds : List StepKind) (k : ℕ) (es : List Entry)
    → k + length es ≤ length kinds
    → check_entries phase kinds k es ≢ panic
unfolding check_entries
check_entries-ne-panic phase kinds k [] h = pass-ne-panic
check_entries-ne-panic phase kinds k (e ∷ es) h =
    >>-ne-panic _ _
      (check_entry-ne-panic phase (get_elem? kinds k) e (get_elem?-in_range kinds k (omega arith)))
      (check_entries-ne-panic phase kinds (k + 1) es (omega arith))

-- The entry at a route's index has a route.
abbrev pub HasRoute : List Entry → ℕ → Type 0
HasRoute es i = (e : Entry) → get_elem? es i ≡ some e → e.route ≢ none

check_route-ne-panic :
    (o : Option Route) (r : Route) (m : String) → o ≢ none → check_route o r m ≢ panic
check_route-ne-panic none r m h = absurd (h refl)
check_route-ne-panic (some x) r m h = reject_if-ne-panic _ _

pub check_route_at-ne-panic :
    (o : Option Entry) (r : Route) (m : String)
    → o ≢ none
    → ((e : Entry) → o ≡ some e → e.route ≢ none)
    → check_route_at o r m ≢ panic
check_route_at-ne-panic none r m h g = absurd (h refl)
check_route_at-ne-panic (some e) r m h g = check_route-ne-panic e.route r m (g e refl)

pub route_of_kind :
    (phase : Phase) (o : Option StepKind) (e : Entry)
    → Fits phase o e
    → is_route_kind e.kind ≡ true
    → e.route ≢ none
route_of_kind phase o e f h q =
    let g : check_entry_route (is_route_kind e.kind) e.route ≡ pass = f.route_fits in
    absurd (ground arith)
