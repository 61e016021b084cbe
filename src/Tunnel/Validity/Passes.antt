-- ===== src/Tunnel/Validity/Passes.antt =====
-- `Journal.Validate` as the conjunction of its checks (internal/tunnel/model.go).
use nordmac.Base.{
  true, false, ◌≡◌, arith, length, pass, >>-pass, pass->>, reject_if-pass, pass-reject_if,
  context-pass, pass-context, ◌==◌, ltb, text_eq, int_eq, nat_eq,
}
use nordmac.Tunnel.Types.{phase_eq, status_eq, Journal}
use nordmac.Tunnel.Plan.{validate_plan}
use nordmac.Tunnel.Journal.{
  journal_schema_version, valid_phase, validate_preimages, check_device, expected_kinds,
  check_entries, check_device_entry, check_endpoint_entry, check_tunnel_entries, check_phase,
  validate_journal,
}

-- The checks of `Journal.Validate`, in its order.
pub record Passes (j : Journal) : Type 0 where
  pub schema : j.schema_version == journal_schema_version ≡ true
  pub plan_passes : validate_plan j.plan ≡ pass
  pub session_same : j.session_id == j.plan.session_id ≡ true
  pub owner_same : j.owner_uid == j.plan.owner_uid ≡ true
  pub phase_known : valid_phase j.phase ≡ true
  pub created : j.created_at == 0 ≡ false
  pub ordered : ltb j.updated_at j.created_at ≡ false
  pub preimages : validate_preimages j ≡ pass
  pub device_passes : check_device j.device ≡ pass
  pub counted : ltb (length (expected_kinds j.plan)) (length j.entries) ≡ false
  pub entries_pass : check_entries j.phase (expected_kinds j.plan) 0 j.entries ≡ pass
  pub device_entry : check_device_entry j.device j.entries ≡ pass
  pub endpoint_entry : check_endpoint_entry j.plan j.entries ≡ pass
  pub tunnel_entries : check_tunnel_entries j.plan j.device j.entries ≡ pass
  pub phase_passes : check_phase j.phase (length (expected_kinds j.plan)) j.device j.entries ≡ pass

pub validate_journal-Passes : (j : Journal) → validate_journal j ≡ pass → Passes j
unfolding validate_journal
validate_journal-Passes j h =
    let (c1, h1) = >>-pass _ _ h in
    let (c2, h2) = >>-pass _ _ h1 in
    let (c3, h3) = >>-pass _ _ h2 in
    let (c4, h4) = >>-pass _ _ h3 in
    let (c5, h5) = >>-pass _ _ h4 in
    let (c6, h6) = >>-pass _ _ h5 in
    let (c7, h7) = >>-pass _ _ h6 in
    let (c8, h8) = >>-pass _ _ h7 in
    let (c9, h9) = >>-pass _ _ h8 in
    let (c10, h10) = >>-pass _ _ h9 in
    let (c11, h11) = >>-pass _ _ h10 in
    let (c12, h12) = >>-pass _ _ h11 in
    let b1 = reject_if-pass _ _ c1 in
    let b3 = reject_if-pass _ _ c3 in
    let b4 = reject_if-pass _ _ c4 in
    let b5 = reject_if-pass _ _ c5 in
    record {
      schema = ground (arith, b1);
      plan_passes = context-pass _ _ c2;
      session_same = ground (arith, b3);
      owner_same = ground (arith, b3);
      phase_known = ground (arith, b4);
      created = ground (arith, b5);
      ordered = ground (arith, b5);
      preimages = c6;
      device_passes = c7;
      counted = reject_if-pass _ _ c8;
      entries_pass = c9;
      device_entry = c10;
      endpoint_entry = c11;
      tunnel_entries = c12;
      phase_passes = h12;
    }

pub Passes-validate_journal : (j : Journal) → Passes j → validate_journal j ≡ pass
unfolding validate_journal
Passes-validate_journal j p = pass->> _ _ (pass-reject_if _ _ (rw p.schema)) (
    pass->> _ _ (pass-context _ _ p.plan_passes) (
      pass->> _ _ (pass-reject_if _ _ (rw (p.session_same, p.owner_same))) (
        pass->> _ _ (pass-reject_if _ _ (rw p.phase_known)) (
          pass->> _ _ (pass-reject_if _ _ (rw (p.created, p.ordered))) (
            pass->> _ _ p.preimages (
              pass->> _ _ p.device_passes (
                pass->> _ _ (pass-reject_if _ _ p.counted) (
                  pass->> _ _ p.entries_pass (
                    pass->> _ _ p.device_entry (
                      pass->> _ _ p.endpoint_entry
                        (pass->> _ _ p.tunnel_entries p.phase_passes)))))))))))
