-- ===== src/Release/Production/Tests.antt =====
-- The production release of the sample Canary.
use ai_dev_harness.Shared.{
  ℕ, ◌≡◌, ◌*◌, refl, some, none, List, [], ◌∷◌, Text, lit, ok, length, ◌==◌, ◌>>=◌, if◌then◌else◌,
  trim, text_eq, starts_with, ends_with, >>=-eq-ok, subst, map, arith,
}
use ai_dev_harness.Release.Sample.{now, bob, evidence, created, final_report}
use ai_dev_harness.Release.Fields.{
  Checked, hour_ms, is_safe_id, is_commit_sha, is_generic_ref, id, required, strings, evidence_refs,
  is_evidence_ref,
}
use ai_dev_harness.Release.CanaryGate.{
  check_id, is_placeholder, check_texts, check_text, validate_observation, check_windows,
  check_window, check_refs,
}
use ai_dev_harness.Release.CanaryGate.Report.{
  validate_canary_report, check_header, validate_defects, validate_alerts, validate_interventions,
}
use ai_dev_harness.Release.Canary.{CanaryAggregate, CanaryEvent, passed, defect}
use ai_dev_harness.Release.CanaryGate.{p2}
use ai_dev_harness.Release.ProductionGate.{
  production_gate_ids, Attested, ProductionSignature, GateSummary, release_attestation_digest,
  validate_production_release_gate, check_release_header, validate_gates, check_gates, check_gate,
  check_release_refs, validate_release_defects, validate_signatures, check_signatures,
  check_signature,
}
use ai_dev_harness.Release.ProductionGate.Soundness.{IsReleased, production_report-IsReleased}
use ai_dev_harness.Release.Production.{
  ProductionReleaseStatus, awaiting_signatures, approved, ProductionGateCheck, ProductionRelease,
  GateInput, create_production_release, record_production_gate,
}
use ai_dev_harness.Release.Production.Signing.{
  SignInput, attested_of, production_report, evaluate_production_release, sign_production_release,
}
use ai_dev_harness.Release.Production.Approval.{IsShown}
use ai_dev_harness.Release.Production.Gates.{IsReplaced, record_gate-IsReplaced}
use ai_dev_harness.Release.Production.Reach.{
  ReleaseReach, create, next, gate, evaluate, sign, release_approved-IsShown,
  release_awaiting_bound,
}

-- A digest that tells a complete list of gates.
abbrev digest : Attested → Text
digest a =
    if length a.gates == 10
    then lit "00112233445566778899aabbccddeeff00112233445566778899aabbccddeeff"
    else lit "ffeeddccbbaa99887766554433221100ffeeddccbbaa99887766554433221100"

abbrev known_defect : CanaryEvent
known_defect = record {
  id = lit "slow-page";
  attempt = 1;
  observed_at = 12 * hour_ms;
  owner_id = lit "carol";
  evidence_refs = evidence;
  recorded_by = bob;
  kind = defect p2 (lit "open") (some (lit "reload"));
}

-- The sample Canary as it passed; its windows are in the report.
abbrev passed_canary : CanaryAggregate
passed_canary = record created {
  status = passed;
  report = some final_report;
  events = known_defect ∷ [];
  version = 16;
}

abbrev drafted : ProductionRelease
drafted = record {
  id = lit "release-9";
  organization_id = lit "acme";
  project_id = lit "tools";
  goal_id = lit "goal-31";
  canary_id = lit "canary-7";
  candidate_commit = lit "0123456789abcdef0123456789abcdef01234567";
  status = ProductionReleaseStatus.draft;
  canary_report = final_report;
  gates = [];
  defects = record {
    p0_count = 0;
    p1_count = 0;
    p2 =
        record {
          id = lit "slow-page";
          owner_id = lit "carol";
          workaround = lit "reload";
          evidence_refs = evidence;
        }
        ∷ [];
  };
  evaluated_at = none;
  attestation_digest = none;
  signatures = [];
  report = none;
  version = 1;
  created_by = bob;
  created_at = now;
  updated_at = now;
}

abbrev gate_input : Text → GateInput
gate_input gate_id = record {
  actor_id = bob;
  gate_id = gate_id;
  owner_role = lit "owner";
  evidence_refs = evidence;
}

abbrev gate_check : Text → ProductionGateCheck
gate_check gate_id = record {
  gate_id = gate_id;
  status = lit "passed";
  owner_role = lit "owner";
  checked_at = now;
  evidence_refs = evidence;
  checked_by = bob;
}

unfoldable record_gates : ProductionRelease → List Text → Checked ProductionRelease
record_gates v [] = ok v
record_gates v (g ∷ gs) = record_production_gate v (gate_input g) now >>= λ u. record_gates u gs

abbrev gated : ProductionRelease
gated = record drafted { gates = map gate_check production_gate_ids; version = 11 }

abbrev final_digest : Text
final_digest = lit "00112233445566778899aabbccddeeff00112233445566778899aabbccddeeff"

abbrev evaluated : ProductionRelease
evaluated = record gated {
  status = awaiting_signatures;
  evaluated_at = some now;
  attestation_digest = some final_digest;
  report = some (production_report gated [] now);
  version = 12;
}

abbrev signing : SignInput
signing = record {
  actor_id = lit "dora";
  role = lit "owner";
  reason = lit "All gates are green today";
  request_id = lit "req-881";
  audit_receipt_id = lit "receipt-4";
}

abbrev final_signature : ProductionSignature
final_signature = record {
  role = lit "owner";
  signer_id = lit "dora";
  signed_at = now;
  decision = lit "approved";
  reason = lit "All gates are green today";
  authentication_method = lit "oidc";
  request_id = lit "req-881";
  audit_receipt_id = lit "receipt-4";
  attestation_digest = final_digest;
}

abbrev signed : ProductionRelease
signed = record evaluated {
  status = approved;
  signatures = final_signature ∷ [];
  report = some (production_report evaluated (final_signature ∷ []) now);
  version = 13;
}

drafted-ok : create_production_release (lit "release-9") passed_canary bob now ≡ ok drafted
unfolding create_production_release id required is_safe_id trim text_eq
drafted-ok = refl

gated-ok : record_gates drafted production_gate_ids ≡ ok gated
unfolding record_gates record_production_gate text_eq evidence_refs strings required is_evidence_ref
    is_generic_ref id is_safe_id trim
gated-ok = refl

evaluated-ok : evaluate_production_release digest gated bob now ≡ ok evaluated
unfolding evaluate_production_release release_attestation_digest text_eq id required is_safe_id trim
evaluated-ok = refl

signed-ok : sign_production_release digest evaluated signing now ≡ ok signed
unfolding sign_production_release id required release_attestation_digest
    validate_production_release_gate check_release_header is_commit_sha validate_gates check_gates
    check_gate check_release_refs is_generic_ref validate_release_defects validate_signatures
    check_signatures check_signature validate_canary_report check_header check_id is_placeholder
    is_safe_id check_texts check_text validate_observation check_windows check_window check_refs
    validate_defects validate_alerts validate_interventions is_evidence_ref trim starts_with
    ends_with text_eq
signed-ok = refl

record_gates-ReleaseReach :
    (v : ProductionRelease) (gs : List Text) (u : ProductionRelease)
    → ReleaseReach digest v
    → record_gates v gs ≡ ok u
    → ReleaseReach digest u
unfolding record_gates
record_gates-ReleaseReach v [] u r h = subst (ReleaseReach digest) (ground arith) r
record_gates-ReleaseReach v (g ∷ gs) u r h =
    let (t, first, rest) = >>=-eq-ok (record_production_gate v (gate_input g) now) _ h in
    record_gates-ReleaseReach t gs u (next r (gate (gate_input g) now first)) rest

evaluated_reach : ReleaseReach digest evaluated
evaluated_reach =
    next
      (record_gates-ReleaseReach drafted production_gate_ids gated
        (create (lit "release-9") passed_canary bob now drafted-ok) gated-ok)
      (evaluate bob now evaluated-ok)

signed_reach : ReleaseReach digest signed
signed_reach = next evaluated_reach (sign signing now signed-ok)

signed_approved : signed.status ≡ approved
signed_approved = refl

release_approved-IsShown_example : IsShown digest signed
release_approved-IsShown_example = release_approved-IsShown digest signed_reach signed_approved

evaluated_awaiting : evaluated.status ≡ awaiting_signatures
evaluated_awaiting = refl

release_awaiting_bound_example :
    (t : ℕ) × (evaluated.evaluated_at ≡ some t)
    × (evaluated.attestation_digest ≡ some (digest (attested_of evaluated t)))
    × (evaluated.signatures ≡ [])
release_awaiting_bound_example = release_awaiting_bound digest evaluated_reach evaluated_awaiting

abbrev final_summary : GateSummary
final_summary = record { gate_count = 10; signature_count = 1; attestation_digest = final_digest }

final_gate-ok :
    validate_production_release_gate digest
      (production_report evaluated (final_signature ∷ []) now)
      now
    ≡ ok final_summary
unfolding release_attestation_digest validate_production_release_gate check_release_header
    is_commit_sha validate_gates check_gates check_gate check_release_refs is_generic_ref
    validate_release_defects validate_signatures check_signatures check_signature
    validate_canary_report check_header check_id is_placeholder is_safe_id check_texts check_text
    validate_observation check_windows check_window check_refs validate_defects validate_alerts
    validate_interventions is_evidence_ref trim starts_with ends_with text_eq
final_gate-ok = refl

production_report-IsReleased_example :
    IsReleased digest (production_report evaluated (final_signature ∷ []) now) now
production_report-IsReleased_example =
    production_report-IsReleased digest (production_report evaluated (final_signature ∷ []) now) now
      final_summary final_gate-ok

-- The same gate again, an hour later.
abbrev once_gated : ProductionRelease
once_gated = record drafted { gates = gate_check (lit "recovery-stop") ∷ []; version = 2 }

abbrev regated : ProductionRelease
regated = record drafted {
  gates = record (gate_check (lit "recovery-stop")) { checked_at = 24 * hour_ms } ∷ [];
  version = 3;
  updated_at = 24 * hour_ms;
}

regated-ok :
    record_production_gate once_gated (gate_input (lit "recovery-stop")) (24 * hour_ms) ≡ ok regated
unfolding record_production_gate text_eq evidence_refs strings required is_evidence_ref
    is_generic_ref id is_safe_id trim
regated-ok = refl

record_gate-IsReplaced_example :
    IsReplaced once_gated (gate_input (lit "recovery-stop")) (24 * hour_ms) regated
record_gate-IsReplaced_example =
    record_gate-IsReplaced once_gated (gate_input (lit "recovery-stop")) (24 * hour_ms) regated
      regated-ok
