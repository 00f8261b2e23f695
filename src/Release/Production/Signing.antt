-- ===== src/Release/Production/Signing.antt =====
-- `evaluateProductionRelease` and `signProductionRelease` of release-center/domain.ts, with the report
-- that is attested.
use ai_dev_harness.Shared.{
  ℕ, ◌+◌, Bool, not, ◌||◌, none, some, List, [], ◌∷◌, ◌++◌, ◌==◌, ltb, any, map, length, text_mem,
  text_eq, Text, lit, ok, err, ◌>>=◌, ◌>>◌, throw_if, if◌then◌else◌,
}
use ai_dev_harness.Release.Fields.{
  Checked, refused, already_evaluated, gates_missing, not_awaiting, bad_role, already_signed,
  reason_too_short, required, id,
}
use ai_dev_harness.Release.ProductionGate.{
  production_gate_ids, signature_roles, ReportGate, ProductionSignature, Attested,
  ProductionReleaseReport, release_attestation_digest, validate_production_release_gate,
}
use ai_dev_harness.Release.Production.{
  awaiting_signatures, approved, ProductionGateCheck, ProductionRelease, is_draft, is_awaiting,
}

abbrev report_gate : ProductionGateCheck → ReportGate
report_gate g = record {
  gate_id = g.gate_id;
  status = g.status;
  owner_role = g.owner_role;
  checked_at = g.checked_at;
  evidence_refs = g.evidence_refs;
}

-- `productionReport`, without and with its signatures
abbrev pub attested_of : ProductionRelease → (evaluated_at : ℕ) → Attested
attested_of value evaluated_at = record {
  schema_version = lit "harness.p12-production-release-gate.v1";
  release_id = value.id;
  target = lit "production-v1";
  candidate_commit = value.candidate_commit;
  evaluated_at = evaluated_at;
  canary = value.canary_report;
  gates = map report_gate value.gates;
  defects = value.defects;
  gaps = [];
  result = lit "approved";
}

abbrev pub production_report :
    ProductionRelease → List ProductionSignature → (evaluated_at : ℕ) → ProductionReleaseReport
production_report value signatures evaluated_at = record {
  attested = attested_of value evaluated_at;
  signatures = signatures;
}

abbrev gate_seen : List ProductionGateCheck → Text → Bool
gate_seen gates gate_id = any (λ g. text_eq g.gate_id gate_id) gates

pub record SignInput : Type 0 where
  pub actor_id : Text
  pub role : Text
  pub reason : Text
  pub request_id : Text
  pub audit_receipt_id : Text

-- `value.status !== "awaiting_signatures" || !value.evaluatedAt || !value.attestationDigest`
unfoldable pub awaiting : ProductionRelease → Checked (ℕ × Text)
awaiting value =
    if is_awaiting value.status
    then (elim value.evaluated_at [
      | none ↦ err (refused not_awaiting)
      | some t ↦ elim value.attestation_digest [
        | none ↦ err (refused not_awaiting)
        | some digest ↦ if length digest == 0 then err (refused not_awaiting) else ok (t, digest)
      ]
    ])
    else err (refused not_awaiting)

module _ (hash : Attested → Text) where
  unfoldable pub evaluate_production_release :
      ProductionRelease → (actor_id : Text) (now : ℕ) → Checked ProductionRelease
  unfolding release_attestation_digest
  evaluate_production_release value actor_id now = do
    throw_if (not (is_draft value.status)) (refused already_evaluated)
    throw_if
        (any (λ gate_id. not (gate_seen value.gates gate_id)) production_gate_ids
          || not (length value.gates == length production_gate_ids))
        (refused gates_missing)
    actor ← id actor_id "actorId"
    let unsigned = production_report value [] now
    ok (record value {
      status = awaiting_signatures;
      evaluated_at = some now;
      attestation_digest = some (release_attestation_digest hash unsigned);
      report = some unsigned;
      version = value.version + 1;
      updated_at = now;
    })

  -- The gate is asked once all the roles have signed.
  unfoldable pub check_complete :
      ProductionReleaseReport → List ProductionSignature → (now : ℕ) → Checked (Unit {0})
  check_complete report signatures now =
      if length signatures == length signature_roles
      then (do summary ← validate_production_release_gate hash report now; ok tt)
      else ok tt

  unfoldable pub sign_production_release :
      ProductionRelease → SignInput → (now : ℕ) → Checked ProductionRelease
  unfolding awaiting check_complete
  sign_production_release value input now = do
    evaluated ← awaiting value
    throw_if (not (text_mem input.role signature_roles)) (refused bad_role)
    signer_id ← id input.actor_id "actorId"
    throw_if (any (λ s. text_eq s.role input.role) value.signatures) (refused already_signed)
    reason ← required input.reason "reason" 4000
    throw_if (ltb (length reason) 20) (refused reason_too_short)
    request_id ← id input.request_id "requestId"
    audit_receipt_id ← id input.audit_receipt_id "auditReceiptId"
    let signatures =
        value.signatures
        ++ record {
          role = input.role;
          signer_id = signer_id;
          signed_at = now;
          decision = lit "approved";
          reason = reason;
          authentication_method = lit "oidc";
          request_id = request_id;
          audit_receipt_id = audit_receipt_id;
          attestation_digest = evaluated.1;
        }
          ∷ []
    let report = production_report value signatures evaluated.0
    check_complete report signatures now
    ok (record value {
      status =
          if length signatures == length signature_roles then approved else awaiting_signatures;
      signatures = signatures;
      report = some report;
      version = value.version + 1;
      updated_at = now;
    })
