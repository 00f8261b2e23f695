-- ===== src/Release/ProductionGate.antt =====
-- prototype/web-ui/app/reliability/p12-production-release-gate.ts and release-center/constants.ts:
-- the production release report and the gate that it has to pass. The SHA-256 of the canonical JSON
-- of a report without its signatures is the parameter `hash`.
pub mod Soundness
use ai_dev_harness.Shared.{
  ℕ, true, false, not, ◌&&◌, ◌||◌, List, [], ◌∷◌, ◌==◌, ltb, any, all, length, text_mem, text_eq,
  Text, lit, ok, ◌>>=◌, ◌>>◌,
}
use ai_dev_harness.Release.Fields.{Checked, is_commit_sha, is_generic_ref, is_hex}
use ai_dev_harness.Release.CanaryGate.{CanaryReport, reject_if, check_id, check_text}
use ai_dev_harness.Release.CanaryGate.Report.{validate_canary_report}

abbrev pub production_gate_ids : List Text
production_gate_ids =
    lit "browser-e2e"
    ∷ lit "identity-security"
    ∷ lit "autodev-authorization"
    ∷ lit "model-routing-write"
    ∷ lit "supply-chain"
    ∷ lit "git-traceability"
    ∷ lit "recovery-stop"
    ∷ lit "observability-oncall"
    ∷ lit "canary-goal-verification"
    ∷ lit "defect-budget"
    ∷ []

abbrev pub signature_roles : List Text
signature_roles = lit "owner" ∷ []

pub record ReportGate : Type 0 where
  pub gate_id : Text
  pub status : Text
  pub owner_role : Text
  pub checked_at : ℕ
  pub evidence_refs : List Text

pub record ReleaseDefect : Type 0 where
  pub id : Text
  pub owner_id : Text
  pub workaround : Text
  pub evidence_refs : List Text

pub record ReleaseDefects : Type 0 where
  pub p0_count : ℕ
  pub p1_count : ℕ
  pub p2 : List ReleaseDefect

pub record ProductionSignature : Type 0 where
  pub role : Text
  pub signer_id : Text
  pub signed_at : ℕ
  pub decision : Text
  pub reason : Text
  pub authentication_method : Text
  pub request_id : Text
  pub audit_receipt_id : Text
  pub attestation_digest : Text

-- The fields of the report that a signature attests: all but `signatures`.
pub record Attested : Type 0 where
  pub schema_version : Text
  pub release_id : Text
  pub target : Text
  pub candidate_commit : Text
  pub evaluated_at : ℕ
  pub canary : CanaryReport
  pub gates : List ReportGate
  pub defects : ReleaseDefects
  pub gaps : List Text
  pub result : Text

pub record ProductionReleaseReport : Type 0 where
  pub attested : Attested
  pub signatures : List ProductionSignature

-- `evidenceRefs` of this file
unfoldable pub check_release_refs : List Text → Checked (Unit {0})
check_release_refs refs =
    reject_if (length refs == 0 || any (λ ref. not (is_generic_ref ref)) refs)
      "must contain versioned evidence references"

unfoldable pub check_gate :
    List Text → (canary_end evaluated_at : ℕ) → ReportGate → Checked (Unit {0})
check_gate seen canary_end evaluated_at g = do
  check_text g.gate_id
  reject_if (not (text_mem g.gate_id production_gate_ids) || text_mem g.gate_id seen)
      "gates contain an unknown or duplicate gate"
  reject_if (not (text_eq g.status (lit "passed"))) "gate is not passed"
  check_text g.owner_role
  reject_if (not (text_mem g.owner_role signature_roles)) "gate has an invalid owner role"
  reject_if (ltb g.checked_at canary_end || ltb evaluated_at g.checked_at)
      "gate was checked outside the final evidence window"
  check_release_refs g.evidence_refs

-- The loop of `validateGates`: it returns the identities seen.
unfoldable pub check_gates :
    List Text → (canary_end evaluated_at : ℕ) → List ReportGate → Checked (List Text)
check_gates seen canary_end evaluated_at [] = ok seen
check_gates seen canary_end evaluated_at (g ∷ gs) = do
  check_gate seen canary_end evaluated_at g
  check_gates (g.gate_id ∷ seen) canary_end evaluated_at gs

unfoldable pub validate_gates : List ReportGate → (canary_end evaluated_at : ℕ) → Checked ℕ
validate_gates gates canary_end evaluated_at = do
  reject_if (not (length gates == length production_gate_ids)) "gates are incomplete"
  seen ← check_gates [] canary_end evaluated_at gates
  reject_if (any (λ gate. not (text_mem gate seen)) production_gate_ids) "gates are incomplete"
  ok (length gates)

check_release_defect_list : List ReleaseDefect → Checked (Unit {0})
check_release_defect_list [] = ok tt
check_release_defect_list (d ∷ ds) = do
  check_id d.id false
  check_id d.owner_id false
  check_text d.workaround
  check_release_refs d.evidence_refs
  check_release_defect_list ds

unfoldable pub validate_release_defects : ReleaseDefects → Checked (Unit {0})
unfolding check_release_defect_list
validate_release_defects d = do
  reject_if (not (d.p0_count == 0) || not (d.p1_count == 0)) "cannot release with P0/P1 defects"
  check_release_defect_list d.p2

unfoldable pub check_signature :
    List Text
    → (attestation_digest : Text) (evaluated_at now : ℕ) → ProductionSignature
    → Checked (Unit {0})
check_signature seen_roles attestation_digest evaluated_at now s = do
  check_text s.role
  reject_if (not (text_mem s.role signature_roles) || text_mem s.role seen_roles)
      "signatures have a missing or duplicate role"
  check_id s.signer_id true
  reject_if (ltb s.signed_at evaluated_at) "signature predates final gate evaluation"
  reject_if (ltb now s.signed_at) "signature timestamp is in the future"
  reject_if
      (not (text_eq s.decision (lit "approved"))
        || not (text_eq s.authentication_method (lit "oidc")))
      "signature must be an approved OIDC attestation"
  check_text s.reason
  reject_if (ltb (length s.reason) 20) "signature reason is too short"
  check_id s.request_id true
  check_id s.audit_receipt_id true
  check_text s.attestation_digest
  reject_if
      (not (length s.attestation_digest == 64 && all is_hex s.attestation_digest)
        || not (text_eq s.attestation_digest attestation_digest))
      "signature digest does not bind the final release evidence"

unfoldable pub check_signatures :
    List Text
    → (attestation_digest : Text) (evaluated_at now : ℕ) → List ProductionSignature
    → Checked (Unit {0})
check_signatures seen attestation_digest evaluated_at now [] = ok tt
check_signatures seen attestation_digest evaluated_at now (s ∷ ss) = do
  check_signature seen attestation_digest evaluated_at now s
  check_signatures (s.role ∷ seen) attestation_digest evaluated_at now ss

unfoldable pub validate_signatures :
    List ProductionSignature → (attestation_digest : Text) (evaluated_at now : ℕ) → Checked ℕ
validate_signatures signatures attestation_digest evaluated_at now = do
  reject_if (not (length signatures == length signature_roles))
      "requires exactly one owner signature"
  check_signatures [] attestation_digest evaluated_at now signatures
  ok (length signatures)

pub record GateSummary : Type 0 where
  pub gate_count : ℕ
  pub signature_count : ℕ
  pub attestation_digest : Text

unfoldable pub check_release_header : Attested → (now : ℕ) → Checked (Unit {0})
check_release_header r now = do
  reject_if
      (not (text_eq r.schema_version (lit "harness.p12-production-release-gate.v1"))
        || not (text_eq r.target (lit "production-v1")))
      "release schema or target is invalid"
  check_id r.release_id false
  check_text r.candidate_commit
  reject_if (not (is_commit_sha r.candidate_commit)) "candidateCommit must be a full Git SHA"
  reject_if (ltb now r.evaluated_at) "release evaluation is in the future"

module _ (hash : Attested → Text) where
  unfoldable pub release_attestation_digest : ProductionReleaseReport → Text
  release_attestation_digest r = hash r.attested

  unfoldable pub validate_production_release_gate :
      ProductionReleaseReport → (now : ℕ) → Checked GateSummary
  unfolding release_attestation_digest
  validate_production_release_gate report now = do
    let r = report.attested
    check_release_header r now
    canary_summary ← validate_canary_report r.canary now
    reject_if (ltb r.evaluated_at r.canary.ended_at) "release was evaluated before Canary ended"
    gate_count ← validate_gates r.gates r.canary.ended_at r.evaluated_at
    validate_release_defects r.defects
    reject_if (not (length r.gaps == 0) || not (text_eq r.result (lit "approved")))
        "release has unresolved gaps or is not approved"
    let attestation_digest = release_attestation_digest report
    signature_count ← validate_signatures report.signatures attestation_digest r.evaluated_at now
    ok (record {
      gate_count = gate_count;
      signature_count = signature_count;
      attestation_digest = attestation_digest;
    })
