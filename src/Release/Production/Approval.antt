-- ===== src/Release/Production/Approval.antt =====
-- Each operation of release-center/domain.ts on a production release, and what it leaves.
use ai_dev_harness.Shared.{
  ℕ, ◌≡◌, ◌≢◌, ap, not, some, List, [], ◌∷◌, ◌++◌, ltb, any, length, text_mem, text_eq, Text, lit,
  ok, >>=-eq-ok, >>-eq-ok, throw_if-eq-ok, Result-cases, inl, inr, arith,
}
use ai_dev_harness.Release.Fields.{
  refused, bad_role, already_signed, reason_too_short, required, id,
}
use ai_dev_harness.Release.Canary.{CanaryAggregate}
use ai_dev_harness.Release.ProductionGate.{
  signature_roles, ProductionSignature, Attested, ProductionReleaseReport,
  validate_production_release_gate,
}
use ai_dev_harness.Release.ProductionGate.Soundness.{IsReleased, production_report-IsReleased}
use ai_dev_harness.Release.Production.{
  awaiting_signatures, approved, ProductionRelease, GateInput, create_production_release,
  record_production_gate,
}
use ai_dev_harness.Release.Production.Signing.{
  SignInput, attested_of, production_report, awaiting, check_complete, evaluate_production_release,
  sign_production_release,
}

module _ (hash : Attested → Text) where
  -- The report of an approved release, and when it was approved.
  pub record IsShown (v : ProductionRelease) : Type 0 where
    pub report : ProductionReleaseReport
    pub at : ℕ
    pub stored : v.report ≡ some report
    pub content : report.attested ≡ attested_of v report.attested.evaluated_at
    pub released : IsReleased hash report at

  pub record IsLawful (v : ProductionRelease) : Type 0 where
    pub unsigned : v.status ≢ approved → v.signatures ≡ []
    pub bound :
        v.status ≡ awaiting_signatures
        → (t : ℕ) × (v.evaluated_at ≡ some t)
          × (v.attestation_digest ≡ some (hash (attested_of v t)))
    pub shown : v.status ≡ approved → IsShown v

  pub create-IsLawful :
      (release_id : Text) (canary : CanaryAggregate) (actor : Text) (now : ℕ)
      (v : ProductionRelease)
      → create_production_release release_id canary actor now ≡ ok v
      → IsLawful v
  unfolding create_production_release
  create-IsLawful release_id canary actor now v h = record {
    unsigned = λ _. ground arith;
    bound = λ s. absurd (ground arith);
    shown = λ s. absurd (ground arith);
  }

  pub gate-IsLawful :
      (v : ProductionRelease) (input : GateInput) (now : ℕ) (w : ProductionRelease)
      → IsLawful v
      → record_production_gate v input now ≡ ok w
      → IsLawful w
  unfolding record_production_gate
  gate-IsLawful v input now w l h =
      let none_yet : v.signatures ≡ [] = l.unsigned (λ a. ground arith) in
      record {
        unsigned = λ _. ground arith;
        bound = λ s. absurd (ground arith);
        shown = λ s. absurd (ground arith);
      }

  pub evaluate-IsLawful :
      (v : ProductionRelease) (actor : Text) (now : ℕ) (w : ProductionRelease)
      → IsLawful v
      → evaluate_production_release hash v actor now ≡ ok w
      → IsLawful w
  unfolding evaluate_production_release
  evaluate-IsLawful v actor now w l h =
      let none_yet : v.signatures ≡ [] = l.unsigned (λ a. ground arith) in
      record {
        unsigned = λ _. ground arith;
        bound = λ s. (now, ground arith, ground arith);
        shown = λ s. absurd (ground arith);
      }

  awaiting_facts :
      (v : ProductionRelease) (t : ℕ) (digest : Text)
      → awaiting v ≡ ok (t, digest)
      → (v.status ≡ awaiting_signatures)
        × (v.evaluated_at ≡ some t)
        × (v.attestation_digest ≡ some digest)
  unfolding awaiting
  awaiting_facts v t digest h = ground arith

  complete_sound :
      (report : ProductionReleaseReport) (signatures : List ProductionSignature) (now : ℕ)
      → length signatures ≡ 1
      → check_complete hash report signatures now ≡ ok tt
      → IsReleased hash report now
  unfolding check_complete
  complete_sound report signatures now one h =
      elim (Result-cases (validate_production_release_gate hash report now)) [
        | inl (summary, accepted) ↦ production_report-IsReleased hash report now summary accepted
        | inr (e, failed) ↦ absurd (ground arith)
      ]

  pub sign-IsLawful :
      (v : ProductionRelease) (input : SignInput) (now : ℕ) (w : ProductionRelease)
      → IsLawful v
      → sign_production_release hash v input now ≡ ok w
      → IsLawful w
  unfolding sign_production_release
  sign-IsLawful v input now w l h =
      let (evaluated, h1, r1) = >>=-eq-ok (awaiting v) _ h in
      let (h2, r2) =
        throw_if-eq-ok (not (text_mem input.role signature_roles)) (refused bad_role) _ r1 in
      let (signer_id, h3, r3) = >>=-eq-ok (id input.actor_id "actorId") _ r2 in
      let (h4, r4) =
        throw_if-eq-ok (any (λ s. text_eq s.role input.role) v.signatures) (refused already_signed)
          _ r3 in
      let (reason, h5, r5) = >>=-eq-ok (required input.reason "reason" 4000) _ r4 in
      let (h6, r6) = throw_if-eq-ok (ltb (length reason) 20) (refused reason_too_short) _ r5 in
      let (request_id, h7, r7) = >>=-eq-ok (id input.request_id "requestId") _ r6 in
      let (receipt_id, h8, r8) = >>=-eq-ok (id input.audit_receipt_id "auditReceiptId") _ r7 in
      let facts = awaiting_facts v evaluated.0 evaluated.1 h1 in
      let none_yet : v.signatures ≡ [] = l.unsigned (λ a. ground arith) in
      let signature : ProductionSignature = record {
        role = input.role;
        signer_id = signer_id;
        signed_at = now;
        decision = lit "approved";
        reason = reason;
        authentication_method = lit "oidc";
        request_id = request_id;
        audit_receipt_id = receipt_id;
        attestation_digest = evaluated.1;
      } in
      let signatures = v.signatures ++ signature ∷ [] in
      let one : length signatures ≡ 1 =
        ap (λ (ss : List ProductionSignature). length (ss ++ signature ∷ [])) none_yet in
      let report = production_report v signatures evaluated.0 in
      let (h9, r9) = >>-eq-ok (check_complete hash report signatures now) _ r8 in
      record {
        unsigned = λ open_still. absurd (open_still (ground arith));
        bound = λ s. absurd (ground arith);
        shown = λ s. record {
          report = report;
          at = now;
          stored = ground arith;
          content = ground arith;
          released = complete_sound report signatures now one h9;
        };
      }
