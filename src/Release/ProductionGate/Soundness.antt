-- ===== src/Release/ProductionGate/Soundness.antt =====
-- The meaning of the gate of p12-production-release-gate.ts.
use ai_dev_harness.Shared.{
  ℕ, ◌≤◌, ◌≡◌, true, false, not, ◌||◌, List, [], ◌∷◌, ◌==◌, any, length, text_mem, text_eq, Text,
  lit, ok, >>=-eq-ok, >>-eq-ok, throw_if-eq-ok, ltb, All, arith,
}
use ai_dev_harness.Release.Fields.{refused, report_invalid}
use ai_dev_harness.Release.CanaryGate.Report.{validate_canary_report}
use ai_dev_harness.Release.CanaryGate.Soundness.{IsReleasable, canary_report-IsReleasable}
use ai_dev_harness.Release.ProductionGate.{
  production_gate_ids, signature_roles, ReportGate, ReleaseDefects, ProductionSignature, Attested,
  ProductionReleaseReport, check_gate, check_gates, validate_gates, validate_release_defects,
  check_signature, check_signatures, validate_signatures, check_release_header, GateSummary,
  release_attestation_digest, validate_production_release_gate,
}

-- A gate of the list, passed and checked between the end of the Canary and the evaluation.
pub record IsPassedGate (canary_end evaluated_at : ℕ) (g : ReportGate) : Type 0 where
  pub known : text_mem g.gate_id production_gate_ids ≡ true
  pub passed : text_eq g.status (lit "passed") ≡ true
  pub from : canary_end ≤ g.checked_at
  pub until : g.checked_at ≤ evaluated_at

-- No two gates share an identity, and none has one of `seen`.
abbrev Distinct : List Text → List ReportGate → Type 0
Distinct seen [] = Unit
Distinct seen (g ∷ gs) = (text_mem g.gate_id seen ≡ false) × Distinct (g.gate_id ∷ seen) gs

abbrev push_ids : List Text → List ReportGate → List Text
push_ids seen [] = seen
push_ids seen (g ∷ gs) = push_ids (g.gate_id ∷ seen) gs

check_gate-IsPassedGate :
    (seen : List Text) (e t : ℕ) (g : ReportGate)
    → check_gate seen e t g ≡ ok tt
    → IsPassedGate e t g × (text_mem g.gate_id seen ≡ false)
unfolding check_gate
check_gate-IsPassedGate seen e t g h = ground arith

check_gates_sound :
    (seen : List Text) (e t : ℕ) (gs : List ReportGate) (out : List Text)
    → check_gates seen e t gs ≡ ok out
    → All (IsPassedGate e t) gs × Distinct seen gs × (out ≡ push_ids seen gs)
unfolding check_gates
check_gates_sound seen e t [] out h = (tt, tt, ground arith)
check_gates_sound seen e t (g ∷ gs) out h =
    let (first, rest) = >>-eq-ok (check_gate seen e t g) _ h in
    let (passed, fresh) = check_gate-IsPassedGate seen e t g first in
    let (others, distinct, all_ids) = check_gates_sound (g.gate_id ∷ seen) e t gs out rest in
    ((passed, others), (fresh, distinct), all_ids)

-- The gates are complete: each of the ten once and no other, all passed in their window.
pub record AreComplete (gates : List ReportGate) (canary_end evaluated_at : ℕ) : Type 0 where
  pub ten : length gates ≡ length production_gate_ids
  pub passed : All (IsPassedGate canary_end evaluated_at) gates
  pub distinct : Distinct [] gates
  pub covered : any (λ gate. not (text_mem gate (push_ids [] gates))) production_gate_ids ≡ false

gates-AreComplete :
    (gates : List ReportGate) (e t n : ℕ) → validate_gates gates e t ≡ ok n → AreComplete gates e t
unfolding validate_gates
gates-AreComplete gates e t n h =
    let (h1, r1) =
      throw_if-eq-ok (not (length gates == length production_gate_ids))
        (refused (report_invalid "gates are incomplete")) _ h in
    let (seen, h2, r2) = >>=-eq-ok (check_gates [] e t gates) _ r1 in
    let (passed, distinct, ids) = check_gates_sound [] e t gates seen h2 in
    record { ten = ground arith; passed = passed; distinct = distinct; covered = ground arith }

-- One signature, by the owner, after the evaluation, over the digest.
pub record IsBinding (digest : Text) (evaluated_at now : ℕ) (s : ProductionSignature) : Type 0 where
  pub owner : text_mem s.role signature_roles ≡ true
  pub after : evaluated_at ≤ s.signed_at
  pub past : s.signed_at ≤ now
  pub approved : text_eq s.decision (lit "approved") ≡ true
  pub reasoned : 20 ≤ length s.reason
  pub bound : text_eq s.attestation_digest digest ≡ true

check_signature-IsBinding :
    (seen : List Text) (digest : Text) (t now : ℕ) (s : ProductionSignature)
    → check_signature seen digest t now s ≡ ok tt
    → IsBinding digest t now s
unfolding check_signature
check_signature-IsBinding seen digest t now s h = ground arith

check_signatures-All :
    (seen : List Text) (digest : Text) (t now : ℕ) (ss : List ProductionSignature)
    → check_signatures seen digest t now ss ≡ ok tt
    → All (IsBinding digest t now) ss
unfolding check_signatures
check_signatures-All seen digest t now [] h = tt
check_signatures-All seen digest t now (s ∷ ss) h =
    let (first, rest) = >>-eq-ok (check_signature seen digest t now s) _ h in
    (
      check_signature-IsBinding seen digest t now s first,
      check_signatures-All (s.role ∷ seen) digest t now ss rest,
    )

pub record IsReleased (hash : Attested → Text) (report : ProductionReleaseReport) (now : ℕ)
    : Type 0 where
  pub evaluated : report.attested.evaluated_at ≤ now
  pub canary : IsReleasable report.attested.canary now
  pub ordered : report.attested.canary.ended_at ≤ report.attested.evaluated_at
  pub gates :
      AreComplete report.attested.gates report.attested.canary.ended_at report.attested.evaluated_at
  pub no_p0 : report.attested.defects.p0_count ≡ 0
  pub no_p1 : report.attested.defects.p1_count ≡ 0
  pub one_signature : length report.signatures ≡ 1
  pub signed :
      All (IsBinding (hash report.attested) report.attested.evaluated_at now) report.signatures

header_past : (r : Attested) (now : ℕ) → check_release_header r now ≡ ok tt → r.evaluated_at ≤ now
unfolding check_release_header
header_past r now h = ground arith

defects_zero :
    (d : ReleaseDefects) → validate_release_defects d ≡ ok tt → (d.p0_count ≡ 0) × (d.p1_count ≡ 0)
unfolding validate_release_defects
defects_zero d h = ground arith

signatures_sound :
    (ss : List ProductionSignature) (digest : Text) (t now n : ℕ)
    → validate_signatures ss digest t now ≡ ok n
    → (length ss ≡ 1) × All (IsBinding digest t now) ss
unfolding validate_signatures
signatures_sound ss digest t now n h =
    let (h1, r1) =
      throw_if-eq-ok (not (length ss == length signature_roles))
        (refused (report_invalid "requires exactly one owner signature")) _ h in
    let (h2, r2) = >>-eq-ok (check_signatures [] digest t now ss) _ r1 in
    (ground arith, check_signatures-All [] digest t now ss h2)

-- A report that passes the gate was evaluated after a releasable Canary, has each of the ten gates
-- once, passed between the end of the Canary and the evaluation, no P0 or P1 defect, and exactly one
-- signature, made by the owner after the evaluation over the digest of the attested content.
pub production_report-IsReleased :
    (hash : Attested → Text) (report : ProductionReleaseReport) (now : ℕ) (s : GateSummary)
    → validate_production_release_gate hash report now ≡ ok s
    → IsReleased hash report now
unfolding validate_production_release_gate
production_report-IsReleased hash report now s h =
    let r = report.attested in
    let (h1, r1) = >>-eq-ok (check_release_header r now) _ h in
    let (c, h2, r2) = >>=-eq-ok (validate_canary_report r.canary now) _ r1 in
    let (h3, r3) =
      throw_if-eq-ok (ltb r.evaluated_at r.canary.ended_at)
        (refused (report_invalid "release was evaluated before Canary ended")) _ r2 in
    let (n, h4, r4) = >>=-eq-ok (validate_gates r.gates r.canary.ended_at r.evaluated_at) _ r3 in
    let (h5, r5) = >>-eq-ok (validate_release_defects r.defects) _ r4 in
    let (h6, r6) =
      throw_if-eq-ok (not (length r.gaps == 0) || not (text_eq r.result (lit "approved")))
        (refused (report_invalid "release has unresolved gaps or is not approved")) _ r5 in
    let (m, h7, r7) =
      >>=-eq-ok
        (validate_signatures report.signatures (release_attestation_digest hash report)
          r.evaluated_at now)
        _ r6 in
    let zero_defects = defects_zero r.defects h5 in
    let signatures =
      signatures_sound report.signatures (release_attestation_digest hash report) r.evaluated_at now
        m h7 in
    record {
      evaluated = header_past r now h1;
      canary = canary_report-IsReleasable r.canary now c h2;
      ordered = ground arith;
      gates = gates-AreComplete r.gates r.canary.ended_at r.evaluated_at n h4;
      no_p0 = zero_defects.0;
      no_p1 = zero_defects.1;
      one_signature = signatures.0;
      signed = signatures.1;
    }
