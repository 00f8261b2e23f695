-- ===== src/Release/Production.antt =====
-- The production release of release-center/domain.ts: `createProductionRelease`,
-- `recordProductionGate`. The evaluation and the signature are in Production/Signing.
pub mod Signing
pub mod Gates
pub mod Reach
pub mod Approval
mod Tests
use ai_dev_harness.Shared.{
  ℕ, ◌+◌, Bool, true, false, not, ◌||◌, Option, none, some, List, [], ◌∷◌, ◌++◌, filter, text_mem,
  text_eq, Text, lit, ok, err, ◌>>=◌, ◌>>◌, throw_if, if◌then◌else◌,
}
use ai_dev_harness.Release.Fields.{
  Checked, refused, not_passed, locked, bad_gate, required, id, evidence_refs,
}
use ai_dev_harness.Release.CanaryGate.{CanaryReport, p2}
use ai_dev_harness.Release.Canary.{
  CanaryStatus, passed, CanaryAggregate, CanaryEvent, EventKind, defect,
}
use ai_dev_harness.Release.Canary.Observe.{is_p2, or_empty}
use ai_dev_harness.Release.Canary.Finalize.{events_of}
use ai_dev_harness.Release.ProductionGate.{
  production_gate_ids, signature_roles, ReleaseDefect, ReleaseDefects, ProductionSignature,
  ProductionReleaseReport,
}

pub data ProductionReleaseStatus : Type 0 where
  draft awaiting_signatures approved : ProductionReleaseStatus

pub record ProductionGateCheck : Type 0 where
  pub gate_id : Text
  pub status : Text
  pub owner_role : Text
  pub checked_at : ℕ
  pub evidence_refs : List Text
  pub checked_by : Text

pub record ProductionRelease : Type 0 where
  pub id : Text
  pub organization_id : Text
  pub project_id : Text
  pub goal_id : Text
  pub canary_id : Text
  pub candidate_commit : Text
  pub status : ProductionReleaseStatus
  pub canary_report : CanaryReport
  pub gates : List ProductionGateCheck
  pub defects : ReleaseDefects
  pub evaluated_at : Option ℕ
  pub attestation_digest : Option Text
  pub signatures : List ProductionSignature
  pub report : Option ProductionReleaseReport
  pub version : ℕ
  pub created_by : Text
  pub created_at : ℕ
  pub updated_at : ℕ

abbrev is_passed : CanaryStatus → Bool
is_passed passed = true
is_passed _ = false

-- `input.canary.status !== "passed" || !input.canary.report`, and the report otherwise
passed_report : CanaryAggregate → Checked CanaryReport
passed_report canary =
    if is_passed canary.status
    then (elim canary.report [ none ↦ err (refused not_passed) | some r ↦ ok r ])
    else err (refused not_passed)

-- The entry for an event that is a P2 defect.
p2_defect : CanaryEvent → EventKind → Checked (Option ReleaseDefect)
p2_defect e (defect severity status workaround) =
    if is_p2 severity
    then (do
      text ← required (or_empty workaround) "P2 workaround" 4000
      ok (
          some (record {
            id = e.id;
            owner_id = e.owner_id;
            workaround = text;
            evidence_refs = e.evidence_refs;
          })))
    else ok none
p2_defect e _ = ok none

abbrev cons_if : Option ReleaseDefect → List ReleaseDefect → List ReleaseDefect
cons_if none ds = ds
cons_if (some d) ds = d ∷ ds

p2_defects : List CanaryEvent → Checked (List ReleaseDefect)
unfolding p2_defect
p2_defects [] = ok []
p2_defects (e ∷ es) = do first ← p2_defect e e.kind; rest ← p2_defects es; ok (cons_if first rest)

pub create_production_release :
    (release_id : Text) → CanaryAggregate → (actor_id : Text) (now : ℕ) → Checked ProductionRelease
unfolding passed_report p2_defects
create_production_release release_id canary actor_id now = do
  report ← passed_report canary
  known ← p2_defects (events_of canary)
  checked_id ← id release_id "releaseId"
  created_by ← id actor_id "actorId"
  ok (record {
    id = checked_id;
    organization_id = canary.organization_id;
    project_id = canary.project_id;
    goal_id = canary.goal_id;
    canary_id = canary.id;
    candidate_commit = canary.candidate_commit;
    status = draft;
    canary_report = report;
    gates = [];
    defects = record { p0_count = 0; p1_count = 0; p2 = known };
    evaluated_at = none;
    attestation_digest = none;
    signatures = [];
    report = none;
    version = 1;
    created_by = created_by;
    created_at = now;
    updated_at = now;
  })

abbrev pub is_draft : ProductionReleaseStatus → Bool
is_draft draft = true
is_draft _ = false

abbrev pub is_awaiting : ProductionReleaseStatus → Bool
is_awaiting awaiting_signatures = true
is_awaiting _ = false

pub record GateInput : Type 0 where
  pub actor_id : Text
  pub gate_id : Text
  pub owner_role : Text
  pub evidence_refs : List Text

-- `value.gates.filter((existing) => existing.gateId !== gate.gateId)`
abbrev pub without_gate : Text → List ProductionGateCheck → List ProductionGateCheck
without_gate gate_id = filter (λ g. not (text_eq g.gate_id gate_id))

pub record_production_gate : ProductionRelease → GateInput → (now : ℕ) → Checked ProductionRelease
record_production_gate value input now = do
  throw_if (not (is_draft value.status)) (refused locked)
  throw_if
      (not (text_mem input.gate_id production_gate_ids)
        || not (text_mem input.owner_role signature_roles))
      (refused bad_gate)
  refs ← evidence_refs input.evidence_refs "gate.evidenceRefs"
  checked_by ← id input.actor_id "actorId"
  ok (record value {
    gates =
        without_gate input.gate_id value.gates
        ++ record {
          gate_id = input.gate_id;
          status = lit "passed";
          owner_role = input.owner_role;
          checked_at = now;
          evidence_refs = refs;
          checked_by = checked_by;
        }
          ∷ [];
    version = value.version + 1;
    updated_at = now;
  })
