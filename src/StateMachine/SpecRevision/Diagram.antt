-- ===== src/StateMachine/SpecRevision/Diagram.antt =====
-- The diagram of the SpecRevision machine of state-machines.ts, drawn as a step relation.
use ai_dev_harness.Shared.{ℕ, ◌+◌, ◌≡◌, false, ◌↔◌, ok, arith, All}
use ai_dev_harness.StateMachine.{
  approval_recorded, artifact_digest_verified, reason_provided, replacement_exists,
  StateTransitionResult, TransitionStateInput, Guards, transition_state, guard_blocks,
}
use ai_dev_harness.StateMachine.Laws.{transition_state-IsAccepted, accepted-All}
use ai_dev_harness.StateMachine.Holds.{Holds, Holds-of_unblocked}
use ai_dev_harness.StateMachine.SpecRevision
use ai_dev_harness.StateMachine.SpecRevision.{
  SpecRevisionStatus, SpecRevisionStatus-discrete, spec_revision_status_eq,
  spec_revision_state_machine,
}

pub data IsOpen : SpecRevisionStatus → Type 0 where
  open_draft : IsOpen SpecRevision.draft
  open_in_review : IsOpen SpecRevision.in_review
  open_approved : IsOpen SpecRevision.approved

-- The edges, each with the guard that it needs.
pub data Step (guards : Guards) : SpecRevisionStatus → SpecRevisionStatus → Type 0 where
  submit :
      Holds guards artifact_digest_verified → Step guards SpecRevision.draft SpecRevision.in_review
  approve :
      Holds guards approval_recorded → Step guards SpecRevision.in_review SpecRevision.approved
  reject : Holds guards reason_provided → Step guards SpecRevision.in_review SpecRevision.rejected
  supersede :
      {s : SpecRevisionStatus}
      → IsOpen s
      → Holds guards replacement_exists
      → Step guards s SpecRevision.superseded

spec_revision_edges :
    (guards : Guards)
    → All
        (λ t. guard_blocks t.guard guards ≡ false → Step guards t.from t.to)
        spec_revision_state_machine.transitions
unfolding spec_revision_state_machine
spec_revision_edges guards = (
  λ h. submit (Holds-of_unblocked guards _ h),
  (
    λ h. approve (Holds-of_unblocked guards _ h),
    (
      λ h. reject (Holds-of_unblocked guards _ h),
      (
        λ h. supersede open_draft (Holds-of_unblocked guards _ h),
        (
          λ h. supersede open_in_review (Holds-of_unblocked guards _ h),
          (λ h. supersede open_approved (Holds-of_unblocked guards _ h), tt),
        ),
      ),
    ),
  ),
)

abbrev pub input :
    SpecRevisionStatus
    → SpecRevisionStatus
    → ℕ
    → ℕ
    → Guards
    → TransitionStateInput SpecRevisionStatus
input from to v w guards = record {
  current_state = from;
  current_version = v;
  expected_version = w;
  next_state = to;
  guards = guards;
}

abbrev pub moved :
    SpecRevisionStatus → SpecRevisionStatus → ℕ → StateTransitionResult SpecRevisionStatus
moved from to v = record {
  previous_state = from;
  state = to;
  previous_version = v;
  version = v + 1;
}

Step-accepted :
    (from to : SpecRevisionStatus) (v : ℕ) (guards : Guards)
    → Step guards from to
    → transition_state spec_revision_state_machine (input from to v v guards) ≡ ok (moved from to v)
unfolding transition_state spec_revision_state_machine SpecRevisionStatus-discrete
Step-accepted from to v guards (submit h) = ground arith
Step-accepted from to v guards (approve h) = ground arith
Step-accepted from to v guards (reject h) = ground arith
Step-accepted from to v guards (supersede open_draft h) = ground arith
Step-accepted from to v guards (supersede open_in_review h) = ground arith
Step-accepted from to v guards (supersede open_approved h) = ground arith

-- A transition of a spec revision is accepted exactly when the expected version is the current one and the
-- diagram has the edge with its guard holding; the result names the next state and adds one to the
-- version.
pub spec_revision_transition_iff :
    (from to : SpecRevisionStatus) (v w : ℕ) (guards : Guards)
    (r : StateTransitionResult SpecRevisionStatus)
    → (transition_state spec_revision_state_machine (input from to v w guards) ≡ ok r)
      ↔ ((v ≡ w) × Step guards from to × (r ≡ moved from to v))
spec_revision_transition_iff from to v w guards r = (
  λ h.
      let a = transition_state-IsAccepted spec_revision_state_machine _ r h in
      (
        a.current,
        accepted-All spec_revision_state_machine (Step guards) _ r (spec_revision_edges guards) h,
        a.result,
      ),
  λ p. rw (← p.0, p.2) (Step-accepted from to v guards p.1),
)
