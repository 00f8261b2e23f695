-- ===== src/StateMachine/SpecRevision.antt =====
-- The life of a SpecRevision: `specRevisionStatuses` and `specRevisionStateMachine`.
pub mod Diagram
use ai_dev_harness.Shared.{[], ◌∷◌, Eq, by_dec}
use ai_dev_harness.StateMachine.{
  StateMachine, guarded, artifact_digest_verified, approval_recorded, reason_provided,
  replacement_exists,
}

pub data SpecRevisionStatus : Type 0 where
  draft in_review approved rejected superseded : SpecRevisionStatus

pub SpecRevisionStatus-discrete : Discrete SpecRevisionStatus
SpecRevisionStatus-discrete = hlevel

instance abbrev pub spec_revision_status_eq : Eq SpecRevisionStatus
unfolding SpecRevisionStatus-discrete
spec_revision_status_eq = by_dec SpecRevisionStatus-discrete

pub spec_revision_state_machine : StateMachine SpecRevisionStatus
spec_revision_state_machine = record {
  terminal_states = rejected ∷ superseded ∷ [];
  transitions =
      guarded draft in_review artifact_digest_verified
      ∷ guarded in_review approved approval_recorded
      ∷ guarded in_review rejected reason_provided
      ∷ guarded draft superseded replacement_exists
      ∷ guarded in_review superseded replacement_exists
      ∷ guarded approved superseded replacement_exists
      ∷ [];
}
