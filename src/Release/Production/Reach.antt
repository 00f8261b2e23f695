-- ===== src/Release/Production/Reach.antt =====
-- The operations of release-center/domain.ts on a production release as a step relation.
use ai_dev_harness.Shared.{ℕ, ◌≡◌, some, [], Text, ok, arith}
use ai_dev_harness.Release.Canary.{CanaryAggregate}
use ai_dev_harness.Release.ProductionGate.{Attested}
use ai_dev_harness.Release.Production.{
  awaiting_signatures, approved, ProductionRelease, GateInput, create_production_release,
  record_production_gate,
}
use ai_dev_harness.Release.Production.Signing.{
  SignInput, attested_of, evaluate_production_release, sign_production_release,
}
use ai_dev_harness.Release.Production.Approval.{
  IsShown, IsLawful, create-IsLawful, gate-IsLawful, evaluate-IsLawful, sign-IsLawful,
}

module _ (hash : Attested → Text) where
  pub data ReleaseStep (v w : ProductionRelease) : Type 0 where
    gate :
        (input : GateInput) (now : ℕ) → record_production_gate v input now ≡ ok w → ReleaseStep v w
    evaluate :
        (actor : Text) (now : ℕ)
        → evaluate_production_release hash v actor now ≡ ok w
        → ReleaseStep v w
    sign :
        (input : SignInput) (now : ℕ)
        → sign_production_release hash v input now ≡ ok w
        → ReleaseStep v w

  pub data ReleaseReach : ProductionRelease → Type 0 where
    create :
        (release_id : Text) (canary : CanaryAggregate) (actor : Text) (now : ℕ)
        {v : ProductionRelease}
        → create_production_release release_id canary actor now ≡ ok v
        → ReleaseReach v
    next : {v w : ProductionRelease} → ReleaseReach v → ReleaseStep v w → ReleaseReach w

  ReleaseStep-IsLawful :
      {v w : ProductionRelease} → ReleaseStep v w → IsLawful hash v → IsLawful hash w
  ReleaseStep-IsLawful {v} {w} (gate input now h) l = gate-IsLawful hash v input now w l h
  ReleaseStep-IsLawful {v} {w} (evaluate actor now h) l = evaluate-IsLawful hash v actor now w l h
  ReleaseStep-IsLawful {v} {w} (sign input now h) l = sign-IsLawful hash v input now w l h

  ReleaseReach-IsLawful : {v : ProductionRelease} → ReleaseReach v → IsLawful hash v
  ReleaseReach-IsLawful (create i c a now {v} h) = create-IsLawful hash i c a now v h
  ReleaseReach-IsLawful (next r s) = ReleaseStep-IsLawful s (ReleaseReach-IsLawful r)

  -- Every approved release that the operations can produce holds a report of its own content that
  -- passed the gate: a releasable Canary, each of the ten gates once, passed in time, no P0 or P1
  -- defect, and one owner's signature over the digest of the attested content.
  pub release_approved-IsShown :
      {v : ProductionRelease} → ReleaseReach v → v.status ≡ approved → IsShown hash v
  release_approved-IsShown r a = (ReleaseReach-IsLawful r).shown a

  -- The digest that a release waits to have signed is that of what it attests now: nothing that it
  -- attests changed since the evaluation.
  pub release_awaiting_bound :
      {v : ProductionRelease}
      → ReleaseReach v
      → v.status ≡ awaiting_signatures
      → (t : ℕ) × (v.evaluated_at ≡ some t)
        × (v.attestation_digest ≡ some (hash (attested_of v t)))
        × (v.signatures ≡ [])
  release_awaiting_bound r a =
      let l = ReleaseReach-IsLawful r in
      let (t, evaluated, digest) = l.bound a in
      (t, evaluated, digest, l.unsigned (λ b. ground arith))

  -- An approved release is final: no operation succeeds on it.
  pub release_approved_final : (v w : ProductionRelease) → v.status ≡ approved → ¬ ReleaseStep v w
  unfolding record_production_gate evaluate_production_release sign_production_release
  release_approved_final v w a (gate input now h) = ground arith
  release_approved_final v w a (evaluate actor now h) = ground arith
  release_approved_final v w a (sign input now h) = ground arith
