-- ===== src/Release/Fields/Tests.antt =====
-- Field checks at concrete texts.
use ai_dev_harness.Shared.{◌≡◌, refl, true, false, ok, lit, trim, [], ◌∷◌}
use ai_dev_harness.Release.Fields.Laws.{evidence_ref_general}
use ai_dev_harness.Release.Fields.{
  is_generic_ref, evidence_refs, strings, is_safe_id, is_evidence_ref, id, required,
}

safe_id_tests :
    (is_safe_id (lit "run-1") ≡ true)
    × (is_safe_id (lit "-run") ≡ false)
    × (is_safe_id (lit "ab") ≡ false)
unfolding is_safe_id
safe_id_tests = (refl, refl, refl)

evidence_tests :
    (is_evidence_ref (lit "artifact:sha256:zz") ≡ true) × (is_evidence_ref (lit "Test:1") ≡ false)
unfolding is_evidence_ref
evidence_tests = (refl, refl)

id_trims : id (lit " run-1 ") "runId" ≡ ok (lit "run-1")
unfolding id trim is_safe_id
id_trims = refl

evidence_ref_general_example :
    is_evidence_ref (lit "artifact:sha256:zz") ≡ is_generic_ref (lit "artifact:sha256:zz")
evidence_ref_general_example = evidence_ref_general (lit "artifact:sha256:zz")

refs-ok : evidence_refs (lit " artifact:log-1" ∷ []) "refs" ≡ ok (lit "artifact:log-1" ∷ [])
unfolding evidence_refs strings required trim is_evidence_ref
refs-ok = refl
