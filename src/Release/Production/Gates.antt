-- ===== src/Release/Production/Gates.antt =====
-- `recordProductionGate` of release-center/domain.ts.
use mathlib.Core.List.{append-nil}
use ai_dev_harness.Shared.{
  ℕ, ◌+◌, ◌≡◌, ◌≢◌, refl, sym, ap, ◌∙◌, true, not, ◌||◌, List, [], ◌∷◌, ◌++◌, filter, filter-append,
  text_eq, text_eq_iff, text_mem, Text, ok, lit, >>=-eq-ok, throw_if-eq-ok, arith, Bool-cases, inl,
  inr,
}
use ai_dev_harness.Release.Fields.{refused, locked, bad_gate, id, evidence_refs}
use ai_dev_harness.Release.ProductionGate.{production_gate_ids, signature_roles}
use ai_dev_harness.Release.Production.{
  draft, is_draft, ProductionGateCheck, ProductionRelease, GateInput, without_gate,
  record_production_gate,
}

-- The gates with an identity.
abbrev gates_with : Text → List ProductionGateCheck → List ProductionGateCheck
gates_with gate_id = filter (λ g. text_eq g.gate_id gate_id)

removed :
    (gate_id : Text) (gs : List ProductionGateCheck)
    → gates_with gate_id (without_gate gate_id gs) ≡ []
removed gate_id [] = refl
removed gate_id (g ∷ gs) = ground (arith, removed gate_id gs)

others_kept :
    (gate_id other : Text) (gs : List ProductionGateCheck)
    → other ≢ gate_id
    → gates_with other (without_gate gate_id gs) ≡ gates_with other gs
others_kept gate_id other [] ne = refl
others_kept gate_id other (g ∷ gs) ne = ground (
  arith,
  others_kept gate_id other gs ne,
  text_eq_iff g.gate_id gate_id,
  text_eq_iff g.gate_id other,
)

-- The release after a gate was recorded at `now`.
pub record IsReplaced (v : ProductionRelease) (input : GateInput) (now : ℕ) (w : ProductionRelease)
    : Type 0 where
  pub was_draft : v.status ≡ draft
  pub still_draft : w.status ≡ draft
  pub known : text_mem input.gate_id production_gate_ids ≡ true
  pub check : ProductionGateCheck
  pub only : gates_with input.gate_id w.gates ≡ check ∷ []
  pub checked_at : check.checked_at ≡ now
  pub others :
      (other : Text) → other ≢ input.gate_id → gates_with other w.gates ≡ gates_with other v.gates
  pub version : w.version ≡ v.version + 1

replaced_by :
    (gate_id : Text) (c : ProductionGateCheck) (gs : List ProductionGateCheck)
    → c.gate_id ≡ gate_id
    → gates_with gate_id (without_gate gate_id gs ++ c ∷ []) ≡ c ∷ []
replaced_by gate_id c gs same = ground (
  arith,
  filter-append (λ (g : ProductionGateCheck). text_eq g.gate_id gate_id) (without_gate gate_id gs)
      (c ∷ []),
  removed gate_id gs,
  text_eq_iff c.gate_id gate_id,
)

kept_beside :
    (gate_id other : Text) (c : ProductionGateCheck) (gs : List ProductionGateCheck)
    → c.gate_id ≡ gate_id
    → other ≢ gate_id
    → gates_with other (without_gate gate_id gs ++ c ∷ []) ≡ gates_with other gs
kept_beside gate_id other c gs same ne =
    filter-append (λ (g : ProductionGateCheck). text_eq g.gate_id other) (without_gate gate_id gs)
      (c ∷ [])
    ∙ (elim (Bool-cases (text_eq c.gate_id other)) [
      | inl hit ↦ absurd (ne (sym ((text_eq_iff c.gate_id other).0 hit) ∙ same))
      | inr miss ↦ rw miss (
          append-nil (gates_with other (without_gate gate_id gs)) ∙ others_kept gate_id other gs ne)
    ])

-- A recorded gate replaces an earlier record of the same gate: afterwards the release has exactly
-- one with its identity, recorded now, and the records of every other gate are as they were. It
-- is a gate of the list, and the release was a draft and stays one.
pub record_gate-IsReplaced :
    (v : ProductionRelease) (input : GateInput) (now : ℕ) (w : ProductionRelease)
    → record_production_gate v input now ≡ ok w
    → IsReplaced v input now w
unfolding record_production_gate
record_gate-IsReplaced v input now w h =
    let (h1, r1) = throw_if-eq-ok (not (is_draft v.status)) (refused locked) _ h in
    let (h2, r2) =
      throw_if-eq-ok
        (not (text_mem input.gate_id production_gate_ids)
          || not (text_mem input.owner_role signature_roles))
        (refused bad_gate) _ r1 in
    let (refs, h3, r3) = >>=-eq-ok (evidence_refs input.evidence_refs "gate.evidenceRefs") _ r2 in
    let (checked_by, h4, r4) = >>=-eq-ok (id input.actor_id "actorId") _ r3 in
    let c : ProductionGateCheck = record {
      gate_id = input.gate_id;
      status = lit "passed";
      owner_role = input.owner_role;
      checked_at = now;
      evidence_refs = refs;
      checked_by = checked_by;
    } in
    let gates : w.gates ≡ without_gate input.gate_id v.gates ++ c ∷ [] = ground arith in
    record {
      was_draft = ground arith;
      still_draft = ground arith;
      known = ground arith;
      check = c;
      only = ap (gates_with input.gate_id) gates ∙ replaced_by input.gate_id c v.gates refl;
      checked_at = refl;
      others = λ other ne.
          ap (gates_with other) gates ∙ kept_beside input.gate_id other c v.gates refl ne;
      version = ground arith;
    }
