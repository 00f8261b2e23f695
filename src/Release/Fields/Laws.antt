-- ===== src/Release/Fields/Laws.antt =====
-- The results of the field checks of release-center/domain.ts.
use ai_dev_harness.Shared.{
  ℕ, ◌≤◌, ◌≡◌, refl, Bool, true, false, not, ◌&&◌, inl, inr, some, List, [], ◌∷◌, ◌++◌, ◌==◌, any,
  all, length, String, Text, trim, ink, ink-trim, trim_blank, ok, >>=-eq-ok, Bool-cases,
  Option-cases, arith, ap,
}
use ai_dev_harness.Release.Fields.{
  is_safe_id, is_evidence_ref, is_artifact_ref, is_generic_ref, drop_prefix, is_hex, is_name_char,
  required, required_all, id, strings, evidence_refs, artifact_scheme,
}

-- A required field is the trimmed value; it is not blank and within its bound.
pub record IsRequired (value : Text) (maximum : ℕ) (text : Text) : Type 0 where
  pub trimmed : text ≡ trim value
  pub not_blank : (length (trim text) == 0) ≡ false
  pub within : length text ≤ maximum

pub required-IsRequired :
    (value : Text) (label : String) (maximum : ℕ) (text : Text)
    → required value label maximum ≡ ok text
    → IsRequired value maximum text
unfolding required
required-IsRequired value label maximum text h =
    let same : text ≡ trim value = ground arith in
    record {
      trimmed = same;
      not_blank = ground (arith, trim_blank text, ap ink same, ink-trim value, trim_blank value);
      within = ground arith;
    }

id-is_safe :
    (value : Text) (label : String) (text : Text)
    → id value label ≡ ok text
    → (is_safe_id text ≡ true) × ((length (trim text) == 0) ≡ false)
unfolding id
id-is_safe value label text h =
    let (found, checked, rest) = >>=-eq-ok (required value label 128) _ h in
    let r = required-IsRequired value label 128 found checked in ground arith

abbrev blank : Text → Bool
blank s = length (trim s) == 0

required_all-blank :
    (items : List Text) (label : String) (texts : List Text)
    → required_all items label ≡ ok texts
    → (any blank texts ≡ false) × (length texts ≡ length items)
unfolding required_all
required_all-blank [] label texts h = ground arith
required_all-blank (item ∷ items) label texts h =
    let (text, first, rest) = >>=-eq-ok (required item label 2000) _ h in
    let (others, second, done) = >>=-eq-ok (required_all items label) _ rest in
    ground (
      arith,
      (required-IsRequired item label 2000 text first).not_blank,
      required_all-blank items label others second,
    )

strings-blank :
    (value : List Text) (label : String) (texts : List Text)
    → strings value label ≡ ok texts
    → (any (λ s. length (trim s) == 0) texts ≡ false) × ((length texts == 0) ≡ false)
unfolding strings
strings-blank value label texts h = ground (arith, required_all-blank value label texts)

-- References that `evidenceRefs` of the domain returns are texts, not blank, that match the pattern.
pub evidence_refs-checked :
    (value : List Text) (label : String) (refs : List Text)
    → evidence_refs value label ≡ ok refs
    → (any (λ s. length (trim s) == 0) refs ≡ false)
      × ((length refs == 0) ≡ false)
      × (any (λ ref. not (is_evidence_ref ref)) refs ≡ false)
unfolding evidence_refs
evidence_refs-checked value label refs h =
    let (texts, first, rest) = >>=-eq-ok (strings value label) _ h in
    ground (arith, strings-blank value label texts first)

-- The rest after `artifact:sha256:`.
drop_prefix-append : (s p digest : Text) → drop_prefix s p ≡ some digest → s ≡ p ++ digest
unfolding drop_prefix
drop_prefix-append s [] digest h = ground arith
drop_prefix-append [] (d ∷ p) digest h = cc
drop_prefix-append (c ∷ s) (d ∷ p) digest h = ground (arith, drop_prefix-append s p digest)

hex_name : (s : Text) → all is_hex s ≡ true → all is_name_char s ≡ true
hex_name [] h = refl
hex_name (c ∷ s) h = ground (arith, hex_name s)

scheme_accepted :
    (digest : Text)
    → all is_name_char digest ≡ true
    → is_generic_ref (artifact_scheme ++ digest) ≡ true
unfolding is_generic_ref
scheme_accepted digest h = rw h

-- The first alternative of `EVIDENCE_REF`, with its 64 hexadecimal digits, restricts nothing:
-- whatever it accepts, the second accepts too, so the pattern is the second alternative alone.
pub evidence_ref_general : (s : Text) → is_evidence_ref s ≡ is_generic_ref s
unfolding is_evidence_ref is_artifact_ref
evidence_ref_general s = elim (Option-cases (drop_prefix s artifact_scheme)) [
  | inl missed ↦ rw (missed, is_artifact_ref)
  | inr (digest, found) ↦
      let split : s ≡ artifact_scheme ++ digest =
        drop_prefix-append s artifact_scheme digest found in
      elim (Bool-cases (length digest == 64 && all is_hex digest)) [
        | inl hex ↦
            let general : is_generic_ref s ≡ true =
              rw split (scheme_accepted digest (hex_name digest (ground arith))) in
            ground arith
        | inr other ↦ ground arith
      ]
]
