-- ===== src/Release/Fields.antt =====
-- The field checks of release-center/domain.ts (lines 17 to 80). A field is a text as it arrives;
-- what `new Date(...)` reads from it is the parameter `parse_date` (`none` where it is not finite).
-- A stored ISO timestamp is its number of milliseconds, which it determines and is determined by.
pub mod Laws
mod Tests
use ai_dev_harness.Shared.{
  ℕ, Bool, true, false, not, ◌&&◌, ◌||◌, Option, none, some, List, [], ◌∷◌, ◌==◌, leb, ltb,
  if◌then◌else◌, all, any, length, Result, ok, err, ◌>>=◌, ◌>>◌, throw_if, String, Text, lit,
  text_eq, trim, starts_with, ends_with,
}

-- What the messages of `ReleaseCenterValidationError` distinguish, with the label of the field.
pub data Fault : Type 0 where
  required_bounded invalid bad_list bad_reference bad_timestamp bad_runbook bad_count : Fault

pub data Refusal : Type 0 where
  bad_commit bad_contract_version scope_overlap not_draft not_stopped not_observing : Refusal
  bad_sequence bad_window future_window bad_window_status duplicate_event outside_observation :
      Refusal
  bad_severity alert_not_found not_eligible too_short : Refusal
  report_invalid : String → Refusal
  not_passed locked bad_gate already_evaluated gates_missing not_awaiting bad_role : Refusal
  already_signed reason_too_short : Refusal

pub data ReleaseError : Type 0 where
  field : Fault → String → ReleaseError
  refused : Refusal → ReleaseError

abbrev pub Checked : Type 0 → Type 0
Checked A = Result ReleaseError A

abbrev pub hour_ms : ℕ
hour_ms = 3600000

-- A JS number, as far as the checks tell: a non-negative integer, or something else.
pub data Number : Type 0 where
  whole : ℕ → Number
  other : Number

abbrev pub is_upper : ℕ → Bool
is_upper c = leb b'A' c && leb c b'Z'

abbrev is_lower : ℕ → Bool
is_lower c = leb b'a' c && leb c b'z'

abbrev pub is_digit : ℕ → Bool
is_digit c = leb b'0' c && leb c b'9'

abbrev pub is_hex : ℕ → Bool
is_hex c = is_digit c || leb b'a' c && leb c b'f'

abbrev is_alnum : ℕ → Bool
is_alnum c = is_upper c || is_lower c || is_digit c

-- `[A-Za-z0-9._:-]`
abbrev pub is_name_char : ℕ → Bool
is_name_char c = is_alnum c || c == b'.' || c == b'_' || c == b':' || c == b'-'

-- `COMMIT_SHA`
unfoldable pub is_commit_sha : Text → Bool
is_commit_sha s = length s == 40 && all is_hex s

-- `SAFE_ID`
unfoldable pub is_safe_id : Text → Bool
is_safe_id [] = false
is_safe_id (c ∷ s) = is_alnum c && leb 2 (length s) && leb (length s) 127 && all is_name_char s

abbrev pub is_name : Text → Bool
is_name [] = false
is_name (c ∷ s) = all is_name_char (c ∷ s)

-- `[a-z0-9-]*:[A-Za-z0-9._:-]+`. No character before the first `:` is a `:`, so it splits there.
pub after_scheme : Text → Bool
after_scheme [] = false
after_scheme (c ∷ s) =
    let rest = after_scheme s in
    if c == b':' then is_name s else (is_lower c || is_digit c || c == b'-') && rest

-- `[a-z][a-z0-9-]*:[A-Za-z0-9._:-]+`, the second alternative of `EVIDENCE_REF`
unfoldable pub is_generic_ref : Text → Bool
unfolding after_scheme
is_generic_ref [] = false
is_generic_ref (c ∷ s) = is_lower c && after_scheme s

abbrev artifact_scheme : Text
artifact_scheme = lit "artifact:sha256:"

drop_prefix : Text → Text → Option Text
drop_prefix s [] = some s
drop_prefix [] (d ∷ p) = none
drop_prefix (c ∷ s) (d ∷ p) = let rest = drop_prefix s p in if c == d then rest else none

-- `artifact:sha256:[0-9a-f]{64}`, the first alternative of `EVIDENCE_REF`
pub is_artifact_ref : Text → Bool
unfolding drop_prefix
is_artifact_ref s = elim (drop_prefix s artifact_scheme) [
  | none ↦ false
  | some digest ↦ length digest == 64 && all is_hex digest
]

unfoldable pub is_evidence_ref : Text → Bool
unfolding is_artifact_ref is_generic_ref
is_evidence_ref s = is_artifact_ref s || is_generic_ref s

abbrev is_empty : Text → Bool
is_empty [] = true
is_empty (c ∷ s) = false

unfoldable pub required : Text → String → ℕ → Checked Text
required value label maximum =
    let text = trim value in
    if is_empty text || ltb maximum (length text)
    then err (field required_bounded label)
    else ok text

unfoldable pub id : Text → String → Checked Text
unfolding required
id value label = do
  text ← required value label 128
  throw_if (not (is_safe_id text)) (field invalid label)
  ok text

required_all : List Text → String → Checked (List Text)
required_all [] label = ok []
required_all (item ∷ items) label = do
  text ← required item label 2000
  texts ← required_all items label
  ok (text ∷ texts)

unfoldable pub strings : List Text → String → Checked (List Text)
unfolding required required_all
strings value label =
    if length value == 0 || ltb 100 (length value)
    then err (field bad_list label)
    else required_all value label

unfoldable pub evidence_refs : List Text → String → Checked (List Text)
unfolding strings
evidence_refs value label = do
  refs ← strings value label
  throw_if (any (λ ref. not (is_evidence_ref ref)) refs) (field bad_reference label)
  ok refs

unfoldable pub runbook : Text → String → Checked Text
unfolding required
runbook value label = do
  path ← required value label 1000
  throw_if (not (starts_with path (lit "docs/runbooks/")) || not (ends_with path (lit ".md")))
      (field bad_runbook label)
  ok path

unfoldable pub count : Number → String → Checked ℕ
count (whole n) label = ok n
count other label = err (field bad_count label)

module _ (parse_date : Text → Option ℕ) where
  unfoldable pub iso : Text → String → Checked ℕ
  iso value label = elim (parse_date value) [
    | none ↦ err (field bad_timestamp label)
    | some parsed ↦
        if not (ends_with value (lit "Z")) then err (field bad_timestamp label) else ok parsed
  ]
