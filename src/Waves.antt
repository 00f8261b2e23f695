-- ===== src/Waves.antt =====
-- prototype/web-ui/app/control-plane/domain/execution-waves.ts: the Issues of a plan, and which two of
-- them must not be worked on together. `toLowerCase` and `localeCompare` are parameters.
pub mod Schedule
pub mod Emptiness
pub mod Overlap
pub mod Rounds
pub mod Ending
pub mod Dependencies
pub mod Course
pub mod Acyclic
pub mod Entries
pub mod Plan
pub mod Conflicts
mod Tests
use ai_dev_harness.Shared.{
  ℕ, Bool, true, false, ◌&&◌, ◌||◌, Option, none, some, List, [], ◌∷◌, ◌++◌, map, any, filter, Text,
  lit, trim, starts_with, ends_with, text_eq, text_mem, unit_le, sort_by, distinct, if◌then◌else◌,
  ◌==◌,
}

pub data ConflictResourceKind : Type 0 where
  file directory public_interface database_object shared_configuration landing_order :
      ConflictResourceKind

pub record IssueConflict : Type 0 where
  pub issue_keys : Text × Text
  pub resource_kinds : List ConflictResourceKind
  pub resource_keys : List Text
  pub reasons : List Text

pub record IssueConflictResources : Type 0 where
  pub directories : List Text
  pub public_interfaces : List Text
  pub database_objects : List Text
  pub shared_configurations : List Text
  pub landing_order_keys : List Text

pub record SchedulableIssue : Type 0 where
  pub key : Text
  pub dependency_candidates : List Text
  pub expected_files : List Text
  pub conflict_resources : IssueConflictResources

abbrev pub is_empty {ℓ} : {A : Type ℓ} → List A → Bool
is_empty [] = true
is_empty (x ∷ xs) = false

-- `xs.join(separator)`
unfoldable pub join : Text → List Text → Text
join separator [] = []
join separator (s ∷ []) = s
join separator (s ∷ t ∷ r) = s ++ (separator ++ join separator (t ∷ r))

-- `replaceAll("\\", "/")`
abbrev slashed : ℕ → ℕ
slashed c = if c == b'\\' then b'/' else c

-- `replace(/^\.\//, "")`
abbrev without_dot : Text → Text
without_dot [] = []
without_dot (c ∷ []) = c ∷ []
without_dot (c ∷ d ∷ s) = if c == b'.' && d == b'/' then s else c ∷ d ∷ s

-- `replace(/\/+/g, "/")`
unfoldable pub single_slashes : Text → Text
single_slashes [] = []
single_slashes (c ∷ s) =
    let rest = single_slashes s in if c == b'/' && starts_with s (lit "/") then rest else c ∷ rest

unfoldable pub normalized_path : Text → Text
unfolding single_slashes
normalized_path value = single_slashes (without_dot (map slashed (trim value)))

-- `replace(/\/\*\*$/, "")`
unfoldable pub without_glob : Text → Text
without_glob [] = []
without_glob (c ∷ s) =
    let rest = without_glob s in if text_eq (c ∷ s) (lit "/**") then [] else c ∷ rest

unfoldable pub directory_of : Text → Text
unfolding normalized_path without_glob
directory_of value =
    let normalized = without_glob (normalized_path value) in
    if ends_with normalized (lit "/") then normalized else normalized ++ lit "/"

abbrev pub folded : (Text → Text) → Text → Text
folded to_lower_case value = to_lower_case (trim value)

unfoldable pub intersections : (Text → Text) → List Text → List Text → List Text
intersections to_lower_case left right = sort_by unit_le (
    distinct (
      filter (λ value. text_mem value (map (folded to_lower_case) right))
        (map (folded to_lower_case) left)))

-- `directoryKeys`, in the order in which the loops add them.
abbrev pub claims_meet : List Text → List Text → Text → Bool
claims_meet directories files claimed =
    any (λ candidate. starts_with candidate claimed || starts_with claimed candidate) directories
    || any (λ f. starts_with (normalized_path f) claimed) files

abbrev pub holds_file : List Text → Text → Bool
holds_file files claimed = any (λ f. starts_with (normalized_path f) claimed) files

unfoldable pub directory_keys : SchedulableIssue → SchedulableIssue → List Text
unfolding directory_of
directory_keys left right =
    let left_directories = map directory_of left.conflict_resources.directories in
    let right_directories = map directory_of right.conflict_resources.directories in
    distinct (
      filter (claims_meet right_directories right.expected_files) left_directories
      ++ filter (holds_file left.expected_files) right_directories)

-- The three lists that the steps of `conflictFor` push to.
pub record Findings : Type 0 where
  pub kinds : List ConflictResourceKind
  pub keys : List Text
  pub texts : List Text

abbrev pub pushed :
    Findings → ConflictResourceKind → Text → (List Text → Text) → List Text → Findings
pushed found kind prefix reason [] = found
pushed found kind prefix reason (k ∷ ks) = record {
  kinds = found.kinds ++ kind ∷ [];
  keys = found.keys ++ map (λ value. prefix ++ value) (k ∷ ks);
  texts = found.texts ++ reason (k ∷ ks) ∷ [];
}

abbrev pub claim_reason : Text → List Text → Text
claim_reason label keys =
    lit "Both Issues claim the same " ++ (label ++ (lit ": " ++ join (lit ", ") keys))

-- `categories`, each with the name of its kind.
pub record Category : Type 0 where
  pub property : IssueConflictResources → List Text
  pub kind : ConflictResourceKind
  pub name : Text
  pub label : Text

abbrev pub categories : List Category
categories =
    record {
      property = λ r. r.public_interfaces;
      kind = public_interface;
      name = lit "public_interface";
      label = lit "public interface";
    }
    ∷ record {
      property = λ r. r.database_objects;
      kind = database_object;
      name = lit "database_object";
      label = lit "database object";
    }
    ∷ record {
      property = λ r. r.shared_configurations;
      kind = shared_configuration;
      name = lit "shared_configuration";
      label = lit "shared configuration";
    }
    ∷ record {
      property = λ r. r.landing_order_keys;
      kind = landing_order;
      name = lit "landing_order";
      label = lit "landing order key";
    }
    ∷ []

abbrev pub file_findings : (Text → Text) → SchedulableIssue → SchedulableIssue → Findings
file_findings to_lower_case left right =
    pushed (record { kinds = []; keys = []; texts = [] }) file (lit "file:")
      (λ ks. lit "Both Issues expect to modify " ++ join (lit ", ") ks)
      (intersections to_lower_case (map normalized_path left.expected_files)
        (map normalized_path right.expected_files))

abbrev pub directory_findings : (Text → Text) → SchedulableIssue → SchedulableIssue → Findings
directory_findings to_lower_case left right =
    pushed (file_findings to_lower_case left right) directory (lit "directory:")
      (λ ks. lit "Directory claims overlap at " ++ join (lit ", ") ks)
      (sort_by unit_le (directory_keys left right))

-- The loop over the categories.
abbrev pub claim_findings :
    (Text → Text) → SchedulableIssue → SchedulableIssue → Findings → List Category → Findings
claim_findings to_lower_case left right found [] = found
claim_findings to_lower_case left right found (c ∷ rest) =
    claim_findings to_lower_case left right
      (pushed found c.kind (c.name ++ lit ":") (claim_reason c.label) (
        intersections to_lower_case (c.property left.conflict_resources)
          (c.property right.conflict_resources)))
      rest

unfoldable pub findings : (Text → Text) → SchedulableIssue → SchedulableIssue → Findings
unfolding intersections directory_keys join sort_by normalized_path
findings to_lower_case left right =
    claim_findings to_lower_case left right (directory_findings to_lower_case left right) categories

unfoldable pub conflict_for :
    (Text → Text) → SchedulableIssue → SchedulableIssue → Option IssueConflict
unfolding findings
conflict_for to_lower_case left right =
    let found = findings to_lower_case left right in
    if is_empty found.kinds
    then none
    else some (record {
      issue_keys = (left.key, right.key);
      resource_kinds = found.kinds;
      resource_keys = sort_by unit_le (distinct found.keys);
      reasons = found.texts;
    })

-- The inner loop: what the issues behind one conflict with.
unfoldable pub conflicts_with :
    (Text → Text) → SchedulableIssue → List SchedulableIssue → List IssueConflict
unfolding conflict_for
conflicts_with to_lower_case left [] = []
conflicts_with to_lower_case left (right ∷ rest) = elim (conflict_for to_lower_case left right) [
  | none ↦ conflicts_with to_lower_case left rest
  | some conflict ↦ conflict ∷ conflicts_with to_lower_case left rest
]

unfoldable pub conflicts_among : (Text → Text) → List SchedulableIssue → List IssueConflict
unfolding conflicts_with
conflicts_among to_lower_case [] = []
conflicts_among to_lower_case (left ∷ rest) =
    conflicts_with to_lower_case left rest ++ conflicts_among to_lower_case rest

-- `left.key.localeCompare(right.key) <= 0`
abbrev pub by_key : (Text → Text → Bool) → SchedulableIssue → SchedulableIssue → Bool
by_key locale_le left right = locale_le left.key right.key

unfoldable pub analyze_issue_conflicts :
    (Text → Text → Bool) → (Text → Text) → List SchedulableIssue → List IssueConflict
unfolding conflicts_among
analyze_issue_conflicts locale_le to_lower_case issues =
    conflicts_among to_lower_case (sort_by (by_key locale_le) issues)
