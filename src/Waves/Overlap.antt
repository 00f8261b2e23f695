-- ===== src/Waves/Overlap.antt =====
-- When `conflictFor` of execution-waves.ts finds a conflict.
use ai_dev_harness.Shared.{
  ◌≡◌, refl, sym, ap, ap₂, ◌∙◌, Bool, false, not, ◌||◌, is_some, List, [], ◌∷◌, ◌++◌, map, any,
  filter, Text, lit, text_eq, text_mem, starts_with, unit_le, sort_by, distinct, Bool-cases, inl,
  inr, arith,
}
use ai_dev_harness.Waves.{
  ConflictResourceKind, SchedulableIssue, is_empty, folded, intersections, normalized_path,
  directory_of, claims_meet, holds_file, directory_keys, Findings, pushed, Category, categories,
  file, directory, file_findings, directory_findings, claim_findings, claim_reason, join, findings,
  conflict_for,
}
use ai_dev_harness.Waves.Emptiness.{
  empty-filter, empty-append, empty-sort, any-or, any-agree, any-swap, any-map, mem-any,
  text_eq-sym, or_assoc, or-swap, empty-distinct,
}

-- The two lists have a text in common, white space around it and its case aside.
abbrev pub shares : (Text → Text) → List Text → List Text → Bool
shares to_lower_case left right =
    any
      (λ value.
        any (λ other. text_eq (folded to_lower_case other) (folded to_lower_case value)) right)
      left

-- Some claimed directory lies within one of the other Issue, or holds one of its files. Case counts.
abbrev pub meets : SchedulableIssue → SchedulableIssue → Bool
meets left right =
    let left_directories = map directory_of left.conflict_resources.directories in
    let right_directories = map directory_of right.conflict_resources.directories in
    any
      (λ claimed.
        any (λ other. starts_with other claimed || starts_with claimed other) right_directories)
      left_directories
    || (any (λ claimed. holds_file right.expected_files claimed) left_directories
        || any (λ claimed. holds_file left.expected_files claimed) right_directories)

abbrev pub overlaps : (Text → Text) → SchedulableIssue → SchedulableIssue → Bool
overlaps to_lower_case left right =
    (shares to_lower_case (map normalized_path left.expected_files)
        (map normalized_path right.expected_files)
      || meets left right)
    || any
        (λ c.
          shares to_lower_case (c.property left.conflict_resources)
            (c.property right.conflict_resources))
        categories

empty-intersections :
    (to_lower_case : Text → Text) (left right : List Text)
    → is_empty (intersections to_lower_case left right) ≡ not (shares to_lower_case left right)
unfolding intersections
empty-intersections to_lower_case left right =
    let f = folded to_lower_case in
    let p = λ (value : Text). text_mem value (map f right) in
    empty-sort unit_le (distinct (filter p (map f left)))
    ∙ empty-distinct (filter p (map f left))
    ∙ empty-filter p (map f left)
    ∙ ap not (
        any-map p f left
        ∙ any-agree (λ v. p (f v)) (λ v. any (λ o. text_eq (f o) (f v)) right) left
            (λ v. mem-any (f v) (map f right) ∙ any-map (λ t. text_eq t (f v)) f right))

empty-directories :
    (left right : SchedulableIssue) → is_empty (directory_keys left right) ≡ not (meets left right)
unfolding directory_keys
empty-directories left right =
    let l = map directory_of left.conflict_resources.directories in
    let r = map directory_of right.conflict_resources.directories in
    let p =
      λ (claimed : Text). any (λ other. starts_with other claimed || starts_with claimed other) r in
    let q = holds_file right.expected_files in
    empty-distinct
      (filter (claims_meet r right.expected_files) l ++ filter (holds_file left.expected_files) r)
    ∙ empty-append (filter (claims_meet r right.expected_files) l)
        (filter (holds_file left.expected_files) r)
    ∙ ground (
      arith,
      empty-filter (claims_meet r right.expected_files) l,
      empty-filter (holds_file left.expected_files) r,
      any-or p q l,
    )

-- One step of `conflictFor`, after steps that found something or not.
pushed_one :
    (found : Findings) (kind : ConflictResourceKind) (prefix : Text) (reason : List Text → Text)
    (keys : List Text) (before here : Bool)
    → is_empty found.kinds ≡ not before
    → is_empty keys ≡ not here
    → is_empty (pushed found kind prefix reason keys).kinds ≡ not (before || here)
pushed_one found kind prefix reason [] before here h k = ground (arith, h, k)
pushed_one found kind prefix reason (x ∷ xs) before here h k =
    ground (arith, h, k, empty-append found.kinds (kind ∷ []))

module _ (to_lower_case : Text → Text) where
  claims-overlap :
      (left right : SchedulableIssue) (found : Findings) (before : Bool) (cs : List Category)
      → is_empty found.kinds ≡ not before
      → is_empty (claim_findings to_lower_case left right found cs).kinds
        ≡ not (
            before
            || any
                (λ c.
                  shares to_lower_case
                    (c.property left.conflict_resources)
                    (c.property right.conflict_resources))
                cs)
  claims-overlap left right found before [] h = ground (arith, h)
  claims-overlap left right found before (c ∷ cs) h =
      let l = c.property left.conflict_resources in
      let r = c.property right.conflict_resources in
      claims-overlap left right
        (pushed found c.kind (c.name ++ lit ":") (claim_reason c.label)
          (intersections to_lower_case l r))
        (before || shares to_lower_case l r) cs
        (pushed_one found c.kind (c.name ++ lit ":") (claim_reason c.label)
          (intersections to_lower_case l r) before (shares to_lower_case l r) h
          (empty-intersections to_lower_case l r))
      ∙ ap not (
          or_assoc before (shares to_lower_case l r) (
            any
              (λ c.
                shares to_lower_case (c.property left.conflict_resources)
                  (c.property right.conflict_resources))
              cs))

  findings-overlaps :
      (left right : SchedulableIssue)
      → is_empty (findings to_lower_case left right).kinds ≡ not (overlaps to_lower_case left right)
  unfolding findings
  findings-overlaps left right =
      let files =
        intersections to_lower_case (map normalized_path left.expected_files)
          (map normalized_path right.expected_files) in
      let share =
        shares to_lower_case (map normalized_path left.expected_files)
          (map normalized_path right.expected_files) in
      claims-overlap left right (directory_findings to_lower_case left right)
        (share || meets left right) categories
        (pushed_one (file_findings to_lower_case left right) directory (lit "directory:")
          (λ ks. lit "Directory claims overlap at " ++ join (lit ", ") ks)
          (sort_by unit_le (directory_keys left right)) share (meets left right)
          (pushed_one (record { kinds = []; keys = []; texts = [] }) file (lit "file:")
            (λ ks. lit "Both Issues expect to modify " ++ join (lit ", ") ks) files false share refl
            (empty-intersections to_lower_case (map normalized_path left.expected_files)
              (map normalized_path right.expected_files)))
          (empty-sort unit_le (directory_keys left right) ∙ empty-directories left right))

  pub conflict_for-overlaps :
      (left right : SchedulableIssue)
      → is_some (conflict_for to_lower_case left right) ≡ overlaps to_lower_case left right
  unfolding conflict_for
  conflict_for-overlaps left right =
      elim (Bool-cases (is_empty (findings to_lower_case left right).kinds)) [
        | inl q ↦ rw (conflict_for, q) (ground (arith, q, findings-overlaps left right))
        | inr q ↦ rw (conflict_for, q) (ground (arith, q, findings-overlaps left right))
      ]

  shares-sym :
      (left right : List Text) → shares to_lower_case left right ≡ shares to_lower_case right left
  shares-sym left right =
      any-swap (λ v o. text_eq (folded to_lower_case o) (folded to_lower_case v)) left right
      ∙ any-agree (λ o. any (λ v. text_eq (folded to_lower_case o) (folded to_lower_case v)) left)
          (λ o. any (λ v. text_eq (folded to_lower_case v) (folded to_lower_case o)) left) right
          (λ o.
            any-agree (λ v. text_eq (folded to_lower_case o) (folded to_lower_case v))
              (λ v. text_eq (folded to_lower_case v) (folded to_lower_case o)) left
              (λ v. text_eq-sym (folded to_lower_case o) (folded to_lower_case v)))

  meets-sym : (left right : SchedulableIssue) → meets left right ≡ meets right left
  meets-sym left right =
      let l = map directory_of left.conflict_resources.directories in
      let r = map directory_of right.conflict_resources.directories in
      let within : any (λ c. any (λ o. starts_with o c || starts_with c o) r) l
          ≡ any (λ c. any (λ o. starts_with o c || starts_with c o) l) r =
        any-swap (λ c o. starts_with o c || starts_with c o) l r
        ∙ any-agree (λ o. any (λ c. starts_with o c || starts_with c o) l)
            (λ o. any (λ c. starts_with c o || starts_with o c) l) r
            (λ o.
              any-agree (λ c. starts_with o c || starts_with c o)
                (λ c. starts_with c o || starts_with o c) l
                (λ c. or-swap (starts_with o c) (starts_with c o))) in
      ap₂ ◌||◌ within (
        or-swap (any (λ claimed. holds_file right.expected_files claimed) l)
          (any (λ claimed. holds_file left.expected_files claimed) r))

  overlaps-sym :
      (left right : SchedulableIssue)
      → overlaps to_lower_case left right ≡ overlaps to_lower_case right left
  overlaps-sym left right =
      ap₂ ◌||◌
        (ap₂ ◌||◌
          (shares-sym (map normalized_path left.expected_files)
            (map normalized_path right.expected_files))
          (meets-sym left right))
        (any-agree
          (λ c.
            shares to_lower_case (c.property left.conflict_resources)
              (c.property right.conflict_resources))
          (λ c.
            shares to_lower_case (c.property right.conflict_resources)
              (c.property left.conflict_resources))
          categories
          (λ c.
            shares-sym (c.property left.conflict_resources) (c.property right.conflict_resources)))

  pub conflict_for-sym :
      (left right : SchedulableIssue)
      → is_some (conflict_for to_lower_case left right)
        ≡ is_some (conflict_for to_lower_case right left)
  conflict_for-sym left right =
      conflict_for-overlaps left right
      ∙ overlaps-sym left right
      ∙ sym (conflict_for-overlaps right left)
