-- ===== src/Shared/Trim.antt =====
-- When a trimmed text is blank.
use mathlib.Core.Path.{◌≡◌, refl, ◌∙◌, ap}
use mathlib.Core.Bool.{Bool, false, not, ◌||◌}
use mathlib.Core.List.{[], ◌∷◌, ◌++◌, reverse, reverse-append}
use native.Mathlib.Omega.{arith}
use ai_dev_harness.Shared.Tests.{◌==◌}
use ai_dev_harness.Shared.Lists.{length, length-append}
use ai_dev_harness.Shared.Strings.{Text, is_space, trim_start, trim}

-- The text has a character that is not white space.
pub ink : Text → Bool
ink [] = false
ink (c ∷ s) = not (is_space c) || ink s

ink-append : (s t : Text) → ink (s ++ t) ≡ (ink s || ink t)
unfolding ink
ink-append [] t = refl
ink-append (c ∷ s) t = ground (arith, ink-append s t)

ink-reverse : (s : Text) → ink (reverse s) ≡ ink s
unfolding ink
ink-reverse [] = refl
ink-reverse (c ∷ s) =
    ground
      (arith, ap ink (reverse-append (c ∷ []) s), ink-append (reverse s) (c ∷ []), ink-reverse s)

ink-trim_start : (s : Text) → ink (trim_start s) ≡ ink s
unfolding ink trim_start
ink-trim_start [] = refl
ink-trim_start (c ∷ s) = ground (arith, ink-trim_start s)

pub ink-trim : (s : Text) → ink (trim s) ≡ ink s
unfolding trim
ink-trim s =
    ink-reverse (trim_start (reverse (trim_start s)))
    ∙ ink-trim_start (reverse (trim_start s))
    ∙ ink-reverse (trim_start s)
    ∙ ink-trim_start s

length-reverse : (s : Text) → length (reverse s) ≡ length s
length-reverse [] = refl
length-reverse (c ∷ s) =
    ap length (reverse-append (c ∷ []) s)
    ∙ omega (arith, length-append (reverse s) (c ∷ []), length-reverse s)

trim_start_blank : (s : Text) → (length (trim_start s) == 0) ≡ not (ink s)
unfolding ink trim_start
trim_start_blank [] = refl
trim_start_blank (c ∷ s) = ground (arith, trim_start_blank s)

-- A text is blank after `trim` exactly when it has no other character than white space.
pub trim_blank : (s : Text) → (length (trim s) == 0) ≡ not (ink s)
unfolding trim
trim_blank s =
    let inner = reverse (trim_start s) in
    ground (
      arith,
      length-reverse (trim_start inner),
      trim_start_blank inner,
      ink-reverse (trim_start s),
      ink-trim_start s,
    )
