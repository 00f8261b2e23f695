-- ===== src/StateMachine/Holds.antt =====
-- When a guard of a transition holds.
use ai_dev_harness.Shared.{◌≡◌, true, false, not, some, arith}
use ai_dev_harness.StateMachine.{TransitionGuard, Guards, is_true}

abbrev pub Holds : Guards → TransitionGuard → Type 0
Holds guards g = guards g ≡ some true

pub Holds-of_unblocked :
    (guards : Guards) (g : TransitionGuard) → not (is_true (guards g)) ≡ false → Holds guards g
Holds-of_unblocked guards g h = ground arith
