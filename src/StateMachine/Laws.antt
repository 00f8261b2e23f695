-- ===== src/StateMachine/Laws.antt =====
-- `transitionState` of state-machines.ts on any machine, alone and in sequences of attempts.
use ai_dev_harness.Shared.{
  ℕ, ◌+◌, ◌≡◌, refl, Bool, true, false, ◌⊎◌, inl, inr, some, List, [], ◌∷◌, Result, ok, err, Eq,
  includes, any, Option-cases, arith, suc, All, find-All, sym, subst, subst₂, and-eq-true_iff,
}
use ai_dev_harness.StateMachine.{
  TransitionGuard, StateMachine, StateTransition, StateTransitionResult, TransitionStateInput,
  Guards, is_true, guard_blocks, find_transition, transition_state, DomainTransitionErrorCode,
  version_conflict,
}

-- A versioned entity, and a request to move it.
pub record Versioned (State : Type 0) : Type 0 where
  pub state : State
  pub version : ℕ

pub record Attempt (State : Type 0) : Type 0 where
  pub expected_version : ℕ
  pub next_state : State
  pub guards : Guards

module _ {State : Type 0} ⦃e : Eq State⦄ (machine : StateMachine State) where
  abbrev pub input_of : Versioned State → Attempt State → TransitionStateInput State
  input_of v a = record {
    current_state = v.state;
    current_version = v.version;
    expected_version = a.expected_version;
    next_state = a.next_state;
    guards = a.guards;
  }

  abbrev settle :
      Versioned State
      → Result DomainTransitionErrorCode (StateTransitionResult State)
      → Versioned State × Bool
  settle v (ok r) = (record { state = r.state; version = r.version }, true)
  settle v (err c) = (v, false)

  -- An accepted attempt is stored, a refused one changes nothing.
  unfoldable pub attempt : Versioned State → Attempt State → Versioned State × Bool
  attempt v a = settle v (transition_state machine (input_of v a))

  -- The attempts in order, with the number of those that were accepted.
  unfoldable pub attempts : Versioned State → List (Attempt State) → Versioned State × ℕ
  attempts v [] = (v, 0)
  attempts v (a ∷ rest) =
      let (w, accepted) = attempt v a in
      let (x, n) = attempts w rest in (x, elim accepted [ true ↦ suc n | false ↦ n ])

  -- What a success says: the versions agree, the state is not terminal, an edge of the table leads
  -- to the next state and its guard holds.
  pub record IsAccepted (input : TransitionStateInput State) (r : StateTransitionResult State)
      : Type 0 where
    pub current : input.current_version ≡ input.expected_version
    pub live : includes machine.terminal_states input.current_state ≡ false
    pub transition : StateTransition State
    pub found :
        find_transition machine.transitions input.current_state input.next_state ≡ some transition
    pub unblocked : guard_blocks transition.guard input.guards ≡ false
    pub result : r ≡ record {
      previous_state = input.current_state;
      state = input.next_state;
      previous_version = input.current_version;
      version = input.current_version + 1;
    }

  pub transition_state-IsAccepted :
      (input : TransitionStateInput State) (r : StateTransitionResult State)
      → transition_state machine input ≡ ok r
      → IsAccepted input r
  unfolding transition_state
  transition_state-IsAccepted input r h =
      elim (Option-cases
        (find_transition machine.transitions input.current_state input.next_state)) [
          | inl missing ↦ absurd (ground arith)
          | inr (t, found) ↦ record {
            current = ground arith;
            live = ground arith;
            transition = t;
            found = found;
            unblocked = ground arith;
            result = ground arith;
          }
        ]

  -- A property of all edges that are open holds of each accepted transition.
  pub accepted-All :
      (P : State → State → Type 0) (input : TransitionStateInput State)
      (r : StateTransitionResult State)
      → All (λ t. guard_blocks t.guard input.guards ≡ false → P t.from t.to) machine.transitions
      → transition_state machine input ≡ ok r
      → P input.current_state input.next_state
  accepted-All P input r edges h =
      let a = transition_state-IsAccepted input r h in
      let (open', matched) =
        find-All
          (λ (t : StateTransition State). guard_blocks t.guard input.guards ≡ false → P t.from t.to)
          _ machine.transitions edges a.found in
      let both = (and-eq-true_iff _ _).0 matched in
      subst₂ P ((e.same_iff _ _).0 both.0) ((e.same_iff _ _).0 both.1) (open' a.unblocked)

  attempt_cases :
      (v : Versioned State) (a : Attempt State)
      → (((attempt v a).1 ≡ true)
          × (v.version ≡ a.expected_version)
          × (includes machine.terminal_states v.state ≡ false)
          × ((attempt v a).0 ≡ record { state = a.next_state; version = v.version + 1 }))
        ⊎ (((attempt v a).1 ≡ false) × ((attempt v a).0 ≡ v))
  unfolding attempt transition_state
  attempt_cases v a = ground arith

  -- Each accepted attempt adds one to the version, and nothing else does.
  pub version-attempts :
      (v : Versioned State) (rest : List (Attempt State))
      → (attempts v rest).0.version ≡ v.version + (attempts v rest).1
  unfolding attempts
  version-attempts v [] = omega arith
  version-attempts v (a ∷ rest) =
      ground (arith, attempt_cases v a, version-attempts (attempt v a).0 rest)

  -- Of two attempts made at one version, the second fails with a version conflict once the first
  -- was accepted.
  attempt_conflict :
      (v : Versioned State) (a b : Attempt State)
      → (attempt v a).1 ≡ true
      → b.expected_version ≡ a.expected_version
      → transition_state machine (input_of (attempt v a).0 b) ≡ err version_conflict
  unfolding transition_state
  attempt_conflict v a b won same = ground (arith, attempt_cases v a)

  attempt_terminal :
      (v : Versioned State) (a : Attempt State)
      → includes machine.terminal_states v.state ≡ true
      → attempt v a ≡ (v, false)
  attempt_terminal v a h = ground (arith, attempt_cases v a)

  -- A terminal state absorbs: whatever is attempted, nothing is accepted and nothing changes.
  pub attempts_terminal :
      (v : Versioned State) (rest : List (Attempt State))
      → includes machine.terminal_states v.state ≡ true
      → attempts v rest ≡ (v, 0)
  unfolding attempts
  attempts_terminal v [] h = refl
  attempts_terminal v (a ∷ rest) h =
      ground (arith, attempt_terminal v a h, attempts_terminal v rest h)

  -- An attempt either changes nothing or follows an open edge.
  attempt_edge :
      (v : Versioned State) (a : Attempt State) (P : State → State → Type 0)
      → All (λ t. guard_blocks t.guard a.guards ≡ false → P t.from t.to) machine.transitions
      → ((attempt v a).0 ≡ v) ⊎ P v.state (attempt v a).0.state
  unfolding attempt
  attempt_edge v a P edges = settled (transition_state machine (input_of v a)) refl
    where
      settled :
          (r : Result DomainTransitionErrorCode (StateTransitionResult State))
          → transition_state machine (input_of v a) ≡ r
          → ((settle v r).0 ≡ v) ⊎ P v.state (settle v r).0.state
      settled (err c) h = inl refl
      settled (ok r) h =
          let accepted = transition_state-IsAccepted (input_of v a) r h in
          inr (
            subst (λ (x : StateTransitionResult State). P v.state x.state) (sym accepted.result)
              (accepted-All P (input_of v a) r edges h))

  -- An edge that stays inside a set of states, or shows the guard `g`.
  abbrev pub Stays : (State → Bool) → TransitionGuard → Guards → State → State → Type 0
  Stays inside g guards from to =
      inside from ≡ true → (inside to ≡ true) ⊎ (is_true (guards g) ≡ true)

  -- A set of states whose edges to the outside all need `g` is left only by a sequence of attempts
  -- that shows `g`.
  pub attempts_guarded :
      (inside : State → Bool) (g : TransitionGuard)
      → ((guards : Guards)
          → All
              (λ t. guard_blocks t.guard guards ≡ false → Stays inside g guards t.from t.to)
              machine.transitions)
      → (v : Versioned State) (rest : List (Attempt State)) → inside v.state ≡ true
      → (inside (attempts v rest).0.state ≡ true) ⊎ (any (λ a. is_true (a.guards g)) rest ≡ true)
  unfolding attempts
  attempts_guarded inside g edges v [] h = inl h
  attempts_guarded inside g edges v (a ∷ rest) h =
      elim (attempt_edge v a (Stays inside g a.guards) (edges a.guards)) [
        | inl same ↦ ground (
          arith,
          attempts_guarded inside g edges (attempt v a).0 rest
              (subst (λ (x : Versioned State). inside x.state ≡ true) (sym same) h),
        )
        | inr moved ↦ elim (moved h) [
          | inl still ↦ ground (arith, attempts_guarded inside g edges (attempt v a).0 rest still)
          | inr yes_shown ↦ inr (rw yes_shown)
        ]
      ]
