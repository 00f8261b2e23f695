-- ===== src/Shared/Equality.antt =====
-- Equality tests as an interface: `===` on the enumerations of the source.
use mathlib.Core.Path.{◌≡◌, refl}
use mathlib.Core.Logic.{◌↔◌}
use mathlib.Core.Bool.{Bool, true, false, ◌||◌}
use mathlib.Core.List.{List, [], ◌∷◌}

pub record Eq {ℓ} (A : Type ℓ) : Type ℓ where
  pub same : A → A → Bool
  pub same_iff : (a b : A) → (same a b ≡ true) ↔ (a ≡ b)

infix 50 ◌===◌
abbrev pub ◌===◌ {ℓ} : {A : Type ℓ} ⦃e : Eq A⦄ → A → A → Bool
◌===◌ ⦃e⦄ = e.same

abbrev pub dec_beq {ℓ} : {A : Type ℓ} → Discrete A → A → A → Bool
dec_beq d a b = elim (d a b) [ yes _ ↦ true | no _ ↦ false ]

Dec-test {ℓ} :
    {A : Type ℓ} (d : Dec A) → (◌≡◌ {A = Bool} (elim d [ yes _ ↦ true | no _ ↦ false ]) true) ↔ A
Dec-test (yes p) = (λ _. p, λ _. refl)
Dec-test (no n) = (λ h. cc, λ p. absurd (n p))

pub dec_beq_iff {ℓ} : {A : Type ℓ} (d : Discrete A) (a b : A) → (dec_beq d a b ≡ true) ↔ (a ≡ b)
dec_beq_iff d a b = Dec-test (d a b)

abbrev pub by_dec {ℓ} : {A : Type ℓ} → Discrete A → Eq A
by_dec d = record { same = dec_beq d; same_iff = dec_beq_iff d }

-- `xs.includes(a)` and `set.has(a)`
abbrev pub includes {ℓ} : {A : Type ℓ} ⦃e : Eq A⦄ → List A → A → Bool
includes [] a = false
includes (x ∷ xs) a = (x === a) || includes xs a
