-- ===== src/Shared/Updates.antt =====
-- Objects that a list holds: `find` returns one, and an assignment to it changes the list in place.
use Prim.Native.Nat.{suc}
use mathlib.Core.Path.{◌≡◌, refl, subst}
use mathlib.Core.Logic.{inl, inr}
use mathlib.Core.Bool.{Bool, true, false}
use mathlib.Core.List.{List, [], ◌∷◌, map}
use mathlib.Core.Option.{none, some}
use native.Mathlib.Omega.{arith}
use ai_dev_harness.Shared.Tests.{if◌then◌else◌, Bool-cases}
use ai_dev_harness.Shared.Lists.{length, filter, find, All}

-- The first element that passes the test is replaced.
unfoldable pub update_first {ℓ} : {A : Type ℓ} → (A → Bool) → (A → A) → List A → List A
update_first p f [] = []
update_first p f (x ∷ xs) = let rest = update_first p f xs in if p x then f x ∷ xs else x ∷ rest

module _ {ℓ κ} {A : Type ℓ} (P : A → Type κ) (p : A → Bool) where
  -- Only an element that passes the test is changed.
  pub update-All_passing :
      (f : A → A)
      → ((x : A) → p x ≡ true → P x → P (f x))
      → (xs : List A) → All P xs
      → All P (update_first p f xs)
  unfolding update_first
  update-All_passing f g [] h = tt
  update-All_passing f g (x ∷ xs) h = elim (Bool-cases (p x)) [
    | inl q ↦
        let e : f x ∷ xs ≡ update_first p f (x ∷ xs) = ground arith in
        subst (λ ys. All P ys) e (g x q h.0, h.1)
    | inr q ↦
        let e : x ∷ update_first p f xs ≡ update_first p f (x ∷ xs) = ground arith in
        subst (λ ys. All P ys) e (h.0, update-All_passing f g xs h.1)
  ]

  pub update-All :
      (f : A → A)
      → ((x : A) → P x → P (f x))
      → (xs : List A) → All P xs
      → All P (update_first p f xs)
  update-All f g xs h = update-All_passing f (λ x q k. g x k) xs h

-- What `find` does not return fails the test.
pub find-none_All {ℓ} :
    {A : Type ℓ} (p : A → Bool) (xs : List A) → find p xs ≡ none → All (λ x. p x ≡ false) xs
find-none_All p [] e = tt
find-none_All p (x ∷ xs) e = elim (Bool-cases (p x)) [
  | inl q ↦ let s : some x ≡ none = rw q at e in cc
  | inr q ↦ (q, find-none_All p xs (rw q at e))
]

-- An attribute that the change leaves alone is the same everywhere.
pub map-update {ℓ κ} :
    {A : Type ℓ} {B : Type κ} (g : A → B) (p : A → Bool) (f : A → A)
    → ((x : A) → g (f x) ≡ g x)
    → (xs : List A) → map g (update_first p f xs) ≡ map g xs
unfolding update_first
map-update g p f h [] = refl
map-update g p f h (x ∷ xs) = ground (arith, h x, map-update g p f h xs)

-- A change that makes the found element fail a test that it passed lowers the count by one.
pub count-update {ℓ} :
    {A : Type ℓ} (p q : A → Bool) (f : A → A)
    → ((x : A) → p x ≡ true → (q x ≡ true) × (q (f x) ≡ false))
    → (xs : List A) (y : A) → find p xs ≡ some y
    → suc (length (filter q (update_first p f xs))) ≡ length (filter q xs)
unfolding update_first
count-update p q f h [] y e = cc
count-update p q f h (x ∷ xs) y e = elim (Bool-cases (p x)) [
  | inl t ↦ let r = h x t in ground arith
  | inr t ↦
      let rest = count-update p q f h xs y (rw t at e) in
      elim (Bool-cases (q x)) [ inl u ↦ ground (arith, rest) | inr u ↦ ground (arith, rest) ]
]
