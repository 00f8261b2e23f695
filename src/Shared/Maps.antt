-- ===== src/Shared/Maps.antt =====
-- A `Map` with text keys: its entries in the order in which the keys were first set.
use mathlib.Core.Path.{◌≡◌, sym, subst, ◌∙◌}
use mathlib.Core.Logic.{inl, inr}
use mathlib.Core.Bool.{false}
use mathlib.Core.List.{List, [], ◌∷◌}
use mathlib.Core.Option.{Option, none, some}
use native.Mathlib.Omega.{arith}
use ai_dev_harness.Shared.Tests.{if◌then◌else◌, Bool-cases}
use ai_dev_harness.Shared.Lists.{All}
use ai_dev_harness.Shared.Strings.{Text, text_eq, text_eq_iff, text_eq_refl}

-- `map.get(key)`
unfoldable pub lookup {ℓ} : {V : Type ℓ} → Text → List (Text × V) → Option V
lookup key [] = none
lookup key ((k, v) ∷ rest) = let later = lookup key rest in if text_eq k key then some v else later

-- `map.set(key, value)`
unfoldable pub assign {ℓ} : {V : Type ℓ} → Text → V → List (Text × V) → List (Text × V)
assign key value [] = (key, value) ∷ []
assign key value ((k, v) ∷ rest) =
    let later = assign key value rest in if text_eq k key then (k, value) ∷ rest else (k, v) ∷ later

module _ {ℓ} {V : Type ℓ} where
  pub lookup-assign_same :
      (key : Text) (value : V) (entries : List (Text × V))
      → lookup key (assign key value entries) ≡ some value
  unfolding lookup assign
  lookup-assign_same key value [] = ground (arith, text_eq_refl key)
  lookup-assign_same key value ((k, v) ∷ rest) = ground (arith, lookup-assign_same key value rest)

  pub lookup-assign_other :
      (key other : Text) (value : V) (entries : List (Text × V))
      → text_eq other key ≡ false
      → lookup key (assign other value entries) ≡ lookup key entries
  unfolding lookup assign
  lookup-assign_other key other value [] h = ground (arith, h)
  lookup-assign_other key other value ((k, v) ∷ rest) h = elim (Bool-cases (text_eq k other)) [
    | inr q ↦ ground (arith, q, lookup-assign_other key other value rest h)
    | inl q ↦ elim (Bool-cases (text_eq k key)) [
      | inr t ↦ ground (arith, q, t)
      | inl t ↦
          let same =
            (text_eq_iff other key).1 (sym ((text_eq_iff k other).0 q) ∙ (text_eq_iff k key).0 t) in
          absurd (ground (arith, same, h))
    ]
  ]

  -- Setting a key that is not there keeps every entry that is.
  pub lookup-assign_kept :
      (key other : Text) (value was : V) (entries : List (Text × V))
      → lookup other entries ≡ none
      → lookup key entries ≡ some was
      → lookup key (assign other value entries) ≡ some was
  lookup-assign_kept key other value was entries free h = elim (Bool-cases (text_eq other key)) [
    | inr q ↦ lookup-assign_other key other value entries q ∙ h
    | inl q ↦
        let same : other ≡ key = (text_eq_iff other key).0 q in
        let clash : none ≡ some was = sym (subst (λ k. lookup k entries ≡ none) same free) ∙ h in
        absurd (ground (arith, clash))
  ]

-- What holds of every value of a map.
pub assign-All {ℓ κ} :
    {V : Type ℓ} (P : V → Type κ) (key : Text) (value : V) (entries : List (Text × V))
    → P value
    → All (λ e. P e.1) entries
    → All (λ e. P e.1) (assign key value entries)
unfolding assign
assign-All P key value [] p h = (p, tt)
assign-All P key value ((k, v) ∷ rest) p h = elim (Bool-cases (text_eq k key)) [
  | inl q ↦ rw (assign, q) (p, h.1)
  | inr q ↦ rw (assign, q) (h.0, assign-All P key value rest p h.1)
]

pub lookup-All {ℓ κ} :
    {V : Type ℓ} (P : V → Type κ) (key : Text) (value : V) (entries : List (Text × V))
    → All (λ e. P e.1) entries
    → lookup key entries ≡ some value
    → P value
unfolding lookup
lookup-All P key value [] h e = cc
lookup-All P key value ((k, v) ∷ rest) h e = elim (Bool-cases (text_eq k key)) [
  | inl q ↦
      let s : some v ≡ some value = rw (lookup, q) at e in
      let same : v ≡ value = ground arith in subst P same h.0
  | inr q ↦ lookup-All P key value rest h.1 (rw (lookup, q) at e)
]
