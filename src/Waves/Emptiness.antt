-- ===== src/Waves/Emptiness.antt =====
-- When the lists that `conflictFor` of execution-waves.ts builds are empty: lemmas on `any` and on the
-- emptiness of lists.
use ai_dev_harness.Shared.{
  ◌≡◌, refl, sym, ap, ◌∙◌, Bool, false, not, ◌&&◌, ◌||◌, List, [], ◌∷◌, ◌++◌, map, any, filter,
  Text, text_eq, text_eq_iff, text_mem, insert_by, sort_by, distinct_from, distinct, Bool-cases,
  inl, inr, arith,
}
use ai_dev_harness.Waves.{is_empty}

module _ {ℓ} {A : Type ℓ} where
  pub empty-filter : (p : A → Bool) (xs : List A) → is_empty (filter p xs) ≡ not (any p xs)
  empty-filter p [] = refl
  empty-filter p (x ∷ xs) = ground (arith, empty-filter p xs)

  pub empty-append : (xs ys : List A) → is_empty (xs ++ ys) ≡ (is_empty xs && is_empty ys)
  empty-append [] ys = refl
  empty-append (x ∷ xs) ys = refl

  empty-insert : (le : A → A → Bool) (x : A) (xs : List A) → is_empty (insert_by le x xs) ≡ false
  unfolding insert_by
  empty-insert le x [] = refl
  empty-insert le x (y ∷ ys) = ground arith

  pub empty-sort : (le : A → A → Bool) (xs : List A) → is_empty (sort_by le xs) ≡ is_empty xs
  unfolding sort_by
  empty-sort le [] = refl
  empty-sort le (x ∷ xs) = empty-insert le x (sort_by le xs)

  pub any-or : (p q : A → Bool) (xs : List A) → any (λ x. p x || q x) xs ≡ (any p xs || any q xs)
  any-or p q [] = refl
  any-or p q (x ∷ xs) = ground (arith, any-or p q xs)

  pub any-agree : (p q : A → Bool) (xs : List A) → ((x : A) → p x ≡ q x) → any p xs ≡ any q xs
  any-agree p q [] h = refl
  any-agree p q (x ∷ xs) h = ground (arith, h x, any-agree p q xs h)

  any-never : (xs : List A) → any (λ _. false) xs ≡ false
  any-never [] = refl
  any-never (x ∷ xs) = any-never xs

pub any-swap {ℓ κ} :
    {A : Type ℓ} {B : Type κ} (R : A → B → Bool) (xs : List A) (ys : List B)
    → any (λ x. any (R x) ys) xs ≡ any (λ y. any (λ x. R x y) xs) ys
any-swap R [] ys = sym (any-never ys)
any-swap R (x ∷ xs) ys =
    ap (λ b. any (R x) ys || b) (any-swap R xs ys)
    ∙ sym (any-or (R x) (λ y. any (λ z. R z y) xs) ys)

pub any-map {ℓ κ} :
    {A : Type ℓ} {B : Type κ} (p : B → Bool) (f : A → B) (xs : List A)
    → any p (map f xs) ≡ any (λ x. p (f x)) xs
any-map p f [] = refl
any-map p f (x ∷ xs) = ap (λ b. p (f x) || b) (any-map p f xs)

pub mem-any : (s : Text) (ts : List Text) → text_mem s ts ≡ any (λ t. text_eq t s) ts
mem-any s [] = refl
mem-any s (t ∷ ts) = ap (λ b. text_eq t s || b) (mem-any s ts)

pub text_eq-sym : (s t : Text) → text_eq s t ≡ text_eq t s
text_eq-sym s t = elim (Bool-cases (text_eq s t)) [
  | inl q ↦ q ∙ sym ((text_eq_iff t s).1 (sym ((text_eq_iff s t).0 q)))
  | inr q ↦ elim (Bool-cases (text_eq t s)) [
    | inr r ↦ q ∙ sym r
    | inl r ↦
        let k = (text_eq_iff s t).1 (sym ((text_eq_iff t s).0 r)) in absurd (ground (arith, k, q))
  ]
]

pub or_assoc : (a b c : Bool) → ((a || b) || c) ≡ (a || (b || c))
or_assoc a b c = ground arith

pub or-swap : (a b : Bool) → (a || b) ≡ (b || a)
or-swap a b = ground arith

pub empty-distinct : (xs : List Text) → is_empty (distinct xs) ≡ is_empty xs
unfolding distinct_from
empty-distinct [] = refl
empty-distinct (x ∷ xs) = refl
