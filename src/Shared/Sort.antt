-- ===== src/Shared/Sort.antt =====
-- `sort` of arrays, which is stable, the order of strings by their code units, and sets of strings.
use mathlib.Core.Path.{◌≡◌, refl, sym, ap, ◌∙◌, subst}
use mathlib.Core.Logic.{◌↔◌, inl, inr}
use mathlib.Core.Bool.{Bool, true, false, ◌&&◌, ◌||◌}
use mathlib.Core.List.{List, [], ◌∷◌, Memᴰ}
use native.Mathlib.Omega.{arith}
use ai_dev_harness.Shared.Tests.{ltb, ◌==◌, if◌then◌else◌, Bool-cases}
use ai_dev_harness.Shared.Lists.{All}
use ai_dev_harness.Shared.Strings.{Text, text_eq, text_eq_iff, text_mem}

-- `<=` on strings
unfoldable pub unit_le : Text → Text → Bool
unit_le [] t = true
unit_le (c ∷ s) [] = false
unit_le (c ∷ s) (d ∷ t) = ltb c d || c == d && unit_le s t

pub unit_le_total : (s t : Text) → unit_le s t ≡ false → unit_le t s ≡ true
unfolding unit_le
unit_le_total [] t h = cc
unit_le_total (c ∷ s) [] h = refl
unit_le_total (c ∷ s) (d ∷ t) h = elim (Bool-cases (unit_le s t)) [
  | inl q ↦ ground arith
  | inr q ↦ ground (arith, unit_le_total s t q)
]

pub unit_le_trans : (s t u : Text) → unit_le s t ≡ true → unit_le t u ≡ true → unit_le s u ≡ true
unfolding unit_le
unit_le_trans [] t u h k = refl
unit_le_trans (c ∷ s) [] u h k = cc
unit_le_trans (c ∷ s) (d ∷ t) [] h k = cc
unit_le_trans (c ∷ s) (d ∷ t) (e ∷ u) h k =
    let step = unit_le_trans s t u in
    elim (Bool-cases (unit_le s t)) [
      | inl q ↦ elim (Bool-cases (unit_le t u)) [
        | inl r ↦ ground (arith, step q r)
        | inr r ↦ ground arith
      ]
      | inr q ↦ ground arith
    ]

pub unit_le_antisym : (s t : Text) → unit_le s t ≡ true → unit_le t s ≡ true → s ≡ t
unfolding unit_le
unit_le_antisym [] [] h k = refl
unit_le_antisym [] (d ∷ t) h k = cc
unit_le_antisym (c ∷ s) [] h k = cc
unit_le_antisym (c ∷ s) (d ∷ t) h k =
    let head : c ≡ d = ground arith in
    let tail : s ≡ t = unit_le_antisym s t (ground arith) (ground arith) in cc

-- `xs.sort(…)` by a test for `≤`
unfoldable pub insert_by {ℓ} : {A : Type ℓ} → (A → A → Bool) → A → List A → List A
insert_by le x [] = x ∷ []
insert_by le x (y ∷ ys) = let rest = insert_by le x ys in if le x y then x ∷ y ∷ ys else y ∷ rest

unfoldable pub sort_by {ℓ} : {A : Type ℓ} → (A → A → Bool) → List A → List A
unfolding insert_by
sort_by le [] = []
sort_by le (x ∷ xs) = insert_by le x (sort_by le xs)

-- Each element is `le` all that stand behind it.
abbrev pub Sorted {ℓ} : {A : Type ℓ} → (A → A → Bool) → List A → Type ℓ
Sorted le [] = Unit
Sorted le (x ∷ xs) = All (λ y. le x y ≡ true) xs × Sorted le xs

pub All-of_mem {ℓ κ} :
    {A : Type ℓ} {P : A → Type κ} (xs : List A) → ((x : A) → Memᴰ x xs → P x) → All P xs
All-of_mem [] h = tt
All-of_mem (x ∷ xs) h = (h x (Memᴰ.head refl), All-of_mem xs (λ y m. h y (Memᴰ.tail m)))

module _ {ℓ} {A : Type ℓ} (le : A → A → Bool) where
  insert-mem_new : (x : A) (xs : List A) → Memᴰ x (insert_by le x xs)
  unfolding insert_by
  insert-mem_new x [] = Memᴰ.head refl
  insert-mem_new x (y ∷ ys) = elim (Bool-cases (le x y)) [
    | inl q ↦ rw (insert_by, q) (Memᴰ.head refl)
    | inr q ↦ rw (insert_by, q) (Memᴰ.tail (insert-mem_new x ys))
  ]

  insert-mem_old : (x z : A) (xs : List A) → Memᴰ z xs → Memᴰ z (insert_by le x xs)
  unfolding insert_by
  insert-mem_old x z [] m = elim m [ ]
  insert-mem_old x z (y ∷ ys) m = elim (Bool-cases (le x y)) [
    | inl q ↦ rw (insert_by, q) (Memᴰ.tail m)
    | inr q ↦
        rw (insert_by, q)
          (elim m [ Memᴰ.head e ↦ Memᴰ.head e | Memᴰ.tail k ↦ Memᴰ.tail (insert-mem_old x z ys k) ])
  ]

  insert-All {κ} :
      (P : A → Type κ) (x : A) (xs : List A) → P x → All P xs → All P (insert_by le x xs)
  unfolding insert_by
  insert-All P x [] p h = (p, tt)
  insert-All P x (y ∷ ys) p h = elim (Bool-cases (le x y)) [
    | inl q ↦ rw (insert_by, q) (p, h)
    | inr q ↦ rw (insert_by, q) (h.0, insert-All P x ys p h.1)
  ]

  pub sort-mem : (x : A) (xs : List A) → Memᴰ x xs → Memᴰ x (sort_by le xs)
  unfolding sort_by
  sort-mem x [] m = elim m [ ]
  sort-mem x (y ∷ ys) (Memᴰ.head e) =
      subst (λ z. Memᴰ z (insert_by le y (sort_by le ys))) (sym e)
        (insert-mem_new y (sort_by le ys))
  sort-mem x (y ∷ ys) (Memᴰ.tail m) = insert-mem_old y x (sort_by le ys) (sort-mem x ys m)

  pub sort-All {κ} : (P : A → Type κ) (xs : List A) → All P xs → All P (sort_by le xs)
  unfolding sort_by
  sort-All P [] h = tt
  sort-All P (x ∷ xs) h = insert-All P x (sort_by le xs) h.0 (sort-All P xs h.1)

module _ {ℓ} {A : Type ℓ} (le : A → A → Bool) (total : (x y : A) → le x y ≡ false → le y x ≡ true)
    (trans : (x y z : A) → le x y ≡ true → le y z ≡ true → le x z ≡ true) where
  below :
      (x y : A) (xs : List A)
      → le x y ≡ true
      → All (λ z. le y z ≡ true) xs
      → All (λ z. le x z ≡ true) xs
  below x y [] h k = tt
  below x y (z ∷ xs) h k = (trans x y z h k.0, below x y xs h k.1)

  insert-Sorted : (x : A) (xs : List A) → Sorted le xs → Sorted le (insert_by le x xs)
  unfolding insert_by
  insert-Sorted x [] s = (tt, tt)
  insert-Sorted x (y ∷ ys) s = elim (Bool-cases (le x y)) [
    | inl q ↦ rw (insert_by, q) ((q, below x y ys q s.0), s)
    | inr q ↦
        rw (insert_by, q)
          (insert-All le (λ z. le y z ≡ true) x ys (total x y q) s.0, insert-Sorted x ys s.1)
  ]

  pub sort-Sorted : (xs : List A) → Sorted le (sort_by le xs)
  unfolding sort_by
  sort-Sorted [] = tt
  sort-Sorted (x ∷ xs) = insert-Sorted x (sort_by le xs) (sort-Sorted xs)

-- Two tests that agree on the elements sort them alike.
module _ {ℓ} {A : Type ℓ} (le other : A → A → Bool) where
  insert-agree :
      (x : A) (xs : List A)
      → All (λ y. le x y ≡ other x y) xs
      → insert_by le x xs ≡ insert_by other x xs
  unfolding insert_by
  insert-agree x [] h = refl
  insert-agree x (y ∷ ys) h = ground (arith, h.0, insert-agree x ys h.1)

  pub sort-agree :
      (xs : List A)
      → ((x y : A) → Memᴰ x xs → Memᴰ y xs → le x y ≡ other x y)
      → sort_by le xs ≡ sort_by other xs
  unfolding sort_by
  sort-agree [] h = refl
  sort-agree (x ∷ xs) h =
      insert-agree x (sort_by le xs) (
        sort-All le (λ y. le x y ≡ other x y) xs
          (All-of_mem xs (λ y m. h x y (Memᴰ.head refl) (Memᴰ.tail m))))
      ∙ ap (insert_by other x) (sort-agree xs (λ y z m k. h y z (Memᴰ.tail m) (Memᴰ.tail k)))

-- `new Set(xs)`, spread: the first of equal strings, in order.
unfoldable pub distinct_from : List Text → List Text → List Text
distinct_from seen [] = []
distinct_from seen (x ∷ xs) = elim (text_mem x seen) [
  | true ↦ distinct_from seen xs
  | false ↦ x ∷ distinct_from (x ∷ seen) xs
]

abbrev pub distinct : List Text → List Text
distinct xs = distinct_from [] xs

pub text_mem_iff : (s : Text) (ts : List Text) → (text_mem s ts ≡ true) ↔ Memᴰ s ts
text_mem_iff s [] = (λ h. cc, λ m. elim m [ ])
text_mem_iff s (t ∷ ts) = (
  λ h. elim (Bool-cases (text_eq t s)) [
    | inl q ↦ Memᴰ.head (sym ((text_eq_iff t s).0 q))
    | inr q ↦ Memᴰ.tail ((text_mem_iff s ts).0 (ground arith))
  ],
  λ m. elim m [
    | Memᴰ.head e ↦ ground (arith, (text_eq_iff t s).1 (sym e))
    | Memᴰ.tail k ↦ ground (arith, (text_mem_iff s ts).1 k)
  ],
)
