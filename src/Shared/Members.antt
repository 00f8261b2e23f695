-- ===== src/Shared/Members.antt =====
-- Membership in lists, with `All`, `any`, and lists that change in place.
use mathlib.Core.Path.{◌≡◌, refl, sym, ap, subst}
use mathlib.Core.Logic.{◌⊎◌, inl, inr}
use mathlib.Core.Bool.{Bool, true, false, ◌||◌}
use mathlib.Core.List.{List, [], ◌∷◌, ◌++◌, map, Memᴰ}
use mathlib.Core.Option.{none, some, some-injective}
use native.Mathlib.Omega.{arith}
use ai_dev_harness.Shared.Tests.{Bool-cases}
use ai_dev_harness.Shared.Lists.{length, filter, find, any, All}
use ai_dev_harness.Shared.Updates.{update_first}

pub All-mem {ℓ κ} : {A : Type ℓ} (P : A → Type κ) (xs : List A) (x : A) → All P xs → Memᴰ x xs → P x
All-mem P [] x h m = elim m [ ]
All-mem P (y ∷ ys) x h (Memᴰ.head e) = subst P (sym e) h.0
All-mem P (y ∷ ys) x h (Memᴰ.tail m) = All-mem P ys x h.1 m

-- A member of the images is the image of a member.
pub mem-map_lem {ℓ κ} :
    {A : Type ℓ} {B : Type κ} (f : A → B) (xs : List A) (b : B)
    → Memᴰ b (map f xs)
    → (a : A) × Memᴰ a xs × (f a ≡ b)
mem-map_lem f [] b m = elim m [ ]
mem-map_lem f (x ∷ xs) b (Memᴰ.head e) = (x, Memᴰ.head refl, sym e)
mem-map_lem f (x ∷ xs) b (Memᴰ.tail m) = let (a, h, e) = mem-map_lem f xs b m in (a, Memᴰ.tail h, e)

pub mem-map_image {ℓ κ} :
    {A : Type ℓ} {B : Type κ} (f : A → B) (xs : List A) (a : A) → Memᴰ a xs → Memᴰ (f a) (map f xs)
mem-map_image f [] a m = elim m [ ]
mem-map_image f (x ∷ xs) a (Memᴰ.head e) = Memᴰ.head (ap f e)
mem-map_image f (x ∷ xs) a (Memᴰ.tail m) = Memᴰ.tail (mem-map_image f xs a m)

pub find-mem {ℓ} :
    {A : Type ℓ} (p : A → Bool) (xs : List A) (x : A)
    → find p xs ≡ some x
    → Memᴰ x xs × (p x ≡ true)
find-mem p [] x e = cc
find-mem p (y ∷ ys) x e = elim (Bool-cases (p y)) [
  | inl q ↦
      let s : some y ≡ some x = rw q at e in
      let same : x ≡ y = ground arith in (Memᴰ.head same, ground arith)
  | inr q ↦ let (m, t) = find-mem p ys x (rw q at e) in (Memᴰ.tail m, t)
]

-- What `find` returns after an assignment to the object that another `find` returned.
pub find-update_same {ℓ} :
    {A : Type ℓ} (p : A → Bool) (v : A) (xs : List A) (x : A)
    → p v ≡ true
    → find p xs ≡ some x
    → find p (update_first p (λ _. v) xs) ≡ some v
unfolding update_first
find-update_same p v [] x t e = cc
find-update_same p v (y ∷ ys) x t e = elim (Bool-cases (p y)) [
  | inl q ↦ ground arith
  | inr q ↦ ground (arith, find-update_same p v ys x t (rw q at e))
]

-- The list around the element that `find` returns, before and after its change.
pub find-splits {ℓ} :
    {A : Type ℓ} (p : A → Bool) (f : A → A) (xs : List A) (x : A)
    → find p xs ≡ some x
    → (before : List A) × (after : List A) × (xs ≡ before ++ x ∷ after)
      × (update_first p f xs ≡ before ++ f x ∷ after)
unfolding update_first
find-splits p f [] x e = cc
find-splits p f (y ∷ ys) x e = elim (Bool-cases (p y)) [
  | inl q ↦
      let same : y ≡ x = some-injective y x (rw q at e) in
      ([], ys, ap (λ z. z ∷ ys) same, rw q (ap (λ z. f z ∷ ys) same))
  | inr q ↦
      let (before, after, was, is) = find-splits p f ys x (rw q at e) in
      (y ∷ before, after, ap (λ zs. y ∷ zs) was, rw q (ap (λ zs. y ∷ zs) is))
]

-- A change that the test does not see: `find` returns the changed element.
pub find-update {ℓ} :
    {A : Type ℓ} (p : A → Bool) (f : A → A)
    → ((x : A) → p (f x) ≡ p x)
    → (xs : List A) (x : A) → find p xs ≡ some x
    → find p (update_first p f xs) ≡ some (f x)
unfolding update_first
find-update p f kept [] x e = cc
find-update p f kept (y ∷ ys) x e = elim (Bool-cases (p y)) [
  | inl q ↦ ground (arith, kept y)
  | inr q ↦ ground (arith, find-update p f kept ys x (rw q at e))
]

pub find-update_other {ℓ} :
    {A : Type ℓ} (p q : A → Bool) (v : A) (xs : List A)
    → ((x : A) → q x ≡ true → p x ≡ false)
    → p v ≡ false
    → find p (update_first q (λ _. v) xs) ≡ find p xs
unfolding update_first
find-update_other p q v [] h t = refl
find-update_other p q v (y ∷ ys) h t = elim (Bool-cases (q y)) [
  | inl u ↦ ground (arith, h y u)
  | inr u ↦ ground (arith, find-update_other p q v ys h t)
]

pub any-update {ℓ} :
    {A : Type ℓ} (p q : A → Bool) (f : A → A) (xs : List A)
    → ((x : A) → q x ≡ true → p (f x) ≡ p x)
    → any p (update_first q f xs) ≡ any p xs
unfolding update_first
any-update p q f [] h = refl
any-update p q f (y ∷ ys) h = elim (Bool-cases (q y)) [
  | inl u ↦ ground (arith, h y u)
  | inr u ↦ ground (arith, any-update p q f ys h)
]

pub any-append_lem {ℓ} :
    {A : Type ℓ} (p : A → Bool) (xs ys : List A) → any p (xs ++ ys) ≡ (any p xs || any p ys)
any-append_lem p [] ys = refl
any-append_lem p (x ∷ xs) ys = ground (arith, any-append_lem p xs ys)

-- Where no element passes a test, `find` for a narrower one returns none.
pub find_narrow {ℓ} :
    {A : Type ℓ} (p q : A → Bool)
    → ((x : A) → p x ≡ true → q x ≡ true)
    → (xs : List A) → length (filter q xs) ≡ 0
    → find p xs ≡ none
find_narrow p q h [] e = refl
find_narrow p q h (x ∷ xs) e = elim (Bool-cases (q x)) [
  | inl u ↦ absurd (ground arith)
  | inr u ↦ elim (Bool-cases (p x)) [
    | inl t ↦ absurd (ground (arith, h x t))
    | inr t ↦ ground (arith, find_narrow p q h xs (ground arith))
  ]
]

pub find-append {ℓ} :
    {A : Type ℓ} (p : A → Bool) (xs ys : List A) (x : A)
    → find p xs ≡ some x
    → find p (xs ++ ys) ≡ some x
find-append p [] ys x e = cc
find-append p (y ∷ xs) ys x e = elim (Bool-cases (p y)) [
  | inl q ↦ ground arith
  | inr q ↦ ground (arith, find-append p xs ys x (rw q at e))
]

pub find-append_none {ℓ} :
    {A : Type ℓ} (p : A → Bool) (xs ys : List A) → find p xs ≡ none → find p (xs ++ ys) ≡ find p ys
find-append_none p [] ys e = refl
find-append_none p (y ∷ xs) ys e = elim (Bool-cases (p y)) [
  | inl q ↦ let s : some y ≡ none = rw q at e in cc
  | inr q ↦ ground (arith, find-append_none p xs ys (rw q at e))
]

-- A change that a test and an attribute do not see keeps the attribute of what `find` returns.
pub find-update_attribute {ℓ κ} :
    {A : Type ℓ} {B : Type κ} (p q : A → Bool) (f : A → A) (g : A → B)
    → ((x : A) → p (f x) ≡ p x)
    → ((x : A) → g (f x) ≡ g x)
    → (xs : List A) (x : A) → find p xs ≡ some x
    → (y : A) × (find p (update_first q f xs) ≡ some y) × (g y ≡ g x)
unfolding update_first
find-update_attribute p q f g hp hg [] x e = cc
find-update_attribute p q f g hp hg (z ∷ xs) x e = elim (Bool-cases (p z)) [
  | inl t ↦ elim (Bool-cases (q z)) [
    | inl u ↦ (f z, ground (arith, hp z), ground (arith, hg z))
    | inr u ↦ (z, ground arith, ground arith)
  ]
  | inr t ↦ elim (Bool-cases (q z)) [
    | inl u ↦ (x, ground (arith, hp z), refl)
    | inr u ↦
        let (y, found, same) = find-update_attribute p q f g hp hg xs x (rw t at e) in
        (y, ground (arith, found), same)
  ]
]

pub find-update_found {ℓ} :
    {A : Type ℓ} (p : A → Bool) (f : A → A) (xs : List A) (x : A)
    → find p xs ≡ some x
    → p (f x) ≡ true
    → find p (update_first p f xs) ≡ some (f x)
unfolding update_first
find-update_found p f [] x e t = cc
find-update_found p f (y ∷ ys) x e t = elim (Bool-cases (p y)) [
  | inl q ↦
      let s : some y ≡ some x = rw q at e in
      let same : y ≡ x = ground arith in
      let u : p (f y) ≡ true = subst (λ z. p (f z) ≡ true) (sym same) t in
      ground (arith, q, u, ap f same)
  | inr q ↦ ground (arith, q, find-update_found p f ys x (rw q at e) t)
]

-- What `find` returns after a change that its test does not see: what it returned, changed or not.
pub find-update_either {ℓ} :
    {A : Type ℓ} (p q : A → Bool) (f : A → A) (xs : List A) (x : A)
    → ((x : A) → p (f x) ≡ p x)
    → find p xs ≡ some x
    → (y : A) × (find p (update_first q f xs) ≡ some y) × ((y ≡ x) ⊎ (y ≡ f x))
unfolding update_first
find-update_either p q f [] x h e = cc
find-update_either p q f (z ∷ xs) x h e = elim (Bool-cases (p z)) [
  | inl t ↦
      let s : some z ≡ some x = rw t at e in
      let same : z ≡ x = ground arith in
      elim (Bool-cases (q z)) [
        | inl u ↦ (f z, ground (arith, h z, t, u), inr (ap f same))
        | inr u ↦ (z, ground (arith, t, u), inl same)
      ]
  | inr t ↦ elim (Bool-cases (q z)) [
    | inl u ↦ (x, ground (arith, h z, t, u), inl refl)
    | inr u ↦
        let (y, found, same) = find-update_either p q f xs x h (rw t at e) in
        (y, ground (arith, found, t, u), same)
  ]
]
