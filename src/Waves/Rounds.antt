-- ===== src/Waves/Rounds.antt =====
-- One round of `scheduleExecutionWaves`: the keys that are ready, those that are selected of them, and
-- what is left of the map.
use ai_dev_harness.Shared.{
  ◌≡◌, ◌∙◌, refl, sym, ap, subst, Bool, true, false, not, List, [], ◌∷◌, ◌++◌, map, mem-map_lem,
  mem-map_image, Memᴰ, all, filter, All, All-append, All-of_mem, All-mem, sort-All, sort-mem, Text,
  unit_le, sort_by, Bool-cases, inl, inr, arith,
}
use ai_dev_harness.Waves.{is_empty}
use ai_dev_harness.Waves.Schedule.{Entry, ready_keys, select_from, or_first, wave_keys}

pub mem-filter {ℓ} :
    {A : Type ℓ} (p : A → Bool) (xs : List A) (x : A)
    → Memᴰ x (filter p xs)
    → Memᴰ x xs × (p x ≡ true)
mem-filter p [] x m = elim m [ ]
mem-filter p (y ∷ ys) x m = elim (Bool-cases (p y)) [
  | inr q ↦ let (k, t) = mem-filter p ys x (rw q at m) in (Memᴰ.tail k, t)
  | inl q ↦
      let n : Memᴰ x (y ∷ filter p ys) = rw q at m in
      elim n [
        | Memᴰ.head e ↦ (Memᴰ.head e, subst (λ z. p z ≡ true) (sym e) q)
        | Memᴰ.tail k ↦ let (i, t) = mem-filter p ys x k in (Memᴰ.tail i, t)
      ]
]

pub mem-filter_back {ℓ} :
    {A : Type ℓ} (p : A → Bool) (xs : List A) (x : A)
    → Memᴰ x xs
    → p x ≡ true
    → Memᴰ x (filter p xs)
mem-filter_back p [] x m t = elim m [ ]
mem-filter_back p (y ∷ ys) x m t = elim (Bool-cases (p y)) [
  | inl q ↦
      rw q (elim m [
        | Memᴰ.head e ↦ Memᴰ.head e
        | Memᴰ.tail k ↦ Memᴰ.tail (mem-filter_back p ys x k t)
      ])
  | inr q ↦ rw q (elim m [
    | Memᴰ.head e ↦
        absurd (let u : p y ≡ true = subst (λ z. p z ≡ true) e t in ground (arith, u, q))
    | Memᴰ.tail k ↦ mem-filter_back p ys x k t
  ])
]

-- A key is ready if its entry waits for nothing.
pub ready-mem :
    (remaining : List Entry) (key : Text)
    → Memᴰ key (ready_keys remaining)
    → (e : Entry) × Memᴰ e remaining × (e.0 ≡ key) × (is_empty e.1 ≡ true)
unfolding ready_keys
ready-mem remaining key m =
    let idle = filter (λ (e : Entry). is_empty e.1) remaining in
    let unsorted : Memᴰ key (map (λ e. e.0) idle) =
      All-mem (λ k. Memᴰ k (map (λ e. e.0) idle)) (sort_by unit_le (map (λ e. e.0) idle)) key
        (sort-All unit_le (λ k. Memᴰ k (map (λ e. e.0) idle)) (map (λ e. e.0) idle)
          (All-of_mem (map (λ e. e.0) idle) (λ x h. h)))
        m in
    let (e, k, same) = mem-map_lem (λ (e : Entry). e.0) idle key unsorted in
    let (i, t) = mem-filter (λ (e : Entry). is_empty e.1) remaining e k in (e, i, same, t)

pub mem-ready :
    (remaining : List Entry) (e : Entry)
    → Memᴰ e remaining
    → is_empty e.1 ≡ true
    → Memᴰ e.0 (ready_keys remaining)
unfolding ready_keys
mem-ready remaining e m t =
    let idle = filter (λ (e : Entry). is_empty e.1) remaining in
    sort-mem unit_le e.0 (map (λ e. e.0) idle) (
      mem-map_image (λ (e : Entry). e.0) idle e
        (mem-filter_back (λ (e : Entry). is_empty e.1) remaining e m t))

module _ (conflicting : Text → Text → Bool) where
  -- No key of the list conflicts with one behind it.
  abbrev pub Apart : List Text → Type 0
  Apart [] = Unit
  Apart (k ∷ ks) = All (λ l. conflicting k l ≡ false) ks × Apart ks

  Apart-append :
      (ks : List Text) (key : Text)
      → Apart ks
      → all (λ prior. not (conflicting prior key)) ks ≡ true
      → Apart (ks ++ key ∷ [])
  Apart-append [] key a h = (tt, tt)
  Apart-append (k ∷ ks) key a h = (
    All-append (λ l. conflicting k l ≡ false) ks (key ∷ []) a.0 (ground arith, tt),
    Apart-append ks key a.1 (ground arith),
  )

  select-Apart :
      (selected keys : List Text) → Apart selected → Apart (select_from conflicting selected keys)
  unfolding select_from
  select-Apart selected [] a = a
  select-Apart selected (k ∷ ks) a =
      elim (Bool-cases (all (λ prior. not (conflicting prior k)) selected)) [
        | inl q ↦ rw q (select-Apart (selected ++ k ∷ []) ks (Apart-append selected k a q))
        | inr q ↦ rw q (select-Apart selected ks a)
      ]

  select-All :
      (P : Text → Type 0) (selected keys : List Text)
      → All P selected
      → All P keys
      → All P (select_from conflicting selected keys)
  unfolding select_from
  select-All P selected [] a h = a
  select-All P selected (k ∷ ks) a h =
      elim (Bool-cases (all (λ prior. not (conflicting prior k)) selected)) [
        | inl q ↦
            rw q (
              select-All P (selected ++ k ∷ []) ks (All-append P selected (k ∷ []) a (h.0, tt)) h.1)
        | inr q ↦ rw q (select-All P selected ks a h.1)
      ]

  select-grows :
      (selected keys : List Text)
      → is_empty selected ≡ false
      → is_empty (select_from conflicting selected keys) ≡ false
  unfolding select_from
  select-grows selected [] h = h
  select-grows (s ∷ selected) (k ∷ ks) h =
      elim (Bool-cases (all (λ prior. not (conflicting prior k)) (s ∷ selected))) [
        | inl q ↦ rw q (select-grows (s ∷ (selected ++ k ∷ [])) ks refl)
        | inr q ↦ rw q (select-grows (s ∷ selected) ks refl)
      ]
  select-grows [] (k ∷ ks) h = absurd (ground (arith, h))

  -- The first key is selected, so `ready[0]` is never pushed.
  wave_keys-select :
      (remaining : List Entry)
      → wave_keys conflicting remaining ≡ select_from conflicting [] (ready_keys remaining)
  unfolding wave_keys select_from
  wave_keys-select remaining = lem (ready_keys remaining)
    where
      or_first-full : (ks ready : List Text) → is_empty ks ≡ false → or_first ks ready ≡ ks
      or_first-full [] ready h = absurd (ground (arith, h))
      or_first-full (k ∷ ks) ready h = refl

      lem :
          (ready : List Text)
          → or_first (select_from conflicting [] ready) ready ≡ select_from conflicting [] ready
      lem [] = refl
      lem (k ∷ ks) =
          or_first-full (select_from conflicting (k ∷ []) ks) (k ∷ ks)
            (select-grows (k ∷ []) ks refl)

  pub wave-Apart : (remaining : List Entry) → Apart (wave_keys conflicting remaining)
  wave-Apart remaining =
      subst Apart (sym (wave_keys-select remaining)) (select-Apart [] (ready_keys remaining) tt)

  pub wave-mem :
      (remaining : List Entry)
      → All (λ k. Memᴰ k (ready_keys remaining)) (wave_keys conflicting remaining)
  wave-mem remaining =
      subst (λ ks. All (λ k. Memᴰ k (ready_keys remaining)) ks) (sym (wave_keys-select remaining))
        (select-All (λ k. Memᴰ k (ready_keys remaining)) [] (ready_keys remaining) tt
          (All-of_mem (ready_keys remaining) (λ k m. m)))

  select-first :
      (ready : List Text)
      → is_empty ready ≡ false
      → is_empty (select_from conflicting [] ready) ≡ false
  unfolding select_from
  select-first [] h = h
  select-first (k ∷ ks) h = select-grows (k ∷ []) ks refl

  pub wave-some :
      (remaining : List Entry)
      → is_empty (ready_keys remaining) ≡ false
      → is_empty (wave_keys conflicting remaining) ≡ false
  wave-some remaining h =
      ap is_empty (wave_keys-select remaining) ∙ select-first (ready_keys remaining) h
