-- ===== src/Waves/Entries.antt =====
-- The map that `scheduleExecutionWaves` starts from: an entry for each key, with the known dependencies.
use ai_dev_harness.Shared.{
  ◌≡◌, ◌⊎◌, refl, sym, ap, subst, Bool, true, List, [], ◌∷◌, map, mem-map_lem, mem-map_image, Memᴰ,
  filter, All, All-mem, All-of_mem, sort-All, sort-mem, sort_by, Text, text_eq, text_eq_iff,
  text_mem, text_mem_iff, distinct_from, distinct, Bool-cases, inl, inr, arith,
}
use ai_dev_harness.Waves.{SchedulableIssue}
use ai_dev_harness.Waves.Schedule.{Entry, set_entry, new_map, known_keys, entry_of, first_remaining}
use ai_dev_harness.Waves.Rounds.{mem-filter, mem-filter_back}
use ai_dev_harness.Waves.Acyclic.{left_keys}

mem-distinct_of : (seen xs : List Text) (d : Text) → Memᴰ d (distinct_from seen xs) → Memᴰ d xs
unfolding distinct_from
mem-distinct_of seen [] d m = elim m [ ]
mem-distinct_of seen (x ∷ xs) d m = elim (Bool-cases (text_mem x seen)) [
  | inl q ↦ Memᴰ.tail (mem-distinct_of seen xs d (rw (distinct_from, q) at m))
  | inr q ↦
      let n : Memᴰ d (x ∷ distinct_from (x ∷ seen) xs) = rw (distinct_from, q) at m in
      elim n [
        | Memᴰ.head e ↦ Memᴰ.head e
        | Memᴰ.tail k ↦ Memᴰ.tail (mem-distinct_of (x ∷ seen) xs d k)
      ]
]

mem-distinct_seen :
    (seen xs : List Text) (d : Text)
    → Memᴰ d xs
    → (text_mem d seen ≡ true) ⊎ Memᴰ d (distinct_from seen xs)
unfolding distinct_from
mem-distinct_seen seen [] d m = elim m [ ]
mem-distinct_seen seen (x ∷ xs) d m = elim (Bool-cases (text_mem x seen)) [
  | inl q ↦ elim m [
    | Memᴰ.head e ↦ inl (subst (λ z. text_mem z seen ≡ true) (sym e) q)
    | Memᴰ.tail k ↦ rw (distinct_from, q) (mem-distinct_seen seen xs d k)
  ]
  | inr q ↦
      rw (distinct_from, q)
        (elim m [
          | Memᴰ.head e ↦ inr (Memᴰ.head e)
          | Memᴰ.tail k ↦ elim (Bool-cases (text_eq x d)) [
            | inl t ↦ inr (Memᴰ.head (sym ((text_eq_iff x d).0 t)))
            | inr t ↦ elim (mem-distinct_seen (x ∷ seen) xs d k) [
              | inl u ↦ inl (ground (arith, t, u))
              | inr i ↦ inr (Memᴰ.tail i)
            ]
          ]
        ])
]

mem-distinct : (xs : List Text) (d : Text) → Memᴰ d xs → Memᴰ d (distinct xs)
mem-distinct xs d m = elim (mem-distinct_seen [] xs d m) [
  | inl h ↦ absurd (ground (arith, h))
  | inr k ↦ k
]

-- An entry of the map is one of those that were set.
set-All :
    (P : Entry → Type 0) (e : Entry) (made : List Entry)
    → P e
    → All P made
    → All P (set_entry e made)
unfolding set_entry
set-All P e [] p h = (p, tt)
set-All P e (f ∷ rest) p h = elim (Bool-cases (text_eq f.0 e.0)) [
  | inl q ↦
      let here : P (f.0, e.1) = subst (λ z. P (z, e.1)) (sym ((text_eq_iff f.0 e.0).0 q)) p in
      rw (set_entry, q) (here, h.1)
  | inr q ↦ rw (set_entry, q) (h.0, set-All P e rest p h.1)
]

new_map-All :
    (P : Entry → Type 0) (made es : List Entry) → All P es → All P made → All P (new_map made es)
unfolding new_map
new_map-All P made [] h k = k
new_map-All P made (e ∷ es) h k = new_map-All P (set_entry e made) es h.1 (set-All P e made h.0 k)

set-key : (e : Entry) (made : List Entry) → Memᴰ e.0 (left_keys (set_entry e made))
unfolding set_entry
set-key e [] = Memᴰ.head refl
set-key e (f ∷ rest) = elim (Bool-cases (text_eq f.0 e.0)) [
  | inl q ↦ rw (set_entry, q) (Memᴰ.head (sym ((text_eq_iff f.0 e.0).0 q)))
  | inr q ↦ rw (set_entry, q) (Memᴰ.tail (set-key e rest))
]

set-key_kept :
    (e : Entry) (made : List Entry) (k : Text)
    → Memᴰ k (left_keys made)
    → Memᴰ k (left_keys (set_entry e made))
unfolding set_entry
set-key_kept e [] k m = elim m [ ]
set-key_kept e (f ∷ rest) k m = elim (Bool-cases (text_eq f.0 e.0)) [
  | inl q ↦ rw (set_entry, q) (elim m [ Memᴰ.head t ↦ Memᴰ.head t | Memᴰ.tail i ↦ Memᴰ.tail i ])
  | inr q ↦
      rw (set_entry, q)
        (elim m [ Memᴰ.head t ↦ Memᴰ.head t | Memᴰ.tail i ↦ Memᴰ.tail (set-key_kept e rest k i) ])
]

new_map-key_kept :
    (made es : List Entry) (k : Text)
    → Memᴰ k (left_keys made)
    → Memᴰ k (left_keys (new_map made es))
unfolding new_map
new_map-key_kept made [] k m = m
new_map-key_kept made (e ∷ es) k m =
    new_map-key_kept (set_entry e made) es k (set-key_kept e made k m)

new_map-key :
    (made es : List Entry) (e : Entry) → Memᴰ e es → Memᴰ e.0 (left_keys (new_map made es))
unfolding new_map
new_map-key made [] e m = elim m [ ]
new_map-key made (f ∷ es) e m = elim m [
  | Memᴰ.head same ↦ new_map-key_kept (set_entry f made) es e.0 (
      subst (λ z. Memᴰ z (left_keys (set_entry f made))) (ap (λ (x : Entry). x.0) (sym same))
        (set-key f made))
  | Memᴰ.tail k ↦ new_map-key (set_entry f made) es e k
]

module _ (le : SchedulableIssue → SchedulableIssue → Bool) (issues : List SchedulableIssue) where
  pub sort-mem_of : (i : SchedulableIssue) → Memᴰ i (sort_by le issues) → Memᴰ i issues
  sort-mem_of i m =
      All-mem (λ i. Memᴰ i issues) (sort_by le issues) i
        (sort-All le (λ i. Memᴰ i issues) issues (All-of_mem issues (λ i k. k))) m

  pub known-sort :
      (d : Text) → Memᴰ d (known_keys issues) → text_mem d (known_keys (sort_by le issues)) ≡ true
  known-sort d m =
      let (i, k, same) = mem-map_lem (λ (i : SchedulableIssue). i.key) issues d m in
      (text_mem_iff d (known_keys (sort_by le issues))).1 (
        subst (λ z. Memᴰ z (known_keys (sort_by le issues))) same
          (mem-map_image (λ (i : SchedulableIssue). i.key) (sort_by le issues) i
            (sort-mem le i issues k)))

-- An entry of the first map belongs to one of the Issues.
pub first-entry :
    (sorted : List SchedulableIssue) (e : Entry)
    → Memᴰ e (first_remaining sorted)
    → (i : SchedulableIssue) × Memᴰ i sorted × (entry_of (known_keys sorted) i ≡ e)
unfolding first_remaining
first-entry sorted e m =
    let es = map (entry_of (known_keys sorted)) sorted in
    mem-map_lem (entry_of (known_keys sorted)) sorted e (
      All-mem (λ e. Memᴰ e es) (new_map [] es) e
        (new_map-All (λ e. Memᴰ e es) [] es (All-of_mem es (λ e k. k)) tt) m)

pub first-key :
    (sorted : List SchedulableIssue) (i : SchedulableIssue)
    → Memᴰ i sorted
    → Memᴰ i.key (left_keys (first_remaining sorted))
unfolding first_remaining
first-key sorted i m =
    let es = map (entry_of (known_keys sorted)) sorted in
    new_map-key [] es (entry_of (known_keys sorted) i)
      (mem-map_image (entry_of (known_keys sorted)) sorted i m)

-- What an entry waits for are the known dependencies.
pub entry-waits :
    (known : List Text) (i : SchedulableIssue) (d : Text)
    → Memᴰ d i.dependency_candidates
    → text_mem d known ≡ true
    → Memᴰ d (entry_of known i).1
entry-waits known i d m t =
    mem-distinct (filter (λ d. text_mem d known) i.dependency_candidates) d
      (mem-filter_back (λ d. text_mem d known) i.dependency_candidates d m t)

pub waits-entry :
    (known : List Text) (i : SchedulableIssue) (d : Text)
    → Memᴰ d (entry_of known i).1
    → Memᴰ d i.dependency_candidates × (text_mem d known ≡ true)
waits-entry known i d m =
    mem-filter (λ d. text_mem d known) i.dependency_candidates d
      (mem-distinct_of [] (filter (λ d. text_mem d known) i.dependency_candidates) d m)
