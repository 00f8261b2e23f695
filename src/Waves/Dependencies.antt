-- ===== src/Waves/Dependencies.antt =====
-- The waves of execution-waves.ts keep the order of the dependencies and keep apart what conflicts.
use mathlib.Core.List.{append_assoc, append-nil}
use mathlib.Core.List.Memᴰ
use ai_dev_harness.Shared.{
  ◌≡◌, ◌⊎◌, ◌∙◌, sym, ap, subst, true, not, List, [], ◌∷◌, ◌++◌, Memᴰ, filter, All, All-map,
  All-mem, Text, text_eq, text_eq_iff, Bool-cases, inl, inr, arith,
}
use ai_dev_harness.Waves.{is_empty}
use ai_dev_harness.Waves.Schedule.{Entry, ExecutionWave, ready_keys, complete, complete_all}
use ai_dev_harness.Waves.Rounds.{ready-mem, mem-filter_back}

-- The keys of the waves, in order.
abbrev pub keys_of : List ExecutionWave → List Text
keys_of [] = []
keys_of (w ∷ ws) = w.issue_keys ++ keys_of ws

pub keys_of-append :
    (ws : List ExecutionWave) (w : ExecutionWave)
    → keys_of (ws ++ w ∷ []) ≡ keys_of ws ++ w.issue_keys
keys_of-append [] w = append-nil w.issue_keys
keys_of-append (v ∷ ws) w =
    ap (λ ks. v.issue_keys ++ ks) (keys_of-append ws w)
    ∙ sym (append_assoc v.issue_keys (keys_of ws) w.issue_keys)

pub none_in : (ds : List Text) (d : Text) → is_empty ds ≡ true → Memᴰ d ds → ⊥
none_in [] d h m = elim m [ ]
none_in (x ∷ xs) d h m = ground (arith, h)

module _ (start : List Entry) where
  -- All that the key waited for at the start is done.
  abbrev pub Grounded : List Text → Text → Type 0
  Grounded done key = (waits : List Text) × Memᴰ (key, waits) start × All (λ d. Memᴰ d done) waits

  -- Every key of a wave is grounded on the waves before it.
  abbrev pub Arranged : List Text → List ExecutionWave → Type 0
  Arranged done [] = Unit
  Arranged done (w ∷ ws) = All (Grounded done) w.issue_keys × Arranged (done ++ w.issue_keys) ws

  pub Arranged-append :
      (done : List Text) (ws : List ExecutionWave) (w : ExecutionWave)
      → Arranged done ws
      → All (Grounded (done ++ keys_of ws)) w.issue_keys
      → Arranged done (ws ++ w ∷ [])
  Arranged-append done [] w a g =
      (subst (λ ks. All (Grounded ks) w.issue_keys) (append-nil done) g, tt)
  Arranged-append done (v ∷ ws) w a g = (
    a.0,
    Arranged-append (done ++ v.issue_keys) ws w a.1 (
        subst (λ ks. All (Grounded ks) w.issue_keys)
          (sym (append_assoc done v.issue_keys (keys_of ws))) g),
  )

  -- What an entry waited for at the start, it waits for still or it is done.
  abbrev pub IsWaiting : List Text → Entry → Type 0
  IsWaiting done e =
      (waits : List Text) × Memᴰ (e.0, waits) start × All (λ d. Memᴰ d e.1 ⊎ Memᴰ d done) waits

  pub later-IsWaiting :
      (done more : List Text) (e : Entry) → IsWaiting done e → IsWaiting (done ++ more) e
  later-IsWaiting done more e (waits, m, h) = (
    waits,
    m,
    All-map (λ d. Memᴰ d e.1 ⊎ Memᴰ d done) (λ d. Memᴰ d e.1 ⊎ Memᴰ d (done ++ more))
        (λ d k. elim k [ inl i ↦ inl i | inr i ↦ inr (Memᴰ.append_left more i) ]) waits h,
  )

  complete-IsWaiting :
      (done : List Text) (key : Text) (remaining : List Entry)
      → Memᴰ key done
      → All (IsWaiting done) remaining
      → All (IsWaiting done) (complete key remaining)
  unfolding complete
  complete-IsWaiting done key [] m h = tt
  complete-IsWaiting done key (e ∷ rest) m h = elim (Bool-cases (text_eq e.0 key)) [
    | inl q ↦ rw q (complete-IsWaiting done key rest m h.1)
    | inr q ↦
        let (waits, i, k) = h.0 in
        rw q (
          (
            waits,
            i,
            All-map (λ d. Memᴰ d e.1 ⊎ Memᴰ d done)
                (λ d. Memᴰ d (filter (λ d. not (text_eq d key)) e.1) ⊎ Memᴰ d done)
                (λ d c. elim c [
                  | inr j ↦ inr j
                  | inl j ↦ elim (Bool-cases (text_eq d key)) [
                    | inl t ↦ inr (subst (λ z. Memᴰ z done) (sym ((text_eq_iff d key).0 t)) m)
                    | inr t ↦
                        inl (mem-filter_back (λ d. not (text_eq d key)) e.1 d j (ground (arith, t)))
                  ]
                ])
                waits k,
          ),
          complete-IsWaiting done key rest m h.1,
        )
  ]

  pub complete_all-IsWaiting :
      (done keys : List Text) (remaining : List Entry)
      → All (λ k. Memᴰ k done) keys
      → All (IsWaiting done) remaining
      → All (IsWaiting done) (complete_all keys remaining)
  unfolding complete_all
  complete_all-IsWaiting done [] remaining m h = h
  complete_all-IsWaiting done (k ∷ ks) remaining m h =
      complete_all-IsWaiting done ks (complete k remaining) m.1
        (complete-IsWaiting done k remaining m.0 h)

  -- A ready key is grounded.
  pub ready-Grounded :
      (done : List Text) (remaining : List Entry) (key : Text)
      → All (IsWaiting done) remaining
      → Memᴰ key (ready_keys remaining)
      → Grounded done key
  ready-Grounded done remaining key h m =
      let (e, i, same, idle) = ready-mem remaining key m in
      let (waits, j, k) = All-mem (IsWaiting done) remaining e h i in
      (
        waits,
        subst (λ z. Memᴰ (z, waits) start) same j,
        All-map (λ d. Memᴰ d e.1 ⊎ Memᴰ d done) (λ d. Memᴰ d done)
            (λ d c. elim c [ inl n ↦ absurd (none_in e.1 d idle n) | inr n ↦ n ]) waits k,
      )
