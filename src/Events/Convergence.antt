-- ===== src/Events/Convergence.antt =====
-- `ingest` of memory-execution-event-repository.ts over the arrivals of events: what a run becomes, and
-- that it does not depend on the order in which its events arrive.
use ai_dev_harness.Shared.{
  ℕ, suc, ◌+◌, ◌≤◌, ◌≡◌, ◌∙◌, refl, sym, ap, subst, true, false, Option, none, some, List, [], ◌∷◌,
  map, Memᴰ, mem-map_lem, find, length, All, All-mem, Text, Bool-cases, inl, inr, ltb, text_eq_iff,
  arith,
}
use ai_dev_harness.Events.{AutoDevRunEvent, ExecutionRunProjection}
use ai_dev_harness.Events.Ingest.{Store, InboxRecord, has_external, is_open, about, ingest}
use ai_dev_harness.Events.Replay.{plain, Consecutive, replay}
use ai_dev_harness.Events.History.{IsPast}
use ai_dev_harness.Events.Keeping.{IsPlaced, IsUpToDate}
use ai_dev_harness.Events.Order.{IsCurrent}
use ai_dev_harness.Events.Arrivals.{ingest-IsCurrent}

unfoldable pub ingest_all : List (AutoDevRunEvent × Text) → Store → Store
ingest_all [] s = s
ingest_all ((e, digest) ∷ arrivals) s = ingest_all arrivals (ingest s e digest).0

abbrev pub inbox_events : Store → List AutoDevRunEvent
inbox_events s = map (λ r. r.event) s.inbox

grows-IsCurrent :
    (x : Text) (first : ExecutionRunProjection) (arrivals : List (AutoDevRunEvent × Text))
    (s : Store)
    → IsCurrent x first s
    → IsCurrent x first (ingest_all arrivals s)
unfolding ingest_all
grows-IsCurrent x first [] s c = c
grows-IsCurrent x first ((e, digest) ∷ arrivals) s c =
    grows-IsCurrent x first arrivals (ingest s e digest).0 (ingest-IsCurrent x first s e digest c)

start-IsCurrent :
    (x : Text) (first : ExecutionRunProjection) (s : Store)
    → s.inbox ≡ []
    → find (has_external x) s.runs ≡ some first
    → first.external_run_id ≡ x
    → first.reconciliation_required ≡ false
    → IsCurrent x first s
unfolding replay
start-IsCurrent x first s empty found own quiet = record {
  run = first;
  found = found;
  up_to_date = subst (IsUpToDate x first first) (sym empty) (record {
    external = own;
    history = record {
      events = [];
      consecutive = tt;
      last = omega arith;
      mine = tt;
      from_inbox = tt;
      replayed = refl;
    };
    past = tt;
    placed = tt;
    flag = quiet;
  });
}

-- However the events of all runs arrive, from an empty inbox and a run that is not marked: the
-- projection of the run is what the events of the inbox, taken in the order of their sequences
-- without a gap, make of the first projection; no event that is next is left open, none beyond the
-- last was taken, and the run is marked exactly if an event waits behind a gap.
pub ingest_all-IsCurrent :
    (x : Text) (first : ExecutionRunProjection) (arrivals : List (AutoDevRunEvent × Text))
    (s : Store)
    → s.inbox ≡ []
    → find (has_external x) s.runs ≡ some first
    → first.external_run_id ≡ x
    → first.reconciliation_required ≡ false
    → IsCurrent x first (ingest_all arrivals s)
ingest_all-IsCurrent x first arrivals s empty found own quiet =
    grows-IsCurrent x first arrivals s (start-IsCurrent x first s empty found own quiet)

-- Consecutive events have one of each sequence in their range.
at_sequence :
    (n k : ℕ) (es : List AutoDevRunEvent)
    → Consecutive n es
    → suc n ≤ k
    → k ≤ n + length es
    → (e : AutoDevRunEvent) × Memᴰ e es × (e.sequence ≡ k)
at_sequence n k [] c low high = absurd (omega (arith, low, high))
at_sequence n k (e ∷ es) c low high = elim (Bool-cases (ltb (n + 1) k)) [
  | inr q ↦ let turn : k ≡ n + 1 = ground arith in (e, Memᴰ.head refl, c.0 ∙ sym turn)
  | inl q ↦
      let (d, m, t) = at_sequence (n + 1) k es c.1 (ground arith) (omega (arith, high)) in
      (d, Memᴰ.tail m, t)
]

same_events :
    (n : ℕ) (es ds : List AutoDevRunEvent)
    → Consecutive n es
    → Consecutive n ds
    → length es ≡ length ds
    → ((e d : AutoDevRunEvent) → Memᴰ e es → Memᴰ d ds → e.sequence ≡ d.sequence → e ≡ d)
    → es ≡ ds
same_events n [] [] c k len same = refl
same_events n [] (d ∷ ds) c k len same = absurd (omega (arith, len))
same_events n (e ∷ es) [] c k len same = absurd (omega (arith, len))
same_events n (e ∷ es) (d ∷ ds) c k len same =
    let head : e ≡ d = same e d (Memᴰ.head refl) (Memᴰ.head refl) (c.0 ∙ sym k.0) in
    let tail : es ≡ ds =
      same_events (n + 1) es ds c.1 k.1 (omega (arith, len))
        (λ a b m l. same a b (Memᴰ.tail m) (Memᴰ.tail l)) in
    cc

-- The inbox of `t` has the events of the run that are in `s`.
abbrev pub Covers : Text → Store → Store → Type 0
Covers x t s = All (λ e. e.external_run_id ≡ x → Memᴰ e (inbox_events t)) (inbox_events s)

-- No two events of the run in the inbox have one sequence.
abbrev pub OneEach : Text → Store → Type 0
OneEach x s =
    All
      (λ e.
        All (λ d. e.external_run_id ≡ x → d.external_run_id ≡ x → e.sequence ≡ d.sequence → e ≡ d)
          (inbox_events s))
      (inbox_events s)

module _ (x : Text) (first : ExecutionRunProjection) where
  no_further :
      (s t : Store) (c : IsCurrent x first s) (d : IsCurrent x first t)
      → Covers x t s
      → c.run.last_event_sequence ≤ d.run.last_event_sequence
  no_further s t c d covers =
      elim (Bool-cases (ltb d.run.last_event_sequence c.run.last_event_sequence)) [
        | inr q ↦ ground arith
        | inl q ↦
            let h = c.up_to_date.history in
            let g = d.up_to_date.history in
            let far : suc d.run.last_event_sequence ≤ c.run.last_event_sequence = ground arith in
            let (e, m, k) =
              at_sequence first.last_event_sequence (d.run.last_event_sequence + 1) h.events
                h.consecutive (omega (arith, g.last)) (omega (arith, far, h.last)) in
            let own = All-mem (λ e. e.external_run_id ≡ x) h.events e h.mine m in
            let in_s = All-mem (λ e. Memᴰ e (inbox_events s)) h.events e h.from_inbox m in
            let in_t =
              All-mem (λ e. e.external_run_id ≡ x → Memᴰ e (inbox_events t)) (inbox_events s) e
                covers in_s own in
            let (r, held, same) = mem-map_lem (λ (r : InboxRecord). r.event) t.inbox e in_t in
            let turn : r.event.sequence ≡ d.run.last_event_sequence + 1 =
              ap (λ e. e.sequence) same ∙ k in
            let mine : about x r ≡ true =
              (text_eq_iff r.event.external_run_id x).1 (ap (λ e. e.external_run_id) same ∙ own) in
            elim (Bool-cases (is_open r.processing_status)) [
              | inl open' ↦ absurd (
                  All-mem (IsPlaced x d.run.last_event_sequence) t.inbox r d.up_to_date.placed held
                    mine open' turn)
              | inr closed ↦
                  let p =
                    All-mem (IsPast x d.run.last_event_sequence) t.inbox r d.up_to_date.past held
                      mine closed in
                  absurd (omega (arith, p, turn))
            ]
      ]

  agree :
      (s t : Store) (c : IsCurrent x first s) (d : IsCurrent x first t)
      → Covers x t s
      → Covers x s t
      → OneEach x s
      → plain c.run ≡ plain d.run
  agree s t c d to_t to_s one =
      let h = c.up_to_date.history in
      let g = d.up_to_date.history in
      let low = no_further s t c d to_t in
      let high = no_further t s d c to_s in
      let events : h.events ≡ g.events =
        same_events first.last_event_sequence h.events g.events h.consecutive g.consecutive
          (omega (arith, low, high, h.last, g.last))
          (λ e f m l same.
            let own = All-mem (λ e. e.external_run_id ≡ x) h.events e h.mine m in
            let own' = All-mem (λ e. e.external_run_id ≡ x) g.events f g.mine l in
            let in_s = All-mem (λ e. Memᴰ e (inbox_events s)) h.events e h.from_inbox m in
            let in_t = All-mem (λ e. Memᴰ e (inbox_events t)) g.events f g.from_inbox l in
            let in_s' =
              All-mem (λ e. e.external_run_id ≡ x → Memᴰ e (inbox_events s)) (inbox_events t) f to_s
                in_t own' in
            All-mem
              (λ d. e.external_run_id ≡ x → d.external_run_id ≡ x → e.sequence ≡ d.sequence → e ≡ d)
              (inbox_events s) f
              (All-mem
                (λ e.
                  All
                    (λ d.
                      e.external_run_id ≡ x
                      → d.external_run_id ≡ x
                      → e.sequence ≡ d.sequence
                      → e ≡ d)
                    (inbox_events s))
                (inbox_events s) e one in_s)
              in_s' own own' same) in
      h.replayed ∙ ap (λ es. replay es (plain first)) events ∙ sym g.replayed

-- What a store says of the run, its flag aside.
abbrev pub projection : Option ExecutionRunProjection → Option ExecutionRunProjection
projection none = none
projection (some run) = some (plain run)

-- Two ways in which events of any runs arrive, from an empty inbox, make the same projection of a
-- run, its flag aside, if both inboxes hold the same events of the run at the end and no two of
-- these have one sequence: order and repetition do not matter.
pub order_independent :
    (x : Text) (first : ExecutionRunProjection)
    (some_way another_way : List (AutoDevRunEvent × Text)) (s : Store)
    → s.inbox ≡ []
    → find (has_external x) s.runs ≡ some first
    → first.external_run_id ≡ x
    → first.reconciliation_required ≡ false
    → Covers x (ingest_all another_way s) (ingest_all some_way s)
    → Covers x (ingest_all some_way s) (ingest_all another_way s)
    → OneEach x (ingest_all some_way s)
    → projection (find (has_external x) (ingest_all some_way s).runs)
      ≡ projection (find (has_external x) (ingest_all another_way s).runs)
order_independent x first a b s empty found own quiet to_b to_a one =
    let c = ingest_all-IsCurrent x first a s empty found own quiet in
    let d = ingest_all-IsCurrent x first b s empty found own quiet in
    ap projection c.found
    ∙ ap some (agree x first (ingest_all a s) (ingest_all b s) c d to_b to_a one)
    ∙ sym (ap projection d.found)
