-- ===== src/Events/Keeping.antt =====
-- What memory-execution-event-repository.ts knows of a run, and that the events of other runs leave it.
use mathlib.Core.List.{map-append}
use mathlib.Core.List.Memᴰ
use ai_dev_harness.Shared.{
  ℕ, zero, suc, ◌+◌, ◌≡◌, ◌≢◌, ◌∙◌, refl, sym, ap, subst, true, false, List, [], ◌∷◌, ◌++◌, map,
  Memᴰ, find, any, any-append_lem, any-update, All, All-map, All-append, map-update, update_first,
  update-All_passing, text_eq_iff, Text, Bool-cases, Option-cases, inl, inr, arith,
}
use ai_dev_harness.Events.{ExecutionRunProjection}
use ai_dev_harness.Events.Ingest.{
  InboxRecord, ProcessingStatus, Drained, drain, round, is_open, about, is_next, is_waiting_for,
  close, taken,
}
use ai_dev_harness.Events.Replay.{advance-run, advance_run-external, drain-none, drain-some}
use ai_dev_harness.Events.History.{IsHistory, IsPast}

-- No open record of the run is the next one.
abbrev pub IsPlaced : Text → ℕ → InboxRecord → Type 0
IsPlaced x last r =
    about x r ≡ true → is_open r.processing_status ≡ true → r.event.sequence ≢ last + 1

-- The projection of a run is as far as the inbox allows, and says whether a gap is left.
pub record IsUpToDate (x : Text) (first run : ExecutionRunProjection) (inbox : List InboxRecord)
    : Type 0 where
  pub external : run.external_run_id ≡ x
  pub history : IsHistory x first (map (λ r. r.event) inbox) run
  pub past : All (IsPast x run.last_event_sequence) inbox
  pub placed : All (IsPlaced x run.last_event_sequence) inbox
  pub flag : run.reconciliation_required ≡ any (is_waiting_for run) inbox

pub IsHistory-grow :
    (x : Text) (first run : ExecutionRunProjection) (inbox : List InboxRecord) (r : InboxRecord)
    → IsHistory x first (map (λ r. r.event) inbox) run
    → IsHistory x first (map (λ r. r.event) (inbox ++ r ∷ [])) run
IsHistory-grow x first run inbox r h = record {
  events = h.events;
  consecutive = h.consecutive;
  last = h.last;
  mine = h.mine;
  from_inbox =
      All-map (λ e. Memᴰ e (map (λ r. r.event) inbox))
        (λ e. Memᴰ e (map (λ r. r.event) (inbox ++ r ∷ [])))
        (λ e m.
          subst (Memᴰ e) (sym (map-append (λ (r : InboxRecord). r.event) inbox (r ∷ [])))
            (Memᴰ.append_left (r.event ∷ []) m))
        h.events h.from_inbox;
  replayed = h.replayed;
}

-- A record of another run changes nothing.
pub append-IsUpToDate :
    (x : Text) (first run : ExecutionRunProjection) (inbox : List InboxRecord) (r : InboxRecord)
    → IsUpToDate x first run inbox
    → about x r ≡ false
    → IsUpToDate x first run (inbox ++ r ∷ [])
append-IsUpToDate x first run inbox r u foreign = record {
  external = u.external;
  history = IsHistory-grow x first run inbox r u.history;
  past =
      All-append (IsPast x run.last_event_sequence) inbox (r ∷ []) u.past
        (λ own. absurd (ground (arith, own, foreign)), tt);
  placed =
      All-append (IsPlaced x run.last_event_sequence) inbox (r ∷ []) u.placed
        (λ own. absurd (ground (arith, own, foreign)), tt);
  flag =
      let other : about run.external_run_id r ≡ false =
        subst (λ z. about z r ≡ false) (sym u.external) foreign in
      ground (arith, u.flag, any-append_lem (is_waiting_for run) inbox (r ∷ []));
}

foreign_record : (x y : Text) (r : InboxRecord) → x ≢ y → about y r ≡ true → about x r ≡ false
foreign_record x y r ne h = elim (Bool-cases (about x r)) [
  | inr q ↦ q
  | inl q ↦ absurd (
      ne (
        sym ((text_eq_iff r.event.external_run_id x).0 q)
        ∙ (text_eq_iff r.event.external_run_id y).0 h))
]

close-IsUpToDate :
    (x y : Text) (first run other : ExecutionRunProjection) (status : ProcessingStatus)
    (inbox : List InboxRecord)
    → x ≢ y
    → other.external_run_id ≡ y
    → IsUpToDate x first run inbox
    → IsUpToDate x first run (update_first (is_next other) (close status) inbox)
close-IsUpToDate x y first run other status inbox ne own u =
    let foreign : (r : InboxRecord) → is_next other r ≡ true → about x r ≡ false =
      λ r h. foreign_record x y r ne (subst (λ z. about z r ≡ true) own (ground arith)) in
    record {
      external = u.external;
      history =
          subst (λ es. IsHistory x first es run)
            (sym (map-update (λ r. r.event) (is_next other) (close status) (λ r. refl) inbox))
            u.history;
      past =
          update-All_passing (IsPast x run.last_event_sequence) (is_next other) (close status)
            (λ r t p mine. absurd (ground (arith, foreign r t, mine))) inbox u.past;
      placed =
          update-All_passing (IsPlaced x run.last_event_sequence) (is_next other) (close status)
            (λ r t p mine. absurd (ground (arith, foreign r t, mine))) inbox u.placed;
      flag =
          u.flag
          ∙ sym (
              any-update (is_waiting_for run) (is_next other) (close status) inbox (λ r t.
                let mine : about run.external_run_id r ≡ false =
                  subst (λ z. about z r ≡ false) (sym u.external) (foreign r t) in
                ground (arith, mine)));
    }

round_external :
    (d : Drained) (next : InboxRecord) → (round d next).run.external_run_id ≡ d.run.external_run_id
unfolding round
round_external d next =
    ap (λ r. r.external_run_id) (advance-run next.event d.run d.outbox)
    ∙ (advance_run-external next.event d.run).0

round-IsUpToDate :
    (x y : Text) (first run : ExecutionRunProjection) (d : Drained) (next : InboxRecord)
    → x ≢ y
    → d.run.external_run_id ≡ y
    → IsUpToDate x first run d.inbox
    → IsUpToDate x first run (round d next).inbox
unfolding round
round-IsUpToDate x y first run d next ne own u =
    close-IsUpToDate x y first run d.run (taken d.run) d.inbox ne own u

pub drain_external :
    (y : Text) (fuel : ℕ) (d : Drained)
    → d.run.external_run_id ≡ y
    → (drain fuel d).run.external_run_id ≡ y
unfolding drain
drain_external y zero d own = own
drain_external y (suc fuel) d own = elim (Option-cases (find (is_next d.run) d.inbox)) [
  | inl q ↦ ap (λ (d : Drained). d.run.external_run_id) (drain-none fuel d q) ∙ own
  | inr (next, q) ↦
      ap (λ (d : Drained). d.run.external_run_id) (drain-some fuel d next q)
      ∙ drain_external y fuel (round d next) (round_external d next ∙ own)
]

-- The loop for a run leaves what is known of another.
pub drain-IsUpToDate :
    (x y : Text) (first run : ExecutionRunProjection) (fuel : ℕ) (d : Drained)
    → x ≢ y
    → d.run.external_run_id ≡ y
    → IsUpToDate x first run d.inbox
    → IsUpToDate x first run (drain fuel d).inbox
unfolding drain
drain-IsUpToDate x y first run zero d ne own u = u
drain-IsUpToDate x y first run (suc fuel) d ne own u =
    elim (Option-cases (find (is_next d.run) d.inbox)) [
      | inl q ↦
          subst (λ (d : Drained). IsUpToDate x first run d.inbox) (sym (drain-none fuel d q)) u
      | inr (next, q) ↦
          subst (λ (d : Drained). IsUpToDate x first run d.inbox) (sym (drain-some fuel d next q))
            (drain-IsUpToDate x y first run fuel (round d next) ne (round_external d next ∙ own)
              (round-IsUpToDate x y first run d next ne own u))
    ]
