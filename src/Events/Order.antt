-- ===== src/Events/Order.antt =====
-- `ingest` of memory-execution-event-repository.ts, on any arrivals of the events of any runs.
use ai_dev_harness.Shared.{
  suc, ◌+◌, ◌≤◌, ◌≡◌, ◌≢◌, ◌∙◌, refl, sym, subst, true, false, none, some, List, [], ◌∷◌, ◌++◌, map,
  find, find-update_same, find-update_other, find-none_All, length, length-filter, any,
  any-append_lem, All-map, All-append, update_first, text_eq, text_eq_iff, Text, Bool-cases, inl,
  inr, arith,
}
use ai_dev_harness.Events.{AutoDevRunEvent, ExecutionRunProjection}
use ai_dev_harness.Events.Ingest.{
  Store, InboxRecord, pending, applied, gap, terminal_ignored, Drained, drain, is_open, about,
  is_next, is_waiting_for, has_external, put_run, filed,
}
use ai_dev_harness.Events.Replay.{drain_ends}
use ai_dev_harness.Events.History.{IsHistory, IsPast, IsAdvanced, drain-IsAdvanced}
use ai_dev_harness.Events.Keeping.{IsPlaced, IsUpToDate, IsHistory-grow}

-- The run with the external identity `x` is up to date with the inbox.
pub record IsCurrent (x : Text) (first : ExecutionRunProjection) (s : Store) : Type 0 where
  pub run : ExecutionRunProjection
  pub found : find (has_external x) s.runs ≡ some run
  pub up_to_date : IsUpToDate x first run s.inbox

-- What the loop of an event that is next leaves.
abbrev pub drained_from : ExecutionRunProjection → Store → AutoDevRunEvent → Text → Drained
drained_from run s e digest =
    let inbox = s.inbox ++ filed e digest pending ∷ [] in
    drain (length inbox)
      (record { run = run; inbox = inbox; outbox = s.outbox; disposition = applied })

abbrev pub flagged : Drained → ExecutionRunProjection
flagged d = record d.run { reconciliation_required = any (is_waiting_for d.run) d.inbox }

module _ (x : Text) (first : ExecutionRunProjection) where
  pub put_same :
      (runs : List ExecutionRunProjection) (old run : ExecutionRunProjection)
      → run.external_run_id ≡ x
      → find (has_external x) runs ≡ some old
      → find (has_external x) (put_run run runs) ≡ some run
  unfolding update_first
  put_same runs old run own found =
      subst (λ y. find (has_external x) (update_first (has_external y) (λ _. run) runs) ≡ some run)
        (sym own)
        (find-update_same (has_external x) run runs old ((text_eq_iff run.external_run_id x).1 own)
          found)

  pub put_other :
      (runs : List ExecutionRunProjection) (run : ExecutionRunProjection)
      → x ≢ run.external_run_id
      → find (has_external x) (put_run run runs) ≡ find (has_external x) runs
  unfolding update_first
  put_other runs run ne =
      find-update_other (has_external x) (has_external run.external_run_id) run runs
        (λ r h. elim (Bool-cases (has_external x r)) [
          | inr q ↦ q
          | inl q ↦ absurd (
              ne (
                sym ((text_eq_iff r.external_run_id x).0 q)
                ∙ (text_eq_iff r.external_run_id run.external_run_id).0 h))
        ])
        (elim (Bool-cases (has_external x run)) [
          | inr q ↦ q
          | inl q ↦ absurd (ne (sym ((text_eq_iff run.external_run_id x).0 q)))
        ])

  -- A gap: the event waits, and the run is marked.
  pub gap-IsUpToDate :
      (run : ExecutionRunProjection) (inbox : List InboxRecord) (e : AutoDevRunEvent)
      (digest : Text)
      → e.external_run_id ≡ x
      → suc (run.last_event_sequence + 1) ≤ e.sequence
      → IsUpToDate x first run inbox
      → IsUpToDate x first
          (record run { reconciliation_required = true })
          (inbox ++ filed e digest gap ∷ [])
  gap-IsUpToDate run inbox e digest own far u =
      let h = IsHistory-grow x first run inbox (filed e digest gap) u.history in
      record {
        external = u.external;
        history = record {
          events = h.events;
          consecutive = h.consecutive;
          last = h.last;
          mine = h.mine;
          from_inbox = h.from_inbox;
          replayed = h.replayed;
        };
        past =
            All-append (IsPast x run.last_event_sequence) inbox (filed e digest gap ∷ []) u.past
              (λ p closed. absurd (ground (arith, closed)), tt);
        placed =
            All-append (IsPlaced x run.last_event_sequence) inbox (filed e digest gap ∷ []) u.placed
              (λ p open' same. omega (arith, far, same), tt);
        flag =
            let mine : text_eq e.external_run_id run.external_run_id ≡ true =
              (text_eq_iff e.external_run_id run.external_run_id).1 (own ∙ sym u.external) in
            ground (
              arith,
              mine,
              far,
              any-append_lem (is_waiting_for run) inbox (filed e digest gap ∷ []),
            );
      }

  -- An event that comes too late.
  pub late-IsUpToDate :
      (run : ExecutionRunProjection) (inbox : List InboxRecord) (e : AutoDevRunEvent)
      (digest : Text)
      → e.sequence ≤ run.last_event_sequence
      → IsUpToDate x first run inbox
      → IsUpToDate x first run (inbox ++ filed e digest terminal_ignored ∷ [])
  late-IsUpToDate run inbox e digest late u = record {
    external = u.external;
    history = IsHistory-grow x first run inbox (filed e digest terminal_ignored) u.history;
    past =
        All-append (IsPast x run.last_event_sequence) inbox (filed e digest terminal_ignored ∷ [])
          u.past (λ p closed. late, tt);
    placed =
        All-append (IsPlaced x run.last_event_sequence) inbox (filed e digest terminal_ignored ∷ [])
          u.placed (λ p open'. absurd (ground (arith, open')), tt);
    flag = ground (
      arith,
      u.flag,
      any-append_lem (is_waiting_for run) inbox (filed e digest terminal_ignored ∷ []),
    );
  }

  pub next-IsUpToDate :
      (run : ExecutionRunProjection) (s : Store) (e : AutoDevRunEvent) (digest : Text)
      → IsUpToDate x first run s.inbox
      → IsUpToDate x first
          (flagged (drained_from run s e digest))
          (drained_from run s e digest).inbox
  next-IsUpToDate run s e digest u =
      let inbox = s.inbox ++ filed e digest pending ∷ [] in
      let start : Drained = record {
        run = run;
        inbox = inbox;
        outbox = s.outbox;
        disposition = applied;
      } in
      let d = drained_from run s e digest in
      let a : IsAdvanced x first (map (λ r. r.event) inbox) d =
        drain-IsAdvanced x first (map (λ r. r.event) inbox) (length inbox) start (record {
          external = u.external;
          kept = refl;
          history = IsHistory-grow x first run s.inbox (filed e digest pending) u.history;
          past =
              All-append (IsPast x run.last_event_sequence) s.inbox (filed e digest pending ∷ [])
                u.past (λ p closed. absurd (ground (arith, closed)), tt);
        }) in
      let ends : find (is_next d.run) d.inbox ≡ none =
        drain_ends (length inbox) start (length-filter (λ r. is_open r.processing_status) inbox) in
      record {
        external = a.external;
        history =
            let h = subst (λ es. IsHistory x first es d.run) (sym a.kept) a.history in
            record {
              events = h.events;
              consecutive = h.consecutive;
              last = h.last;
              mine = h.mine;
              from_inbox = h.from_inbox;
              replayed = h.replayed;
            };
        past = a.past;
        placed =
            All-map (λ r. is_next d.run r ≡ false) (IsPlaced x d.run.last_event_sequence)
              (λ r no_next p open' same.
                let mine : about d.run.external_run_id r ≡ true =
                  subst (λ z. about z r ≡ true) (sym a.external) p in
                absurd (ground (arith, no_next, mine, open', same)))
              d.inbox (find-none_All (is_next d.run) d.inbox ends);
        flag = refl;
      }
