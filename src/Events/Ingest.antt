-- ===== src/Events/Ingest.antt =====
-- prototype/web-ui/app/control-plane/adapters/memory-execution-event-repository.ts: `ingest`, which takes
-- an event into the inbox and then every event whose turn has come.
use ai_dev_harness.Shared.{
  ℕ, zero, suc, ◌+◌, Bool, true, false, not, ◌&&◌, ◌||◌, Option, none, some, List, [], ◌∷◌, ◌++◌,
  ◌==◌, ltb, leb, any, find, length, text_eq, Text, update_first, if◌then◌else◌,
}
use ai_dev_harness.Events.{
  AutoDevRunEvent, ObservabilityContext, ExecutionRunProjection, OutboxEntry, is_finished, advance,
}

pub data ProcessingStatus : Type 0 where
  pending applied gap terminal_ignored : ProcessingStatus

pub record InboxRecord : Type 0 where
  pub event : AutoDevRunEvent
  pub digest : Text
  pub processing_status : ProcessingStatus

pub record Store : Type 0 where
  pub runs : List ExecutionRunProjection
  pub inbox : List InboxRecord
  pub outbox : List OutboxEntry

pub data EventIngestResult : Type 0 where
  accepted : (disposition : ProcessingStatus) (run : ExecutionRunProjection) → EventIngestResult
  duplicate run_not_found identity_mismatch : EventIngestResult
  conflict : (existing_digest : Text) → EventIngestResult

-- `["pending", "gap"].includes(processingStatus)`
abbrev pub is_open : ProcessingStatus → Bool
is_open pending = true
is_open gap = true
is_open _ = false

abbrev pub is_gap : ProcessingStatus → Bool
is_gap gap = true
is_gap _ = false

abbrev pub about : Text → InboxRecord → Bool
about external_run_id r = text_eq r.event.external_run_id external_run_id

-- What the loop looks for.
abbrev pub is_next : ExecutionRunProjection → InboxRecord → Bool
is_next run r =
    about run.external_run_id r
    && r.event.sequence == run.last_event_sequence + 1
    && is_open r.processing_status

abbrev pub close : ProcessingStatus → InboxRecord → InboxRecord
close status r = record r { processing_status = status }

-- What is assigned to the record of an event that was taken, by the status that the run had.
abbrev pub taken : ExecutionRunProjection → ProcessingStatus
taken run = if is_finished run.status then terminal_ignored else applied

pub record Drained : Type 0 where
  pub run : ExecutionRunProjection
  pub inbox : List InboxRecord
  pub outbox : List OutboxEntry
  pub disposition : ProcessingStatus

-- The body of the loop `for (;;)`, for the record that is next.
unfoldable pub round : Drained → InboxRecord → Drained
unfolding update_first advance
round d next =
    let (run, outbox) = advance next.event (d.run, d.outbox) in
    record {
      run = run;
      inbox = update_first (is_next d.run) (close (taken d.run)) d.inbox;
      outbox = outbox;
      disposition = taken d.run;
    }

-- The loop, with fuel for its rounds.
unfoldable pub drain : (fuel : ℕ) → Drained → Drained
unfolding round
drain zero d = d
drain (suc fuel) d = elim (find (is_next d.run) d.inbox) [
  | none ↦ d
  | some next ↦ drain fuel (round d next)
]

abbrev pub same_option : Option Text → Text → Bool
same_option none t = false
same_option (some s) t = text_eq s t

-- `run.issueId !== undefined && observed.issueId !== run.issueId`
abbrev pub differs_from : Option Text → Option Text → Bool
differs_from observed none = false
differs_from observed (some issue_id) = not (same_option observed issue_id)

abbrev pub is_mismatch : Option ObservabilityContext → ExecutionRunProjection → Bool
is_mismatch none run = false
is_mismatch (some observed) run =
    not (same_option observed.run_id run.id)
    || not (same_option observed.goal_id run.goal_id)
    || differs_from observed.issue_id run.issue_id

-- `this.inbox.some(…)` at the end: a gap beyond the last event.
abbrev pub is_waiting_for : ExecutionRunProjection → InboxRecord → Bool
is_waiting_for run r =
    about run.external_run_id r
    && is_gap r.processing_status
    && ltb run.last_event_sequence r.event.sequence

abbrev pub has_source : Text → InboxRecord → Bool
has_source source_event_id r = text_eq r.event.source_event_id source_event_id

abbrev pub has_external : Text → ExecutionRunProjection → Bool
has_external external_run_id run = text_eq run.external_run_id external_run_id

abbrev pub put_run :
    ExecutionRunProjection → List ExecutionRunProjection → List ExecutionRunProjection
unfolding update_first
put_run run = update_first (has_external run.external_run_id) (λ _. run)

abbrev pub filed : AutoDevRunEvent → Text → ProcessingStatus → InboxRecord
filed event digest status = record { event = event; digest = digest; processing_status = status }

-- From `this.inbox.push(record)` on: the event is of the run.
unfoldable pub take_in :
    Store → ExecutionRunProjection → AutoDevRunEvent → (digest : Text) → Store × EventIngestResult
unfolding drain
take_in s run event digest =
    if ltb (run.last_event_sequence + 1) event.sequence
    then (let waiting = record run { reconciliation_required = true } in
        (
          record s {
            runs = put_run waiting s.runs;
            inbox = s.inbox ++ filed event digest gap ∷ [];
          },
          accepted gap waiting,
        ))
    else if leb event.sequence run.last_event_sequence
    then (
      record s { inbox = s.inbox ++ filed event digest terminal_ignored ∷ [] },
      accepted terminal_ignored run,
    )
    else (let inbox = s.inbox ++ filed event digest pending ∷ [] in
        let d =
          drain (length inbox)
            (record { run = run; inbox = inbox; outbox = s.outbox; disposition = applied }) in
        let done = record d.run { reconciliation_required = any (is_waiting_for d.run) d.inbox } in
        (
          record { runs = put_run done s.runs; inbox = d.inbox; outbox = d.outbox },
          accepted d.disposition done,
        ))

unfoldable pub ingest : Store → AutoDevRunEvent → (digest : Text) → Store × EventIngestResult
unfolding take_in
ingest s event digest = elim (find (has_source event.source_event_id) s.inbox) [
  | some existing ↦
      (s, (if text_eq existing.digest digest then duplicate else conflict existing.digest))
  | none ↦ elim (find (has_external event.external_run_id) s.runs) [
    | none ↦ (s, run_not_found)
    | some run ↦
        if not (text_eq run.external_task_id event.external_task_id)
          || is_mismatch event.observability run
        then (s, identity_mismatch)
        else take_in s run event digest
  ]
]
