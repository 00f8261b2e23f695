-- ===== src/Events/Tests.antt =====
-- Events of one run, in order and out of order.
use ai_dev_harness.Shared.{
  ℕ, ◌≡◌, refl, true, false, none, some, List, [], ◌∷◌, Memᴰ, find, Text, lit, text_eq,
  update_first, if◌then◌else◌, arith,
}
use ai_dev_harness.StateMachine.Run
use ai_dev_harness.StateMachine.Run.{RunStatus, RunStatus-discrete}
use ai_dev_harness.StateMachine.{Guards}
use ai_dev_harness.Events.{AutoDevRunEvent, ExecutionRunProjection, advance, mapped_status}
use ai_dev_harness.Events.Ingest.{
  Store, gap, applied, pending, Drained, drain, round, is_next, take_in, ingest, filed,
  has_external, accepted, duplicate, conflict,
}
use ai_dev_harness.Events.Replay.{drain_ends}
use ai_dev_harness.Events.Order.{IsCurrent}
use ai_dev_harness.Events.Convergence.{
  ingest_all, ingest_all-IsCurrent, Covers, OneEach, projection, order_independent,
}
use ai_dev_harness.Events.Statuses.{Climb, statuses-Climb}
use ai_dev_harness.Events.Replies.{Replied, ingest-Replied, redelivered}

abbrev first_run : ExecutionRunProjection
first_run = record {
  id = lit "run-1";
  organization_id = lit "org";
  project_id = lit "project";
  goal_id = lit "goal";
  issue_id = none;
  external_run_id = lit "external-1";
  external_task_id = lit "task-1";
  status = Run.queued;
  phase = lit "queued";
  version = 1;
  last_event_sequence = 0;
  reconciliation_required = false;
}

abbrev reported : Text → ℕ → Text → AutoDevRunEvent
reported source sequence status = record {
  source_event_id = source;
  external_run_id = lit "external-1";
  external_task_id = lit "task-1";
  sequence = sequence;
  occurred_at = lit "2026-01-01T00:00:00Z";
  phase = lit "builder";
  status = status;
  message = [];
  observability = none;
}

abbrev started : AutoDevRunEvent
started = reported (lit "event-1") 1 (lit "Running")

abbrev done : AutoDevRunEvent
done = reported (lit "event-2") 2 (lit "done")

abbrev store : Store
store = record { runs = first_run ∷ []; inbox = []; outbox = [] }

abbrev in_order : List (AutoDevRunEvent × Text)
in_order = (started, lit "digest-1") ∷ (done, lit "digest-2") ∷ []

-- The second event first, and once more at the end.
abbrev out_of_order : List (AutoDevRunEvent × Text)
out_of_order = (done, lit "digest-2") ∷ (started, lit "digest-1") ∷ (done, lit "digest-2") ∷ []

abbrev final_run : ExecutionRunProjection
final_run = record first_run {
  status = Run.succeeded;
  phase = lit "builder";
  version = 3;
  last_event_sequence = 2;
}

out_of_order_lem :
    find (has_external (lit "external-1")) (ingest_all out_of_order store).runs ≡ some final_run
unfolding ingest_all ingest take_in drain round advance mapped_status text_eq update_first
    RunStatus-discrete
out_of_order_lem = refl

found_lem : find (has_external (lit "external-1")) store.runs ≡ some first_run
unfolding text_eq
found_lem = refl

there_lem : Covers (lit "external-1") (ingest_all out_of_order store) (ingest_all in_order store)
unfolding ingest_all ingest take_in drain round advance mapped_status text_eq update_first
    RunStatus-discrete
there_lem = (λ _. Memᴰ.tail (Memᴰ.head refl), (λ _. Memᴰ.head refl, tt))

back_lem : Covers (lit "external-1") (ingest_all in_order store) (ingest_all out_of_order store)
unfolding ingest_all ingest take_in drain round advance mapped_status text_eq update_first
    RunStatus-discrete
back_lem = (λ _. Memᴰ.tail (Memᴰ.head refl), (λ _. Memᴰ.head refl, tt))

one_each_lem : OneEach (lit "external-1") (ingest_all in_order store)
unfolding ingest_all ingest take_in drain round advance mapped_status text_eq update_first
    RunStatus-discrete
one_each_lem = (
  (λ _ _ _. refl, (λ _ _ h. absurd (omega (arith, h)), tt)),
  ((λ _ _ h. absurd (omega (arith, h)), (λ _ _ _. refl, tt)), tt),
)

order_independent_example :
    projection (find (has_external (lit "external-1")) (ingest_all in_order store).runs)
    ≡ projection (find (has_external (lit "external-1")) (ingest_all out_of_order store).runs)
order_independent_example =
    order_independent (lit "external-1") first_run in_order out_of_order store refl found_lem refl
      refl there_lem back_lem one_each_lem

ingest_all-IsCurrent_example :
    IsCurrent (lit "external-1") first_run (ingest_all out_of_order store)
ingest_all-IsCurrent_example =
    ingest_all-IsCurrent (lit "external-1") first_run out_of_order store refl found_lem refl refl

ingest-Replied_example :
    Replied
      (ingest store started (lit "digest-1")).0
      started
      (lit "digest-9")
      (ingest (ingest store started (lit "digest-1")).0 started (lit "digest-9"))
ingest-Replied_example =
    ingest-Replied (ingest store started (lit "digest-1")).0 started (lit "digest-9")

accepted_lem :
    (ingest store done (lit "digest-2")).1
    ≡ accepted gap (record first_run { reconciliation_required = true })
unfolding ingest take_in text_eq
accepted_lem = refl

redelivered_example :
    ingest
      (ingest_all ((started, lit "digest-1") ∷ []) (ingest store done (lit "digest-2")).0)
      done
      (lit "digest-2")
    ≡ (
      ingest_all ((started, lit "digest-1") ∷ []) (ingest store done (lit "digest-2")).0,
      (if text_eq (lit "digest-2") (lit "digest-2") then duplicate else conflict (lit "digest-2")),
    )
redelivered_example =
    redelivered store done done (lit "digest-2") (lit "digest-2") gap
      (record first_run { reconciliation_required = true }) ((started, lit "digest-1") ∷ [])
      accepted_lem refl

abbrev to_drain : Drained
to_drain = record {
  run = first_run;
  inbox = filed done (lit "digest-2") gap ∷ filed started (lit "digest-1") pending ∷ [];
  outbox = [];
  disposition = applied;
}

drain_ends_example : find (is_next (drain 2 to_drain).run) (drain 2 to_drain).inbox ≡ none
drain_ends_example = drain_ends 2 to_drain (omega arith)

abbrev all_held : Guards
all_held = λ _. some true

statuses-Climb_example : Climb all_held Run.queued 1 Run.succeeded 3
statuses-Climb_example =
    statuses-Climb all_held refl refl (lit "external-1") first_run final_run out_of_order store refl
      found_lem refl refl out_of_order_lem
