-- ===== src/Lib.antt =====
-- ai-dev-harness: a verification library of the control plane of the web prototype, in
-- prototype/web-ui/app. The harness takes a Goal from a draft to verified completion, runs its
-- Issues on execution nodes, and lets a version out to production once a Canary and a list of
-- gates have passed and an owner has signed. The parts, and the files that model them:
--
-- StateMachine, prototype/web-ui/app/control-plane/domain/state-machines.ts: `transitionState` as
--   `transition_state`, on a machine that is a value with its terminal states and its edges.
--   StateMachine/Goal, Issue, Run and SpecRevision hold the four tables, each with its diagram as
--   a relation in Diagram; Laws has what does not depend on the table, Goal/Traces the sequences
--   of attempts on a Goal.
--
-- Release, prototype/web-ui/app/release-center/domain.ts, constants.ts beside it, and the two
--   gates in prototype/web-ui/app/reliability: Release/Fields has the field checks.
--   Release/Canary has the aggregate with `create_canary`, `approve_canary` and `restart_canary`,
--   Canary/Observe the recording of windows, events and resolved alerts, Canary/Finalize
--   `finalize_canary`, which builds the report and calls the gate, Canary/Progress the view
--   `canary_progress`. Release/CanaryGate is p12-canary-gate.ts, with the second half in
--   CanaryGate/Report. Release/ProductionGate is p12-production-release-gate.ts,
--   Release/Production creates a production release and records its gates, and Production/Signing
--   evaluates and signs it, which calls that gate, and the gate validates the Canary report
--   again. Canary/Reach and Production/Reach have the operations as steps. Release/Center is the
--   Canary half of memory-repository.ts and Center/Service that of service.ts beside domain.ts:
--   the commands that call the operations and store what they return; Center/Lives and Center/Once
--   follow any number of them. Release/Sample has the inputs of the tests.
--
-- Auth, prototype/web-ui/app/auth: Auth/Policy is rbac-policy.ts; Auth/Bindings is
--   role-binding-service.ts on the table of postgres-role-binding-repository.ts, whose rows are
--   written out, and so are its two unique indexes, of prototype/web-ui/db/postgres-schema.ts: a
--   row that one of them, or the key, refuses throws the error of the database. The service asks
--   the policy with the rows that the table holds. Bindings/Authority says who may assign,
--   Bindings/Escalation has the commands as steps.
--
-- Scheduler, prototype/web-ui/app/control-plane: the records of ports/scheduler-repository.ts;
--   Scheduler/Repository and Scheduler/Jobs are adapters/memory-scheduler-repository.ts,
--   Scheduler/Supervisor is application/scheduler-supervisor.ts, which calls them in a tick.
--   Scheduler/Leases has the calls of the repository as steps, Scheduler/Tick relates a tick to
--   them, and Scheduler/Reconciliation says what its first half makes of the jobs, with
--   Scheduler/Settled for one job.
--
-- Events, prototype/web-ui/app/control-plane: ports/execution-event-repository.ts and
--   adapters/memory-execution-event-repository.ts. Events itself has the data and what one event
--   does to a run, Events/Ingest the inbox and `ingest`. Replay, History, Keeping, Order, Arrivals
--   and Convergence follow a run from one event to any number of them; Replies has the replies of
--   `ingest`, with Accepted for the events that it accepts and Knowing for what the inbox keeps;
--   Statuses compares the statuses with the Run machine of StateMachine.
--
-- Waves, prototype/web-ui/app/control-plane/domain/execution-waves.ts, with the resources of
--   issue-plan.ts beside it: `conflictFor` and `analyzeIssueConflicts` in Waves itself,
--   `scheduleExecutionWaves` in Waves/Schedule, with `finished_waves` for its loop. Overlap, with
--   Emptiness for its lists, says when two Issues conflict, Rounds and Ending are about one round
--   and the end of the loop, Dependencies, Course and Acyclic about what holds between rounds,
--   Entries about the map that the loop starts from, Plan and Conflicts about the plan.
--
-- Control, prototype/web-ui/app/control-plane: ports/execution-control-port.ts and the dispatch
--   decision of application/execution-control-service.ts in Control itself, its service `execute`
--   in Control/Service, on adapters/memory-execution-control-repository.ts in Control/Repository.
--
-- Router, prototype/web-ui/app/control-plane/domain/model-router.ts, with the Issue of issue-plan.ts
--   beside it: the factors of an Issue, its score, the recommended route; Router/Override
--   what is done with a recommendation.
--
-- Shared has what the parts share: results for code that throws, texts as lists of UTF-16 units
-- and their order, lists measured by native numbers, lists and maps that change in place, sorting,
-- equality tests as an interface.
--
-- Numbers are natural numbers: times are milliseconds since the epoch, and the ISO texts that the
-- source stores are the numbers that they denote. Where a text arrives, what `new Date(...)`
-- reads from it is a parameter. So are the SHA-256 digest of a report or of a command, the order of
-- `localeCompare`, `toLowerCase` in execution-waves.ts, who is authorized to control the execution
-- and what the execution gateway answers; identities that are drawn at random are arguments. Most
-- loops are structural recursion. The numerals of an attempt and of a wave have fuel, the number
-- and one, which is more than its digits; the loop of `ingest` has a round for each record of the
-- inbox and that over the waves one for each Issue, which are enough, since each round closes a
-- record or takes an Issue.
--
-- Not modelled: the other parts of control-plane (goal classification, recovery, delivery, compilation
-- of Issues, verification, projections), their SQL and HTTP adapters, the commands of the release
-- centre on a production release, the sessions of auth, observability, and the user
-- interface. Of the modelled files, telemetry, the logs that tests read, the reader
-- `listActorActive` and the texts of errors are left out; error values keep what tells them
-- apart.
pub mod Auth
pub mod Control
pub mod Events
pub mod Release
pub mod Router
pub mod Scheduler
pub mod Shared
pub mod StateMachine
pub mod Waves
