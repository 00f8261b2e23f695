-- ===== src/Release/Canary/Observe.antt =====
-- The observation of a Canary: `recordCanaryWindow`, `recordCanaryEvent` and `resolveCanaryAlert`.
use ai_dev_harness.Shared.{
  ℕ, ◌+◌, Bool, true, false, not, ◌&&◌, ◌||◌, Option, none, some, List, [], ◌∷◌, ◌++◌, ◌==◌, leb,
  ltb, any, filter, length, last?, text_eq, Text, lit, trim, ok, err, ◌>>=◌, ◌>>◌, throw_if,
  if◌then◌else◌,
}
use ai_dev_harness.Release.Fields.{
  Number, whole, other, Checked, refused, not_observing, bad_sequence, bad_window, future_window,
  bad_window_status, duplicate_event, outside_observation, bad_severity, alert_not_found, hour_ms,
  required, id, evidence_refs, count, iso,
}
use ai_dev_harness.Release.CanaryGate.{
  WindowStatus, healthy, unhealthy, Severity, p0, p1, p2, p3, is_healthy,
}
use ai_dev_harness.Release.CanaryGate.Report.{is_severe}
use ai_dev_harness.Release.Canary.{
  CanaryStatus, observing, stopped, CanaryWindow, CanaryEvent, EventKind, defect, alert,
  intervention, CanaryAggregate, is_observing,
}

-- A window as it arrives.
pub record NewWindow : Type 0 where
  pub sequence : Number
  pub started_at : Text
  pub ended_at : Text
  pub status : Text
  pub p0_count : Number
  pub p1_count : Number
  pub evidence_refs : List Text

-- `value.windows.filter((window) => window.attempt === value.attempt)`
abbrev pub windows_of : CanaryAggregate → List CanaryWindow
windows_of value = filter (λ w. w.attempt == value.attempt) value.windows

-- `value.status !== "observing" || !value.startedAt`, and the start otherwise
abbrev pub observation_start : CanaryAggregate → Checked ℕ
observation_start value =
    if is_observing value.status
    then (elim value.started_at [ none ↦ err (refused not_observing) | some t ↦ ok t ])
    else err (refused not_observing)

abbrev pub numbered : Number → ℕ → Bool
numbered (whole n) k = n == k
numbered other k = false

abbrev pub window_status : Text → Checked WindowStatus
window_status s =
    if text_eq s (lit "healthy")
    then ok healthy
    else if text_eq s (lit "unhealthy")
    then ok unhealthy
    else err (refused bad_window_status)

-- `current.at(-1)?.endedAt ?? value.startedAt`
abbrev pub expected_start : List CanaryWindow → ℕ → ℕ
expected_start current started = elim (last? current) [ none ↦ started | some w ↦ w.ended_at ]

abbrev pub status_after : Bool → CanaryStatus
status_after true = stopped
status_after false = observing

abbrev some_if : Bool → ℕ → Option ℕ
some_if true t = some t
some_if false t = none

-- The aggregate with the window appended.
abbrev pub with_window : CanaryAggregate → CanaryWindow → ℕ → CanaryAggregate
with_window value w now =
    let stop = not (is_healthy w.status) || ltb 0 w.p0_count || ltb 0 w.p1_count in
    record value {
      windows = value.windows ++ w ∷ [];
      status = status_after stop;
      ended_at = some_if stop w.ended_at;
      version = value.version + 1;
      updated_at = now;
    }

-- An event as it arrives: the severities are still texts.
pub data NewEventKind : Type 0 where
  new_defect : (severity : Text) → (status : Text) → (workaround : Option Text) → NewEventKind
  new_alert : (severity : Text) → (resolved : Bool) → NewEventKind
  new_intervention : (reason : Text) → NewEventKind

pub record NewEvent : Type 0 where
  pub id : Text
  pub observed_at : Text
  pub owner_id : Text
  pub evidence_refs : List Text
  pub kind : NewEventKind

abbrev severity_of : Text → Checked Severity
severity_of s =
    if text_eq s (lit "P0")
    then ok p0
    else if text_eq s (lit "P1")
    then ok p1
    else if text_eq s (lit "P2")
    then ok p2
    else if text_eq s (lit "P3")
    then ok p3
    else err (refused bad_severity)

abbrev pub is_p2 : Severity → Bool
is_p2 p2 = true
is_p2 _ = false

abbrev pub or_empty : Option Text → Text
or_empty none = []
or_empty (some s) = s

-- `...(workaround ? { workaround } : {})`
abbrev if_truthy : Text → Option Text
if_truthy [] = none
if_truthy (c ∷ s) = some (c ∷ s)

unfoldable pub event_workaround : Severity → Option Text → Checked (Option Text)
event_workaround severity workaround =
    if is_p2 severity
    then (do text ← required (or_empty workaround) "event.workaround" 4000; ok (some text))
    else ok (if_truthy (trim (or_empty workaround)))

-- The kind that is stored, and whether the event stops the Canary.
unfoldable pub event_kind : NewEventKind → Checked (EventKind × Bool)
unfolding event_workaround
event_kind (new_intervention reason) = do
  text ← required reason "event.reason" 4000
  ok (intervention text, false)
event_kind (new_alert severity resolved) = do
  s ← severity_of severity
  ok (alert s resolved, is_severe s)
event_kind (new_defect severity status workaround) = do
  s ← severity_of severity
  w ← event_workaround s workaround
  text ← required status "event.status" 200
  ok (defect s text w, is_severe s)

-- The aggregate with the event appended.
abbrev pub with_event : CanaryAggregate → CanaryEvent → Bool → ℕ → CanaryAggregate
with_event value event stop now = record value {
  events = value.events ++ event ∷ [];
  status = status_after stop;
  ended_at = some_if stop now;
  version = value.version + 1;
  updated_at = now;
}

abbrev pub same_event : ℕ → Text → CanaryEvent → Bool
same_event attempt event_id event = event.attempt == attempt && text_eq event.id event_id

module _ (parse_date : Text → Option ℕ) where
  unfoldable pub record_canary_window :
      CanaryAggregate → (actor_id : Text) → NewWindow → (now : ℕ) → Checked CanaryAggregate
  record_canary_window value actor_id window now = do
    started ← observation_start value
    let current = windows_of value
    throw_if (not (numbered window.sequence (length current + 1))) (refused bad_sequence)
    started_at ← iso parse_date window.started_at "window.startedAt"
    ended_at ← iso parse_date window.ended_at "window.endedAt"
    throw_if
        (not (started_at == expected_start current started)
          || leb ended_at started_at
          || ltb (started_at + hour_ms) ended_at)
        (refused bad_window)
    throw_if (ltb now ended_at) (refused future_window)
    status ← window_status window.status
    p0_count ← count window.p0_count "window.p0Count"
    p1_count ← count window.p1_count "window.p1Count"
    refs ← evidence_refs window.evidence_refs "window.evidenceRefs"
    recorded_by ← id actor_id "actorId"
    ok (
        with_window value
          (record {
            attempt = value.attempt;
            sequence = length current + 1;
            started_at = started_at;
            ended_at = ended_at;
            status = status;
            p0_count = p0_count;
            p1_count = p1_count;
            evidence_refs = refs;
            recorded_by = recorded_by;
          })
          now)

  unfoldable pub record_canary_event :
      CanaryAggregate → (actor_id : Text) → NewEvent → (now : ℕ) → Checked CanaryAggregate
  record_canary_event value actor_id event now = do
    started ← observation_start value
    throw_if (any (same_event value.attempt event.id) value.events) (refused duplicate_event)
    event_id ← id event.id "event.id"
    observed_at ← iso parse_date event.observed_at "event.observedAt"
    owner_id ← id event.owner_id "event.ownerId"
    refs ← evidence_refs event.evidence_refs "event.evidenceRefs"
    recorded_by ← id actor_id "actorId"
    throw_if (ltb observed_at started || ltb now observed_at) (refused outside_observation)
    kind ← event_kind event.kind
    ok (
        with_event value
          (record {
            id = event_id;
            attempt = value.attempt;
            observed_at = observed_at;
            owner_id = owner_id;
            evidence_refs = refs;
            recorded_by = recorded_by;
            kind = kind.0;
          })
          kind.1 now)

abbrev is_alert : EventKind → Bool
is_alert (alert s r) = true
is_alert _ = false

abbrev pub resolve : EventKind → EventKind
resolve (alert s r) = alert s true
resolve k = k

-- The first event that passes the test becomes a resolved alert; `none` where none passes.
unfoldable resolve_first : (CanaryEvent → Bool) → List CanaryEvent → Option (List CanaryEvent)
resolve_first p [] = none
resolve_first p (e ∷ es) =
    let rest : Option (List CanaryEvent) = elim (resolve_first p es) [
      | none ↦ none
      | some es' ↦ some (e ∷ es')
    ] in
    if p e then some (record e { kind = resolve e.kind } ∷ es) else rest

unfoldable pub resolve_canary_alert :
    CanaryAggregate → (event_id reason : Text) (now : ℕ) → Checked CanaryAggregate
unfolding resolve_first
resolve_canary_alert value event_id reason now = do
  throw_if (not (is_observing value.status)) (refused not_observing)
  checked_reason ← required reason "reason" 4000
  events ←
      elim (resolve_first (λ e. same_event value.attempt event_id e && is_alert e.kind)
        value.events) [ none ↦ err (refused alert_not_found) | some es ↦ ok es ]
  ok (record value { events = events; version = value.version + 1; updated_at = now })
