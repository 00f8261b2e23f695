-- ===== src/Release/Canary/Events.antt =====
-- The identities of the events of an attempt.
use ai_dev_harness.Shared.{
  ℕ, ◌≤◌, ◌≡◌, refl, sym, ap, ◌∙◌, subst, Bool, false, ◌||◌, List, [], ◌∷◌, ltb, any, filter,
  filter-append, length, length-append, Text, text_eq, text_eq_iff, trim, ok, >>=-eq-ok,
  throw_if-eq-ok, Bool-cases, inl, inr, Option, arith,
}
use ai_dev_harness.Release.Fields.{
  required, id, iso, evidence_refs, refused, duplicate_event, outside_observation,
}
use ai_dev_harness.Release.Fields.Laws.{required-IsRequired}
use ai_dev_harness.Release.Canary.{CanaryEvent, CanaryAggregate}
use ai_dev_harness.Release.Canary.Observe.{
  NewEvent, same_event, with_event, observation_start, event_kind, record_canary_event,
}

-- How many events of the attempt have the identity.
abbrev pub occurrences : ℕ → Text → List CanaryEvent → ℕ
occurrences attempt event_id events = length (filter (same_event attempt event_id) events)

-- No two events of the current attempt share an identity.
abbrev pub HasUniqueEvents : CanaryAggregate → Type 0
HasUniqueEvents v = (event_id : Text) → occurrences v.attempt event_id v.events ≤ 1

id_trims :
    (value : Text) (label : Prim.Native.String.String) (text : Text)
    → id value label ≡ ok text
    → text ≡ trim value
unfolding id
id_trims value label text h =
    let (found, checked, rest) = >>=-eq-ok (required value label 128) _ h in
    let same = (required-IsRequired value label 128 found checked).trimmed in ground arith

-- What is recorded: one event with the trimmed identity, which the raw identity was compared for.
record IsNewEvent (v : CanaryAggregate) (e : NewEvent) (now : ℕ) (w : CanaryAggregate)
    : Type 0 where
  pub event : CanaryEvent
  pub stop : Bool
  pub identity : event.id ≡ trim e.id
  pub attempt : event.attempt ≡ v.attempt
  pub fresh : any (same_event v.attempt e.id) v.events ≡ false
  pub result : w ≡ with_event v event stop now

absent :
    (p : CanaryEvent → Bool) (es : List CanaryEvent) → any p es ≡ false → length (filter p es) ≡ 0
absent p [] h = refl
absent p (e ∷ es) h = ground (arith, absent p es)

module _ (parse_date : Text → Option ℕ) where
  record_event_recorded :
      (v : CanaryAggregate) (actor : Text) (e : NewEvent) (now : ℕ) (w : CanaryAggregate)
      → record_canary_event parse_date v actor e now ≡ ok w
      → IsNewEvent v e now w
  unfolding record_canary_event
  record_event_recorded v actor e now w h =
      let (started, h1, r1) = >>=-eq-ok (observation_start v) _ h in
      let (h2, r2) =
        throw_if-eq-ok (any (same_event v.attempt e.id) v.events) (refused duplicate_event) _ r1 in
      let (event_id, h3, r3) = >>=-eq-ok (id e.id "event.id") _ r2 in
      let (observed_at, h4, r4) =
        >>=-eq-ok (iso parse_date e.observed_at "event.observedAt") _ r3 in
      let (owner_id, h5, r5) = >>=-eq-ok (id e.owner_id "event.ownerId") _ r4 in
      let (refs, h6, r6) = >>=-eq-ok (evidence_refs e.evidence_refs "event.evidenceRefs") _ r5 in
      let (recorded_by, h7, r7) = >>=-eq-ok (id actor "actorId") _ r6 in
      let (h8, r8) =
        throw_if-eq-ok (ltb observed_at started || ltb now observed_at)
          (refused outside_observation) _ r7 in
      let (kind, h9, r9) = >>=-eq-ok (event_kind e.kind) _ r8 in
      record {
        event = record {
          id = event_id;
          attempt = v.attempt;
          observed_at = observed_at;
          owner_id = owner_id;
          evidence_refs = refs;
          recorded_by = recorded_by;
          kind = kind.0;
        };
        stop = kind.1;
        identity = id_trims e.id "event.id" event_id h3;
        attempt = refl;
        fresh = h2;
        result = ground arith;
      }

  -- With an identity that `trim` leaves alone, recording an event keeps the identities of the attempt
  -- unique.
  pub record_event_unique :
      (v : CanaryAggregate) (actor : Text) (e : NewEvent) (now : ℕ) (w : CanaryAggregate)
      → HasUniqueEvents v
      → trim e.id ≡ e.id
      → record_canary_event parse_date v actor e now ≡ ok w
      → HasUniqueEvents w
  record_event_unique v actor e now w unique trimmed h =
      let r = record_event_recorded v actor e now w h in
      subst HasUniqueEvents (sym r.result) λ i.
        let split = ap length (filter-append (same_event v.attempt i) v.events (r.event ∷ [])) in
        let same : r.event.id ≡ e.id = r.identity ∙ trimmed in
        elim (Bool-cases (text_eq r.event.id i)) [
          | inl hit ↦
              let is_i : i ≡ e.id = sym ((text_eq_iff r.event.id i).0 hit) ∙ same in
              let none_before : occurrences v.attempt i v.events ≡ 0 =
                absent (same_event v.attempt i) v.events (rw is_i r.fresh) in
              ground (
                arith,
                split,
                none_before,
                length-append (filter (same_event v.attempt i) v.events)
                    (filter (same_event v.attempt i) (r.event ∷ [])),
              )
          | inr miss ↦ ground (
            arith,
            split,
            unique i,
            length-append (filter (same_event v.attempt i) v.events)
                (filter (same_event v.attempt i) (r.event ∷ [])),
          )
        ]
