-- ===== src/Events/History.antt =====
-- The history of a run in memory-execution-event-repository.ts: the events that made its projection.
use ai_dev_harness.Shared.{
  ℕ, zero, suc, ◌+◌, ◌≤◌, ◌≡◌, ◌∙◌, refl, sym, ap, subst, true, false, some, List, [], ◌∷◌, ◌++◌,
  map, Memᴰ, length, length-append, find, find-mem, All, All-map, All-append, map-update,
  update_first, update-All_passing, mem-map_image, text_eq_iff, Text, Option-cases, inl, inr, arith,
}
use ai_dev_harness.Events.{AutoDevRunEvent, ExecutionRunProjection}
use ai_dev_harness.Events.Ingest.{
  InboxRecord, Drained, drain, round, is_open, about, is_next, close, taken,
}
use ai_dev_harness.Events.Replay.{
  advance_run, replay, plain, Consecutive, advance-run, advance_run-plain, advance_run-external,
  drain-none, drain-some,
}

-- The run is what the events make of the first projection, in the order of their sequences; they are
-- all of the run, and all in the inbox.
pub record IsHistory (x : Text) (first : ExecutionRunProjection) (inbox : List AutoDevRunEvent)
    (run : ExecutionRunProjection) : Type 0 where
  pub events : List AutoDevRunEvent
  pub consecutive : Consecutive first.last_event_sequence events
  pub last : run.last_event_sequence ≡ first.last_event_sequence + length events
  pub mine : All (λ e. e.external_run_id ≡ x) events
  pub from_inbox : All (λ e. Memᴰ e inbox) events
  pub replayed : plain run ≡ replay events (plain first)

Consecutive-append :
    (n : ℕ) (es : List AutoDevRunEvent) (e : AutoDevRunEvent)
    → Consecutive n es
    → e.sequence ≡ n + length es + 1
    → Consecutive n (es ++ e ∷ [])
Consecutive-append n [] e c h = (omega (arith, h), tt)
Consecutive-append n (x ∷ xs) e c h = (c.0, Consecutive-append (n + 1) xs e c.1 (omega (arith, h)))

replay-append :
    (es : List AutoDevRunEvent) (e : AutoDevRunEvent) (run : ExecutionRunProjection)
    → replay (es ++ e ∷ []) run ≡ advance_run e (replay es run)
unfolding replay
replay-append [] e run = refl
replay-append (x ∷ xs) e run = replay-append xs e (advance_run x run)

extend :
    (x : Text) (first : ExecutionRunProjection) (inbox : List AutoDevRunEvent)
    (run : ExecutionRunProjection) (e : AutoDevRunEvent)
    → IsHistory x first inbox run
    → e.sequence ≡ run.last_event_sequence + 1
    → e.external_run_id ≡ x
    → Memᴰ e inbox
    → IsHistory x first inbox (advance_run e run)
extend x first inbox run e h next own member = record {
  events = h.events ++ e ∷ [];
  consecutive =
      Consecutive-append first.last_event_sequence h.events e h.consecutive
        (omega (arith, next, h.last));
  last =
      omega (arith, (advance_run-external e run).1, next, h.last, length-append h.events (e ∷ []));
  mine = All-append (λ e. e.external_run_id ≡ x) h.events (e ∷ []) h.mine (own, tt);
  from_inbox = All-append (λ e. Memᴰ e inbox) h.events (e ∷ []) h.from_inbox (member, tt);
  replayed =
      advance_run-plain e run
      ∙ ap (advance_run e) h.replayed
      ∙ sym (replay-append h.events e (plain first));
}

-- A record of the run that is closed is not beyond its last event.
abbrev pub IsPast : Text → ℕ → InboxRecord → Type 0
IsPast x last r = about x r ≡ true → is_open r.processing_status ≡ false → r.event.sequence ≤ last

pub record IsAdvanced (x : Text) (first : ExecutionRunProjection) (inbox : List AutoDevRunEvent)
    (d : Drained) : Type 0 where
  pub external : d.run.external_run_id ≡ x
  pub kept : map (λ r. r.event) d.inbox ≡ inbox
  pub history : IsHistory x first inbox d.run
  pub past : All (IsPast x d.run.last_event_sequence) d.inbox

round_run : (d : Drained) (next : InboxRecord) → (round d next).run ≡ advance_run next.event d.run
unfolding round
round_run d next = advance-run next.event d.run d.outbox

round_inbox :
    (d : Drained) (next : InboxRecord)
    → (round d next).inbox ≡ update_first (is_next d.run) (close (taken d.run)) d.inbox
unfolding round
round_inbox d next = refl

round-IsAdvanced :
    (x : Text) (first : ExecutionRunProjection) (inbox : List AutoDevRunEvent) (d : Drained)
    (next : InboxRecord)
    → find (is_next d.run) d.inbox ≡ some next
    → IsAdvanced x first inbox d
    → IsAdvanced x first inbox (round d next)
round-IsAdvanced x first inbox d next found a =
    let (member, passes) = find-mem (is_next d.run) d.inbox next found in
    let turn : next.event.sequence ≡ d.run.last_event_sequence + 1 = ground arith in
    let own : next.event.external_run_id ≡ x =
      (text_eq_iff next.event.external_run_id d.run.external_run_id).0 (ground arith)
      ∙ a.external in
    let mem : Memᴰ next.event inbox =
      subst (λ es. Memᴰ next.event es) a.kept (mem-map_image (λ r. r.event) d.inbox next member) in
    let (same_external, new_last) = advance_run-external next.event d.run in
    let run = round_run d next in
    let last : (round d next).run.last_event_sequence ≡ d.run.last_event_sequence + 1 =
      ap (λ r. r.last_event_sequence) run ∙ new_last ∙ turn in
    record {
      external = ap (λ r. r.external_run_id) run ∙ same_external ∙ a.external;
      kept =
          ap (map (λ r. r.event)) (round_inbox d next)
          ∙ map-update (λ r. r.event) (is_next d.run) (close (taken d.run)) (λ r. refl) d.inbox
          ∙ a.kept;
      history =
          subst (IsHistory x first inbox) (sym run)
            (extend x first inbox d.run next.event a.history turn own mem);
      past =
          subst (λ ls. All (IsPast x (round d next).run.last_event_sequence) ls)
            (sym (round_inbox d next))
            (update-All_passing (IsPast x (round d next).run.last_event_sequence) (is_next d.run)
              (close (taken d.run)) (λ r t p own closed. ground (arith, last)) d.inbox
              (All-map (IsPast x d.run.last_event_sequence)
                (IsPast x (round d next).run.last_event_sequence)
                (λ r p own closed. let q = p own closed in omega (arith, q, last)) d.inbox a.past));
    }

-- The loop keeps the history, whatever its fuel.
pub drain-IsAdvanced :
    (x : Text) (first : ExecutionRunProjection) (inbox : List AutoDevRunEvent) (fuel : ℕ)
    (d : Drained)
    → IsAdvanced x first inbox d
    → IsAdvanced x first inbox (drain fuel d)
unfolding drain
drain-IsAdvanced x first inbox zero d a = a
drain-IsAdvanced x first inbox (suc fuel) d a = elim (Option-cases (find (is_next d.run) d.inbox)) [
  | inl q ↦ subst (IsAdvanced x first inbox) (sym (drain-none fuel d q)) a
  | inr (next, q) ↦ subst (IsAdvanced x first inbox) (sym (drain-some fuel d next q)) (
      drain-IsAdvanced x first inbox fuel (round d next)
        (round-IsAdvanced x first inbox d next q a))
]
