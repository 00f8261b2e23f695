-- ===== src/Events/Accepted.antt =====
-- An event that `ingest` of memory-execution-event-repository.ts accepts: that it belongs to its run,
-- and where its sequence places it.
use ai_dev_harness.Shared.{
  ℕ, zero, suc, ◌+◌, ◌≤◌, ◌<◌, ◌≡◌, ◌⊎◌, ◌∙◌, refl, sym, ap, subst, true, false, not, ◌||◌, Option,
  none, some, List, [], ◌∷◌, ◌++◌, find, find-append, find-append_none, find-mem, length,
  length-append, text_eq, text_eq_iff, Text, Bool-cases, Option-cases, inl, inr, arith,
}
use ai_dev_harness.Events.{
  AutoDevRunEvent, ObservabilityContext, ExecutionRunProjection, is_finished,
}
use ai_dev_harness.Events.Ingest.{
  InboxRecord, Store, ProcessingStatus, pending, applied, gap, terminal_ignored, Drained, drain,
  round, is_next, taken, filed, same_option, differs_from, is_mismatch,
}
use ai_dev_harness.Events.Replay.{advance-run, advance_run-external, drain-none, drain-some}
use ai_dev_harness.Events.Order.{drained_from}

-- The identities that the event observed are those of the run; its Issue counts if the run has one.
abbrev pub Observes : Option ObservabilityContext → ExecutionRunProjection → Type 0
Observes none run = Unit
Observes (some observed) run =
    (observed.run_id ≡ some run.id)
    × (observed.goal_id ≡ some run.goal_id)
    × ((run.issue_id ≡ none) ⊎ (observed.issue_id ≡ run.issue_id))

abbrev pub IsOwn : ExecutionRunProjection → AutoDevRunEvent → Type 0
IsOwn run e = (run.external_task_id ≡ e.external_task_id) × Observes e.observability run

same_option_lem : (o : Option Text) (t : Text) → same_option o t ≡ true → o ≡ some t
same_option_lem none t h = absurd (ground (arith, h))
same_option_lem (some s) t h = ap some ((text_eq_iff s t).0 h)

same_option_refl : (o : Option Text) (t : Text) → o ≡ some t → same_option o t ≡ true
same_option_refl o t e = subst (λ z. same_option z t ≡ true) (sym e) ((text_eq_iff t t).1 refl)

same_issue :
    (observed : ObservabilityContext) (issue : Option Text)
    → differs_from observed.issue_id issue ≡ false
    → (issue ≡ none) ⊎ (observed.issue_id ≡ issue)
same_issue observed none h = inl refl
same_issue observed (some i) h = inr (same_option_lem observed.issue_id i (ground (arith, h)))

issue_differs :
    (observed : ObservabilityContext) (issue : Option Text)
    → (issue ≡ none) ⊎ (observed.issue_id ≡ issue)
    → differs_from observed.issue_id issue ≡ false
issue_differs observed none h = refl
issue_differs observed (some i) (inl e) = cc
issue_differs observed (some i) (inr e) =
    let t = same_option_refl observed.issue_id i e in ground (arith, t)

mismatch-Observes :
    (observed : Option ObservabilityContext) (run : ExecutionRunProjection)
    → is_mismatch observed run ≡ false
    → Observes observed run
mismatch-Observes none run h = tt
mismatch-Observes (some o) run h = (
  same_option_lem o.run_id run.id (ground (arith, h)),
  same_option_lem o.goal_id run.goal_id (ground (arith, h)),
  same_issue o run.issue_id (ground (arith, h)),
)

Observes-mismatch :
    (observed : Option ObservabilityContext) (run : ExecutionRunProjection)
    → Observes observed run
    → is_mismatch observed run ≡ false
Observes-mismatch none run h = refl
Observes-mismatch (some o) run (r, g, i) =
    let a = same_option_refl o.run_id run.id r in
    let b = same_option_refl o.goal_id run.goal_id g in
    let c = issue_differs o run.issue_id i in ground (arith, a, b, c)

-- The test of `ingest` is exactly whether the event is not the run's own.
pub own_lem :
    (run : ExecutionRunProjection) (e : AutoDevRunEvent)
    → (not (text_eq run.external_task_id e.external_task_id) || is_mismatch e.observability run)
      ≡ false
    → IsOwn run e
own_lem run e h = (
  (text_eq_iff run.external_task_id e.external_task_id).0 (ground (arith, h)),
  mismatch-Observes e.observability run (ground (arith, h)),
)

pub foreign_lem :
    (run : ExecutionRunProjection) (e : AutoDevRunEvent)
    → (not (text_eq run.external_task_id e.external_task_id) || is_mismatch e.observability run)
      ≡ true
    → ¬ IsOwn run e
foreign_lem run e h (task, observed) =
    let t = (text_eq_iff run.external_task_id e.external_task_id).1 task in
    let o = Observes-mismatch e.observability run observed in absurd (ground (arith, h, t, o))

abbrev IsSettled : ProcessingStatus → Type 0
IsSettled status = (status ≡ applied) ⊎ (status ≡ terminal_ignored)

-- By its sequence, the event is ahead, behind or next: the disposition, and the run that is returned.
abbrev pub IsTurn :
    AutoDevRunEvent → ExecutionRunProjection → ProcessingStatus → ExecutionRunProjection → Type 0
IsTurn e old disposition run =
    ((old.last_event_sequence + 1 < e.sequence)
      × (disposition ≡ gap)
      × (run ≡ record old { reconciliation_required = true }))
    ⊎ ((e.sequence ≤ old.last_event_sequence) × (disposition ≡ terminal_ignored) × (run ≡ old))
    ⊎ ((e.sequence ≡ old.last_event_sequence + 1)
        × ((disposition ≡ applied) ⊎ (disposition ≡ terminal_ignored))
        × (e.sequence ≤ run.last_event_sequence))

taken-IsSettled : (run : ExecutionRunProjection) → IsSettled (taken run)
taken-IsSettled run = elim (Bool-cases (is_finished run.status)) [
  | inl q ↦ inr (rw q refl)
  | inr q ↦ inl (rw q refl)
]

round-last :
    (d : Drained) (next : InboxRecord)
    → is_next d.run next ≡ true
    → (round d next).run.last_event_sequence ≡ d.run.last_event_sequence + 1
unfolding round
round-last d next h =
    ap (λ (r : ExecutionRunProjection). r.last_event_sequence)
      (advance-run next.event d.run d.outbox)
    ∙ (advance_run-external next.event d.run).1
    ∙ ground (arith, h)

drain-last :
    (fuel : ℕ) (d : Drained) → d.run.last_event_sequence ≤ (drain fuel d).run.last_event_sequence
unfolding drain
drain-last zero d = omega arith
drain-last (suc fuel) d = elim (Option-cases (find (is_next d.run) d.inbox)) [
  | inl q ↦
      subst (λ (x : Drained). d.run.last_event_sequence ≤ x.run.last_event_sequence)
        (sym (drain-none fuel d q)) (omega arith)
  | inr (next, q) ↦
      let step = round-last d next (find-mem (is_next d.run) d.inbox next q).1 in
      let rest = drain-last fuel (round d next) in
      subst (λ (x : Drained). d.run.last_event_sequence ≤ x.run.last_event_sequence)
        (sym (drain-some fuel d next q)) (omega (arith, step, rest))
]

drain-IsSettled :
    (fuel : ℕ) (d : Drained) → IsSettled d.disposition → IsSettled (drain fuel d).disposition
unfolding drain round
drain-IsSettled zero d h = h
drain-IsSettled (suc fuel) d h = elim (Option-cases (find (is_next d.run) d.inbox)) [
  | inl q ↦ subst (λ (x : Drained). IsSettled x.disposition) (sym (drain-none fuel d q)) h
  | inr (next, q) ↦
      subst (λ (x : Drained). IsSettled x.disposition) (sym (drain-some fuel d next q))
        (drain-IsSettled fuel (round d next) (taken-IsSettled d.run))
]

drain-takes :
    (fuel : ℕ) (d : Drained) (r : InboxRecord)
    → find (is_next d.run) d.inbox ≡ some r
    → d.run.last_event_sequence + 1 ≤ (drain (suc fuel) d).run.last_event_sequence
drain-takes fuel d r q =
    let step = round-last d r (find-mem (is_next d.run) d.inbox r q).1 in
    let rest = drain-last fuel (round d r) in
    subst (λ (x : Drained). d.run.last_event_sequence + 1 ≤ x.run.last_event_sequence)
      (sym (drain-some fuel d r q)) (omega (arith, step, rest))

some_next :
    (run : ExecutionRunProjection) (inbox : List InboxRecord) (r : InboxRecord)
    → is_next run r ≡ true
    → (k : InboxRecord) × (find (is_next run) (inbox ++ r ∷ []) ≡ some k)
some_next run inbox r h = elim (Option-cases (find (is_next run) inbox)) [
  | inl q ↦ (r, find-append_none (is_next run) inbox (r ∷ []) q ∙ rw h refl)
  | inr (k, q) ↦ (k, find-append (is_next run) inbox (r ∷ []) k q)
]

-- An event of the run that is next is taken, or one of its sequence that came before is.
pub drained-takes :
    (s : Store) (run : ExecutionRunProjection) (e : AutoDevRunEvent) (digest : Text)
    → run.external_run_id ≡ e.external_run_id
    → e.sequence ≡ run.last_event_sequence + 1
    → IsSettled (drained_from run s e digest).disposition
      × (e.sequence ≤ (drained_from run s e digest).run.last_event_sequence)
drained-takes s run e digest own next =
    let r = filed e digest pending in
    let start : Drained = record {
      run = run;
      inbox = s.inbox ++ r ∷ [];
      outbox = s.outbox;
      disposition = applied;
    } in
    let t = (text_eq_iff e.external_run_id run.external_run_id).1 (sym own) in
    let (k, q) = some_next run s.inbox r (ground (arith, t, next)) in
    let takes = drain-takes (length s.inbox) start k q in
    let longer : length (s.inbox ++ r ∷ []) ≡ suc (length s.inbox) =
      omega (arith, length-append s.inbox (r ∷ [])) in
    (
      drain-IsSettled (length (s.inbox ++ r ∷ [])) start (inl refl),
      subst (λ (n : ℕ). e.sequence ≤ (drain n start).run.last_event_sequence) (sym longer)
          (omega (arith, takes, next)),
    )
