-- ===== src/Events/Knowing.antt =====
-- What the inbox of memory-execution-event-repository.ts knows, it knows after any arrivals.
use ai_dev_harness.Shared.{
  ℕ, zero, suc, ◌≡◌, ◌∙◌, refl, sym, subst, not, ◌||◌, some, List, [], ◌∷◌, ◌++◌, find, find-append,
  find-update_attribute, length, text_eq, Text, Bool-cases, Option-cases, inl, inr,
}
use ai_dev_harness.Events.{AutoDevRunEvent, ExecutionRunProjection}
use ai_dev_harness.Events.Ingest.{
  Store, InboxRecord, ProcessingStatus, pending, applied, gap, terminal_ignored, Drained, drain,
  round, is_next, close, taken, filed, has_external, has_source, take_in, is_mismatch, ingest,
}
use ai_dev_harness.Events.Replay.{drain-none, drain-some}
use ai_dev_harness.Events.Arrivals.{take_in-gap, take_in-late, take_in-next, turn-cases}
use ai_dev_harness.Events.Convergence.{ingest_all}

-- The inbox knows the source identity, with the digest.
abbrev pub Knows : Text → Text → List InboxRecord → Type 0
Knows source digest inbox =
    (r : InboxRecord) × (find (has_source source) inbox ≡ some r) × (r.digest ≡ digest)

module _ (source known : Text) where
  append-Knows :
      (inbox : List InboxRecord) (r : InboxRecord)
      → Knows source known inbox
      → Knows source known (inbox ++ r ∷ [])
  append-Knows inbox r (k, found, same) =
      (k, find-append (has_source source) inbox (r ∷ []) k found, same)

  round-Knows :
      (d : Drained) (next : InboxRecord)
      → Knows source known d.inbox
      → Knows source known (round d next).inbox
  unfolding round
  round-Knows d next (k, found, same) =
      let (y, now, kept) =
        find-update_attribute (has_source source) (is_next d.run) (close (taken d.run))
          (λ r. r.digest) (λ r. refl) (λ r. refl) d.inbox k found in
      (y, now, kept ∙ same)

  drain-Knows :
      (fuel : ℕ) (d : Drained)
      → Knows source known d.inbox
      → Knows source known (drain fuel d).inbox
  unfolding drain
  drain-Knows zero d k = k
  drain-Knows (suc fuel) d k = elim (Option-cases (find (is_next d.run) d.inbox)) [
    | inl q ↦ subst (λ (d : Drained). Knows source known d.inbox) (sym (drain-none fuel d q)) k
    | inr (next, q) ↦
        subst (λ (d : Drained). Knows source known d.inbox) (sym (drain-some fuel d next q))
          (drain-Knows fuel (round d next) (round-Knows d next k))
  ]

  -- Whatever the event is filed as, the inbox is the old one with the event behind it, drained.
  pub take_in-Knows :
      (s : Store) (run : ExecutionRunProjection) (e : AutoDevRunEvent) (digest : Text)
      → ((status : ProcessingStatus) → Knows source known (s.inbox ++ filed e digest status ∷ []))
      → Knows source known (take_in s run e digest).0.inbox
  take_in-Knows s run e digest k = elim (turn-cases run e) [
    | inl far ↦
        subst (λ r. Knows source known r.0.inbox) (sym (take_in-gap s run e digest far)) (k gap)
    | inr (inl late) ↦
        subst (λ r. Knows source known r.0.inbox) (sym (take_in-late s run e digest late))
          (k terminal_ignored)
    | inr (inr next) ↦
        subst (λ r. Knows source known r.0.inbox) (sym (take_in-next s run e digest next))
          (drain-Knows (length (s.inbox ++ filed e digest pending ∷ []))
            (record {
              run = run;
              inbox = s.inbox ++ filed e digest pending ∷ [];
              outbox = s.outbox;
              disposition = applied;
            })
            (k pending))
  ]

  ingest-Knows :
      (s : Store) (e : AutoDevRunEvent) (digest : Text)
      → Knows source known s.inbox
      → Knows source known (ingest s e digest).0.inbox
  unfolding ingest
  ingest-Knows s e digest k = elim (Option-cases (find (has_source e.source_event_id) s.inbox)) [
    | inr (existing, q) ↦ rw (ingest, q) k
    | inl q ↦ elim (Option-cases (find (has_external e.external_run_id) s.runs)) [
      | inl t ↦ rw (ingest, q, t) k
      | inr (run, t) ↦
          elim (Bool-cases (
            not (text_eq run.external_task_id e.external_task_id)
            || is_mismatch e.observability run)) [
              | inl u ↦ rw (ingest, q, t, u) k
              | inr u ↦
                  rw (ingest, q, t, u)
                    (take_in-Knows s run e digest
                      (λ status. append-Knows s.inbox (filed e digest status) k))
            ]
    ]
  ]

  pub ingest_all-Knows :
      (arrivals : List (AutoDevRunEvent × Text)) (s : Store)
      → Knows source known s.inbox
      → Knows source known (ingest_all arrivals s).inbox
  unfolding ingest_all
  ingest_all-Knows [] s k = k
  ingest_all-Knows ((e, digest) ∷ arrivals) s k =
      ingest_all-Knows arrivals (ingest s e digest).0 (ingest-Knows s e digest k)
