-- ===== src/Ledger/Ingest/Replay.antt =====
-- Ingesting one observation twice.
use mathlib.Core.Option
use personal_ai_brain.Prelude.{
  ℕ, String, ◌∙◌, ◌≡◌, refl, ap, sym, or_else, Bool, true, false, Option, none, some, List, ◌∷◌,
  arith, eq_iff, Result, ok, err, settle, inl, inr, Bool-cases, Option-cases, fresh_id, bind_ok,
}
use personal_ai_brain.Ledger.Schema.{
  Error, Platform, Event, Link, Db, event_by_source, event_by_fingerprint, link_by_event,
}
use personal_ai_brain.Ledger.Ingest.{
  Observation, Prepared, IngestResult, Status, historical_boundary_suppressed, ingest_observation,
  ingest_body, ingest_new, ingest_by_fingerprint, known_source, prepare, link_source, new_event,
  suppressed_by_boundary,
}
use personal_ai_brain.Ledger.Ingest.Writes.{
  prepare-IsPure, link_source_keeps, link_source_links, suppressed_cong, ingest_new_shape,
  duplicate_shape, body_fresh, fingerprint_new,
}

abbrev pub is_new : Status → Bool
is_new Status.created = true
is_new Status.quarantined = true
is_new _ = false

-- The outcome of an ingest that finds the event already there.
abbrev pub Repeats : Option ℕ → Result Error IngestResult → Type 0
Repeats n (ok r) = (r.watch_event_id ≡ n) × (is_new r.status ≡ false)
Repeats n (err e) = ⊥

module _ (p : Platform) (o : Observation) (now later : String) (v : Prepared) where
  -- Where the source event is known, or the fingerprint alone decides, nothing is written.
  again_by_event :
      (x : String) (e : Event) (b : Db)
      → suppressed_by_boundary p o b ≡ false
      → o.source_event_id ≡ some x
      → event_by_source o.source x b ≡ some e
      → ((ingest_body p o later v b).1 ≡ b) × Repeats (some e.id) (ingest_body p o later v b).0
  unfolding ingest_body known_source
  again_by_event x e b s h k = ground arith

  again_by_link :
      (x : String) (n : ℕ) (b : Db)
      → suppressed_by_boundary p o b ≡ false
      → o.source_event_id ≡ some x
      → event_by_source o.source x b ≡ none
      → Option.map (λ (l : Link). l.watch_event_id) (link_by_event o.source x b) ≡ some n
      → ((ingest_body p o later v b).1 ≡ b) × Repeats (some n) (ingest_body p o later v b).0
  unfolding ingest_body known_source
  again_by_link x n b s h k j = ground arith

  again_by_fingerprint :
      (e : Event) (b : Db)
      → suppressed_by_boundary p o b ≡ false
      → o.source_event_id ≡ none
      → event_by_fingerprint v.fingerprint b ≡ some e
      → ((ingest_body p o later v b).1 ≡ b) × Repeats (some e.id) (ingest_body p o later v b).0
  unfolding ingest_body known_source ingest_by_fingerprint link_source
  again_by_fingerprint e b s h k = ground arith

  event_by_source_head :
      (n : ℕ) (x : String) (b : Db) (es : List Event)
      → o.source_event_id ≡ some x
      → b.events ≡ new_event p o now v n ∷ es
      → event_by_source o.source x b ≡ some (new_event p o now v n)
  unfolding event_by_source new_event
  event_by_source_head n x b es h k = ground (arith, eq_iff o.source o.source, eq_iff x x)

  event_by_fingerprint_head :
      (n : ℕ) (b : Db) (es : List Event)
      → b.events ≡ new_event p o now v n ∷ es
      → event_by_fingerprint v.fingerprint b ≡ some (new_event p o now v n)
  unfolding event_by_fingerprint new_event
  event_by_fingerprint_head n b es k = ground (arith, eq_iff v.fingerprint v.fingerprint)

  known_source-none :
      (x : String) (a b : Db)
      → known_source p o a ≡ none
      → o.source_event_id ≡ some x
      → b.events ≡ a.events
      → event_by_source o.source x b ≡ none
  unfolding known_source event_by_source
  known_source-none x a b k h e = ground arith

  new_again :
      (a b : Db) (r : IngestResult)
      → suppressed_by_boundary p o a ≡ false
      → ingest_new p o now v a ≡ (ok r, b)
      → ((ingest_body p o later v b).1 ≡ b) × Repeats r.watch_event_id (ingest_body p o later v b).0
  unfolding new_event
  new_again a b r s h =
      let n = fresh_id (λ (e : Event). e.id) a.events in
      let (events, cursors, id) = ingest_new_shape p o now v a b r h in
      let s' = suppressed_cong p o now v a b cursors ∙ s in
      rw id (elim (Option-cases o.source_event_id) [
        | inl e ↦
            again_by_fingerprint (new_event p o now v n) b s' e
              (event_by_fingerprint_head n b a.events events)
        | inr (x, e) ↦
            again_by_event x (new_event p o now v n) b s' e
              (event_by_source_head n x b a.events e events)
      ])

  duplicate_again :
      (e : Event) (a b : Db) (r : IngestResult)
      → suppressed_by_boundary p o a ≡ false
      → known_source p o a ≡ none
      → event_by_fingerprint v.fingerprint a ≡ some e
      → ingest_by_fingerprint p o now v a ≡ (ok r, b)
      → ((ingest_body p o later v b).1 ≡ b) × Repeats r.watch_event_id (ingest_body p o later v b).0
  unfolding event_by_fingerprint link_source
  duplicate_again e a b r s k f h =
      let (linked, id) = duplicate_shape p o now v e a b r f h in
      let (events, cursors) = link_source_keeps p o now v e.id o.source_event_id a b linked in
      let s' = suppressed_cong p o now v a b cursors ∙ s in
      rw id (elim (Option-cases o.source_event_id) [
        | inl none_given ↦ again_by_fingerprint e b s' none_given (
            ap (λ (es : List Event). event_by_fingerprint v.fingerprint (record a { events = es }))
              events
            ∙ f)
        | inr (x, given) ↦
            again_by_link x e.id b s' given (known_source-none x a b k given events)
              (link_source_links p o now v e.id x a b (rw given at linked))
      ])

  -- Where the body wrote nothing, it gives the same again.
  quiet_again :
      (k : IngestResult) (a b : Db) (r : IngestResult)
      → ((t : String) → ingest_body p o t v a ≡ (ok k, a))
      → is_new k.status ≡ false
      → ingest_body p o now v a ≡ (ok r, b)
      → ((ingest_body p o later v b).1 ≡ b) × Repeats r.watch_event_id (ingest_body p o later v b).0
  quiet_again k a b r e n h =
      let same : b ≡ a = cc (e now) in
      let kept : r ≡ k = cc (e now) in rw (same, e later, kept) (refl, (refl, n))

  body_suppressed :
      (a b : Db) (r : IngestResult)
      → suppressed_by_boundary p o a ≡ true
      → ingest_body p o now v a ≡ (ok r, b)
      → ((ingest_body p o later v b).1 ≡ b) × Repeats r.watch_event_id (ingest_body p o later v b).0
  unfolding ingest_body
  body_suppressed a b r s h =
      quiet_again
        (record {
          status = historical_boundary_suppressed;
          watch_event_id = none;
          outbound_allowed = false;
        })
        a b r (λ t. rw s) refl h

  known_source-old :
      (a : Db) (k : IngestResult) → known_source p o a ≡ some k → is_new k.status ≡ false
  unfolding known_source
  known_source-old a k h = ground arith

  body_known :
      (a b : Db) (r k : IngestResult)
      → suppressed_by_boundary p o a ≡ false
      → known_source p o a ≡ some k
      → ingest_body p o now v a ≡ (ok r, b)
      → ((ingest_body p o later v b).1 ≡ b) × Repeats r.watch_event_id (ingest_body p o later v b).0
  unfolding ingest_body
  body_known a b r k s e h = quiet_again k a b r (λ t. rw (s, e)) (known_source-old a k e) h

  -- The transaction, run again on what it left.
  body_again :
      (a b : Db) (r : IngestResult)
      → ingest_body p o now v a ≡ (ok r, b)
      → ((ingest_body p o later v b).1 ≡ b) × Repeats r.watch_event_id (ingest_body p o later v b).0
  body_again a b r h = elim (Bool-cases (suppressed_by_boundary p o a)) [
    | inl s ↦ body_suppressed a b r s h
    | inr s ↦ elim (Option-cases (known_source p o a)) [
      | inr (k, known) ↦ body_known a b r k s known h
      | inl new ↦ elim (Option-cases (event_by_fingerprint v.fingerprint a)) [
        | inr (e, f) ↦ duplicate_again e a b r s new f (sym (body_fresh p o now v a s new) ∙ h)
        | inl f ↦
            new_again a b r s
              (sym (body_fresh p o now v a s new ∙ fingerprint_new p o now v a f) ∙ h)
      ]
    ]
  ]

settle_ok :
    (s : Db) (m : Result Error IngestResult × Db) (r : IngestResult) (t : Db)
    → settle s m ≡ (ok r, t)
    → m ≡ (ok r, t)
settle_ok s (ok a, u) r t h = h
settle_ok s (err e, u) r t h = absurd (ground arith)

settle_same :
    (t : Db) (n : Option ℕ) (m : Result Error IngestResult × Db)
    → (m.1 ≡ t) × Repeats n m.0
    → ((settle t m).1 ≡ t) × Repeats n (settle t m).0
settle_same t n (ok a, u) h = h
settle_same t n (err e, u) h = absurd h.1

-- An observation that was ingested, in whatever way, can be ingested again, at any other import
-- time: the second call returns, changes nothing in the database, reports the event that the
-- first call reported, and its status is neither `created` nor `quarantined`.
pub ingest_observation-replay :
    (p : Platform) (o : Observation) (at again : Option String) (a b : Db) (r : IngestResult)
    → ingest_observation p o at a ≡ (ok r, b)
    → ((ingest_observation p o again b).1 ≡ b)
      × Repeats r.watch_event_id (ingest_observation p o again b).0
unfolding ingest_observation
ingest_observation-replay p o at again a b r h =
    let (v, c, prepared, ran) = bind_ok (prepare p o) _ a r b h in
    let now = or_else at p.clock in
    let later = or_else again p.clock in
    let once = settle_ok c (ingest_body p o now v c) r b ran in
    let known : prepare p o b ≡ (ok v, b) =
      cc (prepared, (prepare-IsPure p o).everywhere a, (prepare-IsPure p o).everywhere b) in
    rw known (
      settle_same b r.watch_event_id (ingest_body p o later v b)
        (body_again p o now later v c b r once))
