-- ===== src/Ledger/Ingest/Writes.antt =====
-- What the successful calls of src/personal_ai_brain/watched_ledger.py's ingest side have written.
use mathlib.Core.Option
use personal_ai_brain.Prelude.{
  false, ℕ, String, ◌≡◌, ap, Option, none, some, List, ◌∷◌, arith, eq_iff, ok, IsPure, pure_rules,
  fresh_id, bind_ok,
}
use personal_ai_brain.Ledger.Schema.{
  CursorRow, Platform, Event, Link, Db, insert_event, insert_link, event_by_fingerprint,
  link_by_event,
}
use personal_ai_brain.Ledger.Ingest.{
  ingest_body, known_source, Observation, Prepared, IngestResult, ingest_new, ingest_by_fingerprint,
  check_observation, prepare, event_fingerprint, timestamp, link_source, link_external_event,
  new_link, new_event, suppressed_by_boundary,
}

pub timestamp-IsPure : (p : Platform) (t : String) → IsPure (timestamp p t)
unfolding timestamp
timestamp-IsPure p t = search pure_rules

event_fingerprint-IsPure : (p : Platform) (o : Observation) → IsPure (event_fingerprint p o)
unfolding event_fingerprint
event_fingerprint-IsPure p o = search (pure_rules, timestamp-IsPure)

check_observation-IsPure : (p : Platform) (o : Observation) → IsPure (check_observation p o)
unfolding check_observation
check_observation-IsPure p o = search pure_rules depth 8

pub prepare-IsPure : (p : Platform) (o : Observation) → IsPure (prepare p o)
unfolding prepare
prepare-IsPure p o =
    search (pure_rules, timestamp-IsPure, event_fingerprint-IsPure, check_observation-IsPure) depth
      8

pub insert_event_ok :
    (e : Event) (a b : Db) → insert_event e a ≡ (ok tt, b) → b ≡ record a { events = e ∷ a.events }
unfolding insert_event
insert_event_ok e a b h = ground arith

pub insert_link_ok :
    (l : Link) (a b : Db) → insert_link l a ≡ (ok tt, b) → b ≡ record a { links = l ∷ a.links }
unfolding insert_link
insert_link_ok l a b h = ground arith

module _ (p : Platform) (o : Observation) (now : String) (v : Prepared) where
  -- A link leaves the events and the cursors alone.
  pub link_source_keeps :
      (n : ℕ) (ext : Option String) (a b : Db)
      → link_source p o n now ext a ≡ (ok tt, b)
      → (b.events ≡ a.events) × (b.cursors ≡ a.cursors)
  unfolding link_source link_external_event insert_link
  link_source_keeps n none a b h = ground arith
  link_source_keeps n (some x) a b h = ground arith

  -- After it the source event is linked to the event.
  pub link_source_links :
      (n : ℕ) (x : String) (a b : Db)
      → link_source p o n now (some x) a ≡ (ok tt, b)
      → Option.map (λ (l : Link). l.watch_event_id) (link_by_event o.source x b) ≡ some n
  unfolding link_source link_external_event insert_link link_by_event new_link
  link_source_links n x a b h = ground (arith, eq_iff o.source o.source, eq_iff x x)

  pub suppressed_cong :
      (a b : Db)
      → b.cursors ≡ a.cursors
      → suppressed_by_boundary p o b ≡ suppressed_by_boundary p o a
  unfolding suppressed_by_boundary
  suppressed_cong a b h =
      ap (λ (cs : List CursorRow). suppressed_by_boundary p o (record a { cursors = cs })) h

  -- What a successful insertion of a new event leaves.
  pub ingest_new_shape :
      (a b : Db) (r : IngestResult)
      → ingest_new p o now v a ≡ (ok r, b)
      → let n = fresh_id (λ (e : Event). e.id) a.events in
        (b.events ≡ new_event p o now v n ∷ a.events)
        × (b.cursors ≡ a.cursors)
        × (r.watch_event_id ≡ some n)
  unfolding ingest_new
  ingest_new_shape a b r h =
      let n = fresh_id (λ (e : Event). e.id) a.events in
      let (_, c, inserted, rest) = bind_ok (insert_event (new_event p o now v n)) _ a r b h in
      let (_, d, linked, last) = bind_ok (link_source p o n now _) _ c r b rest in
      ground (arith, insert_event_ok (new_event p o now v n) a c, link_source_keeps n _ c d linked)

  pub duplicate_shape :
      (e : Event) (a b : Db) (r : IngestResult)
      → event_by_fingerprint v.fingerprint a ≡ some e
      → ingest_by_fingerprint p o now v a ≡ (ok r, b)
      → (link_source p o e.id now o.source_event_id a ≡ (ok tt, b)) × (r.watch_event_id ≡ some e.id)
  unfolding ingest_by_fingerprint
  duplicate_shape e a b r f h =
      let (_, c, linked, last) =
        bind_ok (link_source p o e.id now o.source_event_id) _ a r b
          (rw (f, ingest_by_fingerprint) at h) in
      ground arith

  pub body_fresh :
      (a : Db)
      → suppressed_by_boundary p o a ≡ false
      → known_source p o a ≡ none
      → ingest_body p o now v a ≡ ingest_by_fingerprint p o now v a
  unfolding ingest_body
  body_fresh a s e = rw (s, e)

  pub fingerprint_new :
      (a : Db)
      → event_by_fingerprint v.fingerprint a ≡ none
      → ingest_by_fingerprint p o now v a ≡ ingest_new p o now v a
  unfolding ingest_by_fingerprint
  fingerprint_new a e = rw (e, ingest_by_fingerprint)
