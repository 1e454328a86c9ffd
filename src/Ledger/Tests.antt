-- ===== src/Ledger/Tests.antt =====
-- Runs of src/personal_ai_brain/watched_ledger.py on small inputs, and the theorems at them.
use personal_ai_brain.Prelude.{
  ℕ, pos, String, ◌≡◌, refl, true, false, none, some, List, [], ◌∷◌, ◌==◌, ok, err, Result, is_some,
  member, ◌&&◌, keep, length, All, text_leb,
}
use personal_ai_brain.Ledger.Schema.{
  Error, Platform, Payload, identified, unidentified, Event, Link, State, pending, in_flight,
  verified, DeliveryRow, Db, event_fits, insert_event, insert_link, link_by_event, key_taken,
  event_by_id, delivery_by_id, integrity, insert_delivery, duplicate_key,
}
use personal_ai_brain.Ledger.Ingest.{
  Observation, IngestResult, created, ingest_observation, prepare, check_observation, timestamp,
  event_fingerprint, payload, ingest_body, suppressed_by_boundary, known_source,
  ingest_by_fingerprint, ingest_new, new_event, link_source, link_external_event, new_link,
}
use personal_ai_brain.Ledger.Ingest.Replay.{ingest_observation-replay, Repeats}
use personal_ai_brain.Ledger.Ingest.Constraints.{ingest_observation-integrity}
use personal_ai_brain.Ledger.Delivery.{
  Delivery, Report, create_delivery, new_delivery, undeliverable, transition_delivery,
  transition_to, perform, movable, allowed, transitions, state_of, moved, update_row,
  recover_restart_work, quarantine_stale, is_stale, is_runnable, runnable_ids, insert_id,
}
use personal_ai_brain.Ledger.Delivery.Machine.{send, name, transition_delivery-grants}
use personal_ai_brain.Ledger.Delivery.Creation.{create_delivery-once}
use personal_ai_brain.Ledger.Delivery.History.{Evolves}
use personal_ai_brain.Ledger.Session.{Call, recovers, ingests, commits, rolls_back, run, settled_at}
use personal_ai_brain.Ledger.Session.Lasting.{run-Evolves, run-terminal}
use personal_ai_brain.Ledger.Delivery.Recovery.{
  IsSorted, occurrences, recover_restart_work-runnable, recover_restart_work-again,
}

abbrev hash_payload : Payload → String
hash_payload (identified m k s t) = t
hash_payload (unidentified k s t r e) = "quarantined"

abbrev platform : Platform
platform = record {
  normalize = λ s. some s;
  fingerprint = hash_payload;
  request_hash = λ s. s;
  key_hash = λ n t o. t;
  int_of = λ s. none;
  clock = "2026-01-02T00:00:00Z";
}

abbrev empty : Db
empty = record { events = []; links = []; deliveries = []; cursors = [] }

abbrev watch : Observation
watch = record {
  media_kind = "movie";
  local_media_id = some (pos 7);
  watched_at = "2026-01-01T00:00:00Z";
  watched_date_precision = "exact";
  source = "plex";
  provenance = some "{}";
  source_event_id = some "e1";
  confidence = "high";
  account_scope = "default";
  external_media_id = none;
  quarantine_reason = none;
}

abbrev watch_event : Event
watch_event = record {
  id = 1;
  local_media_id = some (pos 7);
  media_kind = "movie";
  watched_at = "2026-01-01T00:00:00Z";
  watched_date_precision = "exact";
  source = "plex";
  provenance = "{}";
  source_event_id = some "e1";
  confidence = "high";
  imported_at = "2026-01-02T00:00:00Z";
  event_fingerprint = "2026-01-01T00:00:00Z";
  superseded_by = none;
  quarantine_reason = none;
  created_at = "2026-01-02T00:00:00Z";
}

abbrev watch_link : Link
watch_link = record {
  id = 1;
  watch_event_id = 1;
  system = "plex";
  external_event_id = "e1";
  external_media_id = none;
  linked_at = "2026-01-02T00:00:00Z";
}

abbrev ingested : Db
ingested = record {
  events = watch_event ∷ [];
  links = watch_link ∷ [];
  deliveries = [];
  cursors = [];
}

abbrev new_watch : IngestResult
new_watch = record { status = created; watch_event_id = some 1; outbound_allowed = true }

-- Opening this opens what an ingest calls.
ingest : Observation → Db → Result Error IngestResult × Db
unfolding link_by_event ingest_observation prepare check_observation timestamp event_fingerprint
    payload ingest_body suppressed_by_boundary known_source ingest_by_fingerprint ingest_new
    new_event link_source link_external_event new_link insert_event insert_link event_fits member
    event_by_id
ingest o db = ingest_observation platform o none db

-- A first ingest stores the event and its link.
ingest_watch : ingest_observation platform watch none empty ≡ (ok new_watch, ingested)
unfolding ingest
ingest_watch = refl

ingest_observation-replay_example :
    ((ingest_observation platform watch (some "later") ingested).1 ≡ ingested)
    × Repeats (some 1) (ingest_observation platform watch (some "later") ingested).0
ingest_observation-replay_example =
    ingest_observation-replay platform watch none (some "later") empty ingested new_watch
      ingest_watch

-- An empty source event is refused by the link, behind the insertion of the event.
abbrev blank : Observation
blank = record watch { source_event_id = some "" }

-- An identified observation with an empty reason passes the guards and violates the CHECK.
abbrev hollow : Observation
hollow = record watch { quarantine_reason = some "" }

ingest_hollow : (ingest_observation platform hollow none empty).0 ≡ err integrity
unfolding ingest
ingest_hollow = refl

ingest_observation-integrity_example :
    (is_some hollow.local_media_id ≡ true) × (hollow.quarantine_reason ≡ some "")
ingest_observation-integrity_example =
    ingest_observation-integrity platform hollow none empty ingest_hollow

-- A delivery of the event, sent, and found in flight at a restart.
abbrev row : DeliveryRow
row = record {
  id = 1;
  watch_event_id = 1;
  target = "trakt";
  operation = "scrobble";
  idempotency_key = "trakt";
  request_hash = "{}";
  state = pending;
  attempt_count = 0;
  next_attempt_at = none;
  last_http_status = none;
  last_error_class = none;
  target_event_id = none;
  started_at = none;
  verified_at = none;
}

abbrev queued : Db
queued = record ingested { deliveries = row ∷ [] }

abbrev queued_delivery : Delivery
queued_delivery = record { id = 1; state = pending; attempt_count = 0 }

deliver : Db → Result Error Delivery × Db
unfolding key_taken create_delivery insert_delivery new_delivery undeliverable event_by_id
deliver db = create_delivery platform 1 "trakt" "scrobble" (some "{}") none db

create_row :
    create_delivery platform 1 "trakt" "scrobble" (some "{}") none ingested
    ≡ (ok queued_delivery, queued)
unfolding deliver
create_row = refl

create_delivery-once_example :
    (e : Event) × (event_by_id 1 ingested ≡ some e)
    × (e.quarantine_reason ≡ none)
    × (e.superseded_by ≡ none)
    × (create_delivery platform 1 "trakt" "scrobble" (some "{}") none queued
        ≡ (err duplicate_key, queued))
create_delivery-once_example =
    create_delivery-once platform 1 "trakt" "scrobble" (some "{}") none ingested queued
      queued_delivery create_row

abbrev sending : Report
sending = record {
  at = some "2026-01-03T00:00:00Z";
  next_attempt_at = none;
  http_status = none;
  error_class = none;
  target_event_id = none;
}

abbrev sent_row : DeliveryRow
sent_row = record row {
  state = in_flight;
  attempt_count = 1;
  started_at = some "2026-01-03T00:00:00Z";
}

abbrev sent : Db
sent = record ingested { deliveries = sent_row ∷ [] }

abbrev sent_delivery : Delivery
sent_delivery = record { id = 1; state = in_flight; attempt_count = 1 }

move : State → Report → Db → Result Error Delivery × Db
unfolding transition_delivery transition_to perform movable allowed transitions state_of moved
    update_row delivery_by_id name
move t r db = transition_delivery platform 1 (name t) r db

found_first : delivery_by_id 1 queued ≡ some row
unfolding delivery_by_id
found_first = refl

transition_delivery-grants_example :
    (transition_delivery platform 1 (name in_flight) sending queued).0 ≡ ok sent_delivery
transition_delivery-grants_example =
    transition_delivery-grants platform 1 in_flight sending queued row found_first send refl

-- The delivery is sent and verified; an ingest that raises behind the insertion of its event then
-- undoes what was not committed.
abbrev later_calls : List Call
later_calls =
    Call.transitions 1 "in_flight" sending
    ∷ commits
    ∷ recovers "2026-01-04T00:00:00Z" "2026-01-03T12:00:00Z"
    ∷ Call.transitions 1 "verified" sending
    ∷ ingests blank none
    ∷ rolls_back
    ∷ []

run-Evolves_example :
    (y : DeliveryRow) × (delivery_by_id 1 (run platform later_calls (settled_at queued)).committed
      ≡ some y)
    × Evolves row y
    × ((z : DeliveryRow) × (delivery_by_id 1 (run platform later_calls (settled_at queued)).working
          ≡ some z)
        × Evolves y z)
run-Evolves_example = run-Evolves platform later_calls 1 queued row found_first

abbrev done_row : DeliveryRow
done_row = record sent_row {
  state = verified;
  target_event_id = some "t9";
  verified_at = some "2026-01-03T01:00:00Z";
}

abbrev done : Db
done = record ingested { deliveries = done_row ∷ [] }

found_done : delivery_by_id 1 done ≡ some done_row
unfolding delivery_by_id
found_done = refl

run-terminal_example :
    (delivery_by_id 1 (run platform later_calls (settled_at done)).committed ≡ some done_row)
    × (delivery_by_id 1 (run platform later_calls (settled_at done)).working ≡ some done_row)
run-terminal_example = run-terminal platform later_calls 1 done done_row found_done refl

-- After a restart the delivery in flight is ambiguous, and the pending one is to be sent.
abbrev two_rows : Db
two_rows = record ingested {
  deliveries = record row { id = 2; idempotency_key = "k2" } ∷ sent_row ∷ [];
}

abbrev two_recovered : Db
two_recovered = record ingested {
  deliveries =
      record row { id = 2; idempotency_key = "k2" }
      ∷ record sent_row {
        state = State.ambiguous;
        last_error_class = some "restart_during_in_flight";
      }
      ∷ [];
}

restart : Db → Result Error (List ℕ) × Db
unfolding recover_restart_work timestamp quarantine_stale is_stale runnable_ids insert_id
    is_runnable text_leb
restart db = recover_restart_work platform "2026-01-04T00:00:00Z" "2026-01-03T12:00:00Z" db

recover_two :
    recover_restart_work platform "2026-01-04T00:00:00Z" "2026-01-03T12:00:00Z" two_rows
    ≡ (ok (2 ∷ []), two_recovered)
unfolding restart
recover_two = refl

recover_restart_work-runnable_example :
    (due : String) × (stale : String) × (some "2026-01-04T00:00:00Z" ≡ some due)
    × (some "2026-01-03T12:00:00Z" ≡ some stale)
    × All (λ d. is_stale stale d ≡ false) two_recovered.deliveries
    × IsSorted (2 ∷ [])
    × (occurrences 2 (2 ∷ [])
        ≡ length (keep (λ d. d.id == 2 && is_runnable due d) two_recovered.deliveries))
recover_restart_work-runnable_example =
    recover_restart_work-runnable platform "2026-01-04T00:00:00Z" "2026-01-03T12:00:00Z" two_rows
      two_recovered (2 ∷ []) recover_two 2

recover_restart_work-again_example :
    recover_restart_work platform "2026-01-04T00:00:00Z" "2026-01-03T12:00:00Z" two_recovered
    ≡ (ok (2 ∷ []), two_recovered)
recover_restart_work-again_example =
    recover_restart_work-again platform "2026-01-04T00:00:00Z" "2026-01-03T12:00:00Z" two_rows
      two_recovered (2 ∷ []) recover_two
