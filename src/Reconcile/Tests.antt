-- ===== src/Reconcile/Tests.antt =====
-- A run over two events of which the second has no time.
use personal_ai_brain.Prelude.{
  ℕ, pos, String, ◌≡◌, refl, false, Option, none, some, List, [], ◌∷◌, member, ok, err,
}
use personal_ai_brain.Prelude.Values.{Value, integer, text, Fields, end, field}
use personal_ai_brain.Ledger.Schema.{
  Platform, Payload, watermark, CursorRow, Db, event_fits, link_by_event, event_by_id,
  event_by_source, cursor_at,
}
use personal_ai_brain.Ledger.Schema
use personal_ai_brain.Ledger.Ingest.{
  IngestResult, ingest_observation, prepare, check_observation, event_fingerprint, payload,
  ingest_body, suppressed_by_boundary, known_source, ingest_by_fingerprint, ingest_new, new_event,
  link_source, link_external_event, new_link,
}
use personal_ai_brain.Ledger.Ingest
use personal_ai_brain.Plex.{
  PlexIdentityEvidence, Plex, zoneless, no_timestamp, timestamp, normalize_metadata, normalize,
}
use personal_ai_brain.Reconcile.{
  SourceEvent, not_normalized, invalid_cursor, ReconciliationResult, Reconciler, cursor_value,
  store_cursor, record_cursor_error, ingest_event, run_batch, run_from, reconcile,
}
use personal_ai_brain.Reconcile.Batch.{IsAdvanced}
use personal_ai_brain.Reconcile.Advances.{fresh, reconcile-IsAdvanced}

abbrev plex : Plex
plex = record {
  show = λ (v : Value). "7";
  fromtimestamp = λ (v : Value). some "2026-01-01T00:00:00Z";
  fromisoformat = λ (t : String). zoneless;
  provenance = λ (via : String) (key : Option String) (guids : List String). "{}";
  resolve_identity = λ (e : PlexIdentityEvidence).
      some (record { local_media_id = pos 7; media_kind = "movie"; external_media_id = none });
}

abbrev platform : Platform
platform = record {
  normalize = λ (t : String). some t;
  fingerprint = λ (p : Payload). "f";
  request_hash = λ (t : String). t;
  key_hash = λ (n : ℕ) (t u : String). u;
  int_of = λ (t : String). none;
  clock = "2026-01-02T00:00:00Z";
}

abbrev movie : Fields
movie = field "media_type" (text "movie") end

abbrev timed : SourceEvent
timed = record {
  position = 5;
  payload = field "history_id" (text "e5") (field "watched_at" (integer (pos 9)) movie);
}

abbrev untimed : SourceEvent
untimed = record { position = 6; payload = movie }

-- The source returns the later event first.
abbrev events : List SourceEvent
events = untimed ∷ timed ∷ []

abbrev reconciler : Reconciler
reconciler = record {
  platform = platform;
  plex = plex;
  resolver_raises = λ (e : SourceEvent). false;
  read_after = λ (start limit : ℕ). some events;
  after_ingest = λ (e : SourceEvent) (r : IngestResult). false;
  account_scope = "me";
  initial_watermark = some (pos 4);
  overlap = pos 2;
  limit = pos 100;
}

abbrev empty : Db
empty = record { events = []; links = []; deliveries = []; cursors = [] }

abbrev result : ReconciliationResult
result = record {
  read_count = 2;
  counts = record { processed = 1; created = 1; duplicates = 0; quarantined = 0 };
  cursor = 5;
  failed = some (6, not_normalized no_timestamp);
}

-- The state that the run leaves.
after : Db
unfolding reconcile
after = (reconcile reconciler empty).1

ran : reconcile reconciler empty ≡ (ok result, after)
unfolding after reconcile run_from run_batch ingest_event store_cursor record_cursor_error normalize
    normalize_metadata timestamp link_by_event ingest_observation prepare check_observation
    event_fingerprint payload ingest_body suppressed_by_boundary known_source ingest_by_fingerprint
    ingest_new new_event link_source link_external_event new_link event_fits member event_by_id
    event_by_source cursor_at Ingest.timestamp Schema.insert_event Schema.insert_link
ran = refl

unset : cursor_value "me" empty ≡ ok none
unfolding cursor_at
unset = refl

reconcile-IsAdvanced_example : IsAdvanced reconciler events 4 empty result after
reconcile-IsAdvanced_example =
    reconcile-IsAdvanced reconciler empty 4 events result after (fresh unset refl) refl ran

-- A migration boundary of the same source and scope is no cursor of this kind.
abbrev bounded : Db
bounded = record empty {
  cursors =
      record {
        source = "plex";
        account_scope = "me";
        cursor_or_watermark = watermark "event_id_lte" (pos 4);
        last_success_at = none;
        last_error_at = none;
      }
      ∷ [];
}

boundary_refused : (reconcile reconciler bounded).0 ≡ err invalid_cursor
unfolding reconcile cursor_at
boundary_refused = refl
