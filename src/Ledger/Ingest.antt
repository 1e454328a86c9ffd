-- ===== src/Ledger/Ingest.antt =====
-- The ingest side of src/personal_ai_brain/watched_ledger.py: fingerprints, migration
-- boundaries, `ingest_observation`, links and corrections.
pub mod Atomic
pub mod Frame
pub mod Constraints
pub mod Writes
pub mod Replay
use personal_ai_brain.Prelude.{
  ℕ, ℤ, String, Bool, true, false, not, ◌&&◌, ◌||◌, Option, none, some, List, [], ◌∷◌, ◌==◌, str_eq,
  is_some, falsy, or_else, member, fresh_id, raise_if, modify, pure, ◌>>=◌, ◌>>◌, gets, or_raise,
  ok, err, transaction, leb_ℤ, is_negative, is_positive, if◌then◌else◌,
}
use personal_ai_brain.Ledger.Schema.{
  Payload, identified, unidentified, Platform, Event, Link, CursorText, watermark, other, CursorRow,
  Db, Ledger, media_kinds, precisions, sources, confidences, event_by_id, event_by_source,
  event_by_fingerprint, link_by_event, cursor_at, insert_event, insert_link, bad_timestamp,
  bad_provenance, bad_boundary, bad_media_kind, bad_precision, bad_source, bad_confidence,
  bad_identity, missing_identity, identified_quarantine, bad_link, link_conflict, self_supersede,
  bad_supersede,
}

-- `provenance` is its canonical JSON text, or none where `json.dumps` raises.
pub record Observation : Type 0 where
  pub media_kind : String
  pub local_media_id : Option ℤ
  pub watched_at : String
  pub watched_date_precision : String
  pub source : String
  pub provenance : Option String
  pub source_event_id : Option String
  pub confidence : String
  pub account_scope : String
  pub external_media_id : Option String
  pub quarantine_reason : Option String

-- The strings that `IngestResult.status` takes.
pub data Status : Type 0 where
  historical_boundary_suppressed : Status
  duplicate_source_event : Status
  external_echo_suppressed : Status
  duplicate_fingerprint : Status
  quarantined : Status
  created : Status

pub record IngestResult : Type 0 where
  pub status : Status
  pub watch_event_id : Option ℕ
  pub outbound_allowed : Bool

unfoldable pub upsert_cursor : CursorRow → List CursorRow → List CursorRow
upsert_cursor row [] = row ∷ []
upsert_cursor row (c ∷ cs) =
    if str_eq c.source row.source && str_eq c.account_scope row.account_scope
    then (record c {
      cursor_or_watermark = row.cursor_or_watermark;
      last_success_at = row.last_success_at;
    })
      ∷ cs
    else c ∷ upsert_cursor row cs

-- The values that one ingest computes before its transaction.
pub record Prepared : Type 0 where
  pub watched_at : String
  pub provenance : String
  pub fingerprint : String

module _ (platform : Platform) where
  -- `_timestamp`
  unfoldable pub timestamp : String → Ledger String
  timestamp value =
      or_raise (if str_eq value "" then none else platform.normalize value) bad_timestamp

  unfoldable pub payload : Observation → String → Payload
  payload o watched_at = elim o.local_media_id [
    | some m ↦ identified m o.media_kind o.source watched_at
    | none ↦ unidentified o.media_kind o.source watched_at o.quarantine_reason o.source_event_id
  ]

  unfoldable pub event_fingerprint : Observation → Ledger String
  event_fingerprint o = do
    watched_at ← timestamp o.watched_at
    pure (platform.fingerprint (payload o watched_at))

  unfoldable pub set_migration_boundary : String → String → ℤ → Option String → Ledger Unit
  unfolding upsert_cursor
  set_migration_boundary source account_scope maximum_source_event_id at = do
    raise_if
        (not (member source sources)
          || is_negative maximum_source_event_id
          || str_eq account_scope "")
        bad_boundary
    let row : CursorRow = record {
      source = source;
      account_scope = account_scope;
      cursor_or_watermark = watermark "event_id_lte" maximum_source_event_id;
      last_success_at = some (or_else at platform.clock);
      last_error_at = none;
    }
    modify (λ db. record db { cursors = upsert_cursor row db.cursors })

  unfoldable pub at_most_boundary : String → CursorText → Bool
  at_most_boundary event (watermark kind value) =
      str_eq kind "event_id_lte"
      && elim (platform.int_of event) [ none ↦ false | some n ↦ leb_ℤ n value ]
  at_most_boundary event other = false

  -- `_suppressed_by_boundary`
  unfoldable pub suppressed_by_boundary : Observation → Db → Bool
  unfolding at_most_boundary cursor_at
  suppressed_by_boundary o db = elim o.source_event_id [
    | none ↦ false
    | some event ↦ elim (cursor_at o.source o.account_scope db) [
      | none ↦ false
      | some row ↦ at_most_boundary event row.cursor_or_watermark
    ]
  ]

  unfoldable pub new_link : ℕ → String → String → Option String → Option String → Db → Link
  new_link event system external media linked_at db = record {
    id = fresh_id (λ (l : Link). l.id) db.links;
    watch_event_id = event;
    system = system;
    external_event_id = external;
    external_media_id = media;
    linked_at = or_else linked_at platform.clock;
  }

  unfoldable pub link_external_event :
      ℕ → String → String → Option String → Option String → Ledger Unit
  link_external_event event system external media linked_at db =
      if str_eq system "" || str_eq external ""
      then (err bad_link, db)
      else elim (link_by_event system external db) [
        | some l ↦ (if l.watch_event_id == event then ok tt else err link_conflict, db)
        | none ↦ insert_link (new_link event system external media linked_at db) db
      ]

  -- The guards of `ingest_observation`, in its order.
  unfoldable pub check_observation : Observation → Ledger Unit
  check_observation o = do
    raise_if (not (member o.media_kind media_kinds)) bad_media_kind
    raise_if (not (member o.watched_date_precision precisions)) bad_precision
    raise_if (not (member o.source sources)) bad_source
    raise_if (not (member o.confidence confidences)) bad_confidence
    raise_if (elim o.local_media_id [ none ↦ false | some m ↦ not (is_positive m) ]) bad_identity
    raise_if (not (is_some o.local_media_id) && falsy o.quarantine_reason) missing_identity
    raise_if (is_some o.local_media_id && not (falsy o.quarantine_reason)) identified_quarantine

  unfoldable pub new_event : Observation → String → Prepared → ℕ → Event
  new_event o now values n = record {
    id = n;
    local_media_id = o.local_media_id;
    media_kind = o.media_kind;
    watched_at = values.watched_at;
    watched_date_precision = o.watched_date_precision;
    source = o.source;
    provenance = values.provenance;
    source_event_id = o.source_event_id;
    confidence = o.confidence;
    imported_at = now;
    event_fingerprint = values.fingerprint;
    superseded_by = none;
    quarantine_reason = o.quarantine_reason;
    created_at = now;
  }

  -- `link_external_event` where the observation has a source event.
  unfoldable pub link_source : Observation → ℕ → String → Option String → Ledger Unit
  link_source o event now none = pure tt
  link_source o event now (some external) =
      link_external_event event o.source external o.external_media_id (some now)

  -- The part that inserts a new event.
  unfoldable pub ingest_new : Observation → String → Prepared → Ledger IngestResult
  ingest_new o now values = do
    n ← gets (λ db. fresh_id (λ (e : Event). e.id) db.events)
    insert_event (new_event o now values n)
    link_source o n now (if is_some o.local_media_id then o.source_event_id else none)
    pure (record {
      status = if is_some o.local_media_id then created else quarantined;
      watch_event_id = some n;
      outbound_allowed = is_some o.local_media_id;
    })

  -- The part behind the tests on the source event.
  unfoldable pub ingest_by_fingerprint : Observation → String → Prepared → Ledger IngestResult
  ingest_by_fingerprint o now values db = elim (event_by_fingerprint values.fingerprint db) [
    | some e ↦
        (do
          link_source o e.id now o.source_event_id
          pure (record {
            status = duplicate_fingerprint;
            watch_event_id = some e.id;
            outbound_allowed = not (is_some e.quarantine_reason);
          }))
          db
    | none ↦ ingest_new o now values db
  ]

  -- What the tests on the source event return, if they return.
  unfoldable pub known_source : Observation → Db → Option IngestResult
  known_source o db = elim o.source_event_id [
    | none ↦ none
    | some event ↦ elim (event_by_source o.source event db) [
      | some e ↦ some (record {
        status = duplicate_source_event;
        watch_event_id = some e.id;
        outbound_allowed = not (is_some e.quarantine_reason);
      })
      | none ↦ elim (link_by_event o.source event db) [
        | some l ↦ some (record {
          status = external_echo_suppressed;
          watch_event_id = some l.watch_event_id;
          outbound_allowed = false;
        })
        | none ↦ none
      ]
    ]
  ]

  -- The body of the transaction.
  unfoldable pub ingest_body : Observation → String → Prepared → Ledger IngestResult
  ingest_body o now values db =
      if suppressed_by_boundary o db
      then (
        ok (record {
          status = historical_boundary_suppressed;
          watch_event_id = none;
          outbound_allowed = false;
        }),
        db,
      )
      else elim (known_source o db) [
        | some result ↦ (ok result, db)
        | none ↦ ingest_by_fingerprint o now values db
      ]

  -- What `ingest_observation` computes before it opens the transaction.
  unfoldable pub prepare : Observation → Ledger Prepared
  prepare o = do
    check_observation o
    watched_at ← timestamp o.watched_at
    provenance ← or_raise o.provenance bad_provenance
    fingerprint ← event_fingerprint o
    pure (record { watched_at = watched_at; provenance = provenance; fingerprint = fingerprint })

  unfoldable pub ingest_observation : Observation → Option String → Ledger IngestResult
  ingest_observation o imported_at = do
    values ← prepare o
    transaction (ingest_body o (or_else imported_at platform.clock) values)

unfoldable pub mark_superseded : ℕ → ℕ → List Event → List Event
mark_superseded old replacement [] = []
mark_superseded old replacement (e ∷ es) =
    (if e.id == old then record e { superseded_by = some replacement } else e)
    ∷ mark_superseded old replacement es

-- The body of the transaction of `supersede_event`.
unfoldable pub supersede_body : ℕ → ℕ → Ledger Unit
supersede_body old_id replacement_id = do
  old ← gets (event_by_id old_id)
  replacement ← gets (event_by_id replacement_id)
  raise_if
      (not (is_some replacement) || elim old [ none ↦ true | some e ↦ is_some e.superseded_by ])
      bad_supersede
  modify (λ db. record db { events = mark_superseded old_id replacement_id db.events })

unfoldable pub supersede_event : ℕ → ℕ → Ledger Unit
supersede_event old_id replacement_id = do
  raise_if (old_id == replacement_id) self_supersede
  transaction (supersede_body old_id replacement_id)
