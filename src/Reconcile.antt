-- ===== src/Reconcile.antt =====
-- `reconcile_tautulli` of src/personal_ai_brain/tautulli_reconciliation.py over the ledger. A position
-- is a row id of the source's table, so that it is not negative.
pub mod Cursors
pub mod Batch
pub mod Advances
mod Tests
use personal_ai_brain.Prelude.{
  ℕ, ◌+◌, ◌-◌, max, ℤ, pos, negsuc, leb, ◌==◌, String, Bool, true, false, not, ◌&&◌, ◌||◌, Option,
  none, some, is_some, List, [], ◌∷◌, any, length, str_eq, is_negative, is_positive, Result, ok,
  err, if◌then◌else◌,
}
use personal_ai_brain.Prelude.Values.{Value, null, Fields, get, or_null, is_falsy}
use personal_ai_brain.Ledger.Schema.{
  Error, Platform, CursorText, watermark, other, CursorRow, Db, event_by_source, cursor_at,
}
use personal_ai_brain.Ledger.Ingest.{
  Observation, IngestResult, Status, historical_boundary_suppressed, duplicate_source_event,
  external_echo_suppressed, duplicate_fingerprint, quarantined, created, ingest_observation,
}
use personal_ai_brain.Plex.{PlexError, Plex, or_value, str, normalize}

pub record SourceEvent : Type 0 where
  pub position : ℕ
  pub payload : Fields

-- The `ReconciliationError`s by their messages, and `CursorNotInitialized`.
pub data ReconciliationError : Type 0 where
  bad_configuration invalid_cursor not_initialized read_failed : ReconciliationError
  outside_window duplicate_positions : ReconciliationError

-- What ends a batch at an event, in place of the name of the exception's class.
pub data Failure : Type 0 where
  not_normalized : PlexError → Failure
  not_ingested : Error → Failure
  resolver_raised hook_raised : Failure

pub record Counts : Type 0 where
  pub processed : ℕ
  pub created : ℕ
  pub duplicates : ℕ
  pub quarantined : ℕ

pub record ReconciliationResult : Type 0 where
  pub read_count : ℕ
  pub counts : Counts
  pub cursor : ℕ
  pub failed : Option (ℕ × Failure)

-- What is injected: the ledger's platform, the normalisation with what its resolver answers and
-- whether the resolver raises at an event, the source (none where it raises) and whether the hook
-- behind an ingest raises; and the options.
pub record Reconciler : Type 0 where
  pub platform : Platform
  pub plex : Plex
  pub resolver_raises : SourceEvent → Bool
  pub read_after : ℕ → ℕ → Option (List SourceEvent)
  pub after_ingest : SourceEvent → IngestResult → Bool
  pub account_scope : String
  pub initial_watermark : Option ℤ
  pub overlap : ℤ
  pub limit : ℤ

abbrev pub cursor_kind : String
cursor_kind = "tautulli_history_id"

-- The number in a cursor's text.
abbrev pub cursor_number : CursorText → Result ReconciliationError (Option ℕ)
cursor_number (watermark kind (pos n)) =
    if str_eq kind cursor_kind then ok (some n) else err invalid_cursor
cursor_number text = err invalid_cursor

abbrev pub row_number : Option CursorRow → Result ReconciliationError (Option ℕ)
row_number none = ok none
row_number (some row) = cursor_number row.cursor_or_watermark

-- `_cursor_value`
abbrev pub cursor_value : String → Db → Result ReconciliationError (Option ℕ)
cursor_value account_scope db = row_number (cursor_at "plex" account_scope db)

abbrev pub is_at : String → CursorRow → Bool
is_at account_scope c = str_eq c.source "plex" && str_eq c.account_scope account_scope

abbrev pub upsert_row : String → CursorRow → List CursorRow → List CursorRow
upsert_row account_scope row [] = row ∷ []
upsert_row account_scope row (c ∷ cs) =
    let later = upsert_row account_scope row cs in
    if is_at account_scope c
    then (record c {
      cursor_or_watermark = row.cursor_or_watermark;
      last_success_at = row.last_success_at;
      last_error_at = none;
    })
      ∷ cs
    else c ∷ later

abbrev pub mark_error : String → String → List CursorRow → List CursorRow
mark_error account_scope now [] = []
mark_error account_scope now (c ∷ cs) =
    let later = mark_error account_scope now cs in
    (if is_at account_scope c then record c { last_error_at = some now } else c) ∷ later

-- The events by their positions; those at one position keep their order.
abbrev pub insert_event : SourceEvent → List SourceEvent → List SourceEvent
insert_event e [] = e ∷ []
insert_event e (f ∷ fs) =
    let later = insert_event e fs in if leb e.position f.position then e ∷ f ∷ fs else f ∷ later

abbrev pub sort_events : List SourceEvent → List SourceEvent
sort_events [] = []
sort_events (e ∷ es) = insert_event e (sort_events es)

-- `any(left.position == right.position for left, right in zip(events, events[1:]))`
abbrev pub has_duplicates : List SourceEvent → Bool
has_duplicates [] = false
has_duplicates (e ∷ []) = false
has_duplicates (e ∷ f ∷ es) = e.position == f.position || has_duplicates (f ∷ es)

abbrev pub no_counts : Counts
no_counts = record { processed = 0; created = 0; duplicates = 0; quarantined = 0 }

-- An old event that the ledger has.
abbrev pub count_known : Counts → Counts
count_known c = record c { processed = c.processed + 1; duplicates = c.duplicates + 1 }

abbrev pub count_status : Status → Counts → Counts
count_status Status.created c = record c { processed = c.processed + 1; created = c.created + 1 }
count_status Status.quarantined c = record c {
  processed = c.processed + 1;
  quarantined = c.quarantined + 1;
}
count_status historical_boundary_suppressed c = record c { processed = c.processed + 1 }
count_status status c = record c { processed = c.processed + 1; duplicates = c.duplicates + 1 }

module _ (reconciler : Reconciler) where
  -- `_store_cursor`
  unfoldable pub store_cursor : ℕ → Db → Db
  store_cursor position db = record db {
    cursors =
        upsert_row reconciler.account_scope
          (record {
            source = "plex";
            account_scope = reconciler.account_scope;
            cursor_or_watermark = watermark cursor_kind (pos position);
            last_success_at = some reconciler.platform.clock;
            last_error_at = none;
          })
          db.cursors;
  }

  -- `_record_cursor_error`
  unfoldable pub record_cursor_error : Db → Db
  record_cursor_error db = record db {
    cursors = mark_error reconciler.account_scope reconciler.platform.clock db.cursors;
  }

  abbrev pub known_event : Value → Db → Bool
  known_event null db = false
  known_event v db = is_some (event_by_source "plex" (str reconciler.plex v) db)

  -- Whether the ledger has the source event of an old position.
  abbrev pub is_known : SourceEvent → Db → Bool
  is_known e db =
      known_event
        (or_value (or_null (get "history_id" e.payload)) (or_null (get "event_id" e.payload))) db

  abbrev pub hooked :
      SourceEvent → Result Error IngestResult × Db → Result Failure IngestResult × Db
  hooked e (err x, db) = (err (not_ingested x), db)
  hooked e (ok r, db) = (if reconciler.after_ingest e r then err hook_raised else ok r, db)

  abbrev pub ingest_normalized :
      SourceEvent → Result PlexError Observation → Db → Result Failure IngestResult × Db
  ingest_normalized e (err x) db = (err (not_normalized x), db)
  ingest_normalized e (ok o) db =
      if reconciler.resolver_raises e
      then (err resolver_raised, db)
      else hooked e (ingest_observation reconciler.platform o none db)

  -- One event: the normalisation, which asks the resolver last, the ingest and the hook.
  unfoldable pub ingest_event : SourceEvent → Db → Result Failure IngestResult × Db
  ingest_event e db =
      ingest_normalized e (normalize reconciler.plex e.payload "tautulli_reconciliation") db

  -- What follows an event: the batch ends, or the cursor advances and the loop goes on.
  abbrev pub after_event :
      ℕ
      → SourceEvent
      → Counts
      → ℕ
      → Result Failure IngestResult × Db
      → (Counts → ℕ → Db → ReconciliationResult × Db)
      → ReconciliationResult × Db
  after_event read e counts cursor (err x, db) next = (
    record { read_count = read; counts = counts; cursor = cursor; failed = some (e.position, x) },
    record_cursor_error db,
  )
  after_event read e counts cursor (ok r, db) next =
      next (count_status r.status counts) (max cursor e.position)
        (store_cursor (max cursor e.position) db)

  unfoldable pub run_batch : ℕ → List SourceEvent → Counts → ℕ → Db → ReconciliationResult × Db
  run_batch read [] counts cursor db =
      (record { read_count = read; counts = counts; cursor = cursor; failed = none }, db)
  run_batch read (e ∷ es) counts cursor db = elim (leb e.position cursor) [
    | true ↦ run_batch read es (if is_known e db then count_known counts else counts) cursor db
    | false ↦
        after_event read e counts cursor (ingest_event e db)
          (λ counts' cursor' db'. run_batch read es counts' cursor' db')
  ]

  abbrev pub natural : ℤ → ℕ
  natural (pos n) = n
  natural (negsuc n) = 0

  -- The checks of what the source returned, sorted.
  abbrev pub run_events :
      ℕ → List SourceEvent → ℕ → Db → Result ReconciliationError ReconciliationResult × Db
  run_events start events cursor db =
      if any (λ (e : SourceEvent). leb e.position start) events
      then (err outside_window, db)
      else if has_duplicates events
      then (err duplicate_positions, db)
      else (let r = run_batch (length events) events no_counts cursor db in (ok r.0, r.1))

  abbrev pub run_read :
      Option (List SourceEvent) → ℕ → ℕ → Db → Result ReconciliationError ReconciliationResult × Db
  run_read none start cursor db = (err read_failed, record_cursor_error db)
  run_read (some events) start cursor db = run_events start (sort_events events) cursor db

  -- The window starts some positions before the cursor, and not before 0.
  unfoldable pub run_from : ℕ → Db → Result ReconciliationError ReconciliationResult × Db
  run_from cursor db =
      let start = cursor - natural reconciler.overlap in
      run_read (reconciler.read_after start (natural reconciler.limit)) start cursor db

  abbrev pub initialize : Option ℤ → Db → Result ReconciliationError ReconciliationResult × Db
  initialize (some (pos n)) db = run_from n (store_cursor n db)
  initialize o db = (err not_initialized, db)

  abbrev pub resume :
      Result ReconciliationError (Option ℕ)
      → Db
      → Result ReconciliationError ReconciliationResult × Db
  resume (err e) db = (err e, db)
  resume (ok none) db = initialize reconciler.initial_watermark db
  resume (ok (some cursor)) db = run_from cursor db

  -- `reconcile_tautulli`
  unfoldable pub reconcile : Db → Result ReconciliationError ReconciliationResult × Db
  reconcile db =
      if str_eq reconciler.account_scope ""
        || is_negative reconciler.overlap
        || not (is_positive reconciler.limit)
      then (err bad_configuration, db)
      else resume (cursor_value reconciler.account_scope db) db
