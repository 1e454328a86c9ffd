-- ===== src/Ledger/Schema.antt =====
-- The tables of src/personal_ai_brain/sql/001_watched_event_ledger.sql with the constraints that
-- SQLite enforces on an INSERT, the errors of src/personal_ai_brain/watched_ledger.py, and the
-- functions of the standard library that the ledger calls and this development does not compute.
use personal_ai_brain.Prelude.{
  ℕ, ℤ, String, Bool, true, false, not, ◌&&◌, ◌||◌, Option, none, some, List, [], ◌∷◌, ◌==◌, str_eq,
  is_text, is_some, member, find?, any, Exec, ok, err, if◌then◌else◌,
}

-- `LedgerError` by its messages, its subclass `DuplicateIdempotencyKey`, and the
-- `sqlite3.IntegrityError` that a violated constraint raises.
pub data Error : Type 0 where
  bad_timestamp : Error
  bad_provenance : Error
  bad_boundary : Error
  bad_media_kind bad_precision bad_source bad_confidence : Error
  bad_identity missing_identity identified_quarantine : Error
  bad_link link_conflict : Error
  self_supersede bad_supersede : Error
  bad_delivery_event duplicate_key : Error
  bad_state bad_transition missing_target_event missing_retry : Error
  integrity : Error

-- What `event_fingerprint` hashes: the two shapes of `payload`.
pub data Payload : Type 0 where
  identified : ℤ → String → String → String → Payload
  unidentified : String → String → String → Option String → Option String → Payload

-- `_timestamp` on a text (none where it raises), SHA-256 of the canonical JSON of a payload, of a
-- delivery's request and of the key text, `int` of a text, and `utc_now`.
pub record Platform : Type 0 where
  pub normalize : String → Option String
  pub fingerprint : Payload → String
  pub request_hash : String → String
  pub key_hash : ℕ → String → String → String
  pub int_of : String → Option ℤ
  pub clock : String

pub record Event : Type 0 where
  pub id : ℕ
  pub local_media_id : Option ℤ
  pub media_kind : String
  pub watched_at : String
  pub watched_date_precision : String
  pub source : String
  pub provenance : String
  pub source_event_id : Option String
  pub confidence : String
  pub imported_at : String
  pub event_fingerprint : String
  pub superseded_by : Option ℕ
  pub quarantine_reason : Option String
  pub created_at : String

pub record Link : Type 0 where
  pub id : ℕ
  pub watch_event_id : ℕ
  pub system : String
  pub external_event_id : String
  pub external_media_id : Option String
  pub linked_at : String

pub data State : Type 0 where
  pending in_flight verified retry_wait ambiguous failed : State

pub record DeliveryRow : Type 0 where
  pub id : ℕ
  pub watch_event_id : ℕ
  pub target : String
  pub operation : String
  pub idempotency_key : String
  pub request_hash : String
  pub state : State
  pub attempt_count : ℕ
  pub next_attempt_at : Option String
  pub last_http_status : Option ℕ
  pub last_error_class : Option String
  pub target_event_id : Option String
  pub started_at : Option String
  pub verified_at : Option String

-- The text of a cursor: a JSON object with a kind and an integer value, or no JSON or an object of
-- another form. A JSON text that is no object, which no code writes, is left out.
pub data CursorText : Type 0 where
  watermark : String → ℤ → CursorText
  other : CursorText

pub record CursorRow : Type 0 where
  pub source : String
  pub account_scope : String
  pub cursor_or_watermark : CursorText
  pub last_success_at : Option String
  pub last_error_at : Option String

-- Each table has its newest row first.
pub record Db : Type 0 where
  pub events : List Event
  pub links : List Link
  pub deliveries : List DeliveryRow
  pub cursors : List CursorRow

abbrev pub Ledger : Type 0 → Type 0
Ledger A = Exec Db Error A

abbrev pub media_kinds : List String
media_kinds = "movie" ∷ "episode" ∷ []

abbrev pub precisions : List String
precisions = "exact" ∷ "date_only" ∷ "legacy_placeholder" ∷ []

abbrev pub sources : List String
sources = "plex" ∷ "trakt" ∷ "manual" ∷ "agent" ∷ "migration" ∷ []

abbrev pub confidences : List String
confidences = "high" ∷ "medium" ∷ "low" ∷ []

-- SELECT ... WHERE id=?
unfoldable pub event_by_id : ℕ → Db → Option Event
event_by_id n db = find? (λ e. e.id == n) db.events

-- SELECT ... WHERE source=? AND source_event_id=?
unfoldable pub event_by_source : String → String → Db → Option Event
event_by_source s i db = find? (λ e. str_eq e.source s && is_text e.source_event_id i) db.events

-- SELECT ... WHERE event_fingerprint=?
unfoldable pub event_by_fingerprint : String → Db → Option Event
event_by_fingerprint f db = find? (λ e. str_eq e.event_fingerprint f) db.events

-- SELECT ... WHERE system=? AND external_event_id=?
unfoldable pub link_by_event : String → String → Db → Option Link
link_by_event s i db = find? (λ l. str_eq l.system s && str_eq l.external_event_id i) db.links

-- SELECT ... WHERE source=? AND account_scope=?
unfoldable pub cursor_at : String → String → Db → Option CursorRow
cursor_at s a db = find? (λ c. str_eq c.source s && str_eq c.account_scope a) db.cursors

-- The last CHECK of `watch_events`: identified without a reason, or not identified with one.
unfoldable pub identity_check : Option ℤ → Option String → Bool
identity_check (some _) none = true
identity_check none (some _) = true
identity_check _ _ = false

source_taken : Event → Db → Bool
unfolding event_by_source
source_taken e db = elim e.source_event_id [
  | none ↦ false
  | some i ↦ is_some (event_by_source e.source i db)
]

-- The CHECK, UNIQUE and PRIMARY KEY constraints of `watch_events`.
unfoldable pub event_fits : Event → Db → Bool
unfolding identity_check source_taken event_by_id event_by_fingerprint
event_fits e db =
    member e.media_kind media_kinds
    && member e.watched_date_precision precisions
    && member e.source sources
    && member e.confidence confidences
    && identity_check e.local_media_id e.quarantine_reason
    && not (is_some (event_by_id e.id db))
    && not (is_some (event_by_fingerprint e.event_fingerprint db))
    && not (source_taken e db)

unfoldable pub insert_event : Event → Ledger Unit
insert_event e db =
    if event_fits e db then (ok tt, record db { events = e ∷ db.events }) else (err integrity, db)

-- The UNIQUE and REFERENCES constraints of `external_event_links`, with foreign keys on.
unfoldable pub insert_link : Link → Ledger Unit
insert_link l db =
    if is_some (link_by_event l.system l.external_event_id db)
      || not (is_some (event_by_id l.watch_event_id db))
    then (err integrity, db)
    else (ok tt, record db { links = l ∷ db.links })

unfoldable pub key_taken : String → String → List DeliveryRow → Bool
key_taken t k rows = any (λ d. str_eq d.target t && str_eq d.idempotency_key k) rows

-- The UNIQUE and REFERENCES constraints of `sync_deliveries`.
unfoldable pub insert_delivery : DeliveryRow → Ledger Unit
insert_delivery d db =
    if key_taken d.target d.idempotency_key db.deliveries
      || not (is_some (event_by_id d.watch_event_id db))
    then (err integrity, db)
    else (ok tt, record db { deliveries = d ∷ db.deliveries })

-- SELECT ... WHERE id=?
unfoldable pub delivery_by_id : ℕ → Db → Option DeliveryRow
delivery_by_id n db = find? (λ d. d.id == n) db.deliveries
